-- ===== src/Hihat/Installs.antt =====
-- The compare-and-swap of a record in hihat.c, won or lost.
use hatrack.Prelude.{
  fun_ext, ℕ, suc, ◌+◌, ◌^◌, ◌<◌, ◌≡◌, refl, sym, ◌∙◌, arith, true, false, ◌==◌, if◌then◌else◌,
  Option, none, some, List, [], ◌∷◌, inl, inr, Bool-cases, or_else,
}
use hatrack.Common.{Hash, Pointer, not_found, found_item}
use hatrack.FiniteMap.{
  Op, op_get, op_put, op_replace, op_add, op_remove, reply, added, Map, update, spec, hash_of,
}
use hatrack.Refhat
use hatrack.Hihat.{Record, Bucket, bucket_at, Hihat, set_record, same_record}
use hatrack.Hihat.Steps.{
  Pc, tallying, finished, Event, quiet, acts, with_store, installed, missed, install_step,
  old_reply,
}
use hatrack.Hihat.Machine.{Replays}
use hatrack.Hihat.Flat.{flats, hash_at-flats, contents-record}
use hatrack.Hihat.Invariant.{
  IsStore, Fits, At, Stands, map_of, Steps, set_record-IsStore, set_record-Grows,
}
use hatrack.Hihat.Probes.{stays, replace_missing}
use hatrack.Hihat.Records.{same_record-eq, claimed_bucket}

-- What a record holds.
abbrev pub held : Record → Option Pointer
held r = if r.epoch == 0 then none else some r.item

-- The calls that a compare-and-swap completes, on a map that holds the old record.
module _ (m : Map) where
  put_held :
      (h : Hash) (item : Pointer) (old candidate : Record)
      → m h ≡ held old
      → Fits (op_put h item) old candidate
      → Replays m (acts (op_put h item) (reply (old_reply old)) ∷ []) (update m h (held candidate))
  unfolding spec
  put_held h item old candidate e f =
      let new : held candidate ≡ some item = ground (arith, f.0, f.1) in
      (rw e (ground arith), rw new refl)

  replace_held :
      (h : Hash) (item : Pointer) (old candidate : Record)
      → m h ≡ held old
      → Fits (op_replace h item) old candidate
      → Replays m
          (acts (op_replace h item) (reply (found_item old.item)) ∷ [])
          (update m h (held candidate))
  unfolding spec
  replace_held h item old candidate e f =
      let new : held candidate ≡ some item = ground (arith, f.1, f.2) in
      let before : m h ≡ some old.item = ground (arith, e, f.0) in
      (rw before refl, rw (before, new) refl)

  add_held :
      (h : Hash) (item : Pointer) (old candidate : Record)
      → m h ≡ held old
      → Fits (op_add h item) old candidate
      → Replays m (acts (op_add h item) (added true) ∷ []) (update m h (held candidate))
  unfolding spec or_else
  add_held h item old candidate e f =
      let new : held candidate ≡ some item = ground (arith, f.1, f.2) in
      let before : m h ≡ none = ground (arith, e, f.0) in (rw before refl, rw (before, new) refl)

  remove_held :
      (h : Hash) (old candidate : Record)
      → m h ≡ held old
      → Fits (op_remove h) old candidate
      → Replays m
          (acts (op_remove h) (reply (found_item old.item)) ∷ [])
          (update m h (held candidate))
  unfolding spec
  remove_held h old candidate e f =
      let new : held candidate ≡ none = ground (arith, f.1) in
      let before : m h ≡ some old.item = ground (arith, e, f.0) in (rw before refl, rw new refl)

module _ (n : ℕ) (t : Hihat) (v : IsStore t.store_current) (started : 0 < t.next_epoch)
    (clock : t.next_epoch + suc n < 2 ^ 61) where
  abbrev bs : List Bucket
  bs = t.store_current.buckets

  abbrev fs : List Refhat.Bucket
  fs = flats t.store_current.buckets

  module _ (op : Op) (b : ℕ) (candidate : Record) (a : At fs op b) where
    abbrev after : Hihat
    after = with_store t (set_record t.store_current b candidate)

    wrote : map_of after ≡ update (map_of t) (hash_of op) (held candidate)
    wrote =
        let (l, e) = claimed_bucket n t v started clock op b a in
        fun_ext (contents-record bs b l v.placed (hash_of op) candidate a.0 a.1)

    writes :
        (pc : Pc) (event : Event)
        → Stands (flats after.store_current.buckets) n pc
        → Replays (map_of t) (event ∷ []) (update (map_of t) (hash_of op) (held candidate))
        → Steps n t after pc event
    writes pc event s r =
        let (l, e) = claimed_bucket n t v started clock op b a in
        record {
          store =
              set_record-IsStore t.store_current b l v candidate
                (λ z. absurd (a.0 (sym a.1 ∙ hash_at-flats bs b ∙ z)));
          grows = set_record-Grows t.store_current b l v candidate;
          started = started;
          clock = omega (arith, clock);
          stands = s;
          replays = rw wrote r;
        }

  installed-Steps :
      (op : Op) (b : ℕ) (candidate : Record)
      → At fs op b
      → Fits op (bucket_at bs b).rec candidate
      → let (pc, event) = installed op (bucket_at bs b).rec in
        Steps n t (with_store t (set_record t.store_current b candidate)) pc event
  installed-Steps (op_get h) b candidate a f = absurd f
  installed-Steps (op_put h item) b candidate a f =
      let old = (bucket_at bs b).rec in
      let (l, e) = claimed_bucket n t v started clock (op_put h item) b a in
      let place : Stands (flats (after (op_put h item) b candidate a).store_current.buckets) n (
          if old.epoch == 0
          then tallying true (reply not_found)
          else finished (reply (found_item old.item))) =
        elim (Bool-cases (old.epoch == 0)) [ inl gone ↦ rw gone tt | inr live ↦ rw live tt ] in
      writes (op_put h item) b candidate a _ _ place (put_held (map_of t) h item old candidate e f)
  installed-Steps (op_replace h item) b candidate a f =
      let (l, e) = claimed_bucket n t v started clock (op_replace h item) b a in
      writes (op_replace h item) b candidate a _ _ tt
        (replace_held (map_of t) h item (bucket_at bs b).rec candidate e f)
  installed-Steps (op_add h item) b candidate a f =
      let (l, e) = claimed_bucket n t v started clock (op_add h item) b a in
      writes (op_add h item) b candidate a _ _ tt
        (add_held (map_of t) h item (bucket_at bs b).rec candidate e f)
  installed-Steps (op_remove h) b candidate a f =
      let (l, e) = claimed_bucket n t v started clock (op_remove h) b a in
      writes (op_remove h) b candidate a _ _ tt
        (remove_held (map_of t) h (bucket_at bs b).rec candidate e f)

  missed-Steps :
      (op : Op) (b : ℕ) (old candidate : Record)
      → At fs op b
      → candidate.moving ≡ false
      → Fits op old candidate
      → let (pc, event) = missed op b old (bucket_at bs b).rec candidate in Steps n t t pc event
  missed-Steps (op_get h) b old candidate a m f = absurd f
  missed-Steps (op_put h item) b old candidate a m f =
      elim (Bool-cases (bucket_at bs b).rec.moving) [
        | inl moving ↦ rw moving (stays n t v started clock _ _ tt refl)
        | inr still ↦ rw still (stays n t v started clock _ _ tt refl)
      ]
  missed-Steps (op_replace h item) b old candidate a m f =
      let (l, e) = claimed_bucket n t v started clock (op_replace h item) b a in
      elim (Bool-cases (bucket_at bs b).rec.moving) [
        | inl moving ↦ rw moving (stays n t v started clock _ _ tt refl)
        | inr still ↦ elim (Bool-cases ((bucket_at bs b).rec.epoch == 0)) [
          | inl gone ↦
              rw (still, gone)
                (stays n t v started clock _ _ tt
                  (replace_missing (map_of t) h item (e ∙ rw gone refl)))
          | inr live ↦
              rw (still, live)
                (stays n t v started clock _ quiet (a, still, m, (ground arith, f.1, f.2)) refl)
        ]
      ]
  missed-Steps (op_add h item) b old candidate a m f =
      elim (Bool-cases (bucket_at bs b).rec.moving) [
        | inl moving ↦ rw moving (stays n t v started clock _ _ tt refl)
        | inr still ↦ rw still (stays n t v started clock _ _ tt refl)
      ]
  missed-Steps (op_remove h) b old candidate a m f = elim (Bool-cases (bucket_at bs b).rec.moving) [
    | inl moving ↦ rw moving (stays n t v started clock _ _ tt refl)
    | inr still ↦ rw still (stays n t v started clock _ _ tt refl)
  ]

  pub install-Steps :
      (op : Op) (b : ℕ) (old candidate : Record)
      → At fs op b
      → candidate.moving ≡ false
      → Fits op old candidate
      → let (store, pc, event) = install_step t.store_current op b old candidate in
        Steps n t (with_store t store) pc event
  unfolding install_step
  install-Steps op b old candidate a m f =
      elim (Bool-cases (same_record (bucket_at bs b).rec old)) [
        | inl same ↦
            let e : (bucket_at bs b).rec ≡ old = same_record-eq (bucket_at bs b).rec old same in
            let fits : Fits op (bucket_at bs b).rec candidate = rw e f in
            rw (same, ← e) (installed-Steps op b candidate a fits)
        | inr other ↦ rw other (missed-Steps op b old candidate a m f)
      ]
