-- ===== src/Hihat/Probes.antt =====
-- The steps of the probing loop of hihat.c.
use hatrack.Prelude.{
  ℕ, zero, suc, ◌+◌, ◌-◌, ◌^◌, ◌<◌, ◌≡◌, ◌≢◌, refl, sym, ◌∙◌, arith, ◌==◌, ==_iff, none, List, [],
  ◌∷◌, length, inl, inr, Bool-cases,
}
use hatrack.Common.{Hash, Pointer, not_found}
use hatrack.FiniteMap.{
  update_same, Op, op_get, op_put, op_replace, op_add, op_remove, reply, Map, spec, hash_of,
}
use hatrack.Refhat
use hatrack.Refhat.Probing.{hash_at}
use hatrack.Refhat.Contents.{probe_in}
use hatrack.Hihat.{Bucket, bucket_at, Hihat}
use hatrack.Hihat.Steps.{Pc, Event, acts, at_unreserved, at_full_turn, at_reserved, probe_step}
use hatrack.Hihat.Machine.{Replays}
use hatrack.Hihat.Flat.{flats, length-flats, hash_at-flats}
use hatrack.Hihat.Position.{
  Passed, Passed-inside, probe_in-unreserved, Passed-next, probe_in-full_turn, contents-missing,
}
use hatrack.Hihat.Invariant.{IsStore, Stands, Grows-refl, map_of, Steps}

-- Calls at a hash value that the map does not hold.
module _ (m : Map) where
  pub get_missing : (h : Hash) → m h ≡ none → Replays m (acts (op_get h) (reply not_found) ∷ []) m
  unfolding spec
  get_missing h e = (rw e refl, refl)

  pub replace_missing :
      (h : Hash) (item : Pointer)
      → m h ≡ none
      → Replays m (acts (op_replace h item) (reply not_found) ∷ []) m
  unfolding spec
  replace_missing h item e = (rw e refl, update_same m h _ (rw e refl))

  pub remove_missing :
      (h : Hash) → m h ≡ none → Replays m (acts (op_remove h) (reply not_found) ∷ []) m
  unfolding spec
  remove_missing h e = (rw e refl, update_same m h none e)

module _ (n : ℕ) (t : Hihat) (v : IsStore t.store_current) (started : 0 < t.next_epoch)
    (clock : t.next_epoch + suc n < 2 ^ 61) where
  abbrev pub bs : List Bucket
  bs = t.store_current.buckets

  abbrev pub fs : List Refhat.Bucket
  fs = flats t.store_current.buckets

  -- A step that changes no variable of the table.
  pub stays :
      (pc : Pc) (event : Event)
      → Stands fs n pc
      → Replays (map_of t) (event ∷ []) (map_of t)
      → Steps n t t pc event
  stays pc event s r = record {
    store = v;
    grows = Grows-refl fs;
    started = started;
    clock = omega (arith, clock);
    stands = s;
    replays = r;
  }

  pub inside : {h : Hash} {k b : ℕ} → Passed fs h k b → b < length bs
  inside p =
      let wide = length-flats bs in
      let here =
        Passed-inside (rw wide v.power) (rw wide v.word) (omega (arith, wide, v.width)) p in
      omega (arith, wide, here)

  missing_turn : {h : Hash} {b : ℕ} → h ≢ 0 → Passed fs h zero b → map_of t h ≡ none
  missing_turn {h} nz p = contents-missing fs h v.placed nz (λ i e. cc (probe_in-full_turn p))

  pub missing_free :
      {h : Hash} {k b : ℕ}
      → h ≢ 0
      → Passed fs h (suc k) b
      → (bucket_at bs b).hv ≡ 0
      → (probe_in fs h ≡ Refhat.unreserved b) × (map_of t h ≡ none)
  missing_free {h} {k} {b} nz p z =
      let here : b < length fs = omega (arith, inside p, length-flats bs) in
      let e = probe_in-unreserved here p nz (hash_at-flats bs b ∙ z) in
      (e, contents-missing fs h v.placed nz (λ i e'. cc))

  full_turn-Steps :
      (op : Op) (b : ℕ)
      → hash_of op ≢ 0
      → Passed fs (hash_of op) zero b
      → let (pc, event) = at_full_turn op in Steps n t t pc event
  full_turn-Steps (op_get h) b nz p = stays _ _ tt (get_missing (map_of t) h (missing_turn nz p))
  full_turn-Steps (op_put h item) b nz p = stays _ _ tt refl
  full_turn-Steps (op_replace h item) b nz p =
      stays _ _ tt (replace_missing (map_of t) h item (missing_turn nz p))
  full_turn-Steps (op_add h item) b nz p = stays _ _ tt refl
  full_turn-Steps (op_remove h) b nz p =
      stays _ _ tt (remove_missing (map_of t) h (missing_turn nz p))

  unreserved-Steps :
      (op : Op) (k b : ℕ)
      → hash_of op ≢ 0
      → Passed fs (hash_of op) (suc k) b
      → (bucket_at bs b).hv ≡ 0
      → let (pc, event) = at_unreserved op k b in Steps n t t pc event
  unreserved-Steps (op_get h) k b nz p z =
      stays _ _ tt (get_missing (map_of t) h (missing_free nz p z).1)
  unreserved-Steps (op_put h item) k b nz p z = stays _ _ (nz, p) refl
  unreserved-Steps (op_replace h item) k b nz p z =
      stays _ _ tt (replace_missing (map_of t) h item (missing_free nz p z).1)
  unreserved-Steps (op_add h item) k b nz p z = stays _ _ (nz, p) refl
  unreserved-Steps (op_remove h) k b nz p z =
      stays _ _ tt (remove_missing (map_of t) h (missing_free nz p z).1)

  -- At a bucket that is claimed the loop goes on, unless the bucket is the right one.
  pub reserved-Stands :
      (op : Op) (k b : ℕ)
      → hash_of op ≢ 0
      → Passed fs (hash_of op) (suc k) b
      → (bucket_at bs b).hv ≢ 0
      → Stands fs n (at_reserved op (bucket_at bs b).hv t.store_current.last_slot k b)
  reserved-Stands op k b nz p claimed = elim (Bool-cases (hash_of op == (bucket_at bs b).hv)) [
    | inl same ↦
        let e : hash_of op ≡ (bucket_at bs b).hv =
          (==_iff (hash_of op) (bucket_at bs b).hv).0 same in
        rw same (nz, hash_at-flats bs b ∙ sym e)
    | inr other ↦
        let here : b < length fs = omega (arith, inside p, length-flats bs) in
        let last : length fs - 1 ≡ t.store_current.last_slot =
          omega (arith, length-flats bs, v.width) in
        let ne : hash_at fs b ≢ hash_of op = λ e.
          let q : hash_of op ≡ (bucket_at bs b).hv = sym e ∙ hash_at-flats bs b in ground arith in
        let next = Passed-next here p (λ z. claimed (sym (hash_at-flats bs b) ∙ z)) ne in
        rw other (nz, rw last at next)
  ]

  pub probe-Steps :
      (op : Op) (k b : ℕ)
      → hash_of op ≢ 0
      → Passed fs (hash_of op) k b
      → let (pc, event) = probe_step t.store_current op k b in Steps n t t pc event
  unfolding probe_step
  probe-Steps op zero b nz p = full_turn-Steps op b nz p
  probe-Steps op (suc k) b nz p = elim (Bool-cases ((bucket_at bs b).hv == 0)) [
    | inl free ↦ rw free (unreserved-Steps op k b nz p (ground arith))
    | inr claimed ↦ rw claimed (stays _ _ (reserved-Stands op k b nz p (ground arith)) refl)
  ]
