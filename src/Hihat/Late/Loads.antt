-- ===== src/Hihat/Late/Loads.antt =====
-- hihat.c: a load from an older table leaves the thread where its place says, and the answer of a call that
-- ends with it was right then.
use hatrack.Prelude.{
  ℕ, suc, ◌+◌, ◌^◌, ◌<◌, ◌≡◌, ◌≢◌, refl, sym, ap, ◌∙◌, arith, true, ◌==◌, ==_iff, none, List, [],
  ◌∷◌, length, inl, inr, Bool-cases,
}
use hatrack.Common.{Hash}
use hatrack.FiniteMap.{Op, op_get, op_put, op_replace, op_add, op_remove, hash_of}
use hatrack.Refhat
use hatrack.Refhat.Probing.{hash_at, hash_at-outside}
use hatrack.Refhat.Contents.{contents, probe_in, IsPlaced, IsPlaced-unique}
use hatrack.Refhat.Valid.{held_nowhere}
use hatrack.Refhat.Contents.{contents-eq-none}
use hatrack.Hihat.{Record, Bucket, bucket_at, Hihat}
use hatrack.Hihat.Steps.{Pc, Event, probe_step, load_step, at_unreserved}
use hatrack.Hihat.Machine.{Replays}
use hatrack.Hihat.Flat.{flats, length-flats, hash_at-flats}
use hatrack.Hihat.Position.{Passed, at_home, onward, Grows, probe_in-unreserved, contents-missing}
use hatrack.Hihat.Invariant.{IsStore, At, Stands, Stands-Grows, map_of}
use hatrack.Hihat.Probes.{inside, get_missing, replace_missing, remove_missing, reserved-Stands}
use hatrack.Hihat.Records.{load-Steps}

-- A table of the history.
pub record IsPast (n : ℕ) (t q : Hihat) : Type 0 where
  pub store : IsStore q.store_current
  pub started : 0 < q.next_epoch
  pub clock : q.next_epoch + n < 2 ^ 61
  pub slots : q.store_current.last_slot ≡ t.store_current.last_slot
  pub grows : Grows (flats q.store_current.buckets) (flats t.store_current.buckets)

-- What the present table shows of a probe for a hash value that an older one holds was so in that one.
Passed-past :
    {fq fs : List Refhat.Bucket} {h : Hash} {n b : ℕ} (i : ℕ)
    → Grows fq fs
    → h ≢ 0
    → probe_in fq h ≡ Refhat.hit i
    → Passed fs h n b
    → Passed fq h n b
Passed-past i g nz hit (at_home n b e e') = at_home n b (e ∙ g.width) (e' ∙ rw g.width refl)
Passed-past {fq} {fs} {h} i g nz hit (onward n b n' b' p e e' full other) =
    let wide = g.width in
    let here : b < length fq = omega (arith, hash_at-outside fs b full, wide) in
    let before : Passed fq h (suc n') b = rw e at (Passed-past i g nz hit p) in
    let full' : hash_at fq b ≢ 0 = λ z. let free = probe_in-unreserved here before nz z in cc in
    onward n b n' b' (Passed-past i g nz hit p) e (e' ∙ rw g.width refl) full'
      (λ z. other (g.keeps b full' ∙ z))

-- At a bucket that was unreserved the hash value was not in the table.
past_missing :
    {fq fs : List Refhat.Bucket} {h : Hash} {n b : ℕ}
    → IsPlaced fq
    → Grows fq fs
    → h ≢ 0
    → b < length fq
    → Passed fs h (suc n) b
    → hash_at fq b ≡ 0
    → contents fq h ≡ none
past_missing {fq} {fs} {h} placed g nz here p z =
    contents-missing fq h placed nz
      (λ i hit. let free = probe_in-unreserved here (Passed-past i g nz hit p) nz z in cc)

-- Where a load from the table `q` leaves a thread, and that its event was right for `q`.
abbrev pub Saw : ℕ → Hihat → Hihat → Pc × Event → Type 0
Saw n q t (pc, event) =
    Stands (flats t.store_current.buckets) n pc × Replays (map_of q) (event ∷ []) (map_of q)

module _ (n : ℕ) (t q : Hihat) (v : IsStore t.store_current) (started : 0 < t.next_epoch)
    (clock : t.next_epoch + suc n < 2 ^ 61) (few : n + 3 < 2 ^ 61) (past : IsPast (suc n) t q) where
  abbrev bs : List Bucket
  bs = t.store_current.buckets

  abbrev qs : List Bucket
  qs = q.store_current.buckets

  unreserved-Saw :
      (op : Op) (k b : ℕ)
      → hash_of op ≢ 0
      → Passed (flats bs) (hash_of op) (suc k) b
      → map_of q (hash_of op) ≡ none
      → Saw n q t (at_unreserved op k b)
  unreserved-Saw (op_get h) k b nz p e = (tt, get_missing (map_of q) h e)
  unreserved-Saw (op_put h item) k b nz p e = ((nz, p), refl)
  unreserved-Saw (op_replace h item) k b nz p e = (tt, replace_missing (map_of q) h item e)
  unreserved-Saw (op_add h item) k b nz p e = ((nz, p), refl)
  unreserved-Saw (op_remove h) k b nz p e = (tt, remove_missing (map_of q) h e)

  pub probe-Saw :
      (op : Op) (k b : ℕ)
      → hash_of op ≢ 0
      → Passed (flats bs) (hash_of op) (suc k) b
      → Saw n q t (probe_step q.store_current op (suc k) b)
  unfolding probe_step
  probe-Saw op k b nz p =
      let g = past.grows in
      let wide = g.width in
      let s = past.store in
      elim (Bool-cases ((bucket_at qs b).hv == 0)) [
        | inl free ↦
            let z : hash_at (flats qs) b ≡ 0 = hash_at-flats qs b ∙ (==_iff _ 0).0 free in
            let here : b < length (flats qs) =
              omega (arith, inside n t v started clock p, length-flats bs, wide) in
            rw free (unreserved-Saw op k b nz p (past_missing s.placed g nz here p z))
        | inr claimed ↦
            let full : hash_at (flats qs) b ≢ 0 =
              λ z. ground (arith, sym (hash_at-flats qs b) ∙ z, claimed) in
            let same : (bucket_at bs b).hv ≡ (bucket_at qs b).hv =
              sym (hash_at-flats bs b) ∙ g.keeps b full ∙ hash_at-flats qs b in
            let claimed' : (bucket_at bs b).hv ≢ 0 = λ z. ground (arith, same, claimed, z) in
            let stands = reserved-Stands n t v started clock op k b nz p claimed' in
            rw (claimed, past.slots, ← same) (stands, refl)
      ]

  -- The record of a bucket whose claim is not seen yet holds nothing.
  blank-Saw :
      (op : Op) (b : ℕ) (r : Record)
      → At (flats bs) op b
      → r.epoch ≡ 0
      → map_of q (hash_of op) ≡ none
      → Saw n q t (load_step op b r)
  unfolding load_step
  blank-Saw (op_get h) b r a z e =
      let gone : (r.epoch == 0) ≡ true = ground (arith, z) in
      rw gone (tt, get_missing (map_of q) h e)
  blank-Saw (op_put h item) b r a z e =
      let gone : (r.epoch == 0) ≡ true = ground (arith, z) in
      elim (Bool-cases r.moving) [
        | inl moving ↦ rw moving (tt, refl)
        | inr still ↦ rw (still, gone) ((a, refl, z, tt), refl)
      ]
  blank-Saw (op_replace h item) b r a z e =
      let gone : (r.epoch == 0) ≡ true = ground (arith, z) in
      elim (Bool-cases r.moving) [
        | inl moving ↦ rw moving (tt, refl)
        | inr still ↦ rw (still, gone) (tt, replace_missing (map_of q) h item e)
      ]
  blank-Saw (op_add h item) b r a z e =
      let gone : (r.epoch == 0) ≡ true = ground (arith, z) in
      elim (Bool-cases r.moving) [
        | inl moving ↦ rw moving (tt, refl)
        | inr still ↦ rw (still, gone) ((a, refl, z, tt), refl)
      ]
  blank-Saw (op_remove h) b r a z e =
      let gone : (r.epoch == 0) ≡ true = ground (arith, z) in
      elim (Bool-cases r.moving) [
        | inl moving ↦ rw moving (tt, refl)
        | inr still ↦ rw (still, gone) (tt, remove_missing (map_of q) h e)
      ]

  -- A hash value whose bucket was not claimed was not in the table.
  unclaimed_missing :
      (h : ℕ) (b : ℕ)
      → h ≢ 0
      → hash_at (flats bs) b ≡ h
      → hash_at (flats qs) b ≡ 0
      → map_of q h ≡ none
  unclaimed_missing h b nz e z = contents-eq-none (flats qs) h (
      held_nowhere (flats qs) h (λ j e'.
        let full : hash_at (flats qs) j ≢ 0 = λ z'. nz (sym e' ∙ z') in
        let g = past.grows in
        let there : hash_at (flats bs) j ≡ h = g.keeps j full ∙ e' in
        let same : j ≡ b =
          IsPlaced-unique (flats bs) j b v.placed (λ z'. nz (sym there ∙ z')) (there ∙ sym e) in
        full (ap (hash_at (flats qs)) same ∙ z)))

  pub load-Saw :
      (op : Op) (b : ℕ) → At (flats bs) op b → Saw n q t (load_step op b (bucket_at qs b).rec)
  load-Saw op b (nz, e) =
      let s = past.store in
      let g = past.grows in
      elim (Bool-cases ((bucket_at qs b).hv == 0)) [
        | inl free ↦
            let z : (bucket_at qs b).hv ≡ 0 = (==_iff _ 0).0 free in
            blank-Saw op b (bucket_at qs b).rec (nz, e) (s.blank b z)
              (unclaimed_missing (hash_of op) b nz e (hash_at-flats qs b ∙ z))
        | inr claimed ↦
            let full : hash_at (flats qs) b ≢ 0 =
              λ z. ground (arith, sym (hash_at-flats qs b) ∙ z, claimed) in
            let a : At (flats qs) op b = (nz, sym (g.keeps b full) ∙ e) in
            let early : Hihat = record q { next_epoch = 1 } in
            let st = load-Steps (suc n) early s (omega arith) (omega (arith, few)) op b a in
            (Stands-Grows n _ g st.stands, st.replays)
      ]
