-- ===== src/Hihat/Keeps.antt =====
-- `HIHAT_F_MOVING` in hihat.c: a step of any thread leaves the item and the epoch of a marked record.
use hatrack.Prelude.{ℕ, ◌≡◌, refl, ap, arith, true, false, ◌==◌, List, set, inl, inr, Bool-cases}
use hatrack.FiniteMap.{Op}
use hatrack.Hihat.{Record, Bucket, bucket_at, Hihat, same_record}
use hatrack.Hihat.Steps.{
  Pc, probing, reserving, counting, loading, numbering, stepping, installing, tallying, finished,
  migrating, marking, flagging, checking, emptying, marked, reserve_step, count_step, install_step,
}
use hatrack.Hihat.Machine.{step}
use hatrack.Hihat.Flat.{flats, bucket_at-set_any}
use hatrack.Hihat.Invariant.{Stands}
use hatrack.Hihat.Marks.{moves, marked_missed}

-- What the migration copies of a marked bucket.
abbrev pub Kept : List Bucket → List Bucket → Type 0
Kept bs bs' =
    (j : ℕ)
    → moves bs j ≡ true
    → ((bucket_at bs' j).rec.item ≡ (bucket_at bs j).rec.item)
      × ((bucket_at bs' j).rec.epoch ≡ (bucket_at bs j).rec.epoch)

pub Kept-refl : (bs : List Bucket) → Kept bs bs
Kept-refl bs j e = (refl, refl)

-- A write that leaves the item and the epoch, or that is not made at a marked bucket.
Kept-set :
    (bs : List Bucket) (i : ℕ) (b : Bucket)
    → (moves bs i ≡ true
        → (b.rec.item ≡ (bucket_at bs i).rec.item) × (b.rec.epoch ≡ (bucket_at bs i).rec.epoch))
    → Kept bs (set bs i b)
Kept-set bs i b h j e =
    let at_i = ap (bucket_at bs) {x = i} {y = j} in
    ground (arith, bucket_at-set_any bs i j b, at_i, h)

module _ (t : Hihat) where
  abbrev bs : List Bucket
  bs = t.store_current.buckets

  install-Kept :
      (op : Op) (b : ℕ) (old candidate : Record)
      → old.moving ≡ false
      → Kept bs (install_step t.store_current op b old candidate).0.buckets
  unfolding install_step
  install-Kept op b old candidate still = elim (Bool-cases (same_record (bucket_at bs b).rec old)) [
    | inl same ↦
        let clash : moves bs b ≡ true → ⊥ =
          λ e. ground (arith, marked_missed (bucket_at bs b).rec old e still, same) in
        rw same (Kept-set bs b _ (λ e. absurd (clash e)))
    | inr other ↦ rw other (Kept-refl bs)
  ]

  pub step-Kept :
      (n : ℕ) (pc : Pc) → Stands (flats bs) n pc → Kept bs (step t pc).0.store_current.buckets
  unfolding step reserve_step count_step
  step-Kept n (probing op rounds bix) s = Kept-refl bs
  step-Kept n (reserving op rounds bix) s = elim (Bool-cases ((bucket_at bs bix).hv == 0)) [
    | inl free ↦ rw free (Kept-set bs bix _ (λ e. (refl, refl)))
    | inr claimed ↦ rw claimed (Kept-refl bs)
  ]
  step-Kept n (counting op bix) s = Kept-refl bs
  step-Kept n (loading op bix) s = Kept-refl bs
  step-Kept n (numbering op bix r) s = Kept-refl bs
  step-Kept n (stepping op bix r e) s = Kept-refl bs
  step-Kept n (installing op bix old candidate) s = install-Kept op bix old candidate s.1
  step-Kept n (tallying up answer) s = Kept-refl bs
  step-Kept n (finished answer) s = Kept-refl bs
  step-Kept n (migrating op) s = Kept-refl bs
  step-Kept n (marking op i new_used) s = Kept-refl bs
  step-Kept n (flagging op i new_used) s = Kept-set bs i _ (λ e. (refl, refl))
  step-Kept n (checking op i new_used) s = Kept-refl bs
  step-Kept n (emptying op i new_used) s = Kept-set bs i _ (λ e. (refl, refl))
  step-Kept n (marked op new_used) s = Kept-refl bs
