-- ===== src/Hihat/Marked.antt =====
-- `HIHAT_F_MOVING` in hihat.c: what a thread that marks the buckets has marked so far, at each of its
-- steps, and that the steps of the other threads leave the marks.
use hatrack.Prelude.{
  ℕ, zero, suc, ◌+◌, ◌<◌, ◌≡◌, refl, ap, arith, true, false, ◌==◌, ==_iff, ltb, List, length, set,
  length-set, inl, inr, Bool-cases,
}
use hatrack.FiniteMap.{Op}
use hatrack.Hihat.{empty_record, Record, Bucket, bucket_at, Hihat, same_record}
use hatrack.Hihat.Steps.{
  Pc, probing, reserving, counting, loading, numbering, stepping, installing, tallying, finished,
  migrating, marking, flagging, checking, emptying, marked, probe_step, reserve_step, count_step,
  load_step, install_step,
}
use hatrack.Hihat.Marking.{mark_step, flag_moving, check_step}
use hatrack.Hihat.Machine.{step}
use hatrack.Hihat.Flat.{flats, bucket_at-set_self}
use hatrack.Hihat.Invariant.{IsStore, Stands}
use hatrack.Hihat.Marks.{
  below_none, below-Marks, Marks, Marks-refl, Marks-set, MarkedBelow, HasMarked, HasMarked-outside,
  in_loop, below_next, marked_missed,
}

-- The places of a thread that has marked nothing, or whose next step marks.
module _ (t : Hihat) (v : IsStore t.store_current) where
  abbrev bs : List Bucket
  bs = t.store_current.buckets

  reserve-Marks : (op : Op) (k b : ℕ) → Marks bs (reserve_step t.store_current op k b).0.buckets
  unfolding reserve_step
  reserve-Marks op k b = elim (Bool-cases ((bucket_at bs b).hv == 0)) [
    | inl free ↦ rw free (Marks-set bs b _ (λ e. e))
    | inr claimed ↦ rw claimed (Marks-refl bs)
  ]

  install-Marks :
      (op : Op) (b : ℕ) (old candidate : Record)
      → old.moving ≡ false
      → Marks bs (install_step t.store_current op b old candidate).0.buckets
  unfolding install_step
  install-Marks op b old candidate still =
      elim (Bool-cases (same_record (bucket_at bs b).rec old)) [
        | inl same ↦
            let ends : (bucket_at bs b).rec.moving ≡ true → candidate.moving ≡ true =
              λ e. cc (marked_missed (bucket_at bs b).rec old e still) in
            rw same (Marks-set bs b _ ends)
        | inr other ↦ rw other (Marks-refl bs)
      ]

  pub step-Marks :
      (n : ℕ) (pc : Pc) → Stands (flats bs) n pc → Marks bs (step t pc).0.store_current.buckets
  unfolding step count_step
  step-Marks n (probing op rounds bix) s = Marks-refl bs
  step-Marks n (reserving op rounds bix) s = reserve-Marks op rounds bix
  step-Marks n (counting op bix) s = Marks-refl bs
  step-Marks n (loading op bix) s = Marks-refl bs
  step-Marks n (numbering op bix r) s = Marks-refl bs
  step-Marks n (stepping op bix r e) s = Marks-refl bs
  step-Marks n (installing op bix old candidate) s = install-Marks op bix old candidate s.1
  step-Marks n (tallying up answer) s = Marks-refl bs
  step-Marks n (finished answer) s = Marks-refl bs
  step-Marks n (migrating op) s = Marks-refl bs
  step-Marks n (marking op i new_used) s = Marks-refl bs
  step-Marks n (flagging op i new_used) s = Marks-set bs i _ (λ e. refl)
  step-Marks n (checking op i new_used) s = Marks-refl bs
  step-Marks n (emptying op i new_used) s = Marks-set bs i _ (λ e. e)
  step-Marks n (marked op new_used) s = Marks-refl bs

  -- The steps of a call do not enter the loop.
  pub outside_loop :
      (op : Op) (k b : ℕ) (r old candidate : Record)
      → (in_loop (probe_step t.store_current op k b).0 ≡ false)
        × (in_loop (reserve_step t.store_current op k b).1 ≡ false)
        × (in_loop (count_step t.store_current op b).1 ≡ false)
        × (in_loop (load_step op b r).0 ≡ false)
        × (in_loop (install_step t.store_current op b old candidate).1 ≡ false)
  unfolding probe_step reserve_step count_step load_step install_step
  outside_loop (Op.op_get h) zero b r old candidate = ground arith
  outside_loop (Op.op_get h) (suc k) b r old candidate = ground arith
  outside_loop (Op.op_put h item) zero b r old candidate = ground arith
  outside_loop (Op.op_put h item) (suc k) b r old candidate = ground arith
  outside_loop (Op.op_replace h item) zero b r old candidate = ground arith
  outside_loop (Op.op_replace h item) (suc k) b r old candidate = ground arith
  outside_loop (Op.op_add h item) zero b r old candidate = ground arith
  outside_loop (Op.op_add h item) (suc k) b r old candidate = ground arith
  outside_loop (Op.op_remove h) zero b r old candidate = ground arith
  outside_loop (Op.op_remove h) (suc k) b r old candidate = ground arith

  flagged : (i : ℕ) → MarkedBelow bs i → MarkedBelow (flag_moving t.store_current i).buckets (i + 1)
  flagged i h j l l' =
      let b : Bucket = record (bucket_at bs i) {
        rec = record (bucket_at bs i).rec { moving = true };
      } in
      let inside : j < length bs = omega (arith, length-set bs i b) in
      elim (Bool-cases (j == i)) [
        | inl same ↦
            let q : j ≡ i = (==_iff j i).0 same in
            let here : i < length bs = rw (← q) inside in
            let now : bucket_at (set bs i b) i ≡ b = bucket_at-set_self bs i b here in
            rw q (ap (λ x. x.rec.moving) now)
        | inr other ↦ (Marks-set bs i b (λ e. refl)).keeps j (h j (ground arith) inside)
      ]

  -- A thread's count of marked buckets is right after its step.
  pub step-HasMarked :
      (n : ℕ) (pc : Pc)
      → Stands (flats bs) n pc
      → HasMarked bs pc
      → HasMarked (step t pc).0.store_current.buckets (step t pc).1
  unfolding step mark_step check_step
  step-HasMarked n (probing op rounds bix) s h =
      HasMarked-outside _ _ (outside_loop op rounds bix empty_record empty_record empty_record).0
  step-HasMarked n (reserving op rounds bix) s h =
      HasMarked-outside _ _ (outside_loop op rounds bix empty_record empty_record empty_record).1
  step-HasMarked n (counting op bix) s h =
      HasMarked-outside _ _ (outside_loop op 0 bix empty_record empty_record empty_record).2
  step-HasMarked n (loading op bix) s h =
      HasMarked-outside _ _
        (outside_loop op 0 bix (bucket_at bs bix).rec empty_record empty_record).3
  step-HasMarked n (numbering op bix r) s h = below_none _ _ refl
  step-HasMarked n (stepping op bix r e) s h = below_none _ _ refl
  step-HasMarked n (installing op bix old candidate) s h =
      HasMarked-outside _ _ (outside_loop op 0 bix empty_record old candidate).4
  step-HasMarked n (tallying up answer) s h = below_none _ _ refl
  step-HasMarked n (finished answer) s h = below_none _ _ refl
  step-HasMarked n (migrating op) s h = below_none _ _ refl
  step-HasMarked n (marking op i new_used) s h =
      elim (Bool-cases (ltb t.store_current.last_slot i)) [
        | inl past ↦ rw past (λ j l l'. h j (ground (arith, v.width)) l')
        | inr within ↦ elim (Bool-cases (bucket_at bs i).rec.moving) [
          | inl moving ↦ rw (within, moving) (below_next bs i h moving)
          | inr still ↦ rw (within, still) h
        ]
      ]
  step-HasMarked n (flagging op i new_used) s h = flagged i h
  step-HasMarked n (checking op i new_used) s h =
      elim (Bool-cases ((bucket_at bs i).rec.epoch == 0)) [
        | inl gone ↦ rw gone h
        | inr live ↦ rw live h
      ]
  step-HasMarked n (emptying op i new_used) s h = below-Marks (i + 1) (Marks-set bs i _ (λ e. e)) h
  step-HasMarked n (marked op new_used) s h = h
