-- ===== src/Hihat/Falls.antt =====
-- hihat.c: each step that a thread takes brings down the number of the steps that it has left.
use hatrack.Prelude.{
  ℕ, zero, suc, ◌+◌, ◌-◌, ◌*◌, ◌<◌, ◌≡◌, arith, ◌==◌, leb, ltb, inl, inr, Bool-cases,
}
use hatrack.Common.{hashes_eq}
use hatrack.FiniteMap.{hash_of, Op, op_get, op_put, op_replace, op_add, op_remove}
use hatrack.Hihat.{Record, bucket_at, Store, Hihat, same_record}
use hatrack.Hihat.Steps.{
  Pc, probing, reserving, counting, loading, numbering, stepping, installing, tallying, finished,
  migrating, marking, flagging, checking, emptying, marked, probe_step, reserve_step, count_step,
  load_step, install_step, at_unreserved, at_full_turn, at_reserved, installed, missed,
}
use hatrack.Hihat.Marking.{mark_step, check_step}
use hatrack.Hihat.Machine.{step}
use hatrack.Hihat.Left.{IsWaitFree, Going, left, Falls}

module _ (w : ℕ) where
  unreserved-Falls :
      (op : Op) (k b : ℕ) → IsWaitFree op → Falls w (4 * w + 2 * k + 12) (at_unreserved op k b).0
  unreserved-Falls (op_get h) k b p = (tt, omega arith)
  unreserved-Falls (op_put h item) k b p = (tt, omega arith)
  unreserved-Falls (op_replace h item) k b p = absurd p
  unreserved-Falls (op_add h item) k b p = (tt, omega arith)
  unreserved-Falls (op_remove h) k b p = (tt, omega arith)

  full_turn-Falls : (op : Op) → IsWaitFree op → Falls w (4 * w + 10) (at_full_turn op).0
  full_turn-Falls (op_get h) p = (tt, omega arith)
  full_turn-Falls (op_put h item) p = (tt, omega arith)
  full_turn-Falls (op_replace h item) p = absurd p
  full_turn-Falls (op_add h item) p = (tt, omega arith)
  full_turn-Falls (op_remove h) p = (tt, omega arith)

  reserved-Falls :
      (op : Op) (hv last_slot k b : ℕ)
      → IsWaitFree op
      → Falls w (4 * w + 2 * k + 11) (at_reserved op hv last_slot k b)
  reserved-Falls op hv last_slot k b p = elim (Bool-cases (hashes_eq (hash_of op) hv)) [
    | inl same ↦ rw same (p, omega arith)
    | inr other ↦ rw other (p, omega arith)
  ]

  load-Falls :
      (op : Op) (b : ℕ) (r : Record) → IsWaitFree op → Falls w (4 * w + 7) (load_step op b r).0
  unfolding load_step
  load-Falls (op_get h) b r p = (tt, omega arith)
  load-Falls (op_put h item) b r p = ground arith
  load-Falls (op_replace h item) b r p = absurd p
  load-Falls (op_add h item) b r p = ground arith
  load-Falls (op_remove h) b r p = ground arith

  installed-Falls :
      (op : Op) (old : Record) → IsWaitFree op → Falls w (4 * w + 4) (installed op old).0
  installed-Falls (op_get h) old p = (tt, omega arith)
  installed-Falls (op_put h item) old p = ground arith
  installed-Falls (op_replace h item) old p = absurd p
  installed-Falls (op_add h item) old p = (tt, omega arith)
  installed-Falls (op_remove h) old p = (tt, omega arith)

  missed-Falls :
      (op : Op) (b : ℕ) (old now candidate : Record)
      → IsWaitFree op
      → Falls w (4 * w + 4) (missed op b old now candidate).0
  missed-Falls (op_get h) b old now candidate p = (tt, omega arith)
  missed-Falls (op_put h item) b old now candidate p = ground arith
  missed-Falls (op_replace h item) b old now candidate p = absurd p
  missed-Falls (op_add h item) b old now candidate p = ground arith
  missed-Falls (op_remove h) b old now candidate p = ground arith

  probe-Falls :
      (s : Store) (op : Op) (k b : ℕ)
      → IsWaitFree op
      → Falls w (4 * w + 2 * k + 10) (probe_step s op k b).0
  unfolding probe_step
  probe-Falls s op zero b p = let (g, l) = full_turn-Falls op p in (g, omega (arith, l))
  probe-Falls s op (suc k) b p =
      let hv2 = (bucket_at s.buckets b).hv in
      let (g, l) = unreserved-Falls op k b p in
      let (g', l') = reserved-Falls op hv2 s.last_slot k b p in
      elim (Bool-cases (hv2 == 0)) [
        | inl free ↦ rw free (g, omega (arith, l))
        | inr claimed ↦ rw claimed (g', omega (arith, l'))
      ]

  reserve-Falls :
      (s : Store) (op : Op) (k b : ℕ)
      → IsWaitFree op
      → Falls w (4 * w + 2 * k + 11) (reserve_step s op k b).1
  unfolding reserve_step
  reserve-Falls s op k b p = elim (Bool-cases ((bucket_at s.buckets b).hv == 0)) [
    | inl free ↦ rw free (p, omega arith)
    | inr claimed ↦ rw claimed (reserved-Falls op (bucket_at s.buckets b).hv s.last_slot k b p)
  ]

  count-Falls :
      (s : Store) (op : Op) (b : ℕ) → IsWaitFree op → Falls w (4 * w + 8) (count_step s op b).1
  unfolding count_step
  count-Falls s op b p = elim (Bool-cases (leb s.threshold s.used_count)) [
    | inl full ↦ rw full (tt, omega arith)
    | inr room ↦ rw room (p, omega arith)
  ]

  install-Falls :
      (s : Store) (op : Op) (b : ℕ) (old candidate : Record)
      → IsWaitFree op
      → Falls w (4 * w + 4) (install_step s op b old candidate).1
  unfolding install_step
  install-Falls s op b old candidate p =
      let now = (bucket_at s.buckets b).rec in
      elim (Bool-cases (same_record now old)) [
        | inl same ↦ rw same (installed-Falls op old p)
        | inr other ↦ rw other (missed-Falls op b old now candidate p)
      ]

  mark-Falls :
      (s : Store) (op : Op) (i new_used : ℕ)
      → s.last_slot + 1 ≡ w
      → Falls w (4 * (w - i) + 1) (mark_step s op i new_used)
  unfolding mark_step
  mark-Falls s op i new_used e = elim (Bool-cases (ltb s.last_slot i)) [
    | inl past ↦ rw past (tt, omega arith)
    | inr within ↦ elim (Bool-cases (bucket_at s.buckets i).rec.moving) [
      | inl moving ↦ rw (within, moving) (tt, ground (arith, e, within))
      | inr still ↦ rw (within, still) (ground (arith, e, within), omega arith)
    ]
  ]

  check-Falls :
      (s : Store) (op : Op) (i new_used : ℕ)
      → i < w
      → Falls w (4 * (w - i) - 1) (check_step s op i new_used)
  unfolding check_step
  check-Falls s op i new_used l = elim (Bool-cases ((bucket_at s.buckets i).rec.epoch == 0)) [
    | inl gone ↦ rw gone (l, omega arith)
    | inr live ↦ rw live (tt, omega (arith, l))
  ]

  pub step-Falls :
      (t : Hihat) (pc : Pc)
      → t.store_current.last_slot + 1 ≡ w
      → Going w pc
      → Falls w (left w pc) (step t pc).1
  unfolding step
  step-Falls t (probing op k b) e p = probe-Falls t.store_current op k b p
  step-Falls t (reserving op k b) e p = reserve-Falls t.store_current op k b p
  step-Falls t (counting op b) e p = count-Falls t.store_current op b p
  step-Falls t (loading op b) e p = load-Falls op b (bucket_at t.store_current.buckets b).rec p
  step-Falls t (numbering op b r) e p = (p, omega arith)
  step-Falls t (stepping op b r epoch) e p = (p, omega arith)
  step-Falls t (installing op b old candidate) e p =
      install-Falls t.store_current op b old candidate p
  step-Falls t (tallying up answer) e p = (tt, omega arith)
  step-Falls t (finished answer) e p = (tt, omega arith)
  step-Falls t (migrating op) e p = (tt, omega arith)
  step-Falls t (marking op i new_used) e p = mark-Falls t.store_current op i new_used e
  step-Falls t (flagging op i new_used) e p = (p, omega arith)
  step-Falls t (checking op i new_used) e p = check-Falls t.store_current op i new_used p
  step-Falls t (emptying op i new_used) e p = (tt, omega (arith, p))
  step-Falls t (marked op new_used) e p = (tt, omega arith)
