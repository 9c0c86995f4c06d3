-- ===== src/Hihat/Copying/Nonempty.antt =====
-- hihat.c: a call never clears a record: the one that it removes keeps `HIHAT_F_INITED`.
use hatrack.Prelude.{
  ℕ, zero, suc, ◌≡◌, refl, sym, ap, ◌∙◌, arith, true, false, ◌==◌, ==_iff, inl, inr, Bool-cases,
}
use hatrack.Common.{Hash}
use hatrack.FiniteMap.{Op, op_get, op_put, op_replace, op_add, op_remove, hash_of}
use hatrack.Hihat.{Record, empty_record, same_record, bucket_at, Store, Hihat, set_record, set_hv}
use hatrack.Hihat.Steps.{
  Pc, probing, reserving, counting, loading, numbering, stepping, installing, tallying, finished,
  migrating, marking, flagging, checking, emptying, marked, probe_step, reserve_step, count_step,
  load_step, install_step, missed, installed, at_reserved, at_unreserved, at_full_turn,
}
use hatrack.Hihat.Marking.{mark_step, check_step}
use hatrack.Hihat.Machine.{step, start_if}
use hatrack.Hihat.Flat.{bucket_at-set_any}
use hatrack.Hihat.Copying.Written.{is_empty_at}
use hatrack.Hihat.Copying.Phase.{IsNonempty}

load-IsNonempty : (op : Op) (b : ℕ) (r : Record) → IsNonempty (load_step op b r).0
unfolding load_step same_record
load-IsNonempty (op_get h) b r = refl
load-IsNonempty (op_put h item) b r = ground arith
load-IsNonempty (op_replace h item) b r = ground arith
load-IsNonempty (op_add h item) b r = ground arith
load-IsNonempty (op_remove h) b r = ground arith

missed-IsNonempty :
    (op : Op) (b : ℕ) (old now candidate : Record)
    → same_record candidate empty_record ≡ false
    → IsNonempty (missed op b old now candidate).0
missed-IsNonempty (op_get h) b old now candidate e = refl
missed-IsNonempty (op_put h item) b old now candidate e = ground arith
missed-IsNonempty (op_replace h item) b old now candidate e = ground (arith, e)
missed-IsNonempty (op_add h item) b old now candidate e = ground arith
missed-IsNonempty (op_remove h) b old now candidate e = ground arith

installed-IsNonempty : (op : Op) (old : Record) → IsNonempty (installed op old).0
installed-IsNonempty (op_get h) old = refl
installed-IsNonempty (op_put h item) old = ground arith
installed-IsNonempty (op_replace h item) old = refl
installed-IsNonempty (op_add h item) old = refl
installed-IsNonempty (op_remove h) old = refl

reserved-IsNonempty : (op : Op) (hv2 : Hash) (l k b : ℕ) → IsNonempty (at_reserved op hv2 l k b)
reserved-IsNonempty op hv2 l k b = ground arith

unreserved-IsNonempty : (op : Op) (k b : ℕ) → IsNonempty (at_unreserved op k b).0
unreserved-IsNonempty op k b = ground arith

full_turn-IsNonempty : (op : Op) → IsNonempty (at_full_turn op).0
full_turn-IsNonempty op = ground arith

pub start_if-IsNonempty :
    (s : Store) (op : Op) (pc : Pc) → IsNonempty pc → IsNonempty (start_if s op pc)
unfolding same_record
start_if-IsNonempty s op pc e = ground (arith, e)

pub step-IsNonempty : (t : Hihat) (pc : Pc) → IsNonempty pc → IsNonempty (step t pc).1
unfolding step probe_step reserve_step count_step install_step mark_step check_step same_record
step-IsNonempty t (probing op zero b) e = full_turn-IsNonempty op
step-IsNonempty t (probing op (suc k) b) e = ground (
  arith,
  unreserved-IsNonempty op k b,
  reserved-IsNonempty op (bucket_at t.store_current.buckets b).hv t.store_current.last_slot k b,
)
step-IsNonempty t (reserving op k b) e = ground arith
step-IsNonempty t (counting op b) e = ground arith
step-IsNonempty t (loading op b) e = load-IsNonempty op b (bucket_at t.store_current.buckets b).rec
step-IsNonempty t (numbering op b r) e = refl
step-IsNonempty t (stepping op b r epoch) e = ground arith
step-IsNonempty t (installing op b old candidate) e =
    elim (Bool-cases (same_record (bucket_at t.store_current.buckets b).rec old)) [
      | inl same ↦ rw same (installed-IsNonempty op old)
      | inr other ↦ rw other (missed-IsNonempty op b old _ candidate (ground (arith, e)))
    ]
step-IsNonempty t (tallying up answer) e = refl
step-IsNonempty t (finished answer) e = refl
step-IsNonempty t (migrating op) e = refl
step-IsNonempty t (marking op i u) e = ground arith
step-IsNonempty t (flagging op i u) e = refl
step-IsNonempty t (checking op i u) e = ground arith
step-IsNonempty t (emptying op i u) e = refl
step-IsNonempty t (marked op u) e = refl

-- Writes to a store that leave the records which are not cleared so.
abbrev pub KeepsFull : Store → Store → Type 0
KeepsFull s s' = (k : ℕ) → is_empty_at s.buckets k ≡ false → is_empty_at s'.buckets k ≡ false

set_record-KeepsFull :
    (s : Store) (i : ℕ) (r : Record)
    → (is_empty_at s.buckets i ≡ false → same_record r empty_record ≡ false)
    → KeepsFull s (set_record s i r)
set_record-KeepsFull s i r full k e = elim (bucket_at-set_any s.buckets i k _) [
  | inl it ↦ ap (λ b. same_record b.rec empty_record) it ∙ elim (Bool-cases (i == k)) [
    | inl same ↦
        let q : k ≡ i = sym ((==_iff i k).0 same) in
        rw same (full (sym (ap (is_empty_at s.buckets) q) ∙ e))
    | inr other ↦ rw other e
  ]
  | inr it ↦ ap (λ b. same_record b.rec empty_record) it ∙ e
]

set_hv-KeepsFull : (s : Store) (i : ℕ) (h : Hash) → KeepsFull s (set_hv s i h)
set_hv-KeepsFull s i h k e = elim (bucket_at-set_any s.buckets i k _) [
  | inl it ↦ ap (λ b. same_record b.rec empty_record) it ∙ elim (Bool-cases (i == k)) [
    | inl same ↦
        let q : k ≡ i = sym ((==_iff i k).0 same) in
        rw same (sym (ap (is_empty_at s.buckets) q) ∙ e)
    | inr other ↦ rw other e
  ]
  | inr it ↦ ap (λ b. same_record b.rec empty_record) it ∙ e
]

moving-full : (r : Record) → same_record (record r { moving = true }) empty_record ≡ false
unfolding same_record
moving-full r = ground arith

moved-full : (r : Record) → same_record (record r { moved = true }) empty_record ≡ false
unfolding same_record
moved-full r = ground arith

pub step-KeepsFull :
    (t : Hihat) (pc : Pc) → IsNonempty pc → KeepsFull t.store_current (step t pc).0.store_current
unfolding step reserve_step count_step install_step
step-KeepsFull t (probing op k b) e j w = w
step-KeepsFull t (reserving op k b) e j w =
    elim (Bool-cases ((bucket_at t.store_current.buckets b).hv == 0)) [
      | inl free ↦ rw free (set_hv-KeepsFull t.store_current b (hash_of op) j w)
      | inr claimed ↦ rw claimed w
    ]
step-KeepsFull t (counting op b) e j w = w
step-KeepsFull t (loading op b) e j w = w
step-KeepsFull t (numbering op b r) e j w = w
step-KeepsFull t (stepping op b r epoch) e j w = w
step-KeepsFull t (installing op b old candidate) e j w =
    elim (Bool-cases (same_record (bucket_at t.store_current.buckets b).rec old)) [
      | inl same ↦
          rw same (set_record-KeepsFull t.store_current b candidate (λ f. ground (arith, e)) j w)
      | inr other ↦ rw other w
    ]
step-KeepsFull t (tallying up answer) e j w = w
step-KeepsFull t (finished answer) e j w = w
step-KeepsFull t (migrating op) e j w = w
step-KeepsFull t (marking op i u) e j w = w
step-KeepsFull t (flagging op i u) e j w =
    set_record-KeepsFull t.store_current i _
      (λ f. moving-full (bucket_at t.store_current.buckets i).rec) j w
step-KeepsFull t (checking op i u) e j w = w
step-KeepsFull t (emptying op i u) e j w =
    set_record-KeepsFull t.store_current i _
      (λ f. moved-full (bucket_at t.store_current.buckets i).rec) j w
step-KeepsFull t (marked op u) e j w = w
