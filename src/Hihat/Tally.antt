-- ===== src/Hihat/Tally.antt =====
-- The marking loop at the start of `hihat_store_migrate` among the other threads: at its end every bucket
-- is marked and `new_used` is the number of items there.
use hatrack.Prelude.{
  ℕ, suc, ◌+◌, ◌<◌, ◌≡◌, refl, sym, ◌∙◌, subst, arith, true, ◌==◌, ==_iff, length-set, List, [],
  ◌∷◌, length, set, inl, inr, Bool-cases, count_by, ltb,
}
use hatrack.FiniteMap.{Op}
use hatrack.Hihat.{empty_record, Bucket, bucket_at, Store, Hihat}
use hatrack.Hihat.Steps.{
  Pc, probing, reserving, counting, loading, numbering, stepping, installing, tallying, finished,
  migrating, marking, flagging, checking, emptying, marked,
}
use hatrack.Hihat.Machine.{step, World, Action, runs, calls, set_pc, start_if, act, run}
use hatrack.Hihat.Flat.{flats}
use hatrack.Hihat.Invariant.{IsStore, Stands}
use hatrack.Hihat.Schedules.{IsWorld, AreNonZero, runs-IsWorld, calls-IsWorld}
use hatrack.Hihat.Marks.{
  moves, Marks, Marks-refl, MarkedBelow, HasMarked, HasMarked-Marks, below_none,
}
use hatrack.Hihat.Marked.{step-Marks, step-HasMarked}
use hatrack.Hihat.Marking.{flag_moved, mark_step, check_step}
use hatrack.Hihat.Marked.{outside_loop}
use hatrack.Hihat.Keeps.{Kept, Kept-refl, step-Kept}
use hatrack.Hihat.Counted.{
  has_item, items_below-length, HasCounted, items_below-Kept, HasCounted-Kept, HasCounted-outside,
}

module _ (t : Hihat) (v : IsStore t.store_current) where
  abbrev bs : List Bucket
  bs = t.store_current.buckets

  mark-HasCounted :
      (op : Op) (i u : ℕ)
      → HasCounted bs (marking op i u)
      → HasCounted bs (mark_step t.store_current op i u)
  unfolding mark_step
  mark-HasCounted op i u (l, q) = elim (Bool-cases (ltb t.store_current.last_slot i)) [
    | inl past ↦ let e : i ≡ length bs = ground (arith, past, l, v.width) in rw (past, ← e) q
    | inr within ↦ elim (Bool-cases (bucket_at bs i).rec.moving) [
      | inl moving ↦
          let next : i + 1 ≡ suc i = omega arith in
          rw (within, moving, next) (ground (arith, within, v.width), rw q refl)
      | inr still ↦ rw (within, still) (ground (arith, within, v.width), q)
    ]
  ]

  check-HasCounted :
      (op : Op) (i u : ℕ)
      → HasCounted bs (checking op i u)
      → HasCounted bs (check_step t.store_current op i u)
  unfolding check_step
  check-HasCounted op i u (l, q) = elim (Bool-cases ((bucket_at bs i).rec.epoch == 0)) [
    | inl gone ↦ rw gone (l, q, (==_iff _ 0).0 gone)
    | inr live ↦
        let next : i + 1 ≡ suc i = omega arith in
        rw (live, next) (omega (arith, l), rw (live, q) refl)
  ]

  empty-HasCounted :
      (op : Op) (i u : ℕ)
      → HasMarked bs (emptying op i u)
      → HasCounted bs (emptying op i u)
      → HasCounted (flag_moved t.store_current i).buckets (marking op (i + 1) u)
  unfolding step
  empty-HasCounted op i u m (l, q, z) =
      let b : Bucket = record (bucket_at bs i) {
        rec = record (bucket_at bs i).rec { moved = true };
      } in
      let wide = length-set bs i b in
      let k = step-Kept t 0 (emptying op i u) tt in
      let next : i + 1 ≡ suc i = omega arith in
      let below =
        items_below-Kept bs (set bs i b) (suc i) (omega (arith, l)) k
          (subst (MarkedBelow bs) next m) in
      rw next (omega (arith, l, wide), sym (below ∙ rw (z, q) refl))

  step-HasCounted :
      (n : ℕ) (pc : Pc)
      → Stands (flats bs) n pc
      → HasMarked bs pc
      → HasCounted bs pc
      → HasCounted (step t pc).0.store_current.buckets (step t pc).1
  unfolding step
  step-HasCounted n (probing op rounds bix) s m h =
      HasCounted-outside _ _
        (outside_loop t v op rounds bix empty_record empty_record empty_record).0
  step-HasCounted n (reserving op rounds bix) s m h =
      HasCounted-outside _ _
        (outside_loop t v op rounds bix empty_record empty_record empty_record).1
  step-HasCounted n (counting op bix) s m h =
      HasCounted-outside _ _ (outside_loop t v op 0 bix empty_record empty_record empty_record).2
  step-HasCounted n (loading op bix) s m h =
      HasCounted-outside _ _
        (outside_loop t v op 0 bix (bucket_at bs bix).rec empty_record empty_record).3
  step-HasCounted n (numbering op bix r) s m h = tt
  step-HasCounted n (stepping op bix r e) s m h = tt
  step-HasCounted n (installing op bix old candidate) s m h =
      HasCounted-outside _ _ (outside_loop t v op 0 bix empty_record old candidate).4
  step-HasCounted n (tallying up answer) s m h = tt
  step-HasCounted n (finished answer) s m h = tt
  step-HasCounted n (migrating op) s m h = (omega arith, refl)
  step-HasCounted n (marking op i u) s m h = mark-HasCounted op i u h
  step-HasCounted n (flagging op i u) s m (l, q) =
      let b : Bucket = record (bucket_at bs i) {
        rec = record (bucket_at bs i).rec { moving = true };
      } in
      let wide = length-set bs i b in
      let k = step-Kept t 0 (flagging op i u) tt in
      let below = items_below-Kept bs (set bs i b) i (omega (arith, l)) k m in
      (omega (arith, l, wide), q ∙ sym below)
  step-HasCounted n (checking op i u) s m h = check-HasCounted op i u h
  step-HasCounted n (emptying op i u) s m h = empty-HasCounted op i u m h
  step-HasCounted n (marked op u) s m h = h

-- Each thread has marked the buckets that its place says it has, and has counted their items.
abbrev pub IsMarked : World → Type 0
IsMarked w =
    (i : ℕ)
    → HasMarked w.table.store_current.buckets (w.pcs i)
      × HasCounted w.table.store_current.buckets (w.pcs i)

set_pc-IsMarked :
    {bs bs' : List Bucket} (pcs : ℕ → Pc) (i : ℕ) (pc : Pc)
    → Marks bs bs'
    → Kept bs bs'
    → ((j : ℕ) → HasMarked bs (pcs j) × HasCounted bs (pcs j))
    → HasMarked bs' pc × HasCounted bs' pc
    → (j : ℕ) → HasMarked bs' (set_pc pcs i pc j) × HasCounted bs' (set_pc pcs i pc j)
set_pc-IsMarked {bs} {bs'} pcs i pc m k all now j = elim (Bool-cases (j == i)) [
  | inl same ↦ rw same now
  | inr other ↦
      let (marks, counts) = all j in
      rw other
        (HasMarked-Marks (pcs j) m marks, HasCounted-Kept bs bs' (pcs j) m.width k marks counts)
]

start_if-IsMarked :
    (bs : List Bucket) (s : Store) (op : Op) (pc : Pc)
    → HasMarked bs pc × HasCounted bs pc
    → HasMarked bs (start_if s op pc) × HasCounted bs (start_if s op pc)
start_if-IsMarked buckets s op (probing o rounds bix) h = h
start_if-IsMarked buckets s op (reserving o rounds bix) h = h
start_if-IsMarked buckets s op (counting o bix) h = h
start_if-IsMarked buckets s op (loading o bix) h = h
start_if-IsMarked buckets s op (numbering o bix r) h = h
start_if-IsMarked buckets s op (stepping o bix r e) h = h
start_if-IsMarked buckets s op (installing o bix old candidate) h = h
start_if-IsMarked buckets s op (tallying up answer) h = h
start_if-IsMarked buckets s op (finished answer) h = (below_none buckets _ refl, tt)
start_if-IsMarked buckets s op (migrating o) h = h
start_if-IsMarked buckets s op (marking o i new_used) h = h
start_if-IsMarked buckets s op (flagging o i new_used) h = h
start_if-IsMarked buckets s op (checking o i new_used) h = h
start_if-IsMarked buckets s op (emptying o i new_used) h = h
start_if-IsMarked buckets s op (marked o new_used) h = h

pub runs-IsMarked :
    {n : ℕ} (w : World) (i : ℕ) → IsWorld (suc n) w → IsMarked w → IsMarked (act w (runs i)).1
unfolding act
runs-IsMarked {n} w i g m =
    let t = w.table in
    let marks = step-Marks t g.store (suc n) (w.pcs i) (g.stands i) in
    let kept = step-Kept t (suc n) (w.pcs i) (g.stands i) in
    let (mi, ci) = m i in
    let marked_own = step-HasMarked t g.store (suc n) (w.pcs i) (g.stands i) mi in
    let counted_own = step-HasCounted t g.store (suc n) (w.pcs i) (g.stands i) mi ci in
    set_pc-IsMarked w.pcs i _ marks kept m (marked_own, counted_own)

pub calls-IsMarked : (w : World) (i : ℕ) (op : Op) → IsMarked w → IsMarked (act w (calls i op)).1
unfolding act
calls-IsMarked w i op m =
    let bs = w.table.store_current.buckets in
    set_pc-IsMarked w.pcs i _ (Marks-refl bs) (Kept-refl bs) m
      (start_if-IsMarked bs w.table.store_current op (w.pcs i) (m i))

run-IsMarked :
    (schedule : List Action) (w : World)
    → IsWorld (length schedule) w
    → AreNonZero schedule
    → IsMarked w
    → IsMarked (run w schedule).1
unfolding run
run-IsMarked [] w g nz m = m
run-IsMarked (runs i ∷ rest) w g nz m =
    run-IsMarked rest (act w (runs i)).1 (runs-IsWorld w i g).0 nz (runs-IsMarked w i g m)
run-IsMarked (calls i op ∷ rest) w g nz m =
    run-IsMarked rest (act w (calls i op)).1 (calls-IsWorld w i op nz.0 g) nz.1
      (calls-IsMarked w i op m)

-- In any schedule, when a thread has come to the end of the marking loop, all the buckets are marked,
-- and the `new_used` that it has counted is the number of buckets with an item, whatever the other
-- threads did meanwhile. So all the threads that migrate the store compute the same number.
pub run_marked :
    (schedule : List Action) (w : World)
    → IsWorld (length schedule) w
    → AreNonZero schedule
    → IsMarked w
    → (i : ℕ) (op : Op) (new_used : ℕ) → (run w schedule).1.pcs i ≡ marked op new_used
    → let buckets = (run w schedule).1.table.store_current.buckets in
      ((j : ℕ) → j < length buckets → moves buckets j ≡ true)
      × (new_used ≡ count_by has_item buckets)
run_marked schedule w g nz m i op new_used e =
    let bs = (run w schedule).1.table.store_current.buckets in
    let (mi, ci) = run-IsMarked schedule w g nz m i in
    let marks : HasMarked bs (marked op new_used) = subst (HasMarked bs) e mi in
    let counts : HasCounted bs (marked op new_used) = subst (HasCounted bs) e ci in
    (λ j l. marks j l l, counts ∙ items_below-length bs)
