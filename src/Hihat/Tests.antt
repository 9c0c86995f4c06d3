-- ===== src/Hihat/Tests.antt =====
-- Schedules of two threads on one store of hihat.c, and the theorems at some of them.
use hatrack.Prelude.{
  ℕ, suc, if◌then◌else◌, ◌+◌, ◌≡◌, ◌==◌, ◌<◌, ◌^◌, refl, arith, true, false, List, [], ◌∷◌, ◌++◌,
  length, replicate, count_by, inl, inr, Bool-cases,
}
use hatrack.Common.{bucket_index, compute_table_threshold, found_item, not_found}
use hatrack.FiniteMap.{Op, op_add, op_put, op_remove, reply, spec}
use hatrack.Hihat.{bucket_at, store_new, init_size, same_record, view, collect}
use hatrack.Hihat.Steps.{
  Pc, finished, migrating, marking, flagging, quiet, acts, loses, probe_step, reserve_step,
  count_step, load_step, install_step,
}
use hatrack.Hihat.Marking.{mark_step, check_step}
use hatrack.Hihat.Machine.{start, step, World, Action, runs, calls, act, run}
use hatrack.Hihat.Schedules.{IsWorld, runs-IsWorld}
use hatrack.Hihat.Marks.{moves}
use hatrack.Hihat.Frozen.{run_frozen}
use hatrack.Hihat.Counted.{has_item}
use hatrack.Hihat.Tally.{IsMarked, run_marked}
use hatrack.Hihat.Fresh.{idle, fresh_table, fresh-IsWorld, fresh-IsMarked}

program : Unit {0}
unfolding init_size store_new fresh_table step act run probe_step reserve_step count_step load_step
    install_step mark_step check_step same_record bucket_index compute_table_threshold spec view
    collect
program = tt

abbrev fresh : World
fresh = idle (fresh_table 4)

-- Two threads put at one hash value, and both see the bucket unreserved. The second one loses both of
-- its compare-and-swaps: that of the hash value, and that of the record.
abbrev race : List Action
race =
    calls 0 (op_put 17 101)
    ∷ calls 1 (op_put 17 102)
    ∷ runs 0
    ∷ runs 1
    ∷ runs 0
    ∷ runs 1
    ∷ runs 0
    ∷ runs 0
    ∷ runs 1
    ∷ runs 0
    ∷ runs 0
    ∷ runs 1
    ∷ runs 1
    ∷ runs 0
    ∷ runs 1
    ∷ runs 0
    ∷ []

race_answers :
    let (events, last) = run fresh race in
    (last.pcs 0 ≡ finished (reply not_found))
    × (last.pcs 1 ≡ finished (reply (record { ret = 102; found = false })))
    × (last.table.item_count ≡ 1)
    × (last.table.store_current.used_count ≡ 1)
    × ((bucket_at last.table.store_current.buckets 1).rec.item ≡ 101)
    × (events
        ≡ replicate 13 quiet
          ++ (acts (op_put 17 101) (reply not_found)
              ∷ loses (op_put 17 102) (reply (record { ret = 102; found = false }))
              ∷ quiet
              ∷ []))
unfolding program
race_answers = (refl, refl, refl, refl, refl, refl)

-- Thread 1 removes an item while thread 0 puts another over it, and reports that there was none.
abbrev overtaken : List Action
overtaken =
    calls 0 (op_put 17 101) ∷ replicate 8 (runs 0)
    ++ calls 1 (op_remove 17) ∷ runs 1 ∷ runs 1 ∷ calls 0 (op_put 17 102) ∷ replicate 3 (runs 0)
    ++ runs 1 ∷ []

overtaken_answers :
    let (events, last) = run fresh overtaken in
    (last.pcs 0 ≡ finished (reply (found_item 101)))
    × (last.pcs 1 ≡ finished (reply not_found))
    × ((bucket_at last.table.store_current.buckets 1).rec.item ≡ 102)
unfolding program
overtaken_answers = (refl, refl, refl)

-- Thread 1 is at a place, the others are not at work.
abbrev world_at : Pc → World
world_at pc = record {
  table = fresh_table 4;
  pcs = λ i. if i == 1 then pc else finished (reply not_found);
}

-- Thread 0 puts an item and then thread 1 marks, up to the end.
abbrev marks : List Action
marks = calls 0 (op_put 17 101) ∷ replicate 8 (runs 0) ++ replicate 66 (runs 1)

world_at-IsWorld : (n : ℕ) (op : Op) → n + 1 < 2 ^ 61 → IsWorld n (world_at (migrating op))
world_at-IsWorld n op few =
    let g = fresh-IsWorld 4 (omega arith) (omega arith) n few in
    record {
      store = g.store;
      started = g.started;
      clock = g.clock;
      stands = λ i. elim (Bool-cases (i == 1)) [ inl one ↦ rw one tt | inr other ↦ rw other tt ];
    }

world_at-IsMarked : (op : Op) → IsMarked (world_at (migrating op))
world_at-IsMarked op i =
    let m = fresh-IsMarked 4 (omega arith) (omega arith) in
    elim (Bool-cases (i == 1)) [ inl one ↦ rw one (m i) | inr other ↦ rw other (m i) ]

run_marked_example :
    let buckets = (run (world_at (migrating (op_add 2 7))) marks).1.table.store_current.buckets in
    ((j : ℕ) → j < length buckets → moves buckets j ≡ true) × (1 ≡ count_by has_item buckets)
unfolding program
run_marked_example =
    run_marked marks (world_at (migrating (op_add 2 7)))
      (world_at-IsWorld (length marks) (op_add 2 7) (omega arith)) (λ e. omega arith, tt)
      (world_at-IsMarked (op_add 2 7)) 1 (op_add 2 7) 1 refl

-- Bucket 1 has just been marked, by thread 1.
abbrev marking_1 : World
marking_1 = (act (world_at (flagging (op_add 2 7) 1 0)) (runs 1)).1

marking_1-IsWorld : (n : ℕ) → n + 2 < 2 ^ 61 → IsWorld n marking_1
marking_1-IsWorld n few =
    let g = fresh-IsWorld 4 (omega arith) (omega arith) (suc n) (omega (arith, few)) in
    (runs-IsWorld (world_at (flagging (op_add 2 7) 1 0)) 1 (record {
      store = g.store;
      started = g.started;
      clock = g.clock;
      stands = λ i. elim (Bool-cases (i == 1)) [ inl one ↦ rw one tt | inr other ↦ rw other tt ];
    })).0

-- Thread 0 tries to put an item there.
abbrev late : List Action
late = calls 0 (op_put 17 101) ∷ replicate 5 (runs 0)

late_migrates : (run marking_1 late).1.pcs 0 ≡ marking (op_put 17 101) 0 0
unfolding program
late_migrates = refl

run_frozen_example :
    let after = (run marking_1 late).1.table.store_current.buckets in
    let before = marking_1.table.store_current.buckets in
    ((bucket_at after 1).rec.item ≡ (bucket_at before 1).rec.item)
    × ((bucket_at after 1).rec.epoch ≡ (bucket_at before 1).rec.epoch)
unfolding program
run_frozen_example =
    run_frozen late marking_1 (marking_1-IsWorld 6 (omega arith)) (λ e. omega arith, tt) 1 refl

-- Both threads put an item, and thread 0 takes all the steps that it can need.
abbrev both : List Action
both =
    replicate 3 (runs 1) ++ replicate 50 (runs 0) ++ replicate 3 (runs 1) ++ replicate 56 (runs 0)

both_start : World
both_start = record {
  table = fresh_table 4;
  pcs = λ i. start (fresh_table 4).store_current (op_put 17 (i + 1));
}
