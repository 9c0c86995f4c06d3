-- ===== src/Hihat/Copying/Tests.antt =====
-- Two threads that migrate a small marked store of hihat.c, and the theorems about it.
use hatrack.Prelude.{
  ℕ, zero, suc, ◌+◌, ◌-◌, ◌*◌, ◌^◌, ◌<◌, ◌≡◌, ◌≢◌, ◌&&◌, ◌||◌, ◌==◌, not, refl, arith, Bool, true,
  false, if◌then◌else◌, List, [], ◌∷◌, ◌++◌, length, replicate, count_by, inl, inr, Bool-cases,
}
use hatrack.Common.{bucket_index, compute_table_threshold, found_item, not_found, new_size}
use hatrack.FiniteMap.{Op, op_add, op_put, op_remove, reply, hash_of}
use hatrack.Hihat.{Bucket, bucket_at, Store, store_new, same_record}
use hatrack.Hihat.Steps.{
  finished, migrating, probe_step, reserve_step, count_step, load_step, install_step,
}
use hatrack.Hihat.Marking.{mark_step, check_step}
use hatrack.Hihat.Machine.{step, Action, runs, calls, Replays}
use hatrack.Hihat.Machine
use hatrack.Hihat.Schedules.{IsWorld, run-Replays}
use hatrack.Hihat.Fresh.{fresh_table, fresh-IsWorld}
use hatrack.Hihat.Copying.{
  copies, writing, works, new_store, copy_step, scan_step, acquire_step, claim_step, write_step,
  offer_step, work_step, place_step,
}
use hatrack.Hihat.Copying.Phase.{IsStart, is_pending}
use hatrack.Hihat.Copying.World.{World, act, run}
use hatrack.Hihat.Copying.Begins.{copying, copying-IsCopying}
use hatrack.Hihat.Copying.Waits.{is_working, copying-is_working}

program : Unit {0}
unfolding Machine.run Machine.act store_new fresh_table step act run probe_step reserve_step
    count_step load_step install_step mark_step check_step same_record bucket_index
    compute_table_threshold new_size count_by copy_step scan_step acquire_step claim_step write_step
    offer_step work_step place_step
program = tt

-- An item is put, and then the store is marked.
abbrev filled : List Action
filled = calls 0 (op_put 17 101) ∷ replicate 8 (runs 0)

abbrev marks : List Action
marks = filled ++ replicate 66 (runs 1)

abbrev marking : Machine.World
marking = record {
  table = fresh_table 4;
  pcs = λ i. if i == 1 then migrating (op_add 2 7) else finished (reply not_found);
}

abbrev old_world : Machine.World
old_world = (Machine.run marking marks).1

abbrev old : Store
old = old_world.table.store_current

-- What the buckets must be like.
abbrev fits : Bucket → Bool
fits b =
    (not (b.hv == 0) || b.rec.epoch == 0)
    && (not (b.rec.epoch == 0) || b.rec.item == 0)
    && (b.rec.epoch == 0 || not b.rec.moved)

abbrev all_fit : List Bucket → Bool
all_fit [] = true
all_fit (b ∷ bs) = fits b && all_fit bs

all_fit-fits : (bs : List Bucket) (j : ℕ) → all_fit bs ≡ true → fits (bucket_at bs j) ≡ true
all_fit-fits [] j e = refl
all_fit-fits (b ∷ bs) zero e = ground (arith, e)
all_fit-fits (b ∷ bs) (suc j) e = all_fit-fits bs j (ground (arith, e))

marking-IsWorld : (n : ℕ) → n + 1 < 2 ^ 61 → IsWorld n marking
marking-IsWorld n few =
    let g = fresh-IsWorld 4 (omega arith) (omega arith) n few in
    record {
      store = g.store;
      started = g.started;
      clock = g.clock;
      stands = λ i. elim (Bool-cases (i == 1)) [ inl one ↦ rw one tt | inr other ↦ rw other tt ];
    }

fits-blank : (b : Bucket) → fits b ≡ true → b.hv ≡ 0 → b.rec.epoch ≡ 0
fits-blank b e z = ground (arith, e, z)

fits-clear : (b : Bucket) → fits b ≡ true → b.rec.epoch ≡ 0 → b.rec.item ≡ 0
fits-clear b e z = ground (arith, e, z)

fits-unmoved : (b : Bucket) → fits b ≡ true → b.rec.epoch ≢ 0 → b.rec.moved ≡ false
fits-unmoved b e live = ground (arith, e, live)

old_fits : all_fit old.buckets ≡ true
unfolding program
old_fits = refl

old_width : length old.buckets ≡ old.last_slot + 1
unfolding program
old_width = refl

old_size : new_size (length old.buckets - 1) 1 ≡ 128
unfolding program
old_size = refl

old_pending : count_by is_pending old.buckets ≡ 1
unfolding program
old_pending = refl

-- The theorem about calls says that the buckets of the marked store are placed.
old-IsStart : IsStart old.buckets 1
old-IsStart =
    let g =
      (run-Replays marks marking (marking-IsWorld (length marks) (omega arith))
        (λ e. omega arith, tt)).0 in
    let v = g.store in
    record {
      placed = v.placed;
      blank = λ j. fits-blank (bucket_at old.buckets j) (all_fit-fits old.buckets j old_fits);
      clear = λ j. fits-clear (bucket_at old.buckets j) (all_fit-fits old.buckets j old_fits);
      unmoved = λ j. fits-unmoved (bucket_at old.buckets j) (all_fit-fits old.buckets j old_fits);
      power = (7, old_size);
      word = rw old_size (omega arith);
      room = rw (old_size, old_pending) (omega arith);
    }

-- Thread 0 migrates for a remove, and thread 1 for a put of another item.
abbrev ops : ℕ → Op
ops i = if i == 0 then op_remove 17 else op_put 18 102

ops_nonzero : (i : ℕ) → hash_of (ops i) ≢ 0
ops_nonzero i = elim (Bool-cases (i == 0)) [
  | inl zeroth ↦ rw zeroth (λ e. omega arith)
  | inr other ↦ rw other (λ e. omega arith)
]

abbrev both : World
both = copying old 1 1 2 ops

-- Thread 1 stops as it is about to write the record in the new store. Thread 0 copies all, publishes the new
-- store and removes the item. Then thread 1 goes on, to the end of its put.
abbrev late_copy : List Action
late_copy = replicate 7 (runs 1) ++ replicate 30 (runs 0) ++ replicate 32 (runs 1)

late_copy_stalls :
    (run both (replicate 7 (runs 1))).1.places 1
    ≡ copies (op_put 18 102) 1 (writing 1 (bucket_at old.buckets 1).rec 17)
unfolding program
late_copy_stalls = refl

-- The item stays removed, as the record that removed it keeps `HIHAT_F_INITED`.
late_copy_answers :
    let last = (run both late_copy).1 in
    (last.places 0 ≡ works (finished (reply (found_item 101))))
    × (last.places 1 ≡ works (finished (reply not_found)))
    × ((bucket_at (new_store last.migration).buckets 17).rec.epoch ≡ 0)
    × ((bucket_at (new_store last.migration).buckets 18).rec.item ≡ 102)
unfolding program
late_copy_answers = (refl, refl, refl, refl)

-- Thread 0 takes as many steps as it can need, and thread 1 a few.
abbrev enough : List Action
enough = replicate 5 (runs 1) ++ replicate 4182 (runs 0)

old_steps : length old.buckets * (2 * new_size (length old.buckets - 1) 1 + 5) + 6 ≡ 4182
unfolding program
old_steps = refl

copying-is_working_example : is_working ((run both enough).1.places 0) ≡ true
copying-is_working_example =
    copying-is_working old.buckets 1 old-IsStart 0 enough both (op_remove 17) 1
      (copying-IsCopying old 1 1 2 ops old-IsStart old_width ops_nonzero (omega arith)
        (length enough) (omega arith))
      tt refl (rw old_steps (omega arith))
