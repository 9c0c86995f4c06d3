-- ===== src/Hihat/Copying.antt =====
-- hihat.c: what `hihat_store_migrate` does once the old store is marked, by its steps. Threads that migrate
-- copy the old store into the new one, each item perhaps more than once, until one of them publishes
-- it; from then on calls are at work on the new store, while late threads may still be copying.
pub mod Pigeon
pub mod Written
pub mod Phase
pub mod Stable
pub mod Refills
pub mod Room
pub mod Acquires
pub mod Claims
pub mod Writes
pub mod Copies
pub mod Nonempty
pub mod Publishes
pub mod Offers
pub mod World
pub mod Runs
pub mod Begins
pub mod Ranks
pub mod Waits
mod Tests
use hatrack.Prelude.{
  ℕ, zero, suc, ◌+◌, ◌≡◌, Bool, true, false, ltb, ◌==◌, if◌then◌else◌, Option, none, some, List, [],
  ◌∷◌, add64,
}
use hatrack.Common.{Hash, hashes_eq, bucket_unreserved, bucket_index, new_size}
use hatrack.FiniteMap.{Op}
use hatrack.Hihat.{
  Record, empty_record, same_record, bucket_at, Store, Hihat, store_new, set_hv, set_record,
}
use hatrack.Hihat.Steps.{Pc, finished, Event, quiet, next_slot}
use hatrack.Hihat.Marking.{flag_moved}
use hatrack.Hihat.Machine.{start, step, set_pc, start_if}

-- The two stores, and the variables of the table. `store_next` is that of the old store, and
-- `store_current` is the old store until it is published to be the new one.
pub record Migration : Type 0 where
  pub old : Store
  pub store_next : Option Store
  pub published : Bool
  pub item_count : ℕ
  pub next_epoch : ℕ

-- Where a thread stands that migrates, once every bucket is marked.
pub data Copy : Type 0 where
  -- load `store_next`; if it is null, allocate a store and compare-and-swap it
  choosing offering : Copy
  -- load a record of the old store; load its hash value
  scanning : (i : ℕ) → Copy
  hashing : (i : ℕ) → Record → Copy
  -- find a bucket in the new store: load a hash value, with so many rounds left; compare-and-swap one that
  -- was seen unreserved; the last field is the bucket of the last round, `new_bucket`
  acquiring : (i : ℕ) → Record → Hash → (rounds bix new_bix : ℕ) → Copy
  claiming : (i : ℕ) → Record → Hash → (rounds bix : ℕ) → Copy
  -- compare-and-swap the record there; set `HIHAT_F_MOVED` in the old one
  writing : (i : ℕ) → Record → (new_bix : ℕ) → Copy
  settling : (i : ℕ) → Copy
  -- compare-and-swap `used_count`, and `store_current`; load `store_current` and try the call again
  recording publishing returning : Copy

-- A thread migrates for a call, with the `new_used` that it has counted, or is at work on the new store.
pub data Place : Type 0 where
  copies : Op → (new_used : ℕ) → Copy → Place
  works : Pc → Place

-- The new store, where there is one.
abbrev pub no_store : Store
no_store = record { last_slot = 0; threshold = 0; used_count = 0; buckets = [] }

abbrev pub new_store : Migration → Store
new_store m = elim m.store_next [ none ↦ no_store | some s ↦ s ]

-- The table as the calls on the new store see it.
abbrev pub new_table : Migration → Hihat
new_table m = record {
  store_current = new_store m;
  item_count = m.item_count;
  next_epoch = m.next_epoch;
}

abbrev pub with_new : Migration → Store → Migration
with_new m s = record m { store_next = some s }

-- The record that is copied: the flags are left behind.
abbrev pub candidate_record : Record → Record
candidate_record r = record empty_record { item = r.item; epoch = r.epoch }

unfoldable pub scan_step : Store → ℕ → Copy
scan_step old i =
    let r = (bucket_at old.buckets i).rec in
    if ltb old.last_slot i then recording else (if r.moved then scanning (i + 1) else hashing i r)

-- A hash value of the new store has been seen, and it is reserved.
abbrev pub seen_reserved : Store → ℕ → Record → Hash → Hash → ℕ → ℕ → Copy
seen_reserved new i r hv expected_hv rounds bix =
    if hashes_eq expected_hv hv
    then writing i r bix
    else acquiring i r hv rounds (next_slot bix new.last_slot) bix

unfoldable pub acquire_step : Store → ℕ → Record → Hash → ℕ → ℕ → ℕ → Copy
acquire_step new i r hv zero bix new_bix = writing i r new_bix
acquire_step new i r hv (suc rounds) bix new_bix =
    let expected_hv = (bucket_at new.buckets bix).hv in
    if bucket_unreserved expected_hv
    then claiming i r hv rounds bix
    else seen_reserved new i r hv expected_hv rounds bix

unfoldable pub claim_step : Store → ℕ → Record → Hash → ℕ → ℕ → Store × Copy
claim_step new i r hv rounds bix =
    let expected_hv = (bucket_at new.buckets bix).hv in
    if bucket_unreserved expected_hv
    then (set_hv new bix hv, writing i r bix)
    else (new, seen_reserved new i r hv expected_hv rounds bix)

unfoldable pub write_step : Store → Record → ℕ → Store
unfolding same_record
write_step new r bix =
    if same_record (bucket_at new.buckets bix).rec empty_record
    then set_record new bix (candidate_record r)
    else new

abbrev pub record_step : Store → ℕ → Store
record_step new new_used = record new {
  used_count = if new.used_count == 0 then new_used else new.used_count;
}

abbrev pub choose_step : Option Store → Copy
choose_step none = offering
choose_step (some s) = scanning 0

-- The allocation and the compare-and-swap of it; a store that loses is freed.
abbrev pub offer_step : Store → Option Store → ℕ → Option Store
unfolding store_new
offer_step old none new_used = some (store_new (new_size old.last_slot new_used))
offer_step old (some s) new_used = some s

unfoldable pub copy_step : Migration → Op → ℕ → Copy → Migration × Place
unfolding scan_step acquire_step claim_step write_step offer_step
copy_step m op u choosing = (m, copies op u (choose_step m.store_next))
copy_step m op u offering =
    (record m { store_next = offer_step m.old m.store_next u }, copies op u (scanning 0))
copy_step m op u (scanning i) = (m, copies op u (scan_step m.old i))
copy_step m op u (hashing i r) =
    let hv = (bucket_at m.old.buckets i).hv in
    let last_slot = (new_store m).last_slot in
    (m, copies op u (acquiring i r hv (add64 last_slot 1) (bucket_index hv last_slot) 0))
copy_step m op u (acquiring i r hv rounds bix new_bix) =
    (m, copies op u (acquire_step (new_store m) i r hv rounds bix new_bix))
copy_step m op u (claiming i r hv rounds bix) =
    let (s, c) = claim_step (new_store m) i r hv rounds bix in (with_new m s, copies op u c)
copy_step m op u (writing i r new_bix) =
    (with_new m (write_step (new_store m) r new_bix), copies op u (settling i))
copy_step m op u (settling i) =
    (record m { old = flag_moved m.old i }, copies op u (scanning (i + 1)))
copy_step m op u recording = (with_new m (record_step (new_store m) u), copies op u publishing)
copy_step m op u publishing = (record m { published = true }, copies op u returning)
copy_step m op u returning = (m, works (start (new_store m) op))

-- A step of a call on the new store.
unfoldable pub work_step : Migration → Pc → Migration × Place × Event
unfolding step
work_step m pc =
    let (t, pc', event) = step (new_table m) pc in
    (
      record m {
        store_next = some t.store_current;
        item_count = t.item_count;
        next_epoch = t.next_epoch;
      },
      works pc',
      event,
    )

unfoldable pub place_step : Migration → Place → Migration × Place × Event
unfolding copy_step work_step
place_step m (copies op u c) = let (m', place) = copy_step m op u c in (m', place, quiet)
place_step m (works pc) = work_step m pc
