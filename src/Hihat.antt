-- ===== src/Hihat.antt =====
-- src/hash/hihat.c and include/hatrack/hihat.h: the lock-free hash table. Here are its data and what it
-- does at each atomic step of a call, up to the migration to another store.
pub mod Steps
pub mod Marking
pub mod Machine
pub mod Flat
pub mod Position
pub mod Invariant
pub mod Probes
pub mod Records
pub mod Installs
pub mod Linear
pub mod Schedules
pub mod Late
pub mod Marks
pub mod Marked
pub mod Keeps
pub mod Frozen
pub mod Counted
pub mod Tally
pub mod Fresh
pub mod Copying
pub mod Left
pub mod Falls
pub mod Progress
mod Tests
use hatrack.Prelude.{
  ℕ, zero, suc, ◌+◌, ◌^◌, Bool, true, false, not, ◌&&◌, ◌||◌, ltb, ◌==◌, if◌then◌else◌, List, [],
  ◌∷◌, length, get_or, set, replicate, add64, sub64,
}
use hatrack.Common.{Hash, Pointer, null, min_size_log, compute_table_threshold, View, quicksort_cmp}

-- `hihat_record_t`. The word `info` is taken apart: its three flags, and the epoch under
-- `HIHAT_EPOCH_MASK`.
pub record Record : Type 0 where
  pub item : Pointer
  pub moving : Bool
  pub moved : Bool
  pub inited : Bool
  pub epoch : ℕ

-- A record that `calloc` has cleared.
abbrev pub empty_record : Record
empty_record = record { item = null; moving = false; moved = false; inited = false; epoch = 0 }

abbrev pub same_flag : Bool → Bool → Bool
same_flag true b = b
same_flag false b = not b

-- The comparison of a compare-and-swap.
unfoldable pub same_record : Record → Record → Bool
same_record r s =
    r.item == s.item
    && same_flag r.moving s.moving
    && same_flag r.moved s.moved
    && same_flag r.inited s.inited
    && r.epoch == s.epoch

-- `hihat_bucket_t`
pub record Bucket : Type 0 where
  pub hv : Hash
  pub rec : Record

abbrev pub empty_bucket : Bucket
empty_bucket = record { hv = 0; rec = empty_record }

-- `hihat_store_t`, without `store_next`.
pub record Store : Type 0 where
  pub last_slot : ℕ
  pub threshold : ℕ
  pub used_count : ℕ
  pub buckets : List Bucket

-- `hihat_t`, with its store.
pub record Hihat : Type 0 where
  pub store_current : Store
  pub item_count : ℕ
  pub next_epoch : ℕ

-- `hihat_store_new`
unfoldable pub store_new : ℕ → Store
store_new size = record {
  last_slot = sub64 size 1;
  threshold = compute_table_threshold size;
  used_count = 0;
  buckets = replicate size empty_bucket;
}

-- How `hihat_init_size` ends: it calls `abort()`, shifts the `int` 1 past its width, or fills the
-- table in.
pub data Init : Type 0 where
  aborted shift_overflow : Init
  ready : Hihat → Init

unfoldable pub init_size : ℕ → Init
unfolding store_new
init_size size =
    let filled =
      ready (record { store_current = store_new (2 ^ size); item_count = 0; next_epoch = 1 }) in
    if ltb 64 size || ltb size min_size_log
    then aborted
    else (if ltb 30 size then shift_overflow else filled)

abbrev pub len : Hihat → ℕ
len self = self.item_count

-- The loop of `hihat_view`, when no other thread writes during it.
unfoldable pub collect : List Bucket → List View
collect [] = []
collect (cur ∷ rest) =
    if cur.rec.epoch == 0
    then collect rest
    else record { item = cur.rec.item; sort_epoch = cur.rec.epoch } ∷ collect rest

-- `qsort` is the C library's. An empty view is `NULL`, which is `[]` here.
unfoldable pub view : ((View → View → ℕ) → List View → List View) → Hihat → Bool → List View × ℕ
unfolding collect
view qsort self sort =
    let items = collect self.store_current.buckets in
    ((if sort then qsort quicksort_cmp items else items), length items)

abbrev pub bucket_at : List Bucket → ℕ → Bucket
bucket_at buckets i = get_or buckets i empty_bucket

-- Writes to one bucket.
abbrev pub set_hv : Store → ℕ → Hash → Store
set_hv self i hv = record self {
  buckets = set self.buckets i (record (bucket_at self.buckets i) { hv = hv });
}

abbrev pub set_record : Store → ℕ → Record → Store
set_record self i r = record self {
  buckets = set self.buckets i (record (bucket_at self.buckets i) { rec = r });
}
