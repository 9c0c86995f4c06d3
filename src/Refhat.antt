-- ===== src/Refhat.antt =====
-- src/hash/refhat.c: the single-threaded reference hash table, by linear probing.
pub mod Probing
pub mod Contents
pub mod Placed
pub mod Valid
pub mod Write
pub mod Update
pub mod Migrate
pub mod Resize
pub mod Operations
pub mod Run
pub mod Viewing
mod Tests
use hatrack.Prelude.{
  ℕ, zero, suc, ◌^◌, Bool, true, false, not, ◌||◌, ltb, ◌==◌, if◌then◌else◌, Option, none, some,
  List, [], ◌∷◌, length, get_or, set, replicate, add64, sub64,
}
use hatrack.Common.{Reply, found_item, not_found}
use hatrack.Common.{
  Hash, Pointer, null, min_size_log, compute_table_threshold, new_size, hashes_eq,
  bucket_unreserved, bucket_index, View, quicksort_cmp,
}

-- `refhat_bucket_t`
pub record Bucket : Type 0 where
  pub hv : Hash
  pub item : Pointer
  pub epoch : ℕ

-- A bucket that `calloc` has cleared.
abbrev pub empty_bucket : Bucket
empty_bucket = record { hv = 0; item = null; epoch = 0 }

-- `refhat_t`
pub record Refhat : Type 0 where
  pub last_slot : ℕ
  pub threshold : ℕ
  pub used_count : ℕ
  pub item_count : ℕ
  pub buckets : List Bucket
  pub next_epoch : ℕ

abbrev pub bucket_at : List Bucket → ℕ → Bucket
bucket_at buckets i = get_or buckets i empty_bucket

-- `bix = (bix + 1) & last_slot`
abbrev pub next_slot : ℕ → ℕ → ℕ
next_slot bix last_slot = bucket_index (add64 bix 1) last_slot

-- How the loop that every operation runs comes to its end: at the bucket of the hash value, at an
-- unreserved bucket, or, in `__builtin_unreachable`, after a full turn or outside the array.
pub data Probe : Type 0 where
  hit : (slot : ℕ) → Probe
  unreserved : (slot : ℕ) → Probe
  unreachable : Probe

-- The loop: `rounds` counts down from `last_slot + 1`.
unfoldable pub probe_from : List Bucket → ℕ → Hash → ℕ → ℕ → Probe
probe_from buckets last_slot hv zero bix = unreachable
probe_from buckets last_slot hv (suc rounds) bix =
    let rest = probe_from buckets last_slot hv rounds (next_slot bix last_slot) in
    let cur = bucket_at buckets bix in
    if ltb bix (length buckets)
    then (if hashes_eq hv cur.hv
        then hit bix
        else (if bucket_unreserved cur.hv then unreserved bix else rest))
    else unreachable

unfoldable pub probe : Refhat → Hash → Probe
unfolding probe_from
probe self hv =
    probe_from self.buckets self.last_slot hv (add64 self.last_slot 1)
      (bucket_index hv self.last_slot)

-- How `refhat_init_size` ends: it calls `abort()`, or shifts the `int` 1 past its width (which C
-- leaves undefined), or fills the table in.
pub data Init : Type 0 where
  aborted shift_overflow : Init
  ready : Refhat → Init

abbrev table_of : ℕ → Refhat
table_of len = record {
  last_slot = sub64 len 1;
  threshold = compute_table_threshold len;
  used_count = 0;
  item_count = 0;
  buckets = replicate len empty_bucket;
  next_epoch = 1;
}

unfoldable pub init_size : ℕ → Init
init_size size =
    let filled = ready (table_of (2 ^ size)) in
    if ltb 64 size || ltb size min_size_log
    then aborted
    else (if ltb 30 size then shift_overflow else filled)

unfoldable pub init : Init
unfolding init_size
init = init_size min_size_log

-- In the operations `none` is `__builtin_unreachable`.
unfoldable pub get : Refhat → Hash → Option Reply
get self hv = elim (probe self hv) [
  | hit i ↦
      let cur = bucket_at self.buckets i in
      some (if cur.epoch == 0 then not_found else found_item cur.item)
  | unreserved i ↦ some not_found
  | unreachable ↦ none
]

-- `refhat_migrate`: the inner loop, which walks to the first unreserved bucket.
unfoldable pub free_from : List Bucket → ℕ → ℕ → ℕ → Option ℕ
free_from new_buckets new_last_slot zero bix = none
free_from new_buckets new_last_slot (suc rounds) bix =
    let rest = free_from new_buckets new_last_slot rounds (next_slot bix new_last_slot) in
    if bucket_unreserved (bucket_at new_buckets bix).hv then some bix else rest

abbrev pub is_live : Bucket → Bool
is_live cur = not (bucket_unreserved cur.hv || cur.epoch == 0)

unfoldable pub move_bucket : List Bucket → ℕ → Bucket → List Bucket
unfolding free_from
move_bucket new_buckets num_buckets cur =
    if is_live cur
    then elim (free_from new_buckets (sub64 num_buckets 1) num_buckets
        (bucket_index cur.hv (sub64 num_buckets 1))) [
          | none ↦ new_buckets
          | some target ↦ set new_buckets target cur
        ]
    else new_buckets

-- The outer loop.
unfoldable pub move_all : List Bucket → ℕ → List Bucket → List Bucket
unfolding move_bucket
move_all new_buckets num_buckets [] = new_buckets
move_all new_buckets num_buckets (cur ∷ rest) =
    move_all (move_bucket new_buckets num_buckets cur) num_buckets rest

unfoldable pub migrate : Refhat → Refhat
unfolding move_all
migrate self =
    let num_buckets = new_size self.last_slot (add64 self.item_count 1) in
    record self {
      used_count = self.item_count;
      buckets = move_all (replicate num_buckets empty_bucket) num_buckets self.buckets;
      last_slot = sub64 num_buckets 1;
      threshold = compute_table_threshold num_buckets;
    }

-- The writes that the operations make at the bucket where the loop stopped.
abbrev pub overwrite : Refhat → ℕ → Pointer → Refhat
overwrite self i item = record self {
  buckets = set self.buckets i (record (bucket_at self.buckets i) { item = item });
}

abbrev pub revive : Refhat → ℕ → Pointer → Refhat
revive self i item = record self {
  buckets =
      set self.buckets i
        (record (bucket_at self.buckets i) { item = item; epoch = self.next_epoch });
  next_epoch = add64 self.next_epoch 1;
  item_count = add64 self.item_count 1;
}

abbrev pub claim : Refhat → ℕ → Hash → Pointer → Refhat
claim self i hv item = record self {
  used_count = add64 self.used_count 1;
  item_count = add64 self.item_count 1;
  buckets = set self.buckets i (record { hv = hv; item = item; epoch = self.next_epoch });
  next_epoch = add64 self.next_epoch 1;
}

-- A call of itself after a migration takes one unit of fuel.
unfoldable pub put : ℕ → Refhat → Hash → Pointer → Option (Reply × Refhat)
put zero self hv item = none
put (suc calls) self hv item =
    let again = put calls (migrate self) hv item in
    elim (probe self hv) [
      | hit i ↦
          let cur = bucket_at self.buckets i in
          some (
            if cur.epoch == 0
            then (not_found, revive self i item)
            else (found_item cur.item, overwrite self i item))
      | unreserved i ↦
          if add64 self.used_count 1 == self.threshold
          then again
          else some (not_found, claim self i hv item)
      | unreachable ↦ none
    ]

unfoldable pub replace : Refhat → Hash → Pointer → Option (Reply × Refhat)
replace self hv item = elim (probe self hv) [
  | hit i ↦
      let cur = bucket_at self.buckets i in
      some
        (if cur.epoch == 0 then (not_found, self) else (found_item cur.item, overwrite self i item))
  | unreserved i ↦ some (not_found, self)
  | unreachable ↦ none
]

unfoldable pub add : ℕ → Refhat → Hash → Pointer → Option (Bool × Refhat)
add zero self hv item = none
add (suc calls) self hv item =
    let again = add calls (migrate self) hv item in
    elim (probe self hv) [
      | hit i ↦ some (
          if (bucket_at self.buckets i).epoch == 0
          then (true, revive self i item)
          else (false, self))
      | unreserved i ↦
          if add64 self.used_count 1 == self.threshold
          then again
          else some (true, claim self i hv item)
      | unreachable ↦ none
    ]

abbrev pub discard : Refhat → ℕ → Refhat
discard self i = record self {
  buckets = set self.buckets i (record (bucket_at self.buckets i) { epoch = 0 });
  item_count = sub64 self.item_count 1;
}

unfoldable pub remove : Refhat → Hash → Option (Reply × Refhat)
remove self hv = elim (probe self hv) [
  | hit i ↦
      let cur = bucket_at self.buckets i in
      some (if cur.epoch == 0 then (not_found, self) else (found_item cur.item, discard self i))
  | unreserved i ↦ some (not_found, self)
  | unreachable ↦ none
]

unfoldable pub len : Refhat → ℕ
len self = self.item_count

-- The loop over the buckets.
unfoldable pub collect : List Bucket → List View
collect [] = []
collect (cur ∷ rest) =
    if is_live cur
    then record { item = cur.item; sort_epoch = cur.epoch } ∷ collect rest
    else collect rest

-- `qsort` is the C library's. The second part is what goes through `num`.
unfoldable pub view : ((View → View → ℕ) → List View → List View) → Refhat → Bool → List View × ℕ
unfolding collect
view qsort self sort =
    let items = collect self.buckets in
    ((if sort then qsort quicksort_cmp items else items), self.item_count)
