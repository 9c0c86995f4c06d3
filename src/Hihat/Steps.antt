-- ===== src/Hihat/Steps.antt =====
-- hihat.c: the atomic steps of `hihat_store_get`, `_put`, `_replace`, `_add` and `_remove`. Between any
-- two of them other threads may take theirs.
use hatrack.Prelude.{ℕ, zero, suc, Bool, true, false, leb, ◌==◌, if◌then◌else◌, add64}
use hatrack.Common.{
  Hash, Pointer, null, hashes_eq, bucket_unreserved, bucket_index, Reply, not_found, found_item,
}
use hatrack.FiniteMap.{
  Op, op_get, op_put, op_replace, op_add, op_remove, Answer, reply, added, hash_of,
}
use hatrack.Hihat.{Record, empty_record, same_record, bucket_at, Store, Hihat, set_hv, set_record}

-- Where a thread stands in a call: what its next step does.
pub data Pc : Type 0 where
  -- load the hash value of a bucket, with so many rounds of the loop left
  probing : Op → (rounds bix : ℕ) → Pc
  -- compare-and-swap the hash value, which was seen unreserved
  reserving : Op → (rounds bix : ℕ) → Pc
  -- add to `used_count`
  counting : Op → (bix : ℕ) → Pc
  -- load the record
  loading : Op → (bix : ℕ) → Pc
  -- load `next_epoch`, and store it back plus one
  numbering : Op → (bix : ℕ) → Record → Pc
  stepping : Op → (bix : ℕ) → Record → (epoch : ℕ) → Pc
  -- compare-and-swap the record: what it was seen to be, and the candidate
  installing : Op → (bix : ℕ) → (expected candidate : Record) → Pc
  -- add to `item_count`, or subtract from it
  tallying : (up : Bool) → Answer → Pc
  finished : Answer → Pc
  -- `goto migrate_and_retry`
  migrating : Op → Pc
  -- `hihat_store_migrate`, the loop that marks: load the record of a bucket, set `HIHAT_F_MOVING`,
  -- load it again, set `HIHAT_F_MOVED` if it is empty; the last field is `new_used`
  marking : Op → (i new_used : ℕ) → Pc
  flagging : Op → (i new_used : ℕ) → Pc
  checking : Op → (i new_used : ℕ) → Pc
  emptying : Op → (i new_used : ℕ) → Pc
  -- every bucket is marked
  marked : Op → (new_used : ℕ) → Pc

-- What a step has done for a call: nothing yet; the whole call at once; or, when another thread has
-- won the compare-and-swap, the call returns without an effect.
pub data Event : Type 0 where
  quiet : Event
  acts : Op → Answer → Event
  loses : Op → Answer → Event

abbrev pub Outcome : Type 0
Outcome = Hihat × Pc × Event

abbrev pub with_store : Hihat → Store → Hihat
with_store self store = record self { store_current = store }

-- `*found`, as the branch on `HIHAT_EPOCH_MASK` sets it.
abbrev pub is_item : Record → Bool
is_item r = if r.epoch == 0 then false else true

abbrev pub old_reply : Record → Reply
old_reply r = if r.epoch == 0 then not_found else found_item r.item

-- The end of the probing at an unreserved bucket.
abbrev pub at_unreserved : Op → ℕ → ℕ → Pc × Event
at_unreserved (op_get h) rounds bix =
    (finished (reply not_found), acts (op_get h) (reply not_found))
at_unreserved (op_put h item) rounds bix = (reserving (op_put h item) rounds bix, quiet)
at_unreserved (op_replace h item) rounds bix =
    (finished (reply not_found), acts (op_replace h item) (reply not_found))
at_unreserved (op_add h item) rounds bix = (reserving (op_add h item) rounds bix, quiet)
at_unreserved (op_remove h) rounds bix =
    (finished (reply not_found), acts (op_remove h) (reply not_found))

-- The end of the loop after a full turn.
abbrev pub at_full_turn : Op → Pc × Event
at_full_turn (op_get h) = (finished (reply not_found), acts (op_get h) (reply not_found))
at_full_turn (op_put h item) = (migrating (op_put h item), quiet)
at_full_turn (op_replace h item) =
    (finished (reply not_found), acts (op_replace h item) (reply not_found))
at_full_turn (op_add h item) = (migrating (op_add h item), quiet)
at_full_turn (op_remove h) = (finished (reply not_found), acts (op_remove h) (reply not_found))

-- `bix = (bix + 1) & self->last_slot`
abbrev pub next_slot : ℕ → ℕ → ℕ
next_slot bix last_slot = bucket_index (add64 bix 1) last_slot

-- A reserved bucket: it is the right one, or the loop goes on.
abbrev pub at_reserved : Op → Hash → ℕ → ℕ → ℕ → Pc
at_reserved op hv2 last_slot rounds bix =
    if hashes_eq (hash_of op) hv2
    then loading op bix
    else probing op rounds (next_slot bix last_slot)

unfoldable pub probe_step : Store → Op → ℕ → ℕ → Pc × Event
probe_step self op zero bix = at_full_turn op
probe_step self op (suc rounds) bix =
    let hv2 = (bucket_at self.buckets bix).hv in
    if bucket_unreserved hv2
    then at_unreserved op rounds bix
    else (at_reserved op hv2 self.last_slot rounds bix, quiet)

unfoldable pub reserve_step : Store → Op → ℕ → ℕ → Store × Pc
reserve_step self op rounds bix =
    let hv2 = (bucket_at self.buckets bix).hv in
    if bucket_unreserved hv2
    then (set_hv self bix (hash_of op), counting op bix)
    else (self, at_reserved op hv2 self.last_slot rounds bix)

unfoldable pub count_step : Store → Op → ℕ → Store × Pc
count_step self op bix = (
  record self { used_count = add64 self.used_count 1 },
  (if leb self.threshold self.used_count then migrating op else loading op bix),
)

-- What a call does once it has loaded the record.
unfoldable pub load_step : Op → ℕ → Record → Pc × Event
load_step (op_get h) bix r = (finished (reply (old_reply r)), acts (op_get h) (reply (old_reply r)))
load_step (op_put h item) bix r =
    if r.moving
    then (migrating (op_put h item), quiet)
    else (if r.epoch == 0
        then (numbering (op_put h item) bix r, quiet)
        else (installing (op_put h item) bix r (record r { item = item }), quiet))
load_step (op_replace h item) bix r =
    if r.moving
    then (migrating (op_replace h item), quiet)
    else (if r.epoch == 0
        then (finished (reply not_found), acts (op_replace h item) (reply not_found))
        else (installing (op_replace h item) bix r (record r { item = item }), quiet))
load_step (op_add h item) bix r =
    if r.moving
    then (migrating (op_add h item), quiet)
    else (if r.epoch == 0
        then (numbering (op_add h item) bix r, quiet)
        else (finished (added false), acts (op_add h item) (added false)))
load_step (op_remove h) bix r =
    if r.moving
    then (migrating (op_remove h), quiet)
    else (if r.epoch == 0
        then (finished (reply not_found), acts (op_remove h) (reply not_found))
        else (installing (op_remove h) bix r (record empty_record { inited = true }), quiet))

-- The item that `hihat_put` or `hihat_add` stores.
abbrev pub item_of : Op → Pointer
item_of (op_get h) = null
item_of (op_put h item) = item
item_of (op_replace h item) = item
item_of (op_add h item) = item
item_of (op_remove h) = null

-- `HIHAT_F_INITED | top->next_epoch++`
abbrev pub new_record : Op → ℕ → Record
new_record op e = record {
  item = item_of op;
  moving = false;
  moved = false;
  inited = true;
  epoch = e;
}

-- After a compare-and-swap of the record that has succeeded. `hihat_get` makes none.
abbrev pub installed : Op → Record → Pc × Event
installed (op_get h) old = (finished (reply not_found), acts (op_get h) (reply not_found))
installed (op_put h item) old = (
  (if old.epoch == 0
      then tallying true (reply not_found)
      else finished (reply (found_item old.item))),
  acts (op_put h item) (reply (old_reply old)),
)
installed (op_replace h item) old =
    (finished (reply (found_item old.item)), acts (op_replace h item) (reply (found_item old.item)))
installed (op_add h item) old = (tallying true (added true), acts (op_add h item) (added true))
installed (op_remove h) old =
    (tallying false (reply (found_item old.item)), acts (op_remove h) (reply (found_item old.item)))

-- After one that has failed: what was expected, what is there, and the candidate.
abbrev pub missed : Op → ℕ → Record → Record → Record → Pc × Event
missed (op_get h) bix old now candidate =
    (finished (reply not_found), acts (op_get h) (reply not_found))
missed (op_put h item) bix old now candidate =
    if now.moving
    then (migrating (op_put h item), quiet)
    else (let answer = reply (record { ret = item; found = is_item old }) in
        (finished answer, loses (op_put h item) answer))
missed (op_replace h item) bix old now candidate =
    if now.moving
    then (migrating (op_replace h item), quiet)
    else (if now.epoch == 0
        then (finished (reply not_found), acts (op_replace h item) (reply not_found))
        else (installing (op_replace h item) bix now candidate, quiet))
missed (op_add h item) bix old now candidate =
    if now.moving
    then (migrating (op_add h item), quiet)
    else (finished (added false), loses (op_add h item) (added false))
missed (op_remove h) bix old now candidate =
    if now.moving
    then (migrating (op_remove h), quiet)
    else (finished (reply not_found), loses (op_remove h) (reply not_found))

unfoldable pub install_step : Store → Op → ℕ → Record → Record → Store × Pc × Event
unfolding same_record
install_step self op bix expected candidate =
    let now = (bucket_at self.buckets bix).rec in
    if same_record now expected
    then (let (pc, event) = installed op expected in (set_record self bix candidate, pc, event))
    else (let (pc, event) = missed op bix expected now candidate in (self, pc, event))
