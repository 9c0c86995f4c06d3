-- ===== src/Hatring.antt =====
-- src/queue/hatring.c and include/hatrack/hatring.h: the ring buffer, by the calls of one thread at a time.
pub mod Cells
pub mod Calls
pub mod Takes
pub mod Runs
mod Tests
use hatrack.Prelude.{
  ℕ, zero, suc, ◌+◌, ◌*◌, ◌/◌, ◌%◌, ◌^◌, bit_or, Bool, true, false, ltb, leb, ◌==◌, ◌&&◌,
  if◌then◌else◌, Option, none, some, List, [], ◌∷◌, ◌++◌, get_or, set, replicate, add64, sub64,
}
use hatrack.Common.{Pointer, null, Reply, not_found, found_item, bucket_index}

-- `hatring_item_t`
pub record Cell : Type 0 where
  pub item : Pointer
  pub state : ℕ

abbrev pub empty_cell : Cell
empty_cell = record { item = null; state = 0 }

-- The word `epochs`, taken apart: the high 32 bits, and the low ones.
pub record Epochs : Type 0 where
  pub enqueue : ℕ
  pub dequeue : ℕ

-- `hatring_t`. Of the drop handler it says whether there is one.
pub record Hatring : Type 0 where
  pub epochs : Epochs
  pub drop_handler : Bool
  pub last_slot : ℕ
  pub size : ℕ
  pub cells : List Cell

abbrev pub minimum_size : ℕ
minimum_size = 16

-- `HATRING_ENQUEUED` and `HATRING_DEQUEUED`
abbrev pub enqueued : ℕ
enqueued = 2 ^ 63

abbrev pub dequeued : ℕ
dequeued = 2 ^ 62

-- `hatring_new`, from where `num_buckets` is rounded up to a power of two.
unfoldable pub new : ℕ → Hatring
new rounded =
    let num_buckets = if ltb rounded minimum_size then minimum_size else rounded in
    record {
      epochs = record { enqueue = num_buckets; dequeue = num_buckets };
      drop_handler = false;
      last_slot = sub64 num_buckets 1;
      size = num_buckets;
      cells = replicate num_buckets empty_cell;
    }

-- `self->epochs` after `atomic_fetch_add` of `1L << 32`, and of 1, which may carry.
abbrev pub add_enqueue : Epochs → Epochs
add_enqueue e = record e { enqueue = (e.enqueue + 1) % 2 ^ 32 }

unfoldable pub add_dequeue : Epochs → Epochs
add_dequeue e =
    if e.dequeue + 1 == 2 ^ 32
    then record { enqueue = (e.enqueue + 1) % 2 ^ 32; dequeue = 0 }
    else record e { dequeue = e.dequeue + 1 }

abbrev pub is_lagging : ℕ → ℕ → ℕ → Bool
is_lagging read_epoch write_epoch size = ltb (add64 read_epoch size) write_epoch

unfoldable pub fixed_epoch : ℕ → ℕ → Epochs
fixed_epoch write_epoch store_size =
    let low = sub64 write_epoch store_size in
    record {
      enqueue = if ltb low (2 ^ 32) then write_epoch else bit_or write_epoch (low / 2 ^ 32);
      dequeue = low % 2 ^ 32;
    }

abbrev pub cell_epoch : ℕ → ℕ
cell_epoch state = state % 2 ^ 32

abbrev pub is_enqueued : ℕ → Bool
is_enqueued state = leb (2 ^ 63) state

abbrev pub cell_at : List Cell → ℕ → Cell
cell_at cells i = get_or cells i empty_cell

-- What the drop handler is called with.
abbrev pub dropped : Hatring → Cell → List Pointer
dropped self cell = if is_enqueued cell.state && self.drop_handler then cell.item ∷ [] else []

-- The `do` loop of `hatring_enqueue`.
unfoldable pub claim_epoch : ℕ → Epochs → Option (ℕ × Epochs)
claim_epoch zero e = none
claim_epoch (suc fuel) e =
    let rest = claim_epoch fuel (add_enqueue e) in
    if ltb e.enqueue e.dequeue then rest else some (e.enqueue, add_enqueue e)

-- `hatring_enqueue` up to `try_once`: the compare-and-swap of `epochs` succeeds.
unfoldable pub next_epoch : ℕ → Hatring → Option (ℕ × Epochs)
unfolding fixed_epoch claim_epoch
next_epoch fuel self =
    let e = self.epochs in
    if is_lagging e.dequeue e.enqueue self.size
    then some (e.enqueue, fixed_epoch ((e.enqueue + 1) % 2 ^ 32) self.size)
    else claim_epoch fuel e

-- From `try_once`, or `none` where it has been too slow.
unfoldable pub try_once : Hatring → Pointer → ℕ → Option (ℕ × List Pointer × Hatring)
unfolding bucket_index
try_once self item write_epoch =
    let ix = bucket_index write_epoch self.last_slot in
    let expected = cell_at self.cells ix in
    let candidate : Cell = record { item = item; state = enqueued + write_epoch } in
    if ltb (cell_epoch expected.state) write_epoch
    then some
        (write_epoch, dropped self expected, record self { cells = set self.cells ix candidate })
    else none

-- The ring with the epoch claimed, and the try at its cell.
abbrev pub with_epochs : Hatring → Option (ℕ × Epochs) → Hatring
with_epochs self none = self
with_epochs self (some (write_epoch, epochs)) = record self { epochs = epochs }

abbrev pub try_claimed :
    Hatring → Pointer → Option (ℕ × Epochs) → Option (ℕ × List Pointer × Hatring)
try_claimed self item none = none
try_claimed self item (some (write_epoch, epochs)) = try_once self item write_epoch

abbrev pub or_again :
    Option (ℕ × List Pointer × Hatring)
    → Option (ℕ × List Pointer × Hatring)
    → Option (ℕ × List Pointer × Hatring)
or_again none rest = rest
or_again (some r) rest = some r

-- What became of a call, in so many rounds at most: the epoch, what was dropped, and the ring.
unfoldable pub enqueue : ℕ → Hatring → Pointer → Option (ℕ × List Pointer × Hatring)
enqueue zero self item = none
enqueue (suc fuel) self item =
    let claimed = next_epoch (suc fuel) self in
    let self' = with_epochs self claimed in
    or_again (try_claimed self' item claimed) (enqueue fuel self' item)

-- A round of `hatring_dequeue` in which every compare-and-swap succeeds: an answer, or another round.
unfoldable pub dequeue_round : Hatring → (Option Reply) × List Pointer × Hatring
unfolding add_dequeue bucket_index
dequeue_round self =
    let e = self.epochs in
    let ix = bucket_index e.dequeue (self.last_slot % 2 ^ 32) in
    let expected = cell_at self.cells ix in
    let candidate : Cell = record { item = null; state = dequeued + e.dequeue } in
    let later = record self { epochs = add_dequeue e } in
    let taken = record later { cells = set self.cells ix candidate } in
    if leb e.enqueue e.dequeue
    then (some not_found, [], self)
    else (if cell_epoch expected.state == e.dequeue
        then (some (found_item expected.item), [], taken)
        else (if ltb e.dequeue (cell_epoch expected.state) then (none, [], later) else (
          (if e.dequeue + 1 == e.enqueue then some not_found else none),
          dropped self expected,
          taken,
        )))

abbrev pub drop_too :
    List Pointer → Option (Reply × List Pointer × Hatring) → Option (Reply × List Pointer × Hatring)
drop_too items none = none
drop_too items (some (reply, more, self)) = some (reply, items ++ more, self)

abbrev pub answer_or :
    (Option Reply) × List Pointer × Hatring
    → Option (Reply × List Pointer × Hatring)
    → Option (Reply × List Pointer × Hatring)
answer_or (none, items, self) rest = drop_too items rest
answer_or (some reply, items, self) rest = some (reply, items, self)

unfoldable pub dequeue : ℕ → Hatring → Option (Reply × List Pointer × Hatring)
dequeue zero self = none
dequeue (suc fuel) self = answer_or (dequeue_round self) (dequeue fuel (dequeue_round self).2)
