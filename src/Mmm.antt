-- ===== src/Mmm.antt =====
-- src/support/mmm.c and include/hatrack/mmm.h: memory that is freed once no thread can be reading it.
pub mod Threads
pub mod Reclaim
pub mod Retire
pub mod Tids
pub mod Commit
pub mod WriteEpoch
mod Tests
use hatrack.Prelude.{
  ℕ, zero, suc, ◌+◌, ◌-◌, ◌^◌, Bool, true, false, ltb, ◌==◌, if◌then◌else◌, Option, none, some,
  List, [], ◌∷◌, ◌++◌, get_or, set, add64, bit_and,
}
use hatrack.Common.{Pointer, null}

-- `HATRACK_THREADS_MAX` and `HATRACK_RETIRE_FREQ` at their defaults.
abbrev pub threads_max : ℕ
threads_max = 4096

abbrev pub retire_freq : ℕ
retire_freq = 128

-- `HATRACK_EPOCH_UNRESERVED` and `HATRACK_EPOCH_MAX`, which are equal.
abbrev pub epoch_unreserved : ℕ
epoch_unreserved = 18446744073709551615

abbrev pub epoch_max : ℕ
epoch_max = 18446744073709551615

-- `mmm_header_t` with the address of its `data`. The list that a cell stands in takes the place of
-- `next`.
pub record Header : Type 0 where
  pub data_ptr : Pointer
  pub create_epoch : ℕ
  pub write_epoch : ℕ
  pub retire_epoch : ℕ
  pub cleanup : Pointer
  pub cleanup_aux : Pointer

-- `mmm_free_tids_t`, in its own allocation.
pub record FreeTid : Type 0 where
  pub header : Header
  pub tid : ℕ

-- The variables that all threads share.
pub record Mmm : Type 0 where
  pub epoch : ℕ
  pub nexttid : ℕ
  pub reservations : List ℕ
  pub free_tids : List FreeTid

-- The variables of one thread; a `mmm_mytid` of -1 is `none`.
pub record Thread : Type 0 where
  pub mytid : Option ℕ
  pub retire_list : List Header
  pub retire_ctr : ℕ

-- `mmm_alloc`: the address is the one that `calloc` returns.
abbrev pub alloc : Pointer → Header
alloc ptr = record {
  data_ptr = ptr;
  create_epoch = 0;
  write_epoch = 0;
  retire_epoch = 0;
  cleanup = null;
  cleanup_aux = null;
}

-- `atomic_fetch_add(&mmm_epoch, 1)`
abbrev pub bump : Mmm → Mmm
bump m = record m { epoch = add64 m.epoch 1 }

unfoldable pub alloc_committed : Mmm → Pointer → Header × Mmm
alloc_committed m ptr = (record (alloc ptr) { write_epoch = add64 m.epoch 1 }, bump m)

abbrev pub add_cleanup_handler : Header → Pointer → Pointer → Header
add_cleanup_handler item handler aux = record item { cleanup = handler; cleanup_aux = aux }

abbrev pub set_create_epoch : Header → ℕ → Header
set_create_epoch item epoch = record item { create_epoch = epoch }

unfoldable pub get_create_epoch : Header → ℕ
get_create_epoch item = if item.create_epoch == 0 then item.write_epoch else item.create_epoch

unfoldable pub copy_create_epoch : Header → Header → Header
unfolding get_create_epoch
copy_create_epoch dst src = set_create_epoch dst (get_create_epoch src)

-- `mmm_reservations[tid] = value`
abbrev pub reserve : Mmm → ℕ → ℕ → Mmm
reserve m tid value = record m { reservations = set m.reservations tid value }

unfoldable pub end_op : Mmm → ℕ → Mmm
end_op m tid = reserve m tid epoch_unreserved

-- `mmm_empty`: the loop over the reservations of the first `lasttid` threads.
unfoldable pub lowest_from : List ℕ → ℕ → ℕ → ℕ
lowest_from rs zero lowest = lowest
lowest_from [] (suc n) lowest = lowest
lowest_from (reservation ∷ rs) (suc n) lowest =
    lowest_from rs n (if ltb reservation lowest then reservation else lowest)

abbrev pub last_tid : Mmm → ℕ
last_tid m = if ltb threads_max m.nexttid then threads_max else m.nexttid

unfoldable pub lowest_reservation : Mmm → ℕ
unfolding lowest_from
lowest_reservation m = lowest_from m.reservations (last_tid m) epoch_max

-- The walk from a cell that stays: what stays, and what is freed.
unfoldable pub cut_from : ℕ → Header → List Header → List Header × List Header
cut_from lowest cell [] = (cell ∷ [], [])
cut_from lowest cell (next ∷ rest) =
    let (kept, cut) = cut_from lowest next rest in
    if ltb next.retire_epoch lowest then (cell ∷ [], next ∷ rest) else (cell ∷ kept, cut)

-- `none` is the read of the head of an empty list.
unfoldable pub cut : ℕ → List Header → Option (List Header × List Header)
unfolding cut_from
cut lowest [] = none
cut lowest (cell ∷ rest) =
    some (if ltb cell.retire_epoch lowest then ([], cell ∷ rest) else cut_from lowest cell rest)

abbrev pub emptied : Thread → Option (List Header × List Header) → Option (Thread × List Header)
emptied t none = none
emptied t (some (kept, cells)) = some (record t { retire_list = kept }, cells)

-- With the cells that are freed, in order; the cleanup handler of a cell, if it has one, runs before.
unfoldable pub empty : Mmm → Thread → Option (Thread × List Header)
unfolding cut lowest_reservation
empty m t = emptied t (cut (lowest_reservation m) t.retire_list)

unfoldable pub retire_fast : Mmm → Thread → Header → Thread
retire_fast m t cell = record t {
  retire_list = record cell { retire_epoch = m.epoch } ∷ t.retire_list;
}

unfoldable pub retire : Mmm → Thread → Header → Option (Thread × List Header)
unfolding empty retire_fast
retire m t cell =
    let pushed = retire_fast m t cell in
    let ctr = add64 t.retire_ctr 1 in
    if bit_and ctr retire_freq == 0
    then some (record pushed { retire_ctr = ctr }, [])
    else empty m (record pushed { retire_ctr = 0 })
