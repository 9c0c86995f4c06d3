-- ===== src/Common.antt =====
-- include/hatrack/hatrack_common.h and src/support/hatrack_common.c: what all the hash tables share.
pub mod Sizes
pub mod Compare
mod Tests
use hatrack.Prelude.{
  ℕ, ◌+◌, ◌-◌, ◌*◌, ◌/◌, ◌%◌, ◌^◌, Bool, true, false, ltb, leb, ◌==◌, if◌then◌else◌, bit_and, add64,
  sub64,
}

-- `hatrack_hash_t` with `HAVE___INT128_T`: the bit pattern of a `__int128_t`.
abbrev pub Hash : Type 0
Hash = ℕ

-- A `void *`: `NULL` is 0. The tables move items and never look into them.
abbrev pub Pointer : Type 0
Pointer = ℕ

abbrev pub null : Pointer
null = 0

-- `HATRACK_MIN_SIZE_LOG` at its default, and `HATRACK_MIN_SIZE`.
abbrev pub min_size_log : ℕ
min_size_log = 4

abbrev pub min_size : ℕ
min_size = 16

unfoldable pub compute_table_threshold : ℕ → ℕ
compute_table_threshold size = sub64 (sub64 size (size / 4)) 1

-- `<< 1` drops the bit that leaves the word.
unfoldable pub new_size : ℕ → ℕ → ℕ
new_size last_bucket size =
    let table_size = add64 last_bucket 1 in
    if leb (table_size / 2) size
    then table_size * 2 % 2 ^ 64
    else (if leb size (min_size * 4)
        then min_size * 8
        else (if leb size (table_size / 4) then table_size / 2 else table_size))

abbrev pub hashes_eq : Hash → Hash → Bool
hashes_eq hv1 hv2 = hv1 == hv2

-- `>` on `__int128_t` is signed: adding 2 ^ 127 turns the signed order into the order of the patterns.
unfoldable pub hash_gt : Hash → Hash → Bool
hash_gt hv1 hv2 = ltb ((hv2 + 2 ^ 127) % 2 ^ 128) ((hv1 + 2 ^ 127) % 2 ^ 128)

abbrev pub bucket_unreserved : Hash → Bool
bucket_unreserved hv = hv == 0

unfoldable pub bucket_index : Hash → ℕ → ℕ
bucket_index hv last_slot = bit_and hv last_slot

-- `hatrack_view_t`: an item and the epoch that orders it.
pub record View : Type 0 where
  pub item : Pointer
  pub sort_epoch : ℕ

-- The `int` that `hatrack_quicksort_cmp` returns, as its 32 bits: the low half of the 64-bit difference.
unfoldable pub quicksort_cmp : View → View → ℕ
quicksort_cmp item1 item2 = sub64 item1.sort_epoch item2.sort_epoch % 2 ^ 32

-- The sign bit of such an `int`.
unfoldable pub is_negative : ℕ → Bool
is_negative n = leb (2 ^ 31) n

-- The returned pointer and what goes through `found`.
pub record Reply : Type 0 where
  pub ret : Pointer
  pub found : Bool

abbrev pub not_found : Reply
not_found = record { ret = null; found = false }

abbrev pub found_item : Pointer → Reply
found_item item = record { ret = item; found = true }
