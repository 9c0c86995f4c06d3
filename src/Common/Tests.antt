-- ===== src/Common/Tests.antt =====
-- The shared functions at concrete sizes and epochs.
use hatrack.Prelude.{ℕ, ◌+◌, ◌*◌, ◌≤◌, ◌<◌, ◌≡◌, refl, arith, true, max}
use hatrack.Common.{compute_table_threshold, new_size, View, quicksort_cmp, is_negative}
use hatrack.Common.Sizes.{new_size_room}
use hatrack.Common.Compare.{quicksort_cmp_wraps}

-- 32 buckets with 9 items grow to 128, though fewer than half are in use.
new_size_jumps : new_size 31 10 ≡ 128
unfolding new_size
new_size_jumps = refl

new_size_halves : new_size 1023 200 ≡ 512
unfolding new_size
new_size_halves = refl

new_size_room_example :
    (10 + 1 < compute_table_threshold (new_size 31 (10 + 1)))
    × (16 ≤ new_size 31 (10 + 1))
    × (new_size 31 (10 + 1) ≤ 2 * 32 + 128)
    × (new_size 31 (10 + 1) ≤ max 32 (4 * (10 + 1) + 128))
unfolding compute_table_threshold
new_size_room_example = new_size_room 32 10 (omega arith) (omega arith) (omega arith)

abbrev at_epoch : ℕ → View
at_epoch e = record { item = 1; sort_epoch = e }

quicksort_cmp_wraps_example : is_negative (quicksort_cmp (at_epoch 0x8000_0005) (at_epoch 5)) ≡ true
quicksort_cmp_wraps_example =
    quicksort_cmp_wraps (at_epoch 0x8000_0005) (at_epoch 5) (omega arith) (omega arith)
      (omega arith)
