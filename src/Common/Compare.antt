-- ===== src/Common/Compare.antt =====
-- The comparison functions that are handed to `qsort`.
use hatrack.Prelude.{◌+◌, ◌^◌, ◌≤◌, ◌<◌, ◌≡◌, arith, true, false, not, ltb, ◌==◌}
use hatrack.Common.{Hash, hash_gt, View, quicksort_cmp, is_negative}

-- For epochs less than 2 ^ 31 apart the `int` of `hatrack_quicksort_cmp` is negative exactly when
-- the first epoch is the smaller one, and zero exactly when they are equal.
quicksort_cmp_sign :
    (a b : View)
    → a.sort_epoch < 2 ^ 63
    → b.sort_epoch < 2 ^ 63
    → a.sort_epoch < b.sort_epoch + 2 ^ 31
    → b.sort_epoch < a.sort_epoch + 2 ^ 31
    → (is_negative (quicksort_cmp a b) ≡ ltb a.sort_epoch b.sort_epoch)
      × (quicksort_cmp a b == 0 ≡ a.sort_epoch == b.sort_epoch)
unfolding quicksort_cmp is_negative
quicksort_cmp_sign a b la lb near far = ground arith

-- For epochs that are at least 2 ^ 31 and less than 2 ^ 32 apart the `int` is negative for the later
-- one: the difference is cut off to 32 bits.
pub quicksort_cmp_wraps :
    (a b : View)
    → a.sort_epoch < 2 ^ 63
    → b.sort_epoch + 2 ^ 31 ≤ a.sort_epoch
    → a.sort_epoch < b.sort_epoch + 2 ^ 32
    → is_negative (quicksort_cmp a b) ≡ true
unfolding quicksort_cmp is_negative
quicksort_cmp_wraps a b l far near = ground arith

-- On 128-bit patterns exactly one of "greater", "equal" and "smaller" holds.
pub hash_gt_total :
    (a b : Hash) → a < 2 ^ 128 → b < 2 ^ 128 → a == b ≡ false → hash_gt a b ≡ not (hash_gt b a)
unfolding hash_gt
hash_gt_total a b la lb ne = ground arith

pub hash_gt_irrefl : (a : Hash) → hash_gt a a ≡ false
unfolding hash_gt
hash_gt_irrefl a = ground arith

pub hash_gt_trans : (a b c : Hash) → hash_gt a b ≡ true → hash_gt b c ≡ true → hash_gt a c ≡ true
unfolding hash_gt
hash_gt_trans a b c p q = ground arith

pub hash_gt_asym : (a b : Hash) → hash_gt a b ≡ true → hash_gt b a ≡ false
unfolding hash_gt
hash_gt_asym a b p = ground arith
