-- ===== src/Common/Sizes.antt =====
-- `hatrack_compute_table_threshold` and `hatrack_new_size`: a migrated table has room.
use hatrack.Prelude.{
  ℕ, max, zero, suc, ◌+◌, ◌-◌, ◌*◌, ◌/◌, ◌^◌, ◌≤◌, ◌<◌, ◌≡◌, arith, two_pow-suc, add64, inl, inr,
  leb, Bool-cases,
}
use hatrack.Common.{compute_table_threshold, new_size}

-- The threshold is three quarters of the table less one, without wrap-around.
pub threshold_lem :
    (size : ℕ) → 4 ≤ size → size < 2 ^ 63 → compute_table_threshold size ≡ size - size / 4 - 1
unfolding compute_table_threshold
threshold_lem size h l = omega arith

-- A table with at least 16 buckets, of which fewer than the threshold hold items, gets a new size
-- whose threshold lies more than one above the number of items, and it grows only with the items.
pub new_size_room :
    (size items : ℕ)
    → 16 ≤ size
    → size ≤ 2 ^ 61
    → items < compute_table_threshold size
    → (items + 1 < compute_table_threshold (new_size (size - 1) (items + 1)))
      × (16 ≤ new_size (size - 1) (items + 1))
      × (new_size (size - 1) (items + 1) ≤ 2 * size + 128)
      × (new_size (size - 1) (items + 1) ≤ max size (4 * (items + 1) + 128))
unfolding compute_table_threshold new_size
new_size_room size items h l r = ground arith

abbrev pub IsPowerOfTwo : ℕ → Type 0
IsPowerOfTwo n = (k : ℕ) × (n ≡ 2 ^ k)

-- The new size of a table whose size is a power of two is a power of two.
pub new_size-IsPowerOfTwo :
    (size items : ℕ)
    → IsPowerOfTwo size
    → 4 ≤ size
    → size ≤ 2 ^ 61
    → IsPowerOfTwo (new_size (size - 1) items)
unfolding new_size
new_size-IsPowerOfTwo size items (zero, e) h l = absurd (omega arith)
new_size-IsPowerOfTwo size items (suc k, e) h l = elim (Bool-cases (leb (size / 2) items)) [
  | inl grow ↦ (suc (suc k), rw (word, grow) (omega (arith, two_pow-suc (suc k))))
  | inr small ↦ elim (Bool-cases (leb items 64)) [
    | inl tiny ↦ (7, rw (word, small, tiny))
    | inr more ↦ elim (Bool-cases (leb items (size / 4))) [
      | inl shrink ↦ (k, rw (word, small, more, shrink) (omega (arith, two_pow-suc k)))
      | inr keep ↦ (suc k, rw (word, small, more, keep) e)
    ]
  ]
]
  where
    word : add64 (size - 1) 1 ≡ size
    word = omega arith
