-- ===== src/Set/Order.antt =====
-- Views in the order of `hatrack_set_hv_sort_cmp`.
use hatrack.Prelude.{◌^◌, ◌<◌, ◌≡◌, refl, arith, Bool, true, false, List, [], ◌∷◌, length}
use hatrack.Common.{Hash, hash_gt}
use hatrack.Common.Compare.{hash_gt_trans, hash_gt_irrefl}
use hatrack.Set.{SetView, any, has, Sorts}

-- Every hash value of the view is larger than `h`.
abbrev pub Above : Hash → List SetView → Type 0
Above h [] = Unit
Above h (x ∷ xs) = (hash_gt x.hv h ≡ true) × Above h xs

-- Ascending 128-bit hash values.
abbrev pub Ascends : List SetView → Type 0
Ascends [] = Unit
Ascends (x ∷ xs) = Above x.hv xs × (x.hv < 2 ^ 128) × Ascends xs

-- 128-bit hash values, no two of them equal, in any order: what a table's view has.
abbrev pub Distinct : List SetView → Type 0
Distinct [] = Unit
Distinct (x ∷ xs) = (has x.hv xs ≡ false) × (x.hv < 2 ^ 128) × Distinct xs

-- What the C library's `qsort` does with such a view, where `hatrack_set_hv_sort_cmp` is an order and never
-- aborts, as no two hash values are equal: the same elements, in ascending order.
pub record IsSort (qsort : Sorts) : Type 0 where
  pub ascends : (xs : List SetView) → Distinct xs → Ascends (qsort.by_hash xs)
  pub same : (p : SetView → Bool) (xs : List SetView) → any p (qsort.by_hash xs) ≡ any p xs
  pub same_length : (xs : List SetView) → length (qsort.by_hash xs) ≡ length xs

-- What a view above `h` holds is larger than `h`.
pub Above-has : (h g : Hash) (xs : List SetView) → Above h xs → has g xs ≡ true → hash_gt g h ≡ true
Above-has h g [] a e = cc
Above-has h g (x ∷ xs) a e = ground (arith, Above-has h g xs a.1, a.0)

pub Above-has_self : (h : Hash) (xs : List SetView) → Above h xs → has h xs ≡ false
Above-has_self h [] a = refl
Above-has_self h (x ∷ xs) a = ground (arith, a.0, Above-has_self h xs a.1, hash_gt_irrefl h)

-- Nothing in a view above `h` is below a hash value that `h` is not below.
pub Above-trans : (h k : Hash) (xs : List SetView) → hash_gt h k ≡ true → Above h xs → Above k xs
Above-trans h k [] e a = tt
Above-trans h k (x ∷ xs) e a = (hash_gt_trans x.hv h k a.0 e, Above-trans h k xs e a.1)
