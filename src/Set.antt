-- ===== src/Set.antt =====
-- src/hash/set.c: the operations on two sets. Each takes a view of both sets, sorts the two views and
-- marches through them in step.
pub mod Keys
pub mod Cache
pub mod Order
pub mod March
pub mod Products
mod Tests
mod CacheTests
pub mod Relations
use hatrack.Prelude.{
  ℕ, zero, suc, ◌+◌, ◌^◌, ◌<◌, ◌≡◌, Bool, true, false, not, ◌&&◌, ◌||◌, ltb, ◌==◌, if◌then◌else◌,
  Option, none, some, List, [], ◌∷◌, ◌++◌, length,
}
use hatrack.Common.{Hash, Pointer, hashes_eq, hash_gt}

-- `hatrack_set_view_t`. An epoch is an `int64_t` of at least 0.
pub record SetView : Type 0 where
  pub hv : Hash
  pub item : Pointer
  pub sort_epoch : ℕ

abbrev pub any : (SetView → Bool) → List SetView → Bool
any p [] = false
any p (x ∷ xs) = p x || any p xs

-- The views hold the hash value; a hash value that is larger than it.
abbrev pub has : Hash → List SetView → Bool
has g = any (λ x. x.hv == g)

abbrev pub exceeds : Hash → List SetView → Bool
exceeds g = any (λ x. hash_gt x.hv g)

-- `hatrack_set_t`, as far as these operations look at it: its type of items, whether a
-- `pre_return_hook` is installed, and the view that `woolhat_view_epoch` gives of it.
pub record SetInfo : Type 0 where
  pub item_type : ℕ
  pub hook : Bool
  pub view : List SetView

-- `qsort` with `hatrack_set_hv_sort_cmp`, which compares by `hash_gt` and aborts at equal hash values.
pub record Sorts : Type 0 where
  pub by_hash : List SetView → List SetView

-- `hatrack_set_is_eq`, after the test of the two lengths: the loop over both sorted views.
unfoldable pub same_hashes : List SetView → List SetView → Bool
same_hashes xs [] = true
same_hashes [] (y ∷ ys) = false
same_hashes (x ∷ xs) (y ∷ ys) = if hashes_eq x.hv y.hv then same_hashes xs ys else false

unfoldable pub is_eq : Sorts → SetInfo → SetInfo → Bool
unfolding same_hashes
is_eq qsort set1 set2 =
    if length set2.view == length set1.view
    then same_hashes (qsort.by_hash set1.view) (qsort.by_hash set2.view)
    else false

-- `hatrack_set_is_superset`: the two nested loops, over what is left of the views. `none` is the read
-- of `view1[num1]`, past the end of the view: the test of `j` stands after the reads.
unfoldable pub superset_from : List SetView → List SetView → Option Bool
superset_from xs [] = some true
superset_from [] (y ∷ ys) = none
superset_from (x ∷ xs) (y ∷ ys) =
    let matched = superset_from (x ∷ xs) ys in
    let smaller = superset_from xs (y ∷ ys) in
    if hashes_eq x.hv y.hv then matched else (if hash_gt x.hv y.hv then some false else smaller)

unfoldable pub is_superset : Sorts → SetInfo → SetInfo → Bool → Option Bool
unfolding superset_from
is_superset qsort set1 set2 proper =
    let num1 = length set1.view in
    let num2 = length set2.view in
    if ltb num1 num2
    then some false
    else elim (superset_from (qsort.by_hash set1.view) (qsort.by_hash set2.view)) [
      | none ↦ none
      | some false ↦ some false
      | some true ↦ some (if proper && num1 == num2 then false else true)
    ]

unfoldable pub is_subset : Sorts → SetInfo → SetInfo → Bool → Option Bool
unfolding is_superset
is_subset qsort set1 set2 proper = is_superset qsort set2 set1 proper

unfoldable pub disjoint_from : List SetView → List SetView → Bool
disjoint_from [] ys = true
disjoint_from (x ∷ xs) [] = true
disjoint_from (x ∷ xs) (y ∷ ys) =
    let drop_y = disjoint_from (x ∷ xs) ys in
    let drop_x = disjoint_from xs (y ∷ ys) in
    if hashes_eq x.hv y.hv then false else (if hash_gt x.hv y.hv then drop_y else drop_x)

unfoldable pub is_disjoint : Sorts → SetInfo → SetInfo → Bool
unfolding disjoint_from
is_disjoint qsort set1 set2 = disjoint_from (qsort.by_hash set1.view) (qsort.by_hash set2.view)

-- A call that an operation makes of the first set's `pre_return_hook`, or on the new set's table: `woolhat_put`
-- or `woolhat_add`.
pub data Call : Type 0 where
  hooks : Pointer → Call
  puts : Hash → Pointer → Call
  adds : Hash → Pointer → Call

-- The hook runs, if there is one, and the call on the table follows.
abbrev pub hook_put : Bool → SetView → List Call → List Call
hook_put hook x rest =
    if hook then hooks x.item ∷ puts x.hv x.item ∷ rest else puts x.hv x.item ∷ rest

abbrev pub hook_add : Bool → SetView → List Call → List Call
hook_add hook x rest =
    if hook then hooks x.item ∷ adds x.hv x.item ∷ rest else adds x.hv x.item ∷ rest

unfoldable pub difference_from : Bool → List SetView → List SetView → List Call
difference_from hook [] ys = []
difference_from hook (x ∷ xs) [] = []
difference_from hook (x ∷ xs) (y ∷ ys) =
    let both = difference_from hook xs ys in
    let drop_y = difference_from hook (x ∷ xs) ys in
    let keep_x = hook_put hook x (difference_from hook xs (y ∷ ys)) in
    if hashes_eq x.hv y.hv then both else (if hash_gt x.hv y.hv then drop_y else keep_x)

-- `none` is the `abort()` for sets of different item types.
unfoldable pub difference : Sorts → SetInfo → SetInfo → Option (List Call)
unfolding difference_from
difference qsort set1 set2 =
    if set1.item_type == set2.item_type
    then some (difference_from set1.hook (qsort.by_hash set1.view) (qsort.by_hash set2.view))
    else none

unfoldable pub intersection_from : Bool → List SetView → List SetView → List Call
intersection_from hook [] ys = []
intersection_from hook (x ∷ xs) [] = []
intersection_from hook (x ∷ xs) (y ∷ ys) =
    let both = hook_add hook x (intersection_from hook xs ys) in
    let drop_y = intersection_from hook (x ∷ xs) ys in
    let drop_x = intersection_from hook xs (y ∷ ys) in
    if hashes_eq x.hv y.hv then both else (if hash_gt x.hv y.hv then drop_y else drop_x)

unfoldable pub intersection : Sorts → SetInfo → SetInfo → Option (List Call)
unfolding intersection_from
intersection qsort set1 set2 =
    if set1.item_type == set2.item_type
    then some (intersection_from set1.hook (qsort.by_hash set1.view) (qsort.by_hash set2.view))
    else none
