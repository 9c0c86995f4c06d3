-- ===== src/Set/Tests.antt =====
-- The theorems on two small sets, with an insertion sort for `qsort`.
use hatrack.Prelude.{
  ◌+◌, ◌^◌, ◌<◌, ◌≡◌, ◌↔◌, refl, arith, Bool, true, false, not, ◌||◌, ◌==◌, if◌then◌else◌, some,
  List, [], ◌∷◌, length, inl, inr, Bool-cases, ◌∙◌,
}
use hatrack.Common.{Hash, hash_gt}
use hatrack.Common.Compare.{hash_gt_total}
use hatrack.Set.{
  SetView, any, has, SetInfo, Sorts, is_eq, is_superset, is_disjoint, hooks, puts, adds,
  intersection, difference,
}
use hatrack.Set.Order.{Above, Ascends, Distinct, IsSort, Above-trans}
use hatrack.Set.Relations.{first_missing, properly, is_disjoint-any, is_superset_lem, is_eq_iff}

insert : SetView → List SetView → List SetView
insert x [] = x ∷ []
insert x (y ∷ ys) = if hash_gt y.hv x.hv then x ∷ y ∷ ys else y ∷ insert x ys

sort : List SetView → List SetView
sort [] = []
sort (x ∷ xs) = insert x (sort xs)

any-insert :
    (p : SetView → Bool) (x : SetView) (ys : List SetView) → any p (insert x ys) ≡ p x || any p ys
unfolding insert
any-insert p x [] = refl
any-insert p x (y ∷ ys) = ground (arith, any-insert p x ys)

any-sort : (p : SetView → Bool) (xs : List SetView) → any p (sort xs) ≡ any p xs
unfolding sort
any-sort p [] = refl
any-sort p (x ∷ xs) = rw (any-insert p x (sort xs), any-sort p xs) refl

length-insert : (x : SetView) (ys : List SetView) → length (insert x ys) ≡ length ys + 1
unfolding insert
length-insert x [] = omega arith
length-insert x (y ∷ ys) = ground (arith, length-insert x ys)

length-sort : (xs : List SetView) → length (sort xs) ≡ length xs
unfolding sort
length-sort [] = refl
length-sort (x ∷ xs) = omega (arith, length-insert x (sort xs), length-sort xs)

Above-insert :
    (h : Hash) (x : SetView) (ys : List SetView)
    → hash_gt x.hv h ≡ true
    → Above h ys
    → Above h (insert x ys)
unfolding insert
Above-insert h x [] e a = (e, tt)
Above-insert h x (y ∷ ys) e a = elim (Bool-cases (hash_gt y.hv x.hv)) [
  | inl up ↦ rw up (e, a)
  | inr down ↦ rw down (a.0, Above-insert h x ys e a.1)
]

Ascends-insert :
    (x : SetView) (ys : List SetView)
    → x.hv < 2 ^ 128
    → has x.hv ys ≡ false
    → Ascends ys
    → Ascends (insert x ys)
unfolding insert
Ascends-insert x [] l e a = (tt, l, tt)
Ascends-insert x (y ∷ ys) l e a = elim (Bool-cases (hash_gt y.hv x.hv)) [
  | inl up ↦ rw up ((up, Above-trans y.hv x.hv ys up a.0), l, a)
  | inr down ↦
      let above : hash_gt x.hv y.hv ≡ true = ground (arith, hash_gt_total y.hv x.hv a.1 l) in
      rw down (Above-insert y.hv x ys above a.0, a.1, Ascends-insert x ys l (ground arith) a.2)
]

Ascends-sort : (xs : List SetView) → Distinct xs → Ascends (sort xs)
unfolding sort
Ascends-sort [] d = tt
Ascends-sort (x ∷ xs) d =
    Ascends-insert x (sort xs) d.1 (any-sort (λ y. y.hv == x.hv) xs ∙ d.0) (Ascends-sort xs d.2)

abbrev sorts : Sorts
sorts = record { by_hash = sort }

sorts-IsSort : IsSort sorts
sorts-IsSort = record { ascends = Ascends-sort; same = any-sort; same_length = length-sort }

abbrev view_of : Hash → SetView
view_of h = record { hv = h; item = h + 100; sort_epoch = h }

abbrev evens : SetInfo
evens = record { item_type = 1; hook = true; view = view_of 4 ∷ view_of 2 ∷ view_of 8 ∷ [] }

abbrev small : SetInfo
small = record { item_type = 1; hook = false; view = view_of 2 ∷ view_of 3 ∷ [] }

abbrev none_of : SetInfo
none_of = record { item_type = 1; hook = false; view = [] }

program : Unit {0}
unfolding insert sort hash_gt is_eq is_superset is_disjoint intersection difference
program = tt

-- 8 and 4 are greater than every element of the second set, and get lost.
difference_run : difference sorts evens small ≡ some []
unfolding program
difference_run = refl

difference_back : difference sorts small evens ≡ some (puts 3 103 ∷ [])
unfolding program
difference_back = refl

intersection_run : intersection sorts evens small ≡ some (hooks 102 ∷ adds 2 102 ∷ [])
unfolding program
intersection_run = refl

superset_run : is_superset sorts small none_of true ≡ some true
unfolding program
superset_run = refl

evens-Distinct : Distinct evens.view
evens-Distinct = (refl, omega arith, (refl, omega arith, (refl, omega arith, tt)))

small-Distinct : Distinct small.view
small-Distinct = (refl, omega arith, (refl, omega arith, tt))

is_disjoint-any_example :
    is_disjoint sorts evens small ≡ not (any (λ x. has x.hv small.view) evens.view)
is_disjoint-any_example =
    is_disjoint-any sorts sorts-IsSort evens small evens-Distinct small-Distinct

is_superset_lem_example :
    is_superset sorts small small true
    ≡ properly true (first_missing small.view (sorts.by_hash small.view))
is_superset_lem_example =
    is_superset_lem sorts sorts-IsSort small small true small-Distinct small-Distinct

is_eq_iff_example :
    (is_eq sorts evens evens ≡ true) ↔ ((g : Hash) → has g evens.view ≡ has g evens.view)
is_eq_iff_example = is_eq_iff sorts sorts-IsSort evens evens evens-Distinct evens-Distinct
