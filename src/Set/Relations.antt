-- ===== src/Set/Relations.antt =====
-- The tests of two sets: equality, superset and disjointness.
use hatrack.Prelude.{
  fun_ext, ◌≡◌, ◌↔◌, refl, arith, ◌∙◌, sym, ap, Bool, true, false, not, ◌&&◌, ltb, ◌==◌,
  if◌then◌else◌, Option, none, some, List, [], ◌∷◌, length, inl, inr, Bool-cases,
}
use hatrack.Common.{Hash, hash_gt}
use hatrack.Common.Compare.{hash_gt_irrefl, hash_gt_asym}
use hatrack.Set.{
  SetView, any, has, exceeds, SetInfo, Sorts, same_hashes, is_eq, superset_from, is_superset,
  disjoint_from, is_disjoint,
}
use hatrack.Set.Order.{Above, Ascends, Distinct, IsSort, Above-trans}
use hatrack.Set.March.{heads}

-- Skipping a head that is smaller than a whole view loses no common hash value.
any_skip :
    (y : SetView) (ys zs : List SetView)
    → Above y.hv zs
    → any (λ z. has z.hv (y ∷ ys)) zs ≡ any (λ z. has z.hv ys) zs
any_skip y ys [] a = refl
any_skip y ys (z ∷ zs) a = ground (arith, a.0, hash_gt_irrefl y.hv, any_skip y ys zs a.1)

any_nothing : (xs : List SetView) → any (λ x. has x.hv []) xs ≡ false
any_nothing [] = refl
any_nothing (x ∷ xs) = any_nothing xs

disjoint_from-any :
    (xs ys : List SetView)
    → Ascends xs
    → Ascends ys
    → disjoint_from xs ys ≡ not (any (λ x. has x.hv ys) xs)
unfolding disjoint_from
disjoint_from-any [] ys a b = refl
disjoint_from-any (x ∷ xs) [] a b = rw (any_nothing xs) refl
disjoint_from-any (x ∷ xs) (y ∷ ys) a b =
    let h = heads x.hv x xs y ys a b in
    elim (Bool-cases (x.hv == y.hv)) [
      | inl same ↦ ground (arith, same)
      | inr other ↦ elim (Bool-cases (hash_gt x.hv y.hv)) [
        | inl above ↦
            rw
              (
                other,
                above,
                disjoint_from-any (x ∷ xs) ys a b.2,
                any_skip y ys (x ∷ xs) (above, Above-trans x.hv y.hv xs above a.0),
              )
              refl
        | inr below ↦
            rw (other, below, disjoint_from-any xs (y ∷ ys) a.2 b) (ground (arith, h, other, below))
      ]
    ]

-- For sets with distinct hash values `hatrack_set_is_disjoint` is true exactly when no hash value of
-- the first is one of the second.
pub is_disjoint-any :
    (qsort : Sorts)
    → IsSort qsort
    → (set1 set2 : SetInfo) → Distinct set1.view
    → Distinct set2.view
    → is_disjoint qsort set1 set2 ≡ not (any (λ x. has x.hv set2.view) set1.view)
unfolding is_disjoint
is_disjoint-any qsort sort set1 set2 d1 d2 =
    disjoint_from-any _ _ (sort.ascends _ d1) (sort.ascends _ d2)
    ∙ ap not (
        sort.same _ set1.view
        ∙ ap (λ (p : SetView → Bool). any p set1.view)
            (fun_ext (λ x. sort.same (λ y. y.hv == x.hv) set2.view)))

-- The first hash value of an ascending view that is not in the other view decides: a larger one in
-- the other view means "no", and without one the loop reads past the other view's end.
unfoldable pub first_missing : List SetView → List SetView → Option Bool
first_missing xs [] = some true
first_missing xs (y ∷ ys) =
    if has y.hv xs then first_missing xs ys else (if exceeds y.hv xs then some false else none)

first_missing_skip :
    (x : SetView) (xs zs : List SetView)
    → Above x.hv zs
    → first_missing (x ∷ xs) zs ≡ first_missing xs zs
unfolding first_missing
first_missing_skip x xs [] a = refl
first_missing_skip x xs (z ∷ zs) a =
    ground (arith, a.0, hash_gt_irrefl x.hv, hash_gt_asym z.hv x.hv, first_missing_skip x xs zs a.1)

pub superset_from-first_missing :
    (xs ys : List SetView) → Ascends xs → Ascends ys → superset_from xs ys ≡ first_missing xs ys
unfolding superset_from first_missing
superset_from-first_missing [] [] a b = refl
superset_from-first_missing (x ∷ xs) [] a b = refl
superset_from-first_missing [] (y ∷ ys) a b = refl
superset_from-first_missing (x ∷ xs) (y ∷ ys) a b =
    let h = heads y.hv x xs y ys a b in
    elim (Bool-cases (x.hv == y.hv)) [
      | inl same ↦ rw (same, superset_from-first_missing (x ∷ xs) ys a b.2) refl
      | inr other ↦ elim (Bool-cases (hash_gt x.hv y.hv)) [
        | inl above ↦ ground (arith, h, other, above)
        | inr below ↦
            let up : hash_gt y.hv x.hv ≡ true = ground (arith, h, other, below) in
            let step : superset_from (x ∷ xs) (y ∷ ys) ≡ superset_from xs (y ∷ ys) =
              rw (other, below) refl in
            step
            ∙ superset_from-first_missing xs (y ∷ ys) a.2 b
            ∙ sym (first_missing_skip x xs (y ∷ ys) (up, Above-trans y.hv x.hv ys up b.0))
      ]
    ]

first_missing_congr :
    (xs xs' zs : List SetView)
    → ((p : SetView → Bool) → any p xs ≡ any p xs')
    → first_missing xs zs ≡ first_missing xs' zs
unfolding first_missing
first_missing_congr xs xs' [] e = refl
first_missing_congr xs xs' (z ∷ zs) e =
    rw (e (λ x. x.hv == z.hv), e (λ x. hash_gt x.hv z.hv), first_missing_congr xs xs' zs e) refl

-- What `hatrack_set_is_superset` makes of the loops' result.
abbrev pub properly : Bool → Option Bool → Option Bool
properly equal_sizes none = none
properly equal_sizes (some false) = some false
properly equal_sizes (some true) = some (not equal_sizes)

-- For sets with distinct hash values `hatrack_set_is_superset` says "no" to a second set with more
-- elements. Otherwise the smallest hash value of the second set that is not in the first one decides:
-- "no" if the first set has a larger one, a read past the view's end if it has none; with no hash value
-- missing it says "yes", or with `proper` whether the sizes differ.
pub is_superset_lem :
    (qsort : Sorts)
    → IsSort qsort
    → (set1 set2 : SetInfo) (proper : Bool) → Distinct set1.view
    → Distinct set2.view
    → is_superset qsort set1 set2 proper ≡ (
        if ltb (length set1.view) (length set2.view)
        then some false
        else properly
            (proper && length set1.view == length set2.view)
            (first_missing set1.view (qsort.by_hash set2.view)))
unfolding is_superset
is_superset_lem qsort sort set1 set2 proper d1 d2 =
    let decided : superset_from (qsort.by_hash set1.view) (qsort.by_hash set2.view)
        ≡ first_missing set1.view (qsort.by_hash set2.view) =
      superset_from-first_missing _ _ (sort.ascends _ d1) (sort.ascends _ d2)
      ∙ first_missing_congr (qsort.by_hash set1.view) set1.view (qsort.by_hash set2.view)
          (λ p. sort.same p set1.view) in
    ground (arith, decided)

-- Two ascending views with the same hash values.
same_members :
    (xs ys : List SetView)
    → Ascends xs
    → Ascends ys
    → ((g : Hash) → has g xs ≡ has g ys)
    → (same_hashes xs ys ≡ true) × (length xs ≡ length ys)
unfolding same_hashes
same_members [] [] a b e = (refl, refl)
same_members (x ∷ xs) [] a b e = ground (arith, e x.hv)
same_members [] (y ∷ ys) a b e = ground (arith, e y.hv)
same_members (x ∷ xs) (y ∷ ys) a b e =
    let hx = heads x.hv x xs y ys a b in
    let hy = heads y.hv x xs y ys a b in
    let same : x.hv == y.hv ≡ true =
      ground (arith, hx, hy, e x.hv, e y.hv, hash_gt_irrefl x.hv, hash_gt_irrefl y.hv) in
    let rest = same_members xs ys a.2 b.2 (λ g. ground (arith, heads g x xs y ys a b, e g, same)) in
    (ground (arith, same, rest), ground (arith, rest))

same_hashes_members :
    (xs ys : List SetView)
    → length xs ≡ length ys
    → same_hashes xs ys ≡ true
    → (g : Hash) → has g xs ≡ has g ys
unfolding same_hashes
same_hashes_members [] [] l e g = refl
same_hashes_members (x ∷ xs) [] l e g = absurd (omega arith)
same_hashes_members [] (y ∷ ys) l e g = absurd (omega arith)
same_hashes_members (x ∷ xs) (y ∷ ys) l e g =
    let rest = same_hashes_members xs ys (omega arith) (ground arith) g in ground (arith, rest)

-- For sets with distinct hash values `hatrack_set_is_eq` is true exactly when the two sets have the
-- same hash values.
pub is_eq_iff :
    (qsort : Sorts)
    → IsSort qsort
    → (set1 set2 : SetInfo) → Distinct set1.view
    → Distinct set2.view
    → (is_eq qsort set1 set2 ≡ true) ↔ ((g : Hash) → has g set1.view ≡ has g set2.view)
unfolding is_eq
is_eq_iff qsort sort set1 set2 d1 d2 = (onto, into)
  where
    onto : is_eq qsort set1 set2 ≡ true → (g : Hash) → has g set1.view ≡ has g set2.view
    onto e g =
        let sizes : length (qsort.by_hash set1.view) ≡ length (qsort.by_hash set2.view) =
          ground (arith, sort.same_length set1.view, sort.same_length set2.view) in
        sym (sort.same _ set1.view)
        ∙ same_hashes_members _ _ sizes (ground arith) g
        ∙ sort.same _ set2.view

    into : ((g : Hash) → has g set1.view ≡ has g set2.view) → is_eq qsort set1 set2 ≡ true
    into same =
        let (e, l) =
          same_members _ _ (sort.ascends _ d1) (sort.ascends _ d2)
            (λ g. sort.same _ set1.view ∙ same g ∙ sym (sort.same _ set2.view)) in
        ground (arith, e, l, sort.same_length set1.view, sort.same_length set2.view)
