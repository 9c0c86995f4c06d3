-- ===== src/Hihat/Copying/Pigeon.antt =====
-- Numbers other than 0 that differ and are all in a list are not more than that list has.
use hatrack.Prelude.{
  ℕ, suc, ◌≤◌, ◌<◌, ◌≡◌, ◌≢◌, refl, sym, ap, ◌∙◌, arith, Bool, not, ◌==◌, List, [], ◌∷◌, length,
  set, get_or, get_or-set_ne, length-set, count_by, count_by-set, to_nat, inl, inr, Bool-cases,
}

abbrev pub is_nonzero : ℕ → Bool
is_nonzero n = not (n == 0)

abbrev pub AreDistinct : List ℕ → Type 0
AreDistinct xs = (i j : ℕ) → get_or xs i 0 ≢ 0 → get_or xs i 0 ≡ get_or xs j 0 → i ≡ j

abbrev pub AreAmong : List ℕ → List ℕ → Type 0
AreAmong xs ys =
    (i : ℕ) → get_or xs i 0 ≢ 0 → (j : ℕ) × (j < length ys) × (get_or ys j 0 ≡ get_or xs i 0)

distinct_rest : (a : ℕ) (xs : List ℕ) → AreDistinct (a ∷ xs) → AreDistinct xs
distinct_rest a xs d i j nz e = omega (arith, d (suc i) (suc j) nz e)

-- The number that the first one is found at is taken away.
among_rest :
    (a : ℕ) (xs ys : List ℕ) (k : ℕ)
    → a ≢ 0
    → AreDistinct (a ∷ xs)
    → AreAmong (a ∷ xs) ys
    → get_or ys k 0 ≡ a
    → AreAmong xs (set ys k 0)
among_rest a xs ys k nz d m e i nz' =
    let (j, l, e') = m (suc i) nz' in
    let away : j ≢ k = λ q.
      let same : get_or (a ∷ xs) 0 0 ≡ get_or (a ∷ xs) (suc i) 0 =
        sym e ∙ ap (λ x. get_or ys x 0) (sym q) ∙ e' in
      omega (arith, d 0 (suc i) nz same) in
    (j, omega (arith, length-set ys k 0), get_or-set_ne ys k j 0 0 (λ q. away (sym q)) ∙ e')

pub count-among :
    (xs ys : List ℕ)
    → AreDistinct xs
    → AreAmong xs ys
    → count_by is_nonzero xs ≤ count_by is_nonzero ys
unfolding count_by
count-among [] ys d m = omega arith
count-among (a ∷ xs) ys d m = elim (Bool-cases (a == 0)) [
  | inl none ↦
      let rest = count-among xs ys (distinct_rest a xs d) (λ i nz. m (suc i) nz) in
      rw none (omega (arith, rest))
  | inr some ↦
      let nz : a ≢ 0 = ground (arith, some) in
      let (k, l, e) = m 0 nz in
      let rest =
        count-among xs (set ys k 0) (distinct_rest a xs d) (among_rest a xs ys k nz d m e) in
      let removed = count_by-set is_nonzero ys k 0 0 l in
      let there : to_nat (is_nonzero (get_or ys k 0)) ≡ 1 = rw (e, some) refl in
      rw some (omega (arith, rest, removed, there))
]
