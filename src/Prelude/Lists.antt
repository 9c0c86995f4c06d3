-- ===== src/Prelude/Lists.antt =====
-- C arrays as lists with native indices, and counts of the elements that pass a test.
use Prim.Native.Nat.{ℕ, zero, suc, ◌+◌, ◌≤◌, ◌<◌}
use mathlib.Core.Path.{◌≡◌, refl, ap}
use mathlib.Core.Logic.{◌≢◌}
use mathlib.Core.Bool.{Bool, true, false}
use mathlib.Core.List.{List, [], ◌∷◌, ◌++◌}
use mathlib.Core.Logic.{inl, inr}
use hatrack.Prelude.Tests.{Bool-cases, if◌then◌else◌}
use native.Mathlib.Omega.{arith}

module _ {ℓ} {A : Type ℓ} where
  abbrev pub length : List A → ℕ
  length [] = 0
  length (x ∷ xs) = suc (length xs)

  abbrev pub get_or : List A → ℕ → A → A
  get_or [] i d = d
  get_or (x ∷ xs) zero d = x
  get_or (x ∷ xs) (suc i) d = get_or xs i d

  -- A write out of bounds changes nothing.
  abbrev pub set : List A → ℕ → A → List A
  set [] i v = []
  set (x ∷ xs) zero v = v ∷ xs
  set (x ∷ xs) (suc i) v = x ∷ set xs i v

  abbrev pub replicate : ℕ → A → List A
  replicate zero a = []
  replicate (suc n) a = a ∷ replicate n a

  abbrev pub filter : (A → Bool) → List A → List A
  filter p [] = []
  filter p (x ∷ xs) = let rest = filter p xs in if p x then x ∷ rest else rest

  pub length-set : (xs : List A) (i : ℕ) (v : A) → length (set xs i v) ≡ length xs
  length-set [] i v = refl
  length-set (x ∷ xs) zero v = refl
  length-set (x ∷ xs) (suc i) v = ap suc (length-set xs i v)

  pub length-replicate : (n : ℕ) (a : A) → length (replicate n a) ≡ n
  length-replicate zero a = refl
  length-replicate (suc n) a = ap suc (length-replicate n a)

  pub length-append : (xs ys : List A) → length (xs ++ ys) ≡ length xs + length ys
  length-append [] ys = omega arith
  length-append (x ∷ xs) ys = omega (arith, length-append xs ys)

  pub get_or-replicate : (n i : ℕ) (a : A) → get_or (replicate n a) i a ≡ a
  get_or-replicate zero i a = refl
  get_or-replicate (suc n) zero a = refl
  get_or-replicate (suc n) (suc i) a = get_or-replicate n i a

  pub get_or-set_self :
      (xs : List A) (i : ℕ) (v d : A) → i < length xs → get_or (set xs i v) i d ≡ v
  get_or-set_self [] i v d h = absurd (omega arith)
  get_or-set_self (x ∷ xs) zero v d h = refl
  get_or-set_self (x ∷ xs) (suc i) v d h = get_or-set_self xs i v d (omega arith)

  pub get_or-set_ne :
      (xs : List A) (i j : ℕ) (v d : A) → i ≢ j → get_or (set xs i v) j d ≡ get_or xs j d
  get_or-set_ne [] i j v d h = refl
  get_or-set_ne (x ∷ xs) zero zero v d h = absurd (h refl)
  get_or-set_ne (x ∷ xs) zero (suc j) v d h = refl
  get_or-set_ne (x ∷ xs) (suc i) zero v d h = refl
  get_or-set_ne (x ∷ xs) (suc i) (suc j) v d h = get_or-set_ne xs i j v d (λ e. h (ap suc e))

abbrev pub to_nat : Bool → ℕ
to_nat true = 1
to_nat false = 0

module _ {ℓ} {A : Type ℓ} (p : A → Bool) where
  -- how many elements pass the test
  unfoldable pub count_by : List A → ℕ
  count_by [] = 0
  count_by (x ∷ xs) = to_nat (p x) + count_by xs

  pub count_by-le : (xs : List A) → count_by xs ≤ length xs
  unfolding count_by
  count_by-le [] = omega arith
  count_by-le (x ∷ xs) = ground (arith, count_by-le xs)

  pub count_by-set :
      (xs : List A) (i : ℕ) (v d : A)
      → i < length xs
      → count_by (set xs i v) + to_nat (p (get_or xs i d)) ≡ count_by xs + to_nat (p v)
  unfolding count_by
  count_by-set [] i v d h = absurd (omega arith)
  count_by-set (x ∷ xs) zero v d h = omega arith
  count_by-set (x ∷ xs) (suc i) v d h = omega (arith, count_by-set xs i v d (omega arith))

  pub count_by-replicate : (n : ℕ) (a : A) → p a ≡ false → count_by (replicate n a) ≡ 0
  unfolding count_by
  count_by-replicate zero a h = refl
  count_by-replicate (suc n) a h = ground (arith, count_by-replicate n a h)

  pub count_by-pos :
      (xs : List A) (i : ℕ) (d : A) → i < length xs → p (get_or xs i d) ≡ true → 0 < count_by xs
  unfolding count_by
  count_by-pos [] i d h e = absurd (omega arith)
  count_by-pos (x ∷ xs) zero d h e = rw e (omega arith)
  count_by-pos (x ∷ xs) (suc i) d h e = omega (arith, count_by-pos xs i d (omega arith) e)

  pub count_by-eq-zero :
      (xs : List A) (d : A)
      → ((i : ℕ) → i < length xs → p (get_or xs i d) ≡ false)
      → count_by xs ≡ 0
  unfolding count_by
  count_by-eq-zero [] d h = refl
  count_by-eq-zero (x ∷ xs) d h =
      rw (h 0 (omega arith), count_by-eq-zero xs d (λ i l. h (suc i) (omega arith))) refl

  -- below the full count there is an index that fails the test
  pub count_by_room :
      (xs : List A) (d : A)
      → count_by xs < length xs
      → (i : ℕ) × (i < length xs) × (p (get_or xs i d) ≡ false)
  unfolding count_by
  count_by_room [] d h = absurd (omega arith)
  count_by_room (x ∷ xs) d h = step (p x) refl (count_by_room xs d)
    where
      step :
          (b : Bool)
          → p x ≡ b
          → (count_by xs < length xs → (i : ℕ) × (i < length xs) × (p (get_or xs i d) ≡ false))
          → (i : ℕ) × (i < suc (length xs)) × (p (get_or (x ∷ xs) i d) ≡ false)
      step false e rec = (0, omega arith, e)
      step true e rec = let (i, l, f) = rec (ground arith) in (suc i, omega arith, f)

  pub count_by-ge :
      (xs : List A) (i : ℕ) (d : A) → i < length xs → to_nat (p (get_or xs i d)) ≤ count_by xs
  unfolding count_by
  count_by-ge [] i d h = absurd (omega arith)
  count_by-ge (x ∷ xs) zero d h = omega arith
  count_by-ge (x ∷ xs) (suc i) d h = omega (arith, count_by-ge xs i d (omega arith))

  -- At most one element passes a test that no two indices pass.
  pub count_by_unique :
      (xs : List A) (d : A)
      → ((i j : ℕ)
          → i < length xs
          → j < length xs
          → p (get_or xs i d) ≡ true
          → p (get_or xs j d) ≡ true
          → i ≡ j)
      → count_by xs ≤ 1
  unfolding count_by
  count_by_unique [] d u = omega arith
  count_by_unique (x ∷ xs) d u = elim (Bool-cases (p x)) [
    | inl now ↦
        let none_later = count_by-eq-zero xs d (λ i l. elim (Bool-cases (p (get_or xs i d))) [
          | inl later ↦ absurd (omega (arith, u 0 (suc i) (omega arith) (omega arith) now later))
          | inr never ↦ never
        ]) in
        rw (now, none_later) (omega arith)
    | inr not_now ↦ rw not_now (
        omega (
          arith,
          count_by_unique xs d (λ i j li lj pi pj.
              omega (arith, u (suc i) (suc j) (omega arith) (omega arith) pi pj)),
        ))
  ]

-- A weaker test passes at least as often.
pub count_by_mono {ℓ} :
    {A : Type ℓ} (p q : A → Bool) (xs : List A)
    → ((x : A) → p x ≡ true → q x ≡ true)
    → count_by p xs ≤ count_by q xs
unfolding count_by
count_by_mono p q [] h = omega arith
count_by_mono p q (x ∷ xs) h = ground (arith, h x, count_by_mono p q xs h)
