-- ===== src/Hatring/Cells.antt =====
-- hatring.c: which cell an epoch has, and the items between two epochs.
use hatrack.Prelude.{
  ℕ, zero, suc, ◌+◌, ◌*◌, ◌/◌, ◌%◌, ◌≤◌, ◌<◌, ◌≡◌, ◌≢◌, refl, sym, ap, ◌∙◌, arith, leb, Bool-cases,
  inl, inr, List, [], ◌∷◌, ◌++◌, length, set, get_or-set_ne,
}
use native.Mathlib.Nat.{div-add-mod, mul-le-mul_left}
use hatrack.Common.{Pointer}
use hatrack.Hatring.{Cell, empty_cell, cell_at}

no_multiple : (n a b : ℕ) → n * a < n * b → n * b < n * a + n → ⊥
no_multiple n a b l h = elim (Bool-cases (leb (suc a) b)) [
  | inl above ↦
      let more : n * suc a ≤ n * b = mul-le-mul_left n (ground (arith, above)) in
      omega (arith, more, h)
  | inr below ↦
      let less : n * b ≤ n * a = mul-le-mul_left n (ground (arith, below)) in omega (arith, less, l)
]

-- Epochs less than a turn apart have different cells.
pub epoch-cell : (n e w : ℕ) → 0 < n → e < w → w < e + n → e % n ≢ w % n
epoch-cell n e w pos l h same =
    let at_e = div-add-mod e n in
    let at_w = div-add-mod w n in
    no_multiple n (e / n) (w / n) (omega (arith, at_e, at_w, same, l))
      (omega (arith, at_e, at_w, same, h))

-- The items of so many epochs from one on.
abbrev pub items_from : List Cell → ℕ → ℕ → ℕ → List Pointer
items_from cells n lo zero = []
items_from cells n lo (suc c) = (cell_at cells (lo % n)).item ∷ items_from cells n (suc lo) c

pub items_from-snoc :
    (cells : List Cell) (n lo c : ℕ)
    → items_from cells n lo (suc c)
      ≡ items_from cells n lo c ++ (cell_at cells ((lo + c) % n)).item ∷ []
items_from-snoc cells n lo zero = let e : lo + 0 ≡ lo = omega arith in rw e refl
items_from-snoc cells n lo (suc c) =
    let e : suc lo + c ≡ lo + suc c = omega arith in
    ap (λ r. (cell_at cells (lo % n)).item ∷ r) (items_from-snoc cells n (suc lo) c ∙ rw e refl)

pub length-items_from : (cells : List Cell) (n lo c : ℕ) → length (items_from cells n lo c) ≡ c
length-items_from cells n lo zero = refl
length-items_from cells n lo (suc c) = ap suc (length-items_from cells n (suc lo) c)

-- A write at an epoch that is not one of them.
pub items_from-set :
    (cells : List Cell) (n lo c w : ℕ) (cell : Cell)
    → 0 < n
    → lo + c ≤ w
    → w < lo + n
    → items_from (set cells (w % n) cell) n lo c ≡ items_from cells n lo c
items_from-set cells n lo zero w cell pos l h = refl
items_from-set cells n lo (suc c) w cell pos l h =
    let apart : w % n ≢ lo % n = λ e. epoch-cell n lo w pos (omega (arith, l)) h (sym e) in
    let here : cell_at (set cells (w % n) cell) (lo % n) ≡ cell_at cells (lo % n) =
      get_or-set_ne cells (w % n) (lo % n) cell empty_cell apart in
    let later =
      items_from-set cells n (suc lo) c w cell pos (omega (arith, l)) (omega (arith, h)) in
    ap (λ x. x.item ∷ items_from (set cells (w % n) cell) n (suc lo) c) here
    ∙ ap (λ r. (cell_at cells (lo % n)).item ∷ r) later
