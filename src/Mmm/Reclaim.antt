-- ===== src/Mmm/Reclaim.antt =====
-- What `mmm_empty` frees: exactly the cells that were retired before the lowest reservation.
use hatrack.Prelude.{
  ℕ, zero, suc, ◌≤◌, ◌<◌, ◌≡◌, ◌≢◌, refl, arith, ap, ◌∙◌, ◌&&◌, Bool, true, not, ltb, if◌then◌else◌,
  inl, inr, Bool-cases, some, List, [], ◌∷◌, length, get_or, filter,
}
use hatrack.Mmm.{
  epoch_max, Header, Mmm, Thread, lowest_from, last_tid, lowest_reservation, cut_from, cut, emptied,
  empty,
}

-- No cell of the list was retired after `bound`.
abbrev pub Below : ℕ → List Header → Type 0
Below bound [] = Unit
Below bound (c ∷ cs) = (c.retire_epoch ≤ bound) × Below bound cs

-- The most recently retired cell comes first.
abbrev pub Descends : List Header → Type 0
Descends [] = Unit
Descends (c ∷ cs) = Below c.retire_epoch cs × Descends cs

abbrev pub is_before : ℕ → Header → Bool
is_before e c = ltb c.retire_epoch e

pub Below-mono : (a b : ℕ) (cs : List Header) → a ≤ b → Below a cs → Below b cs
Below-mono a b [] l h = tt
Below-mono a b (c ∷ cs) l h = (omega (arith, h.0), Below-mono a b cs l h.1)

-- Everything below a cell that is freed is freed.
all_before :
    (e bound : ℕ) (cs : List Header)
    → bound < e
    → Below bound cs
    → (filter (is_before e) cs ≡ cs) × (filter (λ c. not (is_before e c)) cs ≡ [])
all_before e bound [] l h = (refl, refl)
all_before e bound (c ∷ cs) l h =
    let rest = all_before e bound cs l h.1 in (ground (arith, h.0, rest), ground (arith, h.0, rest))

cut_from-filter :
    (e : ℕ) (c : Header) (cs : List Header)
    → Descends (c ∷ cs)
    → e ≤ c.retire_epoch
    → cut_from e c cs ≡ (c ∷ filter (λ c. not (is_before e c)) cs, filter (is_before e) cs)
unfolding cut_from
cut_from-filter e c [] d l = refl
cut_from-filter e c (n ∷ cs) d l = elim (Bool-cases (is_before e n)) [
  | inl before ↦
      let all = all_before e n.retire_epoch cs (ground arith) d.1.0 in
      ground (arith, before, all.0, all.1)
  | inr after ↦ rw (after, cut_from-filter e n cs d.1 (ground arith)) refl
]

pub cut-filter :
    (e : ℕ) (c : Header) (cs : List Header)
    → Descends (c ∷ cs)
    → cut e (c ∷ cs)
      ≡ some (filter (λ c. not (is_before e c)) (c ∷ cs), filter (is_before e) (c ∷ cs))
unfolding cut
cut-filter e c cs d = elim (Bool-cases (is_before e c)) [
  | inl before ↦
      let all = all_before e c.retire_epoch cs (ground arith) d.0 in
      ground (arith, before, all.0, all.1)
  | inr after ↦ rw (after, cut_from-filter e c cs d (ground arith)) refl
]

pub lowest_from-start : (rs : List ℕ) (n start : ℕ) → lowest_from rs n start ≤ start
unfolding lowest_from
lowest_from-start rs zero start = omega arith
lowest_from-start [] (suc n) start = omega arith
lowest_from-start (r ∷ rs) (suc n) start =
    ground (arith, lowest_from-start rs n (if ltb r start then r else start))

pub lowest_from-le :
    (rs : List ℕ) (n start i : ℕ) → i < n → i < length rs → lowest_from rs n start ≤ get_or rs i 0
unfolding lowest_from
lowest_from-le rs zero start i l m = absurd (omega arith)
lowest_from-le [] (suc n) start i l m = absurd (omega arith)
lowest_from-le (r ∷ rs) (suc n) start zero l m =
    ground (arith, lowest_from-start rs n (if ltb r start then r else start))
lowest_from-le (r ∷ rs) (suc n) start (suc i) l m =
    lowest_from-le rs n (if ltb r start then r else start) i (omega arith) (omega arith)

-- `p` holds of the first `n` elements.
abbrev pub all_first : (ℕ → Bool) → List ℕ → ℕ → Bool
all_first p rs zero = true
all_first p [] (suc n) = true
all_first p (r ∷ rs) (suc n) = p r && all_first p rs n

lowest_from-all_first :
    (e : ℕ) (rs : List ℕ) (n start : ℕ)
    → ltb e (lowest_from rs n start) ≡ (ltb e start && all_first (ltb e) rs n)
unfolding lowest_from
lowest_from-all_first e rs zero start = ground arith
lowest_from-all_first e [] (suc n) start = ground arith
lowest_from-all_first e (r ∷ rs) (suc n) start =
    ground (arith, lowest_from-all_first e rs n (if ltb r start then r else start))

-- Every registered thread's reservation is later than the retirement of the cell.
abbrev pub unread : Mmm → Header → Bool
unread m c =
    ltb c.retire_epoch epoch_max && all_first (ltb c.retire_epoch) m.reservations (last_tid m)

pub is_before-unread : (m : Mmm) (c : Header) → is_before (lowest_reservation m) c ≡ unread m c
unfolding lowest_reservation
is_before-unread m c = lowest_from-all_first c.retire_epoch m.reservations (last_tid m) epoch_max

filter_congr :
    {p q : Header → Bool} (cs : List Header)
    → ((c : Header) → p c ≡ q c)
    → filter p cs ≡ filter q cs
filter_congr [] e = refl
filter_congr (c ∷ cs) e = rw (e c, filter_congr cs e) refl

-- A thread's retire list as `mmm_retire` builds it.
pub record IsOrdered (m : Mmm) (cs : List Header) : Type 0 where
  pub descends : Descends cs
  pub below : Below m.epoch cs

cut-unread :
    (m : Mmm) (cs : List Header)
    → Descends cs
    → cs ≢ []
    → cut (lowest_reservation m) cs ≡ some (filter (λ c. not (unread m c)) cs, filter (unread m) cs)
cut-unread m [] d ne = absurd (ne refl)
cut-unread m (c ∷ cs) d ne =
    let keeps = filter_congr (c ∷ cs) (λ x. ap not (is_before-unread m x)) in
    let frees = filter_congr (c ∷ cs) (is_before-unread m) in
    cut-filter (lowest_reservation m) c cs d ∙ rw (keeps, frees) refl

-- On a retire list in the order of retirement that is not empty, `mmm_empty` frees exactly the cells
-- that were retired before every reservation of the registered threads, and keeps the others.
pub empty-filter :
    (m : Mmm) (t : Thread)
    → IsOrdered m t.retire_list
    → t.retire_list ≢ []
    → empty m t
      ≡ some (
        record t { retire_list = filter (λ c. not (unread m c)) t.retire_list },
        filter (unread m) t.retire_list,
      )
unfolding empty
empty-filter m t o ne = ap (emptied t) (cut-unread m t.retire_list o.descends ne)
