-- ===== src/Mmm/WriteEpoch.antt =====
-- mmm.c: a cell gets one write epoch, however many threads commit it.
use hatrack.Prelude.{
  ℕ, suc, ◌+◌, ◌^◌, ◌≤◌, ◌<◌, ◌≡◌, ◌≢◌, refl, sym, ◌∙◌, arith, ◌==◌, List, [], ◌∷◌, length, inl,
  inr, Bool-cases,
}
use hatrack.Mmm.{Header, Mmm}
use hatrack.Mmm.Commit.{
  Committing, outside, loading, fetching, swapping, committed, commit_step, World, Action, commits,
  helps, runs, set_pc, act, run,
}

-- What holds at each place, where the epoch was `first` at the start.
abbrev pub Stands : ℕ → Mmm → Header → Committing → Type 0
Stands first m item outside = Unit
Stands first m item loading = Unit
Stands first m item fetching = Unit
Stands first m item (swapping e) = (first < e) × (e ≤ m.epoch)
Stands first m item committed = item.write_epoch ≢ 0

-- With `n` actions to come.
pub record IsWorld (first n : ℕ) (w : World) : Type 0 where
  pub low : first ≤ w.mmm.epoch
  pub clock : w.mmm.epoch + n < 2 ^ 64
  pub cell :
      w.item.write_epoch ≢ 0 → (first < w.item.write_epoch) × (w.item.write_epoch ≤ w.mmm.epoch)
  pub stands : (i : ℕ) → Stands first w.mmm w.item (w.pcs i)

Stands-later :
    (first : ℕ) (m m' : Mmm) (item item' : Header) (pc : Committing)
    → m.epoch ≤ m'.epoch
    → (item.write_epoch ≢ 0 → item'.write_epoch ≢ 0)
    → Stands first m item pc
    → Stands first m' item' pc
Stands-later first m m' item item' outside l k s = tt
Stands-later first m m' item item' loading l k s = tt
Stands-later first m m' item item' fetching l k s = tt
Stands-later first m m' item item' (swapping e) l k s = (s.0, omega (arith, s.1, l))
Stands-later first m m' item item' committed l k s = k s

set_pc-Stands :
    (first : ℕ) (m m' : Mmm) (item item' : Header) (pcs : ℕ → Committing) (i : ℕ) (pc : Committing)
    → m.epoch ≤ m'.epoch
    → (item.write_epoch ≢ 0 → item'.write_epoch ≢ 0)
    → ((j : ℕ) → Stands first m item (pcs j))
    → Stands first m' item' pc
    → (j : ℕ) → Stands first m' item' (set_pc pcs i pc j)
set_pc-Stands first m m' item item' pcs i pc l k all new j = elim (Bool-cases (j == i)) [
  | inl same ↦ rw same new
  | inr other ↦ rw other (Stands-later first m m' item item' (pcs j) l k (all j))
]

-- What a step does to the epoch, the cell and the thread.
abbrev Steps : ℕ → Mmm → Header → Mmm × Header × Committing → Type 0
Steps first m item (m', item', pc) =
    (m.epoch ≤ m'.epoch)
    × (m'.epoch ≤ suc m.epoch)
    × (item.write_epoch ≢ 0 → item'.write_epoch ≡ item.write_epoch)
    × (item'.write_epoch ≢ 0 → (first < item'.write_epoch) × (item'.write_epoch ≤ m'.epoch))
    × Stands first m' item' pc

commit_step-Steps :
    (first : ℕ) (m : Mmm) (item : Header) (pc : Committing)
    → first ≤ m.epoch
    → m.epoch + 1 < 2 ^ 64
    → (item.write_epoch ≢ 0 → (first < item.write_epoch) × (item.write_epoch ≤ m.epoch))
    → Stands first m item pc
    → Steps first m item (commit_step m item pc)
unfolding commit_step
commit_step-Steps first m item outside l c k s = (omega arith, omega arith, λ n. refl, k, tt)
commit_step-Steps first m item loading l c k s = elim (Bool-cases (item.write_epoch == 0)) [
  | inl z ↦ rw z (omega arith, omega arith, λ n. refl, k, tt)
  | inr nz ↦ rw nz (omega arith, omega arith, λ n. refl, k, ground (arith, nz))
]
commit_step-Steps first m item fetching l c k s = (
  omega (arith, c),
  omega (arith, c),
  λ n. refl,
  λ n. ((k n).0, (let b = (k n).1 in omega (arith, b, c))),
  (omega (arith, c, l), omega (arith, c)),
)
commit_step-Steps first m item (swapping e) l c k s = elim (Bool-cases (item.write_epoch == 0)) [
  | inl z ↦ rw z (
    omega arith,
    omega arith,
    λ n. absurd (n (ground (arith, z))),
    λ n. s,
    (let b = s.0 in omega (arith, b)),
  )
  | inr nz ↦ rw nz (omega arith, omega arith, λ n. refl, k, ground (arith, nz))
]
commit_step-Steps first m item committed l c k s = (omega arith, omega arith, λ n. refl, k, s)

act-IsWorld :
    (first n : ℕ) (w : World) (a : Action)
    → IsWorld first (suc n) w
    → IsWorld first n (act w a)
      × (w.item.write_epoch ≢ 0 → (act w a).item.write_epoch ≡ w.item.write_epoch)
unfolding act
act-IsWorld first n w (commits i) g =
    let c = g.clock in
    (
      record {
        low = g.low;
        clock = omega (arith, c);
        cell = g.cell;
        stands =
            set_pc-Stands first w.mmm w.mmm w.item w.item w.pcs i fetching (omega arith) (λ k. k)
              g.stands tt;
      },
      λ k. refl,
    )
act-IsWorld first n w (helps i) g =
    let c = g.clock in
    (
      record {
        low = g.low;
        clock = omega (arith, c);
        cell = g.cell;
        stands =
            set_pc-Stands first w.mmm w.mmm w.item w.item w.pcs i loading (omega arith) (λ k. k)
              g.stands tt;
      },
      λ k. refl,
    )
act-IsWorld first n w (runs i) g =
    let c = g.clock in
    let low = g.low in
    let (up, by_one, kept, cell, s) =
      commit_step-Steps first w.mmm w.item (w.pcs i) g.low (omega (arith, c)) g.cell (g.stands i) in
    (
      record {
        low = omega (arith, low, up);
        clock = omega (arith, c, by_one);
        cell = cell;
        stands =
            set_pc-Stands first w.mmm (commit_step w.mmm w.item (w.pcs i)).0 w.item
              (commit_step w.mmm w.item (w.pcs i)).1 w.pcs i _ up (λ k z. k (sym (kept k) ∙ z))
              g.stands s;
      },
      kept,
    )

IsWorld-equal : (first k n : ℕ) (w : World) → k ≡ n → IsWorld first k w → IsWorld first n w
IsWorld-equal first k n w e g = rw (← e) g

run-IsWorld :
    (first n : ℕ) (w : World) (schedule : List Action)
    → IsWorld first (length schedule + n) w
    → IsWorld first n (run w schedule)
      × (w.item.write_epoch ≢ 0 → (run w schedule).item.write_epoch ≡ w.item.write_epoch)
unfolding run
run-IsWorld first n w [] g = (IsWorld-equal first _ n w (omega arith) g, λ k. refl)
run-IsWorld first n w (a ∷ rest) g =
    let (g', kept) =
      act-IsWorld first (length rest + n) w a (IsWorld-equal first _ _ w (omega arith) g) in
    let (g'', kept') = run-IsWorld first n (act w a) rest g' in
    (g'', λ k. kept' (λ z. k (sym (kept k) ∙ z)) ∙ kept k)

-- The cell has no write epoch and no thread is in a call.
abbrev pub idle : Mmm → Header → World
idle m item = record { mmm = m; item = item; pcs = λ i. outside }

-- Threads call `mmm_commit_write` and `mmm_help_commit` at a cell with no write epoch, in any schedule of their
-- steps, and the epoch does not run over. When one of the calls has ended the cell has a write epoch, one that was
-- made since the start, and no further schedule changes it.
pub run_commits :
    (m : Mmm) (item : Header) (schedule rest : List Action) (i : ℕ)
    → item.write_epoch ≡ 0
    → m.epoch + (length schedule + length rest) < 2 ^ 64
    → (run (idle m item) schedule).pcs i ≡ committed
    → let w = run (idle m item) schedule in
      (m.epoch < w.item.write_epoch)
      × (w.item.write_epoch ≤ w.mmm.epoch)
      × ((run w rest).item.write_epoch ≡ w.item.write_epoch)
run_commits m item schedule rest i z clock done =
    let start : IsWorld m.epoch (length schedule + length rest) (idle m item) = record {
      low = omega arith;
      clock = clock;
      cell = λ k. absurd (k z);
      stands = λ j. tt;
    } in
    let (g, kept) = run-IsWorld m.epoch (length rest) (idle m item) schedule start in
    let written : (run (idle m item) schedule).item.write_epoch ≢ 0 = rw done at (g.stands i) in
    let (low, high) = g.cell written in
    (
      low,
      high,
      (run-IsWorld m.epoch 0 (run (idle m item) schedule) rest
            (IsWorld-equal m.epoch _ _ _ (omega arith) g)).1
          written,
    )
