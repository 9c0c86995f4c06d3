-- ===== src/Hihat/Progress.antt =====
-- hihat.c: a call needs only its own steps, and a bounded number of them, however the steps of the other
-- threads come between them.
use hatrack.Prelude.{ℕ, ◌+◌, ◌≤◌, ◌≡◌, false, ◌==◌, if◌then◌else◌, List, [], ◌∷◌}
use hatrack.Hihat.{Hihat}
use hatrack.Hihat.Steps.{Pc}
use hatrack.Hihat.Machine.{Action, runs, calls}
use hatrack.Hihat.Left.{Going, left}

-- How many steps of the schedule are the thread's own.
abbrev pub own_steps : ℕ → List Action → ℕ
own_steps i [] = 0
own_steps i (runs j ∷ rest) = let n = own_steps i rest in if i == j then n + 1 else n
own_steps i (calls j op ∷ rest) = own_steps i rest

-- The thread makes no other call.
abbrev pub IsOneCall : ℕ → List Action → Type 0
IsOneCall i [] = Unit
IsOneCall i (runs j ∷ rest) = IsOneCall i rest
IsOneCall i (calls j op ∷ rest) = ((i == j) ≡ false) × IsOneCall i rest

module _ (i w : ℕ) where
  -- The thread has enough of its own steps left.
  abbrev Enough : Pc → ℕ → Type 0
  Enough pc n = Going w pc × (left w pc ≤ n)
