-- ===== src/Hihat/Copying/World.antt =====
-- Threads at work on the two stores of a migration of hihat.c, one atomic step at a time, in the order of a
-- schedule.
use hatrack.Prelude.{ℕ, ◌==◌, if◌then◌else◌, List, [], ◌∷◌}
use hatrack.FiniteMap.{Op}
use hatrack.Hihat.Steps.{Event, quiet}
use hatrack.Hihat.Machine.{Action, runs, calls, start_if}
use hatrack.Hihat.Copying.{Migration, Place, copies, works, new_store, place_step}

pub record World : Type 0 where
  pub migration : Migration
  pub places : ℕ → Place

abbrev pub set_place : (ℕ → Place) → ℕ → Place → ℕ → Place
set_place places i place j = if j == i then place else places j

-- A thread whose last call on the new store has returned makes another.
abbrev pub call_if : Migration → Op → Place → Place
call_if m op (copies o u c) = copies o u c
call_if m op (works pc) = works (start_if (new_store m) op pc)

unfoldable pub act : World → Action → Event × World
unfolding place_step
act w (runs i) =
    let (m, place, event) = place_step w.migration (w.places i) in
    (event, record { migration = m; places = set_place w.places i place })
act w (calls i op) =
    (quiet, record w { places = set_place w.places i (call_if w.migration op (w.places i)) })

unfoldable pub run : World → List Action → List Event × World
unfolding act
run w [] = ([], w)
run w (a ∷ rest) =
    let (event, w') = act w a in let (events, last) = run w' rest in (event ∷ events, last)
