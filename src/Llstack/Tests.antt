-- ===== src/Llstack/Tests.antt =====
-- Two threads that push, and one that pops, with a head that has gone stale.
use hatrack.Prelude.{inl, inr, Bool-cases, ◌==◌, ◌≡◌, refl, arith, some, List, [], ◌∷◌}
use hatrack.Common.{Pointer, null}
use hatrack.Llstack.{Llstack, push, pop, try_push, try_pop, init}
use hatrack.Llstack.Chain.{Chain, Away}
use hatrack.Llstack.Attempts.{pop-push}
use hatrack.Llstack.Threads.{
  outside, World, Action, pushes, heads, nexts, swaps, nothing, pushed, popped, swap_of, step, run,
  replay, AreFresh,
}
use hatrack.Llstack.Replays.{Stands, run-replay}

abbrev new_stack : Llstack
new_stack = init (record { head = 9; nodes = λ p. record { next = null; item = null } })

abbrev stack_world : World
stack_world = record { stack = new_stack; pcs = λ i. outside }

-- Thread 0 loads the head and what follows it, and then another push moves the head: its first compare-and-swap
-- fails.
abbrev race : List Action
race =
    pushes 5 50 null
    ∷ heads 0 5
    ∷ nexts 0
    ∷ pushes 6 60 5
    ∷ swaps 0
    ∷ heads 0 6
    ∷ nexts 0
    ∷ swaps 0
    ∷ []

race_effects :
    (run stack_world race).0
    ≡ pushed 50 ∷ nothing ∷ nothing ∷ pushed 60 ∷ nothing ∷ nothing ∷ nothing ∷ popped 60 ∷ []
unfolding run step swap_of try_push try_pop
race_effects = refl

outside-nothing :
    (xs : List Pointer) → Chain new_stack.nodes null xs → Away new_stack.nodes 5 null xs
outside-nothing [] c = tt
outside-nothing (x ∷ xs) c = absurd (c.0 refl)

first-Away :
    (xs : List Pointer)
    → Chain (step stack_world (pushes 5 50 null)).1.stack.nodes 5 xs
    → Away (step stack_world (pushes 5 50 null)).1.stack.nodes 6 5 xs
unfolding step try_push
first-Away [] c = tt
first-Away (x ∷ []) c = (omega arith, tt)
first-Away (x ∷ y ∷ ys) c = absurd (c.2.0 refl)

race-AreFresh : AreFresh stack_world race
unfolding step try_push swap_of try_pop
race-AreFresh = (
  (omega arith, outside-nothing, λ i. refl),
  (
    (
      omega arith,
      first-Away,
      λ i. elim (Bool-cases (i == 0)) [ inl e ↦ rw e refl | inr e ↦ rw e refl ],
    ),
    tt,
  ),
)

stack_world-Stands : Stands stack_world []
stack_world-Stands = record { chain = refl; held = λ i. tt }

run-replay_example :
    (ys : List Pointer) × (replay (run stack_world race).0 [] ≡ some ys)
    × Stands (run stack_world race).1 ys
run-replay_example = run-replay race stack_world [] stack_world-Stands race-AreFresh

pop-push_example :
    (after_push after_pop : Llstack) × (push 1 (λ s. s) 5 50 new_stack ≡ some after_push)
    × (pop 1 (λ s. s) after_push ≡ some (some 50, after_pop))
    × (after_pop.head ≡ new_stack.head)
pop-push_example = pop-push new_stack 5 50 (omega arith)
