-- ===== src/Hatring/Tests.antt =====
-- A ring of hatring.c at concrete calls.
use hatrack.Prelude.{ℕ, zero, suc, ◌+◌, ◌^◌, ◌≡◌, refl, arith, some, List, [], ◌∷◌, ◌++◌, replicate}
use hatrack.Common.{found_item, not_found, bucket_index}
use hatrack.Hatring.{
  new, enqueue, dequeue, dequeue_round, next_epoch, try_once, fixed_epoch, claim_epoch, add_dequeue,
}
use hatrack.Hatring.Runs.{RingCall, enqueues, dequeues, run, answers, run-answers}

program : Unit {0}
unfolding new enqueue dequeue dequeue_round next_epoch try_once fixed_epoch claim_epoch add_dequeue
    bucket_index run
program = tt

-- The items `n + 99` down to 100.
abbrev fill : ℕ → List RingCall
fill zero = []
fill (suc n) = enqueues (n + 100) ∷ fill n

-- Of 18 items the ring drops the first two, and the first call to `hatring_dequeue` takes two rounds.
abbrev calls : List RingCall
calls = dequeues ∷ fill 18 ++ replicate 2 dequeues

overflows : run calls (new 16) ≡ some (not_found ∷ found_item 115 ∷ found_item 114 ∷ [])
unfolding program
overflows = refl

run-answers_example : run calls (new (2 ^ 4)) ≡ some (answers (2 ^ 4) [] calls)
run-answers_example = run-answers 4 calls (omega arith) (omega arith) (omega arith)
