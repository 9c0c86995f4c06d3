-- ===== src/Llstack/Attempts.antt =====
-- A push and a pop of llstack.c by one thread.
use hatrack.Prelude.{◌≡◌, ◌≢◌, refl, ap, arith, ◌==◌, true, false, some}
use hatrack.Common.{Pointer, null}
use hatrack.Llstack.{Node, Llstack, write_node, try_push, try_pop, push, push_from, pop, pop_from}

-- With no other thread at work a push returns in its first round, and a pop after it returns the item
-- in its first round and leaves the head as it was before. The node must not be null.
pub pop-push :
    (self : Llstack) (node item : Pointer)
    → node ≢ null
    → (after_push after_pop : Llstack) × (push 1 (λ s. s) node item self ≡ some after_push)
      × (pop 1 (λ s. s) after_push ≡ some (some item, after_pop))
      × (after_pop.head ≡ self.head)
unfolding push push_from pop pop_from try_push try_pop
pop-push self node item nz =
    let value : Node = record { next = self.head; item = item } in
    let after : Llstack = record (write_node self node value) { head = node } in
    let same : node == node ≡ true = ground arith in
    let head : self.head == self.head ≡ true = ground arith in
    let inside : node == null ≡ false = ground (arith, nz) in
    let next : (after.nodes node).next ≡ self.head = rw same refl in
    (
      after,
      record after { head = self.head },
      rw head refl,
      rw (inside, same) (ap (λ n. some (some item, record after { head = n })) next),
      refl,
    )
