-- ===== src/Llstack.antt =====
-- src/queue/llstack.c: a stack as a linked list, whose head moves by compare-and-swap.
pub mod Chain
pub mod Attempts
pub mod Threads
pub mod Replays
mod Tests
use hatrack.Prelude.{
  ℕ, zero, suc, Bool, true, false, ◌==◌, if◌then◌else◌, Option, none, some, List, [], ◌∷◌,
}
use hatrack.Common.{Pointer, null}

-- `llstack_node_t`
pub record Node : Type 0 where
  pub next : Pointer
  pub item : Pointer

-- `llstack_t`, with the nodes by their address.
pub record Llstack : Type 0 where
  pub head : Pointer
  pub nodes : Pointer → Node

-- `llstack_init`
abbrev pub init : Llstack → Llstack
init self = record self { head = null }

abbrev pub write_node : Llstack → Pointer → Node → Llstack
write_node self node value = record self { nodes = λ p. if p == node then value else self.nodes p }

-- How a round of a loop ends: it is done, or has loaded the head anew.
pub data Round (A : Type 0) : Type 0 where
  done : A → Round A
  retry : Pointer → Round A

-- A round of the loop of `llstack_push`: `node->next = head` and the compare-and-swap.
unfoldable pub try_push : Llstack → Pointer → Pointer → Pointer → Round Unit × Llstack
try_push self node item expected =
    let linked = write_node self node (record { next = expected; item = item }) in
    if self.head == expected
    then (done tt, record linked { head = node })
    else (retry self.head, linked)

-- The two steps of a round of the loop of `llstack_pop`: the load of `old_head->next`, and the
-- compare-and-swap that follows, with the item that it takes.
abbrev pub load_next : Llstack → Pointer → Pointer
load_next self old_head = (self.nodes old_head).next

unfoldable pub try_pop : Llstack → Pointer → Pointer → Round Pointer × Llstack
try_pop self old_head next =
    if self.head == old_head
    then (done (self.nodes old_head).item, record self { head = next })
    else (retry self.head, self)

abbrev pub push_again : (Pointer → Llstack → Option Llstack) → Round Unit × Llstack → Option Llstack
push_again again (done u, self) = some self
push_again again (retry head, self) = again head self

-- The loops, on fuel. Other threads may change the stack between two rounds of a loop, and between the two
-- steps of a round of a pop. `none` in the answer of a pop clears `*found`.
unfoldable pub push_from :
    ℕ → (Llstack → Llstack) → Pointer → Pointer → Pointer → Llstack → Option Llstack
unfolding try_push
push_from zero others node item head self = none
push_from (suc rounds) others node item head self =
    let again = λ (h : Pointer) (s : Llstack). push_from rounds others node item h (others s) in
    push_again again (try_push self node item head)

unfoldable pub push : ℕ → (Llstack → Llstack) → Pointer → Pointer → Llstack → Option Llstack
unfolding push_from
push rounds others node item self = push_from rounds others node item self.head (others self)

abbrev pub pop_again :
    (Pointer → Llstack → Option (Option Pointer × Llstack))
    → Round Pointer × Llstack
    → Option (Option Pointer × Llstack)
pop_again again (done ret, self) = some (some ret, self)
pop_again again (retry head, self) = again head self

unfoldable pub pop_from :
    ℕ → (Llstack → Llstack) → Pointer → Llstack → Option (Option Pointer × Llstack)
unfolding try_pop
pop_from zero others head self = none
pop_from (suc rounds) others head self =
    let again = λ (h : Pointer) (s : Llstack). pop_from rounds others h (others s) in
    let taken = pop_again again (try_pop (others self) head (load_next self head)) in
    if head == null then some (none, self) else taken

unfoldable pub pop : ℕ → (Llstack → Llstack) → Llstack → Option (Option Pointer × Llstack)
unfolding pop_from
pop rounds others self = pop_from rounds others self.head (others self)
