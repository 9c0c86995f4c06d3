-- ===== src/Llstack/Replays.antt =====
-- The steps of several threads on llstack.c are those of one stack.
use hatrack.Prelude.{
  ℕ, ◌≡◌, ◌≢◌, refl, sym, ap, ◌∙◌, arith, ◌==◌, ==_iff, inl, inr, Bool-cases, true, false, some,
  List, [], ◌∷◌,
}
use hatrack.Common.{Pointer, null}
use hatrack.Llstack.{Node, Llstack, write_node, try_push, try_pop}
use hatrack.Llstack.Chain.{Chain, Chain-write}
use hatrack.Llstack.Threads.{
  Popping, outside, headed, linked, World, Action, pushes, heads, nexts, swaps, Effect, set_pc,
  next_of, swap_of, step, run, apply, go_on, replay, needs, IsOutside, AreFresh,
}

-- What a thread has loaded from a node is still there.
abbrev pub IsHeld : (Pointer → Node) → Popping → Type 0
IsHeld nodes outside = Unit
IsHeld nodes (headed p) = Unit
IsHeld nodes (linked p next) = (p ≢ null) × ((nodes p).next ≡ next)

pub record Stands (w : World) (xs : List Pointer) : Type 0 where
  pub chain : Chain w.stack.nodes w.stack.head xs
  pub held : (i : ℕ) → IsHeld w.stack.nodes (w.pcs i)

-- The stack stands for a list that the effect leads to.
abbrev pub Applied : Effect × World → List Pointer → Type 0
Applied (e, w) xs = (ys : List Pointer) × (apply e xs ≡ some ys) × Stands w ys

IsHeld-write :
    (self : Llstack) (node : Pointer) (value : Node) (pc : Popping)
    → needs node pc ≡ false
    → IsHeld self.nodes pc
    → IsHeld (write_node self node value).nodes pc
IsHeld-write self node value outside e h = tt
IsHeld-write self node value (headed p) e h = tt
IsHeld-write self node value (linked p next) e h = rw e h

set_pc-IsHeld :
    (nodes : Pointer → Node) (pcs : ℕ → Popping) (i : ℕ) (pc : Popping)
    → ((j : ℕ) → IsHeld nodes (pcs j))
    → IsHeld nodes pc
    → (j : ℕ) → IsHeld nodes (set_pc pcs i pc j)
set_pc-IsHeld nodes pcs i pc all new j = elim (Bool-cases (j == i)) [
  | inl same ↦ rw same new
  | inr other ↦ rw other (all j)
]

push-Applied :
    (w : World) (node item expected : Pointer) (xs : List Pointer)
    → IsOutside node w
    → Stands w xs
    → Applied (step w (pushes node item expected)) xs
unfolding step try_push
push-Applied w node item expected xs o c =
    let self = w.stack in
    let value : Node = record { next = expected; item = item } in
    let kept = Chain-write self node value self.head xs (o.1 xs c.chain) c.chain in
    let held : (i : ℕ) → IsHeld (write_node self node value).nodes (w.pcs i) =
      λ i. IsHeld-write self node value (w.pcs i) (o.2 i) (c.held i) in
    elim (Bool-cases (self.head == expected)) [
      | inl same ↦
          let e : self.head ≡ expected = (==_iff self.head expected).0 same in
          let self_same : node == node ≡ true = ground arith in
          rw same (
            item ∷ xs,
            refl,
            record { chain = (o.0, rw self_same refl, rw (self_same, ← e) kept); held = held },
          )
      | inr other ↦ rw other (xs, refl, record { chain = kept; held = held })
    ]

next_of-IsHeld :
    (self : Llstack) (pc : Popping) → IsHeld self.nodes pc → IsHeld self.nodes (next_of self pc)
next_of-IsHeld self outside h = tt
next_of-IsHeld self (headed p) h = elim (Bool-cases (p == null)) [
  | inl at_end ↦ rw at_end tt
  | inr inside ↦ rw inside (ground (arith, inside), refl)
]
next_of-IsHeld self (linked p next) h = h

-- What a compare-and-swap of a pop leads to.
abbrev Swapped : (Pointer → Node) → List Pointer → Effect × Llstack × Popping → Type 0
Swapped nodes xs (e, self, pc) =
    (ys : List Pointer) × (apply e xs ≡ some ys)
    × (self.nodes ≡ nodes)
    × Chain nodes self.head ys
    × IsHeld nodes pc

swap_of-Swapped :
    (self : Llstack) (pc : Popping) (xs : List Pointer)
    → Chain self.nodes self.head xs
    → IsHeld self.nodes pc
    → Swapped self.nodes xs (swap_of self pc)
unfolding swap_of try_pop
swap_of-Swapped self outside xs c h = (xs, refl, refl, c, tt)
swap_of-Swapped self (headed p) xs c h = (xs, refl, refl, c, tt)
swap_of-Swapped self (linked p next) xs c h = elim (Bool-cases (self.head == p)) [
  | inl same ↦ taken xs c same
  | inr other ↦ rw other (xs, refl, refl, c, tt)
]
  where
    taken :
        (xs : List Pointer)
        → Chain self.nodes self.head xs
        → self.head == p ≡ true
        → Swapped self.nodes xs (swap_of self (linked p next))
    taken [] c same =
        let e : self.head ≡ p = (==_iff self.head p).0 same in absurd (h.0 (sym e ∙ c))
    taken (x ∷ xs) c same =
        let e : self.head ≡ p = (==_iff self.head p).0 same in
        let item : (self.nodes p).item ≡ x = rw (← e) c.1 in
        let first : x == (self.nodes p).item ≡ true = ground (arith, item) in
        let rest : Chain self.nodes (self.nodes p).next xs = rw (← e) c.2 in
        rw same (xs, rw first refl, refl, rw (← h.1) rest, tt)

swaps-Applied :
    (w : World) (i : ℕ) (xs : List Pointer) → Stands w xs → Applied (step w (swaps i)) xs
unfolding step
swaps-Applied w i xs c =
    let (ys, e, same, chain, h) = swap_of-Swapped w.stack (w.pcs i) xs c.chain (c.held i) in
    (
      ys,
      e,
      record {
        chain = rw same chain;
        held = rw same (set_pc-IsHeld w.stack.nodes w.pcs i _ c.held h);
      },
    )

step-Applied :
    (w : World) (a : Action) (xs : List Pointer)
    → AreFresh w (a ∷ [])
    → Stands w xs
    → Applied (step w a) xs
unfolding step
step-Applied w (pushes node item expected) xs f c = push-Applied w node item expected xs f.0 c
step-Applied w (heads i p) xs f c = (
  xs,
  refl,
  record { chain = c.chain; held = set_pc-IsHeld w.stack.nodes w.pcs i (headed p) c.held tt },
)
step-Applied w (nexts i) xs f c = (
  xs,
  refl,
  record {
    chain = c.chain;
    held =
        set_pc-IsHeld w.stack.nodes w.pcs i (next_of w.stack (w.pcs i)) c.held
          (next_of-IsHeld w.stack (w.pcs i) (c.held i));
  },
)
step-Applied w (swaps i) xs f c = swaps-Applied w i xs c

AreFresh-head :
    (w : World) (a : Action) (rest : List Action)
    → AreFresh w (a ∷ rest)
    → AreFresh w (a ∷ []) × AreFresh (step w a).1 rest
AreFresh-head w (pushes node item expected) rest f = ((f.0, tt), f.1)
AreFresh-head w (heads i p) rest f = (tt, f)
AreFresh-head w (nexts i) rest f = (tt, f)
AreFresh-head w (swaps i) rest f = (tt, f)

-- Whatever steps of pushes and pops the threads take, in any order and with any heads that they have loaded, what
-- the steps do is a sequence of pushes and pops of one stack, which takes the list of items at the start to the one
-- at the end. Every round of a push must have a node of its own that is outside the stack at that time and that no
-- thread in a pop has loaded; what a thread in a pop has loaded at the start must still be there.
pub run-replay :
    (actions : List Action) (w : World) (xs : List Pointer)
    → Stands w xs
    → AreFresh w actions
    → (ys : List Pointer) × (replay (run w actions).0 xs ≡ some ys) × Stands (run w actions).1 ys
unfolding run replay
run-replay [] w xs c fresh = (xs, refl, c)
run-replay (a ∷ rest) w xs c fresh =
    let (one, others) = AreFresh-head w a rest fresh in
    let (ys, e, c') = step-Applied w a xs one c in
    let (zs, e', c'') = run-replay rest (step w a).1 ys c' others in
    (zs, ap (λ o. go_on o (replay (run (step w a).1 rest).0)) e ∙ e', c'')
