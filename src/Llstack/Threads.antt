-- ===== src/Llstack/Threads.antt =====
-- Steps of the loops of llstack.c by several threads, in any order.
use hatrack.Prelude.{
  ℕ, ◌≡◌, ◌≢◌, ◌==◌, if◌then◌else◌, Bool, false, Option, none, some, List, [], ◌∷◌,
}
use hatrack.Common.{Pointer, null}
use hatrack.Llstack.{Llstack, Round, done, retry, try_push, load_next, try_pop}
use hatrack.Llstack.Chain.{Chain, Away}

-- Where a thread is in `llstack_pop`: not in it, with `old_head`, or also with `old_head->next`.
pub data Popping : Type 0 where
  outside : Popping
  headed : Pointer → Popping
  linked : Pointer → Pointer → Popping

pub record World : Type 0 where
  pub stack : Llstack
  pub pcs : ℕ → Popping

-- A round of a push, with its node, its item and the head that it has loaded. A thread loads a head for a pop,
-- which may be an older one; it loads `next`; it makes its compare-and-swap.
pub data Action : Type 0 where
  pushes : Pointer → Pointer → Pointer → Action
  heads : ℕ → Pointer → Action
  nexts : ℕ → Action
  swaps : ℕ → Action

-- What a step has done to the stack.
pub data Effect : Type 0 where
  nothing : Effect
  pushed : Pointer → Effect
  popped : Pointer → Effect

abbrev pub push_effect : Pointer → Round Unit × Llstack → Effect × Llstack
push_effect item (done u, self) = (pushed item, self)
push_effect item (retry h, self) = (nothing, self)

abbrev pub set_pc : (ℕ → Popping) → ℕ → Popping → ℕ → Popping
set_pc pcs i pc j = if j == i then pc else pcs j

abbrev pub swapped : Round Pointer × Llstack → Effect × Llstack × Popping
swapped (done item, self) = (popped item, self, outside)
swapped (retry h, self) = (nothing, self, headed h)

-- The loop ends at a head that is NULL.
abbrev pub next_of : Llstack → Popping → Popping
next_of self (headed p) = if p == null then outside else linked p (load_next self p)
next_of self pc = pc

unfoldable pub swap_of : Llstack → Popping → Effect × Llstack × Popping
unfolding try_pop
swap_of self (linked p next) = swapped (try_pop self p next)
swap_of self outside = (nothing, self, outside)
swap_of self (headed p) = (nothing, self, headed p)

unfoldable pub step : World → Action → Effect × World
unfolding try_push swap_of
step w (pushes node item expected) =
    let (e, stack) = push_effect item (try_push w.stack node item expected) in
    (e, record w { stack = stack })
step w (heads i p) = (nothing, record w { pcs = set_pc w.pcs i (headed p) })
step w (nexts i) = (nothing, record w { pcs = set_pc w.pcs i (next_of w.stack (w.pcs i)) })
step w (swaps i) =
    let (e, stack, pc) = swap_of w.stack (w.pcs i) in
    (e, record { stack = stack; pcs = set_pc w.pcs i pc })

unfoldable pub run : World → List Action → List Effect × World
unfolding step
run w [] = ([], w)
run w (a ∷ rest) = let (e, w') = step w a in let (es, last) = run w' rest in (e ∷ es, last)

-- The specification: a list of items. `none` means that the effect is not one of a stack.
abbrev pub apply : Effect → List Pointer → Option (List Pointer)
apply nothing xs = some xs
apply (pushed x) xs = some (x ∷ xs)
apply (popped x) [] = none
apply (popped x) (y ∷ ys) = if y == x then some ys else none

abbrev pub go_on :
    Option (List Pointer) → (List Pointer → Option (List Pointer)) → Option (List Pointer)
go_on none next = none
go_on (some ys) next = next ys

unfoldable pub replay : List Effect → List Pointer → Option (List Pointer)
replay [] xs = some xs
replay (e ∷ es) xs = let rest = λ (ys : List Pointer). replay es ys in go_on (apply e xs) rest

-- Whether a thread still needs a node.
abbrev pub needs : Pointer → Popping → Bool
needs node outside = false
needs node (headed p) = p == node
needs node (linked p next) = p == node

-- A node that is not null, not in the stack and not needed by a thread in `llstack_pop`: what `mmm_alloc` returns
-- while each thread reserves an epoch.
abbrev pub IsOutside : Pointer → World → Type 0
IsOutside node w =
    (node ≢ null)
    × ((xs : List Pointer)
        → Chain w.stack.nodes w.stack.head xs
        → Away w.stack.nodes node w.stack.head xs)
    × ((i : ℕ) → needs node (w.pcs i) ≡ false)

-- Every round of a push has such a node at that time.
abbrev pub AreFresh : World → List Action → Type 0
AreFresh w [] = Unit
AreFresh w (pushes node item expected ∷ rest) =
    IsOutside node w × AreFresh (step w (pushes node item expected)).1 rest
AreFresh w (heads i p ∷ rest) = AreFresh (step w (heads i p)).1 rest
AreFresh w (nexts i ∷ rest) = AreFresh (step w (nexts i)).1 rest
AreFresh w (swaps i ∷ rest) = AreFresh (step w (swaps i)).1 rest
