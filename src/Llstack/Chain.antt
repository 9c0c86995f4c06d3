-- ===== src/Llstack/Chain.antt =====
-- The list of items that a stack's nodes stand for.
use hatrack.Prelude.{◌≡◌, ◌≢◌, arith, ◌==◌, false, List, [], ◌∷◌}
use hatrack.Common.{Pointer, null}
use hatrack.Llstack.{Node, Llstack, write_node}

-- The nodes from an address on hold the items.
abbrev pub Chain : (Pointer → Node) → Pointer → List Pointer → Type 0
Chain nodes p [] = p ≡ null
Chain nodes p (x ∷ xs) = (p ≢ null) × ((nodes p).item ≡ x) × Chain nodes (nodes p).next xs

-- None of these nodes has the address `q`.
abbrev pub Away : (Pointer → Node) → Pointer → Pointer → List Pointer → Type 0
Away nodes q p [] = Unit
Away nodes q p (x ∷ xs) = (p ≢ q) × Away nodes q (nodes p).next xs

-- A write to a node elsewhere changes nothing.
pub Chain-write :
    (self : Llstack) (q : Pointer) (value : Node) (p : Pointer) (xs : List Pointer)
    → Away self.nodes q p xs
    → Chain self.nodes p xs
    → Chain (write_node self q value).nodes p xs
Chain-write self q value p [] a c = c
Chain-write self q value p (x ∷ xs) a c =
    let other : p == q ≡ false = ground (arith, a.0) in
    rw other (c.0, c.1, Chain-write self q value (self.nodes p).next xs a.1 c.2)
