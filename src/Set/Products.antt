-- ===== src/Set/Products.antt =====
-- What `hatrack_set_difference` and `hatrack_set_intersection` put into the new set.
use hatrack.Prelude.{Bool, not, ◌&&◌, List, [], ◌∷◌}
use hatrack.Set.{SetView, has, exceeds, Call}

-- The calls for each element of a view, in its order.
abbrev pub calls_for : (SetView → List Call → List Call) → List SetView → List Call
calls_for f [] = []
calls_for f (x ∷ xs) = f x (calls_for f xs)

-- Whether an element is in `ys`; whether it is not, and is smaller than an element of it.
abbrev pub in_both : List SetView → SetView → Bool
in_both ys x = has x.hv ys

abbrev pub is_kept : List SetView → SetView → Bool
is_kept ys x = not (has x.hv ys) && exceeds x.hv ys
