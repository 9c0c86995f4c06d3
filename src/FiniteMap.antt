-- ===== src/FiniteMap.antt =====
-- The specification that the hash tables share: a map from hash values to items, and the calls.
use hatrack.Prelude.{
  fun_ext, ==_iff, inl, inr, Bool-cases, refl, ◌≡◌, ◌≢◌, Bool, true, false, ◌==◌, if◌then◌else◌,
  Option, none, some, or_else, List, [], ◌∷◌,
}
use hatrack.Common.{Hash, Pointer, Reply, not_found, found_item}

-- What a lookup returns: `NULL` with `*found` cleared, or the item with `*found` set.
abbrev pub reply_of : Option Pointer → Reply
reply_of none = not_found
reply_of (some item) = found_item item

abbrev pub is_none {ℓ} : {A : Type ℓ} → Option A → Bool
is_none none = true
is_none (some a) = false

pub data Op : Type 0 where
  op_get : Hash → Op
  op_put : Hash → Pointer → Op
  op_replace : Hash → Pointer → Op
  op_add : Hash → Pointer → Op
  op_remove : Hash → Op

-- What a call returns: an item and `found`, or the `bool` of `refhat_add`.
pub data Answer : Type 0 where
  reply : Reply → Answer
  added : Bool → Answer

-- The specification: a finite map.
abbrev pub Map : Type 0
Map = Hash → Option Pointer

abbrev pub update : Map → Hash → Option Pointer → Map
update m h v g = if g == h then v else m g

unfoldable pub spec : Map → Op → Answer × Map
spec m (op_get h) = (reply (reply_of (m h)), m)
spec m (op_put h item) = (reply (reply_of (m h)), update m h (some item))
spec m (op_replace h item) =
    (reply (reply_of (m h)), update m h (if is_none (m h) then none else some item))
spec m (op_add h item) = (added (is_none (m h)), update m h (or_else (m h) (some item)))
spec m (op_remove h) = (reply (reply_of (m h)), update m h none)

unfoldable pub run_spec : Map → List Op → List Answer
unfolding spec
run_spec m [] = []
run_spec m (op ∷ ops) = let (a, m') = spec m op in a ∷ run_spec m' ops

abbrev pub hash_of : Op → Hash
hash_of (op_get h) = h
hash_of (op_put h item) = h
hash_of (op_replace h item) = h
hash_of (op_add h item) = h
hash_of (op_remove h) = h

-- No call is made with the hash value 0, which marks an unreserved bucket.
abbrev pub NonZero : List Op → Type 0
NonZero [] = Unit
NonZero (op ∷ ops) = (hash_of op ≢ 0) × NonZero ops

-- An update that changes nothing.
pub update_same : (m : Map) (h : Hash) (v : Option Pointer) → m h ≡ v → update m h v ≡ m
update_same m h v e = fun_ext (λ g. elim (Bool-cases (g == h)) [
  | inl same ↦ let q : g ≡ h = (==_iff g h).0 same in rw (same, q, e) refl
  | inr other ↦ rw other refl
])
