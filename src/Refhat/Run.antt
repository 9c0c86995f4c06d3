-- ===== src/Refhat/Run.antt =====
-- A client's calls in order: refhat.c against a map from hash values to items.
use hatrack.Prelude.{
  ℕ, suc, ◌+◌, ◌^◌, ◌≤◌, ◌<◌, ◌≡◌, ◌≢◌, refl, arith, Bool, Option, none, some, List, [], ◌∷◌,
  length, replicate, length-replicate, count_by-replicate, two_pow_mono, sym, ◌∙◌,
}
use hatrack.FiniteMap.{
  Answer, Map, NonZero, Op, added, hash_of, op_add, op_get, op_put, op_remove, op_replace, reply,
  run_spec, spec, update,
}
use hatrack.Common.{Reply, Hash, Pointer}
use hatrack.Common.Sizes.{threshold_lem}
use hatrack.Refhat.{
  Refhat, empty_bucket, is_live, ready, table_of, init_size, get, put, replace, add, remove,
}
use hatrack.Refhat.Contents.{is_reserved, holds, contents, contents-eq-none}
use hatrack.Refhat.Valid.{IsValid, get-contents}
use hatrack.Refhat.Write.{Writes}
use hatrack.Refhat.Migrate.{replicate-IsTarget}
use hatrack.Refhat.Operations.{put-Writes, add-Writes, replace-Writes, remove-Writes}

abbrev pub Step : Type 0
Step = Option (Answer × Refhat)

abbrev answered : Option (Reply × Refhat) → Step
answered none = none
answered (some (r, t)) = some (reply r, t)

abbrev answered_add : Option (Bool × Refhat) → Step
answered_add none = none
answered_add (some (b, t)) = some (added b, t)

abbrev answered_get : Refhat → Option Reply → Step
answered_get t none = none
answered_get t (some r) = some (reply r, t)

-- One call of the table. `refhat_put` and `refhat_add` may call themselves once.
unfoldable pub call : Refhat → Op → Step
call t (op_get h) = answered_get t (get t h)
call t (op_put h item) = answered (put 2 t h item)
call t (op_replace h item) = answered (replace t h item)
call t (op_add h item) = answered_add (add 2 t h item)
call t (op_remove h) = answered (remove t h)

unfoldable pub run : Refhat → List Op → Option (List Answer)
run t [] = some []
run t (op ∷ ops) = elim (call t op) [
  | none ↦ none
  | some (a, t') ↦ elim (run t' ops) [ none ↦ none | some rest ↦ some (a ∷ rest) ]
]

-- A table that stands for a map, with what `n` more calls may need.
pub record Stands (n : ℕ) (m : Map) (t : Refhat) : Type 0 where
  pub valid : IsValid t
  pub reads : (g : Hash) → contents t.buckets g ≡ m g
  pub buckets : length t.buckets ≤ 2 ^ 56
  pub items : t.item_count + n < 2 ^ 52
  pub epochs : t.next_epoch + n < 2 ^ 63

Writes-Stands :
    {n : ℕ} {m : Map} {t t' : Refhat} (h : Hash) (v : Option Pointer)
    → Stands (suc n) m t
    → Writes t h v t'
    → Stands n (update m h v) t'
Writes-Stands h v s w = record {
  valid = w.valid;
  reads = λ g. ground (arith, w.reads g, s.reads g);
  buckets = omega (arith, w.grown, s.buckets, s.items);
  items = omega (arith, w.more, s.items);
  epochs = omega (arith, w.later, s.epochs);
}

-- One call answers as the map does, and leaves a table that stands for the new map.
pub call-Stands :
    {n : ℕ} {m : Map} {t : Refhat} (op : Op)
    → Stands (suc n) m t
    → hash_of op ≢ 0
    → (t' : Refhat) × (call t op ≡ some ((spec m op).0, t')) × Stands n (spec m op).1 t'
unfolding call spec
call-Stands {t = t} (op_get h) s nz = (
  t,
  rw (get-contents h s.valid nz, s.reads h) refl,
  record {
    valid = s.valid;
    reads = s.reads;
    buckets = s.buckets;
    items = omega (arith, s.items);
    epochs = omega (arith, s.epochs);
  },
)
call-Stands (op_put h item) s nz =
    let (t', e, w) =
      put-Writes s.valid h nz item (omega (arith, s.epochs)) (omega (arith, s.buckets)) 0 in
    (t', rw (e, s.reads h) refl, Writes-Stands h (some item) s w)
call-Stands (op_replace h item) s nz =
    let (t', e, w) = replace-Writes s.valid h nz item in
    (t', rw (e, s.reads h) refl, rw (s.reads h) at (Writes-Stands h _ s w))
call-Stands (op_add h item) s nz =
    let (t', e, w) =
      add-Writes s.valid h nz item (omega (arith, s.epochs)) (omega (arith, s.buckets)) 0 in
    (t', rw (e, s.reads h) refl, rw (s.reads h) at (Writes-Stands h _ s w))
call-Stands (op_remove h) s nz =
    let (t', e, w) = remove-Writes s.valid h nz in
    (t', rw (e, s.reads h) refl, Writes-Stands h none s w)

pub run-Stands :
    (ops : List Op) {m : Map} {t : Refhat}
    → Stands (length ops) m t
    → NonZero ops
    → run t ops ≡ some (run_spec m ops)
unfolding run run_spec
run-Stands [] s nz = refl
run-Stands (op ∷ ops) s nz =
    let (t', e, s') = call-Stands op s nz.0 in ground (arith, e, run-Stands ops s' nz.1)

pub table_of-IsValid : (k : ℕ) → 4 ≤ k → k ≤ 30 → IsValid (table_of (2 ^ k))
table_of-IsValid k h l =
    let low : 16 ≤ 2 ^ k = two_pow_mono 4 k h in
    let high : 2 ^ k ≤ 2 ^ 30 = two_pow_mono k 30 l in
    let blank = replicate-IsTarget (2 ^ k) 1 (k, refl) (omega arith) (omega arith) in
    let width = length-replicate (2 ^ k) empty_bucket in
    record {
      width = width ∙ omega arith;
      power = (k, width);
      least = rw width low;
      most = rw width (omega arith);
      quota = rw width refl;
      used = sym (count_by-replicate is_reserved (2 ^ k) empty_bucket refl);
      items = sym (count_by-replicate is_live (2 ^ k) empty_bucket refl);
      room = omega (arith, threshold_lem (2 ^ k) (omega arith) (omega arith));
      placed = blank.placed;
      epochs = blank.epochs;
      clock = omega arith;
    }

-- `refhat_init_size` at a logarithm from 4 to 30 makes a valid table that holds nothing.
pub init_size-IsValid :
    (k : ℕ)
    → 4 ≤ k
    → k ≤ 30
    → (t : Refhat) × (init_size k ≡ ready t)
      × IsValid t
      × ((g : Hash) → contents t.buckets g ≡ none)
unfolding init_size
init_size-IsValid k h l = (
  table_of (2 ^ k),
  ground arith,
  table_of-IsValid k h l,
  λ g.
      contents-eq-none (replicate (2 ^ k) empty_bucket) g
        (count_by-replicate (holds g) (2 ^ k) empty_bucket refl),
)

-- From a fresh table any sequence of fewer than 2 ^ 50 calls, none of them at the hash value 0,
-- returns, and answers each call as a finite map that starts empty does.
pub run_refines :
    (k : ℕ) (ops : List Op)
    → 4 ≤ k
    → k ≤ 30
    → length ops < 2 ^ 50
    → NonZero ops
    → run (table_of (2 ^ k)) ops ≡ some (run_spec (λ g. none) ops)
run_refines k ops h l few nz = run-Stands ops fresh nz
  where
    fresh : Stands (length ops) (λ g. none) (table_of (2 ^ k))
    fresh = record {
      valid = table_of-IsValid k h l;
      reads = λ g.
          contents-eq-none (replicate (2 ^ k) empty_bucket) g
            (count_by-replicate (holds g) (2 ^ k) empty_bucket refl);
      buckets = rw (length-replicate (2 ^ k) empty_bucket) (omega (arith, two_pow_mono k 30 l));
      items = omega arith;
      epochs = omega arith;
    }
