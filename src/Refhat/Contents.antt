-- ===== src/Refhat/Contents.antt =====
-- The map that a table's buckets stand for, read off without probing: the item of a live bucket
-- with the hash value. Where probing finds every reserved bucket, there is at most one.
use hatrack.Prelude.{
  ℕ, zero, suc, ◌-◌, ◌≤◌, ◌<◌, ◌≡◌, ◌≢◌, refl, arith, Bool, true, false, not, ◌&&◌, if◌then◌else◌,
  Option, none, some, List, [], ◌∷◌, length, set, to_nat, count_by, count_by-pos, count_by-ge,
  count_by_unique, ap, sym, ◌∙◌,
}
use hatrack.Common.{Hash, Pointer, bucket_index, hashes_eq, bucket_unreserved}
use hatrack.Refhat.{
  Bucket, empty_bucket, bucket_at, is_live, Probe, hit, unreserved, unreachable, probe_from,
}
use hatrack.Refhat.Probing.{hash_at}

abbrev pub holds : Hash → Bucket → Bool
holds g b = is_live b && hashes_eq b.hv g

abbrev pub is_reserved : Bucket → Bool
is_reserved b = not (bucket_unreserved b.hv)

slot_of : Probe → ℕ
slot_of (hit i) = i
slot_of (unreserved i) = i
slot_of unreachable = 0

unfoldable pub contents : List Bucket → Hash → Option Pointer
contents [] g = none
contents (b ∷ bs) g = if holds g b then some b.item else contents bs g

pub contents-eq-none :
    (bs : List Bucket) (g : Hash) → count_by (holds g) bs ≡ 0 → contents bs g ≡ none
unfolding contents count_by
contents-eq-none [] g h = refl
contents-eq-none (b ∷ bs) g h = ground (arith, contents-eq-none bs g)

pub contents-eq-some :
    (bs : List Bucket) (g : Hash) (i : ℕ)
    → count_by (holds g) bs ≤ 1
    → i < length bs
    → holds g (bucket_at bs i) ≡ true
    → contents bs g ≡ some (bucket_at bs i).item
unfolding contents count_by
contents-eq-some [] g i h l e = absurd (omega arith)
contents-eq-some (b ∷ bs) g zero h l e = rw e
contents-eq-some (b ∷ bs) g (suc i) h l e =
    ground
      (arith, contents-eq-some bs g i, count_by-pos (holds g) bs i empty_bucket (omega arith) e)

-- A write where neither the old nor the new bucket holds the hash value.
pub contents-set_other :
    (bs : List Bucket) (g : Hash) (i : ℕ) (b : Bucket)
    → holds g (bucket_at bs i) ≡ false
    → holds g b ≡ false
    → contents (set bs i b) g ≡ contents bs g
unfolding contents
contents-set_other [] g i b e f = refl
contents-set_other (x ∷ bs) g zero b e f = rw (e, f) refl
contents-set_other (x ∷ bs) g (suc i) b e f = rw (contents-set_other bs g i b e f) refl

-- A write where no other bucket holds the hash value.
pub contents-set_self :
    (bs : List Bucket) (g : Hash) (i : ℕ) (b : Bucket)
    → i < length bs
    → count_by (holds g) bs ≡ to_nat (holds g (bucket_at bs i))
    → contents (set bs i b) g ≡ (if holds g b then some b.item else none)
unfolding contents count_by
contents-set_self [] g i b l h = absurd (omega arith)
contents-set_self (x ∷ bs) g zero b l h = rw (contents-eq-none bs g (omega arith)) refl
contents-set_self (x ∷ bs) g (suc i) b l h =
    let some_held = count_by-ge (holds g) bs i empty_bucket (omega arith) in
    ground (arith, contents-set_self bs g i b)

-- The probe of an array by itself, from the home bucket of the hash value and once around.
abbrev pub probe_in : List Bucket → Hash → Probe
probe_in bs h = probe_from bs (length bs - 1) h (length bs) (bucket_index h (length bs - 1))

-- A probe for a reserved bucket's hash value finds that bucket.
abbrev pub IsPlaced : List Bucket → Type 0
IsPlaced bs = (i : ℕ) → hash_at bs i ≢ 0 → probe_in bs (hash_at bs i) ≡ hit i

pub IsPlaced-unique :
    (bs : List Bucket) (i j : ℕ)
    → IsPlaced bs
    → hash_at bs i ≢ 0
    → hash_at bs i ≡ hash_at bs j
    → i ≡ j
unfolding slot_of
IsPlaced-unique bs i j placed h e =
    let same : probe_in bs (hash_at bs i) ≡ hit j = rw e (placed j (λ z. h (e ∙ z))) in
    ap slot_of (sym (placed i h) ∙ same)

pub count_by-holds-le : (bs : List Bucket) (g : Hash) → IsPlaced bs → count_by (holds g) bs ≤ 1
count_by-holds-le bs g placed =
    count_by_unique (holds g) bs empty_bucket
      (λ i j li lj hi hj. IsPlaced-unique bs i j placed (ground arith) (ground arith))
