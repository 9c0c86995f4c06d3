-- ===== src/Hihat/Flat.antt =====
-- The store of hihat.c seen as the buckets of refhat.c: the flags are forgotten.
use hatrack.Prelude.{
  ℕ, zero, suc, ◌<◌, ◌≡◌, ◌≢◌, refl, sym, ap, ◌∙◌, arith, ◌==◌, ==_iff, if◌then◌else◌, none, some,
  List, [], ◌∷◌, length, set, get_or-set_self, get_or-set_ne, ◌⊎◌, inl, inr, Bool-cases,
}
use hatrack.Common.{Hash}
use hatrack.Refhat
use hatrack.Refhat.Probing.{hash_at}
use hatrack.Refhat.Contents.{contents, contents-set_other, probe_in, IsPlaced}
use hatrack.Refhat.Placed.{IsPlaced-set_same, IsPlaced-set_new}
use hatrack.Refhat.Valid.{held_once, contents-held}
use hatrack.Refhat.Write.{contents-write}
use hatrack.Hihat.{Record, Bucket, bucket_at, empty_bucket}

abbrev pub flat : Bucket → Refhat.Bucket
flat b = record { hv = b.hv; item = b.rec.item; epoch = b.rec.epoch }

abbrev pub flats : List Bucket → List Refhat.Bucket
flats [] = []
flats (b ∷ bs) = flat b ∷ flats bs

pub length-flats : (bs : List Bucket) → length (flats bs) ≡ length bs
length-flats [] = refl
length-flats (b ∷ bs) = ap suc (length-flats bs)

pub bucket_at-flats :
    (bs : List Bucket) (i : ℕ) → Refhat.bucket_at (flats bs) i ≡ flat (bucket_at bs i)
bucket_at-flats [] i = refl
bucket_at-flats (b ∷ bs) zero = refl
bucket_at-flats (b ∷ bs) (suc i) = bucket_at-flats bs i

pub flats-set :
    (bs : List Bucket) (i : ℕ) (b : Bucket) → flats (set bs i b) ≡ set (flats bs) i (flat b)
flats-set [] i b = refl
flats-set (x ∷ bs) zero b = refl
flats-set (x ∷ bs) (suc i) b = ap (λ r. flat x ∷ r) (flats-set bs i b)

pub hash_at-flats : (bs : List Bucket) (i : ℕ) → hash_at (flats bs) i ≡ (bucket_at bs i).hv
hash_at-flats bs i = ap (λ b. b.hv) (bucket_at-flats bs i)

pub bucket_at-set :
    (bs : List Bucket) (j i : ℕ) (b : Bucket)
    → j < length bs
    → bucket_at (set bs j b) i ≡ (if j == i then b else bucket_at bs i)
bucket_at-set bs j i b l = elim (Bool-cases (j == i)) [
  | inl same ↦ rw (same, ← (==_iff j i).0 same) (get_or-set_self bs j b empty_bucket l)
  | inr other ↦ rw other (get_or-set_ne bs j i b empty_bucket (ground arith))
]

-- In or out of bounds.
pub bucket_at-set_any :
    (bs : List Bucket) (j i : ℕ) (b : Bucket)
    → (bucket_at (set bs j b) i ≡ (if j == i then b else bucket_at bs i))
      ⊎ (bucket_at (set bs j b) i ≡ bucket_at bs i)
bucket_at-set_any [] j i b = inr refl
bucket_at-set_any (x ∷ bs) zero zero b = inl refl
bucket_at-set_any (x ∷ bs) zero (suc i) b = inr refl
bucket_at-set_any (x ∷ bs) (suc j) zero b = inr refl
bucket_at-set_any (x ∷ bs) (suc j) (suc i) b = ground (arith, bucket_at-set_any bs j i b)

pub bucket_at-set_self :
    (bs : List Bucket) (j : ℕ) (b : Bucket) → j < length bs → bucket_at (set bs j b) j ≡ b
bucket_at-set_self bs j b l = get_or-set_self bs j b empty_bucket l

-- A write of what stands there already.
set-bucket_at : (fs : List Refhat.Bucket) (i : ℕ) → set fs i (Refhat.bucket_at fs i) ≡ fs
set-bucket_at [] i = refl
set-bucket_at (x ∷ fs) zero = refl
set-bucket_at (x ∷ fs) (suc i) = ap (λ r. x ∷ r) (set-bucket_at fs i)

pub set-bucket_at_self : (bs : List Bucket) (i : ℕ) → set bs i (bucket_at bs i) ≡ bs
set-bucket_at_self [] i = refl
set-bucket_at_self (x ∷ bs) zero = refl
set-bucket_at_self (x ∷ bs) (suc i) = ap (λ r. x ∷ r) (set-bucket_at_self bs i)

-- Setting flags is not seen.
pub flats-set_flags :
    (bs : List Bucket) (i : ℕ) (b : Bucket)
    → flat b ≡ flat (bucket_at bs i)
    → flats (set bs i b) ≡ flats bs
flats-set_flags bs i b e =
    flats-set bs i b
    ∙ ap (set (flats bs) i) (e ∙ sym (bucket_at-flats bs i))
    ∙ set-bucket_at (flats bs) i

-- The two writes that are seen: a claim of a bucket, and a record in a claimed bucket.
module _ (bs : List Bucket) (i : ℕ) (l : i < length bs) (placed : IsPlaced (flats bs)) where
  inside : i < length (flats bs)
  inside = omega (arith, length-flats bs)

  pub claim-IsPlaced :
      (h : Hash)
      → h ≢ 0
      → hash_at (flats bs) i ≡ 0
      → probe_in (flats bs) h ≡ Refhat.unreserved i
      → IsPlaced (flats (set bs i (record (bucket_at bs i) { hv = h })))
  claim-IsPlaced h nz z e = rw (flats-set bs i (record (bucket_at bs i) { hv = h })) (
      IsPlaced-set_new (flats bs) i (flat (record (bucket_at bs i) { hv = h })) inside placed nz z
        e)

  pub record-IsPlaced :
      (r : Record) → IsPlaced (flats (set bs i (record (bucket_at bs i) { rec = r })))
  record-IsPlaced r = rw (flats-set bs i (record (bucket_at bs i) { rec = r })) (
      IsPlaced-set_same (flats bs) i (flat (record (bucket_at bs i) { rec = r })) inside placed
        (sym (hash_at-flats bs i)))

  -- What a bucket that is claimed for `h` holds.
  pub contents-at :
      (h : Hash)
      → h ≢ 0
      → hash_at (flats bs) i ≡ h
      → contents (flats bs) h
        ≡ (if (bucket_at bs i).rec.epoch == 0 then none else some (bucket_at bs i).rec.item)
  contents-at h nz e =
      contents-held (flats bs) h i placed nz inside e ∙ rw (bucket_at-flats bs i) refl

  pub contents-record :
      (h : Hash) (r : Record)
      → h ≢ 0
      → hash_at (flats bs) i ≡ h
      → (g : Hash)
      → contents (flats (set bs i (record (bucket_at bs i) { rec = r }))) g
        ≡ (if g == h then (if r.epoch == 0 then none else some r.item) else contents (flats bs) g)
  contents-record h r nz e g =
      let b : Bucket = record (bucket_at bs i) { rec = r } in
      let same : (flat b).hv ≡ h = sym (hash_at-flats bs i) ∙ e in
      ap (λ fs. contents fs g) (flats-set bs i b)
      ∙ contents-write (flats bs) h i (flat b) inside same nz
          (held_once (flats bs) h i placed nz inside e) (λ k ne. ground arith) g
      ∙ ground (arith, same)

  -- A claim of a bucket that holds nothing is not seen in the contents.
  pub contents-claim :
      (h : Hash)
      → hash_at (flats bs) i ≡ 0
      → (bucket_at bs i).rec.epoch ≡ 0
      → (g : Hash)
      → contents (flats (set bs i (record (bucket_at bs i) { hv = h }))) g ≡ contents (flats bs) g
  contents-claim h z blank g =
      let b : Bucket = record (bucket_at bs i) { hv = h } in
      ap (λ fs. contents fs g) (flats-set bs i b)
      ∙ contents-set_other (flats bs) g i (flat b)
          (rw (bucket_at-flats bs i) (ground (arith, blank))) (ground (arith, blank))
