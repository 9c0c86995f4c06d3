-- ===== src/Hihat/Copying/Written.antt =====
-- hihat.c: the hash values whose bucket in the new store has been written, and what this says of the new
-- store's contents.
use hatrack.Prelude.{
  fun_ext, ℕ, suc, ◌<◌, ◌≡◌, ◌≢◌, sym, ap, ◌∙◌, arith, Bool, false, ◌==◌, ==_iff, some, List, [],
  ◌∷◌, length, Bool-cases, Option-cases, inl, inr,
}
use hatrack.Common.{Hash, Pointer}
use hatrack.Refhat
use hatrack.Refhat.Probing.{hash_at}
use hatrack.Refhat.Contents.{contents, probe_in, IsPlaced}
use hatrack.Hihat.{empty_record, same_record, Bucket, bucket_at}
use hatrack.Hihat.Flat.{flats, length-flats, bucket_at-flats, contents-at}
use hatrack.Hihat.Position.{Grows}

abbrev pub is_empty_at : List Bucket → ℕ → Bool
is_empty_at bs k = same_record (bucket_at bs k).rec empty_record

-- A bucket is there for the hash value, and its record has been written.
abbrev pub IsWritten : List Bucket → Hash → Type 0
IsWritten bs h = (k : ℕ) × (k < length bs) × (hash_at (flats bs) k ≡ h) × (is_empty_at bs k ≡ false)

-- What the steps of all threads do: no bucket is let go, and no written record is cleared.
pub record Fills (bs bs' : List Bucket) : Type 0 where
  pub grows : Grows (flats bs) (flats bs')
  pub full : (k : ℕ) → is_empty_at bs k ≡ false → is_empty_at bs' k ≡ false

pub IsWritten-Fills :
    (bs bs' : List Bucket) (h : Hash) → h ≢ 0 → Fills bs bs' → IsWritten bs h → IsWritten bs' h
IsWritten-Fills bs bs' h nz f (k, l, e, w) =
    let wide = f.grows.width in
    (
      k,
      omega (arith, l, wide, length-flats bs, length-flats bs'),
      f.grows.keeps k (λ z. nz (sym e ∙ z)) ∙ e,
      f.full k w,
    )

-- The probe of the new store ends there.
pub IsWritten-hit :
    (bs : List Bucket) (h : Hash)
    → IsPlaced (flats bs)
    → h ≢ 0
    → IsWritten bs h
    → (k : ℕ) × (probe_in (flats bs) h ≡ Refhat.hit k)
IsWritten-hit bs h placed nz (k, l, e, w) =
    (k, ap (probe_in (flats bs)) (sym e) ∙ placed k (λ z. nz (sym e ∙ z)))

-- An item of the contents is in a bucket.
pub contents-index :
    (fs : List Refhat.Bucket) (g : Hash) (v : Pointer)
    → contents fs g ≡ some v
    → (j : ℕ) × (j < length fs) × (hash_at fs j ≡ g) × ((Refhat.bucket_at fs j).epoch ≢ 0)
unfolding contents
contents-index [] g v e = ground (arith, e)
contents-index (b ∷ fs) g v e = elim (Bool-cases (b.epoch == 0)) [
  | inl gone ↦
      let (j, l, e', live) = contents-index fs g v (ground (arith, e, gone)) in
      (suc j, omega (arith, l), e', live)
  | inr live ↦ elim (Bool-cases (b.hv == g)) [
    | inl same ↦ (0, omega arith, (==_iff _ _).0 same, ground (arith, live))
    | inr other ↦
        let (j, l, e', live) = contents-index fs g v (ground (arith, e, other)) in
        (suc j, omega (arith, l), e', live)
  ]
]

-- The contents of the old store, while the new store is filled.
pub record IsPart (old new : List Bucket) : Type 0 where
  pub lively : (k : ℕ) → is_empty_at new k ≡ false → (bucket_at new k).rec.epoch ≢ 0
  pub among :
      (g : Hash) (v : Pointer) → contents (flats new) g ≡ some v → contents (flats old) g ≡ some v

-- The hash values of the old store's items are written.
abbrev pub AllWritten : List Bucket → List Bucket → Type 0
AllWritten old new =
    (j : ℕ) → j < length old → (bucket_at old j).rec.epoch ≢ 0 → IsWritten new (bucket_at old j).hv

-- When all are written, the new store holds what the old one does.
pub AllWritten-contents :
    (old new : List Bucket)
    → IsPlaced (flats new)
    → ((j : ℕ) → (bucket_at old j).hv ≡ 0 → (bucket_at old j).rec.epoch ≡ 0)
    → IsPart old new
    → AllWritten old new
    → contents (flats new) ≡ contents (flats old)
AllWritten-contents old new placed blank part all = fun_ext (λ g.
    elim (Option-cases (contents (flats old) g)) [
      | inl gone ↦ elim (Option-cases (contents (flats new) g)) [
        | inl gone' ↦ gone' ∙ sym gone
        | inr (v, there) ↦ ground (arith, part.among g v there, gone)
      ]
      | inr (v, there) ↦
          let (j, l, e, live) = contents-index (flats old) g v there in
          let at_j = bucket_at-flats old j in
          let live_j : (bucket_at old j).rec.epoch ≢ 0 = λ z. live (ap (λ b. b.epoch) at_j ∙ z) in
          let hv_j : (bucket_at old j).hv ≡ g = sym (ap (λ b. b.hv) at_j) ∙ e in
          let nz : g ≢ 0 = λ z. live_j (blank j (hv_j ∙ z)) in
          let (k, lk, ek, w) = all j (omega (arith, l, length-flats old)) live_j in
          let held = contents-at new k lk placed g nz (ek ∙ hv_j) in
          let epoch = part.lively k w in
          let found : contents (flats new) g ≡ some (bucket_at new k).rec.item =
            ground (arith, held, epoch) in
          found ∙ sym (part.among g _ found)
    ])
