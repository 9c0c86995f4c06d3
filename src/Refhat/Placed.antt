-- ===== src/Refhat/Placed.antt =====
-- Where a probe of an array with room stops, and the writes that keep every bucket findable.
use hatrack.Prelude.{
  ℕ, ◌+◌, ◌-◌, ◌%◌, ◌^◌, ◌<◌, ◌≡◌, ◌≢◌, refl, arith, ◌==◌, ==_iff, if◌then◌else◌, List, length, set,
  count_by, count_by_room, length-set, sym, ap, ◌∙◌, inl, inr, Bool-cases,
}
use native.Mathlib.Nat.{mod-lt, mod-eq_of_lt, add-mod-mod, add-mod_right}
use hatrack.Common.{Hash, bucket_index}
use hatrack.Common.Sizes.{IsPowerOfTwo}
use hatrack.Refhat.{Bucket, empty_bucket, Probe, hit, unreserved, unreachable}
use hatrack.Refhat.Probing.{
  hash_at, bucket_index-mod, next_slot-mod, bucket_at-set, probe_from-hit, probe_from-unreserved,
  probe_from_total, probe_from-set_same, probe_from-set_other, probe_from-set_self,
}
use hatrack.Refhat.Contents.{is_reserved, probe_in, IsPlaced}

-- What the array must be for the loop to work: the masks are remainders, and a bucket is free.
pub record IsArray (bs : List Bucket) : Type 0 where
  pub power : IsPowerOfTwo (length bs)
  pub word : length bs < 2 ^ 64
  pub room : count_by is_reserved bs < length bs

pub data Outcome (bs : List Bucket) (h : Hash) : Type 0 where
  present : (i : ℕ) → probe_in bs h ≡ hit i → i < length bs → hash_at bs i ≡ h → Outcome bs h
  absent :
      (i : ℕ)
      → probe_in bs h ≡ unreserved i
      → i < length bs
      → hash_at bs i ≡ 0
      → ((j : ℕ) → hash_at bs j ≢ h)
      → Outcome bs h

distance : (b i n : ℕ) → b < n → i < n → (b + (i + n - b) % n) % n ≡ i
distance b i n l m =
    add-mod-mod b (i + n - b) n
    ∙ ap (λ (t : ℕ). t % n) (omega arith)
    ∙ add-mod_right i n
    ∙ mod-eq_of_lt m

-- In an array whose size is a power of two below 2 ^ 64 and that has an unreserved bucket, the loop of
-- an operation stays inside the array and never reaches `__builtin_unreachable`.
pub probe_in_total : (bs : List Bucket) (h : Hash) → IsArray bs → probe_in bs h ≢ unreachable
probe_in_total bs h a =
    let (i, l, e) = count_by_room is_reserved bs empty_bucket a.room in
    let n = length bs in
    let start : bucket_index h (n - 1) < n =
      rw (bucket_index-mod h n a.power) (mod-lt h (omega arith)) in
    let b = bucket_index h (n - 1) in
    probe_from_total bs (n - 1) h (λ b l. next_slot-mod b n a.power l a.word) n b ((i + n - b) % n)
      start (mod-lt (i + n - b) (omega arith)) (rw (distance b i n start l) (ground arith))

pub probe_in-Outcome :
    (bs : List Bucket) (h : Hash) → IsArray bs → IsPlaced bs → h ≢ 0 → Outcome bs h
probe_in-Outcome bs h a placed nz = split (probe_in bs h) refl
  where
    split : (p : Probe) → probe_in bs h ≡ p → Outcome bs h
    split (hit i) e =
        let (l, same) = probe_from-hit bs (length bs - 1) h (length bs) _ e in present i e l same
    split (unreserved i) e =
        let (l, z) = probe_from-unreserved bs (length bs - 1) h (length bs) _ e in
        absent i e l z (λ j same.
          let found : probe_in bs h ≡ hit j = rw same at (placed j (λ z. nz (sym same ∙ z))) in cc)
    split unreachable e = absurd (probe_in_total bs h a e)

module _ (bs : List Bucket) (j : ℕ) (b : Bucket) (l : j < length bs) where
  pub hash_at-set : (i : ℕ) → hash_at (set bs j b) i ≡ (if j == i then b.hv else hash_at bs i)
  hash_at-set i = ground (arith, bucket_at-set bs j i b l)

module _ (bs : List Bucket) (j : ℕ) (b : Bucket) (l : j < length bs) (placed : IsPlaced bs) where
  pub IsPlaced-set_same : b.hv ≡ hash_at bs j → IsPlaced (set bs j b)
  IsPlaced-set_same e i h =
      let same : hash_at (set bs j b) i ≡ hash_at bs i =
        hash_at-set bs j b l i ∙ ground (arith, ap (hash_at bs) {x = j} {y = i}) in
      rw
        (
          same,
          length-set bs j b,
          probe_from-set_same bs (length bs - 1) (hash_at bs i) j b l e (length bs),
        )
        (placed i (λ z. h (same ∙ z)))

  pub IsPlaced-set_new :
      b.hv ≢ 0 → hash_at bs j ≡ 0 → probe_in bs b.hv ≡ unreserved j → IsPlaced (set bs j b)
  IsPlaced-set_new nz z e i h = elim (Bool-cases (j == i)) [
    | inl q ↦
        let ji : j ≡ i = (==_iff j i).0 q in
        let here : hash_at (set bs j b) i ≡ b.hv = hash_at-set bs j b l i ∙ rw q refl in
        rw (here, length-set bs j b, ← ji)
          (probe_from-set_self bs (length bs - 1) b.hv j b l refl (length bs) _ e)
    | inr q ↦
        let there : hash_at (set bs j b) i ≡ hash_at bs i = hash_at-set bs j b l i ∙ rw q refl in
        let reserved : hash_at bs i ≢ 0 = λ z. h (there ∙ z) in
        rw (there, length-set bs j b)
          (probe_from-set_other bs (length bs - 1) (hash_at bs i) j b l z reserved (length bs) _
            (placed i reserved))
  ]
