-- ===== src/Refhat/Probing.antt =====
-- The probing loop of refhat.c: where it stops, and what a write to a bucket changes.
use hatrack.Prelude.{
  ℕ, zero, suc, ◌+◌, ◌-◌, ◌%◌, ◌^◌, ◌<◌, ◌≡◌, ◌≢◌, refl, arith, List, length, set, length-set,
  get_or-set_self, get_or-set_ne, bit_and_mask, sym, ap, ◌∙◌, ◌==◌, ==_iff, if◌then◌else◌,
  Bool-cases, inl, inr, [], ◌∷◌,
}
use native.Mathlib.Nat.{mod-add-mod, mod-eq_of_lt}
use hatrack.Common.{Hash, bucket_index}
use hatrack.Common.Sizes.{IsPowerOfTwo}
use hatrack.Refhat.{
  Bucket, empty_bucket, bucket_at, next_slot, hit, unreserved, unreachable, probe_from,
}

abbrev pub hash_at : List Bucket → ℕ → Hash
hash_at bs i = (bucket_at bs i).hv

pub bucket_index-mod : (hv n : ℕ) → IsPowerOfTwo n → bucket_index hv (n - 1) ≡ hv % n
unfolding bucket_index
bucket_index-mod hv n (k, e) = rw e (bit_and_mask hv k)

pub next_slot-mod :
    (bix n : ℕ) → IsPowerOfTwo n → bix < n → n < 2 ^ 64 → next_slot bix (n - 1) ≡ (bix + 1) % n
next_slot-mod bix n p h l =
    bucket_index-mod ((bix + 1) % 2 ^ 64) n p ∙ ap (λ (t : ℕ). t % n) (mod-eq_of_lt (omega arith))

pub hash_at-outside : (bs : List Bucket) (i : ℕ) → hash_at bs i ≢ 0 → i < length bs
hash_at-outside [] i h = absurd (h refl)
hash_at-outside (b ∷ bs) zero h = omega arith
hash_at-outside (b ∷ bs) (suc i) h = omega (arith, hash_at-outside bs i h)

pub bucket_at-set :
    (bs : List Bucket) (j i : ℕ) (b : Bucket)
    → j < length bs
    → bucket_at (set bs j b) i ≡ (if j == i then b else bucket_at bs i)
bucket_at-set bs j i b l = elim (Bool-cases (j == i)) [
  | inl same ↦ rw (same, ← (==_iff j i).0 same) (get_or-set_self bs j b empty_bucket l)
  | inr other ↦ rw other (get_or-set_ne bs j i b empty_bucket (ground arith))
]

-- A probe stays within the array and stops for a reason.
module _ (bs : List Bucket) (last_slot : ℕ) (h : Hash) where
  pub probe_from-hit :
      (rounds bix : ℕ) {i : ℕ}
      → probe_from bs last_slot h rounds bix ≡ hit i
      → (i < length bs) × (hash_at bs i ≡ h)
  unfolding probe_from
  probe_from-hit zero bix e = cc
  probe_from-hit (suc rounds) bix {i} e =
      ground (arith, probe_from-hit rounds (next_slot bix last_slot) {i = i})

  pub probe_from-unreserved :
      (rounds bix : ℕ) {i : ℕ}
      → probe_from bs last_slot h rounds bix ≡ unreserved i
      → (i < length bs) × (hash_at bs i ≡ 0)
  unfolding probe_from
  probe_from-unreserved zero bix e = cc
  probe_from-unreserved (suc rounds) bix {i} e =
      ground (arith, probe_from-unreserved rounds (next_slot bix last_slot) {i = i})

  -- With an unreserved bucket within the rounds the loop comes to its end.
  pub probe_from_total :
      ((b : ℕ) → b < length bs → next_slot b last_slot ≡ (b + 1) % length bs)
      → (rounds bix d : ℕ) → bix < length bs
      → d < rounds
      → hash_at bs ((bix + d) % length bs) ≡ 0
      → probe_from bs last_slot h rounds bix ≢ unreachable
  unfolding probe_from
  probe_from_total turn zero bix d l r z = absurd (omega arith)
  probe_from_total turn (suc rounds) bix zero l r z =
      let here : (bix + 0) % length bs ≡ bix =
        mod-eq_of_lt {n = bix + 0} (omega arith) ∙ omega arith in
      let z' : hash_at bs bix ≡ 0 = rw here at z in ground arith
  probe_from_total turn (suc rounds) bix (suc d) l r z =
      let on = mod-add-mod (bix + 1) (length bs) d in
      let past : (bix + 1) % length bs + d ≡ next_slot bix last_slot + d = rw (turn bix l) refl in
      let there : (bix + suc d) % length bs ≡ (next_slot bix last_slot + d) % length bs =
        ap (λ (t : ℕ). t % length bs) (omega arith) ∙ sym on ∙ ap (λ (t : ℕ). t % length bs) past in
      let z' : hash_at bs ((next_slot bix last_slot + d) % length bs) ≡ 0 = rw there at z in
      ground (
        arith,
        turn bix,
        probe_from_total turn rounds (next_slot bix last_slot) d (omega (arith, turn bix l))
            (omega arith) z',
      )

module _ (bs : List Bucket) (last_slot : ℕ) (h : Hash) (j : ℕ) (b : Bucket)
    (l : j < length bs) where
  -- A write that keeps the hash value of its bucket changes no probe.
  pub probe_from-set_same :
      b.hv ≡ hash_at bs j
      → (rounds bix : ℕ)
      → probe_from (set bs j b) last_slot h rounds bix ≡ probe_from bs last_slot h rounds bix
  unfolding probe_from
  probe_from-set_same e zero bix = refl
  probe_from-set_same e (suc rounds) bix =
      rw
        (
          bucket_at-set bs j bix b l,
          length-set bs j b,
          probe_from-set_same e rounds (next_slot bix last_slot),
        )
        (ground arith)

  -- Reserving a bucket moves no bucket that a probe finds.
  pub probe_from-set_other :
      hash_at bs j ≡ 0
      → h ≢ 0
      → (rounds bix : ℕ) {i : ℕ} → probe_from bs last_slot h rounds bix ≡ hit i
      → probe_from (set bs j b) last_slot h rounds bix ≡ hit i
  unfolding probe_from
  probe_from-set_other z nz zero bix e = cc
  probe_from-set_other z nz (suc rounds) bix {i} e =
      rw (bucket_at-set bs j bix b l, length-set bs j b)
        (ground (arith, probe_from-set_other z nz rounds (next_slot bix last_slot) {i = i}))

  -- The bucket that is reserved for a hash value at the end of its probe is found by that probe.
  pub probe_from-set_self :
      b.hv ≡ h
      → (rounds bix : ℕ) → probe_from bs last_slot h rounds bix ≡ unreserved j
      → probe_from (set bs j b) last_slot h rounds bix ≡ hit j
  unfolding probe_from
  probe_from-set_self bh zero bix e = cc
  probe_from-set_self bh (suc rounds) bix e =
      rw (bucket_at-set bs j bix b l, length-set bs j b)
        (ground (arith, probe_from-set_self bh rounds (next_slot bix last_slot)))
