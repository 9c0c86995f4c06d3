-- ===== src/Hihat/Position.antt =====
-- Where a probing loop of hihat.c has come to, and what the buckets that it has passed say: they stay
-- claimed for the same hash values whatever other threads do.
use hatrack.Prelude.{
  ℕ, zero, suc, ◌+◌, ◌-◌, ◌^◌, ◌<◌, ◌≡◌, ◌≢◌, refl, sym, ◌∙◌, arith, none, List, length,
}
use native.Mathlib.Nat.{mod-lt}
use hatrack.Common.{Hash, bucket_index}
use hatrack.Common.Sizes.{IsPowerOfTwo}
use hatrack.Refhat.{Bucket, next_slot, hit, unreserved, unreachable, probe_from}
use hatrack.Refhat.Probing.{hash_at, hash_at-outside, bucket_index-mod, next_slot-mod}
use hatrack.Refhat.Contents.{contents, contents-eq-none, probe_in, IsPlaced}
use hatrack.Refhat.Valid.{held_nowhere}

-- The loop for `h` stands at the bucket `b` with `n` rounds left; all that it has passed are claimed
-- for other hash values.
pub data Passed (fs : List Bucket) (h : Hash) : ℕ → ℕ → Type 0 where
  at_home : (n b : ℕ) → n ≡ length fs → b ≡ bucket_index h (length fs - 1) → Passed fs h n b
  onward :
      (n b n' b' : ℕ)
      → Passed fs h n b
      → n ≡ suc n'
      → b' ≡ next_slot b (length fs - 1)
      → hash_at fs b ≢ 0
      → hash_at fs b ≢ h
      → Passed fs h n' b'

-- What other threads do to the hash values: a bucket that is claimed stays so.
pub record Grows (fs fs' : List Bucket) : Type 0 where
  pub width : length fs' ≡ length fs
  pub keeps : (i : ℕ) → hash_at fs i ≢ 0 → hash_at fs' i ≡ hash_at fs i

pub Passed-Grows :
    {fs fs' : List Bucket} {h : Hash} {n b : ℕ} → Grows fs fs' → Passed fs h n b → Passed fs' h n b
Passed-Grows g (at_home n b e e') = at_home n b (e ∙ sym g.width) (e' ∙ rw g.width refl)
Passed-Grows g (onward n b n' b' p e e' nz ne) =
    onward n b n' b' (Passed-Grows g p) e (e' ∙ rw g.width refl) (λ z. nz (sym (g.keeps b nz) ∙ z))
      (λ z. ne (sym (g.keeps b nz) ∙ z))

-- The rest of the loop decides the whole probe.
pub Passed-probe_in :
    {fs : List Bucket} {h : Hash} {n b : ℕ}
    → Passed fs h n b
    → probe_in fs h ≡ probe_from fs (length fs - 1) h n b
unfolding probe_from
Passed-probe_in (at_home n b e e') = rw (e, e') refl
Passed-probe_in {fs} {h} (onward n b n' b' p e e' nz ne) =
    let here : b < length fs = hash_at-outside fs b nz in
    let before : probe_in fs h ≡ probe_from fs (length fs - 1) h (suc n') b =
      Passed-probe_in p ∙ rw e refl in
    before ∙ rw e' (ground (arith, here, nz, ne))

pub Passed-inside :
    {fs : List Bucket} {h : Hash} {n b : ℕ}
    → IsPowerOfTwo (length fs)
    → length fs < 2 ^ 64
    → 0 < length fs
    → Passed fs h n b
    → b < length fs
Passed-inside {fs} {h} p l pos (at_home n b e e') =
    rw (e', bucket_index-mod h (length fs) p) (mod-lt h pos)
Passed-inside {fs} p l pos (onward n b n' b' q e e' nz ne) =
    let here : b < length fs = hash_at-outside fs b nz in
    rw (e', next_slot-mod b (length fs) p here l) (mod-lt (b + 1) pos)

module _ {fs : List Bucket} {h : Hash} {n b : ℕ} (here : b < length fs)
    (passed : Passed fs h (suc n) b) where
  pub probe_in-unreserved : h ≢ 0 → hash_at fs b ≡ 0 → probe_in fs h ≡ unreserved b
  unfolding probe_from
  probe_in-unreserved nz z = Passed-probe_in passed ∙ ground (arith, z)

  pub Passed-next :
      hash_at fs b ≢ 0 → hash_at fs b ≢ h → Passed fs h n (next_slot b (length fs - 1))
  Passed-next nz ne = onward (suc n) b n _ passed refl refl nz ne

pub probe_in-full_turn :
    {fs : List Bucket} {h : Hash} {b : ℕ} → Passed fs h zero b → probe_in fs h ≡ unreachable
unfolding probe_from
probe_in-full_turn p = Passed-probe_in p

-- A hash value that its probe does not find is in no bucket.
pub contents-missing :
    (fs : List Bucket) (h : Hash)
    → IsPlaced fs
    → h ≢ 0
    → ((i : ℕ) → probe_in fs h ≢ hit i)
    → contents fs h ≡ none
contents-missing fs h placed nz away = contents-eq-none fs h (
    held_nowhere fs h (λ j e.
      let found : probe_in fs h ≡ hit j = rw e at (placed j (λ z. nz (sym e ∙ z))) in away j found))
