-- ===== src/Refhat/Valid.antt =====
-- The invariant of a `refhat_t`, and `refhat_get` against the table's contents.
use hatrack.Prelude.{
  ℕ, ◌+◌, ◌-◌, ◌^◌, ◌≤◌, ◌<◌, ◌≡◌, ◌≢◌, arith, ◌==◌, if◌then◌else◌, none, some, List, add64, length,
  to_nat, count_by, count_by-eq-zero, count_by-pos, ap, inl, inr, Bool-cases,
}
use hatrack.Common.{Hash, compute_table_threshold}
use hatrack.FiniteMap.{reply_of}
use hatrack.Common.Sizes.{IsPowerOfTwo, threshold_lem}
use hatrack.Refhat.{Bucket, empty_bucket, bucket_at, is_live, Refhat, probe, get}
use hatrack.Refhat.Probing.{hash_at}
use hatrack.Refhat.Contents.{
  holds, is_reserved, contents, contents-eq-none, contents-eq-some, probe_in, IsPlaced,
  IsPlaced-unique, count_by-holds-le,
}
use hatrack.Refhat.Placed.{IsArray, Outcome, present, absent, probe_in-Outcome}

-- The two counters count the reserved and the live buckets, the table is not full, every bucket can
-- be found by probing, and the epochs that have been given out lie below the next one.
pub record IsValid (t : Refhat) : Type 0 where
  pub width : length t.buckets ≡ t.last_slot + 1
  pub power : IsPowerOfTwo (length t.buckets)
  pub least : 16 ≤ length t.buckets
  pub most : length t.buckets ≤ 2 ^ 60
  pub quota : t.threshold ≡ compute_table_threshold (length t.buckets)
  pub used : t.used_count ≡ count_by is_reserved t.buckets
  pub items : t.item_count ≡ count_by is_live t.buckets
  pub room : t.used_count < t.threshold
  pub placed : IsPlaced t.buckets
  pub epochs : (i : ℕ) → (bucket_at t.buckets i).epoch < t.next_epoch
  pub clock : t.next_epoch < 2 ^ 64

pub probe-probe_in : {t : Refhat} (h : Hash) → IsValid t → probe t h ≡ probe_in t.buckets h
unfolding probe
probe-probe_in {t} h v =
    let rounds : add64 t.last_slot 1 ≡ length t.buckets = omega (arith, v.width, v.most) in
    let mask : t.last_slot ≡ length t.buckets - 1 = omega (arith, v.width) in cc (rounds, mask)

pub IsArray-of : {t : Refhat} → IsValid t → IsArray t.buckets
IsArray-of {t} v = record {
  power = v.power;
  word = omega (arith, v.most);
  room = omega (arith, v.used, v.room, v.quota, v.least, v.most, threshold_lem (length t.buckets));
}

pub Valid-Outcome : {t : Refhat} (h : Hash) → IsValid t → h ≢ 0 → Outcome t.buckets h
Valid-Outcome {t} h v nz = probe_in-Outcome t.buckets h (IsArray-of v) v.placed nz

module _ (bs : List Bucket) (h : Hash) where
  pub held_nowhere : ((j : ℕ) → hash_at bs j ≢ h) → count_by (holds h) bs ≡ 0
  held_nowhere away = count_by-eq-zero (holds h) bs empty_bucket (λ j l. ground (arith, away j))

  -- The only bucket that can hold a hash value is the one that is reserved for it.
  pub held_once :
      (i : ℕ)
      → IsPlaced bs
      → h ≢ 0
      → i < length bs
      → hash_at bs i ≡ h
      → count_by (holds h) bs ≡ to_nat (holds h (bucket_at bs i))
  held_once i placed nz l e = elim (Bool-cases (holds h (bucket_at bs i))) [
    | inl q ↦
        rw q (
          omega
            (arith, count_by-holds-le bs h placed, count_by-pos (holds h) bs i empty_bucket l q))
    | inr q ↦ rw q (
        count_by-eq-zero (holds h) bs empty_bucket (λ j lj. ground (
          arith,
          ap (λ x. holds h (bucket_at bs x)) {x = i} {y = j},
          IsPlaced-unique bs i j placed,
        )))
  ]

  pub contents-held :
      (i : ℕ)
      → IsPlaced bs
      → h ≢ 0
      → i < length bs
      → hash_at bs i ≡ h
      → contents bs h ≡ (if (bucket_at bs i).epoch == 0 then none else some (bucket_at bs i).item)
  contents-held i placed nz l e =
      let once = held_once i placed nz l e in
      ground
        (arith, contents-eq-none bs h, contents-eq-some bs h i (count_by-holds-le bs h placed) l)

-- In a valid table `refhat_get` at a hash value other than 0 returns what the table holds for it.
pub get-contents :
    {t : Refhat} (h : Hash) → IsValid t → h ≢ 0 → get t h ≡ some (reply_of (contents t.buckets h))
unfolding get
get-contents {t} h v nz = case (Valid-Outcome h v nz)
  where
    case : Outcome t.buckets h → get t h ≡ some (reply_of (contents t.buckets h))
    case (present i e l s) =
        ground (arith, probe-probe_in h v, e, contents-held t.buckets h i v.placed nz l s)
    case (absent i e l z away) =
        ground (
          arith,
          probe-probe_in h v,
          e,
          contents-eq-none t.buckets h (held_nowhere t.buckets h away),
        )
