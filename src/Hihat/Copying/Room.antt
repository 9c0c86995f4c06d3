-- ===== src/Hihat/Copying/Room.antt =====
-- hihat.c: until it is published, the new store has room for every bucket that is still to be moved, so that
-- no probe of it goes round.
use hatrack.Prelude.{
  ℕ, zero, suc, ◌-◌, ◌≡◌, ◌≢◌, refl, sym, ap, ◌∙◌, arith, false, ◌==◌, if◌then◌else◌, List, [], ◌∷◌,
  length, get_or, count_by,
}
use hatrack.Common.{Hash, new_size}
use hatrack.Refhat
use hatrack.Refhat.Probing.{hash_at}
use hatrack.Refhat.Contents.{probe_in, is_reserved, IsPlaced-unique}
use hatrack.Refhat.Placed.{probe_in_total}
use hatrack.Hihat.{Bucket, bucket_at, Store}
use hatrack.Hihat.Flat.{flats, length-flats}
use hatrack.Hihat.Invariant.{IsStore}
use hatrack.Hihat.Copying.Pigeon.{is_nonzero, AreDistinct, AreAmong, count-among}
use hatrack.Hihat.Copying.Phase.{IsStart, is_pending, AreClaims}

-- The hash values of the new store, and those of the old one that are to be moved.
abbrev hashes : List Bucket → List ℕ
hashes [] = []
hashes (b ∷ bs) = b.hv ∷ hashes bs

abbrev pending_hash : Bucket → ℕ
pending_hash b = if is_pending b then b.hv else 0

abbrev pending_hashes : List Bucket → List ℕ
pending_hashes [] = []
pending_hashes (b ∷ bs) = pending_hash b ∷ pending_hashes bs

count-hashes :
    (bs : List Bucket) → count_by is_nonzero (hashes bs) ≡ count_by is_reserved (flats bs)
unfolding count_by
count-hashes [] = refl
count-hashes (b ∷ bs) = rw (count-hashes bs) refl

count-pending_hashes :
    (bs : List Bucket) → count_by is_nonzero (pending_hashes bs) ≡ count_by is_pending bs
unfolding count_by
count-pending_hashes [] = refl
count-pending_hashes (b ∷ bs) = ground (arith, count-pending_hashes bs)

hash_at-hashes : (bs : List Bucket) (i : ℕ) → get_or (hashes bs) i 0 ≡ hash_at (flats bs) i
hash_at-hashes [] i = refl
hash_at-hashes (b ∷ bs) zero = refl
hash_at-hashes (b ∷ bs) (suc i) = hash_at-hashes bs i

pending_hash-at :
    (bs : List Bucket) (i : ℕ) → get_or (pending_hashes bs) i 0 ≡ pending_hash (bucket_at bs i)
pending_hash-at [] i = refl
pending_hash-at (b ∷ bs) zero = refl
pending_hash-at (b ∷ bs) (suc i) = pending_hash-at bs i

length-pending_hashes : (bs : List Bucket) → length (pending_hashes bs) ≡ length bs
length-pending_hashes [] = refl
length-pending_hashes (b ∷ bs) = ap suc (length-pending_hashes bs)

module _ (start : List Bucket) (new_used : ℕ) (from : IsStart start new_used) (new : Store)
    (v : IsStore new) (claims : AreClaims start new_used new.buckets) where
  hashes-AreDistinct : AreDistinct (hashes new.buckets)
  hashes-AreDistinct i j nz e =
      let at_i = hash_at-hashes new.buckets i in
      let at_j = hash_at-hashes new.buckets j in
      IsPlaced-unique (flats new.buckets) i j v.placed (λ z. nz (at_i ∙ z)) (sym at_i ∙ e ∙ at_j)

  hashes-AreAmong : AreAmong (hashes new.buckets) (pending_hashes start)
  hashes-AreAmong i nz =
      let at_i = hash_at-hashes new.buckets i in
      let (j, l, still, e) = claims i (λ z. nz (at_i ∙ z)) in
      let reserved : ((bucket_at start j).hv == 0) ≡ false = ground (arith, nz, at_i, e) in
      let pending : pending_hash (bucket_at start j) ≡ (bucket_at start j).hv =
        rw (still, reserved) refl in
      (
        j,
        omega (arith, l, length-pending_hashes start),
        pending_hash-at start j ∙ pending ∙ e ∙ sym at_i,
      )

  pub probe_in-ends :
      (hv : Hash)
      → length new.buckets ≡ new_size (length start - 1) new_used
      → probe_in (flats new.buckets) hv ≢ Refhat.unreachable
  probe_in-ends hv e =
      let few =
        count-among (hashes new.buckets) (pending_hashes start) hashes-AreDistinct
          hashes-AreAmong in
      let wide = length-flats new.buckets in
      let counts = count-hashes new.buckets in
      let counts' = count-pending_hashes start in
      probe_in_total (flats new.buckets) hv (record {
        power = rw wide v.power;
        word = rw wide v.word;
        room = omega (arith, few, wide, counts, counts', from.room, e);
      })
