-- ===== src/Refhat/Update.antt =====
-- The four writes of refhat.c, each at the bucket where the probe of its hash value stops.
use hatrack.Prelude.{
  ℕ, ◌+◌, ◌^◌, ◌≤◌, ◌<◌, ◌≡◌, ◌≢◌, refl, arith, none, some, length, add64, sub64, set, length-set,
  ◌==◌, if◌then◌else◌, count_by-pos, count_by_mono, ◌∙◌,
}
use hatrack.Common.{Hash, Pointer}
use hatrack.Common.Sizes.{threshold_lem}
use hatrack.Refhat.{
  Bucket, empty_bucket, bucket_at, is_live, Refhat, unreserved, overwrite, revive, claim, discard,
}
use hatrack.Refhat.Probing.{hash_at}
use hatrack.Refhat.Contents.{is_reserved, contents, probe_in}
use hatrack.Refhat.Placed.{IsPlaced-set_same, IsPlaced-set_new}
use hatrack.Refhat.Valid.{IsValid, held_once, held_nowhere}
use hatrack.Refhat.Write.{held, contents-write, write-IsValid, Writes}

module _ {t : Refhat} (v : IsValid t) where
  pub items-le-used : t.item_count ≤ t.used_count
  items-le-used =
      omega
        (arith, v.items, v.used, count_by_mono is_live is_reserved t.buckets (λ b h. ground arith))

  pub used-lt : t.used_count < 2 ^ 60
  used-lt = omega (arith, v.room, v.quota, v.most, v.least, threshold_lem (length t.buckets))

module _ {t : Refhat} (v : IsValid t) (h : Hash) (nz : h ≢ 0) (i : ℕ) (l : i < length t.buckets)
    (e : hash_at t.buckets i ≡ h) where
  contents-rewrite :
      (b : Bucket)
      → b.hv ≡ h
      → (g : Hash)
      → contents (set t.buckets i b) g ≡ (if g == h then held b else contents t.buckets g)
  contents-rewrite b same =
      contents-write t.buckets h i b l same nz (held_once t.buckets h i v.placed nz l e)
        (λ k ne. ground arith)

  pub overwrite-Writes :
      (item : Pointer)
      → (bucket_at t.buckets i).epoch ≢ 0
      → Writes t h (some item) (overwrite t i item)
  overwrite-Writes item live =
      let b : Bucket = record (bucket_at t.buckets i) { item = item } in
      record {
        valid =
            write-IsValid v i l b t.used_count t.item_count t.next_epoch
              (IsPlaced-set_same t.buckets i b l v.placed refl) (ground arith) (ground arith) v.room
              (omega arith) (v.epochs i) v.clock;
        reads = λ g. ground (arith, contents-rewrite b e g);
        grown = omega (arith, length-set t.buckets i b);
        more = omega arith;
        later = omega arith;
      }

  pub revive-Writes :
      (item : Pointer)
      → (bucket_at t.buckets i).epoch ≡ 0
      → t.next_epoch + 1 < 2 ^ 64
      → Writes t h (some item) (revive t i item)
  revive-Writes item dead clock =
      let b : Bucket = record (bucket_at t.buckets i) { item = item; epoch = t.next_epoch } in
      let fresh : 0 < t.next_epoch = omega (arith, v.epochs i) in
      let more : add64 t.item_count 1 ≡ t.item_count + 1 =
        omega (arith, items-le-used v, used-lt v) in
      record {
        valid =
            write-IsValid v i l b t.used_count (add64 t.item_count 1) (add64 t.next_epoch 1)
              (IsPlaced-set_same t.buckets i b l v.placed refl) (ground arith) (ground arith) v.room
              (omega arith) (omega arith) (omega arith);
        reads = λ g. ground (arith, contents-rewrite b e g);
        grown = omega (arith, length-set t.buckets i b);
        more = omega arith;
        later = omega arith;
      }

  pub discard-Writes : (bucket_at t.buckets i).epoch ≢ 0 → Writes t h none (discard t i)
  discard-Writes live =
      let b : Bucket = record (bucket_at t.buckets i) { epoch = 0 } in
      let some_live : 0 < t.item_count =
        omega (arith, v.items, count_by-pos is_live t.buckets i empty_bucket l (ground arith)) in
      let fewer : sub64 t.item_count 1 + 1 ≡ t.item_count =
        omega (arith, items-le-used v, used-lt v) in
      record {
        valid =
            write-IsValid v i l b t.used_count (sub64 t.item_count 1) t.next_epoch
              (IsPlaced-set_same t.buckets i b l v.placed refl) (ground arith) (ground arith) v.room
              (omega arith) (omega (arith, v.epochs i)) v.clock;
        reads = λ g. ground (arith, contents-rewrite b e g);
        grown = omega (arith, length-set t.buckets i b);
        more = omega arith;
        later = omega arith;
      }

-- A claim of the unreserved bucket where the probe of an absent hash value stops.
pub claim-Writes :
    {t : Refhat} (v : IsValid t) (h : Hash)
    → h ≢ 0
    → (i : ℕ) → i < length t.buckets
    → hash_at t.buckets i ≡ 0
    → probe_in t.buckets h ≡ unreserved i
    → ((j : ℕ) → hash_at t.buckets j ≢ h)
    → t.used_count + 1 < t.threshold
    → t.next_epoch + 1 < 2 ^ 64
    → (item : Pointer) → Writes t h (some item) (claim t i h item)
claim-Writes {t} v h nz i l z stop away room clock item =
    let b : Bucket = record { hv = h; item = item; epoch = t.next_epoch } in
    let fresh : 0 < t.next_epoch = omega (arith, v.epochs i) in
    let bound = used-lt v in
    let more_items : add64 t.item_count 1 ≡ t.item_count + 1 = omega (arith, items-le-used v) in
    let more_used : add64 t.used_count 1 ≡ t.used_count + 1 = omega arith in
    record {
      valid =
          write-IsValid v i l b (add64 t.used_count 1) (add64 t.item_count 1) (add64 t.next_epoch 1)
            (IsPlaced-set_new t.buckets i b l v.placed nz z stop) (ground arith) (ground arith)
            (omega arith) (omega arith) (omega arith) (omega arith);
      reads = λ g. ground (
        arith,
        contents-write t.buckets h i b l refl nz (held_nowhere t.buckets h away ∙ ground arith)
            (λ k ne. ground arith) g,
      );
      grown = omega (arith, length-set t.buckets i b);
      more = omega arith;
      later = omega arith;
    }
