-- ===== src/Refhat/Write.antt =====
-- A write to one bucket: what it does to the contents and to the invariant.
use hatrack.Prelude.{
  ℕ, ◌+◌, ◌*◌, ◌^◌, max, ◌≤◌, ◌<◌, ◌≡◌, ◌≢◌, refl, arith, false, ◌==◌, ==_iff, if◌then◌else◌,
  Option, none, some, List, length, set, length-set, to_nat, count_by, count_by-set, inl, inr,
  Bool-cases,
}
use hatrack.Common.{Hash, Pointer}
use hatrack.Refhat.{Bucket, empty_bucket, bucket_at, is_live, Refhat}
use hatrack.Refhat.Probing.{bucket_at-set}
use hatrack.Refhat.Contents.{
  holds, is_reserved, contents, contents-set_other, contents-set_self, IsPlaced,
}
use hatrack.Refhat.Valid.{IsValid}

-- What a bucket holds.
abbrev pub held : Bucket → Option Pointer
held b = if is_live b then some b.item else none

pub contents-write :
    (bs : List Bucket) (h : Hash) (i : ℕ) (b : Bucket)
    → i < length bs
    → b.hv ≡ h
    → h ≢ 0
    → count_by (holds h) bs ≡ to_nat (holds h (bucket_at bs i))
    → ((g : Hash) → g ≢ h → holds g (bucket_at bs i) ≡ false)
    → (g : Hash) → contents (set bs i b) g ≡ (if g == h then held b else contents bs g)
contents-write bs h i b l e nz once apart g = elim (Bool-cases (g == h)) [
  | inl q ↦
      let gh : g ≡ h = (==_iff g h).0 q in
      rw (q, gh, contents-set_self bs h i b l once) (ground arith)
  | inr q ↦
      let ne : g ≢ h = ground arith in
      rw (q, contents-set_other bs g i b (apart g ne) (ground arith)) refl
]

-- The table `t` with the bucket `i` replaced and the counters set keeps the invariant.
module _ {t : Refhat} (v : IsValid t) (i : ℕ) (l : i < length t.buckets) (b : Bucket)
    (used items next : ℕ) where
  pub write-IsValid :
      IsPlaced (set t.buckets i b)
      → used + to_nat (is_reserved (bucket_at t.buckets i)) ≡ t.used_count + to_nat (is_reserved b)
      → items + to_nat (is_live (bucket_at t.buckets i)) ≡ t.item_count + to_nat (is_live b)
      → used < t.threshold
      → t.next_epoch ≤ next
      → b.epoch < next
      → next < 2 ^ 64
      → IsValid (record t {
        buckets = set t.buckets i b;
        used_count = used;
        item_count = items;
        next_epoch = next;
      })
  write-IsValid placed u m room later epoch clock = record {
    width = rw (length-set t.buckets i b) v.width;
    power = rw (length-set t.buckets i b) v.power;
    least = rw (length-set t.buckets i b) v.least;
    most = rw (length-set t.buckets i b) v.most;
    quota = rw (length-set t.buckets i b) v.quota;
    used = omega (arith, v.used, count_by-set is_reserved t.buckets i b empty_bucket l);
    items = omega (arith, v.items, count_by-set is_live t.buckets i b empty_bucket l);
    room = room;
    placed = placed;
    epochs = λ k. ground (arith, bucket_at-set t.buckets i k b l, v.epochs k);
    clock = clock;
  }

-- `t'` is valid and holds what `t` holds, except for `h`, where it holds `v`; there are not many more
-- buckets, and at most one more item and one more epoch.
pub record Writes (t : Refhat) (h : Hash) (v : Option Pointer) (t' : Refhat) : Type 0 where
  pub valid : IsValid t'
  pub reads : (g : Hash) → contents t'.buckets g ≡ (if g == h then v else contents t.buckets g)
  pub grown : length t'.buckets ≤ max (length t.buckets) (4 * (t.item_count + 1) + 128)
  pub more : t'.item_count ≤ t.item_count + 1
  pub later : t'.next_epoch ≤ t.next_epoch + 1
