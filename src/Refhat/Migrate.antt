-- ===== src/Refhat/Migrate.antt =====
-- `refhat_migrate`: the live buckets are placed anew in a cleared array.
use hatrack.Prelude.{
  ℕ, zero, suc, ◌+◌, ◌-◌, ◌^◌, ◌≤◌, ◌<◌, ◌≡◌, ◌≢◌, refl, arith, true, false, ◌==◌, if◌then◌else◌,
  some, List, [], ◌∷◌, length, set, length-set, replicate, length-replicate, get_or-replicate,
  to_nat, count_by, count_by-set, count_by-pos, count_by-replicate, sub64, sym, ap, subst, ◌∙◌,
  or_else, inl, inr, Bool-cases,
}
use hatrack.Common.{Hash, bucket_index}
use hatrack.Common.Sizes.{IsPowerOfTwo}
use hatrack.Refhat.{
  Bucket, empty_bucket, bucket_at, is_live, probe_from, unreserved, next_slot, free_from,
  move_bucket, move_all,
}
use hatrack.Refhat.Probing.{hash_at, hash_at-outside, bucket_at-set}
use hatrack.Refhat.Contents.{holds, is_reserved, contents, contents-eq-none, probe_in, IsPlaced}
use hatrack.Refhat.Placed.{IsArray, Outcome, present, absent, probe_in-Outcome, IsPlaced-set_new}
use hatrack.Refhat.Write.{contents-write}

-- Where no bucket has the hash value, the walk to the first unreserved bucket is its probe.
pub free_from-probe_from :
    (bs : List Bucket) (last_slot : ℕ) (h : Hash)
    → ((j : ℕ) → hash_at bs j ≢ h)
    → (rounds bix : ℕ) {i : ℕ} → probe_from bs last_slot h rounds bix ≡ unreserved i
    → free_from bs last_slot rounds bix ≡ some i
unfolding probe_from free_from
free_from-probe_from bs last_slot h away zero bix e = cc
free_from-probe_from bs last_slot h away (suc rounds) bix {i} e = ground (
  arith,
  away bix,
  free_from-probe_from bs last_slot h away rounds (next_slot bix last_slot) {i = i},
)

-- The new array while it is filled: `n` buckets, every reserved one of them live and findable, with
-- epochs below `next`.
pub record IsTarget (n next : ℕ) (new : List Bucket) : Type 0 where
  pub width : length new ≡ n
  pub power : IsPowerOfTwo n
  pub word : n < 2 ^ 64
  pub placed : IsPlaced new
  pub lively : (j : ℕ) → hash_at new j ≢ 0 → (bucket_at new j).epoch ≢ 0
  pub balanced : count_by is_live new ≡ count_by is_reserved new
  pub epochs : (j : ℕ) → (bucket_at new j).epoch < next

hv_of : Bucket → Hash
hv_of b = b.hv

pub replicate-IsTarget :
    (n next : ℕ)
    → IsPowerOfTwo n
    → n < 2 ^ 64
    → 0 < next
    → IsTarget n next (replicate n empty_bucket)
unfolding hv_of
replicate-IsTarget n next p w pos = record {
  width = length-replicate n empty_bucket;
  power = p;
  word = w;
  placed = λ i h. absurd (h (ap hv_of (get_or-replicate n i empty_bucket)));
  lively = λ i h. absurd (h (ap hv_of (get_or-replicate n i empty_bucket)));
  balanced =
      rw
        (
          count_by-replicate is_live n empty_bucket refl,
          count_by-replicate is_reserved n empty_bucket refl,
        )
        refl;
  epochs = λ j. rw (get_or-replicate n j empty_bucket) pos;
}

-- What one live bucket's move does.
pub record Moves (n next : ℕ) (new : List Bucket) (cur : Bucket) (new' : List Bucket) : Type 0 where
  pub target : IsTarget n next new'
  pub counted : count_by is_reserved new' ≡ count_by is_reserved new + 1
  pub held : (g : Hash) → count_by (holds g) new' ≡ count_by (holds g) new + to_nat (holds g cur)
  pub reads : (g : Hash) → contents new' g ≡ (if g == cur.hv then some cur.item else contents new g)

module _ {n next : ℕ} {new : List Bucket} (cur : Bucket) (it : IsTarget n next new)
    (live : is_live cur ≡ true) (fresh : count_by (holds cur.hv) new ≡ 0)
    (room : count_by is_reserved new < n) (soon : cur.epoch < next) where
  away : (j : ℕ) → hash_at new j ≢ cur.hv
  away j same =
      let nz : hash_at new j ≢ 0 = ground arith in
      let l = hash_at-outside new j nz in
      omega (
        arith,
        fresh,
        count_by-pos (holds cur.hv) new j empty_bucket l (ground (arith, it.lively j)),
      )

  move_at :
      (i : ℕ)
      → probe_in new cur.hv ≡ unreserved i
      → i < length new
      → hash_at new i ≡ 0
      → Moves n next new cur (set new i cur)
  move_at i stop l z =
      let nz : cur.hv ≢ 0 = ground arith in
      record {
        target = record {
          width = length-set new i cur ∙ it.width;
          power = it.power;
          word = it.word;
          placed = IsPlaced-set_new new i cur l it.placed nz z stop;
          lively = λ j h. ground (arith, bucket_at-set new i j cur l, it.lively j);
          balanced = ground (
            arith,
            it.balanced,
            count_by-set is_live new i cur empty_bucket l,
            count_by-set is_reserved new i cur empty_bucket l,
          );
          epochs = λ j. ground (arith, bucket_at-set new i j cur l, it.epochs j);
        };
        counted = ground (arith, count_by-set is_reserved new i cur empty_bucket l);
        held = λ g. ground (arith, count_by-set (holds g) new i cur empty_bucket l);
        reads = λ g. ground (
          arith,
          contents-write new cur.hv i cur l refl nz (ground arith) (λ k ne. ground arith) g,
        );
      }

  pub move_bucket_lem : Moves n next new cur (move_bucket new n cur)
  unfolding move_bucket
  move_bucket_lem = by_outcome (probe_in-Outcome new cur.hv array it.placed (ground arith))
    where
      array : IsArray new
      array = record {
        power = rw it.width it.power;
        word = omega (arith, it.width, it.word);
        room = omega (arith, it.width, room);
      }

      by_outcome : Outcome new cur.hv → Moves n next new cur (move_bucket new n cur)
      by_outcome (present i e l same) = absurd (away i same)
      by_outcome (absent i e l z _) =
          let mask : sub64 n 1 ≡ length new - 1 = omega (arith, it.width, it.word) in
          let walked = free_from-probe_from new (length new - 1) cur.hv away (length new) _ e in
          let walk : free_from new (sub64 n 1) n (bucket_index cur.hv (sub64 n 1)) ≡ some i =
            cc (walked, mask, it.width) in
          let moved : move_bucket new n cur ≡ set new i cur = ground (arith, walk) in
          subst (Moves n next new cur) (sym moved) (move_at i e l z)

-- What the whole migration does with the buckets `rest`.
pub record MovesAll (n next : ℕ) (new rest new' : List Bucket) : Type 0 where
  pub target : IsTarget n next new'
  pub counted : count_by is_reserved new' ≡ count_by is_reserved new + count_by is_live rest
  pub reads : (g : Hash) → contents new' g ≡ or_else (contents new g) (contents rest g)

move_bucket_dead :
    (new : List Bucket) (n : ℕ) (cur : Bucket) → is_live cur ≡ false → move_bucket new n cur ≡ new
unfolding move_bucket
move_bucket_dead new n cur e = rw e refl

-- The buckets that are moved are live, have different hash values, and fit.
pub move_all_lem :
    (n next : ℕ) (rest new : List Bucket)
    → IsTarget n next new
    → count_by is_reserved new + count_by is_live rest < n
    → ((g : Hash) → count_by (holds g) new + count_by (holds g) rest ≤ 1)
    → ((i : ℕ) → i < length rest → (bucket_at rest i).epoch < next)
    → MovesAll n next new rest (move_all new n rest)
unfolding move_all count_by contents or_else
move_all_lem n next [] new it room once soon = record {
  target = it;
  counted = omega arith;
  reads = λ g. ground arith;
}
move_all_lem n next (cur ∷ rest) new it room once soon = elim (Bool-cases (is_live cur)) [
  | inr dead ↦
      let r =
        move_all_lem n next rest new it (ground arith) (λ g. ground (arith, once g))
          (λ i l. soon (suc i) (omega arith)) in
      rw (move_bucket_dead new n cur dead) (record {
        target = r.target;
        counted = ground (arith, r.counted);
        reads = λ g. ground (arith, r.reads g);
      })
  | inl live ↦
      let m =
        move_bucket_lem cur it live (ground (arith, once cur.hv)) (ground arith)
          (soon 0 (omega arith)) in
      let r =
        move_all_lem n next rest (move_bucket new n cur) m.target (ground (arith, m.counted))
          (λ g. ground (arith, once g, m.held g)) (λ i l. soon (suc i) (omega arith)) in
      record {
        target = r.target;
        counted = ground (arith, r.counted, m.counted);
        reads = λ g. ground (arith, r.reads g, m.reads g, once g, contents-eq-none new g);
      }
]
