-- ===== src/Hihat/Fresh.antt =====
-- `hihat_init_size`: the table that it makes is one that the other results are about.
use hatrack.Prelude.{
  fun_ext, ℕ, zero, suc, ◌+◌, ◌^◌, ◌≤◌, ◌<◌, ◌≡◌, refl, ap, ◌∙◌, arith, none, ◌∷◌, replicate,
  length-replicate, get_or-replicate, count_by-replicate, two_pow_mono,
}
use hatrack.Common.Sizes.{IsPowerOfTwo}
use hatrack.Common.{not_found}
use hatrack.FiniteMap.{reply}
use hatrack.Refhat
use hatrack.Refhat.Contents.{contents, contents-eq-none, holds}
use hatrack.Refhat.Migrate.{replicate-IsTarget}
use hatrack.Hihat.{empty_bucket, Hihat, store_new, ready, init_size}
use hatrack.Hihat.Steps.{finished}
use hatrack.Hihat.Machine.{World}
use hatrack.Hihat.Flat.{flats}
use hatrack.Hihat.Invariant.{IsStore, map_of}
use hatrack.Hihat.Marks.{below_none}
use hatrack.Hihat.Schedules.{IsWorld}
use hatrack.Hihat.Tally.{IsMarked}

-- A table on which no thread is at work.
abbrev pub idle : Hihat → World
idle t = record { table = t; pcs = λ i. finished (reply not_found) }

unfoldable pub fresh_table : ℕ → Hihat
unfolding store_new
fresh_table k = record { store_current = store_new (2 ^ k); item_count = 0; next_epoch = 1 }

flats-replicate : (n : ℕ) → flats (replicate n empty_bucket) ≡ replicate n Refhat.empty_bucket
flats-replicate zero = refl
flats-replicate (suc n) = ap (λ fs. Refhat.empty_bucket ∷ fs) (flats-replicate n)

pub store_new-IsStore :
    (size : ℕ) → IsPowerOfTwo size → size < 2 ^ 64 → 0 < size → IsStore (store_new size)
unfolding store_new
store_new-IsStore size p l pos =
    let blank = replicate-IsTarget size 1 p l (omega arith) in
    let wide = length-replicate size empty_bucket in
    record {
      width = wide ∙ omega arith;
      power = rw wide p;
      word = rw wide l;
      placed = rw (flats-replicate size) blank.placed;
      blank = λ i z. rw (get_or-replicate size i empty_bucket) refl;
    }

pub contents-store_new : (size : ℕ) → contents (flats (store_new size).buckets) ≡ (λ g. none)
unfolding store_new
contents-store_new size = fun_ext (λ g. rw (flats-replicate size) (
    contents-eq-none (replicate size Refhat.empty_bucket) g
      (count_by-replicate (holds g) size Refhat.empty_bucket refl)))

module _ (k : ℕ) (h : 4 ≤ k) (l : k ≤ 30) where
  pub init_size_lem : init_size k ≡ ready (fresh_table k)
  unfolding init_size fresh_table
  init_size_lem = ground arith

  fresh-IsStore : IsStore (fresh_table k).store_current
  unfolding fresh_table
  fresh-IsStore =
      let low : 16 ≤ 2 ^ k = two_pow_mono 4 k h in
      let high : 2 ^ k ≤ 2 ^ 30 = two_pow_mono k 30 l in
      store_new-IsStore (2 ^ k) (k, refl) (omega arith) (omega arith)

  pub fresh-IsWorld : (n : ℕ) → n + 1 < 2 ^ 61 → IsWorld n (idle (fresh_table k))
  unfolding fresh_table
  fresh-IsWorld n few = record {
    store = fresh-IsStore;
    started = omega arith;
    clock = omega (arith, few);
    stands = λ i. tt;
  }

  pub fresh-IsMarked : IsMarked (idle (fresh_table k))
  unfolding fresh_table
  fresh-IsMarked i = (below_none _ _ refl, tt)

  pub fresh-map_of : map_of (fresh_table k) ≡ (λ g. none)
  unfolding fresh_table
  fresh-map_of = contents-store_new (2 ^ k)
