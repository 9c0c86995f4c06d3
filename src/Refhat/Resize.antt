-- ===== src/Refhat/Resize.antt =====
-- `refhat_migrate` as a whole: a valid table with the same contents and room for an insertion.
use hatrack.Prelude.{
  ℕ, max, ◌+◌, ◌-◌, ◌*◌, ◌^◌, ◌≤◌, ◌<◌, ◌≡◌, refl, arith, none, List, length, replicate, count_by,
  count_by-replicate, add64, or_else, subst, sym, ap, ◌∙◌,
}
use hatrack.Common.{Hash, compute_table_threshold, new_size}
use hatrack.Common.Sizes.{IsPowerOfTwo, threshold_lem, new_size_room, new_size-IsPowerOfTwo}
use hatrack.Refhat.{Bucket, empty_bucket, Refhat, move_all, migrate}
use hatrack.Refhat.Contents.{holds, is_reserved, contents, contents-eq-none, count_by-holds-le}
use hatrack.Refhat.Valid.{IsValid}
use hatrack.Refhat.Update.{items-le-used, used-lt}
use hatrack.Refhat.Migrate.{MovesAll, replicate-IsTarget, move_all_lem}

-- What the new number of buckets satisfies.
pub record Fits (items old n : ℕ) : Type 0 where
  pub room : items + 1 < compute_table_threshold n
  pub least : 16 ≤ n
  pub most : n ≤ 2 * old + 128
  pub slow : n ≤ max old (4 * (items + 1) + 128)
  pub power : IsPowerOfTwo n

pub num_buckets-Fits :
    {t : Refhat}
    → IsValid t
    → Fits t.item_count (length t.buckets) (new_size t.last_slot (add64 t.item_count 1))
num_buckets-Fits {t} v =
    let items = items-le-used v in
    let bound = used-lt v in
    let mask : t.last_slot ≡ length t.buckets - 1 = omega (arith, v.width) in
    let more : add64 t.item_count 1 ≡ t.item_count + 1 = omega arith in
    let same : new_size (length t.buckets - 1) (t.item_count + 1)
        ≡ new_size t.last_slot (add64 t.item_count 1) =
      cc (mask, more) in
    let (room, least, most, slow) =
      new_size_room (length t.buckets) t.item_count v.least (omega (arith, v.most))
        (omega (arith, v.room, v.quota)) in
    subst (Fits t.item_count (length t.buckets)) same (record {
      room = room;
      least = least;
      most = most;
      slow = slow;
      power =
          new_size-IsPowerOfTwo (length t.buckets) (t.item_count + 1) v.power
            (omega (arith, v.least)) (omega (arith, v.most));
    })

-- The table after a migration.
pub record Migrates (t t' : Refhat) : Type 0 where
  pub valid : IsValid t'
  pub reads : (g : Hash) → contents t'.buckets g ≡ contents t.buckets g
  pub room : t'.used_count + 1 < t'.threshold
  pub compact : t'.used_count ≡ t'.item_count
  pub items : t'.item_count ≡ t.item_count
  pub grown : length t'.buckets ≤ max (length t.buckets) (4 * (t.item_count + 1) + 128)
  pub clock : t'.next_epoch ≡ t.next_epoch

-- The migration of a valid table with at most 2 ^ 58 buckets is a valid table with the same contents
-- and items, in which every reserved bucket holds an item and one more can be reserved.
pub migrate-Migrates : {t : Refhat} → IsValid t → length t.buckets ≤ 2 ^ 58 → Migrates t (migrate t)
unfolding migrate or_else
migrate-Migrates {t} v small = migrated fits moved
  where
    n : ℕ
    n = new_size t.last_slot (add64 t.item_count 1)

    fits : Fits t.item_count (length t.buckets) n
    fits = num_buckets-Fits v

    cleared : List Bucket
    cleared = replicate n empty_bucket

    none_live : count_by is_reserved cleared ≡ 0
    none_live = count_by-replicate is_reserved n empty_bucket refl

    blank : (g : Hash) → contents cleared g ≡ none
    blank g = contents-eq-none cleared g (count_by-replicate (holds g) n empty_bucket refl)

    moved : MovesAll n t.next_epoch cleared t.buckets (move_all cleared n t.buckets)
    moved =
        move_all_lem n t.next_epoch t.buckets cleared
          (replicate-IsTarget n t.next_epoch fits.power (omega (arith, fits.most))
            (omega (arith, v.epochs 0)))
          (omega (arith, none_live, v.items, fits.room, fits.least, fits.most, threshold_lem n))
          (λ g. omega (
            arith,
            count_by-replicate (holds g) n empty_bucket refl,
            count_by-holds-le t.buckets g v.placed,
          ))
          (λ i l. v.epochs i)

    migrated :
        Fits t.item_count (length t.buckets) n
        → MovesAll n t.next_epoch cleared t.buckets (move_all cleared n t.buckets)
        → Migrates t (migrate t)
    migrated f m =
        let live_again : t.item_count ≡ count_by is_reserved (move_all cleared n t.buckets) =
          omega (arith, v.items, m.counted, none_live) in
        record {
          valid = record {
            width = m.target.width ∙ omega (arith, f.least, m.target.word);
            power = rw m.target.width f.power;
            least = rw m.target.width f.least;
            most = omega (arith, m.target.width, f.most, small);
            quota = rw m.target.width refl;
            used = live_again;
            items = live_again ∙ sym m.target.balanced;
            room = omega (arith, f.room);
            placed = m.target.placed;
            epochs = m.target.epochs;
            clock = v.clock;
          };
          reads = λ g. m.reads g ∙ ap (λ o. or_else o (contents t.buckets g)) (blank g);
          room = f.room;
          compact = refl;
          items = refl;
          grown = omega (arith, m.target.width, f.slow);
          clock = refl;
        }
