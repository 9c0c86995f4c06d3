-- ===== src/Refhat/Operations.antt =====
-- `refhat_put`, `refhat_add`, `refhat_replace` and `refhat_remove` against the table's contents.
use hatrack.Prelude.{
  ℕ, suc, ◌+◌, ◌^◌, ◌≤◌, ◌<◌, ◌≡◌, ◌≢◌, refl, arith, ◌==◌, if◌then◌else◌, Option, none, some, ◌⊎◌,
  length, add64, ap, or_else, ◌∙◌, inl, inr, Bool-cases,
}
use hatrack.FiniteMap.{reply_of}
use hatrack.Common.{Hash, Pointer}
use hatrack.FiniteMap.{is_none}
use hatrack.Refhat.{
  Refhat, bucket_at, overwrite, revive, claim, discard, migrate, put, replace, add, remove, hit,
  unreserved,
}
use hatrack.Refhat.Probing.{hash_at}
use hatrack.Refhat.Contents.{probe_in, contents, contents-eq-none}
use hatrack.Refhat.Placed.{Outcome, present, absent}
use hatrack.Refhat.Valid.{IsValid, probe-probe_in, Valid-Outcome, held_nowhere, contents-held}
use hatrack.Refhat.Write.{Writes}
use hatrack.Refhat.Update.{used-lt, overwrite-Writes, revive-Writes, discard-Writes, claim-Writes}
use hatrack.Refhat.Resize.{Migrates, migrate-Migrates}

-- The call returns `r` and leaves a table that holds `v` for `h` and is otherwise as before.
abbrev pub Returns {ℓ} :
    {R : Type ℓ} → Option (R × Refhat) → R → Refhat → Hash → Option Pointer → Type ℓ
Returns call r t h v = (t' : Refhat) × (call ≡ some (r, t')) × Writes t h v t'

-- A table that an operation leaves alone.
pub same-Writes :
    {t : Refhat} (h : Hash) (o : Option Pointer)
    → IsValid t
    → contents t.buckets h ≡ o
    → Writes t h o t
same-Writes {t} h o v e = record {
  valid = v;
  reads = λ g. ground (arith, ap (contents t.buckets) {x = g} {y = h});
  grown = omega arith;
  more = omega arith;
  later = omega arith;
}

pub Writes-migrate :
    {t m t' : Refhat} (h : Hash) (o : Option Pointer)
    → Migrates t m
    → Writes m h o t'
    → Writes t h o t'
Writes-migrate h o m w = record {
  valid = w.valid;
  reads = λ g. ground (arith, w.reads g, m.reads g);
  grown = omega (arith, w.grown, m.grown, m.items);
  more = omega (arith, w.more, m.items);
  later = omega (arith, w.later, m.clock);
}

absent_contents :
    (t : Refhat) (h : Hash) → ((j : ℕ) → hash_at t.buckets j ≢ h) → contents t.buckets h ≡ none
absent_contents t h away = contents-eq-none t.buckets h (held_nowhere t.buckets h away)

-- The insertions where the hash value has a bucket.
module _ {t : Refhat} (v : IsValid t) (h : Hash) (nz : h ≢ 0) (item : Pointer) (i : ℕ)
    (e : probe_in t.buckets h ≡ hit i) (l : i < length t.buckets) (s : hash_at t.buckets i ≡ h)
    (clock : t.next_epoch + 1 < 2 ^ 64) (calls : ℕ) where
  put_present : Returns (put (suc calls) t h item) (reply_of (contents t.buckets h)) t h (some item)
  unfolding put
  put_present = elim (Bool-cases ((bucket_at t.buckets i).epoch == 0)) [
    | inl dead ↦ (
      revive t i item,
      ground (arith, probe-probe_in h v, e, contents-held t.buckets h i v.placed nz l s),
      revive-Writes v h nz i l s item (ground arith) clock,
    )
    | inr live ↦ (
      overwrite t i item,
      ground (arith, probe-probe_in h v, e, contents-held t.buckets h i v.placed nz l s),
      overwrite-Writes v h nz i l s item (ground arith),
    )
  ]

  add_present :
      Returns
        (add (suc calls) t h item)
        (is_none (contents t.buckets h))
        t
        h
        (or_else (contents t.buckets h) (some item))
  unfolding add or_else
  add_present =
      let read = contents-held t.buckets h i v.placed nz l s in
      elim (Bool-cases ((bucket_at t.buckets i).epoch == 0)) [
        | inl dead ↦
            let gone : contents t.buckets h ≡ none = ground (arith, read) in
            rw gone (
              revive t i item,
              ground (arith, probe-probe_in h v, e),
              revive-Writes v h nz i l s item (ground arith) clock,
            )
        | inr live ↦
            let kept : contents t.buckets h ≡ some (bucket_at t.buckets i).item =
              ground (arith, read) in
            rw kept (t, ground (arith, probe-probe_in h v, e), same-Writes h _ v kept)
      ]

-- The insertions where it has none, and the table has room.
module _ {t : Refhat} (v : IsValid t) (h : Hash) (nz : h ≢ 0) (item : Pointer)
    (clock : t.next_epoch + 1 < 2 ^ 64) (calls : ℕ) (room : t.used_count + 1 < t.threshold) where
  put_room : Returns (put (suc calls) t h item) (reply_of (contents t.buckets h)) t h (some item)
  unfolding put
  put_room = by_outcome (Valid-Outcome h v nz)
    where
      by_outcome :
          Outcome t.buckets h
          → Returns (put (suc calls) t h item) (reply_of (contents t.buckets h)) t h (some item)
      by_outcome (present i e l s) = put_present v h nz item i e l s clock calls
      by_outcome (absent i e l z away) = (
        claim t i h item,
        ground (arith, probe-probe_in h v, e, absent_contents t h away, used-lt v),
        claim-Writes v h nz i l z e away room clock item,
      )

  add_room :
      Returns
        (add (suc calls) t h item)
        (is_none (contents t.buckets h))
        t
        h
        (or_else (contents t.buckets h) (some item))
  unfolding add or_else
  add_room = by_outcome (Valid-Outcome h v nz)
    where
      by_outcome :
          Outcome t.buckets h
          → Returns
              (add (suc calls) t h item)
              (is_none (contents t.buckets h))
              t
              h
              (or_else (contents t.buckets h) (some item))
      by_outcome (present i e l s) = add_present v h nz item i e l s clock calls
      by_outcome (absent i e l z away) = rw (absent_contents t h away) (
        claim t i h item,
        ground (arith, probe-probe_in h v, e, used-lt v),
        claim-Writes v h nz i l z e away room clock item,
      )

-- A full table migrates, and the operation is called again.
module _ {t : Refhat} (v : IsValid t) (h : Hash) (item : Pointer) (i : ℕ)
    (e : probe_in t.buckets h ≡ unreserved i) (full : t.used_count + 1 ≡ t.threshold)
    (calls : ℕ) where
  put_full : put (suc calls) t h item ≡ put calls (migrate t) h item
  unfolding put
  put_full =
      let last : add64 t.used_count 1 ≡ t.threshold = omega (arith, used-lt v) in
      ground (arith, probe-probe_in h v, e)

  add_full : add (suc calls) t h item ≡ add calls (migrate t) h item
  unfolding add
  add_full =
      let last : add64 t.used_count 1 ≡ t.threshold = omega (arith, used-lt v) in
      ground (arith, probe-probe_in h v, e)

module _ {t : Refhat} (v : IsValid t) (h : Hash) (nz : h ≢ 0) (item : Pointer)
    (clock : t.next_epoch + 1 < 2 ^ 64) (small : length t.buckets ≤ 2 ^ 58) (calls : ℕ) where
  room_or_full : (t.used_count + 1 < t.threshold) ⊎ (t.used_count + 1 ≡ t.threshold)
  room_or_full = ground (arith, v.room)

  -- In a valid table of at most 2 ^ 58 buckets, with an epoch left, `refhat_put` at a hash value other
  -- than 0 returns after at most one nested call, a migration included. It returns the item that the
  -- table held, and leaves a valid table that holds the new item and is otherwise as before.
  pub put-Writes :
      Returns (put (suc (suc calls)) t h item) (reply_of (contents t.buckets h)) t h (some item)
  put-Writes = by_outcome (Valid-Outcome h v nz)
    where
      by_outcome :
          Outcome t.buckets h
          → Returns
              (put (suc (suc calls)) t h item)
              (reply_of (contents t.buckets h))
              t
              h
              (some item)
      by_outcome (present i e l s) = put_present v h nz item i e l s clock (suc calls)
      by_outcome (absent i e l z away) = elim room_or_full [
        | inl room ↦ put_room v h nz item clock (suc calls) room
        | inr full ↦
            let m = migrate-Migrates v small in
            let (t', run, w) = put_room m.valid h nz item (omega (arith, m.clock)) calls m.room in
            (
              t',
              put_full v h item i e full (suc calls) ∙ run ∙ rw (m.reads h) refl,
              Writes-migrate h (some item) m w,
            )
      ]

  -- In a valid table of at most 2 ^ 58 buckets, with an epoch left, `refhat_add` at a hash value other
  -- than 0 returns whether the hash value was absent, and leaves a valid table in which the item has
  -- been inserted if it was; an item that is there stays.
  pub add-Writes :
      Returns
        (add (suc (suc calls)) t h item)
        (is_none (contents t.buckets h))
        t
        h
        (or_else (contents t.buckets h) (some item))
  add-Writes = by_outcome (Valid-Outcome h v nz)
    where
      by_outcome :
          Outcome t.buckets h
          → Returns
              (add (suc (suc calls)) t h item)
              (is_none (contents t.buckets h))
              t
              h
              (or_else (contents t.buckets h) (some item))
      by_outcome (present i e l s) = add_present v h nz item i e l s clock (suc calls)
      by_outcome (absent i e l z away) = elim room_or_full [
        | inl room ↦ add_room v h nz item clock (suc calls) room
        | inr full ↦
            let m = migrate-Migrates v small in
            let (t', run, w) = add_room m.valid h nz item (omega (arith, m.clock)) calls m.room in
            (
              t',
              add_full v h item i e full (suc calls) ∙ run ∙ rw (m.reads h) refl,
              rw (m.reads h) at (Writes-migrate h _ m w),
            )
      ]

module _ {t : Refhat} (v : IsValid t) (h : Hash) (nz : h ≢ 0) where
  -- In a valid table `refhat_replace` at a hash value other than 0 returns the item that the table held
  -- and leaves a valid table with the new item in its place; it inserts nothing.
  pub replace-Writes :
      (item : Pointer)
      → Returns
          (replace t h item)
          (reply_of (contents t.buckets h))
          t
          h
          (if is_none (contents t.buckets h) then none else some item)
  unfolding replace
  replace-Writes item = by_outcome (Valid-Outcome h v nz)
    where
      by_outcome :
          Outcome t.buckets h
          → Returns
              (replace t h item)
              (reply_of (contents t.buckets h))
              t
              h
              (if is_none (contents t.buckets h) then none else some item)
      by_outcome (absent i e l z away) =
          let gone = absent_contents t h away in
          rw gone (t, ground (arith, probe-probe_in h v, e), same-Writes h none v gone)
      by_outcome (present i e l s) =
          let read = contents-held t.buckets h i v.placed nz l s in
          elim (Bool-cases ((bucket_at t.buckets i).epoch == 0)) [
            | inl dead ↦
                let gone : contents t.buckets h ≡ none = ground (arith, read) in
                rw gone (t, ground (arith, probe-probe_in h v, e), same-Writes h none v gone)
            | inr live ↦
                let kept : contents t.buckets h ≡ some (bucket_at t.buckets i).item =
                  ground (arith, read) in
                rw kept (
                  overwrite t i item,
                  ground (arith, probe-probe_in h v, e),
                  overwrite-Writes v h nz i l s item (ground arith),
                )
          ]

  -- In a valid table `refhat_remove` at a hash value other than 0 returns the item that the table held,
  -- and leaves a valid table that holds nothing for the hash value and is otherwise as before.
  pub remove-Writes : Returns (remove t h) (reply_of (contents t.buckets h)) t h none
  unfolding remove
  remove-Writes = by_outcome (Valid-Outcome h v nz)
    where
      by_outcome :
          Outcome t.buckets h → Returns (remove t h) (reply_of (contents t.buckets h)) t h none
      by_outcome (absent i e l z away) =
          let gone = absent_contents t h away in
          (t, ground (arith, probe-probe_in h v, e, gone), same-Writes h none v gone)
      by_outcome (present i e l s) =
          let read = contents-held t.buckets h i v.placed nz l s in
          elim (Bool-cases ((bucket_at t.buckets i).epoch == 0)) [
            | inl dead ↦
                let gone : contents t.buckets h ≡ none = ground (arith, read) in
                (t, ground (arith, probe-probe_in h v, e), same-Writes h none v gone)
            | inr live ↦ (
              discard t i,
              ground (arith, probe-probe_in h v, e, read),
              discard-Writes v h nz i l s (ground arith),
            )
          ]
