-- ===== src/Hihat/Copying/Offers.antt =====
-- hihat.c: a thread that migrates loads `store_next`, or allocates a store and offers it.
use hatrack.Prelude.{
  ℕ, suc, ◌-◌, ◌≡◌, ◌≢◌, refl, sym, ap, ◌∙◌, subst, arith, true, false, Option, none, some, List,
  length, get_or-replicate, length-replicate, inl, inr, Bool-cases, Option-cases,
}
use hatrack.Common.{new_size}
use hatrack.FiniteMap.{Op, hash_of}
use hatrack.Hihat.{same_record, empty_record, Bucket, empty_bucket, bucket_at, Store, store_new}
use hatrack.Hihat.Steps.{quiet}
use hatrack.Hihat.Flat.{hash_at-flats}
use hatrack.Hihat.Invariant.{IsStore}
use hatrack.Hihat.Fresh.{store_new-IsStore, contents-store_new}
use hatrack.Hihat.Copying.{
  Migration, Copy, choosing, offering, scanning, hashing, acquiring, claiming, writing, settling,
  recording, publishing, returning, Place, copies, works, new_store, offer_step, choose_step,
  copy_step,
}
use hatrack.Hihat.Copying.Written.{is_empty_at, IsPart}
use hatrack.Hihat.Copying.Phase.{IsStart, IsAt, IsCopy, IsPhase, Moves, AreClaims, WrittenBelow}
use hatrack.Hihat.Copying.Refills.{none_store}
use hatrack.Hihat.Copying.Acquires.{stays, acquire-Moves}
use hatrack.Hihat.Copying.Claims.{claim-Moves}
use hatrack.Hihat.Copying.Writes.{write-Moves}
use hatrack.Hihat.Copying.Copies.{scan-Moves, hash-Moves}
use hatrack.Hihat.Copying.Publishes.{record-Moves, publish-Moves, return-Moves, settle-Moves}

module _ (start : List Bucket) (new_used : ℕ) (from : IsStart start new_used) where
  abbrev size : ℕ
  size = new_size (length start - 1) new_used

  fresh-IsStore : IsStore (store_new size)
  fresh-IsStore = store_new-IsStore size from.power from.word (omega (arith, from.room))

  fresh-bucket_at : (k : ℕ) → bucket_at (store_new size).buckets k ≡ empty_bucket
  unfolding store_new
  fresh-bucket_at k = get_or-replicate size k empty_bucket

  fresh-width : length (store_new size).buckets ≡ size
  unfolding store_new
  fresh-width = length-replicate size empty_bucket

  fresh-IsPart :
      IsPart start (store_new size).buckets × AreClaims start new_used (store_new size).buckets
  unfolding same_record
  fresh-IsPart = (
    record {
      lively = λ k e.
          let q : is_empty_at (store_new size).buckets k ≡ true =
            ap (λ b. same_record b.rec empty_record) (fresh-bucket_at k) in
          ground (arith, q, e);
      among = λ g v e. ground (arith, sym (ap (λ c. c g) (contents-store_new size)) ∙ e);
    },
    λ k nz.
        absurd (nz (hash_at-flats (store_new size).buckets k ∙ ap (λ b. b.hv) (fresh-bucket_at k))),
  )

  nothing_below : (bs : List Bucket) → WrittenBelow start new_used bs 0
  nothing_below bs j l lj live = let no : ⊥ = omega (arith, l) in absurd no

module _ (start : List Bucket) (new_used : ℕ) (from : IsStart start new_used) (n : ℕ)
    (m : Migration) (h : IsPhase start new_used (suc n) m) (op : Op) (nz : hash_of op ≢ 0) where
  abbrev At : Copy → Type 0
  At c = IsCopy start new_used m.published (new_store m) c

  -- Where there is no store yet, no thread has come further.
  module _ (e : m.store_next ≡ none) where
    no_copy : (v : IsStore (new_store m)) → ⊥
    no_copy = none_store m e

    unpublished : m.published ≡ false
    unpublished = elim (Bool-cases m.published) [
      | inl p ↦ absurd (no_copy (h.open_to p).0)
      | inr p ↦ p
    ]

    abbrev after : Migration
    after = record m { store_next = some (store_new (size start new_used from)) }

    others_later : (p : Place) → IsAt start new_used (suc n) m p → IsAt start new_used n after p
    others_later (copies o u choosing) a = a
    others_later (copies o u offering) a = a
    others_later (copies o u (scanning i)) (x, y, a) = absurd (no_copy a.0)
    others_later (copies o u (hashing i r)) (x, y, a) = absurd (no_copy a.0)
    others_later (copies o u (acquiring i r hv k b nb)) (x, y, a) = absurd (no_copy a.0)
    others_later (copies o u (claiming i r hv k b)) (x, y, a) = absurd (no_copy a.0)
    others_later (copies o u (writing i r b)) (x, y, a) = absurd (no_copy a.0)
    others_later (copies o u (settling i)) (x, y, a) = absurd (no_copy a.0)
    others_later (copies o u recording) (x, y, a) = absurd (no_copy a.0)
    others_later (copies o u publishing) (x, y, a) = absurd (no_copy a.0)
    others_later (copies o u returning) (x, y, a) = absurd (no_copy a.0)
    others_later (works pc) (p, s, a) = absurd (no_copy (h.open_to p).0)

    install-Moves : Moves start new_used n m after (copies op new_used (scanning 0)) quiet
    install-Moves = record {
      phase = record {
        width = h.width;
        same = h.same;
        settled = λ j l live moved.
            let (k, l', w, full) = h.settled j l live moved in
            let nothing : length (new_store m).buckets ≡ 0 = rw e refl in
            let no : ⊥ = omega (arith, l', nothing) in absurd no;
        started = h.started;
        clock = omega (arith, h.clock);
        chosen = inr (fresh-IsStore start new_used from, fresh-width start new_used from);
        part = λ p. fresh-IsPart start new_used from;
        open_to = λ p. ground (arith, p, unpublished);
      };
      at_place =
          (nz, refl, (fresh-IsStore start new_used from, nothing_below start new_used from _));
      others = others_later;
      replays = rw unpublished refl;
    }

  chosen_store : (s : Store) → m.store_next ≡ some s → IsStore (new_store m)
  chosen_store s e = elim h.chosen [ inl e' ↦ ground (arith, e, e') | inr (v, w) ↦ v ]

  scanning-At : (s : Store) → m.store_next ≡ some s → At (scanning 0)
  scanning-At s e = (chosen_store s e, nothing_below start new_used from _)

  choose-Moves : Moves start new_used n m m (copies op new_used (choose_step m.store_next)) quiet
  choose-Moves =
      let goal : Option Store → Type 0 =
        λ o. Moves start new_used n m m (copies op new_used (choose_step o)) quiet in
      elim (Option-cases m.store_next) [
        | inl e ↦ subst goal (sym e) (stays start new_used from n m h op nz offering tt)
        | inr (s, e) ↦
            subst goal (sym e)
              (stays start new_used from n m h op nz (scanning 0) (scanning-At s e))
      ]

  offer-Moves :
      Moves start new_used n m
        (record m { store_next = offer_step m.old m.store_next new_used })
        (copies op new_used (scanning 0))
        quiet
  unfolding offer_step
  offer-Moves =
      let goal : Migration → Type 0 =
        λ m'. Moves start new_used n m m' (copies op new_used (scanning 0)) quiet in
      let same = h.same in
      elim (Option-cases m.store_next) [
        | inl e ↦
            let last : m.old.last_slot ≡ length start - 1 = omega (arith, h.width, same.width) in
            let q : offer_step m.old m.store_next new_used
                ≡ some (store_new (size start new_used from)) =
              ap (λ o. offer_step m.old o new_used) e
              ∙ ap (λ k. some (store_new (new_size k new_used))) last in
            subst (λ o. goal (record m { store_next = o })) (sym q) (install-Moves e)
        | inr (s, e) ↦
            let q : offer_step m.old m.store_next new_used ≡ m.store_next =
              ap (λ o. offer_step m.old o new_used) e ∙ sym e in
            subst (λ o. goal (record m { store_next = o })) (sym q)
              (stays start new_used from n m h op nz (scanning 0) (scanning-At s e))
      ]

  copy_same-Moves :
      (c : Copy)
      → At c
      → let (m', place) = copy_step m op new_used c in Moves start new_used n m m' place quiet
  unfolding copy_step
  copy_same-Moves choosing a = choose-Moves
  copy_same-Moves offering a = offer-Moves
  copy_same-Moves (scanning i) a = scan-Moves start new_used from n m h op nz i a
  copy_same-Moves (hashing i r) a = hash-Moves start new_used from n m h op nz i r a
  copy_same-Moves (acquiring i r hv k b new_bix) a =
      acquire-Moves start new_used from n m h op nz i r hv k b new_bix a
  copy_same-Moves (claiming i r hv k b) a = claim-Moves start new_used from n m h op nz i r hv k b a
  copy_same-Moves (writing i r b) a = write-Moves start new_used from n m h op nz i r b a
  copy_same-Moves (settling i) a = settle-Moves start new_used from n m h op nz i a
  copy_same-Moves recording a = record-Moves start new_used from n m h op nz a
  copy_same-Moves publishing a = publish-Moves start new_used from n m h op nz a
  copy_same-Moves returning a = return-Moves start new_used from n m h op nz a

-- The steps of a thread that migrates.
pub copy-Moves :
    (start : List Bucket) (new_used n : ℕ) (m : Migration) (op : Op) (u : ℕ) (c : Copy)
    → IsStart start new_used
    → IsPhase start new_used (suc n) m
    → IsAt start new_used (suc n) m (copies op u c)
    → let (m', place) = copy_step m op u c in Moves start new_used n m m' place quiet
copy-Moves start new_used n m op u c from h (nz, e, a) =
    subst (λ v. let (m', place) = copy_step m op v c in Moves start new_used n m m' place quiet)
      (sym e) (copy_same-Moves start new_used from n m h op nz c a)
