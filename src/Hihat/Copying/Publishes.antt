-- ===== src/Hihat/Copying/Publishes.antt =====
-- hihat.c: the steps of `hihat_store_migrate` around the copying: the new store is chosen, a move is noted in
-- the old store, the count of buckets is recorded, and the new store is published.
use hatrack.Prelude.{
  ℕ, suc, ◌+◌, ◌<◌, ◌≡◌, ◌≢◌, refl, sym, ap, ◌∙◌, subst, arith, true, ◌==◌, ==_iff, if◌then◌else◌,
  List, length, length-set, inl, inr, Bool-cases,
}
use hatrack.FiniteMap.{reply, Op, hash_of}
use hatrack.Hihat.{Bucket, bucket_at}
use hatrack.Hihat.Steps.{quiet, finished}
use hatrack.Common.{not_found}
use hatrack.Hihat.Machine.{start_if}
use hatrack.Hihat.Marking.{flag_moved}
use hatrack.Hihat.Flat.{flats, bucket_at-set}
use hatrack.Hihat.Invariant.{IsStore, Grows-refl}
use hatrack.Hihat.Schedules.{start_if-Stands}
use hatrack.Hihat.Copying.{
  Migration, Copy, scanning, settling, recording, publishing, returning, Place, copies, works,
  new_store, with_new, record_step,
}
use hatrack.Hihat.Copying.Written.{IsWritten, Fills, AllWritten-contents}
use hatrack.Hihat.Copying.Phase.{IsStart, IsSame, IsAt, IsCopy, IsPhase, Moves, WrittenBelow, hv_of}
use hatrack.Hihat.Copying.Stable.{IsAt-Fills}
use hatrack.Hihat.Copying.Refills.{waits, refills, IsAt-later}

Fills-refl : (bs : List Bucket) → Fills bs bs
Fills-refl bs = record { grows = Grows-refl (flats bs); full = λ k e. e }

module _ (start : List Bucket) (new_used : ℕ) (from : IsStart start new_used) (n : ℕ)
    (m : Migration) (h : IsPhase start new_used (suc n) m) (op : Op) (nz : hash_of op ≢ 0) where
  abbrev new : List Bucket
  new = (new_store m).buckets

  abbrev At : Copy → Type 0
  At c = IsCopy start new_used m.published (new_store m) c

  pub record-Moves :
      At recording
      → Moves start new_used n m
          (with_new m (record_step (new_store m) new_used))
          (copies op new_used publishing)
          quiet
  record-Moves (v, all) =
      let v' : IsStore (record_step (new_store m) new_used) = record {
        width = v.width;
        power = v.power;
        word = v.word;
        placed = v.placed;
        blank = v.blank;
      } in
      refills start new_used from n m h (record_step (new_store m) new_used) _ v (Fills-refl new) v'
        h.part (λ p. refl) (nz, refl, (v', all))

  pub publish-Moves :
      At publishing
      → Moves start new_used n m
          (record m { published = true })
          (copies op new_used returning)
          quiet
  publish-Moves (v, all) = record {
    phase = record {
      width = h.width;
      same = h.same;
      settled = h.settled;
      started = h.started;
      clock = omega (arith, h.clock);
      chosen = h.chosen;
      part = λ p. ground (arith, p);
      open_to = λ p. (v, all);
    };
    at_place = (nz, refl, (v, all, refl));
    others =
        IsAt-Fills start new_used from n m (record m { published = true }) (Fills-refl new) v
          (λ p. refl);
    replays = elim (Bool-cases m.published) [
      | inl p ↦ rw p refl
      | inr p ↦
          let part = (h.part p).0 in
          rw p (sym (AllWritten-contents start new v.placed from.blank part all))
    ];
  }

  pub return-Moves :
      At returning
      → Moves start new_used n m m
          (works (start_if (new_store m) op (finished (reply not_found))))
          quiet
  return-Moves (v, all, p) =
      waits start new_used from n m h _
        (p, start_if-Stands n (new_store m) op (finished (reply not_found)) v nz tt, refl)

  module _ (i : ℕ) (a : At (settling i)) where
    abbrev after : Migration
    after = record m { old = flag_moved m.old i }

    old_inside : i < length m.old.buckets
    old_inside = let same = h.same in omega (arith, a.2, same.width)

    after-moved :
        (j : ℕ)
        → (bucket_at after.old.buckets j).rec.moved
          ≡ (if i == j then true else (bucket_at m.old.buckets j).rec.moved)
    after-moved j =
        ap (λ x. x.rec.moved) (bucket_at-set m.old.buckets i j _ old_inside) ∙ ground arith

    -- What the flag is not part of.
    after-field :
        {A : Type 0} (f : Bucket → A)
        → f (record (bucket_at m.old.buckets i) {
          rec = record (bucket_at m.old.buckets i).rec { moved = true };
        })
          ≡ f (bucket_at m.old.buckets i)
        → (j : ℕ) → f (bucket_at after.old.buckets j) ≡ f (bucket_at m.old.buckets j)
    after-field f e j =
        ap f (bucket_at-set m.old.buckets i j _ old_inside) ∙ elim (Bool-cases (i == j)) [
          | inl same ↦
              let q : i ≡ j = (==_iff i j).0 same in
              rw same (e ∙ ap (λ k. f (bucket_at m.old.buckets k)) q)
          | inr other ↦ rw other refl
        ]

    after-IsSame : IsSame start after.old.buckets
    after-IsSame =
        let same = h.same in
        record {
          width = length-set m.old.buckets i _ ∙ same.width;
          hv = λ j. after-field (λ b. b.hv) refl j ∙ same.hv j;
          item = λ j. after-field (λ b. b.rec.item) refl j ∙ same.item j;
          epoch = λ j. after-field (λ b. b.rec.epoch) refl j ∙ same.epoch j;
          moved = λ j e. ground (arith, after-moved j, same.moved j e);
        }

    below_next : WrittenBelow start new_used new (i + 1)
    below_next j lj l live = elim (Bool-cases (j == i)) [
      | inl same ↦
          let q : i ≡ j = sym ((==_iff j i).0 same) in
          subst (λ k. IsWritten new (hv_of start new_used k)) q
            (a.3 (λ e. live (sym (ap (λ k. (bucket_at start k).rec.epoch) q) ∙ e)))
      | inr other ↦ a.1 j (ground (arith, other, lj)) l live
    ]

    settled_later : (p : Place) → IsAt start new_used (suc n) m p → IsAt start new_used n after p
    settled_later (copies o u c) at = IsAt-later start new_used from n m h (copies o u c) at
    settled_later (works pc) at = IsAt-later start new_used from n m h (works pc) at

    pub settle-Moves : Moves start new_used n m after (copies op new_used (scanning (i + 1))) quiet
    settle-Moves = record {
      phase = record {
        width = length-set m.old.buckets i _ ∙ h.width;
        same = after-IsSame;
        settled = λ j l live e. elim (Bool-cases (i == j)) [
          | inl same ↦ below_next j (ground (arith, same)) l live
          | inr other ↦ h.settled j l live (ground (arith, after-moved j, other, e))
        ];
        started = h.started;
        clock = omega (arith, h.clock);
        chosen = h.chosen;
        part = h.part;
        open_to = h.open_to;
      };
      at_place = (nz, refl, (a.0, below_next));
      others = settled_later;
      replays = refl;
    }
