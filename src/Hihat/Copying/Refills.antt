-- ===== src/Hihat/Copying/Refills.antt =====
-- hihat.c: the two kinds of steps of a thread that copies: those that write nothing, and those that write in
-- the new store.
use hatrack.Prelude.{
  ℕ, suc, ◌-◌, ◌≡◌, refl, sym, ap, ◌∙◌, subst, arith, true, false, none, some, List, length, inl,
  inr, Bool-cases, Option-cases,
}
use hatrack.Common.{new_size}
use hatrack.Refhat.Contents.{contents}
use hatrack.Hihat.{Bucket, Store}
use hatrack.Hihat.Steps.{quiet}
use hatrack.Hihat.Flat.{flats, length-flats}
use hatrack.Hihat.Invariant.{IsStore, Stands-Grows, Grows-refl}
use hatrack.Hihat.Copying.{Migration, Place, copies, works, no_store, new_store, with_new}
use hatrack.Hihat.Copying.Written.{Fills, IsWritten-Fills, IsPart}
use hatrack.Hihat.Copying.Phase.{IsStart, IsAt, IsPhase, Moves, AreClaims}
use hatrack.Hihat.Copying.Stable.{IsAt-Fills, AllWritten-Fills, live_hv}

pub none_store : (m : Migration) → m.store_next ≡ none → IsStore (new_store m) → ⊥
none_store m e v =
    let blank : IsStore no_store =
      subst (λ o. IsStore (elim o [ none ↦ no_store | some s ↦ s ])) e v in
    omega (arith, blank.width)

pub with_new-same : (m : Migration) → IsStore (new_store m) → with_new m (new_store m) ≡ m
with_new-same m v = elim (Option-cases m.store_next) [
  | inl e ↦ absurd (none_store m e v)
  | inr (s, e) ↦
      let q : new_store m ≡ s = rw e refl in
      ap (λ o. record m { store_next = o }) (ap some q ∙ sym e)
]

module _ (start : List Bucket) (new_used : ℕ) (from : IsStart start new_used) (n : ℕ)
    (m : Migration) (h : IsPhase start new_used (suc n) m) where
  pub IsPhase-later : IsPhase start new_used n m
  IsPhase-later = record {
    width = h.width;
    same = h.same;
    settled = h.settled;
    started = h.started;
    clock = omega (arith, h.clock);
    chosen = h.chosen;
    part = h.part;
    open_to = h.open_to;
  }

  pub IsAt-later : (p : Place) → IsAt start new_used (suc n) m p → IsAt start new_used n m p
  IsAt-later (copies op u c) a = a
  IsAt-later (works pc) (p, s, e) = (p, Stands-Grows n pc (Grows-refl _) s, e)

  -- A step that writes nothing.
  pub waits :
      (place : Place) → IsAt start new_used n m place → Moves start new_used n m m place quiet
  waits place a = record {
    phase = IsPhase-later;
    at_place = a;
    others = IsAt-later;
    replays = refl;
  }

  -- Where there is a store, it has the size that all threads choose.
  pub new_width :
      IsStore (new_store m) → length (new_store m).buckets ≡ new_size (length start - 1) new_used
  new_width v = elim h.chosen [
    | inl without ↦ absurd (none_store m without v)
    | inr (v', wide) ↦ wide
  ]

  -- A step that writes in the new store what changes none of its contents once it is published.
  pub refills :
      (s : Store) (place : Place)
      → IsStore (new_store m)
      → Fills (new_store m).buckets s.buckets
      → IsStore s
      → (m.published ≡ false → IsPart start s.buckets × AreClaims start new_used s.buckets)
      → (m.published ≡ true → contents (flats (new_store m).buckets) ≡ contents (flats s.buckets))
      → IsAt start new_used n (with_new m s) place
      → Moves start new_used n m (with_new m s) place quiet
  refills s place v f v' part same a =
      let wide = f.grows.width in
      let width_s : length s.buckets ≡ new_size (length start - 1) new_used =
        omega
          (arith, wide, new_width v, length-flats s.buckets, length-flats (new_store m).buckets) in
      record {
        phase = record {
          width = h.width;
          same = h.same;
          settled = λ j l live e.
              IsWritten-Fills _ _ _ (live_hv start new_used from j live) f (h.settled j l live e);
          started = h.started;
          clock = omega (arith, h.clock);
          chosen = inr (v', width_s);
          part = part;
          open_to = λ p. (v', AllWritten-Fills start new_used from _ _ f (h.open_to p).1);
        };
        at_place = a;
        others = IsAt-Fills start new_used from n m (with_new m s) f v' (λ p. p);
        replays = elim (Bool-cases m.published) [ inl p ↦ rw p (same p) | inr p ↦ rw p refl ];
      }
