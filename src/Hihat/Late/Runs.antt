-- ===== src/Hihat/Late/Runs.antt =====
-- hihat.c: schedules in which loads may see older values.
use hatrack.Prelude.{
  ℕ, zero, suc, ◌+◌, ◌^◌, ◌<◌, ◌≡◌, refl, sym, ◌∙◌, arith, List, [], ◌∷◌, inl, inr, Bool-cases, ltb,
}
use hatrack.FiniteMap.{Op, Map}
use hatrack.Hihat.{Hihat, bucket_at}
use hatrack.Hihat.Steps.{
  Pc, probing, reserving, counting, loading, numbering, stepping, installing, tallying, finished,
  migrating, marking, flagging, checking, emptying, marked,
}
use hatrack.Hihat.Marking.{mark_step}
use hatrack.Hihat.Machine.{step}
use hatrack.Hihat.Flat.{flats, length-flats}
use hatrack.Hihat.Position.{Grows}
use hatrack.Hihat.Invariant.{IsStore, Stands, Grows-refl, map_of, Steps}
use hatrack.Hihat.Linear.{step-Steps}
use hatrack.Hihat.Schedules.{IsWorld}
use hatrack.Hihat.Late.{Witnessed, now, was, past_at, late_step, History}
use hatrack.Hihat.Late.Loads.{IsPast, Saw, probe-Saw, load-Saw}

-- A step that changes the table if it is not a load, and a load from `q`, which is as many tables ago as it says.
abbrev pub Late : ℕ → Hihat → Hihat → ℕ → Hihat × Pc × Witnessed → Type 0
Late n t q k (t', pc, now event) = Steps n t t' pc event
Late n t q k (t', pc, was j event) = (t' ≡ t) × (j ≡ k) × Saw n q t (pc, event)

module _ (n : ℕ) (t q : Hihat) (v : IsStore t.store_current) (started : 0 < t.next_epoch)
    (clock : t.next_epoch + suc n < 2 ^ 61) (few : n + 3 < 2 ^ 61) (past : IsPast (suc n) t q) where
  mark_saw :
      (op : Op) (i u : ℕ)
      → Stands (flats t.store_current.buckets) n (mark_step q.store_current op i u)
  unfolding mark_step
  mark_saw op i u = elim (Bool-cases (ltb q.store_current.last_slot i)) [
    | inl past' ↦ rw past' tt
    | inr within ↦ elim (Bool-cases (bucket_at q.store_current.buckets i).rec.moving) [
      | inl moving ↦ rw (within, moving) tt
      | inr still ↦ rw (within, still) tt
    ]
  ]

  pub late_step-Late :
      (k : ℕ) (pc : Pc)
      → Stands (flats t.store_current.buckets) (suc n) pc
      → Late n t q k (late_step k q t pc)
  unfolding late_step step
  late_step-Late k (probing op zero b) s = step-Steps n t v started clock (probing op zero b) s
  late_step-Late k (probing op (suc r) b) (nz, p) =
      (refl, refl, probe-Saw n t q v started clock few past op r b nz p)
  late_step-Late k (loading op b) s = (refl, refl, load-Saw n t q v started clock few past op b s)
  late_step-Late k (numbering op b r) s =
      let c = past.clock in
      (refl, refl, ((s.0, s.1, s.2, s.3, past.started, omega (arith, c)), refl))
  late_step-Late k (marking op i u) s = (refl, refl, (mark_saw op i u, refl))
  late_step-Late k (reserving op r b) s = step-Steps n t v started clock (reserving op r b) s
  late_step-Late k (counting op b) s = step-Steps n t v started clock (counting op b) s
  late_step-Late k (stepping op b r e) s = step-Steps n t v started clock (stepping op b r e) s
  late_step-Late k (installing op b o c) s = step-Steps n t v started clock (installing op b o c) s
  late_step-Late k (tallying up a) s = step-Steps n t v started clock (tallying up a) s
  late_step-Late k (finished a) s = step-Steps n t v started clock (finished a) s
  late_step-Late k (migrating op) s = step-Steps n t v started clock (migrating op) s
  late_step-Late k (flagging op i u) s = step-Steps n t v started clock (flagging op i u) s
  late_step-Late k (checking op i u) s = step-Steps n t v started clock (checking op i u) s
  late_step-Late k (emptying op i u) s = step-Steps n t v started clock (emptying op i u) s
  late_step-Late k (marked op u) s = step-Steps n t v started clock (marked op u) s

-- The tables of the history, with `n` more actions to come.
abbrev pub ArePast : ℕ → Hihat → List Hihat → Type 0
ArePast n t [] = Unit
ArePast n t (q ∷ past) = IsPast n t q × ArePast n t past

pub record IsHistory (n : ℕ) (x : History) : Type 0 where
  pub world : IsWorld n x.world
  pub past : ArePast n x.world.table x.past

-- A table is one of its own history.
pub itself :
    (n : ℕ) (t : Hihat)
    → IsStore t.store_current
    → 0 < t.next_epoch
    → t.next_epoch + n < 2 ^ 61
    → IsPast n t t
itself n t v started clock = record {
  store = v;
  started = started;
  clock = clock;
  slots = refl;
  grows = Grows-refl (flats t.store_current.buckets);
}

pub past_at-IsPast :
    (n : ℕ) (t : Hihat) (past : List Hihat) (k : ℕ)
    → IsPast n t t
    → ArePast n t past
    → IsPast n t (past_at past k t)
past_at-IsPast n t [] k own all = own
past_at-IsPast n t (q ∷ past) zero own (here, all) = here
past_at-IsPast n t (q ∷ past) (suc k) own (here, all) = past_at-IsPast n t past k own all

-- A table of the history stays one.
pub IsPast-later :
    (n : ℕ) (t t' q : Hihat)
    → IsStore t.store_current
    → IsStore t'.store_current
    → Grows (flats t.store_current.buckets) (flats t'.store_current.buckets)
    → IsPast (suc n) t q
    → IsPast n t' q
IsPast-later n t t' q v v' g p =
    let before = p.grows in
    let wide = g.width in
    let counted = length-flats t.store_current.buckets in
    let counted' = length-flats t'.store_current.buckets in
    let same : t.store_current.last_slot ≡ t'.store_current.last_slot =
      omega (arith, v.width, v'.width, wide, counted, counted') in
    let clock = p.clock in
    record {
      store = p.store;
      started = p.started;
      clock = omega (arith, clock);
      slots = p.slots ∙ same;
      grows = record {
        width = wide ∙ before.width;
        keeps = λ i nz. g.keeps i (λ z. nz (sym (before.keeps i nz) ∙ z)) ∙ before.keeps i nz;
      };
    }

pub ArePast-later :
    (n : ℕ) (t t' : Hihat) (past : List Hihat)
    → IsStore t.store_current
    → IsStore t'.store_current
    → Grows (flats t.store_current.buckets) (flats t'.store_current.buckets)
    → ArePast (suc n) t past
    → ArePast n t' past
ArePast-later n t t' [] v v' g all = tt
ArePast-later n t t' (q ∷ past) v v' g (here, all) =
    (IsPast-later n t t' q v v' g here, ArePast-later n t t' past v v' g all)

-- The maps of the history.
abbrev pub maps_of : List Hihat → List Map
maps_of [] = []
maps_of (q ∷ past) = map_of q ∷ maps_of past

pub maps_of-past_at :
    (past : List Hihat) (k : ℕ) (t : Hihat)
    → map_of (past_at past k t) ≡ past_at (maps_of past) k (map_of t)
maps_of-past_at [] k t = refl
maps_of-past_at (q ∷ past) zero t = refl
maps_of-past_at (q ∷ past) (suc k) t = maps_of-past_at past k t
