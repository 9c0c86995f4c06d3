-- ===== src/Hihat/Late/Explains.antt =====
-- hihat.c: what the calls of a schedule answer when loads may see older values.
use hatrack.Prelude.{ℕ, suc, ◌+◌, ◌^◌, ◌<◌, ◌≢◌, refl, sym, subst, arith, List, [], ◌∷◌}
use hatrack.FiniteMap.{Map, hash_of}
use hatrack.Hihat.{Hihat}
use hatrack.Hihat.Steps.{Pc, Event, quiet, acts, loses}
use hatrack.Hihat.Machine.{runs, calls, set_pc, Replays}
use hatrack.Hihat.Flat.{flats}
use hatrack.Hihat.Invariant.{Steps, Stands, Grows-refl, map_of}
use hatrack.Hihat.Linear.{step-Steps}
use hatrack.Hihat.Schedules.{set_pc-Stands, calls-IsWorld}
use hatrack.Hihat.Late.{
  Witnessed, now, was, past_at, late_step, History, LateAction, present, reads, late_act, Explained,
}
use hatrack.Hihat.Late.Loads.{IsPast}
use hatrack.Hihat.Late.Runs.{
  Late, late_step-Late, ArePast, IsHistory, itself, past_at-IsPast, ArePast-later, maps_of,
  maps_of-past_at,
}

Explained-now :
    (before : List Map) (m m1 m' : Map) (event : Event) (es : List Witnessed)
    → Replays m (event ∷ []) m1
    → Explained (m ∷ before) m1 es m'
    → Explained before m (now event ∷ es) m'
Explained-now before m m1 m' quiet es e r = subst (λ x. Explained (m ∷ before) x es m') (sym e) r
Explained-now before m m1 m' (acts op answer) es (a, e) r =
    (a, subst (λ x. Explained (m ∷ before) x es m') (sym e) r)
Explained-now before m m1 m' (loses op answer) es e r =
    subst (λ x. Explained (m ∷ before) x es m') (sym e) r

-- No call is made with the hash value 0.
abbrev pub AreLateNonZero : List LateAction → Type 0
AreLateNonZero [] = Unit
AreLateNonZero (present (runs i) ∷ rest) = AreLateNonZero rest
AreLateNonZero (present (calls i op) ∷ rest) = (hash_of op ≢ 0) × AreLateNonZero rest
AreLateNonZero (reads i k ∷ rest) = AreLateNonZero rest

-- One action, and how its event goes before those of the later ones.
abbrev Goes : ℕ → History → Witnessed × History → Type 0
Goes n x (event, x') =
    IsHistory n x'
    × ((es : List Witnessed) (m' : Map)
        → Explained (maps_of x'.past) (map_of x'.world.table) es m'
        → Explained (maps_of x.past) (map_of x.world.table) (event ∷ es) m')

module _ (n : ℕ) (x : History) (g : IsHistory (suc n) x) where
  abbrev t : Hihat
  t = x.world.table

  own : IsPast (suc n) t t
  own = let w = g.world in itself (suc n) t w.store w.started w.clock

  past_later :
      (t' : Hihat) (pc : Pc) (event : Event) → Steps n t t' pc event → ArePast n t' (t ∷ x.past)
  past_later t' pc event s =
      let w = g.world in ArePast-later n t t' (t ∷ x.past) w.store s.store s.grows (own, g.past)

  -- A step that changes the table, or sees it as it is.
  now-Goes :
      (i : ℕ) (t' : Hihat) (pc : Pc) (event : Event)
      → Steps n t t' pc event
      → Goes n x (
        now event,
        record { world = record { table = t'; pcs = set_pc x.world.pcs i pc }; past = t ∷ x.past },
      )
  now-Goes i t' pc event s =
      let w = g.world in
      (
        record {
          world = record {
            store = s.store;
            started = s.started;
            clock = s.clock;
            stands = set_pc-Stands n x.world.pcs i pc s.grows w.stands s.stands;
          };
          past = past_later t' pc event s;
        },
        λ es m' r. Explained-now (maps_of x.past) (map_of t) (map_of t') m' event es s.replays r,
      )

  same-Steps : (pc : Pc) → Stands (flats t.store_current.buckets) n pc → Steps n t t pc quiet
  same-Steps pc st =
      let w = g.world in
      record {
        store = w.store;
        grows = Grows-refl (flats t.store_current.buckets);
        started = w.started;
        clock = (let c = w.clock in omega (arith, c));
        stands = st;
        replays = refl;
      }

  Late-Goes :
      (i k : ℕ) (r : Hihat × Pc × Witnessed)
      → Late n t (past_at x.past k t) k r
      → Goes n x (
        r.2,
        record {
          world = record { table = r.0; pcs = set_pc x.world.pcs i r.1 };
          past = t ∷ x.past;
        },
      )
  Late-Goes i k (t', pc, now event) s = now-Goes i t' pc event s
  Late-Goes i k (t', pc, was j event) (e, ej, (st, saw)) =
      let w = g.world in
      let same = same-Steps pc st in
      let late : Goes n x (
        was k event,
        record { world = record { table = t; pcs = set_pc x.world.pcs i pc }; past = t ∷ x.past },
      ) =
        (
          record {
            world = record {
              store = same.store;
              started = same.started;
              clock = same.clock;
              stands = set_pc-Stands n x.world.pcs i pc same.grows w.stands same.stands;
            };
            past = past_later t pc quiet same;
          },
          λ es m' r. (subst (λ m. Replays m (event ∷ []) m) (maps_of-past_at x.past k t) saw, r),
        ) in
      rw (e, ej) late

  pub late_act-Goes :
      (a : LateAction) → n + 3 < 2 ^ 61 → AreLateNonZero (a ∷ []) → Goes n x (late_act x a)
  unfolding late_act
  late_act-Goes (present (runs i)) few nz =
      let w = g.world in
      now-Goes i _ _ _ (step-Steps n t w.store w.started w.clock (x.world.pcs i) (w.stands i))
  late_act-Goes (present (calls i op)) few nz =
      let w = g.world in
      let grown = Grows-refl (flats t.store_current.buckets) in
      (
        record {
          world = calls-IsWorld x.world i op nz.0 w;
          past = ArePast-later n t t (t ∷ x.past) w.store w.store grown (own, g.past);
        },
        λ es m' r. r,
      )
  late_act-Goes (reads i k) few nz =
      let w = g.world in
      let q = past_at-IsPast (suc n) t x.past k own g.past in
      Late-Goes i k (late_step k (past_at x.past k t) t (x.world.pcs i)) (
        late_step-Late n t (past_at x.past k t) w.store w.started w.clock few q k (x.world.pcs i)
          (w.stands i))
