-- ===== src/Hihat/Schedules.antt =====
-- Any schedule of threads on one store of hihat.c: what the steps do is a sequence of calls of a map.
use hatrack.Prelude.{
  ℕ, suc, ◌+◌, ◌-◌, ◌^◌, ◌<◌, ◌≡◌, ◌≢◌, refl, ap, arith, ◌==◌, List, [], ◌∷◌, length, add64, inl,
  inr, Bool-cases,
}
use hatrack.Common.{bucket_index}
use hatrack.FiniteMap.{Op, Map, hash_of}
use hatrack.Refhat
use hatrack.Hihat.{Store}
use hatrack.Hihat.Steps.{
  Pc, probing, reserving, counting, loading, numbering, stepping, installing, tallying, finished,
  migrating, marking, flagging, checking, emptying, marked, Event, quiet, acts, loses,
}
use hatrack.Hihat.Machine.{World, Action, runs, calls, set_pc, start_if, act, run, Replays}
use hatrack.Hihat.Flat.{flats, length-flats}
use hatrack.Hihat.Position.{at_home, Grows}
use hatrack.Hihat.Invariant.{IsStore, Stands, Stands-Grows, Grows-refl, map_of}
use hatrack.Hihat.Linear.{step-Steps}

-- What holds between two actions, with `n` more to come.
pub record IsWorld (n : ℕ) (w : World) : Type 0 where
  pub store : IsStore w.table.store_current
  pub started : 0 < w.table.next_epoch
  pub clock : w.table.next_epoch + n < 2 ^ 61
  pub stands : (i : ℕ) → Stands (flats w.table.store_current.buckets) n (w.pcs i)

-- No call is made with the hash value 0.
abbrev pub AreNonZero : List Action → Type 0
AreNonZero [] = Unit
AreNonZero (runs i ∷ rest) = AreNonZero rest
AreNonZero (calls i op ∷ rest) = (hash_of op ≢ 0) × AreNonZero rest

pub set_pc-Stands :
    {fs fs' : List Refhat.Bucket} (n : ℕ) (pcs : ℕ → Pc) (i : ℕ) (pc : Pc)
    → Grows fs fs'
    → ((j : ℕ) → Stands fs (suc n) (pcs j))
    → Stands fs' n pc
    → (j : ℕ) → Stands fs' n (set_pc pcs i pc j)
set_pc-Stands n pcs i pc g all now j = elim (Bool-cases (j == i)) [
  | inl same ↦ rw same now
  | inr other ↦ rw other (Stands-Grows n (pcs j) g (all j))
]

pub start_if-Stands :
    (n : ℕ) (s : Store) (op : Op) (pc : Pc)
    → IsStore s
    → hash_of op ≢ 0
    → Stands (flats s.buckets) (suc n) pc
    → Stands (flats s.buckets) n (start_if s op pc)
start_if-Stands n s op (finished answer) v nz st =
    let wide = length-flats s.buckets in
    let rounds : add64 s.last_slot 1 ≡ length (flats s.buckets) =
      omega (arith, v.width, v.word, wide) in
    let last : s.last_slot ≡ length (flats s.buckets) - 1 = omega (arith, v.width, wide) in
    (nz, at_home _ _ rounds (ap (bucket_index (hash_of op)) last))
start_if-Stands n s op (probing o r b) v nz st = Stands-Grows n (probing o r b) (Grows-refl _) st
start_if-Stands n s op (reserving o r b) v nz st =
    Stands-Grows n (reserving o r b) (Grows-refl _) st
start_if-Stands n s op (counting o b) v nz st = st
start_if-Stands n s op (loading o b) v nz st = st
start_if-Stands n s op (numbering o b r) v nz st = st
start_if-Stands n s op (stepping o b r e) v nz st =
    Stands-Grows n (stepping o b r e) (Grows-refl _) st
start_if-Stands n s op (installing o b r c) v nz st = st
start_if-Stands n s op (tallying up answer) v nz st = tt
start_if-Stands n s op (migrating o) v nz st = tt
start_if-Stands n s op (marking o i u) v nz st = tt
start_if-Stands n s op (flagging o i u) v nz st = tt
start_if-Stands n s op (checking o i u) v nz st = tt
start_if-Stands n s op (emptying o i u) v nz st = tt
start_if-Stands n s op (marked o u) v nz st = tt

pub runs-IsWorld :
    {n : ℕ} (w : World) (i : ℕ)
    → IsWorld (suc n) w
    → let (event, w') = act w (runs i) in
      IsWorld n w' × Replays (map_of w.table) (event ∷ []) (map_of w'.table)
unfolding act
runs-IsWorld {n} w i g =
    let s = step-Steps n w.table g.store g.started g.clock (w.pcs i) (g.stands i) in
    (
      record {
        store = s.store;
        started = s.started;
        clock = s.clock;
        stands = set_pc-Stands n w.pcs i _ s.grows g.stands s.stands;
      },
      s.replays,
    )

pub calls-IsWorld :
    {n : ℕ} (w : World) (i : ℕ) (op : Op)
    → hash_of op ≢ 0
    → IsWorld (suc n) w
    → IsWorld n (act w (calls i op)).1
unfolding act
calls-IsWorld {n} w i op nz g = record {
  store = g.store;
  started = g.started;
  clock = omega (arith, g.clock);
  stands =
      set_pc-Stands n w.pcs i _ (Grows-refl _) g.stands
        (start_if-Stands n w.table.store_current op (w.pcs i) g.store nz (g.stands i));
}

pub Replays-cons :
    (m m' m'' : Map) (event : Event) (events : List Event)
    → Replays m (event ∷ []) m'
    → Replays m' events m''
    → Replays m (event ∷ events) m''
Replays-cons m m' m'' quiet events e r = rw e r
Replays-cons m m' m'' (acts op answer) events (a, e) r = (a, rw e r)
Replays-cons m m' m'' (loses op answer) events e r = rw e r

-- In a world where the threads and the store are as the calls leave them, any schedule of steps and of
-- new calls, none of them at the hash value 0, answers each call that acts as a map does, in the order
-- of the steps at which they act, and leaves the table with that map's contents. The epochs must not
-- run out.
pub run-Replays :
    (schedule : List Action) (w : World)
    → IsWorld (length schedule) w
    → AreNonZero schedule
    → let (events, last) = run w schedule in
      IsWorld 0 last × Replays (map_of w.table) events (map_of last.table)
unfolding run
run-Replays [] w g nz = (g, refl)
run-Replays (runs i ∷ rest) w g nz =
    let (g', r) = runs-IsWorld w i g in
    let (g'', r') = run-Replays rest (act w (runs i)).1 g' nz in
    (g'', Replays-cons _ _ _ (act w (runs i)).0 _ r r')
run-Replays (calls i op ∷ rest) w g nz =
    run-Replays rest (act w (calls i op)).1 (calls-IsWorld w i op nz.0 g) nz.1
