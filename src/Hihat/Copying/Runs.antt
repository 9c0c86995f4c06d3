-- ===== src/Hihat/Copying/Runs.antt =====
-- hihat.c: threads that migrate and threads that call the new store, in the order of a schedule.
use hatrack.Prelude.{ℕ, suc, ◌≢◌, refl, arith, ◌==◌, List, [], ◌∷◌, length, inl, inr, Bool-cases}
use hatrack.FiniteMap.{Op, hash_of}
use hatrack.Hihat.{Bucket}
use hatrack.Hihat.Steps.{Pc}
use hatrack.Hihat.Machine.{Action, runs, calls, step, Replays}
use hatrack.Hihat.Flat.{length-flats}
use hatrack.Hihat.Linear.{step-Steps}
use hatrack.Hihat.Schedules.{AreNonZero, start_if-Stands, Replays-cons}
use hatrack.Hihat.Copying.{
  Migration, Place, copies, works, new_store, new_table, work_step, place_step,
}
use hatrack.Hihat.Copying.Written.{Fills}
use hatrack.Hihat.Copying.Phase.{IsStart, IsAt, IsPhase, Moves, map_at}
use hatrack.Hihat.Copying.Stable.{IsAt-Fills, AllWritten-Fills, live_hv}
use hatrack.Hihat.Copying.Written.{IsWritten-Fills}
use hatrack.Hihat.Copying.Refills.{new_width, IsAt-later, IsPhase-later}
use hatrack.Hihat.Copying.Nonempty.{start_if-IsNonempty, step-IsNonempty, step-KeepsFull}
use hatrack.Hihat.Copying.Offers.{copy-Moves}
use hatrack.Hihat.Copying.World.{World, set_place, call_if, act, run}

module _ (start : List Bucket) (new_used : ℕ) (from : IsStart start new_used) where
  -- A step of a call on the new store.
  work-Moves :
      (n : ℕ) (m : Migration) (pc : Pc)
      → IsPhase start new_used (suc n) m
      → IsAt start new_used (suc n) m (works pc)
      → let (m', place, event) = work_step m pc in Moves start new_used n m m' place event
  unfolding work_step
  work-Moves n m pc h (p, s, e) =
      let (v, all) = h.open_to p in
      let st = step-Steps n (new_table m) v h.started h.clock pc s in
      let f : Fills (new_store m).buckets (step (new_table m) pc).0.store_current.buckets = record {
        grows = st.grows;
        full = step-KeepsFull (new_table m) pc e;
      } in
      let wide = st.grows.width in
      record {
        phase = record {
          width = h.width;
          same = h.same;
          settled = λ j l live moved.
              IsWritten-Fills _ _ _ (live_hv start new_used from j live) f
                (h.settled j l live moved);
          started = st.started;
          clock = st.clock;
          chosen = inr (
            st.store,
            omega (
              arith,
              wide,
              new_width start new_used from n m h v,
              length-flats (new_store m).buckets,
              length-flats (step (new_table m) pc).0.store_current.buckets,
            ),
          );
          part = λ q. ground (arith, p, q);
          open_to = λ q. (st.store, AllWritten-Fills start new_used from _ _ f all);
        };
        at_place = (p, st.stands, step-IsNonempty (new_table m) pc e);
        others = IsAt-Fills start new_used from n m (work_step m pc).0 f st.store (λ q. q);
        replays = rw p st.replays;
      }

  place-Moves :
      (n : ℕ) (m : Migration) (place : Place)
      → IsPhase start new_used (suc n) m
      → IsAt start new_used (suc n) m place
      → let (m', place', event) = place_step m place in Moves start new_used n m m' place' event
  unfolding place_step
  place-Moves n m (copies op u c) h a = copy-Moves start new_used n m op u c from h a
  place-Moves n m (works pc) h a = work-Moves n m pc h a

  call_if-IsAt :
      (n : ℕ) (m : Migration) (op : Op) (place : Place)
      → hash_of op ≢ 0
      → IsPhase start new_used (suc n) m
      → IsAt start new_used (suc n) m place
      → IsAt start new_used n m (call_if m op place)
  call_if-IsAt n m op (copies o u c) nz h a = a
  call_if-IsAt n m op (works pc) nz h (p, s, e) = (
    p,
    start_if-Stands n (new_store m) op pc (h.open_to p).0 nz s,
    start_if-IsNonempty (new_store m) op pc e,
  )

  -- The stores and the threads between two steps, with `n` more to come.
  pub record IsCopying (n : ℕ) (w : World) : Type 0 where
    pub phase : IsPhase start new_used n w.migration
    pub stand : (i : ℕ) → IsAt start new_used n w.migration (w.places i)

  set_place-IsAt :
      (n : ℕ) (m m' : Migration) (places : ℕ → Place) (i : ℕ) (place : Place)
      → ((p : Place) → IsAt start new_used (suc n) m p → IsAt start new_used n m' p)
      → ((j : ℕ) → IsAt start new_used (suc n) m (places j))
      → IsAt start new_used n m' place
      → (j : ℕ) → IsAt start new_used n m' (set_place places i place j)
  set_place-IsAt n m m' places i place later all it j = elim (Bool-cases (j == i)) [
    | inl same ↦ rw same it
    | inr other ↦ rw other (later (places j) (all j))
  ]

  pub runs-IsCopying :
      (n : ℕ) (w : World) (i : ℕ)
      → IsCopying (suc n) w
      → let (event, w') = act w (runs i) in
        IsCopying n w'
        × Replays
            (map_at start new_used w.migration)
            (event ∷ [])
            (map_at start new_used w'.migration)
  unfolding act
  runs-IsCopying n w i g =
      let m' = (place_step w.migration (w.places i)).0 in
      let s = place-Moves n w.migration (w.places i) g.phase (g.stand i) in
      (
        record {
          phase = s.phase;
          stand = set_place-IsAt n w.migration m' w.places i _ s.others g.stand s.at_place;
        },
        s.replays,
      )

  pub calls-IsCopying :
      (n : ℕ) (w : World) (i : ℕ) (op : Op)
      → hash_of op ≢ 0
      → IsCopying (suc n) w
      → IsCopying n (act w (calls i op)).1
  unfolding act
  calls-IsCopying n w i op nz g = record {
    phase = IsPhase-later start new_used from n w.migration g.phase;
    stand =
        set_place-IsAt n w.migration w.migration w.places i _
          (IsAt-later start new_used from n w.migration g.phase) g.stand
          (call_if-IsAt n w.migration op (w.places i) nz g.phase (g.stand i));
  }

  -- In any order of the steps of threads that migrate and of threads that call the new store once it is
  -- published, no item is lost and no call is undone.
  pub run-IsCopying :
      (schedule : List Action) (w : World)
      → IsCopying (length schedule) w
      → AreNonZero schedule
      → let (events, last) = run w schedule in
        IsCopying 0 last
        × Replays (map_at start new_used w.migration) events (map_at start new_used last.migration)
  unfolding run
  run-IsCopying [] w g nz = (g, refl)
  run-IsCopying (runs i ∷ rest) w g nz =
      let (g', r) = runs-IsCopying (length rest) w i g in
      let (g'', r') = run-IsCopying rest (act w (runs i)).1 g' nz in
      (g'', Replays-cons _ _ _ (act w (runs i)).0 _ r r')
  run-IsCopying (calls i op ∷ rest) w g nz =
      run-IsCopying rest (act w (calls i op)).1 (calls-IsCopying (length rest) w i op nz.0 g) nz.1
