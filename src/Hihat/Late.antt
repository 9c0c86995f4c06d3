-- ===== src/Hihat/Late.antt =====
-- The loads of hihat.c are relaxed: `atomic_read` may return an older value of its location than the last one.
-- Here a load yields what any table of the history holds there. The compare-and-swaps, the ORs and the
-- fetch-and-add see the last value.
pub mod Loads
pub mod Runs
pub mod Explains
mod Tests
use hatrack.Prelude.{ℕ, suc, zero, ◌≡◌, ◌==◌, if◌then◌else◌, List, [], ◌∷◌}
use hatrack.FiniteMap.{Op, Map, spec}
use hatrack.Hihat.{Hihat}
use hatrack.Hihat.Steps.{
  Pc, probing, reserving, counting, loading, numbering, stepping, installing, tallying, finished,
  migrating, marking, flagging, checking, emptying, marked, Event, quiet, acts, loses,
}
use hatrack.Hihat.Machine.{World, Action, act, set_pc, step, Replays}

-- A step is seen in the table as it is, or it is a load from so many tables ago.
pub data Witnessed : Type 0 where
  now : Event → Witnessed
  was : ℕ → Event → Witnessed

-- The table before so many changes, and the present one where there were fewer.
abbrev pub past_at : {A : Type 0} → List A → ℕ → A → A
past_at [] k t = t
past_at (q ∷ past) zero t = q
past_at (q ∷ past) (suc k) t = past_at past k t

abbrev pub only_now : Hihat × Pc × Event → Hihat × Pc × Witnessed
only_now (t, pc, event) = (t, pc, now event)

abbrev pub loaded : ℕ → Hihat → Hihat × Pc × Event → Hihat × Pc × Witnessed
loaded k t (q, pc, event) = (t, pc, was k event)

-- The steps that load a hash value or a record for a call, `next_epoch`, or a record before the marking of
-- its bucket, from the table `q`. The load after the marking is of the location just written.
unfoldable pub late_step : ℕ → Hihat → Hihat → Pc → Hihat × Pc × Witnessed
unfolding step
late_step k q t (probing op zero bix) = only_now (step t (probing op zero bix))
late_step k q t (probing op (suc rounds) bix) = loaded k t (step q (probing op (suc rounds) bix))
late_step k q t (loading op bix) = loaded k t (step q (loading op bix))
late_step k q t (numbering op bix r) = loaded k t (step q (numbering op bix r))
late_step k q t (marking op i new_used) = loaded k t (step q (marking op i new_used))
late_step k q t (reserving op rounds bix) = only_now (step t (reserving op rounds bix))
late_step k q t (counting op bix) = only_now (step t (counting op bix))
late_step k q t (stepping op bix r e) = only_now (step t (stepping op bix r e))
late_step k q t (installing op bix old c) = only_now (step t (installing op bix old c))
late_step k q t (tallying up answer) = only_now (step t (tallying up answer))
late_step k q t (finished answer) = only_now (step t (finished answer))
late_step k q t (migrating op) = only_now (step t (migrating op))
late_step k q t (flagging op i new_used) = only_now (step t (flagging op i new_used))
late_step k q t (checking op i new_used) = only_now (step t (checking op i new_used))
late_step k q t (emptying op i new_used) = only_now (step t (emptying op i new_used))
late_step k q t (marked op new_used) = only_now (step t (marked op new_used))

-- The threads and the table, and the tables before, the last one first.
pub record History : Type 0 where
  pub world : World
  pub past : List Hihat

-- An action that sees the present table, or a step of a thread that loads from an older one.
pub data LateAction : Type 0 where
  present : Action → LateAction
  reads : (i k : ℕ) → LateAction

unfoldable pub late_act : History → LateAction → Witnessed × History
unfolding act late_step
late_act x (present a) =
    let (event, w) = act x.world a in
    (now event, record { world = w; past = x.world.table ∷ x.past })
late_act x (reads i k) =
    let t = x.world.table in
    let (t', pc, event) = late_step k (past_at x.past k t) t (x.world.pcs i) in
    (
      event,
      record { world = record { table = t'; pcs = set_pc x.world.pcs i pc }; past = t ∷ x.past },
    )

unfoldable pub late_run : History → List LateAction → List Witnessed × History
unfolding late_act
late_run x [] = ([], x)
late_run x (a ∷ rest) =
    let (event, x') = late_act x a in
    let (events, last) = late_run x' rest in (event ∷ events, last)

-- The events are calls of a map that starts as `m` and was what `before` lists, the last one first. A call
-- that was seen in an older map changes nothing, and its answer was right for that map.
abbrev pub Explained : List Map → Map → List Witnessed → Map → Type 0
Explained before m [] m' = m ≡ m'
Explained before m (now quiet ∷ es) m' = Explained (m ∷ before) m es m'
Explained before m (now (acts op answer) ∷ es) m' =
    (answer ≡ (spec m op).0) × Explained (m ∷ before) (spec m op).1 es m'
Explained before m (now (loses op answer) ∷ es) m' = Explained (m ∷ before) m es m'
Explained before m (was k event ∷ es) m' =
    Replays (past_at before k m) (event ∷ []) (past_at before k m) × Explained (m ∷ before) m es m'
