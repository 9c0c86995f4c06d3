-- ===== src/Hihat/Machine.antt =====
-- Threads that call hihat.c on one store, one atomic step at a time, in the order of a schedule.
use hatrack.Prelude.{ℕ, ◌+◌, ◌≡◌, ◌==◌, if◌then◌else◌, List, [], ◌∷◌, add64, sub64}
use hatrack.Common.{bucket_index}
use hatrack.FiniteMap.{Op, Map, spec, hash_of}
use hatrack.Hihat.{Store, Hihat}
use hatrack.Hihat.Steps.{
  Pc, probing, reserving, counting, loading, numbering, stepping, installing, tallying, finished,
  migrating, marking, flagging, checking, emptying, marked, Event, quiet, acts, loses, Outcome,
  with_store, new_record, probe_step, reserve_step, count_step, load_step, install_step,
}
use hatrack.Hihat.Marking.{mark_step, flag_moving, flag_moved, check_step}
use hatrack.Hihat.{bucket_at}

-- `hihat_get` and the others up to the first step of their loop.
abbrev pub start : Store → Op → Pc
start self op = probing op (add64 self.last_slot 1) (bucket_index (hash_of op) self.last_slot)

unfoldable pub step : Hihat → Pc → Outcome
unfolding probe_step reserve_step count_step load_step install_step mark_step check_step
step self (probing op rounds bix) =
    let (pc, event) = probe_step self.store_current op rounds bix in (self, pc, event)
step self (reserving op rounds bix) =
    let (store, pc) = reserve_step self.store_current op rounds bix in
    (with_store self store, pc, quiet)
step self (counting op bix) =
    let (store, pc) = count_step self.store_current op bix in (with_store self store, pc, quiet)
step self (loading op bix) =
    let (pc, event) = load_step op bix (bucket_at self.store_current.buckets bix).rec in
    (self, pc, event)
step self (numbering op bix r) = (self, stepping op bix r self.next_epoch, quiet)
step self (stepping op bix r epoch) =
    (record self { next_epoch = add64 epoch 1 }, installing op bix r (new_record op epoch), quiet)
step self (installing op bix expected candidate) =
    let (store, pc, event) = install_step self.store_current op bix expected candidate in
    (with_store self store, pc, event)
step self (tallying up answer) = (
  record self { item_count = if up then add64 self.item_count 1 else sub64 self.item_count 1 },
  finished answer,
  quiet,
)
step self (finished answer) = (self, finished answer, quiet)
step self (migrating op) = (self, marking op 0 0, quiet)
step self (marking op i new_used) = (self, mark_step self.store_current op i new_used, quiet)
step self (flagging op i new_used) =
    (with_store self (flag_moving self.store_current i), checking op i new_used, quiet)
step self (checking op i new_used) = (self, check_step self.store_current op i new_used, quiet)
step self (emptying op i new_used) =
    (with_store self (flag_moved self.store_current i), marking op (i + 1) new_used, quiet)
step self (marked op new_used) = (self, marked op new_used, quiet)

-- The table, and where each thread stands.
pub record World : Type 0 where
  pub table : Hihat
  pub pcs : ℕ → Pc

-- A thread takes its next step, or a thread whose last call has returned makes another.
pub data Action : Type 0 where
  runs : ℕ → Action
  calls : ℕ → Op → Action

abbrev pub set_pc : (ℕ → Pc) → ℕ → Pc → ℕ → Pc
set_pc pcs i pc j = if j == i then pc else pcs j

abbrev pub start_if : Store → Op → Pc → Pc
start_if self op (finished answer) = start self op
start_if self op pc = pc

unfoldable pub act : World → Action → Event × World
unfolding step
act w (runs i) =
    let (table, pc, event) = step w.table (w.pcs i) in
    (event, record { table = table; pcs = set_pc w.pcs i pc })
act w (calls i op) =
    (quiet, record w { pcs = set_pc w.pcs i (start_if w.table.store_current op (w.pcs i)) })

unfoldable pub run : World → List Action → List Event × World
unfolding act
run w [] = ([], w)
run w (a ∷ rest) =
    let (event, w') = act w a in let (events, last) = run w' rest in (event ∷ events, last)

-- The events are calls of a map that answers as they did, from one map to another. A call that has
-- lost has no effect.
abbrev pub Replays : Map → List Event → Map → Type 0
Replays m [] m' = m ≡ m'
Replays m (quiet ∷ events) m' = Replays m events m'
Replays m (acts op answer ∷ events) m' = (answer ≡ (spec m op).0) × Replays (spec m op).1 events m'
Replays m (loses op answer ∷ events) m' = Replays m events m'
