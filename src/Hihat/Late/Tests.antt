-- ===== src/Hihat/Late/Tests.antt =====
-- A schedule of two threads on one store of hihat.c in which a load sees an older table.
use hatrack.Prelude.{◌++◌, ◌≡◌, refl, List, [], ◌∷◌, replicate}
use hatrack.Common.{bucket_index, compute_table_threshold, found_item, not_found}
use hatrack.FiniteMap.{op_get, op_put, reply, spec}
use hatrack.Hihat.{Hihat, store_new, init_size, same_record, view, collect}
use hatrack.Hihat.Steps.{quiet, acts, probe_step, reserve_step, count_step, load_step, install_step}
use hatrack.Hihat.Machine.{step, act, runs, calls}
use hatrack.Hihat.Fresh.{idle, fresh_table}
use hatrack.Hihat.Late.{LateAction, present, reads, late_act, late_run, late_step, now, was}

program : Unit {0}
unfolding init_size store_new fresh_table step act late_step late_act late_run probe_step
    reserve_step count_step load_step install_step same_record bucket_index compute_table_threshold
    spec view collect
program = tt

-- Thread 0 puts two items. Thread 1 then finds the second one, and after that misses the first one, as its
-- load of the hash value sees the table before all of this.
abbrev missing : List LateAction
missing =
    present (calls 0 (op_put 17 101)) ∷ replicate 8 (present (runs 0))
    ++ present (calls 0 (op_put 18 102)) ∷ replicate 8 (present (runs 0))
    ++ present (calls 1 (op_get 18)) ∷ replicate 2 (present (runs 1))
    ++ present (calls 1 (op_get 17)) ∷ reads 1 20 ∷ []

missing_answers :
    let (events, last) = late_run record { world = idle (fresh_table 4); past = [] } missing in
    events
    ≡ replicate 7 (now quiet)
      ++ now (acts (op_put 17 101) (reply not_found)) ∷ replicate 8 (now quiet)
      ++ now (acts (op_put 18 102) (reply not_found)) ∷ replicate 3 (now quiet)
      ++ now (acts (op_get 18) (reply (found_item 102)))
        ∷ now quiet
        ∷ was 20 (acts (op_get 17) (reply not_found))
        ∷ []
unfolding program
missing_answers = refl
