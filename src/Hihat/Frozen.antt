-- ===== src/Hihat/Frozen.antt =====
-- hihat.c: what a marked bucket holds can be copied, whatever the threads do.
use hatrack.Prelude.{refl, ◌∙◌, List, [], ◌∷◌, length}
use hatrack.Hihat.Machine.{World, Action, runs, calls, act, run}
use hatrack.Hihat.Schedules.{IsWorld, AreNonZero, runs-IsWorld, calls-IsWorld}
use hatrack.Hihat.Marked.{step-Marks}
use hatrack.Hihat.Keeps.{Kept, step-Kept}

-- In any schedule, a bucket that is marked keeps its item and its epoch: what the migration copies can no
-- longer change.
pub run_frozen :
    (schedule : List Action) (w : World)
    → IsWorld (length schedule) w
    → AreNonZero schedule
    → Kept w.table.store_current.buckets (run w schedule).1.table.store_current.buckets
unfolding run act
run_frozen [] w g nz j e = (refl, refl)
run_frozen (runs i ∷ rest) w g nz j e =
    let t = w.table in
    let own = step-Kept t _ (w.pcs i) (g.stands i) j e in
    let marks = step-Marks t g.store _ (w.pcs i) (g.stands i) in
    let later = run_frozen rest (act w (runs i)).1 (runs-IsWorld w i g).0 nz j (marks.keeps j e) in
    (later.0 ∙ own.0, later.1 ∙ own.1)
run_frozen (calls i op ∷ rest) w g nz j e =
    run_frozen rest (act w (calls i op)).1 (calls-IsWorld w i op nz.0 g) nz.1 j e
