-- ===== src/Mmm/Commit.antt =====
-- `mmm_commit_write` and `mmm_help_commit` of several threads at one cell, by their atomic steps.
use hatrack.Prelude.{ℕ, ◌==◌, add64, if◌then◌else◌, List, [], ◌∷◌}
use hatrack.Mmm.{Header, Mmm, bump}

-- Where a thread is: in no such call, before the load of the write epoch, before the fetch-and-add, before the
-- compare-and-swap, and after the call.
pub data Committing : Type 0 where
  outside : Committing
  loading : Committing
  fetching : Committing
  swapping : ℕ → Committing
  committed : Committing

-- `mmm_commit_write` starts at `fetching` and `mmm_help_commit` at `loading`.
unfoldable pub commit_step : Mmm → Header → Committing → Mmm × Header × Committing
commit_step m item outside = (m, item, outside)
commit_step m item loading = (m, item, if item.write_epoch == 0 then fetching else committed)
commit_step m item fetching = (bump m, item, swapping (add64 m.epoch 1))
commit_step m item (swapping cur_epoch) =
    (m, if item.write_epoch == 0 then record item { write_epoch = cur_epoch } else item, committed)
commit_step m item committed = (m, item, committed)

pub record World : Type 0 where
  pub mmm : Mmm
  pub item : Header
  pub pcs : ℕ → Committing

-- A thread calls `mmm_commit_write` or `mmm_help_commit`, or takes its next step.
pub data Action : Type 0 where
  commits : ℕ → Action
  helps : ℕ → Action
  runs : ℕ → Action

abbrev pub set_pc : (ℕ → Committing) → ℕ → Committing → ℕ → Committing
set_pc pcs i pc j = if j == i then pc else pcs j

unfoldable pub act : World → Action → World
unfolding commit_step
act w (commits i) = record w { pcs = set_pc w.pcs i fetching }
act w (helps i) = record w { pcs = set_pc w.pcs i loading }
act w (runs i) =
    let (m, item, pc) = commit_step w.mmm w.item (w.pcs i) in
    record { mmm = m; item = item; pcs = set_pc w.pcs i pc }

unfoldable pub run : World → List Action → World
unfolding act
run w [] = w
run w (a ∷ rest) = run (act w a) rest
