-- ===== src/Mmm/Tests.antt =====
-- The theorems about mmm.c at two threads, of which the first is in an operation.
use hatrack.Prelude.{
  ℕ, zero, suc, count_by, ◌≤◌, ◌<◌, ◌≡◌, ◌≢◌, refl, arith, not, none, some, ◌⊎◌, List, [], ◌∷◌,
  filter, get_or,
}
use hatrack.Mmm.{threads_max, epoch_unreserved, Header, Mmm, Thread, alloc, empty, retire, end_op}
use hatrack.Mmm.Threads.{register_thread, tid_giveback, clean_up_before_exit}
use hatrack.Mmm.Reclaim.{IsOrdered, unread, empty-filter}
use hatrack.Mmm.Retire.{All, retire-IsOrdered, clean_up_before_exit_total}
use hatrack.Mmm.Commit.{commit_step, committed, Action, commits, helps, runs, act, run}
use hatrack.Mmm.WriteEpoch.{idle, run_commits}
use hatrack.Mmm.Tids.{AreLeased, register_thread-AreLeased}

abbrev retired : ℕ → ℕ → Header
retired ptr epoch = record (alloc ptr) { write_epoch = 1; retire_epoch = epoch }

-- The second thread has reserved the epoch 6.
abbrev shared : Mmm
shared = record {
  epoch = 9;
  nexttid = 2;
  reservations = epoch_unreserved ∷ 6 ∷ 0 ∷ 0 ∷ [];
  free_tids = [];
}

abbrev worker : Thread
worker = record {
  mytid = some 0;
  retire_list = retired 30 8 ∷ retired 20 6 ∷ retired 10 5 ∷ [];
  retire_ctr = 127;
}

worker-IsOrdered : IsOrdered shared worker.retire_list
worker-IsOrdered = record {
  descends = ((omega arith, (omega arith, tt)), ((omega arith, tt), (tt, tt)));
  below = (omega arith, (omega arith, (omega arith, tt)));
}

empty-worker :
    empty shared worker
    ≡ some (record worker { retire_list = retired 30 8 ∷ retired 20 6 ∷ [] }, retired 10 5 ∷ [])
unfolding empty
empty-worker = refl

empty-filter_example :
    empty shared worker
    ≡ some (
      record worker { retire_list = filter (λ c. not (unread shared c)) worker.retire_list },
      filter (unread shared) worker.retire_list,
    )
empty-filter_example = empty-filter shared worker worker-IsOrdered (λ e. cc)

retire-IsOrdered_example :
    (t' : Thread) × (cells : List Header) × (retire shared worker (alloc 40) ≡ some (t', cells))
    × IsOrdered shared t'.retire_list
    × All (unread shared) cells
retire-IsOrdered_example = retire-IsOrdered shared worker (alloc 40) worker-IsOrdered

-- The second thread has ended its operation.
abbrev quiet : Mmm
quiet = record shared { reservations = 9 ∷ epoch_unreserved ∷ 0 ∷ 0 ∷ [] }

quiet-others : (j : ℕ) → j < 2 → j ≢ 0 → 9 < get_or (9 ∷ epoch_unreserved ∷ 0 ∷ 0 ∷ []) j 0
quiet-others zero l ne = absurd (ne refl)
quiet-others (suc zero) l ne = omega arith
quiet-others (suc (suc j)) l ne = absurd (omega arith)

clean_up_before_exit_total_example :
    clean_up_before_exit 2 50 quiet worker
    ≡ some
        (tid_giveback (end_op quiet 0) 0 50, record worker { retire_list = [] }, worker.retire_list)
clean_up_before_exit_total_example =
    clean_up_before_exit_total quiet worker 0 50 refl (omega arith)
      (record { descends = worker-IsOrdered.descends; below = worker-IsOrdered.below })
      (omega arith) quiet-others

-- Thread 0 has made an epoch for a cell and stalls. Thread 1 helps, and writes a later one.
abbrev helped : List Action
helped = commits 0 ∷ runs 0 ∷ helps 1 ∷ runs 1 ∷ runs 1 ∷ runs 1 ∷ runs 0 ∷ []

-- Two threads that come later.
abbrev late : List Action
late = helps 2 ∷ runs 2 ∷ commits 3 ∷ runs 3 ∷ runs 3 ∷ []

helped_ends :
    let w = run (idle shared (alloc 60)) helped in
    (w.item.write_epoch ≡ 11) × (w.mmm.epoch ≡ 11) × (w.pcs 0 ≡ committed)
unfolding run act commit_step
helped_ends = (refl, refl, refl)

run_commits_example :
    let w = run (idle shared (alloc 60)) helped in
    (9 < w.item.write_epoch)
    × (w.item.write_epoch ≤ w.mmm.epoch)
    × ((run w late).item.write_epoch ≡ w.item.write_epoch)
run_commits_example = run_commits shared (alloc 60) helped late 0 refl (omega arith) helped_ends.2

abbrev newcomer : Thread
newcomer = record { mytid = none; retire_list = []; retire_ctr = 0 }

shared-AreLeased : AreLeased shared (0 ∷ 1 ∷ [])
unfolding count_by
shared-AreLeased x = ground arith

register_thread-AreLeased_example :
    ((register_thread shared newcomer ≡ none) × (threads_max ≤ 2) × (shared.free_tids ≡ []))
    ⊎ ((tid : ℕ) × (m' : Mmm) × (t' : Thread) × (cells : List Header) × (register_thread shared
            newcomer
          ≡ some (m', t', cells))
        × (t'.mytid ≡ some tid)
        × AreLeased m' (tid ∷ 0 ∷ 1 ∷ []))
register_thread-AreLeased_example =
    register_thread-AreLeased shared newcomer (0 ∷ 1 ∷ []) refl (omega arith)
      (record { descends = tt; below = tt }) shared-AreLeased
