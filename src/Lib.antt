-- ===== src/Lib.antt =====
-- hatrack: concurrent data structures in C, and what has been verified of them.
--
-- The library's sequential hash table, refhat, is the reference that its concurrent tables are
-- tested against; the helpers in hatrack_common are shared by all of the tables; sets are built on
-- the table woolhat, of which they take consistent views.
--
-- Prelude: lists, options and machine words over the native numbers. A w-bit word keeps its
-- wrap-around written out (`add64`, `sub64`, `% 2 ^ w`).
--
-- Common: include/hatrack/hatrack_common.h and src/support/hatrack_common.c. A hash value is the
-- bit pattern of a 128-bit integer, a pointer is a number and NULL is 0. The default of
-- HATRACK_MIN_SIZE_LOG is used.
--
-- FiniteMap: what a table promises, a map from hash values to items with the five operations, and
-- their answers.
--
-- Refhat: src/hash/refhat.c. `Refhat` is `refhat_t`, and `get`, `put`, `replace`, `add`, `remove`,
-- `len`, `view`, `migrate`, `init` and `init_size` are the functions refhat_*. `probe_from` is the
-- loop that the operations share; it has `last_slot + 1` rounds as in the source, and reports
-- `__builtin_unreachable` as a value, which the operations pass on as `none`. `refhat_put` and
-- `refhat_add` call themselves after a migration: a call has fuel for two levels, which is enough
-- since a migration leaves room. Probing and Placed are about the loop, Contents and Valid about
-- what a table holds and its invariant, Write and Update about single writes, Migrate and Resize
-- about the migration, Operations about each operation, Run about sequences of calls against a
-- finite map, and Viewing about views. Not modelled: `refhat_new`, `refhat_cleanup`,
-- `refhat_delete` (memory only).
--
-- Hihat: src/hash/hihat.c and include/hatrack/hihat.h, the lock-free table. `Record` has the word
-- `info` taken apart into its flags and its epoch. A call is a sequence of atomic steps, and `Pc`
-- says which is next: Steps has those of `hihat_store_get`, `_put`, `_replace`, `_add` and
-- `_remove`, Marking those of the loop at the start of `hihat_store_migrate`. In Machine a `World`
-- is a table with a place for each of any number of threads, and a schedule, a list of actions,
-- says who takes the next step and who makes a call, so a result about all schedules is one about
-- all interleavings. A step has an `Event`: the whole effect of its call, or none; a call that
-- loses a compare-and-swap to another has none at all. Flat sees the store as the buckets of
-- refhat, Position is about a probe that other threads' claims do not disturb, Invariant holds
-- what each place of a thread stands for, Probes, Records, Installs and Linear are about single
-- steps, Schedules about many; Marks, Marked, Keeps, Frozen, Counted and Tally are about the marks
-- of a migration, Left, Falls and Progress about the number of steps of a call, Fresh about new
-- tables. `next_epoch++` is a load and a store, as the field is not atomic. An epoch is below 2 ^
-- 61, so that it does not run into the flags, and the schedules are that short. The loop of
-- `hihat_store_replace` may go round as often as other threads write. A step sees the table as it
-- is. `atomic_read` is a relaxed load, though, so Late has schedules in which each load of a hash
-- value or a record by a call, of `next_epoch`, and of a record that is to be marked may see any
-- earlier table; the compare-and-swaps, the ORs and the fetch-and-add see the last value of their
-- location. Late/Loads and Late/Runs are about such steps, Late/Explains about what the calls
-- answer then. The results about marks and about numbers of steps are about schedules without late
-- loads. What follows the marking loop is in Copying: a `Migration` is the old store, which is
-- marked, with the new one, and a thread copies for its call or is at work on the new store, which
-- the threads that copy publish while others are still copying. Phase holds what is true between
-- two steps, with the old store as it was at the start; Written is about the buckets of the new
-- store that are done with, Stable about what the steps of others leave as it is, Pigeon and Room
-- about the room in the new store, Acquires, Claims, Writes, Copies, Publishes and Offers about
-- the steps of the copying, Nonempty about the records that calls write, World and Runs about
-- schedules, Begins about the start, Ranks and Waits about the number of steps. Its loads see the
-- last value; what calls answer across a migration is not claimed. Not modelled: late loads in the
-- copying, a call that is still at work on the old store while others copy, which can still
-- reserve a bucket there but write nothing, and a migration of the new store past its marking
-- loop, where a thread stays at `marked`.
--
-- Hatring: src/queue/hatring.c and include/hatrack/hatring.h, the ring buffer, by the calls of one
-- thread at a time, so that each compare-and-swap succeeds. The word `epochs` is taken apart, with
-- its carry. The loops are recursion on fuel; one round is enough for `hatring_enqueue` and two
-- for `hatring_dequeue`. Cells is about the cells of epochs, Calls holds the invariant and
-- `hatring_enqueue`, Takes `hatring_dequeue`, and Runs sequences of calls. Not modelled:
-- overlapping calls, `hatring_dequeue_w_epoch`, views, `hatring_init`, `hatring_cleanup`.
--
-- Set: src/hash/set.c. The operations on two sets: `qsort` is a parameter that is only taken to
-- sort, and difference and intersection are the calls that they make of the hook, `woolhat_put`
-- and `woolhat_add`. Order and March are about sorted views and two heads of them, Products about
-- the two sets that are made, Relations about the tests. Keys is `hatrack_set_get_hash_value`,
-- with `XXH3_128bits` as a parameter and a heap that has what the items hold and the hash values
-- that are kept in them; Cache is about those. The union `hatrack_hash_info_t` is a choice of its
-- two members; a read of the one that was not written is `none`, as `abort()` is. Not modelled:
-- union, whose comparison `hatrack_set_epoch_sort_cmp` cuts a 64-bit difference to an `int`,
-- disjunction, the operations on one set, which are calls of woolhat, reference counts, the epochs
-- that a set reserves, `hatrack_set_new`, `hatrack_set_delete` and `hatrack_set_cleanup`.
--
-- Mmm: src/support/mmm.c and include/hatrack/mmm.h, the reclamation of memory by epochs that the
-- lock-free structures use. `Mmm` holds the variables that all threads share, `Thread` those of
-- one thread, `Header` is `mmm_header_t`; the functions mmm_* keep their names without the prefix.
-- A retire list is a list of headers, most recent first, and an operation that frees returns the
-- cells that it frees. `none` is `abort()` or a null pointer that is followed. The loop of
-- `mmm_clean_up_before_exit`, which spins until its list is empty, takes fuel: two rounds are
-- enough when no other thread is in an operation that is old enough. Most results are about single
-- calls, with the shared variables as they are at that time. Reclaim is about `mmm_empty`, Threads
-- holds how a thread registers and leaves, Retire is about `mmm_retire` and the end of a thread,
-- Tids about thread identifiers. Commit has the atomic steps of `mmm_commit_write` and
-- `mmm_help_commit`, WriteEpoch is about schedules of them. Not modelled: overlapping calls of the
-- others (`mmm_start_basic_op` writes its reservation with no fence, while `mmm_empty` reads them
-- one by one), the checks and messages of HATRACK_MMM_DEBUG, and `mmm_retire_unused`, which only
-- calls `free`.
--
-- Llstack: src/queue/llstack.c, a lock-free stack. `try_push` is one round of the loop of
-- `llstack_push`, `load_next` and `try_pop` are the two steps of one of `llstack_pop`; `push` and
-- `pop` are the loops, on fuel, with what other threads do in between as a parameter. A node is
-- known by its address. Chain is about the list of items that the nodes stand for, Attempts about
-- one thread, Threads holds the steps of several threads in any order, and Replays is about those.
-- The calls of mmm around the loops are not modelled: that a node's address is not given out while
-- the node is in the stack or a thread has loaded it is a condition of the theorem.
--
-- Not modelled: the other lock-free tables, the queues, the other stack, the vectors, the
-- dictionary, and the hash functions, which come from a third party.
pub mod Prelude
pub mod Common
pub mod FiniteMap
pub mod Refhat
pub mod Hihat
pub mod Set
pub mod Hatring
pub mod Llstack
pub mod Mmm
