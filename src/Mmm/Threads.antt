-- ===== src/Mmm/Threads.antt =====
-- How a thread registers with mmm.c and leaves it.
use hatrack.Prelude.{
  ℕ, zero, suc, ◌^◌, Bool, true, false, ltb, if◌then◌else◌, Option, none, some, List, [], ◌∷◌, ◌++◌,
  add64,
}
use hatrack.Common.{Pointer}
use hatrack.Mmm.{
  threads_max, epoch_unreserved, Header, FreeTid, Mmm, Thread, alloc, reserve, end_op, empty,
  retire,
}

-- `mmm_register_thread`: an identifier, and what the thread frees when it retires the entry of the
-- list that held it. `none` is the `abort()` when the identifiers have run out,
-- and the write at a negative index that follows a counter of 2 ^ 63 or more, as `mmm_mytid` is signed.
abbrev pub Taken : Type 0
Taken = Option (ℕ × Mmm × Thread × List Header)

abbrev pub taken : ℕ → Mmm → Option (Thread × List Header) → Taken
taken tid m none = none
taken tid m (some (t, cells)) = some (tid, m, t, cells)

unfoldable pub recycle : Mmm → Thread → List FreeTid → Taken
unfolding retire
recycle m t [] = none
recycle m t (head ∷ next) =
    let m' = record m { free_tids = next } in
    taken head.tid m' (retire m' (record t { mytid = some head.tid }) head.header)

unfoldable pub take_tid : Mmm → Thread → Taken
unfolding recycle
take_tid m t =
    let m' = record m { nexttid = add64 m.nexttid 1 } in
    if ltb m.nexttid threads_max
    then some (m.nexttid, m', t, [])
    else (if ltb m.nexttid (2 ^ 63) then recycle m' t m.free_tids else none)

abbrev pub Registered : Type 0
Registered = Option (Mmm × Thread × List Header)

abbrev pub registered : Taken → Registered
registered none = none
registered (some (tid, m, t, cells)) =
    some (reserve m tid epoch_unreserved, record t { mytid = some tid }, cells)

unfoldable pub register_if : Option ℕ → Mmm → Thread → Registered
unfolding take_tid
register_if (some tid) m t = some (m, t, [])
register_if none m t = registered (take_tid m t)

unfoldable pub register_thread : Mmm → Thread → Registered
unfolding register_if
register_thread m t = register_if t.mytid m t

-- `mmm_tid_giveback`, with the address of its allocation.
unfoldable pub tid_giveback : Mmm → ℕ → Pointer → Mmm
tid_giveback m tid ptr = record m {
  free_tids = record { header = alloc ptr; tid = tid } ∷ m.free_tids;
}

unfoldable pub reset_tids : Mmm → Mmm
reset_tids m = record m { nexttid = 0 }

abbrev pub is_null : List Header → Bool
is_null [] = true
is_null (c ∷ cs) = false

-- A step, and what follows it: the cells that both free.
abbrev pub and_free : List Header → Option (Thread × List Header) → Option (Thread × List Header)
and_free cells none = none
and_free cells (some (t, more)) = some (t, cells ++ more)

abbrev pub and_then :
    Option (Thread × List Header)
    → (Thread → Option (Thread × List Header))
    → Option (Thread × List Header)
and_then none next = none
and_then (some (t, cells)) next = and_free cells (next t)

-- The loop of `mmm_clean_up_before_exit`, on fuel.
unfoldable pub drain : ℕ → Mmm → Thread → Option (Thread × List Header)
unfolding empty
drain zero m t = none
drain (suc rounds) m t =
    let rest = λ (t' : Thread). drain rounds m t' in
    if is_null t.retire_list then some (t, []) else and_then (empty m t) rest

abbrev pub given_back : Mmm → Option (Thread × List Header) → Option (Mmm × Thread × List Header)
given_back m none = none
given_back m (some (t, cells)) = some (m, t, cells)

abbrev pub clean_up_of : Option ℕ → ℕ → Pointer → Mmm → Thread → Option (Mmm × Thread × List Header)
clean_up_of none rounds ptr m t = some (m, t, [])
clean_up_of (some tid) rounds ptr m t =
    given_back (tid_giveback (end_op m tid) tid ptr) (drain rounds (end_op m tid) t)

unfoldable pub clean_up_before_exit :
    ℕ → Pointer → Mmm → Thread → Option (Mmm × Thread × List Header)
unfolding drain end_op tid_giveback
clean_up_before_exit rounds ptr m t = clean_up_of t.mytid rounds ptr m t
