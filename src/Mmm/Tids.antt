-- ===== src/Mmm/Tids.antt =====
-- Thread identifiers: no two threads have the same one.
use hatrack.Prelude.{
  ℕ, suc, ◌+◌, ◌^◌, ◌≤◌, ◌<◌, ◌≡◌, refl, arith, ap, ◌∙◌, ◌==◌, add64, Bool, true, ltb, inl, inr,
  Bool-cases, ◌⊎◌, none, some, List, [], ◌∷◌, to_nat, count_by,
}
use hatrack.Common.{Pointer}
use hatrack.Mmm.{threads_max, epoch_unreserved, Header, FreeTid, Mmm, Thread, last_tid, reserve}
use hatrack.Mmm.Threads.{
  recycle, take_tid, taken, Taken, registered, register_if, register_thread, tid_giveback,
}
use hatrack.Mmm.Reclaim.{IsOrdered}
use hatrack.Mmm.Retire.{retire-IsOrdered}

abbrev pub is_tid : ℕ → FreeTid → Bool
is_tid x f = f.tid == x

-- Each identifier that has been given out is held by one thread or waits in the list, and no other
-- one is.
abbrev pub AreLeased : Mmm → List ℕ → Type 0
AreLeased m held =
    (x : ℕ)
    → count_by (λ y. y == x) held + count_by (is_tid x) m.free_tids ≡ to_nat (ltb x (last_tid m))

-- An identifier for a thread: the variables then, and the holders.
abbrev pub Leases : Mmm → List ℕ → Taken → Type 0
Leases m held result =
    ((result ≡ none) × (threads_max ≤ m.nexttid) × (m.free_tids ≡ []))
    ⊎ ((tid : ℕ) × (m' : Mmm) × (t' : Thread) × (cells : List Header) × (result
          ≡ some (tid, m', t', cells))
        × AreLeased m' (tid ∷ held))

recycle-Leases :
    (m : Mmm) (t : Thread) (held : List ℕ) (frees : List FreeTid)
    → m.free_tids ≡ frees
    → threads_max ≤ m.nexttid
    → suc m.nexttid < 2 ^ 63
    → IsOrdered m t.retire_list
    → AreLeased m held
    → Leases m held (recycle (record m { nexttid = add64 m.nexttid 1 }) t frees)
unfolding recycle count_by
recycle-Leases m t held [] e full l o leased = inl (refl, full, e)
recycle-Leases m t held (head ∷ next) e full l o leased =
    let m' = record m { nexttid = add64 m.nexttid 1; free_tids = next } in
    let (t', cells, r, order, safe) =
      retire-IsOrdered m' (record t { mytid = some head.tid }) head.header
        (record { descends = o.descends; below = o.below }) in
    inr (
      head.tid,
      m',
      t',
      cells,
      ap (taken head.tid m') r,
      λ x.
          let before = leased x in
          let split : count_by (is_tid x) m.free_tids
              ≡ to_nat (head.tid == x) + count_by (is_tid x) next =
            ap (count_by (is_tid x)) e in
          ground (arith, before, split),
    )

take_tid-Leases :
    (m : Mmm) (t : Thread) (held : List ℕ)
    → suc m.nexttid < 2 ^ 63
    → IsOrdered m t.retire_list
    → AreLeased m held
    → Leases m held (take_tid m t)
unfolding take_tid count_by
take_tid-Leases m t held l o leased = elim (Bool-cases (ltb m.nexttid threads_max)) [
  | inl room ↦ inr (
    m.nexttid,
    record m { nexttid = add64 m.nexttid 1 },
    t,
    [],
    rw room refl,
    λ x. ground (arith, leased x),
  )
  | inr full ↦
      let signed : ltb m.nexttid (2 ^ 63) ≡ true = ground arith in
      rw (full, signed) (recycle-Leases m t held m.free_tids refl (ground arith) l o leased)
]

-- If each identifier that has been given out has one holder or waits in the list, then
-- `mmm_register_thread` for a thread that is not registered, with an ordered retire list, aborts only
-- when all identifiers have been given out and none waits. Otherwise the thread has got an identifier,
-- and still each identifier has one holder or waits. The counter must be below 2 ^ 63 - 1, from
-- where on the source takes an identifier for negative.
pub register_thread-AreLeased :
    (m : Mmm) (t : Thread) (held : List ℕ)
    → t.mytid ≡ none
    → suc m.nexttid < 2 ^ 63
    → IsOrdered m t.retire_list
    → AreLeased m held
    → ((register_thread m t ≡ none) × (threads_max ≤ m.nexttid) × (m.free_tids ≡ []))
      ⊎ ((tid : ℕ) × (m' : Mmm) × (t' : Thread) × (cells : List Header) × (register_thread m t
            ≡ some (m', t', cells))
          × (t'.mytid ≡ some tid)
          × AreLeased m' (tid ∷ held))
unfolding register_thread register_if
register_thread-AreLeased m t held e l o leased = elim (take_tid-Leases m t held l o leased) [
  | inl (r, full, nobody) ↦ inl (ap (λ i. register_if i m t) e ∙ ap registered r, full, nobody)
  | inr (tid, m', t', cells, r, leased') ↦ inr (
    tid,
    reserve m' tid epoch_unreserved,
    record t' { mytid = some tid },
    cells,
    ap (λ i. register_if i m t) e ∙ ap registered r,
    refl,
    leased',
  )
]

-- A thread that gives its identifier back keeps each identifier with one holder or in the list.
tid_giveback-AreLeased :
    (m : Mmm) (tid : ℕ) (ptr : Pointer) (held : List ℕ)
    → AreLeased m (tid ∷ held)
    → AreLeased (tid_giveback m tid ptr) held
unfolding tid_giveback count_by
tid_giveback-AreLeased m tid ptr held leased x = omega (arith, leased x)
