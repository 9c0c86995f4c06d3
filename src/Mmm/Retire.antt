-- ===== src/Mmm/Retire.antt =====
-- `mmm_retire` and `mmm_clean_up_before_exit` on a retire list in the order of retirement.
use hatrack.Prelude.{
  ℕ, zero, suc, ◌≤◌, ◌<◌, ◌≡◌, ◌≢◌, refl, arith, ap, ◌∙◌, ◌==◌, add64, bit_and, Bool, true, not,
  ltb, inl, inr, Bool-cases, some, List, [], ◌∷◌, ◌++◌, length, get_or, set, filter,
  get_or-set_self, get_or-set_ne,
}
use hatrack.Common.{Pointer}
use hatrack.Mmm.{
  epoch_max, epoch_unreserved, Header, Mmm, Thread, last_tid, empty, retire_freq, retire_fast,
  retire, end_op,
}
use hatrack.Mmm.Threads.{
  drain, tid_giveback, and_then, given_back, clean_up_of, clean_up_before_exit,
}
use hatrack.Mmm.Reclaim.{Below, Descends, IsOrdered, all_first, unread, empty-filter}

-- A sublist of an ordered list is ordered.
Below-filter :
    (p : Header → Bool) (bound : ℕ) (cs : List Header) → Below bound cs → Below bound (filter p cs)
Below-filter p bound [] h = tt
Below-filter p bound (c ∷ cs) h = elim (Bool-cases (p c)) [
  | inl stays ↦ rw stays (h.0, Below-filter p bound cs h.1)
  | inr leaves ↦ rw leaves (Below-filter p bound cs h.1)
]

Descends-filter : (p : Header → Bool) (cs : List Header) → Descends cs → Descends (filter p cs)
Descends-filter p [] h = tt
Descends-filter p (c ∷ cs) h = elim (Bool-cases (p c)) [
  | inl stays ↦ rw stays (Below-filter p c.retire_epoch cs h.0, Descends-filter p cs h.1)
  | inr leaves ↦ rw leaves (Descends-filter p cs h.1)
]

pub IsOrdered-filter :
    (m : Mmm) (p : Header → Bool) (cs : List Header) → IsOrdered m cs → IsOrdered m (filter p cs)
IsOrdered-filter m p cs o = record {
  descends = Descends-filter p cs o.descends;
  below = Below-filter p m.epoch cs o.below;
}

abbrev pub All : (Header → Bool) → List Header → Type 0
All p [] = Unit
All p (c ∷ cs) = (p c ≡ true) × All p cs

All-filter : (p : Header → Bool) (cs : List Header) → All p (filter p cs)
All-filter p [] = tt
All-filter p (c ∷ cs) = elim (Bool-cases (p c)) [
  | inl stays ↦ rw stays (stays, All-filter p cs)
  | inr leaves ↦ rw leaves (All-filter p cs)
]

-- On an ordered retire list `mmm_retire` returns and leaves an ordered list, and all that it frees
-- was retired before every reservation of the registered threads.
pub retire-IsOrdered :
    (m : Mmm) (t : Thread) (cell : Header)
    → IsOrdered m t.retire_list
    → (t' : Thread) × (cells : List Header) × (retire m t cell ≡ some (t', cells))
      × IsOrdered m t'.retire_list
      × All (unread m) cells
unfolding retire retire_fast
retire-IsOrdered m t cell o = elim (Bool-cases (bit_and ctr retire_freq == 0)) [
  | inl waits ↦ (record pushed { retire_ctr = ctr }, [], rw waits refl, order, tt)
  | inr sweeps ↦ (
    record pushed {
      retire_ctr = 0;
      retire_list = filter (λ c. not (unread m c)) pushed.retire_list;
    },
    filter (unread m) pushed.retire_list,
    rw sweeps (empty-filter m (record pushed { retire_ctr = 0 }) order (λ e. cc)),
    IsOrdered-filter m (λ c. not (unread m c)) pushed.retire_list order,
    All-filter (unread m) pushed.retire_list,
  )
]
  where
    ctr : ℕ
    ctr = add64 t.retire_ctr 1

    pushed : Thread
    pushed = retire_fast m t cell

    order : IsOrdered m pushed.retire_list
    order = record { descends = (o.below, o.descends); below = (omega arith, o.below) }

append_nil : (cs : List Header) → cs ++ [] ≡ cs
append_nil [] = refl
append_nil (c ∷ cs) = ap (λ x. c ∷ x) (append_nil cs)

all_first-intro :
    (p : ℕ → Bool) (rs : List ℕ) (n : ℕ)
    → ((j : ℕ) → j < n → j < length rs → p (get_or rs j 0) ≡ true)
    → all_first p rs n ≡ true
all_first-intro p rs zero h = refl
all_first-intro p [] (suc n) h = refl
all_first-intro p (r ∷ rs) (suc n) h =
    rw
      (
        h 0 (omega arith) (omega arith),
        all_first-intro p rs n (λ j l m. h (suc j) (omega arith) (omega arith)),
      )
      refl

Below-All :
    (p : Header → Bool) (e : ℕ) (cs : List Header)
    → Below e cs
    → ((c : Header) → c.retire_epoch ≤ e → p c ≡ true)
    → All p cs
Below-All p e [] b h = tt
Below-All p e (c ∷ cs) b h = (h c b.0, Below-All p e cs b.1 h)

filter-All :
    (p : Header → Bool) (cs : List Header)
    → All p cs
    → (filter p cs ≡ cs) × (filter (λ c. not (p c)) cs ≡ [])
filter-All p [] a = (refl, refl)
filter-All p (c ∷ cs) a = let rest = filter-All p cs a.1 in rw (a.0, rest.0, rest.1) (refl, refl)

-- One round of the loop suffices if all of the list can be freed; the second one finds it empty.
drain-All :
    (m : Mmm) (t : Thread) (cs : List Header)
    → IsOrdered m cs
    → All (unread m) cs
    → drain 2 m (record t { retire_list = cs }) ≡ some (record t { retire_list = [] }, cs)
unfolding drain
drain-All m t [] o a = refl
drain-All m t (c ∷ cs) o a =
    let freed = filter-All (unread m) (c ∷ cs) a in
    let swept : empty m (record t { retire_list = c ∷ cs })
        ≡ some (record t { retire_list = [] }, c ∷ cs) =
      empty-filter m (record t { retire_list = c ∷ cs }) o (λ e. cc) ∙ rw (freed.0, freed.1) refl in
    ap (λ r. and_then r (drain 1 m)) swept ∙ rw (append_nil cs) refl

-- If every other registered thread is between operations or has reserved a later epoch, then
-- `mmm_clean_up_before_exit` of a registered thread with an ordered retire list comes to its end
-- within two rounds, has freed the whole list, and has given its identifier back.
pub clean_up_before_exit_total :
    (m : Mmm) (t : Thread) (i : ℕ) (ptr : Pointer)
    → t.mytid ≡ some i
    → i < length m.reservations
    → IsOrdered m t.retire_list
    → m.epoch < epoch_max
    → ((j : ℕ) → j < last_tid m → j ≢ i → m.epoch < get_or m.reservations j 0)
    → clean_up_before_exit 2 ptr m t
      ≡ some (tid_giveback (end_op m i) i ptr, record t { retire_list = [] }, t.retire_list)
unfolding clean_up_before_exit end_op
clean_up_before_exit_total m t i ptr e l o small others =
    ap (λ o. clean_up_of o 2 ptr m t) e
    ∙ ap (given_back (tid_giveback (end_op m i) i ptr))
        (drain-All (end_op m i) t t.retire_list order free)
  where
    order : IsOrdered (end_op m i) t.retire_list
    order = record { descends = o.descends; below = o.below }

    later : (j : ℕ) → j < last_tid m → m.epoch < get_or (set m.reservations i epoch_unreserved) j 0
    later j lj = elim (Bool-cases (i == j)) [
      | inl same ↦
          let q : i ≡ j = ground arith in
          rw (← q, get_or-set_self m.reservations i epoch_unreserved 0 l) small
      | inr other ↦
          rw (get_or-set_ne m.reservations i j epoch_unreserved 0 (ground arith))
            (others j lj (ground arith))
    ]

    free : All (unread (end_op m i)) t.retire_list
    free = Below-All (unread (end_op m i)) m.epoch t.retire_list o.below (λ c b.
        let all =
          all_first-intro (ltb c.retire_epoch) (set m.reservations i epoch_unreserved) (last_tid m)
            (λ j lj k. ground (arith, later j lj)) in
        ground (arith, all))
