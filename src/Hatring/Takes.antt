-- ===== src/Hatring/Takes.antt =====
-- hatring.c: `hatring_dequeue` by one thread at a time.
use hatrack.Prelude.{
  ℕ, suc, ◌+◌, ◌-◌, ◌%◌, ◌^◌, ◌≤◌, ◌<◌, ◌≡◌, ◌≢◌, refl, sym, ap, ◌∙◌, arith, true, false, ltb, leb,
  ◌==◌, ==_iff, Option, none, some, List, [], ◌∷◌, length, length-set, set, inl, inr, Bool-cases,
  get_or-set_self, get_or-set_ne,
}
use native.Mathlib.Nat.{mod-lt, add-mod_right}
use hatrack.Common.{Pointer, Reply, null, not_found, found_item, bucket_index}
use hatrack.Refhat.Probing.{bucket_index-mod}
use hatrack.Hatring.{
  empty_cell, cell_at, Hatring, enqueued, dequeued, add_dequeue, cell_epoch, dequeue_round, dequeue,
  drop_too,
}
use hatrack.Hatring.Cells.{epoch-cell, items_from, items_from-set}
use hatrack.Hatring.Calls.{IsRing, oldest, items_of, drop_first, head_reply}

drop_nothing : (o : Option (Reply × List Pointer × Hatring)) → drop_too [] o ≡ o
drop_nothing none = refl
drop_nothing (some r) = refl

module _ (self : Hatring) (g : IsRing self) where
  abbrev r : ℕ
  r = self.epochs.dequeue

  abbrev w : ℕ
  w = self.epochs.enqueue

  abbrev n : ℕ
  n = self.size

  abbrev ix : ℕ
  ix = r % n

  slot_lem : bucket_index r (self.last_slot % 2 ^ 32) ≡ ix
  slot_lem =
      let small : self.last_slot % 2 ^ 32 ≡ n - 1 = omega (arith, g.slots, g.high) in
      ap (bucket_index r) small ∙ bucket_index-mod r n g.power

  empty_lem : w ≤ r → (items_of self ≡ []) × (dequeue_round self ≡ (some not_found, [], self))
  unfolding dequeue_round
  empty_lem h =
      let none_left : w - oldest self ≡ 0 = omega (arith, h) in
      let test : leb w r ≡ true = ground (arith, h) in
      (ap (items_from self.cells n (oldest self)) none_left, rw test refl)

  module _ (h : r < w) where
    abbrev later : Hatring
    later = record self { epochs = record self.epochs { dequeue = r + 1 } }

    -- The oldest item is there.
    module _ (l : w ≤ r + n) where
      abbrev taken : Hatring
      taken = record self {
        epochs = record self.epochs { dequeue = r + 1 };
        cells = set self.cells ix (record { item = null; state = dequeued + r });
      }

      first_state : (cell_at self.cells ix).state ≡ enqueued + r
      first_state = g.held r (omega (arith, l)) h

      take_lem : dequeue_round self ≡ (some (found_item (cell_at self.cells ix).item), [], taken)
      unfolding dequeue_round add_dequeue
      take_lem =
          let some_left : leb w r ≡ false = ground (arith, h) in
          let epoch : (cell_epoch (cell_at self.cells ix).state == r) ≡ true =
            ground (arith, first_state, h, g.word) in
          let no_carry : (r + 1 == 2 ^ 32) ≡ false = ground (arith, h, g.word) in
          rw (slot_lem, some_left, epoch, no_carry) refl

      turn : (r + n) % n ≡ ix
      turn = add-mod_right r n

      taken-IsRing : IsRing taken
      taken-IsRing = record {
        power = g.power;
        low = g.low;
        high = g.high;
        slots = g.slots;
        wide = length-set self.cells ix _ ∙ g.wide;
        order = omega (arith, h);
        near = omega (arith, l);
        begun = omega (arith, g.begun);
        word = g.word;
        held = λ e l' h'.
            let above : r < e = omega (arith, l') in
            let apart : ix ≢ e % n = epoch-cell n r e g.low above (omega (arith, h', l)) in
            ap (λ c. c.state) (get_or-set_ne self.cells ix (e % n) _ empty_cell apart)
            ∙ g.held e (omega (arith, l', l)) h';
        past = λ i. elim (Bool-cases (i == ix)) [
          | inl same ↦
              let q : i ≡ ix = (==_iff i ix).0 same in
              let inside : ix < length self.cells = omega (arith, mod-lt r g.low, g.wide) in
              let state : (cell_at taken.cells i).state ≡ dequeued + r =
                ap (λ k. (cell_at taken.cells k).state) q
                ∙ ap (λ c. c.state) (get_or-set_self self.cells ix _ empty_cell inside) in
              omega (arith, state, h, g.word)
          | inr other ↦
              let apart : ix ≢ i = λ q. ground (arith, other, q) in
              let state : (cell_at taken.cells i).state ≡ (cell_at self.cells i).state =
                ap (λ c. c.state) (get_or-set_ne self.cells ix i _ empty_cell apart) in
              omega (arith, state, g.past i)
        ];
      }

      items_split :
          items_of self ≡ (cell_at self.cells ix).item ∷ items_from self.cells n (suc r) (w - suc r)
      items_split =
          let first : oldest self ≡ r = omega (arith, l) in
          let count : w - oldest self ≡ suc (w - suc r) = omega (arith, first, h) in
          ap (λ e. items_from self.cells n e (w - oldest self)) first
          ∙ ap (items_from self.cells n r) count

      taken-items_of : items_of taken ≡ drop_first (items_of self)
      taken-items_of =
          let first : oldest taken ≡ suc r = omega (arith, l) in
          let count : w - oldest taken ≡ w - suc r = omega (arith, first) in
          let kept =
            items_from-set self.cells n (suc r) (w - suc r) (r + n)
              (record { item = null; state = dequeued + r }) g.low (omega (arith, h, l))
              (omega arith) in
          ap (λ e. items_from taken.cells n e (w - oldest taken)) first
          ∙ ap (items_from taken.cells n (suc r)) count
          ∙ rw turn at kept
          ∙ sym (ap drop_first items_split)

    -- The oldest item has been overwritten.
    module _ (l : w ≡ r + n + 1) where
      lapped_state : (cell_at self.cells ix).state ≡ enqueued + (r + n)
      lapped_state =
          let there = g.held (r + n) (omega (arith, l)) (omega (arith, l)) in
          ap (λ k. (cell_at self.cells k).state) (sym (add-mod_right r n)) ∙ there

      skip_lem : dequeue_round self ≡ (none, [], later)
      unfolding dequeue_round add_dequeue
      skip_lem =
          let some_left : leb w r ≡ false = ground (arith, h) in
          let epoch : cell_epoch (cell_at self.cells ix).state ≡ r + n =
            omega (arith, lapped_state, l, g.word) in
          let other : (cell_epoch (cell_at self.cells ix).state == r) ≡ false =
            ground (arith, epoch, g.low) in
          let ahead : ltb r (cell_epoch (cell_at self.cells ix).state) ≡ true =
            ground (arith, epoch, g.low) in
          let no_carry : (r + 1 == 2 ^ 32) ≡ false = ground (arith, h, g.word) in
          rw (slot_lem, some_left, other, ahead, no_carry) refl

      dequeue_skip : (fuel : ℕ) → dequeue (suc fuel) self ≡ dequeue fuel later
      unfolding dequeue
      dequeue_skip fuel = rw skip_lem (drop_nothing (dequeue fuel later))

      same_oldest : oldest later ≡ oldest self
      same_oldest = omega (arith, l)

      later-IsRing : IsRing later
      later-IsRing = record {
        power = g.power;
        low = g.low;
        high = g.high;
        slots = g.slots;
        wide = g.wide;
        order = omega (arith, h);
        near = omega (arith, l);
        begun = omega (arith, g.begun);
        word = g.word;
        held = λ e l' h'. g.held e (omega (arith, l', same_oldest)) h';
        past = g.past;
      }

      later-items_of : items_of later ≡ items_of self
      later-items_of = ap (λ e. items_from self.cells n e (w - e)) same_oldest

abbrev pub Pops : ℕ → Hatring → Type 0
Pops fuel self =
    (self' : Hatring) × (dequeue fuel self ≡ some (head_reply (items_of self), [], self'))
    × IsRing self'
    × (self'.epochs.enqueue ≡ self.epochs.enqueue)
    × (self'.size ≡ self.size)
    × (items_of self' ≡ drop_first (items_of self))

-- Where the ring has not lapped the next epoch, one round is enough.
pop_near :
    (self : Hatring) (fuel : ℕ)
    → IsRing self
    → self.epochs.enqueue ≤ self.epochs.dequeue + self.size
    → Pops (suc fuel) self
unfolding dequeue
pop_near self fuel g near = elim (Bool-cases (leb self.epochs.enqueue self.epochs.dequeue)) [
  | inl done ↦
      let (nothing, round) = empty_lem self g (ground (arith, done)) in
      (self, rw (round, nothing) refl, g, refl, refl, rw nothing refl)
  | inr more ↦
      let h : self.epochs.dequeue < self.epochs.enqueue = ground (arith, more) in
      let split = items_split self g h near in
      (
        taken self g h near,
        rw (take_lem self g h near, split) refl,
        taken-IsRing self g h near,
        refl,
        refl,
        taken-items_of self g h near,
      )
]

-- `hatring_dequeue` by one thread returns in its first or its second round: it takes the oldest item off the
-- queue, or says that there is none. Nothing is dropped.
pub dequeue-pop : (self : Hatring) (fuel : ℕ) → IsRing self → Pops (suc (suc fuel)) self
dequeue-pop self fuel g =
    elim (Bool-cases (leb self.epochs.enqueue (self.epochs.dequeue + self.size))) [
      | inl near ↦ pop_near self (suc fuel) g (ground (arith, near))
      | inr far ↦
          let l : self.epochs.enqueue ≡ self.epochs.dequeue + self.size + 1 =
            ground (arith, far, g.near) in
          let h : self.epochs.dequeue < self.epochs.enqueue = omega (arith, l) in
          let same = later-items_of self g h l in
          let (self', e, g', w', size', q) =
            pop_near (later self g h) fuel (later-IsRing self g h l) (omega (arith, l)) in
          (
            self',
            dequeue_skip self g h l (suc fuel)
                ∙ e
                ∙ ap (λ xs. some (head_reply xs, [], self')) same,
            g',
            w',
            size',
            q ∙ ap drop_first same,
          )
    ]
