-- ===== src/Hatring/Calls.antt =====
-- hatring.c: the calls of one thread at a time, against a queue that drops its oldest item when it is full.
use hatrack.Prelude.{
  ℕ, suc, ◌+◌, ◌-◌, ◌%◌, ◌^◌, ◌≤◌, ◌<◌, ◌≡◌, ◌≢◌, refl, sym, ap, ◌∙◌, arith, true, false, ltb, ◌==◌,
  ==_iff, if◌then◌else◌, some, List, [], ◌∷◌, ◌++◌, length, length-set, set, max, inl, inr,
  Bool-cases, get_or-set_self, get_or-set_ne,
}
use native.Mathlib.Nat.{mod-lt}
use hatrack.Common.{Pointer, Reply, not_found, found_item, bucket_index}
use hatrack.Common.Sizes.{IsPowerOfTwo}
use hatrack.Refhat.Probing.{bucket_index-mod}
use hatrack.Hatring.{
  empty_cell, cell_at, Epochs, Hatring, enqueued, fixed_epoch, cell_epoch, claim_epoch, next_epoch,
  try_once, enqueue, dropped,
}
use hatrack.Hatring.Cells.{
  epoch-cell, items_from, items_from-snoc, length-items_from, items_from-set,
}

-- The oldest epoch that is still in the ring.
abbrev pub oldest : Hatring → ℕ
oldest self = max self.epochs.dequeue (self.epochs.enqueue - self.size)

abbrev pub items_of : Hatring → List Pointer
items_of self = items_from self.cells self.size (oldest self) (self.epochs.enqueue - oldest self)

pub record IsRing (self : Hatring) : Type 0 where
  pub power : IsPowerOfTwo self.size
  pub low : 0 < self.size
  pub high : self.size < 2 ^ 32
  pub slots : self.last_slot ≡ self.size - 1
  pub wide : length self.cells ≡ self.size
  pub order : self.epochs.dequeue ≤ self.epochs.enqueue
  pub near : self.epochs.enqueue ≤ self.epochs.dequeue + self.size + 1
  pub begun : self.size ≤ self.epochs.dequeue
  pub word : self.epochs.enqueue < 2 ^ 32
  pub held :
      (e : ℕ)
      → oldest self ≤ e
      → e < self.epochs.enqueue
      → (cell_at self.cells (e % self.size)).state ≡ enqueued + e
  pub past : (i : ℕ) → cell_epoch (cell_at self.cells i).state < self.epochs.enqueue

-- A bounded queue that drops its oldest item.
abbrev pub drop_first : List Pointer → List Pointer
drop_first [] = []
drop_first (x ∷ xs) = xs

abbrev pub push_back : ℕ → List Pointer → Pointer → List Pointer
push_back size items item = (if length items == size then drop_first items else items) ++ item ∷ []

abbrev pub head_reply : List Pointer → Reply
head_reply [] = not_found
head_reply (x ∷ xs) = found_item x

module _ (self : Hatring) (g : IsRing self) (item : Pointer)
    (room : self.epochs.enqueue + 1 < 2 ^ 32) where
  abbrev w : ℕ
  w = self.epochs.enqueue

  abbrev n : ℕ
  n = self.size

  -- The epochs after the call.
  abbrev later : Epochs
  later = record {
    enqueue = w + 1;
    dequeue = if ltb (self.epochs.dequeue + n) w then w + 1 - n else self.epochs.dequeue;
  }

  next_epoch_lem : (fuel : ℕ) → next_epoch (suc fuel) self ≡ some (w, later)
  unfolding next_epoch fixed_epoch claim_epoch
  next_epoch_lem fuel = ground (arith, g.order, g.high, g.word, g.begun, g.low, g.near, room)

  abbrev ix : ℕ
  ix = w % n

  abbrev after : Hatring
  after = record self {
    epochs = later;
    cells = set self.cells ix (record { item = item; state = enqueued + w });
  }

  inside : ix < length self.cells
  inside = omega (arith, mod-lt w g.low, g.wide)

  enqueue_lem :
      (fuel : ℕ)
      → enqueue (suc fuel) self item ≡ some (w, dropped self (cell_at self.cells ix), after)
  unfolding enqueue try_once
  enqueue_lem fuel =
      let q : bucket_index w self.last_slot ≡ ix =
        ap (bucket_index w) g.slots ∙ bucket_index-mod w n g.power in
      let free : ltb (cell_epoch (cell_at self.cells ix).state) w ≡ true =
        ground (arith, g.past ix) in
      rw (next_epoch_lem fuel, q, free) refl

  after-cell : cell_at after.cells ix ≡ record { item = item; state = enqueued + w }
  after-cell = get_or-set_self self.cells ix _ empty_cell inside

  after-IsRing : IsRing after
  after-IsRing = record {
    power = g.power;
    low = g.low;
    high = g.high;
    slots = g.slots;
    wide = length-set self.cells ix _ ∙ g.wide;
    order = ground (arith, g.order, g.low);
    near = ground (arith, g.near);
    begun = ground (arith, g.begun);
    word = room;
    held = λ e l h. elim (Bool-cases (e == w)) [
      | inl same ↦
          let q : e ≡ w = (==_iff e w).0 same in
          ap (λ k. (cell_at after.cells (k % n)).state) q
          ∙ ap (λ c. c.state) after-cell
          ∙ ap (λ k. enqueued + k) (sym q)
      | inr other ↦
          let below : e < w = ground (arith, other, h) in
          let above : oldest self ≤ e = ground (arith, l) in
          let apart : ix ≢ e % n =
            λ q. epoch-cell n e w g.low below (ground (arith, l, g.near)) (sym q) in
          ap (λ c. c.state) (get_or-set_ne self.cells ix (e % n) _ empty_cell apart)
          ∙ g.held e above below
    ];
    past = λ i. elim (Bool-cases (i == ix)) [
      | inl same ↦
          let q : i ≡ ix = (==_iff i ix).0 same in
          let state : (cell_at after.cells i).state ≡ enqueued + w =
            ap (λ k. (cell_at after.cells k).state) q ∙ ap (λ c. c.state) after-cell in
          omega (arith, state, g.word)
      | inr other ↦
          let apart : ix ≢ i = λ q. ground (arith, other, q) in
          let state : (cell_at after.cells i).state ≡ (cell_at self.cells i).state =
            ap (λ c. c.state) (get_or-set_ne self.cells ix i _ empty_cell apart) in
          omega (arith, state, g.past i)
    ];
  }

  abbrev lo : ℕ
  lo = oldest self

  abbrev count : ℕ
  count = w - lo

  -- The items from an epoch of the ring on, and the new one.
  with_new :
      (e c : ℕ)
      → lo ≤ e
      → e + c ≡ w
      → c < n
      → items_from after.cells n e (suc c) ≡ items_from self.cells n e c ++ item ∷ []
  with_new e c l q h =
      let kept =
        items_from-set self.cells n e c w (record { item = item; state = enqueued + w }) g.low
          (omega (arith, q)) (omega (arith, q, h)) in
      let last : (cell_at after.cells ((e + c) % n)).item ≡ item =
        ap (λ k. (cell_at after.cells (k % n)).item) q ∙ ap (λ c. c.item) after-cell in
      items_from-snoc after.cells n e c ∙ rw (kept, last) refl

  enqueue_room : count < n → items_of after ≡ items_of self ++ item ∷ []
  enqueue_room h =
      let same : oldest after ≡ lo = ground (arith, h, g.order, g.begun) in
      let more : w + 1 - oldest after ≡ suc count = omega (arith, same, g.order) in
      ap (λ e. items_from after.cells n e (w + 1 - oldest after)) same
      ∙ ap (items_from after.cells n lo) more
      ∙ with_new lo count (omega arith) (omega (arith, g.order)) h

  enqueue_full : count ≡ n → items_of after ≡ drop_first (items_of self) ++ item ∷ []
  enqueue_full h =
      let next : oldest after ≡ suc lo = ground (arith, h, g.order, g.begun, g.near) in
      let much : w + 1 - oldest after ≡ suc (n - 1) = omega (arith, next, h, g.low) in
      let all : count ≡ suc (n - 1) = omega (arith, h, g.low) in
      let first : drop_first (items_from self.cells n lo count)
          ≡ items_from self.cells n (suc lo) (n - 1) =
        ap (λ c. drop_first (items_from self.cells n lo c)) all in
      ap (λ e. items_from after.cells n e (w + 1 - oldest after)) next
      ∙ ap (items_from after.cells n (suc lo)) much
      ∙ with_new (suc lo) (n - 1) (omega arith) (omega (arith, h, g.low)) (omega (arith, g.low))
      ∙ ap (λ xs. xs ++ item ∷ []) (sym first)

  after-items_of : items_of after ≡ push_back n (items_of self) item
  after-items_of =
      let wide = length-items_from self.cells n lo count in
      elim (Bool-cases (count == n)) [
        | inl full ↦
            let test : (length (items_of self) == n) ≡ true = ap (λ k. k == n) wide ∙ full in
            rw test (enqueue_full ((==_iff count n).0 full))
        | inr room' ↦
            let test : (length (items_of self) == n) ≡ false = ap (λ k. k == n) wide ∙ room' in
            rw test (enqueue_room (ground (arith, room', g.near, g.begun)))
      ]

-- While the epochs last, `hatring_enqueue` by one thread returns in its first round, and puts its item at the
-- end of the queue, from which it drops the oldest item when the ring is full.
pub enqueue-push :
    (self : Hatring) (item : Pointer) (fuel : ℕ)
    → IsRing self
    → self.epochs.enqueue + 1 < 2 ^ 32
    → (items : List Pointer) × (self' : Hatring) × (enqueue (suc fuel) self item
        ≡ some (self.epochs.enqueue, items, self'))
      × IsRing self'
      × (self'.epochs.enqueue ≡ self.epochs.enqueue + 1)
      × (self'.size ≡ self.size)
      × (items_of self' ≡ push_back self.size (items_of self) item)
enqueue-push self item fuel g room = (
  _,
  after self g item room,
  enqueue_lem self g item room fuel,
  after-IsRing self g item room,
  refl,
  refl,
  after-items_of self g item room,
)
