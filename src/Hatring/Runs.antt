-- ===== src/Hatring/Runs.antt =====
-- hatring.c: sequences of calls on a new ring, against a bounded queue.
use hatrack.Prelude.{
  ℕ, ◌+◌, ◌-◌, ◌^◌, ◌≤◌, ◌<◌, ◌≡◌, refl, ap, ◌∙◌, arith, false, ltb, Option, none, some, List, [],
  ◌∷◌, length, sub64, replicate, length-replicate, get_or-replicate, two_pow_mono,
}
use hatrack.Common.{Pointer, Reply}
use hatrack.Hatring.{minimum_size, Hatring, empty_cell, cell_at, new, enqueue, dequeue}
use hatrack.Hatring.Calls.{
  IsRing, items_of, oldest, push_back, drop_first, head_reply, enqueue-push,
}
use hatrack.Hatring.Cells.{items_from}
use hatrack.Hatring.Takes.{dequeue-pop}

pub data RingCall : Type 0 where
  enqueues : Pointer → RingCall
  dequeues : RingCall

-- The answers of the calls to `hatring_dequeue`, where two rounds are enough for each.
abbrev pub enqueued_run :
    Option (ℕ × List Pointer × Hatring) → (Hatring → Option (List Reply)) → Option (List Reply)
enqueued_run none next = none
enqueued_run (some (epoch, items, self)) next = next self

abbrev pub with_reply : Reply → Option (List Reply) → Option (List Reply)
with_reply answer none = none
with_reply answer (some answers) = some (answer ∷ answers)

abbrev pub dequeued_run :
    Option (Reply × List Pointer × Hatring) → (Hatring → Option (List Reply)) → Option (List Reply)
dequeued_run none next = none
dequeued_run (some (answer, items, self)) next = with_reply answer (next self)

unfoldable pub run : List RingCall → Hatring → Option (List Reply)
run [] self = some []
run (enqueues item ∷ rest) self = enqueued_run (enqueue 1 self item) (run rest)
run (dequeues ∷ rest) self = dequeued_run (dequeue 2 self) (run rest)

-- The answers of a queue that holds at most so many items, and drops its oldest one for another.
abbrev pub answers : ℕ → List Pointer → List RingCall → List Reply
answers size items [] = []
answers size items (enqueues item ∷ rest) = answers size (push_back size items item) rest
answers size items (dequeues ∷ rest) = head_reply items ∷ answers size (drop_first items) rest

module _ (k : ℕ) (h : 4 ≤ k) (l : k ≤ 31) where
  low : 16 ≤ 2 ^ k
  low = two_pow_mono 4 k h

  high : 2 ^ k ≤ 2 ^ 31
  high = two_pow_mono k 31 l

  abbrev fresh : Hatring
  fresh = record {
    epochs = record { enqueue = 2 ^ k; dequeue = 2 ^ k };
    drop_handler = false;
    last_slot = sub64 (2 ^ k) 1;
    size = 2 ^ k;
    cells = replicate (2 ^ k) empty_cell;
  }

  new_lem : new (2 ^ k) ≡ fresh
  unfolding new
  new_lem = let big : ltb (2 ^ k) minimum_size ≡ false = ground (arith, low) in rw big refl

  fresh-IsRing : IsRing fresh
  fresh-IsRing = record {
    power = (k, refl);
    low = omega (arith, low);
    high = omega (arith, high);
    slots = omega (arith, low, high);
    wide = length-replicate (2 ^ k) empty_cell;
    order = omega arith;
    near = omega arith;
    begun = omega arith;
    word = omega (arith, high);
    held = λ e l' h'. let no : ⊥ = omega (arith, l', h') in absurd no;
    past = λ i.
        let e : (cell_at fresh.cells i).state ≡ 0 =
          ap (λ c. c.state) (get_or-replicate (2 ^ k) i empty_cell) in
        omega (arith, low, e);
  }

  fresh-items_of : items_of fresh ≡ []
  fresh-items_of =
      let nothing : 2 ^ k - oldest fresh ≡ 0 = omega arith in
      ap (items_from fresh.cells (2 ^ k) (oldest fresh)) nothing

run-answers_from :
    (calls : List RingCall) (self : Hatring)
    → IsRing self
    → self.epochs.enqueue + length calls < 2 ^ 32
    → run calls self ≡ some (answers self.size (items_of self) calls)
unfolding run
run-answers_from [] self g room = refl
run-answers_from (enqueues item ∷ rest) self g room =
    let (items, self', e, g', w', size', q) = enqueue-push self item 0 g (omega (arith, room)) in
    rw e (run-answers_from rest self' g' (omega (arith, w', room)) ∙ rw (q, size') refl)
run-answers_from (dequeues ∷ rest) self g room =
    let (self', e, g', w', size', q) = dequeue-pop self 0 g in
    let later : run rest self' ≡ some (answers self.size (drop_first (items_of self)) rest) =
      run-answers_from rest self' g' (omega (arith, w', room)) ∙ rw (q, size') refl in
    rw (e, later) refl

-- `hatring_new` with `2 ^ k` buckets, for `k` from 4 to 31, makes a ring on which any sequence of calls by one
-- thread, few enough for the 32-bit epochs, returns, each call in two rounds, and answers as a queue does that
-- starts empty, holds `2 ^ k` items and drops its oldest one for another.
pub run-answers :
    (k : ℕ) (calls : List RingCall)
    → 4 ≤ k
    → k ≤ 31
    → 2 ^ k + length calls < 2 ^ 32
    → run calls (new (2 ^ k)) ≡ some (answers (2 ^ k) [] calls)
run-answers k calls h l room =
    ap (run calls) (new_lem k h l)
    ∙ run-answers_from calls (fresh k h l) (fresh-IsRing k h l) room
    ∙ ap (λ items. some (answers (2 ^ k) items calls)) (fresh-items_of k h l)
