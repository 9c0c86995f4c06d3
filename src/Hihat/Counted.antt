-- ===== src/Hihat/Counted.antt =====
-- `new_used` in hihat.c: what a thread in the marking loop has counted, at each of its steps.
use hatrack.Prelude.{
  ℕ, zero, suc, ◌+◌, ◌≤◌, ◌<◌, ◌≡◌, refl, sym, ◌∙◌, arith, Bool, true, false, ◌==◌, if◌then◌else◌,
  List, [], ◌∷◌, to_nat, count_by, length,
}
use hatrack.Hihat.{Bucket, bucket_at}
use hatrack.Hihat.Steps.{
  Pc, probing, reserving, counting, loading, numbering, stepping, installing, tallying, finished,
  migrating, marking, flagging, checking, emptying, marked,
}
use hatrack.Hihat.Marks.{MarkedBelow, HasMarked, in_loop}
use hatrack.Hihat.Marking.{counted}
use hatrack.Hihat.Keeps.{Kept}

abbrev pub has_item : Bucket → Bool
has_item b = if b.rec.epoch == 0 then false else true

-- The items below a bucket.
abbrev pub items_below : List Bucket → ℕ → ℕ
items_below bs zero = 0
items_below bs (suc i) = counted (bucket_at bs i).rec (items_below bs i)

items_below-cons :
    (b : Bucket) (bs : List Bucket) (i : ℕ)
    → items_below (b ∷ bs) (suc i) ≡ to_nat (has_item b) + items_below bs i
items_below-cons b bs zero = ground arith
items_below-cons b bs (suc i) = ground (arith, items_below-cons b bs i)

-- Below the end are all of them.
pub items_below-length : (bs : List Bucket) → items_below bs (length bs) ≡ count_by has_item bs
unfolding count_by
items_below-length [] = refl
items_below-length (b ∷ bs) =
    items_below-cons b bs (length bs) ∙ ground (arith, items_below-length bs)

-- The count of a thread in the marking loop.
abbrev pub HasCounted : List Bucket → Pc → Type 0
HasCounted bs (probing op rounds bix) = Unit
HasCounted bs (reserving op rounds bix) = Unit
HasCounted bs (counting op bix) = Unit
HasCounted bs (loading op bix) = Unit
HasCounted bs (numbering op bix r) = Unit
HasCounted bs (stepping op bix r e) = Unit
HasCounted bs (installing op bix old candidate) = Unit
HasCounted bs (tallying up answer) = Unit
HasCounted bs (finished answer) = Unit
HasCounted bs (migrating op) = Unit
HasCounted bs (marking op i u) = (i ≤ length bs) × (u ≡ items_below bs i)
HasCounted bs (flagging op i u) = (i < length bs) × (u ≡ items_below bs i)
HasCounted bs (checking op i u) = (i < length bs) × (u ≡ items_below bs i)
HasCounted bs (emptying op i u) =
    (i < length bs) × (u ≡ items_below bs i) × ((bucket_at bs i).rec.epoch ≡ 0)
HasCounted bs (marked op u) = u ≡ items_below bs (length bs)

-- Below the marks of a thread no item comes or goes.
pub items_below-Kept :
    (bs bs' : List Bucket) (i : ℕ)
    → i ≤ length bs
    → Kept bs bs'
    → MarkedBelow bs i
    → items_below bs' i ≡ items_below bs i
items_below-Kept bs bs' zero l k m = refl
items_below-Kept bs bs' (suc i) l k m =
    let inside : i < length bs = omega (arith, l) in
    let same = (k i (m i (omega arith) inside)).1 in
    let before = items_below-Kept bs bs' i (omega (arith, l)) k (λ j lj. m j (omega (arith, lj))) in
    rw (same, before) refl

pub HasCounted-Kept :
    (bs bs' : List Bucket) (pc : Pc)
    → length bs' ≡ length bs
    → Kept bs bs'
    → HasMarked bs pc
    → HasCounted bs pc
    → HasCounted bs' pc
HasCounted-Kept bs bs' (probing op rounds bix) e k m h = tt
HasCounted-Kept bs bs' (reserving op rounds bix) e k m h = tt
HasCounted-Kept bs bs' (counting op bix) e k m h = tt
HasCounted-Kept bs bs' (loading op bix) e k m h = tt
HasCounted-Kept bs bs' (numbering op bix r) e k m h = tt
HasCounted-Kept bs bs' (stepping op bix r epoch) e k m h = tt
HasCounted-Kept bs bs' (installing op bix old candidate) e k m h = tt
HasCounted-Kept bs bs' (tallying up answer) e k m h = tt
HasCounted-Kept bs bs' (finished answer) e k m h = tt
HasCounted-Kept bs bs' (migrating op) e k m h = tt
HasCounted-Kept bs bs' (marking op i u) e k m (l, q) =
    let before : MarkedBelow bs i = λ j lj. m j (omega (arith, lj)) in
    let below = items_below-Kept bs bs' i (omega (arith, l)) k before in
    (omega (arith, l, e), q ∙ sym below)
HasCounted-Kept bs bs' (flagging op i u) e k m (l, q) =
    let before : MarkedBelow bs i = λ j lj. m j (omega (arith, lj)) in
    let below = items_below-Kept bs bs' i (omega (arith, l)) k before in
    (omega (arith, l, e), q ∙ sym below)
HasCounted-Kept bs bs' (checking op i u) e k m (l, q) =
    let before : MarkedBelow bs i = λ j lj. m j (omega (arith, lj)) in
    let below = items_below-Kept bs bs' i (omega (arith, l)) k before in
    (omega (arith, l, e), q ∙ sym below)
HasCounted-Kept bs bs' (emptying op i u) e k m (l, q, z) =
    let before : MarkedBelow bs i = λ j lj. m j (omega (arith, lj)) in
    let below = items_below-Kept bs bs' i (omega (arith, l)) k before in
    let same = (k i (m i (omega arith) l)).1 in (omega (arith, l, e), q ∙ sym below, same ∙ z)
HasCounted-Kept bs bs' (marked op u) e k m q =
    rw e (q ∙ sym (items_below-Kept bs bs' (length bs) (omega arith) k m))

pub HasCounted-outside : (bs : List Bucket) (pc : Pc) → in_loop pc ≡ false → HasCounted bs pc
HasCounted-outside bs (probing op rounds bix) e = tt
HasCounted-outside bs (reserving op rounds bix) e = tt
HasCounted-outside bs (counting op bix) e = tt
HasCounted-outside bs (loading op bix) e = tt
HasCounted-outside bs (numbering op bix r) e = tt
HasCounted-outside bs (stepping op bix r epoch) e = tt
HasCounted-outside bs (installing op bix old candidate) e = tt
HasCounted-outside bs (tallying up answer) e = tt
HasCounted-outside bs (finished answer) e = tt
HasCounted-outside bs (migrating op) e = tt
HasCounted-outside bs (marking op i new_used) e = ground arith
HasCounted-outside bs (flagging op i new_used) e = ground arith
HasCounted-outside bs (checking op i new_used) e = ground arith
HasCounted-outside bs (emptying op i new_used) e = ground arith
HasCounted-outside bs (marked op new_used) e = ground arith
