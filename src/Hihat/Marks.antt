-- ===== src/Hihat/Marks.antt =====
-- What the marking loop of hihat.c has marked, and that a mark stays.
use hatrack.Prelude.{
  ℕ, ◌+◌, ◌<◌, ◌≡◌, refl, ap, arith, Bool, true, false, ◌==◌, ==_iff, List, length, set, length-set,
  inl, inr, Bool-cases,
}
use hatrack.Hihat.{Record, Bucket, bucket_at, same_record}
use hatrack.Hihat.Steps.{
  Pc, probing, reserving, counting, loading, numbering, stepping, installing, tallying, finished,
  migrating, marking, flagging, checking, emptying, marked,
}
use hatrack.Hihat.Flat.{bucket_at-set_any}

abbrev pub moves : List Bucket → ℕ → Bool
moves bs i = (bucket_at bs i).rec.moving

-- The mark of a bucket stays, and the number of buckets does too.
pub record Marks (bs bs' : List Bucket) : Type 0 where
  pub width : length bs' ≡ length bs
  pub keeps : (i : ℕ) → moves bs i ≡ true → moves bs' i ≡ true

pub Marks-refl : (bs : List Bucket) → Marks bs bs
Marks-refl bs = record { width = refl; keeps = λ i e. e }

pub Marks-set :
    (bs : List Bucket) (i : ℕ) (b : Bucket)
    → (moves bs i ≡ true → b.rec.moving ≡ true)
    → Marks bs (set bs i b)
Marks-set bs i b h = record {
  width = length-set bs i b;
  keeps = λ j e. ground (arith, bucket_at-set_any bs i j b, ap (moves bs) {x = i} {y = j});
}

-- The buckets below `i` are marked.
abbrev pub MarkedBelow : List Bucket → ℕ → Type 0
MarkedBelow bs i = (j : ℕ) → j < i → j < length bs → moves bs j ≡ true

-- How many buckets a thread has marked, of `n`.
abbrev pub marked_to : ℕ → Pc → ℕ
marked_to n (probing op rounds bix) = 0
marked_to n (reserving op rounds bix) = 0
marked_to n (counting op bix) = 0
marked_to n (loading op bix) = 0
marked_to n (numbering op bix r) = 0
marked_to n (stepping op bix r e) = 0
marked_to n (installing op bix old candidate) = 0
marked_to n (tallying up answer) = 0
marked_to n (finished answer) = 0
marked_to n (migrating op) = 0
marked_to n (marking op i new_used) = i
marked_to n (flagging op i new_used) = i
marked_to n (checking op i new_used) = i + 1
marked_to n (emptying op i new_used) = i + 1
marked_to n (marked op new_used) = n

abbrev pub HasMarked : List Bucket → Pc → Type 0
HasMarked bs pc = MarkedBelow bs (marked_to (length bs) pc)

pub below-Marks :
    {bs bs' : List Bucket} (i : ℕ) → Marks bs bs' → MarkedBelow bs i → MarkedBelow bs' i
below-Marks i m h j l l' = m.keeps j (h j l (omega (arith, m.width)))

pub HasMarked-Marks :
    {bs bs' : List Bucket} (pc : Pc) → Marks bs bs' → HasMarked bs pc → HasMarked bs' pc
HasMarked-Marks {bs} {bs'} pc m h =
    let e : marked_to (length bs') pc ≡ marked_to (length bs) pc =
      ap (λ n. marked_to n pc) m.width in
    rw e (below-Marks (marked_to (length bs) pc) m h)

pub below_none : (bs : List Bucket) (i : ℕ) → i ≡ 0 → MarkedBelow bs i
below_none bs i e j l l' = absurd (omega arith)

-- In the loop that marks, or past it.
abbrev pub in_loop : Pc → Bool
in_loop (probing op rounds bix) = false
in_loop (reserving op rounds bix) = false
in_loop (counting op bix) = false
in_loop (loading op bix) = false
in_loop (numbering op bix r) = false
in_loop (stepping op bix r e) = false
in_loop (installing op bix old candidate) = false
in_loop (tallying up answer) = false
in_loop (finished answer) = false
in_loop (migrating op) = false
in_loop (marking op i new_used) = true
in_loop (flagging op i new_used) = true
in_loop (checking op i new_used) = true
in_loop (emptying op i new_used) = true
in_loop (marked op new_used) = true

pub HasMarked-outside : (bs : List Bucket) (pc : Pc) → in_loop pc ≡ false → HasMarked bs pc
HasMarked-outside bs (probing op rounds bix) e = below_none bs _ refl
HasMarked-outside bs (reserving op rounds bix) e = below_none bs _ refl
HasMarked-outside bs (counting op bix) e = below_none bs _ refl
HasMarked-outside bs (loading op bix) e = below_none bs _ refl
HasMarked-outside bs (numbering op bix r) e = below_none bs _ refl
HasMarked-outside bs (stepping op bix r epoch) e = below_none bs _ refl
HasMarked-outside bs (installing op bix old candidate) e = below_none bs _ refl
HasMarked-outside bs (tallying up answer) e = below_none bs _ refl
HasMarked-outside bs (finished answer) e = below_none bs _ refl
HasMarked-outside bs (migrating op) e = below_none bs _ refl
HasMarked-outside bs (marking op i new_used) e = ground arith
HasMarked-outside bs (flagging op i new_used) e = ground arith
HasMarked-outside bs (checking op i new_used) e = ground arith
HasMarked-outside bs (emptying op i new_used) e = ground arith
HasMarked-outside bs (marked op new_used) e = ground arith

pub below_next :
    (bs : List Bucket) (i : ℕ) → MarkedBelow bs i → moves bs i ≡ true → MarkedBelow bs (i + 1)
below_next bs i h e j l l' = elim (Bool-cases (j == i)) [
  | inl same ↦ let q : j ≡ i = (==_iff j i).0 same in rw q e
  | inr other ↦ h j (ground arith) l'
]

-- A compare-and-swap fails at a marked bucket, since what it expects is not marked.
pub marked_missed :
    (now expected : Record)
    → now.moving ≡ true
    → expected.moving ≡ false
    → same_record now expected ≡ false
unfolding same_record
marked_missed now expected e f = ground arith
