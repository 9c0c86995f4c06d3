-- ===== src/Hihat/Left.antt =====
-- hihat.c: how many steps a thread has left in a call, up to its return or to the end of the marking
-- loop.
use hatrack.Prelude.{ℕ, ◌+◌, ◌-◌, ◌*◌, ◌≤◌, ◌<◌, ◌≡◌, refl, arith, Bool, true, false}
use hatrack.FiniteMap.{Op, op_get, op_put, op_replace, op_add, op_remove}
use hatrack.Hihat.Steps.{
  Pc, probing, reserving, counting, loading, numbering, stepping, installing, tallying, finished,
  migrating, marking, flagging, checking, emptying, marked,
}

-- Not `hihat_replace`.
abbrev pub IsWaitFree : Op → Type 0
IsWaitFree (op_get h) = Unit
IsWaitFree (op_put h item) = Unit
IsWaitFree (op_replace h item) = ⊥
IsWaitFree (op_add h item) = Unit
IsWaitFree (op_remove h) = Unit

-- The operation may be the one that retries only where it cannot retry any more, and the marking loop
-- is inside the store, which has `w` buckets.
abbrev pub Going : ℕ → Pc → Type 0
Going w (probing op rounds bix) = IsWaitFree op
Going w (reserving op rounds bix) = IsWaitFree op
Going w (counting op bix) = IsWaitFree op
Going w (loading op bix) = IsWaitFree op
Going w (numbering op bix r) = IsWaitFree op
Going w (stepping op bix r e) = IsWaitFree op
Going w (installing op bix old candidate) = IsWaitFree op
Going w (tallying up answer) = Unit
Going w (finished answer) = Unit
Going w (migrating op) = Unit
Going w (marking op i new_used) = Unit
Going w (flagging op i new_used) = i < w
Going w (checking op i new_used) = i < w
Going w (emptying op i new_used) = i < w
Going w (marked op new_used) = Unit

-- At most so many steps are left.
abbrev pub left : ℕ → Pc → ℕ
left w (probing op rounds bix) = 4 * w + 2 * rounds + 10
left w (reserving op rounds bix) = 4 * w + 2 * rounds + 11
left w (counting op bix) = 4 * w + 8
left w (loading op bix) = 4 * w + 7
left w (numbering op bix r) = 4 * w + 6
left w (stepping op bix r e) = 4 * w + 5
left w (installing op bix old candidate) = 4 * w + 4
left w (tallying up answer) = 1
left w (finished answer) = 0
left w (migrating op) = 4 * w + 2
left w (marking op i new_used) = 4 * (w - i) + 1
left w (flagging op i new_used) = 4 * (w - i)
left w (checking op i new_used) = 4 * (w - i) - 1
left w (emptying op i new_used) = 4 * (w - i) - 2
left w (marked op new_used) = 0

-- The call has returned, or the thread has marked every bucket.
abbrev pub at_rest : Pc → Bool
at_rest (probing op rounds bix) = false
at_rest (reserving op rounds bix) = false
at_rest (counting op bix) = false
at_rest (loading op bix) = false
at_rest (numbering op bix r) = false
at_rest (stepping op bix r e) = false
at_rest (installing op bix old candidate) = false
at_rest (tallying up answer) = false
at_rest (finished answer) = true
at_rest (migrating op) = false
at_rest (marking op i new_used) = false
at_rest (flagging op i new_used) = false
at_rest (checking op i new_used) = false
at_rest (emptying op i new_used) = false
at_rest (marked op new_used) = true

-- From `m` steps left to fewer.
abbrev pub Falls : ℕ → ℕ → Pc → Type 0
Falls w m pc = Going w pc × (left w pc ≤ m - 1)

pub at_rest_when : (w : ℕ) (pc : Pc) → Going w pc → left w pc ≡ 0 → at_rest pc ≡ true
at_rest_when w (probing op k b) p e = absurd (omega arith)
at_rest_when w (reserving op k b) p e = absurd (omega arith)
at_rest_when w (counting op b) p e = absurd (omega arith)
at_rest_when w (loading op b) p e = absurd (omega arith)
at_rest_when w (numbering op b r) p e = absurd (omega arith)
at_rest_when w (stepping op b r epoch) p e = absurd (omega arith)
at_rest_when w (installing op b old candidate) p e = absurd (omega arith)
at_rest_when w (tallying up answer) p e = absurd (omega arith)
at_rest_when w (finished answer) p e = refl
at_rest_when w (migrating op) p e = absurd (omega arith)
at_rest_when w (marking op i new_used) p e = absurd (omega arith)
at_rest_when w (flagging op i new_used) p e = absurd (omega arith)
at_rest_when w (checking op i new_used) p e = absurd (omega arith)
at_rest_when w (emptying op i new_used) p e = absurd (omega arith)
at_rest_when w (marked op new_used) p e = refl
