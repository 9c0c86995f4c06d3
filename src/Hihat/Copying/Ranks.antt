-- ===== src/Hihat/Copying/Ranks.antt =====
-- hihat.c: each step of a thread that migrates brings it nearer to the end.
use hatrack.Prelude.{
  ℕ, zero, suc, ◌+◌, ◌-◌, ◌*◌, ◌≤◌, ◌<◌, ◌≡◌, refl, ap, arith, ltb, ◌==◌, Option, none, some, List,
  length, add64, inl, inr, Bool-cases,
}
use hatrack.Common.{Hash, new_size}
use hatrack.FiniteMap.{Op}
use hatrack.Hihat.{Record, Bucket, bucket_at, Store}
use hatrack.Hihat.Copying.{
  Migration, Copy, choosing, offering, scanning, hashing, acquiring, claiming, writing, settling,
  recording, publishing, returning, Place, copies, works, new_store, scan_step, acquire_step,
  claim_step, seen_reserved, copy_step, place_step, choose_step, work_step,
}
use hatrack.Hihat.Copying.Phase.{IsStart, IsAt, IsPhase}
use hatrack.Hihat.Copying.Refills.{new_width}
use hatrack.Hihat.Copying.World.{call_if}

-- Each bucket takes two steps for each round of the loop that acquires one, and five more.
abbrev pub turn : ℕ → ℕ
turn new_width = 2 * new_width + 5

-- The steps for `left` buckets.
abbrev pub below : ℕ → ℕ → ℕ
below new_width zero = 4
below new_width (suc left) = below new_width left + turn new_width

abbrev pub rank : (width new_width : ℕ) → Copy → ℕ
rank l w choosing = below w l + 2
rank l w offering = below w l + 1
rank l w (scanning i) = below w (l - i)
rank l w (hashing i r) = below w (l - (i + 1)) + (2 * w + 4)
rank l w (acquiring i r hv rounds b nb) = below w (l - (i + 1)) + (2 * rounds + 3)
rank l w (claiming i r hv rounds b) = below w (l - (i + 1)) + (2 * rounds + 4)
rank l w (writing i r b) = below w (l - (i + 1)) + 2
rank l w (settling i) = below w (l - (i + 1)) + 1
rank l w recording = 3
rank l w publishing = 2
rank l w returning = 1

abbrev pub place_rank : (width new_width : ℕ) → Place → ℕ
place_rank l w (copies op u c) = rank l w c
place_rank l w (works pc) = 0

below-next : (l w i : ℕ) → i < l → below w (l - i) ≡ below w (l - (i + 1)) + turn w
below-next l w i h = let e : l - i ≡ suc (l - (i + 1)) = omega (arith, h) in ap (below w) e

pub below-four : (w k : ℕ) → 4 ≤ below w k
below-four w zero = omega arith
below-four w (suc k) = omega (arith, below-four w k)

module _ (start : List Bucket) (new_used : ℕ) (from : IsStart start new_used) where
  abbrev pub l : ℕ
  l = length start

  abbrev pub w : ℕ
  w = new_size (length start - 1) new_used

  seen_rank :
      (new : Store) (i : ℕ) (r : Record) (hv expected_hv : Hash) (k b : ℕ)
      → rank l w (seen_reserved new i r hv expected_hv k b) < rank l w (claiming i r hv k b)
  seen_rank new i r hv expected_hv k b = elim (Bool-cases (expected_hv == hv)) [
    | inl same ↦ rw same (omega arith)
    | inr other ↦ rw other (omega arith)
  ]

  choose_rank : (o : Option Store) → rank l w (choose_step o) < rank l w choosing
  choose_rank none = omega arith
  choose_rank (some s) = let all : l - 0 ≡ l = omega arith in omega (arith, ap (below w) all)

  -- A step of a thread that migrates.
  copy-falls :
      (n : ℕ) (m : Migration) (op : Op) (u : ℕ) (c : Copy)
      → IsPhase start new_used (suc n) m
      → IsAt start new_used (suc n) m (copies op u c)
      → place_rank l w (copy_step m op u c).1 < rank l w c
  unfolding copy_step scan_step acquire_step claim_step
  copy-falls n m op u choosing h a = choose_rank m.store_next
  copy-falls n m op u offering h a =
      let all : l - 0 ≡ l = omega arith in omega (arith, ap (below w) all)
  copy-falls n m op u (scanning i) h a =
      let wide = h.width in
      let same = h.same in
      let start_wide = same.width in
      let four = below-four w (l - i) in
      elim (Bool-cases (ltb m.old.last_slot i)) [
        | inl past ↦ rw past (omega (arith, four))
        | inr within ↦
            let inside : i < l = ground (arith, within, wide, start_wide) in
            let next = below-next l w i inside in
            elim (Bool-cases (bucket_at m.old.buckets i).rec.moved) [
              | inl moved ↦ rw (within, moved) (omega (arith, next))
              | inr still ↦ rw (within, still) (omega (arith, next))
            ]
      ]
  copy-falls n m op u (hashing i r) h (nz, e, a) =
      let v = a.0 in
      let wide : length (new_store m).buckets ≡ w = new_width start new_used from n m h v in
      let rounds : add64 (new_store m).last_slot 1 ≡ w = omega (arith, v.width, v.word, wide) in
      omega (arith, rounds)
  copy-falls n m op u (acquiring i r hv zero b nb) h a = omega arith
  copy-falls n m op u (acquiring i r hv (suc k) b nb) h a =
      let seen = seen_rank (new_store m) i r hv (bucket_at (new_store m).buckets b).hv k b in
      elim (Bool-cases ((bucket_at (new_store m).buckets b).hv == 0)) [
        | inl free ↦ rw free (omega arith)
        | inr claimed ↦ rw claimed (omega (arith, seen))
      ]
  copy-falls n m op u (claiming i r hv k b) h a =
      let seen = seen_rank (new_store m) i r hv (bucket_at (new_store m).buckets b).hv k b in
      elim (Bool-cases ((bucket_at (new_store m).buckets b).hv == 0)) [
        | inl free ↦ rw free (omega arith)
        | inr claimed ↦ rw claimed seen
      ]
  copy-falls n m op u (writing i r b) h a = omega arith
  copy-falls n m op u (settling i) h a = omega arith
  copy-falls n m op u recording h a = omega arith
  copy-falls n m op u publishing h a = omega arith
  copy-falls n m op u returning h a = omega arith

  pub place-falls :
      (n : ℕ) (m : Migration) (p : Place)
      → IsPhase start new_used (suc n) m
      → IsAt start new_used (suc n) m p
      → place_rank l w (place_step m p).1 ≤ place_rank l w p - 1
  unfolding place_step work_step
  place-falls n m (copies op u c) h a = omega (arith, copy-falls n m op u c h a)
  place-falls n m (works pc) h a = omega arith

  pub call_rank :
      (m : Migration) (op : Op) (p : Place) → place_rank l w (call_if m op p) ≡ place_rank l w p
  call_rank m op (copies o u c) = refl
  call_rank m op (works pc) = refl
