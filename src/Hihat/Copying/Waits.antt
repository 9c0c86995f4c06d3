-- ===== src/Hihat/Copying/Waits.antt =====
-- hihat.c: how many steps a thread that migrates still has to take, whatever the other threads do.
use hatrack.Prelude.{
  ℕ, zero, suc, ◌+◌, ◌-◌, ◌*◌, ◌≤◌, ◌<◌, ◌≡◌, refl, sym, ap, ◌∙◌, arith, Bool, true, false, ◌==◌,
  ==_iff, if◌then◌else◌, List, [], ◌∷◌, length, inl, inr, Bool-cases,
}
use hatrack.Common.{new_size}
use hatrack.FiniteMap.{Op}
use hatrack.Hihat.{Bucket}
use hatrack.Hihat.Machine.{Action, runs, calls}
use hatrack.Hihat.Schedules.{AreNonZero}
use hatrack.Hihat.Copying.{
  Copy, choosing, offering, scanning, hashing, acquiring, claiming, writing, settling, recording,
  publishing, returning, Place, copies, works,
}
use hatrack.Hihat.Copying.Phase.{IsStart}
use hatrack.Hihat.Copying.World.{World, act, run}
use hatrack.Hihat.Copying.Runs.{IsCopying, runs-IsCopying, calls-IsCopying}
use hatrack.Hihat.Copying.Ranks.{rank, place_rank, below, below-four, l, w, place-falls, call_rank}

-- The steps that a schedule gives to a thread.
abbrev pub steps_of : ℕ → List Action → ℕ
steps_of i [] = 0
steps_of i (runs j ∷ rest) = if i == j then suc (steps_of i rest) else steps_of i rest
steps_of i (calls j op ∷ rest) = steps_of i rest

abbrev pub is_working : Place → Bool
is_working (copies op u c) = false
is_working (works pc) = true

below-product : (v k : ℕ) → below v k ≡ k * (2 * v + 5) + 4
below-product v zero = omega arith
below-product v (suc k) = omega (arith, below-product v k)

rank-positive : (l' w' : ℕ) (c : Copy) → 0 < rank l' w' c
rank-positive l' w' (scanning i) = omega (arith, below-four w' (l' - i))
rank-positive l' w' choosing = omega arith
rank-positive l' w' offering = omega arith
rank-positive l' w' (hashing i r) = omega arith
rank-positive l' w' (acquiring i r hv k b nb) = omega arith
rank-positive l' w' (claiming i r hv k b) = omega arith
rank-positive l' w' (writing i r b) = omega arith
rank-positive l' w' (settling i) = omega arith
rank-positive l' w' recording = omega arith
rank-positive l' w' publishing = omega arith
rank-positive l' w' returning = omega arith

working : (l' w' : ℕ) (p : Place) → place_rank l' w' p ≡ 0 → is_working p ≡ true
working l' w' (copies op u c) e = let no : ⊥ = omega (arith, e, rank-positive l' w' c) in absurd no
working l' w' (works pc) e = refl

module _ (start : List Bucket) (new_used : ℕ) (from : IsStart start new_used) (i : ℕ) where
  abbrev rank_at : World → ℕ
  rank_at x = place_rank (l start new_used from) (w start new_used from) (x.places i)

  runs_rank :
      (n j : ℕ) (x : World)
      → IsCopying start new_used from (suc n) x
      → rank_at (act x (runs j)).1 ≤ (if i == j then rank_at x - 1 else rank_at x)
  unfolding act
  runs_rank n j x g = elim (Bool-cases (i == j)) [
    | inl same ↦
        let q : j ≡ i = sym ((==_iff i j).0 same) in
        let falls =
          place-falls start new_used from n x.migration (x.places j) g.phase (g.stand j) in
        let before : rank_at x
            ≡ place_rank (l start new_used from) (w start new_used from) (x.places j) =
          ap (λ k. place_rank (l start new_used from) (w start new_used from) (x.places k))
            (sym q) in
        rw same (omega (arith, falls, before))
    | inr other ↦ rw other (omega arith)
  ]

  calls_rank : (j : ℕ) (op : Op) (x : World) → rank_at (act x (calls j op)).1 ≡ rank_at x
  unfolding act
  calls_rank j op x = elim (Bool-cases (i == j)) [
    | inl same ↦
        let q : j ≡ i = sym ((==_iff i j).0 same) in
        rw same (
          call_rank start new_used from x.migration op (x.places j)
          ∙ ap (λ k. place_rank (l start new_used from) (w start new_used from) (x.places k)) q)
    | inr other ↦ rw other refl
  ]

  rank_falls :
      (schedule : List Action) (x : World)
      → IsCopying start new_used from (length schedule) x
      → AreNonZero schedule
      → rank_at (run x schedule).1 ≤ rank_at x - steps_of i schedule
  unfolding run
  rank_falls [] x g nz = omega arith
  rank_falls (runs j ∷ rest) x g nz =
      let g' = (runs-IsCopying start new_used from (length rest) x j g).0 in
      let rest_falls = rank_falls rest (act x (runs j)).1 g' nz in
      let falls = runs_rank (length rest) j x g in ground (arith, rest_falls, falls)
  rank_falls (calls j op ∷ rest) x g nz =
      let g' = calls-IsCopying start new_used from (length rest) x j op nz.0 g in
      let rest_falls = rank_falls rest (act x (calls j op)).1 g' nz.1 in
      omega (arith, rest_falls, calls_rank j op x)

  -- A thread that begins to copy is done, and back at its call, once it has taken as many steps of its own
  -- as six and, for each bucket of the old store, five and two for each bucket of the new one: no thread
  -- waits for another, whatever steps the others take in between.
  pub copying-is_working :
      (schedule : List Action) (x : World) (op : Op) (u : ℕ)
      → IsCopying start new_used from (length schedule) x
      → AreNonZero schedule
      → x.places i ≡ copies op u choosing
      → length start * (2 * new_size (length start - 1) new_used + 5) + 6 ≤ steps_of i schedule
      → is_working ((run x schedule).1.places i) ≡ true
  copying-is_working schedule x op u g nz begins enough =
      let l' = length start in
      let w' = new_size (length start - 1) new_used in
      let falls = rank_falls schedule x g nz in
      let first : rank_at x ≡ below w' l' + 2 = ap (place_rank l' w') begins in
      working l' w' ((run x schedule).1.places i)
        (omega (arith, falls, first, below-product w' l', enough))
