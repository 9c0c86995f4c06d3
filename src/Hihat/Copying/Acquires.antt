-- ===== src/Hihat/Copying/Acquires.antt =====
-- hihat.c: a thread that migrates looks for the bucket of a hash value in the new store.
use hatrack.Prelude.{
  ℕ, zero, suc, ◌-◌, ◌<◌, ◌≡◌, ◌≢◌, refl, sym, ap, ◌∙◌, subst, arith, ◌==◌, ==_iff, List, length,
  inl, inr, Bool-cases,
}
use hatrack.Common.{Hash}
use hatrack.FiniteMap.{Op, hash_of}
use hatrack.Refhat.Probing.{hash_at}
use hatrack.Hihat.{Record, Bucket, bucket_at, Store}
use hatrack.Hihat.Steps.{quiet}
use hatrack.Hihat.Flat.{flats, length-flats, hash_at-flats}
use hatrack.Hihat.Position.{Passed, Passed-next, probe_in-full_turn}
use hatrack.Hihat.Invariant.{IsStore}
use hatrack.Hihat.Probes.{inside}
use hatrack.Hihat.Copying.{
  Migration, Copy, acquiring, claiming, writing, copies, new_store, new_table, with_new,
  acquire_step, seen_reserved,
}
use hatrack.Hihat.Copying.Written.{IsWritten-hit}
use hatrack.Hihat.Copying.Phase.{IsStart, IsCopy, IsPhase, Moves, hv_of, IsLive}
use hatrack.Hihat.Copying.Stable.{live_hv}
use hatrack.Hihat.Copying.Refills.{with_new-same, waits, new_width}
use hatrack.Hihat.Copying.Room.{probe_in-ends}

module _ (start : List Bucket) (new_used : ℕ) (from : IsStart start new_used) (n : ℕ)
    (m : Migration) (h : IsPhase start new_used (suc n) m) (op : Op) (nz : hash_of op ≢ 0) where
  abbrev new : List Bucket
  new = (new_store m).buckets

  abbrev At : Copy → Type 0
  At c = IsCopy start new_used m.published (new_store m) c

  pub stays : (c : Copy) → At c → Moves start new_used n m m (copies op new_used c) quiet
  stays c a = waits start new_used from n m h (copies op new_used c) (nz, refl, a)

  pub stays_same :
      (s : Store) (c : Copy)
      → s ≡ new_store m
      → IsStore (new_store m)
      → At c
      → Moves start new_used n m (with_new m s) (copies op new_used c) quiet
  stays_same s c e v a =
      subst (λ m'. Moves start new_used n m m' (copies op new_used c) quiet)
        (sym (ap (with_new m) e ∙ with_new-same m v)) (stays c a)

  -- A probe for an item does not go all the way round.
  never_full :
      (i k : ℕ)
      → IsStore (new_store m)
      → IsLive start new_used i
      → i < length start
      → Passed (flats new) (hv_of start new_used i) zero k
      → ⊥
  never_full i k v live l p = elim (Bool-cases m.published) [
    | inl p' ↦
        let written = (h.open_to p').1 i l live in
        let (j, found) =
          IsWritten-hit new _ v.placed (live_hv start new_used from i live) written in
        let round = probe_in-full_turn p in cc
    | inr p' ↦
        let (part, claims) = h.part p' in
        probe_in-ends start new_used from (new_store m) v claims _
          (new_width start new_used from n m h v) (probe_in-full_turn p)
  ]

  pub Passed-inside :
      {hv : Hash} {k b : ℕ} → IsStore (new_store m) → Passed (flats new) hv k b → b < length new
  Passed-inside v p = inside n (new_table m) v h.started h.clock p

  pub reserved-At :
      (i : ℕ) (r : Record) (hv : Hash) (k b : ℕ)
      → At (claiming i r hv k b)
      → (bucket_at new b).hv ≢ 0
      → At (seen_reserved (new_store m) i r hv (bucket_at new b).hv k b)
  reserved-At i r hv k b (v, below, read, e, p) claimed =
      elim (Bool-cases ((bucket_at new b).hv == hv)) [
        | inl same ↦
            let there : (bucket_at new b).hv ≡ hv = (==_iff (bucket_at new b).hv hv).0 same in
            rw same (v, below, read, λ live. (Passed-inside v p, hash_at-flats new b ∙ there ∙ e))
        | inr other ↦
            let here : b < length (flats new) =
              omega (arith, Passed-inside v p, length-flats new) in
            let last : length (flats new) - 1 ≡ (new_store m).last_slot =
              omega (arith, length-flats new, v.width) in
            let ne : hash_at (flats new) b ≢ hv = λ z.
              let q : (bucket_at new b).hv ≡ hv = sym (hash_at-flats new b) ∙ z in ground arith in
            let next = Passed-next here p (λ z. claimed (sym (hash_at-flats new b) ∙ z)) ne in
            rw other (v, below, read, e, rw last at next)
      ]

  pub acquire-Moves :
      (i : ℕ) (r : Record) (hv : Hash) (k b new_bix : ℕ)
      → At (acquiring i r hv k b new_bix)
      → Moves start new_used n m m
          (copies op new_used (acquire_step (new_store m) i r hv k b new_bix))
          quiet
  unfolding acquire_step
  acquire-Moves i r hv zero b new_bix (v, below, read, e, p) = stays (writing i r new_bix) (
    v,
    below,
    read,
    λ live.
        absurd (never_full i b v live read.inside (subst (λ g. Passed (flats new) g zero b) e p)),
  )
  acquire-Moves i r hv (suc k) b new_bix a = elim (Bool-cases ((bucket_at new b).hv == 0)) [
    | inl free ↦ rw free (stays (claiming i r hv k b) a)
    | inr claimed ↦ rw claimed (stays _ (reserved-At i r hv k b a (ground (arith, claimed))))
  ]
