-- ===== src/Hihat/Copying/Copies.antt =====
-- hihat.c: the loop of `hihat_store_migrate` that copies, step by step.
use hatrack.Prelude.{
  ℕ, suc, ◌+◌, ◌-◌, ◌<◌, ◌≡◌, ◌≢◌, sym, ap, arith, false, ◌==◌, ==_iff, ltb, List, length, add64,
  inl, inr, Bool-cases,
}
use hatrack.Common.{bucket_index}
use hatrack.FiniteMap.{Op, hash_of}
use hatrack.Hihat.{Record, Bucket, bucket_at}
use hatrack.Hihat.Steps.{quiet}
use hatrack.Hihat.Flat.{flats, length-flats}
use hatrack.Hihat.Position.{at_home}
use hatrack.Hihat.Copying.{
  Migration, Copy, scanning, hashing, acquiring, recording, copies, new_store, scan_step,
}
use hatrack.Hihat.Copying.Phase.{IsStart, IsCopy, IsPhase, Moves}
use hatrack.Hihat.Copying.Acquires.{stays}

module _ (start : List Bucket) (new_used : ℕ) (from : IsStart start new_used) (n : ℕ)
    (m : Migration) (h : IsPhase start new_used (suc n) m) (op : Op) (nz : hash_of op ≢ 0) where
  abbrev new : List Bucket
  new = (new_store m).buckets

  abbrev At : Copy → Type 0
  At c = IsCopy start new_used m.published (new_store m) c

  pub scan-Moves :
      (i : ℕ)
      → At (scanning i)
      → Moves start new_used n m m (copies op new_used (scan_step m.old i)) quiet
  unfolding scan_step
  scan-Moves i (v, below) =
      let wide = h.width in
      let same = h.same in
      let start_wide = same.width in
      elim (Bool-cases (ltb m.old.last_slot i)) [
        | inl past ↦ rw past (
            stays start new_used from n m h op nz recording
              (v, λ j l live. below j (ground (arith, past, wide, start_wide, l)) l live))
        | inr within ↦
            let l : i < length start = ground (arith, within, wide, start_wide) in
            elim (Bool-cases (bucket_at m.old.buckets i).rec.moved) [
              | inl moved ↦
                  rw (within, moved)
                    (stays start new_used from n m h op nz (scanning (i + 1)) (
                      v,
                      λ j lj l' live. elim (Bool-cases (j == i)) [
                        | inl it ↦
                            let q : i ≡ j = sym ((==_iff j i).0 it) in
                            h.settled j l' live (rw (← q) moved)
                        | inr other ↦ below j (ground (arith, other, lj)) l' live
                      ],
                    ))
              | inr still ↦
                  let unmoved : (bucket_at start i).rec.moved ≡ false =
                    elim (Bool-cases (bucket_at start i).rec.moved) [
                      | inl moved ↦ ground (arith, same.moved i moved, still)
                      | inr unmoved ↦ unmoved
                    ] in
                  rw (within, still)
                    (stays start new_used from n m h op nz
                      (hashing i (bucket_at m.old.buckets i).rec)
                      (
                        v,
                        below,
                        record {
                          inside = l;
                          item = same.item i;
                          epoch = same.epoch i;
                          unmoved = unmoved;
                        },
                      ))
            ]
      ]

  pub hash-Moves :
      (i : ℕ) (r : Record)
      → At (hashing i r)
      → let last_slot = (new_store m).last_slot in
        let hv = (bucket_at m.old.buckets i).hv in
        Moves start new_used n m m
          (copies op new_used (acquiring i r hv (add64 last_slot 1) (bucket_index hv last_slot) 0))
          quiet
  hash-Moves i r (v, below, read) =
      let same = h.same in
      let wide = length-flats new in
      let rounds : add64 (new_store m).last_slot 1 ≡ length (flats new) =
        omega (arith, v.width, v.word, wide) in
      let last : (new_store m).last_slot ≡ length (flats new) - 1 = omega (arith, v.width, wide) in
      stays start new_used from n m h op nz _ (
        v,
        below,
        read,
        same.hv i,
        at_home _ _ rounds (ap (bucket_index (bucket_at m.old.buckets i).hv) last),
      )
