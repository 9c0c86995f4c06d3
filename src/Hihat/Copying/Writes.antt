-- ===== src/Hihat/Copying/Writes.antt =====
-- hihat.c: a thread that migrates writes the record in the bucket that it has found in the new store, if no
-- other thread has done so.
use hatrack.Prelude.{
  ℕ, suc, ◌<◌, ◌≡◌, ◌≢◌, refl, sym, ap, ◌∙◌, arith, true, false, ◌==◌, ==_iff, if◌then◌else◌, some,
  List, length, set, inl, inr, Bool-cases,
}
use hatrack.FiniteMap.{Op, hash_of}
use hatrack.Refhat.Probing.{hash_at}
use hatrack.Refhat.Contents.{contents, IsPlaced-unique}
use hatrack.Hihat.{Record, empty_record, same_record, Bucket, bucket_at, Store, set_record}
use hatrack.Hihat.Steps.{quiet}
use hatrack.Hihat.Flat.{
  flats, set-bucket_at_self, length-flats, hash_at-flats, bucket_at-set, contents-record,
  contents-at,
}
use hatrack.Hihat.Records.{same_record-eq}
use hatrack.Hihat.Invariant.{set_record-IsStore, set_record-Grows}
use hatrack.Hihat.Copying.{
  Migration, Copy, writing, settling, copies, new_store, with_new, write_step, candidate_record,
}
use hatrack.Hihat.Copying.Written.{is_empty_at, Fills, IsPart}
use hatrack.Hihat.Copying.Phase.{IsStart, IsCopy, IsPhase, Moves, AreClaims, hv_of, IsLive}
use hatrack.Hihat.Copying.Stable.{live_hv, below-Fills}
use hatrack.Hihat.Copying.Refills.{refills}
use hatrack.Hihat.Copying.Acquires.{stays_same}

candidate-empty : (r : Record) → r.item ≡ 0 → r.epoch ≡ 0 → candidate_record r ≡ empty_record
candidate-empty r e e' =
    ap (λ x. record empty_record { item = x; epoch = r.epoch }) e
    ∙ ap (λ x. record empty_record { epoch = x }) e'

candidate-full : (r : Record) → r.epoch ≢ 0 → same_record (candidate_record r) empty_record ≡ false
unfolding same_record
candidate-full r e = ground (arith, e)

module _ (start : List Bucket) (new_used : ℕ) (from : IsStart start new_used) (n : ℕ)
    (m : Migration) (h : IsPhase start new_used (suc n) m) (op : Op) (nz : hash_of op ≢ 0) where
  abbrev new : List Bucket
  new = (new_store m).buckets

  abbrev At : Copy → Type 0
  At c = IsCopy start new_used m.published (new_store m) c

  abbrev Done : Store → ℕ → Type 0
  Done s i = Moves start new_used n m (with_new m s) (copies op new_used (settling i)) quiet

  module _ (i : ℕ) (r : Record) (b : ℕ) (a : At (writing i r b)) where
    -- A record without an item is empty, and the write changes nothing.
    write_dead : r.epoch ≡ 0 → Done (write_step (new_store m) r b) i
    unfolding write_step
    write_dead dead =
        let read = a.2 in
        let epoch : (bucket_at start i).rec.epoch ≡ 0 = sym read.epoch ∙ dead in
        let blank = candidate-empty r (read.item ∙ from.clear i epoch) dead in
        let place : At (settling i) = (a.0, a.1, read.inside, λ live. absurd (live epoch)) in
        elim (Bool-cases (same_record (bucket_at new b).rec empty_record)) [
          | inl empty ↦
              let q : record (bucket_at new b) { rec = candidate_record r } ≡ bucket_at new b =
                ap (λ x. record (bucket_at new b) { rec = x })
                  (blank ∙ sym (same_record-eq _ _ empty)) in
              let same : set_record (new_store m) b (candidate_record r) ≡ new_store m =
                ap (λ bs. record (new_store m) { buckets = bs })
                  (ap (set new b) q ∙ set-bucket_at_self new b) in
              rw empty (stays_same start new_used from n m h op nz _ (settling i) same a.0 place)
          | inr full ↦
              rw full (stays_same start new_used from n m h op nz _ (settling i) refl a.0 place)
        ]

    module _ (live : IsLive start new_used i) where
      here : b < length new
      here = (a.3 live).0

      -- Another thread has written the record.
      write_full : is_empty_at new b ≡ false → Done (new_store m) i
      write_full full =
          stays_same start new_used from n m h op nz _ (settling i) refl a.0
            (a.0, a.1, (a.2).inside, λ l. (b, here, (a.3 live).1, full))

      abbrev after : Store
      after = set_record (new_store m) b (candidate_record r)

      live_r : r.epoch ≢ 0
      live_r e = live (sym a.2.epoch ∙ e)

      hv_nz : hv_of start new_used i ≢ 0
      hv_nz = live_hv start new_used from i live

      after-rec :
          (j : ℕ)
          → (bucket_at after.buckets j).rec
            ≡ (if b == j then candidate_record r else (bucket_at new j).rec)
      after-rec j = ap (λ x. x.rec) (bucket_at-set new b j _ here) ∙ ground arith

      after-hash_at : (j : ℕ) → hash_at (flats after.buckets) j ≡ hash_at (flats new) j
      after-hash_at j = elim (Bool-cases (b == j)) [
        | inl same ↦
            let q : b ≡ j = (==_iff b j).0 same in
            hash_at-flats after.buckets j
            ∙ ap (λ x. x.hv) (bucket_at-set new b j _ here)
            ∙ rw (same, ← q) (sym (hash_at-flats new b))
        | inr other ↦
            hash_at-flats after.buckets j
            ∙ ap (λ x. x.hv) (bucket_at-set new b j _ here)
            ∙ rw other (sym (hash_at-flats new j))
      ]

      empty_after :
          (j : ℕ) → is_empty_at after.buckets j ≡ (if b == j then false else is_empty_at new j)
      empty_after j =
          let full = candidate-full r live_r in
          ap (λ x. same_record x empty_record) (after-rec j)
          ∙ elim (Bool-cases (b == j)) [ inl same ↦ rw same full | inr other ↦ rw other refl ]

      old_item : contents (flats start) (hv_of start new_used i) ≡ some r.item
      old_item =
          let dead : ((bucket_at start i).rec.epoch == 0) ≡ false = ground (arith, live) in
          contents-at start i (a.2).inside from.placed (hv_of start new_used i) hv_nz
            (hash_at-flats start i)
          ∙ rw dead (ap some (sym a.2.item))

      write-IsPart :
          IsPart start new × AreClaims start new_used new
          → IsPart start after.buckets × AreClaims start new_used after.buckets
      write-IsPart (part, claims) = (
        record {
          lively = λ j e. elim (Bool-cases (b == j)) [
            | inl same ↦
                let q : (bucket_at after.buckets j).rec ≡ candidate_record r =
                  after-rec j ∙ rw same refl in
                λ z. live_r (sym (ap (λ x. x.epoch) q) ∙ z)
            | inr other ↦
                let q : (bucket_at after.buckets j).rec ≡ (bucket_at new j).rec =
                  after-rec j ∙ rw other refl in
                λ z.
                  part.lively j (sym (empty_after j ∙ rw other refl) ∙ e)
                    (sym (ap (λ x. x.epoch) q) ∙ z)
          ];
          among = λ g x e.
              let seen =
                contents-record new b here a.0.placed (hv_of start new_used i) (candidate_record r)
                  hv_nz (a.3 live).1 g in
              elim (Bool-cases (g == hv_of start new_used i)) [
                | inl same ↦
                    let q : g ≡ hv_of start new_used i = (==_iff g _).0 same in
                    let dead : (r.epoch == 0) ≡ false = ground (arith, live_r) in
                    let found : some r.item ≡ some x = sym (seen ∙ rw (same, dead) refl) ∙ e in
                    ap (contents (flats start)) q ∙ old_item ∙ found
                | inr other ↦ part.among g x (sym (seen ∙ rw other refl) ∙ e)
              ];
        },
        λ j nz'.
            let q = after-hash_at j in
            let (j', l, still, e) = claims j (λ z. nz' (q ∙ z)) in (j', l, still, e ∙ sym q),
      )

      write_empty : is_empty_at new b ≡ true → Done after i
      write_empty empty =
          let v =
            set_record-IsStore (new_store m) b here a.0 (candidate_record r)
              (λ z. absurd (hv_nz (sym (a.3 live).1 ∙ hash_at-flats new b ∙ z))) in
          let f : Fills new after.buckets = record {
            grows = set_record-Grows (new_store m) b here a.0 (candidate_record r);
            full = λ j e. empty_after j ∙ ground (arith, e);
          } in
          let wide = f.grows.width in
          let here' : b < length after.buckets =
            omega (arith, here, wide, length-flats new, length-flats after.buckets) in
          let full : is_empty_at after.buckets b ≡ false = empty_after b ∙ ground arith in
          refills start new_used from n m h after _ a.0 f v (λ p. write-IsPart (h.part p))
            (λ p.
              let (j, l, e, full) = (h.open_to p).1 i a.2.inside live in
              let q : b ≡ j =
                IsPlaced-unique (flats new) b j a.0.placed (λ z. hv_nz (sym (a.3 live).1 ∙ z))
                  ((a.3 live).1 ∙ sym e) in
              let empty_j : is_empty_at new j ≡ true = rw q at empty in
              ground (arith, empty_j, full))
            (
              nz,
              refl,
              (
                v,
                below-Fills start new_used from _ _ i f a.1,
                (a.2).inside,
                λ l. (b, here', after-hash_at b ∙ (a.3 live).1, full),
              ),
            )

  pub write-Moves :
      (i : ℕ) (r : Record) (b : ℕ) → At (writing i r b) → Done (write_step (new_store m) r b) i
  unfolding write_step
  write-Moves i r b a = elim (Bool-cases (r.epoch == 0)) [
    | inl dead ↦ write_dead i r b a ((==_iff r.epoch 0).0 dead)
    | inr lively ↦
        let read = a.2 in
        let live : IsLive start new_used i = λ e. ground (arith, read.epoch, lively, e) in
        elim (Bool-cases (same_record (bucket_at new b).rec empty_record)) [
          | inl empty ↦ rw empty (write_empty i r b a live empty)
          | inr full ↦ rw full (write_full i r b a live full)
        ]
  ]
