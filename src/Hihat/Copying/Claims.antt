-- ===== src/Hihat/Copying/Claims.antt =====
-- hihat.c: a thread that migrates claims the bucket of a hash value in the new store.
use hatrack.Prelude.{
  fun_ext, ℕ, suc, ◌<◌, ◌≡◌, ◌≢◌, refl, sym, ap, ◌∙◌, arith, ◌==◌, ==_iff, if◌then◌else◌, List,
  length, set, inl, inr, Bool-cases,
}
use hatrack.Common.{Hash}
use hatrack.FiniteMap.{Op, hash_of}
use hatrack.Refhat.Probing.{hash_at}
use hatrack.Refhat.Contents.{contents}
use hatrack.Hihat.{Record, empty_record, same_record, Bucket, bucket_at, Store, set_hv}
use hatrack.Hihat.Steps.{quiet}
use hatrack.Hihat.Flat.{
  flats, set-bucket_at_self, length-flats, hash_at-flats, bucket_at-set, contents-claim,
}
use hatrack.Hihat.Invariant.{set_hv-IsStore, set_hv-Grows}
use hatrack.Hihat.Probes.{missing_free}
use hatrack.Hihat.Copying.{
  Migration, Copy, claiming, writing, copies, new_store, new_table, with_new, claim_step,
}
use hatrack.Hihat.Copying.Written.{Fills, IsPart}
use hatrack.Hihat.Copying.Phase.{IsStart, IsCopy, IsPhase, Moves, AreClaims}
use hatrack.Hihat.Copying.Stable.{live_hv, below-Fills}
use hatrack.Hihat.Copying.Refills.{refills}
use hatrack.Hihat.Copying.Acquires.{stays_same, Passed-inside, reserved-At}

module _ (start : List Bucket) (new_used : ℕ) (from : IsStart start new_used) (n : ℕ)
    (m : Migration) (h : IsPhase start new_used (suc n) m) (op : Op) (nz : hash_of op ≢ 0) where
  abbrev new : List Bucket
  new = (new_store m).buckets

  abbrev At : Copy → Type 0
  At c = IsCopy start new_used m.published (new_store m) c

  module _ (i : ℕ) (r : Record) (hv : Hash) (k b : ℕ) (a : At (claiming i r hv k b))
      (z : (bucket_at new b).hv ≡ 0) where
    abbrev after : Store
    after = set_hv (new_store m) b hv

    -- The hash value of a bucket that was never claimed: nothing is written.
    claim_nothing : hv ≡ 0 → after ≡ new_store m
    claim_nothing e =
        let same = set-bucket_at_self new b in
        let q : record (bucket_at new b) { hv = hv } ≡ bucket_at new b =
          ap (λ g. record (bucket_at new b) { hv = g }) (e ∙ sym z) in
        ap (λ bs. record (new_store m) { buckets = bs }) (ap (set new b) q ∙ same)

    here : b < length new
    here = Passed-inside start new_used from n m h op nz a.0 a.4

    -- No record is touched.
    after-rec : (j : ℕ) → (bucket_at after.buckets j).rec ≡ (bucket_at new j).rec
    after-rec j = elim (Bool-cases (b == j)) [
      | inl same ↦
          let q : b ≡ j = (==_iff b j).0 same in
          ap (λ x. x.rec) (bucket_at-set new b j _ here) ∙ rw (same, ← q) refl
      | inr other ↦ ap (λ x. x.rec) (bucket_at-set new b j _ here) ∙ rw other refl
    ]

    after-hash_at :
        (j : ℕ) → hash_at (flats after.buckets) j ≡ (if b == j then hv else hash_at (flats new) j)
    after-hash_at j =
        hash_at-flats after.buckets j
        ∙ ap (λ x. x.hv) (bucket_at-set new b j _ here)
        ∙ ground (arith, hash_at-flats new j)

    contents-after : contents (flats after.buckets) ≡ contents (flats new)
    contents-after =
        fun_ext (contents-claim new b here a.0.placed hv (hash_at-flats new b ∙ z) (a.0.blank b z))

    claim-IsPart :
        IsPart start new × AreClaims start new_used new
        → IsPart start after.buckets × AreClaims start new_used after.buckets
    claim-IsPart (part, claims) = (
      record {
        lively = λ j e.
            let q = after-rec j in
            λ e'.
              part.lively j (ap (λ r'. same_record r' empty_record) (sym q) ∙ e)
                (ap (λ r'. r'.epoch) (sym q) ∙ e');
        among = λ g x e. part.among g x (sym (ap (λ c. c g) contents-after) ∙ e);
      },
      λ j nz'. elim (Bool-cases (b == j)) [
        | inl same ↦
            let q : hash_at (flats after.buckets) j ≡ hv = after-hash_at j ∙ rw same refl in
            (i, a.2.inside, a.2.unmoved, sym (q ∙ a.3))
        | inr other ↦
            let q : hash_at (flats after.buckets) j ≡ hash_at (flats new) j =
              after-hash_at j ∙ rw other refl in
            let (j', l, still, e) = claims j (λ z'. nz' (q ∙ z')) in (j', l, still, e ∙ sym q)
      ],
    )

    claim-Fills : Fills new after.buckets
    claim-Fills = record {
      grows = set_hv-Grows (new_store m) b here a.0 hv z;
      full = λ j e. ap (λ r'. same_record r' empty_record) (after-rec j) ∙ e;
    }

    claim_some :
        hv ≢ 0
        → Moves start new_used n m (with_new m after) (copies op new_used (writing i r b)) quiet
    claim_some nz' =
        let free = (missing_free n (new_table m) a.0 h.started h.clock {h = hv} nz' a.4 z).0 in
        let v = set_hv-IsStore (new_store m) b here a.0 hv nz' z free in
        let f = claim-Fills in
        let at_b : hash_at (flats after.buckets) b ≡ hv = after-hash_at b ∙ ground arith in
        let wide = f.grows.width in
        let here' : b < length after.buckets =
          omega (arith, here, wide, length-flats new, length-flats after.buckets) in
        refills start new_used from n m h after _ a.0 f v (λ p. claim-IsPart (h.part p))
          (λ p. sym contents-after)
          (
            nz,
            refl,
            (v, below-Fills start new_used from _ _ i f a.1, a.2, λ live. (here', at_b ∙ a.3)),
          )

    claim_any :
        Moves start new_used n m (with_new m after) (copies op new_used (writing i r b)) quiet
    claim_any = elim (Bool-cases (hv == 0)) [
      | inl e ↦
          let zero_hv : hv ≡ 0 = (==_iff hv 0).0 e in
          stays_same start new_used from n m h op nz after (writing i r b) (claim_nothing zero_hv)
            a.0
            (a.0, a.1, a.2, λ live. absurd (live_hv start new_used from i live (sym a.3 ∙ zero_hv)))
      | inr e ↦ claim_some (ground (arith, e))
    ]

  pub claim-Moves :
      (i : ℕ) (r : Record) (hv : Hash) (k b : ℕ)
      → At (claiming i r hv k b)
      → let (s, c) = claim_step (new_store m) i r hv k b in
        Moves start new_used n m (with_new m s) (copies op new_used c) quiet
  unfolding claim_step
  claim-Moves i r hv k b a = elim (Bool-cases ((bucket_at new b).hv == 0)) [
    | inl free ↦ rw free (claim_any i r hv k b a (ground (arith, free)))
    | inr claimed ↦ rw claimed (
        stays_same start new_used from n m h op nz (new_store m) _ refl a.0
          (reserved-At start new_used from n m h op nz i r hv k b a (ground (arith, claimed))))
  ]
