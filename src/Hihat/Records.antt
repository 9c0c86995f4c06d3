-- ===== src/Hihat/Records.antt =====
-- The steps of hihat.c that claim a bucket, load its record and write it.
use hatrack.Prelude.{
  fun_ext, ℕ, suc, ◌+◌, ◌^◌, ◌<◌, ◌≡◌, ◌≢◌, refl, sym, ap, ◌∙◌, arith, true, ◌==◌, if◌then◌else◌,
  none, some, List, length, inl, inr, Bool-cases, leb, or_else,
}
use hatrack.FiniteMap.{
  update_same, Op, op_get, op_put, op_replace, op_add, op_remove, spec, hash_of,
}
use hatrack.Refhat
use hatrack.Refhat.Probing.{hash_at, hash_at-outside}
use hatrack.Hihat.{Record, Bucket, bucket_at, Hihat, set_hv, same_record}
use hatrack.Hihat.Steps.{quiet, with_store, reserve_step, count_step, load_step}
use hatrack.Hihat.Flat.{
  flats, length-flats, hash_at-flats, bucket_at-set_self, contents-at, contents-claim,
}
use hatrack.Hihat.Position.{Passed}
use hatrack.Hihat.Invariant.{IsStore, At, map_of, Steps, set_hv-IsStore, set_hv-Grows}
use hatrack.Hihat.Probes.{
  stays, inside, missing_free, reserved-Stands, replace_missing, remove_missing,
}

pub same_record-eq : (r s : Record) → same_record r s ≡ true → r ≡ s
unfolding same_record
same_record-eq r s e = ground arith

module _ (n : ℕ) (t : Hihat) (v : IsStore t.store_current) (started : 0 < t.next_epoch)
    (clock : t.next_epoch + suc n < 2 ^ 61) where
  abbrev bs : List Bucket
  bs = t.store_current.buckets

  abbrev fs : List Refhat.Bucket
  fs = flats t.store_current.buckets

  pub reserve-Steps :
      (op : Op) (k b : ℕ)
      → hash_of op ≢ 0
      → Passed fs (hash_of op) (suc k) b
      → let (store, pc) = reserve_step t.store_current op k b in
        Steps n t (with_store t store) pc quiet
  unfolding reserve_step
  reserve-Steps op k b nz p = elim (Bool-cases ((bucket_at bs b).hv == 0)) [
    | inl free ↦
        let z : (bucket_at bs b).hv ≡ 0 = ground arith in
        let l = inside n t v started clock p in
        let (e, missing) = missing_free n t v started clock nz p z in
        let grown = set_hv-Grows t.store_current b l v (hash_of op) z in
        let claimed : hash_at (flats (set_hv t.store_current b (hash_of op)).buckets) b
            ≡ hash_of op =
          hash_at-flats _ b ∙ ap (λ x. x.hv) (bucket_at-set_self bs b _ l) in
        rw free (record {
          store = set_hv-IsStore t.store_current b l v (hash_of op) nz z e;
          grows = grown;
          started = started;
          clock = omega (arith, clock);
          stands = (nz, claimed);
          replays = fun_ext (λ g. sym (
              contents-claim bs b l v.placed (hash_of op) (hash_at-flats bs b ∙ z) (v.blank b z)
                g));
        })
    | inr claimed ↦ rw claimed (
        stays n t v started clock _ quiet
          (reserved-Stands n t v started clock op k b nz p (ground arith)) refl)
  ]

  pub count-Steps :
      (op : Op) (b : ℕ)
      → At fs op b
      → let (store, pc) = count_step t.store_current op b in Steps n t (with_store t store) pc quiet
  unfolding count_step
  count-Steps op b a = record {
    store = record {
      width = v.width;
      power = v.power;
      word = v.word;
      placed = v.placed;
      blank = v.blank;
    };
    grows = record { width = refl; keeps = λ i nz. refl };
    started = started;
    clock = omega (arith, clock);
    stands = elim (Bool-cases (leb t.store_current.threshold t.store_current.used_count)) [
      | inl full ↦ rw full tt
      | inr room ↦ rw room a
    ];
    replays = refl;
  }

  -- What the map holds for the call's hash value stands in the bucket.
  pub claimed_bucket :
      (op : Op) (b : ℕ)
      → At fs op b
      → (b < length bs)
        × (map_of t (hash_of op)
            ≡ (if (bucket_at bs b).rec.epoch == 0 then none else some (bucket_at bs b).rec.item))
  claimed_bucket op b (nz, e) =
      let here : b < length fs = hash_at-outside fs b (λ z. nz (sym e ∙ z)) in
      let l : b < length bs = omega (arith, length-flats bs) in
      (l, contents-at bs b l v.placed (hash_of op) nz e)

  pub load-Steps :
      (op : Op) (b : ℕ)
      → At fs op b
      → let (pc, event) = load_step op b (bucket_at bs b).rec in Steps n t t pc event
  unfolding load_step spec or_else
  load-Steps (op_get h) b a =
      let (l, held) = claimed_bucket (op_get h) b a in
      stays n t v started clock _ _ tt (ground (arith, held), refl)
  load-Steps (op_put h item) b a = elim (Bool-cases (bucket_at bs b).rec.moving) [
    | inl moving ↦ rw moving (stays n t v started clock _ _ tt refl)
    | inr still ↦ elim (Bool-cases ((bucket_at bs b).rec.epoch == 0)) [
      | inl gone ↦
          rw (still, gone) (stays n t v started clock _ quiet (a, still, ground arith, tt) refl)
      | inr live ↦
          rw (still, live)
            (stays n t v started clock _ quiet (a, still, refl, (refl, ground arith)) refl)
    ]
  ]
  load-Steps (op_replace h item) b a =
      let (l, held) = claimed_bucket (op_replace h item) b a in
      elim (Bool-cases (bucket_at bs b).rec.moving) [
        | inl moving ↦ rw moving (stays n t v started clock _ _ tt refl)
        | inr still ↦ elim (Bool-cases ((bucket_at bs b).rec.epoch == 0)) [
          | inl gone ↦
              rw (still, gone)
                (stays n t v started clock _ _ tt
                  (replace_missing (map_of t) h item (held ∙ rw gone refl)))
          | inr live ↦
              rw (still, live)
                (stays n t v started clock _ quiet
                  (a, still, refl, (ground arith, refl, ground arith)) refl)
        ]
      ]
  load-Steps (op_add h item) b a =
      let (l, held) = claimed_bucket (op_add h item) b a in
      elim (Bool-cases (bucket_at bs b).rec.moving) [
        | inl moving ↦ rw moving (stays n t v started clock _ _ tt refl)
        | inr still ↦ elim (Bool-cases ((bucket_at bs b).rec.epoch == 0)) [
          | inl gone ↦
              rw (still, gone) (stays n t v started clock _ quiet (a, still, ground arith, tt) refl)
          | inr live ↦
              let e : map_of t h ≡ some (bucket_at bs b).rec.item = held ∙ rw live refl in
              rw (still, live)
                (stays n t v started clock _ _ tt
                  (rw e refl, update_same (map_of t) h _ (rw e refl)))
        ]
      ]
  load-Steps (op_remove h) b a =
      let (l, held) = claimed_bucket (op_remove h) b a in
      elim (Bool-cases (bucket_at bs b).rec.moving) [
        | inl moving ↦ rw moving (stays n t v started clock _ _ tt refl)
        | inr still ↦ elim (Bool-cases ((bucket_at bs b).rec.epoch == 0)) [
          | inl gone ↦
              rw (still, gone)
                (stays n t v started clock _ _ tt
                  (remove_missing (map_of t) h (held ∙ rw gone refl)))
          | inr live ↦
              rw (still, live)
                (stays n t v started clock _ quiet (a, still, refl, (ground arith, refl)) refl)
        ]
      ]
