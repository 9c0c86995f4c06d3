-- ===== src/Hihat/Linear.antt =====
-- Each step of a thread in hihat.c keeps what holds of the store, and does nothing, or at once all
-- that its call promises.
use hatrack.Prelude.{
  ℕ, suc, ◌+◌, ◌^◌, ◌<◌, ◌≡◌, refl, ap, ◌∙◌, arith, ◌==◌, List, length-set, ltb, inl, inr,
  Bool-cases,
}
use hatrack.FiniteMap.{Op}
use hatrack.Hihat.{Record, Bucket, bucket_at, Hihat, set_record}
use hatrack.Hihat.Steps.{
  Pc, probing, reserving, counting, loading, numbering, stepping, installing, tallying, finished,
  migrating, marking, flagging, checking, emptying, marked, quiet, with_store, new_record,
}
use hatrack.Hihat.Marking.{mark_step, check_step}
use hatrack.Hihat.Machine.{step}
use hatrack.Hihat.Flat.{flats, flats-set_flags, bucket_at-set_any}
use hatrack.Hihat.Invariant.{IsStore, Fits, Inserts, Stands, Grows-refl, Steps}
use hatrack.Hihat.Probes.{stays, probe-Steps}
use hatrack.Hihat.Records.{reserve-Steps, count-Steps, load-Steps}
use hatrack.Hihat.Installs.{install-Steps}

module _ (n : ℕ) (t : Hihat) (v : IsStore t.store_current) (started : 0 < t.next_epoch)
    (clock : t.next_epoch + suc n < 2 ^ 61) where
  abbrev bs : List Bucket
  bs = t.store_current.buckets

  new_record-Fits :
      (op : Op) (r : Record) (e : ℕ)
      → r.epoch ≡ 0
      → Inserts op
      → 0 < e
      → Fits op r (new_record op e)
  new_record-Fits (Op.op_get h) r e z i pos = i
  new_record-Fits (Op.op_put h item) r e z i pos = (refl, λ q. omega arith)
  new_record-Fits (Op.op_replace h item) r e z i pos = absurd i
  new_record-Fits (Op.op_add h item) r e z i pos = (z, refl, λ q. omega arith)
  new_record-Fits (Op.op_remove h) r e z i pos = absurd i

  -- A mark on a bucket is not seen.
  flag-Steps :
      (i : ℕ) (r : Record) (pc : Pc)
      → r.item ≡ (bucket_at bs i).rec.item
      → r.epoch ≡ (bucket_at bs i).rec.epoch
      → Stands (flats bs) n pc
      → Steps n t (with_store t (set_record t.store_current i r)) pc quiet
  flag-Steps i r pc e e' s =
      let b : Bucket = record (bucket_at bs i) { rec = r } in
      let same = flats-set_flags bs i b (rw (e, e') refl) in
      record {
        store = record {
          width = length-set bs i b ∙ v.width;
          power = rw (length-set bs i b) v.power;
          word = rw (length-set bs i b) v.word;
          placed = rw same v.placed;
          blank = flagged-blank i r e';
        };
        grows = rw same (Grows-refl (flats bs));
        started = started;
        clock = omega (arith, clock);
        stands = rw same s;
        replays = rw same refl;
      }
    where
      flagged-blank :
          (i : ℕ) (r : Record)
          → r.epoch ≡ (bucket_at bs i).rec.epoch
          → (j : ℕ) → (bucket_at (set_record t.store_current i r).buckets j).hv ≡ 0
          → (bucket_at (set_record t.store_current i r).buckets j).rec.epoch ≡ 0
      flagged-blank i r e j z =
          let at_i = ap (λ k. bucket_at bs k) {x = i} {y = j} in
          ground
            (arith, bucket_at-set_any bs i j (record (bucket_at bs i) { rec = r }), v.blank j, at_i)

  pub step-Steps :
      (pc : Pc)
      → Stands (flats bs) (suc n) pc
      → let (t', pc', event) = step t pc in Steps n t t' pc' event
  unfolding step mark_step check_step
  step-Steps (probing op rounds bix) (nz, p) = probe-Steps n t v started clock op rounds bix nz p
  step-Steps (reserving op rounds bix) (nz, p) =
      reserve-Steps n t v started clock op rounds bix nz p
  step-Steps (counting op bix) a = count-Steps n t v started clock op bix a
  step-Steps (loading op bix) a = load-Steps n t v started clock op bix a
  step-Steps (numbering op bix r) s =
      stays n t v started clock _ quiet (s.0, s.1, s.2, s.3, started, omega (arith, clock)) refl
  step-Steps (stepping op bix r e) s =
      let fits = new_record-Fits op r e s.2 s.3 s.4 in
      record {
        store = v;
        grows = Grows-refl (flats bs);
        started = omega (arith, s.5);
        clock = omega (arith, s.5);
        stands = (s.0, s.1, refl, fits);
        replays = refl;
      }
  step-Steps (installing op bix old candidate) s =
      install-Steps n t v started clock op bix old candidate s.0 s.2 s.3
  step-Steps (tallying up answer) s = record {
    store = v;
    grows = Grows-refl (flats bs);
    started = started;
    clock = omega (arith, clock);
    stands = tt;
    replays = refl;
  }
  step-Steps (finished answer) s = stays n t v started clock _ quiet tt refl
  step-Steps (migrating op) s = stays n t v started clock _ quiet tt refl
  step-Steps (marking op i new_used) s = stays n t v started clock _ quiet (mark-Stands i) refl
    where
      mark-Stands : (i : ℕ) → Stands (flats bs) n (mark_step t.store_current op i new_used)
      mark-Stands i = elim (Bool-cases (ltb t.store_current.last_slot i)) [
        | inl past ↦ rw past tt
        | inr within ↦ elim (Bool-cases (bucket_at bs i).rec.moving) [
          | inl moving ↦ rw (within, moving) tt
          | inr still ↦ rw (within, still) tt
        ]
      ]
  step-Steps (flagging op i new_used) s = flag-Steps i _ _ refl refl tt
  step-Steps (checking op i new_used) s = stays n t v started clock _ quiet (check-Stands i) refl
    where
      check-Stands : (i : ℕ) → Stands (flats bs) n (check_step t.store_current op i new_used)
      check-Stands i = elim (Bool-cases ((bucket_at bs i).rec.epoch == 0)) [
        | inl gone ↦ rw gone tt
        | inr live ↦ rw live tt
      ]
  step-Steps (emptying op i new_used) s = flag-Steps i _ _ refl refl tt
  step-Steps (marked op new_used) s = stays n t v started clock _ quiet tt refl
