-- ===== src/Hihat/Invariant.antt =====
-- What holds of the store and of every thread between two steps.
use hatrack.Prelude.{
  ℕ, suc, ◌+◌, ◌^◌, ◌<◌, ◌≡◌, ◌≢◌, refl, sym, ap, ◌∙◌, arith, false, List, [], ◌∷◌, length, set,
  length-set,
}
use hatrack.Common.{Hash}
use hatrack.Common.Sizes.{IsPowerOfTwo}
use hatrack.FiniteMap.{Op, op_get, op_put, op_replace, op_add, op_remove, Map, hash_of}
use hatrack.Refhat
use hatrack.Refhat.Probing.{hash_at}
use hatrack.Refhat.Contents.{contents, probe_in, IsPlaced}
use hatrack.Hihat.{Record, Bucket, bucket_at, Store, Hihat, set_hv, set_record}
use hatrack.Hihat.Steps.{
  Pc, probing, reserving, counting, loading, numbering, stepping, installing, tallying, finished,
  migrating, marking, flagging, checking, emptying, marked, Event,
}
use hatrack.Hihat.Machine.{Replays}
use hatrack.Hihat.Flat.{
  flats, length-flats, hash_at-flats, bucket_at-set, claim-IsPlaced, record-IsPlaced,
}
use hatrack.Hihat.Position.{Passed, Grows, Passed-Grows}

-- A claimed bucket is found by its probe, and one that is not claimed holds nothing.
pub record IsStore (s : Store) : Type 0 where
  pub width : length s.buckets ≡ s.last_slot + 1
  pub power : IsPowerOfTwo (length s.buckets)
  pub word : length s.buckets < 2 ^ 64
  pub placed : IsPlaced (flats s.buckets)
  pub blank : (i : ℕ) → (bucket_at s.buckets i).hv ≡ 0 → (bucket_at s.buckets i).rec.epoch ≡ 0

-- What a candidate must be for the call to do what it promises.
abbrev pub Fits : Op → Record → Record → Type 0
Fits (op_get h) old candidate = ⊥
Fits (op_put h item) old candidate = (candidate.item ≡ item) × (candidate.epoch ≢ 0)
Fits (op_replace h item) old candidate =
    (old.epoch ≢ 0) × (candidate.item ≡ item) × (candidate.epoch ≢ 0)
Fits (op_add h item) old candidate =
    (old.epoch ≡ 0) × (candidate.item ≡ item) × (candidate.epoch ≢ 0)
Fits (op_remove h) old candidate = (old.epoch ≢ 0) × (candidate.epoch ≡ 0)

abbrev pub Inserts : Op → Type 0
Inserts (op_get h) = ⊥
Inserts (op_put h item) = Unit
Inserts (op_replace h item) = ⊥
Inserts (op_add h item) = Unit
Inserts (op_remove h) = ⊥

abbrev pub At : List Refhat.Bucket → Op → ℕ → Type 0
At fs op bix = (hash_of op ≢ 0) × (hash_at fs bix ≡ hash_of op)

-- A thread's place, with `n` more steps to come.
abbrev pub Stands : List Refhat.Bucket → ℕ → Pc → Type 0
Stands fs n (probing op rounds bix) = (hash_of op ≢ 0) × Passed fs (hash_of op) rounds bix
Stands fs n (reserving op rounds bix) = (hash_of op ≢ 0) × Passed fs (hash_of op) (suc rounds) bix
Stands fs n (counting op bix) = At fs op bix
Stands fs n (loading op bix) = At fs op bix
Stands fs n (numbering op bix r) = At fs op bix × (r.moving ≡ false) × (r.epoch ≡ 0) × Inserts op
Stands fs n (stepping op bix r e) =
    At fs op bix × (r.moving ≡ false) × (r.epoch ≡ 0) × Inserts op × (0 < e) × (e + n < 2 ^ 61)
Stands fs n (installing op bix old candidate) =
    At fs op bix × (old.moving ≡ false) × (candidate.moving ≡ false) × Fits op old candidate
Stands fs n (tallying up answer) = Unit
Stands fs n (finished answer) = Unit
Stands fs n (migrating op) = Unit
Stands fs n (marking op i new_used) = Unit
Stands fs n (flagging op i new_used) = Unit
Stands fs n (checking op i new_used) = Unit
Stands fs n (emptying op i new_used) = Unit
Stands fs n (marked op new_used) = Unit

At-Grows :
    {fs fs' : List Refhat.Bucket} (op : Op) (bix : ℕ) → Grows fs fs' → At fs op bix → At fs' op bix
At-Grows op bix g (nz, e) = (nz, g.keeps bix (λ z. nz (sym e ∙ z)) ∙ e)

-- The steps of other threads leave a thread's place as it is.
pub Stands-Grows :
    {fs fs' : List Refhat.Bucket} (n : ℕ) (pc : Pc)
    → Grows fs fs'
    → Stands fs (suc n) pc
    → Stands fs' n pc
Stands-Grows n (probing op rounds bix) g (nz, p) = (nz, Passed-Grows g p)
Stands-Grows n (reserving op rounds bix) g (nz, p) = (nz, Passed-Grows g p)
Stands-Grows n (counting op bix) g a = At-Grows op bix g a
Stands-Grows n (loading op bix) g a = At-Grows op bix g a
Stands-Grows n (numbering op bix r) g s = (At-Grows op bix g s.0, s.1, s.2, s.3)
Stands-Grows n (stepping op bix r e) g s =
    (At-Grows op bix g s.0, s.1, s.2, s.3, s.4, omega (arith, s.5))
Stands-Grows n (installing op bix old candidate) g s = (At-Grows op bix g s.0, s.1, s.2, s.3)
Stands-Grows n (tallying up answer) g s = tt
Stands-Grows n (finished answer) g s = tt
Stands-Grows n (migrating op) g s = tt
Stands-Grows n (marking op i new_used) g s = tt
Stands-Grows n (flagging op i new_used) g s = tt
Stands-Grows n (checking op i new_used) g s = tt
Stands-Grows n (emptying op i new_used) g s = tt
Stands-Grows n (marked op new_used) g s = tt

pub Grows-refl : (fs : List Refhat.Bucket) → Grows fs fs
Grows-refl fs = record { width = refl; keeps = λ i nz. refl }

-- The map that the table stands for.
abbrev pub map_of : Hihat → Map
map_of t = contents (flats t.store_current.buckets)

-- What a step with `n` more to come must keep.
pub record Steps (n : ℕ) (t : Hihat) (t' : Hihat) (pc : Pc) (event : Event) : Type 0 where
  pub store : IsStore t'.store_current
  pub grows : Grows (flats t.store_current.buckets) (flats t'.store_current.buckets)
  pub started : 0 < t'.next_epoch
  pub clock : t'.next_epoch + n < 2 ^ 61
  pub stands : Stands (flats t'.store_current.buckets) n pc
  pub replays : Replays (map_of t) (event ∷ []) (map_of t')

-- The writes keep what holds of the store.
module _ (s : Store) (i : ℕ) (l : i < length s.buckets) (v : IsStore s) where
  pub set_record-IsStore :
      (r : Record) → ((bucket_at s.buckets i).hv ≡ 0 → r.epoch ≡ 0) → IsStore (set_record s i r)
  set_record-IsStore r empty =
      let b : Bucket = record (bucket_at s.buckets i) { rec = r } in
      let wide = length-set s.buckets i b in
      record {
        width = wide ∙ v.width;
        power = rw wide v.power;
        word = rw wide v.word;
        placed = record-IsPlaced s.buckets i l v.placed r;
        blank = λ j z. ground (arith, bucket_at-set s.buckets i j b l, v.blank j);
      }

  pub set_record-Grows : (r : Record) → Grows (flats s.buckets) (flats (set_record s i r).buckets)
  set_record-Grows r =
      let b : Bucket = record (bucket_at s.buckets i) { rec = r } in
      record {
        width =
            length-flats (set s.buckets i b)
            ∙ length-set s.buckets i b
            ∙ sym (length-flats s.buckets);
        keeps = λ j nz.
            let at_i = ap (λ k. (bucket_at s.buckets k).hv) {x = i} {y = j} in
            hash_at-flats (set s.buckets i b) j
            ∙ ground (arith, bucket_at-set s.buckets i j b l, at_i)
            ∙ sym (hash_at-flats s.buckets j);
      }

  pub set_hv-IsStore :
      (h : Hash)
      → h ≢ 0
      → (bucket_at s.buckets i).hv ≡ 0
      → probe_in (flats s.buckets) h ≡ Refhat.unreserved i
      → IsStore (set_hv s i h)
  set_hv-IsStore h nz z e =
      let b : Bucket = record (bucket_at s.buckets i) { hv = h } in
      let wide = length-set s.buckets i b in
      record {
        width = wide ∙ v.width;
        power = rw wide v.power;
        word = rw wide v.word;
        placed = claim-IsPlaced s.buckets i l v.placed h nz (hash_at-flats s.buckets i ∙ z) e;
        blank = λ j z'. ground (arith, bucket_at-set s.buckets i j b l, v.blank j);
      }

  pub set_hv-Grows :
      (h : Hash)
      → (bucket_at s.buckets i).hv ≡ 0
      → Grows (flats s.buckets) (flats (set_hv s i h).buckets)
  set_hv-Grows h z =
      let b : Bucket = record (bucket_at s.buckets i) { hv = h } in
      record {
        width =
            length-flats (set s.buckets i b)
            ∙ length-set s.buckets i b
            ∙ sym (length-flats s.buckets);
        keeps = λ j nz.
            let at_i = ap (λ k. (bucket_at s.buckets k).hv) {x = i} {y = j} in
            let not_j : (bucket_at s.buckets j).hv ≢ 0 =
              λ z'. nz (hash_at-flats s.buckets j ∙ z') in
            hash_at-flats (set s.buckets i b) j
            ∙ ground (arith, bucket_at-set s.buckets i j b l, at_i)
            ∙ sym (hash_at-flats s.buckets j);
      }
