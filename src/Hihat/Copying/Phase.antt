-- ===== src/Hihat/Copying/Phase.antt =====
-- hihat.c: what holds while the old store is copied, of the two stores and of each thread's place.
use hatrack.Prelude.{
  ℕ, suc, ◌+◌, ◌-◌, ◌^◌, ◌<◌, ◌≡◌, ◌≢◌, ◌⊎◌, Bool, true, false, not, ◌&&◌, if◌then◌else◌, none,
  List, [], ◌∷◌, length, count_by,
}
use hatrack.Common.{Hash, bucket_unreserved, new_size}
use hatrack.Common.Sizes.{IsPowerOfTwo}
use hatrack.FiniteMap.{hash_of, Map}
use hatrack.Refhat.Probing.{hash_at}
use hatrack.Refhat.Contents.{contents, IsPlaced}
use hatrack.Hihat.{Record, empty_record, same_record, Bucket, bucket_at, Store}
use hatrack.Hihat.Steps.{
  Pc, probing, reserving, counting, loading, numbering, stepping, installing, tallying, finished,
  migrating, marking, flagging, checking, emptying, marked, Event,
}
use hatrack.Hihat.Machine.{Replays}
use hatrack.Hihat.Flat.{flats}
use hatrack.Hihat.Position.{Passed}
use hatrack.Hihat.Invariant.{IsStore, Stands}
use hatrack.Hihat.Copying.{
  Migration, Copy, choosing, offering, scanning, hashing, acquiring, claiming, writing, settling,
  recording, publishing, returning, Place, copies, works, new_store,
}
use hatrack.Hihat.Copying.Written.{IsWritten, IsPart, AllWritten}

-- An old bucket whose move is not done and whose hash value may be claimed in the new store.
abbrev pub is_pending : Bucket → Bool
is_pending b = not b.rec.moved && not (bucket_unreserved b.hv)

-- The old store at the start, its size, and the number of its items: empty records are clear, items are not
-- moved yet, and the new store has room for what is still to be moved.
pub record IsStart (start : List Bucket) (new_used : ℕ) : Type 0 where
  pub placed : IsPlaced (flats start)
  pub blank : (j : ℕ) → (bucket_at start j).hv ≡ 0 → (bucket_at start j).rec.epoch ≡ 0
  pub clear : (j : ℕ) → (bucket_at start j).rec.epoch ≡ 0 → (bucket_at start j).rec.item ≡ 0
  pub unmoved : (j : ℕ) → (bucket_at start j).rec.epoch ≢ 0 → (bucket_at start j).rec.moved ≡ false
  pub power : IsPowerOfTwo (new_size (length start - 1) new_used)
  pub word : new_size (length start - 1) new_used < 2 ^ 64
  pub room : count_by is_pending start < new_size (length start - 1) new_used

-- The old store later: only moves have been noted.
pub record IsSame (start old : List Bucket) : Type 0 where
  pub width : length old ≡ length start
  pub hv : (j : ℕ) → (bucket_at old j).hv ≡ (bucket_at start j).hv
  pub item : (j : ℕ) → (bucket_at old j).rec.item ≡ (bucket_at start j).rec.item
  pub epoch : (j : ℕ) → (bucket_at old j).rec.epoch ≡ (bucket_at start j).rec.epoch
  pub moved : (j : ℕ) → (bucket_at start j).rec.moved ≡ true → (bucket_at old j).rec.moved ≡ true

-- The candidate of a compare-and-swap of a record is not a cleared one.
abbrev pub keeps_full : Pc → Bool
keeps_full (probing op rounds bix) = true
keeps_full (reserving op rounds bix) = true
keeps_full (counting op bix) = true
keeps_full (loading op bix) = true
keeps_full (numbering op bix r) = true
keeps_full (stepping op bix r e) = true
keeps_full (installing op bix old candidate) = not (same_record candidate empty_record)
keeps_full (tallying up answer) = true
keeps_full (finished answer) = true
keeps_full (migrating op) = true
keeps_full (marking op i u) = true
keeps_full (flagging op i u) = true
keeps_full (checking op i u) = true
keeps_full (emptying op i u) = true
keeps_full (marked op u) = true

abbrev pub IsNonempty : Pc → Type 0
IsNonempty pc = keeps_full pc ≡ true

module _ (start : List Bucket) (new_used : ℕ) where
  abbrev pub hv_of : ℕ → Hash
  hv_of j = (bucket_at start j).hv

  abbrev pub IsLive : ℕ → Type 0
  IsLive j = (bucket_at start j).rec.epoch ≢ 0

  -- The items below `i` are written in the new store.
  abbrev pub WrittenBelow : List Bucket → ℕ → Type 0
  WrittenBelow new i = (j : ℕ) → j < i → j < length start → IsLive j → IsWritten new (hv_of j)

  -- What a thread has read of the old store.
  pub record HasRead (i : ℕ) (r : Record) : Type 0 where
    pub inside : i < length start
    pub item : r.item ≡ (bucket_at start i).rec.item
    pub epoch : r.epoch ≡ (bucket_at start i).rec.epoch
    pub unmoved : (bucket_at start i).rec.moved ≡ false

  abbrev pub IsCopy : Bool → Store → Copy → Type 0
  IsCopy published new choosing = Unit
  IsCopy published new offering = Unit
  IsCopy published new (scanning i) = IsStore new × WrittenBelow new.buckets i
  IsCopy published new (hashing i r) = IsStore new × WrittenBelow new.buckets i × HasRead i r
  IsCopy published new (acquiring i r hv rounds bix new_bix) =
      IsStore new
      × WrittenBelow new.buckets i
      × HasRead i r
      × (hv ≡ hv_of i)
      × Passed (flats new.buckets) hv rounds bix
  IsCopy published new (claiming i r hv rounds bix) =
      IsStore new
      × WrittenBelow new.buckets i
      × HasRead i r
      × (hv ≡ hv_of i)
      × Passed (flats new.buckets) hv (suc rounds) bix
  IsCopy published new (writing i r new_bix) =
      IsStore new
      × WrittenBelow new.buckets i
      × HasRead i r
      × (IsLive i
          → (new_bix < length new.buckets) × (hash_at (flats new.buckets) new_bix ≡ hv_of i))
  IsCopy published new (settling i) =
      IsStore new
      × WrittenBelow new.buckets i
      × (i < length start)
      × (IsLive i → IsWritten new.buckets (hv_of i))
  IsCopy published new recording = IsStore new × AllWritten start new.buckets
  IsCopy published new publishing = IsStore new × AllWritten start new.buckets
  IsCopy published new returning = IsStore new × AllWritten start new.buckets × (published ≡ true)

  -- A thread's place, with `n` more steps to come.
  abbrev pub IsAt : ℕ → Migration → Place → Type 0
  IsAt n m (copies op u c) = (hash_of op ≢ 0) × (u ≡ new_used) × IsCopy m.published (new_store m) c
  IsAt n m (works pc) =
      (m.published ≡ true) × Stands (flats (new_store m).buckets) n pc × IsNonempty pc

  -- The hash values in the new store are those of buckets whose move was not done at the start.
  abbrev pub AreClaims : List Bucket → Type 0
  AreClaims new =
      (k : ℕ)
      → hash_at (flats new) k ≢ 0
      → (j : ℕ) × (j < length start)
        × ((bucket_at start j).rec.moved ≡ false)
        × (hv_of j ≡ hash_at (flats new) k)

  -- What holds of the stores between two steps, with `n` more to come.
  pub record IsPhase (n : ℕ) (m : Migration) : Type 0 where
    pub width : length m.old.buckets ≡ m.old.last_slot + 1
    pub same : IsSame start m.old.buckets
    pub settled :
        (j : ℕ)
        → j < length start
        → IsLive j
        → (bucket_at m.old.buckets j).rec.moved ≡ true
        → IsWritten (new_store m).buckets (hv_of j)
    pub started : 0 < m.next_epoch
    pub clock : m.next_epoch + n < 2 ^ 61
    pub chosen :
        (m.store_next ≡ none)
        ⊎ (IsStore (new_store m)
            × (length (new_store m).buckets ≡ new_size (length start - 1) new_used))
    pub part :
        m.published ≡ false → IsPart start (new_store m).buckets × AreClaims (new_store m).buckets
    pub open_to :
        m.published ≡ true → IsStore (new_store m) × AllWritten start (new_store m).buckets

  -- What the table holds, as the calls see it.
  abbrev pub map_at : Migration → Map
  map_at m = contents (flats (if m.published then (new_store m).buckets else start))

  -- What a step does.
  pub record Moves (n : ℕ) (m m' : Migration) (place : Place) (event : Event) : Type 0 where
    pub phase : IsPhase n m'
    pub at_place : IsAt n m' place
    pub others : (p : Place) → IsAt (suc n) m p → IsAt n m' p
    pub replays : Replays (map_at m) (event ∷ []) (map_at m')
