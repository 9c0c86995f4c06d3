-- ===== src/Hihat/Copying/Stable.antt =====
-- hihat.c: what holds of a migrating thread's place is left so by the steps of the others.
use hatrack.Prelude.{ℕ, suc, ◌≡◌, ◌≢◌, sym, ◌∙◌, arith, Bool, true, List}
use hatrack.Hihat.{Bucket, Store}
use hatrack.Hihat.Flat.{length-flats}
use hatrack.Hihat.Position.{Passed-Grows}
use hatrack.Hihat.Invariant.{IsStore, Stands-Grows}
use hatrack.Hihat.Copying.{
  Migration, Copy, choosing, offering, scanning, hashing, acquiring, claiming, writing, settling,
  recording, publishing, returning, Place, copies, works, new_store,
}
use hatrack.Hihat.Copying.Written.{Fills, IsWritten-Fills, AllWritten}
use hatrack.Hihat.Copying.Phase.{IsStart, WrittenBelow, IsCopy, IsAt, hv_of, IsLive}

module _ (start : List Bucket) (new_used : ℕ) (from : IsStart start new_used) where
  pub live_hv : (j : ℕ) → IsLive start new_used j → hv_of start new_used j ≢ 0
  live_hv j live z = live (from.blank j z)

  pub AllWritten-Fills :
      (new new' : List Bucket) → Fills new new' → AllWritten start new → AllWritten start new'
  AllWritten-Fills new new' f all j l live =
      IsWritten-Fills new new' _ (live_hv j live) f (all j l live)

  pub below-Fills :
      (new new' : List Bucket) (i : ℕ)
      → Fills new new'
      → WrittenBelow start new_used new i
      → WrittenBelow start new_used new' i
  below-Fills new new' i f below j lj l live =
      IsWritten-Fills new new' _ (live_hv j live) f (below j lj l live)

  module _ (p p' : Bool) (new new' : Store) (f : Fills new.buckets new'.buckets) (v : IsStore new')
      (opens : p ≡ true → p' ≡ true) where
    pub IsCopy-Fills : (c : Copy) → IsCopy start new_used p new c → IsCopy start new_used p' new' c
    IsCopy-Fills choosing h = tt
    IsCopy-Fills offering h = tt
    IsCopy-Fills (scanning i) (s, b) = (v, below-Fills _ _ i f b)
    IsCopy-Fills (hashing i r) (s, b, read) = (v, below-Fills _ _ i f b, read)
    IsCopy-Fills (acquiring i r hv rounds bix nb) (s, b, read, e, passed) =
        (v, below-Fills _ _ i f b, read, e, Passed-Grows f.grows passed)
    IsCopy-Fills (claiming i r hv rounds bix) (s, b, read, e, passed) =
        (v, below-Fills _ _ i f b, read, e, Passed-Grows f.grows passed)
    IsCopy-Fills (writing i r nb) (s, b, read, place) = (
      v,
      below-Fills _ _ i f b,
      read,
      λ live.
          let (l, e) = place live in
          let wide = f.grows.width in
          (
            omega (arith, l, wide, length-flats new.buckets, length-flats new'.buckets),
            f.grows.keeps nb (λ z. live_hv i live (sym e ∙ z)) ∙ e,
          ),
    )
    IsCopy-Fills (settling i) (s, b, l, w) =
        (v, below-Fills _ _ i f b, l, λ live. IsWritten-Fills _ _ _ (live_hv i live) f (w live))
    IsCopy-Fills recording (s, all) = (v, AllWritten-Fills _ _ f all)
    IsCopy-Fills publishing (s, all) = (v, AllWritten-Fills _ _ f all)
    IsCopy-Fills returning (s, all, p) = (v, AllWritten-Fills _ _ f all, opens p)

  pub IsAt-Fills :
      (n : ℕ) (m m' : Migration)
      → Fills (new_store m).buckets (new_store m').buckets
      → IsStore (new_store m')
      → (m.published ≡ true → m'.published ≡ true)
      → (place : Place) → IsAt start new_used (suc n) m place
      → IsAt start new_used n m' place
  IsAt-Fills n m m' f v opens (copies op u c) (nz, e, h) =
      (nz, e, IsCopy-Fills m.published m'.published (new_store m) (new_store m') f v opens c h)
  IsAt-Fills n m m' f v opens (works pc) (p, s, h) = (opens p, Stands-Grows n pc f.grows s, h)
