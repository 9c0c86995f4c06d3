-- ===== src/Hihat/Copying/Begins.antt =====
-- hihat.c: the stores as threads begin to copy, with the old store marked and no new one yet.
use hatrack.Prelude.{ℕ, ◌+◌, ◌^◌, ◌<◌, ◌≡◌, ◌≢◌, refl, arith, false, none, length, inl}
use hatrack.FiniteMap.{Op, hash_of}
use hatrack.Refhat.Contents.{contents}
use hatrack.Hihat.{same_record, Store}
use hatrack.Hihat.Copying.{choosing, copies}
use hatrack.Hihat.Copying.Phase.{IsStart}
use hatrack.Hihat.Copying.World.{World}
use hatrack.Hihat.Copying.Runs.{IsCopying}

-- Every thread has marked the old store and migrates for a call.
abbrev pub copying : Store → (new_used item_count next_epoch : ℕ) → (ℕ → Op) → World
copying old new_used item_count next_epoch ops = record {
  migration = record {
    old = old;
    store_next = none;
    published = false;
    item_count = item_count;
    next_epoch = next_epoch;
  };
  places = λ i. copies (ops i) new_used choosing;
}

module _ (old : Store) (new_used item_count next_epoch : ℕ) (ops : ℕ → Op)
    (from : IsStart old.buckets new_used) (wide : length old.buckets ≡ old.last_slot + 1)
    (nz : (i : ℕ) → hash_of (ops i) ≢ 0) (started : 0 < next_epoch) where
  pub copying-IsCopying :
      (n : ℕ)
      → next_epoch + n < 2 ^ 61
      → IsCopying old.buckets new_used from n (copying old new_used item_count next_epoch ops)
  unfolding same_record contents
  copying-IsCopying n clock = record {
    phase = record {
      width = wide;
      same = record {
        width = refl;
        hv = λ j. refl;
        item = λ j. refl;
        epoch = λ j. refl;
        moved = λ j e. e;
      };
      settled = λ j l live moved. ground (arith, from.unmoved j live, moved);
      started = started;
      clock = clock;
      chosen = inl refl;
      part = λ p. (
        record { lively = λ k e. ground (arith, e); among = λ g v e. ground (arith, e) },
        λ k e. absurd (e refl),
      );
      open_to = λ p. ground (arith, p);
    };
    stand = λ i. (nz i, refl, tt);
  }
