-- ===== src/Set/CacheTests.antt =====
-- Items that keep their hash values, with a function for `XXH3_128bits`.
use hatrack.Prelude.{ℕ, ◌+◌, ◌*◌, ◌==◌, if◌then◌else◌, List, [], ◌∷◌}
use hatrack.Common.{Hash}
use hatrack.Set.Keys.{offsets, HashInfo, Heap, bytes}

-- One set of objects that keep their hash values, the first of which has it already.
abbrev xxh3 : List ℕ → Hash
xxh3 [] = 1
xxh3 (b ∷ bs) = b + 256 * xxh3 bs

abbrev hash : ℕ → Hash
hash key = xxh3 (bytes 8 key)

abbrev info : HashInfo
info = offsets 0 16

abbrev heap : Heap
heap = record {
  double_at = λ p. p;
  cstr_at = λ p. [];
  cached_at = λ p. if p == 24 then hash 8 else 0;
}
