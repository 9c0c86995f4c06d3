-- ===== src/Set/Cache.antt =====
-- src/hash/set.c: the hash value that is kept in an item is the one that would be computed.
use hatrack.Prelude.{
  ℕ, not, ◌^◌, ◌<◌, ◌≡◌, ◌≢◌, Bool, true, false, ◌==◌, if◌then◌else◌, Option, none, some, List,
}
use hatrack.Common.{Hash, Pointer}
use hatrack.Set.Keys.{
  ItemType, key_int, key_real, key_cstr, key_ptr, key_obj_int, key_obj_real, key_obj_cstr,
  key_obj_ptr, key_obj_custom, HashInfo, offsets, custom_hash, no_cache, Heap, offset_by, hash_cstr,
  hash_int, hash_double, hash_pointer, hash_object,
}

module _ (xxh3 : List ℕ → Hash) where
  -- The hash value of an item, where nothing is kept.
  abbrev pub computed : ItemType → HashInfo → Heap → Pointer → Option Hash
  computed key_int info heap key = some (hash_int xxh3 key)
  computed key_real info heap key = some (hash_double xxh3 (heap.double_at key))
  computed key_cstr info heap key = some (hash_cstr xxh3 heap key)
  computed key_ptr info heap key = some (hash_pointer xxh3 key)
  computed item_type (custom_hash f) heap key = elim item_type [
    | key_obj_custom ↦ some (f key)
    | _ ↦ none
  ]
  computed item_type (offsets hash_offset cache_offset) heap key =
      hash_object xxh3 item_type heap (if hash_offset == 0 then key else offset_by key hash_offset)

  -- Whether a set of such items keeps hash values in them.
  abbrev is_kept : ItemType → ℕ → Bool
  is_kept key_obj_int cache_offset = not (cache_offset == no_cache)
  is_kept key_obj_real cache_offset = not (cache_offset == no_cache)
  is_kept key_obj_cstr cache_offset = not (cache_offset == no_cache)
  is_kept key_obj_ptr cache_offset = not (cache_offset == no_cache)
  is_kept item_type cache_offset = false

  -- A hash value that is kept in an item is the item's.
  abbrev pub IsCached : ItemType → HashInfo → Heap → Type 0
  IsCached item_type (custom_hash f) heap = Unit
  IsCached item_type (offsets hash_offset cache_offset) heap =
      is_kept item_type cache_offset ≡ true
      → (key : Pointer) → key < 2 ^ 64
      → heap.cached_at (offset_by key cache_offset) ≢ 0
      → computed item_type (offsets hash_offset cache_offset) heap key
        ≡ some (heap.cached_at (offset_by key cache_offset))

  -- A place that is not the one where the item keeps its hash value.
  abbrev pub IsElsewhere : HashInfo → Pointer → Pointer → Type 0
  IsElsewhere (custom_hash f) key place = Unit
  IsElsewhere (offsets hash_offset cache_offset) key place = place ≢ offset_by key cache_offset

  -- The hash value `h` of an item is found, what is kept stays right, and nothing else is written.
  abbrev pub Finds : ItemType → HashInfo → Heap → Pointer → Hash → Option (Hash × Heap) → Type 0
  Finds item_type info heap key h found =
      (heap' : Heap) × (found ≡ some (h, heap'))
      × IsCached item_type info heap'
      × ((other : Pointer)
          → computed item_type info heap' other ≡ computed item_type info heap other)
      × ((place : Pointer)
          → IsElsewhere info key place
          → heap'.cached_at place ≡ heap.cached_at place)

  with_heap : Heap → Option Hash → Option (Hash × Heap)
  with_heap heap none = none
  with_heap heap (some h) = some (h, heap)
