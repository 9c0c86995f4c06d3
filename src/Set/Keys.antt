-- ===== src/Set/Keys.antt =====
-- src/hash/set.c: how a set finds the hash value of an item, and the operations on one set. The hash
-- function of src/hash/xxhash.c is a parameter, and so is the table.
use hatrack.Prelude.{
  ℕ, zero, suc, ◌+◌, ◌-◌, ◌/◌, ◌%◌, ◌^◌, ltb, ◌==◌, if◌then◌else◌, Option, none, some, List, [],
  ◌∷◌, add64,
}
use hatrack.Common.{Hash, Pointer, bucket_unreserved}

-- `HATRACK_DICT_KEY_TYPE_INT` and so on.
pub data ItemType : Type 0 where
  key_int key_real key_cstr key_ptr key_obj_int key_obj_real key_obj_cstr key_obj_ptr
        key_obj_custom :
      ItemType

-- The `switch` of `hatrack_set_init`, which aborts at any other number.
unfoldable pub item_type_of : ℕ → Option ItemType
item_type_of n =
    if n == 0
    then some key_int
    else (if n == 1
        then some key_real
        else (if n == 2
            then some key_cstr
            else (if n == 3
                then some key_ptr
                else (if n == 4
                    then some key_obj_int
                    else (if n == 5
                        then some key_obj_real
                        else (if n == 6
                            then some key_obj_cstr
                            else (if n == 7
                                then some key_obj_ptr
                                else (if n == 8 then some key_obj_custom else none))))))))

-- `hatrack_hash_info_t`, a union: which of its two members was written last. An offset is the bit pattern
-- of an `int32_t`.
pub data HashInfo : Type 0 where
  offsets : (hash_offset cache_offset : ℕ) → HashInfo
  custom_hash : (Pointer → Hash) → HashInfo

-- `HATRACK_DICT_NO_CACHE`
abbrev pub no_cache : ℕ
no_cache = 0xffffffff

-- What the items hold: the `double` at an address, the string up to its end, and the hash value that is
-- kept at an address. The hash values that are kept overlap nothing else.
pub record Heap : Type 0 where
  pub double_at : Pointer → ℕ
  pub cstr_at : Pointer → List ℕ
  pub cached_at : Pointer → Hash

-- An `int32_t` that is added to a pointer.
abbrev pub sign_extend : ℕ → ℕ
sign_extend n = if ltb n (2 ^ 31) then n else n + (2 ^ 64 - 2 ^ 32)

abbrev pub offset_by : Pointer → ℕ → Pointer
offset_by key offset = add64 key (sign_extend offset)

-- The bytes of a word, as `&key` points to them.
abbrev pub bytes : ℕ → ℕ → List ℕ
bytes zero n = []
bytes (suc k) n = n % 256 ∷ bytes k (n / 256)

abbrev pub put_cached : Heap → Pointer → Hash → Heap
put_cached heap at_key hv = record heap {
  cached_at = λ p. if p == at_key then hv else heap.cached_at p;
}

-- `XXH3_128bits`
module _ (xxh3 : List ℕ → Hash) where
  abbrev pub hash_cstr : Heap → Pointer → Hash
  hash_cstr heap key = xxh3 (heap.cstr_at key)

  abbrev pub hash_int : ℕ → Hash
  hash_int key = xxh3 (bytes 8 key)

  abbrev pub hash_double : ℕ → Hash
  hash_double key = xxh3 (bytes 8 key)

  abbrev pub hash_pointer : Pointer → Hash
  hash_pointer key = xxh3 (bytes 8 key)

  -- The second `switch` of `hatrack_set_get_hash_value`.
  unfoldable pub hash_object : ItemType → Heap → Pointer → Option Hash
  hash_object key_obj_int heap loc_to_hash = some (hash_int loc_to_hash)
  hash_object key_obj_real heap loc_to_hash = some (hash_double (heap.double_at loc_to_hash))
  hash_object key_obj_cstr heap loc_to_hash = some (hash_cstr heap loc_to_hash)
  hash_object key_obj_ptr heap loc_to_hash = some (hash_pointer loc_to_hash)
  hash_object item_type heap loc_to_hash = none

  -- The end: the hash value is kept in the item, if it is to be.
  abbrev pub kept_in : ℕ → Heap → Pointer → Option Hash → Option (Hash × Heap)
  kept_in cache_offset heap key none = none
  kept_in cache_offset heap key (some hv) = some (
    hv,
    (if cache_offset == no_cache then heap else put_cached heap (offset_by key cache_offset) hv),
  )

  -- What follows the first `switch`.
  unfoldable pub object_hash_value : ItemType → ℕ → ℕ → Heap → Pointer → Option (Hash × Heap)
  unfolding hash_object
  object_hash_value item_type hash_offset cache_offset heap key =
      let cached = heap.cached_at (offset_by key cache_offset) in
      let loc_to_hash = if hash_offset == 0 then key else offset_by key hash_offset in
      let fresh = kept_in cache_offset heap key (hash_object item_type heap loc_to_hash) in
      if cache_offset == no_cache
      then fresh
      else (if bucket_unreserved cached then fresh else some (cached, heap))

  -- `none` is `abort()`, and a read of the member of the union that was not written.
  abbrev pub by_offsets : ItemType → HashInfo → Heap → Pointer → Option (Hash × Heap)
  by_offsets item_type (offsets hash_offset cache_offset) heap key =
      object_hash_value item_type hash_offset cache_offset heap key
  by_offsets item_type (custom_hash f) heap key = none

  abbrev pub by_custom : HashInfo → Heap → Pointer → Option (Hash × Heap)
  by_custom (offsets hash_offset cache_offset) heap key = none
  by_custom (custom_hash f) heap key = some (f key, heap)

  unfoldable pub get_hash_value : ItemType → HashInfo → Heap → Pointer → Option (Hash × Heap)
  unfolding object_hash_value
  get_hash_value key_int info heap key = some (hash_int key, heap)
  get_hash_value key_real info heap key = some (hash_double (heap.double_at key), heap)
  get_hash_value key_cstr info heap key = some (hash_cstr heap key, heap)
  get_hash_value key_ptr info heap key = some (hash_pointer key, heap)
  get_hash_value key_obj_custom info heap key = by_custom info heap key
  get_hash_value key_obj_int info heap key = by_offsets key_obj_int info heap key
  get_hash_value key_obj_real info heap key = by_offsets key_obj_real info heap key
  get_hash_value key_obj_cstr info heap key = by_offsets key_obj_cstr info heap key
  get_hash_value key_obj_ptr info heap key = by_offsets key_obj_ptr info heap key
