-- ===== src/OpenAddressHash.antt =====
-- src/dictionary/open_address_hash/open_address_hash.c: an array of buckets with linear probing.
-- A bucket that holds no record keeps the bytes that it had; `memcpy` of a key or a value is its
-- assignment. `fault` is an access outside the array, or a remainder by zero.
pub mod Probe
pub mod Find
pub mod Valid
pub mod Get
pub mod Delete
pub mod Unique
pub mod Duplicates
pub mod Effects
pub mod Capacity
pub mod Update
pub mod Start
pub mod SimpleHash
pub mod Tests
pub mod Insert
use iondb.Base.{
  ℕ, zero, suc, ◌+◌, ◌%◌, Option, none, some, List, [], ◌∷◌, get_elem?, set, leb, if◌then◌else◌,
  map, Bool, true, false,
}
use iondb.Base.Int.{ℤ, pos, negsuc}
use iondb.Base.Run.{Run, done, fault, ◌>>=◌}
use iondb.System.{
  ErrorCode, err_ok, err_item_not_found, err_duplicate_key, err_max_capacity, err_file_write_error,
  err_dictionary_destruction_error, Status, status_ok, status_error, Comparison, is_equal,
  WriteConcern, wc_update, wc_insert_unique, wc_duplicate,
}

-- `ION_EMPTY`, `ION_DELETED` and `ION_IN_USE`
pub data BucketStatus : Type 0 where
  empty deleted in_use : BucketStatus

pub record Bucket {ℓ} (K V : Type ℓ) : Type ℓ where
  pub status : BucketStatus
  pub key : K
  pub value : V

-- `struct hashmap`. `compute_hash` reads the size of the map. `is_allocated` says that `entry` is not
-- null; a null `entry` has no buckets.
pub record HashMap {ℓ} (K V : Type ℓ) : Type ℓ where
  pub compare : K → K → Comparison
  pub map_size : ℕ
  pub write_concern : WriteConcern
  pub compute_hash : ℕ → K → ℤ
  pub is_allocated : Bool
  pub entry : List (Bucket K V)

-- The number below 0 by `n`.
abbrev pub negative : ℕ → ℤ
negative zero = pos 0
negative (suc n) = negsuc n

-- `num % size`, which has the sign of `num`
unfoldable pub get_location : ℤ → ℕ → Run ℤ
get_location num zero = fault
get_location (pos n) (suc s) = done (pos (n % suc s))
get_location (negsuc n) (suc s) = done (negative (suc n % suc s))

-- A location, where the code goes to its bucket: one below 0 is outside.
unfoldable pub bucket_index : ℤ → Run ℕ
bucket_index (pos n) = done n
bucket_index (negsuc n) = fault

unfoldable pub location : ℤ → ℕ → Run ℕ
unfolding get_location bucket_index
location num size = get_location num size >>= bucket_index

-- `loc++`, with the wrapping at the end of the array
unfoldable pub next_location : ℕ → ℕ → ℕ
next_location loc size = if leb size (loc + 1) then 0 else loc + 1

module _ {ℓ} {K V : Type ℓ} where
  -- `item->status = ION_EMPTY` for each bucket
  unfoldable pub clear_bucket : Bucket K V → Bucket K V
  clear_bucket b = record b { status = empty }

  -- `memory` is what `malloc` returned: the buckets with arbitrary contents, or null. The code
  -- returns 1 for the latter, which is `err_item_not_found`.
  unfoldable pub initialize :
      (ℕ → K → ℤ) → (K → K → Comparison) → ℕ → Option (List (Bucket K V)) → ErrorCode × HashMap K V
  unfolding clear_bucket
  initialize hashing_function compare size none = (
    err_item_not_found,
    record {
      compare = compare;
      map_size = size;
      write_concern = wc_insert_unique;
      compute_hash = hashing_function;
      is_allocated = false;
      entry = [];
    },
  )
  initialize hashing_function compare size (some memory) = (
    err_ok,
    record {
      compare = compare;
      map_size = size;
      write_concern = wc_insert_unique;
      compute_hash = hashing_function;
      is_allocated = true;
      entry = map clear_bucket memory;
    },
  )

  -- `compute_hash`, which becomes null in the code, stays here: with a size of 0 every call that uses
  -- it is a `fault`.
  unfoldable pub destroy : HashMap K V → ErrorCode × HashMap K V
  destroy m =
      if m.is_allocated
      then (err_ok, record m { map_size = 0; is_allocated = false; entry = [] })
      else (err_dictionary_destruction_error, record m { map_size = 0 })

  -- The key is there: what `insert` does by the write concern.
  unfoldable pub write_existing :
      HashMap K V → ℕ → Bucket K V → V → WriteConcern → Status × HashMap K V
  write_existing m loc item value wc_insert_unique = (status_error err_duplicate_key, m)
  write_existing m loc item value wc_update =
      (status_ok 1, record m { entry = set m.entry loc (record item { value = value }) })
  write_existing m loc item value wc_duplicate = (status_error err_file_write_error, m)

  unfoldable pub write_free : HashMap K V → ℕ → K → V → Status × HashMap K V
  write_free m loc key value = (
    status_ok 1,
    record m { entry = set m.entry loc (record { status = in_use; key = key; value = value }) },
  )

  -- The loop of `insert`, by the rounds that are left of `map_size`.
  unfoldable pub insert_from : HashMap K V → K → V → ℕ → ℕ → Run (Status × HashMap K V)
  insert_from m key value zero loc = done (status_error err_max_capacity, m)
  insert_from m key value (suc rounds) loc =
      let rest = insert_from m key value rounds (next_location loc m.map_size) in
      elim (get_elem? m.entry loc) [
        | none ↦ fault
        | some item ↦ elim item.status [
          | in_use ↦
              if is_equal (m.compare item.key key)
              then done (write_existing m loc item value m.write_concern)
              else rest
          | deleted ↦ done (write_free m loc key value)
          | empty ↦ done (write_free m loc key value)
        ]
      ]

  unfoldable pub insert : HashMap K V → K → V → Run (Status × HashMap K V)
  unfolding location insert_from next_location write_existing write_free
  insert m key value =
      location (m.compute_hash m.map_size key) m.map_size >>= insert_from m key value m.map_size

  unfoldable pub update : HashMap K V → K → V → Run (Status × HashMap K V)
  unfolding insert
  update m key value = insert (record m { write_concern = wc_update }) key value >>= λ r.
      done (r.0, record (r.1) { write_concern = m.write_concern })

  -- The loop of `find_item_loc`; `none` stands for `err_item_not_found`, and `some loc` for `err_ok`
  -- with `*location = loc`.
  unfoldable pub find_from : HashMap K V → K → ℕ → ℕ → Run (Option ℕ)
  find_from m key zero loc = done none
  find_from m key (suc rounds) loc =
      let rest = find_from m key rounds (next_location loc m.map_size) in
      elim (get_elem? m.entry loc) [
        | none ↦ fault
        | some item ↦ elim item.status [
          | empty ↦ done none
          | deleted ↦ rest
          | in_use ↦ if is_equal (m.compare item.key key) then done (some loc) else rest
        ]
      ]

  unfoldable pub find_item_loc : HashMap K V → K → Run (Option ℕ)
  unfolding location find_from next_location
  find_item_loc m key =
      location (m.compute_hash m.map_size key) m.map_size >>= find_from m key m.map_size

  unfoldable pub mark_deleted : HashMap K V → Option ℕ → Run (Status × HashMap K V)
  mark_deleted m none = done (status_error err_item_not_found, m)
  mark_deleted m (some loc) = elim (get_elem? m.entry loc) [
    | none ↦ fault
    | some item ↦
        done (status_ok 1, record m { entry = set m.entry loc (record item { status = deleted }) })
  ]

  unfoldable pub delete : HashMap K V → K → Run (Status × HashMap K V)
  unfolding find_item_loc mark_deleted
  delete m key = find_item_loc m key >>= mark_deleted m

  -- The value that `get` copies out, if any.
  unfoldable pub read_value : HashMap K V → Option ℕ → Run (Status × Option V)
  read_value m none = done (status_error err_item_not_found, none)
  read_value m (some loc) = elim (get_elem? m.entry loc) [
    | none ↦ fault
    | some item ↦ done (status_ok 1, some item.value)
  ]

  unfoldable pub get : HashMap K V → K → Run (Status × Option V)
  unfolding find_item_loc read_value
  get m key = find_item_loc m key >>= read_value m
