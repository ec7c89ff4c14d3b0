-- ===== src/OpenAddressFileHash.antt =====
-- src/dictionary/open_address_file_hash/open_address_file_hash.c: the buckets of an open address hash
-- in a file. The file is the list of its buckets, and a position in it counts buckets. A read at the
-- end of the file leaves the memory of `item` as it was; `none` is memory that `malloc` left. Writes
-- succeed. `fault` is a test of memory that was never set, a remainder by zero, or a write behind the
-- end of the file that leaves a hole.
pub mod Loops
pub mod Refines
pub mod Client
pub mod Start
pub mod Tests
use iondb.Base.{
  ℕ, zero, suc, ◌+◌, ◌-◌, Bool, true, false, Option, none, some, List, [], ◌∷◌, ◌++◌, length,
  get_elem?, set, replicate, leb, ltb, ◌==◌, if◌then◌else◌,
}
use iondb.Base.Int.{ℤ}
use iondb.Base.Run.{Run, done, fault, ◌>>=◌}
use iondb.OpenAddressHash.{Bucket, empty, deleted, in_use, location}
use iondb.System.{
  ErrorCode, err_ok, err_item_not_found, err_duplicate_key, err_max_capacity, err_file_write_error,
  err_file_close_error, err_dictionary_destruction_error, err_uninitialized, max_filename_length,
  Status, status_ok, status_error, Comparison, is_equal, WriteConcern, wc_update, wc_insert_unique,
  wc_duplicate,
}

-- `struct file_hashmap`, with `super.id`. Where the file is closed, `is_open` is false: `file` is null.
pub record FileHashMap {ℓ} (K V : Type ℓ) : Type ℓ where
  pub compare : K → K → Comparison
  pub map_size : ℕ
  pub write_concern : WriteConcern
  pub compute_hash : ℕ → K → ℤ
  pub id : ℕ
  pub is_open : Bool
  pub file : List (Bucket K V)

-- `loc++`, with the wrapping at the end of the map; there the file is rewound.
unfoldable pub advance : ℕ → ℕ → ℕ → ℕ × ℕ
advance loc at size = if leb size (loc + 1) then (0, 0) else (loc + 1, at)

module _ {ℓ} {K V : Type ℓ} where
  -- `fread` of a bucket at `at`: the position after it, and the memory of `item`.
  unfoldable pub read_bucket : FileHashMap K V → ℕ → Option (Bucket K V) → ℕ × Option (Bucket K V)
  read_bucket f at item = elim (get_elem? f.file at) [
    | none ↦ (at, item)
    | some b ↦ (at + 1, some b)
  ]

  -- `fwrite` of a bucket at `at`, inside the file or at its end
  unfoldable pub write_bucket : FileHashMap K V → ℕ → Bucket K V → Run (FileHashMap K V)
  write_bucket f at b =
      if ltb at (length f.file)
      then done (record f { file = set f.file at b })
      else if at == length f.file
      then done (record f { file = f.file ++ b ∷ [] })
      else fault

  -- What the code passes to `dictionary_get_filename`: `filename_length` is what `snprintf` returns for
  -- the name of the file of a dictionary, by its id. A longer name than fits is refused. The file is
  -- as `initialize` finds it under that name: the buckets of one that is there, whatever their
  -- number, or `none`. `hashmap` is the structure before, and `blank` a bucket of zeros.
  unfoldable pub initialize :
      (ℕ → ℕ)
      → FileHashMap K V
      → (ℕ → K → ℤ)
      → ℕ
      → ℕ
      → Bucket K V
      → Option (List (Bucket K V))
      → ErrorCode × FileHashMap K V
  initialize filename_length hashmap hashing_function size id blank found =
      let named : FileHashMap K V = record hashmap {
        write_concern = wc_insert_unique;
        map_size = size;
        compute_hash = hashing_function;
      } in
      if leb max_filename_length (filename_length id) then (err_uninitialized, named) else (
        err_ok,
        record named {
          is_open = true;
          file = elim found [
            | some buckets ↦ buckets
            | none ↦ replicate size (record blank { status = empty })
          ];
        },
      )

  unfoldable pub close : FileHashMap K V → ErrorCode
  close f = if f.is_open then err_ok else err_file_close_error

  -- `compute_hash`, which becomes null in the code, stays here: with a size of 0 every call that uses
  -- it is a `fault`.
  unfoldable pub destroy : (ℕ → ℕ) → FileHashMap K V → ErrorCode × FileHashMap K V
  destroy filename_length f =
      let g : FileHashMap K V = record f { map_size = 0 } in
      if leb max_filename_length (filename_length f.id)
      then (err_dictionary_destruction_error, g)
      else if f.is_open
      then (err_ok, record g { is_open = false; file = [] })
      else (err_dictionary_destruction_error, g)

  -- The key is in the bucket before the position: what `insert` does by the write concern.
  unfoldable pub write_existing :
      FileHashMap K V → ℕ → Bucket K V → V → WriteConcern → Run (Status × FileHashMap K V)
  unfolding write_bucket
  write_existing f at item value wc_insert_unique = done (status_error err_duplicate_key, f)
  write_existing f at item value wc_update =
      write_bucket f at (record item { value = value }) >>= λ g. done (status_ok 1, g)
  write_existing f at item value wc_duplicate = done (status_error err_file_write_error, f)

  unfoldable pub write_free : FileHashMap K V → ℕ → K → V → Run (Status × FileHashMap K V)
  unfolding write_bucket
  write_free f at key value =
      write_bucket f at (record { status = in_use; key = key; value = value }) >>= λ g.
      done (status_ok 1, g)

  -- The loop of `insert`, by the rounds that are left of `map_size`, at the location `loc` and the
  -- position `at` of the file. A write goes to the bucket that was read last.
  unfoldable pub insert_from :
      FileHashMap K V → K → V → ℕ → ℕ → ℕ → Option (Bucket K V) → Run (Status × FileHashMap K V)
  insert_from f key value zero loc at memory = done (status_error err_max_capacity, f)
  insert_from f key value (suc rounds) loc at memory =
      let (after, item) = read_bucket f at memory in
      let (loc', at') = advance loc after f.map_size in
      let rest = insert_from f key value rounds loc' at' item in
      elim item [
        | none ↦ fault
        | some b ↦ elim b.status [
          | in_use ↦
              if is_equal (f.compare b.key key)
              then write_existing f (after - 1) b value f.write_concern
              else rest
          | deleted ↦ write_free f (after - 1) key value
          | empty ↦ write_free f (after - 1) key value
        ]
      ]

  unfoldable pub insert : FileHashMap K V → K → V → Run (Status × FileHashMap K V)
  unfolding insert_from read_bucket advance write_existing write_free location
  insert f key value = location (f.compute_hash f.map_size key) f.map_size >>= λ loc.
      insert_from f key value f.map_size loc loc none

  unfoldable pub update : FileHashMap K V → K → V → Run (Status × FileHashMap K V)
  unfolding insert
  update f key value = insert (record f { write_concern = wc_update }) key value >>= λ r.
      done (r.0, record (r.1) { write_concern = f.write_concern })

  -- The loop of `find_item_loc`; `none` stands for `err_item_not_found`, and `some loc` for `err_ok`
  -- with `*location = loc`.
  unfoldable pub find_from : FileHashMap K V → K → ℕ → ℕ → ℕ → Option (Bucket K V) → Run (Option ℕ)
  find_from f key zero loc at memory = done none
  find_from f key (suc rounds) loc at memory =
      let (after, item) = read_bucket f at memory in
      let (loc', at') = advance loc after f.map_size in
      let rest = find_from f key rounds loc' at' item in
      elim item [
        | none ↦ fault
        | some b ↦ elim b.status [
          | empty ↦ done none
          | deleted ↦ rest
          | in_use ↦ if is_equal (f.compare b.key key) then done (some loc) else rest
        ]
      ]

  unfoldable pub find_item_loc : FileHashMap K V → K → Run (Option ℕ)
  unfolding find_from read_bucket advance location
  find_item_loc f key = location (f.compute_hash f.map_size key) f.map_size >>= λ loc.
      find_from f key f.map_size loc loc none

  unfoldable pub mark_deleted : FileHashMap K V → Option ℕ → Run (Status × FileHashMap K V)
  unfolding read_bucket write_bucket
  mark_deleted f none = done (status_error err_item_not_found, f)
  mark_deleted f (some loc) =
      let (after, item) = read_bucket f loc none in
      elim item [
        | none ↦ fault
        | some b ↦ write_bucket f (after - 1) (record b { status = deleted }) >>= λ g.
            done (status_ok 1, g)
      ]

  unfoldable pub delete : FileHashMap K V → K → Run (Status × FileHashMap K V)
  unfolding find_item_loc mark_deleted
  delete f key = find_item_loc f key >>= mark_deleted f

  -- The value that `get` reads into the memory of its caller; `none` leaves it as it is.
  unfoldable pub read_value : FileHashMap K V → Option ℕ → Status × Option V
  read_value f none = (status_error err_item_not_found, none)
  read_value f (some loc) =
      (status_ok 1, elim (get_elem? f.file loc) [ none ↦ none | some b ↦ some b.value ])

  unfoldable pub get : FileHashMap K V → K → Run (Status × Option V)
  unfolding find_item_loc read_value
  get f key = find_item_loc f key >>= λ found. done (read_value f found)
