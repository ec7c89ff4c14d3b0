-- ===== src/OpenAddressFileDictionary.antt =====
-- src/dictionary/open_address_file_hash/open_address_file_hash_dictionary_handler.c: the cursors over
-- the file of `OpenAddressFileHash`. `ion_oafdict_cursor_t` has the fields of the cursor of the hash
-- in memory, and is that type here. An allocation is taken to succeed.
pub mod Traverse
pub mod Tests
use iondb.Base.{
  ℕ, zero, suc, ◌+◌, ◌-◌, Bool, true, false, Option, none, some, List, [], ◌∷◌, get_elem?, ◌==◌,
  leb, if◌then◌else◌,
}
use iondb.Base.Int.{ℤ, pos, negsuc}
use iondb.Base.Run.{Run, done, fault, ◌>>=◌}
use iondb.Dictionary.{
  Predicate, predicate_equality, predicate_range, predicate_all_records, predicate_predicate,
  test_predicate,
}
use iondb.OpenAddressDictionary.{Cursor, location_after, collect}
use iondb.OpenAddressFileHash.{FileHashMap, read_bucket, find_item_loc}
use iondb.OpenAddressHash.{Bucket, empty, deleted, in_use, next_location}
use iondb.System.{
  CursorStatus, cs_invalid_index, cs_invalid_cursor, cs_end_of_results, cs_cursor_initialized,
  cs_cursor_uninitialized, cs_cursor_active, cs_possible_data_inconsistency,
}

module _ {ℓ} {K V : Type ℓ} where
  -- The loop of `oafdict_scan`, at the location `loc` and the position `at` of the file: where the
  -- location wraps to 0 the file is not rewound. `some loc` stands for `cs_cursor_active` with
  -- `current = loc`, `none` for `cs_end_of_results`.
  unfoldable pub scan_from :
      FileHashMap K V → Predicate K → ℕ → ℕ → ℕ → ℕ → Option (Bucket K V) → Run (Option ℕ)
  scan_from f predicate first zero loc at memory = if loc == first then done none else fault
  scan_from f predicate first (suc fuel) loc at memory =
      let (after, item) = read_bucket f at memory in
      let rest = scan_from f predicate first fuel (next_location loc f.map_size) after item in
      if loc == first then done none else elim item [
        | none ↦ fault
        | some b ↦ elim b.status [
          | empty ↦ rest
          | deleted ↦ rest
          | in_use ↦ if test_predicate f.compare predicate b.key then done (some loc) else rest
        ]
      ]

  unfoldable pub scan : FileHashMap K V → Cursor K → Run (Option ℕ)
  unfolding location_after scan_from next_location test_predicate read_bucket
  scan f c = location_after c.current f.map_size >>= λ loc.
      scan_from f c.predicate c.first f.map_size loc loc none

  -- A cursor over a range or over all records, which starts before the first bucket.
  unfoldable pub find_all : FileHashMap K V → Predicate K → Run (Cursor K)
  unfolding scan
  find_all f predicate =
      let c : Cursor K = record {
        status = cs_cursor_initialized;
        predicate = predicate;
        first = f.map_size - 1;
        current = negsuc 0;
      } in
      scan f c >>= elim [
        | none ↦ done (record c { status = cs_end_of_results })
        | some loc ↦ done (record c { current = pos loc })
      ]

  unfoldable pub find_equal : FileHashMap K V → K → Run (Cursor K)
  unfolding find_item_loc
  find_equal f key = find_item_loc f key >>= elim [
    | none ↦ done (record {
      status = cs_end_of_results;
      predicate = predicate_equality key;
      first = 0;
      current = pos 0;
    })
    | some loc ↦ done (record {
      status = cs_cursor_initialized;
      predicate = predicate_equality key;
      first = loc;
      current = pos loc;
    })
  ]

  -- `oafdict_find`
  unfoldable pub find : FileHashMap K V → Predicate K → Run (Cursor K)
  unfolding find_equal find_all
  find f (predicate_equality key) = find_equal f key
  find f (predicate_range lower upper) = find_all f (predicate_range lower upper)
  find f predicate_all_records = find_all f predicate_all_records
  find f predicate_predicate = done (record {
    status = cs_cursor_uninitialized;
    predicate = predicate_predicate;
    first = 0;
    current = pos 0;
  })

  -- The key and the value at `current`, read into the record of the caller; `none` leaves it as it
  -- is.
  unfoldable pub read_record :
      FileHashMap K V → Cursor K → ℤ → Run (CursorStatus × Cursor K × Option (K × V))
  read_record f c (negsuc n) = fault
  read_record f c (pos loc) =
      done
        (c.status, c, elim (get_elem? f.file loc) [ none ↦ none | some b ↦ some (b.key, b.value) ])

  unfoldable pub next_active :
      FileHashMap K V → Cursor K → Option ℕ → Run (CursorStatus × Cursor K × Option (K × V))
  unfolding read_record
  next_active f c none = done (cs_end_of_results, record c { status = cs_end_of_results }, none)
  next_active f c (some loc) = read_record f (record c { current = pos loc }) (pos loc)

  -- `oafdict_next`
  unfoldable pub next : FileHashMap K V → Cursor K → Run (CursorStatus × Cursor K × Option (K × V))
  unfolding scan next_active read_record
  next f c = elim c.status [
    | cs_cursor_uninitialized ↦ done (c.status, c, none)
    | cs_end_of_results ↦ done (c.status, c, none)
    | cs_cursor_active ↦ scan f c >>= next_active f c
    | cs_cursor_initialized ↦ read_record f (record c { status = cs_cursor_active }) c.current
    | cs_invalid_index ↦ done (cs_invalid_cursor, c, none)
    | cs_invalid_cursor ↦ done (cs_invalid_cursor, c, none)
    | cs_possible_data_inconsistency ↦ done (cs_invalid_cursor, c, none)
  ]

  -- A client that calls `next` until the cursor is no longer active, with the records that it is
  -- given. The condition is that of the loop of `dictionary_close`; what that does with each record,
  -- its errors included, is not part of it.
  unfoldable pub drain : FileHashMap K V → ℕ → Cursor K → Run (List (K × V))
  unfolding next collect
  drain f zero c = fault
  drain f (suc fuel) c = next f c >>= collect (drain f fuel)
