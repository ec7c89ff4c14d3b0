-- ===== src/OpenAddressDictionary.antt =====
-- src/dictionary/open_address_hash/open_address_hash_dictionary_handler.c: the cursors over the map
-- of `OpenAddressHash`. An allocation is taken to succeed, and a cursor keeps its own copy of the
-- predicate, as the code makes it.
pub mod Scan
pub mod Traverse
pub mod Tests
use iondb.Base.{
  ℕ, zero, suc, ◌+◌, ◌-◌, Bool, true, false, Option, none, some, List, [], ◌∷◌, get_elem?, ◌==◌,
  if◌then◌else◌,
}
use iondb.Base.Int.{ℤ, pos, negsuc}
use iondb.Base.Run.{Run, done, fault, ◌>>=◌}
use iondb.Dictionary.{
  Predicate, predicate_equality, predicate_range, predicate_all_records, predicate_predicate,
  test_predicate,
}
use iondb.OpenAddressHash.{
  HashMap, Bucket, empty, deleted, in_use, location, next_location, find_item_loc,
}
use iondb.System.{
  CursorStatus, cs_invalid_index, cs_invalid_cursor, cs_end_of_results, cs_cursor_initialized,
  cs_cursor_uninitialized, cs_cursor_active, cs_possible_data_inconsistency,
}

-- `ion_oadict_cursor_t`. `first` and `current` are undefined until `find` sets them; 0 stands there.
pub record Cursor {ℓ} (K : Type ℓ) : Type ℓ where
  pub status : CursorStatus
  pub predicate : Predicate K
  pub first : ℕ
  pub current : ℤ

-- `(current + 1) % map_size`; only -1 occurs below 0.
unfoldable pub location_after : ℤ → ℕ → Run ℕ
unfolding location
location_after (pos n) size = location (pos (n + 1)) size
location_after (negsuc zero) size = location (pos 0) size
location_after (negsuc (suc n)) size = fault

module _ {ℓ} {K V : Type ℓ} where
  -- The loop of `oadict_scan`, which ends once it has gone round to `first`: `some loc` for
  -- `cs_cursor_active` with `current = loc`, `none` for `cs_end_of_results`.
  unfoldable pub scan_from : HashMap K V → Predicate K → ℕ → ℕ → ℕ → Run (Option ℕ)
  scan_from m predicate first zero loc = if loc == first then done none else fault
  scan_from m predicate first (suc fuel) loc =
      let rest = scan_from m predicate first fuel (next_location loc m.map_size) in
      if loc == first then done none else elim (get_elem? m.entry loc) [
        | none ↦ fault
        | some item ↦ elim item.status [
          | empty ↦ rest
          | deleted ↦ rest
          | in_use ↦ if test_predicate m.compare predicate item.key then done (some loc) else rest
        ]
      ]

  unfoldable pub scan : HashMap K V → Cursor K → Run (Option ℕ)
  unfolding location_after scan_from next_location test_predicate
  scan m c = location_after c.current m.map_size >>= scan_from m c.predicate c.first m.map_size

  -- A cursor over a range or over all records, which starts before the first bucket.
  unfoldable pub find_all : HashMap K V → Predicate K → Run (Cursor K)
  unfolding scan
  find_all m predicate =
      let c : Cursor K = record {
        status = cs_cursor_initialized;
        predicate = predicate;
        first = m.map_size - 1;
        current = negsuc 0;
      } in
      scan m c >>= elim [
        | none ↦ done (record c { status = cs_cursor_uninitialized })
        | some loc ↦ done (record c { current = pos loc })
      ]

  unfoldable pub find_equal : HashMap K V → K → Run (Cursor K)
  unfolding find_item_loc
  find_equal m key = find_item_loc m key >>= elim [
    | none ↦ done (record {
      status = cs_end_of_results;
      predicate = predicate_equality key;
      first = 0;
      current = pos 0;
    })
    | some loc ↦ done (record {
      status = cs_cursor_initialized;
      predicate = predicate_equality key;
      first = loc;
      current = pos loc;
    })
  ]

  -- `oadict_find`
  unfoldable pub find : HashMap K V → Predicate K → Run (Cursor K)
  unfolding find_equal find_all
  find m (predicate_equality key) = find_equal m key
  find m (predicate_range lower upper) = find_all m (predicate_range lower upper)
  find m predicate_all_records = find_all m predicate_all_records
  find m predicate_predicate = done (record {
    status = cs_cursor_uninitialized;
    predicate = predicate_predicate;
    first = 0;
    current = pos 0;
  })

  -- The record at `current`, copied out.
  unfoldable pub read_record :
      HashMap K V → Cursor K → ℤ → Run (CursorStatus × Cursor K × Option (K × V))
  read_record m c (negsuc n) = fault
  read_record m c (pos loc) = elim (get_elem? m.entry loc) [
    | none ↦ fault
    | some item ↦ done (c.status, c, some (item.key, item.value))
  ]

  unfoldable pub next_active :
      HashMap K V → Cursor K → Option ℕ → Run (CursorStatus × Cursor K × Option (K × V))
  unfolding read_record
  next_active m c none = done (cs_end_of_results, record c { status = cs_end_of_results }, none)
  next_active m c (some loc) = read_record m (record c { current = pos loc }) (pos loc)

  -- `oadict_next`
  unfoldable pub next : HashMap K V → Cursor K → Run (CursorStatus × Cursor K × Option (K × V))
  unfolding scan next_active read_record
  next m c = elim c.status [
    | cs_cursor_uninitialized ↦ done (c.status, c, none)
    | cs_end_of_results ↦ done (c.status, c, none)
    | cs_cursor_active ↦ scan m c >>= next_active m c
    | cs_cursor_initialized ↦ read_record m (record c { status = cs_cursor_active }) c.current
    | cs_invalid_index ↦ done (cs_invalid_cursor, c, none)
    | cs_invalid_cursor ↦ done (cs_invalid_cursor, c, none)
    | cs_possible_data_inconsistency ↦ done (cs_invalid_cursor, c, none)
  ]

  -- A client that calls `next` until the cursor is no longer active, with the records that it is
  -- given. The condition is that of the loop of `dictionary_close`; what that does with each record,
  -- its errors included, is not part of it.
  unfoldable pub collect :
      (Cursor K → Run (List (K × V)))
      → CursorStatus × Cursor K × Option (K × V)
      → Run (List (K × V))
  collect more (cs_cursor_active, c, some r) = more c >>= λ rs. done (r ∷ rs)
  collect more (cs_cursor_initialized, c, some r) = more c >>= λ rs. done (r ∷ rs)
  collect more (_, c, _) = done []

  unfoldable pub drain : HashMap K V → ℕ → Cursor K → Run (List (K × V))
  unfolding next collect
  drain m zero c = fault
  drain m (suc fuel) c = next m c >>= collect (drain m fuel)
