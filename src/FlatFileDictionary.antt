-- ===== src/FlatFileDictionary.antt =====
-- src/dictionary/flat_file/flat_file_dictionary_handler.c: the cursors of a flat file. Allocation
-- succeeds. A call returns the file too, since a scan changes its buffer.
pub mod Steps
pub mod Traverse
pub mod Tests
use iondb.Base.{ℕ, zero, suc, ◌+◌, Bool, false, Option, none, some, List, [], ◌∷◌, ◌&&◌}
use iondb.Base.Int.{pos}
use iondb.Base.Run.{Run, done, fault, ◌>>=◌}
use iondb.Dictionary.{
  Predicate, predicate_equality, predicate_range, predicate_all_records, predicate_predicate, is_ge,
  is_le,
}
use iondb.FlatFile.{
  FlatFile, Row, is_occupied, Outcome, success, failure, ScanResult, found, hit_eof, failed,
  predicate_not_empty, predicate_key_match, scan_forwards_from, read_row,
}
use iondb.System.{
  ErrorCode, err_ok, CursorStatus, cs_cursor_uninitialized, cs_end_of_results,
  cs_cursor_initialized, cs_cursor_active, cs_invalid_index, cs_invalid_cursor,
  cs_possible_data_inconsistency,
}

-- `ion_flat_file_cursor_t`; `none` as long as the location is not set.
pub record Cursor {ℓ} (K : Type ℓ) : Type ℓ where
  pub status : CursorStatus
  pub predicate : Predicate K
  pub current_location : Option ℕ

module _ {ℓ} {K V : Type ℓ} where
  -- `flat_file_predicate_within_bounds`
  unfoldable pub predicate_within_bounds : FlatFile K V → K → K → Row K V → Bool
  predicate_within_bounds f lower_bound upper_bound row =
      is_occupied row
      && is_ge (f.compare row.key lower_bound)
      && is_le (f.compare row.key upper_bound)

  -- The test that a scan for a predicate makes of a row.
  unfoldable pub row_test : FlatFile K V → Predicate K → Row K V → Bool
  unfolding predicate_within_bounds predicate_key_match predicate_not_empty
  row_test f (predicate_equality key) row = predicate_key_match f key row
  row_test f (predicate_range lower upper) row = predicate_within_bounds f lower upper row
  row_test f predicate_all_records row = predicate_not_empty row
  row_test f predicate_predicate row = false

  -- The scan of `ffdict_find` for the first record, and what it makes of the cursor.
  unfoldable pub find_first : FlatFile K V → Predicate K → Run (FlatFile K V × ErrorCode × Cursor K)
  unfolding scan_forwards_from row_test
  find_first f predicate =
      let c : Cursor K = record {
        status = cs_cursor_uninitialized;
        predicate = predicate;
        current_location = none;
      } in
      scan_forwards_from f none (row_test f predicate) >>= λ s. elim (s.1) [
        | found loc row ↦
            done (
              s.0,
              err_ok,
              record c { status = cs_cursor_initialized; current_location = some loc },
            )
        | hit_eof ↦ done (s.0, err_ok, record c { status = cs_end_of_results })
        | failed e ↦ done (s.0, e, c)
      ]

  -- `ffdict_find`
  unfoldable pub find : FlatFile K V → Predicate K → Run (FlatFile K V × ErrorCode × Cursor K)
  unfolding find_first
  find f (predicate_equality key) = find_first f (predicate_equality key)
  find f (predicate_range lower upper) = find_first f (predicate_range lower upper)
  find f predicate_all_records = find_first f predicate_all_records
  find f predicate_predicate = done (
    f,
    err_ok,
    record {
      status = cs_cursor_uninitialized;
      predicate = predicate_predicate;
      current_location = none;
    },
  )

  -- The end of `ffdict_next`: the row at the location is copied out.
  unfoldable pub read_current :
      FlatFile K V → Cursor K → Run (CursorStatus × FlatFile K V × Cursor K × Option (K × V))
  unfolding read_row
  read_current f c = elim c.current_location [
    | none ↦ fault
    | some loc ↦ read_row f (pos loc) >>= λ r. elim (r.1) [
      | failure e ↦ done (cs_invalid_index, r.0, c, none)
      | success row ↦ done (c.status, r.0, c, some (row.key, row.value))
    ]
  ]

  -- `ffdict_next` on an active cursor; a scan for `predicate_predicate` is not made.
  unfoldable pub next_active :
      FlatFile K V → Cursor K → Run (CursorStatus × FlatFile K V × Cursor K × Option (K × V))
  unfolding scan_forwards_from row_test read_current
  next_active f c = elim c.current_location [
    | none ↦ fault
    | some loc ↦ scan_forwards_from f (some (loc + 1)) (row_test f c.predicate) >>= λ s.
        elim (s.1) [
          | found i row ↦ read_current (s.0) (record c { current_location = some i })
          | hit_eof ↦ done (
            cs_end_of_results,
            s.0,
            record c { status = cs_end_of_results; current_location = some f.eof_position },
            none,
          )
          | failed e ↦ done (
            cs_possible_data_inconsistency,
            s.0,
            record c { status = cs_possible_data_inconsistency },
            none,
          )
        ]
  ]

  unfoldable pub next :
      FlatFile K V → Cursor K → Run (CursorStatus × FlatFile K V × Cursor K × Option (K × V))
  unfolding next_active read_current
  next f c = elim c.status [
    | cs_cursor_uninitialized ↦ done (c.status, f, c, none)
    | cs_end_of_results ↦ done (c.status, f, c, none)
    | cs_cursor_active ↦ elim c.predicate [
      | predicate_equality key ↦ next_active f c
      | predicate_range lower upper ↦ next_active f c
      | predicate_all_records ↦ next_active f c
      | predicate_predicate ↦ done (
        cs_possible_data_inconsistency,
        f,
        record c { status = cs_possible_data_inconsistency },
        none,
      )
    ]
    | cs_cursor_initialized ↦ read_current f (record c { status = cs_cursor_active })
    | cs_invalid_index ↦ done (cs_invalid_cursor, f, c, none)
    | cs_invalid_cursor ↦ done (cs_invalid_cursor, f, c, none)
    | cs_possible_data_inconsistency ↦ done (cs_invalid_cursor, f, c, none)
  ]

  -- A client that calls `next` until the cursor is no longer active, with the records that it is
  -- given. The condition is that of the loop of `dictionary_close`; what that does with each record,
  -- its errors included, is not part of it.
  unfoldable pub gather :
      (FlatFile K V → Cursor K → Run (List (K × V)))
      → CursorStatus × FlatFile K V × Cursor K × Option (K × V)
      → Run (List (K × V))
  gather more (cs_cursor_active, f, c, some r) = more f c >>= λ rs. done (r ∷ rs)
  gather more (cs_cursor_initialized, f, c, some r) = more f c >>= λ rs. done (r ∷ rs)
  gather more (_, f, c, _) = done []

  unfoldable pub read_all : ℕ → FlatFile K V → Cursor K → Run (List (K × V))
  unfolding next gather
  read_all zero f c = fault
  read_all (suc fuel) f c = next f c >>= gather (read_all fuel)
