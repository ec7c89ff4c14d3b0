-- ===== src/FlatFile/Operations.antt =====
-- `flat_file_insert`, `flat_file_get`, `flat_file_delete` and `flat_file_update` of
-- src/dictionary/flat_file/flat_file.c.
use iondb.Base.{ℕ, zero, suc, ◌+◌, ◌-◌, Option, none, some, ◌==◌, if◌then◌else◌}
use iondb.Base.Int.{pos}
use iondb.Base.Run.{Run, done, fault, ◌>>=◌}
use iondb.FlatFile.Search.{binary_search}
use iondb.FlatFile.{
  FlatFile, Row, occupied, vacant, Outcome, success, failure, ScanResult, found, hit_eof, failed,
  read_row, write_row, write_status, scan_forwards_from, predicate_key_match,
}
use iondb.System.{
  err_item_not_found, err_sorted_order_violation, Status, status_ok, status_error, a_lt_b, a_equ_b,
  a_gt_b, is_equal,
}

module _ {ℓ} {K V : Type ℓ} where
  abbrev pub new_row : K → V → Row K V
  new_row key value = record { row_status = occupied; key = key; value = value }

  -- The write at the end of the data; `ftell` gives the row after it as the new end.
  unfoldable pub append_row : FlatFile K V → K → V → Run (Status × FlatFile K V)
  unfolding write_row
  append_row f key value = write_row f f.eof_position (new_row key value) >>= λ g.
      done (status_ok 1, record g { eof_position = f.eof_position + 1 })

  -- `flat_file_insert`: in sorted mode the last row must not be greater.
  unfoldable pub insert : FlatFile K V → K → V → Run (Status × FlatFile K V)
  unfolding append_row read_row
  insert f key value =
      if f.sorted_mode
      then if f.eof_position == 0
        then append_row f key value
        else (read_row f (pos (f.eof_position - 1)) >>= λ r. elim (r.1) [
          | failure e ↦ done (status_error e, r.0)
          | success row ↦ elim (f.compare key row.key) [
            | a_lt_b ↦ done (status_error err_sorted_order_violation, r.0)
            | a_equ_b ↦ append_row (r.0) key value
            | a_gt_b ↦ append_row (r.0) key value
          ]
        ])
      else append_row f key value

  -- `flat_file_get` on a file that is not sorted.
  unfoldable pub get_unsorted : FlatFile K V → K → Run (Status × FlatFile K V × Option V)
  unfolding scan_forwards_from predicate_key_match
  get_unsorted f key = scan_forwards_from f none (predicate_key_match f key) >>= λ r. elim (r.1) [
    | found i row ↦ done (status_ok 1, r.0, some row.value)
    | hit_eof ↦ done (status_error err_item_not_found, r.0, none)
    | failed e ↦ done (status_error e, r.0, none)
  ]

  -- `flat_file_get` on a sorted file.
  unfoldable pub get_sorted : FlatFile K V → K → Run (Status × FlatFile K V × Option V)
  unfolding binary_search read_row
  get_sorted f key = binary_search f key >>= λ s. elim (s.1) [
    | failure e ↦ done (status_error e, s.0, none)
    | success loc ↦ read_row (s.0) (pos loc) >>= λ r. elim (r.1) [
      | failure e ↦ done (status_error e, r.0, none)
      | success row ↦
          if is_equal (f.compare row.key key)
          then done (status_ok 1, r.0, some row.value)
          else done (status_error err_item_not_found, r.0, none)
    ]
  ]

  unfoldable pub get : FlatFile K V → K → Run (Status × FlatFile K V × Option V)
  unfolding get_unsorted get_sorted
  get f key = if f.sorted_mode then get_sorted f key else get_unsorted f key

  -- One round of the loop of `flat_file_delete`, for a match at `loc`: the last row goes there.
  -- A read that fails ends the loop with its error.
  unfoldable pub remove_row : FlatFile K V → ℕ → Run (FlatFile K V × Outcome (Unit {0}))
  unfolding read_row write_row write_status
  remove_row f loc =
      let last = f.eof_position - 1 in
      let cut = λ (g : FlatFile K V).
        write_status g last vacant >>= λ h. done (record h { eof_position = last }, success tt) in
      if last == loc
      then cut f
      else (read_row f (pos last) >>= λ r. elim (r.1) [
        | failure e ↦ done (r.0, failure e)
        | success row ↦ write_row (r.0) loc row >>= cut
      ])

  -- The status at the end of `flat_file_delete`.
  unfoldable pub deleted_status : Option ℕ → ℕ → ScanResult K V → Status
  deleted_status loc count hit_eof =
      if count == 0 then status_error err_item_not_found else status_ok count
  deleted_status none count (failed e) =
      if count == 0 then status_error err_item_not_found else record { error = e; count = count }
  deleted_status (some i) count (failed e) = record { error = e; count = count }
  deleted_status loc count (found i r) = status_ok count

  -- The loop of `flat_file_delete`, from `loc`, with the count of the rows that are gone.
  unfoldable pub delete_from : FlatFile K V → K → ℕ → Option ℕ → ℕ → Run (Status × FlatFile K V)
  delete_from f key zero loc count = fault
  delete_from f key (suc fuel) loc count =
      scan_forwards_from f loc (predicate_key_match f key) >>= λ r. elim (r.1) [
        | found i row ↦ remove_row (r.0) i >>= λ s. elim (s.1) [
          | failure e ↦ done (record { error = e; count = count }, s.0)
          | success t ↦ delete_from (s.0) key fuel (some i) (count + 1)
        ]
        | hit_eof ↦ done (deleted_status loc count hit_eof, r.0)
        | failed e ↦ done (deleted_status loc count (failed e), r.0)
      ]

  unfoldable pub delete : FlatFile K V → K → Run (Status × FlatFile K V)
  unfolding delete_from scan_forwards_from predicate_key_match remove_row deleted_status
  delete f key =
      if f.sorted_mode
      then done (status_error err_sorted_order_violation, f)
      else delete_from f key (f.eof_position + 1) none 0

  -- The loop of `flat_file_update`, from `loc`, with the count of the rows that are written. Where
  -- there are none, the key is inserted.
  unfoldable pub update_from : FlatFile K V → K → V → ℕ → Option ℕ → ℕ → Run (Status × FlatFile K V)
  update_from f key value zero loc count = fault
  update_from f key value (suc fuel) loc count =
      scan_forwards_from f loc (predicate_key_match f key) >>= λ r. elim (r.1) [
        | found i row ↦ write_row (r.0) i (new_row key value) >>= λ g.
            update_from g key value fuel (some (i + 1)) (count + 1)
        | hit_eof ↦ if count == 0 then insert (r.0) key value else done (status_ok count, r.0)
        | failed e ↦ done (record { error = e; count = count }, r.0)
      ]

  unfoldable pub update : FlatFile K V → K → V → Run (Status × FlatFile K V)
  unfolding update_from scan_forwards_from predicate_key_match write_row insert binary_search
      read_row
  update f key value =
      if f.sorted_mode
      then (binary_search f key >>= λ s. elim (s.1) [
        | failure err_item_not_found ↦ insert (s.0) key value
        | failure e ↦ done (status_error e, s.0)
        | success loc ↦ read_row (s.0) (pos loc) >>= λ r. elim (r.1) [
          | failure e ↦ done (status_error e, r.0)
          | success row ↦
              if is_equal (f.compare row.key key)
              then update_from (r.0) key value (f.eof_position + 1) (some loc) 0
              else insert (r.0) key value
        ]
      ])
      else update_from f key value (f.eof_position + 1) none 0
