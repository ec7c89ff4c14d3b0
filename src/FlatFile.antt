-- ===== src/FlatFile.antt =====
-- src/dictionary/flat_file/flat_file.c: a file of rows with a buffer of the rows read last. The file
-- is the list of the rows from `start_of_data` on; offsets are counted in rows from there, so
-- `start_of_data + n * row_size` is `n`. Reads and writes inside the file succeed, and rows are longer
-- than the header of 4 bytes, so that a seek to the row before the data fails. `fault` is an access
-- outside the buffer, a write behind the end of the file that leaves a hole, or a loop whose fuel runs
-- out.
pub mod Search
pub mod Operations
pub mod Scanning
pub mod Contents
pub mod Access
pub mod Get
pub mod Append
pub mod Matches
pub mod Remove
pub mod Delete
pub mod Rewrite
pub mod UpdateLoop
pub mod Update
pub mod Backwards
pub mod Start
pub mod Reads
pub mod Sorted
pub mod Tests
use iondb.Base.{
  ℕ, zero, suc, ◌+◌, ◌-◌, ◌/◌, Bool, true, false, ◌&&◌, Option, none, some, List, [], ◌∷◌, ◌++◌,
  length, take, drop, get_elem?, set, ltb, leb, ◌==◌, if◌then◌else◌,
}
use iondb.Base.Int.{ℤ, pos, negsuc}
use iondb.Base.Run.{Run, done, fault, ◌>>=◌}
use iondb.System.{
  ErrorCode, err_ok, err_item_not_found, err_file_write_error, err_file_read_error,
  err_file_bad_seek, err_file_hit_eof, err_out_of_bounds, err_sorted_order_violation,
  err_uninitialized, Status, status_ok, status_error, Comparison, a_lt_b, a_equ_b, a_gt_b, is_equal,
}

-- `ION_FLAT_FILE_STATUS_OCCUPIED` and `ION_FLAT_FILE_STATUS_EMPTY`
pub data RowStatus : Type 0 where
  occupied vacant : RowStatus

pub record Row {ℓ} (K V : Type ℓ) : Type ℓ where
  pub row_status : RowStatus
  pub key : K
  pub value : V

-- `ion_flat_file_t`; `none` as the loaded region is -1.
pub record FlatFile {ℓ} (K V : Type ℓ) : Type ℓ where
  pub compare : K → K → Comparison
  pub sorted_mode : Bool
  pub rows : List (Row K V)
  pub eof_position : ℕ
  pub num_buffered : ℕ
  pub buffer : List (Row K V)
  pub current_loaded_region : Option ℕ
  pub num_in_buffer : ℕ

-- How a function that returns an `ion_err_t` and sets its result ends.
pub data Outcome {ℓ} (A : Type ℓ) : Type ℓ where
  success : A → Outcome A
  failure : ErrorCode → Outcome A

-- How `flat_file_scan` ends.
pub data ScanResult {ℓ} (K V : Type ℓ) : Type ℓ where
  found : ℕ → Row K V → ScanResult K V
  hit_eof : ScanResult K V
  failed : ErrorCode → ScanResult K V

module _ {ℓ} {K V : Type ℓ} where
  abbrev pub is_occupied : Row K V → Bool
  is_occupied r = elim r.row_status [ occupied ↦ true | vacant ↦ false ]

  unfoldable pub predicate_not_empty : Row K V → Bool
  predicate_not_empty r = is_occupied r

  unfoldable pub predicate_key_match : FlatFile K V → K → Row K V → Bool
  predicate_key_match f target_key r = is_occupied r && is_equal (f.compare target_key r.key)

  -- The loop over the rows of the buffer: the first row that passes, with its index.
  unfoldable pub find_in : (Row K V → Bool) → List (Row K V) → Option (ℕ × Row K V)
  find_in predicate [] = none
  find_in predicate (r ∷ rs) =
      if predicate r
      then some (0, r)
      else elim (find_in predicate rs) [ none ↦ none | some (i, s) ↦ some (suc i, s) ]

  -- The same loop backwards: the last row that passes.
  unfoldable pub find_last_in : (Row K V → Bool) → List (Row K V) → Option (ℕ × Row K V)
  find_last_in predicate [] = none
  find_last_in predicate (r ∷ rs) = elim (find_last_in predicate rs) [
    | some (i, s) ↦ some (suc i, s)
    | none ↦ if predicate r then some (0, r) else none
  ]

  -- `fread` of `num` rows at `cur` into the buffer
  unfoldable pub load : FlatFile K V → ℕ → ℕ → FlatFile K V
  load f cur num = record f {
    buffer = take num (drop cur f.rows) ++ drop num f.buffer;
    current_loaded_region = some cur;
    num_in_buffer = num;
  }

  -- The loop of `flat_file_scan` in the forward direction, from the row `cur`.
  unfoldable pub scan_forwards :
      FlatFile K V → (Row K V → Bool) → ℕ → ℕ → Run (FlatFile K V × ScanResult K V)
  scan_forwards f predicate zero cur = if cur == f.eof_position then done (f, hit_eof) else fault
  scan_forwards f predicate (suc fuel) cur =
      let records_left = f.eof_position - cur in
      let num = if ltb f.num_buffered records_left then f.num_buffered else records_left in
      let block = take num (drop cur f.rows) in
      let rest = scan_forwards (load f cur num) predicate fuel (cur + num) in
      if cur == f.eof_position
      then done (f, hit_eof)
      else if length block == num
      then elim (find_in predicate block) [
        | some (i, r) ↦ done (load f cur num, found (cur + i) r)
        | none ↦ rest
      ]
      else done
          (record f { buffer = block ++ drop (length block) f.buffer }, failed err_file_read_error)

  -- The loop in the backward direction: the rows before `cur`.
  unfoldable pub scan_backwards :
      FlatFile K V → (Row K V → Bool) → ℕ → ℕ → Run (FlatFile K V × ScanResult K V)
  scan_backwards f predicate zero cur = if cur == 0 then done (f, hit_eof) else fault
  scan_backwards f predicate (suc fuel) cur =
      let num = if ltb cur f.num_buffered then cur else f.num_buffered in
      let from = cur - f.num_buffered in
      let block = take num (drop from f.rows) in
      let rest = scan_backwards (load f from num) predicate fuel from in
      if cur == 0
      then done (f, hit_eof)
      else if length block == num
      then elim (find_last_in predicate block) [
        | some (i, r) ↦ done (load f from num, found (from + i) r)
        | none ↦ rest
      ]
      else done
          (record f { buffer = block ++ drop (length block) f.buffer }, failed err_file_read_error)

  -- `flat_file_scan` forwards; `none` is the start location -1.
  unfoldable pub scan_forwards_from :
      FlatFile K V → Option ℕ → (Row K V → Bool) → Run (FlatFile K V × ScanResult K V)
  unfolding scan_forwards find_in load
  scan_forwards_from f none predicate = scan_forwards f predicate f.eof_position 0
  scan_forwards_from f (some start) predicate =
      if ltb f.eof_position start
      then done (f, failed err_out_of_bounds)
      else scan_forwards f predicate f.eof_position start

  -- `flat_file_scan` backwards
  unfoldable pub scan_backwards_from :
      FlatFile K V → Option ℕ → (Row K V → Bool) → Run (FlatFile K V × ScanResult K V)
  unfolding scan_backwards find_last_in load
  scan_backwards_from f none predicate = scan_backwards f predicate f.eof_position f.eof_position
  scan_backwards_from f (some start) predicate =
      let cur = if start == f.eof_position then start else start + 1 in
      if ltb f.eof_position cur
      then done (f, failed err_out_of_bounds)
      else scan_backwards f predicate f.eof_position cur

  -- `flat_file_write_row` of a whole row: inside the file, or at its end.
  unfoldable pub write_row : FlatFile K V → ℕ → Row K V → Run (FlatFile K V)
  write_row f location row =
      let g = record f { current_loaded_region = none; num_in_buffer = 0 } in
      if ltb location (length f.rows)
      then done (record g { rows = set f.rows location row })
      else if location == length f.rows
      then done (record g { rows = f.rows ++ row ∷ [] })
      else fault

  -- `flat_file_write_row` with null key and value: the status alone.
  unfoldable pub write_status : FlatFile K V → ℕ → RowStatus → Run (FlatFile K V)
  write_status f location status =
      let g = record f { current_loaded_region = none; num_in_buffer = 0 } in
      elim (get_elem? f.rows location) [
        | none ↦ fault
        | some row ↦
            done (record g { rows = set f.rows location (record row { row_status = status }) })
      ]

  -- A read into the first row of the buffer, on a cache miss. The region stays as it is.
  unfoldable pub read_miss : FlatFile K V → ℕ → Run (FlatFile K V × Outcome (Row K V))
  read_miss f location = elim (get_elem? f.rows location) [
    | none ↦ done (f, failure err_file_write_error)
    | some row ↦ elim f.buffer [
      | [] ↦ fault
      | b ∷ bs ↦ done (record f { buffer = row ∷ bs }, success row)
    ]
  ]

  -- `flat_file_read_row`. A row before the start of the data is outside the file.
  unfoldable pub read_row : FlatFile K V → ℤ → Run (FlatFile K V × Outcome (Row K V))
  unfolding read_miss
  read_row f (negsuc n) = done (f, failure err_file_bad_seek)
  read_row f (pos location) = elim f.current_loaded_region [
    | none ↦ read_miss f location
    | some region ↦
        if leb region location && ltb location (region + f.num_in_buffer)
        then elim (get_elem? f.buffer (location - region)) [
          | none ↦ fault
          | some row ↦ done (f, success row)
        ]
        else read_miss f location
  ]
