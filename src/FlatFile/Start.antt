-- ===== src/FlatFile/Start.antt =====
-- `flat_file_initialize` of src/dictionary/flat_file/flat_file.c on a file that holds whole rows; to
-- open it, to allocate the buffer and to seek succeed. The buffer comes zeroed from `calloc`: `blank`
-- is a row of zeros. `flat_file` is the structure before, and `filename_length` what `snprintf` returns
-- for the name of the file of a dictionary, by its id.
use iondb.Base.{
  if◌then◌else◌, ℕ, zero, suc, ◌+◌, ◌≤◌, ◌<◌, ◌≡◌, refl, ◌∙◌, ap, true, false, none, some, List,
  length, drop, get_elem?, replicate, leb, arith, ◌⊎◌, inl, inr, Option-cases, count,
  length-replicate, take-length, lt-of-get_elem?,
}
use iondb.Base.Run.{Run, done, Returns, ◌>>=◌}
use iondb.FlatFile.Backwards.{
  last_answer, scan_backwards-Rescanned, find_last_in-none, find_last_in-Last,
}
use iondb.FlatFile.Contents.{IsValid}
use iondb.FlatFile.{
  FlatFile, Row, ScanResult, found, hit_eof, failed, find_last_in, predicate_not_empty,
  scan_backwards_from, scan_backwards,
}
use iondb.System.{ErrorCode, err_ok, err_uninitialized, max_filename_length}

-- The clamp of the dictionary size: at least one row is buffered.
abbrev clamp : ℕ → ℕ
clamp zero = 1
clamp (suc n) = suc n

module _ {ℓ} {K V : Type ℓ} where
  -- The state before the scan for the last row.
  abbrev opened : FlatFile K V → ℕ → Row K V → List (Row K V) → FlatFile K V
  opened flat_file dictionary_size blank rows = record flat_file {
    sorted_mode = false;
    rows = rows;
    eof_position = length rows;
    num_buffered = clamp dictionary_size;
    buffer = replicate (clamp dictionary_size) blank;
    current_loaded_region = none;
  }

  -- A file name that is too long is refused.
  unfoldable pub initialize :
      (ℕ → ℕ) → FlatFile K V → ℕ → ℕ → Row K V → List (Row K V) → Run (ErrorCode × FlatFile K V)
  unfolding scan_backwards_from predicate_not_empty
  initialize filename_length flat_file id dictionary_size blank rows =
      if leb max_filename_length (filename_length id)
      then done (err_uninitialized, flat_file)
      else scan_backwards_from (opened flat_file dictionary_size blank rows) none
          predicate_not_empty
        >>= λ s. elim (s.1) [
          | found loc row ↦ done (err_ok, record (s.0) { eof_position = loc + 1 })
          | hit_eof ↦ done (err_ok, record (s.0) { eof_position = 0 })
          | failed e ↦ done (e, s.0)
        ]

-- What `initialize` makes of a file with the given rows: the end is behind the last occupied row.
pub record Opened {ℓ} {K V : Type ℓ} (rows : List (Row K V)) (r : ErrorCode × FlatFile K V)
    : Type ℓ where
  pub succeeded : r.0 ≡ err_ok
  pub valid : IsValid (r.1)
  pub same_rows : (r.1).rows ≡ rows
  pub beyond : count predicate_not_empty (drop (r.1).eof_position rows) ≡ 0
  pub last_row :
      ((r.1).eof_position ≡ 0)
      ⊎ ((i : ℕ) × (row : Row K V) × ((r.1).eof_position ≡ suc i)
          × (get_elem? rows i ≡ some row)
          × (predicate_not_empty row ≡ true))

module _ {ℓ} {K V : Type ℓ} (filename_length : ℕ → ℕ) (flat_file : FlatFile K V) (id : ℕ)
    (fits : filename_length id < max_filename_length) (dictionary_size : ℕ) (blank : Row K V)
    (rows : List (Row K V)) where
  short : leb max_filename_length (filename_length id) ≡ false
  short = ground arith

  opened-IsValid : IsValid (opened flat_file dictionary_size blank rows)
  opened-IsValid = record {
    in_file = omega arith;
    positive = clamp-positive dictionary_size;
    sized = length-replicate (clamp dictionary_size) blank;
    cache = λ region e j h. ground arith;
  }
    where
      clamp-positive : (n : ℕ) → 0 < clamp n
      clamp-positive zero = omega arith
      clamp-positive (suc n) = omega arith

  -- A change of the end keeps a file valid.
  at_end :
      {f : FlatFile K V}
      → IsValid f
      → (eof : ℕ) → eof ≤ length f.rows
      → IsValid (record f { eof_position = eof })
  at_end valid eof h = record {
    in_file = h;
    positive = valid.positive;
    sized = valid.sized;
    cache = valid.cache;
  }

  module _ (s : FlatFile K V × ScanResult K V)
      (run : scan_backwards
          (opened flat_file dictionary_size blank rows)
          predicate_not_empty
          (length rows)
          (length rows)
        ≡ done s) where
    initialize-found :
        (i : ℕ) (row : Row K V)
        → s.1 ≡ found i row
        → initialize filename_length flat_file id dictionary_size blank rows
          ≡ done (err_ok, record (s.0) { eof_position = i + 1 })
    unfolding initialize
    initialize-found i row e = rw (short, run, e) refl

    initialize-empty :
        s.1 ≡ hit_eof
        → initialize filename_length flat_file id dictionary_size blank rows
          ≡ done (err_ok, record (s.0) { eof_position = 0 })
    unfolding initialize
    initialize-empty e = rw (short, run, e) refl

  -- On a file of whole rows whose name is short enough, `initialize` succeeds with a valid state for
  -- every dictionary size; the rows are those of the file, none behind the end that it finds is
  -- occupied, and the row before the end is occupied, if there is one.
  pub initialize-Opened :
      Returns (initialize filename_length flat_file id dictionary_size blank rows) (Opened rows)
  initialize-Opened =
      let (s, run, sc) =
        scan_backwards-Rescanned predicate_not_empty (opened flat_file dictionary_size blank rows)
          opened-IsValid (length rows) (length rows) (omega arith) (omega arith) in
      let answers : s.1 ≡ last_answer (find_last_in predicate_not_empty rows) =
        sc.answers
        ∙ ap (λ rs. last_answer (find_last_in predicate_not_empty rs)) (take-length rows) in
      let size = ap length sc.same_rows in
      elim (Option-cases (find_last_in predicate_not_empty rows)) [
        | inl e ↦ (
          (err_ok, record (s.0) { eof_position = 0 }),
          initialize-empty s run (answers ∙ ap last_answer e),
          record {
            succeeded = refl;
            valid = at_end sc.valid 0 (omega arith);
            same_rows = sc.same_rows;
            beyond = find_last_in-none predicate_not_empty rows e;
            last_row = inl refl;
          },
        )
        | inr ((i, row), e) ↦
            let l = find_last_in-Last predicate_not_empty rows i row e in
            let q : i + 1 ≡ suc i = omega arith in
            (
              (err_ok, record (s.0) { eof_position = i + 1 }),
              initialize-found s run i row (answers ∙ ap last_answer e),
              record {
                succeeded = refl;
                valid = at_end sc.valid (i + 1) (omega (arith, lt-of-get_elem? rows i (l.at)));
                same_rows = sc.same_rows;
                beyond = ap (λ k. count predicate_not_empty (drop k rows)) q ∙ l.after;
                last_row = inr (i, row, q, l.at, l.passes);
              },
            )
      ]
