-- ===== src/FlatFile/Sorted.antt =====
-- `flat_file_get` of src/dictionary/flat_file/flat_file.c on a sorted file: the search for the first
-- of a block of duplicates goes past the start of the data. As in the whole model rows are longer
-- than the header of 4 bytes; a shorter row before the data would be read from the header.
use iondb.Base.{
  ℕ, zero, suc, ◌+◌, ◌-◌, ◌/◌, ◌≤◌, ◌<◌, ◌≡◌, refl, sym, ◌∙◌, ap, true, none, some, List, length,
  get_elem?, arith, ltb,
}
use iondb.Base.Int.{pos}
use iondb.Base.Run.{Run, done, Returns}
use iondb.FlatFile.Access.{read_row-Read}
use iondb.FlatFile.Contents.{IsValid}
use iondb.FlatFile.Operations.{get, get_sorted}
use iondb.FlatFile.Search.{binary_search, search_between, scroll_back, reading}
use iondb.FlatFile.{FlatFile, Row, Outcome, success, failure, read_row}
use iondb.System.{ErrorCode, err_file_bad_seek, status_error, a_equ_b}

-- The row `j` has a key that equals `key`, whichever of the two is compared first.
abbrev pub HasKey {ℓ} : {K V : Type ℓ} → FlatFile K V → K → ℕ → Type ℓ
HasKey {K = K} {V = V} f key j =
    (row : Row K V) × (get_elem? f.rows j ≡ some row)
    × (f.compare key row.key ≡ a_equ_b)
    × (f.compare row.key key ≡ a_equ_b)

module _ {ℓ} {K V : Type ℓ} (key : K) where
  unloaded-IsValid :
      {f : FlatFile K V}
      → IsValid f
      → f.current_loaded_region ≡ none
      → (b : List (Row K V)) → length b ≡ f.num_buffered
      → IsValid (record f { buffer = b })
  unloaded-IsValid valid unloaded b sized = record {
    in_file = valid.in_file;
    positive = valid.positive;
    sized = sized;
    cache = λ region e j hj. ground arith;
  }

  module _ (f : FlatFile K V) (j : ℕ) (g : FlatFile K V) (row : Row K V)
      (run : read_row f (pos j) ≡ done (g, success row)) where
    reading_lem :
        (k : FlatFile K V → Row K V → Run (FlatFile K V × Outcome ℕ))
        → reading f (pos j) k ≡ k g row
    reading_lem k = rw (run) refl

    scroll_back-equal :
        g.compare row.key key ≡ a_equ_b → scroll_back f key (suc j) ≡ scroll_back g key j
    unfolding scroll_back
    scroll_back-equal e = ground arith

    search_between-equal :
        (fuel low high : ℕ)
        → low < high
        → j ≡ low + (high - low) / 2
        → g.compare key row.key ≡ a_equ_b
        → search_between f key (suc fuel) low (pos high) ≡ scroll_back g key j
    unfolding search_between
    search_between-equal fuel low high h m e =
        let below : ltb low high ≡ true = ground arith in
        let run' = ap (λ k. read_row f (pos k)) (sym m) ∙ run in
        rw (below, run', e) (ap (scroll_back g key) (sym m))

  -- Where all rows before `d` have the key, the loop reads the row -1, and fails.
  scroll_back-fails :
      (d : ℕ) (f : FlatFile K V)
      → IsValid f
      → f.current_loaded_region ≡ none
      → ((j : ℕ) → j < d → HasKey f key j)
      → Returns (scroll_back f key d) (λ s. s.1 ≡ failure err_file_bad_seek)
  unfolding scroll_back read_row
  scroll_back-fails zero f valid unloaded equal = ((f, failure err_file_bad_seek), refl, refl)
  scroll_back-fails (suc d) f valid unloaded equal =
      let (row, at, e, q) = equal d (omega arith) in
      let (s, run, (b, sized, reads)) = read_row-Read valid d at in
      let g = record f { buffer = b } in
      let (r, rest, fails) =
        scroll_back-fails d g (unloaded-IsValid valid unloaded b sized) unloaded
          (λ j h. equal j (omega arith)) in
      (r, scroll_back-equal f d g row (run ∙ ap done reads) q ∙ rest, fails)

  get-sorted_lem :
      (f : FlatFile K V) (s : FlatFile K V × Outcome ℕ) (e : ErrorCode)
      → f.sorted_mode ≡ true
      → 2 ≤ f.eof_position
      → search_between f key f.eof_position 0 (pos (f.eof_position - 1)) ≡ done s
      → s.1 ≡ failure e
      → get f key ≡ done (status_error e, s.0, none)
  unfolding get get_sorted binary_search
  get-sorted_lem f s e mode h run q = ground arith

  -- On a valid sorted file of two rows or more without a loaded region, where the row in the middle
  -- and all rows before it have the key, `get` reports `err_file_bad_seek` and returns no value.
  pub get-HasKey :
      {f : FlatFile K V}
      → IsValid f
      → f.sorted_mode ≡ true
      → f.current_loaded_region ≡ none
      → 2 ≤ f.eof_position
      → ((j : ℕ) → j ≤ (f.eof_position - 1) / 2 → HasKey f key j)
      → Returns (get f key) (λ r. (r.0 ≡ status_error err_file_bad_seek) × (r.2 ≡ none))
  get-HasKey {f} valid mode unloaded two equal =
      let mid = (f.eof_position - 1) / 2 in
      let (row, at, e, q) = equal mid (omega arith) in
      let (s, run, (b, sized, reads)) = read_row-Read valid mid at in
      let g = record f { buffer = b } in
      let (r, rest, fails) =
        scroll_back-fails mid g (unloaded-IsValid valid unloaded b sized) unloaded
          (λ j h. equal j (omega arith)) in
      let fuel : suc (f.eof_position - 1) ≡ f.eof_position = omega arith in
      let m : mid ≡ 0 + (f.eof_position - 1 - 0) / 2 = omega arith in
      let searched : search_between f key f.eof_position 0 (pos (f.eof_position - 1)) ≡ done r =
        ap (λ n. search_between f key n 0 (pos (f.eof_position - 1))) (sym fuel)
        ∙ search_between-equal f mid g row (run ∙ ap done reads) (f.eof_position - 1) 0
            (f.eof_position - 1) (omega arith) m e
        ∙ rest in
      (
        (status_error err_file_bad_seek, r.0, none),
        get-sorted_lem f r err_file_bad_seek mode two searched fails,
        (refl, refl),
      )
