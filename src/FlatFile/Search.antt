-- ===== src/FlatFile/Search.antt =====
-- `flat_file_binary_search` of src/dictionary/flat_file/flat_file.c.
use iondb.Base.{ℕ, zero, suc, ◌+◌, ◌-◌, ◌/◌, Bool, false, ltb, ◌==◌, if◌then◌else◌}
use iondb.Base.Int.{ℤ, pos, negsuc}
use iondb.Base.Run.{Run, done, fault, ◌>>=◌}
use iondb.FlatFile.{FlatFile, Row, Outcome, success, failure, read_row}
use iondb.System.{err_item_not_found, err_sorted_order_violation, a_lt_b, a_equ_b, a_gt_b, is_equal}

-- `high_idx = mid_idx - 1`
abbrev pub pred_index : ℕ → ℤ
pred_index zero = negsuc 0
pred_index (suc n) = pos n

-- `low_idx < high_idx`
abbrev pub below_high : ℕ → ℤ → Bool
below_high low (pos high) = ltb low high
below_high low (negsuc n) = false

-- `low_idx + (high_idx - low_idx) / 2`, where `low_idx < high_idx`
abbrev pub middle : ℕ → ℤ → ℕ
middle low (pos high) = low + (high - low) / 2
middle low (negsuc n) = low

module _ {ℓ} {K V : Type ℓ} where
  -- A read of the row at `location`; an error ends the caller.
  abbrev pub reading :
      FlatFile K V
      → ℤ
      → (FlatFile K V → Row K V → Run (FlatFile K V × Outcome ℕ))
      → Run (FlatFile K V × Outcome ℕ)
  reading f location k = read_row f location >>= λ r. elim (r.1) [
    | failure e ↦ done (r.0, failure e)
    | success row ↦ k (r.0) row
  ]

  -- The loop that goes back to the first of a block of duplicates: the code reads the row before
  -- `dup_idx` also where that is -1, before it tests the index.
  unfoldable pub scroll_back : FlatFile K V → K → ℕ → Run (FlatFile K V × Outcome ℕ)
  scroll_back f target_key zero = reading f (negsuc 0) (λ g row. done (g, success 0))
  scroll_back f target_key (suc dup_idx) = reading f (pos dup_idx) λ g row.
      let rest = scroll_back g target_key dup_idx in
      if is_equal (g.compare row.key target_key) then rest else done (g, success (suc dup_idx))

  -- What follows the loop: the row at `low_idx` decides between it and the one before.
  unfoldable pub settle : FlatFile K V → K → ℕ → Run (FlatFile K V × Outcome ℕ)
  settle f target_key low_idx = reading f (pos low_idx) λ g row.
      elim (g.compare row.key target_key) [
        | a_gt_b ↦ elim low_idx [
          | zero ↦ done (g, failure err_item_not_found)
          | suc before ↦ done (g, success before)
        ]
        | a_equ_b ↦ done (g, success low_idx)
        | a_lt_b ↦ done (g, success low_idx)
      ]

  -- The loop of the search.
  unfoldable pub search_between : FlatFile K V → K → ℕ → ℕ → ℤ → Run (FlatFile K V × Outcome ℕ)
  search_between f target_key zero low_idx high_idx =
      if below_high low_idx high_idx then fault else settle f target_key low_idx
  search_between f target_key (suc fuel) low_idx high_idx =
      let mid_idx = middle low_idx high_idx in
      let body = reading f (pos mid_idx) λ g row.
        let upper = search_between g target_key fuel (mid_idx + 1) high_idx in
        let lower = search_between g target_key fuel low_idx (pred_index mid_idx) in
        elim (g.compare target_key row.key) [
          | a_gt_b ↦ upper
          | a_lt_b ↦ lower
          | a_equ_b ↦ scroll_back g target_key mid_idx
        ] in
      if below_high low_idx high_idx then body else settle f target_key low_idx

  unfoldable pub binary_search : FlatFile K V → K → Run (FlatFile K V × Outcome ℕ)
  unfolding search_between scroll_back settle
  binary_search f target_key =
      if f.sorted_mode
      then if f.eof_position == 0
        then done (f, failure err_item_not_found)
        else search_between f target_key f.eof_position 0 (pos (f.eof_position - 1))
      else done (f, failure err_sorted_order_violation)
