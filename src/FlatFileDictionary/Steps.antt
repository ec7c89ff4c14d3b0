-- ===== src/FlatFileDictionary/Steps.antt =====
-- The steps of a cursor of flat_file_dictionary_handler.c, and the rows that a search selects.
use iondb.Base.{
  ℕ, suc, ◌+◌, ◌≡◌, ◌≢◌, refl, ap, Bool, Option, none, some, List, [], ◌∷◌, drop, arith, inl, inr,
  Bool-cases, Option-cases, if◌then◌else◌,
}
use iondb.Base.Int.{pos}
use iondb.Base.Run.{done, ◌>>=◌}
use iondb.Dictionary.{
  Predicate, predicate_equality, predicate_range, predicate_all_records, predicate_predicate,
}
use iondb.FlatFile.{
  FlatFile, Row, ScanResult, found, hit_eof, success, find_in, read_row, scan_forwards_from,
  predicate_key_match,
}
use iondb.FlatFile.Contents.{cached}
use iondb.FlatFileDictionary.{
  Cursor, find, find_first, next, next_active, read_current, read_all, gather, row_test,
  predicate_within_bounds,
}
use iondb.System.{CursorStatus, cs_cursor_active}

abbrev pub cursor_at {ℓ} : {K : Type ℓ} → CursorStatus → Predicate K → ℕ → Cursor K
cursor_at status predicate loc = record {
  status = status;
  predicate = predicate;
  current_location = some loc;
}

module _ {ℓ} {K V : Type ℓ} where
  -- The records of the rows that pass.
  abbrev pub selected : (Row K V → Bool) → List (Row K V) → List (K × V)
  selected p [] = []
  selected p (r ∷ rows) =
      let rest = selected p rows in if p r then (r.key, r.value) ∷ rest else rest

  module _ (p : Row K V → Bool) where
    pub selected-none : (rows : List (Row K V)) → find_in p rows ≡ none → selected p rows ≡ []
    unfolding find_in
    selected-none [] h = refl
    selected-none (r ∷ rows) h = elim (Bool-cases (p r)) [
      | inl t ↦ ground arith
      | inr t ↦ elim (Option-cases (find_in p rows)) [
        | inl e ↦ rw (t) (selected-none rows e)
        | inr (a, e) ↦ ground arith
      ]
    ]

    pub selected-some :
        (rows : List (Row K V)) (i : ℕ) (row : Row K V)
        → find_in p rows ≡ some (i, row)
        → selected p rows ≡ (row.key, row.value) ∷ selected p (drop (suc i) rows)
    unfolding find_in
    selected-some [] i row h = ground arith
    selected-some (r ∷ rows) i row h = elim (Bool-cases (p r)) [
      | inl t ↦ ground arith
      | inr t ↦ elim (Option-cases (find_in p rows)) [
        | inl e ↦ ground arith
        | inr ((j, s), e) ↦ let ih = selected-some rows j s e in ground arith
      ]
    ]

  -- The scans make this test for the predicate.
  pub row_test-same :
      (f : FlatFile K V) {g : FlatFile K V} (predicate : Predicate K) {b : List (Row K V)}
      {region : Option ℕ} {num : ℕ}
      → g ≡ cached f b region num
      → row_test g predicate ≡ row_test f predicate
  unfolding row_test predicate_key_match predicate_within_bounds
  row_test-same f (predicate_equality k) e = ap (λ g. row_test g (predicate_equality k)) e
  row_test-same f (predicate_range l u) e = ap (λ g. row_test g (predicate_range l u)) e
  row_test-same f predicate_all_records e = refl
  row_test-same f predicate_predicate e = refl

  module _ (f : FlatFile K V) (predicate : Predicate K) (searches : predicate ≢ predicate_predicate)
      (s : FlatFile K V × ScanResult K V) where
    next_lem :
        (loc : ℕ)
        → next f (cursor_at cs_cursor_active predicate loc)
          ≡ next_active f (cursor_at cs_cursor_active predicate loc)
    unfolding next
    next_lem loc = go predicate searches
      where
        go :
            (q : Predicate K)
            → q ≢ predicate_predicate
            → next f (cursor_at cs_cursor_active q loc)
              ≡ next_active f (cursor_at cs_cursor_active q loc)
        go (predicate_equality k) h = refl
        go (predicate_range l u) h = refl
        go predicate_all_records h = refl
        go predicate_predicate h = absurd (h refl)

    pub find_lem : find f predicate ≡ find_first f predicate
    unfolding find
    find_lem = go predicate searches
      where
        go : (q : Predicate K) → q ≢ predicate_predicate → find f q ≡ find_first f q
        go (predicate_equality k) h = refl
        go (predicate_range l u) h = refl
        go predicate_all_records h = refl
        go predicate_predicate h = absurd (h refl)

    pub read_all-found :
        (fuel loc i : ℕ) (row : Row K V)
        → scan_forwards_from f (some (loc + 1)) (row_test f predicate) ≡ done s
        → s.1 ≡ found i row
        → read_row (s.0) (pos i) ≡ done (s.0, success row)
        → read_all (suc fuel) f (cursor_at cs_cursor_active predicate loc) ≡ (
            read_all fuel (s.0) (cursor_at cs_cursor_active predicate i) >>= λ rs.
            done ((row.key, row.value) ∷ rs))
    unfolding read_all next_active read_current gather
    read_all-found fuel loc i row run e r = rw (next_lem loc, run, e, r) refl

    pub read_all-end :
        (fuel loc : ℕ)
        → scan_forwards_from f (some (loc + 1)) (row_test f predicate) ≡ done s
        → s.1 ≡ hit_eof
        → read_all (suc fuel) f (cursor_at cs_cursor_active predicate loc) ≡ done []
    unfolding read_all next_active gather
    read_all-end fuel loc run e = rw (next_lem loc, run, e) refl
