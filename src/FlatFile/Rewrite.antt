-- ===== src/FlatFile/Rewrite.antt =====
-- The rows that one round of `flat_file_update` of src/dictionary/flat_file/flat_file.c leaves.
use iondb.Base.{
  ℕ, zero, suc, ◌+◌, ◌≡◌, refl, ◌∙◌, ap, Bool, none, some, List, [], ◌∷◌, ◌++◌, take, drop, set,
  map, arith, inl, inr, Bool-cases, Option-cases, count, if◌then◌else◌, take-append-drop,
}
use iondb.FlatFile.{Row, find_in}

module _ {ℓ} {K V : Type ℓ} (p : Row K V → Bool) (new : Row K V) where
  -- The new row in place of every row that passes.
  abbrev pub rewrite_all : List (Row K V) → List (Row K V)
  rewrite_all rows = map (λ r. if p r then new else r) rows

  rewrite_all-none : (rows : List (Row K V)) → find_in p rows ≡ none → rewrite_all rows ≡ rows
  unfolding find_in
  rewrite_all-none [] h = refl
  rewrite_all-none (r ∷ rows) h = elim (Bool-cases (p r)) [
    | inl t ↦ ground arith
    | inr t ↦ elim (Option-cases (find_in p rows)) [
      | inl e ↦ rw (t) (ap (λ rs. r ∷ rs) (rewrite_all-none rows e))
      | inr (a, e) ↦ ground arith
    ]
  ]

  -- The rows, where those from `cur` on are rewritten.
  abbrev pub rewrite_from : ℕ → List (Row K V) → List (Row K V)
  rewrite_from cur rows = take cur rows ++ rewrite_all (drop cur rows)

  pub rewrite_from-none :
      (cur : ℕ) (rows : List (Row K V))
      → find_in p (drop cur rows) ≡ none
      → rewrite_from cur rows ≡ rows
  rewrite_from-none cur rows e =
      ap (λ rs. take cur rows ++ rs) (rewrite_all-none (drop cur rows) e)
      ∙ take-append-drop cur rows

  -- The first row from `cur` on that passes is written over.
  pub rewrite_from-set :
      (cur i k : ℕ) (rows : List (Row K V)) (row : Row K V)
      → k ≡ cur + i
      → find_in p (drop cur rows) ≡ some (i, row)
      → rewrite_from (suc k) (set rows k new) ≡ rewrite_from cur rows
  unfolding find_in
  rewrite_from-set zero i k [] row h e = ground arith
  rewrite_from-set (suc cur) i k [] row h e = ground arith
  rewrite_from-set zero i zero (r ∷ rows) row h e = elim (Bool-cases (p r)) [
    | inl t ↦ rw (t) refl
    | inr t ↦ elim (Option-cases (find_in p rows)) [
      | inl q ↦ ground arith
      | inr ((j, s), q) ↦ ground arith
    ]
  ]
  rewrite_from-set zero i (suc k) (r ∷ rows) row h e = elim (Bool-cases (p r)) [
    | inl t ↦ ground arith
    | inr t ↦ elim (Option-cases (find_in p rows)) [
      | inl q ↦ ground arith
      | inr ((j, s), q) ↦
          let at : k ≡ 0 + j = ground arith in
          rw (t) (ap (λ rs. r ∷ rs) (rewrite_from-set zero j k rows s at q))
    ]
  ]
  rewrite_from-set (suc cur) i zero (r ∷ rows) row h e = absurd (omega arith)
  rewrite_from-set (suc cur) i (suc k) (r ∷ rows) row h e =
      ap (λ rs. r ∷ rs) (rewrite_from-set cur i k rows row (omega arith) e)

  pub count-drop-set :
      (cur i k : ℕ) (rows : List (Row K V)) (row : Row K V)
      → k ≡ cur + i
      → find_in p (drop cur rows) ≡ some (i, row)
      → suc (count p (drop (suc k) (set rows k new))) ≡ count p (drop cur rows)
  unfolding find_in
  count-drop-set zero i k [] row h e = ground arith
  count-drop-set (suc cur) i k [] row h e = ground arith
  count-drop-set zero i zero (r ∷ rows) row h e = elim (Bool-cases (p r)) [
    | inl t ↦ ground arith
    | inr t ↦ elim (Option-cases (find_in p rows)) [
      | inl q ↦ ground arith
      | inr ((j, s), q) ↦ ground arith
    ]
  ]
  count-drop-set zero i (suc k) (r ∷ rows) row h e = elim (Bool-cases (p r)) [
    | inl t ↦ ground arith
    | inr t ↦ elim (Option-cases (find_in p rows)) [
      | inl q ↦ ground arith
      | inr ((j, s), q) ↦
          let at : k ≡ 0 + j = ground arith in
          let ih = count-drop-set zero j k rows s at q in ground arith
    ]
  ]
  count-drop-set (suc cur) i zero (r ∷ rows) row h e = absurd (omega arith)
  count-drop-set (suc cur) i (suc k) (r ∷ rows) row h e =
      count-drop-set cur i k rows row (omega arith) e
