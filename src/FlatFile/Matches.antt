-- ===== src/FlatFile/Matches.antt =====
-- The search for the rows with a key in src/dictionary/flat_file/flat_file.c.
use iondb.Base.{
  ℕ, suc, ◌+◌, ◌<◌, ◌≡◌, refl, sym, ◌∙◌, ap, Bool, true, false, none, some, List, [], ◌∷◌,
  get_elem?, take, drop, arith, inl, inr, Bool-cases, Option-cases, count, count-split, take-take,
  drop-take_add, get_elem?-drop, lt-of-get_elem?, get_elem?-take,
}
use mathlib.Core.Path.{subst}
use iondb.FlatFile.Contents.{contents, IsValid, matches, length-contents}
use iondb.FlatFile.{FlatFile, Row, find_in, predicate_key_match}

module _ {ℓ} {K V : Type ℓ} where
  pub predicate_key_match_lem :
      (f : FlatFile K V) (key : K) → predicate_key_match f key ≡ matches f.compare key
  unfolding predicate_key_match
  predicate_key_match_lem f key = refl

  -- A search through rows that ends at `i`: the row there passes, and none before it does.
  pub record First (p : Row K V → Bool) (rows : List (Row K V)) (i : ℕ) (row : Row K V)
      : Type ℓ where
    pub at : get_elem? rows i ≡ some row
    pub passes : p row ≡ true
    pub before : count p (take i rows) ≡ 0

  module _ (p : Row K V → Bool) where
    pub find_in-none : (rows : List (Row K V)) → find_in p rows ≡ none → count p rows ≡ 0
    unfolding find_in
    find_in-none [] h = refl
    find_in-none (r ∷ rows) h = elim (Bool-cases (p r)) [
      | inl t ↦ ground arith
      | inr t ↦ elim (Option-cases (find_in p rows)) [
        | inl e ↦ let ih = find_in-none rows e in ground arith
        | inr (a, e) ↦ ground arith
      ]
    ]

    find_in-here :
        (r : Row K V) (rows : List (Row K V)) → p r ≡ true → find_in p (r ∷ rows) ≡ some (0, r)
    unfolding find_in
    find_in-here r rows t = ground arith

    find_in-there :
        (r : Row K V) (rows : List (Row K V)) {j : ℕ} {s : Row K V}
        → p r ≡ false
        → find_in p rows ≡ some (j, s)
        → find_in p (r ∷ rows) ≡ some (suc j, s)
    unfolding find_in
    find_in-there r rows t e = ground arith

    some-injective : {a b : ℕ × Row K V} → some a ≡ some b → a ≡ b
    some-injective h = cc

    pub find_in-First :
        (rows : List (Row K V)) (i : ℕ) (row : Row K V)
        → find_in p rows ≡ some (i, row)
        → First p rows i row
    unfolding find_in
    find_in-First [] i row h = ground arith
    find_in-First (r ∷ rows) i row h = elim (Bool-cases (p r)) [
      | inl t ↦
          let e : some (0, r) ≡ some (i, row) = sym (find_in-here r rows t) ∙ h in
          subst (λ a. First p (r ∷ rows) (a.0) (a.1)) (some-injective e)
            (record { at = refl; passes = t; before = refl })
      | inr t ↦ elim (Option-cases (find_in p rows)) [
        | inl e ↦ ground arith
        | inr ((j, s), e) ↦
            let ih = find_in-First rows j s e in
            let b = ih.before in
            let q : some (suc j, s) ≡ some (i, row) = sym (find_in-there r rows t e) ∙ h in
            subst (λ a. First p (r ∷ rows) (a.0) (a.1)) (some-injective q)
              (record { at = ih.at; passes = ih.passes; before = ground arith })
      ]
    ]

    -- A search from `cur` on, before which no row passes, is one through all rows.
    pub First-drop :
        {rows : List (Row K V)} (cur : ℕ) {i : ℕ} {row : Row K V}
        → First p (drop cur rows) i row
        → count p (take cur rows) ≡ 0
        → First p rows (cur + i) row
    First-drop {rows} cur {i} first h = record {
      at = sym (get_elem?-drop cur i rows) ∙ first.at;
      passes = first.passes;
      before =
          let split = count-split p cur (take (cur + i) rows) in
          let head = ap (count p) (take-take cur (cur + i) rows (omega arith)) in
          let tail = ap (count p) (drop-take_add cur i rows) in let b = first.before in omega arith;
    }

module _ {ℓ} {K V : Type ℓ} {f : FlatFile K V} (valid : IsValid f) (p : Row K V → Bool) {i : ℕ}
    {row : Row K V} (first : First p (contents f) i row) where
  pub First-lt : i < f.eof_position
  First-lt = omega (arith, lt-of-get_elem? (contents f) i (first.at), length-contents valid)

  pub First-at : get_elem? f.rows i ≡ some row
  First-at = sym (get_elem?-take f.eof_position f.rows i First-lt) ∙ first.at
