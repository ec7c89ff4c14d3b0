-- ===== src/FlatFile/Backwards.antt =====
-- `flat_file_scan` of src/dictionary/flat_file/flat_file.c in the backward direction finds the last
-- row that passes, whatever the size of the buffer.
use iondb.Base.{
  ℕ, zero, suc, ◌+◌, ◌-◌, ◌≤◌, ◌<◌, ◌≡◌, refl, sym, ◌∙◌, ap, Bool, true, false, Option, none, some,
  List, [], ◌∷◌, ◌++◌, length, take, drop, arith, ltb, if◌then◌else◌, inl, inr, Bool-cases,
  Option-cases, ℕ_discrete, length-take, take-take, take-append-drop, drop-take_add, count,
  get_elem?, length-drop,
}
use mathlib.Core.Path.{subst, ap₂}
use iondb.Base.Run.{done, Returns}
use iondb.FlatFile.Contents.{IsValid, load-IsValid}
use iondb.FlatFile.{FlatFile, Row, ScanResult, found, hit_eof, find_last_in, load, scan_backwards}

module _ {ℓ} {K V : Type ℓ} (p : Row K V → Bool) where
  -- The last row that passes is `row`, at `i`.
  pub record Last (rows : List (Row K V)) (i : ℕ) (row : Row K V) : Type ℓ where
    pub at : get_elem? rows i ≡ some row
    pub passes : p row ≡ true
    pub after : count p (drop (suc i) rows) ≡ 0

  pub find_last_in-none : (rows : List (Row K V)) → find_last_in p rows ≡ none → count p rows ≡ 0
  unfolding find_last_in
  find_last_in-none [] h = refl
  find_last_in-none (r ∷ rows) h = elim (Option-cases (find_last_in p rows)) [
    | inr ((j, s), e) ↦ ground arith
    | inl e ↦ let ih = find_last_in-none rows e in ground arith
  ]

  some-injective : {a b : ℕ × Row K V} → some a ≡ some b → a ≡ b
  some-injective h = cc

  last-here :
      (r : Row K V) (rows : List (Row K V))
      → find_last_in p rows ≡ none
      → p r ≡ true
      → find_last_in p (r ∷ rows) ≡ some (0, r)
  unfolding find_last_in
  last-here r rows e t = ground arith

  last-there :
      (r : Row K V) (rows : List (Row K V)) {j : ℕ} {s : Row K V}
      → find_last_in p rows ≡ some (j, s)
      → find_last_in p (r ∷ rows) ≡ some (suc j, s)
  unfolding find_last_in
  last-there r rows e = ground arith

  last-nowhere :
      (r : Row K V) (rows : List (Row K V))
      → find_last_in p rows ≡ none
      → p r ≡ false
      → find_last_in p (r ∷ rows) ≡ none
  unfolding find_last_in
  last-nowhere r rows e t = ground arith

  pub find_last_in-Last :
      (rows : List (Row K V)) (i : ℕ) (row : Row K V)
      → find_last_in p rows ≡ some (i, row)
      → Last rows i row
  unfolding find_last_in
  find_last_in-Last [] i row h = ground arith
  find_last_in-Last (r ∷ rows) i row h = elim (Option-cases (find_last_in p rows)) [
    | inr ((j, s), e) ↦
        let ih = find_last_in-Last rows j s e in
        subst (λ a. Last (r ∷ rows) (a.0) (a.1)) (some-injective (sym (last-there r rows e) ∙ h))
          (record { at = ih.at; passes = ih.passes; after = ih.after })
    | inl e ↦ elim (Bool-cases (p r)) [
      | inl t ↦
          subst (λ a. Last (r ∷ rows) (a.0) (a.1)) (some-injective (sym (last-here r rows e t) ∙ h))
            (record { at = refl; passes = t; after = find_last_in-none rows e })
      | inr t ↦ ground arith
    ]
  ]

  find_last_in-append_some :
      (xs ys : List (Row K V)) (i k : ℕ) (r : Row K V)
      → length xs + i ≡ k
      → find_last_in p ys ≡ some (i, r)
      → find_last_in p (xs ++ ys) ≡ some (k, r)
  find_last_in-append_some [] ys i k r q h =
      let n : i ≡ k = omega arith in h ∙ ap {B = Option (ℕ × Row K V)} (λ x. some (x, r)) n
  find_last_in-append_some (x ∷ xs) ys i zero r q h = absurd (omega arith)
  find_last_in-append_some (x ∷ xs) ys i (suc k) r q h =
      last-there x (xs ++ ys) (find_last_in-append_some xs ys i k r (omega arith) h)

  find_last_in-append_none :
      (xs ys : List (Row K V))
      → find_last_in p ys ≡ none
      → find_last_in p (xs ++ ys) ≡ find_last_in p xs
  unfolding find_last_in
  find_last_in-append_none [] ys h = h
  find_last_in-append_none (x ∷ xs) ys h = let ih = find_last_in-append_none xs ys h in rw (ih) refl

module _ {ℓ} {K V : Type ℓ} where
  -- The result of a scan backwards for a search.
  abbrev pub last_answer : Option (ℕ × Row K V) → ScanResult K V
  last_answer none = hit_eof
  last_answer (some (i, r)) = found i r

  -- The number of rows that a scan backwards reads before `cur`.
  abbrev back_chunk : FlatFile K V → ℕ → ℕ
  back_chunk f cur = if ltb cur f.num_buffered then cur else f.num_buffered

  back_block : FlatFile K V → ℕ → List (Row K V)
  back_block f cur = take (back_chunk f cur) (drop (cur - f.num_buffered) f.rows)

  module _ (f : FlatFile K V) (p : Row K V → Bool) (valid : IsValid f) (cur : ℕ) (h : 0 < cur)
      (inside : cur ≤ length f.rows) where
    length-back_block : length (back_block f cur) ≡ back_chunk f cur
    unfolding back_block
    length-back_block =
        let e = length-take (back_chunk f cur) (drop (cur - f.num_buffered) f.rows) in
        let d = length-drop (cur - f.num_buffered) f.rows in ground arith

    split-back_block : take cur f.rows ≡ take (cur - f.num_buffered) f.rows ++ back_block f cur
    unfolding back_block
    split-back_block =
        let from = cur - f.num_buffered in
        let q : cur ≡ from + back_chunk f cur = ground arith in
        sym (take-append-drop from (take cur f.rows))
        ∙ ap₂ (λ xs ys. xs ++ ys) (take-take from cur f.rows (omega arith))
            (ap (λ k. drop from (take k f.rows)) q ∙ drop-take_add from (back_chunk f cur) f.rows)

    scan_backwards-found :
        (fuel i : ℕ) (r : Row K V)
        → find_last_in p (back_block f cur) ≡ some (i, r)
        → scan_backwards f p (suc fuel) cur
          ≡ done
              (load f (cur - f.num_buffered) (back_chunk f cur), found (cur - f.num_buffered + i) r)
    unfolding scan_backwards back_block
    scan_backwards-found fuel i r e = let l = length-back_block in ground arith

    scan_backwards-past :
        (fuel : ℕ)
        → find_last_in p (back_block f cur) ≡ none
        → scan_backwards f p (suc fuel) cur
          ≡ scan_backwards
              (load f (cur - f.num_buffered) (back_chunk f cur))
              p
              fuel
              (cur - f.num_buffered)
    unfolding scan_backwards back_block
    scan_backwards-past fuel e = let l = length-back_block in ground arith

    loaded-IsValid : IsValid (load f (cur - f.num_buffered) (back_chunk f cur))
    unfolding back_block
    loaded-IsValid =
        load-IsValid valid (cur - f.num_buffered) (back_chunk f cur) (ground arith)
          length-back_block

-- What a scan backwards of `f` before `cur` comes to.
pub record Rescanned {ℓ} {K V : Type ℓ} (f : FlatFile K V) (p : Row K V → Bool) (cur : ℕ)
    (s : FlatFile K V × ScanResult K V) : Type ℓ where
  pub valid : IsValid (s.0)
  pub same_rows : (s.0).rows ≡ f.rows
  pub answers : s.1 ≡ last_answer (find_last_in p (take cur f.rows))

module _ {ℓ} {K V : Type ℓ} (p : Row K V → Bool) where
  back_at_start :
      (f : FlatFile K V)
      → IsValid f
      → (fuel cur : ℕ) → cur ≡ 0
      → Returns (scan_backwards f p fuel cur) (Rescanned f p cur)
  unfolding scan_backwards find_last_in
  back_at_start f valid zero cur e = (
    (f, hit_eof),
    ground arith,
    record { valid = valid; same_rows = refl; answers = rw (e) refl },
  )
  back_at_start f valid (suc fuel) cur e = (
    (f, hit_eof),
    ground arith,
    record { valid = valid; same_rows = refl; answers = rw (e) refl },
  )

  pub scan_backwards-Rescanned :
      (f : FlatFile K V)
      → IsValid f
      → (fuel cur : ℕ) → cur ≤ length f.rows
      → cur ≤ fuel
      → Returns (scan_backwards f p fuel cur) (Rescanned f p cur)
  unfolding load
  scan_backwards-Rescanned f valid zero cur inside enough =
      back_at_start f valid zero cur (omega arith)
  scan_backwards-Rescanned f valid (suc fuel) cur inside enough = elim (ℕ_discrete cur 0) [
    | yes e ↦ back_at_start f valid (suc fuel) cur e
    | no ne ↦
        let h : 0 < cur = omega arith in
        let from = cur - f.num_buffered in
        let split = split-back_block f p valid cur h inside in
        let block = back_block f cur in
        elim (Option-cases (find_last_in p block)) [
          | inr ((i, r), e) ↦
              let size : length (take from f.rows) + i ≡ from + i =
                omega (arith, length-take from f.rows) in
              let whole : find_last_in p (take cur f.rows) ≡ some (from + i, r) =
                ap (find_last_in p) split
                ∙ find_last_in-append_some p (take from f.rows) block i (from + i) r size e in
              (
                (load f from (back_chunk f cur), found (from + i) r),
                scan_backwards-found f p valid cur h inside fuel i r e,
                record {
                  valid = loaded-IsValid f p valid cur h inside;
                  same_rows = refl;
                  answers = ap last_answer (sym whole);
                },
              )
          | inl e ↦
              let (s, run, rest) =
                scan_backwards-Rescanned (load f from (back_chunk f cur))
                  (loaded-IsValid f p valid cur h inside) fuel from (omega arith)
                  (let q = valid.positive in omega arith) in
              let whole : find_last_in p (take cur f.rows) ≡ find_last_in p (take from f.rows) =
                ap (find_last_in p) split ∙ find_last_in-append_none p (take from f.rows) block e in
              (
                s,
                scan_backwards-past f p valid cur h inside fuel e ∙ run,
                record {
                  valid = rest.valid;
                  same_rows = rest.same_rows;
                  answers = rest.answers ∙ ap last_answer (sym whole);
                },
              )
        ]
  ]
