-- ===== src/FlatFile/Scanning.antt =====
-- `flat_file_scan` of src/dictionary/flat_file/flat_file.c in the forward direction is a search
-- through the rows of the file, whatever the size of the buffer.
use iondb.Base.{
  ℕ, zero, suc, ◌+◌, ◌≤◌, ◌<◌, ◌≡◌, refl, sym, ◌∙◌, ap, Bool, false, Option, none, some, List, [],
  ◌∷◌, ◌++◌, length, take, drop, arith, ltb, drop-split, drop-take, ◌⊎◌, inl, inr, Bool-cases,
  Option-cases, ℕ_discrete, ◌-◌, leb, ◌&&◌, true, get_elem?, get_elem?-append, lt-of-get_elem?,
}
use iondb.Base.Int.{pos}
use iondb.FlatFile.Matches.{find_in-First}
use mathlib.Core.Path.{subst}
use iondb.Base.Run.{done, Returns}
use iondb.FlatFile.Contents.{contents, cached, chunk, IsValid, length-chunk, load-IsValid}
use iondb.FlatFile.{
  FlatFile, Row, ScanResult, found, hit_eof, failed, success, find_in, load, read_row,
  scan_forwards, scan_forwards_from,
}

module _ {ℓ} {K V : Type ℓ} where
  -- An index into the rows after the first `n`, as one into all.
  abbrev pub shifted : ℕ → Option (ℕ × Row K V) → Option (ℕ × Row K V)
  shifted n none = none
  shifted n (some (i, r)) = some (n + i, r)

  -- The result of a scan for a search that began at `cur`.
  abbrev pub answer : ℕ → Option (ℕ × Row K V) → ScanResult K V
  answer cur none = hit_eof
  answer cur (some (i, r)) = found (cur + i) r

  place : ScanResult K V → ℕ
  place (found i r) = i
  place hit_eof = 0
  place (failed e) = 0

  row_of : Row K V → ScanResult K V → Row K V
  row_of d (found i r) = r
  row_of d hit_eof = d
  row_of d (failed e) = d

  answer-shifted :
      (cur n : ℕ) (o : Option (ℕ × Row K V)) → answer (cur + n) o ≡ answer cur (shifted n o)
  answer-shifted cur n none = refl
  answer-shifted cur n (some (i, r)) =
      let e : cur + n + i ≡ cur + (n + i) = omega arith in ap (λ k. found k r) e

  module _ (predicate : Row K V → Bool) where
    find_in-append_some :
        (xs ys : List (Row K V)) {a : ℕ × Row K V}
        → find_in predicate xs ≡ some a
        → find_in predicate (xs ++ ys) ≡ some a
    unfolding find_in
    find_in-append_some [] ys h = ground arith
    find_in-append_some (x ∷ xs) ys h = elim (Bool-cases (predicate x)) [
      | inl t ↦ ground arith
      | inr t ↦ elim (Option-cases (find_in predicate xs)) [
        | inl e ↦ ground arith
        | inr (b, e) ↦ let ih = find_in-append_some xs ys e in ground arith
      ]
    ]

    find_in-append_none :
        (xs ys : List (Row K V))
        → find_in predicate xs ≡ none
        → find_in predicate (xs ++ ys) ≡ shifted (length xs) (find_in predicate ys)
    unfolding find_in
    find_in-append_none [] ys h = elim (Option-cases (find_in predicate ys)) [
      | inl e ↦ rw (e)
      | inr ((i, r), e) ↦
          let q : i ≡ 0 + i = omega arith in
          let w : some (i, r) ≡ shifted 0 (some (i, r)) =
            ap {B = Option (ℕ × Row K V)} (λ k. some (k, r)) q in
          rw (e) w
    ]
    find_in-append_none (x ∷ xs) ys h = elim (Bool-cases (predicate x)) [
      | inl t ↦ ground arith
      | inr t ↦ elim (Option-cases (find_in predicate xs)) [
        | inr (b, e) ↦ ground arith
        | inl e ↦
            let ih = find_in-append_none xs ys e in
            elim (Option-cases (find_in predicate ys)) [
              | inl q ↦ ground arith
              | inr ((i, r), q) ↦ ground arith
            ]
      ]
    ]

-- What a scan forwards of `f` from `cur` comes to: the answer is that of a search through the rows,
-- only the buffer changes, and it holds the row that is found.
pub record Scanned {ℓ} {K V : Type ℓ} (f : FlatFile K V) (predicate : Row K V → Bool) (cur : ℕ)
    (s : FlatFile K V × ScanResult K V) : Type ℓ where
  pub valid : IsValid (s.0)
  pub same : (b : List (Row K V)) × (region : Option ℕ) × (num : ℕ) × (s.0 ≡ cached f b region num)
  pub hit : (i : ℕ) (r : Row K V) → s.1 ≡ found i r → read_row (s.0) (pos i) ≡ done (s.0, success r)
  pub answers : s.1 ≡ answer cur (find_in predicate (drop cur (contents f)))

module _ {ℓ} {K V : Type ℓ} {f : FlatFile K V} (predicate : Row K V → Bool) where
  scan_forwards-end : (fuel : ℕ) → scan_forwards f predicate fuel f.eof_position ≡ done (f, hit_eof)
  unfolding scan_forwards
  scan_forwards-end zero = ground arith
  scan_forwards-end (suc fuel) = ground arith

  module _ (valid : IsValid f) (fuel cur : ℕ) (h : cur < f.eof_position) where
    scan_forwards-found :
        (i : ℕ) (r : Row K V)
        → find_in predicate (take (chunk f cur) (drop cur f.rows)) ≡ some (i, r)
        → scan_forwards f predicate (suc fuel) cur
          ≡ done (load f cur (chunk f cur), found (cur + i) r)
    unfolding scan_forwards
    scan_forwards-found i r e = let l = length-chunk valid cur (omega arith) in ground arith

    scan_forwards-past :
        find_in predicate (take (chunk f cur) (drop cur f.rows)) ≡ none
        → scan_forwards f predicate (suc fuel) cur
          ≡ scan_forwards (load f cur (chunk f cur)) predicate fuel (cur + chunk f cur)
    unfolding scan_forwards
    scan_forwards-past e = let l = length-chunk valid cur (omega arith) in ground arith

module _ {ℓ} {K V : Type ℓ} (predicate : Row K V → Bool) where
  find_in-split :
      (f : FlatFile K V) (cur num : ℕ)
      → cur + num ≤ f.eof_position
      → drop cur (contents f) ≡ take num (drop cur f.rows) ++ drop (cur + num) (contents f)
  find_in-split f cur num h = drop-split num cur f.eof_position f.rows h

  finished :
      (f : FlatFile K V)
      → IsValid f
      → (fuel cur : ℕ) → f.eof_position ≡ cur
      → Returns (scan_forwards f predicate fuel cur) (Scanned f predicate cur)
  unfolding find_in
  finished f valid fuel cur e =
      subst (λ c. Returns (scan_forwards f predicate fuel c) (Scanned f predicate c)) e
        (
          (f, hit_eof),
          scan_forwards-end predicate fuel,
          record {
            valid = valid;
            same = (f.buffer, f.current_loaded_region, f.num_in_buffer, refl);
            hit = λ i r e. absurd (cc);
            answers = rw (drop-take f.eof_position f.rows) refl;
          },
        )

  module _ (f : FlatFile K V) (valid : IsValid f) (cur : ℕ) (h : cur < f.eof_position) where
    chunk-le : (cur + chunk f cur ≤ f.eof_position) × (chunk f cur ≤ f.num_buffered)
    chunk-le = (ground arith, ground arith)

    loaded-IsValid : IsValid (load f cur (chunk f cur))
    loaded-IsValid =
        load-IsValid valid cur (chunk f cur) (chunk-le.1) (length-chunk valid cur (omega arith))

    -- The row that is found is in the buffer.
    loaded-hit :
        (i : ℕ) (r : Row K V)
        → find_in predicate (take (chunk f cur) (drop cur f.rows)) ≡ some (i, r)
        → read_row (load f cur (chunk f cur)) (pos (cur + i))
          ≡ done (load f cur (chunk f cur), success r)
    unfolding load read_row
    loaded-hit i r e =
        let block = take (chunk f cur) (drop cur f.rows) in
        let first = find_in-First predicate block i r e in
        let lt : i < chunk f cur =
          omega (arith, lt-of-get_elem? block i (first.at), length-chunk valid cur (omega arith)) in
        let at : get_elem? (block ++ drop (chunk f cur) f.buffer) (cur + i - cur) ≡ some r =
          (let q : cur + i - cur ≡ i = omega arith in
            ap (get_elem? (block ++ drop (chunk f cur) f.buffer)) q)
          ∙ get_elem?-append block (drop (chunk f cur) f.buffer) i
              (omega (arith, lt-of-get_elem? block i (first.at)))
          ∙ first.at in
        let inside : (leb cur (cur + i) && ltb (cur + i) (cur + chunk f cur)) ≡ true =
          ground arith in
        rw (inside, at) refl

    here :
        (fuel i : ℕ) (r : Row K V)
        → find_in predicate (take (chunk f cur) (drop cur f.rows)) ≡ some (i, r)
        → Returns (scan_forwards f predicate (suc fuel) cur) (Scanned f predicate cur)
    unfolding load place row_of
    here fuel i r e = (
      (load f cur (chunk f cur), found (cur + i) r),
      scan_forwards-found predicate valid fuel cur h i r e,
      record {
        valid = loaded-IsValid;
        hit = λ j q k.
            subst
              (λ x.
                read_row (load f cur (chunk f cur)) (pos (place x))
                ≡ done (load f cur (chunk f cur), success (row_of r x)))
              k (loaded-hit i r e);
        same = (
          take (chunk f cur) (drop cur f.rows) ++ drop (chunk f cur) f.buffer,
          some cur,
          chunk f cur,
          refl,
        );
        answers =
            let w : find_in predicate (drop cur (contents f)) ≡ some (i, r) =
              rw (find_in-split f cur (chunk f cur) (chunk-le.0)) (
                find_in-append_some predicate (take (chunk f cur) (drop cur f.rows))
                  (drop (cur + chunk f cur) (contents f)) e) in
            ap (answer cur) (sym w);
      },
    )

    behind :
        {s : FlatFile K V × ScanResult K V}
        → find_in predicate (take (chunk f cur) (drop cur f.rows)) ≡ none
        → Scanned (load f cur (chunk f cur)) predicate (cur + chunk f cur) s
        → Scanned f predicate cur s
    unfolding load
    behind e rest = record {
      valid = rest.valid;
      same = rest.same;
      hit = rest.hit;
      answers =
          let l = length-chunk valid cur (omega arith) in
          let after = find_in predicate (drop (cur + chunk f cur) (contents f)) in
          let w : find_in predicate (drop cur (contents f)) ≡ shifted (chunk f cur) after =
            rw (find_in-split f cur (chunk f cur) (chunk-le.0)) (
              find_in-append_none predicate (take (chunk f cur) (drop cur f.rows))
                (drop (cur + chunk f cur) (contents f)) e
              ∙ ap (λ k. shifted k after) l) in
          rest.answers ∙ answer-shifted cur (chunk f cur) after ∙ ap (answer cur) (sym w);
    }

  -- A scan ends, and answers as the search through the rows from `cur` on.
  pub scan_forwards-Scanned :
      (f : FlatFile K V)
      → IsValid f
      → (fuel cur : ℕ) → cur ≤ f.eof_position
      → f.eof_position ≤ cur + fuel
      → Returns (scan_forwards f predicate fuel cur) (Scanned f predicate cur)
  unfolding load
  scan_forwards-Scanned f valid zero cur h enough = finished f valid zero cur (omega arith)
  scan_forwards-Scanned f valid (suc fuel) cur h enough = elim (ℕ_discrete f.eof_position cur) [
    | yes e ↦ finished f valid (suc fuel) cur e
    | no ne ↦
        let lt : cur < f.eof_position = omega arith in
        elim (Option-cases (find_in predicate (take (chunk f cur) (drop cur f.rows)))) [
          | inr ((i, r), e) ↦ here f valid cur lt fuel i r e
          | inl e ↦
              let (s, run, rest) =
                scan_forwards-Scanned (load f cur (chunk f cur)) (loaded-IsValid f valid cur lt)
                  fuel (cur + chunk f cur) ((chunk-le f valid cur lt).0)
                  (let p = valid.positive in ground arith) in
              (
                s,
                scan_forwards-past predicate valid fuel cur lt e ∙ run,
                behind f valid cur lt e rest,
              )
        ]
  ]

  -- `none` is the start of the rows.
  pub scan_forwards_from-Scanned :
      (f : FlatFile K V)
      → IsValid f
      → (start : Option ℕ) (cur : ℕ) → ((start ≡ none) × (cur ≡ 0)) ⊎ (start ≡ some cur)
      → cur ≤ f.eof_position
      → Returns (scan_forwards_from f start predicate) (Scanned f predicate cur)
  unfolding scan_forwards_from
  scan_forwards_from-Scanned f valid start cur (inl (e, z)) h =
      rw (e, z) (scan_forwards-Scanned f valid f.eof_position 0 (omega arith) (omega arith))
  scan_forwards_from-Scanned f valid start cur (inr e) h =
      let inside : ltb f.eof_position cur ≡ false = ground arith in
      rw (e, inside) (scan_forwards-Scanned f valid f.eof_position cur h (omega arith))
