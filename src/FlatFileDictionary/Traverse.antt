-- ===== src/FlatFileDictionary/Traverse.antt =====
-- A cursor of flat_file_dictionary_handler.c, read to its end, sees the rows that satisfy its
-- predicate, in the order of the file.
use iondb.Base.{
  ℕ, zero, suc, ◌+◌, ◌≤◌, ◌<◌, ◌≡◌, ◌≢◌, refl, sym, ◌∙◌, ap, Bool, Option, none, some, List, [],
  ◌∷◌, drop, length, arith, inl, inr, Option-cases, drop-drop, lt-of-get_elem?, get_elem?-drop,
}
use mathlib.Core.Path.{ap₂}
use iondb.Base.Int.{pos}
use iondb.Base.Run.{done, Returns, ◌>>=◌}
use iondb.Dictionary.{Predicate, predicate_predicate}
use iondb.FlatFile.{
  FlatFile, Row, ScanResult, found, hit_eof, success, find_in, read_row, scan_forwards_from,
}
use iondb.FlatFile.Contents.{contents, IsValid, length-contents}
use iondb.FlatFile.Get.{contents-SameData, Scanned-SameData}
use iondb.FlatFile.Matches.{find_in-First}
use iondb.FlatFile.Scanning.{answer, scan_forwards_from-Scanned}
use iondb.FlatFileDictionary.Steps.{
  cursor_at, selected, selected-none, selected-some, row_test-same, find_lem, read_all-found,
  read_all-end,
}
use iondb.FlatFileDictionary.{find, find_first, next, read_current, read_all, gather, row_test}
use iondb.System.{err_ok, cs_cursor_initialized, cs_cursor_active, cs_end_of_results}

module _ {ℓ} {K V : Type ℓ} (predicate : Predicate K)
    (searches : predicate ≢ predicate_predicate) where
  -- From the row after an active cursor on, the loop sees the rows that pass.
  read_all-active :
      (p : Row K V → Bool) (rows : List (Row K V)) (f : FlatFile K V)
      → IsValid f
      → row_test f predicate ≡ p
      → contents f ≡ rows
      → (fuel loc : ℕ) → loc < f.eof_position
      → f.eof_position ≤ loc + fuel
      → read_all fuel f (cursor_at cs_cursor_active predicate loc)
        ≡ done (selected p (drop (loc + 1) rows))
  read_all-active p rows f valid tests same zero loc h enough = absurd (omega arith)
  read_all-active p rows f valid tests same (suc fuel) loc h enough =
      let (s, run, sc) =
        scan_forwards_from-Scanned (row_test f predicate) f valid (some (loc + 1)) (loc + 1)
          (inr refl) (omega arith) in
      let answers : s.1 ≡ answer (loc + 1) (find_in p (drop (loc + 1) rows)) =
        sc.answers ∙ ap₂ (λ q rs. answer (loc + 1) (find_in q (drop (loc + 1) rs))) tests same in
      elim (Option-cases (find_in p (drop (loc + 1) rows))) [
        | inl e ↦
            read_all-end f predicate searches s fuel loc run (answers ∙ ap (answer (loc + 1)) e)
            ∙ ap done (sym (selected-none p (drop (loc + 1) rows) e))
        | inr ((i, row), e) ↦
            let k = loc + 1 + i in
            let at = answers ∙ ap (answer (loc + 1)) e in
            let first = find_in-First p (drop (loc + 1) rows) i row e in
            let size = length-contents valid in
            let same_size = ap length same in
            let lt : k < f.eof_position =
              omega (
                arith,
                lt-of-get_elem? rows k (sym (get_elem?-drop (loc + 1) i rows) ∙ first.at),
              ) in
            let eof = (Scanned-SameData sc).eof_position in
            let (b, region, num, shape) = sc.same in
            let rest =
              read_all-active p rows (s.0) sc.valid (row_test-same f predicate shape ∙ tests)
                (contents-SameData (Scanned-SameData sc) ∙ same) fuel k (omega arith)
                (omega arith) in
            let next_rows : drop (k + 1) rows ≡ drop (suc i) (drop (loc + 1) rows) =
              (let n : k + 1 ≡ loc + 1 + suc i = omega arith in ap (λ x. drop x rows) n)
              ∙ sym (drop-drop (suc i) (loc + 1) rows) in
            read_all-found f predicate searches s fuel loc k row run at (sc.hit k row at)
            ∙ rw (rest, next_rows) (ap done (sym (selected-some p (drop (loc + 1) rows) i row e)))
      ]

  module _ (f : FlatFile K V) (s : FlatFile K V × ScanResult K V)
      (run : scan_forwards_from f none (row_test f predicate) ≡ done s) where
    find-found :
        (i : ℕ) (row : Row K V)
        → s.1 ≡ found i row
        → find f predicate ≡ done (s.0, err_ok, cursor_at cs_cursor_initialized predicate i)
    unfolding find_first
    find-found i row e = find_lem f predicate searches s ∙ rw (run, e) refl

    find-end :
        s.1 ≡ hit_eof
        → find f predicate
          ≡ done (
            s.0,
            err_ok,
            record { status = cs_end_of_results; predicate = predicate; current_location = none },
          )
    unfolding find_first
    find-end e = find_lem f predicate searches s ∙ rw (run, e) refl

  read_all-initialized :
      (g : FlatFile K V) (fuel i : ℕ) (row : Row K V)
      → read_row g (pos i) ≡ done (g, success row)
      → read_all (suc fuel) g (cursor_at cs_cursor_initialized predicate i) ≡ (
          read_all fuel g (cursor_at cs_cursor_active predicate i) >>= λ rs.
          done ((row.key, row.value) ∷ rs))
  unfolding read_all next read_current gather
  read_all-initialized g fuel i row r = rw (r) refl

  read_all-ended :
      (g : FlatFile K V) (fuel : ℕ) (loc : Option ℕ)
      → read_all
          (suc fuel)
          g
          (record { status = cs_end_of_results; predicate = predicate; current_location = loc })
        ≡ done []
  unfolding read_all next gather
  read_all-ended g fuel loc = refl

  -- On a valid file, `find` for an equality, a range or all records ends without an error, and the
  -- loop that calls `next` until the cursor ends sees the records of the rows that satisfy the
  -- predicate, each once and in the order of the file; one call more than there are rows is enough.
  pub read_all-find :
      {f : FlatFile K V}
      → IsValid f
      → Returns (find f predicate) (λ r.
        (r.1 ≡ err_ok)
        × (read_all (suc f.eof_position) (r.0) (r.2)
            ≡ done (selected (row_test f predicate) (contents f))))
  read_all-find {f} valid =
      let p = row_test f predicate in
      let (s, run, sc) =
        scan_forwards_from-Scanned p f valid none 0 (inl (refl, refl)) (omega arith) in
      elim (Option-cases (find_in p (contents f))) [
        | inl e ↦
            let at = sc.answers ∙ ap (answer 0) e in
            (
              _,
              find-end f s run at,
              (
                refl,
                read_all-ended (s.0) f.eof_position none
                    ∙ ap done (sym (selected-none p (contents f) e)),
              ),
            )
        | inr ((i, row), e) ↦
            let k : 0 + i ≡ i = omega arith in
            let at : s.1 ≡ found i row = sc.answers ∙ ap (answer 0) e ∙ ap (λ x. found x row) k in
            let first = find_in-First p (contents f) i row e in
            let lt : i < f.eof_position =
              omega (arith, lt-of-get_elem? (contents f) i (first.at), length-contents valid) in
            let eof = (Scanned-SameData sc).eof_position in
            let (b, region, num, shape) = sc.same in
            let rest =
              read_all-active p (contents f) (s.0) sc.valid (row_test-same f predicate shape)
                (contents-SameData (Scanned-SameData sc)) f.eof_position i (omega arith)
                (omega arith) in
            let n : i + 1 ≡ suc i = omega arith in
            (
              _,
              find-found f s run i row at,
              (
                refl,
                read_all-initialized (s.0) f.eof_position i row (sc.hit i row at)
                    ∙ rw (rest) (
                        ap (λ x. done ((row.key, row.value) ∷ selected p (drop x (contents f)))) n
                        ∙ ap done (sym (selected-some p (contents f) i row e))),
              ),
            )
      ]
