-- ===== src/FlatFile/Update.antt =====
-- `flat_file_update` of src/dictionary/flat_file/flat_file.c on a file that is not sorted.
use iondb.Base.{
  ℕ, suc, ◌+◌, ◌<◌, ◌≡◌, refl, ◌∙◌, ap, false, none, some, [], ◌∷◌, ◌++◌, arith, inl, inr, ◌⊎◌,
  Option-cases, count,
}
use iondb.Base.Run.{done, Returns}
use iondb.FlatFile.Append.{insert-Appended}
use iondb.FlatFile.Contents.{contents, matches, IsValid}
use iondb.FlatFile.Get.{contents-SameData, Scanned-SameData}
use iondb.FlatFile.Matches.{find_in-none}
use iondb.FlatFile.Operations.{update, update_from, new_row}
use iondb.FlatFile.Rewrite.{rewrite_all, count-drop-set}
use iondb.FlatFile.Scanning.{Scanned, answer, scan_forwards_from-Scanned}
use iondb.FlatFile.UpdateLoop.{
  update_from-insert, update_from-found, as_answer, write_over, lt, update_from-Rewritten,
  after_write,
}
use iondb.FlatFile.{FlatFile, Row, ScanResult, find_in, predicate_key_match, scan_forwards_from}
use iondb.System.{Status, status_ok}

-- What `update` does to `f`: it writes every row with the key, and appends one where there is none.
pub record Upserted {ℓ} {K V : Type ℓ} (f : FlatFile K V) (key : K) (value : V)
    (r : Status × FlatFile K V) : Type ℓ where
  pub valid : IsValid (r.1)
  pub same_compare : (r.1).compare ≡ f.compare
  pub same_mode : (r.1).sorted_mode ≡ false
  pub outcome :
      ((count (matches f.compare key) (contents f) ≡ 0)
        × (r.0 ≡ status_ok 1)
        × (contents (r.1) ≡ contents f ++ new_row key value ∷ []))
      ⊎ ((0 < count (matches f.compare key) (contents f))
          × (r.0 ≡ status_ok (count (matches f.compare key) (contents f)))
          × (contents (r.1) ≡ rewrite_all (matches f.compare key) (new_row key value) (contents f)))

module _ {ℓ} {K V : Type ℓ} {f : FlatFile K V} (valid : IsValid f) (mode : f.sorted_mode ≡ false)
    (key : K) (value : V) where
  update_lem : update f key value ≡ update_from f key value (suc f.eof_position) none 0
  unfolding update
  update_lem = let e : f.eof_position + 1 ≡ suc f.eof_position = omega arith in ground arith

  module _ {s : FlatFile K V × ScanResult K V}
      (run : scan_forwards_from f none (predicate_key_match f key) ≡ done s)
      (sc : Scanned f (predicate_key_match f key) 0 s) where
    inserting :
        find_in (matches f.compare key) (contents f) ≡ none
        → Returns (update f key value) (Upserted f key value)
    inserting e =
        let (r, inserts, appended) =
          insert-Appended sc.valid key value ((Scanned-SameData sc).sorted_mode ∙ mode) in
        (
          r,
          update_lem
              ∙ update_from-insert key value f f.eof_position none 0 s run
                  (as_answer key value f.compare f valid refl mode 0 sc ∙ ap (answer 0) e)
              ∙ inserts,
          record {
            valid = appended.valid;
            same_compare = appended.compare ∙ (Scanned-SameData sc).compare;
            same_mode = appended.sorted_mode ∙ (Scanned-SameData sc).sorted_mode ∙ mode;
            outcome = inl (
              find_in-none (matches f.compare key) (contents f) e,
              appended.status,
              appended.appended
                  ∙ ap (λ rows. rows ++ new_row key value ∷ [])
                      (contents-SameData (Scanned-SameData sc)),
            );
          },
        )

    rewriting :
        (i : ℕ) (row : Row K V)
        → find_in (matches f.compare key) (contents f) ≡ some (i, row)
        → Returns (update f key value) (Upserted f key value)
    rewriting i row e =
        let o = write_over key value f.compare f valid refl mode 0 sc i row e in
        let h = lt key value f.compare f valid refl mode 0 sc i row e in
        let eof = o.same_eof in
        let (r, rest, w) =
          update_from-Rewritten key value f.compare o.after o.valid o.same_compare
            (o.same_mode ∙ mode) f.eof_position (suc (0 + i)) (omega arith) (omega arith) 0 in
        let done_all = after_write key value f.compare f 0 i row o 0 e w in
        let some_left =
          count-drop-set (matches f.compare key) (new_row key value) 0 i (0 + i) (contents f) row
            refl e in
        (
          r,
          update_lem
              ∙ update_from-found key value f f.eof_position none 0 s run (0 + i) row o.after
                  (as_answer key value f.compare f valid refl mode 0 sc ∙ ap (answer 0) e) o.writes
              ∙ rest,
          record {
            valid = w.valid;
            same_compare = w.same_compare;
            same_mode = w.same_mode;
            outcome = inr (
              omega arith,
              done_all.status
                  ∙ (let q : 0 + count (matches f.compare key) (contents f)
                          ≡ count (matches f.compare key) (contents f) =
                        omega arith in
                      ap status_ok q),
              done_all.rewrites,
            );
          },
        )

  -- On a valid file that is not sorted, `update` ends and keeps the file valid. Where no row has the
  -- key it appends a row; otherwise it writes the new key and value over every row that has the key,
  -- leaves the others as and where they are, and reports the number of rows that are written.
  pub update-Upserted : Returns (update f key value) (Upserted f key value)
  update-Upserted =
      let (s, run, sc) =
        scan_forwards_from-Scanned (predicate_key_match f key) f valid none 0 (inl (refl, refl))
          (omega arith) in
      elim (Option-cases (find_in (matches f.compare key) (contents f))) [
        | inl e ↦ inserting run sc e
        | inr ((i, row), e) ↦ rewriting run sc i row e
      ]
