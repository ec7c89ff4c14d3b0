-- ===== src/FlatFile/Append.antt =====
-- `flat_file_insert` of src/dictionary/flat_file/flat_file.c on a file that is not sorted.
use iondb.Base.{
  ℕ, suc, ◌+◌, ◌≤◌, ◌<◌, ◌≡◌, refl, ◌∙◌, ap, false, List, [], ◌∷◌, ◌++◌, length, take, arith, set,
  length-append, length-set, take-append_end, take-set_end, ℕ_discrete,
}
use iondb.Base.Run.{done, Returns}
use iondb.FlatFile.Contents.{contents, IsValid, uncached-IsValid}
use iondb.FlatFile.Access.{rewritten, write_row-inside, write_row-end}
use iondb.FlatFile.Operations.{insert, append_row, new_row}
use iondb.FlatFile.{FlatFile, Row, write_row}
use iondb.System.{Status, status_ok}

-- What `insert` does to `f`: the new row is the last.
pub record Appended {ℓ} {K V : Type ℓ} (f : FlatFile K V) (key : K) (value : V)
    (r : Status × FlatFile K V) : Type ℓ where
  pub valid : IsValid (r.1)
  pub status : r.0 ≡ status_ok 1
  pub appended : contents (r.1) ≡ contents f ++ new_row key value ∷ []
  pub compare : (r.1).compare ≡ f.compare
  pub sorted_mode : (r.1).sorted_mode ≡ f.sorted_mode

module _ {ℓ} {K V : Type ℓ} {f : FlatFile K V} (valid : IsValid f) (key : K) (value : V) where
  append_row_lem :
      (rows : List (Row K V))
      → write_row f f.eof_position (new_row key value) ≡ done (rewritten f rows)
      → append_row f key value
        ≡ done (status_ok 1, record (rewritten f rows) { eof_position = f.eof_position + 1 })
  unfolding append_row
  append_row_lem rows e = rw (e) refl

  written :
      (rows : List (Row K V))
      → write_row f f.eof_position (new_row key value) ≡ done (rewritten f rows)
      → f.eof_position + 1 ≤ length rows
      → take (f.eof_position + 1) rows ≡ contents f ++ new_row key value ∷ []
      → Returns (append_row f key value) (Appended f key value)
  written rows run h e = (
    (status_ok 1, record (rewritten f rows) { eof_position = f.eof_position + 1 }),
    append_row_lem rows run,
    record {
      valid = uncached-IsValid valid f.buffer valid.sized rows (f.eof_position + 1) h;
      status = refl;
      appended = e;
      compare = refl;
      sorted_mode = refl;
    },
  )

  append_row-Appended : Returns (append_row f key value) (Appended f key value)
  append_row-Appended = elim (ℕ_discrete f.eof_position (length f.rows)) [
    | yes e ↦
        written (f.rows ++ new_row key value ∷ [])
          (write_row-end f f.eof_position (new_row key value) e)
          (omega (arith, length-append f.rows (new_row key value ∷ [])))
          (one (λ k. take k (f.rows ++ new_row key value ∷ []))
            ∙ take-append_end f.eof_position f.rows (new_row key value) e)
    | no ne ↦
        let h : f.eof_position < length f.rows = let a = valid.in_file in omega arith in
        written (set f.rows f.eof_position (new_row key value))
          (write_row-inside f f.eof_position (new_row key value) h)
          (omega (arith, length-set f.rows f.eof_position (new_row key value)))
          (one (λ k. take k (set f.rows f.eof_position (new_row key value)))
            ∙ take-set_end f.eof_position f.rows (new_row key value) h)
  ]
    where
      one : (F : ℕ → List (Row K V)) → F (f.eof_position + 1) ≡ F (suc f.eof_position)
      one F = let e : f.eof_position + 1 ≡ suc f.eof_position = omega arith in ap F e

  insert_lem : f.sorted_mode ≡ false → insert f key value ≡ append_row f key value
  unfolding insert
  insert_lem mode = ground arith

  -- On a valid file that is not sorted, `insert` ends with success and keeps the file valid; the rows
  -- after it are the rows before it and the new one.
  pub insert-Appended : f.sorted_mode ≡ false → Returns (insert f key value) (Appended f key value)
  insert-Appended mode =
      let (r, run, appended) = append_row-Appended in (r, insert_lem mode ∙ run, appended)
