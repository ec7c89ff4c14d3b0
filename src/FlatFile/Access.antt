-- ===== src/FlatFile/Access.antt =====
-- `flat_file_read_row` and `flat_file_write_row` of src/dictionary/flat_file/flat_file.c on a valid
-- file.
use iondb.Base.{
  ℕ, ◌+◌, ◌-◌, ◌≤◌, ◌<◌, ◌≡◌, refl, ◌∙◌, ap, none, some, List, [], ◌∷◌, ◌++◌, ◌&&◌, length,
  get_elem?, set, arith, ltb, leb, inl, inr, Bool-cases, Option-cases,
}
use iondb.Base.Int.{pos}
use iondb.Base.Run.{done, fault, Returns}
use iondb.FlatFile.Contents.{IsValid}
use iondb.FlatFile.{FlatFile, Row, Outcome, success, read_miss, read_row, write_row}

-- The file with other rows and no loaded region.
abbrev pub rewritten {ℓ} : {K V : Type ℓ} → FlatFile K V → List (Row K V) → FlatFile K V
rewritten f rows = record f { rows = rows; current_loaded_region = none; num_in_buffer = 0 }

-- What a read of a row comes to: the row of the file, whether or not the buffer holds it.
abbrev pub Read {ℓ} :
    {K V : Type ℓ} → FlatFile K V → Row K V → FlatFile K V × Outcome (Row K V) → Type ℓ
Read {K = K} {V = V} f row s =
    (b : List (Row K V)) × (length b ≡ f.num_buffered)
    × (s ≡ (record f { buffer = b }, success row))

module _ {ℓ} {K V : Type ℓ} {f : FlatFile K V} (valid : IsValid f) (location : ℕ) {row : Row K V}
    (e : get_elem? f.rows location ≡ some row) where
  read_miss-Read : Returns (read_miss f location) (Read f row)
  unfolding read_miss
  read_miss-Read = rw (read_miss, e) (go f.buffer valid.sized)
    where
      go :
          (b : List (Row K V))
          → length b ≡ f.num_buffered
          → Returns
              (elim b [ [] ↦ fault | c ∷ cs ↦ done (record f { buffer = row ∷ cs }, success row) ])
              (Read f row)
      go [] h = absurd (let p = valid.positive in omega arith)
      go (c ∷ cs) h = ((record f { buffer = row ∷ cs }, success row), refl, (row ∷ cs, h, refl))

  miss :
      read_row f (pos location) ≡ read_miss f location
      → Returns (read_row f (pos location)) (Read f row)
  miss q = let (s, run, reads) = read_miss-Read in (s, q ∙ run, reads)

  pub read_row-Read : Returns (read_row f (pos location)) (Read f row)
  unfolding read_row
  read_row-Read = elim (Option-cases f.current_loaded_region) [
    | inl n ↦ miss (ground arith)
    | inr (region, s) ↦
        elim (Bool-cases (leb region location && ltb location (region + f.num_in_buffer))) [
          | inr t ↦ miss (ground arith)
          | inl t ↦
              let low : region ≤ location = ground arith in
              let high : location < region + f.num_in_buffer = ground arith in
              let q : region + (location - region) ≡ location = omega arith in
              let at : get_elem? f.buffer (location - region) ≡ some row =
                valid.cache region s (location - region) (omega arith)
                ∙ ap (get_elem? f.rows) q
                ∙ e in
              ((f, success row), ground arith, (f.buffer, valid.sized, refl))
        ]
  ]

module _ {ℓ} {K V : Type ℓ} (f : FlatFile K V) (location : ℕ) (row : Row K V) where
  pub write_row-inside :
      location < length f.rows
      → write_row f location row ≡ done (rewritten f (set f.rows location row))
  unfolding write_row
  write_row-inside h = ground arith

  pub write_row-end :
      location ≡ length f.rows → write_row f location row ≡ done (rewritten f (f.rows ++ row ∷ []))
  unfolding write_row
  write_row-end h = ground arith
