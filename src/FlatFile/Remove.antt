-- ===== src/FlatFile/Remove.antt =====
-- One round of `flat_file_delete` of src/dictionary/flat_file/flat_file.c: the last row is written
-- over the row that goes, and marked as empty.
use iondb.Base.{
  ℕ, suc, ◌+◌, ◌-◌, ◌≤◌, ◌<◌, ◌≡◌, ◌≢◌, refl, sym, ◌∙◌, ap, Bool, some, List, length, get_elem?,
  take, arith, set, length-set, take-set, count, indicator, count-set, count-take-suc, take-take,
  get_elem?-some, get_elem?-set_ne, ℕ_discrete,
}
use iondb.Base.Int.{pos}
use iondb.Base.Run.{done, Returns}
use iondb.FlatFile.Contents.{contents, IsValid, uncached-IsValid}
use iondb.FlatFile.Access.{rewritten, read_row-Read}
use iondb.FlatFile.Operations.{remove_row}
use iondb.FlatFile.{FlatFile, Row, vacant, Outcome, success, write_row, write_status, read_row}

-- What the removal of the row `i` of `f` comes to: the last row takes its place.
pub record Removed {ℓ} {K V : Type ℓ} (f : FlatFile K V) (i : ℕ)
    (s : FlatFile K V × Outcome (Unit {0})) : Type ℓ where
  pub valid : IsValid (s.0)
  pub succeeded : s.1 ≡ success tt
  pub shorter : suc (s.0).eof_position ≡ f.eof_position
  pub moved :
      (row : Row K V) × (get_elem? f.rows (f.eof_position - 1) ≡ some row)
      × (contents (s.0) ≡ take (f.eof_position - 1) (set f.rows i row))
  pub compare : (s.0).compare ≡ f.compare
  pub sorted_mode : (s.0).sorted_mode ≡ f.sorted_mode

module _ {ℓ} {K V : Type ℓ} where
  -- The file after its last row is cut off.
  abbrev cut_off : FlatFile K V → List (Row K V) → ℕ → FlatFile K V
  cut_off f rows eof = record (rewritten f rows) { eof_position = eof }

  module _ (f : FlatFile K V) (last : ℕ) (h : f.eof_position - 1 ≡ last) where
    remove_row-last :
        (row : Row K V)
        → get_elem? f.rows last ≡ some row
        → remove_row f last
          ≡ done (cut_off f (set f.rows last (record row { row_status = vacant })) last, success tt)
    unfolding remove_row write_status
    remove_row-last row e = ground arith

    remove_row-other :
        (i : ℕ) (row : Row K V) (b : List (Row K V))
        → last ≢ i
        → i < length f.rows
        → read_row f (pos last) ≡ done (record f { buffer = b }, success row)
        → get_elem? (set f.rows i row) last ≡ some row
        → remove_row f i
          ≡ done (
            cut_off
                (record f { buffer = b })
                (set (set f.rows i row) last (record row { row_status = vacant }))
                last,
            success tt,
          )
    unfolding remove_row write_status write_row
    remove_row-other i row b ne hi r e = ground arith

module _ {ℓ} {K V : Type ℓ} {f : FlatFile K V} (valid : IsValid f) (i : ℕ)
    (h : i < f.eof_position) where
  last : ℕ
  last = f.eof_position - 1

  last_row : (row : Row K V) × (get_elem? f.rows last ≡ some row)
  unfolding last
  last_row = let a = valid.in_file in get_elem?-some f.rows last (omega arith)

  inside : (last < length f.rows) × (suc last ≡ f.eof_position) × (i ≤ last)
  unfolding last
  inside = let a = valid.in_file in (omega arith, omega arith, omega arith)

  pub remove_row-Removed : Returns (remove_row f i) (Removed f i)
  unfolding last
  remove_row-Removed =
      let (row, e) = last_row in
      let (low, exact, here) = inside in
      let empty = record row { row_status = vacant } in
      elim (ℕ_discrete last i) [
        | yes q ↦ (
          (cut_off f (set f.rows last empty) last, success tt),
          ap (remove_row f) (sym q) ∙ remove_row-last f last refl row e,
          record {
            valid =
                uncached-IsValid valid f.buffer valid.sized (set f.rows last empty) last
                  (omega (arith, length-set f.rows last empty));
            succeeded = refl;
            shorter = exact;
            moved = (
              row,
              e,
              take-set last f.rows last empty (omega arith)
                  ∙ sym (take-set last f.rows i row (omega arith)),
            );
            compare = refl;
            sorted_mode = refl;
          },
        )
        | no ne ↦
            let (s, run, (b, sized, reads)) = read_row-Read valid last e in
            let rows = set f.rows i row in
            (
              (cut_off (record f { buffer = b }) (set rows last empty) last, success tt),
              remove_row-other f last refl i row b ne (omega arith) (run ∙ ap done reads)
                  (get_elem?-set_ne f.rows i last row (λ q. ne (sym q)) ∙ e),
              record {
                valid =
                    uncached-IsValid valid b sized (set rows last empty) last
                      (omega (arith, length-set rows last empty, length-set f.rows i row));
                succeeded = refl;
                shorter = exact;
                moved = (row, e, take-set last rows last empty (omega arith));
                compare = refl;
                sorted_mode = refl;
              },
            )
      ]

module _ {ℓ} {K V : Type ℓ} {f : FlatFile K V} {i : ℕ} {s : FlatFile K V × Outcome (Unit {0})}
    (removed : Removed f i s) (h : i < f.eof_position) where
  -- The rows that are left are the rows before, less the row `i`.
  pub count-Removed :
      (q : Row K V → Bool) {row : Row K V}
      → get_elem? f.rows i ≡ some row
      → count q (contents (s.0)) + indicator (q row) ≡ count q (contents f)
  count-Removed q {row} e =
      let (moved, at, shape) = removed.moved in
      let final = f.eof_position - 1 in
      let exact : suc final ≡ f.eof_position = omega arith in
      let all : count q (contents f) ≡ count q (take final f.rows) + indicator (q moved) =
        ap (λ k. count q (take k f.rows)) (sym exact) ∙ count-take-suc q f.rows final at in
      let left : count q (contents (s.0)) ≡ count q (take final (set f.rows i moved)) =
        ap (count q) shape in
      elim (ℕ_discrete final i) [
        | yes z ↦
            let same : row ≡ moved = cc (e, at, ap (get_elem? f.rows) z) in
            let rest : count q (take final (set f.rows i moved)) ≡ count q (take final f.rows) =
              ap (count q) (take-set final f.rows i moved (omega arith)) in
            let equal : indicator (q row) ≡ indicator (q moved) = ap (λ x. indicator (q x)) same in
            omega arith
        | no ne ↦ let swap = count-set q f.rows final i moved (omega arith) e in omega arith
      ]

  -- The rows before the row `i` stay.
  pub take-Removed : take i (contents (s.0)) ≡ take i (contents f)
  take-Removed =
      let (moved, at, shape) = removed.moved in
      let final = f.eof_position - 1 in
      ap (take i) shape
      ∙ take-take i final (set f.rows i moved) (omega arith)
      ∙ take-set i f.rows i moved (omega arith)
      ∙ sym (take-take i f.eof_position f.rows (omega arith))
