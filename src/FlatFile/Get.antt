-- ===== src/FlatFile/Get.antt =====
-- `flat_file_get` and `flat_file_insert` of src/dictionary/flat_file/flat_file.c on a file that is
-- not sorted.
use iondb.Base.{
  ℕ, ◌+◌, ◌≡◌, refl, sym, ◌∙◌, ap, Bool, false, Option, none, some, List, take, arith, inl, inr,
  Option-cases,
}
use mathlib.Core.Path.{ap₂}
use iondb.Base.Run.{done, Returns}
use iondb.FlatFile.Contents.{contents, cached, IsValid}
use iondb.FlatFile.Operations.{get, get_unsorted}
use iondb.FlatFile.Scanning.{Scanned, answer, scan_forwards_from-Scanned}
use iondb.FlatFile.{
  FlatFile, Row, ScanResult, found, hit_eof, find_in, predicate_key_match, scan_forwards_from,
}
use iondb.System.{Status, status_ok, status_error, err_item_not_found}

module _ {ℓ} {K V : Type ℓ} where
  -- What `get` returns for the search through all rows.
  abbrev pub looked_up : Option (ℕ × Row K V) → Status × Option V
  looked_up none = (status_error err_item_not_found, none)
  looked_up (some (i, row)) = (status_ok 1, some row.value)

  -- The rows, the mode and the comparison of a file are those of another.
  pub record SameData (f g : FlatFile K V) : Type ℓ where
    pub rows : g.rows ≡ f.rows
    pub eof_position : g.eof_position ≡ f.eof_position
    pub compare : g.compare ≡ f.compare
    pub sorted_mode : g.sorted_mode ≡ f.sorted_mode

  -- The result of `get` on `f`, and the file after it.
  pub record Got (f : FlatFile K V) (key : K) (r : Status × FlatFile K V × Option V) : Type ℓ where
    pub valid : IsValid (r.1)
    pub same : SameData f (r.1)
    pub answers : (r.0, r.2) ≡ looked_up (find_in (predicate_key_match f key) (contents f))

  SameData-cached :
      (f : FlatFile K V) {g : FlatFile K V} {b : List (Row K V)} {region : Option ℕ} {num : ℕ}
      → g ≡ cached f b region num
      → SameData f g
  SameData-cached f e = record {
    rows = ap (λ (x : FlatFile K V). x.rows) e;
    eof_position = ap (λ (x : FlatFile K V). x.eof_position) e;
    compare = ap (λ (x : FlatFile K V). x.compare) e;
    sorted_mode = ap (λ (x : FlatFile K V). x.sorted_mode) e;
  }

  pub Scanned-SameData :
      {f : FlatFile K V} {predicate : Row K V → Bool} {cur : ℕ} {s : FlatFile K V × ScanResult K V}
      → Scanned f predicate cur s
      → SameData f (s.0)
  Scanned-SameData {f} sc = let (b, region, num, e) = sc.same in SameData-cached f e

  pub contents-SameData : {f g : FlatFile K V} → SameData f g → contents g ≡ contents f
  contents-SameData same = ap₂ take same.eof_position same.rows

  module _ (f : FlatFile K V) (key : K) (s : FlatFile K V × ScanResult K V)
      (mode : f.sorted_mode ≡ false)
      (run : scan_forwards_from f none (predicate_key_match f key) ≡ done s) where
    get-found :
        (i : ℕ) (row : Row K V)
        → s.1 ≡ found i row
        → get f key ≡ done (status_ok 1, s.0, some row.value)
    unfolding get get_unsorted
    get-found i row e = ground arith

    get-missing : s.1 ≡ hit_eof → get f key ≡ done (status_error err_item_not_found, s.0, none)
    unfolding get get_unsorted
    get-missing e = ground arith

module _ {ℓ} {K V : Type ℓ} {f : FlatFile K V} (valid : IsValid f)
    (mode : f.sorted_mode ≡ false) where
  -- On a valid file that is not sorted, `get` ends; it returns the value of the first occupied row
  -- with the key or `err_item_not_found`, keeps the file valid, and leaves its rows as they are.
  pub get-Got : (key : K) → Returns (get f key) (Got f key)
  get-Got key =
      let (s, run, sc) =
        scan_forwards_from-Scanned (predicate_key_match f key) f valid none 0 (inl (refl, refl))
          (omega arith) in
      elim (Option-cases (find_in (predicate_key_match f key) (contents f))) [
        | inl e ↦ (
          (status_error err_item_not_found, s.0, none),
          get-missing f key s mode run (sc.answers ∙ ap (answer 0) e),
          record { valid = sc.valid; same = Scanned-SameData sc; answers = ap looked_up (sym e) },
        )
        | inr ((i, row), e) ↦ (
          (status_ok 1, s.0, some row.value),
          get-found f key s mode run i row (
              sc.answers
              ∙ ap (answer 0) e
              ∙ (let q : 0 + i ≡ i = omega arith in ap (λ k. found k row) q)),
          record { valid = sc.valid; same = Scanned-SameData sc; answers = ap looked_up (sym e) },
        )
      ]
