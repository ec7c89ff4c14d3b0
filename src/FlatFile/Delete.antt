-- ===== src/FlatFile/Delete.antt =====
-- `flat_file_delete` of src/dictionary/flat_file/flat_file.c.
use iondb.Base.{
  ℕ, zero, suc, ◌+◌, ◌≤◌, ◌<◌, ◌≡◌, refl, ◌∙◌, ap, Bool, true, false, Option, none, some, List,
  get_elem?, take, drop, arith, inl, inr, ◌⊎◌, Option-cases, count, indicator, count-split, ◌==◌,
  if◌then◌else◌,
}
use mathlib.Core.Path.{subst}
use iondb.Base.Run.{done, Returns}
use iondb.FlatFile.Contents.{contents, matches, IsValid}
use iondb.FlatFile.Get.{contents-SameData, Scanned-SameData}
use iondb.FlatFile.Matches.{
  predicate_key_match_lem, First, find_in-none, find_in-First, First-drop, First-lt, First-at,
}
use iondb.FlatFile.Operations.{delete, delete_from, remove_row, deleted_status}
use iondb.FlatFile.Remove.{Removed, remove_row-Removed, count-Removed, take-Removed}
use iondb.FlatFile.Scanning.{Scanned, answer, scan_forwards_from-Scanned}
use iondb.FlatFile.{
  FlatFile, Row, ScanResult, found, hit_eof, success, find_in, predicate_key_match,
  scan_forwards_from,
}
use iondb.System.{Status, Comparison, status_ok, status_error, err_item_not_found}

-- The status for a number of rows that are gone.
abbrev pub status_of : ℕ → Status
status_of n = if n == 0 then status_error err_item_not_found else status_ok n

-- What the loop of `delete` does to a file with the given rows, of which `gone` are deleted before.
pub record Purged {ℓ} {K V : Type ℓ} (compare : K → K → Comparison) (key : K)
    (rows : List (Row K V)) (gone : ℕ) (r : Status × FlatFile K V) : Type ℓ where
  pub valid : IsValid (r.1)
  pub status : r.0 ≡ status_of (gone + count (matches compare key) rows)
  pub none_left : count (matches compare key) (contents (r.1)) ≡ 0
  pub kept :
      (q : Row K V → Bool)
      → ((row : Row K V) → matches compare key row ≡ true → q row ≡ false)
      → count q (contents (r.1)) ≡ count q rows
  pub same_compare : (r.1).compare ≡ compare
  pub same_mode : (r.1).sorted_mode ≡ false

module _ {ℓ} {K V : Type ℓ} (key : K) where
  module _ (f : FlatFile K V) (fuel : ℕ) (loc : Option ℕ) (gone : ℕ)
      (s : FlatFile K V × ScanResult K V)
      (run : scan_forwards_from f loc (predicate_key_match f key) ≡ done s) where
    delete_from-end :
        s.1 ≡ hit_eof → delete_from f key (suc fuel) loc gone ≡ done (status_of gone, s.0)
    unfolding delete_from deleted_status
    delete_from-end e = ground arith

    delete_from-found :
        (i : ℕ) (row : Row K V) (g : FlatFile K V)
        → s.1 ≡ found i row
        → remove_row (s.0) i ≡ done (g, success tt)
        → delete_from f key (suc fuel) loc gone ≡ delete_from g key fuel (some i) (gone + 1)
    unfolding delete_from
    delete_from-found i row g e r = ground arith

  module _ (compare : K → K → Comparison) where
    -- One row that matches is gone.
    one_less :
        {before after : List (Row K V)} {gone : ℕ} (row : Row K V) {r : Status × FlatFile K V}
        → matches compare key row ≡ true
        → ((q : Row K V → Bool) → count q after + indicator (q row) ≡ count q before)
        → Purged compare key after (gone + 1) r
        → Purged compare key before gone r
    one_less {before} {after} {gone} row m less d = record {
      valid = d.valid;
      status =
          let l = less (matches compare key) in
          let e : gone + 1 + count (matches compare key) after
              ≡ gone + count (matches compare key) before =
            ground arith in
          d.status ∙ ap status_of e;
      none_left = d.none_left;
      kept = λ q out.
          let l = less q in
          let o = out row m in
          let k = d.kept q out in let z : indicator (q row) ≡ 0 = ap indicator o in omega arith;
      same_compare = d.same_compare;
      same_mode = d.same_mode;
    }

    module _ (f : FlatFile K V) (valid : IsValid f) (fuel : ℕ) (loc : Option ℕ) (gone cur : ℕ)
        (clear : count (matches compare key) (take cur (contents f)) ≡ 0)
        {s : FlatFile K V × ScanResult K V}
        (run : scan_forwards_from f loc (predicate_key_match f key) ≡ done s)
        (sc : Scanned f (predicate_key_match f key) cur s) where
      ended :
          f.compare ≡ compare
          → f.sorted_mode ≡ false
          → s.1 ≡ hit_eof
          → find_in (matches compare key) (drop cur (contents f)) ≡ none
          → Returns (delete_from f key (suc fuel) loc gone) (Purged compare key (contents f) gone)
      ended same mode hit e = (
        (status_of gone, s.0),
        delete_from-end f fuel loc gone s run hit,
        record {
          valid = sc.valid;
          status =
              let z = zero_left in
              let q : gone ≡ gone + count p (contents f) = omega arith in ap status_of q;
          none_left = ap (count p) (contents-SameData (Scanned-SameData sc)) ∙ zero_left;
          kept = λ q out. ap (count q) (contents-SameData (Scanned-SameData sc));
          same_compare = (Scanned-SameData sc).compare ∙ same;
          same_mode = (Scanned-SameData sc).sorted_mode ∙ mode;
        },
      )
        where
          p : Row K V → Bool
          p = matches compare key

          zero_left : count p (contents f) ≡ 0
          zero_left =
              let a = find_in-none p (drop cur (contents f)) e in
              omega (arith, count-split p cur (contents f))

      -- The file after the removal of the row that is found.
      removal :
          (i : ℕ) (row : Row K V)
          → First (matches compare key) (contents f) i row
          → (g : FlatFile K V) × (remove_row (s.0) i ≡ done (g, success tt))
            × Removed (s.0) i (g, success tt)
            × (count (matches compare key) (take i (contents g)) ≡ 0)
            × ((q : Row K V → Bool)
                → count q (contents g) + indicator (q row) ≡ count q (contents f))
      removal i row first =
          let same = Scanned-SameData sc in
          let lt : i < (s.0).eof_position =
            let l = First-lt valid (matches compare key) first in
            let e = same.eof_position in omega arith in
          let at : get_elem? (s.0).rows i ≡ some row =
            ap (λ rows. get_elem? rows i) same.rows ∙ First-at valid (matches compare key) first in
          let ((g, t), runs, removed) = remove_row-Removed sc.valid i lt in
          (
            g,
            runs ∙ ap (λ o. done (g, o)) removed.succeeded,
            subst (λ o. Removed (s.0) i (g, o)) removed.succeeded removed,
            ap (count (matches compare key))
                  (take-Removed removed lt ∙ ap (take i) (contents-SameData same))
                ∙ first.before,
            λ q. count-Removed removed lt q at ∙ ap (count q) (contents-SameData same),
          )

    delete_from-Purged :
        (f : FlatFile K V)
        → IsValid f
        → f.compare ≡ compare
        → f.sorted_mode ≡ false
        → (fuel : ℕ) → f.eof_position < fuel
        → (loc : Option ℕ) (cur : ℕ) → ((loc ≡ none) × (cur ≡ 0)) ⊎ (loc ≡ some cur)
        → cur ≤ f.eof_position
        → count (matches compare key) (take cur (contents f)) ≡ 0
        → (gone : ℕ)
        → Returns (delete_from f key fuel loc gone) (Purged compare key (contents f) gone)
    delete_from-Purged f valid same mode zero enough loc cur start inside clear gone =
        absurd (omega arith)
    delete_from-Purged f valid same mode (suc fuel) enough loc cur start inside clear gone =
        let (s, run, sc) =
          scan_forwards_from-Scanned (predicate_key_match f key) f valid loc cur start inside in
        let p = matches compare key in
        let as_scanned : s.1 ≡ answer cur (find_in p (drop cur (contents f))) =
          sc.answers
          ∙ ap (λ p. answer cur (find_in p (drop cur (contents f)))) (predicate_key_match_lem f key)
          ∙ ap (λ c. answer cur (find_in (matches c key) (drop cur (contents f)))) same in
        elim (Option-cases (find_in p (drop cur (contents f)))) [
          | inl e ↦
              ended f valid fuel loc gone cur clear run sc same mode
                (as_scanned ∙ ap (answer cur) e) e
          | inr ((i, row), e) ↦
              let first =
                First-drop p cur (find_in-First p (drop cur (contents f)) i row e) clear in
              let (g, removes, removed, clear', less) =
                removal f valid fuel loc gone cur clear run sc (cur + i) row first in
              let after = Scanned-SameData sc in
              let shorter = removed.shorter in
              let eof = after.eof_position in
              let lt = First-lt valid p first in
              let (r, rest, d) =
                delete_from-Purged g removed.valid (removed.compare ∙ after.compare ∙ same)
                  (removed.sorted_mode ∙ after.sorted_mode ∙ mode) fuel (omega arith)
                  (some (cur + i)) (cur + i) (inr refl) (omega arith) clear' (gone + 1) in
              (
                r,
                delete_from-found f fuel loc gone s run (cur + i) row g
                      (as_scanned ∙ ap (answer cur) e) removes
                    ∙ rest,
                one_less row first.passes less d,
              )
        ]

  delete_lem :
      (f : FlatFile K V)
      → f.sorted_mode ≡ false
      → delete f key ≡ delete_from f key (f.eof_position + 1) none 0
  unfolding delete
  delete_lem f mode = ground arith

  -- On a valid file that is not sorted, `delete` ends and keeps the file valid. After it no row has
  -- the key, and of the rows without the key there are as many as before, whatever test they are
  -- counted by. It reports the number of rows that had the key, or `err_item_not_found` for none.
  pub delete-Purged :
      {f : FlatFile K V}
      → IsValid f
      → f.sorted_mode ≡ false
      → Returns (delete f key) (Purged f.compare key (contents f) 0)
  delete-Purged {f} valid mode =
      let (r, run, d) =
        delete_from-Purged f.compare f valid refl mode (f.eof_position + 1) (omega arith) none 0
          (inl (refl, refl)) (omega arith) refl 0 in
      (r, delete_lem f mode ∙ run, d)
