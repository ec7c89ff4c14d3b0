-- ===== src/FlatFile/Reads.antt =====
-- What `flat_file_get` of src/dictionary/flat_file/flat_file.c returns after `flat_file_delete` and
-- `flat_file_update`.
use iondb.Base.{
  ℕ, suc, ◌<◌, ◌≡◌, refl, ◌∙◌, ap, Bool, true, false, Option, none, some, List, [], ◌∷◌, ◌++◌,
  arith, inl, inr, Bool-cases, count, if◌then◌else◌,
}
use iondb.Base.Run.{Returns}
use iondb.FlatFile.{FlatFile, Row, find_in, predicate_key_match}
use iondb.FlatFile.Contents.{contents, matches, IsValid}
use iondb.FlatFile.Delete.{delete-Purged}
use iondb.FlatFile.Get.{get-Got, looked_up}
use iondb.FlatFile.Matches.{predicate_key_match_lem}
use iondb.FlatFile.Operations.{get, delete, update, new_row}
use iondb.FlatFile.Rewrite.{rewrite_all}
use iondb.FlatFile.Update.{update-Upserted}
use iondb.System.{Status, status_ok, status_error, err_item_not_found, is_equal}

module _ {ℓ} {K V : Type ℓ} (p : Row K V → Bool) where
  find_in-absent : (rows : List (Row K V)) → count p rows ≡ 0 → find_in p rows ≡ none
  unfolding find_in
  find_in-absent [] h = refl
  find_in-absent (r ∷ rows) h = elim (Bool-cases (p r)) [
    | inl t ↦ ground arith
    | inr t ↦ let ih = find_in-absent rows (ground arith) in ground arith
  ]

  module _ (new : Row K V) (passes : p new ≡ true) where
    find_in-appended :
        (rows : List (Row K V))
        → count p rows ≡ 0
        → (i : ℕ) × (find_in p (rows ++ new ∷ []) ≡ some (i, new))
    unfolding find_in
    find_in-appended [] h = (0, ground arith)
    find_in-appended (r ∷ rows) h = elim (Bool-cases (p r)) [
      | inl t ↦ ground arith
      | inr t ↦ let (i, e) = find_in-appended rows (ground arith) in (suc i, ground arith)
    ]

    find_in-later :
        (r : Row K V) (rows : List (Row K V)) {i : ℕ}
        → p r ≡ false
        → find_in p rows ≡ some (i, new)
        → find_in p (r ∷ rows) ≡ some (suc i, new)
    unfolding find_in
    find_in-later r rows t e = ground arith

    find_in-rewrite_all :
        (rows : List (Row K V))
        → 0 < count p rows
        → (i : ℕ) × (find_in p (rewrite_all p new rows) ≡ some (i, new))
    unfolding find_in
    find_in-rewrite_all [] h = absurd (omega arith)
    find_in-rewrite_all (r ∷ rows) h = elim (Bool-cases (p r)) [
      | inl t ↦ (0, rw (t, passes) refl)
      | inr t ↦
          let (i, e) = find_in-rewrite_all rows (ground arith) in
          let kept : (if p r then new else r) ≡ r = rw (t) refl in
          (
            suc i,
            ap (λ x. find_in p (x ∷ rewrite_all p new rows)) kept
                ∙ find_in-later r (rewrite_all p new rows) t e,
          )
    ]

module _ {ℓ} {K V : Type ℓ} {f : FlatFile K V} (valid : IsValid f) (mode : f.sorted_mode ≡ false)
    (key : K) where
  -- The search that `get` makes in a file with the comparison of `f`.
  get-search :
      {g : FlatFile K V} {o : Option (ℕ × Row K V)}
      → IsValid g
      → g.sorted_mode ≡ false
      → g.compare ≡ f.compare
      → find_in (matches f.compare key) (contents g) ≡ o
      → Returns (get g key) (λ t. (t.0 ≡ (looked_up o).0) × (t.2 ≡ (looked_up o).1))
  get-search {g} {o} v m c e =
      let (t, run, got) = get-Got v m key in
      let search : find_in (predicate_key_match g key) (contents g) ≡ o =
        ap (λ q. find_in q (contents g)) (predicate_key_match_lem g key)
        ∙ ap (λ x. find_in (matches x key) (contents g)) c
        ∙ e in
      let all : (t.0, t.2) ≡ looked_up o = got.answers ∙ ap looked_up search in
      (t, run, (ap (λ (x : Status × Option V). x.0) all, ap (λ (x : Status × Option V). x.1) all))

  -- On a valid file that is not sorted, `get` of a key after `delete` of it reports
  -- `err_item_not_found` and returns no value.
  pub get-Purged :
      Returns
        (delete f key)
        (λ r. Returns (get (r.1) key) (λ t. (t.0 ≡ status_error err_item_not_found) × (t.2 ≡ none)))
  get-Purged =
      let (r, run, d) = delete-Purged key valid mode in
      (
        r,
        run,
        get-search d.valid d.same_mode d.same_compare
            (find_in-absent (matches f.compare key) (contents (r.1)) d.none_left),
      )

  -- On a valid file that is not sorted, if the comparison finds the key equal to itself, `get` of the
  -- key after `update` of it returns the value that was written.
  pub get-Upserted :
      is_equal (f.compare key key) ≡ true
      → (value : V)
      → Returns
          (update f key value)
          (λ r. Returns (get (r.1) key) (λ t. (t.0 ≡ status_ok 1) × (t.2 ≡ some value)))
  get-Upserted self value =
      let (r, run, u) = update-Upserted valid mode key value in
      let p = matches f.compare key in
      elim u.outcome [
        | inl (absent, s, rows) ↦
            let (i, e) = find_in-appended p (new_row key value) self (contents f) absent in
            (r, run, get-search u.valid u.same_mode u.same_compare (ap (find_in p) rows ∙ e))
        | inr (present, s, rows) ↦
            let (i, e) = find_in-rewrite_all p (new_row key value) self (contents f) present in
            (r, run, get-search u.valid u.same_mode u.same_compare (ap (find_in p) rows ∙ e))
      ]
