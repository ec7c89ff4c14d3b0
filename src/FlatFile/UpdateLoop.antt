-- ===== src/FlatFile/UpdateLoop.antt =====
-- The loop of `flat_file_update` of src/dictionary/flat_file/flat_file.c.
use iondb.Base.{
  ℕ, zero, suc, ◌+◌, ◌≤◌, ◌<◌, ◌≡◌, refl, sym, ◌∙◌, ap, false, Option, some, List, drop, set, arith,
  inl, inr, Option-cases, count, take-set-take, length-set, lt-of-get_elem?, get_elem?-drop,
}
use mathlib.Core.Path.{ap₂}
use iondb.Base.Run.{done, Returns}
use iondb.FlatFile.Access.{rewritten, write_row-inside}
use iondb.FlatFile.Contents.{contents, matches, IsValid, uncached-IsValid, length-contents}
use iondb.FlatFile.Get.{contents-SameData, Scanned-SameData}
use iondb.FlatFile.Matches.{predicate_key_match_lem, find_in-none, find_in-First}
use iondb.FlatFile.Operations.{update_from, insert, new_row}
use iondb.FlatFile.Rewrite.{rewrite_from, rewrite_from-none, rewrite_from-set, count-drop-set}
use iondb.FlatFile.Scanning.{Scanned, answer, scan_forwards_from-Scanned}
use iondb.FlatFile.{
  FlatFile, Row, ScanResult, found, hit_eof, find_in, predicate_key_match, scan_forwards_from,
  write_row,
}
use iondb.System.{Status, Comparison, status_ok}

-- What the loop of `update` leaves: the given rows, and the number of those that are written.
pub record Rewritten {ℓ} {K V : Type ℓ} (compare : K → K → Comparison) (rows : List (Row K V))
    (written : ℕ) (r : Status × FlatFile K V) : Type ℓ where
  pub valid : IsValid (r.1)
  pub status : r.0 ≡ status_ok written
  pub rewrites : contents (r.1) ≡ rows
  pub same_compare : (r.1).compare ≡ compare
  pub same_mode : (r.1).sorted_mode ≡ false

module _ {ℓ} {K V : Type ℓ} (key : K) (value : V) where
  -- The write of the new row over the row `i` of `g`, a file with the data of `f`.
  pub record Overwrites (f g : FlatFile K V) (i : ℕ) : Type ℓ where
    pub after : FlatFile K V
    pub writes : write_row g i (new_row key value) ≡ done after
    pub valid : IsValid after
    pub sets : contents after ≡ set (contents f) i (new_row key value)
    pub same_eof : after.eof_position ≡ f.eof_position
    pub same_compare : after.compare ≡ f.compare
    pub same_mode : after.sorted_mode ≡ f.sorted_mode

  module _ (f : FlatFile K V) (fuel : ℕ) (loc : Option ℕ) (n : ℕ)
      (s : FlatFile K V × ScanResult K V)
      (run : scan_forwards_from f loc (predicate_key_match f key) ≡ done s) where
    update_from-end :
        s.1 ≡ hit_eof
        → update_from f key value (suc fuel) loc (suc n) ≡ done (status_ok (suc n), s.0)
    unfolding update_from
    update_from-end e = ground arith

    pub update_from-insert :
        s.1 ≡ hit_eof → update_from f key value (suc fuel) loc 0 ≡ insert (s.0) key value
    unfolding update_from
    update_from-insert e = ground arith

    pub update_from-found :
        (i : ℕ) (row : Row K V) (g : FlatFile K V)
        → s.1 ≡ found i row
        → write_row (s.0) i (new_row key value) ≡ done g
        → update_from f key value (suc fuel) loc n
          ≡ update_from g key value fuel (some (suc i)) (suc n)
    unfolding update_from
    update_from-found i row g e w =
        let q : i + 1 ≡ suc i = omega arith in
        let t : n + 1 ≡ suc n = omega arith in
        rw (run, e, w) (ap₂ (λ x y. update_from g key value fuel (some x) y) q t)

  module _ (compare : K → K → Comparison) where
    module _ (f : FlatFile K V) (valid : IsValid f) (same : f.compare ≡ compare)
        (mode : f.sorted_mode ≡ false) (cur : ℕ) {s : FlatFile K V × ScanResult K V}
        (sc : Scanned f (predicate_key_match f key) cur s) where
      pub as_answer : s.1 ≡ answer cur (find_in (matches compare key) (drop cur (contents f)))
      as_answer =
          sc.answers
          ∙ ap (λ p. answer cur (find_in p (drop cur (contents f)))) (predicate_key_match_lem f key)
          ∙ ap (λ c. answer cur (find_in (matches c key) (drop cur (contents f)))) same

      pub lt :
          (i : ℕ) (row : Row K V)
          → find_in (matches compare key) (drop cur (contents f)) ≡ some (i, row)
          → cur + i < f.eof_position
      lt i row e =
          let first = find_in-First (matches compare key) (drop cur (contents f)) i row e in
          omega (
            arith,
            lt-of-get_elem? (contents f) (cur + i)
                (sym (get_elem?-drop cur i (contents f)) ∙ first.at),
            length-contents valid,
          )

      -- The row that is found is written over.
      pub write_over :
          (i : ℕ) (row : Row K V)
          → find_in (matches compare key) (drop cur (contents f)) ≡ some (i, row)
          → Overwrites f (s.0) (cur + i)
      write_over i row e = record {
        after = rewritten (s.0) (set (s.0).rows (cur + i) (new_row key value));
        writes = write_row-inside (s.0) (cur + i) (new_row key value) (
            let h = lt i row e in
            let a = sc.valid.in_file in let q = (Scanned-SameData sc).eof_position in omega arith);
        valid =
            uncached-IsValid sc.valid (s.0).buffer sc.valid.sized
              (set (s.0).rows (cur + i) (new_row key value)) (s.0).eof_position
              (let a = sc.valid.in_file in
                omega (arith, length-set (s.0).rows (cur + i) (new_row key value)));
        sets =
            take-set-take (s.0).eof_position (s.0).rows (cur + i) (new_row key value)
            ∙ ap (λ rows. set rows (cur + i) (new_row key value))
                (contents-SameData (Scanned-SameData sc));
        same_eof = (Scanned-SameData sc).eof_position;
        same_compare = (Scanned-SameData sc).compare;
        same_mode = (Scanned-SameData sc).sorted_mode;
      }

    -- The rows that the rest of the loop leaves, in terms of those before the write.
    pub after_write :
        (f : FlatFile K V) (cur i : ℕ) (row : Row K V) {g : FlatFile K V}
        (o : Overwrites f g (cur + i)) (n : ℕ) {r : Status × FlatFile K V}
        → find_in (matches compare key) (drop cur (contents f)) ≡ some (i, row)
        → Rewritten compare
            (rewrite_from
              (matches compare key)
              (new_row key value)
              (suc (cur + i))
              (contents o.after))
            (suc n + count (matches compare key) (drop (suc (cur + i)) (contents o.after)))
            r
        → Rewritten compare
            (rewrite_from (matches compare key) (new_row key value) cur (contents f))
            (n + count (matches compare key) (drop cur (contents f)))
            r
    after_write f cur i row o n e w =
        let p = matches compare key in
        let new = new_row key value in
        let c = count-drop-set p new cur i (cur + i) (contents f) row refl e in
        let d = ap (λ rows. count p (drop (suc (cur + i)) rows)) o.sets in
        record {
          valid = w.valid;
          status =
              let q : suc n + count p (drop (suc (cur + i)) (contents o.after))
                  ≡ n + count p (drop cur (contents f)) =
                omega arith in
              w.status ∙ ap status_ok q;
          rewrites =
              w.rewrites
              ∙ ap (rewrite_from p new (suc (cur + i))) o.sets
              ∙ rewrite_from-set p new cur i (cur + i) (contents f) row refl e;
          same_compare = w.same_compare;
          same_mode = w.same_mode;
        }

    -- Once a row is written, the loop writes the others that match.
    pub update_from-Rewritten :
        (f : FlatFile K V)
        → IsValid f
        → f.compare ≡ compare
        → f.sorted_mode ≡ false
        → (fuel cur : ℕ) → cur ≤ f.eof_position
        → f.eof_position < cur + fuel
        → (n : ℕ)
        → Returns (update_from f key value fuel (some cur) (suc n)) (
            Rewritten compare
              (rewrite_from (matches compare key) (new_row key value) cur (contents f))
              (suc n + count (matches compare key) (drop cur (contents f))))
    update_from-Rewritten f valid same mode zero cur inside enough n = absurd (omega arith)
    update_from-Rewritten f valid same mode (suc fuel) cur inside enough n =
        let (s, run, sc) =
          scan_forwards_from-Scanned (predicate_key_match f key) f valid (some cur) cur (inr refl)
            inside in
        let p = matches compare key in
        elim (Option-cases (find_in p (drop cur (contents f)))) [
          | inl e ↦ (
            (status_ok (suc n), s.0),
            update_from-end f fuel (some cur) n s run
                (as_answer f valid same mode cur sc ∙ ap (answer cur) e),
            record {
              valid = sc.valid;
              status =
                  let z = find_in-none p (drop cur (contents f)) e in
                  let q : suc n ≡ suc n + count p (drop cur (contents f)) = omega arith in
                  ap status_ok q;
              rewrites =
                  contents-SameData (Scanned-SameData sc)
                  ∙ sym (rewrite_from-none p (new_row key value) cur (contents f) e);
              same_compare = (Scanned-SameData sc).compare ∙ same;
              same_mode = (Scanned-SameData sc).sorted_mode ∙ mode;
            },
          )
          | inr ((i, row), e) ↦
              let o = write_over f valid same mode cur sc i row e in
              let h = lt f valid same mode cur sc i row e in
              let eof = o.same_eof in
              let (r, rest, w) =
                update_from-Rewritten o.after o.valid (o.same_compare ∙ same) (o.same_mode ∙ mode)
                  fuel (suc (cur + i)) (omega arith) (omega arith) (suc n) in
              (
                r,
                update_from-found f fuel (some cur) (suc n) s run (cur + i) row o.after
                      (as_answer f valid same mode cur sc ∙ ap (answer cur) e) o.writes
                    ∙ rest,
                after_write f cur i row o (suc n) e w,
              )
        ]
