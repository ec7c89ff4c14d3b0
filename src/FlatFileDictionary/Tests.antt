-- ===== src/FlatFileDictionary/Tests.antt =====
-- The theorem on the cursors of flat_file_dictionary_handler.c at a small file, and runs of the code.
use iondb.Base.{ℕ, ◌≡◌, ◌≢◌, refl, List, [], ◌∷◌}
use iondb.Base.Run.{Run, done, ◌>>=◌, Returns}
use iondb.Dictionary.{
  Predicate, predicate_equality, predicate_range, predicate_all_records, predicate_predicate,
}
use iondb.FlatFile.{FlatFile}
use iondb.FlatFile.Contents.{contents}
use iondb.FlatFile.Tests.{three, three-IsValid}
use iondb.FlatFileDictionary.Steps.{selected}
use iondb.FlatFileDictionary.Traverse.{read_all-find}
use iondb.FlatFileDictionary.{Cursor, find, read_all, row_test}
use iondb.System.{ErrorCode, err_ok}

abbrev sevens : Predicate ℕ
sevens = predicate_equality 7

equality-searches : sevens ≢ predicate_predicate
equality-searches e = cc

read_all-find_example : Returns (find three sevens) (λ r.
    (r.1 ≡ err_ok)
    × (read_all 4 (r.0) (r.2) ≡ done (selected (row_test three sevens) (contents three))))
read_all-find_example = read_all-find sevens equality-searches three-IsValid

abbrev all_of : FlatFile ℕ ℕ × ErrorCode × Cursor ℕ → Run (List (ℕ × ℕ))
all_of r = read_all 4 (r.0) (r.2)

find_seven : (find three sevens >>= all_of) ≡ done ((7, 70) ∷ (7, 71) ∷ [])
unfolding find read_all
find_seven = refl

find_range : (find three (predicate_range 8 9) >>= all_of) ≡ done ((8, 80) ∷ [])
unfolding find read_all
find_range = refl

find_every : (find three predicate_all_records >>= all_of) ≡ done ((7, 70) ∷ (8, 80) ∷ (7, 71) ∷ [])
unfolding find read_all
find_every = refl
