-- ===== src/FlatFile/Tests.antt =====
-- The theorems on flat_file.c at small files with numbers for keys, and runs of the code.
use iondb.Base.{
  ℕ, zero, suc, ◌≤◌, ◌≡◌, refl, false, true, Option, none, some, List, [], ◌∷◌, ltb, ◌==◌,
  if◌then◌else◌, arith, ◌+◌, ◌/◌, ◌-◌,
}
use iondb.Base.Run.{Run, done, ◌>>=◌, Returns}
use iondb.FlatFile.Append.{Appended, insert-Appended}
use iondb.FlatFile.Contents.{IsValid, contents}
use iondb.FlatFile.Delete.{Purged, delete-Purged}
use iondb.FlatFile.Get.{Got, get-Got}
use iondb.FlatFile.Operations.{insert, get, delete, update}
use iondb.FlatFile.Reads.{get-Purged, get-Upserted}
use iondb.FlatFile.Start.{initialize, Opened, initialize-Opened}
use iondb.FlatFile.Sorted.{HasKey, get-HasKey}
use iondb.FlatFile.Update.{Upserted, update-Upserted}
use iondb.FlatFile.{FlatFile, Row, occupied, vacant}
use iondb.System.{
  Comparison, a_lt_b, a_equ_b, a_gt_b, Status, status_ok, status_error, err_item_not_found,
  err_file_bad_seek, err_uninitialized,
}

abbrev compare_numbers : ℕ → ℕ → Comparison
compare_numbers a b = if ltb a b then a_lt_b else if a == b then a_equ_b else a_gt_b

abbrev row : ℕ → ℕ → Row ℕ ℕ
row k v = record { row_status = occupied; key = k; value = v }

-- Three rows, of which two have the key 7, and a buffer of two rows.
abbrev pub three : FlatFile ℕ ℕ
three = record {
  compare = compare_numbers;
  sorted_mode = false;
  rows = row 7 70 ∷ row 8 80 ∷ row 7 71 ∷ [];
  eof_position = 3;
  num_buffered = 2;
  buffer = row 0 0 ∷ row 0 0 ∷ [];
  current_loaded_region = none;
  num_in_buffer = 0;
}

pub three-IsValid : IsValid three
three-IsValid = record {
  in_file = omega arith;
  positive = omega arith;
  sized = refl;
  cache = λ region e j h. ground arith;
}

-- The same file in sorted mode, with the key 7 in both rows.
abbrev twins : FlatFile ℕ ℕ
twins = record three { sorted_mode = true; rows = row 7 70 ∷ row 7 71 ∷ []; eof_position = 2 }

twins-IsValid : IsValid twins
twins-IsValid = record {
  in_file = omega arith;
  positive = omega arith;
  sized = refl;
  cache = λ region e j h. ground arith;
}

get-Got_example : Returns (get three 8) (Got three 8)
get-Got_example = get-Got three-IsValid refl 8

insert-Appended_example : Returns (insert three 7 72) (Appended three 7 72)
insert-Appended_example = insert-Appended three-IsValid 7 72 refl

delete-Purged_example : Returns (delete three 7) (Purged compare_numbers 7 (contents three) 0)
delete-Purged_example = delete-Purged 7 three-IsValid refl

update-Upserted_example : Returns (update three 7 77) (Upserted three 7 77)
update-Upserted_example = update-Upserted three-IsValid refl 7 77

get-Purged_example :
    Returns
      (delete three 7)
      (λ r. Returns (get (r.1) 7) (λ t. (t.0 ≡ status_error err_item_not_found) × (t.2 ≡ none)))
get-Purged_example = get-Purged three-IsValid refl 7

get-Upserted_example :
    Returns
      (update three 9 90)
      (λ r. Returns (get (r.1) 9) (λ t. (t.0 ≡ status_ok 1) × (t.2 ≡ some 90)))
get-Upserted_example = get-Upserted three-IsValid refl 9 refl 90

-- The decimal digits of a number, at most `fuel` and one more.
abbrev digits : ℕ → ℕ → ℕ
digits zero n = 1
digits (suc fuel) n = let rest = digits fuel (n / 10) in if ltb n 10 then 1 else suc rest

-- The length of the name of a file: the digits of the id, a dot and three letters.
abbrev name_length : ℕ → ℕ
name_length id = digits 9 id + 4

-- A file with an empty row at its end.
abbrev with_vacant : List (Row ℕ ℕ)
with_vacant = row 7 70 ∷ record (row 0 0) { row_status = vacant } ∷ []

initialize-Opened_example :
    Returns
      (initialize name_length three 7 0 (record (row 0 0) { row_status = vacant }) with_vacant)
      (Opened with_vacant)
initialize-Opened_example =
    initialize-Opened name_length three 7 (omega arith) 0 (record (row 0 0) { row_status = vacant })
      with_vacant

twins-HasKey : (j : ℕ) → j ≤ (2 - 1) / 2 → HasKey twins 7 j
twins-HasKey zero h = (row 7 70, refl, refl, refl)
twins-HasKey (suc j) h = absurd (omega arith)

get-HasKey_example :
    Returns (get twins 7) (λ r. (r.0 ≡ status_error err_file_bad_seek) × (r.2 ≡ none))
get-HasKey_example = get-HasKey 7 twins-IsValid refl refl (omega arith) twins-HasKey

abbrev answer_of : Status × FlatFile ℕ ℕ × Option ℕ → Run (Status × Option ℕ)
answer_of r = done (r.0, r.2)

abbrev rows_of : Status × FlatFile ℕ ℕ → Run (Status × List (Row ℕ ℕ))
rows_of r = done (r.0, contents (r.1))

get_eight : (get three 8 >>= answer_of) ≡ done (status_ok 1, some 80)
unfolding get
get_eight = refl

get_nine : (get three 9 >>= answer_of) ≡ done (status_error err_item_not_found, none)
unfolding get
get_nine = refl

delete_seven : (delete three 7 >>= rows_of) ≡ done (status_ok 2, row 8 80 ∷ [])
unfolding delete
delete_seven = refl

update_seven :
    (update three 7 77 >>= rows_of) ≡ done (status_ok 2, row 7 77 ∷ row 8 80 ∷ row 7 77 ∷ [])
unfolding update
update_seven = refl

-- A sorted file of one row is searched as it should be.
get_one : (get (record twins { eof_position = 1 }) 7 >>= answer_of) ≡ done (status_ok 1, some 70)
unfolding get
get_one = refl

initialize_one :
    (initialize name_length three 7 0 (record (row 0 0) { row_status = vacant }) with_vacant
      >>= λ r. get (r.1) 7 >>= answer_of)
    ≡ done (status_ok 1, some 70)
unfolding initialize get
initialize_one = refl

-- A name with eight digits does not fit.
initialize_long :
    initialize name_length three 12345678 0 (row 0 0) with_vacant ≡ done (err_uninitialized, three)
unfolding initialize
initialize_long = refl
