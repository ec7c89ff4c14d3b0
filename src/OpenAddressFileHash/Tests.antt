-- ===== src/OpenAddressFileHash/Tests.antt =====
-- The theorems on open_address_file_hash.c at small files with keys of four bytes, and runs of the
-- code.
use iondb.Base.{
  ℕ, zero, suc, ◌+◌, ◌/◌, ltb, if◌then◌else◌, ◌≡◌, refl, false, none, some, List, [], ◌∷◌,
  replicate, arith,
}
use iondb.Base.Run.{Run, done, fault, ◌>>=◌, Returns}
use iondb.Dictionary.Compare.{Bytes, byte_at, compare_signed_value}
use iondb.OpenAddressFileHash.{FileHashMap, initialize, destroy, insert, update, delete, get}
use iondb.OpenAddressFileHash.Client.{
  Call, Answer, call_insert, call_update, call_delete, call_get, run_in_memory, run_on_file,
  run_on_file-run_in_memory,
}
use iondb.OpenAddressFileHash.Loops.{in_memory, on_file}
use iondb.OpenAddressFileHash.Start.{initialize-in_memory}
use iondb.OpenAddressHash.{Bucket, empty, in_use}
use iondb.OpenAddressHash.SimpleHash.{compute_simple_hash, signed-KeyHash}
use iondb.OpenAddressHash.Valid.{IsValid}
use iondb.System.{
  status_ok, status_error, err_item_not_found, err_ok, err_uninitialized,
  err_dictionary_destruction_error, wc_insert_unique,
}

-- The key of a small number.
abbrev key : ℕ → Bytes
key n = n ∷ 0 ∷ 0 ∷ 0 ∷ []

abbrev blank : Bucket Bytes ℕ
blank = record { status = in_use; key = key 0; value = 0 }

-- The decimal digits of a number, at most `fuel` and one more.
abbrev digits : ℕ → ℕ → ℕ
digits zero n = 1
digits (suc fuel) n = let rest = digits fuel (n / 10) in if ltb n 10 then 1 else suc rest

-- The length of the name of a file: the digits of the id, a dot and three letters.
abbrev name_length : ℕ → ℕ
name_length id = digits 9 id + 4

-- The structure before the call.
abbrev memory : FileHashMap Bytes ℕ
memory = record {
  compare = compare_signed_value 4;
  map_size = 0;
  write_concern = wc_insert_unique;
  compute_hash = compute_simple_hash;
  id = 7;
  is_open = false;
  file = [];
}

-- A file of four buckets that is not there before.
abbrev small : FileHashMap Bytes ℕ
small = (initialize name_length memory compute_simple_hash 4 7 blank none).1

initialize-in_memory_example :
    ((initialize name_length memory compute_simple_hash 4 7 blank none).0 ≡ err_ok)
    × IsValid (in_memory small)
    × ((k : Bytes) → get small k ≡ done (status_error err_item_not_found, none))
initialize-in_memory_example =
    initialize-in_memory name_length memory compute_simple_hash (signed-KeyHash 4 (omega arith)) 4
      (omega arith) 7 (omega arith) blank

abbrev small-IsValid : IsValid (in_memory small)
small-IsValid =
    (initialize-in_memory name_length memory compute_simple_hash (signed-KeyHash 4 (omega arith)) 4
      (omega arith) 7 (omega arith) blank).1

-- The definitions that the runs below unfold.
program : Unit {0}
unfolding initialize destroy run_on_file insert update delete get compute_simple_hash
    compare_signed_value byte_at
program = tt

abbrev calls : List (Call Bytes ℕ)
calls =
    call_insert (key 3) 30
    ∷ call_insert (key 7) 70
    ∷ call_delete (key 3)
    ∷ call_update (key 7) 71
    ∷ call_get (key 7)
    ∷ []

run_on_file-run_in_memory_example :
    Returns
      (run_in_memory calls (in_memory small))
      (λ r. IsValid (r.1) × (run_on_file calls small ≡ done (r.0, on_file small (r.1))))
run_on_file-run_in_memory_example = run_on_file-run_in_memory calls small small-IsValid

abbrev answers_of : List (Answer ℕ) × FileHashMap Bytes ℕ → Run (List (Answer ℕ))
answers_of r = done (r.0)

-- The second key goes round the end of the file; the update writes it a second time, before itself.
run_calls :
    (run_on_file calls small >>= answers_of)
    ≡ done (
        (status_ok 1, none)
        ∷ (status_ok 1, none)
        ∷ (status_ok 1, none)
        ∷ (status_ok 1, none)
        ∷ (status_ok 1, some 71)
        ∷ [])
unfolding program
run_calls = refl

-- A file that is there is taken as it is: here it has one bucket, and the map four.
abbrev short : FileHashMap Bytes ℕ
short = (initialize name_length memory compute_simple_hash 4 7 blank (some (blank ∷ []))).1

short_file : get short (key 1) ≡ fault
unfolding program
short_file = refl

-- A name with eight digits does not fit.
initialize_long :
    (initialize name_length memory compute_simple_hash 4 12345678 blank none).0 ≡ err_uninitialized
unfolding program
initialize_long = refl

initialize_new : small.file ≡ replicate 4 (record blank { status = empty })
unfolding program
initialize_new = refl

-- The file is closed and removed once.
destroy_once : (destroy name_length small).0 ≡ err_ok
unfolding program
destroy_once = refl

destroy_twice :
    (destroy name_length ((destroy name_length small).1)).0 ≡ err_dictionary_destruction_error
unfolding program
destroy_twice = refl
