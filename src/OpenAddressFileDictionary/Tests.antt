-- ===== src/OpenAddressFileDictionary/Tests.antt =====
-- The theorem on the cursors of open_address_file_hash_dictionary_handler.c at a small file, and runs
-- of the code.
use iondb.Base.{ℕ, true, ◌≡◌, refl, [], ◌∷◌, arith, take}
use iondb.Base.Run.{done, ◌>>=◌}
use iondb.Dictionary.Compare.{Bytes, byte_at, compare_signed_value}
use iondb.Dictionary.{predicate_equality, predicate_all_records}
use iondb.OpenAddressDictionary
use iondb.OpenAddressDictionary.Scan.{records}
use iondb.OpenAddressDictionary.Traverse.{all_records}
use iondb.OpenAddressFileDictionary.Traverse.{drain-find_on_file}
use iondb.OpenAddressFileDictionary.{find, drain}
use iondb.OpenAddressFileHash.Loops.{in_memory}
use iondb.OpenAddressFileHash.{FileHashMap}
use iondb.System.{wc_insert_unique}
use iondb.OpenAddressHash.SimpleHash.{compute_simple_hash}
use iondb.OpenAddressHash.{Bucket, in_use}

abbrev key : ℕ → Bytes
key n = n ∷ 0 ∷ 0 ∷ 0 ∷ []

abbrev holds : ℕ → ℕ → Bucket Bytes ℕ
holds k v = record { status = in_use; key = key k; value = v }

-- The keys 1, 5, 9 and 13 were inserted, 5 was deleted, and 13 was inserted again: all four start at
-- the bucket 1.
abbrev twice : FileHashMap Bytes ℕ
twice = record {
  compare = compare_signed_value 4;
  map_size = 4;
  write_concern = wc_insert_unique;
  compute_hash = compute_simple_hash;
  id = 7;
  is_open = true;
  file = holds 13 130 ∷ holds 1 10 ∷ holds 13 131 ∷ holds 9 90 ∷ [];
}

drain-find_on_file_example :
    (find twice predicate_all_records >>= drain twice 4)
    ≡ done (records (compare_signed_value 4) predicate_all_records (take 3 twice.file))
drain-find_on_file_example = drain-find_on_file twice all_records refl (omega arith)

-- The definitions that the runs below unfold.
program : Unit {0}
unfolding find drain OpenAddressDictionary.find OpenAddressDictionary.drain compute_simple_hash
    compare_signed_value byte_at
program = tt

find_all_records :
    (find twice predicate_all_records >>= drain twice 4)
    ≡ done ((key 13, 130) ∷ (key 1, 10) ∷ (key 13, 131) ∷ [])
unfolding program
find_all_records = refl

-- The cursor on the file does not find the record before its start, since the file is not rewound;
-- the one in memory does.
equality_on_file :
    (find twice (predicate_equality (key 13)) >>= drain twice 4) ≡ done ((key 13, 131) ∷ [])
unfolding program
equality_on_file = refl

equality_in_memory :
    (OpenAddressDictionary.find (in_memory twice) (predicate_equality (key 13))
      >>= OpenAddressDictionary.drain (in_memory twice) 4)
    ≡ done ((key 13, 131) ∷ (key 13, 130) ∷ [])
unfolding program
equality_in_memory = refl
