-- ===== src/OpenAddressDictionary/Tests.antt =====
-- The traversal of open_address_hash_dictionary_handler.c at a map of three buckets.
use iondb.Base.Run.{done, ◌>>=◌}
use iondb.Base.{ℕ, ◌≡◌, ◌-◌, refl, List, [], ◌∷◌, take, arith}
use iondb.Dictionary.Compare.{difference}
use iondb.Dictionary.{predicate_all_records, predicate_range}
use iondb.OpenAddressDictionary.Scan.{records}
use iondb.OpenAddressDictionary.Traverse.{range, drain-find}
use iondb.OpenAddressDictionary.{find, drain}
use iondb.OpenAddressHash.{Bucket, deleted, in_use, HashMap}
use iondb.Base.{true}
use iondb.Base.Int.{pos}
use iondb.System.{wc_insert_unique}

abbrev buckets : List (Bucket ℕ ℕ)
buckets =
    record { status = in_use; key = 3; value = 30 }
    ∷ record { status = deleted; key = 4; value = 40 }
    ∷ record { status = in_use; key = 5; value = 50 }
    ∷ []

abbrev three : HashMap ℕ ℕ
three = record {
  compare = difference;
  map_size = 3;
  write_concern = wc_insert_unique;
  compute_hash = λ n k. pos k;
  is_allocated = true;
  entry = buckets;
}

-- The record under key 5 stands in the last bucket.
all_but_last : (find three predicate_all_records >>= drain three 3) ≡ done ((3, 30) ∷ [])
unfolding find drain
all_but_last = refl

drain-find_example :
    (find three (predicate_range 2 6) >>= drain three 3)
    ≡ done (records difference (predicate_range 2 6) (take (3 - 1) buckets))
drain-find_example = drain-find three (range 2 6) refl (omega arith)
