-- ===== src/OpenAddressFileHash/Start.antt =====
-- The file that `oafh_initialize` of open_address_file_hash.c writes where there is none.
use iondb.Base.{
  ℕ, zero, suc, ◌<◌, ◌≡◌, refl, sym, ◌∙◌, ap, none, some, ◌∷◌, map, replicate, length-replicate,
}
use mathlib.Core.Path.{subst}
use iondb.Base.Run.{done}
use iondb.Key.{KeyHash}
use iondb.OpenAddressFileHash.{FileHashMap, initialize, get}
use iondb.OpenAddressFileHash.Loops.{in_memory}
use iondb.OpenAddressFileHash.Refines.{get-in_memory}
use iondb.OpenAddressHash
use iondb.OpenAddressHash.{Bucket, empty, clear_bucket, HashMap}
use iondb.OpenAddressHash.Start.{initialize-IsValid}
use iondb.OpenAddressHash.Valid.{IsValid}
use iondb.Base.{leb, true, false, arith}
use iondb.Base.Int.{ℤ}
use iondb.System.{
  ErrorCode, max_filename_length, wc_insert_unique, err_ok, status_error, err_item_not_found,
}

module _ {ℓ} {K V : Type ℓ} where
  cleared :
      (n : ℕ) (b : Bucket K V)
      → map clear_bucket (replicate n b) ≡ replicate n (record b { status = empty })
  unfolding clear_bucket
  cleared zero b = refl
  cleared (suc n) b = ap (λ bs. record b { status = empty } ∷ bs) (cleared n b)

module _ {ℓ} {K V : Type ℓ} (filename_length : ℕ → ℕ) (hashmap : FileHashMap K V) (hash : ℕ → K → ℤ)
    (keys : KeyHash hashmap.compare hash) (size : ℕ) (positive : 0 < size) (id : ℕ)
    (fits : filename_length id < max_filename_length) (blank : Bucket K V) where
  abbrev created : FileHashMap K V
  created = (initialize filename_length hashmap hash size id blank none).1

  abbrev expected : FileHashMap K V
  expected = record hashmap {
    write_concern = wc_insert_unique;
    map_size = size;
    compute_hash = hash;
    is_open = true;
    file = replicate size (record blank { status = empty });
  }

  initialize-expected :
      initialize filename_length hashmap hash size id blank none ≡ (err_ok, expected)
  unfolding initialize
  initialize-expected =
      let short : leb max_filename_length (filename_length id) ≡ false = ground arith in
      rw (initialize, short) refl

  in_memory-expected :
      in_memory expected
      ≡ (OpenAddressHash.initialize hash hashmap.compare size (some (replicate size blank))).1
  unfolding OpenAddressHash.initialize
  in_memory-expected =
      ap (λ bs. record (in_memory expected) { entry = bs }) (sym (cleared size blank))

  created_lem :
      in_memory created
      ≡ (OpenAddressHash.initialize hash hashmap.compare size (some (replicate size blank))).1
  created_lem =
      ap (λ (r : ErrorCode × FileHashMap K V). in_memory (r.1)) initialize-expected
      ∙ in_memory-expected

  created-IsValid : IsValid (in_memory created)
  created-IsValid = subst IsValid (sym created_lem) (
      (initialize-IsValid hashmap.compare hash keys size positive (replicate size blank)
        (length-replicate size blank)).1)

  -- With a size of at least 1, a comparison that orders the keys, a hash that agrees with it and is not
  -- negative, and a file name that is short enough: where there is no file, `initialize` succeeds and
  -- writes one whose buckets are those of a valid map; `get` finds no key in it.
  pub initialize-in_memory :
      ((initialize filename_length hashmap hash size id blank none).0 ≡ err_ok)
      × IsValid (in_memory created)
      × ((key : K) → get created key ≡ done (status_error err_item_not_found, none))
  initialize-in_memory = (
    ap (λ (r : ErrorCode × FileHashMap K V). r.0) initialize-expected,
    created-IsValid,
    λ key.
        get-in_memory created created-IsValid.sized key
        ∙ ap (λ m. OpenAddressHash.get m key) created_lem
        ∙ (initialize-IsValid hashmap.compare hash keys size positive (replicate size blank)
              (length-replicate size blank)).4
            key,
  )
