-- ===== src/OpenAddressHash/Tests.antt =====
-- The theorems on open_address_hash.c at small maps with keys of four bytes, and runs of the code.
use iondb.Base.Run.{done, ◌>>=◌, Returns}
use iondb.Base.{true, ℕ, ◌<◌, ◌≡◌, ◌↔◌, refl, none, some, List, [], ◌∷◌, replicate, arith, ◌+◌, ◌%◌}
use iondb.Dictionary.Compare.{Bytes, compare_signed_value}
use iondb.OpenAddressHash.Capacity.{IsFullFor, insert-full}
use iondb.OpenAddressHash.Duplicates.{insert-IsUnique, IsHeldTwice, insert-IsHeldTwice}
use iondb.OpenAddressHash.Effects.{
  Inserted, Deleted, insert-Inserted, delete-Deleted, insert-IsValid, delete-IsValid,
}
use iondb.OpenAddressHash.SimpleHash.{compute_simple_hash, signed-KeyHash, reduce, reduce_lem}
use iondb.OpenAddressHash.Start.{initialize-IsValid}
use iondb.OpenAddressHash.Unique.{IsUnique, HasNoDeleted, get-delete}
use iondb.OpenAddressHash.Update.{Updated, update-Updated}
use iondb.OpenAddressHash.Valid.{IsValid}
use iondb.OpenAddressHash.{
  get_location, Bucket, empty, deleted, in_use, HashMap, initialize, clear_bucket, insert, update,
  delete, get,
}
use iondb.System.{
  status_ok, status_error, err_item_not_found, err_ok, err_max_capacity, wc_insert_unique,
}
use iondb.Base.Int.{pos, negsuc}

-- The key of a small number.
abbrev key : ℕ → Bytes
key n = n ∷ 0 ∷ 0 ∷ 0 ∷ []

-- What `malloc` left in four buckets.
abbrev memory : List (Bucket Bytes ℕ)
memory = replicate 4 (record { status = in_use; key = key 9; value = 99 })

abbrev small : HashMap Bytes ℕ
small = (initialize compute_simple_hash (compare_signed_value 4) 4 (some memory)).1

initialize-IsValid_example :
    ((initialize compute_simple_hash (compare_signed_value 4) 4 (some memory)).0 ≡ err_ok)
    × IsValid small
    × IsUnique small
    × HasNoDeleted small
    × ((k : Bytes) → get small k ≡ done (status_error err_item_not_found, none))
initialize-IsValid_example =
    initialize-IsValid (compare_signed_value 4) compute_simple_hash (signed-KeyHash 4 (omega arith))
      4 (omega arith) memory refl

abbrev small-IsValid : IsValid small
small-IsValid = initialize-IsValid_example.1

abbrev old : Bucket Bytes ℕ
old = record { status = empty; key = key 9; value = 99 }

abbrev holds : ℕ → ℕ → Bucket Bytes ℕ
holds k v = record { status = in_use; key = key k; value = v }

abbrev marked : ℕ → ℕ → Bucket Bytes ℕ
marked k v = record { status = deleted; key = key k; value = v }

abbrev with_entry : List (Bucket Bytes ℕ) → HashMap Bytes ℕ
with_entry bs = record {
  compare = compare_signed_value 4;
  map_size = 4;
  write_concern = wc_insert_unique;
  compute_hash = compute_simple_hash;
  is_allocated = true;
  entry = bs;
}

-- The definitions that the runs below unfold.
program : Unit {0}
unfolding initialize clear_bucket insert update delete get compute_simple_hash compare_signed_value
program = tt

-- Keys 1 and 5 share their home bucket.
insert_one :
    insert small (key 1) 10 ≡ done (status_ok 1, with_entry (old ∷ holds 1 10 ∷ old ∷ old ∷ []))
unfolding program
insert_one = refl

insert_five :
    insert (with_entry (old ∷ holds 1 10 ∷ old ∷ old ∷ [])) (key 5) 50
    ≡ done (status_ok 1, with_entry (old ∷ holds 1 10 ∷ holds 5 50 ∷ old ∷ []))
unfolding program
insert_five = refl

delete_one :
    delete (with_entry (old ∷ holds 1 10 ∷ holds 5 50 ∷ old ∷ [])) (key 1)
    ≡ done (status_ok 1, with_entry (old ∷ marked 1 10 ∷ holds 5 50 ∷ old ∷ []))
unfolding program
delete_one = refl

-- The second record under key 5, although the write concern asks for unique keys.
insert_five_again :
    insert (with_entry (old ∷ marked 1 10 ∷ holds 5 50 ∷ old ∷ [])) (key 5) 55
    ≡ done (status_ok 1, with_entry (old ∷ holds 5 55 ∷ holds 5 50 ∷ old ∷ []))
unfolding program
insert_five_again = refl

-- After a delete of key 5 the older value is back.
get_five_deleted :
    (delete (with_entry (old ∷ holds 5 55 ∷ holds 5 50 ∷ old ∷ [])) (key 5) >>= λ r.
    get (r.1) (key 5))
    ≡ done (status_ok 1, some 50)
unfolding program
get_five_deleted = refl

two-IsValid : IsValid (with_entry (old ∷ holds 1 10 ∷ holds 5 50 ∷ old ∷ []))
two-IsValid =
    insert-IsValid (insert-IsValid small-IsValid (key 1) 10 insert_one) (key 5) 50 insert_five

marked-IsValid : IsValid (with_entry (old ∷ marked 1 10 ∷ holds 5 50 ∷ old ∷ []))
marked-IsValid = delete-IsValid two-IsValid (key 1) delete_one

insert-Inserted_example : Returns (insert small (key 1) 10) (Inserted small (key 1) 10)
insert-Inserted_example = insert-Inserted small-IsValid (key 1) 10

abbrev two : HashMap Bytes ℕ
two = with_entry (old ∷ holds 1 10 ∷ holds 5 50 ∷ old ∷ [])

delete-Deleted_example : Returns (delete two (key 1)) (Deleted two (key 1))
delete-Deleted_example = delete-Deleted two-IsValid (key 1)

update-Updated_example : Returns (update two (key 5) 51) (Updated two (key 5) 51)
update-Updated_example = update-Updated two-IsValid (key 5) 51

insert-full_example :
    (insert two (key 3) 30 ≡ done (status_error err_max_capacity, two)) ↔ IsFullFor two (key 3)
insert-full_example = insert-full two-IsValid (key 3) 30

insert-IsUnique_example : Returns (insert small (key 1) 10) λ r. IsUnique (r.1) × HasNoDeleted (r.1)
insert-IsUnique_example =
    insert-IsUnique small-IsValid (key 1) 10 (initialize-IsValid_example.2)
      (initialize-IsValid_example.3)

abbrev one : HashMap Bytes ℕ
one = insert-IsUnique_example.0.1

one-IsValid : IsValid one
one-IsValid = insert-IsValid small-IsValid (key 1) 10 (insert-IsUnique_example.1)

get-delete_example :
    Returns
      (delete one (key 1))
      λ r. IsUnique (r.1) × (get (r.1) (key 1) ≡ done (status_error err_item_not_found, none))
get-delete_example = get-delete one-IsValid (key 1) (insert-IsUnique_example.2.0)

insert-IsHeldTwice_example :
    IsHeldTwice (with_entry (old ∷ holds 5 55 ∷ holds 5 50 ∷ old ∷ [])) (key 5)
unfolding program
insert-IsHeldTwice_example =
    insert-IsHeldTwice marked-IsValid (key 5) 55 refl (2, (holds 5 50, refl, refl, refl))
      insert_five_again

reduce_lem_example :
    (reduce 4 (pos 7) ≡ 7 % 4) × (reduce 4 (negsuc 7) < 4) × ((reduce 4 (negsuc 7) + 8) % 4 ≡ 0)
reduce_lem_example = reduce_lem 4 7 (omega arith)

-- The remainder has the sign of the hash: a location below 0 is outside the array.
get_location_negative : get_location (negsuc 4) 3 ≡ done (negsuc 1)
unfolding get_location
get_location_negative = refl
