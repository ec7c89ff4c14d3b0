-- ===== src/OpenAddressFileHash/Refines.antt =====
-- The operations of open_address_file_hash.c do on the file what those of open_address_hash.c do on
-- an array of the same buckets.
use iondb.Base.{
  ℕ, zero, suc, ◌+◌, ◌-◌, ◌<◌, ◌≡◌, refl, sym, ◌∙◌, ap, Option, none, some, length, get_elem?,
  arith, inl, inr, lt-of-get_elem?, Option-cases, ◌%◌,
}
use iondb.Base.Int.{ℤ, pos, negsuc}
use iondb.Base.Run.{bind_assoc, bind_congr, Run, done, fault, ◌>>=◌}
use iondb.OpenAddressFileHash.{
  FileHashMap, read_bucket, write_bucket, insert_from, insert, update, find_from, find_item_loc,
  mark_deleted, delete, read_value, get,
}
use iondb.OpenAddressHash
use iondb.OpenAddressHash.{
  location, bucket_index, negative, Bucket, empty, deleted, in_use, HashMap, next_location,
}
use iondb.OpenAddressFileHash.Loops.{
  in_memory, result_on_file, write_bucket-inside, find_from-in_memory, insert_from-in_memory,
}
use iondb.OpenAddressHash.Find.{find_from-Holds}
use iondb.System.{Status, wc_update}

at_negative {κ} :
    {A : Type κ} (r : ℕ) (k k' : ℕ → Run A)
    → k 0 ≡ k' 0
    → (bucket_index (negative r) >>= k) ≡ (bucket_index (negative r) >>= k')
unfolding bucket_index
at_negative zero k k' same = same
at_negative (suc r) k k' same = refl

-- Two continuations that agree on every location of the map.
at_location {κ} :
    {A : Type κ} (num : ℤ) (size : ℕ) (k k' : ℕ → Run A)
    → ((loc : ℕ) → loc < size → k loc ≡ k' loc)
    → (location num size >>= k) ≡ (location num size >>= k')
unfolding location
at_location num zero k k' same = refl
at_location (pos num) (suc n) k k' same = same (num % suc n) (omega arith)
at_location (negsuc num) (suc n) k k' same =
    at_negative (suc num % suc n) k k' (same 0 (omega arith))

module _ {ℓ} {K V : Type ℓ} (f : FileHashMap K V) (sized : length f.file ≡ f.map_size)
    (key : K) where
  -- On a file with as many buckets as the map has, `find_item_loc`, `insert`, `update`, `delete` and
  -- `get` return what the operations in memory return on the same buckets, and leave the same buckets.
  pub find_item_loc-in_memory :
      find_item_loc f key ≡ OpenAddressHash.find_item_loc (in_memory f) key
  unfolding find_item_loc OpenAddressHash.find_item_loc
  find_item_loc-in_memory =
      at_location (f.compute_hash f.map_size key) f.map_size
        (λ loc. find_from f key f.map_size loc loc none)
        (OpenAddressHash.find_from (in_memory f) key f.map_size)
        (λ loc h. find_from-in_memory f sized key f.map_size loc none h)

  pub insert-in_memory :
      (value : V)
      → insert f key value ≡ (OpenAddressHash.insert (in_memory f) key value >>= result_on_file f)
  unfolding insert OpenAddressHash.insert
  insert-in_memory value =
      at_location (f.compute_hash f.map_size key) f.map_size
        (λ loc. insert_from f key value f.map_size loc loc none)
        (λ loc.
          OpenAddressHash.insert_from (in_memory f) key value f.map_size loc >>= result_on_file f)
        (λ loc h. insert_from-in_memory f sized key value f.map_size loc none h)
      ∙ sym (
          bind_assoc (location (f.compute_hash f.map_size key) f.map_size)
            (OpenAddressHash.insert_from (in_memory f) key value f.map_size) (result_on_file f))

  mark_deleted-in_memory :
      (found : Option ℕ)
      → mark_deleted f found
        ≡ (OpenAddressHash.mark_deleted (in_memory f) found >>= result_on_file f)
  unfolding mark_deleted OpenAddressHash.mark_deleted read_bucket
  mark_deleted-in_memory none = refl
  mark_deleted-in_memory (some loc) = elim (Option-cases (get_elem? f.file loc)) [
    | inl e ↦ ground arith
    | inr (b, e) ↦
        let q : loc + 1 - 1 ≡ loc = omega arith in
        let w =
          ap (λ at. write_bucket f at (record b { status = deleted })) q
          ∙ write_bucket-inside f loc (record b { status = deleted })
              (lt-of-get_elem? f.file loc e) in
        ground arith
  ]

  pub delete-in_memory :
      delete f key ≡ (OpenAddressHash.delete (in_memory f) key >>= result_on_file f)
  unfolding delete OpenAddressHash.delete
  delete-in_memory =
      ap (λ r. r >>= mark_deleted f) find_item_loc-in_memory
      ∙ bind_congr (OpenAddressHash.find_item_loc (in_memory f) key) (mark_deleted f)
          (λ found. OpenAddressHash.mark_deleted (in_memory f) found >>= result_on_file f)
          mark_deleted-in_memory
      ∙ sym (
          bind_assoc (OpenAddressHash.find_item_loc (in_memory f) key)
            (OpenAddressHash.mark_deleted (in_memory f)) (result_on_file f))

  get_found :
      (r : Run (Option ℕ))
      → ((p : ℕ) → r ≡ done (some p) → (b : Bucket K V) × (get_elem? f.file p ≡ some b))
      → (r >>= λ found. done (read_value f found))
        ≡ (r >>= OpenAddressHash.read_value (in_memory f))
  unfolding read_value OpenAddressHash.read_value
  get_found fault inside = refl
  get_found (done none) inside = refl
  get_found (done (some p)) inside = let (b, e) = inside p refl in rw (e) refl

  pub get-in_memory : get f key ≡ OpenAddressHash.get (in_memory f) key
  unfolding get OpenAddressHash.get OpenAddressHash.find_item_loc
  get-in_memory =
      ap (λ r. r >>= λ found. done (read_value f found)) find_item_loc-in_memory
      ∙ bind_assoc (location (f.compute_hash f.map_size key) f.map_size)
          (OpenAddressHash.find_from (in_memory f) key f.map_size)
          (λ found. done (read_value f found))
      ∙ bind_congr (location (f.compute_hash f.map_size key) f.map_size)
          (λ loc. OpenAddressHash.find_from (in_memory f) key f.map_size loc >>= λ found.
            done (read_value f found))
          (λ loc.
            OpenAddressHash.find_from (in_memory f) key f.map_size loc
            >>= OpenAddressHash.read_value (in_memory f))
          (λ loc. get_found (OpenAddressHash.find_from (in_memory f) key f.map_size loc) (λ p e.
            let (b, at, u, q) = find_from-Holds (in_memory f) key f.map_size loc p e in (b, at)))
      ∙ sym (
          bind_assoc (location (f.compute_hash f.map_size key) f.map_size)
            (OpenAddressHash.find_from (in_memory f) key f.map_size)
            (OpenAddressHash.read_value (in_memory f)))

-- The same of `update`, which calls `insert` with another write concern.
pub update-in_memory {ℓ} :
    {K V : Type ℓ} (f : FileHashMap K V)
    → length f.file ≡ f.map_size
    → (key : K) (value : V)
    → update f key value ≡ (OpenAddressHash.update (in_memory f) key value >>= result_on_file f)
unfolding update OpenAddressHash.update
update-in_memory {K} {V} f sized key value =
    ap (λ r. r >>= reset) (insert-in_memory g sized key value)
    ∙ bind_assoc (OpenAddressHash.insert (in_memory g) key value) (result_on_file g) reset
    ∙ sym (
        bind_assoc (OpenAddressHash.insert (in_memory g) key value)
          (λ r. done (r.0, record (r.1) { write_concern = f.write_concern })) (result_on_file f))
  where
    g : FileHashMap K V
    g = record f { write_concern = wc_update }

    reset : Status × FileHashMap K V → Run (Status × FileHashMap K V)
    reset r = done (r.0, record (r.1) { write_concern = f.write_concern })
