-- ===== src/OpenAddressFileHash/Loops.antt =====
-- The loops of open_address_file_hash.c do on the file what those of open_address_hash.c do on an
-- array of the same buckets.
use iondb.Base.{
  ℕ, zero, suc, ◌+◌, ◌-◌, ◌<◌, ◌≡◌, refl, Option, some, length, get_elem?, get_elem?-some, set,
  arith,
}
use iondb.Base.Run.{Run, done, ◌>>=◌}
use iondb.OpenAddressFileHash.{
  FileHashMap, advance, read_bucket, write_bucket, write_existing, write_free, insert_from,
  find_from,
}
use iondb.OpenAddressHash
use iondb.OpenAddressHash.{location, Bucket, empty, deleted, in_use, HashMap, next_location}
use iondb.OpenAddressHash.Probe.{next_location-lt}
use iondb.System.{Status, WriteConcern, wc_update, wc_insert_unique, wc_duplicate}

module _ {ℓ} {K V : Type ℓ} where
  -- The map in memory with the buckets of the file.
  abbrev pub in_memory : FileHashMap K V → HashMap K V
  in_memory f = record {
    compare = f.compare;
    map_size = f.map_size;
    write_concern = f.write_concern;
    compute_hash = f.compute_hash;
    is_allocated = f.is_open;
    entry = f.file;
  }

  -- The file map `f` with the buckets and the write concern of a map in memory.
  abbrev pub on_file : FileHashMap K V → HashMap K V → FileHashMap K V
  on_file f m = record f { write_concern = m.write_concern; file = m.entry }

  -- A result of an operation in memory, as one on the file.
  abbrev pub result_on_file :
      FileHashMap K V → Status × HashMap K V → Run (Status × FileHashMap K V)
  result_on_file f r = done (r.0, on_file f (r.1))

  module _ (f : FileHashMap K V) where
    pub write_bucket-inside :
        (at : ℕ) (b : Bucket K V)
        → at < length f.file
        → write_bucket f at b ≡ done (record f { file = set f.file at b })
    unfolding write_bucket
    write_bucket-inside at b h = ground arith

    read_bucket-some :
        (at : ℕ) (b : Bucket K V) (memory : Option (Bucket K V))
        → get_elem? f.file at ≡ some b
        → read_bucket f at memory ≡ (at + 1, some b)
    unfolding read_bucket
    read_bucket-some at b memory e = rw (read_bucket, e) refl

    advance_lem :
        (loc : ℕ)
        → advance loc (loc + 1) f.map_size
          ≡ (next_location loc f.map_size, next_location loc f.map_size)
    unfolding advance next_location
    advance_lem loc = ground arith

    module _ (key : K) (rounds loc : ℕ) (memory : Option (Bucket K V)) (b : Bucket K V)
        (e : get_elem? f.file loc ≡ some b) where
      find_from-step :
          find_from f key rounds
              (next_location loc f.map_size)
              (next_location loc f.map_size)
              (some b)
            ≡ OpenAddressHash.find_from (in_memory f) key rounds (next_location loc f.map_size)
          → find_from f key (suc rounds) loc loc memory
            ≡ OpenAddressHash.find_from (in_memory f) key (suc rounds) loc
      unfolding find_from OpenAddressHash.find_from read_bucket advance next_location
      find_from-step ih = ground arith

    module _ (sized : length f.file ≡ f.map_size) (key : K) where
      pub find_from-in_memory :
          (rounds loc : ℕ) (memory : Option (Bucket K V))
          → loc < f.map_size
          → find_from f key rounds loc loc memory
            ≡ OpenAddressHash.find_from (in_memory f) key rounds loc
      unfolding find_from OpenAddressHash.find_from
      find_from-in_memory zero loc memory h = refl
      find_from-in_memory (suc rounds) loc memory h =
          let (b, e) = get_elem?-some f.file loc (omega arith) in
          find_from-step key rounds loc memory b e (
            find_from-in_memory rounds (next_location loc f.map_size) (some b)
              (next_location-lt loc f.map_size (omega arith)))

      -- The writes of `insert` go to the bucket that was read.
      write_existing-in_memory :
          (loc : ℕ) (b : Bucket K V) (value : V) (concern : WriteConcern)
          → loc < f.map_size
          → write_existing f (loc + 1 - 1) b value concern
            ≡ result_on_file f (OpenAddressHash.write_existing (in_memory f) loc b value concern)
      unfolding write_existing OpenAddressHash.write_existing
      write_existing-in_memory loc b value wc_insert_unique h = refl
      write_existing-in_memory loc b value wc_duplicate h = refl
      write_existing-in_memory loc b value wc_update h =
          let q : loc + 1 - 1 ≡ loc = omega arith in
          rw (q, write_bucket-inside loc (record b { value = value }) (omega arith)) refl

      write_free-in_memory :
          (loc : ℕ) (value : V)
          → loc < f.map_size
          → write_free f (loc + 1 - 1) key value
            ≡ result_on_file f (OpenAddressHash.write_free (in_memory f) loc key value)
      unfolding write_free OpenAddressHash.write_free
      write_free-in_memory loc value h =
          let q : loc + 1 - 1 ≡ loc = omega arith in
          rw
            (
              q,
              write_bucket-inside loc (record { status = in_use; key = key; value = value })
                  (omega arith),
            )
            refl

      module _ (value : V) (rounds loc : ℕ) (memory : Option (Bucket K V)) (b : Bucket K V)
          (e : get_elem? f.file loc ≡ some b) (h : loc < f.map_size) where
        insert_from-step :
            insert_from f key value rounds
                (next_location loc f.map_size)
                (next_location loc f.map_size)
                (some b)
              ≡ (OpenAddressHash.insert_from
                    (in_memory f)
                    key
                    value
                    rounds
                    (next_location loc f.map_size)
                  >>= result_on_file f)
            → insert_from f key value (suc rounds) loc loc memory ≡ (
                OpenAddressHash.insert_from (in_memory f) key value (suc rounds) loc
                >>= result_on_file f)
        unfolding insert_from OpenAddressHash.insert_from read_bucket advance next_location
        insert_from-step ih =
            let x = write_existing-in_memory loc b value f.write_concern h in
            let y = write_free-in_memory loc value h in ground arith

      pub insert_from-in_memory :
          (value : V) (rounds loc : ℕ) (memory : Option (Bucket K V))
          → loc < f.map_size
          → insert_from f key value rounds loc loc memory
            ≡ (OpenAddressHash.insert_from (in_memory f) key value rounds loc >>= result_on_file f)
      unfolding insert_from OpenAddressHash.insert_from
      insert_from-in_memory value zero loc memory h = refl
      insert_from-in_memory value (suc rounds) loc memory h =
          let (b, e) = get_elem?-some f.file loc (omega arith) in
          insert_from-step value rounds loc memory b e h (
            insert_from-in_memory value rounds (next_location loc f.map_size) (some b)
              (next_location-lt loc f.map_size (omega arith)))
