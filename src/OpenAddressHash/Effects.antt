-- ===== src/OpenAddressHash/Effects.antt =====
-- The effect of `insert` and `delete` of open_address_hash.c on the map and on every `get`.
use iondb.Base.{
  ap, ◌∙◌, ℕ, ◌<◌, ◌≡◌, ◌≢◌, ◌⊎◌, inl, inr, refl, sym, some, true, false, get_elem?, arith,
  lt-of-get_elem?, get_elem?-set_self, set, Bool-cases,
}
use mathlib.Core.Path.{subst}
use iondb.Base.Run.{done, done-injective, ◌>>=◌, Returns}
use iondb.Key.{equal_refl, equal_trans, equal_symm}
use iondb.OpenAddressHash.Delete.{Deletes, marks, keeps, delete-Deletes}
use iondb.OpenAddressHash.Find.{Holds, written, find_from-replaced}
use iondb.OpenAddressHash.Get.{get-written, get_at}
use iondb.OpenAddressHash.Insert.{fresh, Inserts, fills, meets, full, insert_from-Inserts}
use iondb.OpenAddressHash.Probe.{OnPath}
use iondb.OpenAddressHash.Valid.{home, home-lt, IsValid, location-home, written-IsValid}
use iondb.OpenAddressHash.{
  Bucket, in_use, deleted, HashMap, insert_from, insert, delete, get, write_free, write_existing,
  find_from,
}
use iondb.System.{
  Status, status_ok, status_error, err_item_not_found, err_duplicate_key, err_max_capacity,
  err_file_write_error, is_equal, WriteConcern, wc_update, wc_insert_unique, wc_duplicate,
}

module _ {ℓ} {K V : Type ℓ} {m : HashMap K V} (valid : IsValid m) where
  -- A bucket that holds a key holds no other key.
  not-Holds-other :
      (key other : K) (s : ℕ) (b : Bucket K V)
      → get_elem? m.entry s ≡ some b
      → is_equal (m.compare b.key key) ≡ true
      → is_equal (m.compare key other) ≡ false
      → ¬ Holds m s other
  not-Holds-other key other s b e q ne (c, f, u, t) =
      let order = valid.keys.order in
      let back = equal_symm order b.key key q in
      let same : is_equal (m.compare b.key other) ≡ true = ground arith in
      cc (equal_trans order key b.key other back same)

  pub index-lt : (s : ℕ) (b : Bucket K V) → get_elem? m.entry s ≡ some b → s < m.map_size
  index-lt s b e = let sized = valid.sized in omega (arith, lt-of-get_elem? m.entry s e)

-- The effect of `delete` of `key`, which returned `r`, on `m`.
pub record Deleted {ℓ} {K V : Type ℓ} (m : HashMap K V) (key : K) (r : Status × HashMap K V)
    : Type ℓ where
  pub valid : IsValid (r.1)
  pub others : (other : K) → is_equal (m.compare key other) ≡ false → get (r.1) other ≡ get m other
  pub status :
      ((r.0 ≡ status_ok 1) × ((p : ℕ) × Holds m p key))
      ⊎ ((r.0 ≡ status_error err_item_not_found) × ((p : ℕ) → ¬ Holds m p key) × (r.1 ≡ m))

module _ {ℓ} {K V : Type ℓ} {m : HashMap K V} (valid : IsValid m) (key : K) where
  Deletes-Deleted : {r : Status × HashMap K V} → Deletes m key r → Deleted m key r
  Deletes-Deleted (keeps unheld w) =
      subst (Deleted m key) (sym w)
        (record { valid = valid; others = λ other ne. refl; status = inr (refl, unheld, refl) })
  Deletes-Deleted (marks s b e u q w) = subst (Deleted m key) (sym w) (record {
    valid = valid';
    others = λ other ne.
        get-written valid other s (record b { status = deleted }) (index-lt valid s b e) valid'
          ((λ t. cc), λ t. cc) (not-Holds-other valid key other s b e q ne);
    status = inl (refl, (s, (b, e, u, q)));
  })
    where
      valid' : IsValid (written m s (record b { status = deleted }))
      valid' =
          written-IsValid valid s (record b { status = deleted }) (index-lt valid s b e) (λ t. cc)
            (λ t. cc)

  -- On a valid map `delete` ends, keeps the map valid, and does not change what `get` returns for
  -- any other key; it reports success where a bucket holds the key, and otherwise it reports
  -- `err_item_not_found` and changes nothing.
  pub delete-Deleted : Returns (delete m key) (Deleted m key)
  delete-Deleted =
      let (r, run, effect) = delete-Deletes valid key in (r, run, Deletes-Deleted effect)

-- The effect of `insert` of `value` at `key`, which returned `r`, on `m`.
pub record Inserted {ℓ} {K V : Type ℓ} (m : HashMap K V) (key : K) (value : V)
    (r : Status × HashMap K V) : Type ℓ where
  pub valid : IsValid (r.1)
  pub others : (other : K) → is_equal (m.compare key other) ≡ false → get (r.1) other ≡ get m other
  pub reads : r.0 ≡ status_ok 1 → get (r.1) key ≡ done (status_ok 1, some value)
  pub fails : r.0 ≢ status_ok 1 → r.1 ≡ m

module _ {ℓ} {K V : Type ℓ} {m : HashMap K V} (valid : IsValid m) (key : K) (value : V) where
  self : is_equal (m.compare key key) ≡ true
  self = equal_refl valid.keys.order key

  pub insert-Inserts : Returns (insert m key value) (Inserts m key value m.map_size (home m key))
  unfolding insert
  insert-Inserts =
      let (r, run, ends) =
        insert_from-Inserts m key value self valid.sized m.map_size (home m key)
          (home-lt valid key) in
      (r, ap (λ l. l >>= insert_from m key value m.map_size) (location-home valid key) ∙ run, ends)

  -- What holds of a call that changed nothing.
  Inserted-unchanged : (e : Status) → e ≢ status_ok 1 → Inserted m key value (e, m)
  Inserted-unchanged e ne = record {
    valid = valid;
    others = λ other t. refl;
    reads = λ t. absurd (ne t);
    fails = λ t. refl;
  }

  -- The key goes into a bucket that was not in use.
  Inserted-fresh :
      (s : ℕ) (b : Bucket K V)
      → get_elem? m.entry s ≡ some b
      → b.status ≢ in_use
      → OnPath m.entry m.map_size m.map_size (home m key) s
      → find_from (written m s (fresh key value)) key m.map_size (home m key) ≡ done (some s)
      → Inserted m key value (write_free m s key value)
  unfolding write_free
  Inserted-fresh s b e u path found = record {
    valid = valid';
    others = λ other ne.
        get-written valid other s (fresh key value) (index-lt valid s b e) valid'
          ((λ t. cc), λ t. ne) (λ h. u (not_free other h));
    reads = λ t.
        get_at valid' key s (fresh key value)
          (get_elem?-set_self m.entry s (fresh key value) (lt-of-get_elem? m.entry s e)) found;
    fails = λ t. absurd (t refl);
  }
    where
      not_free : (other : K) → Holds m s other → b.status ≡ in_use
      not_free other (c, f, t, q) = ground arith

      valid' : IsValid (written m s (fresh key value))
      valid' =
          written-IsValid valid s (fresh key value) (index-lt valid s b e) (λ t. cc) (λ t. path)

  -- The bucket that holds the key gets the new value.
  Inserted-over :
      (s : ℕ) (b : Bucket K V)
      → get_elem? m.entry s ≡ some b
      → b.status ≡ in_use
      → is_equal (m.compare b.key key) ≡ true
      → find_from m key m.map_size (home m key) ≡ done (some s)
      → Inserted m key value (status_ok 1, written m s (record b { value = value }))
  Inserted-over s b e u q found = record {
    valid = valid';
    others = λ other ne.
        let free = not-Holds-other valid key other s b e q ne in
        get-written valid other s b' (index-lt valid s b e) valid'
          ((λ t. cc), λ t. passed other free) free;
    reads = λ t.
        get_at valid' key s b' at
          (find_from-replaced m key s b' (b', at, u, q) m.map_size (home m key) found);
    fails = λ t. absurd (t refl);
  }
    where
      b' : Bucket K V
      b' = record b { value = value }

      at : get_elem? (set m.entry s b') s ≡ some b'
      at = get_elem?-set_self m.entry s b' (lt-of-get_elem? m.entry s e)

      passed : (other : K) → ¬ Holds m s other → is_equal (m.compare b.key other) ≡ false
      passed other free = elim (Bool-cases (is_equal (m.compare b.key other))) [
        | inl t ↦ absurd (free (b, e, u, t))
        | inr t ↦ t
      ]

      valid' : IsValid (written m s b')
      valid' =
          written-IsValid valid s b' (index-lt valid s b e) (λ t. cc) (λ t. valid.reachable s b e u)

  Inserts-Inserted :
      {r : Status × HashMap K V}
      → Inserts m key value m.map_size (home m key) r
      → Inserted m key value r
  unfolding write_existing
  Inserts-Inserted (full others w) =
      subst (Inserted m key value) (sym w)
        (Inserted-unchanged (status_error err_max_capacity) (λ t. cc))
  Inserts-Inserted (fills s b e u path found stops w) =
      subst (Inserted m key value) (sym w) (Inserted-fresh s b e u path found)
  Inserts-Inserted (meets s b e u q found w) =
      subst (Inserted m key value) (sym w) (by_concern m.write_concern)
    where
      by_concern : (c : WriteConcern) → Inserted m key value (write_existing m s b value c)
      by_concern wc_update = Inserted-over s b e u q found
      by_concern wc_insert_unique = Inserted-unchanged (status_error err_duplicate_key) (λ t. cc)
      by_concern wc_duplicate = Inserted-unchanged (status_error err_file_write_error) (λ t. cc)

  -- On a valid map `insert` ends, keeps the map valid, and does not change what `get` returns for
  -- any other key; where it reports success `get` returns the value for the key, and where it
  -- reports an error the map is unchanged.
  pub insert-Inserted : Returns (insert m key value) (Inserted m key value)
  insert-Inserted = let (r, run, ends) = insert-Inserts in (r, run, Inserts-Inserted ends)

  -- A run of `insert` on a valid map leaves a valid map.
  pub insert-IsValid : {r : Status × HashMap K V} → insert m key value ≡ done r → IsValid (r.1)
  insert-IsValid e =
      let (r', run, effect) = insert-Inserted in
      subst (λ (x : Status × HashMap K V). IsValid (x.1)) (done-injective (sym run ∙ e))
        effect.valid

-- A run of `delete` on a valid map leaves a valid map.
pub delete-IsValid {ℓ} :
    {K V : Type ℓ} {m : HashMap K V} (valid : IsValid m) (key : K) {r : Status × HashMap K V}
    → delete m key ≡ done r
    → IsValid (r.1)
delete-IsValid {K} {V} valid key e =
    let (r', run, effect) = delete-Deleted valid key in
    subst (λ (x : Status × HashMap K V). IsValid (x.1)) (done-injective (sym run ∙ e)) effect.valid
