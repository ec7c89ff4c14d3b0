-- ===== src/OpenAddressHash/Update.antt =====
-- `update` of open_address_hash.c: an `insert` under the write concern `wc_update`, which is put
-- back afterwards.
use iondb.Base.{
  ℕ, zero, suc, ◌≡◌, ◌⊎◌, inl, inr, refl, sym, ◌∙◌, ap, Option, none, some, false, arith,
}
use mathlib.Core.Path.{subst}
use iondb.Base.Run.{Run, done, fault, ◌>>=◌, done-injective, Returns}
use iondb.OpenAddressHash.Capacity.{IsFullFor, refused}
use iondb.OpenAddressHash.Effects.{insert-Inserts, insert-Inserted, Inserted}
use iondb.OpenAddressHash.Insert.{Inserts, fills, meets, full}
use iondb.OpenAddressHash.Valid.{home, IsValid}
use iondb.OpenAddressHash.{
  HashMap, update, get, find_from, next_location, find_item_loc, location, read_value, write_free,
  write_existing,
}
use iondb.System.{
  Status, status_ok, status_error, err_max_capacity, is_equal, WriteConcern, wc_update,
}

-- The map under another write concern.
abbrev pub under {ℓ} : {K V : Type ℓ} → WriteConcern → HashMap K V → HashMap K V
under c m = record m { write_concern = c }

module _ {ℓ} {K V : Type ℓ} (m : HashMap K V) (c : WriteConcern) where
  find_from-under :
      (key : K) (rounds loc : ℕ) → find_from (under c m) key rounds loc ≡ find_from m key rounds loc
  unfolding find_from
  find_from-under key zero loc = refl
  find_from-under key (suc rounds) loc =
      ground (arith, find_from-under key rounds (next_location loc m.map_size))

  read_value-under : (r : Run (Option ℕ)) → (r >>= read_value (under c m)) ≡ (r >>= read_value m)
  unfolding read_value
  read_value-under fault = refl
  read_value-under (done none) = refl
  read_value-under (done (some p)) = refl

  -- A read does not depend on the write concern.
  pub get-under : (key : K) → get (under c m) key ≡ get m key
  unfolding get find_item_loc
  get-under key = from (location (m.compute_hash m.map_size key) m.map_size)
    where
      from :
          (l : Run ℕ)
          → (l >>= find_from (under c m) key m.map_size >>= read_value (under c m))
            ≡ (l >>= find_from m key m.map_size >>= read_value m)
      from fault = refl
      from (done loc) =
          ap (λ r. r >>= read_value (under c m)) (find_from-under key m.map_size loc)
          ∙ read_value-under (find_from m key m.map_size loc)

  pub under-IsValid : IsValid m → IsValid (under c m)
  under-IsValid v = record {
    keys = v.keys;
    positive = v.positive;
    sized = v.sized;
    reachable = v.reachable;
  }

-- The effect of `update` of `value` at `key`, which returned `r`, on `m`.
pub record Updated {ℓ} {K V : Type ℓ} (m : HashMap K V) (key : K) (value : V)
    (r : Status × HashMap K V) : Type ℓ where
  pub valid : IsValid (r.1)
  pub concern : (r.1).write_concern ≡ m.write_concern
  pub others : (other : K) → is_equal (m.compare key other) ≡ false → get (r.1) other ≡ get m other
  pub status :
      ((r.0 ≡ status_ok 1) × (get (r.1) key ≡ done (status_ok 1, some value)))
      ⊎ ((r.0 ≡ status_error err_max_capacity) × IsFullFor m key × (r.1 ≡ m))

module _ {ℓ} {K V : Type ℓ} {m : HashMap K V} (valid : IsValid m) (key : K) (value : V) where
  valid_u : IsValid (under wc_update m)
  valid_u = under-IsValid m wc_update valid

  -- `update` never meets the errors of the other write concerns.
  status_u :
      {r : Status × HashMap K V}
      → Inserts (under wc_update m) key value m.map_size (home m key) r
      → (r.0 ≡ status_ok 1) ⊎ (r ≡ (status_error err_max_capacity, under wc_update m))
  unfolding write_free write_existing
  status_u (fills s b e u path found stops w) = inl (ap (λ (x : Status × HashMap K V). x.0) w)
  status_u (meets s b e u q found w) = inl (ap (λ (x : Status × HashMap K V). x.0) w)
  status_u (full others w) = inr w

  restored :
      (r : Status × HashMap K V)
      → Inserts (under wc_update m) key value m.map_size (home m key) r
      → Inserted (under wc_update m) key value r
      → Updated m key value (r.0, under m.write_concern (r.1))
  restored r ends i = record {
    valid = under-IsValid (r.1) m.write_concern i.valid;
    concern = refl;
    others = λ other ne.
        get-under (r.1) m.write_concern other ∙ i.others other ne ∙ get-under m wc_update other;
    status = elim (status_u ends) [
      | inl ok ↦ inl (ok, get-under (r.1) m.write_concern key ∙ i.reads ok)
      | inr w ↦ inr (
        ap (λ (x : Status × HashMap K V). x.0) w,
        refused valid_u key value ends w,
        ap (λ (x : Status × HashMap K V). under m.write_concern (x.1)) w,
      )
    ];
  }

  -- On a valid map `update` ends, keeps the map valid and its write concern, and does not change
  -- what `get` returns for any other key; afterwards `get` returns the value for the key, unless
  -- every bucket is in use by another key: then it reports `err_max_capacity` and changes nothing.
  pub update-Updated : Returns (update m key value) (Updated m key value)
  unfolding update
  update-Updated =
      let (r, run, ends) = insert-Inserts valid_u key value in
      let (r', run', i) = insert-Inserted valid_u key value in
      let same : r' ≡ r = done-injective (sym run' ∙ run) in
      (
        (r.0, under m.write_concern (r.1)),
        rw run,
        restored r ends (subst (Inserted (under wc_update m) key value) same i),
      )
