-- ===== src/OpenAddressHash/Capacity.antt =====
-- When `insert` of open_address_hash.c runs out of room.
use iondb.Base.{ℕ, ◌<◌, ◌≡◌, ◌↔◌, ◌∙◌, sym, ap, some, false, get_elem?, arith}
use iondb.Base.Run.{done, done-injective}
use iondb.OpenAddressHash.Effects.{index-lt, insert-Inserts}
use iondb.OpenAddressHash.Insert.{Inserts, fills, meets, full}
use iondb.OpenAddressHash.Probe.{Visits-all}
use iondb.OpenAddressHash.Valid.{home, home-lt, IsValid}
use iondb.OpenAddressHash.{Bucket, in_use, HashMap, insert, write_free, write_existing}
use iondb.System.{
  Status, status_error, err_max_capacity, is_equal, WriteConcern, wc_update, wc_insert_unique,
  wc_duplicate,
}

-- Every bucket of the map is in use by a key other than `key`.
abbrev pub IsFullFor {ℓ} : {K V : Type ℓ} → HashMap K V → K → Type ℓ
IsFullFor {K} {V} m key =
    (p : ℕ)
    → p < m.map_size
    → (b : Bucket K V) × (get_elem? m.entry p ≡ some b)
      × (b.status ≡ in_use)
      × (is_equal (m.compare b.key key) ≡ false)

module _ {ℓ} {K V : Type ℓ} {m : HashMap K V} (valid : IsValid m) (key : K) (value : V) where
  not-meets :
      (s : ℕ) (b : Bucket K V) (c : WriteConcern)
      → ¬ (write_existing m s b value c ≡ (status_error err_max_capacity, m))
  unfolding write_existing
  not-meets s b wc_update h = cc (ap (λ (r : Status × HashMap K V). r.0) h)
  not-meets s b wc_insert_unique h = cc (ap (λ (r : Status × HashMap K V). r.0) h)
  not-meets s b wc_duplicate h = cc (ap (λ (r : Status × HashMap K V). r.0) h)

  pub refused :
      {r : Status × HashMap K V}
      → Inserts m key value m.map_size (home m key) r
      → r ≡ (status_error err_max_capacity, m)
      → IsFullFor m key
  unfolding write_free
  refused (fills s b e u path found stops w) h =
      absurd (cc (ap (λ (r : Status × HashMap K V). r.0) (sym w ∙ h)))
  refused (meets s b e u q found w) h = absurd (not-meets s b m.write_concern (sym w ∙ h))
  refused (full others w) h =
      λ p hp. others p (Visits-all m.map_size (home m key) p (home-lt valid key) hp)

  room :
      {r : Status × HashMap K V}
      → IsFullFor m key
      → Inserts m key value m.map_size (home m key) r
      → r ≡ (status_error err_max_capacity, m)
  room h (fills s b e u path found stops w) =
      let (c, f, t, ne) = h s (index-lt valid s b e) in absurd (u (ground arith))
  room h (meets s b e u q found w) =
      let (c, f, t, ne) = h s (index-lt valid s b e) in absurd (ground arith)
  room h (full others w) = w

  -- On a valid map `insert` refuses a key for want of room, and leaves the map as it is, exactly where
  -- every bucket is in use by another key.
  pub insert-full : (insert m key value ≡ done (status_error err_max_capacity, m)) ↔ IsFullFor m key
  insert-full =
      let (r, run, ends) = insert-Inserts valid key value in
      ((λ h. refused ends (done-injective (sym run ∙ h))), (λ h. run ∙ ap done (room h ends)))
