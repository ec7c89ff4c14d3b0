-- ===== src/OpenAddressHash/Insert.antt =====
-- The loop of `insert` of open_address_hash.c.
use iondb.Base.{
  ℕ, zero, suc, ◌<◌, ◌≡◌, ◌≢◌, ◌⊎◌, inl, inr, refl, sym, ◌∙◌, none, some, length, true, false,
  get_elem?, get_elem?-set_self, get_elem?-set_ne, get_elem?-some, arith, ℕ_discrete, Bool-cases,
  ap, lt-of-get_elem?,
}
use iondb.Base.Run.{done, Returns}
use iondb.OpenAddressHash.Probe.{next_location-lt, OnPath, here, past, Visits}
use iondb.OpenAddressHash.Find.{find_from-hit, find_from-stop, find_from-skip, written}
use iondb.OpenAddressHash.{
  Bucket, BucketStatus, empty, deleted, in_use, HashMap, next_location, find_from, insert_from,
  write_free, write_existing,
}
use iondb.System.{Status, status_error, err_max_capacity, is_equal}

-- The bucket that `insert` writes where the key is not there.
abbrev pub fresh {ℓ} : {K V : Type ℓ} → K → V → Bucket K V
fresh key value = record { status = in_use; key = key; value = value }

-- How the loop of `insert` ends, walking `rounds` buckets from `loc`.
pub data Inserts {ℓ} {K V : Type ℓ} (m : HashMap K V) (key : K) (value : V) (rounds loc : ℕ)
    (r : Status × HashMap K V) : Type ℓ where
  -- It fills a bucket that is not in use, before which every bucket is in use by another key.
  fills :
      (s : ℕ) (b : Bucket K V)
      → get_elem? m.entry s ≡ some b
      → b.status ≢ in_use
      → OnPath m.entry m.map_size rounds loc s
      → find_from (written m s (fresh key value)) key rounds loc ≡ done (some s)
      → (b.status ≡ empty → find_from m key rounds loc ≡ done none)
      → r ≡ write_free m s key value
      → Inserts m key value rounds loc r
  -- It meets the key.
  meets :
      (s : ℕ) (b : Bucket K V)
      → get_elem? m.entry s ≡ some b
      → b.status ≡ in_use
      → is_equal (m.compare b.key key) ≡ true
      → find_from m key rounds loc ≡ done (some s)
      → r ≡ write_existing m s b value m.write_concern
      → Inserts m key value rounds loc r
  -- Every bucket is in use by another key.
  full :
      ((p : ℕ)
        → Visits m.map_size rounds loc p
        → (b : Bucket K V) × (get_elem? m.entry p ≡ some b)
          × (b.status ≡ in_use)
          × (is_equal (m.compare b.key key) ≡ false))
      → r ≡ (status_error err_max_capacity, m)
      → Inserts m key value rounds loc r

module _ {ℓ} {K V : Type ℓ} (m : HashMap K V) (key : K) (value : V) where
  module _ (rounds loc : ℕ) (b : Bucket K V) (e : get_elem? m.entry loc ≡ some b) where
    insert_from-free :
        b.status ≢ in_use
        → insert_from m key value (suc rounds) loc ≡ done (write_free m loc key value)
    unfolding insert_from
    insert_from-free u = ground arith

    insert_from-meet :
        b.status ≡ in_use
        → is_equal (m.compare b.key key) ≡ true
        → insert_from m key value (suc rounds) loc
          ≡ done (write_existing m loc b value m.write_concern)
    unfolding insert_from
    insert_from-meet u q = ground arith

    insert_from-skip :
        b.status ≡ in_use
        → is_equal (m.compare b.key key) ≡ false
        → insert_from m key value (suc rounds) loc
          ≡ insert_from m key value rounds (next_location loc m.map_size)
    unfolding insert_from
    insert_from-skip u q = ground arith

    -- One more bucket, in use by another key, in front of a walk.
    Inserts-skip :
        {r : Status × HashMap K V}
        → is_equal (m.compare key key) ≡ true
        → b.status ≡ in_use
        → is_equal (m.compare b.key key) ≡ false
        → Inserts m key value rounds (next_location loc m.map_size) r
        → Inserts m key value (suc rounds) loc r
    Inserts-skip self u q (fills s c f v path found stops w) =
        fills s c f v (past b e (cc) path)
          (elim (ℕ_discrete s loc) [
            | yes same ↦
                find_from-hit (written m s (fresh key value)) key rounds loc (
                  fresh key value,
                  rw (← same) (
                      get_elem?-set_self m.entry s (fresh key value) (lt-of-get_elem? m.entry s f)),
                  refl,
                  self,
                )
                ∙ ap (λ x. done (some x)) (sym same)
            | no other ↦
                find_from-skip (written m s (fresh key value)) key rounds loc b
                  (get_elem?-set_ne m.entry s loc (fresh key value) other ∙ e) (cc) (λ _. q)
                ∙ found
          ])
          (λ t. find_from-skip m key rounds loc b e (cc) (λ _. q) ∙ stops t) w
    Inserts-skip self u q (meets s c f v t found w) =
        meets s c f v t (find_from-skip m key rounds loc b e (cc) (λ _. q) ∙ found) w
    Inserts-skip self u q (full others w) = full all w
      where
        all :
            (p : ℕ)
            → (loc ≡ p) ⊎ Visits m.map_size rounds (next_location loc m.map_size) p
            → (b : Bucket K V) × (get_elem? m.entry p ≡ some b)
              × (b.status ≡ in_use)
              × (is_equal (m.compare b.key key) ≡ false)
        all p (inl same) = (b, rw (← same) e, u, q)
        all p (inr h) = others p h

  fills_here :
      (rounds loc : ℕ) (b : Bucket K V)
      → is_equal (m.compare key key) ≡ true
      → get_elem? m.entry loc ≡ some b
      → b.status ≢ in_use
      → Returns (insert_from m key value (suc rounds) loc) (Inserts m key value (suc rounds) loc)
  fills_here rounds loc b self e u = (
    write_free m loc key value,
    insert_from-free rounds loc b e u,
    fills loc b e u (here refl)
        (find_from-hit (written m loc (fresh key value)) key rounds loc (
          fresh key value,
          get_elem?-set_self m.entry loc (fresh key value) (lt-of-get_elem? m.entry loc e),
          refl,
          self,
        ))
        (find_from-stop m key rounds loc b e) refl,
  )

  -- The loop ends, inside the array, in one of the three ways.
  pub insert_from-Inserts :
      is_equal (m.compare key key) ≡ true
      → length m.entry ≡ m.map_size
      → (rounds loc : ℕ) → loc < m.map_size
      → Returns (insert_from m key value rounds loc) (Inserts m key value rounds loc)
  unfolding insert_from
  insert_from-Inserts self sized zero loc h =
      ((status_error err_max_capacity, m), refl, full (λ p v. elim v [ ]) refl)
  insert_from-Inserts self sized (suc rounds) loc h =
      let (b, e) = get_elem?-some m.entry loc (omega arith) in
      by_status b e
        (insert_from-Inserts self sized rounds (next_location loc m.map_size)
          (next_location-lt loc m.map_size (omega arith)))
        b.status refl
    where
      by_status :
          (b : Bucket K V)
          → get_elem? m.entry loc ≡ some b
          → Returns
              (insert_from m key value rounds (next_location loc m.map_size))
              (Inserts m key value rounds (next_location loc m.map_size))
          → (t : BucketStatus) → b.status ≡ t
          → Returns
              (insert_from m key value (suc rounds) loc)
              (Inserts m key value (suc rounds) loc)
      by_status b e rest empty u = fills_here rounds loc b self e (cc)
      by_status b e rest deleted u = fills_here rounds loc b self e (cc)
      by_status b e (r, run, ends) in_use u = elim (Bool-cases (is_equal (m.compare b.key key))) [
        | inl q ↦ (
          write_existing m loc b value m.write_concern,
          insert_from-meet rounds loc b e u q,
          meets loc b e u q (find_from-hit m key rounds loc (b, e, u, q)) refl,
        )
        | inr q ↦ (
          r,
          insert_from-skip rounds loc b e u q ∙ run,
          Inserts-skip rounds loc b e self u q ends,
        )
      ]
