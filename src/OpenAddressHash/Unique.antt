-- ===== src/OpenAddressHash/Unique.antt =====
-- When the map of open_address_hash.c holds each key at most once.
use iondb.Base.{
  ℕ, ◌≡◌, ◌≢◌, sym, ◌∙◌, none, some, true, get_elem?, set, arith, get_elem?-set_self,
  lt-of-get_elem?,
}
use mathlib.Core.Path.{subst}
use iondb.Base.Run.{done, done-injective, Returns}
use iondb.Key.{equal_trans}
use iondb.OpenAddressHash.Delete.{Deletes, marks, keeps, delete-Deletes}
use iondb.OpenAddressHash.Effects.{delete-Deleted}
use iondb.OpenAddressHash.Find.{Holds, written, Holds-written}
use iondb.OpenAddressHash.Get.{found, missing, get-Gets}
use iondb.OpenAddressHash.Valid.{IsValid}
use iondb.OpenAddressHash.{Bucket, deleted, in_use, HashMap, delete, get}
use iondb.System.{Status, status_error, err_item_not_found, is_equal}

-- Two buckets that hold one key are the same bucket.
abbrev pub IsUnique {ℓ} : {K V : Type ℓ} → HashMap K V → Type ℓ
IsUnique {K} m = (key : K) (p q : ℕ) → Holds m p key → Holds m q key → p ≡ q

-- No bucket is marked as deleted.
abbrev pub HasNoDeleted {ℓ} : {K V : Type ℓ} → HashMap K V → Type ℓ
HasNoDeleted {K} {V} m =
    (p : ℕ) (b : Bucket K V) → get_elem? m.entry p ≡ some b → b.status ≢ deleted

module _ {ℓ} {K V : Type ℓ} {m : HashMap K V} (valid : IsValid m) where
  pub missing-get :
      (key : K)
      → ((p : ℕ) → ¬ Holds m p key)
      → get m key ≡ done (status_error err_item_not_found, none)
  missing-get key unheld = elim (get-Gets valid key) [
    | found p b e u q f g ↦ absurd (unheld p (b, e, u, q))
    | missing none_held f g ↦ g
  ]

  -- A bucket that holds a key holds every key that compares equal.
  pub Holds-equal :
      (key other : K) (p : ℕ)
      → is_equal (m.compare key other) ≡ true
      → Holds m p key
      → Holds m p other
  Holds-equal key other p same (b, e, u, q) =
      (b, e, u, equal_trans valid.keys.order b.key key other q same)

  module _ (s : ℕ) (b : Bucket K V) (e : get_elem? m.entry s ≡ some b) where
    -- A bucket that was marked as deleted holds no key.
    pub not_marked :
        (key : K) (p : ℕ) → Holds (written m s (record b { status = deleted })) p key → s ≢ p
    not_marked key p (c, f, t, q) same =
        let here : get_elem? (set m.entry s (record b { status = deleted })) s
            ≡ some (record b { status = deleted }) =
          get_elem?-set_self m.entry s (record b { status = deleted })
            (lt-of-get_elem? m.entry s e) in
        let there : some c ≡ some (record b { status = deleted }) = sym f ∙ rw (← same) here in
        ground arith

    IsUnique-marked : IsUnique m → IsUnique (written m s (record b { status = deleted }))
    IsUnique-marked unique key p q hp hq =
        unique key p q
          (Holds-written m key s (record b { status = deleted }) p (not_marked key p hp) hp)
          (Holds-written m key s (record b { status = deleted }) q (not_marked key q hq) hq)

module _ {ℓ} {K V : Type ℓ} {m : HashMap K V} (valid : IsValid m) (key : K) where
  unheld_marked :
      IsUnique m
      → (s : ℕ) (b : Bucket K V) → get_elem? m.entry s ≡ some b
      → b.status ≡ in_use
      → is_equal (m.compare b.key key) ≡ true
      → (p : ℕ) → ¬ Holds (written m s (record b { status = deleted })) p key
  unheld_marked unique s b e u q p held =
      let ne = not_marked valid s b e key p held in
      ne (
        unique key s p (b, e, u, q)
          (Holds-written m key s (record b { status = deleted }) p ne held))

  -- After `delete` on a valid map that holds each key at most once, this is still so, and `get` does
  -- not find the key.
  pub get-delete :
      IsUnique m
      → Returns
          (delete m key)
          λ r. IsUnique (r.1) × (get (r.1) key ≡ done (status_error err_item_not_found, none))
  get-delete unique =
      let (r, run, effect) = delete-Deletes valid key in
      let (r', run', kept) = delete-Deleted valid key in
      let same : r' ≡ r = done-injective (sym run' ∙ run) in
      (r, run, after r (subst (λ x. IsValid (x.1)) same kept.valid) effect)
    where
      after :
          (r : Status × HashMap K V)
          → IsValid (r.1)
          → Deletes m key r
          → IsUnique (r.1) × (get (r.1) key ≡ done (status_error err_item_not_found, none))
      after r valid' (keeps unheld w) = (
        subst (λ (x : Status × HashMap K V). IsUnique (x.1)) (sym w) unique,
        missing-get valid' key
            (subst (λ (x : Status × HashMap K V). (p : ℕ) → ¬ Holds (x.1) p key) (sym w) unheld),
      )
      after r valid' (marks s b e u q w) = (
        subst (λ (x : Status × HashMap K V). IsUnique (x.1)) (sym w)
            (IsUnique-marked valid s b e unique),
        missing-get valid' key (
            subst (λ (x : Status × HashMap K V). (p : ℕ) → ¬ Holds (x.1) p key) (sym w)
              (unheld_marked unique s b e u q)),
      )
