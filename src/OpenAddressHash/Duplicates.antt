-- ===== src/OpenAddressHash/Duplicates.antt =====
-- Whether `insert` of open_address_hash.c keeps each key in one bucket.
use iondb.Base.{
  ℕ, ◌≡◌, ◌≢◌, refl, sym, ◌∙◌, ap, some, true, get_elem?, set, arith, ℕ_discrete,
  get_elem?-set_self, get_elem?-set_ne, lt-of-get_elem?,
}
use mathlib.Core.Path.{subst}
use iondb.Base.Run.{done, done-injective, Returns}
use iondb.Key.{equal_refl, equal_symm}
use iondb.OpenAddressHash.Effects.{insert-Inserts}
use iondb.OpenAddressHash.Find.{Holds, written, Holds-written, written-Holds}
use iondb.OpenAddressHash.Insert.{fresh, Inserts, fills, meets, full}
use iondb.OpenAddressHash.Unique.{IsUnique, HasNoDeleted, Holds-equal}
use iondb.OpenAddressHash.Valid.{home, IsValid, find_from-ne-none_of_Holds}
use iondb.OpenAddressHash.{
  Bucket, BucketStatus, empty, deleted, in_use, HashMap, insert, write_free, write_existing,
}
use iondb.System.{
  Status, status_ok, is_equal, WriteConcern, wc_insert_unique, wc_update, wc_duplicate,
}

-- Two different buckets hold the key.
abbrev pub IsHeldTwice {ℓ} : {K V : Type ℓ} → HashMap K V → K → Type ℓ
IsHeldTwice m key = (p : ℕ) × (q : ℕ) × (p ≢ q) × Holds m p key × Holds m q key

module _ {ℓ} {K V : Type ℓ} {m : HashMap K V} (valid : IsValid m) (key : K) (value : V) where
  fresh-Holds :
      (s : ℕ) (b : Bucket K V)
      → get_elem? m.entry s ≡ some b
      → Holds (written m s (fresh key value)) s key
  fresh-Holds s b e = (
    fresh key value,
    get_elem?-set_self m.entry s (fresh key value) (lt-of-get_elem? m.entry s e),
    refl,
    equal_refl valid.keys.order key,
  )

  filled_twice :
      (s : ℕ) (b : Bucket K V)
      → get_elem? m.entry s ≡ some b
      → b.status ≢ in_use
      → ((p : ℕ) × Holds m p key)
      → IsHeldTwice ((write_free m s key value).1) key
  unfolding write_free
  filled_twice s b e u (p, (c, f, t, q)) =
      let ne : s ≢ p = λ same. u (ground arith) in
      (s, p, ne, fresh-Holds s b e, written-Holds m key s (fresh key value) p ne (c, f, t, q))

  -- On a valid map whose write concern is `wc_insert_unique`, an `insert` of a key that some bucket
  -- holds leaves that key in two different buckets if it reports success.
  pub insert-IsHeldTwice :
      {m' : HashMap K V}
      → m.write_concern ≡ wc_insert_unique
      → ((p : ℕ) × Holds m p key)
      → insert m key value ≡ done (status_ok 1, m')
      → IsHeldTwice m' key
  unfolding write_existing
  insert-IsHeldTwice {m'} concern held run =
      let (r, run', ends) = insert-Inserts valid key value in
      go r ends (done-injective (sym run' ∙ run))
    where
      go :
          (r : Status × HashMap K V)
          → Inserts m key value m.map_size (home m key) r
          → r ≡ (status_ok 1, m')
          → IsHeldTwice m' key
      go r (fills s b e u path found stops w) same =
          let changed : m' ≡ (write_free m s key value).1 =
            ap (λ (x : Status × HashMap K V). x.1) (sym same ∙ w) in
          subst (λ n. IsHeldTwice n key) (sym changed) (filled_twice s b e u held)
      go r (meets s b e u q found w) same =
          let w' : r ≡ write_existing m s b value wc_insert_unique =
            w ∙ ap (write_existing m s b value) concern in
          absurd (cc (ap (λ (x : Status × HashMap K V). x.0) (sym same ∙ w')))
      go r (full others w) same =
          absurd (cc (ap (λ (x : Status × HashMap K V). x.0) (sym same ∙ w)))

  IsUnique-fresh :
      (s : ℕ) (b : Bucket K V)
      → get_elem? m.entry s ≡ some b
      → ((p : ℕ) → ¬ Holds m p key)
      → IsUnique m
      → IsUnique (written m s (fresh key value))
  IsUnique-fresh s b e unheld unique k p q hp hq = elim (ℕ_discrete s p) [
    | yes sp ↦ elim (ℕ_discrete s q) [
      | yes sq ↦ sym sp ∙ sq
      | no nq ↦ absurd (clash k p q sp nq hp hq)
    ]
    | no np ↦ elim (ℕ_discrete s q) [
      | yes sq ↦ absurd (clash k q p sq np hq hp)
      | no nq ↦
          unique k p q (Holds-written m k s (fresh key value) p np hp)
            (Holds-written m k s (fresh key value) q nq hq)
    ]
  ]
    where
      at : get_elem? (set m.entry s (fresh key value)) s ≡ some (fresh key value)
      at = get_elem?-set_self m.entry s (fresh key value) (lt-of-get_elem? m.entry s e)

      clash :
          (k : K) (p q : ℕ)
          → s ≡ p
          → s ≢ q
          → Holds (written m s (fresh key value)) p k
          → Holds (written m s (fresh key value)) q k
          → ⊥
      clash k p q sp nq (c, f, t, same) hq =
          let is_fresh : some c ≡ some (fresh key value) = sym f ∙ rw (← sp) at in
          let key_k : is_equal (m.compare key k) ≡ true = ground arith in
          unheld q (
            Holds-equal valid k key q (equal_symm valid.keys.order key k key_k)
              (Holds-written m k s (fresh key value) q nq hq))

  -- A bucket that gets a new value holds the same keys as before.
  IsUnique-over :
      (s : ℕ) (b : Bucket K V)
      → get_elem? m.entry s ≡ some b
      → b.status ≡ in_use
      → IsUnique m
      → IsUnique (written m s (record b { value = value }))
  IsUnique-over s b e u unique k p q hp hq = unique k p q (before p hp) (before q hq)
    where
      b' : Bucket K V
      b' = record b { value = value }

      at : get_elem? (set m.entry s b') s ≡ some b'
      at = get_elem?-set_self m.entry s b' (lt-of-get_elem? m.entry s e)

      before : (p : ℕ) → Holds (written m s b') p k → Holds m p k
      before p (c, f, t, same) = elim (ℕ_discrete s p) [
        | no np ↦ Holds-written m k s b' p np (c, f, t, same)
        | yes sp ↦
            let is_new : some c ≡ some b' = sym f ∙ rw (← sp) at in
            (b, rw (← sp) e, u, ground arith)
      ]

  HasNoDeleted-written :
      (s : ℕ) (b : Bucket K V) (b' : Bucket K V)
      → get_elem? m.entry s ≡ some b
      → b'.status ≢ deleted
      → HasNoDeleted m
      → HasNoDeleted (written m s b')
  HasNoDeleted-written s b b' e ne clean p c f = elim (ℕ_discrete s p) [
    | no np ↦ clean p c (sym (get_elem?-set_ne m.entry s p b' np) ∙ f)
    | yes sp ↦
        let at = get_elem?-set_self m.entry s b' (lt-of-get_elem? m.entry s e) in
        let same : some c ≡ some b' = sym f ∙ rw (← sp) at in ground arith
  ]

  module _ (unique : IsUnique m) (clean : HasNoDeleted m) where
    Inserts-IsUnique :
        {r : Status × HashMap K V}
        → Inserts m key value m.map_size (home m key) r
        → IsUnique (r.1) × HasNoDeleted (r.1)
    unfolding write_free write_existing
    Inserts-IsUnique (full others w) =
        subst (λ (x : Status × HashMap K V). IsUnique (x.1) × HasNoDeleted (x.1)) (sym w)
          (unique, clean)
    Inserts-IsUnique (fills s b e u path found stops w) =
        subst (λ (x : Status × HashMap K V). IsUnique (x.1) × HasNoDeleted (x.1)) (sym w)
          (
            IsUnique-fresh s b e
                (λ p h. find_from-ne-none_of_Holds valid key p h (stops (free b.status refl)))
                unique,
            HasNoDeleted-written s b (fresh key value) e (λ t. cc) clean,
          )
      where
        free : (t : BucketStatus) → b.status ≡ t → b.status ≡ empty
        free empty h = h
        free deleted h = absurd (clean s b e h)
        free in_use h = absurd (u h)
    Inserts-IsUnique (meets s b e u q found w) =
        subst (λ (x : Status × HashMap K V). IsUnique (x.1) × HasNoDeleted (x.1)) (sym w)
          (by_concern m.write_concern)
      where
        by_concern :
            (c : WriteConcern)
            → IsUnique ((write_existing m s b value c).1)
              × HasNoDeleted ((write_existing m s b value c).1)
        by_concern wc_insert_unique = (unique, clean)
        by_concern wc_duplicate = (unique, clean)
        by_concern wc_update = (
          IsUnique-over s b e u unique,
          HasNoDeleted-written s b (record b { value = value }) e (λ t. cc) clean,
        )

    -- On a valid map that holds each key at most once and in which no bucket is marked as deleted,
    -- `insert` keeps both, whatever it returns.
    pub insert-IsUnique : Returns (insert m key value) λ r. IsUnique (r.1) × HasNoDeleted (r.1)
    insert-IsUnique =
        let (r, run, ends) = insert-Inserts valid key value in (r, run, Inserts-IsUnique ends)
