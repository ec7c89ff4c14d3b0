-- ===== src/OpenAddressHash/Find.antt =====
-- What `find_item_loc` of open_address_hash.c finds.
use iondb.Base.{
  ℕ, zero, suc, ◌<◌, ◌≡◌, ◌≢◌, inl, inr, refl, sym, ◌∙◌, Option, none, some, length, true, false,
  get_elem?, set, get_elem?-set_self, get_elem?-set_ne, get_elem?-some, arith, ℕ_discrete,
  Bool-cases, ap,
}
use mathlib.Core.Path.{subst}
use iondb.Base.Run.{done, fault}
use iondb.OpenAddressHash.Probe.{next_location-lt, OnPath, here, past}
use iondb.OpenAddressHash.{
  Bucket, BucketStatus, empty, deleted, in_use, HashMap, next_location, find_from,
}
use iondb.System.{is_equal}

-- A bucket in use whose key compares equal to `key`.
abbrev pub Holds {ℓ} : {K V : Type ℓ} → HashMap K V → ℕ → K → Type ℓ
Holds {K} {V} m p key =
    (b : Bucket K V) × (get_elem? m.entry p ≡ some b)
    × (b.status ≡ in_use)
    × (is_equal (m.compare b.key key) ≡ true)

-- What a search sees at one location.
pub data Cell {ℓ} {K V : Type ℓ} (m : HashMap K V) (key : K) (loc : ℕ) : Type ℓ where
  outside : get_elem? m.entry loc ≡ none → Cell m key loc
  stop : (b : Bucket K V) → get_elem? m.entry loc ≡ some b → b.status ≡ empty → Cell m key loc
  hit : Holds m loc key → Cell m key loc
  skip :
      (b : Bucket K V)
      → get_elem? m.entry loc ≡ some b
      → b.status ≢ empty
      → (b.status ≡ in_use → is_equal (m.compare b.key key) ≡ false)
      → Cell m key loc

module _ {ℓ} {K V : Type ℓ} (m : HashMap K V) (key : K) where
  pub see : (loc : ℕ) → Cell m key loc
  see loc = go (get_elem? m.entry loc) refl
    where
      by_status :
          (b : Bucket K V) (s : BucketStatus)
          → get_elem? m.entry loc ≡ some b
          → b.status ≡ s
          → Cell m key loc
      by_status b empty e es = stop b e es
      by_status b deleted e es = skip b e (cc) (λ h. cc)
      by_status b in_use e es = elim (Bool-cases (is_equal (m.compare b.key key))) [
        | inl q ↦ hit (b, e, es, q)
        | inr q ↦ skip b e (cc) (λ h. q)
      ]

      go : (o : Option (Bucket K V)) → get_elem? m.entry loc ≡ o → Cell m key loc
      go none e = outside e
      go (some b) e = by_status b b.status e refl

  module _ (rounds loc : ℕ) where
    pub find_from-stop :
        (b : Bucket K V)
        → get_elem? m.entry loc ≡ some b
        → b.status ≡ empty
        → find_from m key (suc rounds) loc ≡ done none
    unfolding find_from
    find_from-stop b e s = ground arith

    pub find_from-hit : Holds m loc key → find_from m key (suc rounds) loc ≡ done (some loc)
    unfolding find_from
    find_from-hit h = ground arith

    pub find_from-skip :
        (b : Bucket K V)
        → get_elem? m.entry loc ≡ some b
        → b.status ≢ empty
        → (b.status ≡ in_use → is_equal (m.compare b.key key) ≡ false)
        → find_from m key (suc rounds) loc ≡ find_from m key rounds (next_location loc m.map_size)
    unfolding find_from
    find_from-skip b e s q = ground arith

    find_from-outside : get_elem? m.entry loc ≡ none → find_from m key (suc rounds) loc ≡ fault
    unfolding find_from
    find_from-outside e = ground arith

  -- A location that is found holds the key.
  pub find_from-Holds :
      (rounds loc p : ℕ) → find_from m key rounds loc ≡ done (some p) → Holds m p key
  unfolding find_from
  find_from-Holds zero loc p h = ground arith
  find_from-Holds (suc rounds) loc p h = elim (see loc) [
    | outside e ↦ absurd (cc (find_from-outside rounds loc e))
    | stop b e s ↦ absurd (cc (find_from-stop rounds loc b e s))
    | hit q ↦
        let same : loc ≡ p = cc (find_from-hit rounds loc q) in subst (λ x. Holds m x key) same q
    | skip b e s q ↦
        find_from-Holds rounds (next_location loc m.map_size) p
          (sym (find_from-skip rounds loc b e s q) ∙ h)
  ]

  -- A search inside the array does not fault.
  pub find_from-ne-fault :
      (rounds loc : ℕ)
      → length m.entry ≡ m.map_size
      → loc < m.map_size
      → find_from m key rounds loc ≢ fault
  unfolding find_from
  find_from-ne-fault zero loc sized h = λ e. cc
  find_from-ne-fault (suc rounds) loc sized h = elim (see loc) [
    | outside e ↦ absurd (cc (get_elem?-some m.entry loc (omega arith)).1)
    | stop b e s ↦ rw (find_from-stop rounds loc b e s) (λ q. cc)
    | hit q ↦ rw (find_from-hit rounds loc q) (λ q. cc)
    | skip b e s q ↦ rw (find_from-skip rounds loc b e s q) (
        find_from-ne-fault rounds (next_location loc m.map_size) sized
          (next_location-lt loc m.map_size (omega arith)))
  ]

  -- A search from which the bucket of a key is on the path finds the key.
  pub find_from-ne-none :
      (rounds loc p : ℕ)
      → OnPath m.entry m.map_size rounds loc p
      → Holds m p key
      → find_from m key rounds loc ≢ done none
  find_from-ne-none zero loc p path held = elim path [ ]
  find_from-ne-none (suc rounds) loc p (here e) held =
      let q : Holds m loc key = subst (λ x. Holds m x key) (sym e) held in
      rw (find_from-hit rounds loc q) (λ q. cc)
  find_from-ne-none (suc rounds) loc p (past c f nc path) held = elim (see loc) [
    | outside e ↦ absurd (cc)
    | stop b e s ↦ absurd (nc (cc))
    | hit q ↦ rw (find_from-hit rounds loc q) (λ q. cc)
    | skip b e s q ↦
        rw (find_from-skip rounds loc b e s q)
          (find_from-ne-none rounds (next_location loc m.map_size) p path held)
  ]

-- The map after a bucket is written.
abbrev pub written {ℓ} : {K V : Type ℓ} → HashMap K V → ℕ → Bucket K V → HashMap K V
written m s b = record m { entry = set m.entry s b }

-- A bucket is passed over by a search for `key`.
abbrev pub Passed {ℓ} : {K V : Type ℓ} → HashMap K V → K → Bucket K V → Type 0
Passed m key b = (b.status ≢ empty) × (b.status ≡ in_use → is_equal (m.compare b.key key) ≡ false)

module _ {ℓ} {K V : Type ℓ} (m : HashMap K V) (key : K) (s : ℕ) (b' : Bucket K V) where
  pub Holds-written : (p : ℕ) → s ≢ p → Holds (written m s b') p key → Holds m p key
  Holds-written p ne (b, e, u, q) = (b, sym (get_elem?-set_ne m.entry s p b' ne) ∙ e, u, q)

  pub written-Holds : (p : ℕ) → s ≢ p → Holds m p key → Holds (written m s b') p key
  written-Holds p ne (b, e, u, q) = (b, get_elem?-set_ne m.entry s p b' ne ∙ e, u, q)

  -- A search that ends elsewhere is not changed by a bucket that it passes over.
  pub find_from-written :
      s < length m.entry
      → Passed m key b'
      → (rounds loc p : ℕ) → s ≢ p
      → find_from m key rounds loc ≡ done (some p)
      → find_from (written m s b') key rounds loc ≡ done (some p)
  unfolding find_from
  find_from-written hs pass zero loc p ne h = ground arith
  find_from-written hs pass (suc rounds) loc p ne h = elim (see m key loc) [
    | outside e ↦ absurd (cc (find_from-outside m key rounds loc e))
    | stop b e t ↦ absurd (cc (find_from-stop m key rounds loc b e t))
    | hit q ↦
        let same : loc ≡ p = cc (find_from-hit m key rounds loc q) in
        find_from-hit (written m s b') key rounds loc (written-Holds loc (λ t. ne (t ∙ same)) q)
        ∙ ap (λ x. done (some x)) same
    | skip b e t q ↦
        let rest =
          find_from-written hs pass rounds (next_location loc m.map_size) p ne
            (sym (find_from-skip m key rounds loc b e t q) ∙ h) in
        elim (ℕ_discrete s loc) [
          | yes same ↦
              find_from-skip (written m s b') key rounds loc b'
                (rw (← same) (get_elem?-set_self m.entry s b' hs)) pass.0 pass.1
              ∙ rest
          | no other ↦
              find_from-skip (written m s b') key rounds loc b
                (get_elem?-set_ne m.entry s loc b' other ∙ e) t q
              ∙ rest
        ]
  ]

  -- A search that ends at the written bucket still does, if the bucket holds the key.
  pub find_from-replaced :
      Holds (written m s b') s key
      → (rounds loc : ℕ) → find_from m key rounds loc ≡ done (some s)
      → find_from (written m s b') key rounds loc ≡ done (some s)
  unfolding find_from
  find_from-replaced held zero loc h = ground arith
  find_from-replaced held (suc rounds) loc h = elim (ℕ_discrete s loc) [
    | yes same ↦
        find_from-hit (written m s b') key rounds loc
          (subst (λ x. Holds (written m s b') x key) same held)
        ∙ ap (λ x. done (some x)) (sym same)
    | no other ↦ elim (see m key loc) [
      | outside e ↦ absurd (cc (find_from-outside m key rounds loc e))
      | stop b e t ↦ absurd (cc (find_from-stop m key rounds loc b e t))
      | hit q ↦ absurd (other (cc (find_from-hit m key rounds loc q)))
      | skip b e t q ↦
          find_from-skip (written m s b') key rounds loc b
            (get_elem?-set_ne m.entry s loc b' other ∙ e) t q
          ∙ find_from-replaced held rounds (next_location loc m.map_size)
              (sym (find_from-skip m key rounds loc b e t q) ∙ h)
    ]
  ]
