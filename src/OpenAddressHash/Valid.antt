-- ===== src/OpenAddressHash/Valid.antt =====
-- The well-formedness of the map of open_address_hash.c, and what an operation that writes one
-- bucket leaves alone.
use mathlib.Core.Path.{subst}
use iondb.Base.{
  ℕ, zero, suc, ◌%◌, ◌<◌, ◌≡◌, ◌≢◌, refl, sym, ◌∙◌, Option, none, some, length, get_elem?, set,
  get_elem?-set_self, get_elem?-set_ne, length-set, arith, ℕ_discrete, ap,
}
use iondb.Base.Int.{ℤ, pos, negsuc}
use iondb.Base.Run.{Run, done, fault, ◌>>=◌}
use iondb.Key.{KeyHash}
use iondb.OpenAddressHash.Probe.{OnPath, OnPath-set}
use iondb.OpenAddressHash.Find.{
  Holds, find_from-Holds, find_from-ne-fault, find_from-ne-none, written, Passed, Holds-written,
  find_from-written,
}
use iondb.OpenAddressHash.{Bucket, empty, in_use, HashMap, find_from, location, find_item_loc}

-- The remainder of a number that is not negative.
abbrev residue : ℤ → ℕ → ℕ
residue (pos n) size = n % size
residue (negsuc n) size = 0

-- The bucket at which the search for a key starts.
abbrev pub home {ℓ} : {K V : Type ℓ} → HashMap K V → K → ℕ
home m key = residue (m.compute_hash m.map_size key) m.map_size

-- `reachable`: no search for the key of a bucket in use meets an empty bucket before it.
pub record IsValid {ℓ} {K V : Type ℓ} (m : HashMap K V) : Type ℓ where
  pub keys : KeyHash m.compare m.compute_hash
  pub positive : 0 < m.map_size
  pub sized : length m.entry ≡ m.map_size
  pub reachable :
      (p : ℕ) (b : Bucket K V)
      → get_elem? m.entry p ≡ some b
      → b.status ≡ in_use
      → OnPath m.entry m.map_size m.map_size (home m b.key) p

pub location_lem : (num size : ℕ) → 0 < size → location (pos num) size ≡ done (num % size)
unfolding location
location_lem num zero h = elim h [ ]
location_lem num (suc n) h = refl

residue-lt : (num : ℤ) (size : ℕ) → 0 < size → residue num size < size
residue-lt (pos n) size h = omega arith
residue-lt (negsuc n) size h = h

module _ {ℓ} {K V : Type ℓ} {m : HashMap K V} (valid : IsValid m) where
  pub home-lt : (key : K) → home m key < m.map_size
  home-lt key = residue-lt (m.compute_hash m.map_size key) m.map_size valid.positive

  -- The location of a key is there.
  pub location-home :
      (key : K) → location (m.compute_hash m.map_size key) m.map_size ≡ done (home m key)
  location-home key =
      let (h, e) = valid.keys.nonnegative m.map_size key in
      ap (λ z. location z m.map_size) e
      ∙ location_lem h m.map_size valid.positive
      ∙ sym (ap (λ z. done (residue z m.map_size)) e)

  pub find_item_loc_lem : (key : K) → find_item_loc m key ≡ find_from m key m.map_size (home m key)
  unfolding find_item_loc
  find_item_loc_lem key = ap (λ r. r >>= find_from m key m.map_size) (location-home key)

  -- A key that some bucket holds is found.
  pub find_from-ne-none_of_Holds :
      (key : K) (p : ℕ) → Holds m p key → find_from m key m.map_size (home m key) ≢ done none
  find_from-ne-none_of_Holds key p (b, e, u, q) =
      let same : home m b.key ≡ home m key =
        ap (λ h. residue h m.map_size) (valid.keys.hash-equal m.map_size b.key key q) in
      find_from-ne-none m key m.map_size (home m key) p
        (subst (λ x. OnPath m.entry m.map_size m.map_size x p) same (valid.reachable p b e u))
        (b, e, u, q)

  -- The write of a bucket that a search passes over, in place of one that does not hold its key,
  -- does not change what the search finds.
  pub find_item_loc-written :
      (key : K) (s : ℕ) (b' : Bucket K V)
      → s < m.map_size
      → Passed m key b'
      → ¬ Holds m s key
      → find_from (written m s b') key m.map_size (home m key)
        ≡ find_from m key m.map_size (home m key)
  find_item_loc-written key s b' hs pass free =
      go (find_from m key m.map_size (home m key)) refl
        (find_from (written m s b') key m.map_size (home m key)) refl
    where
      hs' : s < length m.entry
      hs' = let e = valid.sized in omega arith

      go :
          (r : Run (Option ℕ))
          → find_from m key m.map_size (home m key) ≡ r
          → (r' : Run (Option ℕ)) → find_from (written m s b') key m.map_size (home m key) ≡ r'
          → r' ≡ r
      go fault e r' e' =
          absurd (find_from-ne-fault m key m.map_size (home m key) valid.sized (home-lt key) e)
      go (done (some p)) e r' e' =
          let held = find_from-Holds m key m.map_size (home m key) p e in
          let ne : s ≢ p = λ q. free (subst (λ x. Holds m x key) (sym q) held) in
          sym e' ∙ find_from-written m key s b' hs' pass m.map_size (home m key) p ne e
      go (done none) e fault e' = absurd (
          find_from-ne-fault (written m s b') key m.map_size (home m key)
            (length-set m.entry s b' ∙ valid.sized) (home-lt key) e')
      go (done none) e (done none) e' = refl
      go (done none) e (done (some p)) e' =
          let held = find_from-Holds (written m s b') key m.map_size (home m key) p e' in
          elim (ℕ_discrete s p) [
            | yes q ↦
                let (b, f, u, t) = held in
                let same : some b ≡ some b' =
                  sym f ∙ rw (← q) (get_elem?-set_self m.entry s b' hs') in
                absurd (ground (arith, pass.1))
            | no q ↦ absurd (find_from-ne-none_of_Holds key p (Holds-written m key s b' p q held) e)
          ]

  -- A write of a bucket that is not empty keeps the map valid, if a bucket in use is on its path.
  pub written-IsValid :
      (s : ℕ) (b' : Bucket K V)
      → s < m.map_size
      → b'.status ≢ empty
      → (b'.status ≡ in_use → OnPath m.entry m.map_size m.map_size (home m b'.key) s)
      → IsValid (written m s b')
  written-IsValid s b' hs ne path = record {
    keys = valid.keys;
    positive = valid.positive;
    sized = length-set m.entry s b' ∙ valid.sized;
    reachable = λ p b e u.
        OnPath-set m.entry m.map_size m.map_size (home m b.key) p s b' ne hs' (old p b e u);
  }
    where
      hs' : s < length m.entry
      hs' = let e = valid.sized in omega arith

      old :
          (p : ℕ) (b : Bucket K V)
          → get_elem? (set m.entry s b') p ≡ some b
          → b.status ≡ in_use
          → OnPath m.entry m.map_size m.map_size (home m b.key) p
      old p b e u = elim (ℕ_discrete s p) [
        | yes q ↦
            let same : b' ≡ b =
              cc (get_elem?-set_self m.entry s b' hs', ap (get_elem? (set m.entry s b')) q) in
            subst (λ x. OnPath m.entry m.map_size m.map_size (home m x.key) p) same
              (subst (λ x. OnPath m.entry m.map_size m.map_size (home m b'.key) x) q
                (path (ap (λ (x : Bucket K V). x.status) same ∙ u)))
        | no q ↦ valid.reachable p b (sym (get_elem?-set_ne m.entry s p b' q) ∙ e) u
      ]
