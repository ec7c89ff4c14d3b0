-- ===== src/OpenAddressHash/Start.antt =====
-- The map that `initialize` of open_address_hash.c leaves.
use iondb.Base.{
  ℕ, ◌<◌, ◌≡◌, refl, ◌∙◌, none, some, List, [], ◌∷◌, zero, suc, map, length, length-map, get_elem?,
  arith,
}
use iondb.Base.Int.{ℤ}
use iondb.Base.Run.{done}
use iondb.Key.{KeyHash}
use iondb.OpenAddressHash.Find.{Holds}
use iondb.OpenAddressHash.Unique.{IsUnique, HasNoDeleted, missing-get}
use iondb.OpenAddressHash.Valid.{IsValid}
use iondb.OpenAddressHash.{Bucket, empty, HashMap, initialize, clear_bucket, get}
use iondb.System.{Comparison, status_error, err_item_not_found, err_ok}

module _ {ℓ} {K V : Type ℓ} where
  get_elem?-clear :
      (memory : List (Bucket K V)) (p : ℕ) (b : Bucket K V)
      → get_elem? (map clear_bucket memory) p ≡ some b
      → b.status ≡ empty
  unfolding clear_bucket
  get_elem?-clear [] p b e = ground arith
  get_elem?-clear (c ∷ cs) zero b e = ground arith
  get_elem?-clear (c ∷ cs) (suc p) b e = get_elem?-clear cs p b e

module _ {ℓ} {K V : Type ℓ} (compare : K → K → Comparison) (hash : ℕ → K → ℤ)
    (keys : KeyHash compare hash) (size : ℕ) (positive : 0 < size) (memory : List (Bucket K V))
    (allocated : length memory ≡ size) where
  abbrev started : HashMap K V
  started = (initialize hash compare size (some memory)).1

  started-IsValid : IsValid started
  unfolding initialize
  started-IsValid = record {
    keys = keys;
    positive = positive;
    sized = length-map memory clear_bucket ∙ allocated;
    reachable = λ p b e u. absurd (cc (get_elem?-clear memory p b e));
  }

  unheld : (key : K) (p : ℕ) → ¬ Holds started p key
  unfolding initialize
  unheld key p (b, e, u, q) = cc (get_elem?-clear memory p b e)

  -- With a size of at least 1, a comparison that orders the keys, and a hash that agrees with it and is
  -- not negative: over a block of that size, whatever it contains, `initialize` succeeds and leaves a
  -- valid map that holds no key: `get` finds nothing, and no bucket is marked as deleted.
  pub initialize-IsValid :
      ((initialize hash compare size (some memory)).0 ≡ err_ok)
      × IsValid started
      × IsUnique started
      × HasNoDeleted started
      × ((key : K) → get started key ≡ done (status_error err_item_not_found, none))
  unfolding initialize
  initialize-IsValid = (
    refl,
    started-IsValid,
    (λ key p q h g. absurd (unheld key p h)),
    (λ p b e t. cc (get_elem?-clear memory p b e)),
    (λ key. missing-get started-IsValid key (unheld key)),
  )
