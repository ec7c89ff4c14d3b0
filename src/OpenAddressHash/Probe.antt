-- ===== src/OpenAddressHash/Probe.antt =====
-- The order in which the loops of open_address_hash.c visit the buckets.
use iondb.Base.{
  ℕ, zero, suc, ◌+◌, ◌-◌, ◌<◌, ◌≡◌, ◌≢◌, ◌⊎◌, inl, inr, ◌∙◌, some, List, length, get_elem?, set,
  get_elem?-set_self, get_elem?-set_ne, arith, ℕ_discrete,
}
use native.Mathlib.Decide.{dec_le}
use iondb.OpenAddressHash.{Bucket, empty, next_location}

pub next_location-lt : (loc size : ℕ) → 0 < size → next_location loc size < size
unfolding next_location
next_location-lt loc size h = ground arith

pub next_location-suc : (loc size : ℕ) → suc loc < size → next_location loc size ≡ suc loc
unfolding next_location
next_location-suc loc size h = ground arith

-- A walk of `rounds` buckets from `loc` visits `p`, and passes no empty bucket before it.
pub data OnPath {ℓ} {K V : Type ℓ} (entry : List (Bucket K V)) (size : ℕ) : ℕ → ℕ → ℕ → Type ℓ where
  here : {rounds loc p : ℕ} → loc ≡ p → OnPath entry size (suc rounds) loc p
  past :
      {rounds loc p : ℕ} (b : Bucket K V)
      → get_elem? entry loc ≡ some b
      → b.status ≢ empty
      → OnPath entry size rounds (next_location loc size) p
      → OnPath entry size (suc rounds) loc p

-- A walk of `rounds` buckets from `loc` visits `p`.
abbrev pub Visits : ℕ → ℕ → ℕ → ℕ → Type 0
Visits size zero loc p = ⊥
Visits size (suc rounds) loc p = (loc ≡ p) ⊎ Visits size rounds (next_location loc size) p

Visits-of-steps :
    (size rounds loc p d : ℕ)
    → loc < size
    → p < size
    → d < rounds
    → ((d + loc ≡ p) ⊎ (d + loc ≡ p + size))
    → Visits size rounds loc p
unfolding next_location
Visits-of-steps size zero loc p d hl hp hd e = absurd (omega arith)
Visits-of-steps size (suc rounds) loc p zero hl hp hd e = inl (omega arith)
Visits-of-steps size (suc rounds) loc p (suc d) hl hp hd e = inr (
    Visits-of-steps size rounds (next_location loc size) p d
      (next_location-lt loc size (omega arith)) hp (omega arith) (ground arith))

-- Going once round the array from any bucket visits every bucket.
pub Visits-all : (size loc p : ℕ) → loc < size → p < size → Visits size size loc p
Visits-all size loc p hl hp = elim (dec_le loc p) [
  | yes h ↦ Visits-of-steps size size loc p (p - loc) hl hp (omega arith) (inl (omega arith))
  | no h ↦ Visits-of-steps size size loc p (p + size - loc) hl hp (omega arith) (inr (omega arith))
]

-- A write of a bucket that is not empty keeps every path.
pub OnPath-set {ℓ} :
    {K V : Type ℓ} (entry : List (Bucket K V)) (size rounds loc p s : ℕ) (b : Bucket K V)
    → b.status ≢ empty
    → s < length entry
    → OnPath entry size rounds loc p
    → OnPath (set entry s b) size rounds loc p
OnPath-set entry size zero loc p s b ne hs h = elim h [ ]
OnPath-set entry size (suc rounds) loc p s b ne hs (here e) = here e
OnPath-set entry size (suc rounds) loc p s b ne hs (past c e nc h) =
    let rest = OnPath-set entry size rounds (next_location loc size) p s b ne hs h in
    elim (ℕ_discrete s loc) [
      | yes q ↦ past b (rw (← q) (get_elem?-set_self entry s b hs)) ne rest
      | no q ↦ past c (get_elem?-set_ne entry s loc b q ∙ e) nc rest
    ]
