-- ===== src/Key.antt =====
-- What the dictionaries of src/dictionary ask of the comparison function in
-- `dictionary_parent.compare` and of a hash function: the interface that the functions of
-- dictionary.c fill and that each dictionary uses.
use iondb.Base.{ℕ, ◌≡◌, ◌≢◌, true, arith}
use iondb.Base.Int.{ℤ, pos}
use iondb.System.{Comparison, a_lt_b, a_equ_b, a_gt_b, is_equal}

-- The comparison with its arguments exchanged.
abbrev pub flip : Comparison → Comparison
flip a_lt_b = a_gt_b
flip a_equ_b = a_equ_b
flip a_gt_b = a_lt_b

-- A comparison function is a total preorder.
pub record KeyOrder {ℓ} {K : Type ℓ} (compare : K → K → Comparison) : Type ℓ where
  pub compare_refl : (a : K) → compare a a ≡ a_equ_b
  pub compare_flip : (a b : K) → compare b a ≡ flip (compare a b)
  pub compare_trans :
      (a b c : K) → compare a b ≢ a_gt_b → compare b c ≢ a_gt_b → compare a c ≢ a_gt_b

module _ {ℓ} {K : Type ℓ} {compare : K → K → Comparison} (order : KeyOrder compare) where
  pub equal_refl : (a : K) → is_equal (compare a a) ≡ true
  equal_refl a = ground (arith, order.compare_refl a)

  pub equal_symm : (a b : K) → is_equal (compare a b) ≡ true → is_equal (compare b a) ≡ true
  equal_symm a b h = ground (arith, order.compare_flip a b)

  pub equal_trans :
      (a b c : K)
      → is_equal (compare a b) ≡ true
      → is_equal (compare b c) ≡ true
      → is_equal (compare a c) ≡ true
  equal_trans a b c h k = ground (
    arith,
    order.compare_flip a b,
    order.compare_flip b c,
    order.compare_flip a c,
    order.compare_trans a b c,
    order.compare_trans c b a,
  )

  -- Keys that compare equal compare alike with every key.
  pub compare_congr : (a b c : K) → is_equal (compare a b) ≡ true → compare a c ≡ compare b c
  compare_congr a b c h = ground (
    arith,
    order.compare_flip a b,
    order.compare_flip b c,
    order.compare_flip a c,
    order.compare_trans a b c,
    order.compare_trans b a c,
    order.compare_trans c a b,
    order.compare_trans c b a,
  )

-- A hash function gives no negative numbers, and keys that compare equal the same hash.
pub record KeyHash {ℓ} {K : Type ℓ} (compare : K → K → Comparison) (hash : ℕ → K → ℤ) : Type ℓ where
  pub order : KeyOrder compare
  pub nonnegative : (n : ℕ) (a : K) → (h : ℕ) × (hash n a ≡ pos h)
  pub hash-equal : (n : ℕ) (a b : K) → is_equal (compare a b) ≡ true → hash n a ≡ hash n b
