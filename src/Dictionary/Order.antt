-- ===== src/Dictionary/Order.antt =====
-- The comparison functions of dictionary.c for numeric keys are total preorders.
use iondb.Base.{
  ℕ, zero, suc, ◌-◌, ◌/◌, ◌<◌, ◌≡◌, ◌≢◌, refl, sym, ap, ◌∙◌, arith, ℕ_discrete, true, if◌then◌else◌,
}
use iondb.Dictionary.Compare.{
  Bytes, byte_at, difference, compare_bytes, initial_value, compare_unsigned_value,
  compare_signed_value,
}
use iondb.Key.{KeyOrder, flip}
use iondb.System.{Comparison, a_equ_b, a_gt_b, is_equal}

difference_refl : (a : ℕ) → difference a a ≡ a_equ_b
unfolding difference
difference_refl a = ground arith

difference-flip : (a b : ℕ) → difference b a ≡ flip (difference a b)
unfolding difference
difference-flip a b = ground arith

difference_eq : (a b : ℕ) → difference a b ≡ a_equ_b → a ≡ b
unfolding difference
difference_eq a b h = ground arith

difference_trans :
    (a b c : ℕ) → difference a b ≢ a_gt_b → difference b c ≢ a_gt_b → difference a c ≢ a_gt_b
unfolding difference
difference_trans a b c h k = ground arith

-- Comparisons of two pairs, of which the second decides where the first is equal.
abbrev pub then_by : Comparison → Comparison → Comparison
then_by d rest = if is_equal d then rest else d

-- The loop reads its `return_value` only where no byte is left.
pub compare_bytes-suc :
    (a b : Bytes) (n : ℕ) (r : Comparison)
    → compare_bytes a b (suc n) r
      ≡ then_by (difference (byte_at a n) (byte_at b n)) (compare_bytes a b n a_equ_b)
unfolding compare_bytes
compare_bytes-suc a b n r = ground arith

compare_bytes_refl : (a : Bytes) (n : ℕ) → compare_bytes a a n a_equ_b ≡ a_equ_b
unfolding compare_bytes
compare_bytes_refl a zero = refl
compare_bytes_refl a (suc n) =
    ground (
      arith,
      compare_bytes-suc a a n a_equ_b,
      difference_refl (byte_at a n),
      compare_bytes_refl a n,
    )

compare_bytes-flip :
    (a b : Bytes) (n : ℕ) → compare_bytes b a n a_equ_b ≡ flip (compare_bytes a b n a_equ_b)
unfolding compare_bytes
compare_bytes-flip a b zero = refl
compare_bytes-flip a b (suc n) = ground (
  arith,
  compare_bytes-suc a b n a_equ_b,
  compare_bytes-suc b a n a_equ_b,
  difference-flip (byte_at a n) (byte_at b n),
  compare_bytes-flip a b n,
)

then_by_trans :
    (x y z : ℕ) (p q r : Comparison)
    → (p ≢ a_gt_b → q ≢ a_gt_b → r ≢ a_gt_b)
    → then_by (difference x y) p ≢ a_gt_b
    → then_by (difference y z) q ≢ a_gt_b
    → then_by (difference x z) r ≢ a_gt_b
unfolding difference
then_by_trans x y z p q r step h k = ground arith

-- The same where the first comparison is the other way round.
then_by_trans_back :
    (x y z : ℕ) (p q r : Comparison)
    → (p ≢ a_gt_b → q ≢ a_gt_b → r ≢ a_gt_b)
    → then_by (difference y x) p ≢ a_gt_b
    → then_by (difference z y) q ≢ a_gt_b
    → then_by (difference z x) r ≢ a_gt_b
unfolding difference
then_by_trans_back x y z p q r step h k = ground arith

compare_bytes_trans :
    (a b c : Bytes) (n : ℕ)
    → compare_bytes a b n a_equ_b ≢ a_gt_b
    → compare_bytes b c n a_equ_b ≢ a_gt_b
    → compare_bytes a c n a_equ_b ≢ a_gt_b
unfolding compare_bytes
compare_bytes_trans a b c zero h k = h
compare_bytes_trans a b c (suc n) h k = rw (compare_bytes-suc a c n a_equ_b) (
    then_by_trans (byte_at a n) (byte_at b n) (byte_at c n) _ _ _ (compare_bytes_trans a b c n)
      (rw (compare_bytes-suc a b n a_equ_b) at h) (rw (compare_bytes-suc b c n a_equ_b) at k))

pub compare_unsigned-suc :
    (n : ℕ) (a b : Bytes) → compare_unsigned_value (suc n) a b ≡ compare_bytes a b (suc n) a_equ_b
unfolding compare_unsigned_value
compare_unsigned-suc n a b =
    compare_bytes-suc a b n initial_value ∙ sym (compare_bytes-suc a b n a_equ_b)

pub compare_signed-suc :
    (n : ℕ) (a b : Bytes)
    → compare_signed_value (suc n) a b
      ≡ then_by
          (difference (byte_at b n / 128) (byte_at a n / 128))
          (compare_bytes a b (suc n) a_equ_b)
unfolding compare_signed_value
compare_signed-suc n a b = rw last (ground (arith, compare_bytes-suc a b n a_equ_b))
  where
    last : suc n - 1 ≡ n
    last = omega arith

-- The comparison of unsigned values of at least one byte is a total preorder on keys.
pub unsigned-KeyOrder : (n : ℕ) → 0 < n → KeyOrder (compare_unsigned_value n)
unsigned-KeyOrder zero h = elim h [ ]
unsigned-KeyOrder (suc n) h = record {
  compare_refl = λ a. compare_unsigned-suc n a a ∙ compare_bytes_refl a (suc n);
  compare_flip = λ a b.
      compare_unsigned-suc n b a
      ∙ compare_bytes-flip a b (suc n)
      ∙ ap flip (sym (compare_unsigned-suc n a b));
  compare_trans = λ a b c p q. rw (compare_unsigned-suc n a c) (
      compare_bytes_trans a b c (suc n) (rw (compare_unsigned-suc n a b) at p)
        (rw (compare_unsigned-suc n b c) at q));
}

-- The comparison of signed values of at least one byte is a total preorder on keys.
pub signed-KeyOrder : (n : ℕ) → 0 < n → KeyOrder (compare_signed_value n)
signed-KeyOrder zero h = elim h [ ]
signed-KeyOrder (suc n) h = record {
  compare_refl = λ a. ground (
    arith,
    compare_signed-suc n a a,
    difference_refl (byte_at a n / 128),
    compare_bytes_refl a (suc n),
  );
  compare_flip = λ a b. ground (
    arith,
    compare_signed-suc n a b,
    compare_signed-suc n b a,
    difference-flip (byte_at a n / 128) (byte_at b n / 128),
    compare_bytes-flip a b (suc n),
  );
  compare_trans = λ a b c p q. rw (compare_signed-suc n a c) (
      then_by_trans_back (byte_at a n / 128) (byte_at b n / 128) (byte_at c n / 128) _ _ _
        (compare_bytes_trans a b c (suc n)) (rw (compare_signed-suc n a b) at p)
        (rw (compare_signed-suc n b c) at q));
}

equal_bytes :
    (a b : Bytes) (n i : ℕ)
    → compare_bytes a b n a_equ_b ≡ a_equ_b
    → i < n
    → byte_at a i ≡ byte_at b i
unfolding compare_bytes
equal_bytes a b zero i h lt = elim lt [ ]
equal_bytes a b (suc n) i h lt =
    let h' : then_by (difference (byte_at a n) (byte_at b n)) (compare_bytes a b n a_equ_b)
        ≡ a_equ_b =
      sym (compare_bytes-suc a b n a_equ_b) ∙ h in
    elim (ℕ_discrete i n) [
      | yes e ↦ rw e (difference_eq (byte_at a n) (byte_at b n) (ground arith))
      | no ne ↦ equal_bytes a b n i (ground arith) (omega arith)
    ]

-- Keys that compare equal as unsigned values have the same bytes.
pub unsigned_bytes :
    (n : ℕ) (a b : Bytes) (i : ℕ)
    → is_equal (compare_unsigned_value n a b) ≡ true
    → i < n
    → byte_at a i ≡ byte_at b i
unsigned_bytes zero a b i h lt = elim lt [ ]
unsigned_bytes (suc n) a b i h lt =
    equal_bytes a b (suc n) i (ground (arith, compare_unsigned-suc n a b)) lt

-- Keys that compare equal as signed values have the same bytes.
pub signed_bytes :
    (n : ℕ) (a b : Bytes) (i : ℕ)
    → is_equal (compare_signed_value n a b) ≡ true
    → i < n
    → byte_at a i ≡ byte_at b i
signed_bytes zero a b i h lt = elim lt [ ]
signed_bytes (suc n) a b i h lt =
    equal_bytes a b (suc n) i (ground (arith, compare_signed-suc n a b)) lt
