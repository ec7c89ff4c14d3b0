-- ===== src/Dictionary/Numeric.antt =====
-- The comparison functions of dictionary.c for numeric keys agree with the order of the numbers
-- that the keys encode.
use iondb.Base.{
  ℕ, zero, suc, ◌+◌, ◌-◌, ◌*◌, ◌^◌, ◌<◌, ◌≡◌, refl, ◌∙◌, arith, [], ◌∷◌, dec_lt, if◌then◌else◌, ltb,
}
use iondb.Base.Int.{ℤ, pos, negsuc}
use iondb.Dictionary.Compare.{
  Bytes, byte_at, difference, compare_bytes, compare_unsigned_value, compare_signed_value,
}
use iondb.Dictionary.Order.{compare_bytes-suc, compare_unsigned-suc, compare_signed-suc}
use iondb.System.{Comparison, a_lt_b, a_equ_b, a_gt_b, is_equal}
use native.Mathlib.Nat.{pow-suc}

-- The number that the first `n` bytes of a key encode, the lowest first.
unfoldable pub unsigned_value : ℕ → Bytes → ℕ
unsigned_value zero a = 0
unsigned_value (suc n) a = unsigned_value n a + byte_at a n * 256 ^ n

-- The number that they encode in two's complement.
unfoldable pub signed_value : ℕ → Bytes → ℤ
unfolding unsigned_value
signed_value n a =
    if ltb (byte_at a (n - 1)) 128
    then pos (unsigned_value n a)
    else negsuc (256 ^ n - 1 - unsigned_value n a)

-- The order of the integers, as a comparison.
abbrev pub difference_ℤ : ℤ → ℤ → Comparison
difference_ℤ (pos a) (pos b) = difference a b
difference_ℤ (pos a) (negsuc b) = a_gt_b
difference_ℤ (negsuc a) (pos b) = a_lt_b
difference_ℤ (negsuc a) (negsuc b) = difference b a

-- Every byte of the key is one.
abbrev pub AreBytes : Bytes → Type 0
AreBytes [] = Unit
AreBytes (b ∷ bs) = (b < 256) × AreBytes bs

byte_at-lt : (a : Bytes) (i : ℕ) → AreBytes a → byte_at a i < 256
unfolding byte_at
byte_at-lt [] i h = omega arith
byte_at-lt (b ∷ bs) zero h = h.0
byte_at-lt (b ∷ bs) (suc i) h = byte_at-lt bs i h.1

unsigned_value-lt : (n : ℕ) (a : Bytes) → AreBytes a → unsigned_value n a < 256 ^ n
unfolding unsigned_value
unsigned_value-lt zero a h = omega arith
unsigned_value-lt (suc n) a h =
    let top = byte_at-lt a n h in let below = unsigned_value-lt n a h in rw pow-suc (grind arith)

digit-lt : (p v w x y : ℕ) → v < p → x < y → v + x * p < w + y * p
digit-lt p v w x y h k = grind arith

-- The higher digit decides, and the rest where it is equal.
digit_first :
    (p v w x y : ℕ)
    → v < p
    → w < p
    → difference (v + x * p) (w + y * p)
      ≡ (if is_equal (difference x y) then difference v w else difference x y)
unfolding difference
digit_first p v w x y hv hw = elim (dec_lt x y) [
  | yes lt ↦ let above = digit-lt p v w x y hv lt in ground arith
  | no ge ↦ elim (dec_lt y x) [
    | yes gt ↦ let above = digit-lt p w v y x hw gt in ground arith
    | no le ↦ let same : x ≡ y = omega arith in rw same (ground arith)
  ]
]

bytes-unsigned :
    (n : ℕ) (a b : Bytes)
    → AreBytes a
    → AreBytes b
    → compare_bytes a b n a_equ_b ≡ difference (unsigned_value n a) (unsigned_value n b)
unfolding compare_bytes unsigned_value
bytes-unsigned zero a b ha hb = refl
bytes-unsigned (suc n) a b ha hb = rw (
  compare_bytes-suc,
  bytes-unsigned n a b ha hb,
  digit_first (256 ^ n) (unsigned_value n a) (unsigned_value n b) (byte_at a n) (byte_at b n)
      (unsigned_value-lt n a ha) (unsigned_value-lt n b hb),
)

-- On keys of at least one byte the comparison of unsigned values is the order of the numbers that
-- the keys encode.
pub compare_unsigned-difference :
    (n : ℕ) (a b : Bytes)
    → 0 < n
    → AreBytes a
    → AreBytes b
    → compare_unsigned_value n a b ≡ difference (unsigned_value n a) (unsigned_value n b)
compare_unsigned-difference zero a b h ha hb = elim h [ ]
compare_unsigned-difference (suc n) a b h ha hb =
    compare_unsigned-suc n a b ∙ bytes-unsigned (suc n) a b ha hb

-- Taking both numbers from a bound turns their order round.
difference_complement :
    (m a b : ℕ) → a < m → b < m → difference (m - 1 - b) (m - 1 - a) ≡ difference a b
unfolding difference
difference_complement m a b ha hb = ground arith

-- On keys of at least one byte the comparison of signed values is the order of the numbers that
-- the keys encode in two's complement.
pub compare_signed-difference :
    (n : ℕ) (a b : Bytes)
    → 0 < n
    → AreBytes a
    → AreBytes b
    → compare_signed_value n a b ≡ difference_ℤ (signed_value n a) (signed_value n b)
unfolding difference signed_value
compare_signed-difference zero a b h ha hb = elim h [ ]
compare_signed-difference (suc n) a b h ha hb =
    let top_a = byte_at-lt a n ha in
    let top_b = byte_at-lt b n hb in
    let last : suc n - 1 ≡ n = omega arith in
    rw (compare_signed-suc, bytes-unsigned (suc n) a b ha hb, last)
      (ground (
        arith,
        difference_complement (256 ^ suc n) (unsigned_value (suc n) a) (unsigned_value (suc n) b)
            (unsigned_value-lt (suc n) a ha) (unsigned_value-lt (suc n) b hb),
      ))
