-- ===== src/Dictionary/Tests.antt =====
-- The theorems on the comparison functions of dictionary.c at keys of two and four bytes.
use iondb.Base.{◌≡◌, refl, [], ◌∷◌, arith}
use iondb.Base.Int.{negsuc}
use iondb.Dictionary.Compare.{
  Bytes, byte_at, difference, compare_unsigned_value, compare_signed_value,
}
use iondb.Dictionary.Numeric.{
  unsigned_value, signed_value, difference_ℤ, compare_unsigned-difference,
  compare_signed-difference,
}
use iondb.Dictionary.Order.{unsigned-KeyOrder, signed-KeyOrder}
use iondb.Key.{KeyOrder}
use iondb.System.{a_lt_b, a_gt_b}

-- 258, and 65535 or -1
abbrev low : Bytes
low = 2 ∷ 1 ∷ []

abbrev ones : Bytes
ones = 255 ∷ 255 ∷ []

values : (unsigned_value 2 low ≡ 258) × (signed_value 2 ones ≡ negsuc 0)
unfolding unsigned_value signed_value byte_at
values = (refl, refl)

orders : (compare_unsigned_value 2 low ones ≡ a_lt_b) × (compare_signed_value 2 low ones ≡ a_gt_b)
unfolding compare_unsigned_value compare_signed_value
orders = (refl, refl)

compare_unsigned-difference_example :
    compare_unsigned_value 2 low ones ≡ difference (unsigned_value 2 low) (unsigned_value 2 ones)
compare_unsigned-difference_example =
    compare_unsigned-difference 2 low ones (omega arith) (omega arith) (omega arith)

compare_signed-difference_example :
    compare_signed_value 2 low ones ≡ difference_ℤ (signed_value 2 low) (signed_value 2 ones)
compare_signed-difference_example =
    compare_signed-difference 2 low ones (omega arith) (omega arith) (omega arith)

unsigned-KeyOrder_example : KeyOrder (compare_unsigned_value 4)
unsigned-KeyOrder_example = unsigned-KeyOrder 4 (omega arith)

signed-KeyOrder_example : KeyOrder (compare_signed_value 4)
signed-KeyOrder_example = signed-KeyOrder 4 (omega arith)
