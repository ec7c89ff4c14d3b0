-- ===== src/Dictionary.antt =====
-- src/dictionary/dictionary.c: the predicates of a cursor.
pub mod Compare
pub mod Order
pub mod Numeric
pub mod Tests
use iondb.Base.{Bool, true, false, ◌&&◌}
use iondb.System.{Comparison, a_lt_b, a_equ_b, a_gt_b, is_equal}

pub data Predicate {ℓ} (K : Type ℓ) : Type ℓ where
  predicate_equality : K → Predicate K
  predicate_range : K → K → Predicate K
  predicate_all_records : Predicate K
  predicate_predicate : Predicate K

-- `compare(…) >= 0`
abbrev pub is_ge : Comparison → Bool
is_ge a_lt_b = false
is_ge a_equ_b = true
is_ge a_gt_b = true

-- `compare(…) <= 0`
abbrev pub is_le : Comparison → Bool
is_le a_lt_b = true
is_le a_equ_b = true
is_le a_gt_b = false

unfoldable pub test_predicate {ℓ} : {K : Type ℓ} → (K → K → Comparison) → Predicate K → K → Bool
test_predicate compare (predicate_equality equality_value) key =
    is_equal (compare key equality_value)
test_predicate compare (predicate_range lower_b upper_b) key =
    is_ge (compare key lower_b) && is_le (compare key upper_b)
test_predicate compare predicate_all_records key = true
test_predicate compare predicate_predicate key = false
