-- ===== src/Dictionary/Compare.antt =====
-- The comparison functions of src/dictionary/dictionary.c for numeric keys, as compiled for a
-- little-endian machine. A key is the list of the bytes at its address; the code reads the first
-- `key_size` of them, and a byte that is not in the list reads as 0.
use iondb.Base.{ℕ, zero, suc, ◌-◌, ◌/◌, List, [], ◌∷◌, ltb, if◌then◌else◌}
use iondb.System.{Comparison, a_lt_b, a_equ_b, a_gt_b, is_equal}

abbrev pub Bytes : Type 0
Bytes = List ℕ

-- `*((ion_byte_t *) key + idx)`
unfoldable pub byte_at : Bytes → ℕ → ℕ
byte_at [] i = 0
byte_at (b ∷ bs) zero = b
byte_at (b ∷ bs) (suc i) = byte_at bs i

-- `(a > b) - (a < b)`
unfoldable pub difference : ℕ → ℕ → Comparison
difference a b = if ltb b a then a_gt_b else if ltb a b then a_lt_b else a_equ_b

-- The loop of both functions, by the number of bytes left, with `return_value`.
unfoldable pub compare_bytes : Bytes → Bytes → ℕ → Comparison → Comparison
unfolding byte_at difference
compare_bytes first_key second_key zero return_value = return_value
compare_bytes first_key second_key (suc idx) return_value =
    let d = difference (byte_at first_key idx) (byte_at second_key idx) in
    let rest = compare_bytes first_key second_key idx d in if is_equal d then rest else d

-- `ION_RETURN_VALUE`, which is positive
abbrev pub initial_value : Comparison
initial_value = a_gt_b

unfoldable pub compare_unsigned_value : ℕ → Bytes → Bytes → Comparison
unfolding compare_bytes
compare_unsigned_value key_size first_key second_key =
    compare_bytes first_key second_key key_size initial_value

unfoldable pub compare_signed_value : ℕ → Bytes → Bytes → Comparison
unfolding compare_bytes
compare_signed_value key_size first_key second_key =
    let first_byte = byte_at first_key (key_size - 1) in
    let second_byte = byte_at second_key (key_size - 1) in
    let d = difference (second_byte / 128) (first_byte / 128) in
    if is_equal d then compare_bytes first_key second_key key_size d else d
