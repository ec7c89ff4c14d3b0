-- ===== src/OpenAddressHash/SimpleHash.antt =====
-- `oah_compute_simple_hash` of open_address_hash.c.
use iondb.Base.{ℕ, suc, ◌+◌, ◌-◌, ◌%◌, ◌<◌, ◌≤◌, ◌≡◌, refl, ap, sym, ◌∙◌, arith}
use iondb.Base.Int.{ℤ, pos, negsuc}
use iondb.Dictionary.Compare.{Bytes, byte_at, compare_unsigned_value, compare_signed_value}
use iondb.Dictionary.Numeric.{signed_value, unsigned_value}
use iondb.Dictionary.Order.{signed-KeyOrder, unsigned-KeyOrder, signed_bytes, unsigned_bytes}
use iondb.Key.{KeyHash}
use native.Mathlib.Nat.{mod-add-mod, add-mod-mod, mod_self}

-- `((k % map_size) + map_size) % map_size`, where `%` on `int` has the sign of its left side. The
-- sum is never negative.
unfoldable pub reduce : ℕ → ℤ → ℕ
reduce map_size (pos n) = (n % map_size + map_size) % map_size
reduce map_size (negsuc n) = (map_size - suc n % map_size) % map_size

-- `*(int *) key` reads four bytes.
unfoldable pub compute_simple_hash : ℕ → Bytes → ℤ
unfolding reduce signed_value
compute_simple_hash map_size key = pos (reduce map_size (signed_value 4 key))

-- The hash of a map with at least one bucket is the location that the key has modulo the size, for
-- negative keys too.
pub reduce_lem :
    (map_size : ℕ) (n : ℕ)
    → 0 < map_size
    → (reduce map_size (pos n) ≡ n % map_size)
      × (reduce map_size (negsuc n) < map_size)
      × ((reduce map_size (negsuc n) + suc n) % map_size ≡ 0)
unfolding reduce
reduce_lem m n h = (
  grind arith,
  omega arith,
  mod-add-mod (m - suc n % m) m (suc n)
      ∙ sym (add-mod-mod (m - suc n % m) (suc n) m)
      ∙ ap (λ x. x % m) sum
      ∙ mod_self m,
)
  where
    sum : m - suc n % m + suc n % m ≡ m
    sum = let r : suc n % m < m = omega arith in omega arith

-- Keys with the same first four bytes have the same hash.
simple_hash_of_bytes :
    (map_size : ℕ) (a b : Bytes)
    → ((i : ℕ) → i < 4 → byte_at a i ≡ byte_at b i)
    → compute_simple_hash map_size a ≡ compute_simple_hash map_size b
unfolding compute_simple_hash unsigned_value
simple_hash_of_bytes map_size a b same =
    let e₀ = same 0 (omega arith) in
    let e₁ = same 1 (omega arith) in
    let e₂ = same 2 (omega arith) in let e₃ = same 3 (omega arith) in rw (e₀, e₁, e₂, e₃)

-- The hash is not negative.
simple_hash_nonnegative :
    (map_size : ℕ) (key : Bytes) → (h : ℕ) × (compute_simple_hash map_size key ≡ pos h)
unfolding compute_simple_hash
simple_hash_nonnegative map_size key = (reduce map_size (signed_value 4 key), refl)

-- On unsigned keys of four bytes or more the hash agrees with the comparison.
pub unsigned-KeyHash : (n : ℕ) → 4 ≤ n → KeyHash (compare_unsigned_value n) compute_simple_hash
unsigned-KeyHash n h = record {
  order = unsigned-KeyOrder n (omega arith);
  nonnegative = λ size a. simple_hash_nonnegative size a;
  hash-equal =
      λ size a b q. simple_hash_of_bytes size a b (λ i lt. unsigned_bytes n a b i q (omega arith));
}

-- On signed keys of four bytes or more the hash agrees with the comparison.
pub signed-KeyHash : (n : ℕ) → 4 ≤ n → KeyHash (compare_signed_value n) compute_simple_hash
signed-KeyHash n h = record {
  order = signed-KeyOrder n (omega arith);
  nonnegative = λ size a. simple_hash_nonnegative size a;
  hash-equal =
      λ size a b q. simple_hash_of_bytes size a b (λ i lt. signed_bytes n a b i q (omega arith));
}
