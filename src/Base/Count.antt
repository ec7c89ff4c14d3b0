-- ===== src/Base/Count.antt =====
-- How many items of a list pass a test. No code of the repository is modelled here.
use Prim.Native.Nat.{ℕ, zero, suc, ◌+◌, ◌<◌}
use mathlib.Core.Path.{◌≡◌}
use mathlib.Core.Bool.{Bool, true, false}
use mathlib.Core.List.{List, [], ◌∷◌, ◌++◌}
use mathlib.Core.Option.{some}
use native.Mathlib.Omega.{arith}
use iondb.Base.Lists.{take, drop, set, get_elem?}

abbrev pub indicator : Bool → ℕ
indicator true = 1
indicator false = 0

abbrev pub count {ℓ} : {A : Type ℓ} → (A → Bool) → List A → ℕ
count q [] = 0
count q (x ∷ xs) = indicator (q x) + count q xs

module _ {ℓ} {A : Type ℓ} (q : A → Bool) where
  pub count-append : (xs ys : List A) → count q (xs ++ ys) ≡ count q xs + count q ys
  count-append [] ys = omega arith
  count-append (x ∷ xs) ys = omega (arith, count-append xs ys)

  pub count-take-suc :
      (xs : List A) (n : ℕ) {a : A}
      → get_elem? xs n ≡ some a
      → count q (take (suc n) xs) ≡ count q (take n xs) + indicator (q a)
  count-take-suc [] n h = ground arith
  count-take-suc (x ∷ xs) zero h = ground arith
  count-take-suc (x ∷ xs) (suc n) h = omega (arith, count-take-suc xs n h)

  pub count-set :
      (xs : List A) (n i : ℕ) (v : A) {a : A}
      → i < n
      → get_elem? xs i ≡ some a
      → count q (take n (set xs i v)) + indicator (q a) ≡ count q (take n xs) + indicator (q v)
  count-set [] n i v h e = ground arith
  count-set (x ∷ xs) zero i v h e = absurd (omega arith)
  count-set (x ∷ xs) (suc n) zero v h e = ground arith
  count-set (x ∷ xs) (suc n) (suc i) v h e = omega (arith, count-set xs n i v (omega arith) e)

  pub count-split : (n : ℕ) (xs : List A) → count q xs ≡ count q (take n xs) + count q (drop n xs)
  count-split zero xs = omega arith
  count-split (suc n) [] = omega arith
  count-split (suc n) (x ∷ xs) = omega (arith, count-split n xs)
