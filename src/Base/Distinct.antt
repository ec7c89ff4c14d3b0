-- ===== src/Base/Distinct.antt =====
-- Lists of numbers that are all different. No code of the repository is modelled here.
use Prim.Native.Nat.{ℕ, zero, suc, ◌<◌, ◌≤◌}
use mathlib.Core.Path.{◌≡◌, sym, subst}
use mathlib.Core.Logic.{◌≢◌}
use mathlib.Core.Bool.{true, false}
use mathlib.Core.List.{List, [], ◌∷◌}
use native.Mathlib.Omega.{arith}
use native.Mathlib.Decide.{ℕ_discrete}
use iondb.Base.Lists.{length}
use iondb.Base.Tests.{◌==◌, if◌then◌else◌}

-- The number is not one of those.
abbrev pub NotIn : ℕ → List ℕ → Type 0
NotIn x [] = Unit
NotIn x (y ∷ ys) = (x ≢ y) × NotIn x ys

-- No number occurs twice.
abbrev pub IsDistinct : List ℕ → Type 0
IsDistinct [] = Unit
IsDistinct (x ∷ xs) = NotIn x xs × IsDistinct xs

-- All numbers are below the bound.
abbrev pub IsBelow : ℕ → List ℕ → Type 0
IsBelow n [] = Unit
IsBelow n (x ∷ xs) = (x < n) × IsBelow n xs

-- The list without the first occurrence of a number.
abbrev remove : ℕ → List ℕ → List ℕ
remove n [] = []
remove n (x ∷ xs) = if n == x then xs else (x ∷ remove n xs)

NotIn-remove : (n x : ℕ) (xs : List ℕ) → NotIn x xs → NotIn x (remove n xs)
NotIn-remove n x [] h = tt
NotIn-remove n x (y ∷ ys) (ne, h) = elim (ℕ_discrete n y) [
  | yes e ↦ let t : (n == y) ≡ true = ground arith in rw t h
  | no e ↦ let t : (n == y) ≡ false = ground arith in rw t (ne, NotIn-remove n x ys h)
]

remove-IsDistinct : (n : ℕ) (xs : List ℕ) → IsDistinct xs → IsDistinct (remove n xs)
remove-IsDistinct n [] h = tt
remove-IsDistinct n (y ∷ ys) (out, h) = elim (ℕ_discrete n y) [
  | yes e ↦ let t : (n == y) ≡ true = ground arith in rw t h
  | no e ↦
      let t : (n == y) ≡ false = ground arith in
      rw t (NotIn-remove n y ys out, remove-IsDistinct n ys h)
]

IsBelow-NotIn : (n : ℕ) (xs : List ℕ) → NotIn n xs → IsBelow (suc n) xs → IsBelow n xs
IsBelow-NotIn n [] h b = tt
IsBelow-NotIn n (y ∷ ys) (ne, h) (b, bs) =
    let ne' : ¬ (n ≡ y) = ne in (omega arith, IsBelow-NotIn n ys h bs)

IsBelow-remove :
    (n : ℕ) (xs : List ℕ) → IsDistinct xs → IsBelow (suc n) xs → IsBelow n (remove n xs)
IsBelow-remove n [] h b = tt
IsBelow-remove n (y ∷ ys) (out, h) (b, bs) = elim (ℕ_discrete n y) [
  | yes e ↦
      let t : (n == y) ≡ true = ground arith in
      rw t (IsBelow-NotIn n ys (subst (λ k. NotIn k ys) (sym e) out) bs)
  | no e ↦ let t : (n == y) ≡ false = ground arith in rw t (omega arith, IsBelow-remove n ys h bs)
]

length-remove : (n : ℕ) (xs : List ℕ) → length xs ≤ suc (length (remove n xs))
length-remove n [] = omega arith
length-remove n (y ∷ ys) = elim (ℕ_discrete n y) [
  | yes e ↦ let t : (n == y) ≡ true = ground arith in rw t (omega arith)
  | no e ↦ let t : (n == y) ≡ false = ground arith in rw t (omega (arith, length-remove n ys))
]

-- There are at most `n` different numbers below `n`.
pub length-IsDistinct : (n : ℕ) (xs : List ℕ) → IsDistinct xs → IsBelow n xs → length xs ≤ n
length-IsDistinct zero [] h b = omega arith
length-IsDistinct zero (x ∷ xs) h (b, bs) = absurd (omega arith)
length-IsDistinct (suc n) xs h b = omega (
  arith,
  length-remove n xs,
  length-IsDistinct n (remove n xs) (remove-IsDistinct n xs h) (IsBelow-remove n xs h b),
)

pub NotIn-below : (n : ℕ) (xs : List ℕ) → IsBelow n xs → NotIn n xs
NotIn-below n [] b = tt
NotIn-below n (x ∷ xs) (b, bs) = ((λ e. omega arith), NotIn-below n xs bs)
