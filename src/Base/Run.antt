-- ===== src/Base/Run.antt =====
-- A run of C code: it ends in a value, or in undefined behaviour (an access outside its memory, a
-- remainder by zero). No code of the repository is modelled here.
use mathlib.Core.Path.{◌≡◌, refl, ap}

pub data Run {ℓ} (A : Type ℓ) : Type ℓ where
  done : A → Run A
  fault : Run A

infixl 5 ◌>>=◌
abbrev pub ◌>>=◌ {ℓ κ} : {A : Type ℓ} {B : Type κ} → Run A → (A → Run B) → Run B
done a >>= f = f a
fault >>= f = fault

-- The run ends in a value that satisfies `P`.
abbrev pub Returns {ℓ κ} : {A : Type ℓ} → Run A → (A → Type κ) → Type (ℓ ⊔ κ)
Returns {A} r P = (a : A) × (r ≡ done a) × P a

value_or {ℓ} : {A : Type ℓ} → A → Run A → A
value_or d (done x) = x
value_or d fault = d

pub done-injective {ℓ} : {A : Type ℓ} {a b : A} → done a ≡ done b → a ≡ b
unfolding value_or
done-injective {a = a} h = ap (value_or a) h

pub bind_assoc {κ μ ν} :
    {A : Type κ} {B : Type μ} {C : Type ν} (r : Run A) (k : A → Run B) (l : B → Run C)
    → (r >>= k >>= l) ≡ (r >>= λ a. k a >>= l)
bind_assoc (done a) k l = refl
bind_assoc fault k l = refl

pub bind_congr {κ μ} :
    {A : Type κ} {B : Type μ} (r : Run A) (k k' : A → Run B)
    → ((a : A) → k a ≡ k' a)
    → (r >>= k) ≡ (r >>= k')
bind_congr (done a) k k' same = same a
bind_congr fault k k' same = refl
