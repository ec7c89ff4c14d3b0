-- ===== src/LinkedFileBag/Chain.antt =====
-- The chains of records in the file of linked_file_bag.c, and its well-formedness.
use iondb.Base.{
  ℕ, zero, suc, ◌<◌, ◌≡◌, ◌≢◌, sym, ◌∙◌, Option, none, some, List, [], ◌∷◌, length, get_elem?,
  arith,
}
use iondb.Base.Distinct.{NotIn, IsDistinct, IsBelow}
use mathlib.Core.Path.{subst}
use iondb.LinkedFileBag.{Bag, Slot}

-- The offset of the next record that stands in a slot.
abbrev pub link {ℓ} : {A : Type ℓ} → Option (Slot A) → Option (Option ℕ)
link none = none
link (some s) = some s.next

abbrev pub Links : Type 0
Links = ℕ → Option (Option ℕ)

abbrev pub links {ℓ} : {A : Type ℓ} → List (Slot A) → Links
links slots x = link (get_elem? slots x)

-- `o` leads to the records at `xs`, one after the other, and to no more.
abbrev pub IsChain : Links → Option ℕ → List ℕ → Type 0
IsChain f o [] = o ≡ none
IsChain f o (x ∷ xs) = (o ≡ some x) × ((n : Option ℕ) × (f x ≡ some n) × IsChain f n xs)

-- The two lists have no offset in common.
abbrev pub IsApart : List ℕ → List ℕ → Type 0
IsApart [] ys = Unit
IsApart (x ∷ xs) ys = NotIn x ys × IsApart xs ys

-- The records at `free` are the free ones.
pub record IsValid {ℓ} {A : Type ℓ} (bag : Bag A) (free : List ℕ) : Type 0 where
  pub chain : IsChain (links bag.slots) bag.next_empty free
  pub distinct : IsDistinct free

-- A write elsewhere keeps a chain.
pub IsChain-elsewhere :
    (f g : Links) (x : ℕ)
    → ((y : ℕ) → x ≢ y → g y ≡ f y)
    → (o : Option ℕ) (xs : List ℕ) → NotIn x xs
    → IsChain f o xs
    → IsChain g o xs
IsChain-elsewhere f g x same o [] apart h = h
IsChain-elsewhere f g x same o (y ∷ ys) (ne, apart) (e, (n, at, rest)) =
    (e, (n, same y ne ∙ at, IsChain-elsewhere f g x same n ys apart rest))

-- So does one that leaves the links as they are.
pub IsChain-same :
    (f g : Links)
    → ((y : ℕ) → g y ≡ f y)
    → (o : Option ℕ) (xs : List ℕ) → IsChain f o xs
    → IsChain g o xs
IsChain-same f g same o [] h = h
IsChain-same f g same o (y ∷ ys) (e, (n, at, rest)) =
    (e, (n, same y ∙ at, IsChain-same f g same n ys rest))

-- Where nothing stands, no chain passes.
pub NotIn-chain :
    (f : Links) (x : ℕ) → f x ≡ none → (o : Option ℕ) (xs : List ℕ) → IsChain f o xs → NotIn x xs
NotIn-chain f x empty o [] h = tt
NotIn-chain f x empty o (y ∷ ys) (e, (n, at, rest)) = (
  (λ q. let w : f y ≡ none = subst (λ z. f z ≡ none) q empty in absurd (cc)),
  NotIn-chain f x empty n ys rest,
)

pub links-some {ℓ} :
    {A : Type ℓ} (slots : List (Slot A)) (x : ℕ) {n : Option ℕ}
    → links slots x ≡ some n
    → x < length slots
links-some [] x h = ground arith
links-some (s ∷ slots) zero h = omega arith
links-some (s ∷ slots) (suc x) h = omega (arith, links-some slots x h)

-- An offset of a chain is one of the file.
pub IsBelow-chain {ℓ} :
    {A : Type ℓ} (slots : List (Slot A)) (o : Option ℕ) (xs : List ℕ)
    → IsChain (links slots) o xs
    → IsBelow (length slots) xs
IsBelow-chain slots o [] h = tt
IsBelow-chain slots o (y ∷ ys) (e, (n, at, rest)) =
    (links-some slots y at, IsBelow-chain slots n ys rest)

-- Lists stay apart when the second one gets a new offset, and when it loses one.
pub IsApart-cons : (x : ℕ) (xs ys : List ℕ) → NotIn x xs → IsApart xs ys → IsApart xs (x ∷ ys)
IsApart-cons x [] ys h apart = tt
IsApart-cons x (z ∷ zs) ys (ne, h) (notin, apart) =
    (((λ q. ne (sym q)), notin), IsApart-cons x zs ys h apart)

pub IsApart-head : (x : ℕ) (xs ys : List ℕ) → IsApart xs (x ∷ ys) → NotIn x xs
IsApart-head x [] ys apart = tt
IsApart-head x (z ∷ zs) ys ((ne, notin), apart) = ((λ q. ne (sym q)), IsApart-head x zs ys apart)

pub IsApart-tail : (x : ℕ) (xs ys : List ℕ) → IsApart xs (x ∷ ys) → IsApart xs ys
IsApart-tail x [] ys apart = tt
IsApart-tail x (z ∷ zs) ys ((ne, notin), apart) = (notin, IsApart-tail x zs ys apart)
