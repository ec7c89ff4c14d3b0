-- ===== src/SkipList/Levels.antt =====
-- The levels of the skip list of skip_list.c, as the nodes that follow on each other.
use iondb.Base.{
  ℕ, zero, suc, ◌≤◌, ◌<◌, ◌≡◌, refl, ◌∙◌, Option, none, some, List, [], ◌∷◌, ◌++◌, length,
  get_elem?, leb, if◌then◌else◌, arith, dec_lt, inl, inr, ◌⊎◌,
}
use mathlib.Core.Logic.{Lift}
use iondb.Base.Run.{done}
use iondb.SkipList.{Node, SkipList, at, load, load_head, load_next, load_key}

-- A node in the list: its address, its content and its height.
pub record Tower {ℓ} (K V : Type ℓ) : Type ℓ where
  pub place : ℕ
  pub key : K
  pub value : V
  pub height : ℕ

-- The address of the first tower that reaches the level.
abbrev pub after {ℓ} : {K V : Type ℓ} → ℕ → List (Tower K V) → Option ℕ
after h [] = none
after h (t ∷ ts) = if leb h t.height then some t.place else after h ts

-- What stands at an address: the pointers, and the rest.
abbrev pub Pointers : Type 0
Pointers = ℕ → ℕ → Option (Option ℕ)

abbrev pub pointer_of {ℓ} : {K V : Type ℓ} → Option (Node K V) → ℕ → Option (Option ℕ)
pointer_of none h = none
pointer_of (some n) h = get_elem? n.next h

abbrev pub pointers {ℓ} : {K V : Type ℓ} → List (Option (Node K V)) → Pointers
pointers nodes a h = pointer_of (at nodes a) h

pub record Content {ℓ} (K V : Type ℓ) : Type ℓ where
  pub key : Option K
  pub value : Option V
  pub height : ℕ

abbrev pub content_of {ℓ} : {K V : Type ℓ} → Option (Node K V) → Option (Content K V)
content_of none = none
content_of (some n) = some (record { key = n.key; value = n.value; height = n.height })

abbrev pub contents_at {ℓ} : {K V : Type ℓ} → List (Option (Node K V)) → ℕ → Option (Content K V)
contents_at nodes a = content_of (at nodes a)

-- The pointers of level `h` pass the towers that reach it.
abbrev pub IsLinked {ℓ} : {K V : Type ℓ} → Pointers → ℕ → List (Tower K V) → Type 0
IsLinked p h [] = Unit
IsLinked p h (t ∷ ts) = (h ≤ t.height → p t.place h ≡ some (after h ts)) × IsLinked p h ts

abbrev pub All {ℓ κ} : {A : Type ℓ} → (A → Type κ) → List A → Type κ
All P [] = Lift {0, κ} Unit
All P (x ∷ xs) = P x × All P xs

abbrev pub content {ℓ} : {K V : Type ℓ} → Tower K V → Content K V
content t = record { key = some t.key; value = some t.value; height = t.height }

-- The tower stands in the memory.
abbrev pub IsStored {ℓ} : {K V : Type ℓ} → (ℕ → Option (Content K V)) → Tower K V → Type ℓ
IsStored f t = f t.place ≡ some (content t)

module _ {ℓ κ} {A : Type ℓ} (P : A → Type κ) where
  pub All-append : (xs ys : List A) → All P xs → All P ys → All P (xs ++ ys)
  All-append [] ys h k = k
  All-append (x ∷ xs) ys (p, h) k = (p, All-append xs ys h k)

  pub All-left : (xs ys : List A) → All P (xs ++ ys) → All P xs
  All-left [] ys h = record { lower = tt }
  All-left (x ∷ xs) ys (p, h) = (p, All-left xs ys h)

  pub All-right : (xs ys : List A) → All P (xs ++ ys) → All P ys
  All-right [] ys h = h
  All-right (x ∷ xs) ys (p, h) = All-right xs ys h

pub All-both {ℓ κ μ} :
    {A : Type ℓ} (P : A → Type κ) (Q : A → Type μ) (xs : List A)
    → All P xs
    → All Q xs
    → All (λ x. P x × Q x) xs
All-both P Q [] h k = record { lower = tt }
All-both P Q (x ∷ xs) (p, h) (q, k) = ((p, q), All-both P Q xs h k)

module _ {ℓ} {K V : Type ℓ} where
  pub IsLinked-right :
      (p : Pointers) (h : ℕ) (xs ys : List (Tower K V)) → IsLinked p h (xs ++ ys) → IsLinked p h ys
  IsLinked-right p h [] ys l = l
  IsLinked-right p h (x ∷ xs) ys (_, l) = IsLinked-right p h xs ys l

  pub after-here :
      (h : ℕ) (t : Tower K V) (ts : List (Tower K V))
      → h ≤ t.height
      → after h (t ∷ ts) ≡ some t.place
  after-here h t ts le = ground arith

  pub after-past :
      (h : ℕ) (t : Tower K V) (ts : List (Tower K V)) → t.height < h → after h (t ∷ ts) ≡ after h ts
  after-past h t ts lt = ground arith

  -- The tower that follows at a level is one of the list.
  pub after-All {κ} :
      {P : Tower K V → Type κ} (h : ℕ) (ts : List (Tower K V))
      → All P ts
      → (after h ts ≡ none) ⊎ ((t : Tower K V) × (after h ts ≡ some t.place) × P t)
  after-All h [] all = inl refl
  after-All h (t ∷ ts) (p, all) = elim (dec_lt t.height h) [
    | yes lt ↦ elim (after-All h ts all) [
      | inl e ↦ inl (after-past h t ts lt ∙ e)
      | inr (u, e, q) ↦ inr (u, after-past h t ts lt ∙ e, q)
    ]
    | no ge ↦ inr (t, after-here h t ts (omega arith), p)
  ]

  pub node-of-pointer :
      (o : Option (Node K V)) (h : ℕ) {x : Option ℕ}
      → pointer_of o h ≡ some x
      → (n : Node K V) × (o ≡ some n) × (get_elem? n.next h ≡ some x)
  node-of-pointer none h e = ground arith
  node-of-pointer (some n) h e = (n, refl, e)

  node-of-content :
      (o : Option (Node K V)) {c : Content K V}
      → content_of o ≡ some c
      → (n : Node K V) × (o ≡ some n)
        × (n.key ≡ c.key)
        × (n.value ≡ c.value)
        × (n.height ≡ c.height)
  node-of-content none e = ground arith
  node-of-content (some n) e = (n, refl, ground arith, ground arith, ground arith)

  pub lt-of-content :
      (nodes : List (Option (Node K V))) (a : ℕ) {c : Content K V}
      → contents_at nodes a ≡ some c
      → a < length nodes
  lt-of-content [] a e = ground arith
  lt-of-content (n ∷ nodes) zero e = omega arith
  lt-of-content (n ∷ nodes) (suc a) e = omega (arith, lt-of-content nodes a e)

  module _ (m : SkipList K V) (a : ℕ) where
    pub load_next-some :
        (h : ℕ) {o : Option ℕ} → pointers m.nodes a h ≡ some o → load_next m a h ≡ done o
    unfolding load_next load
    load_next-some h e = let (n, q, r) = node-of-pointer (at m.nodes a) h e in ground arith

    pub load-some : (n : Node K V) → at m.nodes a ≡ some n → load m a ≡ done n
    unfolding load
    load-some n q = rw (load, q) refl

    pub load-content :
        {c : Content K V}
        → contents_at m.nodes a ≡ some c
        → (n : Node K V) × (load m a ≡ done n)
          × (n.key ≡ c.key)
          × (n.value ≡ c.value)
          × (n.height ≡ c.height)
    load-content e =
        let (n, q, k, v, h) = node-of-content (at m.nodes a) e in (n, load-some n q, k, v, h)

    pub load_key-some :
        (t : Tower K V) → contents_at m.nodes a ≡ some (content t) → load_key m a ≡ done t.key
    unfolding load_key
    load_key-some t e = let (n, q, k, _, _) = load-content e in ground arith

  pub load_head-some : (m : SkipList K V) (a : ℕ) → m.head ≡ some a → load_head m ≡ done a
  unfolding load_head
  load_head-some m a e = rw (load_head, e) refl
