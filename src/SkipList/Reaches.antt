-- ===== src/SkipList/Reaches.antt =====
-- The cursors that a walk at one level of the skip list of skip_list.c passes.
use iondb.Base.{ℕ, ◌≤◌, ◌≡◌, refl, sym, some, List, [], ◌∷◌, ◌++◌, length, arith, inl, inr, ◌⊎◌}
use mathlib.Core.Logic.{Lift}
use mathlib.Core.Path.{subst}
use iondb.SkipList.Levels.{Tower, after, Pointers, IsLinked, All}

module _ {ℓ} {K V : Type ℓ} where
  -- A cursor at `c'` with the towers `ls'` behind it: the one at `c` with `ls` behind it, or one of
  -- those that reach the level.
  abbrev pub Moves : ℕ → List (Tower K V) → ℕ → List (Tower K V) → Type ℓ
  Moves h [] c' ls' = Lift {0, ℓ} ⊥
  Moves h (t ∷ ts) c' ls' = ((h ≤ t.height) × (c' ≡ t.place) × (ls' ≡ ts)) ⊎ Moves h ts c' ls'

  abbrev pub Reaches : ℕ → ℕ → List (Tower K V) → ℕ → List (Tower K V) → Type ℓ
  Reaches h c ls c' ls' = ((c' ≡ c) × (ls' ≡ ls)) ⊎ Moves h ls c' ls'

  abbrev pub last_of : ℕ → List (Tower K V) → ℕ
  last_of c [] = c
  last_of c (t ∷ ts) = last_of t.place ts

  Moves-last :
      (h c : ℕ) (ls : List (Tower K V)) (c' : ℕ) (ls' : List (Tower K V))
      → Moves h ls c' ls'
      → last_of c' ls' ≡ last_of c ls
  Moves-last h c [] c' ls' m = absurd m.lower
  Moves-last h c (t ∷ ts) c' ls' (inl (le, e, q)) = rw (e, q) refl
  Moves-last h c (t ∷ ts) c' ls' (inr m) = Moves-last h t.place ts c' ls' m

  pub Reaches-last :
      (h c : ℕ) (ls : List (Tower K V)) (c' : ℕ) (ls' : List (Tower K V))
      → Reaches h c ls c' ls'
      → last_of c' ls' ≡ last_of c ls
  Reaches-last h c ls c' ls' (inl (e, q)) = rw (e, q) refl
  Reaches-last h c ls c' ls' (inr m) = Moves-last h c ls c' ls' m

  Moves-All {κ} :
      (P : Tower K V → Type κ) (h : ℕ) (ls : List (Tower K V)) (c' : ℕ) (ls' : List (Tower K V))
      → Moves h ls c' ls'
      → All P ls
      → All P ls'
  Moves-All P h [] c' ls' m all = absurd m.lower
  Moves-All P h (t ∷ ts) c' ls' (inl (le, e, q)) (a, all) = subst (All P) (sym q) all
  Moves-All P h (t ∷ ts) c' ls' (inr m) (a, all) = Moves-All P h ts c' ls' m all

  pub Reaches-All {κ} :
      (P : Tower K V → Type κ) (h c : ℕ) (ls : List (Tower K V)) (c' : ℕ) (ls' : List (Tower K V))
      → Reaches h c ls c' ls'
      → All P ls
      → All P ls'
  Reaches-All P h c ls c' ls' (inl (e, q)) all = subst (All P) (sym q) all
  Reaches-All P h c ls c' ls' (inr m) all = Moves-All P h ls c' ls' m all

  Moves-length :
      (h : ℕ) (ls : List (Tower K V)) (c' : ℕ) (ls' : List (Tower K V))
      → Moves h ls c' ls'
      → length ls' ≤ length ls
  Moves-length h [] c' ls' m = absurd m.lower
  Moves-length h (t ∷ ts) c' ls' (inl (le, e, q)) = rw (q) (omega arith)
  Moves-length h (t ∷ ts) c' ls' (inr m) = let i = Moves-length h ts c' ls' m in omega arith

  pub Reaches-length :
      (h c : ℕ) (ls : List (Tower K V)) (c' : ℕ) (ls' : List (Tower K V))
      → Reaches h c ls c' ls'
      → length ls' ≤ length ls
  Reaches-length h c ls c' ls' (inl (e, q)) = rw (q) (omega arith)
  Reaches-length h c ls c' ls' (inr m) = Moves-length h ls c' ls' m

  -- The pointers of the cursor at the level `j`, and those behind it.
  abbrev pub IsCursor : Pointers → ℕ → ℕ → List (Tower K V) → Type 0
  IsCursor p j c ts = (p c j ≡ some (after j ts)) × IsLinked p j ts

  Moves-IsCursor :
      (h : ℕ) (ls : List (Tower K V)) (c' : ℕ) (ls' rest : List (Tower K V))
      → Moves h ls c' ls'
      → (p : Pointers) (j : ℕ) → j ≤ h
      → IsLinked p j (ls ++ rest)
      → IsCursor p j c' (ls' ++ rest)
  Moves-IsCursor h [] c' ls' rest m p j le links = absurd m.lower
  Moves-IsCursor h (t ∷ ts) c' ls' rest (inl (le', e, q)) p j le (at, links) =
      subst (λ x. IsCursor p j x (ls' ++ rest)) (sym e)
        (subst (λ x. IsCursor p j t.place (x ++ rest)) (sym q) (at (omega arith), links))
  Moves-IsCursor h (t ∷ ts) c' ls' rest (inr m) p j le (at, links) =
      Moves-IsCursor h ts c' ls' rest m p j le links

  pub Reaches-IsCursor :
      (h c : ℕ) (ls : List (Tower K V)) (c' : ℕ) (ls' rest : List (Tower K V))
      → Reaches h c ls c' ls'
      → (p : Pointers) (j : ℕ) → j ≤ h
      → IsCursor p j c (ls ++ rest)
      → IsCursor p j c' (ls' ++ rest)
  Reaches-IsCursor h c ls c' ls' rest (inl (e, q)) p j le cursor =
      subst (λ x. IsCursor p j x (ls' ++ rest)) (sym e)
        (subst (λ x. IsCursor p j c (x ++ rest)) (sym q) cursor)
  Reaches-IsCursor h c ls c' ls' rest (inr m) p j le (at, links) =
      Moves-IsCursor h ls c' ls' rest m p j le links
