-- ===== src/SkipList/Find.antt =====
-- `sl_find_node` of skip_list.c in a list whose nodes with a key stand behind those with smaller ones
-- and before those with larger ones.
use iondb.Base.{
  ℕ, zero, suc, ◌≤◌, ◌<◌, ◌≡◌, refl, sym, ◌∙◌, ap, none, some, List, [], ◌∷◌, ◌++◌, length,
  if◌then◌else◌, true, false, Bool, arith, dec_lt, inl, inr, ◌⊎◌,
}
use mathlib.Core.Path.{subst}
use iondb.Base.Run.{Run, done, ◌>>=◌}
use iondb.SkipList.{SkipList, search, find_below}
use iondb.SkipList.Levels.{
  Tower, after, pointers, contents_at, All, IsStored, after-here, after-past, after-All,
  load_next-some, load_key-some, All-right, All-both,
}
use iondb.SkipList.Reaches.{
  Reaches, last_of, Reaches-last, Reaches-All, Reaches-length, IsCursor, Reaches-IsCursor,
}
use iondb.System.{Comparison, a_lt_b, a_equ_b, a_gt_b}

-- How the key of a tower compares.
abbrev pub Compares {ℓ} :
    {K V : Type ℓ} → (K → K → Comparison) → K → Comparison → Tower K V → Type 0
Compares compare key c t = compare t.key key ≡ c

-- The towers with the key: those behind the first one have no height.
abbrev pub IsBlock {ℓ} : {K V : Type ℓ} → (K → K → Comparison) → K → List (Tower K V) → Type 0
IsBlock compare key [] = Unit
IsBlock compare key (t ∷ ts) =
    Compares compare key a_equ_b t × All (λ u. Compares compare key a_equ_b u × (u.height ≡ 0)) ts

-- One step of the search.
module _ {ℓ} {K V : Type ℓ} (m : SkipList K V) (key : K) (h c fuel : ℕ) where
  search-none : pointers m.nodes c h ≡ some none → search m key h (suc fuel) c ≡ done (false, c)
  unfolding search
  search-none at = let next = load_next-some m c h at in rw (search, next) refl

  module _ (t : Tower K V) (at : pointers m.nodes c h ≡ some (some t.place))
      (stored : IsStored (contents_at m.nodes) t) where
    search-less :
        Compares m.compare key a_lt_b t → search m key h (suc fuel) c ≡ search m key h fuel t.place
    unfolding search
    search-less e =
        let next = load_next-some m c h at in
        let k = load_key-some m t.place t stored in ground arith

    search-equal :
        Compares m.compare key a_equ_b t → search m key h (suc fuel) c ≡ done (true, t.place)
    unfolding search
    search-equal e =
        let next = load_next-some m c h at in
        let k = load_key-some m t.place t stored in ground arith

    search-more : Compares m.compare key a_gt_b t → search m key h (suc fuel) c ≡ done (false, c)
    unfolding search
    search-more e =
        let next = load_next-some m c h at in
        let k = load_key-some m t.place t stored in ground arith

-- Where the search ends: at the first node with the key, or at the last one before it.
abbrev pub target {ℓ} : {K V : Type ℓ} → ℕ → List (Tower K V) → List (Tower K V) → ℕ
target c ls [] = last_of c ls
target c ls (e ∷ ds) = e.place

module _ {ℓ} {K V : Type ℓ} (m : SkipList K V) (key : K) (same more : List (Tower K V))
    (block : IsBlock m.compare key same) (behind : All (Compares m.compare key a_gt_b) more)
    (stored : All (IsStored (contents_at m.nodes)) (same ++ more)) where
  after-flat :
      (h : ℕ) (ds ts : List (Tower K V))
      → All (λ u. Compares m.compare key a_equ_b u × (u.height ≡ 0)) ds
      → 0 < h
      → after h (ds ++ ts) ≡ after h ts
  after-flat h [] ts flat lt = refl
  after-flat h (d ∷ ds) ts ((_, e), flat) lt =
      after-past h d (ds ++ ts) (omega arith) ∙ after-flat h ds ts flat lt

  -- What follows the towers with a smaller key at a level.
  after-rest :
      (h : ℕ) (eqs : List (Tower K V))
      → IsBlock m.compare key eqs
      → ((e : Tower K V) × (ds : List (Tower K V)) × (eqs ≡ e ∷ ds)
          × (after h (eqs ++ more) ≡ some e.place))
        ⊎ ((after h (eqs ++ more) ≡ after h more) × (h ≡ 0 → eqs ≡ []))
  after-rest h [] b = inr (refl, λ _. refl)
  after-rest h (e ∷ ds) (_, flat) = elim (dec_lt e.height h) [
    | yes lt ↦ inr (
      after-past h e (ds ++ more) lt ∙ after-flat h ds more flat (omega arith),
      λ z. absurd (omega arith),
    )
    | no ge ↦ inl (e, ds, refl, after-here h e (ds ++ more) (omega arith))
  ]

  pub data Searched (h c : ℕ) (ls : List (Tower K V)) (r : Run (Bool × ℕ)) : Type ℓ where
    found :
        (e : Tower K V) (ds : List (Tower K V))
        → same ≡ e ∷ ds
        → r ≡ done (true, e.place)
        → Searched h c ls r
    stopped :
        (c' : ℕ) (ls' : List (Tower K V))
        → r ≡ done (false, c')
        → Reaches h c ls c' ls'
        → (h ≡ 0 → (ls' ≡ []) × (same ≡ []))
        → Searched h c ls r

  search-end :
      (h c fuel : ℕ)
      → pointers m.nodes c h ≡ some (after h (same ++ more))
      → Searched h c [] (search m key h (suc fuel) c)
  search-end h c fuel at = elim (after-rest h same block) [
    | inl (e, ds, q, a) ↦
        let first = subst (λ l. All (IsStored (contents_at m.nodes)) (l ++ more)) q stored in
        let b = subst (IsBlock m.compare key) q block in
        found e ds q (search-equal m key h c fuel e (at ∙ ap some a) (first.0) (b.0))
    | inr (a, z) ↦
        elim (after-All
          {P = λ t. IsStored (contents_at m.nodes) t × Compares m.compare key a_gt_b t} h more
          (All-both _ _ more (All-right _ same more stored) behind)) [
            | inl e ↦
                stopped c [] (search-none m key h c fuel (at ∙ ap some (a ∙ e))) (inl (refl, refl))
                  (λ q. (refl, z q))
            | inr (t, e, (s, b)) ↦
                stopped c [] (search-more m key h c fuel t (at ∙ ap some (a ∙ e)) s b)
                  (inl (refl, refl)) (λ q. (refl, z q))
          ]
  ]

  search-Searched :
      (h c : ℕ) (ls : List (Tower K V)) (fuel : ℕ)
      → length ls < fuel
      → IsCursor (pointers m.nodes) h c (ls ++ (same ++ more))
      → All (IsStored (contents_at m.nodes)) ls
      → All (Compares m.compare key a_lt_b) ls
      → Searched h c ls (search m key h fuel c)
  search-Searched h c ls zero enough (at, links) s b = absurd (omega arith)
  search-Searched h c [] (suc fuel) enough (at, links) s b = search-end h c fuel at
  search-Searched h c (t ∷ ts) (suc fuel) enough (at, (link, links)) (s, ss) (b, bs) =
      elim (dec_lt t.height h) [
        | yes lt ↦
            elim (search-Searched h c ts (suc fuel) (omega arith)
              (at ∙ ap some (after-past h t (ts ++ (same ++ more)) lt), links) ss bs) [
                | found e ds q run ↦ found e ds q run
                | stopped c' ls' run (inl (e, q)) z ↦
                    stopped c (t ∷ ts) (run ∙ ap (λ x. done (false, x)) e) (inl (refl, refl))
                      (λ h0. absurd (omega arith))
                | stopped c' ls' run (inr w) z ↦ stopped c' ls' run (inr (inr w)) z
              ]
        | no ge ↦
            let step =
              search-less m key h c fuel t
                (at ∙ ap some (after-here h t (ts ++ (same ++ more)) (omega arith))) s b in
            elim (search-Searched h t.place ts fuel (omega arith) (link (omega arith), links) ss
              bs) [
                | found e ds q run ↦ found e ds q (step ∙ run)
                | stopped c' ls' run (inl (e, q)) z ↦
                    stopped c' ls' (step ∙ run) (inr (inl (omega arith, e, q))) z
                | stopped c' ls' run (inr w) z ↦ stopped c' ls' (step ∙ run) (inr (inr w)) z
              ]
      ]

  target_same :
      (c' : ℕ) (ls' : List (Tower K V)) (c : ℕ) (ls eqs : List (Tower K V))
      → last_of c' ls' ≡ last_of c ls
      → target c' ls' eqs ≡ target c ls eqs
  target_same c' ls' c ls [] e = e
  target_same c' ls' c ls (x ∷ eqs) e = refl

  find_below-step :
      (h c : ℕ) (b : Bool) (x : ℕ)
      → search m key h (suc (length m.nodes)) c ≡ done (b, x)
      → find_below m key (suc h) c ≡ (if b then done x else find_below m key h x)
  unfolding find_below
  find_below-step h c b x run =
      ap (λ r. r >>= λ r'. if r'.0 then done (r'.1) else find_below m key h (r'.1)) run

  pub find_below-target :
      (h c : ℕ) (ls : List (Tower K V))
      → length ls ≤ length m.nodes
      → ((j : ℕ) → j ≤ h → IsCursor (pointers m.nodes) j c (ls ++ (same ++ more)))
      → All (IsStored (contents_at m.nodes)) ls
      → All (Compares m.compare key a_lt_b) ls
      → find_below m key (suc h) c ≡ done (target c ls same)
  unfolding find_below
  find_below-target zero c ls enough cursor s b =
      elim (search-Searched 0 c ls (suc (length m.nodes)) (omega arith) (cursor 0 (omega arith)) s
        b) [
          | found e ds q run ↦
              find_below-step 0 c true e.place run ∙ ap (λ l. done (target c ls l)) (sym q)
          | stopped c' ls' run reach z ↦
              let (empty, none_same) = z refl in
              find_below-step 0 c false c' run
              ∙ ap done (
                  sym (ap (last_of c') empty)
                  ∙ Reaches-last 0 c ls c' ls' reach
                  ∙ sym (ap (target c ls) none_same))
        ]
  find_below-target (suc h) c ls enough cursor s b =
      elim (search-Searched (suc h) c ls (suc (length m.nodes)) (omega arith)
        (cursor (suc h) (omega arith)) s b) [
          | found e ds q run ↦
              find_below-step (suc h) c true e.place run ∙ ap (λ l. done (target c ls l)) (sym q)
          | stopped c' ls' run reach z ↦
              let shorter = Reaches-length (suc h) c ls c' ls' reach in
              find_below-step (suc h) c false c' run
              ∙ find_below-target h c' ls' (omega arith)
                  (λ j le.
                    Reaches-IsCursor (suc h) c ls c' ls' (same ++ more) reach (pointers m.nodes) j
                      (omega arith) (cursor j (omega arith)))
                  (Reaches-All _ (suc h) c ls c' ls' reach s)
                  (Reaches-All _ (suc h) c ls c' ls' reach b)
              ∙ ap done (target_same c' ls' c ls same (Reaches-last (suc h) c ls c' ls' reach))
        ]
