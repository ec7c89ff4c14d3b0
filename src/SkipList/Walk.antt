-- ===== src/SkipList/Walk.antt =====
-- The loops of skip_list.c that go along one level while the keys pass a test.
use iondb.Base.{
  ℕ, zero, suc, ◌≤◌, ◌<◌, ◌≡◌, ◌≢◌, refl, sym, ◌∙◌, ap, none, some, List, [], ◌∷◌, ◌++◌, length,
  leb, if◌then◌else◌, true, false, Bool, arith, dec_lt, inl, inr, map,
}
use iondb.Base.Distinct.{NotIn}
use mathlib.Core.Path.{subst}
use iondb.Base.Run.{Run, done}
use iondb.SkipList.{SkipList, skip_while}
use iondb.SkipList.Levels.{
  Tower, pointers, contents_at, All, IsStored, after-here, after-past, after-All, All-both,
  load_next-some, load_key-some,
}
use iondb.SkipList.Reaches.{Moves, Reaches, IsCursor}
use iondb.SkipList.Valid.{place_of}

-- The last node, from `c` on, that reaches the level.
abbrev pub reach {ℓ} : {K V : Type ℓ} → ℕ → ℕ → List (Tower K V) → ℕ
reach h c [] = c
reach h c (t ∷ ts) = if leb h t.height then reach h t.place ts else reach h c ts

module _ {ℓ} {K V : Type ℓ} where
  pub reach-here :
      (h c : ℕ) (t : Tower K V) (ts : List (Tower K V))
      → h ≤ t.height
      → reach h c (t ∷ ts) ≡ reach h t.place ts
  reach-here h c t ts le = ground arith

  pub reach-past :
      (h c : ℕ) (t : Tower K V) (ts : List (Tower K V))
      → t.height < h
      → reach h c (t ∷ ts) ≡ reach h c ts
  reach-past h c t ts lt = ground arith

  -- From where a walk at a level ends, a lower level leads to the same node.
  pub Moves-reach :
      (h c : ℕ) (ls : List (Tower K V)) (c' : ℕ) (ls' : List (Tower K V))
      → Moves h ls c' ls'
      → (j : ℕ) → j ≤ h
      → reach j c' ls' ≡ reach j c ls
  Moves-reach h c [] c' ls' m j le = absurd m.lower
  Moves-reach h c (t ∷ ts) c' ls' (inl (le', e, q)) j le =
      ap (λ a. reach j a ls') e ∙ ap (reach j t.place) q ∙ sym (reach-here j c t ts (omega arith))
  Moves-reach h c (t ∷ ts) c' ls' (inr m) j le = elim (dec_lt t.height j) [
    | yes lt ↦ Moves-reach h c ts c' ls' m j le ∙ sym (reach-past j c t ts lt)
    | no ge ↦ Moves-reach h t.place ts c' ls' m j le ∙ sym (reach-here j c t ts (omega arith))
  ]

  pub Reaches-reach :
      (h c : ℕ) (ls : List (Tower K V)) (c' : ℕ) (ls' : List (Tower K V))
      → Reaches h c ls c' ls'
      → (j : ℕ) → j ≤ h
      → reach j c' ls' ≡ reach j c ls
  Reaches-reach h c ls c' ls' (inl (e, q)) j le = ap (λ a. reach j a ls') e ∙ ap (reach j c) q
  Reaches-reach h c ls c' ls' (inr m) j le = Moves-reach h c ls c' ls' m j le

  -- A node that is not among those is not the last one to reach the level.
  pub NotIn-reach :
      (h a c : ℕ) (ls : List (Tower K V)) → a ≢ c → NotIn a (map place_of ls) → a ≢ reach h c ls
  NotIn-reach h a c [] ne out = ne
  NotIn-reach h a c (t ∷ ts) ne (ne', out) = elim (dec_lt t.height h) [
    | yes lt ↦ λ e. NotIn-reach h a c ts ne out (e ∙ reach-past h c t ts lt)
    | no ge ↦ λ e. NotIn-reach h a t.place ts ne' out (e ∙ reach-here h c t ts (omega arith))
  ]

  module _ (m : SkipList K V) (passes : K → Bool) (h c fuel : ℕ) where
    skip_while-none : pointers m.nodes c h ≡ some none → skip_while m passes h (suc fuel) c ≡ done c
    unfolding skip_while
    skip_while-none at = let next = load_next-some m c h at in rw (skip_while, next) refl

    module _ (t : Tower K V) (at : pointers m.nodes c h ≡ some (some t.place))
        (stored : IsStored (contents_at m.nodes) t) where
      skip_while-passes :
          passes t.key ≡ true
          → skip_while m passes h (suc fuel) c ≡ skip_while m passes h fuel t.place
      unfolding skip_while
      skip_while-passes e =
          let next = load_next-some m c h at in
          let k = load_key-some m t.place t stored in ground arith

      skip_while-stops : passes t.key ≡ false → skip_while m passes h (suc fuel) c ≡ done c
      unfolding skip_while
      skip_while-stops e =
          let next = load_next-some m c h at in
          let k = load_key-some m t.place t stored in ground arith

  -- Where the walk ends.
  pub record Walked (h c : ℕ) (ls : List (Tower K V)) (r : Run ℕ) : Type ℓ where
    pub rest : List (Tower K V)
    pub run : r ≡ done (reach h c ls)
    pub reaches : Reaches h c ls (reach h c ls) rest

  module _ (m : SkipList K V) (passes : K → Bool) (rest : List (Tower K V))
      (stored : All (IsStored (contents_at m.nodes)) rest)
      (stops : All (λ t. passes t.key ≡ false) rest) where
    pub skip_while-Walked :
        (h c : ℕ) (ls : List (Tower K V)) (fuel : ℕ)
        → length ls < fuel
        → IsCursor (pointers m.nodes) h c (ls ++ rest)
        → All (IsStored (contents_at m.nodes)) ls
        → All (λ t. passes t.key ≡ true) ls
        → Walked h c ls (skip_while m passes h fuel c)
    skip_while-Walked h c ls zero enough (at, links) s b = absurd (omega arith)
    skip_while-Walked h c [] (suc fuel) enough (at, links) s b = record {
      rest = [];
      run = elim (after-All h rest (All-both _ _ rest stored stops)) [
        | inl e ↦ skip_while-none m passes h c fuel (at ∙ ap some e)
        | inr (t, e, (st, f)) ↦ skip_while-stops m passes h c fuel t (at ∙ ap some e) st f
      ];
      reaches = inl (refl, refl);
    }
    skip_while-Walked h c (t ∷ ts) (suc fuel) enough (at, (link, links)) (s, ss) (b, bs) =
        elim (dec_lt t.height h) [
          | yes lt ↦
              let w =
                skip_while-Walked h c ts (suc fuel) (omega arith)
                  (at ∙ ap some (after-past h t (ts ++ rest) lt), links) ss bs in
              let q = reach-past h c t ts lt in
              elim w.reaches [
                | inl (e, r) ↦ record {
                  rest = t ∷ ts;
                  run = w.run ∙ ap done (sym q);
                  reaches = inl (q ∙ e, refl);
                }
                | inr mv ↦ record {
                  rest = w.rest;
                  run = w.run ∙ ap done (sym q);
                  reaches = inr (subst (λ a. Moves h (t ∷ ts) a w.rest) (sym q) (inr mv));
                }
              ]
          | no ge ↦
              let w =
                skip_while-Walked h t.place ts fuel (omega arith) (link (omega arith), links) ss
                  bs in
              let q = reach-here h c t ts (omega arith) in
              let step =
                skip_while-passes m passes h c fuel t
                  (at ∙ ap some (after-here h t (ts ++ rest) (omega arith))) s b in
              let mv : Moves h (t ∷ ts) (reach h t.place ts) w.rest = elim w.reaches [
                | inl (e, r) ↦ inl (omega arith, e, r)
                | inr mv' ↦ inr mv'
              ] in
              record {
                rest = w.rest;
                run = step ∙ w.run ∙ ap done (sym q);
                reaches = inr (subst (λ a. Moves h (t ∷ ts) a w.rest) (sym q) mv);
              }
        ]
