-- ===== src/SkipList/LinkBelow.antt =====
-- The loop of `sl_insert` of skip_list.c that links a new node at its levels.
use iondb.Base.{
  ℕ, suc, ◌≤◌, ◌<◌, ◌≡◌, ◌≢◌, sym, ◌∙◌, ap, Option, some, List, ◌∷◌, ◌++◌, length, arith, inl, inr,
  ◌⊎◌, map, ℕ_discrete,
}
use iondb.Base.Distinct.{NotIn, IsDistinct}
use mathlib.Core.Path.{subst}
use iondb.Base.Run.{Run, done, ◌>>=◌}
use iondb.SkipList.{SkipList, Node, load_next, store_next}
use iondb.SkipList.Levels.{Tower, after, pointers, contents_at, load_next-some}
use iondb.SkipList.Link.{IsCursor-same, IsCursor-insert, IsCursor-low, NotIn-left}
use iondb.SkipList.Reaches.{IsCursor}
use iondb.SkipList.Store.{store_next-Pointed}
use iondb.SkipList.Valid.{place_of}
use iondb.SkipList.Walk.{reach, NotIn-reach}

module _ {ℓ} {K V : Type ℓ} where
  -- The node `x` comes behind `c` at the level `h`.
  pub record Linked (nodes : List (Option (Node K V))) (c x h : ℕ) (o : Option ℕ)
      (nodes' : List (Option (Node K V))) : Type ℓ where
    pub at_c : pointers nodes' c h ≡ some (some x)
    pub at_x : pointers nodes' x h ≡ some o
    pub elsewhere :
        (b j : ℕ) → ((b ≢ c) × (b ≢ x)) ⊎ (j ≢ h) → pointers nodes' b j ≡ pointers nodes b j
    pub contents : (b : ℕ) → contents_at nodes' b ≡ contents_at nodes b
    pub size : length nodes' ≡ length nodes

  abbrev pub link_at : SkipList K V → ℕ → ℕ → ℕ → Run (SkipList K V)
  link_at m c x h =
      load_next m c h >>= λ next. store_next m x h next >>= λ a. store_next a c h (some x)

  pub link_at-Linked :
      (m : SkipList K V) (c x h : ℕ) (o old : Option ℕ)
      → pointers m.nodes c h ≡ some o
      → pointers m.nodes x h ≡ some old
      → x ≢ c
      → (nodes : List (Option (Node K V))) × (link_at m c x h ≡ done (record m { nodes = nodes }))
        × Linked m.nodes c x h o nodes
  link_at-Linked m c x h o old at_c at_x ne =
      let (first, run, p) = store_next-Pointed m x h o at_x in
      let (second, run', q) =
        store_next-Pointed (record m { nodes = first }) c h (some x)
          (p.elsewhere c h (inl (λ e. ne (sym e))) ∙ at_c) in
      (
        second,
        ap (λ r. r >>= λ next. store_next m x h next >>= λ a. store_next a c h (some x))
              (load_next-some m c h at_c)
            ∙ ap (λ r. r >>= λ a. store_next a c h (some x)) run
            ∙ run',
        record {
          at_c = q.here;
          at_x = q.elsewhere x h (inl ne) ∙ p.here;
          elsewhere = λ b j ne'. elim ne' [
            | inl (bc, bx) ↦ q.elsewhere b j (inl bc) ∙ p.elsewhere b j (inl bx)
            | inr jh ↦ q.elsewhere b j (inr jh) ∙ p.elsewhere b j (inr jh)
          ];
          contents = λ b. q.contents b ∙ p.contents b;
          size = q.size ∙ p.size;
        },
      )

  module _ (head top : ℕ) (key : K) (x : Tower K V) (less rest : List (Tower K V)) where
    -- The levels from `levels` on have the new node, the others do not.
    pub record Partly (levels : ℕ) (nodes : List (Option (Node K V))) : Type ℓ where
      pub below : (j : ℕ) → j < levels → IsCursor (pointers nodes) j head (less ++ rest)
      pub above :
          (j : ℕ) → levels ≤ j → j ≤ top → IsCursor (pointers nodes) j head (less ++ (x ∷ rest))
      pub own : (j : ℕ) → j ≤ x.height → (o : Option ℕ) × (pointers nodes x.place j ≡ some o)

    module _ (distinct : IsDistinct (head ∷ map place_of (less ++ rest)))
        (fresh : NotIn x.place (head ∷ map place_of (less ++ rest))) where
      pub fresh-reach : (h : ℕ) → x.place ≢ reach h head less
      fresh-reach h =
          NotIn-reach h x.place head less (fresh.0) (NotIn-left x.place less rest (fresh.1))

      pub Partly-link :
          (h : ℕ) (nodes nodes' : List (Option (Node K V)))
          → h ≤ x.height
          → Partly (suc h) nodes
          → Linked nodes (reach h head less) x.place h (after h rest) nodes'
          → Partly h nodes'
      Partly-link h nodes nodes' le s l = record {
        below = λ j lt.
            IsCursor-same (pointers nodes) (pointers nodes') j head (less ++ rest)
              (λ b. l.elsewhere b j (inr (λ e. omega arith))) (s.below j (omega arith));
        above = λ j ge low. elim (ℕ_discrete j h) [
          | yes e ↦
              subst (λ k. IsCursor (pointers nodes') k head (less ++ (x ∷ rest))) (sym e)
                (IsCursor-insert (pointers nodes) (pointers nodes') h head less rest x le l.at_c
                  l.at_x (λ b nc nx. l.elsewhere b h (inl (nc, nx))) distinct fresh
                  (s.below h (omega arith)))
          | no ne ↦
              IsCursor-same (pointers nodes) (pointers nodes') j head (less ++ (x ∷ rest))
                (λ b. l.elsewhere b j (inr ne)) (s.above j (omega arith) low)
        ];
        own = λ j le'. elim (ℕ_discrete j h) [
          | yes e ↦ (after h rest, ap (pointers nodes' x.place) e ∙ l.at_x)
          | no ne ↦ let (o, q) = s.own j le' in (o, l.elsewhere x.place j (inr ne) ∙ q)
        ];
      }

      pub Partly-pass :
          (h : ℕ) (nodes : List (Option (Node K V)))
          → x.height < h
          → Partly (suc h) nodes
          → Partly h nodes
      Partly-pass h nodes lt s = record {
        below = λ j l. s.below j (omega arith);
        above = λ j ge low. elim (ℕ_discrete j h) [
          | yes e ↦
              subst (λ k. IsCursor (pointers nodes) k head (less ++ (x ∷ rest))) (sym e)
                (IsCursor-low (pointers nodes) h head less rest x lt (s.below h (omega arith)))
          | no ne ↦ s.above j (omega arith) low
        ];
        own = s.own;
      }
