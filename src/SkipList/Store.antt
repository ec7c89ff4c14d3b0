-- ===== src/SkipList/Store.antt =====
-- The writes of skip_list.c: a pointer of a node, and a new node.
use iondb.Base.{
  ℕ, zero, suc, ◌<◌, ◌≡◌, ◌≢◌, refl, sym, ◌∙◌, ap, Option, none, some, List, [], ◌∷◌, ◌++◌, length,
  get_elem?, set, arith, inl, inr, ◌⊎◌, ℕ_discrete, length-set, get_elem?-set_self,
  get_elem?-set_ne, lt-of-get_elem?, get_elem?-append_end, get_elem?-append_ne,
}
use mathlib.Core.Path.{subst}
use iondb.Base.Run.{done, ◌>>=◌}
use iondb.SkipList.{SkipList, Node, at, load_next, store_next}
use iondb.SkipList.Levels.{
  pointers, pointer_of, contents_at, content_of, load_next-some, node-of-pointer, load-some,
}

-- The pointer of the node `a` at the level `h` becomes `o`, and nothing else changes.
pub record Pointed {ℓ} {K V : Type ℓ} (nodes : List (Option (Node K V))) (a h : ℕ) (o : Option ℕ)
    (nodes' : List (Option (Node K V))) : Type ℓ where
  pub here : pointers nodes' a h ≡ some o
  pub elsewhere : (b j : ℕ) → (b ≢ a) ⊎ (j ≢ h) → pointers nodes' b j ≡ pointers nodes b j
  pub contents : (b : ℕ) → contents_at nodes' b ≡ contents_at nodes b
  pub size : length nodes' ≡ length nodes

module _ {ℓ} {K V : Type ℓ} where
  at-get_elem? :
      (nodes : List (Option (Node K V))) (a : ℕ) {n : Node K V}
      → at nodes a ≡ some n
      → get_elem? nodes a ≡ some (some n)
  at-get_elem? [] a e = ground arith
  at-get_elem? (x ∷ nodes) zero e = ap some e
  at-get_elem? (x ∷ nodes) (suc a) e = at-get_elem? nodes a e

  at-set_self :
      (nodes : List (Option (Node K V))) (a : ℕ) (n : Option (Node K V))
      → a < length nodes
      → at (set nodes a n) a ≡ n
  at-set_self [] a n h = absurd (omega arith)
  at-set_self (x ∷ nodes) zero n h = refl
  at-set_self (x ∷ nodes) (suc a) n h = at-set_self nodes a n (omega arith)

  at-set_ne :
      (nodes : List (Option (Node K V))) (a b : ℕ) (n : Option (Node K V))
      → b ≢ a
      → at (set nodes a n) b ≡ at nodes b
  at-set_ne nodes a b n ne =
      ap (λ o. elim o [ none ↦ none | some x ↦ x ]) (get_elem?-set_ne nodes a b n (λ e. ne (sym e)))

  module _ (nodes : List (Option (Node K V))) (a h : ℕ) (o : Option ℕ) (n : Node K V)
      (here : at nodes a ≡ some n) where
    abbrev pointing : Node K V
    pointing = record n { next = set n.next h o }

    at-pointing : at (set nodes a (some pointing)) a ≡ some pointing
    at-pointing =
        at-set_self nodes a (some pointing) (lt-of-get_elem? nodes a (at-get_elem? nodes a here))

    pointing-elsewhere :
        (b j : ℕ)
        → (b ≢ a) ⊎ (j ≢ h)
        → pointers (set nodes a (some pointing)) b j ≡ pointers nodes b j
    pointing-elsewhere b j ne = elim (ℕ_discrete b a) [
      | no q ↦ ap (λ x. pointer_of x j) (at-set_ne nodes a b (some pointing) q)
      | yes e ↦
          let ne' : j ≢ h = elim ne [ inl q ↦ absurd (q e) | inr q ↦ q ] in
          subst (λ k. pointers (set nodes a (some pointing)) k j ≡ pointers nodes k j) (sym e)
            (ap (λ x. pointer_of x j) at-pointing
              ∙ get_elem?-set_ne n.next h j o (λ q. ne' (sym q))
              ∙ sym (ap (λ x. pointer_of x j) here))
    ]

    pointing-contents : (b : ℕ) → contents_at (set nodes a (some pointing)) b ≡ contents_at nodes b
    pointing-contents b = elim (ℕ_discrete b a) [
      | no q ↦ ap content_of (at-set_ne nodes a b (some pointing) q)
      | yes e ↦
          subst (λ k. contents_at (set nodes a (some pointing)) k ≡ contents_at nodes k) (sym e)
            (ap content_of at-pointing ∙ sym (ap content_of here))
    ]

  pub store_next-Pointed :
      (m : SkipList K V) (a h : ℕ) (o : Option ℕ) {old : Option ℕ}
      → pointers m.nodes a h ≡ some old
      → (nodes : List (Option (Node K V))) × (store_next m a h o
          ≡ done (record m { nodes = nodes }))
        × Pointed m.nodes a h o nodes
  unfolding store_next
  store_next-Pointed m a h o {old = old} e =
      let (n, here, p) = node-of-pointer (at m.nodes a) h e in
      let nodes = set m.nodes a (some (pointing m.nodes a h o n here)) in
      (
        nodes,
        ap
              (λ r. r >>= λ x. load_next m a h >>= λ _.
                done
                  (record m { nodes = set m.nodes a (some (record x { next = set x.next h o })) }))
              (load-some m a n here)
            ∙ ap (λ r. r >>= λ _. done (record m { nodes = nodes })) (load_next-some m a h e),
        record {
          here =
              ap (λ x. pointer_of x h) (at-pointing m.nodes a h o n here)
              ∙ get_elem?-set_self n.next h o (lt-of-get_elem? n.next h p);
          elsewhere = pointing-elsewhere m.nodes a h o n here;
          contents = pointing-contents m.nodes a h o n here;
          size = length-set m.nodes a (some (pointing m.nodes a h o n here));
        },
      )

  -- A node that is added changes nothing elsewhere.
  pub at-append :
      (nodes : List (Option (Node K V))) (n : Node K V) (b : ℕ)
      → b ≢ length nodes
      → at (nodes ++ some n ∷ []) b ≡ at nodes b
  at-append nodes n b ne =
      ap (λ o. elim o [ none ↦ none | some x ↦ x ])
        (get_elem?-append_ne nodes (some n) b (λ e. ne (sym e)))

  pub at-append_end :
      (nodes : List (Option (Node K V))) (n : Node K V)
      → at (nodes ++ some n ∷ []) (length nodes) ≡ some n
  at-append_end nodes n =
      ap (λ o. elim o [ none ↦ none | some x ↦ x ]) (get_elem?-append_end nodes (some n))
