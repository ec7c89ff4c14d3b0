-- ===== src/SkipList/LinkLoop.antt =====
-- The loop of `sl_insert` of skip_list.c over all levels, for a key that the list does not hold.
use iondb.Base.{
  ℕ, zero, suc, ◌≤◌, ◌<◌, ◌≡◌, refl, sym, ◌∙◌, ap, Option, some, List, [], ◌∷◌, ◌++◌, length, arith,
  dec_lt, inr, map, true, false, leb,
}
use iondb.Base.Distinct.{NotIn, IsDistinct}
use mathlib.Core.Path.{subst}
use iondb.Base.Run.{Run, done, ◌>>=◌, bind_assoc, bind_congr}
use iondb.SkipList.{SkipList, Node, load_next, store_next, skip_while, link_below, at_least}
use iondb.SkipList.Levels.{Tower, after, pointers, contents_at, Content, All, IsStored}
use iondb.SkipList.Link.{reach-after, IsCursor-same}
use iondb.SkipList.LinkBelow.{
  Linked, link_at, link_at-Linked, Partly, Partly-link, Partly-pass, fresh-reach,
}
use iondb.SkipList.Reaches.{IsCursor, Reaches-IsCursor, Reaches-All, Reaches-length}
use iondb.SkipList.Valid.{place_of}
use iondb.SkipList.Walk.{reach, Walked, Reaches-reach, skip_while-Walked}

module _ {ℓ} {K V : Type ℓ} where
  pub All-same :
      (f g : ℕ → Option (Content K V)) (ts : List (Tower K V))
      → ((b : ℕ) → g b ≡ f b)
      → All (IsStored f) ts
      → All (IsStored g) ts
  All-same f g [] same s = s
  All-same f g (t ∷ ts) same (s, ss) = (same t.place ∙ s, All-same f g ts same ss)

  link_bind :
      (m : SkipList K V) (c x h : ℕ) (k : SkipList K V → Run (SkipList K V))
      → (load_next m c h >>= λ next.
          store_next m x h next >>= λ a. store_next a c h (some x) >>= λ b. k b)
        ≡ (link_at m c x h >>= k)
  link_bind m c x h k =
      bind_congr (load_next m c h) _ _
        (λ next. sym (bind_assoc (store_next m x h next) (λ a. store_next a c h (some x)) k))
      ∙ sym (
          bind_assoc (load_next m c h)
            (λ next. store_next m x h next >>= λ a. store_next a c h (some x)) k)

  link_below-step :
      (m : SkipList K V) (key : K) (x height h cursor c : ℕ)
      → skip_while m (λ k. at_least (m.compare key k)) h (suc (length m.nodes)) cursor ≡ done c
      → link_below m key x height (suc h) cursor ≡ elim (leb h height) [
        | true ↦ link_at m c x h >>= λ b. link_below b key x height h c
        | false ↦ link_below m key x height h c
      ]
  unfolding link_below
  link_below-step m key x height h cursor c run =
      ap
        (λ r. r >>= λ c'.
          let z : Run (SkipList K V) = elim (leb h height) [
            | true ↦ load_next m c' h >>= λ next. store_next m x h next >>= λ a.
                store_next a c' h (some x) >>= λ b. link_below b key x height h c'
            | false ↦ link_below m key x height h c'
          ] in
          z)
        run
      ∙ ap
          (λ r.
            let z : Run (SkipList K V) = elim (leb h height) [
              | true ↦ r
              | false ↦ link_below m key x height h c
            ] in
            z)
          (link_bind m c x h (λ b. link_below b key x height h c))

  module _ (m : SkipList K V) (head top : ℕ) (key : K) (x : Tower K V)
      (less rest : List (Tower K V)) (distinct : IsDistinct (head ∷ map place_of (less ++ rest)))
      (fresh : NotIn x.place (head ∷ map place_of (less ++ rest)))
      (stops : All (λ t. at_least (m.compare key t.key) ≡ false) rest) where
    abbrev pub with_nodes : List (Option (Node K V)) → SkipList K V
    with_nodes nodes = record m { nodes = nodes }

    -- The loop at the cursor `c`, with the towers `ls` before it that have smaller keys, when the
    -- levels below `levels` are left.
    pub record Descends (levels : ℕ) (nodes : List (Option (Node K V))) (c : ℕ)
        (ls : List (Tower K V)) : Type ℓ where
      pub short : length ls ≤ length nodes
      pub partly : Partly head top key x less rest levels nodes
      pub stored : All (IsStored (contents_at nodes)) ls
      pub stored_rest : All (IsStored (contents_at nodes)) rest
      pub passes : All (λ t. at_least (m.compare key t.key) ≡ true) ls
      pub cursor : (j : ℕ) → j < levels → IsCursor (pointers nodes) j c (ls ++ rest)
      pub same : (j : ℕ) → j < levels → reach j c ls ≡ reach j head less

    -- What the loop leads to.
    pub record Complete (nodes : List (Option (Node K V))) (r : Run (SkipList K V)) : Type ℓ where
      pub nodes' : List (Option (Node K V))
      pub run : r ≡ done (with_nodes nodes')
      pub partly : Partly head top key x less rest 0 nodes'
      pub contents : (b : ℕ) → contents_at nodes' b ≡ contents_at nodes b
      pub size : length nodes' ≡ length nodes

    module _ (h : ℕ) (nodes : List (Option (Node K V))) (c : ℕ) (ls : List (Tower K V))
        (d : Descends (suc h) nodes c ls) where
      walked :
          Walked h c ls (
            skip_while
              (with_nodes nodes)
              (λ k. at_least (m.compare key k))
              h
              (suc (length nodes))
              c)
      walked =
          let short = d.short in
          skip_while-Walked (with_nodes nodes) (λ k. at_least (m.compare key k)) rest d.stored_rest
            stops h c ls (suc (length nodes)) (omega arith) (d.cursor h (omega arith)) d.stored
            d.passes

      -- The walk at the level `h` is over, and memory is as `nodes'`, where the level is done.
      Descends-walked :
          (nodes' : List (Option (Node K V)))
          → ((b j : ℕ) → j < h → pointers nodes' b j ≡ pointers nodes b j)
          → ((b : ℕ) → contents_at nodes' b ≡ contents_at nodes b)
          → length nodes' ≡ length nodes
          → Partly head top key x less rest h nodes'
          → Descends h nodes' (reach h c ls) walked.rest
      Descends-walked nodes' same contents size partly =
          let w = walked in
          let a = w.reaches in
          let c' = reach h c ls in
          record {
            short = omega (arith, Reaches-length h c ls c' w.rest a, d.short, size);
            partly = partly;
            stored =
                All-same (contents_at nodes) (contents_at nodes') w.rest contents
                  (Reaches-All (IsStored (contents_at nodes)) h c ls c' w.rest a d.stored);
            stored_rest =
                All-same (contents_at nodes) (contents_at nodes') rest contents d.stored_rest;
            passes =
                Reaches-All (λ t. at_least (m.compare key t.key) ≡ true) h c ls c' w.rest a
                  d.passes;
            cursor = λ j lt.
                IsCursor-same (pointers nodes) (pointers nodes') j c' (w.rest ++ rest)
                  (λ b. same b j lt)
                  (Reaches-IsCursor h c ls c' w.rest rest a (pointers nodes) j (omega arith)
                    (d.cursor j (omega arith)));
            same =
                λ j lt. Reaches-reach h c ls c' w.rest a j (omega arith) ∙ d.same j (omega arith);
          }

      Descends-pass : x.height < h → Descends h nodes (reach h c ls) walked.rest
      Descends-pass lt =
          Descends-walked nodes (λ b j _. refl) (λ b. refl) refl
            (Partly-pass head top key x less rest distinct fresh h nodes lt d.partly)

      -- The level `h`, where the new node has it.
      linking :
          h ≤ x.height
          → (nodes' : List (Option (Node K V))) × (link_at
                (with_nodes nodes)
                (reach h c ls)
                x.place
                h
              ≡ done (with_nodes nodes'))
            × Linked nodes (reach h head less) x.place h (after h rest) nodes'
      linking le =
          let (old, own) = d.partly.own h le in
          let e = d.same h (omega arith) in
          let points =
            ap (λ a. pointers nodes a h) e
            ∙ reach-after (pointers nodes) h head less rest (d.partly.below h (omega arith)) in
          let (nodes', run, l) =
            link_at-Linked (with_nodes nodes) (reach h c ls) x.place h (after h rest) old points own
              (λ q. fresh-reach head top key x less rest distinct fresh h (q ∙ e)) in
          (nodes', run, subst (λ a. Linked nodes a x.place h (after h rest) nodes') e l)

      Descends-link : (le : h ≤ x.height) → Descends h ((linking le).0) (reach h c ls) walked.rest
      Descends-link le =
          let (nodes', run, l) = linking le in
          Descends-walked nodes' (λ b j lt. l.elsewhere b j (inr (λ q. omega arith))) l.contents
            l.size
            (Partly-link head top key x less rest distinct fresh h nodes nodes' le d.partly l)

    pub link_below-Complete :
        (levels : ℕ) (nodes : List (Option (Node K V))) (c : ℕ) (ls : List (Tower K V))
        → Descends levels nodes c ls
        → Complete nodes (link_below (with_nodes nodes) key x.place x.height levels c)
    unfolding link_below
    link_below-Complete zero nodes c ls d = record {
      nodes' = nodes;
      run = refl;
      partly = d.partly;
      contents = λ b. refl;
      size = refl;
    }
    link_below-Complete (suc h) nodes c ls d =
        let w = walked h nodes c ls d in
        let c' = reach h c ls in
        let step = link_below-step (with_nodes nodes) key x.place x.height h c c' w.run in
        elim (dec_lt x.height h) [
          | yes lt ↦
              let off : leb h x.height ≡ false = ground arith in
              let r = link_below-Complete h nodes c' w.rest (Descends-pass h nodes c ls d lt) in
              record {
                nodes' = r.nodes';
                run = step ∙ rw (off) r.run;
                partly = r.partly;
                contents = r.contents;
                size = r.size;
              }
          | no ge ↦
              let le : h ≤ x.height = omega arith in
              let on : leb h x.height ≡ true = ground arith in
              let (nodes', run, l) = linking h nodes c ls d le in
              let r = link_below-Complete h nodes' c' w.rest (Descends-link h nodes c ls d le) in
              record {
                nodes' = r.nodes';
                run =
                    step
                    ∙ rw (on)
                        (ap (λ q. q >>= λ b. link_below b key x.place x.height h c') run ∙ r.run);
                partly = r.partly;
                contents = λ b. r.contents b ∙ l.contents b;
                size = r.size ∙ l.size;
              }
        ]
