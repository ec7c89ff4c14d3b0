-- ===== src/SkipList/Link.antt =====
-- A node that is linked at one level of the skip list of skip_list.c.
use iondb.Base.{ℕ, ◌≤◌, ◌<◌, ◌≡◌, ◌≢◌, sym, ◌∙◌, ap, some, List, [], ◌∷◌, ◌++◌, arith, dec_lt, map}
use iondb.Base.Distinct.{NotIn, IsDistinct}
use iondb.SkipList.Levels.{Tower, after, Pointers, IsLinked, after-here, after-past}
use iondb.SkipList.Reaches.{IsCursor}
use iondb.SkipList.Valid.{place_of}
use iondb.SkipList.Walk.{reach, reach-here, reach-past, NotIn-reach}

module _ {ℓ} {K V : Type ℓ} where
  -- Pointers that agree on a level.
  pub IsLinked-same :
      (p q : Pointers) (h : ℕ) (ts : List (Tower K V))
      → ((b : ℕ) → q b h ≡ p b h)
      → IsLinked p h ts
      → IsLinked q h ts
  IsLinked-same p q h [] same links = tt
  IsLinked-same p q h (t ∷ ts) same (at, links) =
      ((λ le. same t.place ∙ at le), IsLinked-same p q h ts same links)

  pub IsCursor-same :
      (p q : Pointers) (h c : ℕ) (ts : List (Tower K V))
      → ((b : ℕ) → q b h ≡ p b h)
      → IsCursor p h c ts
      → IsCursor q h c ts
  IsCursor-same p q h c ts same (at, links) = (same c ∙ at, IsLinked-same p q h ts same links)

  -- Pointers that agree but at two nodes that are not among the towers.
  pub IsLinked-elsewhere :
      (p q : Pointers) (h a x : ℕ) (ts : List (Tower K V))
      → ((b : ℕ) → b ≢ a → b ≢ x → q b h ≡ p b h)
      → NotIn a (map place_of ts)
      → NotIn x (map place_of ts)
      → IsLinked p h ts
      → IsLinked q h ts
  IsLinked-elsewhere p q h a x [] same na nx links = tt
  IsLinked-elsewhere p q h a x (t ∷ ts) same (na, nas) (nx, nxs) (at, links) = (
    (λ le. same t.place (λ e. na (sym e)) (λ e. nx (sym e)) ∙ at le),
    IsLinked-elsewhere p q h a x ts same nas nxs links,
  )

  pub NotIn-left :
      (a : ℕ) (xs ys : List (Tower K V))
      → NotIn a (map place_of (xs ++ ys))
      → NotIn a (map place_of xs)
  NotIn-left a [] ys h = tt
  NotIn-left a (x ∷ xs) ys (ne, h) = (ne, NotIn-left a xs ys h)

  -- The tower `x` goes behind the last one of `ls` that reaches the level.
  pub IsCursor-insert :
      (p q : Pointers) (h c : ℕ) (ls rest : List (Tower K V)) (x : Tower K V)
      → h ≤ x.height
      → q (reach h c ls) h ≡ some (some x.place)
      → q x.place h ≡ some (after h rest)
      → ((b : ℕ) → b ≢ reach h c ls → b ≢ x.place → q b h ≡ p b h)
      → IsDistinct (c ∷ map place_of (ls ++ rest))
      → NotIn x.place (c ∷ map place_of (ls ++ rest))
      → IsCursor p h c (ls ++ rest)
      → IsCursor q h c (ls ++ (x ∷ rest))
  IsCursor-insert p q h c [] rest x le at_c at_x same (nc, distinct) (xc, nx) (at, links) = (
    at_c ∙ ap some (sym (after-here h x rest le)),
    ((λ _. at_x), IsLinked-elsewhere p q h c x.place rest same nc nx links),
  )
  IsCursor-insert p q h c (t ∷ ts) rest x le at_c at_x same ((ct, nc), (nt, distinct))
        (xc, (xt, nx)) (at, (link, links)) =
      elim (dec_lt t.height h) [
        | yes lt ↦
            let r = reach-past h c t ts lt in
            let (at', links') =
              IsCursor-insert p q h c ts rest x le (ap (λ a. q a h) (sym r) ∙ at_c) at_x
                (λ b ne. same b (λ e. ne (e ∙ r))) (nc, distinct) (xc, nx)
                (at ∙ ap some (after-past h t (ts ++ rest) lt), links) in
            (
              at' ∙ ap some (sym (after-past h t (ts ++ (x ∷ rest)) lt)),
              ((λ le'. absurd (omega arith)), links'),
            )
        | no ge ↦
            let r = reach-here h c t ts (omega arith) in
            let (at', links') =
              IsCursor-insert p q h t.place ts rest x le (ap (λ a. q a h) (sym r) ∙ at_c) at_x
                (λ b ne. same b (λ e. ne (e ∙ r))) (nt, distinct) (xt, nx)
                (link (omega arith), links) in
            (
              same c (λ e. NotIn-reach h c t.place ts ct (NotIn-left c ts rest nc) (e ∙ r))
                    (λ e. xc (sym e))
                  ∙ at
                  ∙ ap some (after-here h t (ts ++ rest) (omega arith))
                  ∙ ap some (sym (after-here h t (ts ++ (x ∷ rest)) (omega arith))),
              ((λ _. at'), links'),
            )
      ]

  -- What the last one of `ls` that reaches the level points to.
  pub reach-after :
      (p : Pointers) (h c : ℕ) (ls rest : List (Tower K V))
      → IsCursor p h c (ls ++ rest)
      → p (reach h c ls) h ≡ some (after h rest)
  reach-after p h c [] rest (at, links) = at
  reach-after p h c (t ∷ ts) rest (at, (link, links)) = elim (dec_lt t.height h) [
    | yes lt ↦
        ap (λ a. p a h) (reach-past h c t ts lt)
        ∙ reach-after p h c ts rest (at ∙ ap some (after-past h t (ts ++ rest) lt), links)
    | no ge ↦
        ap (λ a. p a h) (reach-here h c t ts (omega arith))
        ∙ reach-after p h t.place ts rest (link (omega arith), links)
  ]

  -- A tower that does not reach the level may stand anywhere.
  pub IsCursor-low :
      (p : Pointers) (h c : ℕ) (ls rest : List (Tower K V)) (x : Tower K V)
      → x.height < h
      → IsCursor p h c (ls ++ rest)
      → IsCursor p h c (ls ++ (x ∷ rest))
  IsCursor-low p h c [] rest x lt (at, links) =
      (at ∙ ap some (sym (after-past h x rest lt)), ((λ le. absurd (omega arith)), links))
  IsCursor-low p h c (t ∷ ts) rest x lt (at, (link, links)) = elim (dec_lt t.height h) [
    | yes low ↦
        let (at', links') =
          IsCursor-low p h c ts rest x lt (at ∙ ap some (after-past h t (ts ++ rest) low), links) in
        (
          at' ∙ ap some (sym (after-past h t (ts ++ (x ∷ rest)) low)),
          ((λ le. absurd (omega arith)), links'),
        )
    | no ge ↦
        let (at', links') = IsCursor-low p h t.place ts rest x lt (link (omega arith), links) in
        (
          at
              ∙ ap some (after-here h t (ts ++ rest) (omega arith))
              ∙ ap some (sym (after-here h t (ts ++ (x ∷ rest)) (omega arith))),
          ((λ _. at'), links'),
        )
  ]
