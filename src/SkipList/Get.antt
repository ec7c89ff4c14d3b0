-- ===== src/SkipList/Get.antt =====
-- `sl_find_node` and `sl_get` of skip_list.c on a valid skip list.
use iondb.Base.{
  ℕ, suc, ◌-◌, ◌≤◌, ◌≡◌, refl, sym, ◌∙◌, ap, Option, none, some, List, [], ◌∷◌, ◌++◌, length, arith,
  inl, inr, ◌⊎◌, true, false, map, length-map, length-append, if◌then◌else◌,
}
use iondb.Base.Distinct.{IsBelow, length-IsDistinct}
use mathlib.Core.Path.{subst}
use iondb.SkipList.Levels.{load_head-some}
use iondb.Base.Run.{Run, done, ◌>>=◌}
use iondb.Key.{KeyOrder}
use iondb.SkipList.{SkipList, Node, load_head, load, find_node, find_below, has_key, get}
use iondb.SkipList.Find.{Compares, IsBlock, target, find_below-target}
use iondb.SkipList.Levels.{
  Tower, pointers, contents_at, All, IsStored, load-content, lt-of-content, All-left, All-right,
}
use iondb.SkipList.Reaches.{IsCursor, last_of}
use iondb.SkipList.Valid.{IsValid, Divided, divide, place_of}
use iondb.System.{
  Comparison, a_lt_b, a_equ_b, a_gt_b, is_equal, Status, status_ok, status_error,
  err_item_not_found,
}

-- The records of a list of towers, and the value of the first one with a key.
abbrev pub entries {ℓ} : {K V : Type ℓ} → List (Tower K V) → List (K × V)
entries [] = []
entries (t ∷ ts) = (t.key, t.value) ∷ entries ts

abbrev pub lookup {ℓ} : {K V : Type ℓ} → (K → K → Comparison) → K → List (K × V) → Option V
lookup compare key [] = none
lookup compare key (r ∷ rs) =
    if is_equal (compare (r.0) key) then some (r.1) else lookup compare key rs

-- What `get` answers.
abbrev pub answer {ℓ} : {V : Type ℓ} → Option V → Status × Option V
answer none = (status_error err_item_not_found, none)
answer (some v) = (status_ok 1, some v)

module _ {ℓ} {K V : Type ℓ} where
  lookup-less :
      (compare : K → K → Comparison) (key : K) (xs ys : List (Tower K V)) (c : Comparison)
      → is_equal c ≡ false
      → All (Compares compare key c) xs
      → lookup compare key (entries (xs ++ ys)) ≡ lookup compare key (entries ys)
  lookup-less compare key [] ys c ne all = refl
  lookup-less compare key (x ∷ xs) ys c ne (e, all) =
      let i = lookup-less compare key xs ys c ne all in ground arith

  lookup-more :
      (compare : K → K → Comparison) (key : K) (xs : List (Tower K V))
      → All (Compares compare key a_gt_b) xs
      → lookup compare key (entries xs) ≡ none
  lookup-more compare key [] all = refl
  lookup-more compare key (x ∷ xs) (e, all) = let i = lookup-more compare key xs all in ground arith

  -- The last of some towers, or the head before them.
  content-last :
      (m : SkipList K V) (key : K) (c : ℕ) (ls : List (Tower K V))
      → All (IsStored (contents_at m.nodes)) ls
      → All (Compares m.compare key a_lt_b) ls
      → (last_of c ls ≡ c)
        ⊎ ((t : Tower K V) × IsStored (contents_at m.nodes) t
            × Compares m.compare key a_lt_b t
            × (last_of c ls ≡ t.place))
  content-last m key c [] s b = inl refl
  content-last m key c (t ∷ ts) (s, ss) (b, bs) = elim (content-last m key t.place ts ss bs) [
    | inl q ↦ inr (t, s, b, q)
    | inr w ↦ inr w
  ]

  pub IsBelow-places :
      (m : SkipList K V) (ts : List (Tower K V))
      → All (IsStored (contents_at m.nodes)) ts
      → IsBelow (length m.nodes) (map place_of ts)
  IsBelow-places m [] s = tt
  IsBelow-places m (t ∷ ts) (s, ss) = (lt-of-content m.nodes t.place s, IsBelow-places m ts ss)

module _ {ℓ} {K V : Type ℓ} {m : SkipList K V} (order : KeyOrder m.compare) {ts : List (Tower K V)}
    (valid : IsValid m ts) where
  pub length-towers : length ts ≤ length m.nodes
  length-towers = omega (
    arith,
    length-map ts place_of,
    length-IsDistinct (length m.nodes) (map place_of ts) (valid.distinct.1)
        (IsBelow-places m ts valid.stored),
  )

  pub find_node-target :
      (key : K) (d : Divided m.compare key ts)
      → find_node m key ≡ done (target valid.head d.less d.same)
  unfolding find_node load_head
  find_node-target key d =
      let (n, run, k, v, h) = load-content m valid.head valid.head_content in
      let stored = subst (All (IsStored (contents_at m.nodes))) d.whole valid.stored in
      let below =
        find_below-target m key d.same d.more d.block d.behind
          (All-right _ d.less (d.same ++ d.more) stored) (m.maxheight - 1) valid.head d.less
          (omega (arith, length-towers, ap length d.whole, length-append d.less (d.same ++ d.more)))
          (λ j le. subst (IsCursor (pointers m.nodes) j valid.head) d.whole (valid.cursor j le))
          (All-left _ d.less (d.same ++ d.more) stored) d.before in
      ap (λ r. r >>= λ head. load m head >>= λ a. find_below m key (suc a.height) head)
        (load_head-some m valid.head valid.head_at)
      ∙ ap (λ r. r >>= λ a. find_below m key (suc a.height) valid.head) run
      ∙ ap (λ x. find_below m key (suc x) valid.head) h
      ∙ below

  get_step :
      (key : K) (c : ℕ) (n : Node K V)
      → find_node m key ≡ done c
      → load m c ≡ done n
      → get m key ≡ (
          if has_key m n key
          then done (status_ok 1, n.value)
          else done (status_error err_item_not_found, none))
  unfolding get
  get_step key c n run at =
      ap
        (λ r. r >>= λ cursor. load m cursor >>= λ n'.
          let z : Run (Status × Option V) =
            if has_key m n' key
            then done (status_ok 1, n'.value)
            else done (status_error err_item_not_found, none) in
          z)
        run
      ∙ ap
          (λ r. r >>= λ n'.
            let z : Run (Status × Option V) =
              if has_key m n' key
              then done (status_ok 1, n'.value)
              else done (status_error err_item_not_found, none) in
            z)
          at

  has_key-content :
      (key : K) (n : Node K V) (t : Tower K V)
      → n.key ≡ some t.key
      → has_key m n key ≡ is_equal (m.compare t.key key)
  unfolding has_key
  has_key-content key n t e = rw (has_key, e) refl

  has_key-head : (key : K) (n : Node K V) → n.key ≡ none → has_key m n key ≡ false
  unfolding has_key
  has_key-head key n e = rw (has_key, e) refl

  get-same :
      (key : K) (t : Tower K V)
      → find_node m key ≡ done t.place
      → IsStored (contents_at m.nodes) t
      → Compares m.compare key a_equ_b t
      → get m key ≡ done (answer (some t.value))
  get-same key t run s e =
      let (n, at, k, v, h) = load-content m t.place s in
      let b : has_key m n key ≡ true = has_key-content key n t k ∙ ap is_equal e in
      get_step key t.place n run at ∙ rw (b, v) refl

  get-absent :
      (key : K) (c : ℕ) (n : Node K V)
      → find_node m key ≡ done c
      → load m c ≡ done n
      → has_key m n key ≡ false
      → get m key ≡ done (answer none)
  get-absent key c n run at b = get_step key c n run at ∙ rw (b) refl

  -- Where no node has the key, the one that is found has another one, or is the head.
  pub absent_node :
      (key : K) (ls : List (Tower K V))
      → All (IsStored (contents_at m.nodes)) ls
      → All (Compares m.compare key a_lt_b) ls
      → find_node m key ≡ done (last_of valid.head ls)
      → (c : ℕ) × (n : Node K V) × (find_node m key ≡ done c)
        × (load m c ≡ done n)
        × (has_key m n key ≡ false)
  absent_node key ls s b run = elim (content-last m key valid.head ls s b) [
    | inl q ↦
        let (n, at, k, v, h) = load-content m valid.head valid.head_content in
        (valid.head, n, run ∙ ap done q, at, has_key-head key n k)
    | inr (t, st, lt, q) ↦
        let (n, at, k, v, h) = load-content m t.place st in
        (t.place, n, run ∙ ap done q, at, has_key-content key n t k ∙ ap is_equal lt)
  ]

  pub lookup-present :
      (key : K) (less ds more : List (Tower K V)) (t : Tower K V)
      → All (Compares m.compare key a_lt_b) less
      → Compares m.compare key a_equ_b t
      → lookup m.compare key (entries (less ++ (t ∷ ds ++ more))) ≡ some t.value
  lookup-present key less ds more t before e =
      let here : lookup m.compare key (entries (t ∷ ds ++ more)) ≡ some t.value = ground arith in
      lookup-less m.compare key less (t ∷ ds ++ more) a_lt_b refl before ∙ here

  get-Divided :
      (key : K) (less same more : List (Tower K V))
      → All (IsStored (contents_at m.nodes)) (less ++ (same ++ more))
      → All (Compares m.compare key a_lt_b) less
      → IsBlock m.compare key same
      → All (Compares m.compare key a_gt_b) more
      → find_node m key ≡ done (target valid.head less same)
      → get m key ≡ done (answer (lookup m.compare key (entries (less ++ (same ++ more)))))
  get-Divided key less [] more stored before block behind run =
      let (c, n, run', at, b) = absent_node key less (All-left _ less more stored) before run in
      get-absent key c n run' at b
      ∙ ap (λ o. done (answer o))
          (sym (
            lookup-less m.compare key less more a_lt_b refl before
            ∙ lookup-more m.compare key more behind))
  get-Divided key less (t ∷ ds) more stored before (e, flat) behind run =
      get-same key t run (All-right _ less (t ∷ ds ++ more) stored).0 e
      ∙ ap (λ o. done (answer o)) (sym (lookup-present key less ds more t before e))

  -- On a valid skip list `get` gives the value of the first record with the key, or says that there is
  -- none.
  pub get-lookup : (key : K) → get m key ≡ done (answer (lookup m.compare key (entries ts)))
  get-lookup key =
      let d = divide order key ts valid.sorted in
      get-Divided key d.less d.same d.more
        (subst (All (IsStored (contents_at m.nodes))) d.whole valid.stored) d.before d.block
        d.behind (find_node-target key d)
      ∙ ap (λ l. done (answer (lookup m.compare key (entries l)))) (sym d.whole)
