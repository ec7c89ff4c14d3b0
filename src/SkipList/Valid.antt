-- ===== src/SkipList/Valid.antt =====
-- When the memory of skip_list.c holds a skip list, and how a key divides one.
use iondb.Base.{
  ℕ, ◌-◌, ◌≤◌, ◌≡◌, ◌≢◌, refl, sym, ◌∙◌, ap, none, some, List, [], ◌∷◌, ◌++◌, arith, inl, inr, ◌⊎◌,
  map,
}
use iondb.Base.Distinct.{IsDistinct}
use iondb.Key.{KeyOrder, flip, compare_congr}
use iondb.SkipList.{SkipList}
use iondb.SkipList.Find.{Compares, IsBlock}
use iondb.SkipList.Levels.{Tower, pointers, contents_at, All, IsStored}
use iondb.SkipList.Reaches.{IsCursor}
use iondb.System.{Comparison, a_lt_b, a_equ_b, a_gt_b, is_equal}

-- A tower behind one with the key `key` has a larger key, or the same one and no height.
abbrev pub Follows {ℓ} : {K V : Type ℓ} → (K → K → Comparison) → K → Tower K V → Type 0
Follows compare key t =
    (compare key t.key ≡ a_lt_b) ⊎ ((compare key t.key ≡ a_equ_b) × (t.height ≡ 0))

abbrev pub IsSorted {ℓ} : {K V : Type ℓ} → (K → K → Comparison) → List (Tower K V) → Type 0
IsSorted compare [] = Unit
IsSorted compare (t ∷ ts) = All (Follows compare t.key) ts × IsSorted compare ts

abbrev pub place_of {ℓ} : {K V : Type ℓ} → Tower K V → ℕ
place_of t = t.place

-- The towers of a skip list, in their order.
pub record IsValid {ℓ} {K V : Type ℓ} (m : SkipList K V) (ts : List (Tower K V)) : Type ℓ where
  pub head : ℕ
  pub head_at : m.head ≡ some head
  pub head_content :
      contents_at m.nodes head
      ≡ some (record { key = none; value = none; height = m.maxheight - 1 })
  pub cursor : (j : ℕ) → j ≤ m.maxheight - 1 → IsCursor (pointers m.nodes) j head ts
  pub stored : All (IsStored (contents_at m.nodes)) ts
  pub low : All (λ t. t.height ≤ m.maxheight - 1) ts
  pub distinct : IsDistinct (head ∷ map place_of ts)
  pub sorted : IsSorted m.compare ts

-- The towers with smaller keys than `key`, those with the key, and those with larger ones.
pub record Divided {ℓ} {K V : Type ℓ} (compare : K → K → Comparison) (key : K)
    (ts : List (Tower K V)) : Type ℓ where
  pub less : List (Tower K V)
  pub same : List (Tower K V)
  pub more : List (Tower K V)
  pub whole : ts ≡ less ++ (same ++ more)
  pub before : All (Compares compare key a_lt_b) less
  pub block : IsBlock compare key same
  pub behind : All (Compares compare key a_gt_b) more

module _ {ℓ} {K : Type ℓ} {compare : K → K → Comparison} (order : KeyOrder compare) (key : K) where
  compare_larger :
      (a b : K) → compare a key ≡ a_gt_b → compare a b ≢ a_gt_b → compare b key ≡ a_gt_b
  compare_larger a b e ne = ground (arith, order.compare_trans a b key)

  compare_same : (a b : K) → compare a key ≡ a_equ_b → compare b key ≡ flip (compare a b)
  compare_same a b e =
      order.compare_flip key b ∙ ap flip (sym (compare_congr order a key b (ap is_equal e)))

module _ {ℓ} {K V : Type ℓ} {compare : K → K → Comparison} (order : KeyOrder compare)
    (key : K) where
  -- Behind a key that is larger, all are.
  Follows-larger :
      (k : K) (ts : List (Tower K V))
      → compare k key ≡ a_gt_b
      → All (Follows compare k) ts
      → All (Compares compare key a_gt_b) ts
  Follows-larger k [] e all = record { lower = tt }
  Follows-larger k (t ∷ ts) e (inl f, all) =
      (compare_larger order key k t.key e (λ q. ground arith), Follows-larger k ts e all)
  Follows-larger k (t ∷ ts) e (inr (f, z), all) =
      (compare_larger order key k t.key e (λ q. ground arith), Follows-larger k ts e all)

  -- Behind one that is the same, those that are the same come first, and have no height.
  divide_same :
      (k : K) (ts : List (Tower K V))
      → compare k key ≡ a_equ_b
      → All (Follows compare k) ts
      → IsSorted compare ts
      → (ds : List (Tower K V)) × (more : List (Tower K V)) × (ts ≡ ds ++ more)
        × All (λ u. Compares compare key a_equ_b u × (u.height ≡ 0)) ds
        × All (Compares compare key a_gt_b) more
  divide_same k [] e all sorted = ([], [], refl, record { lower = tt }, record { lower = tt })
  divide_same k (t ∷ ts) e (inl f, all) (follow, sorted) =
      let g : compare t.key key ≡ a_gt_b = compare_same order key k t.key e ∙ ap flip f in
      ([], t ∷ ts, refl, record { lower = tt }, (g, Follows-larger t.key ts g follow))
  divide_same k (t ∷ ts) e (inr (f, z), all) (follow, sorted) =
      let g : compare t.key key ≡ a_equ_b = compare_same order key k t.key e ∙ ap flip f in
      let (ds, more, q, flat, behind) = divide_same k ts e all sorted in
      (t ∷ ds, more, ap (λ l. t ∷ l) q, ((g, z), flat), behind)

  -- The first tower, by how its key compares.
  divide_cons :
      (t : Tower K V) (ts : List (Tower K V))
      → IsSorted compare (t ∷ ts)
      → Divided compare key ts
      → (c : Comparison) → compare t.key key ≡ c
      → Divided compare key (t ∷ ts)
  divide_cons t ts (follow, sorted) d a_lt_b e = record {
    less = t ∷ d.less;
    same = d.same;
    more = d.more;
    whole = ap (λ l. t ∷ l) d.whole;
    before = (e, d.before);
    block = d.block;
    behind = d.behind;
  }
  divide_cons t ts (follow, sorted) d a_equ_b e =
      let (ds, more, q, flat, behind) = divide_same t.key ts e follow sorted in
      record {
        less = [];
        same = t ∷ ds;
        more = more;
        whole = ap (λ l. t ∷ l) q;
        before = record { lower = tt };
        block = (e, flat);
        behind = behind;
      }
  divide_cons t ts (follow, sorted) d a_gt_b e = record {
    less = [];
    same = [];
    more = t ∷ ts;
    whole = refl;
    before = record { lower = tt };
    block = tt;
    behind = (e, Follows-larger t.key ts e follow);
  }

  pub divide : (ts : List (Tower K V)) → IsSorted compare ts → Divided compare key ts
  divide [] sorted = record {
    less = [];
    same = [];
    more = [];
    whole = refl;
    before = record { lower = tt };
    block = tt;
    behind = record { lower = tt };
  }
  divide (t ∷ ts) sorted = divide_cons t ts sorted (divide ts (sorted.1)) (compare t.key key) refl
