-- ===== src/SkipList/Placed.antt =====
-- A tower that is put between those with smaller and those with larger keys, for skip_list.c.
use iondb.Base.{ℕ, ◌≡◌, ◌≢◌, refl, sym, ◌∙◌, ap, List, [], ◌∷◌, ◌++◌, inl, map}
use iondb.Base.Distinct.{NotIn, IsDistinct}
use iondb.Key.{KeyOrder, flip}
use iondb.SkipList.Find.{Compares}
use iondb.SkipList.Get.{entries}
use iondb.SkipList.Levels.{Tower, All, All-append, All-left, All-right}
use iondb.SkipList.Valid.{IsSorted, Follows, place_of}
use iondb.System.{Comparison, a_lt_b, a_gt_b}

-- A record goes before those with larger keys.
abbrev pub insert_entry {ℓ} :
    {K V : Type ℓ} → (K → K → Comparison) → K → V → List (K × V) → List (K × V)
insert_entry compare key value [] = (key, value) ∷ []
insert_entry compare key value (r ∷ rs) = elim (compare (r.0) key) [
  | a_gt_b ↦ (key, value) ∷ r ∷ rs
  | _ ↦ r ∷ insert_entry compare key value rs
]

module _ {ℓ} {K V : Type ℓ} where
  pub insert_entry-Divided :
      (compare : K → K → Comparison) (less more : List (Tower K V)) (x : Tower K V)
      → All (Compares compare x.key a_lt_b) less
      → All (Compares compare x.key a_gt_b) more
      → entries (less ++ (x ∷ more)) ≡ insert_entry compare x.key x.value (entries (less ++ more))
  insert_entry-Divided compare [] [] x before behind = refl
  insert_entry-Divided compare [] (t ∷ ts) x before (e, behind) = rw (e) refl
  insert_entry-Divided compare (t ∷ ts) more x (e, before) behind =
      rw (e) (ap (λ l. (t.key, t.value) ∷ l) (insert_entry-Divided compare ts more x before behind))

  pub NotIn-insert :
      (a : ℕ) (less rest : List (Tower K V)) (x : Tower K V)
      → a ≢ x.place
      → NotIn a (map place_of (less ++ rest))
      → NotIn a (map place_of (less ++ (x ∷ rest)))
  NotIn-insert a [] rest x ne h = (ne, h)
  NotIn-insert a (t ∷ ts) rest x ne (ne', h) = (ne', NotIn-insert a ts rest x ne h)

  pub IsDistinct-insert :
      (less rest : List (Tower K V)) (x : Tower K V)
      → NotIn x.place (map place_of (less ++ rest))
      → IsDistinct (map place_of (less ++ rest))
      → IsDistinct (map place_of (less ++ (x ∷ rest)))
  IsDistinct-insert [] rest x out d = (out, d)
  IsDistinct-insert (t ∷ ts) rest x (ne, out) (h, d) =
      (NotIn-insert t.place ts rest x (λ e. ne (sym e)) h, IsDistinct-insert ts rest x out d)

  module _ {compare : K → K → Comparison} (order : KeyOrder compare) where
    Follows-key :
        (k : K) (x : Tower K V) (less rest : List (Tower K V))
        → Follows compare k x
        → All (Follows compare k) (less ++ rest)
        → All (Follows compare k) (less ++ (x ∷ rest))
    Follows-key k x less rest f h =
        All-append _ less (x ∷ rest) (All-left _ less rest h) (f, All-right _ less rest h)

    Follows-more :
        (key : K) (rest : List (Tower K V))
        → All (Compares compare key a_gt_b) rest
        → All (Follows compare key) rest
    Follows-more key [] h = h
    Follows-more key (t ∷ ts) (e, h) =
        (inl (order.compare_flip t.key key ∙ ap flip e), Follows-more key ts h)

    pub IsSorted-insert :
        (x : Tower K V) (less rest : List (Tower K V))
        → All (Compares compare x.key a_lt_b) less
        → All (Compares compare x.key a_gt_b) rest
        → IsSorted compare (less ++ rest)
        → IsSorted compare (less ++ (x ∷ rest))
    IsSorted-insert x [] rest before behind s = (Follows-more x.key rest behind, s)
    IsSorted-insert x (t ∷ ts) rest (e, before) behind (f, s) =
        (Follows-key t.key x ts rest (inl e) f, IsSorted-insert x ts rest before behind s)
