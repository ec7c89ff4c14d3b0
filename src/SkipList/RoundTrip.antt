-- ===== src/SkipList/RoundTrip.antt =====
-- `sl_get` of skip_list.c after `sl_insert`.
use iondb.Base.{
  ℕ, ◌≡◌, ◌≢◌, refl, sym, ◌∙◌, ap, Option, none, some, List, [], ◌∷◌, true, false, if◌then◌else◌,
  arith, Bool-cases, Bool, inl, inr,
}
use mathlib.Core.Path.{subst}
use iondb.Base.Run.{Run, done, Returns, done-injective}
use iondb.Key.{KeyOrder, equal_symm, equal_trans}
use iondb.SkipList.{SkipList, insert, get}
use iondb.SkipList.Get.{entries, lookup, answer, get-lookup}
use iondb.SkipList.InsertAbsent.{insert-Added}
use iondb.SkipList.Levels.{Tower}
use iondb.SkipList.Placed.{insert_entry}
use iondb.SkipList.Valid.{IsValid}
use iondb.System.{Comparison, a_lt_b, a_equ_b, a_gt_b, is_equal, Status}

module _ {ℓ} {K V : Type ℓ} {compare : K → K → Comparison} (order : KeyOrder compare) (key : K)
    (value : V) (k : K) where
  insert_entry-gt :
      (r : K × V) (rs : List (K × V))
      → compare (r.0) key ≡ a_gt_b
      → insert_entry compare key value (r ∷ rs) ≡ (key, value) ∷ r ∷ rs
  insert_entry-gt r rs e = rw (insert_entry, e) refl

  insert_entry-lt :
      (r : K × V) (rs : List (K × V))
      → compare (r.0) key ≡ a_lt_b
      → insert_entry compare key value (r ∷ rs) ≡ r ∷ insert_entry compare key value rs
  insert_entry-lt r rs e = rw (insert_entry, e) refl

  -- Two records whose keys differ may be looked up in either order.
  lookup-swap :
      (r : K × V) (o : Option V)
      → compare (r.0) key ≡ a_lt_b
      → (if is_equal (compare (r.0) k)
          then some (r.1)
          else (if is_equal (compare key k) then some value else o))
        ≡ (if is_equal (compare key k)
            then some value
            else (if is_equal (compare (r.0) k) then some (r.1) else o))
  lookup-swap r o e = elim (Bool-cases (is_equal (compare (r.0) k))) [
    | inr f ↦ rw (f) refl
    | inl t ↦ elim (Bool-cases (is_equal (compare key k))) [
      | inr f ↦ rw (f, t) refl
      | inl t' ↦
          let q = equal_trans order (r.0) k key t (equal_symm order key k t') in
          let q' = ap is_equal e in absurd (cc)
    ]
  ]

  lookup-first :
      (r : K × V) (rs : List (K × V)) (c : Comparison)
      → compare (r.0) key ≡ c
      → lookup compare key (r ∷ rs) ≡ none
      → (lookup compare key rs ≡ none
          → lookup compare k (insert_entry compare key value rs)
            ≡ (if is_equal (compare key k) then some value else lookup compare k rs))
      → lookup compare k (insert_entry compare key value (r ∷ rs))
        ≡ (if is_equal (compare key k) then some value else lookup compare k (r ∷ rs))
  lookup-first r rs a_gt_b e absent i = ap (lookup compare k) (insert_entry-gt r rs e)
  lookup-first r rs a_equ_b e absent i =
      let present : lookup compare key (r ∷ rs) ≡ some (r.1) = ground arith in absurd (cc)
  lookup-first r rs a_lt_b e absent i =
      let rest : lookup compare key (r ∷ rs) ≡ lookup compare key rs = ground arith in
      ap (lookup compare k) (insert_entry-lt r rs e)
      ∙ ap (λ o. if is_equal (compare (r.0) k) then some (r.1) else o) (i (sym rest ∙ absent))
      ∙ lookup-swap r (lookup compare k rs) e

  -- A new record is found under its key, and the others as before.
  lookup-insert_entry :
      (rs : List (K × V))
      → lookup compare key rs ≡ none
      → lookup compare k (insert_entry compare key value rs)
        ≡ (if is_equal (compare key k) then some value else lookup compare k rs)
  lookup-insert_entry [] absent = refl
  lookup-insert_entry (r ∷ rs) absent =
      lookup-first r rs (compare (r.0) key) refl absent (lookup-insert_entry rs)

answer-value {ℓ} : {V : Type ℓ} (o : Option V) → (answer o).1 ≡ o
answer-value none = refl
answer-value (some v) = refl

done-if {ℓ} :
    {V : Type ℓ} (b : Bool) (x y : Option V)
    → done (answer (if b then x else y)) ≡ (if b then done (answer x) else done (answer y))
done-if true x y = refl
done-if false x y = refl

-- On a valid skip list whose `pden` is not 0 and that has no record with the key, a `get` after an
-- `insert` of the key gives the new value for keys that equal it, and for other keys what `get` gave before.
pub insert-get {ℓ} :
    {K V : Type ℓ} (m : SkipList K V) (rand_max : ℕ) (rand : ℕ → ℕ) {ts : List (Tower K V)}
    → KeyOrder m.compare
    → IsValid m ts
    → m.pden ≢ 0
    → (key : K) (value : V) → get m key ≡ done (answer none)
    → Returns (insert m rand_max rand key value) (λ r.
      (k : K)
      → get (r.1) k ≡ (if is_equal (m.compare key k) then done (answer (some value)) else get m k))
insert-get {V = V} m rand_max rand {ts = ts} order valid ne key value absent =
    let same_answer = done-injective (sym (get-lookup order valid key) ∙ absent) in
    let missing =
      sym (answer-value (lookup m.compare key (entries ts))) ∙ ap (λ r. r.1) same_answer in
    let (r, run, a) = insert-Added m rand_max rand order valid ne key value missing in
    let order' = subst KeyOrder (sym a.compare) order in
    (
      r,
      run,
      λ k.
          get-lookup order' a.valid k
          ∙ ap (λ c. done (answer (lookup c k (entries a.towers)))) a.compare
          ∙ ap (λ l. done (answer (lookup m.compare k l))) a.records
          ∙ ap (λ o. done (answer o)) (lookup-insert_entry order key value k (entries ts) missing)
          ∙ done-if (is_equal (m.compare key k)) (some value) (lookup m.compare k (entries ts))
          ∙ ap
              (λ g.
                let z : Run (Status × Option V) =
                  if is_equal (m.compare key k) then done (answer (some value)) else g in
                z)
              (sym (get-lookup order valid k)),
    )
