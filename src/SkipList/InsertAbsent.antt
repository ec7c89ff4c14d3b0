-- ===== src/SkipList/InsertAbsent.antt =====
-- `sl_insert` of skip_list.c as a whole, for a key that the list does not hold.
use iondb.Base.{
  ℕ, ◌-◌, ◌*◌, ◌/◌, ◌≤◌, ◌<◌, ◌≡◌, ◌≢◌, refl, sym, ◌∙◌, ap, none, List, [], ◌∷◌, ◌++◌, arith, true,
  false, ◌==◌, Bool,
}
use mathlib.Core.Path.{subst}
use iondb.Base.Run.{Run, done, ◌>>=◌, Returns}
use iondb.Key.{KeyOrder}
use iondb.SkipList.{
  SkipList, Node, load, gen_from, gen_level, insert_new, insert_duplicate, insert, find_node,
  has_key,
}
use iondb.SkipList.Find.{Compares, IsBlock}
use iondb.SkipList.Get.{entries, lookup, find_node-target, absent_node, lookup-present}
use iondb.SkipList.Insert.{Added, insert_new-Added, gen_from-le}
use iondb.SkipList.Levels.{Tower, All, All-left}
use iondb.SkipList.Valid.{IsValid, Divided, divide}
use iondb.System.{a_lt_b, a_gt_b, Status}

module _ {ℓ} {K V : Type ℓ} (m : SkipList K V) (rand_max : ℕ) (rand : ℕ → ℕ) where
  -- A natural number cannot be below 0: with a `maxheight` of 0 the height is 0.
  gen_level-le : m.pden ≢ 0 → Returns (gen_level m rand_max rand) (λ h. h ≤ m.maxheight - 1)
  unfolding gen_level
  gen_level-le ne =
      let t : (m.pden == 0) ≡ false = ground arith in
      let limit = m.pnum * (rand_max / m.pden) in
      let i = gen_from-le rand limit (m.maxheight - 1) 1 in
      (gen_from rand limit (m.maxheight - 1) 1 - 1, rw (t) refl, omega arith)

  -- Where the denominator is not 0 and `maxheight` is at least 1, `gen_level` ends with a level below
  -- `maxheight`, whatever `rand` returns.
  pub gen_level-Returns :
      m.pden ≢ 0 → 0 < m.maxheight → Returns (gen_level m rand_max rand) (λ h. h < m.maxheight)
  gen_level-Returns ne positive = let (h, run, le) = gen_level-le ne in (h, run, omega arith)

  branch : K → V → ℕ → Bool → Run (Status × SkipList K V)
  branch key value duplicate b = elim b [
    | true ↦ insert_duplicate m key value duplicate
    | false ↦ gen_level m rand_max rand >>= λ height. insert_new m key value height
  ]

  insert-step :
      (key : K) (value : V) (c : ℕ) (n : Node K V) (b : Bool)
      → find_node m key ≡ done c
      → load m c ≡ done n
      → has_key m n key ≡ b
      → insert m rand_max rand key value ≡ branch key value c b
  unfolding insert branch
  insert-step key value c n b run at e =
      ap
        (λ r. r >>= λ duplicate.
          load m duplicate >>= λ n'. branch key value duplicate (has_key m n' key))
        run
      ∙ ap (λ r. r >>= λ n'. branch key value c (has_key m n' key)) at
      ∙ ap (branch key value c) e

  insert-Divided :
      KeyOrder m.compare
      → (key : K) (value : V) (less same more : List (Tower K V)) → m.pden ≢ 0
      → IsValid m (less ++ (same ++ more))
      → All (Compares m.compare key a_lt_b) less
      → IsBlock m.compare key same
      → All (Compares m.compare key a_gt_b) more
      → lookup m.compare key (entries (less ++ (same ++ more))) ≡ none
      → Returns (insert m rand_max rand key value) (Added m (less ++ (same ++ more)) key value)
  unfolding branch
  insert-Divided order key value less [] more ne valid before block behind absent =
      let d : Divided m.compare key (less ++ more) = record {
        less = less;
        same = [];
        more = more;
        whole = refl;
        before = before;
        block = block;
        behind = behind;
      } in
      let (c, n, run, at, b) =
        absent_node order valid key less (All-left _ less more valid.stored) before
          (find_node-target order valid key d) in
      let (height, level, low) = gen_level-le ne in
      let (r, run', inserted) =
        insert_new-Added order less more valid key value height low before behind in
      (
        r,
        insert-step key value c n false run at b
            ∙ ap (λ g. g >>= λ h. insert_new m key value h) level
            ∙ run',
        inserted,
      )
  insert-Divided order key value less (t ∷ ds) more ne valid before (e, flat) behind absent =
      let present = lookup-present order valid key less ds more t before e in absurd (cc)

  -- On a valid skip list whose `pden` is not 0 and that has no record with the key, `insert` ends with
  -- success, whatever `rand` returns: it keeps the list valid, and puts the record between those with smaller and those with
  -- larger keys.
  pub insert-Added :
      {ts : List (Tower K V)}
      → KeyOrder m.compare
      → IsValid m ts
      → m.pden ≢ 0
      → (key : K) (value : V) → lookup m.compare key (entries ts) ≡ none
      → Returns (insert m rand_max rand key value) (Added m ts key value)
  insert-Added {ts = ts} order valid ne key value absent =
      let d = divide order key ts valid.sorted in
      subst (λ l. Returns (insert m rand_max rand key value) (Added m l key value)) (sym d.whole)
        (insert-Divided order key value d.less d.same d.more ne (subst (IsValid m) d.whole valid)
          d.before d.block d.behind
          (subst (λ l. lookup m.compare key (entries l) ≡ none) d.whole absent))
