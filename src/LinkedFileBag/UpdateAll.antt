-- ===== src/LinkedFileBag/UpdateAll.antt =====
-- `lfb_update_all` of src/file/linked_file_bag.c.
use iondb.Base.{
  ℕ, zero, suc, ◌+◌, ◌≤◌, ◌≡◌, refl, sym, ◌∙◌, ap, Option, some, List, [], ◌∷◌, length, get_elem?,
  set, arith, lt-of-get_elem?, ℕ_discrete,
}
use mathlib.Core.Path.{ap₂, subst}
use mathlib.Core.Logic.{Lift}
use iondb.Base.Run.{Run, done, ◌>>=◌, Returns}
use iondb.LinkedFileBag.{Bag, Slot, update, update_all_from, update_all}
use iondb.LinkedFileBag.Access.{
  Written, set-Written, read_next-some, slot-of-link, write_bytes-inside,
}
use iondb.Base.Distinct.{NotIn, IsDistinct, length-IsDistinct}
use iondb.LinkedFileBag.Chain.{links, link, IsChain, IsChain-same, IsBelow-chain}
use iondb.System.{ErrorCode, err_ok}

module _ {ℓ} {A : Type ℓ} where
  -- The records at those offsets hold the bytes.
  abbrev pub AllHold : List (Slot A) → A → List ℕ → Type ℓ
  AllHold slots a [] = Lift {0, ℓ} Unit
  AllHold slots a (x ∷ xs) =
      ((n : Option ℕ) × (get_elem? slots x ≡ some (record { next = n; bytes = some a })))
      × AllHold slots a xs

  abbrev filled : Bag A → ℕ → Slot A → A → Bag A
  filled bag x s a = record bag { slots = set bag.slots x (record s { bytes = some a }) }

  module _ (bag : Bag A) (x : ℕ) (s : Slot A) (here : get_elem? bag.slots x ≡ some s) (a : A) where
    filled-Written : Written bag.slots x (record s { bytes = some a }) (filled bag x s a).slots
    filled-Written =
        set-Written bag.slots x (record s { bytes = some a }) (lt-of-get_elem? bag.slots x here)

    links-filled : (y : ℕ) → links (filled bag x s a).slots y ≡ links bag.slots y
    links-filled y = elim (ℕ_discrete x y) [
      | yes e ↦
          subst (λ k. links (filled bag x s a).slots k ≡ links bag.slots k) e
            (ap link filled-Written.here ∙ sym (ap link here))
      | no ne ↦ ap link (filled-Written.elsewhere y ne)
    ]

    update_all-step :
        (fuel count : ℕ)
        → update_all_from bag (suc fuel) (some x) a count
          ≡ update_all_from (filled bag x s a) fuel s.next a (count + 1)
    unfolding update_all_from update
    update_all-step fuel count =
        ap₂
          (λ (r : ErrorCode × Option ℕ) (w : Run (ErrorCode × Bag A)).
            let z : Run (ErrorCode × Bag A × ℕ) = elim (r.0) [
              | err_ok ↦ w >>= λ t. elim (t.0) [
                | err_ok ↦ update_all_from (t.1) fuel (r.1) a (count + 1)
                | e ↦ done (e, t.1, count)
              ]
              | e ↦ done (e, bag, count)
            ] in
            z)
          (read_next-some bag x s.next (ap link here)) (write_bytes-inside bag x s a here)

  -- What the loop does to a bag from the chain at `xs` on.
  pub record Filled (bag : Bag A) (xs : List ℕ) (a : A) (count : ℕ) (r : ErrorCode × Bag A × ℕ)
      : Type ℓ where
    pub status : r.0 ≡ err_ok
    pub counted : r.2 ≡ count + length xs
    pub hold : AllHold (r.1).slots a xs
    pub same_links : (y : ℕ) → links (r.1).slots y ≡ links bag.slots y
    pub kept : (y : ℕ) → NotIn y xs → get_elem? (r.1).slots y ≡ get_elem? bag.slots y
    pub next_empty : (r.1).next_empty ≡ bag.next_empty

  update_all_from-Filled :
      (bag : Bag A) (fuel : ℕ) (o : Option ℕ) (xs : List ℕ) (a : A) (count : ℕ)
      → IsChain (links bag.slots) o xs
      → IsDistinct xs
      → length xs ≤ fuel
      → Returns (update_all_from bag fuel o a count) (Filled bag xs a count)
  unfolding update_all_from
  update_all_from-Filled bag fuel o [] a count h distinct enough = (
    (err_ok, bag, count),
    ap (λ k. update_all_from bag fuel k a count) h,
    record {
      status = refl;
      counted = omega arith;
      hold = record { lower = tt };
      same_links = λ y. refl;
      kept = λ y out. refl;
      next_empty = refl;
    },
  )
  update_all_from-Filled bag zero o (x ∷ xs) a count h distinct enough = absurd (omega arith)
  update_all_from-Filled bag (suc fuel) o (x ∷ xs) a count (e, (n, at, rest)) (notin, distinct)
        enough =
      let (s, here, same) = slot-of-link (get_elem? bag.slots x) at in
      let bag' = filled bag x s a in
      let w = filled-Written bag x s here a in
      let chain =
        subst (λ k. IsChain (links bag'.slots) k xs) (sym same)
          (IsChain-same (links bag.slots) (links bag'.slots) (links-filled bag x s here a) n xs
            rest) in
      let (r, run, after) =
        update_all_from-Filled bag' fuel s.next xs a (count + 1) chain distinct (omega arith) in
      (
        r,
        ap (λ k. update_all_from bag (suc fuel) k a count) e
            ∙ update_all-step bag x s here a fuel count
            ∙ run,
        record {
          status = after.status;
          counted = let c = after.counted in omega arith;
          hold = ((s.next, after.kept x notin ∙ w.here), after.hold);
          same_links = λ y. after.same_links y ∙ links-filled bag x s here a y;
          kept = λ y (ne, out). after.kept y out ∙ w.elsewhere y (λ q. ne (sym q));
          next_empty = after.next_empty;
        },
      )

  -- From a chain of different records of a bag, `update_all` ends with success: it counts the records of
  -- the chain, each of which then holds the new bytes; no link, no other record and not the free list
  -- changes.
  pub update_all-Filled :
      (bag : Bag A) (o : Option ℕ) (xs : List ℕ) (a : A) (count : ℕ)
      → IsChain (links bag.slots) o xs
      → IsDistinct xs
      → Returns (update_all bag o a count) (Filled bag xs a count)
  unfolding update_all
  update_all-Filled bag o xs a count h distinct =
      update_all_from-Filled bag (length bag.slots) o xs a count h distinct
        (length-IsDistinct (length bag.slots) xs distinct (IsBelow-chain bag.slots o xs h))
