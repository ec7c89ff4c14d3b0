-- ===== src/LinkedFileBag/DeleteAll.antt =====
-- `lfb_delete` and `lfb_delete_all` of src/file/linked_file_bag.c.
use iondb.Base.{
  ℕ, zero, suc, ◌+◌, ◌≤◌, ◌<◌, ◌≡◌, refl, sym, ◌∙◌, ap, Option, some, List, [], ◌∷◌, length,
  get_elem?, set, arith, lt-of-get_elem?, length-set, get_elem?-some,
}
use mathlib.Core.Path.{ap₂, subst}
use iondb.Base.Run.{Run, done, ◌>>=◌, Returns}
use iondb.LinkedFileBag.{Bag, Slot, update_next, delete, delete_all_from, delete_all}
use iondb.LinkedFileBag.Access.{
  Written, set-Written, links-Written, read_next-some, slot-of-link, write_next-inside,
}
use iondb.Base.Distinct.{NotIn, IsDistinct, length-IsDistinct}
use iondb.LinkedFileBag.Chain.{
  links, link, IsChain, IsApart, IsValid, IsChain-elsewhere, IsApart-cons, IsBelow-chain,
}
use iondb.System.{ErrorCode, err_ok}

-- The records of a chain, put on the free ones one by one.
abbrev pub freed : List ℕ → List ℕ → List ℕ
freed [] free = free
freed (x ∷ xs) free = freed xs (x ∷ free)

module _ {ℓ} {A : Type ℓ} where
  abbrev pub freed_bag : Bag A → ℕ → Slot A → Bag A
  freed_bag bag x s = record {
    slots = set bag.slots x (record s { next = bag.next_empty });
    next_empty = some x;
  }

  pub delete_lem :
      (bag : Bag A) (x : ℕ) (s : Slot A)
      → get_elem? bag.slots x ≡ some s
      → delete bag (some x) ≡ done (err_ok, freed_bag bag x s)
  unfolding delete update_next
  delete_lem bag x s here =
      rw (delete, update_next, write_next-inside bag x s bag.next_empty here) refl

  freed_bag-Written :
      (bag : Bag A) (x : ℕ) (s : Slot A)
      → get_elem? bag.slots x ≡ some s
      → Written bag.slots x (record s { next = bag.next_empty }) (freed_bag bag x s).slots
  freed_bag-Written bag x s here =
      set-Written bag.slots x (record s { next = bag.next_empty })
        (lt-of-get_elem? bag.slots x here)

  freed_bag-IsChain :
      (bag : Bag A) (x : ℕ) (s : Slot A)
      → get_elem? bag.slots x ≡ some s
      → (o : Option ℕ) (xs : List ℕ) → NotIn x xs
      → IsChain (links bag.slots) o xs
      → IsChain (links (freed_bag bag x s).slots) o xs
  freed_bag-IsChain bag x s here =
      IsChain-elsewhere (links bag.slots) (links (freed_bag bag x s).slots) x
        (links-Written bag.slots (freed_bag bag x s).slots x _ (freed_bag-Written bag x s here))

  freed_bag-IsValid :
      (bag : Bag A) (x : ℕ) (s : Slot A)
      → get_elem? bag.slots x ≡ some s
      → (free : List ℕ) → NotIn x free
      → IsValid bag free
      → IsValid (freed_bag bag x s) (x ∷ free)
  freed_bag-IsValid bag x s here free notin valid = record {
    chain = (
      refl,
      (
        bag.next_empty,
        ap link (freed_bag-Written bag x s here).here,
        freed_bag-IsChain bag x s here bag.next_empty free notin valid.chain,
      ),
    );
    distinct = (notin, valid.distinct);
  }

  delete_all-step :
      (bag : Bag A) (fuel x count : ℕ) (s : Slot A)
      → get_elem? bag.slots x ≡ some s
      → delete_all_from bag (suc fuel) (some x) count
        ≡ delete_all_from (freed_bag bag x s) fuel s.next (count + 1)
  unfolding delete_all_from
  delete_all-step bag fuel x count s here =
      ap₂
        (λ (r : ErrorCode × Option ℕ) (w : Run (ErrorCode × Bag A)).
          let z : Run (ErrorCode × Bag A × ℕ) = elim (r.0) [
            | err_ok ↦ w >>= λ t. elim (t.0) [
              | err_ok ↦ delete_all_from (t.1) fuel (r.1) (count + 1)
              | e ↦ done (e, t.1, count)
            ]
            | e ↦ done (e, bag, count)
          ] in
          z)
        (read_next-some bag x s.next (ap link here)) (delete_lem bag x s here)

  -- What the loop does to a bag from the chain at `xs` on.
  pub record Freed (bag : Bag A) (free xs : List ℕ) (count : ℕ) (r : ErrorCode × Bag A × ℕ)
      : Type ℓ where
    pub status : r.0 ≡ err_ok
    pub valid : IsValid (r.1) (freed xs free)
    pub counted : r.2 ≡ count + length xs
    pub kept : (y : ℕ) → NotIn y xs → get_elem? (r.1).slots y ≡ get_elem? bag.slots y
    pub in_file : length (r.1).slots ≡ length bag.slots

  delete_all_from-Freed :
      (bag : Bag A) (fuel : ℕ) (free : List ℕ) (o : Option ℕ) (xs : List ℕ) (count : ℕ)
      → IsValid bag free
      → IsChain (links bag.slots) o xs
      → IsDistinct xs
      → IsApart xs free
      → length xs ≤ fuel
      → Returns (delete_all_from bag fuel o count) (Freed bag free xs count)
  unfolding delete_all_from
  delete_all_from-Freed bag fuel free o [] count valid h distinct apart enough = (
    (err_ok, bag, count),
    ap (λ k. delete_all_from bag fuel k count) h,
    record {
      status = refl;
      valid = valid;
      counted = omega arith;
      kept = λ y out. refl;
      in_file = refl;
    },
  )
  delete_all_from-Freed bag zero free o (x ∷ xs) count valid h distinct apart enough =
      absurd (omega arith)
  delete_all_from-Freed bag (suc fuel) free o (x ∷ xs) count valid (e, (n, at, rest))
        (notin, distinct) (out, apart) enough =
      let (s, here, same) = slot-of-link (get_elem? bag.slots x) at in
      let bag' = freed_bag bag x s in
      let chain =
        subst (λ k. IsChain (links bag'.slots) k xs) (sym same)
          (freed_bag-IsChain bag x s here n xs notin rest) in
      let (r, run, after) =
        delete_all_from-Freed bag' fuel (x ∷ free) s.next xs (count + 1)
          (freed_bag-IsValid bag x s here free out valid) chain distinct
          (IsApart-cons x xs free notin apart) (omega arith) in
      (
        r,
        ap (λ k. delete_all_from bag (suc fuel) k count) e
            ∙ delete_all-step bag fuel x count s here
            ∙ run,
        record {
          status = after.status;
          valid = after.valid;
          counted = let c = after.counted in omega arith;
          kept = λ y (ne, out').
              after.kept y out' ∙ (freed_bag-Written bag x s here).elsewhere y (λ q. ne (sym q));
          in_file = after.in_file ∙ length-set bag.slots x (record s { next = bag.next_empty });
        },
      )

module _ {ℓ} {A : Type ℓ} (bag : Bag A) (free : List ℕ) (valid : IsValid bag free) where
  -- On a valid bag, `delete` of a record that is not free ends with success; the record is then the
  -- first free one, and no other slot changes.
  pub delete-Freed :
      (x : ℕ)
      → x < length bag.slots
      → NotIn x free
      → Returns (delete bag (some x)) (λ r. Freed bag free (x ∷ []) 0 (r.0, r.1, 1))
  delete-Freed x h notin =
      let (s, here) = get_elem?-some bag.slots x h in
      (
        (err_ok, freed_bag bag x s),
        delete_lem bag x s here,
        record {
          status = refl;
          valid = freed_bag-IsValid bag x s here free notin valid;
          counted = refl;
          kept = λ y (ne, _). (freed_bag-Written bag x s here).elsewhere y (λ q. ne (sym q));
          in_file = length-set bag.slots x (record s { next = bag.next_empty });
        },
      )

  -- On a valid bag, `delete_all` from a chain of records that are not free ends with success: it counts
  -- the records of the chain, which are then free, the last one first; no other slot changes.
  pub delete_all-Freed :
      (o : Option ℕ) (xs : List ℕ) (count : ℕ)
      → IsChain (links bag.slots) o xs
      → IsDistinct xs
      → IsApart xs free
      → Returns (delete_all bag o count) (Freed bag free xs count)
  unfolding delete_all
  delete_all-Freed o xs count h distinct apart =
      delete_all_from-Freed bag (length bag.slots) free o xs count valid h distinct apart
        (length-IsDistinct (length bag.slots) xs distinct (IsBelow-chain bag.slots o xs h))
