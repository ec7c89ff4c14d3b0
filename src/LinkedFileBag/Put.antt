-- ===== src/LinkedFileBag/Put.antt =====
-- `lfb_put` of src/file/linked_file_bag.c.
use iondb.Base.{
  get_elem?-length, ℕ, ◌≡◌, ◌≢◌, refl, sym, ◌∙◌, ap, Option, none, some, List, [], ◌∷◌, ◌++◌,
  length, get_elem?, set, lt-of-get_elem?,
}
use mathlib.Core.Path.{ap₂, subst}
use iondb.Base.Run.{Run, done, Returns}
use iondb.LinkedFileBag.{Bag, Slot, read_next, read_bytes, write_next, put_at, put, get}
use iondb.LinkedFileBag.Access.{
  Written, set-Written, append-Written, Written-twice, links-Written, slot-of-link, read_next-some,
  write_next-inside, write_next-end, write_bytes-inside, get_lem,
}
use iondb.Base.Distinct.{NotIn, IsDistinct}
use iondb.LinkedFileBag.Chain.{
  links, link, IsChain, IsApart, IsValid, IsChain-elsewhere, NotIn-chain, IsApart-head,
  IsApart-tail,
}
use iondb.System.{ErrorCode, err_ok}

-- Where the next record goes: to the first free one, or to the end of the file.
abbrev pub place : ℕ → List ℕ → ℕ
place end [] = end
place end (x ∷ xs) = x

abbrev pub others : List ℕ → List ℕ
others [] = []
others (x ∷ xs) = xs

-- What `put` does to a bag.
pub record Stored {ℓ} {A : Type ℓ} (bag : Bag A) (free : List ℕ) (to_write : A) (next : Option ℕ)
    (r : ErrorCode × Bag A × Option ℕ) : Type ℓ where
  pub status : r.0 ≡ err_ok
  pub wrote_at : r.2 ≡ some (place (length bag.slots) free)
  pub written :
      Written bag.slots
        (place (length bag.slots) free)
        (record { next = next; bytes = some to_write })
        (r.1).slots
  pub valid : IsValid (r.1) (others free)

module _ {ℓ} {A : Type ℓ} (bag : Bag A) (to_write : A) (next : Option ℕ) where
  abbrev new_slot : Slot A
  new_slot = record { next = next; bytes = some to_write }

  -- The two writes, the first of which leads to `slots`.
  put_at_lem :
      (x : ℕ) (slots : List (Slot A)) (old : Option A) (next_empty : Option ℕ)
      → write_next bag (some x) next ≡ done (err_ok, record bag { slots = slots })
      → Written bag.slots x (record { next = next; bytes = old }) slots
      → put_at bag to_write next x next_empty
        ≡ done (err_ok, record { slots = set slots x new_slot; next_empty = next_empty }, some x)
  unfolding put_at
  put_at_lem x slots old next_empty run w =
      let bytes =
        write_bytes-inside (record bag { slots = slots }) x (record { next = next; bytes = old })
          to_write w.here in
      rw (put_at, run, bytes) refl

  put_at-written :
      (x : ℕ) (slots : List (Slot A)) (old : Option A)
      → Written bag.slots x (record { next = next; bytes = old }) slots
      → Written bag.slots x new_slot (set slots x new_slot)
  put_at-written x slots old w =
      Written-twice bag.slots slots (set slots x new_slot) x (record { next = next; bytes = old })
        new_slot w (set-Written slots x new_slot (lt-of-get_elem? slots x w.here))

  put-end : IsValid bag [] → Returns (put bag to_write next) (Stored bag [] to_write next)
  unfolding put
  put-end valid = (
    (
      err_ok,
      record {
        slots =
            set (bag.slots ++ record { next = next; bytes = none } ∷ []) (length bag.slots)
              new_slot;
        next_empty = none;
      },
      some (length bag.slots),
    ),
    let w = append-Written bag.slots (record { next = next; bytes = none }) in
        let run =
          put_at_lem (length bag.slots) (bag.slots ++ record { next = next; bytes = none } ∷ [])
            none none (write_next-end bag (length bag.slots) next refl) w in
        let empty : bag.next_empty ≡ none = valid.chain in rw (put, empty) run,
    record {
      status = refl;
      wrote_at = refl;
      written =
          put_at-written (length bag.slots) (bag.slots ++ record { next = next; bytes = none } ∷ [])
            none (append-Written bag.slots (record { next = next; bytes = none }));
      valid = record { chain = refl; distinct = tt };
    },
  )

  abbrev pub reusing : ℕ → Slot A → Bag A
  reusing x s = record {
    slots = set (set bag.slots x (record s { next = next })) x new_slot;
    next_empty = s.next;
  }

  reusing-Written :
      (x : ℕ) (s : Slot A)
      → get_elem? bag.slots x ≡ some s
      → Written bag.slots x new_slot (reusing x s).slots
  reusing-Written x s here =
      put_at-written x (set bag.slots x (record s { next = next })) s.bytes
        (set-Written bag.slots x (record s { next = next }) (lt-of-get_elem? bag.slots x here))

  -- The first free record is the place, whether the bag is valid or not.
  pub put-first_free :
      (x : ℕ) (s : Slot A)
      → bag.next_empty ≡ some x
      → get_elem? bag.slots x ≡ some s
      → put bag to_write next ≡ done (err_ok, reusing x s, some x)
  unfolding put
  put-first_free x s e here =
      let slots = set bag.slots x (record s { next = next }) in
      let w =
        set-Written bag.slots x (record s { next = next }) (lt-of-get_elem? bag.slots x here) in
      rw (put, e)
        (ap
            (λ (r : ErrorCode × Option ℕ).
              let z : Run (ErrorCode × Bag A × Option ℕ) = elim (r.0) [
                | err_ok ↦ put_at bag to_write next x (r.1)
                | e' ↦ done (e', bag, none)
              ] in
              z)
            (read_next-some bag x s.next (ap link here))
          ∙ put_at_lem x slots s.bytes s.next (write_next-inside bag x s next here) w)

  put-reuse :
      (x : ℕ) (free : List ℕ)
      → IsValid bag (x ∷ free)
      → Returns (put bag to_write next) (Stored bag (x ∷ free) to_write next)
  put-reuse x free valid =
      let (e, (n, at, rest)) = valid.chain in
      let (s, here, same) = slot-of-link (get_elem? bag.slots x) at in
      let (notin, distinct) = valid.distinct in
      let written = reusing-Written x s here in
      (
        (err_ok, reusing x s, some x),
        put-first_free x s e here,
        record {
          status = refl;
          wrote_at = refl;
          written = written;
          valid = record {
            chain =
                IsChain-elsewhere (links bag.slots) (links (reusing x s).slots) x
                  (links-Written bag.slots (reusing x s).slots x new_slot written) s.next free notin
                  (subst (λ k. IsChain (links bag.slots) k free) (sym same) rest);
            distinct = distinct;
          };
        },
      )

  -- On a valid bag, `put` ends with success and keeps the bag valid. The record stands in the first
  -- free slot, which is free no more, or behind the last slot where none is free; `*wrote_at` is its
  -- offset, and no other slot changes.
  pub put-Stored :
      (free : List ℕ)
      → IsValid bag free
      → Returns (put bag to_write next) (Stored bag free to_write next)
  put-Stored [] valid = put-end valid
  put-Stored (x ∷ free) valid = put-reuse x free valid

-- What a client sees that puts a record before a chain.
pub record Prepended {ℓ} {A : Type ℓ} (bag : Bag A) (free : List ℕ) (xs : List ℕ) (to_write : A)
    (next : Option ℕ) (r : ErrorCode × Bag A × Option ℕ) : Type ℓ where
  pub at : ℕ
  pub status : r.0 ≡ err_ok
  pub wrote_at : r.2 ≡ some at
  pub valid : IsValid (r.1) (others free)
  pub chain : IsChain (links (r.1).slots) (r.2) (at ∷ xs)
  pub distinct : IsDistinct (at ∷ xs)
  pub apart : IsApart (at ∷ xs) (others free)
  pub first : get (r.1) (r.2) ≡ (err_ok, next, some to_write)
  pub kept : (y : ℕ) → NotIn y (at ∷ []) → get (r.1) (some y) ≡ get bag (some y)

-- The place of the next record is in no chain of records in use.
place-NotIn {ℓ} :
    {A : Type ℓ} (slots : List (Slot A)) (free : List ℕ) (o : Option ℕ) (xs : List ℕ)
    → IsChain (links slots) o xs
    → IsApart xs free
    → NotIn (place (length slots) free) xs
place-NotIn slots [] o xs h apart =
    NotIn-chain (links slots) (length slots) (ap link (get_elem?-length slots)) o xs h
place-NotIn slots (x ∷ free) o xs h apart = IsApart-head x xs free apart

place-others :
    (end : ℕ) (free xs : List ℕ)
    → IsDistinct free
    → IsApart xs free
    → NotIn (place end free) (others free) × IsApart xs (others free)
place-others end [] xs distinct apart = (tt, apart)
place-others end (x ∷ free) xs (notin, distinct) apart = (notin, IsApart-tail x xs free apart)

module _ {ℓ} {A : Type ℓ} {bag : Bag A} {free : List ℕ} (valid : IsValid bag free) where
  get-elsewhere :
      (bag' : Bag A) (x : ℕ) (s : Slot A)
      → Written bag.slots x s bag'.slots
      → (y : ℕ) → x ≢ y
      → get bag' (some y) ≡ get bag (some y)
  unfolding get
  get-elsewhere bag' x s w y ne =
      let e = w.elsewhere y ne in
      let next : read_next bag' (some y) ≡ read_next bag (some y) = rw (read_next, e) refl in
      let bytes : read_bytes bag' (some y) ≡ read_bytes bag (some y) = rw (read_bytes, e) refl in
      ap₂
        (λ (r : ErrorCode × Option ℕ) (w : ErrorCode × Option A).
          let z : ErrorCode × Option ℕ × Option A = elim (r.0) [
            | err_ok ↦ (w.0, r.1, w.1)
            | e' ↦ (e', r.1, none)
          ] in
          z)
        next bytes

  -- On a valid bag, `put` of a record before a chain of different records that are not free ends with
  -- success. The bag stays valid with one free record less, if it had one. The new record and the chain
  -- behind it are a chain of different records that are not free; `get` at `*wrote_at` gives the
  -- bytes and the offset that were put, and at other offsets what it gave before.
  pub put-Prepended :
      (to_write : A) (next : Option ℕ) (xs : List ℕ)
      → IsChain (links bag.slots) next xs
      → IsDistinct xs
      → IsApart xs free
      → Returns (put bag to_write next) (Prepended bag free xs to_write next)
  put-Prepended to_write next xs h distinct apart =
      let (r, run, s) = put-Stored bag to_write next free valid in
      let x = place (length bag.slots) free in
      let notin = place-NotIn bag.slots free next xs h apart in
      let chain =
        IsChain-elsewhere (links bag.slots) (links (r.1).slots) x
          (links-Written bag.slots (r.1).slots x _ s.written) next xs notin h in
      (
        r,
        run,
        record {
          at = x;
          status = s.status;
          wrote_at = s.wrote_at;
          valid = s.valid;
          chain = (s.wrote_at, (next, ap link s.written.here, chain));
          distinct = (notin, distinct);
          apart = place-others (length bag.slots) free xs valid.distinct apart;
          first = ap (get (r.1)) s.wrote_at ∙ get_lem (r.1) x next to_write s.written.here;
          kept = λ y (ne, _). get-elsewhere (r.1) x _ s.written y (λ e. ne (sym e));
        },
      )

-- The record that the code takes for the first free one is overwritten.
pub first_free-get {ℓ} :
    {A : Type ℓ} (bag : Bag A) (to_write : A) (next : Option ℕ) (x : ℕ) (s : Slot A)
    → get_elem? bag.slots x ≡ some s
    → get (reusing bag to_write next x s) (some x) ≡ (err_ok, next, some to_write)
first_free-get bag to_write next x s here =
    get_lem (reusing bag to_write next x s) x next to_write
      (reusing-Written bag to_write next x s here).here
