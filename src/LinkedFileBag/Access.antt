-- ===== src/LinkedFileBag/Access.antt =====
-- One read and one write of the file of linked_file_bag.c.
use iondb.Base.{
  get_elem?-append_end, get_elem?-append_ne, get_elem?-length, ℕ, ◌<◌, ◌≡◌, ◌≢◌, refl, ◌∙◌, ap,
  Option, none, some, List, [], ◌∷◌, ◌++◌, length, get_elem?, set, arith, get_elem?-set_self,
  get_elem?-set_ne,
}
use iondb.Base.Run.{done}
use iondb.LinkedFileBag.{Bag, Slot, read_next, read_bytes, write_next, write_bytes, get}
use iondb.LinkedFileBag.Chain.{links, link}
use iondb.System.{err_ok}

module _ {ℓ} {A : Type ℓ} where
  -- No slot but the one at `x` changes.
  abbrev pub SameBut : ℕ → List (Slot A) → List (Slot A) → Type ℓ
  SameBut x slots slots' = (y : ℕ) → x ≢ y → get_elem? slots' y ≡ get_elem? slots y

  -- `s` is written at `x`.
  pub record Written (slots : List (Slot A)) (x : ℕ) (s : Slot A) (slots' : List (Slot A))
      : Type ℓ where
    pub here : get_elem? slots' x ≡ some s
    pub elsewhere : SameBut x slots slots'

  pub set-Written :
      (slots : List (Slot A)) (x : ℕ) (s : Slot A)
      → x < length slots
      → Written slots x s (set slots x s)
  set-Written slots x s h = record {
    here = get_elem?-set_self slots x s h;
    elsewhere = λ y ne. get_elem?-set_ne slots x y s ne;
  }

  pub append-Written :
      (slots : List (Slot A)) (s : Slot A) → Written slots (length slots) s (slots ++ s ∷ [])
  append-Written slots s = record {
    here = get_elem?-append_end slots s;
    elsewhere = get_elem?-append_ne slots s;
  }

  pub Written-twice :
      (slots slots' slots'' : List (Slot A)) (x : ℕ) (s t : Slot A)
      → Written slots x s slots'
      → Written slots' x t slots''
      → Written slots x t slots''
  Written-twice slots slots' slots'' x s t w w' = record {
    here = w'.here;
    elsewhere = λ y ne. w'.elsewhere y ne ∙ w.elsewhere y ne;
  }

  pub slot-of-link :
      (o : Option (Slot A)) {n : Option ℕ}
      → link o ≡ some n
      → (s : Slot A) × (o ≡ some s) × (s.next ≡ n)
  slot-of-link none e = ground arith
  slot-of-link (some s) e = (s, refl, ground arith)

  -- The links of the other slots stay.
  pub links-Written :
      (slots slots' : List (Slot A)) (x : ℕ) (s : Slot A)
      → Written slots x s slots'
      → (y : ℕ) → x ≢ y
      → links slots' y ≡ links slots y
  links-Written slots slots' x s w y ne = ap link (w.elsewhere y ne)

  module _ (bag : Bag A) (x : ℕ) where
    pub read_next-some :
        (n : Option ℕ) → links bag.slots x ≡ some n → read_next bag (some x) ≡ (err_ok, n)
    unfolding read_next
    read_next-some n e =
        let (s, at, same) = slot-of-link (get_elem? bag.slots x) e in rw (read_next, at, same) refl

    pub write_next-inside :
        (s : Slot A) (n : Option ℕ)
        → get_elem? bag.slots x ≡ some s
        → write_next bag (some x) n
          ≡ done (err_ok, record bag { slots = set bag.slots x (record s { next = n }) })
    unfolding write_next
    write_next-inside s n e = rw (write_next, e) refl

    pub write_bytes-inside :
        (s : Slot A) (a : A)
        → get_elem? bag.slots x ≡ some s
        → write_bytes bag (some x) a
          ≡ done (err_ok, record bag { slots = set bag.slots x (record s { bytes = some a }) })
    unfolding write_bytes
    write_bytes-inside s a e = rw (write_bytes, e) refl

    pub write_next-end :
        (n : Option ℕ)
        → x ≡ length bag.slots
        → write_next bag (some x) n
          ≡ done
              (err_ok, record bag { slots = bag.slots ++ record { next = n; bytes = none } ∷ [] })
    unfolding write_next
    write_next-end n e =
        let h : get_elem? bag.slots x ≡ none =
          ap (get_elem? bag.slots) e ∙ get_elem?-length bag.slots in
        ground arith

    -- What stands there is read back.
    pub get_lem :
        (n : Option ℕ) (a : A)
        → get_elem? bag.slots x ≡ some (record { next = n; bytes = some a })
        → get bag (some x) ≡ (err_ok, n, some a)
    unfolding get read_next read_bytes
    get_lem n a e =
        let next : read_next bag (some x) ≡ (err_ok, n) = rw (read_next, e) refl in
        let bytes : read_bytes bag (some x) ≡ (err_ok, some a) = rw (read_bytes, e) refl in
        rw (get, next, bytes, next) refl
