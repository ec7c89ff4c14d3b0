-- ===== src/LinkedFileBag/Relink.antt =====
-- `lfb_update` of src/file/linked_file_bag.c, where it is given an offset for the next record.
use iondb.Base.{
  ℕ, ◌≡◌, refl, Option, some, length, get_elem?, set, arith, lt-of-get_elem?, get_elem?-set_self,
  length-set, get_elem?-some, ◌<◌,
}
use iondb.Base.Run.{done, Returns}
use iondb.LinkedFileBag.{Bag, Slot, update_next, update, put, get}
use iondb.LinkedFileBag.Access.{write_next-inside, write_bytes-inside}
use iondb.LinkedFileBag.Put.{reusing, put-first_free, first_free-get}
use iondb.System.{err_ok}

module _ {ℓ} {A : Type ℓ} (bag : Bag A) (x : ℕ) (s : Slot A) (here : get_elem? bag.slots x ≡ some s)
    (a : A) (next : Option ℕ) where
  abbrev relinked : Bag A
  relinked = record {
    slots =
        set (set bag.slots x (record s { next = next })) x (record { next = next; bytes = some a });
    next_empty = some x;
  }

  update_lem : update bag (some x) a (some next) ≡ done (err_ok, relinked)
  unfolding update update_next
  update_lem =
      let inside = write_next-inside bag x s next here in
      let first =
        get_elem?-set_self bag.slots x (record s { next = next })
          (lt-of-get_elem? bag.slots x here) in
      let bytes =
        write_bytes-inside
          (record { slots = set bag.slots x (record s { next = next }); next_empty = some x }) x
          (record s { next = next }) a first in
      rw (update, update_next, inside) bytes

  relinked_here : get_elem? relinked.slots x ≡ some (record { next = next; bytes = some a })
  relinked_here =
      get_elem?-set_self (set bag.slots x (record s { next = next })) x
        (record { next = next; bytes = some a })
        (omega (
          arith,
          lt-of-get_elem? bag.slots x here,
          length-set bag.slots x (record s { next = next }),
        ))

-- `update` of a record of the file, with an offset for the record after it, makes the record the first
-- free one: the record that is put next overwrites it, and reading it gives the bytes of that one.
pub update-put_overwrites {ℓ} :
    {A : Type ℓ} (bag : Bag A) (x : ℕ) (a b : A) (next next' : Option ℕ)
    → x < length bag.slots
    → Returns (update bag (some x) a (some next)) (λ r.
      (r.0 ≡ err_ok)
      × Returns
          (put (r.1) b next')
          (λ q. (q.0 ≡ err_ok) × (q.2 ≡ some x) × (get (q.1) (some x) ≡ (err_ok, next', some b))))
update-put_overwrites {A = A} bag x a b next next' h =
    let (s, here) = get_elem?-some bag.slots x h in
    let bag' = relinked bag x s here a next in
    let t : Slot A = record { next = next; bytes = some a } in
    let here' = relinked_here bag x s here a next in
    (
      (err_ok, bag'),
      update_lem bag x s here a next,
      (
        refl,
        (
          (err_ok, reusing bag' b next' x t, some x),
          put-first_free bag' b next' x t refl here',
          (refl, refl, first_free-get bag' b next' x t here'),
        ),
      ),
    )
