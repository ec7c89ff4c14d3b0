-- ===== src/LinkedFileBag/Tests.antt =====
-- The theorems on linked_file_bag.c at a small file, and runs of the code.
use iondb.Base.Run.{done, fault, Returns, ◌>>=◌}
use iondb.Base.{ℕ, ◌≡◌, refl, Option, none, some, [], ◌∷◌, arith}
use iondb.LinkedFileBag.{
  Bag, Slot, put, get, delete, delete_all, delete_all_from, update, update_all, update_all_from,
  update_next, put_at, read_next, write_next, write_bytes,
}
use iondb.LinkedFileBag.Chain.{IsValid}
use iondb.LinkedFileBag.Put.{Prepended, put-Prepended}
use iondb.LinkedFileBag.DeleteAll.{Freed, delete-Freed, delete_all-Freed}
use iondb.LinkedFileBag.UpdateAll.{Filled, update_all-Filled}
use iondb.LinkedFileBag.Relink.{update-put_overwrites}
use iondb.System.{err_ok, err_file_bad_seek, err_file_read_error}

abbrev slot : Option ℕ → ℕ → Slot ℕ
slot next n = record { next = next; bytes = some n }

-- A chain from 1 to 0, a free record, and a record by itself.
abbrev four : Bag ℕ
four = record {
  slots = slot none 10 ∷ slot (some 0) 11 ∷ slot none 12 ∷ slot none 13 ∷ [];
  next_empty = some 2;
}

abbrev four-IsValid : IsValid four (2 ∷ [])
four-IsValid = record { chain = (refl, (none, refl, refl)); distinct = (tt, tt) }

put-Prepended_example :
    Returns (put four 20 (some 1)) (Prepended four (2 ∷ []) (1 ∷ 0 ∷ []) 20 (some 1))
put-Prepended_example =
    put-Prepended four-IsValid 20 (some 1) (1 ∷ 0 ∷ [])
      (refl, (some 0, refl, (refl, (none, refl, refl)))) (((λ e. omega arith), tt), (tt, tt))
      (((λ e. omega arith), tt), (((λ e. omega arith), tt), tt))

delete-Freed_example :
    Returns (delete four (some 3)) (λ r. Freed four (2 ∷ []) (3 ∷ []) 0 (r.0, r.1, 1))
delete-Freed_example =
    delete-Freed four (2 ∷ []) four-IsValid 3 (omega arith) ((λ e. omega arith), tt)

delete_all-Freed_example : Returns (delete_all four (some 1) 5) (Freed four (2 ∷ []) (1 ∷ 0 ∷ []) 5)
delete_all-Freed_example =
    delete_all-Freed four (2 ∷ []) four-IsValid (some 1) (1 ∷ 0 ∷ []) 5
      (refl, (some 0, refl, (refl, (none, refl, refl)))) (((λ e. omega arith), tt), (tt, tt))
      (((λ e. omega arith), tt), (((λ e. omega arith), tt), tt))

update_all-Filled_example : Returns (update_all four (some 1) 30 0) (Filled four (1 ∷ 0 ∷ []) 30 0)
update_all-Filled_example =
    update_all-Filled four (some 1) (1 ∷ 0 ∷ []) 30 0
      (refl, (some 0, refl, (refl, (none, refl, refl)))) (((λ e. omega arith), tt), (tt, tt))

update-put_overwrites_example : Returns (update four (some 1) 21 (some (some 0))) (λ r.
    (r.0 ≡ err_ok)
    × Returns
        (put (r.1) 22 none)
        (λ q. (q.0 ≡ err_ok) × (q.2 ≡ some 1) × (get (q.1) (some 1) ≡ (err_ok, none, some 22))))
update-put_overwrites_example = update-put_overwrites four 1 21 22 (some 0) none (omega arith)

-- Two records are put into an empty file, read, and deleted as a chain; the next one takes the place
-- of the first.
round :
    (put (record { slots = []; next_empty = none }) 7 none >>= λ r.
    put (r.1) 8 (r.2) >>= λ s. delete_all (s.1) (s.2) 0 >>= λ t. put (t.1) 9 none)
    ≡ done (err_ok, record { slots = slot none 9 ∷ slot none 8 ∷ []; next_empty = some 1 }, some 0)
unfolding put put_at read_next write_next write_bytes delete_all delete_all_from delete update_next
round = refl

-- The end of a chain and a place behind the file are not read.
unread :
    (get four none ≡ (err_file_bad_seek, none, none))
    × (get four (some 9) ≡ (err_file_read_error, none, none))
unfolding get read_next
unread = (refl, refl)

-- A chain that runs into itself has no end.
abbrev loop : Bag ℕ
loop = record { slots = slot (some 1) 10 ∷ slot (some 0) 11 ∷ []; next_empty = none }

endless : update_all loop (some 0) 12 0 ≡ fault
unfolding update_all update_all_from update read_next write_bytes
endless = refl
