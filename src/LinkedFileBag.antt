-- ===== src/LinkedFileBag.antt =====
-- src/file/linked_file_bag.c over the reads and writes of src/file/ion_file.c: records of one size in
-- a file, each behind the offset of the next one. The file is the list of its slots, and an offset
-- counts slots; `none` is `ION_LFB_NULL`. A slot whose offset is written before its bytes has none.
-- As on a computer with `stdio`, a seek to `ION_LFB_NULL` fails, a read fails where there is nothing to
-- read, and a write succeeds. `fault` is a write that leaves a hole, or a loop whose fuel runs out:
-- one step for each slot.
pub mod Access
pub mod Chain
pub mod Put
pub mod DeleteAll
pub mod UpdateAll
pub mod Relink
pub mod Tests
use iondb.Base.{
  ℕ, zero, suc, ◌+◌, Option, none, some, List, [], ◌∷◌, ◌++◌, length, get_elem?, set, ltb, ◌==◌,
  if◌then◌else◌,
}
use iondb.Base.Run.{Run, done, fault, ◌>>=◌}
use iondb.System.{ErrorCode, err_ok, err_file_bad_seek, err_file_read_error}

pub record Slot {ℓ} (A : Type ℓ) : Type ℓ where
  pub next : Option ℕ
  pub bytes : Option A

-- `ion_lfb_t`
pub record Bag {ℓ} (A : Type ℓ) : Type ℓ where
  pub slots : List (Slot A)
  pub next_empty : Option ℕ

module _ {ℓ} {A : Type ℓ} where
  -- `ion_fread_at` of the next offset
  unfoldable pub read_next : Bag A → Option ℕ → ErrorCode × Option ℕ
  read_next bag none = (err_file_bad_seek, none)
  read_next bag (some offset) = elim (get_elem? bag.slots offset) [
    | none ↦ (err_file_read_error, none)
    | some s ↦ (err_ok, s.next)
  ]

  -- `ion_fread_at` of the bytes behind it
  unfoldable pub read_bytes : Bag A → Option ℕ → ErrorCode × Option A
  read_bytes bag none = (err_file_read_error, none)
  read_bytes bag (some offset) = elim (get_elem? bag.slots offset) [
    | none ↦ (err_file_read_error, none)
    | some s ↦ elim s.bytes [ none ↦ (err_file_read_error, none) | some a ↦ (err_ok, some a) ]
  ]

  -- `ion_fwrite_at` of the next offset, inside the file or at its end
  unfoldable pub write_next : Bag A → Option ℕ → Option ℕ → Run (ErrorCode × Bag A)
  write_next bag none next = done (err_file_bad_seek, bag)
  write_next bag (some offset) next = elim (get_elem? bag.slots offset) [
    | some s ↦ done (err_ok, record bag { slots = set bag.slots offset (record s { next = next }) })
    | none ↦
        if offset == length bag.slots
        then done
            (err_ok, record bag { slots = bag.slots ++ record { next = next; bytes = none } ∷ [] })
        else fault
  ]

  -- `ion_fwrite_at` of the bytes; the offset before them is there.
  unfoldable pub write_bytes : Bag A → Option ℕ → A → Run (ErrorCode × Bag A)
  write_bytes bag none a = fault
  write_bytes bag (some offset) a = elim (get_elem? bag.slots offset) [
    | none ↦ fault
    | some s ↦
        done (err_ok, record bag { slots = set bag.slots offset (record s { bytes = some a }) })
  ]

  -- The two writes of `lfb_put`, and the free list after them.
  unfoldable pub put_at : Bag A → A → Option ℕ → ℕ → Option ℕ → Run (ErrorCode × Bag A × Option ℕ)
  unfolding write_next write_bytes
  put_at bag to_write next wrote_at next_empty = write_next bag (some wrote_at) next >>= λ r.
      elim (r.0) [
        | err_ok ↦ write_bytes (r.1) (some wrote_at) to_write >>= λ w. elim (w.0) [
          | err_ok ↦ done (err_ok, record (w.1) { next_empty = next_empty }, some wrote_at)
          | e ↦ done (e, w.1, some wrote_at)
        ]
        | e ↦ done (e, r.1, some wrote_at)
      ]

  -- `lfb_put`: the last component is `*wrote_at`, where it is set.
  unfoldable pub put : Bag A → A → Option ℕ → Run (ErrorCode × Bag A × Option ℕ)
  unfolding read_next put_at
  put bag to_write next = elim bag.next_empty [
    | none ↦ put_at bag to_write next (length bag.slots) none
    | some offset ↦
        let (error, next_empty) = read_next bag (some offset) in
        elim error [ err_ok ↦ put_at bag to_write next offset next_empty | e ↦ done (e, bag, none) ]
  ]

  -- `lfb_get`: the offset of the next record, and the bytes where they are read.
  unfoldable pub get : Bag A → Option ℕ → ErrorCode × Option ℕ × Option A
  unfolding read_next read_bytes
  get bag offset =
      let (error, next) = read_next bag offset in
      elim error [
        | err_ok ↦ let (error', a) = read_bytes bag offset in (error', next, a)
        | e ↦ (e, next, none)
      ]

  -- `lfb_update_next`: whatever it is called for, the record becomes the first free one.
  unfoldable pub update_next : Bag A → Option ℕ → Option ℕ → Run (ErrorCode × Bag A)
  unfolding write_next
  update_next bag offset next = write_next bag offset next >>= λ r. elim (r.0) [
    | err_ok ↦ done (err_ok, record (r.1) { next_empty = offset })
    | e ↦ done (e, r.1)
  ]

  unfoldable pub delete : Bag A → Option ℕ → Run (ErrorCode × Bag A)
  unfolding update_next
  delete bag offset = update_next bag offset bag.next_empty

  -- The loop of `lfb_delete_all`, with the count of the records that are gone.
  unfoldable pub delete_all_from : Bag A → ℕ → Option ℕ → ℕ → Run (ErrorCode × Bag A × ℕ)
  delete_all_from bag fuel none count = done (err_ok, bag, count)
  delete_all_from bag zero (some offset) count = fault
  delete_all_from bag (suc fuel) (some offset) count =
      let (error, next) = read_next bag (some offset) in
      elim error [
        | err_ok ↦ delete bag (some offset) >>= λ r. elim (r.0) [
          | err_ok ↦ delete_all_from (r.1) fuel next (count + 1)
          | e ↦ done (e, r.1, count)
        ]
        | e ↦ done (e, bag, count)
      ]

  unfoldable pub delete_all : Bag A → Option ℕ → ℕ → Run (ErrorCode × Bag A × ℕ)
  unfolding delete_all_from read_next delete
  delete_all bag offset count = delete_all_from bag (length bag.slots) offset count

  -- `lfb_update`; `next` is null as `none`.
  unfoldable pub update : Bag A → Option ℕ → A → Option (Option ℕ) → Run (ErrorCode × Bag A)
  unfolding update_next write_bytes
  update bag offset to_write none = write_bytes bag offset to_write
  update bag offset to_write (some next) = update_next bag offset next >>= λ r. elim (r.0) [
    | err_ok ↦ write_bytes (r.1) offset to_write
    | e ↦ done (e, r.1)
  ]

  -- The loop of `lfb_update_all`, with the count of the records that are written.
  unfoldable pub update_all_from : Bag A → ℕ → Option ℕ → A → ℕ → Run (ErrorCode × Bag A × ℕ)
  update_all_from bag fuel none to_write count = done (err_ok, bag, count)
  update_all_from bag zero (some offset) to_write count = fault
  update_all_from bag (suc fuel) (some offset) to_write count =
      let (error, next) = read_next bag (some offset) in
      elim error [
        | err_ok ↦ update bag (some offset) to_write none >>= λ r. elim (r.0) [
          | err_ok ↦ update_all_from (r.1) fuel next to_write (count + 1)
          | e ↦ done (e, r.1, count)
        ]
        | e ↦ done (e, bag, count)
      ]

  unfoldable pub update_all : Bag A → Option ℕ → A → ℕ → Run (ErrorCode × Bag A × ℕ)
  unfolding update_all_from read_next update
  update_all bag offset to_write count =
      update_all_from bag (length bag.slots) offset to_write count
