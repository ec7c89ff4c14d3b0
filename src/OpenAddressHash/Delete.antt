-- ===== src/OpenAddressHash/Delete.antt =====
-- `delete` of open_address_hash.c.
use iondb.Base.{ℕ, ◌≡◌, refl, some, true, get_elem?}
use iondb.Base.Run.{Returns}
use iondb.OpenAddressHash.Find.{Holds, written}
use iondb.OpenAddressHash.Get.{found, missing, get-Gets}
use iondb.OpenAddressHash.Valid.{IsValid, find_item_loc_lem}
use iondb.OpenAddressHash.{Bucket, in_use, deleted, HashMap, delete, mark_deleted}
use iondb.System.{Status, status_ok, status_error, err_item_not_found, is_equal}

-- `delete` marks one bucket that holds the key, or changes nothing where no bucket does.
pub data Deletes {ℓ} {K V : Type ℓ} (m : HashMap K V) (key : K) (r : Status × HashMap K V)
    : Type ℓ where
  marks :
      (p : ℕ) (b : Bucket K V)
      → get_elem? m.entry p ≡ some b
      → b.status ≡ in_use
      → is_equal (m.compare b.key key) ≡ true
      → r ≡ (status_ok 1, written m p (record b { status = deleted }))
      → Deletes m key r
  keeps : ((p : ℕ) → ¬ Holds m p key) → r ≡ (status_error err_item_not_found, m) → Deletes m key r

module _ {ℓ} {K V : Type ℓ} {m : HashMap K V} (valid : IsValid m) (key : K) where
  pub delete-Deletes : Returns (delete m key) (Deletes m key)
  unfolding delete mark_deleted
  delete-Deletes = elim (get-Gets valid key) [
    | missing unheld e g ↦ (
      (status_error err_item_not_found, m),
      rw (find_item_loc_lem valid key, e),
      keeps unheld refl,
    )
    | found p b f u q e g ↦ (
      (status_ok 1, written m p (record b { status = deleted })),
      rw (find_item_loc_lem valid key, e, mark_deleted, f),
      marks p b f u q refl,
    )
  ]
