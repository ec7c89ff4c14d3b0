-- ===== src/OpenAddressFileHash/Client.antt =====
-- What a client of open_address_file_hash.c sees over any sequence of calls.
use iondb.Base.{ℕ, ◌≡◌, refl, sym, ◌∙◌, ap, Option, none, List, [], ◌∷◌, length}
use mathlib.Core.Path.{subst}
use iondb.Base.Run.{bind_assoc, Run, done, ◌>>=◌, Returns, done-injective}
use iondb.OpenAddressFileHash.{FileHashMap, insert, update, delete, get}
use iondb.OpenAddressFileHash.Loops.{in_memory, on_file, result_on_file}
use iondb.OpenAddressFileHash.Refines.{
  insert-in_memory, update-in_memory, delete-in_memory, get-in_memory,
}
use iondb.OpenAddressHash
use iondb.OpenAddressHash.{HashMap, write_free, write_existing}
use iondb.OpenAddressHash.Delete.{Deletes, marks, keeps, delete-Deletes}
use iondb.OpenAddressHash.Effects.{insert-Inserts, insert-IsValid, delete-IsValid}
use iondb.OpenAddressHash.Get.{missing, found as gets_found, get-Gets}
use iondb.OpenAddressHash.Insert.{Inserts, fills, meets, full}
use iondb.OpenAddressHash.Update.{update-Updated, under, under-IsValid}
use iondb.OpenAddressHash.Valid.{IsValid}
use iondb.System.{Status, WriteConcern, wc_update, wc_insert_unique, wc_duplicate}

-- A call of a client, and what it returns.
pub data Call {ℓ} (K V : Type ℓ) : Type ℓ where
  call_insert call_update : K → V → Call K V
  call_delete call_get : K → Call K V

abbrev pub Answer {ℓ} : Type ℓ → Type ℓ
Answer V = Status × Option V

abbrev changed {ℓ} : {V M : Type ℓ} → Status × M → Run (Answer V × M)
changed r = done ((r.0, none), r.1)

module _ {ℓ} {K V : Type ℓ} where
  -- A call on the map in memory, and on the file.
  unfoldable pub call_in_memory : Call K V → HashMap K V → Run (Answer V × HashMap K V)
  call_in_memory (call_insert key value) m = OpenAddressHash.insert m key value >>= changed
  call_in_memory (call_update key value) m = OpenAddressHash.update m key value >>= changed
  call_in_memory (call_delete key) m = OpenAddressHash.delete m key >>= changed
  call_in_memory (call_get key) m = OpenAddressHash.get m key >>= λ r. done (r, m)

  unfoldable pub call_on_file : Call K V → FileHashMap K V → Run (Answer V × FileHashMap K V)
  call_on_file (call_insert key value) f = insert f key value >>= changed
  call_on_file (call_update key value) f = update f key value >>= changed
  call_on_file (call_delete key) f = delete f key >>= changed
  call_on_file (call_get key) f = get f key >>= λ r. done (r, f)

  -- The answers of a sequence of calls, and the map after it.
  unfoldable pub run_in_memory : List (Call K V) → HashMap K V → Run (List (Answer V) × HashMap K V)
  unfolding call_in_memory
  run_in_memory [] m = done ([], m)
  run_in_memory (c ∷ cs) m =
      call_in_memory c m >>= λ r. run_in_memory cs (r.1) >>= λ s. done (r.0 ∷ s.0, s.1)

  unfoldable pub run_on_file :
      List (Call K V) → FileHashMap K V → Run (List (Answer V) × FileHashMap K V)
  unfolding call_on_file
  run_on_file [] f = done ([], f)
  run_on_file (c ∷ cs) f =
      call_on_file c f >>= λ r. run_on_file cs (r.1) >>= λ s. done (r.0 ∷ s.0, s.1)

  -- A call changes nothing but the buckets.
  abbrev Kept : HashMap K V → HashMap K V → Type ℓ
  Kept m m' = m' ≡ record m { entry = m'.entry }

  Kept-write_existing :
      (m : HashMap K V) (loc : ℕ) (b : OpenAddressHash.Bucket K V) (value : V) (c : WriteConcern)
      → Kept m (write_existing m loc b value c).1
  unfolding write_existing
  Kept-write_existing m loc b value wc_update = refl
  Kept-write_existing m loc b value wc_insert_unique = refl
  Kept-write_existing m loc b value wc_duplicate = refl

  Kept-Inserts :
      {m : HashMap K V} {key : K} {value : V} {rounds loc : ℕ} {r : Status × HashMap K V}
      → Inserts m key value rounds loc r
      → Kept m (r.1)
  unfolding write_free
  Kept-Inserts {m} (fills s b e u path hit stops w) = subst (λ x. Kept m (x.1)) (sym w) refl
  Kept-Inserts {m} {value = value} (meets s b e u q hit w) =
      subst (λ x. Kept m (x.1)) (sym w) (Kept-write_existing m s b value m.write_concern)
  Kept-Inserts {m} (full others w) = subst (λ x. Kept m (x.1)) (sym w) refl

  Kept-Deletes :
      {m : HashMap K V} {key : K} {r : Status × HashMap K V} → Deletes m key r → Kept m (r.1)
  Kept-Deletes {m} (marks p b e u q w) = subst (λ x. Kept m (x.1)) (sym w) refl
  Kept-Deletes {m} (keeps unheld w) = subst (λ x. Kept m (x.1)) (sym w) refl

-- The map in memory that a call leaves.
record Called {ℓ} {K V : Type ℓ} (m : HashMap K V) (r : Answer V × HashMap K V) : Type ℓ where
  valid : IsValid (r.1)
  kept : Kept m (r.1)

module _ {ℓ} {K V : Type ℓ} {m : HashMap K V} (valid : IsValid m) where
  Called-update :
      (key : K) (value : V)
      → Returns (OpenAddressHash.update m key value) (λ r. Called m ((r.0, none), r.1))
  unfolding OpenAddressHash.update
  Called-update key value =
      let (r, run, ends) = insert-Inserts (under-IsValid m wc_update valid) key value in
      let (r', run', updated) = update-Updated valid key value in
      let same : (r.0, under m.write_concern (r.1)) ≡ r' =
        done-injective
          (sym (ap (λ x. x >>= λ y. done (y.0, under m.write_concern (y.1))) run) ∙ run') in
      (
        (r.0, under m.write_concern (r.1)),
        ap (λ x. x >>= λ y. done (y.0, under m.write_concern (y.1))) run,
        record {
          valid = subst (λ (x : Status × HashMap K V). IsValid (x.1)) (sym same) updated.valid;
          kept = ap (under m.write_concern) (Kept-Inserts ends);
        },
      )

  call-Called : (c : Call K V) → Returns (call_in_memory c m) (Called m)
  unfolding call_in_memory
  call-Called (call_insert key value) =
      let (r, run, ends) = insert-Inserts valid key value in
      (
        ((r.0, none), r.1),
        ap (λ x. x >>= changed) run,
        record { valid = insert-IsValid valid key value run; kept = Kept-Inserts ends },
      )
  call-Called (call_update key value) =
      let (r, run, called) = Called-update key value in
      (((r.0, none), r.1), ap (λ x. x >>= changed) run, called)
  call-Called (call_delete key) =
      let (r, run, ends) = delete-Deletes valid key in
      (
        ((r.0, none), r.1),
        ap (λ x. x >>= changed) run,
        record { valid = delete-IsValid valid key run; kept = Kept-Deletes ends },
      )
  call-Called (call_get key) = elim (get-Gets valid key) [
    | missing unheld e g ↦
        ((_, m), ap (λ x. x >>= λ r. done (r, m)) g, record { valid = valid; kept = refl })
    | gets_found p b f u q e g ↦
        ((_, m), ap (λ x. x >>= λ r. done (r, m)) g, record { valid = valid; kept = refl })
  ]

module _ {ℓ} {K V : Type ℓ} where
  -- The buckets that a call leaves, put on the file, are the file that it leaves.
  in_memory-on_file :
      (f : FileHashMap K V) {m : HashMap K V} → Kept (in_memory f) m → in_memory (on_file f m) ≡ m
  in_memory-on_file f {m} kept =
      let same : m.write_concern ≡ f.write_concern =
        ap (λ (x : HashMap K V). x.write_concern) kept in
      ap (λ c. record (in_memory f) { write_concern = c; entry = m.entry }) same ∙ sym kept

  abbrev answer_on_file :
      FileHashMap K V → Answer V × HashMap K V → Run (Answer V × FileHashMap K V)
  answer_on_file f r = done (r.0, on_file f (r.1))

  call_on_file-in_memory :
      (f : FileHashMap K V)
      → length f.file ≡ f.map_size
      → (c : Call K V) → call_on_file c f ≡ (call_in_memory c (in_memory f) >>= answer_on_file f)
  unfolding call_on_file call_in_memory
  call_on_file-in_memory f sized (call_insert key value) =
      ap (λ x. x >>= changed) (insert-in_memory f sized key value)
      ∙ bind_assoc (OpenAddressHash.insert (in_memory f) key value) (result_on_file f) changed
      ∙ sym (bind_assoc (OpenAddressHash.insert (in_memory f) key value) changed (answer_on_file f))
  call_on_file-in_memory f sized (call_update key value) =
      ap (λ x. x >>= changed) (update-in_memory f sized key value)
      ∙ bind_assoc (OpenAddressHash.update (in_memory f) key value) (result_on_file f) changed
      ∙ sym (bind_assoc (OpenAddressHash.update (in_memory f) key value) changed (answer_on_file f))
  call_on_file-in_memory f sized (call_delete key) =
      ap (λ x. x >>= changed) (delete-in_memory f sized key)
      ∙ bind_assoc (OpenAddressHash.delete (in_memory f) key) (result_on_file f) changed
      ∙ sym (bind_assoc (OpenAddressHash.delete (in_memory f) key) changed (answer_on_file f))
  call_on_file-in_memory f sized (call_get key) =
      ap (λ x. x >>= λ r. done (r, f)) (get-in_memory f sized key)
      ∙ sym (
          bind_assoc (OpenAddressHash.get (in_memory f) key) (λ r. done (r, in_memory f))
            (answer_on_file f))

  -- From a file with the buckets of a valid map, every sequence of calls of `insert`, `update`,
  -- `delete` and `get` ends; it returns the answers that the calls on the map in memory return, and
  -- leaves the buckets that those leave, which are again those of a valid map.
  pub run_on_file-run_in_memory :
      (cs : List (Call K V)) (f : FileHashMap K V)
      → IsValid (in_memory f)
      → Returns
          (run_in_memory cs (in_memory f))
          (λ r. IsValid (r.1) × (run_on_file cs f ≡ done (r.0, on_file f (r.1))))
  unfolding run_on_file run_in_memory
  run_on_file-run_in_memory [] f valid = (([], in_memory f), refl, (valid, refl))
  run_on_file-run_in_memory (c ∷ cs) f valid =
      let (r, run, called) = call-Called valid c in
      let back = in_memory-on_file f called.kept in
      let (s, runs, (valid', files)) =
        run_on_file-run_in_memory cs (on_file f (r.1)) (subst IsValid (sym back) called.valid) in
      let first = call_on_file-in_memory f valid.sized c ∙ ap (λ x. x >>= answer_on_file f) run in
      (
        (r.0 ∷ s.0, s.1),
        ap (λ x. x >>= λ y. run_in_memory cs (y.1) >>= λ z. done (y.0 ∷ z.0, z.1)) run
            ∙ ap (λ m. run_in_memory cs m >>= λ z. done (r.0 ∷ z.0, z.1)) (sym back)
            ∙ ap (λ x. x >>= λ z. done (r.0 ∷ z.0, z.1)) runs,
        (
          valid',
          ap (λ x. x >>= λ y. run_on_file cs (y.1) >>= λ z. done (y.0 ∷ z.0, z.1)) first
              ∙ ap (λ x. x >>= λ z. done (r.0 ∷ z.0, z.1)) files,
        ),
      )
