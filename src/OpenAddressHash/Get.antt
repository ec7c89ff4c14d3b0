-- ===== src/OpenAddressHash/Get.antt =====
-- What `get` of open_address_hash.c returns, and the writes that it does not see.
use iondb.Base.{
  ℕ, ◌<◌, ◌≡◌, refl, sym, ◌∙◌, Option, none, some, true, get_elem?, get_elem?-set_ne, arith,
}
use iondb.Base.Run.{Run, done, fault, ◌>>=◌}
use iondb.OpenAddressHash.Find.{Holds, find_from-Holds, find_from-ne-fault, written, Passed}
use iondb.OpenAddressHash.Valid.{
  home, home-lt, IsValid, find_item_loc_lem, find_from-ne-none_of_Holds, find_item_loc-written,
}
use iondb.OpenAddressHash.{Bucket, in_use, HashMap, find_from, get, read_value}
use iondb.System.{status_ok, status_error, err_item_not_found, is_equal}

-- `get` returns the value of a bucket in use that holds the key, or reports that there is none.
pub data Gets {ℓ} {K V : Type ℓ} (m : HashMap K V) (key : K) : Type ℓ where
  found :
      (p : ℕ) (b : Bucket K V)
      → get_elem? m.entry p ≡ some b
      → b.status ≡ in_use
      → is_equal (m.compare b.key key) ≡ true
      → find_from m key m.map_size (home m key) ≡ done (some p)
      → get m key ≡ done (status_ok 1, some b.value)
      → Gets m key
  missing :
      ((p : ℕ) → ¬ Holds m p key)
      → find_from m key m.map_size (home m key) ≡ done none
      → get m key ≡ done (status_error err_item_not_found, none)
      → Gets m key

module _ {ℓ} {K V : Type ℓ} {m : HashMap K V} (valid : IsValid m) (key : K) where
  get_of_find :
      {r : Run (Option ℕ)}
      → find_from m key m.map_size (home m key) ≡ r
      → get m key ≡ (r >>= read_value m)
  unfolding get
  get_of_find e = rw (find_item_loc_lem valid key, e)

  read_value_lem :
      (p : ℕ) (b : Bucket K V)
      → get_elem? m.entry p ≡ some b
      → read_value m (some p) ≡ done (status_ok 1, some b.value)
  unfolding read_value
  read_value_lem p b e = ground arith

  pub get-Gets : Gets m key
  unfolding read_value
  get-Gets = go (find_from m key m.map_size (home m key)) refl
    where
      go : (r : Run (Option ℕ)) → find_from m key m.map_size (home m key) ≡ r → Gets m key
      go fault e =
          absurd
            (find_from-ne-fault m key m.map_size (home m key) valid.sized (home-lt valid key) e)
      go (done none) e =
          missing (λ p h. find_from-ne-none_of_Holds valid key p h e) e (get_of_find e)
      go (done (some p)) e =
          let (b, f, u, q) = find_from-Holds m key m.map_size (home m key) p e in
          found p b f u q e (get_of_find e ∙ read_value_lem p b f)

module _ {ℓ} {K V : Type ℓ} {m : HashMap K V} (valid : IsValid m) (key : K) where
  -- A write of a bucket that a search passes over does not change what `get` returns.
  pub get-written :
      (s : ℕ) (b' : Bucket K V)
      → s < m.map_size
      → IsValid (written m s b')
      → Passed m key b'
      → ¬ Holds m s key
      → get (written m s b') key ≡ get m key
  unfolding read_value
  get-written s b' hs valid' pass free = elim (get-Gets valid key) [
    | missing unheld e g ↦ get_of_find valid' key (same ∙ e) ∙ sym g
    | found p b f u q e g ↦
        get_of_find valid' key (same ∙ e)
        ∙ read_value_lem valid' key p b
            (get_elem?-set_ne m.entry s p b' (λ t. free (b, rw t f, u, q)) ∙ f)
        ∙ sym g
  ]
    where
      same :
          find_from (written m s b') key m.map_size (home m key)
          ≡ find_from m key m.map_size (home m key)
      same = find_item_loc-written valid key s b' hs pass free

  -- A key that the written bucket does not hold.
  pub get_at :
      (p : ℕ) (b : Bucket K V)
      → get_elem? m.entry p ≡ some b
      → find_from m key m.map_size (home m key) ≡ done (some p)
      → get m key ≡ done (status_ok 1, some b.value)
  get_at p b f e = get_of_find valid key e ∙ read_value_lem valid key p b f
