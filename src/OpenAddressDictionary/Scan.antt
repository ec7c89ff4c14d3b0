-- ===== src/OpenAddressDictionary/Scan.antt =====
-- Where `oadict_scan` of open_address_hash_dictionary_handler.c stops.
use iondb.Base.{
  ℕ, zero, suc, ◌+◌, ◌≤◌, ◌<◌, ◌≡◌, inl, inr, ◌∙◌, ap, Bool, true, false, none, some, List, [], ◌∷◌,
  length, take, drop, get_elem?, get_elem?-some, drop-get_elem?, get_elem?-take, drop-take, arith,
  Bool-cases, if◌then◌else◌, ℕ_discrete,
}
use iondb.Base.Run.{done}
use iondb.Dictionary.{Predicate, test_predicate}
use iondb.OpenAddressDictionary.{scan_from}
use iondb.OpenAddressHash.{empty, deleted, in_use, Bucket, HashMap, next_location}
use iondb.OpenAddressHash.Probe.{next_location-suc}
use iondb.System.{Comparison}

module _ {ℓ} {K V : Type ℓ} where
  -- The bucket is in use by a key that satisfies the predicate.
  unfoldable pub selects : (K → K → Comparison) → Predicate K → Bucket K V → Bool
  selects compare predicate b = elim b.status [
    | in_use ↦ test_predicate compare predicate b.key
    | empty ↦ false
    | deleted ↦ false
  ]

  -- The records of a list of buckets that satisfy the predicate.
  unfoldable pub records : (K → K → Comparison) → Predicate K → List (Bucket K V) → List (K × V)
  unfolding selects
  records compare predicate [] = []
  records compare predicate (b ∷ bs) =
      if selects compare predicate b
      then (b.key, b.value) ∷ records compare predicate bs
      else records compare predicate bs

module _ {ℓ} {K V : Type ℓ} (m : HashMap K V) (predicate : Predicate K) (last : ℕ) where
  -- The buckets before the last one.
  abbrev pub front : List (Bucket K V)
  front = take last m.entry

  -- What a scan from the bucket `i` finds.
  pub data Scans (fuel i : ℕ) : Type ℓ where
    ends :
        scan_from m predicate last fuel i ≡ done none
        → records m.compare predicate (drop i front) ≡ []
        → Scans fuel i
    stops :
        (q : ℕ) (b : Bucket K V)
        → scan_from m predicate last fuel i ≡ done (some q)
        → i ≤ q
        → q < last
        → get_elem? m.entry q ≡ some b
        → records m.compare predicate (drop i front)
          ≡ (b.key, b.value) ∷ records m.compare predicate (drop (suc q) front)
        → Scans fuel i

  module _ (fuel i : ℕ) (b : Bucket K V) (e : get_elem? m.entry i ≡ some b) (below : i < last) where
    drop-front : drop i front ≡ b ∷ drop (suc i) front
    drop-front = drop-get_elem? front i (get_elem?-take last m.entry i below ∙ e)

    scan_from-stop :
        selects m.compare predicate b ≡ true
        → scan_from m predicate last (suc fuel) i ≡ done (some i)
    unfolding scan_from selects
    scan_from-stop t = ground arith

    scan_from-pass :
        selects m.compare predicate b ≡ false
        → scan_from m predicate last (suc fuel) i
          ≡ scan_from m predicate last fuel (next_location i m.map_size)
    unfolding scan_from selects
    scan_from-pass t = ground arith

    Scans-stop : selects m.compare predicate b ≡ true → Scans (suc fuel) i
    unfolding records
    Scans-stop t = stops i b (scan_from-stop t) (omega arith) below e (rw (drop-front, t))

    Scans-pass :
        next_location i m.map_size ≡ suc i
        → selects m.compare predicate b ≡ false
        → Scans fuel (suc i)
        → Scans (suc fuel) i
    unfolding records
    Scans-pass step t (ends s r) =
        ends (scan_from-pass t ∙ ap (scan_from m predicate last fuel) step ∙ s)
          (rw (drop-front, t) r)
    Scans-pass step t (stops q c s le lt f r) =
        stops q c (scan_from-pass t ∙ ap (scan_from m predicate last fuel) step ∙ s) (omega arith)
          lt f (rw (drop-front, t) r)

  -- With enough fuel a scan from a bucket up to the last one stops at the next bucket that is
  -- selected before the last one, or ends.
  pub scan_from-Scans :
      length m.entry ≡ m.map_size
      → suc last ≡ m.map_size
      → (fuel i : ℕ) → i ≤ last
      → last ≤ fuel + i
      → Scans fuel i
  unfolding scan_from records
  scan_from-Scans sized final zero i le enough =
      let at_last : i ≡ last = omega arith in
      ends (rw at_last (ground arith))
        (ap (records m.compare predicate) (ap (λ j. drop j front) at_last ∙ drop-take last m.entry))
  scan_from-Scans sized final (suc fuel) i le enough = elim (ℕ_discrete i last) [
    | yes at_last ↦
        ends (ground arith) (
          ap (records m.compare predicate)
            (ap (λ j. drop j front) at_last ∙ drop-take last m.entry))
    | no before ↦
        let (b, e) = get_elem?-some m.entry i (omega arith) in
        elim (Bool-cases (selects m.compare predicate b)) [
          | inl t ↦ Scans-stop fuel i b e (omega arith) t
          | inr t ↦
              Scans-pass fuel i b e (omega arith) (next_location-suc i m.map_size (omega arith)) t
                (scan_from-Scans sized final fuel (suc i) (omega arith) (omega arith))
        ]
  ]
