-- ===== src/OpenAddressFileDictionary/Traverse.antt =====
-- The records that a cursor of open_address_file_hash_dictionary_handler.c delivers.
use iondb.Base.{
  ℕ, zero, suc, ◌+◌, ◌-◌, ◌≤◌, ◌<◌, ◌≡◌, refl, sym, ◌∙◌, ap, Option, none, some, length, take,
  get_elem?, get_elem?-some, arith, ℕ_discrete,
}
use mathlib.Core.Path.{subst}
use iondb.Base.Int.{pos}
use iondb.Base.Run.{done, ◌>>=◌}
use iondb.Dictionary.{Predicate, predicate_range, predicate_all_records}
use iondb.OpenAddressDictionary
use iondb.OpenAddressDictionary.{Cursor, location_after, collect}
use iondb.OpenAddressDictionary.Scan.{records, ends, stops, scan_from-Scans}
use iondb.OpenAddressDictionary.Traverse.{
  IsScanned, range, all_records, location_after_pos, location_after_start, drain-find,
}
use iondb.OpenAddressFileDictionary.{
  scan_from, scan, find_all, find, read_record, next_active, next, drain,
}
use iondb.OpenAddressFileHash.{FileHashMap, read_bucket}
use iondb.OpenAddressFileHash.Loops.{in_memory}
use iondb.OpenAddressHash.{Bucket, next_location}
use iondb.OpenAddressHash.Probe.{next_location-suc}
use iondb.System.{CursorStatus, cs_cursor_active}

module _ {ℓ} {K V : Type ℓ} (f : FileHashMap K V) (predicate : Predicate K) (last : ℕ)
    (sized : length f.file ≡ f.map_size) (final : suc last ≡ f.map_size) where
  module _ (fuel i : ℕ) (memory : Option (Bucket K V)) (b : Bucket K V)
      (e : get_elem? f.file i ≡ some b) (step : next_location i f.map_size ≡ i + 1) where
    scan_from-step :
        scan_from f predicate last fuel (i + 1) (i + 1) (some b)
          ≡ OpenAddressDictionary.scan_from (in_memory f) predicate last fuel (i + 1)
        → scan_from f predicate last (suc fuel) i i memory
          ≡ OpenAddressDictionary.scan_from (in_memory f) predicate last (suc fuel) i
    unfolding scan_from OpenAddressDictionary.scan_from read_bucket
    scan_from-step ih = ground arith

  scan_from-out :
      (i : ℕ) (memory : Option (Bucket K V))
      → scan_from f predicate last 0 i i memory
        ≡ OpenAddressDictionary.scan_from (in_memory f) predicate last 0 i
  unfolding scan_from OpenAddressDictionary.scan_from
  scan_from-out i memory = refl

  scan_from-here :
      (fuel : ℕ) (memory : Option (Bucket K V))
      → scan_from f predicate last fuel last last memory
        ≡ OpenAddressDictionary.scan_from (in_memory f) predicate last fuel last
  unfolding scan_from OpenAddressDictionary.scan_from
  scan_from-here zero memory = refl
  scan_from-here (suc fuel) memory = ground arith

  -- Up to the last bucket the location does not wrap.
  scan_from-in_memory :
      (fuel i : ℕ) (memory : Option (Bucket K V))
      → i ≤ last
      → scan_from f predicate last fuel i i memory
        ≡ OpenAddressDictionary.scan_from (in_memory f) predicate last fuel i
  scan_from-in_memory zero i memory h = scan_from-out i memory
  scan_from-in_memory (suc fuel) i memory h = elim (ℕ_discrete i last) [
    | yes q ↦
        subst
          (λ k.
            scan_from f predicate last (suc fuel) k k memory
            ≡ OpenAddressDictionary.scan_from (in_memory f) predicate last (suc fuel) k)
          (sym q) (scan_from-here (suc fuel) memory)
    | no ne ↦
        let (b, e) = get_elem?-some f.file i (omega arith) in
        let plus : suc i ≡ i + 1 = omega arith in
        scan_from-step fuel i memory b e (next_location-suc i f.map_size (omega arith) ∙ plus)
          (scan_from-in_memory fuel (i + 1) (some b) (omega arith))
  ]

  -- A cursor at the bucket `q`, that has delivered it.
  abbrev at_bucket : CursorStatus → ℕ → Cursor K
  at_bucket s q = record { status = s; predicate = predicate; first = last; current = pos q }

  scan-in_memory :
      (q : ℕ)
      → q < last
      → scan f (at_bucket cs_cursor_active q)
        ≡ OpenAddressDictionary.scan (in_memory f) (at_bucket cs_cursor_active q)
  unfolding scan OpenAddressDictionary.scan
  scan-in_memory q h =
      rw (location_after_pos q f.map_size (omega arith))
        (scan_from-in_memory f.map_size (suc q) none (omega arith))

  scan_lem :
      (q : ℕ)
      → q < last
      → OpenAddressDictionary.scan (in_memory f) (at_bucket cs_cursor_active q)
        ≡ OpenAddressDictionary.scan_from (in_memory f) predicate last f.map_size (suc q)
  unfolding OpenAddressDictionary.scan
  scan_lem q h = rw (location_after_pos q f.map_size (omega arith)) refl

  -- The delivery of the record in the bucket `p`, and what follows.
  deliver :
      (fuel p : ℕ) (b : Bucket K V)
      → get_elem? f.file p ≡ some b
      → drain f fuel (at_bucket cs_cursor_active p)
        ≡ OpenAddressDictionary.drain (in_memory f) fuel (at_bucket cs_cursor_active p)
      → (read_record f (at_bucket cs_cursor_active p) (pos p) >>= collect (drain f fuel)) ≡ (
          OpenAddressDictionary.read_record (in_memory f) (at_bucket cs_cursor_active p) (pos p)
          >>= collect (OpenAddressDictionary.drain (in_memory f) fuel))
  unfolding read_record OpenAddressDictionary.read_record collect
  deliver fuel p b e same = ground arith

  drain-in_memory :
      (fuel q : ℕ)
      → q < last
      → drain f fuel (at_bucket cs_cursor_active q)
        ≡ OpenAddressDictionary.drain (in_memory f) fuel (at_bucket cs_cursor_active q)
  unfolding drain next next_active OpenAddressDictionary.drain OpenAddressDictionary.next
      OpenAddressDictionary.next_active
  drain-in_memory zero q h = refl
  drain-in_memory (suc fuel) q h =
      elim (scan_from-Scans (in_memory f) predicate last sized final f.map_size (suc q)
        (omega arith) (omega arith)) [
          | ends s r ↦ rw (scan-in_memory q h, scan_lem q h, s) refl
          | stops p b s le lt e r ↦
              rw (scan-in_memory q h, scan_lem q h, s)
                (deliver fuel p b e (drain-in_memory fuel p lt))
        ]

  find_all-in_memory :
      (fuel : ℕ)
      → (find_all f predicate >>= drain f (suc fuel)) ≡ (
          OpenAddressDictionary.find_all (in_memory f) predicate
          >>= OpenAddressDictionary.drain (in_memory f) (suc fuel))
  unfolding find_all scan drain next OpenAddressDictionary.find_all OpenAddressDictionary.scan
      OpenAddressDictionary.drain OpenAddressDictionary.next
  find_all-in_memory fuel =
      let end : f.map_size - 1 ≡ last = omega arith in
      let start = location_after_start f.map_size (omega arith) in
      let same = scan_from-in_memory f.map_size 0 none (omega arith) in
      elim (scan_from-Scans (in_memory f) predicate last sized final f.map_size 0 (omega arith)
        (omega arith)) [
          | ends s r ↦ rw (end, start, same, s) refl
          | stops p b s le lt e r ↦
              rw (end, start, same, s)
                (rw (end) (
                  deliver fuel p b e (drain-in_memory fuel p lt)
                  ∙ ap
                      (λ k.
                        OpenAddressDictionary.read_record (in_memory f)
                          (record {
                            status = cs_cursor_active;
                            predicate = predicate;
                            first = k;
                            current = pos p;
                          })
                          (pos p)
                        >>= collect (OpenAddressDictionary.drain (in_memory f) fuel))
                      (sym end)))
        ]

-- On a file with as many buckets as the map has, at least one, a cursor over a range or over all
-- records that is read to its end delivers the records that satisfy the predicate in every bucket but
-- the last one, each bucket once and in order, as the cursor of the hash in memory does.
pub drain-find_on_file {ℓ} :
    {K V : Type ℓ} (f : FileHashMap K V) {predicate : Predicate K}
    → IsScanned predicate
    → length f.file ≡ f.map_size
    → 0 < f.map_size
    → (find f predicate >>= drain f f.map_size)
      ≡ done (records f.compare predicate (take (f.map_size - 1) f.file))
unfolding find OpenAddressDictionary.find
drain-find_on_file f (range lower upper) sized h =
    let one : f.map_size ≡ suc (f.map_size - 1) = omega arith in
    ap (λ n. find_all f (predicate_range lower upper) >>= drain f n) one
    ∙ find_all-in_memory f (predicate_range lower upper) (f.map_size - 1) sized (sym one)
        (f.map_size - 1)
    ∙ ap
        (λ n.
          OpenAddressDictionary.find_all (in_memory f) (predicate_range lower upper)
          >>= OpenAddressDictionary.drain (in_memory f) n)
        (sym one)
    ∙ drain-find (in_memory f) (range lower upper) sized h
drain-find_on_file f all_records sized h =
    let one : f.map_size ≡ suc (f.map_size - 1) = omega arith in
    ap (λ n. find_all f predicate_all_records >>= drain f n) one
    ∙ find_all-in_memory f predicate_all_records (f.map_size - 1) sized (sym one) (f.map_size - 1)
    ∙ ap
        (λ n.
          OpenAddressDictionary.find_all (in_memory f) predicate_all_records
          >>= OpenAddressDictionary.drain (in_memory f) n)
        (sym one)
    ∙ drain-find (in_memory f) all_records sized h
