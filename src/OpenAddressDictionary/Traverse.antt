-- ===== src/OpenAddressDictionary/Traverse.antt =====
-- The records that a cursor of open_address_hash_dictionary_handler.c delivers.
use iondb.Base.{
  ℕ, zero, suc, ◌+◌, ◌-◌, ◌≤◌, ◌<◌, ◌≡◌, ◌∙◌, ap, some, ◌∷◌, length, take, drop, get_elem?, arith,
}
use iondb.Base.Int.{pos, negsuc}
use iondb.Base.Run.{done, ◌>>=◌}
use iondb.Dictionary.{Predicate, predicate_range, predicate_all_records}
use iondb.OpenAddressDictionary.Scan.{records, ends, stops, scan_from-Scans, front}
use iondb.OpenAddressDictionary.{
  Cursor, location_after, scan_from, scan, find_all, find, read_record, next_active, next, collect,
  drain,
}
use iondb.OpenAddressHash.Valid.{location_lem}
use iondb.OpenAddressHash.{Bucket, HashMap}
use iondb.System.{CursorStatus, cs_cursor_active}

pub location_after_pos : (q size : ℕ) → suc q < size → location_after (pos q) size ≡ done (suc q)
unfolding location_after
location_after_pos q size h = location_lem (q + 1) size (omega arith) ∙ ap done (grind arith)

pub location_after_start : (size : ℕ) → 0 < size → location_after (negsuc 0) size ≡ done 0
unfolding location_after
location_after_start size h = location_lem 0 size h ∙ ap done (omega arith)

module _ {ℓ} {K V : Type ℓ} (m : HashMap K V) (predicate : Predicate K) (last : ℕ)
    (sized : length m.entry ≡ m.map_size) (final : suc last ≡ m.map_size) where
  -- A cursor at the bucket `q`, that has delivered it.
  abbrev at_bucket : CursorStatus → ℕ → Cursor K
  at_bucket s q = record { status = s; predicate = predicate; first = last; current = pos q }

  scan_lem :
      (s : CursorStatus) (q : ℕ)
      → q < last
      → scan m (at_bucket s q) ≡ scan_from m predicate last m.map_size (suc q)
  unfolding scan
  scan_lem s q h = rw (location_after_pos q m.map_size (omega arith))

  -- The delivery of the record in the bucket `p`, and what follows.
  deliver :
      (fuel p : ℕ) (b : Bucket K V)
      → get_elem? m.entry p ≡ some b
      → (read_record m (at_bucket cs_cursor_active p) (pos p) >>= collect (drain m fuel))
        ≡ (drain m fuel (at_bucket cs_cursor_active p) >>= λ rs. done ((b.key, b.value) ∷ rs))
  unfolding read_record collect
  deliver fuel p b e = rw (e, read_record)

  -- The rest of the records after the bucket `q`.
  drain_active :
      (fuel q : ℕ)
      → q < last
      → last ≤ fuel + q
      → drain m fuel (at_bucket cs_cursor_active q)
        ≡ done (records m.compare predicate (drop (suc q) (front m predicate last)))
  unfolding drain next next_active
  drain_active zero q h enough = absurd (omega arith)
  drain_active (suc fuel) q h enough =
      elim (scan_from-Scans m predicate last sized final m.map_size (suc q) (omega arith)
        (omega arith)) [
          | ends s r ↦ rw (scan_lem cs_cursor_active q h, s, r)
          | stops p b s le lt e r ↦
              rw (scan_lem cs_cursor_active q h, s, r)
                (deliver fuel p b e ∙ rw (drain_active fuel p lt (omega arith)))
        ]

  -- A cursor over a range or over all records, read to its end, delivers the records that satisfy
  -- the predicate in every bucket but the last, each once and in the order of the buckets.
  drain-find_all :
      (fuel : ℕ)
      → last < fuel
      → (find_all m predicate >>= drain m fuel)
        ≡ done (records m.compare predicate (front m predicate last))
  unfolding find_all scan drain next
  drain-find_all zero enough = elim enough [ ]
  drain-find_all (suc fuel) enough =
      let end : m.map_size - 1 ≡ last = omega arith in
      elim (scan_from-Scans m predicate last sized final m.map_size 0 (omega arith) (omega arith)) [
        | ends s r ↦ rw (end, location_after_start m.map_size (omega arith), s, r)
        | stops p b s le lt e r ↦
            rw (end, location_after_start m.map_size (omega arith), s, r)
              (rw end (deliver fuel p b e ∙ rw (drain_active fuel p lt (omega arith))))
      ]

-- The predicates for which `find` scans the buckets.
pub data IsScanned {ℓ} {K : Type ℓ} : Predicate K → Type ℓ where
  range : (lower upper : K) → IsScanned (predicate_range lower upper)
  all_records : IsScanned predicate_all_records

-- On a map with at least one bucket, a cursor over a range or over all records that is read to its
-- end delivers the records that satisfy the predicate in every bucket but the last one, each bucket
-- once and in order. What the last bucket holds is never delivered.
pub drain-find {ℓ} :
    {K V : Type ℓ} (m : HashMap K V) {predicate : Predicate K}
    → IsScanned predicate
    → length m.entry ≡ m.map_size
    → 0 < m.map_size
    → (find m predicate >>= drain m m.map_size)
      ≡ done (records m.compare predicate (take (m.map_size - 1) m.entry))
unfolding find
drain-find m (range lower upper) sized h =
    drain-find_all m (predicate_range lower upper) (m.map_size - 1) sized (omega arith) m.map_size
      (omega arith)
drain-find m all_records sized h =
    drain-find_all m predicate_all_records (m.map_size - 1) sized (omega arith) m.map_size
      (omega arith)
