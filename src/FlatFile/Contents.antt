-- ===== src/FlatFile/Contents.antt =====
-- The rows of a flat file of src/dictionary/flat_file/flat_file.c, and the well-formedness of the
-- file and its buffer.
use iondb.Base.{
  ℕ, ◌+◌, ◌-◌, ◌≤◌, ◌<◌, ◌≡◌, ◌∙◌, ap, Bool, Option, none, some, List, length, take, drop,
  get_elem?, arith, ltb, ◌&&◌, if◌then◌else◌, get_elem?-append, get_elem?-take-drop, length-append,
  length-take, length-drop,
}
use iondb.FlatFile.{FlatFile, Row, load, is_occupied}
use iondb.System.{Comparison, is_equal}

module _ {ℓ} {K V : Type ℓ} where
  -- The rows before `eof_position`.
  abbrev pub contents : FlatFile K V → List (Row K V)
  contents f = take f.eof_position f.rows

  -- A row is occupied and has the key.
  abbrev pub matches : (K → K → Comparison) → K → Row K V → Bool
  matches compare key r = is_occupied r && is_equal (compare key r.key)

  -- The file with another buffer.
  abbrev pub cached : FlatFile K V → List (Row K V) → Option ℕ → ℕ → FlatFile K V
  cached f b region num = record f {
    buffer = b;
    current_loaded_region = region;
    num_in_buffer = num;
  }

  -- The number of rows that a scan forwards reads at `cur`.
  abbrev pub chunk : FlatFile K V → ℕ → ℕ
  chunk f cur =
      if ltb f.num_buffered (f.eof_position - cur) then f.num_buffered else f.eof_position - cur

-- `cache`: the buffer holds the rows of the region that it is said to hold.
pub record IsValid {ℓ} {K V : Type ℓ} (f : FlatFile K V) : Type ℓ where
  pub in_file : f.eof_position ≤ length f.rows
  pub positive : 0 < f.num_buffered
  pub sized : length f.buffer ≡ f.num_buffered
  pub cache :
      (region : ℕ)
      → f.current_loaded_region ≡ some region
      → (j : ℕ) → j < f.num_in_buffer
      → get_elem? f.buffer j ≡ get_elem? f.rows (region + j)

module _ {ℓ} {K V : Type ℓ} {f : FlatFile K V} (valid : IsValid f) where
  pub length-contents : length (contents f) ≡ f.eof_position
  length-contents = let h = valid.in_file in omega (arith, length-take f.eof_position f.rows)

  pub length-chunk :
      (cur : ℕ) → cur ≤ f.eof_position → length (take (chunk f cur) (drop cur f.rows)) ≡ chunk f cur
  length-chunk cur h =
      let a = valid.in_file in
      let e = length-take (chunk f cur) (drop cur f.rows) in
      let d = length-drop cur f.rows in ground arith

  -- A read into the buffer keeps the file valid.
  pub load-IsValid :
      (cur num : ℕ)
      → num ≤ f.num_buffered
      → length (take num (drop cur f.rows)) ≡ num
      → IsValid (load f cur num)
  unfolding load
  load-IsValid cur num h e = record {
    in_file = valid.in_file;
    positive = valid.positive;
    sized =
        let s = valid.sized in
        omega (
          arith,
          length-append (take num (drop cur f.rows)) (drop num f.buffer),
          length-drop num f.buffer,
          e,
        );
    cache = λ region same j hj.
        let here : cur ≡ region = ground arith in
        get_elem?-append (take num (drop cur f.rows)) (drop num f.buffer) j (omega arith)
        ∙ get_elem?-take-drop num cur j f.rows hj
        ∙ ap (λ c. get_elem? f.rows (c + j)) here;
  }

  -- A file whose buffer holds no region is valid.
  pub uncached-IsValid :
      (b : List (Row K V))
      → length b ≡ f.num_buffered
      → (rows : List (Row K V)) (eof : ℕ) → eof ≤ length rows
      → IsValid (record f {
        rows = rows;
        eof_position = eof;
        buffer = b;
        current_loaded_region = none;
        num_in_buffer = 0;
      })
  uncached-IsValid b sized rows eof h = record {
    in_file = h;
    positive = valid.positive;
    sized = sized;
    cache = λ region e j hj. ground arith;
  }
