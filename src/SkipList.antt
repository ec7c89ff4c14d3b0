-- ===== src/SkipList.antt =====
-- src/dictionary/skip_list/skip_list.c: a sorted list of nodes that is linked at several levels. The
-- memory is the list of its nodes, by address; `none` is one that `free` released. `malloc` gives the
-- address behind the last one, and does not fail. `NULL` is `none`. `maxheight` is at least 1, so
-- that the height of the head is no negative number. `fault` is an access to memory that is not
-- there, a division by zero, or a loop whose fuel runs out: one step for each address.
pub mod LinkLoop
pub mod Placed
pub mod Insert
pub mod InsertAbsent
pub mod Start
pub mod RoundTrip
pub mod Levels
pub mod Reaches
pub mod Find
pub mod Walk
pub mod Store
pub mod Link
pub mod LinkBelow
pub mod Valid
pub mod Get
pub mod Tests
use iondb.Base.{
  ℕ, zero, suc, ◌+◌, ◌-◌, ◌*◌, ◌/◌, Option, none, some, List, [], ◌∷◌, ◌++◌, length, get_elem?, set,
  replicate, ltb, leb, ◌==◌, if◌then◌else◌, Bool, true, false,
}
use iondb.Base.Run.{Run, done, fault, ◌>>=◌}
use iondb.System.{
  Comparison, a_lt_b, a_equ_b, a_gt_b, is_equal, ErrorCode, err_ok, err_item_not_found, Status,
  status_ok, status_error,
}

-- `ion_sl_node_t`; the key and the value of the head are null.
pub record Node {ℓ} (K V : Type ℓ) : Type ℓ where
  pub key : Option K
  pub value : Option V
  pub height : ℕ
  pub next : List (Option ℕ)

-- `ion_skiplist_t`, and the memory.
pub record SkipList {ℓ} (K V : Type ℓ) : Type ℓ where
  pub compare : K → K → Comparison
  pub head : Option ℕ
  pub maxheight : ℕ
  pub pnum : ℕ
  pub pden : ℕ
  pub nodes : List (Option (Node K V))

-- `sl_gen_level`: the loop from `level` on, with what `rand` returns in each round; `left` rounds are
-- left before `level` is `maxheight`.
abbrev pub gen_from : (ℕ → ℕ) → ℕ → ℕ → ℕ → ℕ
gen_from rand limit zero level = level
gen_from rand limit (suc left) level =
    if ltb (rand level) limit then gen_from rand limit left (level + 1) else level

-- `compare(key, k, key_size) >= 0`
abbrev pub at_least : Comparison → Bool
at_least a_lt_b = false
at_least a_equ_b = true
at_least a_gt_b = true

-- `compare(k, key, key_size) < 0`
abbrev pub is_less : Comparison → Bool
is_less a_lt_b = true
is_less a_equ_b = false
is_less a_gt_b = false

module _ {ℓ} {K V : Type ℓ} where
  -- The node at an address.
  abbrev pub at : List (Option (Node K V)) → ℕ → Option (Node K V)
  at nodes a = elim (get_elem? nodes a) [ none ↦ none | some o ↦ o ]

  unfoldable pub load : SkipList K V → ℕ → Run (Node K V)
  load m a = elim (at m.nodes a) [ none ↦ fault | some n ↦ done n ]

  -- `a->next[h]`
  unfoldable pub load_next : SkipList K V → ℕ → ℕ → Run (Option ℕ)
  unfolding load
  load_next m a h = load m a >>= λ n. elim (get_elem? n.next h) [ none ↦ fault | some o ↦ done o ]

  -- `a->key`, where it is compared
  unfoldable pub load_key : SkipList K V → ℕ → Run K
  unfolding load
  load_key m a = load m a >>= λ n. elim n.key [ none ↦ fault | some k ↦ done k ]

  unfoldable pub load_head : SkipList K V → Run ℕ
  load_head m = elim m.head [ none ↦ fault | some a ↦ done a ]

  -- `a->next[h] = o`
  unfoldable pub store_next : SkipList K V → ℕ → ℕ → Option ℕ → Run (SkipList K V)
  unfolding load load_next
  store_next m a h o = load m a >>= λ n. load_next m a h >>= λ _.
      done (record m { nodes = set m.nodes a (some (record n { next = set n.next h o })) })

  -- The loop of `sl_find_node` at one level: `true` where it returns the node.
  unfoldable pub search : SkipList K V → K → ℕ → ℕ → ℕ → Run (Bool × ℕ)
  unfolding load_next load_key
  search m key h zero cursor = fault
  search m key h (suc fuel) cursor = load_next m cursor h >>= λ next. elim next [
    | none ↦ done (false, cursor)
    | some x ↦ load_key m x >>= λ k. elim (m.compare k key) [
      | a_lt_b ↦ search m key h fuel x
      | a_equ_b ↦ done (true, x)
      | a_gt_b ↦ done (false, cursor)
    ]
  ]

  -- The levels below `levels`, from the highest one on.
  unfoldable pub find_below : SkipList K V → K → ℕ → ℕ → Run ℕ
  unfolding search
  find_below m key zero cursor = done cursor
  find_below m key (suc h) cursor = search m key h (suc (length m.nodes)) cursor >>= λ r.
      if r.0 then done (r.1) else find_below m key h (r.1)

  -- `sl_find_node`
  unfoldable pub find_node : SkipList K V → K → Run ℕ
  unfolding load_head load find_below
  find_node m key =
      load_head m >>= λ head. load m head >>= λ n. find_below m key (suc n.height) head

  -- `(NULL != node->key) && (compare(node->key, key, key_size) == 0)`
  unfoldable pub has_key : SkipList K V → Node K V → K → Bool
  has_key m n key = elim n.key [ none ↦ false | some k ↦ is_equal (m.compare k key) ]

  -- `sl_get`
  unfoldable pub get : SkipList K V → K → Run (Status × Option V)
  unfolding find_node load has_key
  get m key = find_node m key >>= λ cursor. load m cursor >>= λ n.
      if has_key m n key
      then done (status_ok 1, n.value)
      else done (status_error err_item_not_found, none)

  -- A loop that goes on at level `h` while there is a next node whose key passes the test.
  unfoldable pub skip_while : SkipList K V → (K → Bool) → ℕ → ℕ → ℕ → Run ℕ
  unfolding load_next load_key
  skip_while m passes h zero cursor = fault
  skip_while m passes h (suc fuel) cursor = load_next m cursor h >>= λ next. elim next [
    | none ↦ done cursor
    | some x ↦ load_key m x >>= λ k. elim (passes k) [
      | true ↦ skip_while m passes h fuel x
      | false ↦ done cursor
    ]
  ]

  -- `sl_gen_level`. The level starts at 1, so that `maxheight - 1` rounds are left, and none where
  -- `maxheight` is 0; it does not fall, so that `level - 1` does not stop at 0.
  unfoldable pub gen_level : SkipList K V → ℕ → (ℕ → ℕ) → Run ℕ
  gen_level m rand_max rand =
      if m.pden == 0
      then fault
      else done (gen_from rand (m.pnum * (rand_max / m.pden)) (m.maxheight - 1) 1 - 1)

  -- A new node. What `malloc` left in its array is overwritten before it is read.
  unfoldable pub new_node : SkipList K V → K → V → ℕ → SkipList K V × ℕ
  new_node m key value height = (
    record m {
      nodes =
          m.nodes
          ++ some (record {
            key = some key;
            value = some value;
            height = height;
            next = replicate (height + 1) none;
          })
            ∷ [];
    },
    length m.nodes,
  )

  -- The new node behind the last one with its key.
  unfoldable pub insert_duplicate : SkipList K V → K → V → ℕ → Run (Status × SkipList K V)
  unfolding skip_while load_next store_next new_node
  insert_duplicate m key value duplicate =
      let (m', x) = new_node m key value 0 in
      skip_while m' (λ k. is_equal (m.compare k key)) 0 (suc (length m'.nodes)) duplicate
      >>= λ last. load_next m' last 0 >>= λ next. store_next m' x 0 next >>= λ a.
          store_next a last 0 (some x) >>= λ b. done (status_ok 1, b)

  -- The new node is linked at the levels below `levels` that it has.
  unfoldable pub link_below : SkipList K V → K → ℕ → ℕ → ℕ → ℕ → Run (SkipList K V)
  unfolding skip_while load_next store_next
  link_below m key x height zero cursor = done m
  link_below m key x height (suc h) cursor =
      skip_while m (λ k. at_least (m.compare key k)) h (suc (length m.nodes)) cursor >>= λ c.
      elim (leb h height) [
        | true ↦ load_next m c h >>= λ next. store_next m x h next >>= λ a.
            store_next a c h (some x) >>= λ b. link_below b key x height h c
        | false ↦ link_below m key x height h c
      ]

  unfoldable pub insert_new : SkipList K V → K → V → ℕ → Run (Status × SkipList K V)
  unfolding new_node load_head load link_below
  insert_new m key value height =
      let (m', x) = new_node m key value height in
      load_head m' >>= λ head. load m' head >>= λ n.
      link_below m' key x height (suc n.height) head >>= λ a. done (status_ok 1, a)

  -- `sl_insert`
  unfoldable pub insert : SkipList K V → ℕ → (ℕ → ℕ) → K → V → Run (Status × SkipList K V)
  unfolding find_node load has_key insert_duplicate gen_level insert_new
  insert m rand_max rand key value = find_node m key >>= λ duplicate. load m duplicate >>= λ n.
      elim (has_key m n key) [
        | true ↦ insert_duplicate m key value duplicate
        | false ↦ gen_level m rand_max rand >>= λ height. insert_new m key value height
      ]

  -- The loop of `sl_update` over the nodes with the key, with the count of those written.
  unfoldable pub update_from : SkipList K V → K → V → ℕ → Option ℕ → ℕ → Run (Status × SkipList K V)
  unfolding load load_key
  update_from m key value fuel none count = done (status_ok count, m)
  update_from m key value zero (some x) count = fault
  update_from m key value (suc fuel) (some x) count = load_key m x >>= λ k.
      elim (is_equal (m.compare k key)) [
        | true ↦ load m x >>= λ n.
            let m' = record m { nodes = set m.nodes x (some (record n { value = some value })) } in
            load_next m' x 0 >>= λ next. update_from m' key value fuel next (count + 1)
        | false ↦ done (status_ok count, m)
      ]

  -- `sl_update`
  unfoldable pub update : SkipList K V → ℕ → (ℕ → ℕ) → K → V → Run (Status × SkipList K V)
  unfolding find_node load has_key insert update_from
  update m rand_max rand key value = find_node m key >>= λ cursor. load m cursor >>= λ n.
      elim (has_key m n key) [
        | true ↦ update_from m key value (suc (length m.nodes)) (some cursor) 0
        | false ↦ insert m rand_max rand key value >>= λ r.
            done (record { error = (r.0).error; count = 1 }, r.1)
      ]

  unfoldable pub free : SkipList K V → ℕ → SkipList K V
  free m x = record m { nodes = set m.nodes x none }

  -- `while (cursor->next[h] != relink)`
  unfoldable pub walk_to : SkipList K V → ℕ → ℕ → ℕ → ℕ → Run ℕ
  unfolding load_next
  walk_to m relink h zero cursor = fault
  walk_to m relink h (suc fuel) cursor = load_next m cursor h >>= λ next. elim next [
    | none ↦ fault
    | some x ↦ elim (x == relink) [ true ↦ done cursor | false ↦ walk_to m relink h fuel x ]
  ]

  -- The node is taken out of the levels below `levels`, from the highest one on.
  unfoldable pub unlink_below : SkipList K V → ℕ → ℕ → ℕ → Run (SkipList K V)
  unfolding walk_to load_next store_next
  unlink_below m relink zero cursor = done m
  unlink_below m relink (suc h) cursor = walk_to m relink h (suc (length m.nodes)) cursor >>= λ c.
      load_next m relink h >>= λ jump. store_next m c h jump >>= λ a. unlink_below a relink h c

  -- The nodes with the key that follow at level `h`.
  unfoldable pub remove_equal : SkipList K V → K → ℕ → ℕ → ℕ → Status → Run (Status × SkipList K V)
  unfolding load_next load_key load unlink_below free
  remove_equal m key h zero cursor status = fault
  remove_equal m key h (suc fuel) cursor status = load_next m cursor h >>= λ next. elim next [
    | none ↦ done (status, m)
    | some x ↦ load_key m x >>= λ k. elim (is_equal (m.compare k key)) [
      | true ↦ load m x >>= λ n. unlink_below m x (suc n.height) cursor >>= λ a.
          remove_equal (free a x) key h fuel cursor
            (record { error = err_ok; count = status.count + 1 })
      | false ↦ done (status, m)
    ]
  ]

  unfoldable pub delete_below : SkipList K V → K → ℕ → ℕ → Status → Run (Status × SkipList K V)
  unfolding skip_while remove_equal
  delete_below m key zero cursor status = done (status, m)
  delete_below m key (suc h) cursor status =
      skip_while m (λ k. is_less (m.compare k key)) h (suc (length m.nodes)) cursor >>= λ c.
      remove_equal m key h (suc (length m.nodes)) c status >>= λ r. delete_below (r.1) key h c (r.0)

  -- `sl_delete`
  unfoldable pub delete : SkipList K V → K → Run (Status × SkipList K V)
  unfolding load_head load delete_below
  delete m key = load_head m >>= λ head.
      load m head >>= λ n. delete_below m key (suc n.height) head (status_error err_item_not_found)

  -- `sl_initialize`, with the memory before it, for a `maxheight` of at least 1: with 0 the height of the
  -- head would be -1.
  unfoldable pub initialize :
      (K → K → Comparison) → ℕ → ℕ → ℕ → List (Option (Node K V)) → ErrorCode × SkipList K V
  initialize compare maxheight pnum pden nodes = (
    err_ok,
    record {
      compare = compare;
      head = some (length nodes);
      maxheight = maxheight;
      pnum = pnum;
      pden = pden;
      nodes =
          nodes
          ++ some (record {
            key = none;
            value = none;
            height = maxheight - 1;
            next = replicate maxheight none;
          })
            ∷ [];
    },
  )

  unfoldable pub destroy_from : SkipList K V → ℕ → Option ℕ → Run (SkipList K V)
  unfolding load_next free
  destroy_from m fuel none = done m
  destroy_from m zero (some cursor) = fault
  destroy_from m (suc fuel) (some cursor) =
      load_next m cursor 0 >>= λ next. destroy_from (free m cursor) fuel next

  -- `sl_destroy`
  unfoldable pub destroy : SkipList K V → Run (ErrorCode × SkipList K V)
  unfolding destroy_from
  destroy m =
      destroy_from m (suc (length m.nodes)) m.head >>= λ a. done (err_ok, record a { head = none })
