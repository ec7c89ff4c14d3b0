-- ===== src/SkipList/Insert.antt =====
-- `sl_insert` of skip_list.c on a valid skip list, for a key that the list does not hold.
use iondb.Base.{
  ℕ, zero, suc, ◌+◌, ◌-◌, ◌≤◌, ◌<◌, ◌≡◌, ◌≢◌, refl, sym, ◌∙◌, ap, Option, none, some, List, [], ◌∷◌,
  ◌++◌, length, arith, map, true, false, Bool, replicate, get_elem?-replicate, length-append,
}
use iondb.Base.Distinct.{NotIn, NotIn-below}
use iondb.Base.Run.{done, ◌>>=◌, Returns}
use iondb.Key.{KeyOrder, flip}
use iondb.SkipList.{SkipList, Node, load, gen_from, new_node, insert_new, link_below, at_least}
use iondb.SkipList.Find.{Compares}
use iondb.SkipList.Get.{entries, length-towers, IsBelow-places}
use iondb.SkipList.Levels.{
  Tower, pointers, pointer_of, contents_at, content_of, All, IsStored, All-append, All-left,
  All-right, lt-of-content, load-content, load_head-some,
}
use iondb.SkipList.Link.{IsLinked-elsewhere}
use iondb.SkipList.LinkBelow.{Partly}
use iondb.SkipList.LinkLoop.{Complete, link_below-Complete, All-same}
use iondb.SkipList.Placed.{
  insert_entry, insert_entry-Divided, IsDistinct-insert, IsSorted-insert, NotIn-insert,
}
use iondb.SkipList.Store.{at-append, at-append_end}
use iondb.SkipList.Valid.{IsValid, place_of}
use iondb.System.{Comparison, a_lt_b, a_gt_b, Status, status_ok}

pub gen_from-le :
    (rand : ℕ → ℕ) (limit left level : ℕ) → gen_from rand limit left level ≤ level + left
gen_from-le rand limit zero level = omega arith
gen_from-le rand limit (suc left) level =
    let i = gen_from-le rand limit left (level + 1) in ground arith

-- What `insert` does to the towers `ts`.
pub record Added {ℓ} {K V : Type ℓ} (m : SkipList K V) (ts : List (Tower K V)) (key : K) (value : V)
    (r : Status × SkipList K V) : Type ℓ where
  pub towers : List (Tower K V)
  pub status : r.0 ≡ status_ok 1
  pub valid : IsValid (r.1) towers
  pub records : entries towers ≡ insert_entry m.compare key value (entries ts)
  pub compare : (r.1).compare ≡ m.compare

module _ {ℓ} {K V : Type ℓ} {m : SkipList K V} (order : KeyOrder m.compare)
    (less more : List (Tower K V)) (valid : IsValid m (less ++ more)) (key : K) (value : V)
    (height : ℕ) (low : height ≤ m.maxheight - 1)
    (before : All (Compares m.compare key a_lt_b) less)
    (behind : All (Compares m.compare key a_gt_b) more) where
  abbrev new_tower : Tower K V
  new_tower = record { place = length m.nodes; key = key; value = value; height = height }

  abbrev added_node : Node K V
  added_node = record {
    key = some key;
    value = some value;
    height = height;
    next = replicate (height + 1) none;
  }

  abbrev added : List (Option (Node K V))
  added = m.nodes ++ some added_node ∷ []

  added-contents : (b : ℕ) → b ≢ length m.nodes → contents_at added b ≡ contents_at m.nodes b
  added-contents b ne = ap content_of (at-append m.nodes _ b ne)

  added-pointers : (b j : ℕ) → b ≢ length m.nodes → pointers added b j ≡ pointers m.nodes b j
  added-pointers b j ne = ap (λ o. pointer_of o j) (at-append m.nodes _ b ne)

  added-IsStored :
      (ts : List (Tower K V))
      → All (IsStored (contents_at m.nodes)) ts
      → All (IsStored (contents_at added)) ts
  added-IsStored [] s = s
  added-IsStored (t ∷ ts) (s, ss) =
      let lt = lt-of-content m.nodes t.place s in
      (added-contents t.place (λ e. omega arith) ∙ s, added-IsStored ts ss)

  head-lt : valid.head < length m.nodes
  head-lt = lt-of-content m.nodes valid.head valid.head_content

  fresh : NotIn (length m.nodes) (valid.head ∷ map place_of (less ++ more))
  fresh =
      let lt = head-lt in
      (
        (λ e. omega arith),
        NotIn-below (length m.nodes) (map place_of (less ++ more))
            (IsBelow-places m (less ++ more) valid.stored),
      )

  added-Partly :
      Partly valid.head (m.maxheight - 1) key new_tower less more (suc (m.maxheight - 1)) added
  added-Partly = record {
    below = λ j lt.
        let (at, links) = valid.cursor j (omega arith) in
        (
          added-pointers valid.head j (λ e. fresh.0 (sym e)) ∙ at,
          IsLinked-elsewhere (pointers m.nodes) (pointers added) j (length m.nodes) (length m.nodes)
              (less ++ more) (λ b ne _. added-pointers b j ne) (fresh.1) (fresh.1) links,
        );
    above = λ j ge le. absurd (omega arith);
    own = λ j le. (
      none,
      ap (λ o. pointer_of o j) (at-append_end m.nodes _)
          ∙ get_elem?-replicate (height + 1) none j (omega arith),
    );
  }

  passing :
      (ts : List (Tower K V)) (c : Comparison) (b : Bool)
      → at_least (flip c) ≡ b
      → All (Compares m.compare key c) ts
      → All (λ t. at_least (m.compare key t.key) ≡ b) ts
  passing [] c b e h = h
  passing (t ∷ ts) c b e (q, h) =
      (ap at_least (order.compare_flip t.key key ∙ ap flip q) ∙ e, passing ts c b e h)

  linked :
      Complete m valid.head
        (m.maxheight - 1)
        key
        new_tower
        less
        more
        valid.distinct
        fresh
        (passing more a_gt_b false refl behind)
        added
        (link_below
          (record m { nodes = added })
          key
          (length m.nodes)
          height
          (suc (m.maxheight - 1))
          valid.head)
  linked =
      link_below-Complete m valid.head (m.maxheight - 1) key new_tower less more valid.distinct
        fresh (passing more a_gt_b false refl behind) (suc (m.maxheight - 1)) added valid.head less
        (record {
          short = omega (
            arith,
            length-towers order valid,
            length-append less more,
            length-append m.nodes (some added_node ∷ []),
          );
          partly = added-Partly;
          stored = added-IsStored less (All-left _ less more valid.stored);
          stored_rest = added-IsStored more (All-right _ less more valid.stored);
          passes = passing less a_lt_b true refl before;
          cursor = λ j lt. added-Partly.below j lt;
          same = λ j lt. refl;
        })

  insert_new-linked :
      insert_new m key value height ≡ done (status_ok 1, record m { nodes = linked.nodes' })
  unfolding insert_new new_node
  insert_new-linked =
      let m' : SkipList K V = record m { nodes = added } in
      let (n, run, k, v, h) =
        load-content m' valid.head
          (added-contents valid.head (λ e. fresh.0 (sym e)) ∙ valid.head_content) in
      ap
        (λ r. r >>= λ head. load m' head >>= λ a.
          link_below m' key (length m.nodes) height (suc a.height) head >>= λ b.
          done (status_ok 1, b))
        (load_head-some m' valid.head valid.head_at)
      ∙ ap
          (λ r. r >>= λ a.
            link_below m' key (length m.nodes) height (suc a.height) valid.head >>= λ b.
            done (status_ok 1, b))
          run
      ∙ ap
          (λ top. link_below m' key (length m.nodes) height (suc top) valid.head >>= λ b.
            done (status_ok 1, b))
          h
      ∙ ap (λ r. r >>= λ b. done (status_ok 1, b)) linked.run

  final-IsStored :
      (ts : List (Tower K V))
      → All (IsStored (contents_at m.nodes)) ts
      → All (IsStored (contents_at linked.nodes')) ts
  final-IsStored ts s =
      All-same (contents_at added) (contents_at linked.nodes') ts linked.contents
        (added-IsStored ts s)

  insert_new-IsValid : IsValid (record m { nodes = linked.nodes' }) (less ++ (new_tower ∷ more))
  insert_new-IsValid = record {
    head = valid.head;
    head_at = valid.head_at;
    head_content =
        linked.contents valid.head
        ∙ added-contents valid.head (λ e. fresh.0 (sym e))
        ∙ valid.head_content;
    cursor = λ j le. linked.partly.above j (omega arith) le;
    stored =
        All-append _ less (new_tower ∷ more)
          (final-IsStored less (All-left _ less more valid.stored))
          (
            linked.contents (length m.nodes) ∙ ap content_of (at-append_end m.nodes _),
            final-IsStored more (All-right _ less more valid.stored),
          );
    low =
        All-append _ less (new_tower ∷ more) (All-left _ less more valid.low)
          (low, All-right _ less more valid.low);
    distinct = (
      NotIn-insert valid.head less more new_tower (λ e. fresh.0 (sym e)) (valid.distinct.0),
      IsDistinct-insert less more new_tower (fresh.1) (valid.distinct.1),
    );
    sorted = IsSorted-insert order new_tower less more before behind valid.sorted;
  }

  pub insert_new-Added : Returns (insert_new m key value height) (Added m (less ++ more) key value)
  insert_new-Added = (
    (status_ok 1, record m { nodes = linked.nodes' }),
    insert_new-linked,
    record {
      towers = less ++ (new_tower ∷ more);
      status = refl;
      valid = insert_new-IsValid;
      records = insert_entry-Divided m.compare less more new_tower before behind;
      compare = refl;
    },
  )
