-- ===== src/SkipList/Tests.antt =====
-- The theorems on skip_list.c at a small list with keys of four bytes, and runs of the code.
use iondb.Base.Run.{Returns, done, ◌>>=◌, Run}
use iondb.Base.{
  ℕ, zero, suc, ◌≤◌, ◌<◌, ◌≡◌, refl, if◌then◌else◌, Option, none, some, List, [], ◌∷◌, arith, inl,
  inr,
}
use iondb.Dictionary.Compare.{Bytes, compare_signed_value}
use iondb.Dictionary.Order.{signed-KeyOrder}
use iondb.SkipList.InsertAbsent.{insert-Added, gen_level-Returns}
use iondb.SkipList.Insert.{Added}
use iondb.SkipList.RoundTrip.{insert-get}
use iondb.SkipList.Start.{initialize_lem}
use iondb.SkipList.{gen_level, Node, SkipList, initialize, insert, get, update, delete}
use iondb.SkipList.Get.{get-lookup, entries, lookup, answer}
use iondb.SkipList.Levels.{Tower, pointers}
use iondb.SkipList.Reaches.{IsCursor}
use iondb.SkipList.Valid.{IsValid}
use iondb.System.{err_ok, is_equal}

-- The key of a small number.
abbrev key : ℕ → Bytes
key n = n ∷ 0 ∷ 0 ∷ 0 ∷ []

abbrev node : ℕ → ℕ → List (Option ℕ) → ℕ → Option (Node Bytes ℕ)
node k v next height =
    some (record { key = some (key k); value = some v; height = height; next = next })

-- The keys 3, 5, 5 and 8; the one of 3 and the first one of 5 reach the level 1.
abbrev four : SkipList Bytes ℕ
four = record {
  compare = compare_signed_value 4;
  head = some 0;
  maxheight = 2;
  pnum = 1;
  pden = 4;
  nodes =
      some (record { key = none; value = none; height = 1; next = some 2 ∷ some 2 ∷ [] })
      ∷ node 5 51 (some 3 ∷ none ∷ []) 1
      ∷ node 3 30 (some 1 ∷ some 1 ∷ []) 1
      ∷ node 5 52 (some 4 ∷ []) 0
      ∷ node 8 80 (none ∷ []) 0
      ∷ [];
}

abbrev tower : ℕ → ℕ → ℕ → ℕ → Tower Bytes ℕ
tower place k v height = record { place = place; key = key k; value = v; height = height }

abbrev towers : List (Tower Bytes ℕ)
towers = tower 2 3 30 1 ∷ tower 1 5 51 1 ∷ tower 3 5 52 0 ∷ tower 4 8 80 0 ∷ []

four-IsCursor : (j : ℕ) → j ≤ 1 → IsCursor (pointers four.nodes) j 0 towers
four-IsCursor zero le = (refl, ((λ _. refl), ((λ _. refl), ((λ _. refl), ((λ _. refl), tt)))))
four-IsCursor (suc zero) le = (
  refl,
  ((λ _. refl), ((λ _. refl), ((λ h. absurd (omega arith)), ((λ h. absurd (omega arith)), tt)))),
)
four-IsCursor (suc (suc j)) le = absurd (omega arith)

four-IsValid : IsValid four towers
unfolding compare_signed_value
four-IsValid = record {
  head = 0;
  head_at = refl;
  head_content = refl;
  cursor = four-IsCursor;
  stored = (refl, (refl, (refl, (refl, record { lower = tt }))));
  low = (omega arith, (omega arith, (omega arith, (omega arith, record { lower = tt }))));
  distinct = (
    ((λ e. omega arith), ((λ e. omega arith), ((λ e. omega arith), ((λ e. omega arith), tt)))),
    (
      ((λ e. omega arith), ((λ e. omega arith), ((λ e. omega arith), tt))),
      (((λ e. omega arith), ((λ e. omega arith), tt)), (((λ e. omega arith), tt), (tt, tt))),
    ),
  );
  sorted = (
    (inl refl, (inl refl, (inl refl, record { lower = tt }))),
    (
      (inr (refl, refl), (inl refl, record { lower = tt })),
      ((inl refl, record { lower = tt }), (record { lower = tt }, tt)),
    ),
  );
}

abbrev new : SkipList Bytes ℕ
new = (initialize (compare_signed_value 4) 3 1 4 []).1

abbrev rand : ℕ → ℕ
rand zero = 0
rand (suc n) = n

four_is_absent : get four (key 4) ≡ done (answer none)
unfolding get compare_signed_value
four_is_absent = refl

no_four : lookup four.compare (key 4) (entries towers) ≡ none
unfolding compare_signed_value
no_four = refl

get-lookup_example :
    get four (key 5) ≡ done (answer (lookup (compare_signed_value 4) (key 5) (entries towers)))
get-lookup_example = get-lookup (signed-KeyOrder 4 (omega arith)) four-IsValid (key 5)

insert-Added_example : Returns (insert four 100 rand (key 4) 40) (Added four towers (key 4) 40)
insert-Added_example =
    insert-Added four 100 rand (signed-KeyOrder 4 (omega arith)) four-IsValid (λ e. omega arith)
      (key 4) 40 no_four

insert-get_example : Returns (insert four 100 rand (key 4) 40) (λ r.
    (k : Bytes)
    → get (r.1) k
      ≡ (if is_equal (four.compare (key 4) k) then done (answer (some 40)) else get four k))
insert-get_example =
    insert-get four 100 rand (signed-KeyOrder 4 (omega arith)) four-IsValid (λ e. omega arith)
      (key 4) 40 four_is_absent

gen_level-Returns_example : Returns (gen_level four 100 rand) (λ h. h < four.maxheight)
gen_level-Returns_example = gen_level-Returns four 100 rand (λ e. omega arith) (omega arith)

initialize_lem_example :
    ((initialize {V = ℕ} (compare_signed_value 4) 3 1 4 []).0 ≡ err_ok) × IsValid new []
initialize_lem_example = initialize_lem (compare_signed_value 4) 3 1 4 [] (omega arith)

-- Records are inserted, read, updated and deleted; the levels come from what `rand` returns.
program : Run (Option ℕ)
program = insert new 100 rand (key 4) 40 >>= λ a. insert (a.1) 100 rand (key 2) 20 >>= λ b.
    insert (b.1) 100 (λ _. 99) (key 4) 41 >>= λ c. insert (c.1) 100 (λ _. 99) (key 3) 30 >>= λ d.
    update (d.1) 100 rand (key 4) 44 >>= λ e.
    delete (e.1) (key 2) >>= λ f. get (f.1) (key 4) >>= λ g. done (g.1)

program_result : program ≡ done (some 44)
unfolding program insert initialize compare_signed_value update delete get
program_result = refl
