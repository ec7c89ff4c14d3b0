-- ===== src/SkipList/Start.antt =====
-- `sl_initialize` of skip_list.c.
use iondb.Base.{
  ℕ, ◌<◌, ◌≡◌, refl, ap, Option, none, List, [], length, arith, get_elem?-replicate, ◌∙◌,
}
use iondb.SkipList.{Node, initialize}
use iondb.SkipList.Levels.{pointer_of, content_of}
use iondb.SkipList.Store.{at-append_end}
use iondb.SkipList.Valid.{IsValid}
use iondb.System.{Comparison, err_ok}

module _ {ℓ} {K V : Type ℓ} where
  -- With a `maxheight` of at least 1, `initialize` ends with success, and the skip list is valid and
  -- has no records, whatever other memory there is.
  pub initialize_lem :
      (compare : K → K → Comparison) (maxheight pnum pden : ℕ) (nodes : List (Option (Node K V)))
      → 0 < maxheight
      → ((initialize compare maxheight pnum pden nodes).0 ≡ err_ok)
        × IsValid ((initialize compare maxheight pnum pden nodes).1) []
  unfolding initialize
  initialize_lem compare maxheight pnum pden nodes h = (
    refl,
    record {
      head = length nodes;
      head_at = refl;
      head_content = ap content_of (at-append_end nodes _);
      cursor = λ j le. (
        ap (λ o. pointer_of o j) (at-append_end nodes _)
            ∙ get_elem?-replicate maxheight none j (omega arith),
        tt,
      );
      stored = record { lower = tt };
      low = record { lower = tt };
      distinct = (tt, tt);
      sorted = tt;
    },
  )
