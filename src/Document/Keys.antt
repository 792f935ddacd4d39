-- ===== src/Document/Keys.antt =====
-- What the conversion of a Go map to a document keeps.
use mathlib.Core.List.{Perm}
use mongo_overview_tool.Base.{codes, lex_lt, str_lt, lex_lt_asymm, lex_lt_cotrans}
use mongo_overview_tool.Base.Sort.{IsOrder, IsSorted, sort_stable-IsSorted, sort_stable-perm}
use mongo_overview_tool.Document.{Document, key_less, map_to_bsond}

module _ {Any : Type 0} where
  key_less-IsOrder : IsOrder (key_less {Any = Any})
  unfolding lex_lt str_lt
  key_less-IsOrder = record {
    asymm = λ a b h. lex_lt_asymm (codes a.0) (codes b.0) h;
    cotrans = λ a b c h. lex_lt_cotrans (codes a.0) (codes b.0) (codes c.0) h;
  }

  -- The document of a Go map holds exactly the entries of the map, ordered by their keys.
  pub map_to_bsond_lem :
      (entries : Document Any)
      → Perm (map_to_bsond entries) entries × IsSorted key_less (map_to_bsond entries)
  unfolding map_to_bsond
  map_to_bsond_lem entries =
      (sort_stable-perm key_less entries, sort_stable-IsSorted key_less key_less-IsOrder entries)
