-- ===== src/Document.antt =====
-- pkg/mot/document.go, and isOperatorUpdate of pkg/mot/bulk.go: the documents that a caller gives.
pub mod Keys
use mongo_overview_tool.Base.{
  String, Bool, true, false, ◌&&◌, List, [], ◌∷◌, codes, starts_with, str_lt, str_append,
}
use mongo_overview_tool.Base.Sort.{sort_stable}
use mongo_overview_tool.Errors.{
  Result, ok, err, Error, sentinel, invalid, wrapped, pair, invalid_options,
}

-- bson.D: keys with values, in order.
abbrev pub Document : Type 0 → Type 0
Document Any = List (String × Any)

-- The cases of the type switch. A Go map is given by its entries, each key once, in any order.
pub data Input (Any : Type 0) : Type 0 where
  nil : Input Any
  text : String → Input Any
  ordered : Document Any → Input Any
  unordered : Document Any → Input Any
  -- another type, by its name
  unsupported : String → Input Any

module _ {Any : Type 0} where
  abbrev pub key_less : String × Any → String × Any → Bool
  key_less a b = str_lt a.0 b.0

  unfoldable pub map_to_bsond : Document Any → Document Any
  unfolding sort_stable
  map_to_bsond entries = sort_stable key_less entries

  abbrev parse_failed : Result (Document Any) → Result (Document Any)
  parse_failed (ok document) = ok document
  parse_failed (err e) =
      err (pair (sentinel invalid_options) (wrapped (codes "parse document: ") e []))

  -- The parser of a text is an argument: it is the driver's, behind pkg/mongo/bson.go.
  unfoldable pub parse_document :
      (String → Result (Document Any)) → Input Any → Result (Document Any)
  unfolding map_to_bsond
  parse_document parse nil = ok []
  parse_document parse (text source) = parse_failed (parse source)
  parse_document parse (ordered document) = ok document
  parse_document parse (unordered entries) = ok (map_to_bsond entries)
  parse_document parse (unsupported name) =
      err (invalid (str_append "unsupported document input type " name))

  abbrev pub is_empty_document : Document Any → Bool
  is_empty_document [] = true
  is_empty_document (e ∷ es) = false

  -- The loop over the entries; a key with no first character is no operator either.
  abbrev all_operators : Document Any → Bool
  all_operators [] = true
  all_operators ((key, value) ∷ es) = starts_with (codes key) (codes "$") && all_operators es

  unfoldable pub is_operator_update : Document Any → Bool
  unfolding starts_with
  is_operator_update [] = false
  is_operator_update (e ∷ es) = all_operators (e ∷ es)
