-- ===== src/Tests/Errors.antt =====
-- Runs of Errors.antt and Document.antt.
use mongo_overview_tool.Base.{str_lt, ◌≡◌, refl, ℕ, [], ◌∷◌, Option, some, ◌||◌, ◌&&◌}
use mongo_overview_tool.Errors.{
  Error, sentinel, wrapped, cancelled, context_canceled, map_context_error, same_sentinel,
}
use mongo_overview_tool.Errors.Cancellation.{is?, is_context?, is-map_context_error}
use mongo_overview_tool.Document.{Document, map_to_bsond}

-- The context's error behind a text of the driver.
abbrev stopped : Option Error
stopped = some (wrapped [] (sentinel context_canceled) [])

is-map_context_error_example :
    is? (map_context_error stopped) cancelled
    ≡ (is? stopped cancelled || (is_context? stopped && same_sentinel cancelled cancelled))
is-map_context_error_example = is-map_context_error stopped cancelled

abbrev entries : Document ℕ
entries = ("status", 1) ∷ ("_id", 2) ∷ ("name", 3) ∷ []

map_to_bsond_run : map_to_bsond entries ≡ ("_id", 2) ∷ ("name", 3) ∷ ("status", 1) ∷ []
unfolding map_to_bsond str_lt
map_to_bsond_run = refl
