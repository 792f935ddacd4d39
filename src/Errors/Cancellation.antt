-- ===== src/Errors/Cancellation.antt =====
-- What `mapContextError` and `contextError` of pkg/mot/errors.go do to an error.
use mongo_overview_tool.Base.{◌≡◌, refl, Bool, false, ◌||◌, ◌&&◌, Option, none, some, arith}
use mongo_overview_tool.Errors.{
  Sentinel, Error, cancelled, is, same_sentinel, is_context_error, map_context_error,
}

-- errors.Is on a Go error that may be nil.
abbrev pub is? : Option Error → Sentinel → Bool
is? none t = false
is? (some e) t = is e t

abbrev pub is_context? : Option Error → Bool
is_context? none = false
is_context? (some e) = is_context_error e

-- Mapping keeps every target that the error had, and adds ErrCancelled exactly to an error
-- that comes from the context.
pub is-map_context_error :
    (e : Option Error) (t : Sentinel)
    → is? (map_context_error e) t ≡ (is? e t || (is_context? e && same_sentinel cancelled t))
unfolding map_context_error
is-map_context_error none t = refl
is-map_context_error (some e) t = ground arith
