-- ===== src/Errors.antt =====
-- pkg/mot/errors.go, pkg/mongo/errors.go and the two error predicates of pkg/mot/diagnostics.go.
-- A Go `error` is an `Option Error`, and `none` is nil.
pub mod Cancellation
use mongo_overview_tool.Base.{
  ℕ, String, Bool, true, false, ◌||◌, List, [], ◌∷◌, ◌++◌, Option, none, some, ◌==◌, if◌then◌else◌,
  codes, contains, lower,
}
use mongo_overview_tool.Results.{BulkResult}

-- The error values that code compares with: those of the package, and the four that it takes from
-- the context package, the driver and pkg/mongo.
pub data Sentinel : Type 0 where
  invalid_options collection_limit_exceeded index_audit_cursor_invalid : Sentinel
  index_audit_scope_changed unsupported_topology not_sharded dangerous_operation : Sentinel
  cancelled partial_result collector_session_closed : Sentinel
  context_canceled deadline_exceeded no_documents fields_missing : Sentinel

abbrev pub sentinel_index : Sentinel → ℕ
sentinel_index invalid_options = 0
sentinel_index collection_limit_exceeded = 1
sentinel_index index_audit_cursor_invalid = 2
sentinel_index index_audit_scope_changed = 3
sentinel_index unsupported_topology = 4
sentinel_index not_sharded = 5
sentinel_index dangerous_operation = 6
sentinel_index cancelled = 7
sentinel_index partial_result = 8
sentinel_index collector_session_closed = 9
sentinel_index context_canceled = 10
sentinel_index deadline_exceeded = 11
sentinel_index no_documents = 12
sentinel_index fields_missing = 13

-- target == Err…
abbrev pub same_sentinel : Sentinel → Sentinel → Bool
same_sentinel a b = sentinel_index a == sentinel_index b

sentinel_text : Sentinel → String
sentinel_text invalid_options = "invalid options"
sentinel_text collection_limit_exceeded = "collection limit exceeded"
sentinel_text index_audit_cursor_invalid = "index audit cursor invalid"
sentinel_text index_audit_scope_changed = "index audit scope changed"
sentinel_text unsupported_topology = "unsupported topology"
sentinel_text not_sharded = "not sharded"
sentinel_text dangerous_operation = "dangerous operation"
sentinel_text cancelled = "operation cancelled"
sentinel_text partial_result = "partial result"
sentinel_text collector_session_closed = "collector session is closed"
sentinel_text context_canceled = "context canceled"
sentinel_text deadline_exceeded = "context deadline exceeded"
sentinel_text no_documents = "mongo: no documents in result"
sentinel_text fields_missing = "index consistency fields missing"

pub data Error : Type 0 where
  sentinel : Sentinel → Error
  -- errors.New, and fmt.Errorf with no %w
  message : List ℕ → Error
  -- the driver's CommandError: its code and its text
  command : ℕ → List ℕ → Error
  -- fmt.Errorf with one %w: the text before it and behind it
  wrapped : List ℕ → Error → List ℕ → Error
  -- fmt.Errorf("%w: %w", a, b)
  pair : Error → Error → Error
  -- errors.Join
  joined : Error → Error → Error
  -- CollectionLimitError: the text of its message
  collection_limit : List ℕ → Error
  partial : String → BulkResult → Error → Error
  diagnostic_partial : String → Error → Error

-- A value, or the error that a function returns beside a value that is not used.
pub data Result {ℓ} (A : Type ℓ) : Type ℓ where
  ok : A → Result A
  err : Error → Result A

-- errors.Is(err, target), through Unwrap and the Is methods of the package's error types.
unfoldable pub is : Error → Sentinel → Bool
is (sentinel s) t = same_sentinel s t
is (message text) t = false
is (command code text) t = false
is (wrapped before e behind) t = is e t
is (pair a b) t = is a t || is b t
is (joined a b) t = is a t || is b t
is (collection_limit text) t =
    same_sentinel t collection_limit_exceeded || same_sentinel t invalid_options
is (partial op result e) t = same_sentinel t partial_result || is e t
is (diagnostic_partial op e) t = same_sentinel t partial_result || is e t

-- errors.As(err, &commandError): the code of the first CommandError, depth first.
abbrev first_some : Option ℕ → Option ℕ → Option ℕ
first_some none b = b
first_some (some a) b = some a

unfoldable pub command_code : Error → Option ℕ
command_code (sentinel s) = none
command_code (message text) = none
command_code (command code text) = some code
command_code (wrapped before e behind) = command_code e
command_code (pair a b) = first_some (command_code a) (command_code b)
command_code (joined a b) = first_some (command_code a) (command_code b)
command_code (collection_limit text) = none
command_code (partial op result e) = command_code e
command_code (diagnostic_partial op e) = command_code e

-- err.Error()
unfoldable pub error_text : Error → List ℕ
unfolding sentinel_text
error_text (sentinel s) = codes (sentinel_text s)
error_text (message text) = text
error_text (command code text) = text
error_text (wrapped before e behind) = before ++ (error_text e ++ behind)
error_text (pair a b) = error_text a ++ (codes ": " ++ error_text b)
error_text (joined a b) = error_text a ++ (codes "\n" ++ error_text b)
error_text (collection_limit text) = text
error_text (partial op result e) = codes op ++ (codes " partial result: " ++ error_text e)
error_text (diagnostic_partial op e) = codes op ++ codes " partial result"

abbrev pub invalid : String → Error
invalid text = wrapped [] (sentinel invalid_options) (codes ": " ++ codes text)

unfoldable pub wrap_cancelled : Option Error → Option Error
wrap_cancelled none = none
wrap_cancelled (some e) = some (pair (sentinel cancelled) e)

-- The argument is ctx.Err(), and `none` for a nil context.
unfoldable pub context_error : Option Error → Option Error
unfolding wrap_cancelled
context_error ctx = wrap_cancelled ctx

abbrev pub is_context_error : Error → Bool
is_context_error e = is e context_canceled || is e deadline_exceeded

unfoldable pub map_context_error : Option Error → Option Error
unfolding is wrap_cancelled
map_context_error none = none
map_context_error (some e) = if is_context_error e then wrap_cancelled (some e) else some e

abbrev pub code_in : List ℕ → Option ℕ → Bool
code_in codes none = false
code_in [] (some c) = false
code_in (x ∷ xs) (some c) = c == x || code_in xs (some c)

unfoldable pub is_unauthorized_error : Error → Bool
unfolding command_code
is_unauthorized_error e = code_in (13 ∷ 18 ∷ []) (command_code e)

unfoldable pub is_unsupported_diagnostic_error : Error → Bool
unfolding command_code error_text contains lower
is_unsupported_diagnostic_error e =
    code_in (9 ∷ 59 ∷ 115 ∷ 16436 ∷ 168 ∷ 40324 ∷ []) (command_code e)
    || contains (lower (error_text e)) (codes "unrecognized pipeline stage")
    || contains (lower (error_text e)) (codes "no such command")

abbrev contains_any : List ℕ → List String → Bool
contains_any text [] = false
contains_any text (k ∷ ks) = contains text (codes k) || contains_any text ks

abbrev retryable_keywords : List String
retryable_keywords =
    "connection reset" ∷ "connection refused" ∷ "i/o timeout" ∷ "broken pipe"
    ∷ "no reachable servers" ∷ "EOF" ∷ "socket was unexpectedly closed" ∷ "server selection timeout"
    ∷ []

-- pkg/mongo: IsRetryableCursorError
unfoldable pub is_retryable_cursor_error : Option Error → Bool
unfolding is command_code error_text contains
is_retryable_cursor_error none = false
is_retryable_cursor_error (some e) =
    if is_context_error e
    then false
    else code_in (43 ∷ 11600 ∷ 11602 ∷ 189 ∷ 91 ∷ 262 ∷ []) (command_code e)
      || contains_any (error_text e) retryable_keywords
