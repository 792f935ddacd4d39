-- ===== src/Session.antt =====
-- pkg/mot/session.go: a collector session, which its goroutines share. The slots for remote
-- operations are in Session/Slots.antt, the cache of derived connections in
-- Session/Connections.antt, and the statistics of capabilities in Session/Capabilities.antt.
pub mod Slots
pub mod Connections
pub mod Capabilities
use mongo_overview_tool.Base.{ℕ, String, Bool, true, false, Option, none, some, if◌then◌else◌, ◌==◌}
use mongo_overview_tool.Base.Int.{ℤ, pos, pos_part, ltb_ℤ}
use mongo_overview_tool.Errors.{Result, ok, err, Error, sentinel, invalid, collector_session_closed}

abbrev pub default_collector_session_concurrency : ℤ
default_collector_session_concurrency = pos 4

-- The number of slots of a new session. The error of the client's connection, if it has none, is
-- an argument.
unfoldable pub new_collector_session : Option Error → ℤ → Result ℕ
new_collector_session (some e) max_concurrency = err e
new_collector_session none max_concurrency =
    if ltb_ℤ max_concurrency (pos 0)
    then err (invalid "max concurrency must not be negative")
    else if pos_part max_concurrency == 0
    then ok (pos_part default_collector_session_concurrency)
    else ok (pos_part max_concurrency)

-- `ready` says that the session and its client are not nil.
unfoldable pub require_open : Bool → Bool → Option Error
require_open false closed = some (invalid "collector session is not initialized")
require_open true true = some (sentinel collector_session_closed)
require_open true false = none
