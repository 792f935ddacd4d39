-- ===== src/Session/Connections.antt =====
-- pkg/mot/session.go: derivedConnection and Close, as steps of many goroutines on the cache of
-- connections.
pub mod Leaks
pub mod Unique
use mongo_overview_tool.Base.{
  ◌≤◌, any, ℕ, zero, suc, ◌+◌, String, Bool, true, false, ◌&&◌, List, [], ◌∷◌, ◌++◌, Option, none,
  some, ◌==◌, str_eq, count, ◌≡◌, map, if◌then◌else◌,
}

-- derivedConnectionKey: `direct` is none where the option is not set.
pub record Key : Type 0 where
  pub address : String
  pub replica_set : String
  pub direct : Option Bool

abbrev pub same_flag : Option Bool → Option Bool → Bool
same_flag none none = true
same_flag (some true) (some true) = true
same_flag (some false) (some false) = true
same_flag _ _ = false

abbrev pub same_key : Key → Key → Bool
same_key a b =
    str_eq a.address b.address
    && (str_eq a.replica_set b.replica_set && same_flag a.direct b.direct)

-- A connection is a number: the connections of a factory are counted as they are made.
abbrev pub Connection : Type 0
Connection = ℕ

-- The session, and what its goroutines are at: the keys whose load found no connection and is at
-- Connect, the connections that a load made and did not store yet, those that Close took out of the
-- cache and did not close yet, and those that are closed.
pub record Connections : Type 0 where
  pub closed : Bool
  pub cache : List (Key × Connection)
  pub loading : List Key
  pub loaded : List (Key × Connection)
  pub closing : List Connection
  pub destroyed : List Connection
  pub made : ℕ
  pub opened : ℕ
  pub hits : ℕ
  pub failures : ℕ

abbrev pub no_connections : Connections
no_connections = record {
  closed = false;
  cache = [];
  loading = [];
  loaded = [];
  closing = [];
  destroyed = [];
  made = 0;
  opened = 0;
  hits = 0;
  failures = 0;
}

abbrev pub has_key : Key → Key × Connection → Bool
has_key key entry = same_key key entry.0

-- The connections of a key that are cached, on their way into the cache, or being made.
abbrev pub of_key : Key → Connections → ℕ
of_key key s =
    count (has_key key) s.cache + count (has_key key) s.loaded + count (same_key key) s.loading

abbrev pub connections_of : List (Key × Connection) → List Connection
connections_of entries = map (λ entry. entry.1) entries

-- connections[key] = created: the connection that the key had before is overwritten.
unfoldable pub put_connection : Key → Connection → List (Key × Connection) → List (Key × Connection)
put_connection key conn [] = (key, conn) ∷ []
put_connection key conn (entry ∷ rest) =
    let later = entry ∷ put_connection key conn rest in
    if has_key key entry then (key, conn) ∷ rest else later

-- The critical section behind Connect: a session that was closed meanwhile closes the connection.
unfoldable pub store_loaded : Key → Connection → List (Key × Connection) → Connections → Connections
unfolding put_connection
store_loaded key conn others s =
    if s.closed then record s { loaded = others; destroyed = conn ∷ s.destroyed } else record s {
      loaded = others;
      cache = put_connection key conn s.cache;
      opened = suc s.opened;
    }

-- The function of closeOnce: it takes the connections out of the cache.
unfoldable pub begin_close : Connections → Connections
begin_close s = record s {
  closed = true;
  cache = [];
  closing = connections_of s.cache ++ s.closing;
}

-- One step of one goroutine. singleflight runs one load of a key at a time, so a load that looks
-- the key up in vain begins to connect only if no other load of the key is on its way. A cached
-- connection is a hit, and so is a connection that was made once and is delivered to another
-- goroutine that waited for the same load.
pub data Step : Connections → Connections → Type 0 where
  hit :
      (s : Connections) (key : Key)
      → any (has_key key) s.cache ≡ true
      → Step s (record s { hits = suc s.hits })
  delivered_again : (s : Connections) → 1 ≤ s.made → Step s (record s { hits = suc s.hits })
  begin_load :
      (s : Connections) (key : Key)
      → of_key key s ≡ 0
      → Step s (record s { loading = key ∷ s.loading })
  connect_fails :
      (s : Connections) (before : List Key) (key : Key) (after : List Key)
      → s.loading ≡ before ++ (key ∷ after)
      → Step s (record s { loading = before ++ after; failures = suc s.failures })
  connect :
      (s : Connections) (before : List Key) (key : Key) (after : List Key)
      → s.loading ≡ before ++ (key ∷ after)
      → Step s (record s {
        loading = before ++ after;
        loaded = (key, s.made) ∷ s.loaded;
        made = suc s.made;
      })
  stored :
      (s : Connections) (before : List (Key × Connection)) (key : Key) (conn : Connection)
      (after : List (Key × Connection))
      → s.loaded ≡ before ++ ((key, conn) ∷ after)
      → Step s (store_loaded key conn (before ++ after) s)
  close : (s : Connections) → s.closed ≡ false → Step s (begin_close s)
  close_one :
      (s : Connections) (conn : Connection) (others : List Connection)
      → s.closing ≡ conn ∷ others
      → Step s (record s { closing = others; destroyed = conn ∷ s.destroyed })

pub data Reachable : Connections → Type 0 where
  start : Reachable no_connections
  next : (s t : Connections) → Reachable s → Step s t → Reachable t
