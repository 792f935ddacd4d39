-- ===== src/Session/Connections/Leaks.antt =====
-- No derived connection of a session is lost.
use mongo_overview_tool.Session.Connections.Unique.{
  loaded_alone, count-put_connection, all-IsUnique, IsUnique,
}
use mongo_overview_tool.Base.{
  ◌<◌, ltb, ℕ, ◌+◌, ◌==◌, true, List, [], ◌∷◌, count, count-append, length, ◌≡◌, refl, ap, arith,
  if◌then◌else◌,
}
use mongo_overview_tool.Session.Connections.{
  delivered_again, Key, Connection, Connections, connections_of, store_loaded, begin_close, Step,
  Reachable, hit, begin_load, connect_fails, connect, stored, close, close_one, start, next,
}

nil_of_length : {A : Type 0} → (xs : List A) → length xs ≡ 0 → xs ≡ []
nil_of_length [] h = refl
nil_of_length (x ∷ xs) h = ground arith

-- In how many places a connection is.
abbrev pub places : Connection → Connections → ℕ
places conn s =
    count (λ entry. entry.1 == conn) s.cache
    + count (λ entry. entry.1 == conn) s.loaded
    + count (λ c. c == conn) s.closing
    + count (λ c. c == conn) s.destroyed

-- Every connection that was made, and no other, is in one place; a session that is closed has an
-- empty cache.
abbrev pub IsKept : Connections → Type 0
IsKept s =
    ((conn : Connection) → places conn s ≡ (if ltb conn s.made then 1 else 0))
    × (if s.closed then length s.cache else 0) ≡ 0

count-connections_of :
    (conn : Connection) (entries : List (Key × Connection))
    → count (λ c. c == conn) (connections_of entries) ≡ count (λ entry. entry.1 == conn) entries
unfolding count
count-connections_of conn [] = refl
count-connections_of conn (e ∷ es) = omega (arith, count-connections_of conn es)

-- A store loses no connection, since no key ever has two.
Step-IsKept : (s t : Connections) → Step s t → IsUnique s → IsKept s → IsKept t
unfolding count store_loaded begin_close
Step-IsKept _ _ (hit s key h) u k = k
Step-IsKept _ _ (delivered_again s h) u k = k
Step-IsKept _ _ (begin_load s key h) u k = k
Step-IsKept _ _ (connect_fails s before key after h) u k = k
Step-IsKept _ _ (connect s before key after h) u k = (λ conn. ground (arith, k.0 conn), k.1)
Step-IsKept _ _ (stored s before key c after h) u k = (
  λ conn.
      let p = λ (entry : Key × Connection). entry.1 == conn in
      ground (
        arith,
        k.0 conn,
        ap (count p) h,
        count-append p before ((key, c) ∷ after),
        count-append p before after,
        count-put_connection p key c s.cache (loaded_alone s before key c after h (u key)),
      ),
  ground (arith, k.1),
)
Step-IsKept _ _ (close s h) u k = (
  λ conn. omega (
    arith,
    k.0 conn,
    count-append (λ c. c == conn) (connections_of s.cache) s.closing,
    count-connections_of conn s.cache,
  ),
  refl,
)
Step-IsKept _ _ (close_one s c others h) u k =
    (λ conn. omega (arith, k.0 conn, ap (count (λ i. i == conn)) h), k.1)

all-IsKept : (s : Connections) → Reachable s → IsKept s
unfolding count
all-IsKept _ start = (λ conn. ground arith, refl)
all-IsKept _ (next s t r step) = Step-IsKept s t step (all-IsUnique s r) (all-IsKept s r)

-- Every connection that a session made is at any time in exactly one place: cached, on its way into
-- the cache, on its way to be closed, or closed. So no connection is lost, and none is closed twice.
pub connections_kept :
    (s : Connections) (conn : Connection) → Reachable s → conn < s.made → places conn s ≡ 1
connections_kept s conn r h = ground (arith, (all-IsKept s r).0 conn)

-- Once a session is closed and its goroutines have stored and closed what they held, every
-- connection that was made has been closed exactly once.
pub closed_without_leak :
    (s : Connections) (conn : Connection)
    → Reachable s
    → s.closed ≡ true
    → s.loaded ≡ []
    → s.closing ≡ []
    → conn < s.made
    → count (λ c. c == conn) s.destroyed ≡ 1
unfolding count
closed_without_leak s conn r c l k h =
    let kept = all-IsKept s r in
    let empty = nil_of_length s.cache (ground (arith, kept.1)) in
    ground (
      arith,
      kept.0 conn,
      ap (count (λ entry. entry.1 == conn)) empty,
      ap (count (λ entry. entry.1 == conn)) l,
      ap (count (λ i. i == conn)) k,
    )
