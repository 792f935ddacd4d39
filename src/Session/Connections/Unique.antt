-- ===== src/Session/Connections/Unique.antt =====
-- No two connections of one key stand in a session's cache.
use mongo_overview_tool.Base.{
  ℕ, ◌++◌, List, [], String, ◌+◌, ◌≤◌, Bool, true, false, ◌∷◌, Option, none, some, count,
  count-append, ◌≡◌, refl, ap, ◌∙◌, arith, if◌then◌else◌, eq_iff,
}
use mongo_overview_tool.Session.Connections.{
  Connection, put_connection, delivered_again, Key, Connections, has_key, same_key, of_key,
  store_loaded, begin_close, Step, Reachable, same_flag, hit, begin_load, connect_fails, connect,
  stored, close, close_one, start, next,
}

same_flag_lem : (a b : Option Bool) → same_flag a b ≡ true → a ≡ b
same_flag_lem none none h = refl
same_flag_lem none (some b) h = ground arith
same_flag_lem (some true) none h = ground arith
same_flag_lem (some false) none h = ground arith
same_flag_lem (some true) (some true) h = refl
same_flag_lem (some true) (some false) h = ground arith
same_flag_lem (some false) (some true) h = ground arith
same_flag_lem (some false) (some false) h = refl

abbrev key_of : String → String → Option Bool → Key
key_of address replica_set direct = record {
  address = address;
  replica_set = replica_set;
  direct = direct;
}

same_key_lem : (a b : Key) → same_key a b ≡ true → a ≡ b
same_key_lem a b h =
    let x : a.address ≡ b.address = (eq_iff a.address b.address).0 (ground arith) in
    let y : a.replica_set ≡ b.replica_set = (eq_iff a.replica_set b.replica_set).0 (ground arith) in
    let z : a.direct ≡ b.direct = same_flag_lem a.direct b.direct (ground arith) in
    ap (λ address. key_of address a.replica_set a.direct) x
    ∙ ap (λ replica_set. key_of b.address replica_set a.direct) y
    ∙ ap (λ direct. key_of b.address b.replica_set direct) z

absent : (here : Bool) (n : ℕ) → (if here then 1 else 0) + n ≡ 0 → (here ≡ false) × (n ≡ 0)
absent here n h = (ground arith, ground arith)

in_tail :
    (here added : Bool) (after before : ℕ)
    → after ≡ (if added then 1 else 0) + before
    → (if here then 1 else 0) + after
      ≡ (if added then 1 else 0) + ((if here then 1 else 0) + before)
in_tail here added after before h = omega (arith, h)

-- Where a key has no connection, storing one overwrites none.
pub count-put_connection :
    (p : Key × Connection → Bool) (key : Key) (conn : Connection)
    (entries : List (Key × Connection))
    → count (has_key key) entries ≡ 0
    → count p (put_connection key conn entries) ≡ count p ((key, conn) ∷ entries)
unfolding count put_connection
count-put_connection p key conn [] h = refl
count-put_connection p key conn (e ∷ es) h =
    let none_here = absent (has_key key e) (count (has_key key) es) h in
    rw none_here.0 (
      in_tail (p e) (p (key, conn)) _ (count p es) (count-put_connection p key conn es none_here.1))

same_flag_self : (a : Option Bool) → same_flag a a ≡ true
same_flag_self none = refl
same_flag_self (some true) = refl
same_flag_self (some false) = refl

same_key_self : (key : Key) → same_key key key ≡ true
same_key_self key = ground (
  arith,
  eq_iff key.address key.address,
  eq_iff key.replica_set key.replica_set,
  same_flag_self key.direct,
)

-- A connection that waits to be stored is the only one of its key.
pub loaded_alone :
    (s : Connections) (before : List (Key × Connection)) (key : Key) (conn : Connection)
    (after : List (Key × Connection))
    → s.loaded ≡ before ++ ((key, conn) ∷ after)
    → of_key key s ≤ 1
    → count (has_key key) s.cache ≡ 0
unfolding count
loaded_alone s before key conn after h u = ground (
  arith,
  ap (count (has_key key)) h,
  count-append (has_key key) before ((key, conn) ∷ after),
  same_key_self key,
)

abbrev pub IsUnique : Connections → Type 0
IsUnique s = (key : Key) → of_key key s ≤ 1

begun :
    (s : Connections) (key other : Key) (same : Bool)
    → same_key other key ≡ same
    → of_key key s ≡ 0
    → of_key other s ≤ 1
    → of_key other s + (if same then 1 else 0) ≤ 1
begun s key other false e h u = omega arith
begun s key other true e h u = omega (arith, ap (λ k. of_key k s) (same_key_lem other key e))

Step-IsUnique : (s t : Connections) → Step s t → IsUnique s → IsUnique t
unfolding count store_loaded begin_close
Step-IsUnique _ _ (hit s key h) u = u
Step-IsUnique _ _ (delivered_again s h) u = u
Step-IsUnique _ _ (begin_load s key h) u = λ k. ground (arith, begun s key k _ refl h (u k))
Step-IsUnique _ _ (connect_fails s before key after h) u = λ k. omega (
  arith,
  u k,
  ap (count (same_key k)) h,
  count-append (same_key k) before (key ∷ after),
  count-append (same_key k) before after,
)
Step-IsUnique _ _ (connect s before key after h) u = λ k. omega (
  arith,
  u k,
  ap (count (same_key k)) h,
  count-append (same_key k) before (key ∷ after),
  count-append (same_key k) before after,
)
Step-IsUnique _ _ (stored s before key conn after h) u = λ k. ground (
  arith,
  u k,
  ap (count (has_key k)) h,
  count-append (has_key k) before ((key, conn) ∷ after),
  count-append (has_key k) before after,
  count-put_connection (has_key k) key conn s.cache
      (loaded_alone s before key conn after h (u key)),
)
Step-IsUnique _ _ (close s h) u = λ k. omega (arith, u k)
Step-IsUnique _ _ (close_one s c others h) u = u

pub all-IsUnique : (s : Connections) → Reachable s → IsUnique s
unfolding count
all-IsUnique _ start = λ key. omega arith
all-IsUnique _ (next s t r step) = Step-IsUnique s t step (all-IsUnique s r)

-- For each key of an address, a replica set and a direct option, a session never has more than one
-- connection in its cache, and none there while another one is being made.
pub one_connection :
    (s : Connections) (key : Key)
    → Reachable s
    → count (has_key key) s.cache + count (has_key key) s.loaded + count (same_key key) s.loading
      ≤ 1
one_connection s key r = all-IsUnique s r key
