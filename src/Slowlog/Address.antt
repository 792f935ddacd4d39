-- ===== src/Slowlog/Address.antt =====
-- The host that findSlowlogAddress finds.
-- The hosts of all replica sets that have an entry of the query.
use mongo_overview_tool.Base.Maps.{or_else}
use mongo_overview_tool.Slowlog.{
  has_query, HostSlowlogSummary, ReplicaSetSlowlogSummary, find_slowlog_address, address_of_sets,
  address_of_hosts,
}
use mongo_overview_tool.Base.{
  sym, ◌∙◌, ap, Bool, map, concat, Bool-cases, ◌++◌, ◌≡◌, any, keep, Option, List, String, ◌∷◌,
  refl, inr, inl, some, none, [],
}

abbrev pub hosts_with : String → String → List ReplicaSetSlowlogSummary → List HostSlowlogSummary
hosts_with db query_hash replica_sets =
    keep (λ host. any (has_query db query_hash) host.databases)
      (concat (map (λ r. r.hosts) replica_sets))

abbrev pub first_address : List HostSlowlogSummary → Option String
first_address [] = none
first_address (host ∷ hosts) = some host.address

abbrev pub or_no_address : Option String → String
or_no_address none = ""
or_no_address (some address) = address

abbrev hosts_kept : String → String → List HostSlowlogSummary → List HostSlowlogSummary
hosts_kept db query_hash hosts = keep (λ host. any (has_query db query_hash) host.databases) hosts

hosts_lem :
    (db query_hash : String) (hosts : List HostSlowlogSummary)
    → address_of_hosts db query_hash hosts ≡ first_address (hosts_kept db query_hash hosts)
unfolding address_of_hosts keep
hosts_lem db query_hash [] = refl
hosts_lem db query_hash (host ∷ hosts) =
    elim (Bool-cases (any (has_query db query_hash) host.databases)) [
      | inl e ↦ rw e refl
      | inr e ↦ rw e (hosts_lem db query_hash hosts)
    ]

first-append :
    (a b : List HostSlowlogSummary)
    → first_address (a ++ b) ≡ or_else (first_address a) (first_address b)
first-append [] b = refl
first-append (host ∷ hosts) b = refl

keep-append :
    (p : HostSlowlogSummary → Bool) (a b : List HostSlowlogSummary)
    → keep p (a ++ b) ≡ keep p a ++ keep p b
unfolding keep
keep-append p [] b = refl
keep-append p (host ∷ hosts) b = elim (Bool-cases (p host)) [
  | inl e ↦ rw e (rw (keep-append p hosts b) refl)
  | inr e ↦ rw e (keep-append p hosts b)
]

sets_lem :
    (db query_hash : String) (replica_sets : List ReplicaSetSlowlogSummary)
    → address_of_sets db query_hash replica_sets
      ≡ first_address (hosts_with db query_hash replica_sets)
unfolding address_of_sets keep
sets_lem db query_hash [] = refl
sets_lem db query_hash (r ∷ rs) =
    ap (λ o. or_else o (address_of_sets db query_hash rs)) (hosts_lem db query_hash r.hosts)
    ∙ ap (or_else (first_address (hosts_kept db query_hash r.hosts))) (sets_lem db query_hash rs)
    ∙ sym (
        ap first_address (
          keep-append (λ host. any (has_query db query_hash) host.databases) r.hosts
            (concat (map (λ r. r.hosts) rs)))
        ∙ first-append (hosts_kept db query_hash r.hosts) (hosts_with db query_hash rs))

-- The address is that of the first host, over the replica sets in order, that has an entry of the
-- query in a summary of the database, and empty if there is none.
pub find_slowlog_address_lem :
    (replica_sets : List ReplicaSetSlowlogSummary) (db query_hash : String)
    → find_slowlog_address replica_sets db query_hash
      ≡ or_no_address (first_address (hosts_with db query_hash replica_sets))
unfolding find_slowlog_address
find_slowlog_address_lem replica_sets db query_hash =
    ap or_no_address (sets_lem db query_hash replica_sets)
