-- ===== src/Tests/IndexAudit.antt =====
-- Runs of the index audit on a collection with three indexes on two nodes.
use mongo_overview_tool.Base.Sort.{sort_stable}
use mongo_overview_tool.Base.Maps.{head_holds}
use mongo_overview_tool.IndexAudit.Catalog.{
  index_collection_refs_lem, is_limited, accepted, selection,
}
use mongo_overview_tool.IndexAudit.Redundant.{
  evaluate_index_audit_collection_redundant, is_covered, names_pair,
}
use mongo_overview_tool.Errors.{ok}
use mongo_overview_tool.IndexAudit.Unused.{
  evaluate_index_audit_collection_usage, is_observed, named,
}
use mongo_overview_tool.Diagnostics.Sanitize.{says, evidence_says, has}
use mongo_overview_tool.Diagnostics.{is_sensitive_diagnostic_key, DiagnosticFinding}
use mongo_overview_tool.Base.Int.{is_zero, pos, ℤ}
use mongo_overview_tool.IndexAudit.Evaluate.{evaluate_index_audit_collection}
use mongo_overview_tool.IndexAudit.{
  ref_less, is_nil, is_over, includes_index_check, redundant, IndexCollectionMetadata, unused,
  IndexObservation, index_collection_refs, IndexAuditOptions, CollectionIndexAudit,
}
use mongo_overview_tool.Base.{
  all, length, not, ◌&&◌, ◌≡◌, str_eq, any, keep, List, String, ◌∷◌, if◌then◌else◌, refl, false,
  true, some, none, [],
}

abbrev observation : String → List (String × String) → String → ℤ → IndexObservation
observation name key host ops = record {
  name = name;
  key = key;
  host = host;
  shard = "";
  ops = ops;
  since = 1_000;
  size_bytes = none;
  unique = false;
  sparse = false;
  hidden = false;
  partial = false;
  wildcard_projection = false;
  collation_fingerprint = "";
  partial_filter_fingerprint = "";
  wildcard_projection_fingerprint = "";
  expire_after_seconds = none;
  special_type = "";
  building = false;
}

abbrev by_status : List (String × String)
by_status = ("status", "1") ∷ []

abbrev by_status_date : List (String × String)
by_status_date = ("status", "1") ∷ ("date", "1") ∷ []

abbrev indexes : List IndexObservation
indexes =
    observation "status_1" by_status "a" (pos 0)
    ∷ observation "status_1_date_1" by_status_date "a" (pos 7)
    ∷ observation "status_1" by_status "b" (pos 0)
    ∷ observation "status_1_date_1" by_status_date "b" (pos 0)
    ∷ []

abbrev orders : CollectionIndexAudit
orders = record {
  namespace = "shop.orders";
  sharded = false;
  state = none;
  strategy = none;
  expected_shards = [];
  observed_shards = [];
  coverage = none;
  fallback = none;
  differences = [];
  consistency_statuses = [];
  data_size_bytes = none;
  index_size_bytes = none;
  index_to_data_ratio = none;
  indexes = indexes;
  findings = [];
}

abbrev options : IndexAuditOptions
options = record {
  databases = "shop" ∷ "stock" ∷ [];
  all_databases = false;
  collections = [];
  checks = unused ∷ redundant ∷ [];
  include_system_db = false;
  min_observation = pos 500;
  max_collections = pos 3;
  concurrency = pos 1;
}

abbrev findings : List DiagnosticFinding
findings = evaluate_index_audit_collection orders 2 options 2_000 (true ∷ [])

unused_run : any (says "index.unused_candidate" "indexName" "status_1") findings ≡ true
unfolding evaluate_index_audit_collection any has evidence_says is_sensitive_diagnostic_key
unused_run = refl

evaluate_index_audit_collection_usage_example :
    let found = keep (named "status_1") orders.indexes in
    let asked =
      includes_index_check options.checks unused
      && (not (is_nil found) && not (str_eq "status_1" "_id_")) in
    let observed = is_observed options 2_000 true 2 found in
    (any (says "index.unused_candidate" "indexName" "status_1") findings
      ≡ (asked && (observed && all (λ o. is_zero o.ops) found)))
    × (any (says "index.usage_inconclusive" "indexName" "status_1") findings
        ≡ (asked && not observed))
evaluate_index_audit_collection_usage_example =
    evaluate_index_audit_collection_usage orders 2 options 2_000 (true ∷ []) "status_1"

redundant_run :
    any (has "index.redundant_prefix_candidate" (names_pair "status_1" "status_1_date_1")) findings
    ≡ true
unfolding evaluate_index_audit_collection any has evidence_says is_sensitive_diagnostic_key
redundant_run = refl

evaluate_index_audit_collection_redundant_example :
    any (has "index.redundant_prefix_candidate" (names_pair "status_1" "status_1_date_1")) findings
    ≡ (includes_index_check options.checks redundant
        && head_holds
            (λ a. head_holds (λ b. is_covered a b) (keep (named "status_1_date_1") indexes))
            (keep (named "status_1") indexes))
evaluate_index_audit_collection_redundant_example =
    evaluate_index_audit_collection_redundant orders 2 options 2_000 (true ∷ []) "status_1"
      "status_1_date_1"

abbrev metadata : String → List IndexCollectionMetadata
metadata database =
    if str_eq database "shop"
    then record { name = "orders"; type = "collection" }
      ∷ record { name = "items"; type = "collection" }
      ∷ []
    else record { name = "parts"; type = "view" } ∷ []

abbrev databases : List String
databases = "admin" ∷ "shop" ∷ "stock" ∷ "test" ∷ []

index_collection_refs_example :
    let result = index_collection_refs (λ d. ok (metadata d)) options (ok databases) in
    let whole = selection metadata options databases in
    (accepted result
      ≡ (if is_over options (length whole) then none else some (sort_stable ref_less whole)))
    × (is_limited result ≡ is_over options (length whole))
index_collection_refs_example = index_collection_refs_lem metadata options databases
