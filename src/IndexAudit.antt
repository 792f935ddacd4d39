-- ===== src/IndexAudit.antt =====
-- pkg/mot/index_audit.go: the options of the index audit, the catalog that it selects and the merge
-- of its two halves. The findings on one collection are in IndexAudit/Evaluate.antt.
pub mod Catalog
pub mod Evaluate
pub mod Options
pub mod Parts
pub mod Redundant
pub mod Unused
use mongo_overview_tool.Doctor.{default_node_concurrency, second}
use mongo_overview_tool.Consistency.Versions.{Strategy, Fallback}
use mongo_overview_tool.Consistency.{Coverage, Difference, ConsistencyState}
use mongo_overview_tool.Base.Sort.{sort_stable}
use mongo_overview_tool.AuditBatch.{IndexCollectionRef}
use mongo_overview_tool.Errors.{invalid, collection_limit, err, Error, ok, Result}
use mongo_overview_tool.Base.Int.{pos_part, is_positive, ltb_ℤ, pos, is_zero, ℤ}
use mongo_overview_tool.Diagnostics.{DiagnosticFinding, CollectorStatus, sanitize_and_sort_findings}
use mongo_overview_tool.Base.{
  length, ltb, ◌&&◌, map, ◌*◌, ◌++◌, keep, ◌||◌, codes, not, Option, str_eq, decimal, lex_lt, all,
  any, List, Bool, ◌∷◌, if◌then◌else◌, false, true, [], ℕ, String,
}

pub data IndexAuditCheck : Type 0 where
  unused redundant space building consistency : IndexAuditCheck
  other : String → IndexAuditCheck

abbrev pub check_text : IndexAuditCheck → String
check_text unused = "unused"
check_text redundant = "redundant"
check_text space = "space"
check_text building = "building"
check_text consistency = "consistency"
check_text (other value) = value

abbrev pub same_check : IndexAuditCheck → IndexAuditCheck → Bool
same_check a b = str_eq (check_text a) (check_text b)

pub record IndexAuditOptions : Type 0 where
  pub databases : List String
  pub all_databases : Bool
  pub collections : List String
  pub checks : List IndexAuditCheck
  pub include_system_db : Bool
  pub min_observation : ℤ
  pub max_collections : ℤ
  pub concurrency : ℤ

-- A field of `key` is a name and an order. `since` is a time, 0 for the zero one.
pub record IndexObservation : Type 0 where
  pub name : String
  pub key : List (String × String)
  pub host : String
  pub shard : String
  pub ops : ℤ
  pub since : ℕ
  pub size_bytes : Option ℤ
  pub unique : Bool
  pub sparse : Bool
  pub hidden : Bool
  pub partial : Bool
  pub wildcard_projection : Bool
  pub collation_fingerprint : String
  pub partial_filter_fingerprint : String
  pub wildcard_projection_fingerprint : String
  pub expire_after_seconds : Option ℤ
  pub special_type : String
  pub building : Bool

-- `none` is a state, a strategy or a coverage that was not set. A ratio is the quotient of two integers.
pub record CollectionIndexAudit : Type 0 where
  pub namespace : String
  pub sharded : Bool
  pub state : Option ConsistencyState
  pub strategy : Option Strategy
  pub expected_shards : List String
  pub observed_shards : List String
  pub coverage : Option Coverage
  pub fallback : Option Fallback
  pub differences : List Difference
  pub consistency_statuses : List CollectorStatus
  pub data_size_bytes : Option ℤ
  pub index_size_bytes : Option ℤ
  pub index_to_data_ratio : Option (ℤ × ℤ)
  pub indexes : List IndexObservation
  pub findings : List DiagnosticFinding

unfoldable pub includes_index_check : List IndexAuditCheck → IndexAuditCheck → Bool
unfolding any
includes_index_check checks target = any (λ check. same_check check target) checks

unfoldable pub string_included : List String → String → Bool
unfolding any
string_included values target = any (λ value. str_eq value target) values

abbrev pub system_databases : List String
system_databases = "admin" ∷ "config" ∷ "local" ∷ []

unfoldable pub is_system_database : String → Bool
unfolding string_included
is_system_database database = string_included system_databases database

unfoldable pub includes_general_index_check : List IndexAuditCheck → Bool
unfolding any
includes_general_index_check checks = any (λ check. not (same_check check consistency)) checks

unfoldable pub merge_index_audit_collections :
    CollectionIndexAudit → CollectionIndexAudit → CollectionIndexAudit
unfolding sanitize_and_sort_findings
merge_index_audit_collections checked general =
    if str_eq checked.namespace "" then general else record checked {
      data_size_bytes = general.data_size_bytes;
      index_size_bytes = general.index_size_bytes;
      index_to_data_ratio = general.index_to_data_ratio;
      indexes = checked.indexes ++ general.indexes;
      findings = sanitize_and_sort_findings (checked.findings ++ general.findings);
    }

abbrev pub known_checks : List IndexAuditCheck
known_checks = unused ∷ redundant ∷ space ∷ building ∷ consistency ∷ []

abbrev pub or_default : ℤ → ℤ → ℤ
or_default value default = if is_zero value then default else value

abbrev pub is_nil : {A : Type 0} → List A → Bool
is_nil [] = true
is_nil (x ∷ xs) = false

-- 7 days; 500 is the number of collections, and defaultOverviewNodeConcurrency is 1.
abbrev pub default_index_observation : ℤ
default_index_observation = pos (604_800 * second)

-- The last loop, and the options with their defaults. The text leaves out the unknown check.
unfoldable pub check_checks : IndexAuditOptions → Result IndexAuditOptions
unfolding all any
check_checks opts =
    if all (λ check. any (same_check check) known_checks) opts.checks
    then ok opts
    else err (invalid "unknown index audit check")

unfoldable pub normalize_index_audit_options : IndexAuditOptions → Result IndexAuditOptions
unfolding check_checks
normalize_index_audit_options opts =
    if ltb_ℤ opts.min_observation (pos 0)
      || (ltb_ℤ opts.max_collections (pos 0) || ltb_ℤ opts.concurrency (pos 0))
    then err (invalid "duration, max collections and concurrency must not be negative")
    else if not opts.all_databases && is_nil opts.databases
    then err (invalid "databases or all databases is required")
    else if opts.all_databases && not (is_nil opts.databases)
    then err (invalid "databases and all databases are mutually exclusive")
    else check_checks (record opts {
      min_observation = or_default opts.min_observation default_index_observation;
      max_collections = or_default opts.max_collections (pos 500);
      concurrency = or_default opts.concurrency default_node_concurrency;
      checks = if is_nil opts.checks then known_checks else opts.checks;
    })

pub record IndexCollectionMetadata : Type 0 where
  pub name : String
  pub type : String

abbrev pub namespace_codes : IndexCollectionRef → List ℕ
namespace_codes r = codes r.database ++ (b'.' ∷ codes r.collection)

unfoldable pub ref_less : IndexCollectionRef → IndexCollectionRef → Bool
unfolding lex_lt
ref_less a b = lex_lt (namespace_codes a) (namespace_codes b)

abbrev is_chosen : List String → IndexCollectionMetadata → Bool
is_chosen collections item = is_nil collections || string_included collections item.name

unfoldable pub select_index_collection_refs :
    String → List IndexCollectionMetadata → List String → List IndexCollectionRef
unfolding string_included ref_less sort_stable keep
select_index_collection_refs database metadata collections = sort_stable ref_less (
    map (λ item. record { database = database; collection = item.name; type = item.type })
      (keep (is_chosen collections) metadata))

abbrev pub is_selected : IndexAuditOptions → String → Bool
is_selected opts database =
    (opts.include_system_db || not (is_system_database database))
    && (opts.all_databases || string_included opts.databases database)

-- The text of CollectionLimitError.
unfoldable pub collection_limit_error : ℕ → ℕ → Error
unfolding decimal
collection_limit_error limit observed = collection_limit (
    codes "selected at least "
    ++ (decimal observed ++ (codes " collections, exceeds max " ++ decimal limit)))

abbrev pub is_over : IndexAuditOptions → ℕ → Bool
is_over opts n = is_positive opts.max_collections && ltb (pos_part opts.max_collections) n

-- The loop over the databases; `load` lists the collections of one.
unfoldable pub collect_refs :
    (String → Result (List IndexCollectionMetadata))
    → IndexAuditOptions
    → List String
    → List IndexCollectionRef
    → Result (List IndexCollectionRef)
unfolding is_system_database string_included select_index_collection_refs collection_limit_error
collect_refs load opts [] refs = ok refs
collect_refs load opts (database ∷ databases) refs =
    let skip = collect_refs load opts databases refs in
    let continue = λ (more : List IndexCollectionRef). collect_refs load opts databases more in
    if not (is_selected opts database) then skip else elim (load database) [
      | err e ↦ err e
      | ok metadata ↦
          let more = refs ++ select_index_collection_refs database metadata opts.collections in
          if is_over opts (length more)
          then err (collection_limit_error (pos_part opts.max_collections) (length more))
          else continue more
    ]

abbrev pub sorted_refs : Result (List IndexCollectionRef) → Result (List IndexCollectionRef)
sorted_refs (err e) = err e
sorted_refs (ok refs) = ok (sort_stable ref_less refs)

unfoldable pub index_collection_refs :
    (String → Result (List IndexCollectionMetadata))
    → IndexAuditOptions
    → Result (List String)
    → Result (List IndexCollectionRef)
unfolding collect_refs sort_stable ref_less
index_collection_refs load opts (err e) = err e
index_collection_refs load opts (ok databases) = sorted_refs (collect_refs load opts databases [])
