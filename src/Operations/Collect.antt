-- ===== src/Operations/Collect.antt =====
-- pkg/mot/operations.go: the choice between aggregation and command, the retreat to the operations of
-- the current user, and Client.CurrentOperations.
use mongo_overview_tool.Errors.{ok, err}
use mongo_overview_tool.Doctor.{failed_collector_status}
use mongo_overview_tool.Base.Sort.{sort_stable}
use mongo_overview_tool.Operations.{
  operation_less, CurrentOperation, CurrentOperationSnapshot, evaluate_current_operation_findings,
  normalize_current_operations_options, convert_current_operations, CurrentOperationsOptions,
}
use mongo_overview_tool.Diagnostics.Capability.{diagnostic_capability_gate, ClusterType}
use mongo_overview_tool.Diagnostics.{
  sanitize_and_sort_findings, DiagnosticFinding, bare_scope, supported, CollectorStatus,
}
use mongo_overview_tool.Errors.{
  code_in, context_error, Error, error_text, is_unauthorized_error, command_code, Result,
}
use mongo_overview_tool.Base.Int.{ℤ}
use mongo_overview_tool.Base.{
  codes, ◌||◌, lower, contains, not, String, ◌&&◌, ltb, List, Bool, Option, ℕ, ◌∷◌, if◌then◌else◌,
  false, true, some, none, [],
}
use mongo_overview_tool.Diagnostics.ScopeType.{cluster}

pub record CurrentOperationsQuery : Type 0 where
  pub min_duration : ℤ
  pub all_users : Bool
  pub include_idle_transactions : Bool
  pub include_idle_cursors : Bool
  pub databases : List String
  pub namespaces : List String
  pub limit : ℤ
  pub max_time : ℤ

-- currentOperationsCollector
abbrev pub Collector : Type 0
Collector = CurrentOperationsQuery → Result (List CurrentOperationSnapshot)

-- What currentOperationsLoader returns.
pub record Loaded : Type 0 where
  pub answer : Result (List CurrentOperationSnapshot)
  pub source : String

unfoldable pub is_unsupported_current_op_aggregation : Error → Bool
unfolding command_code error_text contains lower
is_unsupported_current_op_aggregation e =
    code_in (9 ∷ 168 ∷ 16436 ∷ 17138 ∷ 40324 ∷ []) (command_code e)
    || contains (lower (error_text e)) (codes "unrecognized pipeline stage")

-- What becomes of the answer of the aggregation.
unfoldable pub after_aggregation :
    Collector → CurrentOperationsQuery → Result (List CurrentOperationSnapshot) → Loaded
unfolding is_unsupported_current_op_aggregation
after_aggregation command query (ok operations) = record {
  answer = ok operations;
  source = "aggregation";
}
after_aggregation command query (err e) =
    if not (is_unsupported_current_op_aggregation e)
    then record { answer = err e; source = "aggregation" }
    else record { answer = command query; source = "command_fallback" }

unfoldable pub collect_current_operations_for_wire_version :
    ℕ → CurrentOperationsQuery → Collector → Collector → Loaded
unfolding after_aggregation
collect_current_operations_for_wire_version max_wire_version query aggregation command =
    if ltb max_wire_version 6
    then record { answer = command query; source = "command_fallback" }
    else after_aggregation command query (aggregation query)

pub record Visible : Type 0 where
  pub answer : Result (List CurrentOperationSnapshot)
  pub source : String
  pub visibility : String
  pub status : CollectorStatus

abbrev pub supported_status : CollectorStatus
supported_status = record {
  name = "current_operations";
  state = supported;
  scope = bare_scope cluster;
  reason_code = "";
  message = "";
}

abbrev pub degraded : Result (List CurrentOperationSnapshot) → CollectorStatus
degraded (err e) = supported_status
degraded (ok operations) = record supported_status {
  reason_code = "degraded_current_user";
  message = "缺少全局 inprog 权限，已降级为当前用户可见范围";
}

abbrev pub is_unauthorized : Result (List CurrentOperationSnapshot) → Bool
is_unauthorized (ok operations) = false
is_unauthorized (err e) = is_unauthorized_error e

abbrev pub of_current_user : CurrentOperationsQuery → CurrentOperationsQuery
of_current_user query = record query { all_users = false }

unfoldable pub collect_current_operations_with_visibility :
    CurrentOperationsQuery → (CurrentOperationsQuery → Loaded) → Visible
unfolding is_unauthorized_error
collect_current_operations_with_visibility query loader =
    let first = loader query in
    let second = loader (of_current_user query) in
    if is_unauthorized first.answer && query.all_users
    then record {
      answer = second.answer;
      source = second.source;
      visibility = "current_user";
      status = degraded second.answer;
    }
    else record {
      answer = first.answer;
      source = first.source;
      visibility = if query.all_users then "all_users" else "current_user";
      status = supported_status;
    }

pub record CurrentOperationsResult : Type 0 where
  pub cluster_type : ClusterType
  pub collected_at : ℕ
  pub visibility : String
  pub source : String
  pub operations : List CurrentOperation
  pub findings : List DiagnosticFinding
  pub collector_statuses : List CollectorStatus

-- A result, which may stand beside an error, and the error.
abbrev pub Outcome : Type 0
Outcome = Option CurrentOperationsResult × Option Error

abbrev pub query_of : CurrentOperationsOptions → CurrentOperationsQuery
query_of opts = record {
  min_duration = opts.min_duration;
  all_users = opts.all_users;
  include_idle_transactions = opts.include_idle_transactions;
  include_idle_cursors = opts.include_idle_cursors;
  databases = opts.databases;
  namespaces = opts.namespaces;
  limit = opts.limit;
  max_time = opts.max_time;
}

-- What the collector asks: the context, the connection, the cluster with its wire version, a slot for
-- the remote call, the two ways to read the operations, the clock and the digest.
pub record Server : Type 0 where
  pub context : Option Error
  pub connection : Option Error
  pub detected : Result (ClusterType × ℕ)
  pub slot : Option Error
  pub aggregation : Collector
  pub command : Collector
  pub now : ℕ
  pub digest : String → String

abbrev bare_result : Server → ClusterType → CurrentOperationsResult
bare_result server cluster_type = record {
  cluster_type = cluster_type;
  collected_at = server.now;
  visibility = "unavailable";
  source = "";
  operations = [];
  findings = [];
  collector_statuses = [];
}

-- The end of the collector, behind the remote call.
unfoldable pub report : Server → ClusterType → Visible → Outcome
unfolding convert_current_operations evaluate_current_operation_findings operation_less sort_stable
    sanitize_and_sort_findings is_unauthorized_error failed_collector_status
report server cluster_type v =
    let result = record (bare_result server cluster_type) {
      visibility = v.visibility;
      source = v.source;
    } in
    elim v.answer [
      | err e ↦ (
        some (record result {
          collector_statuses =
              failed_collector_status "current_operations" (bare_scope cluster) e ∷ [];
        }),
        if is_unauthorized_error e then none else some e,
      )
      | ok raw ↦ (
        some (record result {
          operations = sort_stable operation_less (convert_current_operations server.digest raw);
          findings = sanitize_and_sort_findings (evaluate_current_operation_findings raw);
          collector_statuses = v.status ∷ [];
        }),
        none,
      )
    ]

-- What follows the detection of the cluster.
unfoldable pub on_cluster : Server → CurrentOperationsOptions → ClusterType → ℕ → Outcome
unfolding report collect_current_operations_with_visibility
    collect_current_operations_for_wire_version diagnostic_capability_gate
on_cluster server opts cluster_type max_wire_version =
    let (gate, allowed) =
      diagnostic_capability_gate "current_operations" cluster_type max_wire_version true in
    if not allowed
    then (some (record (bare_result server cluster_type) { collector_statuses = gate ∷ [] }), none)
    else elim server.slot [
      | some e ↦ (none, some e)
      | none ↦ report server cluster_type (
          collect_current_operations_with_visibility (query_of opts) (λ query.
            collect_current_operations_for_wire_version max_wire_version query server.aggregation
              server.command))
    ]

unfoldable pub current_operations : Server → CurrentOperationsOptions → Outcome
unfolding on_cluster normalize_current_operations_options context_error
current_operations server opts = elim (normalize_current_operations_options opts) [
  | err e ↦ (none, some e)
  | ok normalized ↦ elim (context_error server.context) [
    | some e ↦ (none, some e)
    | none ↦ elim server.connection [
      | some e ↦ (none, some e)
      | none ↦ elim server.detected [
        | err e ↦ (none, some e)
        | ok found ↦ on_cluster server normalized found.0 found.1
      ]
    ]
  ]
]
