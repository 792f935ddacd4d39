-- ===== src/Diagnostics/Capability.antt =====
-- pkg/mot/diagnostics.go: the registry of collector capabilities and the gate that a collector
-- passes before it asks the server.
pub mod Gate
use mongo_overview_tool.Base.{
  ℕ, String, Bool, true, false, ◌||◌, ◌&&◌, List, [], ◌∷◌, Option, none, some, ltb, str_eq,
  if◌then◌else◌, not, str_lt, str_append,
}
use mongo_overview_tool.Base.Sort.{sort_stable}
use mongo_overview_tool.Diagnostics.{
  CollectorStatus, ScopeType, CapabilityState, supported, unsupported, skipped, failed, bare_scope,
}

pub data CapabilityCost : Type 0 where
  low bounded expensive_opt_in : CapabilityCost

-- mot.ClusterType and pkg/mongo's ClusterType, which `convertClusterType` maps to each other.
pub data ClusterType : Type 0 where
  repl sharding : ClusterType

pub record DiagnosticCapability : Type 0 where
  pub name : String
  pub minimum_version : String
  pub minimum_wire_version : ℕ
  pub topologies : List ClusterType
  pub privilege : String
  pub cost : CapabilityCost
  pub sensitive_fields : List String

abbrev capability :
    String
    → String
    → ℕ
    → List ClusterType
    → String
    → CapabilityCost
    → List String
    → DiagnosticCapability
capability name version wire topologies privilege cost fields = record {
  name = name;
  minimum_version = version;
  minimum_wire_version = wire;
  topologies = topologies;
  privilege = privilege;
  cost = cost;
  sensitive_fields = fields;
}

abbrev everywhere : List ClusterType
everywhere = repl ∷ sharding ∷ []

abbrev mongos_only : List ClusterType
mongos_only = sharding ∷ []

abbrev registry : List DiagnosticCapability
registry =
    capability "collection_capacity" "3.4" 5 everywhere "collStats" bounded []
    ∷ capability "current_operations" "3.4" 5 everywhere "inprog" low
        ("command" ∷ "client" ∷ "user" ∷ "session" ∷ [])
    ∷ capability "database_capacity" "3.4" 5 everywhere "dbStats" bounded []
    ∷ capability "free_storage" "3.6" 6 everywhere "collStats" expensive_opt_in []
    ∷ capability "hotspot_snapshot" "3.4" 5 everywhere "top" bounded []
    ∷ capability "index_consistency_direct" "3.4" 5 mongos_only
        "listShards, find config metadata, listIndexes" bounded
        ("raw index spec" ∷ "partialFilterExpression" ∷ "derived connection" ∷ [])
    ∷ capability "index_consistency_index_stats" "4.2.4" 8 mongos_only "indexStats" bounded
        ("raw index spec" ∷ "partialFilterExpression" ∷ [])
    ∷ capability "index_consistency_metadata_check" "7.0" 21 mongos_only "checkMetadataConsistency"
        bounded ("raw inconsistency" ∷ "shard key values" ∷ [])
    ∷ capability "index_consistency_visibility" "3.4" 5 mongos_only "collStats" bounded []
    ∷ capability "index_usage" "3.4" 5 everywhere "indexStats" bounded []
    ∷ capability "oplog_window" "3.4" 5 everywhere "find local.oplog.rs" low []
    ∷ capability "replica_status" "3.4" 5 everywhere "replSetGetStatus" low []
    ∷ capability "server_status" "3.4" 5 everywhere "serverStatus" low []
    ∷ capability "slowlog_insight" "3.4" 5 everywhere "find system.profile" bounded
        ("command" ∷ "filter" ∷ "client" ∷ "user" ∷ "session" ∷ [])
    ∷ []

unfoldable pub diagnostic_capabilities : List DiagnosticCapability
unfolding sort_stable str_lt
diagnostic_capabilities = sort_stable (λ a b. str_lt a.name b.name) registry

find_capability : String → List DiagnosticCapability → Option DiagnosticCapability
find_capability name [] = none
find_capability name (c ∷ cs) = if str_eq c.name name then some c else find_capability name cs

unfoldable pub diagnostic_capability : String → Option DiagnosticCapability
unfolding find_capability diagnostic_capabilities
diagnostic_capability name = find_capability name diagnostic_capabilities

abbrev same_cluster : ClusterType → ClusterType → Bool
same_cluster repl repl = true
same_cluster sharding sharding = true
same_cluster _ _ = false

abbrev pub includes_topology : ClusterType → List ClusterType → Bool
includes_topology topology [] = false
includes_topology topology (t ∷ ts) = same_cluster t topology || includes_topology topology ts

supports_topology : Option DiagnosticCapability → ClusterType → Bool
supports_topology none topology = false
supports_topology (some c) topology = includes_topology topology c.topologies

unfoldable pub diagnostic_capability_supports_topology : String → ClusterType → Bool
unfolding supports_topology diagnostic_capability
diagnostic_capability_supports_topology name topology =
    supports_topology (diagnostic_capability name) topology

abbrev gate_status : String → CapabilityState → String → String → CollectorStatus
gate_status name state reason message = record {
  name = name;
  state = state;
  scope = bare_scope ScopeType.cluster;
  reason_code = reason;
  message = message;
}

abbrev pub is_opt_in : CapabilityCost → Bool
is_opt_in expensive_opt_in = true
is_opt_in _ = false

gate_of : Option DiagnosticCapability → Bool → String → ℕ → Bool → CollectorStatus × Bool
gate_of none supports name max_wire_version requested =
    (gate_status name failed "capability_unregistered" "collector 未登记统一能力边界", false)
gate_of (some c) supports name max_wire_version requested =
    if not supports
    then (gate_status name unsupported "unsupported_topology" "当前拓扑不支持该采集项", false)
    else if ltb 0 c.minimum_wire_version && ltb max_wire_version c.minimum_wire_version
    then (
      gate_status name unsupported "unsupported_version"
          (str_append "当前服务器不满足 collector 最低能力版本 " c.minimum_version),
      false,
    )
    else if is_opt_in c.cost && not requested
    then (gate_status name skipped "not_requested" "高成本采集项需要显式 opt-in", false)
    else (gate_status name supported "capability_gate_passed" "", true)

-- The name of the collector, the topology, the server's wire version and whether the caller asked
-- for the collector; the status to report, and whether to go on.
unfoldable pub diagnostic_capability_gate : String → ClusterType → ℕ → Bool → CollectorStatus × Bool
unfolding gate_of diagnostic_capability diagnostic_capability_supports_topology
diagnostic_capability_gate name topology max_wire_version requested =
    gate_of (diagnostic_capability name) (diagnostic_capability_supports_topology name topology)
      name max_wire_version requested
