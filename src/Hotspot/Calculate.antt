-- ===== src/Hotspot/Calculate.antt =====
-- pkg/mot/hotspot.go: calculateHotspot. A rate is above 0 exactly if its difference is, since it is
-- that difference over a positive duration.
use mongo_overview_tool.Doctor.{second}
use mongo_overview_tool.Doctor.Window.{sub_time}
use mongo_overview_tool.Diagnostics.{
  supported, number, ScopeType, quotient, critical, failed, bare_scope, sort_collector_statuses,
  Value, CollectorStatus, info, DiagnosticFinding, warning, CapabilityState, Severity, FindingScope,
  sanitize_and_sort_findings,
}
use mongo_overview_tool.Base.Sort.{sort_stable}
use mongo_overview_tool.Base.Maps.{put, value_at}
use mongo_overview_tool.Base.Int.{
  negsuc, pos_part, eq_ℤ, is_zero, ltb_ℤ, is_positive, pos, scale, ℤ,
}
use mongo_overview_tool.Hotspot.{
  HotspotResult, HotspotOptions, HotspotSnapshot, hotspot_metric_deltas, add_int64, average_latency,
  sub_int64, NodeHotspot, NamespaceHotspot, counter_deltas, namespace_counters_reset, non_negative,
  HotspotNamespaceCounter, delta_of, counters_reset, HotspotNodeSnapshot,
}
use mongo_overview_tool.Base.{
  concat, take, length, str_eq, ◌^◌, map, ◌-◌, not, ltb, ◌&&◌, ◌||◌, Bool, leb, str_lt, Option,
  ◌++◌, List, String, ℕ, ◌∷◌, if◌then◌else◌, false, some, none, [],
}

-- then.Sub(earlier), which stops at the ends of an int64.
unfoldable pub sub_times : ℕ → ℕ → ℤ
sub_times then_time earlier =
    if leb earlier then_time
    then pos (sub_time then_time earlier)
    else if ltb (earlier - then_time) (2 ^ 63)
    then negsuc (earlier - then_time - 1)
    else negsuc (2 ^ 63 - 1)

abbrev pub node_scope : HotspotNodeSnapshot → FindingScope
node_scope node = record (bare_scope ScopeType.node) { shard = node.shard; node = node.address }

abbrev namespace_scope : HotspotNodeSnapshot → String → FindingScope
namespace_scope node namespace = record (bare_scope ScopeType.namespace) {
  shard = node.shard;
  node = node.address;
  namespace = namespace;
}

unfoldable pub finding :
    String → Severity → FindingScope → String → List (String × Value) → DiagnosticFinding
finding code severity scope summary evidence = record {
  code = code;
  severity = severity;
  scope = scope;
  summary = summary;
  evidence = evidence;
  recommendation = "";
}

unfoldable pub status : HotspotNodeSnapshot → CapabilityState → String → String → CollectorStatus
status node state reason_code message = record {
  name = "hotspot";
  state = state;
  scope = node_scope node;
  reason_code = reason_code;
  message = message;
}

-- What the loop over the nodes appends to.
pub record Found : Type 0 where
  pub nodes : List NodeHotspot
  pub namespaces : List NamespaceHotspot
  pub findings : List DiagnosticFinding
  pub statuses : List CollectorStatus

abbrev pub nothing : Found
nothing = record { nodes = []; namespaces = []; findings = []; statuses = [] }

abbrev pub append_found : Found → Found → Found
append_found a b = record {
  nodes = a.nodes ++ b.nodes;
  namespaces = a.namespaces ++ b.namespaces;
  findings = a.findings ++ b.findings;
  statuses = a.statuses ++ b.statuses;
}

abbrev restarted : Option ℤ → Option ℤ → Bool
restarted none now = false
restarted (some before) none = false
restarted (some before) (some now) = ltb_ℤ now before

unfoldable pub is_reset : HotspotNodeSnapshot → HotspotNodeSnapshot → Bool
unfolding counters_reset
is_reset previous node =
    restarted previous.uptime node.uptime || counters_reset previous.counters node.counters

unfoldable pub reset_found : HotspotNodeSnapshot → Found
unfolding finding status
reset_found node = record nothing {
  findings =
      finding "node.counter_reset" warning (node_scope node) "采样期间节点重启或累计计数器重置，未计算该节点 rate" [] ∷ [];
  statuses = status node failed "counter_reset" "采样窗口内计数器不可比较" ∷ [];
}

abbrev rate : ℤ → ℕ → ℤ × ℤ
rate delta duration = (scale second delta, pos duration)

unfoldable pub rejected_findings :
    HotspotNodeSnapshot → List (String × ℤ) → ℕ → List DiagnosticFinding
unfolding finding delta_of
rejected_findings node deltas duration =
    let rejected = delta_of "connectionsRejected" deltas in
    if is_positive rejected
    then finding "connection.rejected_during_sample" critical (node_scope node) "采样窗口内出现连接拒绝" (
        ("rejected", number rejected)
        ∷ ("rejectedPerSecond", quotient (scale second rejected) (pos duration))
        ∷ [])
      ∷ []
    else []

abbrev positive_gauge : Option ℤ → Bool
positive_gauge none = false
positive_gauge (some value) = is_positive value

unfoldable pub queue_findings : HotspotNodeSnapshot → HotspotNodeSnapshot → List DiagnosticFinding
unfolding finding value_at delta_of
queue_findings previous node =
    if positive_gauge (value_at "queueTotal" previous.gauges)
      && positive_gauge (value_at "queueTotal" node.gauges)
    then finding "operation.queue_sustained" warning (node_scope node) "两个快照均观察到操作排队" (
        ("firstQueueTotal", number (delta_of "queueTotal" previous.gauges))
        ∷ ("secondQueueTotal", number (delta_of "queueTotal" node.gauges))
        ∷ [])
      ∷ []
    else []

unfoldable pub eviction_findings : HotspotNodeSnapshot → List (String × ℤ) → List DiagnosticFinding
unfolding finding delta_of
eviction_findings node deltas =
    let eviction =
      add_int64
        (add_int64 (delta_of "wtApplicationEviction" deltas) (delta_of "wtPagesRead" deltas))
        (delta_of "wtPagesWritten" deltas) in
    let latency =
      add_int64
        (add_int64 (delta_of "readLatencyMicros" deltas) (delta_of "writeLatencyMicros" deltas))
        (delta_of "commandLatencyMicros" deltas) in
    if is_positive eviction && is_positive latency
    then finding "storage.eviction_pressure" warning (node_scope node) "采样窗口内 eviction 与操作延迟同时增长"
        (("evictionDelta", number eviction) ∷ ("latencyMicrosDelta", number latency) ∷ [])
      ∷ []
    else []

abbrev zero_counter : HotspotNamespaceCounter
zero_counter = record {
  read_count = pos 0;
  write_count = pos 0;
  read_time_micros = pos 0;
  write_time_micros = pos 0;
}

abbrev pub is_reset_from : Option HotspotNamespaceCounter → HotspotNamespaceCounter → Bool
is_reset_from none current = false
is_reset_from (some previous) current = namespace_counters_reset previous current

abbrev pub or_zero : Option HotspotNamespaceCounter → HotspotNamespaceCounter
or_zero none = zero_counter
or_zero (some previous) = previous

unfoldable pub grown : ℤ → ℤ → ℤ
unfolding non_negative
grown current previous = non_negative (sub_int64 current previous)

-- The body of the loop over the namespaces of a node.
unfoldable pub namespace_found :
    HotspotNodeSnapshot
    → ℕ
    → String
    → Option HotspotNamespaceCounter
    → HotspotNamespaceCounter
    → Found
unfolding namespace_counters_reset grown finding
namespace_found node duration namespace earlier current =
    let previous = or_zero earlier in
    let read_count = grown current.read_count previous.read_count in
    let write_count = grown current.write_count previous.write_count in
    let read_time = grown current.read_time_micros previous.read_time_micros in
    let write_time = grown current.write_time_micros previous.write_time_micros in
    if is_reset_from earlier current
    then record nothing {
      findings =
          finding "hotspot.namespace_counter_reset" info (namespace_scope node namespace)
            "namespace 累计计数器在采样窗口内重置，未计算该项 rate" []
          ∷ [];
    }
    else if is_zero read_count && (is_zero write_count && (is_zero read_time && is_zero write_time))
    then nothing
    else record nothing {
      namespaces =
          record {
            shard = node.shard;
            host = node.address;
            namespace = namespace;
            read_per_second = rate read_count duration;
            write_per_second = rate write_count duration;
            read_time_micros = read_time;
            write_time_micros = write_time;
            total_time_micros = add_int64 read_time write_time;
          }
          ∷ [];
    }

unfoldable pub namespaces_found :
    HotspotNodeSnapshot
    → ℕ
    → List (String × HotspotNamespaceCounter)
    → List (String × HotspotNamespaceCounter)
    → Found
unfolding namespace_found value_at
namespaces_found node duration previous [] = nothing
namespaces_found node duration previous ((namespace, current) ∷ rest) =
    append_found (namespace_found node duration namespace (value_at namespace previous) current)
      (namespaces_found node duration previous rest)

-- A node of both snapshots, without a reset, over a positive duration.
unfoldable pub measured_found : HotspotNodeSnapshot → HotspotNodeSnapshot → ℕ → Found
unfolding counter_deltas average_latency hotspot_metric_deltas delta_of rejected_findings
    queue_findings eviction_findings namespaces_found status
measured_found previous node duration =
    let deltas = counter_deltas previous.counters node.counters in
    let average = λ (latency operations : String).
      average_latency (delta_of latency deltas) (delta_of operations deltas) in
    append_found
      (record {
        nodes =
            record {
              shard = node.shard;
              host = node.address;
              rates = map (λ d. (d.0, rate d.1 duration)) deltas;
              deltas = hotspot_metric_deltas deltas;
              average_latencies =
                  ("read", average "readLatencyMicros" "readLatencyOps")
                  ∷ ("write", average "writeLatencyMicros" "writeLatencyOps")
                  ∷ ("command", average "commandLatencyMicros" "commandLatencyOps")
                  ∷ [];
              gauges = node.gauges;
            }
            ∷ [];
        namespaces = [];
        findings =
            rejected_findings node deltas duration
            ++ (queue_findings previous node ++ eviction_findings node deltas);
        statuses = status node supported "" "" ∷ [];
      })
      (namespaces_found node duration previous.namespaces node.namespaces)

abbrev pub measured_if : HotspotNodeSnapshot → HotspotNodeSnapshot → ℤ → Found
measured_if previous node (pos duration) =
    if ltb 0 duration then measured_found previous node duration else nothing
measured_if previous node (negsuc n) = nothing

-- The body of the loop over the nodes of the second snapshot.
unfoldable pub node_found : ℤ → Option HotspotNodeSnapshot → HotspotNodeSnapshot → Found
unfolding is_reset reset_found measured_found sub_times
node_found effective_duration none node = nothing
node_found effective_duration (some previous) node =
    let own = sub_times node.collected_at previous.collected_at in
    if is_reset previous node
    then reset_found node
    else measured_if previous node (if is_positive own then own else effective_duration)

unfoldable pub put_nodes :
    List HotspotNodeSnapshot
    → List (String × HotspotNodeSnapshot)
    → List (String × HotspotNodeSnapshot)
unfolding put
put_nodes [] values = values
put_nodes (n ∷ ns) values = put_nodes ns (put n.identity n values)

unfoldable pub nodes_found :
    ℤ → List (String × HotspotNodeSnapshot) → List HotspotNodeSnapshot → Found
unfolding node_found value_at
nodes_found effective_duration first [] = nothing
nodes_found effective_duration first (node ∷ nodes) =
    append_found (node_found effective_duration (value_at node.identity first) node)
      (nodes_found effective_duration first nodes)

-- The loop over the nodes of the first snapshot that the second one does not have.
unfoldable pub lost_statuses :
    List (String × HotspotNodeSnapshot) → List (String × HotspotNodeSnapshot) → List CollectorStatus
unfolding value_at status
lost_statuses later [] = []
lost_statuses later ((identity, node) ∷ rest) =
    let others = lost_statuses later rest in
    elim (value_at identity later) [
      | some there ↦ others
      | none ↦ status node failed "node_unreachable" "第二快照未返回该节点" ∷ others
    ]

unfoldable pub namespace_less : NamespaceHotspot → NamespaceHotspot → Bool
unfolding str_lt
namespace_less left right =
    if not (eq_ℤ left.total_time_micros right.total_time_micros)
    then ltb_ℤ right.total_time_micros left.total_time_micros
    else if not (str_eq left.namespace right.namespace)
    then str_lt left.namespace right.namespace
    else if not (str_eq left.shard right.shard)
    then str_lt left.shard right.shard
    else str_lt left.host right.host

unfoldable pub top_namespaces : ℤ → List NamespaceHotspot → List NamespaceHotspot
unfolding sort_stable namespace_less
top_namespaces top_n namespaces =
    let sorted = sort_stable namespace_less namespaces in
    if is_positive top_n && ltb (pos_part top_n) (length sorted)
    then take (pos_part top_n) sorted
    else sorted

abbrev hot_scope : NamespaceHotspot → FindingScope
hot_scope n = record (bare_scope ScopeType.namespace) {
  shard = n.shard;
  node = n.host;
  namespace = n.namespace;
}

abbrev hot_evidence : NamespaceHotspot → List (String × Value)
hot_evidence n =
    ("readPerSecond", quotient n.read_per_second.0 n.read_per_second.1)
    ∷ ("writePerSecond", quotient n.write_per_second.0 n.write_per_second.1)
    ∷ ("totalTimeMicros", number n.total_time_micros)
    ∷ []

unfoldable pub hot_findings : NamespaceHotspot → List DiagnosticFinding
unfolding finding
hot_findings n =
    (if is_positive n.read_per_second.0 || is_positive n.read_time_micros
      then finding "hotspot.namespace_read" info (hot_scope n) "namespace 在采样窗口内位于读热点列表"
          (hot_evidence n)
        ∷ []
      else [])
    ++ (if is_positive n.write_per_second.0 || is_positive n.write_time_micros
        then finding "hotspot.namespace_write" info (hot_scope n) "namespace 在采样窗口内位于写热点列表"
            (hot_evidence n)
          ∷ []
        else [])

unfoldable pub calculate_hotspot :
    HotspotSnapshot → HotspotSnapshot → HotspotOptions → HotspotResult
unfolding put_nodes nodes_found lost_statuses top_namespaces hot_findings sub_times
    sanitize_and_sort_findings sort_collector_statuses
calculate_hotspot first second_snapshot opts =
    let effective_duration = sub_times second_snapshot.collected_at first.collected_at in
    let result : HotspotResult = record {
      started_at = first.collected_at;
      finished_at = second_snapshot.collected_at;
      effective_duration = effective_duration;
      nodes = [];
      namespaces = [];
      findings = [];
      collector_statuses = [];
    } in
    let first_by_identity = put_nodes first.nodes [] in
    let second_by_identity = put_nodes second_snapshot.nodes [] in
    let found = nodes_found effective_duration first_by_identity second_snapshot.nodes in
    let top = top_namespaces opts.top_n found.namespaces in
    if not (is_positive effective_duration) then result else record result {
      nodes = found.nodes;
      namespaces = top;
      findings = sanitize_and_sort_findings (found.findings ++ concat (map hot_findings top));
      collector_statuses =
          sort_collector_statuses
            (found.statuses ++ lost_statuses second_by_identity first_by_identity);
    }
