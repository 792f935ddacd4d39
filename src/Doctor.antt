-- ===== src/Doctor.antt =====
-- pkg/mot/doctor.go: the options of the doctor, the collector statuses of its failures and the
-- findings of one node. The findings of a replica set are in Doctor/Members.antt, those of its
-- oplog in Doctor/Window.antt.
pub mod Reports
pub mod Members
pub mod Options
pub mod Node
pub mod Window
use mongo_overview_tool.Base.{
  ℕ, String, Bool, true, false, ◌||◌, ◌&&◌, List, [], ◌∷◌, ◌++◌, Option, none, some, leb, ltb, ◌==◌,
  if◌then◌else◌, not, keep, str_eq, str_append, ◌*◌, ◌+◌,
}
use mongo_overview_tool.Base.Int.{ℤ, pos, ◌+ℤ◌, ltb_ℤ, leb_ℤ, is_positive, scale}
use mongo_overview_tool.Errors.{
  Result, ok, err, Error, invalid, is, cancelled, context_canceled, deadline_exceeded,
  is_unauthorized_error, is_unsupported_diagnostic_error,
}
use mongo_overview_tool.Diagnostics.{
  Severity, info, warning, critical, other, FindingScope, ScopeType, bare_scope, Value, number,
  quotient, DiagnosticFinding, CapabilityState, unauthorized, unsupported, failed, CollectorStatus,
  severity_rank, validate_severity,
}
use mongo_overview_tool.Diagnostics.Capability.{DiagnosticCapability, diagnostic_capability}

-- Durations are integers of nanoseconds.
pub record DoctorOptions : Type 0 where
  pub minimum_severity : Severity
  pub node_concurrency : ℤ
  pub replication_lag_warning : ℤ
  pub replication_lag_critical : ℤ
  pub include_system_db : Bool
  pub include_oplog_window : Bool

abbrev pub second : ℕ
second = 1_000_000_000

-- defaultOverviewNodeConcurrency of pkg/mot/overview.go
abbrev pub default_node_concurrency : ℤ
default_node_concurrency = pos 1

abbrev pub default_doctor_options : DoctorOptions
default_doctor_options = record {
  minimum_severity = info;
  node_concurrency = default_node_concurrency;
  replication_lag_warning = pos (60 * second);
  replication_lag_critical = pos (300 * second);
  include_system_db = false;
  include_oplog_window = false;
}

abbrev default_severity : Severity → Severity
default_severity (other value) = if str_eq value "" then info else other value
default_severity s = s

abbrev default_positive : ℤ → ℤ → ℤ
default_positive value default = if is_positive value then value else default

-- The last test, on the options with their defaults.
check_lag : DoctorOptions → Result DoctorOptions
check_lag opts =
    if leb_ℤ opts.replication_lag_critical opts.replication_lag_warning
    then err (invalid "replication lag warning must be lower than critical")
    else ok opts

after_severity : Option Error → DoctorOptions → Result DoctorOptions
unfolding check_lag
after_severity (some e) opts = err e
after_severity none opts =
    if ltb_ℤ opts.node_concurrency (pos 0)
    then err (invalid "node concurrency must not be negative")
    else check_lag (record opts {
      node_concurrency = default_positive opts.node_concurrency default_node_concurrency;
      replication_lag_warning =
          default_positive opts.replication_lag_warning
            default_doctor_options.replication_lag_warning;
      replication_lag_critical =
          default_positive opts.replication_lag_critical
            default_doctor_options.replication_lag_critical;
    })

unfoldable pub normalize_doctor_options : DoctorOptions → Result DoctorOptions
unfolding after_severity validate_severity
normalize_doctor_options opts =
    let severity = default_severity opts.minimum_severity in
    after_severity (validate_severity severity) (record opts { minimum_severity = severity })

unfoldable pub filter_findings_by_minimum_severity :
    List DiagnosticFinding → Severity → List DiagnosticFinding
unfolding keep severity_rank
filter_findings_by_minimum_severity findings minimum =
    keep (λ f. leb (severity_rank f.severity) (severity_rank minimum)) findings

unfoldable pub safe_collector_message : CapabilityState → String → String
safe_collector_message unauthorized reason = "当前用户无权执行该采集项"
safe_collector_message unsupported reason = "当前服务器或拓扑不支持该采集项"
safe_collector_message state reason =
    if str_eq reason "timeout" then "采集被取消或超时" else "采集失败；原始错误未写入公共结果"

unfoldable pub failure_of : Error → CapabilityState × String
unfolding is_unauthorized_error is_unsupported_diagnostic_error is
failure_of e =
    if is_unauthorized_error e
    then (unauthorized, "unauthorized")
    else if is_unsupported_diagnostic_error e
    then (unsupported, "unsupported_version")
    else if is e context_canceled || is e deadline_exceeded || is e cancelled
    then (failed, "timeout")
    else (failed, "collector_failed")

abbrev is_unsupported : CapabilityState → Bool
is_unsupported unsupported = true
is_unsupported _ = false

failure_message : CapabilityState → String → Option DiagnosticCapability → String
unfolding safe_collector_message
failure_message state reason none = safe_collector_message state reason
failure_message state reason (some c) =
    if is_unsupported state && not (str_eq c.minimum_version "")
    then str_append "当前服务器不满足 collector 最低能力版本 " c.minimum_version
    else safe_collector_message state reason

unfoldable pub failed_collector_status : String → FindingScope → Error → CollectorStatus
unfolding failure_of failure_message diagnostic_capability
failed_collector_status name scope e =
    let (state, reason) = failure_of e in
    record {
      name = name;
      state = state;
      scope = scope;
      reason_code = reason;
      message = failure_message state reason (diagnostic_capability name);
    }

-- An optional value is `none` where the source has Present == false.
pub record DoctorNodeSnapshot : Type 0 where
  pub replica_set : String
  pub shard : String
  pub address : String
  pub uptime : Option ℤ
  pub connections_used : Option ℤ
  pub connections_free : Option ℤ
  pub queue_total : Option ℤ
  pub cache_max : Option ℤ
  pub cache_used : Option ℤ
  pub eviction_pressure : Option ℤ

abbrev pub node_scope : String → String → String → FindingScope
node_scope replica_set shard node = record (bare_scope ScopeType.node) {
  replica_set = replica_set;
  shard = shard;
  node = node;
}

-- A finding without a recommendation.
abbrev pub finding :
    String → Severity → FindingScope → String → List (String × Value) → DiagnosticFinding
finding code severity scope summary evidence = record {
  code = code;
  severity = severity;
  scope = scope;
  summary = summary;
  evidence = evidence;
  recommendation = "";
}

restart_findings : FindingScope → Option ℤ → List DiagnosticFinding
restart_findings scope none = []
restart_findings scope (some uptime) =
    if leb_ℤ (pos 0) uptime && ltb_ℤ uptime (pos 3600)
    then finding "node.recent_restart" info scope "节点启动时间不足一小时"
        (("uptimeSeconds", number uptime) ∷ [])
      ∷ []
    else []

-- The float64 tests `ratio < 0.05` and `ratio < 0.10` are on the exact quotient free / total.
connection_findings : FindingScope → Option ℤ → Option ℤ → List DiagnosticFinding
connection_findings scope (some used) (some free) =
    let total = used +ℤ free in
    if is_positive total
    then if ltb_ℤ (scale 20 free) total
      then finding "connection.headroom_critical" critical scope "节点连接余量低于 5%"
          (("availableRatio", quotient free total) ∷ [])
        ∷ []
      else if ltb_ℤ (scale 10 free) total
      then finding "connection.headroom_low" warning scope "节点连接余量低于 10%"
          (("availableRatio", quotient free total) ∷ [])
        ∷ []
      else []
    else []
connection_findings scope _ _ = []

abbrev is_above_zero : Option ℤ → Bool
is_above_zero none = false
is_above_zero (some value) = is_positive value

abbrev value_or_zero : Option ℤ → ℤ
value_or_zero none = pos 0
value_or_zero (some value) = value

cache_findings : FindingScope → Option ℤ → Option ℤ → Option ℤ → Option ℤ → List DiagnosticFinding
cache_findings scope (some max) (some used) eviction queue =
    if is_positive max
      && (leb_ℤ (scale 9 max) (scale 10 used) && (is_above_zero eviction && is_above_zero queue))
    then finding "storage.cache_pressure_inconclusive" info scope
        "单快照显示高 cache 与排队，但累计 eviction 无法证明当前窗口持续增长"
        (("cacheRatio", quotient used max)
          ∷ ("evictionPressure", number (value_or_zero eviction))
          ∷ ("queue", number (value_or_zero queue))
          ∷ [])
      ∷ []
    else []
cache_findings scope _ _ eviction queue = []

unfoldable pub evaluate_doctor_node : DoctorNodeSnapshot → List DiagnosticFinding
unfolding restart_findings connection_findings cache_findings ◌+ℤ◌
evaluate_doctor_node node =
    let scope = node_scope node.replica_set node.shard node.address in
    restart_findings scope node.uptime
    ++ (connection_findings scope node.connections_used node.connections_free
        ++ cache_findings scope node.cache_max node.cache_used node.eviction_pressure
            node.queue_total)
