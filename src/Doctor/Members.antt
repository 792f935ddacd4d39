-- ===== src/Doctor/Members.antt =====
-- pkg/mot/doctor.go: the findings of one replica set, from its status and its nodes.
pub mod Counts
pub mod Verdicts
use mongo_overview_tool.Base.{
  ℕ, suc, ◌+◌, ◌-◌, ◌*◌, ◌/◌, String, Bool, true, false, ◌||◌, ◌&&◌, List, [], ◌∷◌, ◌++◌, leb, ltb,
  ◌==◌, if◌then◌else◌, not, str_eq, str_append, length,
}
use mongo_overview_tool.Base.Int.{ℤ, pos, pos_part, is_positive, leb_ℤ}
use mongo_overview_tool.Model.{
  ReplicaState, primary, secondary, recovering, startup2, unknown, arbiter, down, rollback,
  is_secondary, RsMember, RsStatus,
}
use mongo_overview_tool.Diagnostics.{
  Severity, info, warning, critical, FindingScope, ScopeType, bare_scope, Value, number, seconds,
  DiagnosticFinding, text,
}
use mongo_overview_tool.Doctor.{
  DoctorOptions, DoctorNodeSnapshot, finding, node_scope, second, evaluate_doctor_node,
}

abbrev pub is_zero : ℕ → Bool
is_zero t = t == 0

unfoldable pub member_write_time : RsMember → ℕ
member_write_time m =
    if not (is_zero m.last_applied_wall_time) then m.last_applied_wall_time else m.optime_date

-- now.After(then) && now.Sub(then) <= 15m, at a time that is known.
abbrev pub is_recent : ℕ → ℕ → Bool
is_recent now then_time =
    not (is_zero then_time) && (ltb then_time now && leb (now - then_time) (15 * 60 * second))

abbrev pub is_stale : ℕ → ℕ → Bool
is_stale now then_time =
    not (is_zero then_time) && (ltb then_time now && ltb (30 * second) (now - then_time))

-- The cases of the `switch` on the member's state.
state_findings : ReplicaState → FindingScope → ℕ → RsMember → List DiagnosticFinding
state_findings primary scope now m =
    if is_recent now m.election_date
    then finding "replica.recent_election" warning scope "PRIMARY 最近 15 分钟内发生过选举"
        (("secondsSinceElection", seconds (now - m.election_date)) ∷ [])
      ∷ []
    else []
state_findings arbiter scope now m =
    finding "replica.arbiter_present" info scope "副本集包含仲裁节点" (("state", text m.state_str) ∷ []) ∷ []
state_findings recovering scope now m =
    finding "replica.member_recovering" warning scope "副本集成员正在恢复或同步"
      (("state", text m.state_str) ∷ [])
    ∷ []
state_findings startup2 scope now m =
    finding "replica.member_recovering" warning scope "副本集成员正在恢复或同步"
      (("state", text m.state_str) ∷ [])
    ∷ []
state_findings _ scope now m = []

abbrev pub is_broken_state : ReplicaState → Bool
is_broken_state down = true
is_broken_state unknown = true
is_broken_state rollback = true
is_broken_state _ = false

abbrev pub is_unhealthy : RsMember → Bool
is_unhealthy m = not (m.health == 1) || is_broken_state m.state

unhealthy_findings : FindingScope → RsMember → List DiagnosticFinding
unhealthy_findings scope m =
    if is_unhealthy m
    then record {
      code = "replica.member_unhealthy";
      severity = critical;
      scope = scope;
      summary = "副本集成员不可用或状态异常";
      evidence = ("health", number (pos m.health)) ∷ ("state", text m.state_str) ∷ [];
      recommendation = str_append "检查节点 " (str_append m.name " 的复制状态与网络路径");
    }
      ∷ []
    else []

heartbeat_findings : FindingScope → ℕ → RsMember → List DiagnosticFinding
heartbeat_findings scope now m =
    (if not (str_eq m.last_heartbeat_message "") && m.health == 1
      then finding "replica.heartbeat_error" warning scope "副本集成员最近一次 heartbeat 返回异常" [] ∷ []
      else [])
    ++ (if m.health == 1 && is_stale now m.last_heartbeat
        then finding "replica.heartbeat_stale" warning scope "副本集成员 heartbeat 超过 30 秒未更新"
            (("heartbeatAgeSeconds", seconds (now - m.last_heartbeat)) ∷ [])
          ∷ []
        else [])

-- The variables of the loop over the members.
pub record MemberScan : Type 0 where
  pub healthy_data_members : ℕ
  pub primary_found : Bool
  pub primary_write : ℕ
  pub findings : List DiagnosticFinding

-- What the `switch` does to the counters.
count_state : ReplicaState → RsMember → MemberScan → MemberScan
unfolding member_write_time
count_state primary m scan = record scan {
  primary_found = m.health == 1;
  healthy_data_members =
      if m.health == 1 then suc scan.healthy_data_members else scan.healthy_data_members;
  primary_write = member_write_time m;
}
count_state secondary m scan = record scan {
  healthy_data_members =
      if m.health == 1 then suc scan.healthy_data_members else scan.healthy_data_members;
}
count_state _ m scan = scan

member_findings : FindingScope → ℕ → RsMember → List DiagnosticFinding
unfolding state_findings unhealthy_findings heartbeat_findings
member_findings scope now m =
    state_findings m.state scope now m
    ++ (unhealthy_findings scope m ++ heartbeat_findings scope now m)

-- One round of the loop over the members.
scan_member : String → String → ℕ → RsMember → MemberScan → MemberScan
unfolding member_findings count_state
scan_member set shard now m scan =
    let counted = count_state m.state m scan in
    record counted {
      findings = scan.findings ++ member_findings (node_scope set shard m.name) now m;
    }

pub scan_members : String → String → ℕ → List RsMember → MemberScan → MemberScan
unfolding scan_member
scan_members set shard now [] scan = scan
scan_members set shard now (m ∷ ms) scan =
    scan_members set shard now ms (scan_member set shard now m scan)

-- The number of healthy members that a majority write needs.
unfoldable pub required_members : RsStatus → ℕ
required_members status =
    if is_positive status.write_majority_count
    then pos_part status.write_majority_count
    else length status.members / 2 + 1

lag_finding : DoctorOptions → FindingScope → ℕ → List DiagnosticFinding
lag_finding opts scope lag =
    if leb_ℤ opts.replication_lag_critical (pos lag)
    then finding "replica.lag_critical" critical scope "SECONDARY 复制进度落后于 PRIMARY"
        (("lagSeconds", seconds lag) ∷ [])
      ∷ []
    else if leb_ℤ opts.replication_lag_warning (pos lag)
    then finding "replica.lag_high" warning scope "SECONDARY 复制进度落后于 PRIMARY"
        (("lagSeconds", seconds lag) ∷ [])
      ∷ []
    else []

-- A healthy SECONDARY with a known write time is compared with the PRIMARY's write time. A lag
-- below 0 counts as 0, which is what `-` on the numbers gives.
abbrev pub is_compared : RsMember → Bool
is_compared m = is_secondary m.state && (m.health == 1 && not (is_zero (member_write_time m)))

pub lag_findings : RsStatus → String → DoctorOptions → ℕ → List RsMember → List DiagnosticFinding
unfolding lag_finding member_write_time
lag_findings status shard opts primary_write [] = []
lag_findings status shard opts primary_write (m ∷ ms) =
    (if is_compared m
      then lag_finding opts (node_scope status.set shard m.name)
          (primary_write - member_write_time m)
      else [])
    ++ lag_findings status shard opts primary_write ms

pub all_node_findings : List DoctorNodeSnapshot → List DiagnosticFinding
unfolding evaluate_doctor_node
all_node_findings [] = []
all_node_findings (n ∷ ns) = evaluate_doctor_node n ++ all_node_findings ns

abbrev replica_set_scope : RsStatus → String → FindingScope
replica_set_scope status shard = record (bare_scope ScopeType.replica_set) {
  replica_set = status.set;
  shard = shard;
}

-- What follows the loop over the members: the two verdicts on the whole set.
pub set_findings : RsStatus → String → MemberScan → List DiagnosticFinding
unfolding required_members
set_findings status shard scan =
    (if not scan.primary_found
      then finding "replica.primary_missing" critical (replica_set_scope status shard)
          "副本集当前没有可用 PRIMARY" []
        ∷ []
      else [])
    ++ (if ltb scan.healthy_data_members (required_members status)
        then finding "replica.majority_unavailable" critical (replica_set_scope status shard)
            "副本集当前无法满足 majority 写入确认"
            (("available", number (pos scan.healthy_data_members))
              ∷ ("required", number (pos (required_members status)))
              ∷ [])
          ∷ []
        else [])

abbrev pub start_scan : MemberScan
start_scan = record {
  healthy_data_members = 0;
  primary_found = false;
  primary_write = 0;
  findings = [];
}

unfoldable pub evaluate_doctor_replica_set :
    RsStatus → String → List DoctorNodeSnapshot → ℕ → DoctorOptions → List DiagnosticFinding
unfolding scan_members set_findings lag_findings all_node_findings
evaluate_doctor_replica_set status shard nodes now opts =
    let scan = scan_members status.set shard now status.members start_scan in
    scan.findings
    ++ (set_findings status shard scan
        ++ ((if not (is_zero scan.primary_write)
              then lag_findings status shard opts scan.primary_write status.members
              else [])
            ++ all_node_findings nodes))
