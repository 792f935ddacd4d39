-- ===== src/Tests/Doctor.antt =====
-- Runs of the doctor on a replica set of three members.
use mongo_overview_tool.Base.{
  ◌≡◌, ◌-◌, ◌*◌, ◌||◌, Bool, true, String, ℕ, List, [], ◌∷◌, none, some, arith, count, leb,
  if◌then◌else◌,
}
use mongo_overview_tool.Base.Int.{pos}
use mongo_overview_tool.Model.{ReplicaState, primary, secondary, down, RsMember, RsStatus}
use mongo_overview_tool.Diagnostics.{DiagnosticFinding}
use mongo_overview_tool.Doctor.{DoctorNodeSnapshot, default_doctor_options, second}
use mongo_overview_tool.Doctor.Reports.{reports}
use mongo_overview_tool.Doctor.Members.{evaluate_doctor_replica_set, is_zero}
use mongo_overview_tool.Doctor.Members.Counts.{is_lagging, is_slow}
use mongo_overview_tool.Doctor.Members.Verdicts.{
  last_primary, write_time_of, evaluate_doctor_replica_set_lag,
}
use mongo_overview_tool.Doctor.Window.{
  primary_applied, exceeds, comes_near, evaluate_oplog_window, evaluate_oplog_window_lem,
}

abbrev member : String → ReplicaState → ℕ → ℕ → RsMember
member name state health applied = record {
  name = name;
  health = health;
  state = state;
  state_str = "";
  election_date = 0;
  last_applied_wall_time = applied * second;
  last_heartbeat = 1000 * second;
  last_heartbeat_message = "";
  optime_date = 0;
}

-- One member is 400 seconds behind, and one is down.
abbrev status : RsStatus
status = record {
  set = "rs0";
  members = member "a" primary 1 1000 ∷ member "b" secondary 1 600 ∷ member "c" down 0 0 ∷ [];
  write_majority_count = pos 0;
}

-- The same set with its PRIMARY gone.
abbrev headless : RsStatus
headless = record {
  set = "rs0";
  members = member "a" primary 0 1000 ∷ member "b" secondary 1 600 ∷ [];
  write_majority_count = pos 0;
}

abbrev node : DoctorNodeSnapshot
node = record {
  replica_set = "rs0";
  shard = "";
  address = "a";
  uptime = some (pos 100);
  connections_used = some (pos 960);
  connections_free = some (pos 40);
  queue_total = none;
  cache_max = none;
  cache_used = none;
  eviction_pressure = none;
}

abbrev now : ℕ
now = 1001 * second

abbrev evaluated : List DiagnosticFinding
evaluated = evaluate_doctor_replica_set status "" (node ∷ []) now default_doctor_options

evaluate_doctor_replica_set_lag_example :
    let write = write_time_of (last_primary status.members) in
    (reports "replica.lag_critical" evaluated ≡ (
      if is_zero write then 0 else count (is_lagging default_doctor_options write) status.members))
    × (reports "replica.lag_high" evaluated ≡ (
        if is_zero write then 0 else count (is_slow default_doctor_options write) status.members))
evaluate_doctor_replica_set_lag_example =
    evaluate_doctor_replica_set_lag status "" (node ∷ []) now default_doctor_options

evaluate_oplog_window_example :
    let applied = primary_applied status.members in
    let silent = leb (900 * second) (500 * second) || is_zero applied in
    let found = evaluate_oplog_window status "" (500 * second) (900 * second) in
    (reports "replication.lag_exceeds_oplog_window" found ≡ (
      if silent then 0 else count (exceeds (900 * second - 500 * second) applied) status.members))
    × (reports "replication.lag_near_oplog_window" found ≡ (
        if silent
        then 0
        else count (comes_near (900 * second - 500 * second) applied) status.members))
evaluate_oplog_window_example =
    evaluate_oplog_window_lem status "" (500 * second) (900 * second) (omega arith)

abbrev is_restart : DiagnosticFinding → Bool
is_restart f = true
