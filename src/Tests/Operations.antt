-- ===== src/Tests/Operations.antt =====
-- Runs of the collector for current operations.
use mongo_overview_tool.Doctor.{second}
use mongo_overview_tool.Diagnostics.Capability.{sharding}
use mongo_overview_tool.Errors.{command, ok, err}
use mongo_overview_tool.Base.Int.{pos}
use mongo_overview_tool.Operations.Fallback.{
  collect_current_operations_with_visibility_lem, load, IsExplained,
}
use mongo_overview_tool.Operations.Collect.{
  supported_status, collect_current_operations_for_wire_version,
  collect_current_operations_with_visibility, Visible, Server, CurrentOperationsQuery, Collector,
}
use mongo_overview_tool.Operations.{safe_operation_message, CurrentOperationSnapshot}
use mongo_overview_tool.Base.{
  codes, ◌*◌, ◌≡◌, List, ◌∷◌, if◌then◌else◌, refl, false, true, some, none, [],
}

abbrev idle : CurrentOperationSnapshot
idle = record {
  host = "mongo01";
  shard = "shard01";
  namespace = "shop.orders";
  operation = "query";
  app_name = "";
  query_hash = "";
  plan_summary = "IXSCAN";
  seconds_running = some (pos 3);
  waiting_for_lock = false;
  waiting_for_flow_control = false;
  kill_pending = false;
  transaction_active = false;
  transaction_micros = none;
  message = "";
  progress_done = none;
  progress_total = none;
}

abbrev slow : CurrentOperationSnapshot
slow = record idle { seconds_running = some (pos 45); waiting_for_lock = true }

abbrev busy : List CurrentOperationSnapshot
busy = idle ∷ slow ∷ []

abbrev own_operations : List CurrentOperationSnapshot
own_operations = idle ∷ []

-- A server that does not let the caller see the operations of others.
abbrev guarded : Collector
guarded query = if query.all_users then err (command 13 []) else ok own_operations

abbrev query : CurrentOperationsQuery
query = record {
  min_duration = pos (2 * second);
  all_users = true;
  include_idle_transactions = false;
  include_idle_cursors = false;
  databases = [];
  namespaces = [];
  limit = pos 100;
  max_time = pos 0;
}

abbrev server : Server
server = record {
  context = none;
  connection = none;
  detected = ok (sharding, 17);
  slot = none;
  aggregation = guarded;
  command = guarded;
  now = 0;
  digest = λ name. "00000000";
}

abbrev guarded_answer : Visible
guarded_answer = collect_current_operations_with_visibility query (load 17 guarded guarded)

retreat_run : guarded_answer.visibility ≡ "current_user"
unfolding collect_current_operations_with_visibility collect_current_operations_for_wire_version
retreat_run = refl

message_run : safe_operation_message "  Index  Build: " ≡ codes "Index Build:"
unfolding safe_operation_message
message_run = refl

collect_current_operations_with_visibility_example :
    IsExplained 17 guarded guarded query guarded_answer
collect_current_operations_with_visibility_example =
    collect_current_operations_with_visibility_lem 17 guarded guarded query

abbrev visible : Visible
visible = record {
  answer = ok busy;
  source = "aggregation";
  visibility = "all_users";
  status = supported_status;
}
