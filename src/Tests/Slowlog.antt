-- ===== src/Tests/Slowlog.antt =====
-- Runs of the summary of a slow log.
use mongo_overview_tool.Slowlog.Address.{
  find_slowlog_address_lem, hosts_with, first_address, or_no_address,
}
use mongo_overview_tool.Base.Int.{pos}
use mongo_overview_tool.Errors.{ok}
use mongo_overview_tool.Slowlog.Window.{database_slowlog_summary_lem, IsSummary}
use mongo_overview_tool.Slowlog.{
  ReplicaSetSlowlogSummary, empty_summary, SlowlogView, find_slowlog_address,
  database_slowlog_summary_with_limit, public_app_names, add_views, DatabaseSlowlogSummary,
  Profiler,
}
use mongo_overview_tool.Base.{map, ◌≡◌, ℕ, List, String, ◌∷◌, refl, true, some, none, []}

abbrev entry : String → ℕ → ℕ → SlowlogView
entry plan min_ts max_ts = record {
  ns = "shop.orders";
  op = "query";
  query_hash = "A1";
  plan_summary = plan;
  cnt = pos 4;
  max_mills = pos 900;
  min_mills = pos 120;
  max_docs = pos 5000;
  max_keys_examined = none;
  max_docs_examined = some (pos 5000);
  max_docs_returned = some (pos 10);
  max_planning_micros = none;
  max_cpu_nanos = none;
  app_names = "web" ∷ "" ∷ "web" ∷ [];
  error_count = pos 0;
  collection_scan_count = pos 0;
  max_ts = max_ts;
  min_ts = min_ts;
}

abbrev logs : List SlowlogView
logs = entry "COLLSCAN" 20 90 ∷ entry "IXSCAN" 10 70 ∷ []

abbrev profiler : Profiler
profiler = record {
  slot = none;
  connection = none;
  collections = ok ("system.profile" ∷ []);
  view = ok logs;
  digest = λ name. "00000000";
}

abbrev summary : DatabaseSlowlogSummary
summary = add_views profiler.digest true [] logs (empty_summary "shop")

first_time_run : summary.first_time ≡ 10
unfolding add_views
first_time_run = refl

findings_run :
    map (λ f. f.code) summary.findings
    ≡ "query.collection_scan" ∷ "query.docs_examined_high" ∷ "query.docs_examined_high"
      ∷ "query.plan_changed" ∷ []
unfolding add_views
findings_run = refl

app_names_run : public_app_names profiler.digest ("web" ∷ "" ∷ "web" ∷ []) ≡ "app:00000000" ∷ []
unfolding public_app_names
app_names_run = refl

answered_run : database_slowlog_summary_with_limit profiler "shop" ≡ ok (some summary)
unfolding database_slowlog_summary_with_limit
answered_run = refl

database_slowlog_summary_example : IsSummary profiler.digest logs summary
database_slowlog_summary_example =
    database_slowlog_summary_lem profiler "shop" logs summary refl answered_run

abbrev replica_sets : List ReplicaSetSlowlogSummary
replica_sets =
    record {
      name = "rs0";
      hosts = record { address = "mongo01"; state = "PRIMARY"; databases = summary ∷ [] } ∷ [];
    }
    ∷ []

find_slowlog_address_example :
    find_slowlog_address replica_sets "shop" "A1"
    ≡ or_no_address (first_address (hosts_with "shop" "A1" replica_sets))
find_slowlog_address_example = find_slowlog_address_lem replica_sets "shop" "A1"
