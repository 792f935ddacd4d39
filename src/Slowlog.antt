-- ===== src/Slowlog.antt =====
-- pkg/mot/slowlog.go: the summary of the slow log of a database, and the search for the host that has
-- a query.
pub mod Plans
pub mod Window
pub mod Address
use mongo_overview_tool.Base.Maps.{or_else, put, value_at}
use mongo_overview_tool.Operations.{anonymize_app_name}
use mongo_overview_tool.Base.Sort.{sort_stable}
use mongo_overview_tool.Diagnostics.{
  info, warning, ScopeType, quotient, text, bare_scope, number, Severity, Value, DiagnosticFinding,
}
use mongo_overview_tool.Base.{
  any, true, take, ◌++◌, length, ltb, codes, not, map, ◌==◌, ◌||◌, ◌-◌, str_lt, ◌&&◌, str_append,
  Bool, str_eq, leb, contains, keep, List, ℕ, Option, String, ◌∷◌, if◌then◌else◌, false, some, none,
  [],
}
use mongo_overview_tool.Base.Int.{
  ℤ, pos, ltb_ℤ, leb_ℤ, is_positive, is_zero, scale, wrap_int64, ◌+ℤ◌,
}
use mongo_overview_tool.Errors.{Error, Result, ok, err}

pub record SlowlogView : Type 0 where
  pub ns : String
  pub op : String
  pub query_hash : String
  pub plan_summary : String
  pub cnt : ℤ
  pub max_mills : ℤ
  pub min_mills : ℤ
  pub max_docs : ℤ
  pub max_keys_examined : Option ℤ
  pub max_docs_examined : Option ℤ
  pub max_docs_returned : Option ℤ
  pub max_planning_micros : Option ℤ
  pub max_cpu_nanos : Option ℤ
  pub app_names : List String
  pub error_count : ℤ
  pub collection_scan_count : ℤ
  pub max_ts : ℕ
  pub min_ts : ℕ

-- A ratio is the quotient of two integers.
pub record SlowlogSummaryItem : Type 0 where
  pub namespace : String
  pub operation : String
  pub query_hash : String
  pub count : ℤ
  pub max_millis : ℤ
  pub min_millis : ℤ
  pub max_docs : ℤ
  pub first_time : ℕ
  pub last_time : ℕ
  pub plan_summary : String
  pub max_keys_examined : Option ℤ
  pub max_docs_examined : Option ℤ
  pub max_docs_returned : Option ℤ
  pub worst_docs_to_returned : Option (ℤ × ℤ)
  pub worst_keys_to_returned : Option (ℤ × ℤ)
  pub max_planning_micros : Option ℤ
  pub max_cpu_nanos : Option ℤ
  pub app_names : List String
  pub error_count : ℤ
  pub collection_scan_count : ℤ

pub record DatabaseSlowlogSummary : Type 0 where
  pub database : String
  pub total : ℤ
  pub first_time : ℕ
  pub last_time : ℕ
  pub items : List SlowlogSummaryItem
  pub findings : List DiagnosticFinding

unfoldable pub safe_examined_ratio : Option ℤ → Option ℤ → Option (ℤ × ℤ)
safe_examined_ratio none returned = none
safe_examined_ratio (some examined) none = none
safe_examined_ratio (some examined) (some returned) =
    if leb_ℤ returned (pos 0) then none else some (examined, returned)

-- strings.ToUpper, as far as the letters A to Z of the result go: U+0131 and U+017F are the two
-- letters outside ASCII whose upper case is one of these.
to_upper : ℕ → ℕ
to_upper c =
    if leb b'a' c && leb c b'z'
    then c - 32
    else if c == 0x131
    then b'I'
    else if c == 0x17F
    then b'S'
    else c

-- slices.Compact
compact : List String → List String
compact [] = []
compact (v ∷ []) = v ∷ []
compact (v ∷ w ∷ vs) = let rest = compact (w ∷ vs) in if str_eq v w then rest else v ∷ rest

-- The names of the applications, the first ten of them.
unfoldable pub public_app_names : (String → String) → List String → List String
unfolding keep sort_stable str_lt compact anonymize_app_name
public_app_names digest names =
    let distinct = compact (
      sort_stable str_lt
        (map (anonymize_app_name digest) (keep (λ name. not (str_eq name "")) names))) in
    if ltb 10 (length distinct) then take 10 distinct else distinct

abbrev is_high_ratio : Option (ℤ × ℤ) → Bool
is_high_ratio none = false
is_high_ratio (some (examined, returned)) = leb_ℤ (scale 100 returned) examined

abbrev zero_return : Option ℤ → Option ℤ → Bool
zero_return (some examined) (some returned) = leb_ℤ (pos 100) examined && is_zero returned
zero_return examined none = false
zero_return none returned = false

abbrev or_zero : Option ℤ → ℤ
or_zero none = pos 0
or_zero (some value) = value

abbrev is_slow_planning : Option ℤ → ℤ → Bool
is_slow_planning none max_mills = false
is_slow_planning (some micros) max_mills =
    is_positive max_mills && leb_ℤ (wrap_int64 (scale 500 max_mills)) micros

abbrev ratio_value : Option (ℤ × ℤ) → Value
ratio_value none = number (pos 0)
ratio_value (some (examined, returned)) = quotient examined returned

finding : SlowlogView → String → Severity → String → List (String × Value) → DiagnosticFinding
finding log code severity summary evidence = record {
  code = code;
  severity = severity;
  scope = record (bare_scope ScopeType.namespace) { namespace = log.ns };
  summary = summary;
  evidence = evidence;
  recommendation = "";
}

-- The findings of convertSlowlogView.
unfoldable pub view_findings : SlowlogView → List DiagnosticFinding
unfolding contains to_upper safe_examined_ratio wrap_int64 finding
view_findings log =
    let ratio = safe_examined_ratio log.max_docs_examined log.max_docs_returned in
    let hash : String × Value = ("queryHash", text log.query_hash) in
    (if is_positive log.collection_scan_count
        || contains (map to_upper (codes log.plan_summary)) (codes "COLLSCAN")
      then finding log "query.collection_scan" warning "Profiler 记录中出现 collection scan"
          (("count", number log.collection_scan_count) ∷ hash ∷ [])
        ∷ []
      else [])
    ++ ((if is_high_ratio ratio
          then finding log "query.docs_examined_high" warning "扫描文档数显著高于返回文档数"
              (("ratio", ratio_value ratio) ∷ hash ∷ [])
            ∷ []
          else [])
        ++ ((if zero_return log.max_docs_examined log.max_docs_returned
              then finding log "query.zero_return_scan" warning "查询扫描了大量文档但没有返回结果"
                  (("docsExamined", number (or_zero log.max_docs_examined)) ∷ hash ∷ [])
                ∷ []
              else [])
            ++ ((if is_positive log.error_count
                  then finding log "query.error_observed" warning "Profiler 记录中观察到失败操作"
                      (("count", number log.error_count) ∷ hash ∷ [])
                    ∷ []
                  else [])
                ++ (if is_slow_planning log.max_planning_micros log.max_mills
                    then finding log "query.planning_time_high" info "查询规划耗时占总耗时比例较高" (
                        ("planningMicros", number (or_zero log.max_planning_micros))
                        ∷ ("maxMillis", number log.max_mills)
                        ∷ [])
                      ∷ []
                    else []))))

unfoldable pub convert_slowlog_view :
    (String → String) → SlowlogView → SlowlogSummaryItem × List DiagnosticFinding
unfolding public_app_names safe_examined_ratio view_findings
convert_slowlog_view digest log = (
  record {
    namespace = log.ns;
    operation = log.op;
    query_hash = log.query_hash;
    count = log.cnt;
    max_millis = log.max_mills;
    min_millis = log.min_mills;
    max_docs = log.max_docs;
    first_time = log.min_ts;
    last_time = log.max_ts;
    plan_summary = log.plan_summary;
    max_keys_examined = log.max_keys_examined;
    max_docs_examined = log.max_docs_examined;
    max_docs_returned = log.max_docs_returned;
    worst_docs_to_returned = safe_examined_ratio log.max_docs_examined log.max_docs_returned;
    worst_keys_to_returned = safe_examined_ratio log.max_keys_examined log.max_docs_returned;
    max_planning_micros = log.max_planning_micros;
    max_cpu_nanos = log.max_cpu_nanos;
    app_names = public_app_names digest log.app_names;
    error_count = log.error_count;
    collection_scan_count = log.collection_scan_count;
  },
  view_findings log,
)

abbrev pub plan_key : SlowlogView → String
plan_key log = str_append log.ns (str_append "\0" log.query_hash)

-- plansByQuery: the first plan of each query.
abbrev pub Plans : Type 0
Plans = List (String × String)

unfoldable pub plan_changed : Plans → SlowlogView → Bool
unfolding value_at
plan_changed plans log = elim (value_at (plan_key log) plans) [
  | none ↦ false
  | some previous ↦ not (str_eq previous log.plan_summary)
]

unfoldable pub note_plan : Plans → SlowlogView → Plans
unfolding value_at put
note_plan plans log = elim (value_at (plan_key log) plans) [
  | none ↦ put (plan_key log) log.plan_summary plans
  | some previous ↦ plans
]

unfoldable pub plan_findings : Plans → SlowlogView → List DiagnosticFinding
unfolding plan_changed finding
plan_findings plans log =
    if plan_changed plans log
    then finding log "query.plan_changed" info "同一 query hash 在观察窗口内出现多个 plan summary"
        (("queryHash", text log.query_hash) ∷ [])
      ∷ []
    else []

-- The body of the loop.
unfoldable pub add_view :
    (String → String) → Bool → Plans → SlowlogView → DatabaseSlowlogSummary → DatabaseSlowlogSummary
unfolding convert_slowlog_view plan_findings wrap_int64 ◌+ℤ◌
add_view digest is_first plans log summary =
    let (item, findings) = convert_slowlog_view digest log in
    record {
      database = summary.database;
      total = wrap_int64 (summary.total +ℤ log.cnt);
      first_time =
          if is_first || ltb log.min_ts summary.first_time then log.min_ts else summary.first_time;
      last_time =
          if is_first || ltb summary.last_time log.max_ts then log.max_ts else summary.last_time;
      items = summary.items ++ (item ∷ []);
      findings = summary.findings ++ (findings ++ plan_findings plans log);
    }

unfoldable pub add_views :
    (String → String)
    → Bool
    → Plans
    → List SlowlogView
    → DatabaseSlowlogSummary
    → DatabaseSlowlogSummary
unfolding add_view note_plan
add_views digest is_first plans [] summary = summary
add_views digest is_first plans (log ∷ logs) summary =
    add_views digest false (note_plan plans log) logs (add_view digest is_first plans log summary)

abbrev pub empty_summary : String → DatabaseSlowlogSummary
empty_summary database = record {
  database = database;
  total = pos 0;
  first_time = 0;
  last_time = 0;
  items = [];
  findings = [];
}

-- What databaseSlowlogSummaryWithLimit asks.
pub record Profiler : Type 0 where
  pub slot : Option Error
  pub connection : Option Error
  pub collections : Result (List String)
  pub view : Result (List SlowlogView)
  pub digest : String → String

unfoldable pub summary_of_view :
    (String → String) → String → List SlowlogView → Option DatabaseSlowlogSummary
unfolding add_views
summary_of_view digest database [] = none
summary_of_view digest database (log ∷ logs) =
    some (add_views digest true [] (log ∷ logs) (empty_summary database))

-- `ok none` is the source's false.
unfoldable pub summary_of_collections :
    Profiler → String → List String → Result (Option DatabaseSlowlogSummary)
unfolding summary_of_view
summary_of_collections p database [] = ok none
summary_of_collections p database (name ∷ names) = elim p.view [
  | err e ↦ err e
  | ok logs ↦ ok (summary_of_view p.digest database logs)
]

unfoldable pub database_slowlog_summary_with_limit :
    Profiler → String → Result (Option DatabaseSlowlogSummary)
unfolding summary_of_collections
database_slowlog_summary_with_limit p database = elim p.slot [
  | some e ↦ err e
  | none ↦ elim p.connection [
    | some e ↦ err e
    | none ↦ elim p.collections [
      | err e ↦ err e
      | ok names ↦ summary_of_collections p database names
    ]
  ]
]

pub record HostSlowlogSummary : Type 0 where
  pub address : String
  pub state : String
  pub databases : List DatabaseSlowlogSummary

pub record ReplicaSetSlowlogSummary : Type 0 where
  pub name : String
  pub hosts : List HostSlowlogSummary

abbrev pub has_query : String → String → DatabaseSlowlogSummary → Bool
has_query db query_hash d =
    str_eq d.database db && any (λ item. str_eq item.query_hash query_hash) d.items

unfoldable pub address_of_hosts : String → String → List HostSlowlogSummary → Option String
unfolding any
address_of_hosts db query_hash [] = none
address_of_hosts db query_hash (host ∷ hosts) =
    let rest = address_of_hosts db query_hash hosts in
    if any (has_query db query_hash) host.databases then some host.address else rest

-- `none` where the loops end; the source then returns the empty text.
unfoldable pub address_of_sets : String → String → List ReplicaSetSlowlogSummary → Option String
unfolding address_of_hosts
address_of_sets db query_hash [] = none
address_of_sets db query_hash (r ∷ rs) =
    let rest = address_of_sets db query_hash rs in
    or_else (address_of_hosts db query_hash r.hosts) rest

unfoldable pub find_slowlog_address : List ReplicaSetSlowlogSummary → String → String → String
unfolding address_of_sets
find_slowlog_address replica_sets db query_hash =
    elim (address_of_sets db query_hash replica_sets) [ none ↦ "" | some address ↦ address ]
