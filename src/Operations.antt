-- ===== src/Operations.antt =====
-- pkg/mot/operations.go: the options, what becomes of the operations that the servers report, and
-- their findings. The choice of a source and the whole collector are in Operations/Collect.antt.
pub mod Collect
pub mod Findings
pub mod Fallback
pub mod Reports
use mongo_overview_tool.Base.Maps.{is_there}
use mongo_overview_tool.IndexAudit.Evaluate.{same}
use mongo_overview_tool.Diagnostics.{
  info, ScopeType, warning, bare_scope, quotient, DiagnosticFinding, Severity, Value,
}
use mongo_overview_tool.Doctor.{second}
use mongo_overview_tool.Base.{
  take, ◌%◌, length, ◌/◌, ◌||◌, str_append, codes, ◌+◌, not, map, str_eq, concat, ◌++◌, ltb, ◌*◌,
  Option, str_lt, is_space, List, ℕ, ◌&&◌, String, Bool, ◌∷◌, if◌then◌else◌, true, some, none, [],
}
use mongo_overview_tool.Base.Int.{ℤ, pos, ltb_ℤ, leb_ℤ, eq_ℤ, scale, wrap_int64}
use mongo_overview_tool.Errors.{Result, ok, err, invalid}
use mongo_overview_tool.IndexAudit.{or_default}

pub record CurrentOperationsOptions : Type 0 where
  pub min_duration : ℤ
  pub all_users : Bool
  pub current_user_only : Bool
  pub include_idle_transactions : Bool
  pub include_idle_cursors : Bool
  pub databases : List String
  pub namespaces : List String
  pub limit : ℤ
  pub max_time : ℤ

pub record CurrentOperationSnapshot : Type 0 where
  pub host : String
  pub shard : String
  pub namespace : String
  pub operation : String
  pub app_name : String
  pub query_hash : String
  pub plan_summary : String
  pub seconds_running : Option ℤ
  pub waiting_for_lock : Bool
  pub waiting_for_flow_control : Bool
  pub kill_pending : Bool
  pub transaction_active : Bool
  pub transaction_micros : Option ℤ
  pub message : String
  pub progress_done : Option ℤ
  pub progress_total : Option ℤ

-- The message is given by its bytes: it may be cut inside of a character.
pub record CurrentOperation : Type 0 where
  pub host : String
  pub shard : String
  pub namespace : String
  pub operation : String
  pub app_name : String
  pub query_hash : String
  pub plan_summary : String
  pub running_duration : ℤ
  pub waiting_for_lock : Bool
  pub waiting_for_flow_control : Bool
  pub kill_pending : Bool
  pub transaction_active : Bool
  pub transaction_duration : ℤ
  pub message : List ℕ
  pub progress_done : Option ℤ
  pub progress_total : Option ℤ

unfoldable pub normalize_current_operations_options :
    CurrentOperationsOptions → Result CurrentOperationsOptions
normalize_current_operations_options opts =
    if opts.all_users && opts.current_user_only
    then err (invalid "all users and current user only are mutually exclusive")
    else if ltb_ℤ opts.min_duration (pos 0)
    then err (invalid "min duration must not be negative")
    else if ltb_ℤ opts.limit (pos 0)
    then err (invalid "limit must not be negative")
    else if ltb_ℤ opts.max_time (pos 0)
    then err (invalid "max time must not be negative")
    else ok (record opts {
      min_duration = or_default opts.min_duration (pos (2 * second));
      limit = or_default opts.limit (pos 100);
      all_users = if opts.current_user_only then opts.all_users else true;
    })

-- The UTF-8 bytes of a code point.
utf8 : ℕ → List ℕ
utf8 c =
    if ltb c 0x80
    then c ∷ []
    else if ltb c 0x800
    then (0xC0 + c / 0x40) ∷ (0x80 + c % 0x40) ∷ []
    else if ltb c 0x10000
    then (0xE0 + c / 0x1000) ∷ (0x80 + c / 0x40 % 0x40) ∷ (0x80 + c % 0x40) ∷ []
    else (0xF0 + c / 0x40000)
      ∷ (0x80 + c / 0x1000 % 0x40)
      ∷ (0x80 + c / 0x40 % 0x40)
      ∷ (0x80 + c % 0x40)
      ∷ []

abbrev add_word : List ℕ → List (List ℕ) → List (List ℕ)
add_word [] words = words
add_word (c ∷ cs) words = (c ∷ cs) ∷ words

-- The letters up to the first space, and the words behind it.
split_words : List ℕ → List ℕ × List (List ℕ)
unfolding is_space
split_words [] = ([], [])
split_words (c ∷ cs) =
    let rest = split_words cs in
    if is_space c then ([], add_word rest.0 rest.1) else (c ∷ rest.0, rest.1)

join_words : List (List ℕ) → List ℕ
join_words [] = []
join_words (w ∷ []) = w
join_words (w ∷ v ∷ ws) = w ++ (b' ' ∷ join_words (v ∷ ws))

-- strings.Join(strings.Fields(text), " ")
unfoldable pub one_line : List ℕ → List ℕ
unfolding split_words join_words
one_line text = let (word, words) = split_words text in join_words (add_word word words)

unfoldable pub safe_operation_message : String → List ℕ
unfolding one_line utf8
safe_operation_message message =
    let bytes = concat (map utf8 (one_line (codes message))) in
    if ltb 160 (length bytes) then take 160 bytes else bytes

-- time.Duration(*value) * unit
abbrev pub duration_of : ℕ → Option ℤ → ℤ
duration_of unit none = pos 0
duration_of unit (some value) = wrap_int64 (scale unit value)

-- The first four bytes of SHA-256 in hexadecimal digits are a parameter.
unfoldable pub anonymize_app_name : (String → String) → String → String
anonymize_app_name digest app_name =
    if str_eq app_name "" then "" else str_append "app:" (digest app_name)

unfoldable pub convert_current_operation :
    (String → String) → CurrentOperationSnapshot → CurrentOperation
unfolding anonymize_app_name safe_operation_message wrap_int64
convert_current_operation digest o = record {
  host = o.host;
  shard = o.shard;
  namespace = o.namespace;
  operation = o.operation;
  app_name = anonymize_app_name digest o.app_name;
  query_hash = o.query_hash;
  plan_summary = o.plan_summary;
  running_duration = duration_of second o.seconds_running;
  waiting_for_lock = o.waiting_for_lock;
  waiting_for_flow_control = o.waiting_for_flow_control;
  kill_pending = o.kill_pending;
  transaction_active = o.transaction_active;
  transaction_duration = duration_of 1000 o.transaction_micros;
  message = safe_operation_message o.message;
  progress_done = o.progress_done;
  progress_total = o.progress_total;
}

unfoldable pub convert_current_operations :
    (String → String) → List CurrentOperationSnapshot → List CurrentOperation
unfolding convert_current_operation
convert_current_operations digest raw = map (convert_current_operation digest) raw

abbrev pub transaction_duration : CurrentOperationSnapshot → ℤ
transaction_duration o = elim o.transaction_micros [
  | none ↦ duration_of second o.seconds_running
  | some micros ↦ duration_of 1000 (some micros)
]

abbrev running_seconds : ℤ → List (String × Value)
running_seconds duration = ("runningSeconds", quotient duration (pos second)) ∷ []

abbrev pub is_maintenance : CurrentOperationSnapshot → Bool
is_maintenance o =
    not (str_eq o.message "") || (is_there o.progress_done || is_there o.progress_total)

finding :
    CurrentOperationSnapshot
    → String
    → Severity
    → String
    → List (String × Value)
    → DiagnosticFinding
finding o code severity summary evidence = record {
  code = code;
  severity = severity;
  scope = record (bare_scope ScopeType.namespace) {
    shard = o.shard;
    node = o.host;
    namespace = o.namespace;
  };
  summary = summary;
  evidence = evidence;
  recommendation = "";
}

-- The body of the loop.
unfoldable pub operation_findings : CurrentOperationSnapshot → List DiagnosticFinding
unfolding wrap_int64 finding
operation_findings o =
    let duration = duration_of second o.seconds_running in
    (if o.waiting_for_lock
      then finding o "operation.waiting_for_lock" warning "操作正在等待锁" (running_seconds duration) ∷ []
      else [])
    ++ ((if leb_ℤ (pos (30 * second)) duration && str_eq o.message ""
          then finding o "operation.long_running" warning "操作运行时间超过 30 秒" (running_seconds duration)
            ∷ []
          else [])
        ++ ((if o.transaction_active && leb_ℤ (pos (60 * second)) (transaction_duration o)
              then finding o "transaction.long_running" warning "事务运行时间超过 60 秒"
                  (running_seconds (transaction_duration o))
                ∷ []
              else [])
            ++ ((if o.waiting_for_flow_control
                  then finding o "operation.waiting_for_flow_control" warning "操作正在等待 flow control"
                      []
                    ∷ []
                  else [])
                ++ ((if o.kill_pending
                      then finding o "operation.kill_pending" info "操作已标记终止但尚未退出" [] ∷ []
                      else [])
                    ++ (if is_maintenance o
                        then finding o "maintenance.in_progress" info "检测到正在进行的维护操作" [] ∷ []
                        else [])))))

unfoldable pub evaluate_current_operation_findings :
    List CurrentOperationSnapshot → List DiagnosticFinding
unfolding operation_findings
evaluate_current_operation_findings operations = concat (map operation_findings operations)

-- The comparison that the operations are sorted by.
unfoldable pub operation_less : CurrentOperation → CurrentOperation → Bool
unfolding str_lt
operation_less left right =
    if not (same left.waiting_for_lock right.waiting_for_lock)
    then left.waiting_for_lock
    else if not (same left.transaction_active right.transaction_active)
    then left.transaction_active
    else if not (eq_ℤ left.running_duration right.running_duration)
    then ltb_ℤ right.running_duration left.running_duration
    else str_lt left.namespace right.namespace
