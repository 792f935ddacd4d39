-- ===== src/Diagnostics.antt =====
-- pkg/mot/diagnostics.go: findings, collector statuses and their order. The registry of collector
-- capabilities and its gate are in Diagnostics/Capability.antt.
pub mod Capability
pub mod Order
pub mod Sanitize
pub mod Summary
use mongo_overview_tool.Base.{
  ℕ, suc, String, Bool, true, false, ◌||◌, List, [], ◌∷◌, ◌++◌, map, Option, none, some, ltb, ◌==◌,
  if◌then◌else◌, not, keep, codes, lex_lt, lex_eq, str_lt, contains, lower, eq_iff,
}
use mongo_overview_tool.Base.Int.{ℤ}
use mongo_overview_tool.Base.Sort.{sort_stable}
use mongo_overview_tool.Errors.{Error, invalid}

-- A Go string type: its constants, and any other text (the empty one is the zero value).
pub data Severity : Type 0 where
  info warning critical : Severity
  other : String → Severity

pub data ScopeType : Type 0 where
  cluster replica_set node database namespace : ScopeType

scope_type_text : ScopeType → String
scope_type_text cluster = "cluster"
scope_type_text replica_set = "replica_set"
scope_type_text node = "node"
scope_type_text database = "database"
scope_type_text namespace = "namespace"

pub record FindingScope : Type 0 where
  pub type : ScopeType
  pub cluster : String
  pub replica_set : String
  pub shard : String
  pub node : String
  pub database : String
  pub namespace : String

-- A value of the evidence map. A float64 that is a quotient of two integers is kept as the two.
pub data Value : Type 0 where
  text : String → Value
  texts : List String → Value
  number : ℤ → Value
  quotient : ℤ → ℤ → Value
  -- Duration.Seconds() of that many nanoseconds
  seconds : ℕ → Value
  flag : Bool → Value

pub record DiagnosticFinding : Type 0 where
  pub code : String
  pub severity : Severity
  pub scope : FindingScope
  pub summary : String
  pub evidence : List (String × Value)
  pub recommendation : String

pub data CapabilityState : Type 0 where
  supported unsupported unauthorized skipped failed : CapabilityState

pub record CollectorStatus : Type 0 where
  pub name : String
  pub state : CapabilityState
  pub scope : FindingScope
  pub reason_code : String
  pub message : String

pub record FindingSummary : Type 0 where
  pub info_count : ℕ
  pub warning_count : ℕ
  pub critical_count : ℕ
  pub most_severe : Severity

-- A scope with a type and no other field.
abbrev pub bare_scope : ScopeType → FindingScope
bare_scope t = record {
  type = t;
  cluster = "";
  replica_set = "";
  shard = "";
  node = "";
  database = "";
  namespace = "";
}

unfoldable pub validate_severity : Severity → Option Error
validate_severity (other value) = some (invalid "invalid severity")
validate_severity s = none

unfoldable pub severity_rank : Severity → ℕ
severity_rank critical = 0
severity_rank warning = 1
severity_rank s = 2

-- The key is compared as a string: its code points, joined by zeros.
unfoldable pub scope_sort_key : FindingScope → List ℕ
unfolding scope_type_text
scope_sort_key scope =
    codes (scope_type_text scope.type)
    ++ (0 ∷ codes scope.cluster
        ++ (0 ∷ codes scope.replica_set
            ++ (0 ∷ codes scope.shard
                ++ (0 ∷ codes scope.node
                    ++ (0 ∷ codes scope.database ++ (0 ∷ codes scope.namespace))))))

unfoldable pub without_underscores : List ℕ → List ℕ
without_underscores [] = []
without_underscores (c ∷ cs) =
    let rest = without_underscores cs in if c == b'_' then rest else c ∷ rest

unfoldable pub contains_token : List ℕ → List String → Bool
contains_token key [] = false
contains_token key (t ∷ ts) = contains key (codes t) || contains_token key ts

abbrev pub sensitive_tokens : List String
sensitive_tokens =
    "command" ∷ "filter" ∷ "pipeline" ∷ "password" ∷ "credential" ∷ "uri" ∷ "client" ∷ "username"
    ∷ "user" ∷ "session" ∷ "lsid" ∷ "transactionid" ∷ "servererror" ∷ []

unfoldable pub is_sensitive_diagnostic_key : String → Bool
unfolding without_underscores contains_token contains lower
is_sensitive_diagnostic_key key =
    contains_token (lower (without_underscores (codes key))) sensitive_tokens

unfoldable pub sanitize_evidence : List (String × Value) → List (String × Value)
unfolding keep
sanitize_evidence evidence = keep (λ entry. not (is_sensitive_diagnostic_key entry.0)) evidence

unfoldable pub sanitize_finding : DiagnosticFinding → DiagnosticFinding
unfolding sanitize_evidence
sanitize_finding f = record f { evidence = sanitize_evidence f.evidence }

-- The comparison that the findings are sorted by.
unfoldable pub finding_less : DiagnosticFinding → DiagnosticFinding → Bool
unfolding severity_rank scope_sort_key lex_lt lex_eq str_lt
finding_less left right =
    if not (severity_rank left.severity == severity_rank right.severity)
    then ltb (severity_rank left.severity) (severity_rank right.severity)
    else if not (lex_eq (scope_sort_key left.scope) (scope_sort_key right.scope))
    then lex_lt (scope_sort_key left.scope) (scope_sort_key right.scope)
    else str_lt left.code right.code

unfoldable pub sanitize_and_sort_findings : List DiagnosticFinding → List DiagnosticFinding
unfolding sanitize_finding finding_less sort_stable
sanitize_and_sort_findings findings = sort_stable finding_less (map sanitize_finding findings)

unfoldable pub status_less : CollectorStatus → CollectorStatus → Bool
unfolding scope_sort_key lex_lt lex_eq str_lt
status_less left right =
    if not (lex_eq (codes left.name) (codes right.name))
    then str_lt left.name right.name
    else lex_lt (scope_sort_key left.scope) (scope_sort_key right.scope)

unfoldable pub sort_collector_statuses : List CollectorStatus → List CollectorStatus
unfolding status_less sort_stable
sort_collector_statuses statuses = sort_stable status_less statuses

-- The body of the loop of `summarizeFindings`.
count_severity : Severity → FindingSummary → FindingSummary
count_severity critical s = record s { critical_count = suc s.critical_count }
count_severity warning s = record s { warning_count = suc s.warning_count }
count_severity info s = record s { info_count = suc s.info_count }
count_severity (other value) s = s

count_severities : List DiagnosticFinding → FindingSummary → FindingSummary
unfolding count_severity
count_severities [] s = s
count_severities (f ∷ fs) s = count_severities fs (count_severity f.severity s)

most_severe_of : FindingSummary → Severity
most_severe_of s =
    if ltb 0 s.critical_count
    then critical
    else if ltb 0 s.warning_count
    then warning
    else if ltb 0 s.info_count
    then info
    else s.most_severe

abbrev pub empty_summary : FindingSummary
empty_summary = record {
  info_count = 0;
  warning_count = 0;
  critical_count = 0;
  most_severe = other "";
}

unfoldable pub summarize_findings : List DiagnosticFinding → FindingSummary
unfolding count_severities most_severe_of
summarize_findings findings =
    let summary = count_severities findings empty_summary in
    record summary { most_severe = most_severe_of summary }
