-- ===== src/Tests/Diagnostics.antt =====
-- Runs of Diagnostics.antt and Diagnostics/Capability.antt.
use mathlib.Core.List.{Perm}
use mongo_overview_tool.Base.{
  count, lower, str_eq, contains, Bool, keep, Option, any, some, ◌≡◌, refl, true, false, String,
  List, [], ◌∷◌, none, map,
}
use mongo_overview_tool.Base.Int.{pos}
use mongo_overview_tool.Base.Sort.{IsSorted}
use mongo_overview_tool.Diagnostics.{
  Severity, info, critical, ScopeType, bare_scope, Value, number, text, DiagnosticFinding,
  CapabilityState, supported, failed, CollectorStatus, sanitize_evidence, sanitize_finding,
  sanitize_and_sort_findings, is_sensitive_diagnostic_key,
}
use mongo_overview_tool.Diagnostics.Order.{comes_before, sanitize_and_sort_findings-IsSorted}
use mongo_overview_tool.Diagnostics.Sanitize.{
  sanitize_and_sort_findings_private, is_private, evidence_at,
}
use mongo_overview_tool.Diagnostics.Capability.{sharding, diagnostic_capability_gate}

abbrev evidence : List (String × Value)
evidence = ("Server_Error", text "raw") ∷ ("health", number (pos 0)) ∷ []

abbrev on_node : String → Severity → String → DiagnosticFinding
on_node code severity node = record {
  code = code;
  severity = severity;
  scope = record (bare_scope ScopeType.node) { node = node };
  summary = "";
  evidence = evidence;
  recommendation = "";
}

abbrev findings : List DiagnosticFinding
findings =
    on_node "node.recent_restart" info "b"
    ∷ on_node "replica.member_unhealthy" critical "b"
    ∷ on_node "replica.member_unhealthy" critical "a"
    ∷ []

sanitize_evidence_run : sanitize_evidence evidence ≡ ("health", number (pos 0)) ∷ []
unfolding sanitize_evidence is_sensitive_diagnostic_key
sanitize_evidence_run = refl

private_run : is_private "User_Password" ≡ true
unfolding any keep contains lower
private_run = refl

abbrev has_health : String → Option Value → Bool
has_health code none = false
has_health code (some value) = str_eq code "replica.member_unhealthy"

sanitize_and_sort_findings_private_example :
    (any (λ f. any (λ e. is_private e.0) f.evidence) (sanitize_and_sort_findings findings) ≡ false)
    × (count
          (λ f. has_health f.code (evidence_at "health" f.evidence))
          (sanitize_and_sort_findings findings)
        ≡ count (λ f. has_health f.code (evidence_at "health" f.evidence)) findings)
unfolding any keep contains lower
sanitize_and_sort_findings_private_example =
    sanitize_and_sort_findings_private findings "health" has_health refl

sanitize_and_sort_findings_example :
    IsSorted comes_before (sanitize_and_sort_findings findings)
    × Perm (sanitize_and_sort_findings findings) (map sanitize_finding findings)
sanitize_and_sort_findings_example = sanitize_and_sort_findings-IsSorted findings

abbrev status : String → CapabilityState → CollectorStatus
status name state = record {
  name = name;
  state = state;
  scope = bare_scope ScopeType.cluster;
  reason_code = "";
  message = "";
}

abbrev statuses : List CollectorStatus
statuses = status "server_status" supported ∷ status "oplog_window" failed ∷ []

gate_passed : (diagnostic_capability_gate "oplog_window" sharding 5 false).1 ≡ true
unfolding diagnostic_capability_gate
gate_passed = refl
