-- ===== src/Operations/Findings.antt =====
-- Which findings CurrentOperations reports for the operations that the servers show.
use mongo_overview_tool.Doctor.{second}
use mongo_overview_tool.Base.Int.{pos, leb_ℤ}
use mongo_overview_tool.Diagnostics.{ScopeType, bare_scope, FindingScope, DiagnosticFinding}
use mongo_overview_tool.Operations.{transaction_duration, duration_of, CurrentOperationSnapshot}
use mongo_overview_tool.Base.{◌*◌, ℕ, str_eq, ◌&&◌, Bool, String, if◌then◌else◌}

-- The scope of the findings of an operation.
abbrev pub scope_of : CurrentOperationSnapshot → FindingScope
scope_of o = record (bare_scope ScopeType.namespace) {
  shard = o.shard;
  node = o.host;
  namespace = o.namespace;
}

abbrev pub is_slow : CurrentOperationSnapshot → Bool
is_slow o = leb_ℤ (pos (30 * second)) (duration_of second o.seconds_running) && str_eq o.message ""

abbrev pub is_long_transaction : CurrentOperationSnapshot → Bool
is_long_transaction o = o.transaction_active && leb_ℤ (pos (60 * second)) (transaction_duration o)

abbrev has : String → (FindingScope → Bool) → DiagnosticFinding → Bool
has code q f = str_eq f.code code && q f.scope

abbrev one_if : Bool → ℕ
one_if b = if b then 1 else 0
