-- ===== src/Operations/Reports.antt =====
-- What Client.CurrentOperations returns.
use mongo_overview_tool.Diagnostics.{DiagnosticFinding}
use mongo_overview_tool.Errors.{is_unauthorized_error, Error, Result, ok}
use mongo_overview_tool.Operations.Collect.{Outcome}
use mongo_overview_tool.Base.Int.{ltb_ℤ, eq_ℤ}
use mongo_overview_tool.IndexAudit.Evaluate.{same}
use mongo_overview_tool.Base.{
  Option, ◌||◌, [], List, some, none, str_lt, not, ◌&&◌, Bool, if◌then◌else◌,
}
use mongo_overview_tool.Operations.{CurrentOperationSnapshot, CurrentOperation}
use mongo_overview_tool.Errors.{ok, err}
use mathlib.Core.List.Perm
use mathlib.Core.List.{Perm}
use mongo_overview_tool.Base.Chains.{chain}

-- What has a flag comes before what does not.
flag_less : (CurrentOperation → Bool) → CurrentOperation → CurrentOperation → Bool
flag_less key x y = key x && not (key y)

order_by_flags : CurrentOperation → CurrentOperation → Bool
order_by_flags =
    chain (λ x y. same x.waiting_for_lock y.waiting_for_lock) (flag_less (λ o. o.waiting_for_lock))
      (chain (λ x y. same x.transaction_active y.transaction_active)
        (flag_less (λ o. o.transaction_active))
        (chain (λ x y. eq_ℤ x.running_duration y.running_duration)
          (λ x y. ltb_ℤ y.running_duration x.running_duration)
          (λ x y. str_lt x.namespace y.namespace)))

-- What waits for a lock comes first, then what is in an active transaction, then what runs longer,
-- then the smaller namespace.
abbrev pub comes_first : CurrentOperation → CurrentOperation → Bool
comes_first x y =
    (x.waiting_for_lock && not y.waiting_for_lock)
    || (not (y.waiting_for_lock && not x.waiting_for_lock)
        && ((x.transaction_active && not y.transaction_active)
            || (not (y.transaction_active && not x.transaction_active)
                && (ltb_ℤ y.running_duration x.running_duration
                    || (not (ltb_ℤ x.running_duration y.running_duration)
                        && str_lt x.namespace y.namespace)))))

-- The operations that an answer has.
abbrev pub given : Result (List CurrentOperationSnapshot) → List CurrentOperationSnapshot
given (ok raw) = raw
given (err e) = []

abbrev pub operations_of : Outcome → List CurrentOperation
operations_of (none, e) = []
operations_of (some r, e) = r.operations

abbrev pub findings_of : Outcome → List DiagnosticFinding
findings_of (none, e) = []
findings_of (some r, e) = r.findings

-- The error of an answer that is more than a missing permission.
abbrev pub error_of : Result (List CurrentOperationSnapshot) → Option Error
error_of (ok raw) = none
error_of (err e) = if is_unauthorized_error e then none else some e
