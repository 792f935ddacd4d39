-- ===== src/Doctor/Options.antt =====
-- What the options of the doctor are once they are normalized, and which findings they let through.
use mongo_overview_tool.Base.{
  Bool, true, false, ◌&&◌, List, [], ◌∷◌, leb, ◌≡◌, refl, arith, count, keep,
}
use mongo_overview_tool.Base.Int.{ltb_ℤ, is_positive}
use mongo_overview_tool.Errors.{Result, ok, err}
use mongo_overview_tool.Diagnostics.{
  Severity, info, warning, critical, other, severity_rank, validate_severity, DiagnosticFinding,
}
use mongo_overview_tool.Doctor.{
  DoctorOptions, normalize_doctor_options, after_severity, check_lag, default_severity,
  filter_findings_by_minimum_severity,
}

-- Valid, with no default left to fill in.
abbrev pub is_normal : DoctorOptions → Bool
is_normal opts =
    is_positive opts.node_concurrency
    && (is_positive opts.replication_lag_warning
        && (is_positive opts.replication_lag_critical
            && ltb_ℤ opts.replication_lag_warning opts.replication_lag_critical))

abbrev is_known : Severity → Bool
is_known (other value) = false
is_known s = true

abbrev pub is_normal_result : Result DoctorOptions → Bool
is_normal_result (err e) = true
is_normal_result (ok opts) = is_known opts.minimum_severity && is_normal opts

-- Normalizing the options that normalizing gave.
abbrev pub normalize_again : Result DoctorOptions → Result DoctorOptions
normalize_again (err e) = err e
normalize_again (ok opts) = normalize_doctor_options opts

after_severity-IsNormal :
    (severity : Severity) (opts : DoctorOptions)
    → is_normal_result
        (after_severity (validate_severity severity) (record opts { minimum_severity = severity }))
      ≡ true
unfolding after_severity check_lag validate_severity
after_severity-IsNormal info opts = ground arith
after_severity-IsNormal warning opts = ground arith
after_severity-IsNormal critical opts = ground arith
after_severity-IsNormal (other value) opts = refl

normal_fixed :
    (severity : Severity) (opts : DoctorOptions)
    → is_known severity ≡ true
    → is_normal opts ≡ true
    → normalize_doctor_options (record opts { minimum_severity = severity })
      ≡ ok (record opts { minimum_severity = severity })
unfolding normalize_doctor_options after_severity check_lag validate_severity
normal_fixed info opts k h = ground arith
normal_fixed warning opts k h = ground arith
normal_fixed critical opts k h = ground arith
normal_fixed (other value) opts k h = ground arith

again_lem :
    (result : Result DoctorOptions)
    → is_normal_result result ≡ true
    → normalize_again result ≡ result
again_lem (err e) h = refl
again_lem (ok opts) h = normal_fixed opts.minimum_severity opts (ground arith) (ground arith)

-- Options that are accepted come out with a known severity, a positive concurrency and positive lag
-- bounds of which the warning is the lower one; and normalizing them once more changes nothing.
pub normalize_doctor_options_lem :
    (opts : DoctorOptions)
    → (is_normal_result (normalize_doctor_options opts) ≡ true)
      × (normalize_again (normalize_doctor_options opts) ≡ normalize_doctor_options opts)
unfolding normalize_doctor_options
normalize_doctor_options_lem opts =
    let normal = after_severity-IsNormal (default_severity opts.minimum_severity) opts in
    (normal, again_lem (normalize_doctor_options opts) normal)

-- The filter keeps, of the findings that pass any test, exactly those that are as severe as the
-- minimum.
pub filter_findings_by_minimum_severity_lem :
    (p : DiagnosticFinding → Bool) (findings : List DiagnosticFinding) (minimum : Severity)
    → count p (filter_findings_by_minimum_severity findings minimum)
      ≡ count (λ f. p f && leb (severity_rank f.severity) (severity_rank minimum)) findings
unfolding filter_findings_by_minimum_severity keep count
filter_findings_by_minimum_severity_lem p [] minimum = refl
filter_findings_by_minimum_severity_lem p (f ∷ fs) minimum =
    ground (arith, filter_findings_by_minimum_severity_lem p fs minimum)
