-- ===== src/IndexAudit/Options.antt =====
-- What the options of the index audit are once they are normalized.
use mongo_overview_tool.Doctor.{default_node_concurrency}
use mongo_overview_tool.IndexAudit.Evaluate.{same}
use mongo_overview_tool.Errors.{ok, err}
use mongo_overview_tool.Errors.{Result}
use mongo_overview_tool.IndexAudit.{
  IndexAuditCheck, check_checks, default_index_observation, normalize_index_audit_options,
  known_checks, same_check, or_default, is_nil, IndexAuditOptions,
}
use mongo_overview_tool.Base.Int.{pos, is_positive, ltb_ℤ, ℤ}
use mongo_overview_tool.Base.{
  List, ◌∷◌, if◌then◌else◌, refl, [], any, all, arith, ◌≡◌, ◌&&◌, not, Bool, false, true,
}

abbrev is_not_negative : ℤ → Bool
is_not_negative value = not (ltb_ℤ value (pos 0))

-- Valid, with no default left to fill in.
abbrev pub is_normal : IndexAuditOptions → Bool
is_normal opts =
    is_positive opts.min_observation
    && (is_positive opts.max_collections
        && (is_positive opts.concurrency
            && (not (is_nil opts.checks)
                && (all (λ check. any (same_check check) known_checks) opts.checks
                    && same (is_nil opts.databases) opts.all_databases))))

abbrev pub is_normal_result : Result IndexAuditOptions → Bool
is_normal_result (err e) = true
is_normal_result (ok opts) = is_normal opts

abbrev pub normalize_again : Result IndexAuditOptions → Result IndexAuditOptions
normalize_again (err e) = err e
normalize_again (ok opts) = normalize_index_audit_options opts

default_lem :
    (value default : ℤ)
    → ltb_ℤ value (pos 0) ≡ false
    → is_positive default ≡ true
    → is_positive (or_default value default) ≡ true
default_lem value default h k = ground arith

positive_fixed : (value default : ℤ) → is_positive value ≡ true → or_default value default ≡ value
positive_fixed value default h = ground arith

positive_lem : (value : ℤ) → is_positive value ≡ true → ltb_ℤ value (pos 0) ≡ false
positive_lem value h = ground arith

known_lem : all (λ check. any (same_check check) known_checks) known_checks ≡ true
unfolding all any
known_lem = refl

-- The options with their defaults, before the checks are looked at.
abbrev filled : IndexAuditOptions → IndexAuditOptions
filled opts = record opts {
  min_observation = or_default opts.min_observation default_index_observation;
  max_collections = or_default opts.max_collections (pos 500);
  concurrency = or_default opts.concurrency default_node_concurrency;
  checks = if is_nil opts.checks then known_checks else opts.checks;
}

filled_checks :
    (checks : List IndexAuditCheck)
    → is_nil (if is_nil checks then known_checks else checks) ≡ false
filled_checks [] = refl
filled_checks (c ∷ cs) = refl

check_checks_normal :
    (opts : IndexAuditOptions)
    → is_positive opts.min_observation ≡ true
    → is_positive opts.max_collections ≡ true
    → is_positive opts.concurrency ≡ true
    → is_nil opts.checks ≡ false
    → same (is_nil opts.databases) opts.all_databases ≡ true
    → is_normal_result (check_checks opts) ≡ true
unfolding check_checks
check_checks_normal opts a b c d e = ground arith

normalize_normal :
    (opts : IndexAuditOptions) → is_normal_result (normalize_index_audit_options opts) ≡ true
unfolding normalize_index_audit_options
normalize_normal opts = ground (
  arith,
  default_lem opts.min_observation default_index_observation,
  default_lem opts.max_collections (pos 500),
  default_lem opts.concurrency default_node_concurrency,
  filled_checks opts.checks,
  check_checks_normal (filled opts),
)

normal_fixed :
    (opts : IndexAuditOptions)
    → is_normal opts ≡ true
    → normalize_index_audit_options opts ≡ ok opts
unfolding normalize_index_audit_options check_checks
normal_fixed opts h = ground (
  arith,
  positive_fixed opts.min_observation default_index_observation,
  positive_fixed opts.max_collections (pos 500),
  positive_fixed opts.concurrency default_node_concurrency,
)

again_lem :
    (result : Result IndexAuditOptions)
    → is_normal_result result ≡ true
    → normalize_again result ≡ result
again_lem (err e) h = refl
again_lem (ok opts) h = normal_fixed opts h

-- Options that are accepted come out with a positive observation time, limit and concurrency, with
-- at least one check and only known ones, and with either a list of databases or the wish for all;
-- and normalizing them once more changes nothing.
pub normalize_index_audit_options_lem :
    (opts : IndexAuditOptions)
    → (is_normal_result (normalize_index_audit_options opts) ≡ true)
      × (normalize_again (normalize_index_audit_options opts) ≡ normalize_index_audit_options opts)
normalize_index_audit_options_lem opts =
    (normalize_normal opts, again_lem (normalize_index_audit_options opts) (normalize_normal opts))
