-- ===== src/IndexAudit/Evaluate.antt =====
-- pkg/mot/index_audit.go: evaluateIndexAuditCollection, the findings on the indexes of one
-- collection. The nodes are those that the caller counted, so their number is not negative.
use mongo_overview_tool.Diagnostics.{
  number, quotient, ScopeType, text, sanitize_and_sort_findings, info, warning, bare_scope, flag,
  DiagnosticFinding, FindingScope, Value,
}
use mongo_overview_tool.Base.Int.{pos, sub_ℕ, ltb_ℤ, eq_ℤ, is_zero, ℤ}
use mongo_overview_tool.Base.Maps.{group_by}
use mongo_overview_tool.Base.Sort.{sort_stable}
use mongo_overview_tool.IndexAudit.{
  space, space, building, redundant, unused, CollectionIndexAudit, includes_index_check,
  IndexObservation, IndexAuditOptions,
}
use mongo_overview_tool.Base.{
  ltb, ◌++◌, map, ◌||◌, length, ◌==◌, concat, leb, ◌&&◌, ℕ, str_eq, not, any, str_lt, List, Option,
  String, Bool, ◌∷◌, if◌then◌else◌, suc, false, true, some, none, [],
}

abbrev pub same : Bool → Bool → Bool
same true b = b
same false b = not b

abbrev is_id : String → Bool
is_id name = str_eq name "_id_"

-- The two variables of the inner loop on usage.
pub record Usage : Type 0 where
  pub complete : Bool
  pub unused : Bool

abbrev pub is_settled : IndexAuditOptions → ℕ → IndexObservation → Bool
is_settled opts now o =
    not ((o.since == 0) || (ltb_ℤ (sub_ℕ now o.since) opts.min_observation || o.building))

unfoldable pub scan_usage : IndexAuditOptions → ℕ → List IndexObservation → Usage → Usage
scan_usage opts now [] usage = usage
scan_usage opts now (o ∷ os) usage = scan_usage opts now os (record {
  complete = usage.complete && is_settled opts now o;
  unused = usage.unused && is_zero o.ops;
})

abbrev is_present : Option ℤ → Bool
is_present none = false
is_present (some n) = true

properties_evidence : List IndexObservation → List (String × Value)
properties_evidence [] = []
properties_evidence (o ∷ os) =
    ("unique", flag o.unique)
    ∷ ("sparse", flag o.sparse)
    ∷ ("partial", flag o.partial)
    ∷ ("hidden", flag o.hidden)
    ∷ ("specialType", text o.special_type)
    ∷ ("ttl", flag (is_present o.expire_after_seconds))
    ∷ []

abbrev pub namespace_scope : String → FindingScope
namespace_scope namespace = record (bare_scope ScopeType.namespace) { namespace = namespace }

unfoldable pub usage_finding :
    String → ℕ → Bool → Bool → String → List IndexObservation → DiagnosticFinding
unfolding properties_evidence
usage_finding namespace expected_nodes can_determine complete name observations = record {
  code = if complete then "index.unused_candidate" else "index.usage_inconclusive";
  severity = if complete then warning else info;
  scope = namespace_scope namespace;
  summary = if complete then "索引在完整观察窗口内未记录使用，需结合查询模式人工复核" else "索引使用证据不完整，不能判定为长期零使用";
  evidence =
      ("indexName", text name)
      ∷ ("observedNodes", number (pos (length observations)))
      ∷ ("expectedNodes", number (pos expected_nodes))
      ∷ ((if can_determine then [] else ("ownershipCoverage", text "unknown") ∷ [])
          ++ properties_evidence observations);
  recommendation = "";
}

abbrev pub usage_of : IndexAuditOptions → ℕ → Bool → ℕ → List IndexObservation → Usage
usage_of opts now can_determine expected_nodes observations =
    scan_usage opts now observations (record {
      complete = can_determine && ((length observations == expected_nodes) && ltb 0 expected_nodes);
      unused = true;
    })

-- The body of the loop over the names.
unfoldable pub unused_findings :
    String
    → ℕ
    → Bool
    → IndexAuditOptions
    → ℕ
    → String × List IndexObservation
    → List DiagnosticFinding
unfolding scan_usage usage_finding
unused_findings namespace expected_nodes can_determine opts now (name, observations) =
    let usage = usage_of opts now can_determine expected_nodes observations in
    if is_id name
    then []
    else if usage.unused || not usage.complete
    then usage_finding namespace expected_nodes can_determine usage.complete name observations ∷ []
    else []

unfoldable pub equal_optional_int64 : Option ℤ → Option ℤ → Bool
equal_optional_int64 none none = true
equal_optional_int64 none (some b) = false
equal_optional_int64 (some a) none = false
equal_optional_int64 (some a) (some b) = eq_ℤ a b

unfoldable pub compatible_index_properties : IndexObservation → IndexObservation → Bool
unfolding equal_optional_int64
compatible_index_properties a b =
    same a.unique b.unique
    && (same a.sparse b.sparse
        && (same a.hidden b.hidden
            && (str_eq a.partial_filter_fingerprint b.partial_filter_fingerprint
                && (str_eq a.wildcard_projection_fingerprint b.wildcard_projection_fingerprint
                    && (str_eq a.collation_fingerprint b.collation_fingerprint
                        && equal_optional_int64 a.expire_after_seconds b.expire_after_seconds)))))

-- The loop of keyPrefix; b is longer than a.
same_fields : List (String × String) → List (String × String) → Bool
same_fields [] bs = true
same_fields (a ∷ later) [] = false
same_fields (a ∷ later) (b ∷ bs) = str_eq a.0 b.0 && str_eq a.1 b.1 && same_fields later bs

unfoldable pub key_prefix : List (String × String) → List (String × String) → Bool
unfolding same_fields
key_prefix a b = if leb (length b) (length a) then false else same_fields a b

unfoldable pub first_definition : String × List IndexObservation → List IndexObservation
first_definition (name, []) = []
first_definition (name, o ∷ os) = o ∷ []

unfoldable pub definition_less : IndexObservation → IndexObservation → Bool
unfolding str_lt
definition_less a b = str_lt a.name b.name

unfoldable pub first_index_definitions :
    List (String × List IndexObservation) → List IndexObservation
unfolding first_definition definition_less sort_stable
first_index_definitions by_name =
    sort_stable definition_less (concat (map first_definition by_name))

unfoldable pub redundant_finding : String → IndexObservation → IndexObservation → DiagnosticFinding
redundant_finding namespace a b = record {
  code = "index.redundant_prefix_candidate";
  severity = info;
  scope = namespace_scope namespace;
  summary = "索引 key pattern 是另一索引的前缀，需结合慢日志和查询模式人工复核";
  evidence = ("indexName", text a.name) ∷ ("coveringIndexName", text b.name) ∷ [];
  recommendation = "";
}

-- The loop over j, from j on.
unfoldable pub redundant_row :
    String → ℕ → IndexObservation → ℕ → List IndexObservation → List DiagnosticFinding
unfolding compatible_index_properties key_prefix redundant_finding
redundant_row namespace i a j [] = []
redundant_row namespace i a j (b ∷ bs) =
    (if (i == j) || (not (compatible_index_properties a b) || not (key_prefix a.key b.key))
      then []
      else redundant_finding namespace a b ∷ [])
    ++ redundant_row namespace i a (suc j) bs

-- The loop over i, from i on.
unfoldable pub redundant_rows :
    String → ℕ → List IndexObservation → List IndexObservation → List DiagnosticFinding
unfolding redundant_row
redundant_rows namespace i [] definitions = []
redundant_rows namespace i (a ∷ later) definitions =
    redundant_row namespace i a 0 definitions ++ redundant_rows namespace (suc i) later definitions

unfoldable pub building_findings : String → String × List IndexObservation → List DiagnosticFinding
unfolding any
building_findings namespace (name, observations) =
    if any (λ o. o.building) observations
    then record {
      code = "index.build_in_progress";
      severity = info;
      scope = namespace_scope namespace;
      summary = "索引正在构建，使用结论暂不稳定";
      evidence = ("indexName", text name) ∷ [];
      recommendation = "";
    }
      ∷ []
    else []

unfoldable pub space_findings : String → Option (ℤ × ℤ) → List DiagnosticFinding
space_findings namespace none = []
space_findings namespace (some ratio) =
    record {
      code = "index.space_ratio";
      severity = info;
      scope = namespace_scope namespace;
      summary = "索引与逻辑数据空间占比，仅作为容量复核证据";
      evidence = ("indexToDataRatio", quotient ratio.0 ratio.1) ∷ [];
      recommendation = "";
    }
    ∷ []

-- The variadic argument.
abbrev pub can_determine_ownership : List Bool → Bool
can_determine_ownership [] = true
can_determine_ownership (known ∷ rest) = known

abbrev pub by_index_name : List IndexObservation → List (String × List IndexObservation)
by_index_name indexes = group_by (λ o. o.name) indexes

abbrev pub when : Bool → List DiagnosticFinding → List DiagnosticFinding
when requested findings = if requested then findings else []

unfoldable pub evaluate_index_audit_collection :
    CollectionIndexAudit → ℕ → IndexAuditOptions → ℕ → List Bool → List DiagnosticFinding
unfolding group_by includes_index_check unused_findings redundant_rows first_index_definitions
    building_findings space_findings sanitize_and_sort_findings
evaluate_index_audit_collection collection expected_nodes opts now ownership_known =
    let by_name = by_index_name collection.indexes in
    let can_determine = can_determine_ownership ownership_known in
    let definitions = first_index_definitions by_name in
    sanitize_and_sort_findings (
      when (includes_index_check opts.checks unused) (
        concat (
          map (unused_findings collection.namespace expected_nodes can_determine opts now) by_name))
      ++ (when (includes_index_check opts.checks redundant)
            (redundant_rows collection.namespace 0 definitions definitions)
          ++ (when (includes_index_check opts.checks building)
                (concat (map (building_findings collection.namespace) by_name))
              ++ when (includes_index_check opts.checks space)
                  (space_findings collection.namespace collection.index_to_data_ratio))))
