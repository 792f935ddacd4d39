-- ===== src/IndexAudit/Unused.antt =====
-- When evaluateIndexAuditCollection calls an index unused, and when it says that it cannot tell.
use mongo_overview_tool.IndexAudit.Parts.{usage_part}
use mongo_overview_tool.Diagnostics.{is_sensitive_diagnostic_key}
use mongo_overview_tool.Base.Search.{any-ext, any-concat-map}
use mongo_overview_tool.Base.Maps.{any-group_by, extend, holds}
use mongo_overview_tool.Base.Int.{sub_ℕ, leb_ℤ, is_zero}
use mongo_overview_tool.Diagnostics.Sanitize.{
  evidence_says-IsPublic, evidence_says, IsPublic, has, says,
}
use mongo_overview_tool.IndexAudit.{
  unused, includes_index_check, is_nil, CollectionIndexAudit, IndexObservation, IndexAuditOptions,
}
use mongo_overview_tool.IndexAudit.Evaluate.{
  can_determine_ownership, evaluate_index_audit_collection, by_index_name, is_settled, Usage,
  usage_finding, unused_findings, scan_usage,
}
use mongo_overview_tool.Base.{
  ap, refl, false, keep, map, and_assoc, concat, ◌∙◌, none, ltb, ◌||◌, ◌==◌, arith, length, ◌≡◌,
  not, ◌&&◌, List, str_eq, ℕ, all, Bool, any, String, ◌∷◌, if◌then◌else◌, true, [],
}

abbrev pub named : String → IndexObservation → Bool
named name o = str_eq o.name name

-- A node has seen the index for the minimal time, since a time that it knows, and is not building it.
abbrev pub has_seen_enough : IndexAuditOptions → ℕ → IndexObservation → Bool
has_seen_enough opts now o =
    not (o.since == 0) && (leb_ℤ opts.min_observation (sub_ℕ now o.since) && not o.building)

settled_lem :
    (opts : IndexAuditOptions) (now : ℕ) (o : IndexObservation)
    → is_settled opts now o ≡ has_seen_enough opts now o
settled_lem opts now o = ground arith

-- What the loop over the observations has found in the end.
scan_usage_lem :
    (opts : IndexAuditOptions) (now : ℕ) (os : List IndexObservation) (usage : Usage)
    → let after = scan_usage opts now os usage in
      (after.complete ≡ (usage.complete && all (has_seen_enough opts now) os))
      × (after.unused ≡ (usage.unused && all (λ o. is_zero o.ops) os))
unfolding scan_usage all
scan_usage_lem opts now [] usage = ground arith
scan_usage_lem opts now (o ∷ os) usage =
    let next : Usage = record {
      complete = usage.complete && is_settled opts now o;
      unused = usage.unused && is_zero o.ops;
    } in
    let later = scan_usage_lem opts now os next in
    (
      later.0
          ∙ ap (λ b. (usage.complete && b) && all (has_seen_enough opts now) os)
              (settled_lem opts now o)
          ∙ and_assoc usage.complete (has_seen_enough opts now o)
              (all (has_seen_enough opts now) os),
      later.1 ∙ and_assoc usage.unused (is_zero o.ops) (all (λ x. is_zero x.ops) os),
    )

-- The caller does not say that it cannot tell which nodes hold the collection.
abbrev pub is_ownership_known : List Bool → Bool
is_ownership_known [] = true
is_ownership_known (known ∷ rest) = known

-- It is known which nodes hold the collection, all of them were asked, and each saw the index for long
-- enough.
abbrev pub is_observed : IndexAuditOptions → ℕ → Bool → ℕ → List IndexObservation → Bool
is_observed opts now can_determine expected_nodes found =
    can_determine
    && ((length found == expected_nodes) && ltb 0 expected_nodes)
    && all (has_seen_enough opts now) found

abbrev reported : IndexAuditOptions → ℕ → Bool → ℕ → String → String → List IndexObservation → Bool
reported opts now can_determine expected_nodes code name found =
    let complete = is_observed opts now can_determine expected_nodes found in
    not (str_eq name "_id_")
    && ((all (λ o. is_zero o.ops) found || not complete)
        && str_eq (if complete then "index.unused_candidate" else "index.usage_inconclusive") code)

unused_findings_lem :
    (namespace : String) (expected_nodes : ℕ) (can_determine : Bool) (opts : IndexAuditOptions)
    (now : ℕ) (code name : String) (group : String × List IndexObservation)
    → any
        (says code "indexName" name)
        (unused_findings namespace expected_nodes can_determine opts now group)
      ≡ (str_eq group.0 name && reported opts now can_determine expected_nodes code group.0 group.1)
unfolding unused_findings usage_finding has evidence_says any
unused_findings_lem namespace expected_nodes can_determine opts now code name (n, found) =
    let start : Usage = record {
      complete = can_determine && ((length found == expected_nodes) && ltb 0 expected_nodes);
      unused = true;
    } in
    ground (arith, scan_usage_lem opts now found start)

-- The findings on usage, over all names.
usage_lem :
    (namespace : String) (expected_nodes : ℕ) (can_determine : Bool) (opts : IndexAuditOptions)
    (now : ℕ) (code name : String) (indexes : List IndexObservation)
    → any (says code "indexName" name) (
        concat (
          map
            (unused_findings namespace expected_nodes can_determine opts now)
            (by_index_name indexes)))
      ≡ holds
          (reported opts now can_determine expected_nodes code name)
          (extend none (keep (named name) indexes))
usage_lem namespace expected_nodes can_determine opts now code name indexes =
    let part = unused_findings namespace expected_nodes can_determine opts now in
    any-concat-map (says code "indexName" name) part (by_index_name indexes)
    ∙ any-ext (λ g. any (says code "indexName" name) (part g))
        (λ g. str_eq g.0 name && reported opts now can_determine expected_nodes code g.0 g.1)
        (by_index_name indexes)
        (unused_findings_lem namespace expected_nodes can_determine opts now code name)
    ∙ any-group_by name (reported opts now can_determine expected_nodes code) (λ o. o.name) indexes

index_name-IsPublic : (name : String) → IsPublic (evidence_says "indexName" name)
unfolding is_sensitive_diagnostic_key
index_name-IsPublic name = evidence_says-IsPublic "indexName" name refl

usage_reports :
    (code : String) (collection : CollectionIndexAudit) (expected_nodes : ℕ)
    (opts : IndexAuditOptions) (now : ℕ) (known : List Bool) (name : String)
    → str_eq "index.redundant_prefix_candidate" code ≡ false
    → str_eq "index.build_in_progress" code ≡ false
    → str_eq "index.space_ratio" code ≡ false
    → any
        (says code "indexName" name)
        (evaluate_index_audit_collection collection expected_nodes opts now known)
      ≡ (includes_index_check opts.checks unused
          && holds
              (reported opts now (can_determine_ownership known) expected_nodes code name)
              (extend none (keep (named name) collection.indexes)))
usage_reports code collection expected_nodes opts now known name r b s =
    usage_part code (evidence_says "indexName" name) collection expected_nodes opts now known
      (index_name-IsPublic name) r b s
    ∙ ap (λ x. includes_index_check opts.checks unused && x)
        (usage_lem collection.namespace expected_nodes (can_determine_ownership known) opts now code
          name collection.indexes)

-- The two tests that the choice of the code leaves.
by_tests :
    (id complete idle : Bool)
    → (not id
        && ((idle || not complete)
            && str_eq
                (if complete then "index.unused_candidate" else "index.usage_inconclusive")
                "index.unused_candidate"))
      ≡ (not id && (complete && idle))
by_tests true complete idle = refl
by_tests false true true = refl
by_tests false true false = refl
by_tests false false idle = ground arith

by_tests' :
    (id complete idle : Bool)
    → (not id
        && ((idle || not complete)
            && str_eq
                (if complete then "index.unused_candidate" else "index.usage_inconclusive")
                "index.usage_inconclusive"))
      ≡ (not id && not complete)
by_tests' true complete idle = refl
by_tests' false true idle = ground arith
by_tests' false false idle = ground arith

regroup : (a b c d : Bool) → (a && (b && (c && d))) ≡ ((a && (b && c)) && d)
regroup a b c d = ground arith

unused_verdict :
    (opts : IndexAuditOptions) (now : ℕ) (can_determine : Bool) (expected_nodes : ℕ) (name : String)
    (found : List IndexObservation)
    → holds
        (reported opts now can_determine expected_nodes "index.unused_candidate" name)
        (extend none found)
      ≡ (not (is_nil found)
          && (not (str_eq name "_id_")
              && (is_observed opts now can_determine expected_nodes found
                  && all (λ o. is_zero o.ops) found)))
unused_verdict opts now can_determine expected_nodes name [] = refl
unused_verdict opts now can_determine expected_nodes name (o ∷ os) =
    by_tests (str_eq name "_id_") (is_observed opts now can_determine expected_nodes (o ∷ os))
      (all (λ x. is_zero x.ops) (o ∷ os))

inconclusive_verdict :
    (opts : IndexAuditOptions) (now : ℕ) (can_determine : Bool) (expected_nodes : ℕ) (name : String)
    (found : List IndexObservation)
    → holds
        (reported opts now can_determine expected_nodes "index.usage_inconclusive" name)
        (extend none found)
      ≡ (not (is_nil found)
          && (not (str_eq name "_id_")
              && not (is_observed opts now can_determine expected_nodes found)))
inconclusive_verdict opts now can_determine expected_nodes name [] = refl
inconclusive_verdict opts now can_determine expected_nodes name (o ∷ os) =
    by_tests' (str_eq name "_id_") (is_observed opts now can_determine expected_nodes (o ∷ os))
      (all (λ x. is_zero x.ops) (o ∷ os))

usage_verdicts :
    (collection : CollectionIndexAudit) (expected_nodes : ℕ) (opts : IndexAuditOptions) (now : ℕ)
    (known : List Bool) (name : String)
    → let findings = evaluate_index_audit_collection collection expected_nodes opts now known in
      let found = keep (named name) collection.indexes in
      let asked =
        includes_index_check opts.checks unused
        && (not (is_nil found) && not (str_eq name "_id_")) in
      let observed = is_observed opts now (can_determine_ownership known) expected_nodes found in
      (any (says "index.unused_candidate" "indexName" name) findings
        ≡ (asked && (observed && all (λ o. is_zero o.ops) found)))
      × (any (says "index.usage_inconclusive" "indexName" name) findings ≡ (asked && not observed))
usage_verdicts collection expected_nodes opts now known name =
    let found = keep (named name) collection.indexes in
    let can_determine = can_determine_ownership known in
    let requested = includes_index_check opts.checks unused in
    let observed = is_observed opts now can_determine expected_nodes found in
    let idle = all (λ o. is_zero o.ops) found in
    (
      usage_reports "index.unused_candidate" collection expected_nodes opts now known name refl refl
            refl
          ∙ ap (λ x. requested && x)
              (unused_verdict opts now can_determine expected_nodes name found)
          ∙ regroup requested (not (is_nil found)) (not (str_eq name "_id_")) (observed && idle),
      usage_reports "index.usage_inconclusive" collection expected_nodes opts now known name refl
            refl refl
          ∙ ap (λ x. requested && x)
              (inconclusive_verdict opts now can_determine expected_nodes name found)
          ∙ regroup requested (not (is_nil found)) (not (str_eq name "_id_")) (not observed),
    )

-- With the check on usage, an index other than _id_ that some node reports is called unused exactly
-- if the index is observed and no node has counted a use, and inconclusive exactly if it is not
-- observed. It is observed if the caller does not say that it is unknown which nodes hold the
-- collection, and there is at least one such node, each gave one observation, from a known time at
-- least the minimal time ago, and none is building the index. Without the check neither is said.
pub evaluate_index_audit_collection_usage :
    (collection : CollectionIndexAudit) (expected_nodes : ℕ) (opts : IndexAuditOptions) (now : ℕ)
    (known : List Bool) (name : String)
    → let findings = evaluate_index_audit_collection collection expected_nodes opts now known in
      let found = keep (named name) collection.indexes in
      let asked =
        includes_index_check opts.checks unused
        && (not (is_nil found) && not (str_eq name "_id_")) in
      let observed = is_observed opts now (is_ownership_known known) expected_nodes found in
      (any (says "index.unused_candidate" "indexName" name) findings
        ≡ (asked && (observed && all (λ o. is_zero o.ops) found)))
      × (any (says "index.usage_inconclusive" "indexName" name) findings ≡ (asked && not observed))
evaluate_index_audit_collection_usage collection expected_nodes opts now [] name =
    usage_verdicts collection expected_nodes opts now [] name
evaluate_index_audit_collection_usage collection expected_nodes opts now (known ∷ rest) name =
    usage_verdicts collection expected_nodes opts now (known ∷ rest) name
