-- ===== src/IndexAudit/Parts.antt =====
-- Which part of evaluateIndexAuditCollection a finding with a given code comes from.
use mongo_overview_tool.Base.Search.{any_none, any-concat-map}
use mongo_overview_tool.Base.Int.{ℤ}
use mongo_overview_tool.Diagnostics.Sanitize.{IsPublic, has, any-has}
use mongo_overview_tool.Diagnostics.{DiagnosticFinding}
use mongo_overview_tool.IndexAudit.{
  space, building, redundant, unused, includes_index_check, CollectionIndexAudit, IndexAuditOptions,
  IndexObservation,
}
use mongo_overview_tool.IndexAudit.Evaluate.{
  can_determine_ownership, by_index_name, first_index_definitions, when, usage_finding,
  redundant_finding, unused_findings, space_findings, building_findings, redundant_rows,
  redundant_row, evaluate_index_audit_collection,
}
use mongo_overview_tool.Base.{
  ◌||◌, map, ◌∙◌, ◌++◌, ◌&&◌, concat, any-append, arith, Option, ◌≡◌, str_eq, Bool, ℕ, List, any,
  String, ◌∷◌, refl, suc, false, true, some, none, [],
}

only_first :
    (a b c d x y z w : Bool)
    → y ≡ false
    → z ≡ false
    → w ≡ false
    → ((a && x) || ((b && y) || ((c && z) || (d && w)))) ≡ (a && x)
only_first a b c d x y z w p q r = ground arith

only_second :
    (a b c d x y z w : Bool)
    → x ≡ false
    → z ≡ false
    → w ≡ false
    → ((a && x) || ((b && y) || ((c && z) || (d && w)))) ≡ (b && y)
only_second a b c d x y z w p q r = ground arith

module _ (code : String) (p : DiagnosticFinding → Bool) where
  row_code :
      (namespace : String) (i : ℕ) (a : IndexObservation) (j : ℕ) (bs : List IndexObservation)
      → str_eq "index.redundant_prefix_candidate" code ≡ false
      → any (has code p) (redundant_row namespace i a j bs) ≡ false
  unfolding any redundant_row redundant_finding has
  row_code namespace i a j [] h = refl
  row_code namespace i a j (b ∷ bs) h = ground (arith, row_code namespace i a (suc j) bs)

  rows_code :
      (namespace : String) (i : ℕ) (later definitions : List IndexObservation)
      → str_eq "index.redundant_prefix_candidate" code ≡ false
      → any (has code p) (redundant_rows namespace i later definitions) ≡ false
  unfolding any redundant_rows
  rows_code namespace i [] definitions h = refl
  rows_code namespace i (a ∷ later) definitions h =
      any-append (has code p) (redundant_row namespace i a 0 definitions) _
      ∙ rw (row_code namespace i a 0 definitions h)
          (rows_code namespace (suc i) later definitions h)

  building_code :
      (namespace : String) (group : String × List IndexObservation)
      → str_eq "index.build_in_progress" code ≡ false
      → any (has code p) (building_findings namespace group) ≡ false
  unfolding any building_findings has
  building_code namespace (n, found) h = ground arith

  buildings_code :
      (namespace : String) (groups : List (String × List IndexObservation))
      → str_eq "index.build_in_progress" code ≡ false
      → any (has code p) (concat (map (building_findings namespace) groups)) ≡ false
  buildings_code namespace groups h =
      any-concat-map (has code p) (building_findings namespace) groups
      ∙ any_none (λ g. any (has code p) (building_findings namespace g)) groups
          (λ g. building_code namespace g h)

  space_code :
      (namespace : String) (ratio : Option (ℤ × ℤ))
      → str_eq "index.space_ratio" code ≡ false
      → any (has code p) (space_findings namespace ratio) ≡ false
  unfolding any space_findings has
  space_code namespace none h = refl
  space_code namespace (some ratio) h = ground arith

  usage_code :
      (namespace : String) (expected_nodes : ℕ) (can_determine : Bool) (opts : IndexAuditOptions)
      (now : ℕ) (group : String × List IndexObservation)
      → str_eq "index.unused_candidate" code ≡ false
      → str_eq "index.usage_inconclusive" code ≡ false
      → any (has code p) (unused_findings namespace expected_nodes can_determine opts now group)
        ≡ false
  unfolding any unused_findings usage_finding has
  usage_code namespace expected_nodes can_determine opts now (n, found) h k = ground arith

  pub usages_code :
      (namespace : String) (expected_nodes : ℕ) (can_determine : Bool) (opts : IndexAuditOptions)
      (now : ℕ) (groups : List (String × List IndexObservation))
      → str_eq "index.unused_candidate" code ≡ false
      → str_eq "index.usage_inconclusive" code ≡ false
      → any
          (has code p)
          (concat (map (unused_findings namespace expected_nodes can_determine opts now) groups))
        ≡ false
  usages_code namespace expected_nodes can_determine opts now groups h k =
      let part = unused_findings namespace expected_nodes can_determine opts now in
      any-concat-map (has code p) part groups
      ∙ any_none (λ g. any (has code p) (part g)) groups
          (λ g. usage_code namespace expected_nodes can_determine opts now g h k)

  any-when :
      (requested : Bool) (findings : List DiagnosticFinding)
      → any (has code p) (when requested findings) ≡ (requested && any (has code p) findings)
  unfolding any
  any-when true findings = refl
  any-when false findings = refl

  -- The four parts in a row.
  any-parts :
      (a b c d : Bool) (usage rows buildings spaces : List DiagnosticFinding)
      → any (has code p) (when a usage ++ (when b rows ++ (when c buildings ++ when d spaces))) ≡ (
          (a && any (has code p) usage)
          || ((b && any (has code p) rows)
              || ((c && any (has code p) buildings) || (d && any (has code p) spaces))))
  any-parts a b c d usage rows buildings spaces =
      rw
        (any-append (has code p) (when a usage)
          (when b rows ++ (when c buildings ++ when d spaces)))
        (rw (any-append (has code p) (when b rows) (when c buildings ++ when d spaces)) (
          rw (any-append (has code p) (when c buildings) (when d spaces))
            (rw (any-when a usage, any-when b rows, any-when c buildings, any-when d spaces))))

  pub usage_part :
      (collection : CollectionIndexAudit) (expected_nodes : ℕ) (opts : IndexAuditOptions) (now : ℕ)
      (known : List Bool)
      → IsPublic p
      → str_eq "index.redundant_prefix_candidate" code ≡ false
      → str_eq "index.build_in_progress" code ≡ false
      → str_eq "index.space_ratio" code ≡ false
      → any (has code p) (evaluate_index_audit_collection collection expected_nodes opts now known)
        ≡ (includes_index_check opts.checks unused
            && any (has code p) (
                concat (
                  map
                    (unused_findings collection.namespace expected_nodes
                      (can_determine_ownership known)
                      opts
                      now)
                    (by_index_name collection.indexes))))
  unfolding evaluate_index_audit_collection
  usage_part collection expected_nodes opts now known s r e f =
      let by_name = by_index_name collection.indexes in
      let definitions = first_index_definitions by_name in
      let usage = concat (
        map
          (unused_findings collection.namespace expected_nodes (can_determine_ownership known) opts
            now)
          by_name) in
      let rows = redundant_rows collection.namespace 0 definitions definitions in
      let buildings = concat (map (building_findings collection.namespace) by_name) in
      let spaces = space_findings collection.namespace collection.index_to_data_ratio in
      let a = includes_index_check opts.checks unused in
      let b = includes_index_check opts.checks redundant in
      let c = includes_index_check opts.checks building in
      let d = includes_index_check opts.checks space in
      any-has code p (when a usage ++ (when b rows ++ (when c buildings ++ when d spaces))) s
      ∙ any-parts a b c d usage rows buildings spaces
      ∙ only_first a b c d _ _ _ _ (rows_code collection.namespace 0 definitions definitions r)
          (buildings_code collection.namespace by_name e)
          (space_code collection.namespace collection.index_to_data_ratio f)

  pub redundant_part :
      (collection : CollectionIndexAudit) (expected_nodes : ℕ) (opts : IndexAuditOptions) (now : ℕ)
      (known : List Bool)
      → IsPublic p
      → str_eq "index.unused_candidate" code ≡ false
      → str_eq "index.usage_inconclusive" code ≡ false
      → str_eq "index.build_in_progress" code ≡ false
      → str_eq "index.space_ratio" code ≡ false
      → let definitions = first_index_definitions (by_index_name collection.indexes) in
        any (has code p) (evaluate_index_audit_collection collection expected_nodes opts now known)
        ≡ (includes_index_check opts.checks redundant
            && any (has code p) (redundant_rows collection.namespace 0 definitions definitions))
  unfolding evaluate_index_audit_collection
  redundant_part collection expected_nodes opts now known s u i e f =
      let by_name = by_index_name collection.indexes in
      let definitions = first_index_definitions by_name in
      let usage = concat (
        map
          (unused_findings collection.namespace expected_nodes (can_determine_ownership known) opts
            now)
          by_name) in
      let rows = redundant_rows collection.namespace 0 definitions definitions in
      let buildings = concat (map (building_findings collection.namespace) by_name) in
      let spaces = space_findings collection.namespace collection.index_to_data_ratio in
      let a = includes_index_check opts.checks unused in
      let b = includes_index_check opts.checks redundant in
      let c = includes_index_check opts.checks building in
      let d = includes_index_check opts.checks space in
      any-has code p (when a usage ++ (when b rows ++ (when c buildings ++ when d spaces))) s
      ∙ any-parts a b c d usage rows buildings spaces
      ∙ only_second a b c d _ _ _ _
          (usages_code collection.namespace expected_nodes (can_determine_ownership known) opts now
            by_name u i)
          (buildings_code collection.namespace by_name e)
          (space_code collection.namespace collection.index_to_data_ratio f)
