-- ===== src/Operations/Fallback.antt =====
-- Where the operations of CurrentOperations come from.
use mongo_overview_tool.Operations.{CurrentOperationSnapshot}
use mongo_overview_tool.Diagnostics.{CollectorStatus}
use mongo_overview_tool.Operations.Collect.{
  of_current_user, Visible, degraded, is_unauthorized, is_unsupported_current_op_aggregation,
  collect_current_operations_with_visibility, collect_current_operations_for_wire_version,
  Collector, Loaded, CurrentOperationsQuery, after_aggregation,
}
use mongo_overview_tool.Base.{
  not, ◌&&◌, Bool-cases, ltb, ◌||◌, ◌≡◌, str_eq, Bool, List, ℕ, String, if◌then◌else◌, refl, inr,
  inl, false, true,
}
use mongo_overview_tool.Errors.{Result, ok, err}

abbrev is_source : String → Loaded → Bool
is_source source l = str_eq l.source source

-- The calls to the server.
abbrev pub load : ℕ → Collector → Collector → CurrentOperationsQuery → Loaded
load max_wire_version aggregation command query =
    collect_current_operations_for_wire_version max_wire_version query aggregation command

-- The server does not know the aggregation.
abbrev pub refuses : Result (List CurrentOperationSnapshot) → Bool
refuses (ok operations) = false
refuses (err e) = is_unsupported_current_op_aggregation e

abbrev pub is_answer : Result (List CurrentOperationSnapshot) → Bool
is_answer (ok operations) = true
is_answer (err e) = false

load_by :
    (is_old : Bool) (command : Collector) (query : CurrentOperationsQuery)
    (r : Result (List CurrentOperationSnapshot))
    → let l =
        if is_old
        then record { answer = command query; source = "command_fallback" }
        else after_aggregation command query r in
      (l.answer ≡ (if is_source "aggregation" l then r else command query))
      × (is_source "command_fallback" l ≡ (is_old || refuses r))
unfolding after_aggregation
load_by true command query r = (refl, refl)
load_by false command query (ok operations) = (refl, refl)
load_by false command query (err e) = elim (Bool-cases (is_unsupported_current_op_aggregation e)) [
  | inl h ↦ rw h (refl, refl)
  | inr h ↦ rw h (refl, refl)
]

abbrev pub is_degraded : CollectorStatus → Bool
is_degraded status = str_eq status.reason_code "degraded_current_user"

degraded_lem : (r : Result (List CurrentOperationSnapshot)) → is_degraded (degraded r) ≡ is_answer r
degraded_lem (ok operations) = refl
degraded_lem (err e) = refl

module _ (max_wire_version : ℕ) (aggregation command : Collector) where
  load_lem :
      (query : CurrentOperationsQuery)
      → let l = load max_wire_version aggregation command query in
        (l.answer ≡ (if is_source "aggregation" l then aggregation query else command query))
        × (is_source "command_fallback" l ≡ (ltb max_wire_version 6 || refuses (aggregation query)))
  unfolding collect_current_operations_for_wire_version
  load_lem query = load_by (ltb max_wire_version 6) command query (aggregation query)

  -- What a reader of the result may conclude.
  abbrev pub IsExplained : CurrentOperationsQuery → Visible → Type 0
  IsExplained query v =
      let is_all = str_eq v.visibility "all_users" in
      let asked : CurrentOperationsQuery = record query { all_users = is_all } in
      (v.answer ≡ (if str_eq v.source "aggregation" then aggregation asked else command asked))
      × (str_eq v.source "command_fallback"
          ≡ (ltb max_wire_version 6 || refuses (aggregation asked)))
      × (is_all ≡ (
          query.all_users
          && not (is_unauthorized (load max_wire_version aggregation command query).answer)))
      × (is_degraded v.status ≡ (query.all_users && (not is_all && is_answer v.answer)))

  IsExplained-by :
      (b : Bool) (query : CurrentOperationsQuery)
      → let asked : CurrentOperationsQuery = record query { all_users = b } in
        IsExplained asked (
          collect_current_operations_with_visibility asked
            (load max_wire_version aggregation command))
  unfolding collect_current_operations_with_visibility
  IsExplained-by false query =
      let current = load_lem (of_current_user query) in
      elim (Bool-cases (
        is_unauthorized
          (load max_wire_version aggregation command (of_current_user query)).answer)) [
            | inl u ↦ rw u (current.0, current.1, refl, refl)
            | inr u ↦ rw u (current.0, current.1, refl, refl)
          ]
  IsExplained-by true query =
      let every : CurrentOperationsQuery = record query { all_users = true } in
      let first = load max_wire_version aggregation command every in
      let second = load max_wire_version aggregation command (of_current_user query) in
      let current = load_lem (of_current_user query) in
      let all_users = load_lem every in
      elim (Bool-cases (is_unauthorized first.answer)) [
        | inl u ↦ rw u (current.0, current.1, refl, degraded_lem second.answer)
        | inr u ↦ rw u (all_users.0, all_users.1, refl, refl)
      ]

  -- The operations that are reported are what the server gave to the aggregation or the command, as
  -- the source says, for the query with all users or without, as the visibility says, and otherwise
  -- unchanged. The command is the source exactly if the wire version is below 6 or the server does
  -- not know the aggregation. All users are visible exactly if the query asks for them and the server
  -- does not refuse that as unauthorized, and the status tells of the retreat exactly if all users
  -- were asked for, are not visible, and the server did answer for the current user.
  pub collect_current_operations_with_visibility_lem :
      (query : CurrentOperationsQuery)
      → IsExplained query (
          collect_current_operations_with_visibility query
            (load max_wire_version aggregation command))
  collect_current_operations_with_visibility_lem query = IsExplained-by query.all_users query
