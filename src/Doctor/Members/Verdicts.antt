-- ===== src/Doctor/Members/Verdicts.antt =====
-- What the evaluation of a replica set reports, against the members of the set.
use mongo_overview_tool.Doctor.Reports.{
  reports-nil, SetCodes-nil, reports-append, reports, SetCodes,
}
use mongo_overview_tool.Diagnostics.{DiagnosticFinding}
use mongo_overview_tool.Doctor.{DoctorOptions, DoctorNodeSnapshot}
use mongo_overview_tool.Doctor.Members.{
  lag_findings, is_zero, all_node_findings, set_findings, is_unhealthy, scan_member,
  evaluate_doctor_replica_set, start_scan, scan_members, MemberScan, member_write_time, count_state,
}
use mongo_overview_tool.Model.{
  is_secondary, is_primary, ReplicaState, primary, secondary, RsStatus, RsMember,
}
use mongo_overview_tool.Base.{
  ap, ◌++◌, if◌then◌else◌, ◌∙◌, not, arith, all, ◌+◌, ◌==◌, any, count, ◌≡◌, ◌&&◌, ◌||◌, ℕ, Bool,
  String, Option, List, ◌∷◌, refl, false, true, some, none, [],
}
use mongo_overview_tool.Doctor.Members.Counts.{
  reports-scan_members, reports-all_node, reports-set_findings, reports-lag_findings, is_lagging,
  is_slow,
}

-- A member that holds data and answers.
abbrev pub is_healthy_data : RsMember → Bool
is_healthy_data m = (is_primary m.state || is_secondary m.state) && m.health == 1

abbrev pub is_primary_member : RsMember → Bool
is_primary_member m = is_primary m.state

abbrev pub is_healthy_primary : RsMember → Bool
is_healthy_primary m = is_primary m.state && m.health == 1

-- The last member that says it is PRIMARY.
unfoldable pub last_primary : List RsMember → Option RsMember
last_primary [] = none
last_primary (m ∷ ms) = elim (last_primary ms) [
  | some p ↦ some p
  | none ↦ if is_primary m.state then some m else none
]

-- When the PRIMARY last wrote, and 0 if that is not known.
abbrev pub write_time_of : Option RsMember → ℕ
write_time_of none = 0
write_time_of (some p) = member_write_time p

abbrev missing_count : Bool → ℕ
missing_count found = if found then 0 else 1

count_state_lem :
    (s : ReplicaState) (m : RsMember) (scan : MemberScan)
    → ((count_state s m scan).healthy_data_members
        ≡ scan.healthy_data_members
          + (if (is_primary s || is_secondary s) && m.health == 1 then 1 else 0))
      × ((count_state s m scan).primary_found
          ≡ (if is_primary s then m.health == 1 else scan.primary_found))
      × ((count_state s m scan).primary_write
          ≡ (if is_primary s then member_write_time m else scan.primary_write))
unfolding count_state
count_state_lem primary m scan = ground arith
count_state_lem secondary m scan = ground arith
count_state_lem _ m scan = ground arith

module _ (set shard : String) (now : ℕ) where
  scan_found_none :
      (ms : List RsMember) (scan : MemberScan)
      → any is_healthy_primary ms ≡ false
      → scan.primary_found ≡ false
      → (scan_members set shard now ms scan).primary_found ≡ false
  unfolding scan_members any
  scan_found_none [] scan h f = f
  scan_found_none (m ∷ ms) scan h f =
      scan_found_none ms (scan_member set shard now m scan) (ground arith)
        (ground (arith, (count_state_lem m.state m scan).1))

  scan_found_all :
      (ms : List RsMember) (scan : MemberScan)
      → all (λ m. not (is_primary_member m) || is_healthy_primary m) ms ≡ true
      → (scan_members set shard now ms scan).primary_found
        ≡ (scan.primary_found || any is_primary_member ms)
  unfolding scan_members any all
  scan_found_all [] scan h = ground arith
  scan_found_all (m ∷ ms) scan h = ground (
    arith,
    scan_found_all ms (scan_member set shard now m scan),
    (count_state_lem m.state m scan).1,
  )

  scan_write :
      (ms : List RsMember) (scan : MemberScan)
      → (scan_members set shard now ms scan).primary_write
        ≡ elim (last_primary ms) [ none ↦ scan.primary_write | some p ↦ member_write_time p ]
  unfolding scan_members last_primary
  scan_write [] scan = refl
  scan_write (m ∷ ms) scan =
      ground (
        arith,
        scan_write ms (scan_member set shard now m scan),
        (count_state_lem m.state m scan).2,
      )

module _ (status : RsStatus) (shard : String) (nodes : List DoctorNodeSnapshot) (now : ℕ)
    (opts : DoctorOptions) where
  abbrev scan : MemberScan
  scan = scan_members status.set shard now status.members start_scan

  abbrev lag : List DiagnosticFinding
  lag =
      if not (is_zero scan.primary_write)
      then lag_findings status shard opts scan.primary_write status.members
      else []

  reports-parts :
      (code : String)
      → reports code (evaluate_doctor_replica_set status shard nodes now opts)
        ≡ reports code scan.findings
          + (reports code (set_findings status shard scan)
              + (reports code lag + reports code (all_node_findings nodes)))
  unfolding evaluate_doctor_replica_set
  reports-parts code = omega (
    arith,
    reports-append code scan.findings
        (set_findings status shard scan ++ (lag ++ all_node_findings nodes)),
    reports-append code (set_findings status shard scan) (lag ++ all_node_findings nodes),
    reports-append code lag (all_node_findings nodes),
  )

  scan_codes :
      SetCodes scan.findings
      × (reports "replica.member_unhealthy" scan.findings ≡ count is_unhealthy status.members)
  scan_codes =
      let h = reports-scan_members status.set shard now status.members start_scan SetCodes-nil in
      (h.0, omega (arith, h.1, reports-nil "replica.member_unhealthy"))

  lag_codes :
      (reports "replica.primary_missing" lag ≡ 0)
      × (reports "replica.majority_unavailable" lag ≡ 0)
      × (reports "replica.lag_critical" lag ≡ (
          if is_zero scan.primary_write
          then 0
          else count (is_lagging opts scan.primary_write) status.members))
      × (reports "replica.lag_high" lag ≡ (
          if is_zero scan.primary_write
          then 0
          else count (is_slow opts scan.primary_write) status.members))
      × (reports "replica.member_unhealthy" lag ≡ 0)
  lag_codes = ground (
    arith,
    reports-lag_findings status shard opts scan.primary_write status.members,
    reports-nil "replica.primary_missing",
    reports-nil "replica.majority_unavailable",
    reports-nil "replica.lag_critical",
    reports-nil "replica.lag_high",
    reports-nil "replica.member_unhealthy",
  )

  -- With no healthy PRIMARY among the members the set is reported once as having none.
  pub evaluate_doctor_replica_set_no_primary :
      any is_healthy_primary status.members ≡ false
      → reports "replica.primary_missing" (evaluate_doctor_replica_set status shard nodes now opts)
        ≡ 1
  evaluate_doctor_replica_set_no_primary absent =
      let s = reports-set_findings status shard scan in
      let n = reports-all_node nodes in
      let f = scan_found_none status.set shard now status.members start_scan absent refl in
      let missing = ap missing_count f in
      omega (
        arith,
        reports-parts "replica.primary_missing",
        scan_codes.0.0,
        s.0,
        missing,
        lag_codes.0,
        n.0.0,
      )

  -- Where some member is PRIMARY and every PRIMARY is healthy the set is not reported as having
  -- none.
  pub evaluate_doctor_replica_set_primary :
      any is_primary_member status.members ≡ true
      → all (λ m. not (is_primary_member m) || is_healthy_primary m) status.members ≡ true
      → reports "replica.primary_missing" (evaluate_doctor_replica_set status shard nodes now opts)
        ≡ 0
  evaluate_doctor_replica_set_primary some_primary sound =
      let s = reports-set_findings status shard scan in
      let n = reports-all_node nodes in
      let f = scan_found_all status.set shard now status.members start_scan sound in
      let missing = ap missing_count (f ∙ some_primary) in
      omega (
        arith,
        reports-parts "replica.primary_missing",
        scan_codes.0.0,
        s.0,
        missing,
        lag_codes.0,
        n.0.0,
      )

  -- A replication lag is reported for exactly the healthy SECONDARY members whose write time is
  -- known and lies behind that of the PRIMARY (the last one, if several claim to be) by the
  -- critical bound, or by the warning bound and not the critical one; and for none if the
  -- PRIMARY's write time is not known.
  pub evaluate_doctor_replica_set_lag :
      let write = write_time_of (last_primary status.members) in
      (reports "replica.lag_critical" (evaluate_doctor_replica_set status shard nodes now opts)
        ≡ (if is_zero write then 0 else count (is_lagging opts write) status.members))
      × (reports "replica.lag_high" (evaluate_doctor_replica_set status shard nodes now opts)
          ≡ (if is_zero write then 0 else count (is_slow opts write) status.members))
  evaluate_doctor_replica_set_lag =
      let s = reports-set_findings status shard scan in
      let n = reports-all_node nodes in
      let w : scan.primary_write ≡ write_time_of (last_primary status.members) =
        ground (arith, scan_write status.set shard now status.members start_scan) in
      let lagging =
        ap {B = ℕ} (λ k. if is_zero k then 0 else count (is_lagging opts k) status.members) w in
      let slow =
        ap {B = ℕ} (λ k. if is_zero k then 0 else count (is_slow opts k) status.members) w in
      (
        omega (
          arith,
          reports-parts "replica.lag_critical",
          scan_codes.0.2,
          s.2,
          lag_codes.2,
          lagging,
          n.0.2,
        ),
        omega (
          arith,
          reports-parts "replica.lag_high",
          scan_codes.0.3,
          s.3,
          lag_codes.3,
          slow,
          n.0.3,
        ),
      )
