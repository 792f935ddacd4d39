-- ===== src/Doctor/Members/Counts.antt =====
-- How often each part of the evaluation of a replica set reports a code.
use mongo_overview_tool.Doctor.Node.{reports-evaluate_doctor_node}
use mongo_overview_tool.Base.Int.{pos, leb_ℤ}
use mongo_overview_tool.Doctor.{evaluate_doctor_node, node_scope, DoctorNodeSnapshot, DoctorOptions}
use mongo_overview_tool.Base.{
  refl, [], ◌∷◌, ◌-◌, ltb, ◌+◌, not, List, count, ◌++◌, ◌&&◌, Bool, String, ℕ, ◌≡◌, arith,
  if◌then◌else◌,
}
use mongo_overview_tool.Model.{
  RsStatus, ReplicaState, startup, primary, secondary, recovering, startup2, unknown, arbiter, down,
  rollback, shun, undefined, RsMember,
}
use mongo_overview_tool.Diagnostics.{FindingScope}
use mongo_overview_tool.Doctor.Members.{
  scan_member, member_write_time, required_members, MemberScan, lag_findings, set_findings,
  all_node_findings, scan_members, member_findings, is_compared, state_findings, unhealthy_findings,
  heartbeat_findings, is_unhealthy,
}
use mongo_overview_tool.Doctor.Reports.{
  reports-nil, SetCodes-nil, reports, SetCodes, SetCodes-append, reports-append,
  reports-append-zero,
}

module _ (scope : FindingScope) (now : ℕ) (m : RsMember) where
  reports-state :
      (s : ReplicaState)
      → SetCodes (state_findings s scope now m)
        × (reports "replica.member_unhealthy" (state_findings s scope now m) ≡ 0)
  unfolding state_findings reports
  reports-state primary = ground arith
  reports-state startup = ground arith
  reports-state secondary = ground arith
  reports-state recovering = ground arith
  reports-state startup2 = ground arith
  reports-state unknown = ground arith
  reports-state arbiter = ground arith
  reports-state down = ground arith
  reports-state rollback = ground arith
  reports-state shun = ground arith
  reports-state (undefined n) = ground arith

  reports-unhealthy :
      SetCodes (unhealthy_findings scope m)
      × (reports "replica.member_unhealthy" (unhealthy_findings scope m)
          ≡ (if is_unhealthy m then 1 else 0))
  unfolding unhealthy_findings reports
  reports-unhealthy = ground arith

  reports-heartbeat :
      SetCodes (heartbeat_findings scope now m)
      × (reports "replica.member_unhealthy" (heartbeat_findings scope now m) ≡ 0)
  unfolding heartbeat_findings reports
  reports-heartbeat = ground arith

  reports-member :
      SetCodes (member_findings scope now m)
      × (reports "replica.member_unhealthy" (member_findings scope now m)
          ≡ (if is_unhealthy m then 1 else 0))
  unfolding member_findings
  reports-member =
      let s = reports-state m.state in
      (
        SetCodes-append (state_findings m.state scope now m)
            (unhealthy_findings scope m ++ heartbeat_findings scope now m) s.0
            (SetCodes-append (unhealthy_findings scope m) (heartbeat_findings scope now m)
              reports-unhealthy.0 reports-heartbeat.0),
        omega (
          arith,
          reports-append "replica.member_unhealthy" (state_findings m.state scope now m)
              (unhealthy_findings scope m ++ heartbeat_findings scope now m),
          reports-append "replica.member_unhealthy" (unhealthy_findings scope m)
              (heartbeat_findings scope now m),
          s.1,
          reports-unhealthy.1,
          reports-heartbeat.1,
        ),
      )

module _ (set shard : String) (now : ℕ) where
  -- The loop appends findings of the members only.
  pub reports-scan_members :
      (ms : List RsMember) (scan : MemberScan)
      → SetCodes scan.findings
      → SetCodes (scan_members set shard now ms scan).findings
        × (reports "replica.member_unhealthy" (scan_members set shard now ms scan).findings
            ≡ reports "replica.member_unhealthy" scan.findings + count is_unhealthy ms)
  unfolding scan_members count
  reports-scan_members [] scan h = (h, omega arith)
  reports-scan_members (m ∷ ms) scan h =
      let new = reports-member (node_scope set shard m.name) now m in
      let rest = reports-scan_members ms (scan_member set shard now m scan) (
        SetCodes-append scan.findings (member_findings (node_scope set shard m.name) now m) h
          new.0) in
      (
        rest.0,
        omega (
          arith,
          reports-append "replica.member_unhealthy" scan.findings
              (member_findings (node_scope set shard m.name) now m),
          new.1,
          rest.1,
        ),
      )

pub reports-all_node :
    (ns : List DoctorNodeSnapshot)
    → SetCodes (all_node_findings ns)
      × (reports "replica.member_unhealthy" (all_node_findings ns) ≡ 0)
unfolding all_node_findings
reports-all_node [] = (SetCodes-nil, reports-nil "replica.member_unhealthy")
reports-all_node (n ∷ ns) =
    let h = reports-evaluate_doctor_node n in
    let rest = reports-all_node ns in
    (
      SetCodes-append (evaluate_doctor_node n) (all_node_findings ns) h.0 rest.0,
      reports-append-zero "replica.member_unhealthy" (evaluate_doctor_node n) (all_node_findings ns)
          h.1 rest.1,
    )

pub reports-set_findings :
    (status : RsStatus) (shard : String) (scan : MemberScan)
    → (reports "replica.primary_missing" (set_findings status shard scan)
        ≡ (if scan.primary_found then 0 else 1))
      × (reports "replica.majority_unavailable" (set_findings status shard scan)
          ≡ (if ltb scan.healthy_data_members (required_members status) then 1 else 0))
      × (reports "replica.lag_critical" (set_findings status shard scan) ≡ 0)
      × (reports "replica.lag_high" (set_findings status shard scan) ≡ 0)
      × (reports "replica.member_unhealthy" (set_findings status shard scan) ≡ 0)
unfolding set_findings reports
reports-set_findings status shard scan = ground arith

-- A compared member whose lag is at least the critical bound, or between the two bounds.
abbrev pub is_lagging : DoctorOptions → ℕ → RsMember → Bool
is_lagging opts primary_write m =
    is_compared m && leb_ℤ opts.replication_lag_critical (pos (primary_write - member_write_time m))

abbrev pub is_slow : DoctorOptions → ℕ → RsMember → Bool
is_slow opts primary_write m =
    is_compared m
    && (not (leb_ℤ opts.replication_lag_critical (pos (primary_write - member_write_time m)))
        && leb_ℤ opts.replication_lag_warning (pos (primary_write - member_write_time m)))

pub reports-lag_findings :
    (status : RsStatus) (shard : String) (opts : DoctorOptions) (primary_write : ℕ)
    (ms : List RsMember)
    → (reports "replica.primary_missing" (lag_findings status shard opts primary_write ms) ≡ 0)
      × (reports "replica.majority_unavailable" (lag_findings status shard opts primary_write ms)
          ≡ 0)
      × (reports "replica.lag_critical" (lag_findings status shard opts primary_write ms)
          ≡ count (is_lagging opts primary_write) ms)
      × (reports "replica.lag_high" (lag_findings status shard opts primary_write ms)
          ≡ count (is_slow opts primary_write) ms)
      × (reports "replica.member_unhealthy" (lag_findings status shard opts primary_write ms) ≡ 0)
unfolding lag_findings reports count
reports-lag_findings status shard opts w [] = (refl, refl, refl, refl, refl)
reports-lag_findings status shard opts w (m ∷ ms) =
    ground (arith, reports-lag_findings status shard opts w ms)
