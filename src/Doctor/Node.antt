-- ===== src/Doctor/Node.antt =====
-- The findings of one node.
use mongo_overview_tool.Base.{
  ℕ, ◌*◌, ltb, leb, ◌≡◌, ◌&&◌, List, ◌++◌, Option, none, some, arith, if◌then◌else◌,
}
use mongo_overview_tool.Base.Int.{ℤ, pos, ◌+ℤ◌}
use mongo_overview_tool.Diagnostics.{FindingScope, DiagnosticFinding}
use mongo_overview_tool.Doctor.{
  DoctorNodeSnapshot, evaluate_doctor_node, restart_findings, connection_findings, cache_findings,
  node_scope,
}
use mongo_overview_tool.Doctor.Reports.{
  reports, reports-append, reports-append-zero, SetCodes, SetCodes-append,
}

abbrev NodeCodes : List DiagnosticFinding → Type 0
NodeCodes fs = SetCodes fs × (reports "replica.member_unhealthy" fs ≡ 0)

restart_codes :
    (scope : FindingScope) (uptime : Option ℤ)
    → NodeCodes (restart_findings scope uptime)
      × (reports "connection.headroom_critical" (restart_findings scope uptime) ≡ 0)
      × (reports "connection.headroom_low" (restart_findings scope uptime) ≡ 0)
unfolding restart_findings reports
restart_codes scope none = ground arith
restart_codes scope (some u) = ground arith

cache_codes :
    (scope : FindingScope) (max used eviction queue : Option ℤ)
    → NodeCodes (cache_findings scope max used eviction queue)
      × (reports "connection.headroom_critical" (cache_findings scope max used eviction queue) ≡ 0)
      × (reports "connection.headroom_low" (cache_findings scope max used eviction queue) ≡ 0)
unfolding cache_findings reports
cache_codes scope none used e q = ground arith
cache_codes scope (some m) none e q = ground arith
cache_codes scope (some m) (some u) e q = ground arith

connection_codes :
    (scope : FindingScope) (used free : Option ℤ) → NodeCodes (connection_findings scope used free)
unfolding connection_findings reports
connection_codes scope none free = ground arith
connection_codes scope (some u) none = ground arith
connection_codes scope (some u) (some f) = ground arith

pub reports-evaluate_doctor_node :
    (n : DoctorNodeSnapshot)
    → SetCodes (evaluate_doctor_node n)
      × (reports "replica.member_unhealthy" (evaluate_doctor_node n) ≡ 0)
unfolding evaluate_doctor_node
reports-evaluate_doctor_node n =
    let scope = node_scope n.replica_set n.shard n.address in
    let r = (restart_codes scope n.uptime).0 in
    let c = connection_codes scope n.connections_used n.connections_free in
    let k = (cache_codes scope n.cache_max n.cache_used n.eviction_pressure n.queue_total).0 in
    (
      SetCodes-append _ _ r.0 (SetCodes-append _ _ c.0 k.0),
      reports-append-zero "replica.member_unhealthy" _ _ r.1
          (reports-append-zero "replica.member_unhealthy" _ _ c.1 k.1),
    )

connection_headroom :
    (scope : FindingScope) (used free : ℕ)
    → (reports "connection.headroom_critical"
          (connection_findings scope (some (pos used)) (some (pos free)))
        ≡ (if ltb (19 * free) used then 1 else 0))
      × (reports "connection.headroom_low"
            (connection_findings scope (some (pos used)) (some (pos free)))
          ≡ (if leb used (19 * free) && ltb (9 * free) used then 1 else 0))
unfolding connection_findings reports ◌+ℤ◌
connection_headroom scope used free = ground arith

-- A node that reports its connections is reported once as critical when fewer than one in twenty
-- is free, once as low when fewer than one in ten but not fewer than one in twenty is, and
-- otherwise not at all, whatever else is known of it.
pub evaluate_doctor_node_headroom :
    (n : DoctorNodeSnapshot) (used free : ℕ)
    → n.connections_used ≡ some (pos used)
    → n.connections_free ≡ some (pos free)
    → (reports "connection.headroom_critical" (evaluate_doctor_node n)
        ≡ (if ltb (19 * free) used then 1 else 0))
      × (reports "connection.headroom_low" (evaluate_doctor_node n)
          ≡ (if leb used (19 * free) && ltb (9 * free) used then 1 else 0))
unfolding evaluate_doctor_node
evaluate_doctor_node_headroom n used free hu hf =
    let scope = node_scope n.replica_set n.shard n.address in
    let r = restart_codes scope n.uptime in
    let k = cache_codes scope n.cache_max n.cache_used n.eviction_pressure n.queue_total in
    let c = connection_headroom scope used free in
    rw (hu, hf)
      (
        omega (
          arith,
          reports-append "connection.headroom_critical" (restart_findings scope n.uptime) (
              connection_findings scope (some (pos used)) (some (pos free))
              ++ cache_findings scope n.cache_max n.cache_used n.eviction_pressure n.queue_total),
          reports-append "connection.headroom_critical"
              (connection_findings scope (some (pos used)) (some (pos free)))
              (cache_findings scope n.cache_max n.cache_used n.eviction_pressure n.queue_total),
          r.1,
          k.1,
          c.0,
        ),
        omega (
          arith,
          reports-append "connection.headroom_low" (restart_findings scope n.uptime) (
              connection_findings scope (some (pos used)) (some (pos free))
              ++ cache_findings scope n.cache_max n.cache_used n.eviction_pressure n.queue_total),
          reports-append "connection.headroom_low"
              (connection_findings scope (some (pos used)) (some (pos free)))
              (cache_findings scope n.cache_max n.cache_used n.eviction_pressure n.queue_total),
          r.2,
          k.2,
          c.1,
        ),
      )
