-- ===== src/Diagnostics/Capability/Gate.antt =====
-- When `diagnosticCapabilityGate` of pkg/mot/diagnostics.go lets a collector run.
use mongo_overview_tool.Base.{
  ℕ, ◌≤◌, ◌≡◌, refl, String, Bool, true, false, ◌&&◌, ◌||◌, Option, none, some, arith, leb, not,
}
use mongo_overview_tool.Diagnostics.{supported, CapabilityState}
use mongo_overview_tool.Diagnostics.Capability.{
  ClusterType, DiagnosticCapability, diagnostic_capability, diagnostic_capability_gate, gate_of,
  supports_topology, includes_topology, is_opt_in,
}

abbrev pub is_supported : CapabilityState → Bool
is_supported supported = true
is_supported _ = false

-- What the four tests of the gate come to.
abbrev pub may_run : Option DiagnosticCapability → ClusterType → ℕ → Bool → Bool
may_run none topology max_wire_version requested = false
may_run (some c) topology max_wire_version requested =
    includes_topology topology c.topologies
    && (leb c.minimum_wire_version max_wire_version && (not (is_opt_in c.cost) || requested))

gate_of_lem :
    (c : Option DiagnosticCapability) (name : String) (topology : ClusterType) (wire : ℕ)
    (requested : Bool)
    → ((gate_of c (supports_topology c topology) name wire requested).1
        ≡ may_run c topology wire requested)
      × (is_supported (gate_of c (supports_topology c topology) name wire requested).0.state
          ≡ may_run c topology wire requested)
unfolding gate_of supports_topology
gate_of_lem none name topology wire requested = (refl, refl)
gate_of_lem (some c) name topology wire requested = (ground arith, ground arith)

-- A collector runs exactly when it is registered, the topology is one of its topologies, the
-- server's wire version is high enough, and the caller asked for it if it is expensive; and the
-- status says `supported` exactly then.
pub diagnostic_capability_gate_lem :
    (name : String) (topology : ClusterType) (wire : ℕ) (requested : Bool)
    → ((diagnostic_capability_gate name topology wire requested).1
        ≡ may_run (diagnostic_capability name) topology wire requested)
      × (is_supported (diagnostic_capability_gate name topology wire requested).0.state
          ≡ may_run (diagnostic_capability name) topology wire requested)
unfolding diagnostic_capability_gate
diagnostic_capability_gate_lem name topology wire requested =
    gate_of_lem (diagnostic_capability name) name topology wire requested

may_run_mono :
    (c : Option DiagnosticCapability) (topology : ClusterType) (wire wire' : ℕ) (requested : Bool)
    → wire ≤ wire'
    → may_run c topology wire requested ≡ true
    → may_run c topology wire' true ≡ true
may_run_mono none topology wire wire' requested le h = ground arith
may_run_mono (some c) topology wire wire' requested le h = ground arith

-- A collector that may run may also run on a newer server, and when it is asked for.
pub diagnostic_capability_gate_mono :
    (name : String) (topology : ClusterType) (wire wire' : ℕ) (requested : Bool)
    → wire ≤ wire'
    → (diagnostic_capability_gate name topology wire requested).1 ≡ true
    → (diagnostic_capability_gate name topology wire' true).1 ≡ true
diagnostic_capability_gate_mono name topology wire wire' requested le h =
    rw ((diagnostic_capability_gate_lem name topology wire' true).0) (
      may_run_mono (diagnostic_capability name) topology wire wire' requested le
        (rw ((diagnostic_capability_gate_lem name topology wire requested).0) at h))
