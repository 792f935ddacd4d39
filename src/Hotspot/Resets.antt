-- ===== src/Hotspot/Resets.antt =====
-- Which nodes calculateHotspot measures.
use mongo_overview_tool.Hotspot.Ranking.{positive_duration}
use mongo_overview_tool.Base.Int.{negsuc}
use mongo_overview_tool.Base.Int.{pos, is_positive, ℤ}
use mathlib.Core.List.{map-append}
use mongo_overview_tool.Base.Maps.{value_at}
use mongo_overview_tool.Hotspot.Calculate.{
  calculate_hotspot, put_nodes, measured_if, sub_times, reset_found, nodes_found, node_found,
  measured_found, is_reset, namespace_found, namespaces_found,
}
use mongo_overview_tool.Hotspot.{
  HotspotOptions, HotspotSnapshot, HotspotNamespaceCounter, HotspotNodeSnapshot, NodeHotspot,
}
use mongo_overview_tool.Base.{
  ◌<◌, Bool-cases, ◌∙◌, map, ◌++◌, if◌then◌else◌, inr, inl, true, arith, ◌≡◌, ℕ, keep, not, String,
  Bool, List, Option, ◌∷◌, refl, false, some, none, [],
}

abbrev pub is_measured : Option HotspotNodeSnapshot → HotspotNodeSnapshot → Bool
is_measured none node = false
is_measured (some previous) node = not (is_reset previous node)

-- The shard and the host of an entry.
abbrev pub place : NodeHotspot → String × String
place n = (n.shard, n.host)

abbrev pub place_of : HotspotNodeSnapshot → String × String
place_of n = (n.shard, n.address)

abbrev pub measured_nodes :
    List (String × HotspotNodeSnapshot) → List HotspotNodeSnapshot → List HotspotNodeSnapshot
measured_nodes first nodes = keep (λ n. is_measured (value_at n.identity first) n) nodes

-- The loop over the namespaces adds no nodes.
pub namespaces_nodes :
    (node : HotspotNodeSnapshot) (duration : ℕ)
    (previous namespaces : List (String × HotspotNamespaceCounter))
    → (namespaces_found node duration previous namespaces).nodes ≡ []
unfolding namespaces_found namespace_found
namespaces_nodes node duration previous [] = refl
namespaces_nodes node duration previous ((name, current) ∷ rest) =
    ground (arith, namespaces_nodes node duration previous rest)

measured_place :
    (previous node : HotspotNodeSnapshot) (duration : ℕ)
    → map place (measured_found previous node duration).nodes ≡ place_of node ∷ []
unfolding measured_found
measured_place previous node duration =
    rw (namespaces_nodes node duration previous.namespaces node.namespaces) refl

measured_if-place :
    (previous node : HotspotNodeSnapshot) (duration : ℤ)
    → is_positive duration ≡ true
    → map place (measured_if previous node duration).nodes ≡ place_of node ∷ []
measured_if-place previous node (pos d) h = rw h (measured_place previous node d)
measured_if-place previous node (negsuc n) h = cc

own_or_effective :
    (own effective : ℤ)
    → is_positive effective ≡ true
    → is_positive (if is_positive own then own else effective) ≡ true
own_or_effective own effective h = ground arith

node_places :
    (effective : ℤ) (previous : Option HotspotNodeSnapshot) (node : HotspotNodeSnapshot)
    → is_positive effective ≡ true
    → map place (node_found effective previous node).nodes
      ≡ (if is_measured previous node then place_of node ∷ [] else [])
unfolding node_found reset_found
node_places effective none node h = refl
node_places effective (some previous) node h =
    let own = sub_times node.collected_at previous.collected_at in
    elim (Bool-cases (is_reset previous node)) [
      | inl e ↦ rw e refl
      | inr e ↦ rw e (
          measured_if-place previous node (if is_positive own then own else effective)
            (own_or_effective own effective h))
    ]

kept_place :
    (measured : Bool) (node : HotspotNodeSnapshot) (rest : List HotspotNodeSnapshot)
    → (if measured then place_of node ∷ [] else []) ++ map place_of rest
      ≡ map place_of (if measured then node ∷ rest else rest)
kept_place true node rest = refl
kept_place false node rest = refl

nodes_places :
    (effective : ℤ) (first : List (String × HotspotNodeSnapshot)) (nodes : List HotspotNodeSnapshot)
    → is_positive effective ≡ true
    → map place (nodes_found effective first nodes).nodes
      ≡ map place_of (measured_nodes first nodes)
unfolding nodes_found keep
nodes_places effective first [] h = refl
nodes_places effective first (node ∷ nodes) h =
    map-append place (node_found effective (value_at node.identity first) node).nodes
      (nodes_found effective first nodes).nodes
    ∙ rw (node_places effective (value_at node.identity first) node h) (
        rw (nodes_places effective first nodes h) (
          kept_place (is_measured (value_at node.identity first) node) node
            (measured_nodes first nodes)))

-- If the second snapshot is later, the nodes of the result are, in order, the nodes of the second
-- snapshot that the first one has too (as its last entry of that identity) and that show neither a
-- restart nor a counter that fell.
pub calculate_hotspot_nodes :
    (first later : HotspotSnapshot) (opts : HotspotOptions)
    → first.collected_at < later.collected_at
    → map place (calculate_hotspot first later opts).nodes
      ≡ map place_of (measured_nodes (put_nodes first.nodes []) later.nodes)
unfolding calculate_hotspot
calculate_hotspot_nodes first later opts h =
    let positive = positive_duration first.collected_at later.collected_at h in
    rw positive (
      nodes_places (sub_times later.collected_at first.collected_at) (put_nodes first.nodes [])
        later.nodes positive)
