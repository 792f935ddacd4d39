-- ===== src/Tests/Hotspot.antt =====
-- Two snapshots of three nodes, of which one restarts and one is new.
use mongo_overview_tool.Hotspot.Resets.{calculate_hotspot_nodes, measured_nodes, place_of, place}
use mongo_overview_tool.Hotspot.Rates.{
  calculate_hotspot_rates, has_rates, has_counters, has_namespace_rates,
}
use mongo_overview_tool.Base.Int.{◌+ℤ◌, ◌-ℤ◌, wrap_int64, pos}
use mongo_overview_tool.Hotspot.Ranking.{calculate_hotspot-IsTop, IsTop}
use mongo_overview_tool.Hotspot.Calculate.{put_nodes, sub_times, nodes_found, calculate_hotspot}
use mongo_overview_tool.Hotspot.{
  HotspotNodeSnapshot, HotspotNamespaceCounter, HotspotOptions, HotspotSnapshot,
}
use mongo_overview_tool.Base.{
  arith, str_eq, ◌*◌, any, ◌≡◌, List, all, map, String, ℕ, ◌∷◌, refl, false, true, none, [],
}

abbrev counter : ℕ → ℕ → HotspotNamespaceCounter
counter reads writes = record {
  read_count = pos reads;
  write_count = pos writes;
  read_time_micros = pos (10 * reads);
  write_time_micros = pos (10 * writes);
}

abbrev node : String → ℕ → ℕ → List (String × HotspotNamespaceCounter) → HotspotNodeSnapshot
node address collected_at inserts namespaces = record {
  identity = address;
  shard = "";
  address = address;
  collected_at = collected_at;
  uptime = none;
  counters = ("insert", pos inserts) ∷ [];
  gauges = [];
  namespaces = namespaces;
}

abbrev first : HotspotSnapshot
first = record {
  collected_at = 1_000;
  nodes = node "a" 1_000 7 (("shop.orders", counter 1 1) ∷ []) ∷ node "b" 1_000 9 [] ∷ [];
}

abbrev later : HotspotSnapshot
later = record {
  collected_at = 5_000;
  nodes =
      node "a" 5_000 9 (("shop.items", counter 2 0) ∷ ("shop.orders", counter 4 2) ∷ [])
      ∷ node "b" 5_000 2 []
      ∷ node "c" 5_000 1 []
      ∷ [];
}

abbrev options : HotspotOptions
options = record {
  duration = pos 4_000;
  top_n = pos 1;
  node_concurrency = pos 1;
  databases = [];
  include_system_db = false;
}

top_run :
    map (λ n. n.namespace) (calculate_hotspot first later options).namespaces ≡ "shop.orders" ∷ []
unfolding calculate_hotspot wrap_int64 ◌-ℤ◌ ◌+ℤ◌
top_run = refl

reset_run :
    any (λ f. str_eq f.code "node.counter_reset") (calculate_hotspot first later options).findings
    ≡ true
unfolding calculate_hotspot any wrap_int64 ◌-ℤ◌ ◌+ℤ◌
reset_run = refl

calculate_hotspot-IsTop_example :
    IsTop
      (calculate_hotspot first later options).namespaces
      options.top_n
      (nodes_found (sub_times 5_000 1_000) (put_nodes first.nodes []) later.nodes).namespaces
calculate_hotspot-IsTop_example = calculate_hotspot-IsTop first later options (omega arith)

calculate_hotspot_nodes_example :
    map place (calculate_hotspot first later options).nodes
    ≡ map place_of (measured_nodes (put_nodes first.nodes []) later.nodes)
calculate_hotspot_nodes_example = calculate_hotspot_nodes first later options (omega arith)

has_first : all has_counters first.nodes ≡ true
unfolding all
has_first = refl

has_later : all has_counters later.nodes ≡ true
unfolding all
has_later = refl

calculate_hotspot_rates_example :
    let result = calculate_hotspot first later options in
    (all has_rates result.nodes ≡ true) × (all has_namespace_rates result.namespaces ≡ true)
calculate_hotspot_rates_example = calculate_hotspot_rates first later options has_first has_later
