-- ===== src/Hotspot/Rates.antt =====
-- Every rate that calculateHotspot gives is a number from 0 on.
use mongo_overview_tool.Hotspot.Resets.{namespaces_nodes}
use mongo_overview_tool.Base.Sort.{sort_stable, all-sort_stable}
use mongo_overview_tool.Base.Int.{is_zero, negsuc}
use mongo_overview_tool.Doctor.{second}
use mongo_overview_tool.Base.Int.{pos_part, scale, pos, ◌-ℤ◌, is_positive, ltb_ℤ, wrap_int64, ℤ}
use mongo_overview_tool.Base.Maps.{value_at-put, put, value_at}
use mongo_overview_tool.Hotspot.Calculate.{
  is_reset_from, namespace_less, or_zero, top_namespaces, grown, calculate_hotspot, put_nodes,
  measured_if, sub_times, reset_found, nodes_found, node_found, measured_found, is_reset,
  namespace_found, namespaces_found,
}
use mongo_overview_tool.Hotspot.{
  non_negative, NamespaceHotspot, HotspotOptions, HotspotSnapshot, counter_deltas, sub_int64,
  HotspotNamespaceCounter, HotspotNodeSnapshot, NodeHotspot,
}
use mongo_overview_tool.Base.{
  length, take, suc, zero, str_eq, all-append, ◌-◌, Option-cases, ◌≤◌, ◌<◌, ◌^◌, ltb, Bool-cases,
  ◌&&◌, ◌∙◌, map, all, if◌then◌else◌, inr, inl, true, arith, ◌≡◌, ℕ, not, String, Bool, List,
  Option, ◌∷◌, refl, false, some, none, [],
}

-- A rate is a number from 0 on: a difference that is not negative over a positive duration.
abbrev pub is_rate : ℤ × ℤ → Bool
is_rate rate = not (ltb_ℤ rate.0 (pos 0)) && is_positive rate.1

abbrev has_rate : String × (ℤ × ℤ) → Bool
has_rate (name, rate) = is_rate rate

abbrev pub has_rates : NodeHotspot → Bool
has_rates n = all has_rate n.rates

abbrev pub has_namespace_rates : NamespaceHotspot → Bool
has_namespace_rates n = is_rate n.read_per_second && is_rate n.write_per_second

-- A counter that an int64 holds and that counts up from 0.
abbrev pub is_counter : ℤ → Bool
is_counter value = not (ltb_ℤ value (pos 0)) && ltb (pos_part value) (2 ^ 63)

abbrev pub has_counters : HotspotNodeSnapshot → Bool
has_counters n = all (λ c. is_counter c.1) n.counters

-- Counters of an int64 give differences that are not negative.
difference : (c p : ℕ) → c < 2 ^ 63 → p ≤ c → sub_int64 (pos c) (pos p) ≡ pos (c - p)
unfolding wrap_int64 ◌-ℤ◌
difference c p h k = ground arith

delta_lem :
    (current previous : ℤ)
    → is_counter current ≡ true
    → is_counter previous ≡ true
    → ltb_ℤ current previous ≡ false
    → ltb_ℤ (scale second (sub_int64 current previous)) (pos 0) ≡ false
delta_lem (pos c) (pos p) h k l = rw (difference c p (ground arith) (ground arith)) (ground arith)
delta_lem (negsuc c) previous h k l = ground arith
delta_lem (pos c) (negsuc p) h k l = ground arith

value_at-all :
    (p : ℤ → Bool) (key : String) (m : List (String × ℤ)) (value : ℤ)
    → all (λ e. p e.1) m ≡ true
    → value_at key m ≡ some value
    → p value ≡ true
unfolding all value_at
value_at-all p key [] value h k = cc
value_at-all p key ((name, v) ∷ rest) value h k = ground (arith, value_at-all p key rest value)

and_true : {a b c : Bool} → a ≡ false → b ≡ true → c ≡ true → ((not a && b) && c) ≡ true
and_true h k l = ground arith

deltas_lem :
    (previous current : List (String × ℤ)) (duration : ℕ)
    → ltb 0 duration ≡ true
    → all (λ c. is_counter c.1) previous ≡ true
    → all (λ c. is_counter c.1) current ≡ true
    → all has_rate
        (map (λ d. (d.0, (scale second d.1, pos duration))) (counter_deltas previous current))
      ≡ true
unfolding counter_deltas all
deltas_lem previous [] duration d h k = refl
deltas_lem previous ((name, c) ∷ rest) duration d h k =
    elim (Option-cases (value_at name previous)) [
      | inl e ↦ rw (e, all, map) (deltas_lem previous rest duration d h (ground arith))
      | inr found ↦
          rw (found.1, all, map)
            (elim (Bool-cases (ltb_ℤ c found.0)) [
              | inl falls ↦ rw falls (deltas_lem previous rest duration d h (ground arith))
              | inr e ↦ rw e (
                  and_true
                    (delta_lem c found.0 (ground arith)
                      (value_at-all is_counter name previous found.0 h found.1) e)
                    (ground arith) (deltas_lem previous rest duration d h (ground arith)))
            ])
    ]

measured_rates :
    (previous node : HotspotNodeSnapshot) (duration : ℕ)
    → ltb 0 duration ≡ true
    → has_counters previous ≡ true
    → has_counters node ≡ true
    → all has_rates (measured_found previous node duration).nodes ≡ true
unfolding measured_found all
measured_rates previous node duration d h k =
    rw (namespaces_nodes node duration previous.namespaces node.namespaces)
      (rw (deltas_lem previous.counters node.counters duration d h k) refl)

abbrev has_counters_if : Option HotspotNodeSnapshot → Bool
has_counters_if none = true
has_counters_if (some n) = has_counters n

measured_if_rates :
    (previous node : HotspotNodeSnapshot) (duration : ℤ)
    → has_counters previous ≡ true
    → has_counters node ≡ true
    → all has_rates (measured_if previous node duration).nodes ≡ true
unfolding all
measured_if_rates previous node (pos d) h k = elim (Bool-cases (ltb 0 d)) [
  | inl e ↦ rw e (measured_rates previous node d e h k)
  | inr e ↦ rw e refl
]
measured_if_rates previous node (negsuc n) h k = refl

node_rates :
    (effective : ℤ) (previous : Option HotspotNodeSnapshot) (node : HotspotNodeSnapshot)
    → has_counters_if previous ≡ true
    → has_counters node ≡ true
    → all has_rates (node_found effective previous node).nodes ≡ true
unfolding node_found reset_found all
node_rates effective none node h k = refl
node_rates effective (some previous) node h k =
    let own = sub_times node.collected_at previous.collected_at in
    elim (Bool-cases (is_reset previous node)) [
      | inl e ↦ rw e refl
      | inr e ↦
          rw e (measured_if_rates previous node (if is_positive own then own else effective) h k)
    ]

nodes_rates :
    (effective : ℤ) (first : List (String × HotspotNodeSnapshot)) (nodes : List HotspotNodeSnapshot)
    → ((key : String) → has_counters_if (value_at key first) ≡ true)
    → all has_counters nodes ≡ true
    → all has_rates (nodes_found effective first nodes).nodes ≡ true
unfolding nodes_found all
nodes_rates effective first [] h k = refl
nodes_rates effective first (node ∷ nodes) h k =
    all-append has_rates (node_found effective (value_at node.identity first) node).nodes
      (nodes_found effective first nodes).nodes
    ∙ rw (node_rates effective (value_at node.identity first) node (h node.identity) (ground arith))
        (nodes_rates effective first nodes h (ground arith))

if_counters :
    (same_identity : Bool) (n : HotspotNodeSnapshot) (other : Option HotspotNodeSnapshot)
    → has_counters n ≡ true
    → has_counters_if other ≡ true
    → has_counters_if (if same_identity then some n else other) ≡ true
if_counters true n other h k = h
if_counters false n other h k = k

put_nodes_counters :
    (nodes : List HotspotNodeSnapshot) (values : List (String × HotspotNodeSnapshot))
    → all has_counters nodes ≡ true
    → ((key : String) → has_counters_if (value_at key values) ≡ true)
    → (key : String) → has_counters_if (value_at key (put_nodes nodes values)) ≡ true
unfolding put_nodes all
put_nodes_counters [] values h k key = k key
put_nodes_counters (n ∷ ns) values h k key =
    put_nodes_counters ns (put n.identity n values) (ground arith)
      (λ other.
        rw (value_at-put n.identity n other values) (
          if_counters (str_eq n.identity other) n (value_at other values) (ground arith) (k other)))
      key

grown_lem :
    (current previous : ℤ) (duration : ℕ)
    → ltb 0 duration ≡ true
    → is_rate (scale second (grown current previous), pos duration) ≡ true
unfolding grown non_negative
grown_lem current previous duration d = ground arith

both : (a b : Bool) → a ≡ true → b ≡ true → (a && b) ≡ true
both a b h k = ground arith

namespace_rates :
    (node : HotspotNodeSnapshot) (duration : ℕ) (name : String)
    (earlier : Option HotspotNamespaceCounter) (current : HotspotNamespaceCounter)
    → ltb 0 duration ≡ true
    → all has_namespace_rates (namespace_found node duration name earlier current).namespaces ≡ true
unfolding namespace_found all
namespace_rates node duration name earlier current d =
    let previous = or_zero earlier in
    let read_count = grown current.read_count previous.read_count in
    let write_count = grown current.write_count previous.write_count in
    let read_time = grown current.read_time_micros previous.read_time_micros in
    let write_time = grown current.write_time_micros previous.write_time_micros in
    elim (Bool-cases (is_reset_from earlier current)) [
      | inl e ↦ rw e refl
      | inr e ↦
          rw e
            (elim (Bool-cases (
              is_zero read_count
              && (is_zero write_count && (is_zero read_time && is_zero write_time)))) [
                | inl i ↦ rw i refl
                | inr i ↦ rw i (
                    both _ _
                      (both _ _ (grown_lem current.read_count previous.read_count duration d)
                        (grown_lem current.write_count previous.write_count duration d))
                      refl)
              ])
    ]

namespaces_rates :
    (node : HotspotNodeSnapshot) (duration : ℕ)
    (previous namespaces : List (String × HotspotNamespaceCounter))
    → ltb 0 duration ≡ true
    → all has_namespace_rates (namespaces_found node duration previous namespaces).namespaces ≡ true
unfolding namespaces_found all
namespaces_rates node duration previous [] d = refl
namespaces_rates node duration previous ((name, current) ∷ rest) d =
    all-append has_namespace_rates
      (namespace_found node duration name (value_at name previous) current).namespaces
      (namespaces_found node duration previous rest).namespaces
    ∙ rw (namespace_rates node duration name (value_at name previous) current d)
        (namespaces_rates node duration previous rest d)

measured_if_namespaces :
    (previous node : HotspotNodeSnapshot) (duration : ℤ)
    → all has_namespace_rates (measured_if previous node duration).namespaces ≡ true
unfolding all measured_found
measured_if_namespaces previous node (pos d) = elim (Bool-cases (ltb 0 d)) [
  | inl e ↦ rw e (namespaces_rates node d previous.namespaces node.namespaces e)
  | inr e ↦ rw e refl
]
measured_if_namespaces previous node (negsuc n) = refl

node_namespaces :
    (effective : ℤ) (previous : Option HotspotNodeSnapshot) (node : HotspotNodeSnapshot)
    → all has_namespace_rates (node_found effective previous node).namespaces ≡ true
unfolding node_found reset_found all
node_namespaces effective none node = refl
node_namespaces effective (some previous) node =
    let own = sub_times node.collected_at previous.collected_at in
    elim (Bool-cases (is_reset previous node)) [
      | inl e ↦ rw e refl
      | inr e ↦
          rw e (measured_if_namespaces previous node (if is_positive own then own else effective))
    ]

nodes_namespaces :
    (effective : ℤ) (first : List (String × HotspotNodeSnapshot)) (nodes : List HotspotNodeSnapshot)
    → all has_namespace_rates (nodes_found effective first nodes).namespaces ≡ true
unfolding nodes_found all
nodes_namespaces effective first [] = refl
nodes_namespaces effective first (node ∷ nodes) =
    all-append has_namespace_rates
      (node_found effective (value_at node.identity first) node).namespaces
      (nodes_found effective first nodes).namespaces
    ∙ rw (node_namespaces effective (value_at node.identity first) node)
        (nodes_namespaces effective first nodes)

all-take :
    (p : NamespaceHotspot → Bool) (n : ℕ) (ns : List NamespaceHotspot)
    → all p ns ≡ true
    → all p (take n ns) ≡ true
unfolding all
all-take p zero ns h = refl
all-take p (suc n) [] h = refl
all-take p (suc n) (x ∷ ns) h = ground (arith, all-take p n ns)

top_rates :
    (p : NamespaceHotspot → Bool) (top_n : ℤ) (ns : List NamespaceHotspot)
    → all p ns ≡ true
    → all p (top_namespaces top_n ns) ≡ true
unfolding top_namespaces
top_rates p top_n ns h =
    let sorted = all-sort_stable namespace_less p ns ∙ h in
    elim (Bool-cases
      (is_positive top_n && ltb (pos_part top_n) (length (sort_stable namespace_less ns)))) [
        | inl e ↦ rw e (all-take p (pos_part top_n) (sort_stable namespace_less ns) sorted)
        | inr e ↦ rw e sorted
      ]

-- If all counters of the nodes of both snapshots are numbers from 0 on that an int64 holds, then every
-- rate of the result, of a node or of a namespace, is one that is not negative over a positive
-- duration, whatever the times of the snapshots are.
pub calculate_hotspot_rates :
    (first later : HotspotSnapshot) (opts : HotspotOptions)
    → all has_counters first.nodes ≡ true
    → all has_counters later.nodes ≡ true
    → let result = calculate_hotspot first later opts in
      (all has_rates result.nodes ≡ true) × (all has_namespace_rates result.namespaces ≡ true)
unfolding calculate_hotspot all value_at
calculate_hotspot_rates first later opts h k =
    let effective = sub_times later.collected_at first.collected_at in
    let before = put_nodes first.nodes [] in
    elim (Bool-cases (is_positive effective)) [
      | inl e ↦ rw e (
        nodes_rates effective before later.nodes (put_nodes_counters first.nodes [] h (λ key. refl))
            k,
        top_rates has_namespace_rates opts.top_n
            (nodes_found effective before later.nodes).namespaces
            (nodes_namespaces effective before later.nodes),
      )
      | inr e ↦ rw e (refl, refl)
    ]
