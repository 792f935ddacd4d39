-- ===== src/Hotspot/Ranking.antt =====
-- The list of namespaces that calculateHotspot returns is the top of all that it found.
use mathlib.Core.List.{Perm, append-nil}
use Prim.Native.Nat.{min}
use mongo_overview_tool.Base.Chains.{str_lt-IsOrder, str-IsKey, falling-IsKey, chain-IsOrder}
use mongo_overview_tool.Hotspot.{HotspotOptions, HotspotSnapshot, NamespaceHotspot}
use mongo_overview_tool.Base.Sort.{
  length-sort_stable, sort_stable-perm, sort_stable-IsSorted, sort_stable, IsSorted, IsOrder,
}
use mongo_overview_tool.Base.Int.{pos_part, is_positive, ℤ}
use mongo_overview_tool.Hotspot.Calculate.{
  put_nodes, nodes_found, calculate_hotspot, sub_times, top_namespaces, namespace_less,
}
use mongo_overview_tool.Base.{
  ap, ◌∙◌, length-take, take-append-drop, ltb, drop, arith, ◌&&◌, take, ◌<◌, Bool-cases, ◌≡◌,
  length, inr, inl, true, [], ◌++◌, ℕ, List, if◌then◌else◌,
}

namespace_less-IsOrder : IsOrder namespace_less
unfolding namespace_less
namespace_less-IsOrder = chain-IsOrder _ _ _ (falling-IsKey (λ n. n.total_time_micros)) (
    chain-IsOrder _ _ _ (str-IsKey (λ n. n.namespace))
      (chain-IsOrder _ _ _ (str-IsKey (λ n. n.shard)) (str_lt-IsOrder (λ n. n.host))))

-- How many namespaces are kept.
abbrev pub kept : ℤ → ℕ → ℕ
kept top_n n = if is_positive top_n then min (pos_part top_n) n else n

abbrev pub IsTop : List NamespaceHotspot → ℤ → List NamespaceHotspot → Type 0
IsTop top top_n all_found =
    (rest : List NamespaceHotspot) × IsSorted namespace_less (top ++ rest)
    × Perm (top ++ rest) all_found
    × (length top ≡ kept top_n (length all_found))

module _ (found : List NamespaceHotspot) where
  abbrev ranked : List NamespaceHotspot
  ranked = sort_stable namespace_less found

  cut_top :
      (n : ℕ) (k : ℕ)
      → min n (length found) ≡ k
      → (rest : List NamespaceHotspot) × IsSorted namespace_less (take n ranked ++ rest)
        × Perm (take n ranked ++ rest) found
        × (length (take n ranked) ≡ k)
  cut_top n k h = (
    drop n ranked,
    rw (take-append-drop n ranked)
        (sort_stable-IsSorted namespace_less namespace_less-IsOrder found),
    rw (take-append-drop n ranked) (sort_stable-perm namespace_less found),
    length-take n ranked ∙ ap (min n) (length-sort_stable namespace_less found) ∙ h,
  )

  whole_top :
      (k : ℕ)
      → length found ≡ k
      → (rest : List NamespaceHotspot) × IsSorted namespace_less (ranked ++ rest)
        × Perm (ranked ++ rest) found
        × (length ranked ≡ k)
  whole_top k h = (
    [],
    rw (append-nil ranked) (sort_stable-IsSorted namespace_less namespace_less-IsOrder found),
    rw (append-nil ranked) (sort_stable-perm namespace_less found),
    length-sort_stable namespace_less found ∙ h,
  )

top_namespaces-IsTop :
    (top_n : ℤ) (found : List NamespaceHotspot) → IsTop (top_namespaces top_n found) top_n found
unfolding top_namespaces
top_namespaces-IsTop top_n found =
    elim (Bool-cases (is_positive top_n && ltb (pos_part top_n) (length (ranked found)))) [
      | inl cut ↦ rw cut (cut_top found (pos_part top_n) (kept top_n (length found)) (ground arith))
      | inr whole ↦ rw whole (
          whole_top found (kept top_n (length found))
            (ground (arith, length-sort_stable namespace_less found)))
    ]

pub positive_duration :
    (first second_time : ℕ) → first < second_time → is_positive (sub_times second_time first) ≡ true
unfolding sub_times
positive_duration first second_time h = ground arith

-- If the second snapshot is later, the namespaces of the result are the first of all that were
-- found, in the order of falling total time, then of name, shard and host: what is left out would
-- stand behind them, nothing is lost or doubled, and as many are kept as the limit allows, or all
-- without a limit.
pub calculate_hotspot-IsTop :
    (first later : HotspotSnapshot) (opts : HotspotOptions)
    → first.collected_at < later.collected_at
    → IsTop
        (calculate_hotspot first later opts).namespaces
        opts.top_n
        (nodes_found
          (sub_times later.collected_at first.collected_at)
          (put_nodes first.nodes [])
          later.nodes).namespaces
unfolding calculate_hotspot
calculate_hotspot-IsTop first later opts h =
    rw (positive_duration first.collected_at later.collected_at h) (
      top_namespaces-IsTop opts.top_n
        (nodes_found (sub_times later.collected_at first.collected_at) (put_nodes first.nodes [])
          later.nodes).namespaces)
