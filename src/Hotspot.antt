-- ===== src/Hotspot.antt =====
-- pkg/mot/hotspot.go: the options, the snapshots and calculateHotspot, which compares two snapshots
-- of the nodes. Counters are int64: their differences wrap around.
pub mod Calculate
pub mod Ranking
use mongo_overview_tool.Doctor.{default_node_concurrency, second}
use mongo_overview_tool.IndexAudit.{or_default, is_nil, system_databases}
use mongo_overview_tool.Diagnostics.{CollectorStatus, DiagnosticFinding}
use mongo_overview_tool.Base.Maps.{value_at}
use mongo_overview_tool.Errors.{ok, invalid, err, Result}
use mongo_overview_tool.Base.Int.{◌+ℤ◌, ◌-ℤ◌, is_positive, pos, wrap_int64, ltb_ℤ, ℤ}
use mongo_overview_tool.Base.{
  ◌*◌, ◌||◌, ◌&&◌, any, not, codes, ◌==◌, Option, Bool, ℕ, String, lex_eq, List, ◌∷◌, if◌then◌else◌,
  false, some, none, [],
}
use mathlib.Core.Option
pub mod Resets
pub mod Rates

pub record HotspotOptions : Type 0 where
  pub duration : ℤ
  pub top_n : ℤ
  pub node_concurrency : ℤ
  pub databases : List String
  pub include_system_db : Bool

unfoldable pub normalize_hotspot_options : HotspotOptions → Result HotspotOptions
normalize_hotspot_options opts =
    if ltb_ℤ opts.duration (pos 0)
    then err (invalid "duration must be greater than zero")
    else if ltb_ℤ opts.top_n (pos 0)
    then err (invalid "top must not be negative")
    else if ltb_ℤ opts.node_concurrency (pos 0)
    then err (invalid "node concurrency must not be negative")
    else ok (record opts {
      duration = or_default opts.duration (pos (10 * second));
      top_n = or_default opts.top_n (pos 10);
      node_concurrency = or_default opts.node_concurrency default_node_concurrency;
    })

-- What strings.Cut finds before the first dot, if there is a dot.
unfoldable pub cut_before_dot : List ℕ → Option (List ℕ)
cut_before_dot [] = none
cut_before_dot (c ∷ cs) =
    let rest = cut_before_dot cs in
    if c == b'.' then some [] else Option.map (λ before. c ∷ before) rest

abbrev is_database : List ℕ → String → Bool
is_database database name = lex_eq database (codes name)

abbrev allows : HotspotOptions → List ℕ → Bool
allows opts [] = false
allows opts (c ∷ cs) =
    not (not opts.include_system_db && any (is_database (c ∷ cs)) system_databases)
    && (is_nil opts.databases || any (is_database (c ∷ cs)) opts.databases)

unfoldable pub hotspot_namespace_allowed : String → HotspotOptions → Bool
unfolding cut_before_dot lex_eq any
hotspot_namespace_allowed namespace opts = elim (cut_before_dot (codes namespace)) [
  | none ↦ false
  | some database ↦ allows opts database
]

pub record HotspotNamespaceCounter : Type 0 where
  pub read_count : ℤ
  pub write_count : ℤ
  pub read_time_micros : ℤ
  pub write_time_micros : ℤ

-- The maps are in the order in which a loop over them goes. `collected_at` is a time.
pub record HotspotNodeSnapshot : Type 0 where
  pub identity : String
  pub shard : String
  pub address : String
  pub collected_at : ℕ
  pub uptime : Option ℤ
  pub counters : List (String × ℤ)
  pub gauges : List (String × ℤ)
  pub namespaces : List (String × HotspotNamespaceCounter)

pub record HotspotSnapshot : Type 0 where
  pub collected_at : ℕ
  pub nodes : List HotspotNodeSnapshot

-- A rate is the quotient of a difference by nanoseconds, in seconds: amount * second / duration.
pub record NodeHotspot : Type 0 where
  pub shard : String
  pub host : String
  pub rates : List (String × (ℤ × ℤ))
  pub deltas : List (String × ℤ)
  pub average_latencies : List (String × Option (ℤ × ℤ))
  pub gauges : List (String × ℤ)

pub record NamespaceHotspot : Type 0 where
  pub shard : String
  pub host : String
  pub namespace : String
  pub read_per_second : ℤ × ℤ
  pub write_per_second : ℤ × ℤ
  pub read_time_micros : ℤ
  pub write_time_micros : ℤ
  pub total_time_micros : ℤ

-- `effective_duration` is the difference of the two times, which may be negative.
pub record HotspotResult : Type 0 where
  pub started_at : ℕ
  pub finished_at : ℕ
  pub effective_duration : ℤ
  pub nodes : List NodeHotspot
  pub namespaces : List NamespaceHotspot
  pub findings : List DiagnosticFinding
  pub collector_statuses : List CollectorStatus

-- current - previous, as an int64.
abbrev pub sub_int64 : ℤ → ℤ → ℤ
sub_int64 a b = wrap_int64 (a -ℤ b)

abbrev pub add_int64 : ℤ → ℤ → ℤ
add_int64 a b = wrap_int64 (a +ℤ b)

unfoldable pub non_negative : ℤ → ℤ
non_negative value = if ltb_ℤ value (pos 0) then pos 0 else value

unfoldable pub namespace_counters_reset : HotspotNamespaceCounter → HotspotNamespaceCounter → Bool
namespace_counters_reset first second =
    ltb_ℤ second.read_count first.read_count
    || (ltb_ℤ second.write_count first.write_count
        || (ltb_ℤ second.read_time_micros first.read_time_micros
            || ltb_ℤ second.write_time_micros first.write_time_micros))

abbrev is_below : Option ℤ → ℤ → Bool
is_below none previous = false
is_below (some current) previous = ltb_ℤ current previous

unfoldable pub counters_reset : List (String × ℤ) → List (String × ℤ) → Bool
unfolding value_at any
counters_reset first second = any (λ e. is_below (value_at e.0 second) e.1) first

-- The deltas of the counters that both snapshots have and that did not fall.
unfoldable pub counter_deltas : List (String × ℤ) → List (String × ℤ) → List (String × ℤ)
unfolding value_at
counter_deltas previous [] = []
counter_deltas previous ((name, current) ∷ rest) =
    let deltas = counter_deltas previous rest in
    elim (value_at name previous) [
      | none ↦ deltas
      | some before ↦
          if ltb_ℤ current before then deltas else (name, sub_int64 current before) ∷ deltas
    ]

-- deltas[name], which is 0 where there is none.
unfoldable pub delta_of : String → List (String × ℤ) → ℤ
unfolding value_at
delta_of name deltas = elim (value_at name deltas) [ none ↦ pos 0 | some d ↦ d ]

-- setAverageLatency
unfoldable pub average_latency : ℤ → ℤ → Option (ℤ × ℤ)
average_latency latency_micros operations =
    if is_positive operations then some (latency_micros, operations) else none

abbrev metric_names : List String
metric_names =
    "wtApplicationEviction" ∷ "wtPagesRead" ∷ "wtPagesWritten" ∷ "readTicketWaitMicros"
    ∷ "writeTicketWaitMicros" ∷ []

metric_deltas : List String → List (String × ℤ) → List (String × ℤ)
unfolding value_at
metric_deltas [] deltas = []
metric_deltas (name ∷ names) deltas =
    let rest = metric_deltas names deltas in
    elim (value_at name deltas) [ none ↦ rest | some value ↦ (name, value) ∷ rest ]

unfoldable pub hotspot_metric_deltas : List (String × ℤ) → List (String × ℤ)
unfolding metric_deltas
hotspot_metric_deltas deltas = metric_deltas metric_names deltas
