-- ===== src/Session/Capabilities.antt =====
-- pkg/mot/session.go: recordCapability and the slowlog locations.
use mongo_overview_tool.Base.{
  ℕ, suc, ◌+◌, String, Bool, true, false, List, [], ◌∷◌, Option, none, some, if◌then◌else◌, str_eq,
  ◌≡◌, refl, arith, ◌&&◌, ap, sym, ◌∙◌, eq_iff, count,
}
use mongo_overview_tool.Errors.{Error, is, partial_result}

-- CollectorCapabilityStats; a duration is a number of nanoseconds.
pub record CapabilityStats : Type 0 where
  pub calls : ℕ
  pub successes : ℕ
  pub partial_results : ℕ
  pub failures : ℕ
  pub total_duration : ℕ

abbrev pub no_stats : CapabilityStats
no_stats = record {
  calls = 0;
  successes = 0;
  partial_results = 0;
  failures = 0;
  total_duration = 0;
}

-- A Go map from names, as an association list; a missing name has the zero value.
unfoldable pub stats_at : String → List (String × CapabilityStats) → CapabilityStats
stats_at name [] = no_stats
stats_at name ((n, stats) ∷ rest) = if str_eq n name then stats else stats_at name rest

unfoldable pub add_call : ℕ → Option Error → CapabilityStats → CapabilityStats
unfolding is
add_call duration none stats = record stats {
  calls = suc stats.calls;
  total_duration = stats.total_duration + duration;
  successes = suc stats.successes;
}
add_call duration (some e) stats =
    let called = record stats {
      calls = suc stats.calls;
      total_duration = stats.total_duration + duration;
    } in
    if is e partial_result
    then record called { partial_results = suc stats.partial_results }
    else record called { failures = suc stats.failures }

unfoldable pub store :
    String → CapabilityStats → List (String × CapabilityStats) → List (String × CapabilityStats)
store name stats [] = (name, stats) ∷ []
store name stats ((n, old) ∷ rest) =
    let stored = store name stats rest in
    if str_eq n name then (n, stats) ∷ rest else (n, old) ∷ stored

unfoldable pub record_capability :
    String → ℕ → Option Error → List (String × CapabilityStats) → List (String × CapabilityStats)
unfolding stats_at add_call store
record_capability name duration e capabilities =
    store name (add_call duration e (stats_at name capabilities)) capabilities

-- One call that was recorded.
pub record Recorded : Type 0 where
  pub name : String
  pub duration : ℕ
  pub error : Option Error

unfoldable pub record_all :
    List Recorded → List (String × CapabilityStats) → List (String × CapabilityStats)
unfolding record_capability
record_all [] capabilities = capabilities
record_all (r ∷ rs) capabilities =
    record_all rs (record_capability r.name r.duration r.error capabilities)

same_name : (n name other : String) → str_eq n name ≡ true → str_eq n other ≡ str_eq name other
same_name n name other h = ap (λ x. str_eq x other) ((eq_iff n name).0 h)

both_names :
    (n name other : String)
    → str_eq n other ≡ true
    → str_eq name other ≡ true
    → str_eq n name ≡ true
both_names n name other h k =
    (eq_iff n name).1 ((eq_iff n other).0 h ∙ sym ((eq_iff name other).0 k))

store_lem :
    (name other : String) (stats : CapabilityStats) (cs : List (String × CapabilityStats))
    → stats_at other (store name stats cs)
      ≡ (if str_eq name other then stats else stats_at other cs)
unfolding stats_at store
store_lem name other stats [] = refl
store_lem name other stats ((n, old) ∷ cs) =
    ground (arith, same_name n name other, both_names n name other, store_lem name other stats cs)

-- The recorded calls of one name, of one outcome.
abbrev pub is_of : String → Recorded → Bool
is_of name r = str_eq r.name name

abbrev pub succeeded : Option Error → Bool
succeeded none = true
succeeded (some e) = false

abbrev pub was_partial : Option Error → Bool
was_partial none = false
was_partial (some e) = is e partial_result

-- What one record adds to each counter.
add_call_lem :
    (duration : ℕ) (e : Option Error) (stats : CapabilityStats)
    → ((add_call duration e stats).calls ≡ 1 + stats.calls)
      × ((add_call duration e stats).successes ≡ (if succeeded e then 1 else 0) + stats.successes)
      × ((add_call duration e stats).partial_results
          ≡ (if was_partial e then 1 else 0) + stats.partial_results)
      × ((add_call duration e stats).successes
            + (add_call duration e stats).partial_results
            + (add_call duration e stats).failures
          ≡ 1 + (stats.successes + stats.partial_results + stats.failures))
unfolding add_call
add_call_lem duration none stats = ground arith
add_call_lem duration (some e) stats = ground arith

record_by :
    (same : Bool) (name : String) (r : Recorded) (cs : List (String × CapabilityStats))
    → str_eq r.name name ≡ same
    → (if same then add_call r.duration r.error (stats_at r.name cs) else stats_at name cs)
      ≡ (if same then add_call r.duration r.error (stats_at name cs) else stats_at name cs)
record_by true name r cs h =
    ap (λ x. add_call r.duration r.error (stats_at x cs)) ((eq_iff r.name name).0 h)
record_by false name r cs h = refl

-- A record changes the statistics of its own name only.
record_lem :
    (name : String) (r : Recorded) (cs : List (String × CapabilityStats))
    → stats_at name (record_capability r.name r.duration r.error cs) ≡ (
        if str_eq r.name name
        then add_call r.duration r.error (stats_at name cs)
        else stats_at name cs)
unfolding record_capability
record_lem name r cs =
    store_lem r.name name (add_call r.duration r.error (stats_at r.name cs)) cs
    ∙ record_by (str_eq r.name name) name r cs refl

abbrev pub Tallies : List Recorded → String → CapabilityStats → CapabilityStats → Type 0
Tallies rs name old new =
    (new.calls ≡ count (is_of name) rs + old.calls)
    × (new.successes ≡ count (λ r. is_of name r && succeeded r.error) rs + old.successes)
    × (new.partial_results
        ≡ count (λ r. is_of name r && was_partial r.error) rs + old.partial_results)
    × (new.successes + new.partial_results + new.failures
        ≡ count (is_of name) rs + (old.successes + old.partial_results + old.failures))

one_lem :
    (mine : Bool) (r : Recorded) (old : CapabilityStats)
    → let new = if mine then add_call r.duration r.error old else old in
      (new.calls ≡ (if mine then 1 else 0) + old.calls)
      × (new.successes ≡ (if mine && succeeded r.error then 1 else 0) + old.successes)
      × (new.partial_results ≡ (if mine && was_partial r.error then 1 else 0) + old.partial_results)
      × (new.successes + new.partial_results + new.failures
          ≡ (if mine then 1 else 0) + (old.successes + old.partial_results + old.failures))
one_lem true r old = add_call_lem r.duration r.error old
one_lem false r old = ground arith

-- Of the calls that were recorded, the statistics of a name count exactly those of that name: all,
-- the successful ones and the partial ones, each one in exactly one of three outcomes.
pub record_all_lem :
    (rs : List Recorded) (name : String) (cs : List (String × CapabilityStats))
    → Tallies rs name (stats_at name cs) (stats_at name (record_all rs cs))
unfolding record_all count
record_all_lem [] name cs = ground arith
record_all_lem (r ∷ rs) name cs =
    let ih = record_all_lem rs name (record_capability r.name r.duration r.error cs) in
    let one = one_lem (is_of name r) r (stats_at name cs) in
    let e = record_lem name r cs in
    (
      omega (arith, ih.0, one.0, ap (λ s. s.calls) e),
      omega (arith, ih.1, one.1, ap (λ s. s.successes) e),
      omega (arith, ih.2, one.2, ap (λ s. s.partial_results) e),
      omega (
        arith,
        ih.3,
        one.3,
        ap {B = ℕ} (λ (s : CapabilityStats). s.successes + s.partial_results + s.failures) e,
      ),
    )
