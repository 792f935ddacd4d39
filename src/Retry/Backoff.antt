-- ===== src/Retry/Backoff.antt =====
-- How often the retry loops call, and how long they wait in between.
use mongo_overview_tool.Base.{
  all, false, ℕ, zero, suc, ◌+◌, ◌*◌, ◌≤◌, Bool, true, ◌&&◌, List, [], ◌∷◌, Option, none, some, leb,
  length, ◌≡◌, refl, arith,
}
use mongo_overview_tool.Errors.{Error}
use mongo_overview_tool.Retry.{
  Actions, RetryState, called, jitter, draw, slept, after_call, do_rounds, do_retry, max_backoff,
  start_sleep,
}

-- No sleep is longer than the bound, and none is shorter than the one before it; the latest is
-- first.
unfoldable pub is_backoff : List ℕ → Bool
is_backoff [] = true
is_backoff (s ∷ []) = leb s max_backoff
is_backoff (s ∷ t ∷ ss) = leb s max_backoff && (leb t s && is_backoff (t ∷ ss))

abbrev pub newest : List ℕ → ℕ
newest [] = 0
newest (s ∷ ss) = s

is_backoff-cons :
    (s : ℕ) (ss : List ℕ)
    → s ≤ max_backoff
    → newest ss ≤ s
    → is_backoff ss ≡ true
    → is_backoff (s ∷ ss) ≡ true
unfolding is_backoff
is_backoff-cons s [] h l b = ground arith
is_backoff-cons s (t ∷ ss) h l b = ground (arith, b)

newest-bound : (ss : List ℕ) → is_backoff ss ≡ true → newest ss ≤ max_backoff
unfolding is_backoff
newest-bound [] h = omega arith
newest-bound (s ∷ []) h = ground arith
newest-bound (s ∷ t ∷ ss) h = ground arith

jitter-bounds :
    (sleep random last : ℕ)
    → last ≤ sleep
    → last ≤ max_backoff
    → (jitter sleep random ≤ max_backoff) × (last ≤ jitter sleep random)
jitter-bounds sleep random last h m = ground arith

-- The newest outcome.
abbrev pub newest_outcome : List (Option Error) → Option Error
newest_outcome [] = none
newest_outcome (e ∷ es) = e

abbrev pub has_failed : Option Error → Bool
has_failed none = false
has_failed (some e) = true

-- The outcomes before the newest one.
abbrev pub older : List (Option Error) → List (Option Error)
older [] = []
older (e ∷ es) = es

module _ {World : Type 0} (actions : Actions World) where
  -- A loop that ran its rounds: it called at most that often, waited between the calls and only
  -- there, and returns what the last call returned.
  abbrev pub Ran : ℕ → RetryState World → RetryState World × Option Error → Type 0
  Ran rounds st (next, e) =
      (is_backoff next.sleeps ≡ true)
      × (length next.outcomes ≤ rounds + length st.outcomes)
      × (length next.sleeps + length st.outcomes + 1 ≡ length next.outcomes + length st.sleeps)
      × (e ≡ newest_outcome next.outcomes)
      × (all has_failed (older next.outcomes) ≡ true)

  -- A later round that is ready to begin.
  abbrev pub IsReady : ℕ → RetryState World → Type 0
  IsReady sleep st =
      (is_backoff st.sleeps ≡ true)
      × (newest st.sleeps ≤ sleep)
      × (all has_failed st.outcomes ≡ true)

  pub pause_bounds :
      (sleep : ℕ) (st : RetryState World)
      → IsReady sleep st
      → let (drawn, pause) = draw actions sleep st in
        (pause ≤ max_backoff) × (newest st.sleeps ≤ pause) × (is_backoff (pause ∷ st.sleeps) ≡ true)
  unfolding is_backoff
  pause_bounds sleep st r =
      let random = (actions.random sleep st.world).1 in
      let b = jitter-bounds sleep random (newest st.sleeps) r.1 (newest-bound st.sleeps r.0) in
      (b.0, b.1, is_backoff-cons (jitter sleep random) st.sleeps b.0 b.1 r.0)

  after_call_lem :
      (left sleep : ℕ) (world : World) (e : Option Error) (st : RetryState World)
      → IsReady sleep st
      → ((s : ℕ) (again : RetryState World)
          → IsReady s again
          → 1 ≤ left
          → Ran left again (do_rounds actions left s again))
      → Ran (suc left) st (
          after_call actions left
            (λ tried.
              let (drawn, pause) = draw actions sleep tried in
              do_rounds actions left
                (pause * 2)
                (slept actions pause (actions.sleep pause drawn.world) drawn))
            (called actions (world, e) st))
  unfolding after_call all
  after_call_lem left sleep world none st r k = (r.0, omega arith, omega arith, refl, r.2)
  after_call_lem zero sleep world (some e) st r k = (r.0, omega arith, omega arith, refl, r.2)
  after_call_lem (suc left) sleep world (some e) st r k =
      let tried = (called actions (world, some e) st).0 in
      let b = pause_bounds sleep tried r in
      let (drawn, pause) = draw actions sleep tried in
      let again = slept actions pause (actions.sleep pause drawn.world) drawn in
      let m = k (pause * 2) again (b.2, omega arith, r.2) (omega arith) in
      (m.0, omega (arith, m.1), omega (arith, m.2), m.3, m.4)

  do_rounds_lem :
      (left sleep : ℕ) (st : RetryState World)
      → IsReady sleep st
      → 1 ≤ left
      → Ran left st (do_rounds actions left sleep st)
  unfolding do_rounds
  do_rounds_lem zero sleep st r l = ground arith
  do_rounds_lem (suc left) sleep st r l =
      let tried = actions.call st.world in
      after_call_lem left sleep tried.0 tried.1 st r (λ s again r l. do_rounds_lem left s again r l)

  -- Do calls the function at most as often as it is told, and at least once if it is told to at
  -- all; it waits exactly between two calls, never longer than 30 seconds and never shorter than
  -- before; it returns what the last call returned, and every call before that one failed.
  pub do_retry_lem :
      (retries sleep : ℕ) (world : World)
      → 1 ≤ retries
      → let out =
          do_retry actions retries sleep (record { world = world; outcomes = []; sleeps = [] }) in
        (is_backoff out.0.sleeps ≡ true)
        × (length out.0.outcomes ≤ retries)
        × (length out.0.outcomes ≡ length out.0.sleeps + 1)
        × (out.1 ≡ newest_outcome out.0.outcomes)
        × (all has_failed (older out.0.outcomes) ≡ true)
  unfolding do_retry is_backoff all
  do_retry_lem retries sleep world l =
      let m =
        do_rounds_lem retries (start_sleep sleep)
          (record { world = world; outcomes = []; sleeps = [] }) (refl, omega arith, refl) l in
      (m.0, omega (arith, m.1), omega (arith, m.2), m.3, m.4)
