-- ===== src/Retry.antt =====
-- utils/retry/retry.go: the three loops that call a function until it succeeds.
pub mod Backoff
pub mod Context
use mongo_overview_tool.Base.{
  ℕ, zero, suc, ◌+◌, ◌*◌, ◌/◌, Bool, true, false, List, [], ◌∷◌, Option, none, some, ◌==◌, ltb,
  length, if◌then◌else◌,
}
use mongo_overview_tool.Errors.{Error}

-- Durations are nanoseconds. A negative sleep, on which rand.Int63n panics, is not modelled, nor is a
-- first sleep of more than 2^63 * 2 / 3 ns (195 years), with which the sum of the sleep and its random
-- part can leave an int64: every later sleep is at most a minute.
abbrev pub default_sleep : ℕ
default_sleep = 1_000_000_000

abbrev pub max_backoff : ℕ
max_backoff = 30 * 1_000_000_000

-- The function that is called, rand.Int63n, time.Sleep, and the select between a timer and the
-- context, whose error it gives; all of a World that they change.
pub record Actions (World : Type 0) : Type 0 where
  pub call : World → World × Option Error
  pub call_condition : World → World × (Bool × Option Error)
  pub random : ℕ → World → World × ℕ
  pub sleep : ℕ → World → World
  pub sleep_with_context : ℕ → World → World × Option Error

-- What the loops did: what the calls returned and how long they waited, the latest first.
pub record RetryState (World : Type 0) : Type 0 where
  pub world : World
  pub outcomes : List (Option Error)
  pub sleeps : List ℕ

-- The random part, and the bound.
abbrev pub jitter : ℕ → ℕ → ℕ
jitter sleep random =
    let longer = sleep + random / 2 in if ltb max_backoff longer then max_backoff else longer

abbrev pub start_sleep : ℕ → ℕ
start_sleep sleep = if sleep == 0 then default_sleep else sleep

module _ {World : Type 0} (actions : Actions World) where
  abbrev pub called : World × Option Error → RetryState World → RetryState World × Option Error
  called (world, e) st = (record st { world = world; outcomes = e ∷ st.outcomes }, e)

  -- The sleep, and the state that draws it.
  abbrev pub draw : ℕ → RetryState World → RetryState World × ℕ
  draw sleep st =
      let (world, random) = actions.random sleep st.world in
      (record st { world = world }, jitter sleep random)

  abbrev pub slept : ℕ → World → RetryState World → RetryState World
  slept pause world st = record st { world = world; sleeps = pause ∷ st.sleeps }

  -- What follows a call, with the rounds that are left behind it and the rest of the loop: nothing
  -- on a success, or on the failure of the last round.
  unfoldable pub after_call :
      ℕ
      → (RetryState World → RetryState World × Option Error)
      → RetryState World × Option Error
      → RetryState World × Option Error
  after_call left rest (st, none) = (st, none)
  after_call zero rest (st, some e) = (st, some e)
  after_call (suc left) rest (st, some e) = rest st

  -- A Go int that counts rounds is a number here: below 1 there is no round.
  unfoldable pub do_rounds : ℕ → ℕ → RetryState World → RetryState World × Option Error
  unfolding after_call
  do_rounds zero sleep st = (st, none)
  do_rounds (suc left) sleep st =
      after_call left
        (λ tried.
          let (drawn, pause) = draw sleep tried in
          do_rounds left (pause * 2) (slept pause (actions.sleep pause drawn.world) drawn))
        (called (actions.call st.world) st)

  -- Do
  unfoldable pub do_retry : ℕ → ℕ → RetryState World → RetryState World × Option Error
  unfolding do_rounds
  do_retry retries sleep st = do_rounds retries (start_sleep sleep) st

  unfoldable pub after_select :
      ℕ
      → (RetryState World → RetryState World × Option Error)
      → World × Option Error
      → RetryState World
      → RetryState World × Option Error
  after_select pause rest (world, none) st = rest (slept pause world st)
  after_select pause rest (world, some e) st = (slept pause world st, some e)

  unfoldable pub context_rounds : ℕ → ℕ → RetryState World → RetryState World × Option Error
  unfolding after_call after_select
  context_rounds zero sleep st = (st, none)
  context_rounds (suc left) sleep st =
      after_call left
        (λ tried.
          let (drawn, pause) = draw sleep tried in
          after_select pause (context_rounds left (pause * 2))
            (actions.sleep_with_context pause drawn.world) drawn)
        (called (actions.call st.world) st)

  -- DoWithContext
  unfoldable pub do_with_context : ℕ → ℕ → RetryState World → RetryState World × Option Error
  unfolding context_rounds
  do_with_context retries sleep st = context_rounds retries (start_sleep sleep) st

  -- A call that tells whether to stop: it stops whether its error is nil or not.
  unfoldable pub after_condition :
      ℕ
      → (RetryState World → RetryState World × Option Error)
      → Bool
      → RetryState World × Option Error
      → RetryState World × Option Error
  after_condition left rest true result = result
  after_condition zero rest false result = result
  after_condition (suc left) rest false (st, e) = rest st

  unfoldable pub condition_rounds : ℕ → ℕ → RetryState World → RetryState World × Option Error
  unfolding after_condition
  condition_rounds zero sleep st = (st, none)
  condition_rounds (suc left) sleep st =
      let (world, (break, e)) = actions.call_condition st.world in
      after_condition left
        (λ tried.
          let (drawn, pause) = draw sleep tried in
          condition_rounds left pause (slept pause (actions.sleep pause drawn.world) drawn))
        break (called (world, e) st)

  -- DoCondition
  unfoldable pub do_condition : ℕ → ℕ → RetryState World → RetryState World × Option Error
  unfolding condition_rounds
  do_condition retries sleep st = condition_rounds retries (start_sleep sleep) st
