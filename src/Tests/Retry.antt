-- ===== src/Tests/Retry.antt =====
-- A run of the retry loop.
use mongo_overview_tool.Base.{
  all, ◌≡◌, ◌≤◌, ◌+◌, ◌*◌, refl, true, false, ℕ, zero, suc, [], ◌∷◌, Option, none, some, codes,
  length, arith,
}
use mongo_overview_tool.Errors.{Error, message}
use mongo_overview_tool.Retry.{do_with_context, Actions, RetryState, do_retry, default_sleep}
use mongo_overview_tool.Retry.Context.{Stopped, do_with_context_lem}
use mongo_overview_tool.Retry.Backoff.{has_failed, older, is_backoff, newest_outcome, do_retry_lem}

-- The state counts the calls: the first two fail.
abbrev answer : ℕ → Option Error
answer zero = some (message (codes "refused"))
answer (suc zero) = some (message (codes "refused"))
answer (suc (suc n)) = none

abbrev actions : Actions ℕ
actions = record {
  call = λ world. (suc world, answer world);
  call_condition = λ world. (suc world, (false, answer world));
  random = λ bound world. (world, 0);
  sleep = λ pause world. world;
  sleep_with_context = λ pause world. (world, none);
}

abbrev start : RetryState ℕ
start = record { world = 0; outcomes = []; sleeps = [] }

do_retry_run :
    ((do_retry actions 5 0 start).1 ≡ none)
    × ((do_retry actions 5 0 start).0.sleeps ≡ 2 * default_sleep ∷ default_sleep ∷ [])
unfolding do_retry
do_retry_run = (refl, refl)

do_retry_example :
    let out = do_retry actions 5 0 start in
    (is_backoff out.0.sleeps ≡ true)
    × (length out.0.outcomes ≤ 5)
    × (length out.0.outcomes ≡ length out.0.sleeps + 1)
    × (out.1 ≡ newest_outcome out.0.outcomes)
    × (all has_failed (older out.0.outcomes) ≡ true)
do_retry_example = do_retry_lem actions 5 0 0 (omega arith)

do_with_context_example :
    let out = do_with_context actions 5 0 start in
    (is_backoff out.0.sleeps ≡ true) × (length out.0.outcomes ≤ 5) × Stopped actions 0 0 out
do_with_context_example = do_with_context_lem actions 5 0 0 (omega arith)
