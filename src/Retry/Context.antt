-- ===== src/Retry/Context.antt =====
-- The retry loop that a context can stop.
use mongo_overview_tool.Base.{
  ℕ, zero, suc, ◌+◌, ◌*◌, ◌≤◌, true, [], ◌∷◌, Option, none, some, length, all, ◌≡◌, refl, arith,
  ◌⊎◌, inl, inr,
}
use mongo_overview_tool.Errors.{Error}
use mongo_overview_tool.Retry.{
  Actions, RetryState, called, draw, after_call, after_select, context_rounds, do_with_context,
  start_sleep,
}
use mongo_overview_tool.Retry.Backoff.{
  is_backoff, newest_outcome, has_failed, older, IsReady, pause_bounds, newest,
}

module _ {World : Type 0} (actions : Actions World) where
  -- How a loop ended: behind a call, whose outcome it returns, or in the wait behind a call that
  -- failed, with the error that the select of this wait gave.
  abbrev pub Stopped : ℕ → ℕ → RetryState World × Option Error → Type 0
  Stopped calls sleeps (next, e) =
      ((length next.sleeps + calls + 1 ≡ length next.outcomes + sleeps)
        × (e ≡ newest_outcome next.outcomes)
        × (all has_failed (older next.outcomes) ≡ true))
      ⊎ ((length next.sleeps + calls ≡ length next.outcomes + sleeps)
          × ((drawn : World) × (actions.sleep_with_context (newest next.sleeps) drawn
                ≡ (next.world, e)))
          × (has_failed e ≡ true)
          × (all has_failed next.outcomes ≡ true))

  abbrev Ran : ℕ → RetryState World → RetryState World × Option Error → Type 0
  Ran rounds st out =
      (is_backoff out.0.sleeps ≡ true)
      × (length out.0.outcomes ≤ rounds + length st.outcomes)
      × Stopped (length st.outcomes) (length st.sleeps) out

  Stopped-later :
      (calls sleeps : ℕ) (out : RetryState World × Option Error)
      → Stopped (suc calls) (suc sleeps) out
      → Stopped calls sleeps out
  Stopped-later calls sleeps out (inl (n, e, f)) = inl (omega arith, e, f)
  Stopped-later calls sleeps out (inr (n, w, e, f)) = inr (omega arith, w, e, f)

  -- The wait behind a failed call, by what the select gave, and the rest of the loop.
  select_lem :
      (left pause : ℕ) (world drawn : World) (stop : Option Error) (st : RetryState World)
      (e : Error) (rest : RetryState World → RetryState World × Option Error)
      → actions.sleep_with_context pause drawn ≡ (world, stop)
      → is_backoff (pause ∷ st.sleeps) ≡ true
      → all has_failed st.outcomes ≡ true
      → ((again : RetryState World)
          → IsReady actions (pause * 2) again
          → Ran left again (rest again))
      → Ran (suc left) st (
          after_select actions pause rest
            (world, stop)
            (record { world = drawn; outcomes = some e ∷ st.outcomes; sleeps = st.sleeps }))
  unfolding after_select all
  select_lem left pause world drawn (some stop) st e rest w b f k =
      (b, omega arith, inr (omega arith, (drawn, w), refl, f))
  select_lem left pause world drawn none st e rest w b f k =
      let again : RetryState World = record {
        world = world;
        outcomes = some e ∷ st.outcomes;
        sleeps = pause ∷ st.sleeps;
      } in
      let m = k again (b, omega arith, f) in
      (
        m.0,
        omega (arith, m.1),
        Stopped-later (length st.outcomes) (length st.sleeps) (rest again) m.2,
      )

  after_call_lem :
      (left sleep : ℕ) (world : World) (e : Option Error) (st : RetryState World)
      → IsReady actions sleep st
      → ((s : ℕ) (again : RetryState World)
          → IsReady actions s again
          → 1 ≤ left
          → Ran left again (context_rounds actions left s again))
      → Ran (suc left) st (
          after_call actions left
            (λ tried.
              let (drawn, pause) = draw actions sleep tried in
              after_select actions pause
                (context_rounds actions left (pause * 2))
                (actions.sleep_with_context pause drawn.world)
                drawn)
            (called actions (world, e) st))
  unfolding after_call all
  after_call_lem left sleep world none st r k = (r.0, omega arith, inl (omega arith, refl, r.2))
  after_call_lem zero sleep world (some e) st r k = (r.0, omega arith, inl (omega arith, refl, r.2))
  after_call_lem (suc left) sleep world (some e) st r k =
      let tried = (called actions (world, some e) st).0 in
      let b = pause_bounds actions sleep tried (r.0, r.1, r.2) in
      let (drawn, pause) = draw actions sleep tried in
      let waited = actions.sleep_with_context pause drawn.world in
      select_lem (suc left) pause waited.0 drawn.world waited.1 st e
        (context_rounds actions (suc left) (pause * 2)) refl b.2 r.2
        (λ again ready. k (pause * 2) again ready (omega arith))

  context_rounds_lem :
      (left sleep : ℕ) (st : RetryState World)
      → IsReady actions sleep st
      → 1 ≤ left
      → Ran left st (context_rounds actions left sleep st)
  unfolding context_rounds
  context_rounds_lem zero sleep st r l = ground arith
  context_rounds_lem (suc left) sleep st r l =
      let tried = actions.call st.world in
      after_call_lem left sleep tried.0 tried.1 st r
        (λ s again r l. context_rounds_lem left s again r l)

  -- DoWithContext calls the function at most as often as it is told; its waits are never longer than
  -- 30 seconds and never shorter than before. It ends behind a call, with what that call returned,
  -- or in its last wait, behind a failed call, with the error that a select of this length gave
  -- together with the state of the world that is returned; every call before the last one failed.
  pub do_with_context_lem :
      (retries sleep : ℕ) (world : World)
      → 1 ≤ retries
      → let out =
          do_with_context actions retries sleep
            (record { world = world; outcomes = []; sleeps = [] }) in
        (is_backoff out.0.sleeps ≡ true) × (length out.0.outcomes ≤ retries) × Stopped 0 0 out
  unfolding do_with_context is_backoff all
  do_with_context_lem retries sleep world l =
      let m =
        context_rounds_lem retries (start_sleep sleep)
          (record { world = world; outcomes = []; sleeps = [] }) (refl, omega arith, refl) l in
      (m.0, omega (arith, m.1), m.2)
