-- ===== src/Bulk/Progress.antt =====
-- What a whole bulk run does, over all its retries.
use mongo_overview_tool.Base.{
  sym, if◌then◌else◌, ℕ, ◌+◌, ◌≤◌, zero, suc, Bool, true, false, List, [], ◌∷◌, Option, none, some,
  ◌≡◌, ◌≢◌, refl, ◌∙◌, sym, ap, arith, count, ◌==◌, length, String,
}
use mongo_overview_tool.Base.Int.{ℤ, pos, negsuc}
use mongo_overview_tool.Errors.{Error}
use mongo_overview_tool.Results.{BulkResult}
use mongo_overview_tool.Document.{Document}
use mongo_overview_tool.Bulk.{BulkOptions, Remote, BulkState, on_bulk_retry, on_bulk_done}
use mongo_overview_tool.Bulk.Run.{
  continue_after, retry_if, after_once, Exec, notify, finish_bulk_result, should_retry_bulk_cursor,
  partial_bulk_error, done, default_sleep, wait_with_context, run_attempts, run_bulk_once,
}
use mongo_overview_tool.Bulk.Batches.{
  IsSound, IsHonest, done_ids, last_opened, is_opening, notify_lem, wait_lem,
}
use mongo_overview_tool.Bulk.Fetches.{Passes, run_bulk_once_lem}

-- Only a run that has taken no batch is retried, and never behind the last round.
pub should_retry_bulk_cursor_lem :
    (retryable : Bool) (attempt : ℕ) (max_retries : ℤ) (result : BulkResult)
    → should_retry_bulk_cursor retryable attempt max_retries result ≡ true
    → (result.processed ≡ 0) × (retryable ≡ true) × (max_retries ≢ pos attempt)
unfolding should_retry_bulk_cursor
should_retry_bulk_cursor_lem retryable attempt (pos m) result h = ground arith
should_retry_bulk_cursor_lem retryable attempt (negsuc m) result h = ground arith

nil_of_length : {A : Type 0} → (xs : List A) → length xs ≡ 0 → xs ≡ []
nil_of_length [] h = refl
nil_of_length (x ∷ xs) h = ground arith

module _ {World Any : Type 0} (remote : Remote World Any) (op : String) (opts : BulkOptions Any)
    (filter : Document Any) (exec : Exec World Any) (n : ℕ) (honest : IsHonest exec)
    (size : opts.batch_size ≡ pos n) (some_size : 1 ≤ n) where
  pub finished-IsSound :
      (now : ℕ) (finish : Bool) (st : BulkState World Any)
      → IsSound n st
      → IsSound n (record st {
        result = if finish then record st.result { finished_at = now } else st.result;
      })
  finished-IsSound now true st s = record {
    processed = s.processed;
    batches = s.batches;
    sized = s.sized;
    opens = s.opens;
  }
  finished-IsSound now false st s = record {
    processed = s.processed;
    batches = s.batches;
    sized = s.sized;
    opens = s.opens;
  }

  -- What a run ends with, after at most k openings: without an error only if all that the last
  -- cursor gave was taken.
  abbrev pub Ends : ℕ → BulkState World Any × Option Error → Type 0
  Ends k (next, e) =
      IsSound n next
      × (count is_opening next.calls ≤ k)
      × (e ≡ none → done_ids next.calls ≡ last_opened next.calls)

  pub partial-Ends :
      (st : BulkState World Any) (e : Option Error) (k : ℕ)
      → e ≢ none
      → count is_opening st.calls ≤ k
      → IsSound n st
      → Ends k (partial_bulk_error remote op st e)
  unfolding partial_bulk_error
  partial-Ends st none k h c s = ground arith
  partial-Ends st (some e) k h c s = (
    finished-IsSound (remote.now st.world) (st.result.finished_at == 0) st s,
    c,
    λ q. ground arith,
  )

  pub done-Ends :
      (st : BulkState World Any) (k : ℕ)
      → count is_opening st.calls ≤ k
      → done_ids st.calls ≡ last_opened st.calls
      → IsSound n st
      → Ends k (done remote opts st)
  unfolding done
  done-Ends st k c d s =
      let finished = finished-IsSound (remote.now st.world) (st.result.finished_at == 0) st s in
      let result = finish_bulk_result (remote.now st.world) st.result in
      let t =
        notify_lem remote n opts (on_bulk_done result) (record st { result = result }) refl
          finished in
      (t.0, omega (arith, t.1.0), λ q. t.2 ∙ d ∙ sym t.1.1)

  -- The rest of a loop that may open k more cursors, where no batch was taken yet.
  abbrev Continues : ℕ → (BulkState World Any → BulkState World Any × Option Error) → Type 0
  Continues k rest =
      (st : BulkState World Any)
      → done_ids st.calls ≡ []
      → IsSound n st
      → Ends (k + count is_opening st.calls) (rest st)

  continue_after_lem :
      (k j : ℕ) (rest : BulkState World Any → BulkState World Any × Option Error)
      (st : BulkState World Any) (e : Option Error)
      → Continues k rest
      → done_ids st.calls ≡ []
      → k + count is_opening st.calls ≡ j
      → IsSound n st
      → Ends j (continue_after remote op rest (st, e))
  unfolding continue_after
  continue_after_lem k j rest st (some e) r d c s =
      partial-Ends st (some e) j (λ q. ground arith) (omega arith) s
  continue_after_lem k j rest st none r d c s = rw (← c) (r st d s)

  retry_if_lem :
      (k : ℕ) (allowed : Bool) (attempt : ℕ) (e : Error)
      (rest : BulkState World Any → BulkState World Any × Option Error) (st : BulkState World Any)
      → Continues k rest
      → (allowed ≡ true → done_ids st.calls ≡ [])
      → IsSound n st
      → Ends (k + count is_opening st.calls) (retry_if remote allowed op opts attempt e rest st)
  unfolding retry_if
  retry_if_lem k false attempt e rest st r d s =
      partial-Ends st (some e) _ (λ q. ground arith) (omega arith) s
  retry_if_lem k true attempt e rest st r d s =
      let told = notify_lem remote n opts (on_bulk_retry e (suc attempt)) st refl s in
      let next = notify remote opts (on_bulk_retry e (suc attempt)) st in
      let w = wait_lem remote n default_sleep next told.0 in
      let waited = wait_with_context remote default_sleep next in
      continue_after_lem k _ rest waited.0 waited.1 r (w.2 ∙ told.2 ∙ d refl)
        (ap (λ i. k + i) (w.1.0 ∙ told.1.0)) w.0

  after_once_lem :
      (left : ℕ) (max_retries : ℤ) (attempt : ℕ)
      (rest : Error → BulkState World Any → BulkState World Any × Option Error)
      (st next : BulkState World Any) (retryable : Bool) (e : Option Error)
      → Passes remote opts exec n honest size some_size st (next, (retryable, e))
      → ((stop : Error) → Continues left (rest stop))
      → Ends
          (suc left + count is_opening st.calls)
          (after_once remote op opts max_retries attempt rest (next, (retryable, e)))
  unfolding after_once
  after_once_lem left max_retries attempt rest st next retryable none p r =
      done-Ends next _ (omega (arith, p.1)) (p.2 refl) p.0
  after_once_lem left max_retries attempt rest st next retryable (some stop) p r =
      let k =
        retry_if_lem left (should_retry_bulk_cursor retryable attempt max_retries next.result)
          attempt stop (rest stop) next (r stop)
          (λ h. nil_of_length (done_ids next.calls) (
            sym p.0.processed
            ∙ (should_retry_bulk_cursor_lem retryable attempt max_retries next.result h).0))
          p.0 in
      (k.0, omega (arith, k.1, p.1), k.2)

  pub run_attempts_lem :
      (max_retries : ℤ) (attempt left : ℕ) (last : Option Error) (st : BulkState World Any)
      → (left ≡ 0 → last ≢ none)
      → done_ids st.calls ≡ []
      → IsSound n st
      → Ends
          (left + count is_opening st.calls)
          (run_attempts remote op opts filter exec max_retries attempt left last st)
  unfolding run_attempts
  run_attempts_lem max_retries attempt zero last st h d s =
      partial-Ends st last _ (h refl) (omega arith) s
  run_attempts_lem max_retries attempt (suc left) last st h d s =
      let once = run_bulk_once remote opts filter exec st in
      after_once_lem left max_retries attempt _ st once.0 once.1.0 once.1.1
        (run_bulk_once_lem remote opts exec n honest size some_size filter st d s)
        (λ stop next d s.
          run_attempts_lem max_retries (suc attempt) left (some stop) next (λ z q. ground arith) d
            s)
