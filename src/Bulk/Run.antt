-- ===== src/Bulk/Run.antt =====
-- pkg/mot/bulk.go: the run over the batches, with its retries, and the two operations.
use mongo_overview_tool.Base.{
  ℕ, zero, suc, ◌+◌, String, Bool, true, false, ◌||◌, List, [], ◌∷◌, ◌++◌, Option, none, some, not,
  codes, if◌then◌else◌, ltb, ◌==◌, length,
}
use mongo_overview_tool.Base.Int.{ℤ, pos, negsuc, leb_ℤ, is_positive}
use mongo_overview_tool.Errors.{
  Result, ok, err, Error, wrapped, partial, context_error, wrap_cancelled, map_context_error,
  is_retryable_cursor_error,
}
use mongo_overview_tool.Results.{BulkResult, BulkBatchResult}
use mongo_overview_tool.Document.{Document}
use mongo_overview_tool.Bulk.{
  BulkOptions, Fetch, BulkCursor, Remote, Call, BulkState, opened, open_failed, closed, executed,
  waited, on_bulk_batch, on_bulk_retry, on_bulk_done,
}

abbrev pub Exec : Type 0 → Type 0 → Type 0
Exec World Any = List Any → World → World × (BulkBatchResult × Option Error)

-- retry.DefaultSleep
abbrev pub default_sleep : ℤ
default_sleep = pos 1_000_000_000

abbrev pub finish_bulk_result : ℕ → BulkResult → BulkResult
finish_bulk_result now result =
    if result.finished_at == 0 then record result { finished_at = now } else result

unfoldable pub should_retry_bulk_cursor : Bool → ℕ → ℤ → BulkResult → Bool
should_retry_bulk_cursor retryable attempt max_retries result =
    if not retryable || elim max_retries [ pos n ↦ attempt == n | negsuc n ↦ false ]
    then false
    else if ltb 0 result.processed
    then false
    else true

-- The counters of the result after a batch.
abbrev pub add_batch : BulkBatchResult → BulkResult → BulkResult
add_batch batch result = record result {
  batch_count = suc result.batch_count;
  processed = result.processed + batch.processed;
  deleted = result.deleted + batch.deleted;
  matched = result.matched + batch.matched;
  modified = result.modified + batch.modified;
}

-- What runBulkOnce returns: whether the error may be retried, and the error.
abbrev pub Outcome : Type 0 → Type 0 → Type 0
Outcome World Any = BulkState World Any × (Bool × Option Error)

module _ {World Any : Type 0} (remote : Remote World Any) where
  abbrev pub log : Call Any → BulkState World Any → BulkState World Any
  log call st = record st { calls = call ∷ st.calls }

  -- A call of the observer, if there is one.
  abbrev pub notify : BulkOptions Any → Call Any → BulkState World Any → BulkState World Any
  notify opts call st = if opts.observed then log call st else st

  abbrev pub after_wait :
      ℤ → World × Option Error → BulkState World Any → BulkState World Any × Option Error
  after_wait pause (world, e) st =
      (log (waited pause) (record st { world = world }), wrap_cancelled e)

  unfoldable pub wait_with_context : ℤ → BulkState World Any → BulkState World Any × Option Error
  unfolding context_error wrap_cancelled
  wait_with_context pause st =
      if leb_ℤ pause (pos 0)
      then (st, context_error (remote.context st.world))
      else after_wait pause (remote.wait pause st.world) st

  unfoldable pub note_batch :
      BulkOptions Any → BulkBatchResult → BulkState World Any → BulkState World Any
  note_batch opts batch st =
      let result = add_batch batch st.result in
      notify opts
        (on_bulk_batch
          (record batch { batch_number = result.batch_count; processed = result.processed }))
        (record st { result = result })

  unfoldable pub after_exec :
      BulkOptions Any
      → List Any
      → World × (BulkBatchResult × Option Error)
      → BulkState World Any
      → BulkState World Any × Option Error
  unfolding map_context_error note_batch wait_with_context
  after_exec opts ids (world, (batch, some e)) st =
      (log (executed ids false) (record st { world = world }), map_context_error (some e))
  after_exec opts ids (world, (batch, none)) st =
      let noted = note_batch opts batch (log (executed ids true) (record st { world = world })) in
      if is_positive opts.pause then wait_with_context opts.pause noted else (noted, none)

  unfoldable pub execute_bulk_batch :
      BulkOptions Any
      → Exec World Any
      → List Any
      → BulkState World Any
      → BulkState World Any × Option Error
  unfolding context_error after_exec
  execute_bulk_batch opts exec ids st = elim (context_error (remote.context st.world)) [
    | some e ↦ (st, some e)
    | none ↦ after_exec opts ids (exec ids st.world) st
  ]

  abbrev or_return : BulkState World Any × Option Error → Outcome World Any
  or_return (st, e) = (st, (false, e))

  abbrev pub is_full : BulkOptions Any → List Any → Bool
  is_full opts ids = leb_ℤ opts.batch_size (pos (length ids))

  -- What follows the loop over the cursor.
  unfoldable pub after_fetches :
      BulkOptions Any
      → Exec World Any
      → Option Error
      → List Any
      → BulkState World Any
      → Outcome World Any
  unfolding map_context_error is_retryable_cursor_error execute_bulk_batch
  after_fetches opts exec (some e) ids st = (
    st,
    (
      is_retryable_cursor_error (map_context_error (some e)),
      elim (map_context_error (some e)) [
        | none ↦ none
        | some mapped ↦ some (wrapped (codes "cursor iteration error: ") mapped [])
      ],
    ),
  )
  after_fetches opts exec none [] st = (st, (false, none))
  after_fetches opts exec none (id ∷ ids) st =
      or_return (execute_bulk_batch opts exec (id ∷ ids) st)

  -- One round of the loop over the cursor: ctx.Err() in it, the id that was decoded, the batch that
  -- is being filled, and the rest of the loop.
  unfoldable pub round :
      BulkOptions Any
      → Exec World Any
      → Option Error
      → Result Any
      → List Any
      → BulkState World Any
      → (List Any → BulkState World Any → Outcome World Any)
      → Outcome World Any
  unfolding execute_bulk_batch
  round opts exec (some e) id ids st rest = (st, (false, some e))
  round opts exec none (err e) ids st rest =
      (st, (false, some (wrapped (codes "failed to decode document: ") e [])))
  round opts exec none (ok id) ids st rest = elim (is_full opts (ids ++ (id ∷ []))) [
    | false ↦ rest (ids ++ (id ∷ [])) st
    | true ↦
        let (next, e) = execute_bulk_batch opts exec (ids ++ (id ∷ [])) st in
        elim e [ some stop ↦ (next, (false, some stop)) | none ↦ rest [] next ]
  ]

  unfoldable pub run_fetches :
      BulkOptions Any
      → Exec World Any
      → Option Error
      → List (Fetch Any)
      → List Any
      → BulkState World Any
      → Outcome World Any
  unfolding context_error after_fetches round
  run_fetches opts exec end [] ids st = after_fetches opts exec end ids st
  run_fetches opts exec end (f ∷ fs) ids st =
      round opts exec (context_error f.context) f.id ids st (run_fetches opts exec end fs)

  abbrev close : Outcome World Any → Outcome World Any
  close (st, out) = (log closed st, out)

  unfoldable pub after_find :
      BulkOptions Any
      → Exec World Any
      → World × Result (BulkCursor Any)
      → BulkState World Any
      → Outcome World Any
  unfolding map_context_error is_retryable_cursor_error run_fetches
  after_find opts exec (world, err e) st = (
    log open_failed (record st { world = world }),
    (
      is_retryable_cursor_error (map_context_error (some e)),
      elim (map_context_error (some e)) [
        | none ↦ none
        | some mapped ↦ some (wrapped (codes "failed to open cursor: ") mapped [])
      ],
    ),
  )
  after_find opts exec (world, ok cursor) st = close (
      run_fetches opts exec cursor.end cursor.fetches []
        (log (opened cursor.fetches) (record st { world = world })))

  unfoldable pub run_bulk_once :
      BulkOptions Any → Document Any → Exec World Any → BulkState World Any → Outcome World Any
  unfolding after_find
  run_bulk_once opts filter exec st =
      after_find opts exec (remote.find_ids_cursor opts.database opts.collection filter st.world) st

  unfoldable pub partial_bulk_error :
      String → BulkState World Any → Option Error → BulkState World Any × Option Error
  partial_bulk_error op st none = (st, none)
  partial_bulk_error op st (some e) =
      let result = finish_bulk_result (remote.now st.world) st.result in
      (record st { result = result }, some (partial op result e))

  unfoldable pub done : BulkOptions Any → BulkState World Any → BulkState World Any × Option Error
  done opts st =
      let result = finish_bulk_result (remote.now st.world) st.result in
      (notify opts (on_bulk_done result) (record st { result = result }), none)

  -- What follows one pass, with the rest of the loop.
  unfoldable pub continue_after :
      String
      → (BulkState World Any → BulkState World Any × Option Error)
      → BulkState World Any × Option Error
      → BulkState World Any × Option Error
  unfolding partial_bulk_error
  continue_after op rest (st, some stop) = partial_bulk_error op st (some stop)
  continue_after op rest (st, none) = rest st

  unfoldable pub retry_if :
      Bool
      → String
      → BulkOptions Any
      → ℕ
      → Error
      → (BulkState World Any → BulkState World Any × Option Error)
      → BulkState World Any
      → BulkState World Any × Option Error
  unfolding partial_bulk_error continue_after wait_with_context
  retry_if false op opts attempt e rest st = partial_bulk_error op st (some e)
  retry_if true op opts attempt e rest st =
      continue_after op rest
        (wait_with_context default_sleep (notify opts (on_bulk_retry e (suc attempt)) st))

  unfoldable pub after_once :
      String
      → BulkOptions Any
      → ℤ
      → ℕ
      → (Error → BulkState World Any → BulkState World Any × Option Error)
      → Outcome World Any
      → BulkState World Any × Option Error
  unfolding should_retry_bulk_cursor done retry_if
  after_once op opts max_retries attempt rest (st, (retryable, none)) = done opts st
  after_once op opts max_retries attempt rest (st, (retryable, some e)) =
      retry_if (should_retry_bulk_cursor retryable attempt max_retries st.result) op opts attempt e
        (rest e) st

  -- The retries, with the rounds that the loop has left and the last error.
  unfoldable pub run_attempts :
      String
      → BulkOptions Any
      → Document Any
      → Exec World Any
      → ℤ
      → ℕ
      → ℕ
      → Option Error
      → BulkState World Any
      → BulkState World Any × Option Error
  unfolding run_bulk_once partial_bulk_error after_once
  run_attempts op opts filter exec max_retries attempt zero last st = partial_bulk_error op st last
  run_attempts op opts filter exec max_retries attempt (suc left) last st =
      after_once op opts max_retries attempt
        (λ e next. run_attempts op opts filter exec max_retries (suc attempt) left (some e) next)
        (run_bulk_once opts filter exec st)
