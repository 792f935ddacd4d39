-- ===== src/Bulk/Operations.antt =====
-- pkg/mot/bulk.go: BulkDelete, BulkUpdate and the run that they share.
use mongo_overview_tool.Base.{
  ℕ, zero, suc, String, Bool, true, false, ◌||◌, List, [], Option, none, some, ◌==◌, if◌then◌else◌,
  not, length,
}
use mongo_overview_tool.Base.Int.{ℤ, pos, negsuc}
use mongo_overview_tool.Errors.{Result, ok, err, Error, invalid, context_error, map_context_error}
use mongo_overview_tool.Results.{BulkResult, BulkBatchResult}
use mongo_overview_tool.Document.{Document, parse_document, is_empty_document, is_operator_update}
use mongo_overview_tool.Bulk.{
  BulkOptions, BulkUpdateOptions, BulkUpdateResult, Remote, BulkState, counted, on_bulk_start,
  validate_bulk_options, default_bulk_max_retries,
}
use mongo_overview_tool.Bulk.Run.{
  Exec, log, notify, finish_bulk_result, partial_bulk_error, done, run_attempts,
}

-- The rounds of `for attempt := 0; attempt <= maxRetries; attempt++`.
abbrev pub rounds : ℤ → ℕ
rounds (pos n) = suc n
rounds (negsuc n) = 0

abbrev pub max_retries_of : ℤ → ℤ
max_retries_of (pos zero) = default_bulk_max_retries
max_retries_of (pos (suc n)) = pos (suc n)
max_retries_of (negsuc n) = negsuc n

module _ {World Any : Type 0} (remote : Remote World Any) where
  -- `idle` says that nothing is to be done, or that it is a dry run.
  unfoldable pub run_or_finish :
      Bool
      → String
      → BulkOptions Any
      → Document Any
      → Exec World Any
      → BulkState World Any
      → BulkState World Any × Option Error
  unfolding run_attempts done
  run_or_finish true op opts filter exec st = done remote opts st
  run_or_finish false op opts filter exec st =
      let max_retries = max_retries_of opts.max_retries in
      run_attempts remote op opts filter exec max_retries 0 (rounds max_retries) none st

  unfoldable pub start_run :
      String
      → BulkOptions Any
      → Document Any
      → Exec World Any
      → ℕ
      → BulkState World Any
      → BulkState World Any × Option Error
  unfolding run_or_finish
  start_run op opts filter exec total st =
      run_or_finish (total == 0 || opts.dry_run) op opts filter exec (
        notify remote opts (on_bulk_start total)
          (record st { result = record st.result { matched_total = total } }))

  unfoldable pub after_count :
      String
      → BulkOptions Any
      → Document Any
      → Exec World Any
      → World × Result ℕ
      → BulkState World Any
      → BulkState World Any × Option Error
  unfolding partial_bulk_error map_context_error start_run
  after_count op opts filter exec (world, err e) st =
      partial_bulk_error remote op (log remote counted (record st { world = world }))
        (map_context_error (some e))
  after_count op opts filter exec (world, ok total) st =
      start_run op opts filter exec total (log remote counted (record st { world = world }))

  -- The deferred function: a result that was returned unfinished is finished.
  abbrev pub deferred : BulkState World Any × Option Error → BulkState World Any × Option Error
  deferred (st, e) = (record st { result = finish_bulk_result (remote.now st.world) st.result }, e)

  unfoldable pub run_unless :
      Option Error
      → String
      → BulkOptions Any
      → Document Any
      → Exec World Any
      → BulkState World Any
      → BulkState World Any × Option Error
  unfolding partial_bulk_error after_count
  run_unless (some e) op opts filter exec st = partial_bulk_error remote op st (some e)
  run_unless none op opts filter exec st =
      after_count op opts filter exec
        (remote.count_documents opts.database opts.collection filter st.world) st

  -- `ready` says that neither the client nor its bulk operations are nil.
  unfoldable pub run_bulk :
      Bool
      → String
      → BulkOptions Any
      → Document Any
      → Exec World Any
      → BulkState World Any
      → BulkState World Any × Option Error
  unfolding context_error run_unless
  run_bulk false op opts filter exec st = (st, some (invalid "bulk operations are not initialized"))
  run_bulk true op opts filter exec st =
      deferred (run_unless (context_error (remote.context st.world)) op opts filter exec st)

  abbrev pub deleted_batch :
      List Any → World × (ℕ × Option Error) → World × (BulkBatchResult × Option Error)
  deleted_batch ids (world, (deleted, e)) = (
    world,
    (
      record {
        batch_number = 0;
        processed = length ids;
        deleted = deleted;
        matched = 0;
        modified = 0;
      },
      e,
    ),
  )

  unfoldable pub delete_exec : BulkOptions Any → Exec World Any
  delete_exec opts ids world =
      deleted_batch ids (remote.bulk_delete opts.database opts.collection ids world)

  abbrev pub updated_batch :
      List Any
      → World × (BulkUpdateResult × Option Error)
      → World × (BulkBatchResult × Option Error)
  updated_batch ids (world, (update, e)) = (
    world,
    (
      record {
        batch_number = 0;
        processed = length ids;
        deleted = 0;
        matched = update.matched;
        modified = update.modified;
      },
      e,
    ),
  )

  unfoldable pub update_exec : BulkOptions Any → Document Any → Exec World Any
  update_exec opts update ids world =
      updated_batch ids (remote.bulk_update opts.database opts.collection ids update world)

  abbrev pub start_state : World → BulkResult → BulkState World Any
  start_state world result = record { world = world; result = result; calls = [] }

  -- The run, where the options are valid.
  unfoldable pub run_valid :
      Result (Document Any)
      → (Document Any → BulkState World Any → BulkState World Any × Option Error)
      → BulkState World Any
      → BulkState World Any × Option Error
  run_valid (err e) run st = (st, some e)
  run_valid (ok filter) run st = run filter st

  unfoldable pub bulk_delete : Bool → BulkOptions Any → World → BulkState World Any × Option Error
  unfolding validate_bulk_options run_valid run_bulk delete_exec
  bulk_delete ready opts world =
      let (checked, result) = validate_bulk_options remote "bulk-delete" opts world in
      run_valid checked (λ filter. run_bulk ready "bulk-delete" opts filter (delete_exec opts))
        (start_state world result)

  -- The guards on the update.
  unfoldable pub check_update : Result (Document Any) → Result (Document Any)
  unfolding is_operator_update
  check_update (err e) = err e
  check_update (ok update) =
      if is_empty_document update
      then err (invalid "update is required")
      else if not (is_operator_update update)
      then err (invalid "update must use MongoDB update operators")
      else ok update

  unfoldable pub bulk_update :
      Bool → BulkUpdateOptions Any → World → BulkState World Any × Option Error
  unfolding validate_bulk_options parse_document check_update run_valid run_bulk update_exec
  bulk_update ready opts world =
      let (checked, result) = validate_bulk_options remote "bulk-update" opts.options world in
      run_valid checked
        (λ filter. run_valid (check_update (parse_document remote.parse opts.update)) (λ update.
          run_bulk ready "bulk-update" opts.options filter (update_exec opts.options update)))
        (start_state world result)
