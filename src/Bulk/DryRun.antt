-- ===== src/Bulk/DryRun.antt =====
-- What BulkDelete and BulkUpdate never touch: a dry run, and an empty filter without leave.
use mongo_overview_tool.Base.{
  ℕ, Bool, true, false, ◌||◌, ◌&&◌, [], Option, none, some, ◌≡◌, refl, arith, any, not,
  if◌then◌else◌, ◌==◌, String,
}
use mongo_overview_tool.Errors.{Result, ok, err, Error, map_context_error, context_error}
use mongo_overview_tool.Document.{Document, parse_document}
use mongo_overview_tool.Bulk.{
  checked_filter, on_bulk_start, on_bulk_done, counted, BulkOptions, BulkUpdateOptions, Remote,
  Call, BulkState, check_bulk_options, validate_bulk_options, new_result,
}
use mongo_overview_tool.Bulk.Run.{finish_bulk_result, Exec, log, notify, partial_bulk_error, done}
use mongo_overview_tool.Bulk.Operations.{
  run_or_finish, run_unless, start_run, after_count, run_bulk, start_state, delete_exec,
  update_exec, bulk_delete, bulk_update, check_update, run_valid,
}
use mongo_overview_tool.Bulk.Batches.{is_opening, is_executed}
use mongo_overview_tool.Bulk.Promises.{valid_elim, guard_elim}

abbrev pub touches : {Any : Type 0} → Call Any → Bool
touches c = is_executed c || is_opening c

module _ {World Any : Type 0} where
  -- No cursor was opened and no batch executed.
  abbrev pub IsQuiet : BulkState World Any × Option Error → Type 0
  IsQuiet (st, e) = any touches st.calls ≡ false

module _ {World Any : Type 0} (remote : Remote World Any) (op : String) (opts : BulkOptions Any)
    (filter : Document Any) (exec : Exec World Any) (dry : opts.dry_run ≡ true) where
  quiet_done :
      (observed : Bool) (c : Call Any) (st : BulkState World Any)
      → touches c ≡ false
      → any touches st.calls ≡ false
      → any touches (if observed then log remote c st else st).calls ≡ false
  unfolding any
  quiet_done true c st k h = ground (arith, k, h)
  quiet_done false c st k h = h

  dry_finish :
      (idle : Bool) (st : BulkState World Any)
      → idle ≡ true
      → any touches st.calls ≡ false
      → IsQuiet (run_or_finish remote idle op opts filter exec st)
  unfolding run_or_finish done
  dry_finish true st i h =
      let result = finish_bulk_result (remote.now st.world) st.result in
      quiet_done opts.observed (on_bulk_done result) (record st { result = result }) refl h
  dry_finish false st i h = ground arith

  dry_start :
      (total : ℕ) (st : BulkState World Any)
      → any touches st.calls ≡ false
      → IsQuiet (start_run remote op opts filter exec total st)
  unfolding start_run
  dry_start total st h =
      let counted = record st { result = record st.result { matched_total = total } } in
      dry_finish (total == 0 || opts.dry_run) (notify remote opts (on_bulk_start total) counted)
        (ground arith) (quiet_done opts.observed (on_bulk_start total) counted refl h)

  dry_count :
      (world : World) (found : Result ℕ) (st : BulkState World Any)
      → any touches st.calls ≡ false
      → IsQuiet (after_count remote op opts filter exec (world, found) st)
  unfolding after_count map_context_error partial_bulk_error any
  dry_count world (err e) st h = ground (arith, h)
  dry_count world (ok total) st h =
      dry_start total (log remote counted (record st { world = world })) h

  dry_unless :
      (stop : Option Error) (st : BulkState World Any)
      → any touches st.calls ≡ false
      → IsQuiet (run_unless remote stop op opts filter exec st)
  unfolding run_unless partial_bulk_error
  dry_unless (some e) st h = h
  dry_unless none st h =
      let found = remote.count_documents opts.database opts.collection filter st.world in
      dry_count found.0 found.1 st h

  pub dry_run_bulk :
      (ready : Bool) (st : BulkState World Any)
      → any touches st.calls ≡ false
      → IsQuiet (run_bulk remote ready op opts filter exec st)
  unfolding run_bulk
  dry_run_bulk false st h = h
  dry_run_bulk true st h = dry_unless (context_error (remote.context st.world)) st h

module _ {World Any : Type 0} (remote : Remote World Any) where
  -- A dry run of BulkDelete opens no cursor and executes no batch.
  pub bulk_delete_dry_run :
      (ready : Bool) (opts : BulkOptions Any) (world : World)
      → opts.dry_run ≡ true
      → any touches (bulk_delete remote ready opts world).0.calls ≡ false
  unfolding bulk_delete validate_bulk_options any
  bulk_delete_dry_run ready opts world dry =
      guard_elim remote IsQuiet "bulk-delete" opts _ _ (check_bulk_options opts) (λ e. refl)
        (λ valid filter.
          dry_run_bulk remote "bulk-delete" opts filter (delete_exec remote opts) dry ready
            (start_state remote world (new_result remote opts world)) refl)

  -- A dry run of BulkUpdate opens no cursor and executes no batch.
  pub bulk_update_dry_run :
      (ready : Bool) (opts : BulkUpdateOptions Any) (world : World)
      → opts.options.dry_run ≡ true
      → any touches (bulk_update remote ready opts world).0.calls ≡ false
  unfolding bulk_update validate_bulk_options any
  bulk_update_dry_run ready opts world dry =
      let start = start_state remote world (new_result remote opts.options world) in
      guard_elim remote IsQuiet "bulk-update" opts.options start _ (check_bulk_options opts.options)
        (λ e. refl)
        (λ valid filter.
          valid_elim remote IsQuiet start
            (λ update.
              run_bulk remote ready "bulk-update" opts.options filter
                (update_exec remote opts.options update))
            (λ e. refl)
            (λ update.
              dry_run_bulk remote "bulk-update" opts.options filter
                (update_exec remote opts.options update) dry ready start refl)
            (check_update remote (parse_document remote.parse opts.update)))

  module _ (op : String) (opts : BulkOptions Any) (st : BulkState World Any)
      (run : Document Any → BulkState World Any → BulkState World Any × Option Error)
      (quiet : any touches st.calls ≡ false) where
    empty-IsQuiet :
        (dry allowed : Bool) (e : Error)
        → allowed ≡ false
        → (dry ≡ true → IsQuiet (run [] st))
        → IsQuiet (run_valid remote (if not dry && not allowed then err e else ok []) run st)
    unfolding run_valid
    empty-IsQuiet true allowed e a go = go refl
    empty-IsQuiet false false e a go = quiet
    empty-IsQuiet false true e a go = ground arith

    -- The run on an empty filter that is not allowed: a dry run, or refused.
    forbidden-IsQuiet :
        (guard : Option Error)
        → parse_document remote.parse opts.filter ≡ ok []
        → opts.allow_empty_filter ≡ false
        → (opts.dry_run ≡ true → IsQuiet (run [] st))
        → IsQuiet (run_valid remote (checked_filter remote op opts guard) run st)
    unfolding run_valid
    forbidden-IsQuiet (some e) f a go = quiet
    forbidden-IsQuiet none f a go = rw f (empty-IsQuiet opts.dry_run opts.allow_empty_filter _ a go)

  -- BulkDelete on an empty filter opens no cursor and executes no batch, unless AllowEmptyFilter
  -- is set.
  pub bulk_delete_guard :
      (ready : Bool) (opts : BulkOptions Any) (world : World)
      → parse_document remote.parse opts.filter ≡ ok []
      → opts.allow_empty_filter ≡ false
      → any touches (bulk_delete remote ready opts world).0.calls ≡ false
  unfolding bulk_delete validate_bulk_options any
  bulk_delete_guard ready opts world f a =
      let start = start_state remote world (new_result remote opts world) in
      forbidden-IsQuiet "bulk-delete" opts start
        (λ filter. run_bulk remote ready "bulk-delete" opts filter (delete_exec remote opts)) refl
        (check_bulk_options opts) f a
        (λ dry.
          dry_run_bulk remote "bulk-delete" opts [] (delete_exec remote opts) dry ready start refl)
