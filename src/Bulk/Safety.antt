-- ===== src/Bulk/Safety.antt =====
-- The run that BulkDelete and BulkUpdate share keeps its counters true to its calls.
use mongo_overview_tool.Base.{
  ℕ, ◌≤◌, zero, suc, Bool, true, false, [], Option, none, some, ◌≡◌, ◌≢◌, refl, ◌∙◌, sym, arith,
  count, ◌==◌, String,
}
use mongo_overview_tool.Base.Int.{ℤ, pos, negsuc}
use mongo_overview_tool.Errors.{Result, ok, err, Error, map_context_error, context_error}
use mongo_overview_tool.Document.{Document}
use mongo_overview_tool.Bulk.{BulkOptions, Remote, BulkState, on_bulk_start, counted}
use mongo_overview_tool.Bulk.Run.{Exec, log, notify, partial_bulk_error}
use mongo_overview_tool.Bulk.Operations.{
  run_or_finish, run_unless, rounds, max_retries_of, start_run, after_count, run_bulk,
}
use mongo_overview_tool.Bulk.Batches.{
  IsSound, world-IsSound, IsHonest, done_ids, last_opened, is_opening, notify_lem, log-neutral,
}
use mongo_overview_tool.Bulk.Progress.{
  run_attempts_lem, partial-Ends, done-Ends, finished-IsSound, Ends,
}

some_rounds : (m : ℤ) (retries : ℕ) → m ≡ pos retries → rounds (max_retries_of m) ≢ 0
some_rounds (pos zero) retries h = ground arith
some_rounds (pos (suc m)) retries h = ground arith
some_rounds (negsuc m) retries h = ground arith

module _ {World Any : Type 0} (remote : Remote World Any) (op : String) (opts : BulkOptions Any)
    (filter : Document Any) (exec : Exec World Any) (n : ℕ) (honest : IsHonest exec)
    (size : opts.batch_size ≡ pos n) (some_size : 1 ≤ n) (retries : ℕ)
    (some_retries : opts.max_retries ≡ pos retries) where
  abbrev pub Safe : BulkState World Any × Option Error → Type 0
  Safe =
      Ends remote op opts filter exec n honest size some_size
        (rounds (max_retries_of opts.max_retries))

  -- No cursor was opened and no batch executed.
  abbrev pub Unused : BulkState World Any → Type 0
  Unused st =
      IsSound n st
      × (done_ids st.calls ≡ [])
      × (last_opened st.calls ≡ [])
      × (count is_opening st.calls ≡ 0)

  run_or_finish_lem :
      (idle : Bool) (st : BulkState World Any)
      → Unused st
      → Safe (run_or_finish remote idle op opts filter exec st)
  unfolding run_or_finish
  run_or_finish_lem true st u =
      done-Ends remote op opts filter exec n honest size some_size st _ (omega (arith, u.3))
        (u.1 ∙ sym u.2) u.0
  run_or_finish_lem false st u =
      let m = max_retries_of opts.max_retries in
      let k =
        run_attempts_lem remote op opts filter exec n honest size some_size m 0 (rounds m) none st
          (λ z. ground (arith, some_rounds opts.max_retries retries some_retries)) u.1 u.0 in
      (k.0, omega (arith, k.1, u.3), k.2)

  start_run_lem :
      (total : ℕ) (st : BulkState World Any)
      → Unused st
      → Safe (start_run remote op opts filter exec total st)
  unfolding start_run
  start_run_lem total st u =
      let counted = record st { result = record st.result { matched_total = total } } in
      let s : IsSound n counted = record {
        processed = u.0.processed;
        batches = u.0.batches;
        sized = u.0.sized;
        opens = u.0.opens;
      } in
      let t = notify_lem remote n opts (on_bulk_start total) counted refl s in
      run_or_finish_lem _ (notify remote opts (on_bulk_start total) counted)
        (t.0, t.2 ∙ u.1, t.1.1 ∙ u.2, t.1.0 ∙ u.3)

  counted_Unused :
      (world : World) (st : BulkState World Any)
      → Unused st
      → Unused (log remote counted (record st { world = world }))
  counted_Unused world st u =
      let k =
        log-neutral remote n counted (record st { world = world }) refl
          (world-IsSound n world st u.0) in
      (k.0, k.2 ∙ u.1, k.1.1 ∙ u.2, k.1.0 ∙ u.3)

  partial-Safe :
      (st : BulkState World Any) (e : Option Error)
      → e ≢ none
      → Unused st
      → Safe (partial_bulk_error remote op st e)
  partial-Safe st e h u =
      partial-Ends remote op opts filter exec n honest size some_size st e _ h (omega (arith, u.3))
        u.0

  after_count_lem :
      (world : World) (found : Result ℕ) (st : BulkState World Any)
      → Unused st
      → Safe (after_count remote op opts filter exec (world, found) st)
  unfolding after_count map_context_error
  after_count_lem world (err e) st u =
      partial-Safe (log remote counted (record st { world = world })) _ (λ q. ground arith)
        (counted_Unused world st u)
  after_count_lem world (ok total) st u =
      start_run_lem total (log remote counted (record st { world = world }))
        (counted_Unused world st u)

  run_unless_lem :
      (stop : Option Error) (st : BulkState World Any)
      → Unused st
      → Safe (run_unless remote stop op opts filter exec st)
  unfolding run_unless
  run_unless_lem (some e) st u = partial-Safe st (some e) (λ q. ground arith) u
  run_unless_lem none st u =
      let found = remote.count_documents opts.database opts.collection filter st.world in
      after_count_lem found.0 found.1 st u

  pub run_bulk_lem :
      (ready : Bool) (st : BulkState World Any)
      → Unused st
      → Safe (run_bulk remote ready op opts filter exec st)
  unfolding run_bulk
  run_bulk_lem false st u = (u.0, omega (arith, u.3), λ q. ground arith)
  run_bulk_lem true st u =
      let out =
        run_unless remote (context_error (remote.context st.world)) op opts filter exec st in
      let k = run_unless_lem (context_error (remote.context st.world)) st u in
      (
        finished-IsSound remote op opts filter exec n honest size some_size (remote.now out.0.world)
            (out.0.result.finished_at == 0) out.0 k.0,
        k.1,
        k.2,
      )
