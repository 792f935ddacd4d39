-- ===== src/Bulk/Promises.antt =====
-- What BulkDelete and BulkUpdate promise, however the servers answer.
use mongo_overview_tool.Base.{
  ◌≤◌, Bool, true, false, Option, none, some, ◌≡◌, refl, arith, count, all, length, String,
}
use mongo_overview_tool.Base.Int.{ltb_ℤ, ℤ, pos, negsuc, pos_part}
use mongo_overview_tool.Errors.{Result, ok, err, Error}
use mongo_overview_tool.Document.{Document, parse_document}
use mongo_overview_tool.Bulk.{
  checked_filter, check_filter, BulkOptions, BulkUpdateOptions, Remote, BulkState,
  check_bulk_options, new_result, validate_bulk_options,
}
use mongo_overview_tool.Bulk.Run.{Exec}
use mongo_overview_tool.Bulk.Operations.{
  run_valid, rounds, max_retries_of, run_bulk, start_state, delete_exec, update_exec, bulk_delete,
  bulk_update, check_update,
}
use mongo_overview_tool.Bulk.Batches.{
  IsSound, IsHonest, done_ids, last_opened, opens_first, is_opening, is_done, is_sized,
}
use mongo_overview_tool.Bulk.Safety.{run_bulk_lem}

non_negative : (a : ℤ) → ltb_ℤ a (pos 0) ≡ false → a ≡ pos (pos_part a)
non_negative (pos a) h = refl
non_negative (negsuc a) h = ground arith

module _ {World Any : Type 0} (remote : Remote World Any) where
  -- The options of a run that is started.
  check_bulk_options_lem :
      (opts : BulkOptions Any)
      → check_bulk_options opts ≡ none
      → (opts.batch_size ≡ pos (pos_part opts.batch_size))
        × (1 ≤ pos_part opts.batch_size)
        × (opts.max_retries ≡ pos (pos_part opts.max_retries))
  unfolding check_bulk_options
  check_bulk_options_lem opts h = (
    ground (arith, non_negative opts.batch_size),
    ground arith,
    ground (arith, non_negative opts.max_retries),
  )

  -- The counters tell what was taken, no batch is empty or larger than asked for, no cursor is
  -- opened once a batch was taken, and none after the last retry.
  abbrev pub Promised : BulkOptions Any → BulkState World Any → Type 0
  Promised opts st =
      (st.result.processed ≡ length (done_ids st.calls))
      × (st.result.batch_count ≡ count is_done st.calls)
      × (all (is_sized (pos_part opts.batch_size)) st.calls ≡ true)
      × (opens_first st.calls ≡ true)
      × (count is_opening st.calls ≤ rounds (max_retries_of opts.max_retries))

  -- The same, with what an ending without an error means.
  abbrev Ended : BulkOptions Any → BulkState World Any × Option Error → Type 0
  Ended opts (st, e) = Promised opts st × (e ≡ none → done_ids st.calls ≡ last_opened st.calls)

  unused-IsSound :
      (opts : BulkOptions Any) (world : World)
      → IsSound (pos_part opts.batch_size) (start_state remote world (new_result remote opts world))
  unfolding done_ids opens_first count all
  unused-IsSound opts world = record {
    processed = refl;
    batches = refl;
    sized = refl;
    opens = refl;
  }

  started-Ended :
      (ready : Bool) (op : String) (opts : BulkOptions Any) (exec : Exec World Any) (world : World)
      (filter : Document Any)
      → IsHonest exec
      → check_bulk_options opts ≡ none
      → Ended opts (
          run_bulk remote ready op opts filter exec
            (start_state remote world (new_result remote opts world)))
  unfolding done_ids last_opened count
  started-Ended ready op opts exec world filter honest valid =
      let v = check_bulk_options_lem opts valid in
      let k =
        run_bulk_lem remote op opts filter exec (pos_part opts.batch_size) honest v.0 v.1
          (pos_part opts.max_retries) v.2 ready
          (start_state remote world (new_result remote opts world))
          (unused-IsSound opts world, refl, refl, refl) in
      ((k.0.processed, k.0.batches, k.0.sized, k.0.opens, k.1), k.2)

  refused-Ended :
      (opts : BulkOptions Any) (world : World) (e : Error)
      → Ended opts (start_state remote world (new_result remote opts world), some e)
  unfolding done_ids opens_first count all
  refused-Ended opts world e = ((refl, refl, refl, refl, omega arith), λ q. ground arith)

  -- A property of what a refusal returns, and of every run, is one of what is returned.
  pub valid_elim :
      (P : BulkState World Any × Option Error → Type 0) (st : BulkState World Any)
      (run : Document Any → BulkState World Any → BulkState World Any × Option Error)
      → ((e : Error) → P (st, some e))
      → ((document : Document Any) → P (run document st))
      → (checked : Result (Document Any)) → P (run_valid remote checked run st)
  unfolding run_valid
  valid_elim P st run refuse go (err e) = refuse e
  valid_elim P st run refuse go (ok document) = go document

  pub guard_elim :
      (P : BulkState World Any × Option Error → Type 0) (op : String) (opts : BulkOptions Any)
      (st : BulkState World Any)
      (run : Document Any → BulkState World Any → BulkState World Any × Option Error)
      (guard : Option Error)
      → ((e : Error) → P (st, some e))
      → (guard ≡ none → (document : Document Any) → P (run document st))
      → P (run_valid remote (checked_filter remote op opts guard) run st)
  unfolding run_valid
  guard_elim P op opts st run (some e) refuse go = refuse e
  guard_elim P op opts st run none refuse go =
      valid_elim P st run refuse (go refl)
        (check_filter remote op opts (parse_document remote.parse opts.filter))

  bulk_delete-Ended :
      (ready : Bool) (opts : BulkOptions Any) (world : World)
      → Ended opts (bulk_delete remote ready opts world)
  unfolding bulk_delete validate_bulk_options delete_exec
  bulk_delete-Ended ready opts world =
      guard_elim (Ended opts) "bulk-delete" opts _ _ (check_bulk_options opts)
        (refused-Ended opts world)
        (λ valid filter.
          started-Ended ready "bulk-delete" opts (delete_exec remote opts) world filter
            (λ ids world. refl) valid)

  bulk_update-Ended :
      (ready : Bool) (opts : BulkUpdateOptions Any) (world : World)
      → Ended opts.options (bulk_update remote ready opts world)
  unfolding bulk_update validate_bulk_options update_exec
  bulk_update-Ended ready opts world =
      guard_elim (Ended opts.options) "bulk-update" opts.options _ _
        (check_bulk_options opts.options) (refused-Ended opts.options world)
        (λ valid filter.
          valid_elim (Ended opts.options)
            (start_state remote world (new_result remote opts.options world))
            (λ update.
              run_bulk remote ready "bulk-update" opts.options filter
                (update_exec remote opts.options update))
            (refused-Ended opts.options world)
            (λ update.
              started-Ended ready "bulk-update" opts.options
                (update_exec remote opts.options update) world filter (λ ids world. refl) valid)
            (check_update remote (parse_document remote.parse opts.update)))

  -- Whatever the servers answer, the result of BulkDelete counts exactly the documents and the
  -- batches that were deleted without an error; no batch is empty or larger than the batch size; no
  -- cursor is opened again once a batch was deleted, and no more often than the retries allow.
  pub bulk_delete-Promised :
      (ready : Bool) (opts : BulkOptions Any) (world : World)
      → Promised opts (bulk_delete remote ready opts world).0
  bulk_delete-Promised ready opts world = (bulk_delete-Ended ready opts world).0

  -- Whatever the servers answer, the result of BulkUpdate counts exactly the documents and the
  -- batches that were updated without an error; no batch is empty or larger than the batch size; no
  -- cursor is opened again once a batch was updated, and no more often than the retries allow.
  pub bulk_update-Promised :
      (ready : Bool) (opts : BulkUpdateOptions Any) (world : World)
      → Promised opts.options (bulk_update remote ready opts world).0
  bulk_update-Promised ready opts world = (bulk_update-Ended ready opts world).0

  -- If BulkDelete returns no error then the documents that it deleted are those that the cursor it
  -- opened last gave, each once and in the order of the cursor.
  pub bulk_delete_complete :
      (ready : Bool) (opts : BulkOptions Any) (world : World)
      → (bulk_delete remote ready opts world).1 ≡ none
      → done_ids (bulk_delete remote ready opts world).0.calls
        ≡ last_opened (bulk_delete remote ready opts world).0.calls
  bulk_delete_complete ready opts world h = (bulk_delete-Ended ready opts world).1 h

  -- If BulkUpdate returns no error then the documents that it updated are those that the cursor it
  -- opened last gave, each once and in the order of the cursor.
  pub bulk_update_complete :
      (ready : Bool) (opts : BulkUpdateOptions Any) (world : World)
      → (bulk_update remote ready opts world).1 ≡ none
      → done_ids (bulk_update remote ready opts world).0.calls
        ≡ last_opened (bulk_update remote ready opts world).0.calls
  bulk_update_complete ready opts world h = (bulk_update-Ended ready opts world).1 h
