-- ===== src/Bulk/Batches.antt =====
-- What the calls of a bulk run say of it, and what a batch does to that.
use mongo_overview_tool.Base.Int.{is_positive, pos, leb_ℤ, ℤ}
use mongo_overview_tool.Base.{
  length-append, sym, ap, ◌∙◌, if◌then◌else◌, ℕ, Bool, true, false, ◌&&◌, List, [], ◌∷◌, ◌++◌,
  Option, none, some, ◌≡◌, refl, arith, count, all, length, leb,
}
use mongo_overview_tool.Results.{BulkBatchResult}
use mongo_overview_tool.Errors.{map_context_error, context_error, ok, err, Error}
use mongo_overview_tool.Bulk.{
  counted, closed, waited, on_bulk_start, on_bulk_batch, on_bulk_retry, on_bulk_done, BulkOptions,
  Fetch, Remote, Call, BulkState, executed, opened, open_failed,
}
use mongo_overview_tool.Bulk.Run.{
  after_wait, add_batch, note_batch, after_exec, notify, Exec, log, execute_bulk_batch,
  wait_with_context,
}

module _ {Any : Type 0} where
  -- The ids of the batches that exec took without an error, in order; the latest call is first.
  unfoldable pub done_ids : List (Call Any) → List Any
  done_ids [] = []
  done_ids (executed ids true ∷ cs) = done_ids cs ++ ids
  done_ids (c ∷ cs) = done_ids cs

  abbrev pub is_done : Call Any → Bool
  is_done (executed ids true) = true
  is_done c = false

  -- exec was called with no more than n ids, and at least one.
  abbrev pub is_sized : ℕ → Call Any → Bool
  is_sized n (executed ids b) = leb 1 (length ids) && leb (length ids) n
  is_sized n c = true

  abbrev pub is_executed : Call Any → Bool
  is_executed (executed ids b) = true
  is_executed c = false

  abbrev pub is_opening : Call Any → Bool
  is_opening (opened fs) = true
  is_opening open_failed = true
  is_opening c = false

  abbrev pub is_nil : List Any → Bool
  is_nil [] = true
  is_nil (x ∷ xs) = false

  -- No cursor was opened after a batch had been taken.
  unfoldable pub opens_first : List (Call Any) → Bool
  unfolding done_ids
  opens_first [] = true
  opens_first (opened fs ∷ cs) = is_nil (done_ids cs) && opens_first cs
  opens_first (c ∷ cs) = opens_first cs

  -- The ids that a cursor gives.
  unfoldable pub fetched_ids : List (Fetch Any) → List Any
  fetched_ids [] = []
  fetched_ids (f ∷ fs) = elim f.id [ ok id ↦ id ∷ fetched_ids fs | err e ↦ fetched_ids fs ]

  unfoldable pub last_opened : List (Call Any) → List Any
  unfolding fetched_ids
  last_opened [] = []
  last_opened (opened fs ∷ cs) = fetched_ids fs
  last_opened (c ∷ cs) = last_opened cs

  abbrev pub is_neutral : Call Any → Bool
  is_neutral (executed ids b) = false
  is_neutral (opened fs) = false
  is_neutral open_failed = false
  is_neutral c = true

  neutral_lem :
      (n : ℕ) (c : Call Any) (cs : List (Call Any))
      → is_neutral c ≡ true
      → (done_ids (c ∷ cs) ≡ done_ids cs)
        × ((last_opened (c ∷ cs) ≡ last_opened cs) × (opens_first (c ∷ cs) ≡ opens_first cs))
        × (is_opening c ≡ false)
        × (is_done c ≡ false)
        × (is_sized n c ≡ true)
  unfolding done_ids opens_first last_opened
  neutral_lem n counted cs h = (refl, (refl, refl), refl, refl, refl)
  neutral_lem n (opened fs) cs h = ground arith
  neutral_lem n open_failed cs h = ground arith
  neutral_lem n closed cs h = (refl, (refl, refl), refl, refl, refl)
  neutral_lem n (executed ids b) cs h = ground arith
  neutral_lem n (waited d) cs h = (refl, (refl, refl), refl, refl, refl)
  neutral_lem n (on_bulk_start t) cs h = (refl, (refl, refl), refl, refl, refl)
  neutral_lem n (on_bulk_batch b) cs h = (refl, (refl, refl), refl, refl, refl)
  neutral_lem n (on_bulk_retry e a) cs h = (refl, (refl, refl), refl, refl, refl)
  neutral_lem n (on_bulk_done r) cs h = (refl, (refl, refl), refl, refl, refl)

module _ {World Any : Type 0} where
  -- The counters of the result are those of the calls.
  pub record IsSound (n : ℕ) (st : BulkState World Any) : Type 0 where
    pub processed : st.result.processed ≡ length (done_ids st.calls)
    pub batches : st.result.batch_count ≡ count is_done st.calls
    pub sized : all (is_sized n) st.calls ≡ true
    pub opens : opens_first st.calls ≡ true

  -- What a step that opens no cursor leaves.
  abbrev pub Keeps : BulkState World Any → BulkState World Any → Type 0
  Keeps st next =
      (count is_opening next.calls ≡ count is_opening st.calls)
      × (last_opened next.calls ≡ last_opened st.calls)

  pub world-IsSound :
      (n : ℕ) (world : World) (st : BulkState World Any)
      → IsSound n st
      → IsSound n (record st { world = world })
  world-IsSound n world st s = record {
    processed = s.processed;
    batches = s.batches;
    sized = s.sized;
    opens = s.opens;
  }

  pub log-neutral :
      (remote : Remote World Any) (n : ℕ) (c : Call Any) (st : BulkState World Any)
      → is_neutral c ≡ true
      → IsSound n st
      → IsSound n (log remote c st)
        × Keeps st (log remote c st)
        × (done_ids (c ∷ st.calls) ≡ done_ids st.calls)
  unfolding count all
  log-neutral remote n c st h s =
      let k = neutral_lem n c st.calls h in
      (
        record {
          processed = s.processed ∙ ap length (sym k.0);
          batches = ground (arith, k, s.batches);
          sized = ground (arith, k, s.sized);
          opens = k.1.1 ∙ s.opens;
        },
        (ground (arith, k), k.1.0),
        k.0,
      )

  observed_lem :
      (remote : Remote World Any) (n : ℕ) (observed : Bool) (c : Call Any)
      (st : BulkState World Any)
      → is_neutral c ≡ true
      → IsSound n st
      → let next = if observed then log remote c st else st in
        IsSound n next × Keeps st next × (done_ids next.calls ≡ done_ids st.calls)
  observed_lem remote n true c st h s = log-neutral remote n c st h s
  observed_lem remote n false c st h s = (s, (refl, refl), refl)

  -- A call of the observer, or none.
  pub notify_lem :
      (remote : Remote World Any) (n : ℕ) (opts : BulkOptions Any) (c : Call Any)
      (st : BulkState World Any)
      → is_neutral c ≡ true
      → IsSound n st
      → let next = notify remote opts c st in
        IsSound n next × Keeps st next × (done_ids next.calls ≡ done_ids st.calls)
  notify_lem remote n opts c st h s = observed_lem remote n opts.observed c st h s

  waited_lem :
      (remote : Remote World Any) (n : ℕ) (pause : ℤ) (none_left : Bool) (st : BulkState World Any)
      → IsSound n st
      → let next =
          (if none_left
            then (st, context_error (remote.context st.world))
            else after_wait remote pause (remote.wait pause st.world) st).0 in
        IsSound n next
        × Keeps st next
        × (done_ids next.calls ≡ done_ids st.calls)
        × (next.result ≡ st.result)
  waited_lem remote n pause true st s = (s, (refl, refl), refl, refl)
  waited_lem remote n pause false st s =
      let k =
        log-neutral remote n (waited pause) (record st { world = (remote.wait pause st.world).0 })
          refl (world-IsSound n (remote.wait pause st.world).0 st s) in
      (k.0, k.1, k.2, refl)

  -- Waiting, with the wait logged or not.
  pub wait_lem :
      (remote : Remote World Any) (n : ℕ) (pause : ℤ) (st : BulkState World Any)
      → IsSound n st
      → let next = (wait_with_context remote pause st).0 in
        IsSound n next
        × Keeps st next
        × (done_ids next.calls ≡ done_ids st.calls)
        × (next.result ≡ st.result)
  unfolding wait_with_context
  wait_lem remote n pause st s = waited_lem remote n pause (leb_ℤ pause (pos 0)) st s

module _ {World Any : Type 0} (exec : Exec World Any) where
  -- exec tells how many ids it was given.
  abbrev pub IsHonest : Type 0
  IsHonest = (ids : List Any) (world : World) → (exec ids world).1.0.processed ≡ length ids

module _ {World Any : Type 0} (remote : Remote World Any) (opts : BulkOptions Any)
    (exec : Exec World Any) (n : ℕ) (honest : IsHonest exec) where
  -- What a batch does to the calls.
  abbrev pub Takes : List Any → BulkState World Any → BulkState World Any × Option Error → Type 0
  Takes ids st (next, e) =
      IsSound n next × Keeps st next × (e ≡ none → done_ids next.calls ≡ done_ids st.calls ++ ids)

  pub executed-IsSound :
      (ids : List Any) (batch : BulkBatchResult) (st : BulkState World Any) (world : World)
      → is_sized n (executed ids true) ≡ true
      → batch.processed ≡ length ids
      → IsSound n st
      → IsSound n (record {
        world = world;
        result = add_batch batch st.result;
        calls = executed ids true ∷ st.calls;
      })
  unfolding done_ids opens_first count all
  executed-IsSound ids batch st world h p s = record {
    processed = omega (arith, s.processed, p, length-append (done_ids st.calls) ids);
    batches = omega (arith, s.batches);
    sized = ground (arith, s.sized);
    opens = s.opens;
  }

  pub refused-IsSound :
      (ids : List Any) (st : BulkState World Any) (world : World)
      → is_sized n (executed ids false) ≡ true
      → IsSound n st
      → IsSound n (log remote (executed ids false) (record st { world = world }))
  unfolding done_ids opens_first count all
  refused-IsSound ids st world h s = record {
    processed = s.processed;
    batches = omega (arith, s.batches);
    sized = ground (arith, s.sized);
    opens = s.opens;
  }

  noted-IsSound :
      (batch : BulkBatchResult) (st : BulkState World Any)
      → IsSound n (record st { result = add_batch batch st.result })
      → let next = note_batch remote opts batch st in
        IsSound n next × Keeps st next × (done_ids next.calls ≡ done_ids st.calls)
  unfolding note_batch
  noted-IsSound batch st s =
      notify_lem remote n opts _ (record st { result = add_batch batch st.result }) refl s

  after_pause :
      (pauses : Bool) (st : BulkState World Any)
      → IsSound n st
      → let next = (if pauses then wait_with_context remote opts.pause st else (st, none)).0 in
        IsSound n next × Keeps st next × (done_ids next.calls ≡ done_ids st.calls)
  after_pause true st s = let k = wait_lem remote n opts.pause st s in (k.0, k.1, k.2)
  after_pause false st s = (s, (refl, refl), refl)

  after_exec_lem :
      (ids : List Any) (world : World) (batch : BulkBatchResult) (e : Option Error)
      (st : BulkState World Any)
      → is_sized n (executed ids true) ≡ true
      → batch.processed ≡ length ids
      → IsSound n st
      → Takes ids st (after_exec remote opts ids (world, (batch, e)) st)
  unfolding after_exec map_context_error done_ids last_opened count
  after_exec_lem ids world batch (some e) st h p s =
      (refused-IsSound ids st world h s, (omega arith, refl), λ q. ground arith)
  after_exec_lem ids world batch none st h p s =
      let start = log remote (executed ids true) (record st { world = world }) in
      let noted = noted-IsSound batch start (executed-IsSound ids batch st world h p s) in
      let k = after_pause (is_positive opts.pause) (note_batch remote opts batch start) noted.0 in
      (k.0, (k.1.0 ∙ noted.1.0 ∙ omega arith, k.1.1 ∙ noted.1.1), λ q. k.2 ∙ noted.2)

  batch_or_stop :
      (ids : List Any) (stop : Option Error) (st : BulkState World Any)
      → is_sized n (executed ids true) ≡ true
      → IsSound n st
      → Takes ids st (elim stop [
        | some e ↦ (st, some e)
        | none ↦ after_exec remote opts ids (exec ids st.world) st
      ])
  batch_or_stop ids (some e) st h s = (s, (refl, refl), λ q. ground arith)
  batch_or_stop ids none st h s =
      after_exec_lem ids (exec ids st.world).0 (exec ids st.world).1.0 (exec ids st.world).1.1 st h
        (honest ids st.world) s

  pub execute_bulk_batch_lem :
      (ids : List Any) (st : BulkState World Any)
      → is_sized n (executed ids true) ≡ true
      → IsSound n st
      → Takes ids st (execute_bulk_batch remote opts exec ids st)
  unfolding execute_bulk_batch
  execute_bulk_batch_lem ids st h s =
      batch_or_stop ids (context_error (remote.context st.world)) st h s
