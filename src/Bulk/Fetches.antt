-- ===== src/Bulk/Fetches.antt =====
-- What one pass over a cursor does to the calls.
use mathlib.Core.List.{append-nil, append_assoc}
use mongo_overview_tool.Base.{
  all, ◌≢◌, ℕ, ◌+◌, ◌≤◌, ◌<◌, Bool, true, false, List, [], ◌∷◌, ◌++◌, Option, none, some, ◌≡◌, refl,
  sym, ◌∙◌, ap, arith, count, length, length-append,
}
use mongo_overview_tool.Base.Int.{neg_part, pos, pos_part}
use mongo_overview_tool.Errors.{Result, ok, err, Error, map_context_error, context_error}
use mongo_overview_tool.Document.{Document}
use mongo_overview_tool.Bulk.{
  BulkCursor, counted, waited, on_bulk_start, on_bulk_batch, on_bulk_retry, on_bulk_done,
  BulkCursor, BulkOptions, Fetch, Remote, Call, BulkState, executed, opened, open_failed, closed,
}
use mongo_overview_tool.Bulk.Run.{
  is_full, round, Exec, Outcome, log, execute_bulk_batch, after_fetches, run_fetches, after_find,
  run_bulk_once,
}
use mongo_overview_tool.Bulk.Batches.{
  is_nil, opens_first, IsSound, IsHonest, Keeps, Takes, done_ids, fetched_ids, last_opened,
  is_opening, execute_bulk_batch_lem, log-neutral, is_sized,
}

module _ {World Any : Type 0} (remote : Remote World Any) (opts : BulkOptions Any)
    (exec : Exec World Any) (n : ℕ) (honest : IsHonest exec) (size : opts.batch_size ≡ pos n)
    (some_size : 1 ≤ n) where
  -- The batches of the pass are sound; if it ends without an error they are all of xs, in order.
  abbrev pub Reads : List Any → BulkState World Any → Outcome World Any → Type 0
  Reads xs st out =
      IsSound n out.0
      × Keeps st out.0
      × (out.1.1 ≡ none → done_ids out.0.calls ≡ done_ids st.calls ++ xs)

  stop-Reads :
      (xs : List Any) (st : BulkState World Any) (b : Bool) (e : Error)
      → IsSound n st
      → Reads xs st (st, (b, some e))
  stop-Reads xs st b e s = (s, (refl, refl), λ q. ground arith)

  small : (ids : List Any) → ids ≢ [] → length ids ≤ n → is_sized n (executed ids true) ≡ true
  small [] h k = ground arith
  small (id ∷ ids) h k = ground arith

  after_fetches_lem :
      (end : Option Error) (ids : List Any) (st : BulkState World Any)
      → length ids ≤ n
      → IsSound n st
      → Reads ids st (after_fetches remote opts exec end ids st)
  unfolding after_fetches map_context_error
  after_fetches_lem (some e) ids st h s = (s, (refl, refl), λ q. ground arith)
  after_fetches_lem none [] st h s = (s, (refl, refl), λ q. sym (append-nil _))
  after_fetches_lem none (id ∷ ids) st h s =
      execute_bulk_batch_lem remote opts exec n honest (id ∷ ids) st (ground arith) s

  after_batch :
      (ids xs : List Any) (st next : BulkState World Any) (e : Option Error)
      (rest : Outcome World Any)
      → Takes remote opts exec n honest ids st (next, e)
      → Reads xs next rest
      → Reads (ids ++ xs) st (elim e [ some stop ↦ (next, (false, some stop)) | none ↦ rest ])
  after_batch ids xs st next (some stop) rest t r = (t.0, t.1, λ q. ground arith)
  after_batch ids xs st next none rest t r = (
    r.0,
    (r.1.0 ∙ t.1.0, r.1.1 ∙ t.1.1),
    λ q. r.2 q ∙ ap (λ ys. ys ++ xs) (t.2 refl) ∙ append_assoc (done_ids st.calls) ids xs,
  )

  full_lem :
      (full : Bool) (id : Any) (ids xs : List Any) (st : BulkState World Any)
      (rest : List Any → BulkState World Any → Outcome World Any)
      → (full ≡ false → length (ids ++ (id ∷ [])) < n)
      → length ids < n
      → IsSound n st
      → ((ks : List Any) (next : BulkState World Any)
          → length ks < n
          → IsSound n next
          → Reads (ks ++ xs) next (rest ks next))
      → Reads ((ids ++ (id ∷ [])) ++ xs) st (elim full [
        | false ↦ rest (ids ++ (id ∷ [])) st
        | true ↦
            let (next, e) = execute_bulk_batch remote opts exec (ids ++ (id ∷ [])) st in
            elim e [ some stop ↦ (next, (false, some stop)) | none ↦ rest [] next ]
      ])
  full_lem false id ids xs st rest f h s k = k (ids ++ (id ∷ [])) st (f refl) s
  full_lem true id ids xs st rest f h s k =
      let b = ids ++ (id ∷ []) in
      let d = execute_bulk_batch remote opts exec b st in
      let t =
        execute_bulk_batch_lem remote opts exec n honest b st
          (ground (arith, length-append ids (id ∷ []))) s in
      after_batch b xs st d.0 d.1 (rest [] d.0) t (k [] d.0 (omega arith) t.0)

  not_full : (ids : List Any) → is_full remote opts ids ≡ false → length ids < n
  not_full ids h = ground (arith, ap pos_part size, ap neg_part size)

  -- One round, by the values that its tests give, and the rest of the loop.
  round_lem :
      (context : Option Error) (id : Result Any) (ids xs : List Any) (st : BulkState World Any)
      (rest : List Any → BulkState World Any → Outcome World Any)
      → length ids < n
      → IsSound n st
      → ((ks : List Any) (next : BulkState World Any)
          → length ks < n
          → IsSound n next
          → Reads (ks ++ xs) next (rest ks next))
      → Reads
          (ids ++ elim id [ ok i ↦ i ∷ xs | err e ↦ xs ])
          st
          (round remote opts exec context id ids st rest)
  unfolding round
  round_lem (some e) id ids xs st rest h s k = stop-Reads _ st false e s
  round_lem none (err e) ids xs st rest h s k = stop-Reads _ st false _ s
  round_lem none (ok id) ids xs st rest h s k =
      let b = ids ++ (id ∷ []) in
      rw (← append_assoc ids (id ∷ []) xs)
        (full_lem (is_full remote opts b) id ids xs st rest (not_full b) h s k)

  pub run_fetches_lem :
      (end : Option Error) (fs : List (Fetch Any)) (ids : List Any) (st : BulkState World Any)
      → length ids < n
      → IsSound n st
      → Reads (ids ++ fetched_ids fs) st (run_fetches remote opts exec end fs ids st)
  unfolding run_fetches fetched_ids
  run_fetches_lem end [] ids st h s =
      rw (append-nil ids) (after_fetches_lem end ids st (omega arith) s)
  run_fetches_lem end (f ∷ fs) ids st h s =
      round_lem (context_error f.context) f.id ids (fetched_ids fs) st
        (run_fetches remote opts exec end fs) h s
        (λ ks next h s. run_fetches_lem end fs ks next h s)

  -- One pass, started before any batch was taken: it opens one cursor, and if it ends without an
  -- error then all that the cursor gave was taken.
  abbrev pub Passes : BulkState World Any → Outcome World Any → Type 0
  Passes st out =
      IsSound n out.0
      × (count is_opening out.0.calls ≡ 1 + count is_opening st.calls)
      × (out.1.1 ≡ none → done_ids out.0.calls ≡ last_opened out.0.calls)

  opened-IsSound :
      (c : Call Any) (world : World) (st : BulkState World Any)
      → is_opening c ≡ true
      → done_ids st.calls ≡ []
      → IsSound n st
      → IsSound n (log remote c (record st { world = world })) × (done_ids (c ∷ st.calls) ≡ [])
  unfolding done_ids opens_first count all
  opened-IsSound (opened fs) world st h d s = (
    record {
      processed = s.processed;
      batches = omega (arith, s.batches);
      sized = s.sized;
      opens = ground (arith, ap is_nil d, s.opens);
    },
    d,
  )
  opened-IsSound open_failed world st h d s = (
    record {
      processed = s.processed;
      batches = omega (arith, s.batches);
      sized = s.sized;
      opens = s.opens;
    },
    d,
  )
  opened-IsSound counted world st h d s = ground arith
  opened-IsSound closed world st h d s = ground arith
  opened-IsSound (executed ids b) world st h d s = ground arith
  opened-IsSound (waited pause) world st h d s = ground arith
  opened-IsSound (on_bulk_start total) world st h d s = ground arith
  opened-IsSound (on_bulk_batch batch) world st h d s = ground arith
  opened-IsSound (on_bulk_retry e attempt) world st h d s = ground arith
  opened-IsSound (on_bulk_done result) world st h d s = ground arith

  closed_lem :
      (cursor : BulkCursor Any) (st : BulkState World Any) (out : Outcome World Any)
      → Reads (fetched_ids cursor.fetches) st out
      → done_ids st.calls ≡ []
      → last_opened st.calls ≡ fetched_ids cursor.fetches
      → IsSound n (log remote closed out.0)
        × (count is_opening (closed ∷ out.0.calls) ≡ count is_opening st.calls)
        × (out.1.1 ≡ none → done_ids (closed ∷ out.0.calls) ≡ last_opened (closed ∷ out.0.calls))
  closed_lem cursor st out r d l =
      let k = log-neutral remote n closed out.0 refl r.0 in
      (
        k.0,
        k.1.0 ∙ r.1.0,
        λ q. k.2 ∙ r.2 q ∙ ap (λ ys. ys ++ fetched_ids cursor.fetches) d ∙ sym (k.1.1 ∙ r.1.1 ∙ l),
      )

  after_find_lem :
      (world : World) (found : Result (BulkCursor Any)) (st : BulkState World Any)
      → done_ids st.calls ≡ []
      → IsSound n st
      → Passes st (after_find remote opts exec (world, found) st)
  unfolding after_find map_context_error count last_opened
  after_find_lem world (err e) st d s =
      ((opened-IsSound open_failed world st refl d s).0, refl, λ q. ground arith)
  after_find_lem world (ok cursor) st d s =
      let start = log remote (opened cursor.fetches) (record st { world = world }) in
      let o = opened-IsSound (opened cursor.fetches) world st refl d s in
      closed_lem cursor start (run_fetches remote opts exec cursor.end cursor.fetches [] start)
        (run_fetches_lem cursor.end cursor.fetches [] start (omega arith) o.0) o.1 refl

  pub run_bulk_once_lem :
      (filter : Document Any) (st : BulkState World Any)
      → done_ids st.calls ≡ []
      → IsSound n st
      → Passes st (run_bulk_once remote opts filter exec st)
  unfolding run_bulk_once
  run_bulk_once_lem filter st d s =
      let found = remote.find_ids_cursor opts.database opts.collection filter st.world in
      after_find_lem found.0 found.1 st d s
