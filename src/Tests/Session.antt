-- ===== src/Tests/Session.antt =====
-- Runs of a session with one slot and one derived connection.
use mongo_overview_tool.Base.{
  ◌≡◌, ◌≤◌, ◌+◌, ◌==◌, refl, true, List, [], ◌∷◌, none, some, count, arith,
}
use mongo_overview_tool.Errors.{sentinel, partial_result, cancelled}
use mongo_overview_tool.Session.Slots as S
use mongo_overview_tool.Session.Slots.{
  Slots, no_slots, in_flight_bounded, reachable_drained, acquire, count_in, count_out, release,
}
use mongo_overview_tool.Session.Connections as C
use mongo_overview_tool.Session.Connections.{
  Connections, Key, no_connections, store_loaded, begin_close, has_key, same_key, of_key,
}
use mongo_overview_tool.Session.Connections.Leaks.{places, connections_kept, closed_without_leak}
use mongo_overview_tool.Session.Connections.Unique.{one_connection}
use mongo_overview_tool.Session.Capabilities.{
  Recorded, Tallies, stats_at, record_all, record_all_lem,
}

abbrev one_running : Slots
one_running = record no_slots {
  held = 1;
  remote_in_flight = 1;
  remote_operations = 1;
  peak_remote_operations = 1;
  running = 1;
}

one_running-Reachable : S.Reachable 1 one_running
unfolding acquire count_in
one_running-Reachable =
    S.next _ _ (S.next _ _ S.start (S.step_acquire no_slots (omega arith)))
      (S.step_count_in _ (omega arith))

in_flight_bounded_example :
    (one_running.remote_in_flight ≤ one_running.peak_remote_operations)
    × (one_running.peak_remote_operations ≤ 1)
    × (one_running.held ≡ one_running.admitted + one_running.running + one_running.leaving)
in_flight_bounded_example = in_flight_bounded 1 one_running one_running-Reachable

-- The operation has ended.
abbrev ended : Slots
ended = record no_slots { remote_operations = 1; peak_remote_operations = 1 }

ended-Reachable : S.Reachable 1 ended
unfolding count_out release
ended-Reachable =
    S.next _ _ (S.next _ _ one_running-Reachable (S.step_count_out one_running (omega arith)))
      (S.step_release _ (omega arith))

reachable_drained_example : (ended.held ≡ 0) × (ended.remote_in_flight ≡ 0)
reachable_drained_example = reachable_drained 1 ended ended-Reachable refl

abbrev key : Key
key = record { address = "10.0.0.1:27017"; replica_set = "rs0"; direct = some true }

-- One connection is cached.
abbrev cached : Connections
cached = record no_connections { cache = (key, 0) ∷ []; made = 1; opened = 1 }

cached-Reachable : C.Reachable cached
unfolding store_loaded count
cached-Reachable =
    C.next _ _
      (C.next _ _ (C.next _ _ C.start (C.begin_load no_connections key refl))
        (C.connect _ [] key [] refl))
      (C.stored _ [] key 0 [] refl)

connections_kept_example : places 0 cached ≡ 1
connections_kept_example = connections_kept cached 0 cached-Reachable (omega arith)

one_connection_example :
    count (has_key key) cached.cache
      + count (has_key key) cached.loaded
      + count (same_key key) cached.loading
    ≤ 1
one_connection_example = one_connection cached key cached-Reachable

-- The session is closed, and the connection with it.
abbrev closed : Connections
closed = record no_connections { closed = true; destroyed = 0 ∷ []; made = 1; opened = 1 }

closed-Reachable : C.Reachable closed
unfolding begin_close
closed-Reachable =
    C.next _ _ (C.next _ _ cached-Reachable (C.close cached refl)) (C.close_one _ 0 [] refl)

closed_without_leak_example : count (λ c. c == 0) closed.destroyed ≡ 1
closed_without_leak_example =
    closed_without_leak closed 0 closed-Reachable refl refl refl (omega arith)

abbrev calls : List Recorded
calls =
    record { name = "doctor"; duration = 5; error = none }
    ∷ record { name = "overview"; duration = 2; error = some (sentinel cancelled) }
    ∷ record { name = "doctor"; duration = 7; error = some (sentinel partial_result) }
    ∷ []

record_all_example :
    Tallies calls "doctor" (stats_at "doctor" []) (stats_at "doctor" (record_all calls []))
record_all_example = record_all_lem calls "doctor" []
