-- ===== src/Session/Slots.antt =====
-- pkg/mot/session.go: acquireRemoteSlot and the function that it returns, as steps of many
-- goroutines.
use mongo_overview_tool.Base.{
  ◌≢◌, ℕ, suc, ◌+◌, ◌-◌, ◌≤◌, ◌<◌, Bool, true, false, ltb, if◌then◌else◌, ◌≡◌, refl, arith, none,
}
use mongo_overview_tool.Session.{require_open}

-- The counters of the session, the permits of its semaphore that are held, and how many goroutines
-- stand between two steps: with a permit that is not counted yet, with a counted one, and with one
-- that is not counted any more and not given back yet.
pub record Slots : Type 0 where
  pub closed : Bool
  pub held : ℕ
  pub remote_in_flight : ℕ
  pub remote_operations : ℕ
  pub peak_remote_operations : ℕ
  pub admitted : ℕ
  pub running : ℕ
  pub leaving : ℕ

abbrev pub no_slots : Slots
no_slots = record {
  closed = false;
  held = 0;
  remote_in_flight = 0;
  remote_operations = 0;
  peak_remote_operations = 0;
  admitted = 0;
  running = 0;
  leaving = 0;
}

-- remoteLimit.Acquire
unfoldable pub acquire : Slots → Slots
acquire s = record s { held = suc s.held; admitted = suc s.admitted }

-- The second requireOpen fails, so the permit goes back.
unfoldable pub refuse : Slots → Slots
refuse s = record s { held = s.held - 1; admitted = s.admitted - 1 }

-- The first critical section.
unfoldable pub count_in : Slots → Slots
count_in s =
    let in_flight = suc s.remote_in_flight in
    record s {
      remote_in_flight = in_flight;
      remote_operations = suc s.remote_operations;
      peak_remote_operations =
          if ltb s.peak_remote_operations in_flight then in_flight else s.peak_remote_operations;
      admitted = s.admitted - 1;
      running = suc s.running;
    }

-- The critical section of the returned function, which runs once.
unfoldable pub count_out : Slots → Slots
count_out s = record s {
  remote_in_flight = s.remote_in_flight - 1;
  running = s.running - 1;
  leaving = suc s.leaving;
}

-- remoteLimit.Release behind it
unfoldable pub release : Slots → Slots
release s = record s { held = s.held - 1; leaving = s.leaving - 1 }

unfoldable pub close : Slots → Slots
close s = record s { closed = true }

-- One step of one goroutine, with so many permits in the semaphore. The test of requireOpen in
-- front of Acquire may be out of date when the permit comes, and so may be the second one.
pub data Step (limit : ℕ) : Slots → Slots → Type 0 where
  step_acquire : (s : Slots) → s.held < limit → Step limit s (acquire s)
  step_refuse :
      (s : Slots) → 1 ≤ s.admitted → require_open true s.closed ≢ none → Step limit s (refuse s)
  step_count_in : (s : Slots) → 1 ≤ s.admitted → Step limit s (count_in s)
  step_count_out : (s : Slots) → 1 ≤ s.running → Step limit s (count_out s)
  step_release : (s : Slots) → 1 ≤ s.leaving → Step limit s (release s)
  step_close : (s : Slots) → Step limit s (close s)

pub data Reachable (limit : ℕ) : Slots → Type 0 where
  start : Reachable limit no_slots
  next : (s t : Slots) → Reachable limit s → Step limit s t → Reachable limit t

pub record IsBounded (limit : ℕ) (s : Slots) : Type 0 where
  pub permits : s.held ≡ s.admitted + s.running + s.leaving
  pub limited : s.held ≤ limit
  pub counted : s.remote_in_flight ≡ s.running
  pub peak : s.remote_in_flight ≤ s.peak_remote_operations
  pub peak_limited : s.peak_remote_operations ≤ limit
  pub operations : s.peak_remote_operations ≤ s.remote_operations

Step-IsBounded : (limit : ℕ) (s t : Slots) → Step limit s t → IsBounded limit s → IsBounded limit t
unfolding acquire refuse count_in count_out release close
Step-IsBounded limit _ _ (step_acquire s h) b = record {
  permits = omega (arith, b.permits);
  limited = omega arith;
  counted = b.counted;
  peak = b.peak;
  peak_limited = b.peak_limited;
  operations = b.operations;
}
Step-IsBounded limit _ _ (step_refuse s h k) b = record {
  permits = omega (arith, b.permits);
  limited = omega (arith, b.limited);
  counted = b.counted;
  peak = b.peak;
  peak_limited = b.peak_limited;
  operations = b.operations;
}
Step-IsBounded limit _ _ (step_count_in s h) b = record {
  permits = omega (arith, b.permits);
  limited = b.limited;
  counted = omega (arith, b.counted);
  peak = ground (arith, b.peak);
  peak_limited = ground (arith, b.peak_limited, b.permits, b.counted, b.limited);
  operations = ground (arith, b.operations, b.peak);
}
Step-IsBounded limit _ _ (step_count_out s h) b = record {
  permits = omega (arith, b.permits);
  limited = b.limited;
  counted = omega (arith, b.counted);
  peak = omega (arith, b.peak);
  peak_limited = b.peak_limited;
  operations = b.operations;
}
Step-IsBounded limit _ _ (step_release s h) b = record {
  permits = omega (arith, b.permits);
  limited = omega (arith, b.limited);
  counted = b.counted;
  peak = b.peak;
  peak_limited = b.peak_limited;
  operations = b.operations;
}
Step-IsBounded limit _ _ (step_close s) b = record {
  permits = b.permits;
  limited = b.limited;
  counted = b.counted;
  peak = b.peak;
  peak_limited = b.peak_limited;
  operations = b.operations;
}

start-IsBounded : (limit : ℕ) → IsBounded limit no_slots
start-IsBounded limit = record {
  permits = omega arith;
  limited = omega arith;
  counted = refl;
  peak = omega arith;
  peak_limited = omega arith;
  operations = omega arith;
}

all-IsBounded : (limit : ℕ) (s : Slots) → Reachable limit s → IsBounded limit s
all-IsBounded limit _ start = start-IsBounded limit
all-IsBounded limit _ (next s t r step) = Step-IsBounded limit s t step (all-IsBounded limit s r)

-- Whatever the goroutines of a session do, in whatever order, at most as many remote operations are
-- in flight as the session has slots, the peak that the statistics show has seen the present number
-- and is itself within the slots, and every permit that is held belongs to a goroutine that will
-- give it back.
pub in_flight_bounded :
    (limit : ℕ) (s : Slots)
    → Reachable limit s
    → (s.remote_in_flight ≤ s.peak_remote_operations)
      × (s.peak_remote_operations ≤ limit)
      × (s.held ≡ s.admitted + s.running + s.leaving)
in_flight_bounded limit s r = let b = all-IsBounded limit s r in (b.peak, b.peak_limited, b.permits)

-- Once every goroutine that took a permit has run to its end, no permit is held and no remote
-- operation is in flight, also where the session was closed in between.
pub reachable_drained :
    (limit : ℕ) (s : Slots)
    → Reachable limit s
    → s.admitted + s.running + s.leaving ≡ 0
    → (s.held ≡ 0) × (s.remote_in_flight ≡ 0)
reachable_drained limit s r h =
    let b = all-IsBounded limit s r in (omega (arith, b.permits), omega (arith, b.counted))
