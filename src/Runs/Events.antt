-- ===== src/Runs/Events.antt =====
-- `appendEvent` of src/harness-runs/schemas.mjs, and what a history of events may hold.
use sandking.Base.{
  ℕ, ◌+◌, ◌-◌, String, [], ◌∷◌, ◌++◌, Option, Result, ok, err, leb, length, if◌then◌else◌,
}
use sandking.Runs.Types.{Run, Event, EventType, ProgressRecord, Failure}

abbrev pub max_retained_run_events : ℕ
max_retained_run_events = 1026

abbrev pub max_progress_records_per_run : ℕ
max_progress_records_per_run = max_retained_run_events - 5

-- What the source draws at random or reads from the clock for an event.
pub record Stamp : Type 0 where
  pub event_id : String
  pub recorded_at : ℕ

-- The event that `appendEvent` makes.
unfoldable pub next_event : Stamp → Run → EventType → Option ProgressRecord → Option String → Event
next_event stamp run kind progress reference = record {
  event_id = stamp.event_id;
  harness_run_id = run.identity.harness_run_id;
  sequence = length run.events + 1;
  event_type = kind;
  recorded_at = stamp.recorded_at;
  progress_record = progress;
  outcome_reference = reference;
}

unfoldable pub append_event :
    Stamp → Run → EventType → Option ProgressRecord → Option String → Result Failure Run
unfolding next_event
append_event stamp run kind progress reference =
    if leb max_retained_run_events (length run.events)
    then err Failure.harness_run_event_capacity_exceeded
    else ok
        (record run { events = run.events ++ next_event stamp run kind progress reference ∷ [] })
