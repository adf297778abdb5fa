-- ===== src/Runs/Interruption.antt =====
-- src/harness-runs/reconciliation.mjs: what a restarted Host makes of the runs that it finds.
use sandking.Base.{
  ℕ, ◌+◌, ◌==◌, Bool, true, false, not, ◌&&◌, ◌||◌, String, str_eq, List, [], ◌∷◌, Option, none,
  some, or_else, is_some, any, filter, Result, ok, err, ◌>>=◌, if◌then◌else◌,
}
use sandking.Runs.Types.{
  Run, Status, OutcomeStatus, OutcomeCode, EventType, Event, Outcome, Cancellation, Platform,
  Failure,
}
use sandking.Runs.Events.{Stamp, append_event}
use sandking.Runs.Commit.{status_of, terminal_event_of, diagnostic_reference}

abbrev pub is_terminal_type : EventType → Bool
is_terminal_type EventType.harness_run_succeeded = true
is_terminal_type EventType.harness_run_failed = true
is_terminal_type EventType.harness_run_cancelled = true
is_terminal_type _ = false

abbrev pub is_ready_type : EventType → Bool
is_ready_type EventType.harness_adapter_ready = true
is_ready_type _ = false

abbrev pub is_terminal : Event → Bool
is_terminal e = is_terminal_type e.event_type

abbrev pub same_terminal_type : EventType → EventType → Bool
same_terminal_type EventType.harness_run_succeeded EventType.harness_run_succeeded = true
same_terminal_type EventType.harness_run_failed EventType.harness_run_failed = true
same_terminal_type EventType.harness_run_cancelled EventType.harness_run_cancelled = true
same_terminal_type _ _ = false

abbrev pub refers_to : Option String → String → Bool
refers_to none id = false
refers_to (some r) id = str_eq r id

abbrev pub same_status : Status → Status → Bool
same_status Status.starting Status.starting = true
same_status Status.running Status.running = true
same_status Status.cancelling Status.cancelling = true
same_status Status.recovery_required Status.recovery_required = true
same_status Status.succeeded Status.succeeded = true
same_status Status.failed Status.failed = true
same_status Status.cancelled Status.cancelled = true
same_status _ _ = false

abbrev same_time : Option ℕ → ℕ → Bool
same_time none t = false
same_time (some s) t = s == t

-- The run with the terminal event that its outcome calls for, and whether it was missing.
unfoldable pub repair_history : Stamp → Outcome → List Event → Run → Result Failure (Bool × Run)
repair_history stamp o [] run =
    append_event stamp run (terminal_event_of o.outcome_status) none (some o.outcome_id) >>= λ run'.
    ok (true, run')
repair_history stamp o (e ∷ []) run =
    if same_terminal_type e.event_type (terminal_event_of o.outcome_status)
      && refers_to e.outcome_reference o.outcome_id
    then ok (false, run)
    else err Failure.harness_run_terminal_history_invalid
repair_history stamp o (e ∷ e' ∷ es) run = err Failure.harness_run_terminal_history_invalid

unfoldable pub repair_view : Outcome → Bool × Run → Bool × Run
repair_view o (repaired, run) =
    let stale =
      not (same_status run.status (status_of o.outcome_status))
      || not (same_time run.completed_at o.outcome_completed_at) in
    let changed = repaired || stale in
    (
      changed,
      record run {
        status = if stale then status_of o.outcome_status else run.status;
        completed_at = if stale then some o.outcome_completed_at else run.completed_at;
        revision = if changed then run.revision + 1 else run.revision;
      },
    )

-- `repairAcceptedTerminalOutcome`, for a run with an outcome.
unfoldable pub repair_accepted_terminal_outcome :
    Stamp → Outcome → Run → Result Failure (Bool × Run)
unfolding repair_history repair_view
repair_accepted_terminal_outcome stamp o run =
    repair_history stamp o (filter is_terminal run.events) run >>= λ done. ok (repair_view o done)

unfoldable pub adapter_readiness_was_durably_observed : Run → Bool
adapter_readiness_was_durably_observed run =
    run.validation.adapter_ready_observed
    || is_some run.adapter_ready_at
    || any (λ e. is_ready_type e.event_type) run.events

-- The ids and the time of one finalization.
pub record FinalStamp : Type 0 where
  pub event : Stamp
  pub outcome_id : String
  pub outcome_audit_id : String
  pub reconciliation_audit_id : String
  pub completed_at : ℕ

-- The members that both outcomes of an interrupted run share.
unfoldable pub interrupted_run : FinalStamp → Run → Run
unfolding adapter_readiness_was_durably_observed
interrupted_run stamp run = record run {
  completed_at = some stamp.completed_at;
  recovery = none;
  revision = run.revision + 1;
  validation = record {
    adapter_ready_observed = adapter_readiness_was_durably_observed run;
    valid_terminal_envelope_count = 0;
    exactly_one = false;
    adapter_channel_closed_observed = false;
    process_exit_observed = false;
  };
}

unfoldable pub interrupted_outcome :
    FinalStamp → Run → OutcomeStatus → OutcomeCode → Option Status → Outcome
interrupted_outcome stamp run status code previous = record {
  outcome_id = stamp.outcome_id;
  outcome_status = status;
  code = code;
  outcome_completed_at = stamp.completed_at;
  incomplete_result = true;
  outcome_result = none;
  stdout_reference = diagnostic_reference run.stdout;
  stderr_reference = diagnostic_reference run.stderr;
  terminal_envelope = none;
  outcome_audit_id = stamp.outcome_audit_id;
  interruption = elim previous [
    | none ↦ none
    | some s ↦ some (record {
      previous_status = s;
      reconciled_at = stamp.completed_at;
      reconciliation_audit_id = stamp.reconciliation_audit_id;
    })
  ];
}

unfoldable pub finalize_cancelled : FinalStamp → Platform → Cancellation → Run → Result Failure Run
unfolding interrupted_run interrupted_outcome
finalize_cancelled stamp platform c run =
    append_event stamp.event
      (record (interrupted_run stamp run) {
        status = Status.cancelled;
        cancellation = some (record c {
          termination_confirmed_at = or_else c.termination_confirmed_at (some stamp.completed_at);
        });
        cancellation_reconciliation = some (record {
          reconciled_at = stamp.completed_at;
          platform = platform;
          reconciliation_audit_id = stamp.reconciliation_audit_id;
        });
        outcome = some (
            interrupted_outcome stamp run OutcomeStatus.cancelled
              OutcomeCode.conformance_run_cancelled none);
      })
      EventType.harness_run_cancelled none (some stamp.outcome_id)

-- The schema of the interruption knows the previous statuses `starting` and `running` only.
unfoldable pub finalize_failed : FinalStamp → Status → Run → Result Failure Run
unfolding interrupted_run interrupted_outcome
finalize_failed stamp previous run =
    if same_status previous Status.starting || same_status previous Status.running
    then append_event stamp.event
        (record (interrupted_run stamp run) {
          status = Status.failed;
          outcome = some (
              interrupted_outcome stamp run OutcomeStatus.failed OutcomeCode.host_daemon_interrupted
                (some previous));
        })
        EventType.harness_run_failed none (some stamp.outcome_id)
    else err Failure.schema_invalid

unfoldable pub finalize_by :
    FinalStamp → Platform → Status → Option Cancellation → Run → Result Failure Run
unfolding finalize_cancelled finalize_failed
finalize_by stamp platform Status.cancelling (some c) run = finalize_cancelled stamp platform c run
finalize_by stamp platform previous _ run = finalize_failed stamp previous run

unfoldable pub finalize_interrupted_run : FinalStamp → Platform → Status → Run → Result Failure Run
unfolding finalize_by
finalize_interrupted_run stamp platform previous run =
    if is_some run.outcome then ok run else finalize_by stamp platform previous run.cancellation run
