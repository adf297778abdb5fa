-- ===== src/Runs/Commit.antt =====
-- The end of `supervise` of src/harness-runs/run-supervision.mjs: from what the adapter left to the
-- one outcome of the run.
use sandking.Base.{
  ℕ, ◌+◌, Bool, not, ◌||◌, String, List, [], ◌∷◌, Option, none, some, or_else, is_some, is_none,
  Result, ok, ◌>>=◌, length, if◌then◌else◌,
}
use sandking.Runs.Types.{
  Run, Status, OutcomeStatus, OutcomeCode, EventType, TerminalEnvelope, Cancellation, Failure,
  AdapterId, LogStream, DiagnosticReference,
}
use sandking.Runs.Events.{Stamp, append_event}

-- What `requestCancellation` resolves to.
pub record Termination : Type 0 where
  pub cooperative_at : Option ℕ
  pub forced_at : Option ℕ
  pub confirmed_at : Option ℕ

-- What `superviseHarnessAdapter` returns.
pub record Supervision : Type 0 where
  pub adapter_ready_observed : Bool
  pub protocol_invalid : Bool
  pub terminal_envelopes : List TerminalEnvelope
  pub adapter_channel_closed_observed : Bool
  pub start_failed : Bool
  pub termination : Option Termination

-- The ids and times of one commit: `completed_at` is read before the update, `committed_at` in it.
pub record CommitStamp : Type 0 where
  pub event : Stamp
  pub outcome_id : String
  pub outcome_audit_id : String
  pub completed_at : ℕ
  pub committed_at : ℕ

abbrev only : List TerminalEnvelope → Option TerminalEnvelope
only (e ∷ []) = some e
only _ = none

-- `validTerminal ? terminal : null`.
unfoldable pub valid_terminal : Supervision → Option TerminalEnvelope
valid_terminal s = if s.protocol_invalid then none else only s.terminal_envelopes

-- The code of an outcome with a valid envelope, by the adapter.
abbrev pub code_of : AdapterId → OutcomeStatus → OutcomeCode
code_of AdapterId.sandcastle_adapter OutcomeStatus.succeeded = OutcomeCode.harness_run_succeeded
code_of AdapterId.sandcastle_adapter OutcomeStatus.failed = OutcomeCode.harness_run_failed
code_of AdapterId.sandcastle_adapter OutcomeStatus.cancelled = OutcomeCode.harness_run_cancelled
code_of AdapterId.conformance_adapter OutcomeStatus.succeeded =
    OutcomeCode.conformance_run_succeeded
code_of AdapterId.conformance_adapter OutcomeStatus.failed = OutcomeCode.conformance_run_failed
code_of AdapterId.conformance_adapter OutcomeStatus.cancelled =
    OutcomeCode.conformance_run_cancelled

terminal_code : AdapterId → Option TerminalEnvelope → OutcomeCode
terminal_code adapter none = OutcomeCode.harness_result_incomplete
terminal_code adapter (some e) = code_of adapter e.terminal_status

outcome_code : AdapterId → Supervision → OutcomeCode
unfolding terminal_code valid_terminal
outcome_code adapter s =
    if s.start_failed
    then OutcomeCode.harness_adapter_start_failed
    else if s.protocol_invalid
    then OutcomeCode.harness_adapter_protocol_invalid
    else terminal_code adapter (valid_terminal s)

abbrev terminal_status_or_failed : Option TerminalEnvelope → OutcomeStatus
terminal_status_or_failed none = OutcomeStatus.failed
terminal_status_or_failed (some e) = e.terminal_status

abbrev pub result_of : Option TerminalEnvelope → Option String
result_of none = none
result_of (some e) = e.result

-- The run's status and its terminal event, by the status of the outcome.
abbrev pub status_of : OutcomeStatus → Status
status_of OutcomeStatus.succeeded = Status.succeeded
status_of OutcomeStatus.failed = Status.failed
status_of OutcomeStatus.cancelled = Status.cancelled

abbrev pub terminal_event_of : OutcomeStatus → EventType
terminal_event_of OutcomeStatus.succeeded = EventType.harness_run_succeeded
terminal_event_of OutcomeStatus.failed = EventType.harness_run_failed
terminal_event_of OutcomeStatus.cancelled = EventType.harness_run_cancelled

abbrev pub diagnostic_reference : LogStream → DiagnosticReference
diagnostic_reference stream = record {
  stream_id = stream.stream_id;
  range_end = stream.available_end;
}

-- What differs between an outcome of the adapter's own and one of a cancellation.
pub record Verdict : Type 0 where
  pub verdict_status : OutcomeStatus
  pub verdict_code : OutcomeCode
  pub incomplete : Bool
  pub accepted : Option TerminalEnvelope
  pub at : ℕ

unfoldable pub adapter_verdict : AdapterId → Supervision → ℕ → Verdict
unfolding outcome_code valid_terminal
adapter_verdict adapter s at = record {
  verdict_status = terminal_status_or_failed (valid_terminal s);
  verdict_code = outcome_code adapter s;
  incomplete = is_none (valid_terminal s);
  accepted = valid_terminal s;
  at = at;
}

-- A cancelled envelope counts for a cancelled run, and no other does.
only_cancelled : Option TerminalEnvelope → Option TerminalEnvelope
only_cancelled none = none
only_cancelled (some e) = elim e.terminal_status [ OutcomeStatus.cancelled ↦ some e | _ ↦ none ]

unfoldable pub cancelled_verdict : AdapterId → Supervision → Termination → ℕ → Verdict
unfolding only_cancelled valid_terminal
cancelled_verdict adapter s t at = record {
  verdict_status = OutcomeStatus.cancelled;
  verdict_code = code_of adapter OutcomeStatus.cancelled;
  incomplete = is_none (only_cancelled (valid_terminal s)) || is_some t.forced_at;
  accepted = only_cancelled (valid_terminal s);
  at = at;
}

-- The part of `commitTerminalOutcome` behind the cancellation arbitration.
unfoldable pub commit_verdict : CommitStamp → Supervision → Verdict → Run → Result Failure Run
commit_verdict stamp s v run =
    append_event stamp.event
      (record run {
        status = status_of v.verdict_status;
        completed_at = some v.at;
        revision = run.revision + 1;
        validation = record {
          adapter_ready_observed = s.adapter_ready_observed;
          valid_terminal_envelope_count = length s.terminal_envelopes;
          exactly_one = is_some (valid_terminal s);
          adapter_channel_closed_observed = s.adapter_channel_closed_observed;
          process_exit_observed = not s.start_failed;
        };
        outcome = some (record {
          outcome_id = stamp.outcome_id;
          outcome_status = v.verdict_status;
          code = v.verdict_code;
          outcome_completed_at = v.at;
          incomplete_result = v.incomplete;
          outcome_result = result_of v.accepted;
          stdout_reference = diagnostic_reference run.stdout;
          stderr_reference = diagnostic_reference run.stderr;
          terminal_envelope = v.accepted;
          outcome_audit_id = stamp.outcome_audit_id;
          interruption = none;
        });
      })
      (terminal_event_of v.verdict_status) none (some stamp.outcome_id)

-- How one call of `commitTerminalOutcome` ends; the run is persisted in each case.
pub data Commit : Type 0 where
  already_committed committed unconfirmed_termination : Commit
  cancellation_requested : ℕ → Commit

-- The termination that the commit goes by: what supervision reports, what the run has retained, or,
-- with no supervisor to ask, what a failed start proves.
pub data Arbitration : Type 0 where
  by_termination : Termination → Arbitration
  ask_supervisor : ℕ → Arbitration

retained_termination : Cancellation → Termination
retained_termination c = record {
  cooperative_at = c.cooperative_signal_sent_at;
  forced_at = c.forced_termination_sent_at;
  confirmed_at = c.termination_confirmed_at;
}

unfoldable pub arbitrate :
    CommitStamp → Supervision → Option Termination → Bool → Cancellation → Arbitration
unfolding retained_termination
arbitrate stamp s (some t) supervised c = by_termination t
arbitrate stamp s none supervised c =
    if is_some c.termination_confirmed_at
    then by_termination (retained_termination c)
    else if supervised
    then ask_supervisor c.cooperative_deadline_at
    else by_termination (record {
      cooperative_at = none;
      forced_at = none;
      confirmed_at = if s.start_failed then some stamp.completed_at else none;
    })

-- `??=` on the three times of the cancellation.
unfoldable pub fill_times : Termination → Cancellation → Cancellation
fill_times t c = record c {
  cooperative_signal_sent_at = or_else c.cooperative_signal_sent_at t.cooperative_at;
  forced_termination_sent_at = or_else c.forced_termination_sent_at t.forced_at;
  termination_confirmed_at = or_else c.termination_confirmed_at t.confirmed_at;
}

unfoldable pub commit_cancelled :
    CommitStamp → Supervision → Arbitration → Cancellation → Run → Result Failure (Commit × Run)
unfolding commit_verdict cancelled_verdict fill_times
commit_cancelled stamp s (ask_supervisor deadline) c run = ok (cancellation_requested deadline, run)
commit_cancelled stamp s (by_termination t) c run =
    let c' = fill_times t c in
    let run' = record run { cancellation = some c' } in
    if is_none c'.termination_confirmed_at
    then ok (unconfirmed_termination, run')
    else (commit_verdict stamp s (cancelled_verdict run.identity.adapter_id s t stamp.committed_at)
          run'
        >>= λ done. ok (committed, done))

-- The update of `commitTerminalOutcome`, for the value of `cancellationTermination` at the call and
-- whether a supervisor became available.
unfoldable pub commit_terminal_outcome :
    CommitStamp → Supervision → Option Termination → Bool → Run → Result Failure (Commit × Run)
unfolding commit_cancelled commit_verdict adapter_verdict arbitrate
commit_terminal_outcome stamp s termination supervised run =
    if is_some run.outcome then ok (already_committed, run) else elim run.cancellation [
      | none ↦
          commit_verdict stamp s (adapter_verdict run.identity.adapter_id s stamp.completed_at) run
          >>= λ done. ok (committed, done)
      | some c ↦ commit_cancelled stamp s (arbitrate stamp s termination supervised c) c run
    ]
