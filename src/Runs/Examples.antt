-- ===== src/Runs/Examples.antt =====
-- The theorems about src/harness-runs on concrete runs and requests.
use sandking.Base.{◌≡◌, refl, Bool, true, false, [], ◌∷◌, none, some, Result, ok, err}
use sandking.Runs.Types.{
  Run, Status, Observation, Failure, TerminalEnvelope, OutcomeStatus, ProgressRecord,
}
use sandking.Runs.Events.{append_event}
use sandking.Runs.Commit.{
  Commit, committed, unconfirmed_termination, valid_terminal, commit_terminal_outcome,
}
use sandking.Runs.Outcome.{
  Commits, commit_terminal_outcome-IsWellFormed, commit_terminal_outcome_cancelled,
  commit_terminal_outcome_succeeded,
}
use sandking.Runs.Interruption.{repair_accepted_terminal_outcome, repair_history}
use sandking.Runs.Reconcile.{reconcile_run, retained_confirmation, is_interrupted}
use sandking.Runs.Repaired.{reconcile_run_idempotent}
use sandking.Runs.Restart.{reconcile_run-IsWellFormed}
use sandking.Runs.Observation.{
  unconfirmed_observation, parse_observation, observation_accepts, parse_recovery, recovery_accepts,
  available_recovery_actions, may_terminate, recovery_process_observation,
}
use sandking.Runs.History.{IsWellFormed}
use sandking.Runs.Samples.{
  starting_run, cancelling_run, cancelling_run-IsWellFormed, commit_stamp, supervision, termination,
  running_tree, facts, cancellation,
}

commit_terminal_outcome-IsWellFormed_example :
    Commits
      (commit_terminal_outcome commit_stamp supervision (some termination) true cancelling_run)
commit_terminal_outcome-IsWellFormed_example =
    commit_terminal_outcome-IsWellFormed commit_stamp supervision (some termination) true
      cancelling_run cancelling_run-IsWellFormed refl

-- The value of a result, or another one.
abbrev value_or : {A : Type 0} → A → Result Failure A → A
value_or a (ok b) = b
value_or a (err e) = a

abbrev cancelled_run : Commit × Run
cancelled_run =
    value_or (unconfirmed_termination, cancelling_run)
      (commit_terminal_outcome commit_stamp supervision (some termination) true cancelling_run)

cancelled_run_lem :
    commit_terminal_outcome commit_stamp supervision (some termination) true cancelling_run
    ≡ ok (committed, cancelled_run.1)
unfolding commit_terminal_outcome append_event valid_terminal
cancelled_run_lem = refl

commit_terminal_outcome_cancelled_example :
    (cancelled_run.1.status ≡ Status.cancelled)
    × (retained_confirmation cancelled_run.1.cancellation ≡ true)
commit_terminal_outcome_cancelled_example =
    commit_terminal_outcome_cancelled commit_stamp supervision (some termination) true
      cancelling_run cancelled_run.1 cancellation refl cancelled_run_lem

abbrev succeeded_run : Commit × Run
succeeded_run =
    value_or (unconfirmed_termination, starting_run)
      (commit_terminal_outcome commit_stamp supervision none true starting_run)

succeeded_run_lem :
    commit_terminal_outcome commit_stamp supervision none true starting_run
    ≡ ok (committed, succeeded_run.1)
unfolding commit_terminal_outcome append_event valid_terminal
succeeded_run_lem = refl

succeeded_run-status : succeeded_run.1.status ≡ Status.succeeded
unfolding commit_terminal_outcome append_event valid_terminal
succeeded_run-status = refl

commit_terminal_outcome_succeeded_example :
    (e : TerminalEnvelope) × (supervision.terminal_envelopes ≡ e ∷ [])
    × (e.terminal_status ≡ OutcomeStatus.succeeded)
    × (supervision.protocol_invalid ≡ false)
    × (starting_run.cancellation ≡ none)
commit_terminal_outcome_succeeded_example =
    commit_terminal_outcome_succeeded commit_stamp supervision none true starting_run
      succeeded_run.1 succeeded_run_lem succeeded_run-status

reconcile_run-IsWellFormed_example :
    (changed : Bool) × (run' : Run) × (reconcile_run facts cancelling_run ≡ ok (changed, run'))
    × IsWellFormed run'
    × (is_interrupted run'.status ≡ false)
reconcile_run-IsWellFormed_example =
    reconcile_run-IsWellFormed facts cancelling_run cancelling_run-IsWellFormed

abbrev waiting_run : Bool × Run
waiting_run = value_or (false, starting_run) (reconcile_run facts starting_run)

waiting_run_lem : reconcile_run facts starting_run ≡ ok (true, waiting_run.1)
unfolding reconcile_run append_event recovery_process_observation parse_observation
    observation_accepts may_terminate parse_recovery recovery_accepts available_recovery_actions
waiting_run_lem = refl

-- The Host has ended between the outcome of a run and its terminal event.
abbrev unrepaired_run : Run
unrepaired_run = record succeeded_run.1 { status = Status.running; events = [] }

abbrev repaired_run : Bool × Run
repaired_run = value_or (false, starting_run) (reconcile_run facts unrepaired_run)

repaired_run_lem : reconcile_run facts unrepaired_run ≡ ok (true, repaired_run.1)
unfolding reconcile_run append_event repair_accepted_terminal_outcome repair_history
    commit_terminal_outcome valid_terminal
repaired_run_lem = refl

reconcile_run_idempotent_example : reconcile_run facts repaired_run.1 ≡ ok (false, repaired_run.1)
reconcile_run_idempotent_example =
    reconcile_run_idempotent facts facts unrepaired_run repaired_run.1 true repaired_run_lem

abbrev running_observation : Observation
running_observation = unconfirmed_observation running_tree 20 (may_terminate running_tree true)

running_observation_lem : recovery_process_observation running_tree 20 true ≡ ok running_observation
unfolding recovery_process_observation parse_observation observation_accepts may_terminate
    unconfirmed_observation
running_observation_lem = refl

abbrev progress_record : ProgressRecord
progress_record = record {
  record_id = "one";
  record_type = "worker";
  parent_record_id = none;
  label = "Worker";
  summary = "";
  record_status = "running";
  timestamp = 4;
  payload = "{}";
}
