-- ===== src/Runs/Reconcile.antt =====
-- `reconcileInterruptedRuns` of src/harness-runs/reconciliation.mjs.
use sandking.Base.{
  ◌+◌, ◌==◌, Bool, true, false, not, ◌&&◌, ◌||◌, List, [], ◌∷◌, Option, none, some, is_some, any,
  Result, ok, err, ◌>>=◌, if◌then◌else◌,
}
use sandking.Runs.Types.{
  Run, Status, EventType, Cancellation, Platform, Evidence, Observation, Failure,
}
use sandking.Runs.Events.{append_event}
use sandking.Runs.State.{persist}
use sandking.Runs.Observation.{
  Inspection, recovery_process_observation, available_recovery_actions, parse_recovery,
}
use sandking.Runs.Interruption.{
  FinalStamp, is_terminal, same_status, repair_accepted_terminal_outcome, finalize_interrupted_run,
}

-- What the Host learns and draws for one run: the platform it runs on, whether it can terminate a
-- confirmed tree, what the inspection of the run's process tree reports, ids and the time.
pub record Facts : Type 0 where
  pub host_platform : Platform
  pub termination_available : Bool
  pub inspection : Inspection
  pub stamp : FinalStamp

abbrev pub is_interrupted : Status → Bool
is_interrupted Status.starting = true
is_interrupted Status.running = true
is_interrupted Status.cancelling = true
is_interrupted _ = false

unfoldable pub with_recovery : Facts → Observation → Run → Result Failure Run
with_recovery f observation run =
    parse_recovery (record {
      previous_status = run.status;
      detected_at = f.stamp.completed_at;
      platform = f.inspection.platform;
      termination_evidence = Evidence.unconfirmed;
      reconciliation_audit_id = f.stamp.reconciliation_audit_id;
      evidence_schema_version = 2;
      initial_process_observation = observation;
      initial_available_actions = available_recovery_actions observation;
      process_observation = observation;
      available_actions = available_recovery_actions observation;
    })
    >>= λ recovery.
        append_event f.stamp.event
          (record run {
            status = Status.recovery_required;
            revision = run.revision + 1;
            recovery = some recovery;
          })
          EventType.harness_run_recovery_required none none

-- The branch without proof of termination.
unfoldable pub require_recovery : Facts → Run → Result Failure Run
unfolding with_recovery
require_recovery f run =
    recovery_process_observation f.inspection f.stamp.completed_at f.termination_available
    >>= λ observation. with_recovery f observation run

-- The termination that the run itself has retained needs no inspection.
abbrev pub retained_confirmation : Option Cancellation → Bool
retained_confirmation none = false
retained_confirmation (some c) = is_some c.termination_confirmed_at

unfoldable pub settle : Facts → Run → Result Failure Run
unfolding require_recovery
settle f run =
    if retained_confirmation run.cancellation
    then finalize_interrupted_run f.stamp f.host_platform run.status run
    else if f.inspection.is_confirmed
    then finalize_interrupted_run f.stamp f.inspection.platform run.status run
    else require_recovery f run

-- The checks on a run that is still active.
unfoldable pub settle_checked : Facts → Run → Result Failure Run
unfolding settle
settle_checked f run =
    if is_some run.cancellation && not (same_status run.status Status.cancelling)
    then err Failure.harness_run_reconciliation_state_invalid
    else if any is_terminal run.events
    then err Failure.harness_run_terminal_history_invalid
    else if not (run.validation.valid_terminal_envelope_count == 0) || run.validation.exactly_one
    then err Failure.harness_run_terminal_outcome_missing
    else settle f run

-- One turn of the loop: whether the run changed, and the run.
unfoldable pub reconcile_run : Facts → Run → Result Failure (Bool × Run)
unfolding settle_checked
reconcile_run f run = elim run.outcome [
  | some o ↦ repair_accepted_terminal_outcome f.stamp.event o run
  | none ↦
      if is_interrupted run.status
      then (settle_checked f run >>= λ run'. ok (true, run'))
      else ok (false, run)
]

unfoldable pub reconcile_all : (Run → Facts) → List Run → Result Failure (Bool × List Run)
reconcile_all facts [] = ok (false, [])
reconcile_all facts (run ∷ runs) = reconcile_run (facts run) run >>= λ (changed, run').
    reconcile_all facts runs >>= λ (others, runs'). ok (changed || others, run' ∷ runs')

-- The runs as they are retained afterwards.
unfoldable pub reconcile_interrupted_runs : (Run → Facts) → List Run → Result Failure (List Run)
unfolding reconcile_all
reconcile_interrupted_runs facts runs =
    reconcile_all facts runs >>= λ (changed, runs'). if changed then persist runs' else ok runs
