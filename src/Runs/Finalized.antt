-- ===== src/Runs/Finalized.antt =====
-- What finalizing a recovery does to a run: `completeRecoveryMutation` of
-- src/harness-runs/operations/recover.mjs with `finalizeInterruptedRun` of src/harness-runs/reconciliation.mjs.
use sandking.Base.{
  ◌≡◌, ◌⊎◌, inl, inr, true, none, some, is_some, ok, arith, eq_refl, if◌then◌else◌, Option-cases,
}
use sandking.Runs.Types.{
  Run, EventType, Status, OutcomeStatus, OutcomeCode, Action, Recovery, Cancellation, Platform,
}
use sandking.Runs.Events.{append_event}
use sandking.Runs.Interruption.{
  FinalStamp, finalize_cancelled, finalize_failed, finalize_by, finalize_interrupted_run,
  interrupted_run, interrupted_outcome,
}
use sandking.Runs.History.{IsWellFormed, append_event-IsWellFormed, previous_agrees}
use sandking.Runs.Intent.{RecoverFacts, apply_action, act}
use sandking.Runs.Lifecycle.{Keeps}

-- An interrupted run, or one that waits for recovery, ends with its one outcome.
pub finalize_cancelled-Keeps :
    (stamp : FinalStamp) (platform : Platform) (c : Cancellation) (run : Run)
    → IsWellFormed run
    → run.outcome ≡ none
    → run.cancellation ≡ some c
    → Keeps (finalize_cancelled stamp platform c run)
unfolding finalize_cancelled interrupted_run interrupted_outcome
finalize_cancelled-Keeps stamp platform c run w open_ e =
    append_event-IsWellFormed stamp.event none (some stamp.outcome_id)
      (ground (arith, eq_refl stamp.outcome_id))

pub finalize_failed-Keeps :
    (stamp : FinalStamp) (previous : Status) (run : Run)
    → IsWellFormed run
    → run.outcome ≡ none
    → run.cancellation ≡ none
    → (previous ≡ Status.starting) ⊎ (previous ≡ Status.running)
    → Keeps (finalize_failed stamp previous run)
unfolding finalize_failed interrupted_run interrupted_outcome
finalize_failed-Keeps stamp previous run w open_ free early =
    let (run', made, well) =
      append_event-IsWellFormed {kind = EventType.harness_run_failed}
        {run = record (interrupted_run stamp run) {
          status = Status.failed;
          outcome = some (
              interrupted_outcome stamp run OutcomeStatus.failed OutcomeCode.host_daemon_interrupted
                (some previous));
        }}
        stamp.event none (some stamp.outcome_id) (ground (arith, eq_refl stamp.outcome_id)) in
    (run', ground (arith, made), well)

finalized-status :
    (f : RecoverFacts) (recovery : Recovery) (run run' : Run)
    → apply_action f Action.finalize none recovery run ≡ ok run'
    → run.outcome ≡ none
    → previous_agrees (some recovery) run.cancellation ≡ true
    → (run'.status ≡ (if is_some run.cancellation then Status.cancelled else Status.failed))
      × (run'.recovery ≡ none)
unfolding apply_action finalize_interrupted_run finalize_by finalize_cancelled finalize_failed
    interrupted_run append_event
finalized-status f recovery run run' h open_ before = ground arith

early_status :
    (recovery : Recovery) (run : Run)
    → IsWellFormed run
    → run.recovery ≡ some recovery
    → run.cancellation ≡ none
    → (recovery.previous_status ≡ Status.starting) ⊎ (recovery.previous_status ≡ Status.running)
early_status recovery run w e free = ground (arith, w.recovery_previous)

-- Finalizing the recovery of a well-formed run never fails: the run ends as cancelled if its
-- cancellation was accepted, and as failed otherwise, and no recovery is left.
pub finalize_recovery :
    (f : RecoverFacts) (recovery : Recovery) (run : Run)
    → IsWellFormed run
    → run.recovery ≡ some recovery
    → (run' : Run) × (apply_action f Action.finalize (act f Action.finalize).0 recovery run
        ≡ ok run')
      × IsWellFormed run'
      × (run'.status ≡ (if is_some run.cancellation then Status.cancelled else Status.failed))
      × (run'.recovery ≡ none)
unfolding apply_action finalize_interrupted_run finalize_by act
finalize_recovery f recovery run w e =
    let open_ : run.outcome ≡ none = ground arith in
    elim (Option-cases run.cancellation) [
      | inl free ↦
          let early = early_status recovery run w e free in
          let (run', made, well) =
            finalize_failed-Keeps f.stamp recovery.previous_status run w open_ free early in
          let done : apply_action f Action.finalize none recovery run ≡ ok run' =
            ground (arith, made) in
          let (status, gone) = finalized-status f recovery run run' done open_ (ground arith) in
          (run', done, well, status, gone)
      | inr (c, accepted) ↦
          let (run', made, well) =
            finalize_cancelled-Keeps f.stamp recovery.platform c run w open_ accepted in
          let done : apply_action f Action.finalize none recovery run ≡ ok run' =
            ground (arith, made) in
          let (status, gone) = finalized-status f recovery run run' done open_ (ground arith) in
          (run', done, well, status, gone)
    ]
