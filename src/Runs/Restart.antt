-- ===== src/Runs/Restart.antt =====
-- What the restart of the Host makes of a run: `reconcileInterruptedRuns` of
-- src/harness-runs/reconciliation.mjs on well-formed runs.
use sandking.Base.{
  ◌+◌, ◌≡◌, inl, inr, refl, Bool, true, false, List, [], ◌∷◌, map, none, some, ok, arith, any,
  filter, ◌∙◌, Bool-cases, Option-cases,
}
use sandking.Runs.Types.{
  Run, Event, EventType, Status, Outcome, Recovery, Platform, Evidence, Observation,
}
use sandking.Runs.Events.{Stamp, append_event}
use sandking.Runs.Interruption.{
  is_terminal, repair_accepted_terminal_outcome, repair_history, repair_view, FinalStamp,
  finalize_cancelled, finalize_failed, finalize_by, finalize_interrupted_run,
}
use sandking.Runs.Observation.{
  available_recovery_actions, parse_recovery, recovery_accepts, is_confirmed_evidence,
}
use sandking.Runs.Observed.{recovery_process_observation_lem}
use sandking.Runs.Reconcile.{
  Facts, is_interrupted, with_recovery, require_recovery, retained_confirmation, settle,
  settle_checked, reconcile_run,
}
use sandking.Runs.History.{IsWellFormed, terminals, terminals_agree, append_event-IsWellFormed}
use sandking.Runs.Lifecycle.{Keeps}
use sandking.Runs.Finalized.{finalize_cancelled-Keeps, finalize_failed-Keeps}

terminals-filter :
    (es : List Event)
    → terminals es ≡ map (λ e. (e.event_type, e.outcome_reference)) (filter is_terminal es)
unfolding terminals
terminals-filter [] = refl
terminals-filter (e ∷ es) = ground (arith, terminals-filter es)

terminals-any : (es : List Event) → terminals es ≡ [] → any is_terminal es ≡ false
unfolding terminals
terminals-any [] h = refl
terminals-any (e ∷ es) h = ground (arith, terminals-any es)

repair_history_agrees :
    (stamp : Stamp) (o : Outcome) (run : Run) (es : List Event)
    → terminals_agree (some o) (map (λ e. (e.event_type, e.outcome_reference)) es) ≡ true
    → repair_history stamp o es run ≡ ok (false, run)
unfolding repair_history
repair_history_agrees stamp o run [] h = cc
repair_history_agrees stamp o run (e ∷ []) h = ground arith
repair_history_agrees stamp o run (e ∷ e' ∷ es) h = cc

repair_view_agrees :
    (o : Outcome) (run : Run)
    → IsWellFormed run
    → run.outcome ≡ some o
    → repair_view o (false, run) ≡ (false, run)
unfolding repair_view
repair_view_agrees o run w e = ground (arith, w.status_settled, w.completion_settled)

agree :
    (run : Run) (o : Outcome)
    → IsWellFormed run
    → run.outcome ≡ some o
    → terminals_agree
        (some o)
        (map (λ e. (e.event_type, e.outcome_reference)) (filter is_terminal run.events))
      ≡ true
agree run o w e = cc (w.terminal_agrees, e, terminals-filter run.events)

repair_accepted_terminal_outcome_agrees :
    (stamp : Stamp) (o : Outcome) (run : Run)
    → IsWellFormed run
    → run.outcome ≡ some o
    → repair_accepted_terminal_outcome stamp o run ≡ ok (false, run)
unfolding repair_accepted_terminal_outcome
repair_accepted_terminal_outcome_agrees stamp o run w e =
    rw
      (
        repair_history_agrees stamp o run (filter is_terminal run.events) (agree run o w e),
        repair_view_agrees o run w e,
      )
      refl

-- A well-formed run that is not interrupted stays as it is: its retained outcome needs no repair.
pub reconcile_run_settled :
    (f : Facts) (run : Run)
    → IsWellFormed run
    → is_interrupted run.status ≡ false
    → reconcile_run f run ≡ ok (false, run)
unfolding reconcile_run
reconcile_run_settled f run w settled = elim (Option-cases run.outcome) [
  | inl open_ ↦ ground arith
  | inr (o, e) ↦ ground (arith, repair_accepted_terminal_outcome_agrees f.stamp.event o run w e)
]

-- An unconfirmed observation makes a recovery that the schema accepts.
with_recovery-Keeps :
    (f : Facts) (o : Observation) (run : Run)
    → IsWellFormed run
    → run.outcome ≡ none
    → is_interrupted run.status ≡ true
    → is_confirmed_evidence o.termination_evidence ≡ false
    → o.platform ≡ f.inspection.platform
    → Keeps (with_recovery f o run)
unfolding with_recovery parse_recovery recovery_accepts available_recovery_actions
with_recovery-Keeps f o run w open_ active unproved same =
    let recovery : Recovery = record {
      previous_status = run.status;
      detected_at = f.stamp.completed_at;
      platform = f.inspection.platform;
      termination_evidence = Evidence.unconfirmed;
      reconciliation_audit_id = f.stamp.reconciliation_audit_id;
      evidence_schema_version = 2;
      initial_process_observation = o;
      initial_available_actions = available_recovery_actions o;
      process_observation = o;
      available_actions = available_recovery_actions o;
    } in
    let (run', made, well) =
      append_event-IsWellFormed {kind = EventType.harness_run_recovery_required}
        {run = record run {
          status = Status.recovery_required;
          revision = run.revision + 1;
          recovery = some recovery;
        }}
        f.stamp.event none none (ground arith) in
    (run', ground (arith, made), well)

require_recovery-Keeps :
    (f : Facts) (run : Run)
    → IsWellFormed run
    → run.outcome ≡ none
    → is_interrupted run.status ≡ true
    → f.inspection.is_confirmed ≡ false
    → Keeps (require_recovery f run)
unfolding require_recovery
require_recovery-Keeps f run w open_ active unproved =
    let (o, seen, evidence, safe, same) =
      recovery_process_observation_lem f.inspection f.stamp.completed_at f.termination_available in
    let (run', made, well) =
      with_recovery-Keeps f o run w open_ active (evidence ∙ unproved) same in
    (run', rw (seen, made) refl, well)

finalize-Keeps :
    (stamp : FinalStamp) (platform : Platform) (run : Run)
    → IsWellFormed run
    → run.outcome ≡ none
    → is_interrupted run.status ≡ true
    → Keeps (finalize_interrupted_run stamp platform run.status run)
unfolding finalize_interrupted_run finalize_by
finalize-Keeps stamp platform run w open_ active = elim (Option-cases run.cancellation) [
  | inl free ↦
      let (run', made, well) =
        finalize_failed-Keeps stamp run.status run w open_ free (ground arith) in
      (run', ground (arith, made), well)
  | inr (c, e) ↦
      let (run', made, well) = finalize_cancelled-Keeps stamp platform c run w open_ e in
      (run', ground (arith, made), well)
]

no_terminal :
    (run : Run) → IsWellFormed run → run.outcome ≡ none → any is_terminal run.events ≡ false
no_terminal run w open_ = ground (arith, terminals-any run.events)

settle-status :
    (f : Facts) (run run' : Run)
    → settle f run ≡ ok run'
    → run.outcome ≡ none
    → is_interrupted run'.status ≡ false
unfolding settle require_recovery with_recovery parse_recovery finalize_interrupted_run finalize_by
    finalize_cancelled finalize_failed append_event
settle-status f run run' h open_ = ground arith

settle-Keeps :
    (f : Facts) (run : Run)
    → IsWellFormed run
    → run.outcome ≡ none
    → is_interrupted run.status ≡ true
    → Keeps (settle f run)
unfolding settle
settle-Keeps f run w open_ active = elim (Bool-cases (retained_confirmation run.cancellation)) [
  | inr unconfirmed ↦ elim (Bool-cases f.inspection.is_confirmed) [
    | inr unproved ↦
        let (run', made, well) = require_recovery-Keeps f run w open_ active unproved in
        (run', ground (arith, made), well)
    | inl proved ↦
        let (run', made, well) = finalize-Keeps f.stamp f.inspection.platform run w open_ active in
        (run', ground (arith, made), well)
  ]
  | inl confirmed ↦
      let (run', made, well) = finalize-Keeps f.stamp f.host_platform run w open_ active in
      (run', ground (arith, made), well)
]

settle_checked-settle :
    (f : Facts) (run : Run)
    → IsWellFormed run
    → run.outcome ≡ none
    → is_interrupted run.status ≡ true
    → settle_checked f run ≡ settle f run
unfolding settle_checked
settle_checked-settle f run w open_ active = ground (arith, no_terminal run w open_)

-- Reconciling a well-formed run never fails. It keeps the run well formed, and afterwards the run is
-- terminal or waits for recovery.
pub reconcile_run-IsWellFormed :
    (f : Facts) (run : Run)
    → IsWellFormed run
    → (changed : Bool) × (run' : Run) × (reconcile_run f run ≡ ok (changed, run'))
      × IsWellFormed run'
      × (is_interrupted run'.status ≡ false)
unfolding reconcile_run
reconcile_run-IsWellFormed f run w = elim (Bool-cases (is_interrupted run.status)) [
  | inr settled ↦ (false, run, reconcile_run_settled f run w settled, w, settled)
  | inl active ↦
      let open_ : run.outcome ≡ none = ground arith in
      let (run', made, well) = settle-Keeps f run w open_ active in
      (
        true,
        run',
        ground (arith, made, settle_checked-settle f run w open_ active),
        well,
        settle-status f run run' made open_,
      )
]
