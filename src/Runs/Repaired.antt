-- ===== src/Runs/Repaired.antt =====
-- What `reconcileInterruptedRuns` of src/harness-runs/reconciliation.mjs leaves needs no repair.
use sandking.Base.{
  ◌≡◌, ◌∙◌, ◌⊎◌, inl, inr, refl, subst, Bool, true, false, List, [], ◌∷◌, ◌++◌, Option, none, some,
  ok, any, filter, eq_refl, Bool-cases, Option-cases, Result-cases, arith,
}
use sandking.Runs.Types.{
  Run, Event, Status, Outcome, OutcomeStatus, OutcomeCode, Cancellation, Platform,
}
use sandking.Runs.Events.{Stamp, append_event, next_event}
use sandking.Runs.Commit.{status_of, terminal_event_of}
use sandking.Runs.Interruption.{
  is_terminal, is_terminal_type, same_terminal_type, same_status, repair_history, repair_view,
  repair_accepted_terminal_outcome, FinalStamp, interrupted_run, interrupted_outcome,
  finalize_cancelled, finalize_failed, finalize_by, finalize_interrupted_run,
}
use sandking.Runs.Reconcile.{
  Facts, is_interrupted, retained_confirmation, with_recovery, require_recovery, settle,
  settle_checked, reconcile_run,
}

-- A run whose outcome, history and view agree.
record IsRepaired (o : Outcome) (run : Run) : Type 0 where
  retained : run.outcome ≡ some o
  history :
      (stamp : Stamp) → repair_history stamp o (filter is_terminal run.events) run ≡ ok (false, run)
  view : repair_view o (false, run) ≡ (false, run)

IsRepaired-reconcile_run :
    (f : Facts) (o : Outcome) (run : Run) → IsRepaired o run → reconcile_run f run ≡ ok (false, run)
unfolding reconcile_run repair_accepted_terminal_outcome
IsRepaired-reconcile_run f o run h = ground (arith, h.retained, h.history f.stamp.event, h.view)

filter-append_last :
    (es : List Event) (e : Event)
    → is_terminal e ≡ true
    → filter is_terminal (es ++ e ∷ []) ≡ filter is_terminal es ++ e ∷ []
filter-append_last [] e h = ground arith
filter-append_last (x ∷ es) e h = ground (arith, filter-append_last es e h)

filter-any : (es : List Event) → any is_terminal es ≡ false → filter is_terminal es ≡ []
filter-any [] h = refl
filter-any (e ∷ es) h = ground (arith, filter-any es)

terminal_event_of-is_terminal_type :
    (s : OutcomeStatus) → is_terminal_type (terminal_event_of s) ≡ true
terminal_event_of-is_terminal_type OutcomeStatus.succeeded = refl
terminal_event_of-is_terminal_type OutcomeStatus.failed = refl
terminal_event_of-is_terminal_type OutcomeStatus.cancelled = refl

same_terminal_type_refl :
    (s : OutcomeStatus) → same_terminal_type (terminal_event_of s) (terminal_event_of s) ≡ true
same_terminal_type_refl OutcomeStatus.succeeded = refl
same_terminal_type_refl OutcomeStatus.failed = refl
same_terminal_type_refl OutcomeStatus.cancelled = refl

-- The history with the terminal event of the outcome behind it.
history_ended :
    (stamp stamp' : Stamp) (o : Outcome) (run r : Run) (es : List Event)
    → filter is_terminal es ≡ []
    → repair_history stamp' o
        (filter is_terminal (
          es
          ++ next_event stamp run (terminal_event_of o.outcome_status) none (some o.outcome_id)
            ∷ []))
        r
      ≡ ok (false, r)
unfolding repair_history next_event
history_ended stamp stamp' o run r es clean = ground (
  arith,
  filter-append_last es
      (next_event stamp run (terminal_event_of o.outcome_status) none (some o.outcome_id))
      (terminal_event_of-is_terminal_type o.outcome_status),
  clean,
  same_terminal_type_refl o.outcome_status,
  eq_refl o.outcome_id,
)

repair_history_ends :
    (stamp stamp' : Stamp) (o : Outcome) (run run' r : Run) (repaired : Bool) (es : List Event)
    → filter is_terminal run.events ≡ es
    → repair_history stamp o es run ≡ ok (repaired, run')
    → (run'.outcome ≡ run.outcome)
      × (repair_history stamp' o (filter is_terminal run'.events) r ≡ ok (false, r))
unfolding repair_history append_event
repair_history_ends stamp stamp' o run run' r repaired [] here h =
    (ground arith, ground (arith, history_ended stamp stamp' o run r run.events here))
repair_history_ends stamp stamp' o run run' r repaired (e ∷ []) here h =
    (ground arith, ground arith)
repair_history_ends stamp stamp' o run run' r repaired (e ∷ e' ∷ es) here h =
    (ground arith, ground arith)

same_status_refl : (s : Status) → same_status s s ≡ true
same_status_refl Status.starting = refl
same_status_refl Status.running = refl
same_status_refl Status.cancelling = refl
same_status_refl Status.recovery_required = refl
same_status_refl Status.succeeded = refl
same_status_refl Status.failed = refl
same_status_refl Status.cancelled = refl

repair_view_settles :
    (o : Outcome) (repaired : Bool) (run : Run)
    → repair_view o (false, (repair_view o (repaired, run)).1)
      ≡ (false, (repair_view o (repaired, run)).1)
unfolding repair_view
repair_view_settles o repaired run = ground (arith, same_status_refl (status_of o.outcome_status))

repair_accepted_terminal_outcome-IsRepaired :
    (stamp : Stamp) (o : Outcome) (run run' : Run) (changed : Bool)
    → run.outcome ≡ some o
    → repair_accepted_terminal_outcome stamp o run ≡ ok (changed, run')
    → IsRepaired o run'
unfolding repair_accepted_terminal_outcome
repair_accepted_terminal_outcome-IsRepaired stamp o run run' changed e h =
    elim (Result-cases (repair_history stamp o (filter is_terminal run.events) run)) [
      | inr (x, failed) ↦ absurd (ground arith)
      | inl ((repaired, between), made) ↦
          let last : (repair_view o (repaired, between)).1 ≡ run' = ground arith in
          subst (IsRepaired o) last (repaired-IsRepaired repaired between made)
    ]
  where
    repaired-IsRepaired :
        (repaired : Bool) (between : Run)
        → repair_history stamp o (filter is_terminal run.events) run ≡ ok (repaired, between)
        → IsRepaired o (repair_view o (repaired, between)).1
    repaired-IsRepaired repaired between made = record {
      retained =
          unfold repair_view in
          (repair_history_ends stamp stamp o run between between repaired _ refl made).0 ∙ e;
      history = λ stamp'.
          unfold repair_view in
          (repair_history_ends stamp stamp' o run between (repair_view o (repaired, between)).1
            repaired _ refl made).1;
      view = repair_view_settles o repaired between;
    }

finalize_cancelled-IsRepaired :
    (stamp : FinalStamp) (platform : Platform) (c : Cancellation) (run run' : Run)
    → filter is_terminal run.events ≡ []
    → finalize_cancelled stamp platform c run ≡ ok run'
    → (o : Outcome) × IsRepaired o run'
unfolding finalize_cancelled append_event interrupted_run interrupted_outcome next_event
finalize_cancelled-IsRepaired stamp platform c run run' clean h =
    let o : Outcome =
      interrupted_outcome stamp run OutcomeStatus.cancelled OutcomeCode.conformance_run_cancelled
        none in
    (
      o,
      record {
        retained = ground arith;
        history =
            λ stamp'. ground (arith, history_ended stamp.event stamp' o run run' run.events clean);
        view = unfold repair_view in ground arith;
      },
    )

finalize_failed-IsRepaired :
    (stamp : FinalStamp) (previous : Status) (run run' : Run)
    → filter is_terminal run.events ≡ []
    → finalize_failed stamp previous run ≡ ok run'
    → (o : Outcome) × IsRepaired o run'
unfolding finalize_failed append_event interrupted_run interrupted_outcome next_event
finalize_failed-IsRepaired stamp previous run run' clean h =
    let o : Outcome =
      interrupted_outcome stamp run OutcomeStatus.failed OutcomeCode.host_daemon_interrupted
        (some previous) in
    (
      o,
      record {
        retained = ground arith;
        history =
            λ stamp'. ground (arith, history_ended stamp.event stamp' o run run' run.events clean);
        view = unfold repair_view in ground arith;
      },
    )

finalize_interrupted_run-IsRepaired :
    (stamp : FinalStamp) (platform : Platform) (previous : Status) (run run' : Run)
    → run.outcome ≡ none
    → filter is_terminal run.events ≡ []
    → finalize_interrupted_run stamp platform previous run ≡ ok run'
    → (o : Outcome) × IsRepaired o run'
unfolding finalize_interrupted_run
finalize_interrupted_run-IsRepaired stamp platform previous run run' open_ clean h =
    by_cancellation previous run.cancellation (ground arith)
  where
    by_cancellation :
        (s : Status) (c : Option Cancellation)
        → finalize_by stamp platform s c run ≡ ok run'
        → (o : Outcome) × IsRepaired o run'
    by_cancellation Status.cancelling (some c) h' =
        finalize_cancelled-IsRepaired stamp platform c run run' clean (unfold finalize_by in h')
    by_cancellation s c h' =
        finalize_failed-IsRepaired stamp s run run' clean (unfold finalize_by in h')

-- A run that is left without an outcome waits for recovery.
require_recovery-waits :
    (f : Facts) (run run' : Run)
    → run.outcome ≡ none
    → require_recovery f run ≡ ok run'
    → (run'.outcome ≡ none) × (is_interrupted run'.status ≡ false)
unfolding require_recovery with_recovery append_event
require_recovery-waits f run run' open_ h = (ground arith, ground arith)

-- What one reconciliation leaves: an outcome that needs no repair, or a run that is not interrupted.
abbrev Rests : Run → Type 0
Rests run =
    ((o : Outcome) × IsRepaired o run)
    ⊎ ((run.outcome ≡ none) × (is_interrupted run.status ≡ false))

settle-Rests :
    (f : Facts) (run run' : Run)
    → run.outcome ≡ none
    → any is_terminal run.events ≡ false
    → settle f run ≡ ok run'
    → Rests run'
unfolding settle
settle-Rests f run run' open_ clean h =
    let none_yet = filter-any run.events clean in
    elim (Bool-cases (retained_confirmation run.cancellation)) [
      | inl confirmed ↦ inl (
          finalize_interrupted_run-IsRepaired f.stamp f.host_platform run.status run run' open_
            none_yet (ground arith))
      | inr unconfirmed ↦ elim (Bool-cases f.inspection.is_confirmed) [
        | inl proved ↦ inl (
            finalize_interrupted_run-IsRepaired f.stamp f.inspection.platform run.status run run'
              open_ none_yet (ground arith))
        | inr unproved ↦ inr (require_recovery-waits f run run' open_ (ground arith))
      ]
    ]

reconcile_run-Rests :
    (f : Facts) (run run' : Run) (changed : Bool)
    → reconcile_run f run ≡ ok (changed, run')
    → Rests run'
unfolding reconcile_run settle_checked
reconcile_run-Rests f run run' changed h = elim (Option-cases run.outcome) [
  | inr (o, e) ↦ inl (
    o,
    repair_accepted_terminal_outcome-IsRepaired f.stamp.event o run run' changed e (ground arith),
  )
  | inl open_ ↦ elim (Bool-cases (is_interrupted run.status)) [
    | inr settled ↦ subst Rests {x = run} (ground arith) (inr (open_, settled))
    | inl active ↦ settle-Rests f run run' open_ (ground arith) (ground arith)
  ]
]

-- A second reconciliation of a run, whatever it learns, changes nothing that a first one has left, also
-- where the first one repaired the terminal history of its outcome.
pub reconcile_run_idempotent :
    (f f' : Facts) (run run' : Run) (changed : Bool)
    → reconcile_run f run ≡ ok (changed, run')
    → reconcile_run f' run' ≡ ok (false, run')
reconcile_run_idempotent f f' run run' changed h = elim (reconcile_run-Rests f run run' changed h) [
  | inl (o, repaired) ↦ IsRepaired-reconcile_run f' o run' repaired
  | inr (open_, settled) ↦ unfold reconcile_run in ground arith
]
