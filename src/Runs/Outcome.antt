-- ===== src/Runs/Outcome.antt =====
-- What `commitTerminalOutcome` of src/harness-runs/run-supervision.mjs makes of a run.
use sandking.Base.{
  ◌≡◌, inl, inr, refl, Bool, true, false, [], ◌∷◌, Option, none, some, is_none, Result, ok, arith,
  Bool-cases, Option-cases, eq_refl,
}
use sandking.Runs.Types.{Run, Status, OutcomeStatus, Cancellation, Failure, TerminalEnvelope}
use sandking.Runs.Commit.{
  CommitStamp, Supervision, Termination, Verdict, commit_verdict, Commit, already_committed,
  committed, unconfirmed_termination, cancellation_requested, Arbitration, by_termination,
  ask_supervisor, arbitrate, fill_times, commit_cancelled, cancelled_verdict, adapter_verdict,
  commit_terminal_outcome, valid_terminal,
}
use sandking.Runs.Events.{append_event}
use sandking.Runs.History.{IsWellFormed, append_event-IsWellFormed}
use sandking.Runs.Lifecycle.{Keeps}
use sandking.Runs.Reconcile.{retained_confirmation}

-- A run that this Host supervises waits for no recovery.
commit_verdict-IsWellFormed :
    (stamp : CommitStamp) (s : Supervision) (v : Verdict) (run : Run)
    → IsWellFormed run
    → run.outcome ≡ none
    → run.recovery ≡ none
    → Keeps (commit_verdict stamp s v run)
unfolding commit_verdict
commit_verdict-IsWellFormed stamp s v run w open_ here =
    append_event-IsWellFormed stamp.event none (some stamp.outcome_id) (elim v.verdict_status [
      | OutcomeStatus.succeeded ↦ ground (arith, eq_refl stamp.outcome_id)
      | _ ↦ ground (arith, eq_refl stamp.outcome_id)
    ])

abbrev pub Commits : Result Failure (Commit × Run) → Type 0
Commits result = (commit : Commit) × (run : Run) × (result ≡ ok (commit, run)) × IsWellFormed run

fill_times-IsWellFormed :
    (t : Termination) (c : Cancellation) (run : Run)
    → IsWellFormed run
    → run.cancellation ≡ some c
    → IsWellFormed (record run { cancellation = some (fill_times t c) })
fill_times-IsWellFormed t c run w e = ground arith

commit_cancelled-IsWellFormed :
    (stamp : CommitStamp) (s : Supervision) (a : Arbitration) (c : Cancellation) (run : Run)
    → IsWellFormed run
    → run.outcome ≡ none
    → run.recovery ≡ none
    → run.cancellation ≡ some c
    → Commits (commit_cancelled stamp s a c run)
unfolding commit_cancelled
commit_cancelled-IsWellFormed stamp s (ask_supervisor deadline) c run w open_ here e =
    (cancellation_requested deadline, run, refl, w)
commit_cancelled-IsWellFormed stamp s (by_termination t) c run w open_ here e =
    let filled : Run = record run { cancellation = some (fill_times t c) } in
    let w' : IsWellFormed filled = fill_times-IsWellFormed t c run w e in
    let verdict = cancelled_verdict run.identity.adapter_id s t stamp.committed_at in
    let (done, made, well) = commit_verdict-IsWellFormed stamp s verdict filled w' open_ here in
    elim (Bool-cases (is_none (fill_times t c).termination_confirmed_at)) [
      | inl unproved ↦ rw unproved (unconfirmed_termination, filled, refl, w')
      | inr proved ↦ rw (proved, made) (committed, done, refl, well)
    ]

-- The update that commits the terminal outcome of a well-formed run without a recovery returns, and keeps
-- the run well formed. The lookup, the check and the write around it are not part of it.
pub commit_terminal_outcome-IsWellFormed :
    (stamp : CommitStamp) (s : Supervision) (t : Option Termination) (supervised : Bool) (run : Run)
    → IsWellFormed run
    → run.recovery ≡ none
    → Commits (commit_terminal_outcome stamp s t supervised run)
unfolding commit_terminal_outcome
commit_terminal_outcome-IsWellFormed stamp s t supervised run w here =
    elim (Option-cases run.outcome) [
      | inr (o, e) ↦ (already_committed, run, ground arith, w)
      | inl open_ ↦ elim (Option-cases run.cancellation) [
        | inl free ↦
            let verdict = adapter_verdict run.identity.adapter_id s stamp.completed_at in
            let (done, made, well) = commit_verdict-IsWellFormed stamp s verdict run w open_ here in
            (committed, done, ground (arith, made), well)
        | inr (c, e) ↦
            let (commit, done, made, well) =
              commit_cancelled-IsWellFormed stamp s (arbitrate stamp s t supervised c) c run w open_
                here e in
            (commit, done, ground (arith, made), well)
      ]
    ]

-- An accepted cancellation ends as one: no commit makes it a success or a failure, and none ends it
-- before its termination is confirmed.
pub commit_terminal_outcome_cancelled :
    (stamp : CommitStamp) (s : Supervision) (t : Option Termination) (supervised : Bool)
    (run run' : Run) (c : Cancellation)
    → run.cancellation ≡ some c
    → commit_terminal_outcome stamp s t supervised run ≡ ok (committed, run')
    → (run'.status ≡ Status.cancelled) × (retained_confirmation run'.cancellation ≡ true)
unfolding commit_terminal_outcome append_event
commit_terminal_outcome_cancelled stamp s t supervised run run' c e h = ground arith

-- A run succeeds only by exactly one envelope that says so, over a valid protocol, with no
-- cancellation accepted before.
pub commit_terminal_outcome_succeeded :
    (stamp : CommitStamp) (s : Supervision) (t : Option Termination) (supervised : Bool)
    (run run' : Run)
    → commit_terminal_outcome stamp s t supervised run ≡ ok (committed, run')
    → run'.status ≡ Status.succeeded
    → (e : TerminalEnvelope) × (s.terminal_envelopes ≡ e ∷ [])
      × (e.terminal_status ≡ OutcomeStatus.succeeded)
      × (s.protocol_invalid ≡ false)
      × (run.cancellation ≡ none)
unfolding commit_terminal_outcome valid_terminal append_event
commit_terminal_outcome_succeeded stamp s t supervised run run' h done = ground arith
