-- ===== src/Runs/Recovering.antt =====
-- What `recover` of src/harness-runs/operations/recover.mjs admits, what it does to the run, and that it
-- does it once.
use sandking.Base.{
  ◌≡◌, ◌≢◌, inl, inr, refl, true, false, String, str_eq, List, [], ◌∷◌, ◌++◌, Option, none, some,
  ok, arith, find, any, eq_refl, Option-cases, Result-cases,
}
use sandking.Runs.Types.{Run, Status, Action, Recovery}
use sandking.Runs.State.{find_run, persist}
use sandking.Runs.Observation.{same_action}
use sandking.Runs.Requests.{request_idempotency_key_hash}
use sandking.Runs.Manager.{
  Manager, RecoveryMutation, RecoverFailure, RecoverResult, RecoverResponse, recover_failure,
  recover_result, Hashing,
}
use sandking.Runs.Intent.{
  RecoverFacts, recoverable, complete_recovery_mutation, settle_mutation, perform, result_response,
  answer_mutation, apply_action, apply_inspection, act,
}
use sandking.Runs.Recover.{
  RecoverRequest, readdressed, recover, recover_keyed, decide_new, pursue, refuse, retain, intent,
  replay, retained_recovery_mutation, admit_recovery, admit_action, action_is_available,
  recovery_fingerprint_of,
}

-- An admitted action is one that the retained recovery of the run offers. Terminating the process
-- tree is admitted only where this Host can and the last observation says that it is safe.
pub admit_recovery_ok :
    (f : RecoverFacts) (request : RecoverRequest) (hash : Option String) (runs : List Run)
    (action : Action)
    → admit_recovery f request hash runs ≡ ok action
    → (run : Run) × (recovery : Recovery) × (find_run request.harness_run_id runs ≡ some run)
      × (run.recovery ≡ some recovery)
      × (run.status ≡ Status.recovery_required)
      × (any (same_action action) recovery.available_actions ≡ true)
      × (action ≡ Action.terminate_confirmed_tree
          → (f.termination_available ≡ true)
            × (recovery.process_observation.safe_to_terminate ≡ true))
unfolding admit_recovery admit_action action_is_available
admit_recovery_ok f request hash runs action h =
    elim (Option-cases (find_run request.harness_run_id runs)) [
      | inl missing ↦ absurd (ground arith)
      | inr (run, found) ↦ elim (Option-cases run.recovery) [
        | inl absent ↦ absurd (ground arith)
        | inr (recovery, e) ↦
            (run, recovery, found, e, ground arith, ground arith, λ t. ground arith)
      ]
    ]

-- A failure, whatever its code, leaves every run as it was.
pub recover_failed :
    (h : Hashing) (f : RecoverFacts) (request : RecoverRequest) (m m' : Manager)
    (failure : RecoverFailure)
    → recover h f request m ≡ ok (m', recover_failure failure)
    → m'.runs ≡ m.runs
unfolding recover recover_keyed decide_new pursue refuse retain replay readdressed persist
    complete_recovery_mutation perform result_response settle_mutation
recover_failed h f request m m' failure answered = ground arith

-- Looking again and terminating never end the run: only finalizing gives it an outcome.
pub apply_action_open :
    (f : RecoverFacts) (action : Action) (recovery : Recovery) (run run' : Run)
    → action ≢ Action.finalize
    → apply_action f action (act f action).0 recovery run ≡ ok run'
    → (run'.outcome ≡ run.outcome) × (run'.status ≡ run.status) × (run'.events ≡ run.events)
unfolding apply_action apply_inspection act
apply_action_open f action recovery run run' other h = ground arith

answer_mutation-append :
    (key : String) (response : RecoverResponse) (ms : List RecoveryMutation)
    (mutation : RecoveryMutation)
    → find (λ m. str_eq m.idempotency_key_hash key) ms ≡ none
    → mutation.idempotency_key_hash ≡ key
    → find
        (λ m. str_eq m.idempotency_key_hash key)
        (answer_mutation key response (ms ++ mutation ∷ []))
      ≡ some (record mutation { response = some response })
unfolding answer_mutation
answer_mutation-append key response [] mutation h same = ground (arith, eq_refl key)
answer_mutation-append key response (m ∷ ms) mutation h same =
    ground (arith, answer_mutation-append key response ms mutation)

-- The intent behind a result, with its response, is what the key has retained.
recover-retained :
    (h : Hashing) (f : RecoverFacts) (request : RecoverRequest) (m m' : Manager) (r : RecoverResult)
    (key : String)
    → request_idempotency_key_hash h.digest request.attribution ≡ some key
    → retained_recovery_mutation m.recovery_mutations (some key) ≡ none
    → recover h f request m ≡ ok (m', recover_result r)
    → (entry : RecoveryMutation) × (retained : RecoverResponse) × (retained_recovery_mutation
          m'.recovery_mutations
          (some key)
        ≡ some entry)
      × (entry.request_fingerprint ≡ recovery_fingerprint_of h request)
      × (entry.response ≡ some retained)
      × (readdressed request.attribution.request_id false retained ≡ recover_result r)
unfolding recover recover_keyed decide_new pursue refuse retain readdressed persist intent
    complete_recovery_mutation perform settle_mutation retained_recovery_mutation admit_recovery
    admit_action
recover-retained h f request m m' r key keyed fresh answered = elim (Option-cases request.action) [
  | inl absent ↦ absurd (ground arith)
  | inr (action, e) ↦
      let mutation = intent f request key (recovery_fingerprint_of h request) action in
      elim (Option-cases (recoverable (find_run request.harness_run_id m.runs))) [
        | inl closed ↦ absurd (ground arith)
        | inr ((run, recovery), target) ↦
            elim (Result-cases (apply_action f action (act f action).0 recovery run)) [
              | inr (failure, failed) ↦ absurd (ground arith)
              | inl (run', made) ↦
                  let retained = result_response mutation (act f action).1 run' in
                  (
                    record mutation { response = some retained },
                    retained,
                    ground
                        (arith, answer_mutation-append key retained m.recovery_mutations mutation),
                    refl,
                    refl,
                    ground arith,
                  )
            ]
      ]
]

-- A recovery is carried out once: behind its result, the same request, at any time and whatever the
-- Host sees then, gets the retained result, and leaves the runs as they are.
pub recover-recover :
    (h : Hashing) (f f' : RecoverFacts) (request : RecoverRequest) (m m' : Manager)
    (r : RecoverResult) (key : String)
    → request_idempotency_key_hash h.digest request.attribution ≡ some key
    → retained_recovery_mutation m.recovery_mutations (some key) ≡ none
    → recover h f request m ≡ ok (m', recover_result r)
    → recover h f' request m' ≡ ok (m', recover_result (record r { idempotent_replay = true }))
unfolding recover recover_keyed replay readdressed
recover-recover h f f' request m m' r key keyed fresh answered =
    let (entry, retained, found, same, response, shown) =
      recover-retained h f request m m' r key keyed fresh answered in
    ground (arith, eq_refl (recovery_fingerprint_of h request))
