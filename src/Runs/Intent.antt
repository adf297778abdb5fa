-- ===== src/Runs/Intent.antt =====
-- `completeRecoveryMutation` of src/harness-runs/operations/recover.mjs: a retained intent is carried out.
use sandking.Base.{
  ℕ, ◌+◌, Bool, true, false, String, str_eq, List, [], ◌∷◌, Option, none, some, is_some, Result, ok,
  ◌>>=◌, if◌then◌else◌,
}
use sandking.Runs.Types.{Run, Status, Action, Recovery, Failure}
use sandking.Runs.State.{find_run, put_run, persist}
use sandking.Runs.Observation.{
  Inspection, recovery_process_observation, available_recovery_actions, parse_recovery,
}
use sandking.Runs.Interruption.{FinalStamp, same_status, finalize_interrupted_run}
use sandking.Runs.Manager.{
  Manager, RecoveryMutation, RecoverCode, RecoverResultCode, RecoverResponse, recover_failure,
  recover_result,
}

-- What the Host can do and sees, and the ids and times of one call. `inspected` is none where the
-- inspection throws; `terminated` is none where termination throws or reports nothing.
pub record RecoverFacts : Type 0 where
  pub termination_available : Bool
  pub inspected : Option Inspection
  pub terminated : Option Inspection
  pub stamp : FinalStamp
  pub accepted_at : ℕ
  pub audit_id : String

abbrev pub reports_confirmed : Option Inspection → Bool
reports_confirmed none = false
reports_confirmed (some i) = i.is_confirmed

-- The inspection that an action yields, and the code of the result.
unfoldable pub act : RecoverFacts → Action → Option Inspection × RecoverResultCode
act f Action.recheck = (
  f.inspected,
  if is_some f.inspected
      then RecoverResultCode.harness_recovery_rechecked
      else RecoverResultCode.harness_recovery_inspection_unavailable,
)
act f Action.terminate_confirmed_tree =
    let report = if f.termination_available then f.terminated else none in
    (
      report,
      if reports_confirmed report
          then RecoverResultCode.harness_recovery_termination_confirmed
          else RecoverResultCode.harness_recovery_termination_unconfirmed,
    )
act f Action.finalize = (none, RecoverResultCode.harness_recovery_finalized)

-- A report of the process tree enters the retained recovery.
unfoldable pub apply_inspection : RecoverFacts → Inspection → Recovery → Run → Result Failure Run
apply_inspection f i recovery run =
    recovery_process_observation i f.stamp.completed_at f.termination_available >>= λ observation.
    parse_recovery (record recovery {
      evidence_schema_version = 2;
      platform = observation.platform;
      termination_evidence = observation.termination_evidence;
      process_observation = observation;
      available_actions = available_recovery_actions observation;
    })
    >>= λ recovery'. ok (record run { recovery = some recovery'; revision = run.revision + 1 })

abbrev is_finalize : Action → Bool
is_finalize Action.finalize = true
is_finalize _ = false

unfoldable pub apply_action :
    RecoverFacts → Action → Option Inspection → Recovery → Run → Result Failure Run
unfolding apply_inspection
apply_action f action (some i) recovery run = apply_inspection f i recovery run
apply_action f action none recovery run =
    if is_finalize action
    then finalize_interrupted_run f.stamp recovery.platform recovery.previous_status run
    else ok run

-- The mutation with its response, in its place.
unfoldable pub answer_mutation :
    String → RecoverResponse → List RecoveryMutation → List RecoveryMutation
answer_mutation hash response [] = []
answer_mutation hash response (mutation ∷ mutations) =
    if str_eq mutation.idempotency_key_hash hash
    then record mutation { response = some response } ∷ mutations
    else mutation ∷ answer_mutation hash response mutations

abbrev pending_request_id : String
pending_request_id = "recovered-pending-mutation"

unfoldable pub not_recoverable : RecoveryMutation → RecoverResponse
not_recoverable mutation = recover_failure (record {
  request_id = pending_request_id;
  code = RecoverCode.harness_run_not_recoverable;
  retryable = false;
  idempotency_key_hash = some mutation.idempotency_key_hash;
  idempotent_replay = false;
  audit_id = mutation.audit_id;
  harness_run_id = some mutation.harness_run_id;
  action = some mutation.action;
})

unfoldable pub result_response : RecoveryMutation → RecoverResultCode → Run → RecoverResponse
result_response mutation code run = recover_result (record {
  request_id = pending_request_id;
  code = code;
  idempotency_key_hash = mutation.idempotency_key_hash;
  idempotent_replay = false;
  audit_id = mutation.audit_id;
  harness_run_id = mutation.harness_run_id;
  action = mutation.action;
  run = run;
  recovery = run.recovery;
  outcome = run.outcome;
})

unfoldable pub settle_mutation :
    RecoveryMutation
    → RecoverResponse
    → List Run
    → Manager
    → Result Failure (Manager × RecoverResponse)
settle_mutation mutation response runs m = persist runs >>= λ runs'. ok (
  record m {
    runs = runs';
    recovery_mutations =
        answer_mutation mutation.idempotency_key_hash response m.recovery_mutations;
  },
  response,
)

-- The recovery of a run that can be recovered.
abbrev pub recoverable : Option Run → Option (Run × Recovery)
recoverable none = none
recoverable (some run) = elim run.recovery [
  | none ↦ none
  | some recovery ↦
      if same_status run.status Status.recovery_required then some (run, recovery) else none
]

unfoldable pub perform :
    RecoverFacts
    → RecoveryMutation
    → Run × Recovery
    → Manager
    → Result Failure (Manager × RecoverResponse)
unfolding result_response settle_mutation
perform f mutation (run, recovery) m =
    let (report, code) = act f mutation.action in
    apply_action f mutation.action report recovery run >>= λ run'.
    settle_mutation mutation (result_response mutation code run')
      (put_run mutation.harness_run_id run' m.runs) m

-- `completeRecoveryMutation`, for a mutation that has no response yet.
unfoldable pub complete_recovery_mutation :
    RecoverFacts → RecoveryMutation → Manager → Result Failure (Manager × RecoverResponse)
unfolding perform not_recoverable settle_mutation
complete_recovery_mutation f mutation m =
    elim (recoverable (find_run mutation.harness_run_id m.runs)) [
      | none ↦ settle_mutation mutation (not_recoverable mutation) m.runs m
      | some target ↦ perform f mutation target m
    ]
