-- ===== src/Runs/Manager.antt =====
-- The state of the manager that src/harness-runs/index.mjs wires: what `harness-runs.json` retains
-- of runs, cancellations and recoveries, and the two maps that cancelling uses.
use sandking.Base.{ℕ, Bool, String, List, Option}
use sandking.Runs.Types.{Run, Action, Recovery, Outcome}
use sandking.Runs.Requests.{Retained, Source}

pub data CancelCode : Type 0 where
  idempotency_key_conflict mutation_contract_invalid : CancelCode
  harness_run_not_found harness_run_not_cancellable : CancelCode

pub record CancelFailure : Type 0 where
  pub request_id : String
  pub code : CancelCode
  pub retryable : Bool
  pub idempotency_key_hash : Option String
  pub idempotent_replay : Bool
  pub audit_id : String
  pub harness_run_id : Option String

pub record CancelResult : Type 0 where
  pub request_id : String
  pub idempotency_key_hash : String
  pub idempotent_replay : Bool
  pub audit_id : String
  pub harness_run_id : String
  pub accepted_at : ℕ
  pub cooperative_deadline_at : ℕ

pub data CancelResponse : Type 0 where
  cancel_failure : CancelFailure → CancelResponse
  cancel_result : CancelResult → CancelResponse

pub data RecoverCode : Type 0 where
  idempotency_key_conflict mutation_contract_invalid harness_run_not_found : RecoverCode
  harness_run_not_recoverable harness_recovery_action_not_available : RecoverCode

pub data RecoverResultCode : Type 0 where
  harness_recovery_rechecked harness_recovery_inspection_unavailable : RecoverResultCode
  harness_recovery_termination_confirmed harness_recovery_termination_unconfirmed :
      RecoverResultCode
  harness_recovery_finalized : RecoverResultCode

pub record RecoverFailure : Type 0 where
  pub request_id : String
  pub code : RecoverCode
  pub retryable : Bool
  pub idempotency_key_hash : Option String
  pub idempotent_replay : Bool
  pub audit_id : String
  pub harness_run_id : Option String
  pub action : Option Action

pub record RecoverResult : Type 0 where
  pub request_id : String
  pub code : RecoverResultCode
  pub idempotency_key_hash : String
  pub idempotent_replay : Bool
  pub audit_id : String
  pub harness_run_id : String
  pub action : Action
  pub run : Run
  pub recovery : Option Recovery
  pub outcome : Option Outcome

pub data RecoverResponse : Type 0 where
  recover_failure : RecoverFailure → RecoverResponse
  recover_result : RecoverResult → RecoverResponse

-- `retainedRecoveryMutationSchema`: an intent until it has a response.
pub record RecoveryMutation : Type 0 where
  pub idempotency_key_hash : String
  pub request_fingerprint : String
  pub harness_run_id : String
  pub action : Action
  pub accepted_at : ℕ
  pub audit_id : String
  pub response : Option RecoverResponse

pub record Manager : Type 0 where
  pub runs : List Run
  pub cancellation_outcomes : List (Retained CancelResponse)
  pub recovery_mutations : List RecoveryMutation
  pub accepted_cancellations : List (String × ℕ)
  pub active_supervisions : List String

-- What the manager sets going in a supervisor.
pub data Effect : Type 0 where
  prepare_cancellation : String → Effect
  request_cancellation : String → ℕ → Effect

-- Digests of src/common/digest.mjs over canonical JSON.
pub record Hashing : Type 0 where
  pub digest : String → String
  pub cancellation_fingerprint : String → Option String → Option Source → String → String
  pub recovery_fingerprint :
      String → Option Action → Option String → Option Source → String → String
