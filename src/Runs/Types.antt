-- ===== src/Runs/Types.antt =====
-- The records of src/harness-runs/schemas.mjs. Members that a schema fixes to one literal are left
-- out; opaque JSON values, which the code only carries, are their texts.
use sandking.Base.{ℕ, Bool, String, List, Option}

pub data Platform : Type 0 where
  linux win32 darwin : Platform

pub data Status : Type 0 where
  starting running cancelling recovery_required succeeded failed cancelled : Status

pub data OutcomeStatus : Type 0 where
  succeeded failed cancelled : OutcomeStatus

pub data EventType : Type 0 where
  harness_run_created harness_adapter_ready harness_progress_published : EventType
  harness_run_cancellation_accepted harness_run_recovery_required : EventType
  harness_run_succeeded harness_run_failed harness_run_cancelled : EventType

pub data OutcomeCode : Type 0 where
  conformance_run_succeeded conformance_run_failed conformance_run_cancelled : OutcomeCode
  harness_run_succeeded harness_run_failed harness_run_cancelled : OutcomeCode
  harness_result_incomplete harness_adapter_protocol_invalid : OutcomeCode
  harness_adapter_start_failed host_daemon_interrupted : OutcomeCode

pub data AdapterId : Type 0 where
  conformance_adapter sandcastle_adapter : AdapterId

-- The codes of the errors that the operations throw; `schema_invalid` is an error of zod.
pub data Failure : Type 0 where
  harness_run_event_capacity_exceeded harness_run_not_found harness_run_state_invalid : Failure
  harness_run_terminal_history_invalid harness_run_reconciliation_state_invalid : Failure
  harness_run_terminal_outcome_missing harness_run_cancellation_state_invalid : Failure
  harness_run_recovery_intent_invalid schema_invalid : Failure

pub record ProgressRecord : Type 0 where
  pub record_id : String
  pub record_type : String
  pub parent_record_id : Option String
  pub label : String
  pub summary : String
  pub record_status : String
  pub timestamp : ℕ
  pub payload : String

pub record Event : Type 0 where
  pub event_id : String
  pub harness_run_id : String
  pub sequence : ℕ
  pub event_type : EventType
  pub recorded_at : ℕ
  pub progress_record : Option ProgressRecord
  pub outcome_reference : Option String

pub record TerminalEnvelope : Type 0 where
  pub terminal_id : String
  pub terminal_status : OutcomeStatus
  pub adapter_id : AdapterId
  pub adapter_protocol : String
  pub result : Option String

pub record LogStream : Type 0 where
  pub stream_id : String
  pub available_end : ℕ

pub record DiagnosticReference : Type 0 where
  pub stream_id : String
  pub range_end : ℕ

pub record Interruption : Type 0 where
  pub previous_status : Status
  pub reconciled_at : ℕ
  pub reconciliation_audit_id : String

pub record Outcome : Type 0 where
  pub outcome_id : String
  pub outcome_status : OutcomeStatus
  pub code : OutcomeCode
  pub outcome_completed_at : ℕ
  pub incomplete_result : Bool
  pub outcome_result : Option String
  pub stdout_reference : DiagnosticReference
  pub stderr_reference : DiagnosticReference
  pub terminal_envelope : Option TerminalEnvelope
  pub outcome_audit_id : String
  pub interruption : Option Interruption

pub record Validation : Type 0 where
  pub adapter_ready_observed : Bool
  pub valid_terminal_envelope_count : ℕ
  pub exactly_one : Bool
  pub adapter_channel_closed_observed : Bool
  pub process_exit_observed : Bool

pub record Cancellation : Type 0 where
  pub accepted_at : ℕ
  pub cooperative_deadline_at : ℕ
  pub cancellation_audit_id : String
  pub cancellation_key_hash : String
  pub cooperative_signal_sent_at : Option ℕ
  pub forced_termination_sent_at : Option ℕ
  pub termination_confirmed_at : Option ℕ

pub data Evidence : Type 0 where
  unconfirmed confirmed : Evidence

pub data ProcessState : Type 0 where
  unknown running_confirmed terminated_confirmed : ProcessState

pub data IdentityProof : Type 0 where
  unavailable retained_supervision_identity : IdentityProof

pub record Observation : Type 0 where
  pub observed_at : ℕ
  pub platform : Platform
  pub termination_evidence : Evidence
  pub related_process_state : ProcessState
  pub identity_proof : IdentityProof
  pub process_count : Option ℕ
  pub launch_settled : Option Bool
  pub tree_empty : Option Bool
  pub safe_to_terminate : Bool

pub data Action : Type 0 where
  recheck terminate_confirmed_tree finalize : Action

pub record Recovery : Type 0 where
  pub previous_status : Status
  pub detected_at : ℕ
  pub platform : Platform
  pub termination_evidence : Evidence
  pub reconciliation_audit_id : String
  pub evidence_schema_version : ℕ
  pub initial_process_observation : Observation
  pub initial_available_actions : List Action
  pub process_observation : Observation
  pub available_actions : List Action

pub record CancellationReconciliation : Type 0 where
  pub reconciled_at : ℕ
  pub platform : Platform
  pub reconciliation_audit_id : String

-- What no operation changes once the run is created.
pub record Identity : Type 0 where
  pub harness_run_id : String
  pub project_id : String
  pub harness_id : String
  pub adapter_id : AdapterId
  pub adapter_protocol : String
  pub created_at : ℕ
  pub launch_audit_id : String
  pub execution_snapshot : String

-- `storedRunSchema`.
pub record Run : Type 0 where
  pub identity : Identity
  pub revision : ℕ
  pub status : Status
  pub adapter_ready_at : Option ℕ
  pub completed_at : Option ℕ
  pub events : List Event
  pub outcome : Option Outcome
  pub validation : Validation
  pub stdout : LogStream
  pub stderr : LogStream
  pub cancellation : Option Cancellation
  pub recovery : Option Recovery
  pub cancellation_reconciliation : Option CancellationReconciliation
