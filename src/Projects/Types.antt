-- ===== src/Projects/Types.antt =====
-- The retained state of src/project-registration/schemas.mjs. Ids, paths and digests, which the source
-- only compares, are numbers, and so is the JSON text of a configuration. Readiness follows from the harness.
use sandking.Base.{ℕ, Bool, true, false, List, Option}

pub data Status : Type 0 where
  active tombstoned : Status

pub data AdapterId : Type 0 where
  conformance sandcastle : AdapterId

pub record HarnessLink : Type 0 where
  pub harness_id : ℕ
  pub adapter_id : AdapterId
  pub pinned_revision : ℕ
  pub bounded_configuration : ℕ
  pub preparation : Option ℕ

pub record Project : Type 0 where
  pub project_id : ℕ
  pub revision : ℕ
  pub display_name : ℕ
  pub canonical_path : ℕ
  pub filesystem_identity_digest : ℕ
  pub status : Status
  pub git_detected : Bool
  pub configuration : ℕ
  pub harness : Option HarnessLink
  pub created_at : ℕ
  pub updated_at : ℕ

-- A registered harness.
pub record Harness : Type 0 where
  pub harness_id : ℕ
  pub revision : ℕ
  pub adapter_id : AdapterId
  pub immutable_revision : ℕ

-- `projectResolutionRegistration`.
pub record Registration : Type 0 where
  pub project_id : ℕ
  pub revision : ℕ
  pub display_name : ℕ
  pub canonical_path : ℕ
  pub status : Status

abbrev pub project_resolution_registration : Project → Registration
project_resolution_registration p = record {
  project_id = p.project_id;
  revision = p.revision;
  display_name = p.display_name;
  canonical_path = p.canonical_path;
  status = p.status;
}

-- The codes of `failureGuidance` that the modelled operations give.
pub data FailureCode : Type 0 where
  mutation_contract_invalid idempotency_key_conflict mutation_revision_conflict : FailureCode
  bounded_configuration_invalid project_configuration_conflict project_not_found : FailureCode
  project_path_invalid project_path_missing project_path_moved project_path_replaced : FailureCode
  project_path_conflict project_path_tombstoned : FailureCode
  harness_not_found harness_pin_missing harness_pin_invalid harness_projection_failed : FailureCode
  harness_workspace_invalid harness_seed_missing : FailureCode

pub data ResultCode : Type 0 where
  project_registered project_registration_reused : ResultCode
  project_registration_forgotten project_registration_restored : ResultCode
  project_registration_conflict_resolved project_harness_pinned project_harness_pin_reused :
      ResultCode

-- `operationFailure`.
pub record Failure : Type 0 where
  pub request_id : ℕ
  pub code : FailureCode
  pub retryable : Bool
  pub expected_revision : Option ℕ
  pub actual_revision : ℕ
  pub audit_id : ℕ
  pub registrations : Option (List Registration)

-- Only a pin answers with a harness.
pub record Answer : Type 0 where
  pub request_id : ℕ
  pub code : ResultCode
  pub expected_revision : ℕ
  pub revision : ℕ
  pub idempotent_replay : Bool
  pub audit_id : ℕ
  pub project : Project
  pub harness : Option Harness

pub data Response : Type 0 where
  answered : Answer → Response
  failed : Failure → Response

pub record Outcome : Type 0 where
  pub idempotency_key_hash : ℕ
  pub request_fingerprint : ℕ
  pub response : Response

pub record State : Type 0 where
  pub projects : List Project
  pub registration_outcomes : List Outcome
  pub pin_outcomes : List Outcome

abbrev pub is_active : Project → Bool
is_active p = of_status p.status
  where
    of_status : Status → Bool
    of_status active = true
    of_status tombstoned = false
