-- ===== src/Launch/Request.antt =====
-- What src/harness-runs/operations/launch.mjs is asked and answers, and what it learns from outside.
use sandking.Base.{
  ℕ, Bool, true, false, not, ◌&&◌, String, List, Option, none, some, is_some, is_none, Result,
  if◌then◌else◌,
}
use sandking.Base.Identifiers.{is_project_id}
use sandking.Runs.Types.{Run, AdapterId, Failure}
use sandking.Runs.Events.{Stamp}
use sandking.Runs.Requests.{Attribution, attribution_accepts, Retained}

-- `parameters` are what `launchParametersSchema` accepts of the request's, or none.
pub record LaunchRequest : Type 0 where
  pub attribution : Attribution
  pub project_id : String
  pub raw_parameters : String
  pub parameters : Option String

-- `typedErrorCode` of an error, and its explanation, if it has one.
pub record Thrown : Type 0 where
  pub code : String
  pub sanitized_explanation : Option String

-- What `loadLaunchContext` finds. `registered` members are the project's, the others the harness's.
pub record Context : Type 0 where
  pub project_id : String
  pub registered_harness_id : String
  pub registered_adapter_id : AdapterId
  pub pinned_revision : String
  pub bounded_adapter_protocol : String
  pub has_preparation : Bool
  pub has_projection_path : Bool
  pub harness_id : String
  pub harness_adapter_id : AdapterId
  pub immutable_revision : String

-- What `validateHarnessLaunch` returns.
pub record Prepared : Type 0 where
  pub adapter_id : AdapterId
  pub adapter_protocol : String
  pub supplied_capabilities : List String

-- The answers of what the operation calls: acquiring a provider or rolling it back throws, or nothing is
-- said of it; a host may have no resolver of credentials.
pub record LaunchCalls : Type 0 where
  pub load_launch_context : Result Thrown Context
  pub acquire_production_provider : Option Thrown
  pub rollback_production_provider : Option Thrown
  pub validate_harness_launch : Result Thrown Prepared
  pub resolve_github_credential : Option (Result Thrown (Option String))
  pub materialize_execution_snapshot : Result Thrown String

-- The ids and the time of one call, and the text of the execution snapshot of its run.
pub record LaunchStamp : Type 0 where
  pub harness_run_id : String
  pub now : ℕ
  pub audit_id : String
  pub stdout_id : String
  pub stderr_id : String
  pub snapshot : String
  pub event : Stamp

pub record LaunchFailure : Type 0 where
  pub request_id : String
  pub code : String
  pub retryable : Bool
  pub idempotency_key_hash : Option String
  pub idempotent_replay : Bool
  pub audit_id : String
  pub configuration_options : Option String
  pub sanitized_explanation : Option String

pub record LaunchResult : Type 0 where
  pub request_id : String
  pub idempotency_key_hash : String
  pub revision : ℕ
  pub idempotent_replay : Bool
  pub audit_id : String
  pub run : Run

pub data LaunchResponse : Type 0 where
  launch_failure : LaunchFailure → LaunchResponse
  launch_result : LaunchResult → LaunchResponse

-- The part of `harness-runs.json` that launches use.
pub record LaunchState : Type 0 where
  pub runs : List Run
  pub launch_outcomes : List (Retained LaunchResponse)

-- What a launch sets going: a provider's preparation is acquired and rolled back, a run supervised.
pub data LaunchEffect : Type 0 where
  acquire rollback : LaunchEffect
  supervise : String → LaunchEffect

abbrev pub is_acquire : LaunchEffect → Bool
is_acquire acquire = true
is_acquire _ = false

abbrev pub is_rollback : LaunchEffect → Bool
is_rollback rollback = true
is_rollback _ = false

abbrev pub is_supervise : LaunchEffect → Bool
is_supervise (supervise id) = true
is_supervise _ = false

-- What a launch throws: a failure of the state, or what the rollback in its `finally` throws.
pub data LaunchThrown : Type 0 where
  state_thrown : Failure → LaunchThrown
  rollback_thrown : Thrown → LaunchThrown

-- The digests are a parameter.
pub record LaunchHashing : Type 0 where
  pub digest : String → String
  pub launch_fingerprint : LaunchRequest → String

-- The code of a request that is refused before anything is prepared.
unfoldable pub contract_code : LaunchRequest → Option String → Option String
contract_code request hash =
    if not (
      attribution_accepts "harness_run_launch" request.attribution
      && is_some hash
      && is_project_id request.project_id)
    then some "mutation_contract_invalid"
    else if is_none request.parameters
    then some "bounded_configuration_invalid"
    else none
