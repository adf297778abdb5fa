-- ===== src/Launch/Preparation.antt =====
-- How src/harness-runs/operations/launch.mjs prepares a launch: the two blocks that catch.
use sandking.Base.{
  Bool, true, false, not, ◌&&◌, String, str_eq, List, [], ◌∷◌, ◌++◌, Option, none, some, is_none,
  any, Result, ok, err, if◌then◌else◌,
}
use sandking.Runs.Types.{AdapterId}
use sandking.Runs.State.{same_adapter}
use sandking.Launch.Codes.{
  includes, github_credential_failure_codes, preparation_code, snapshot_code,
}
use sandking.Launch.Request.{
  LaunchRequest, Thrown, Context, Prepared, LaunchCalls, LaunchEffect, acquire,
}

-- The local variables of `launch` behind its preparation, and what the preparation has set going.
pub record Preparation : Type 0 where
  pub code : Option String
  pub context : Option Context
  pub prepared : Option Prepared
  pub holds_provider : Bool
  pub configuration_options : Option String
  pub sanitized_explanation : Option String
  pub effects : List LaunchEffect

-- Nothing is prepared for a request with a code.
abbrev pub unprepared : Option String → Preparation
unprepared code = record {
  code = code;
  context = none;
  prepared = none;
  holds_provider = false;
  configuration_options = none;
  sanitized_explanation = none;
  effects = [];
}

-- The outer `catch`; the options are those of the credential's failure code.
unfoldable pub catch_preparation : Thrown → Preparation → Preparation
catch_preparation thrown p = record p {
  code = some (preparation_code thrown.code);
  configuration_options =
      if includes github_credential_failure_codes thrown.code then some thrown.code else none;
  sanitized_explanation = thrown.sanitized_explanation;
}

abbrev pub is_sandcastle : Context → Bool
is_sandcastle context = same_adapter context.registered_adapter_id AdapterId.sandcastle_adapter

-- The project runs the production harness and has its preparation.
abbrev pub is_production : Context → Bool
is_production context = is_sandcastle context && context.has_preparation

unfoldable pub pin_is_valid : LaunchRequest → Context → Prepared → Bool
pin_is_valid request context prepared =
    str_eq context.project_id request.project_id
    && str_eq context.harness_id context.registered_harness_id
    && str_eq context.immutable_revision context.pinned_revision
    && same_adapter prepared.adapter_id context.harness_adapter_id
    && str_eq prepared.adapter_protocol context.bounded_adapter_protocol

unfoldable pub github_capabilities : List String
github_capabilities = "github.authentication.verify" ∷ "github.issues.read" ∷ []

needs_github : Context → Prepared → Bool
unfolding github_capabilities
needs_github context prepared =
    is_sandcastle context && any (includes github_capabilities) prepared.supplied_capabilities

unconfigured : Thrown
unconfigured = record { code = "github_credential_unconfigured"; sanitized_explanation = none }

credential_of : Option (Result Thrown (Option String)) → Result Thrown (Option String)
credential_of none = ok none
credential_of (some resolved) = resolved

-- A credential is asked for only where it is needed and the pin is valid.
resolve_credential : LaunchCalls → Preparation → Preparation
unfolding unconfigured credential_of
resolve_credential calls p = elim (credential_of calls.resolve_github_credential) [
  | err thrown ↦ catch_preparation thrown p
  | ok none ↦ catch_preparation unconfigured p
  | ok (some token) ↦ p
]

unfoldable pub check_prepared :
    LaunchRequest → LaunchCalls → Context → Prepared → Preparation → Preparation
unfolding needs_github resolve_credential
check_prepared request calls context prepared p =
    if not (pin_is_valid request context prepared)
    then record p { prepared = some prepared; code = some "harness_pin_invalid" }
    else if needs_github context prepared
    then resolve_credential calls (record p { prepared = some prepared })
    else record p { prepared = some prepared }

unfoldable pub validate : LaunchRequest → LaunchCalls → Context → Preparation → Preparation
unfolding check_prepared
validate request calls context p = elim calls.validate_harness_launch [
  | err thrown ↦ catch_preparation thrown p
  | ok prepared ↦ check_prepared request calls context prepared p
]

unfoldable pub prepare_context : LaunchRequest → LaunchCalls → Context → Preparation
unfolding validate
prepare_context request calls context =
    let p : Preparation = record (unprepared none) { context = some context } in
    if is_production context
    then elim calls.acquire_production_provider [
      | some thrown ↦ catch_preparation thrown p
      | none ↦
          validate request calls context
            (record p { holds_provider = true; effects = p.effects ++ acquire ∷ [] })
    ]
    else validate request calls context p

-- The outer `try`, for a request without a code.
unfoldable pub prepare : LaunchRequest → LaunchCalls → Option String → Preparation
unfolding prepare_context
prepare request calls (some code) = unprepared (some code)
prepare request calls none = elim calls.load_launch_context [
  | err thrown ↦ catch_preparation thrown (unprepared none)
  | ok context ↦ prepare_context request calls context
]

snapshot_thrown : Context → Result Thrown String → Option String
snapshot_thrown context made =
    if not context.has_projection_path
    then some "harness_projection_failed"
    else elim made [ err thrown ↦ some (snapshot_code thrown.code) | ok path ↦ none ]

-- The inner `try`: the execution snapshot of a production harness.
unfoldable pub take_snapshot : LaunchCalls → Context → Preparation → Preparation
unfolding snapshot_thrown
take_snapshot calls context p =
    if is_none p.code && is_production context
    then record p { code = snapshot_thrown context calls.materialize_execution_snapshot }
    else p
