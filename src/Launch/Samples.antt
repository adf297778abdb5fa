-- ===== src/Launch/Samples.antt =====
-- A launch of a production harness, for the examples of src/harness-runs/operations/launch.mjs.
use sandking.Base.{String, [], ◌∷◌, true, none, some, Result, ok, err}
use sandking.Runs.Types.{AdapterId}
use sandking.Runs.Requests.{Source}
use sandking.Launch.Request.{
  LaunchRequest, Context, LaunchCalls, LaunchStamp, LaunchState, LaunchHashing, LaunchResponse,
}
use sandking.Launch.Operation.{LaunchAnswer}

abbrev pub key_text : String
key_text = "sha256:0123456789abcdef0123456789abcdef0123456789abcdef0123456789abcdef"

abbrev pub project_name : String
project_name = "project-0123456789abcdef01234567"

abbrev pub request : LaunchRequest
request = record {
  attribution = record {
    request_id = "request-1";
    authorization_class = "harness_run_launch";
    source = some Source.cockpit;
    controller_id = "runtime-0123456789abcdef01234567";
    controller_session_id = none;
    idempotency_key_hash = some key_text;
    idempotency_key = none;
  };
  project_id = project_name;
  raw_parameters = "{}";
  parameters = some "{}";
}

abbrev pub context : Context
context = record {
  project_id = project_name;
  registered_harness_id = "harness";
  registered_adapter_id = AdapterId.sandcastle_adapter;
  pinned_revision = "c0ffee";
  bounded_adapter_protocol = "1.0.0";
  has_preparation = true;
  has_projection_path = true;
  harness_id = "harness";
  harness_adapter_id = AdapterId.sandcastle_adapter;
  immutable_revision = "c0ffee";
}

abbrev pub calls : LaunchCalls
calls = record {
  load_launch_context = ok context;
  acquire_production_provider = none;
  rollback_production_provider = none;
  validate_harness_launch = ok record {
    adapter_id = AdapterId.sandcastle_adapter;
    adapter_protocol = "1.0.0";
    supplied_capabilities = "github.issues.read" ∷ [];
  };
  resolve_github_credential = some (ok (some "token"));
  materialize_execution_snapshot = ok "execution";
}

-- The snapshot of the second attempt collides, and the provider cannot be rolled back.
abbrev pub colliding : LaunchCalls
colliding = record calls {
  rollback_production_provider =
      some record { code = "harness_projection_failed"; sanitized_explanation = none };
  materialize_execution_snapshot =
      err record { code = "harness_projection_collision"; sanitized_explanation = none };
}

abbrev pub stamp : LaunchStamp
stamp = record {
  harness_run_id = "harness-run-0123456789abcdef01234567";
  now = 3;
  audit_id = "audit-1";
  stdout_id = "out";
  stderr_id = "err";
  snapshot = "{}";
  event = record { event_id = "harness-event-1"; recorded_at = 3 };
}

abbrev pub idle : LaunchState
idle = record { runs = []; launch_outcomes = [] }

abbrev pub hashing : LaunchHashing
hashing = record { digest = λ s. s; launch_fingerprint = λ r. r.project_id }

-- The state and the result of an answer that has one.
abbrev pub state_of {ℓ} : {E : Type ℓ} → Result E LaunchAnswer → LaunchState
state_of (err e) = idle
state_of (ok (state, response)) = state

abbrev pub response_of {ℓ} : {E : Type ℓ} → LaunchResponse → Result E LaunchAnswer → LaunchResponse
response_of d (err e) = d
response_of d (ok (state, response)) = response
