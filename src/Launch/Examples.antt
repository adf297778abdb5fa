-- ===== src/Launch/Examples.antt =====
-- The theorems on launches, at a launch that is accepted, repeated and refused.
use sandking.Base.{◌≡◌, refl, true, false, [], ◌∷◌, none, some, ok, is_ok, not, any, is_some, ◌&&◌}
use sandking.Base.Identifiers.{is_project_id, is_controller_id, is_digest}
use sandking.Runs.Types.{Run, harness_run_created}
use sandking.Runs.Events.{append_event, next_event}
use sandking.Runs.State.{persist, stored_run_accepts, harness_run_outcome_adapter_identity_agrees}
use sandking.Runs.Requests.{
  Attribution, request_idempotency_key_hash, attribution_accepts, retained_outcome,
}
use sandking.Launch.Codes.{github_credential_failure_codes, snapshot_code}
use sandking.Launch.Request.{
  LaunchState, LaunchResult, launch_result, acquire, rollback, is_acquire, contract_code,
}
use sandking.Launch.Preparation.{
  prepare, prepare_context, validate, check_prepared, catch_preparation, take_snapshot,
  pin_is_valid, github_capabilities,
}
use sandking.Launch.Operation.{
  launch, reply, launch_keyed, launch_new, conclude, fail, accept, retain, create_run, new_run,
  replayed, effects_of, launch_failure_of, launch_result_of,
}
use sandking.Launch.Accepted.{IsAccepted, launch-IsAccepted}
use sandking.Launch.Repeated.{launch-launch}
use sandking.Launch.Held.{
  launch_failed, launch_answers, supervisions, rollbacks, acquisitions, is_created, runs_behind,
}
use sandking.Launch.Lookup.{lookup, harness_run_launch_outcome_found, launch-lookup}
use sandking.Launch.Samples.{
  request, context, calls, colliding, stamp, idle, hashing, key_text, state_of,
}

abbrev run : Run
run =
    record (new_run stamp context record {
      adapter_id = context.registered_adapter_id;
      adapter_protocol = "1.0.0";
      supplied_capabilities = [];
    }) {
      events =
          next_event stamp.event
            (new_run stamp context record {
              adapter_id = context.registered_adapter_id;
              adapter_protocol = "1.0.0";
              supplied_capabilities = [];
            })
            harness_run_created none none
          ∷ [];
    }

-- The state that the launch leaves.
abbrev behind : LaunchState
behind = state_of (launch hashing calls stamp request idle).0

abbrev result : LaunchResult
result = record {
  request_id = "request-1";
  idempotency_key_hash = key_text;
  revision = 1;
  idempotent_replay = false;
  audit_id = "audit-1";
  run = run;
}

key-request : request_idempotency_key_hash hashing.digest request.attribution ≡ some key_text
unfolding request_idempotency_key_hash is_digest
key-request = refl

launched : (launch hashing calls stamp request idle).0 ≡ ok (behind, launch_result result)
unfolding launch launch_keyed launch_new request_idempotency_key_hash is_digest retained_outcome
    contract_code attribution_accepts is_controller_id is_project_id prepare prepare_context
    validate check_prepared catch_preparation take_snapshot pin_is_valid github_capabilities
    github_credential_failure_codes conclude accept retain persist create_run new_run append_event
    next_event stored_run_accepts harness_run_outcome_adapter_identity_agrees launch_result_of
launched = refl

launch-IsAccepted_example : IsAccepted calls stamp request (some key_text) idle behind result
unfolding request_idempotency_key_hash is_digest
launch-IsAccepted_example =
    launch-IsAccepted hashing calls stamp request idle behind result launched refl

-- The repeated launch does not even look at the collision.
launch-launch_example :
    launch hashing colliding stamp request behind
    ≡ (ok (behind, replayed "request-1" (launch_result result)), [])
unfolding retained_outcome
launch-launch_example =
    launch-launch hashing calls colliding stamp stamp request idle behind (launch_result result)
      key_text key-request refl launched

colliding-is_created : is_created (launch hashing colliding stamp request idle).0 ≡ false
unfolding launch launch_keyed launch_new request_idempotency_key_hash is_digest retained_outcome
    contract_code attribution_accepts is_controller_id is_project_id prepare prepare_context
    validate check_prepared catch_preparation take_snapshot pin_is_valid github_capabilities
    github_credential_failure_codes snapshot_code conclude fail retain persist launch_failure_of
colliding-is_created = refl

colliding-effects : (launch hashing colliding stamp request idle).1 ≡ acquire ∷ rollback ∷ []
unfolding launch launch_keyed launch_new request_idempotency_key_hash is_digest retained_outcome
    contract_code attribution_accepts is_controller_id is_project_id prepare prepare_context
    validate check_prepared catch_preparation take_snapshot pin_is_valid github_capabilities
    github_credential_failure_codes snapshot_code conclude fail retain persist launch_failure_of
    effects_of
colliding-effects = refl

launch_failed_example :
    (runs_behind idle (launch hashing colliding stamp request idle).0 ≡ [])
    × (supervisions (launch hashing colliding stamp request idle).1 ≡ 0)
    × (rollbacks (launch hashing colliding stamp request idle).1
        ≡ acquisitions (launch hashing colliding stamp request idle).1)
launch_failed_example = launch_failed hashing colliding stamp request idle colliding-is_created

launch_answers_example :
    is_ok (reply colliding (launch hashing colliding stamp request idle))
    ≡ not (
        any is_acquire (launch hashing colliding stamp request idle).1
        && not (is_created (launch hashing colliding stamp request idle).0)
        && is_some colliding.rollback_production_provider)
launch_answers_example = launch_answers hashing colliding stamp request idle refl

abbrev asker : Attribution
asker = record request.attribution { request_id = "request-2"; authorization_class = "" }

launch-lookup_example : lookup hashing.digest asker behind ≡ record {
  request_id = "request-2";
  code = harness_run_launch_outcome_found;
  idempotency_key_hash = some key_text;
  found = true;
  launch_outcome = some (launch_result result);
}
unfolding retained_outcome request_idempotency_key_hash is_digest
launch-lookup_example =
    launch-lookup hashing calls stamp request idle behind (launch_result result) key_text asker
      key-request refl launched refl
