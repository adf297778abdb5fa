-- ===== src/Launch/Operation.antt =====
-- `launch` of src/harness-runs/operations/launch.mjs.
use sandking.Base.{
  Bool, true, false, not, String, str_eq, List, [], ◌∷◌, ◌++◌, any, Option, none, some, Result, ok,
  err, ◌>>=◌, if◌then◌else◌,
}
use sandking.Runs.Types.{Run, Status, EventType, Failure}
use sandking.Runs.Events.{append_event}
use sandking.Runs.State.{persist, stored_run_accepts}
use sandking.Runs.Requests.{request_idempotency_key_hash, Retained, retained_outcome}
use sandking.Launch.Codes.{is_retryable}
use sandking.Launch.Request.{
  LaunchRequest, Context, Prepared, LaunchCalls, LaunchStamp, LaunchResponse, launch_failure,
  launch_result, LaunchState, LaunchEffect, rollback, supervise, LaunchHashing, is_rollback,
  LaunchThrown, state_thrown, rollback_thrown, contract_code,
}
use sandking.Launch.Preparation.{Preparation, prepare, take_snapshot}

abbrev pub LaunchAnswer : Type 0
LaunchAnswer = LaunchState × LaunchResponse

unfoldable pub launch_failure_of :
    LaunchStamp → LaunchRequest → Option String → String → Preparation → LaunchResponse
launch_failure_of stamp request hash code p = launch_failure record {
  request_id = request.attribution.request_id;
  code = code;
  retryable = is_retryable code;
  idempotency_key_hash = hash;
  idempotent_replay = false;
  audit_id = stamp.audit_id;
  configuration_options = p.configuration_options;
  sanitized_explanation = p.sanitized_explanation;
}

-- A request under a key that has another request's outcome.
unfoldable pub conflict : LaunchStamp → LaunchRequest → Option String → LaunchResponse
conflict stamp request hash = launch_failure record {
  request_id = request.attribution.request_id;
  code = "idempotency_key_conflict";
  retryable = false;
  idempotency_key_hash = hash;
  idempotent_replay = false;
  audit_id = stamp.audit_id;
  configuration_options = none;
  sanitized_explanation = none;
}

-- The retained response under the id of the new request.
unfoldable pub replayed : String → LaunchResponse → LaunchResponse
replayed request_id (launch_failure f) =
    launch_failure record f { request_id = request_id; idempotent_replay = true }
replayed request_id (launch_result r) =
    launch_result record r { request_id = request_id; idempotent_replay = true }

unfoldable pub answer_existing :
    LaunchStamp → LaunchRequest → Option String → String → Retained LaunchResponse → LaunchResponse
unfolding conflict replayed
answer_existing stamp request hash fingerprint existing =
    if not (str_eq existing.request_fingerprint fingerprint)
    then conflict stamp request hash
    else replayed request.attribution.request_id existing.response

unfoldable pub retain :
    Option String → String → LaunchResponse → List Run → LaunchState → Result Failure LaunchState
retain none fingerprint response runs state = ok state
retain (some hash) fingerprint response runs state = persist runs >>= λ stored. ok record {
  runs = stored;
  launch_outcomes =
      state.launch_outcomes
      ++ record {
        idempotency_key_hash = hash;
        request_fingerprint = fingerprint;
        response = response;
      }
        ∷ [];
}

-- A failure is retained where there is a key.
unfoldable pub fail :
    LaunchStamp
    → LaunchRequest
    → Option String
    → String
    → String
    → Preparation
    → LaunchState
    → Result Failure LaunchAnswer
unfolding launch_failure_of retain
fail stamp request hash fingerprint code p state =
    let response = launch_failure_of stamp request hash code p in
    retain hash fingerprint response state.runs state >>= λ state'. ok (state', response)

-- The run before its first event.
unfoldable pub new_run : LaunchStamp → Context → Prepared → Run
new_run stamp context prepared = record {
  identity = record {
    harness_run_id = stamp.harness_run_id;
    project_id = context.project_id;
    harness_id = context.harness_id;
    adapter_id = prepared.adapter_id;
    adapter_protocol = prepared.adapter_protocol;
    created_at = stamp.now;
    launch_audit_id = stamp.audit_id;
    execution_snapshot = stamp.snapshot;
  };
  revision = 1;
  status = Status.starting;
  adapter_ready_at = none;
  completed_at = none;
  events = [];
  outcome = none;
  validation = record {
    adapter_ready_observed = false;
    valid_terminal_envelope_count = 0;
    exactly_one = false;
    adapter_channel_closed_observed = false;
    process_exit_observed = false;
  };
  stdout = record { stream_id = stamp.stdout_id; available_end = 0 };
  stderr = record { stream_id = stamp.stderr_id; available_end = 0 };
  cancellation = none;
  recovery = none;
  cancellation_reconciliation = none;
}

-- `storedRunSchema.parse` and the first event.
unfoldable pub create_run : LaunchStamp → Context → Prepared → Result Failure Run
unfolding new_run
create_run stamp context prepared =
    if stored_run_accepts (new_run stamp context prepared)
    then append_event stamp.event (new_run stamp context prepared) EventType.harness_run_created
        none none
    else err Failure.schema_invalid

unfoldable pub launch_result_of : LaunchStamp → LaunchRequest → String → Run → LaunchResponse
launch_result_of stamp request hash run = launch_result record {
  request_id = request.attribution.request_id;
  idempotency_key_hash = hash;
  revision = run.revision;
  idempotent_replay = false;
  audit_id = stamp.audit_id;
  run = run;
}

unfoldable pub accept :
    LaunchStamp
    → LaunchRequest
    → String
    → String
    → Context
    → Prepared
    → LaunchState
    → Result Failure LaunchAnswer
unfolding create_run launch_result_of retain
accept stamp request hash fingerprint context prepared state =
    create_run stamp context prepared >>= λ run.
    retain (some hash) fingerprint (launch_result_of stamp request hash run)
      (state.runs ++ run ∷ []) state
    >>= λ state'. ok (state', launch_result_of stamp request hash run)

-- Behind the preparation: the request fails with a code, or with a missing part, or is accepted.
unfoldable pub conclude :
    LaunchStamp
    → LaunchRequest
    → Option String
    → String
    → Preparation
    → LaunchState
    → Result Failure LaunchAnswer
unfolding fail accept
conclude stamp request hash fingerprint p state = elim p.code [
  | some code ↦ fail stamp request hash fingerprint code p state
  | none ↦ elim hash [
    | none ↦ fail stamp request none fingerprint "mutation_contract_invalid" p state
    | some h ↦ elim p.context [
      | none ↦ fail stamp request (some h) fingerprint "mutation_contract_invalid" p state
      | some context ↦ elim p.prepared [
        | none ↦ fail stamp request (some h) fingerprint "mutation_contract_invalid" p state
        | some prepared ↦ accept stamp request h fingerprint context prepared state
      ]
    ]
  ]
]

abbrev pub with_snapshot : LaunchCalls → Option Context → Preparation → Preparation
with_snapshot calls none p = p
with_snapshot calls (some context) p = take_snapshot calls context p

-- What is set going behind the preparation: `finally` rolls the provider that is held back unless the
-- launch was accepted, and the supervision of an accepted run takes the provider over.
unfoldable pub effects_of : Bool → Result Failure LaunchAnswer → List LaunchEffect
effects_of holds (err e) = if holds then rollback ∷ [] else []
effects_of holds (ok (state, launch_failure f)) = if holds then rollback ∷ [] else []
effects_of holds (ok (state, launch_result r)) = supervise r.run.identity.harness_run_id ∷ []

unfoldable pub launch_new :
    LaunchCalls
    → LaunchStamp
    → LaunchRequest
    → Option String
    → String
    → LaunchState
    → Result Failure LaunchAnswer × List LaunchEffect
unfolding conclude effects_of
launch_new calls stamp request hash fingerprint state =
    let first = prepare request calls (contract_code request hash) in
    let p = with_snapshot calls first.context first in
    let answer = conclude stamp request hash fingerprint p state in
    (answer, p.effects ++ effects_of p.holds_provider answer)

unfoldable pub launch_keyed :
    LaunchCalls
    → LaunchStamp
    → LaunchRequest
    → Option String
    → String
    → LaunchState
    → Result Failure LaunchAnswer × List LaunchEffect
unfolding answer_existing launch_new
launch_keyed calls stamp request hash fingerprint state =
    elim (retained_outcome state.launch_outcomes hash) [
      | some existing ↦ (ok (state, answer_existing stamp request hash fingerprint existing), [])
      | none ↦ launch_new calls stamp request hash fingerprint state
    ]

-- `launch`, under the mutation lock.
unfoldable pub launch :
    LaunchHashing
    → LaunchCalls
    → LaunchStamp
    → LaunchRequest
    → LaunchState
    → Result Failure LaunchAnswer × List LaunchEffect
unfolding launch_keyed
launch h calls stamp request state =
    launch_keyed calls stamp request (request_idempotency_key_hash h.digest request.attribution)
      (h.launch_fingerprint request) state

answer_of : Result Failure LaunchAnswer → Result LaunchThrown LaunchResponse
answer_of (err e) = err (state_thrown e)
answer_of (ok (state, response)) = ok response

-- What the caller of a launch receives: a rollback that throws takes the place of the answer, while what
-- was written stays written.
unfoldable pub reply :
    LaunchCalls
    → Result Failure LaunchAnswer × List LaunchEffect
    → Result LaunchThrown LaunchResponse
unfolding answer_of
reply calls (answer, effects) = elim calls.rollback_production_provider [
  | some thrown ↦ if any is_rollback effects then err (rollback_thrown thrown) else answer_of answer
  | none ↦ answer_of answer
]
