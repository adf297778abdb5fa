-- ===== src/Runs/RecoverTrials.antt =====
-- The theorems about recovering, observing and reading logs, on concrete runs.
use sandking.Base.{
  ℕ, ◌≡◌, ◌≤◌, ◌<◌, refl, true, false, List, [], ◌∷◌, ◌++◌, none, some, is_some, Result, ok, err,
  arith, length, take, min, if◌then◌else◌,
}
use sandking.Base.Identifiers.{is_harness_run_id, is_digest, is_controller_id}
use sandking.Runs.Types.{
  EventType, Run, Status, Action, Recovery, Failure, Observation, Platform, Evidence,
}
use sandking.Runs.State.{
  find_run, put_run, persist, stored_run_accepts, harness_run_outcome_adapter_identity_agrees,
}
use sandking.Runs.Observation.{
  unconfirmed_observation, may_terminate, available_recovery_actions, recovery_process_observation,
  parse_observation, observation_accepts, parse_recovery, recovery_accepts,
}
use sandking.Runs.Requests.{request_idempotency_key_hash, attribution_accepts}
use sandking.Runs.Manager.{
  Manager, RecoverCode, RecoverResultCode, RecoverResult, RecoverFailure, RecoverResponse,
  recover_result, recover_failure,
}
use sandking.Runs.Intent.{
  perform, settle_mutation, result_response, apply_action, apply_inspection, act,
  complete_recovery_mutation, answer_mutation,
}
use sandking.Runs.Recover.{
  RecoverRequest, admit_recovery, admit_action, action_is_available, recover, recover_keyed,
  decide_new, refuse, pursue, retain, intent, recover_failure_response, readdressed,
  retained_recovery_mutation,
}
use sandking.Runs.Recovering.{recover-recover}
use sandking.Runs.Finalized.{finalize_recovery}
use sandking.Runs.History.{IsWellFormed, Sequenced, kind_count, terminals}
use sandking.Runs.Query.{observe, read_logs, LogRange}
use sandking.Runs.Resume.{observe_resumes, read_logs_ok}
use sandking.Runs.Samples.{
  created_event, starting_run, manager, hashing, recover_request, recover_facts, run_name,
  digest_text, running_tree,
}

abbrev observation : Observation
observation = unconfirmed_observation running_tree 20 (may_terminate running_tree true)

abbrev recovery : Recovery
recovery = record {
  previous_status = Status.starting;
  detected_at = 20;
  platform = Platform.linux;
  termination_evidence = Evidence.unconfirmed;
  reconciliation_audit_id = "audit-2";
  evidence_schema_version = 2;
  initial_process_observation = observation;
  initial_available_actions = available_recovery_actions observation;
  process_observation = observation;
  available_actions = available_recovery_actions observation;
}

abbrev waiting : Run
waiting = record starting_run {
  status = Status.recovery_required;
  recovery = some recovery;
  events =
      created_event
      ∷ record created_event { sequence = 2; event_type = EventType.harness_run_recovery_required }
      ∷ [];
}

waiting-IsWellFormed : IsWellFormed waiting
unfolding kind_count terminals
waiting-IsWellFormed = ground arith

finalize_recovery_example :
    (run' : Run) × (apply_action recover_facts Action.finalize
        (act recover_facts Action.finalize).0
        recovery
        waiting
      ≡ ok run')
    × IsWellFormed run'
    × (run'.status ≡ (if is_some waiting.cancellation then Status.cancelled else Status.failed))
    × (run'.recovery ≡ none)
finalize_recovery_example =
    finalize_recovery recover_facts recovery waiting waiting-IsWellFormed refl

abbrev one_run : Manager
one_run = manager (waiting ∷ [])

abbrev terminate_request : RecoverRequest
terminate_request = record recover_request { action = some Action.terminate_confirmed_tree }

admitted :
    admit_recovery recover_facts terminate_request (some digest_text) one_run.runs
    ≡ ok Action.terminate_confirmed_tree
unfolding admit_recovery admit_action action_is_available attribution_accepts is_controller_id
    is_harness_run_id find_run unconfirmed_observation may_terminate available_recovery_actions
admitted = refl

abbrev run_or : Run → Result Failure Run → Run
run_or r (ok s) = s
run_or r (err e) = r

abbrev rechecked : Run
rechecked =
    run_or waiting (apply_action recover_facts Action.recheck (some running_tree) recovery waiting)

rechecked_lem :
    apply_action recover_facts Action.recheck (act recover_facts Action.recheck).0 recovery waiting
    ≡ ok rechecked
unfolding apply_action apply_inspection act recovery_process_observation parse_observation
    observation_accepts parse_recovery recovery_accepts unconfirmed_observation may_terminate
    available_recovery_actions
rechecked_lem = refl

two_events-Sequenced : Sequenced 0 waiting.events
two_events-Sequenced = waiting-IsWellFormed.sequenced

observe_resumes_example :
    (take 1 waiting.events ++ (observe 1 waiting).events ≡ waiting.events)
    × ((observe 1 waiting).reason ≡ none)
    × ((observe 1 waiting).next_sequence ≡ length waiting.events)
observe_resumes_example = observe_resumes 1 waiting two_events-Sequenced (omega arith)

abbrev log : List ℕ
log = 104 ∷ 101 ∷ 108 ∷ 108 ∷ 111 ∷ []

read_logs_ok_example :
    (range : LogRange ℕ) × (read_logs 4 log 1 2 ≡ ok range)
    × (take range.start log ++ range.bytes ≡ take range.end log)
    × (length range.bytes ≤ 2)
    × (range.available_end ≡ min 4 (length log))
    × (range.end ≤ range.available_end)
    × (1 < range.available_end → range.start < range.end)
    × (1 ≤ range.available_end → range.start ≡ 1)
read_logs_ok_example = read_logs_ok 4 log 1 2 (omega arith) (omega arith)

abbrev recovery_result : RecoverResult
recovery_result = record {
  request_id = "request-1";
  code = RecoverResultCode.harness_recovery_rechecked;
  idempotency_key_hash = digest_text;
  idempotent_replay = false;
  audit_id = "audit-4";
  harness_run_id = run_name;
  action = Action.recheck;
  run = rechecked;
  recovery = rechecked.recovery;
  outcome = none;
}

abbrev recover_or :
    Manager × RecoverResponse
    → Result Failure (Manager × RecoverResponse)
    → Manager × RecoverResponse
recover_or a (ok b) = b
recover_or a (err e) = a

abbrev recovered : Manager × RecoverResponse
recovered =
    recover_or (one_run, recover_result recovery_result)
      (recover hashing recover_facts recover_request one_run)

recovered_lem :
    recover hashing recover_facts recover_request one_run
    ≡ ok (recovered.0, recover_result recovery_result)
unfolding recover recover_keyed decide_new pursue retain readdressed admit_recovery admit_action
    action_is_available attribution_accepts is_controller_id is_harness_run_id find_run put_run
    persist stored_run_accepts harness_run_outcome_adapter_identity_agrees
    complete_recovery_mutation answer_mutation apply_action apply_inspection act
    recovery_process_observation parse_observation observation_accepts parse_recovery
    recovery_accepts unconfirmed_observation may_terminate available_recovery_actions
    request_idempotency_key_hash is_digest retained_recovery_mutation perform settle_mutation
    result_response intent
recovered_lem = refl

key_of_request :
    request_idempotency_key_hash hashing.digest recover_request.attribution ≡ some digest_text
unfolding request_idempotency_key_hash is_digest
key_of_request = refl

no_recovery : retained_recovery_mutation one_run.recovery_mutations (some digest_text) ≡ none
unfolding retained_recovery_mutation
no_recovery = refl

recover-recover_example :
    recover hashing recover_facts recover_request recovered.0
    ≡ ok (recovered.0, recover_result (record recovery_result { idempotent_replay = true }))
recover-recover_example =
    recover-recover hashing recover_facts recover_facts recover_request one_run recovered.0
      recovery_result digest_text key_of_request no_recovery recovered_lem

-- A run that has not been found to be interrupted cannot be recovered.
abbrev sound : Manager
sound = manager (starting_run ∷ [])

abbrev recovery_refusal : RecoverFailure
recovery_refusal = record {
  request_id = "request-1";
  code = RecoverCode.harness_run_not_recoverable;
  retryable = false;
  idempotency_key_hash = some digest_text;
  idempotent_replay = false;
  audit_id = "audit-4";
  harness_run_id = some run_name;
  action = some Action.recheck;
}

abbrev refused_recovery : Manager × RecoverResponse
refused_recovery =
    recover_or (sound, recover_failure recovery_refusal)
      (recover hashing recover_facts recover_request sound)

refused_recovery_lem :
    recover hashing recover_facts recover_request sound
    ≡ ok (refused_recovery.0, recover_failure recovery_refusal)
unfolding recover recover_keyed decide_new refuse retain admit_recovery admit_action
    attribution_accepts is_controller_id is_harness_run_id find_run persist stored_run_accepts
    harness_run_outcome_adapter_identity_agrees request_idempotency_key_hash is_digest
    retained_recovery_mutation recover_failure_response
refused_recovery_lem = refl
