-- ===== src/Runs/CancelTrials.antt =====
-- The theorems about the requests to cancel, on concrete ones.
use sandking.Base.{◌≡◌, refl, true, false, List, [], ◌∷◌, none, some, all, Result, ok, err, arith}
use sandking.Base.Identifiers.{is_harness_run_id, is_digest, is_controller_id}
use sandking.Runs.Types.{Run, Failure}
use sandking.Runs.Events.{append_event}
use sandking.Runs.State.{
  find_run, put_run, persist, stored_run_accepts, harness_run_outcome_adapter_identity_agrees,
}
use sandking.Runs.Requests.{
  Retained, retained_outcome, request_idempotency_key_hash, attribution_accepts,
}
use sandking.Runs.Manager.{
  Manager, CancelCode, CancelFailure, CancelResult, CancelResponse, cancel_failure, cancel_result,
  Effect,
}
use sandking.Runs.Cancel.{
  decide_new, admit, accept, refuse, cancel_keyed, Answer, cancel, is_cancellable,
  accept_cancellation, replayed, failure_response,
}
use sandking.Runs.Admission.{IsCancelling, cancel_accepted, cancel_answers}
use sandking.Runs.Replay.{cancel-cancel}
use sandking.Runs.History.{IsWellFormed}
use sandking.Runs.Samples.{
  starting_run, starting_run-IsWellFormed, cancelling_run, manager, hashing, cancel_request,
  cancel_stamp, run_name, digest_text,
}

abbrev one_run : Manager
one_run = manager (starting_run ∷ [])

only_run-IsWellFormed :
    (run : Run) → find_run run_name (starting_run ∷ []) ≡ some run → IsWellFormed run
unfolding find_run
only_run-IsWellFormed run found = ground (arith, starting_run-IsWellFormed)

only_run-stored : all stored_run_accepts (starting_run ∷ []) ≡ true
unfolding stored_run_accepts harness_run_outcome_adapter_identity_agrees
only_run-stored = refl

cancel_answers_example :
    (answer : Answer) × (cancel hashing cancel_stamp cancel_request one_run ≡ ok answer)
cancel_answers_example =
    cancel_answers hashing cancel_stamp cancel_request one_run only_run-stored only_run-IsWellFormed

abbrev answer_or : Answer → Result Failure Answer → Answer
answer_or a (ok b) = b
answer_or a (err e) = a

abbrev accepted : Answer
accepted =
    answer_or
      (
        one_run,
        cancel_failure (record {
          request_id = "";
          code = CancelCode.harness_run_not_found;
          retryable = true;
          idempotency_key_hash = none;
          idempotent_replay = false;
          audit_id = "";
          harness_run_id = none;
        }),
        [],
      )
      (cancel hashing cancel_stamp cancel_request one_run)

abbrev acceptance : CancelResult
acceptance = record {
  request_id = "request-1";
  idempotency_key_hash = digest_text;
  idempotent_replay = false;
  audit_id = "audit-3";
  harness_run_id = run_name;
  accepted_at = 5;
  cooperative_deadline_at = 15;
}

accepted_lem :
    cancel hashing cancel_stamp cancel_request one_run
    ≡ ok (accepted.0, cancel_result acceptance, accepted.2)
unfolding cancel retained_outcome request_idempotency_key_hash is_digest attribution_accepts
    is_controller_id is_harness_run_id find_run is_cancellable accept_cancellation append_event
    put_run persist stored_run_accepts harness_run_outcome_adapter_identity_agrees decide_new admit
    accept refuse cancel_keyed
accepted_lem = refl

cancel_accepted_example :
    (run : Run) × (run' : Run) × (find_run run_name one_run.runs ≡ some run)
    × (is_cancellable run ≡ true)
    × (attribution_accepts "harness_run_cancellation" cancel_request.attribution ≡ true)
    × (accepted.0.runs ≡ put_run run_name run' one_run.runs)
    × IsCancelling cancel_stamp acceptance run run' one_run accepted.0 accepted.2
cancel_accepted_example =
    cancel_accepted hashing cancel_stamp cancel_request one_run accepted.0 acceptance accepted.2
      accepted_lem refl

keyed : request_idempotency_key_hash hashing.digest cancel_request.attribution ≡ some digest_text
unfolding request_idempotency_key_hash is_digest
keyed = refl

unanswered : retained_outcome one_run.cancellation_outcomes (some digest_text) ≡ none
unfolding retained_outcome
unanswered = refl

cancel-cancel_example :
    (m'' : Manager) × (effects' : List Effect) × (cancel hashing cancel_stamp cancel_request
        accepted.0
      ≡ ok (m'', replayed "request-1" (cancel_result acceptance), effects'))
    × (m''.runs ≡ accepted.0.runs)
    × (m''.cancellation_outcomes ≡ accepted.0.cancellation_outcomes)
cancel-cancel_example =
    cancel-cancel hashing cancel_stamp cancel_stamp cancel_request one_run accepted.0
      (cancel_result acceptance) accepted.2 digest_text keyed unanswered accepted_lem

abbrev entry : Retained CancelResponse
entry = record {
  idempotency_key_hash = digest_text;
  request_fingerprint = "another request";
  response = cancel_result acceptance;
}

abbrev answered : Manager
answered = record one_run { cancellation_outcomes = entry ∷ [] }

answered_lem :
    retained_outcome answered.cancellation_outcomes
      (request_idempotency_key_hash hashing.digest cancel_request.attribution)
    ≡ some entry
unfolding retained_outcome request_idempotency_key_hash is_digest
answered_lem = refl

-- A run that is being cancelled already is not cancelled again.
abbrev busy : Manager
busy = manager (cancelling_run ∷ [])

abbrev refusal : CancelFailure
refusal = record {
  request_id = "request-1";
  code = CancelCode.harness_run_not_cancellable;
  retryable = false;
  idempotency_key_hash = some digest_text;
  idempotent_replay = false;
  audit_id = "audit-3";
  harness_run_id = some run_name;
}

abbrev refused : Answer
refused =
    answer_or (busy, cancel_failure refusal, []) (cancel hashing cancel_stamp cancel_request busy)

refused_lem :
    cancel hashing cancel_stamp cancel_request busy
    ≡ ok (refused.0, cancel_failure refusal, refused.2)
unfolding cancel retained_outcome request_idempotency_key_hash is_digest attribution_accepts
    is_controller_id is_harness_run_id find_run is_cancellable persist stored_run_accepts
    harness_run_outcome_adapter_identity_agrees decide_new admit refuse cancel_keyed
    failure_response
refused_lem = refl
