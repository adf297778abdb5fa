-- ===== src/Runs/Cancel.antt =====
-- src/harness-runs/operations/cancel.mjs.
use sandking.Base.{
  ℕ, ◌+◌, Bool, true, false, not, ◌&&◌, ◌||◌, String, str_eq, List, [], ◌∷◌, ◌++◌, Option, none,
  some, is_none, any, Result, ok, err, ◌>>=◌, if◌then◌else◌,
}
use sandking.Base.Identifiers.{is_harness_run_id}
use sandking.Runs.Types.{Run, Status, EventType, Failure}
use sandking.Runs.Events.{Stamp, append_event}
use sandking.Runs.State.{find_run, put_run, persist, run_id}
use sandking.Runs.Interruption.{same_status}
use sandking.Runs.Requests.{
  Attribution, attribution_accepts, request_idempotency_key_hash, Retained, retained_outcome,
}
use sandking.Runs.Manager.{
  Manager, CancelCode, CancelResponse, cancel_failure, cancel_result, Effect, prepare_cancellation,
  request_cancellation, Hashing,
}

pub record CancelRequest : Type 0 where
  pub attribution : Attribution
  pub harness_run_id : String

-- The time, the grace period and the ids of one call.
pub record CancelStamp : Type 0 where
  pub now : ℕ
  pub cancellation_grace_ms : ℕ
  pub audit_id : String
  pub event : Stamp

abbrev pub Answer : Type 0
Answer = Manager × CancelResponse × List Effect

unfoldable pub valid_run_id : String → Option String
valid_run_id id = if is_harness_run_id id then some id else none

unfoldable pub failure_response :
    CancelStamp → CancelRequest → Option String → CancelCode → Bool → CancelResponse
unfolding valid_run_id
failure_response stamp request hash code retryable = cancel_failure (record {
  request_id = request.attribution.request_id;
  code = code;
  retryable = retryable;
  idempotency_key_hash = hash;
  idempotent_replay = false;
  audit_id = stamp.audit_id;
  harness_run_id = valid_run_id request.harness_run_id;
})

-- The retained response under the id of the new request.
unfoldable pub replayed : String → CancelResponse → CancelResponse
replayed request_id (cancel_failure f) =
    cancel_failure (record f { request_id = request_id; idempotent_replay = true })
replayed request_id (cancel_result r) =
    cancel_result (record r { request_id = request_id; idempotent_replay = true })

abbrev is_pending_cancellation : Option Run → Bool
is_pending_cancellation none = false
is_pending_cancellation (some run) = same_status run.status Status.cancelling && is_none run.outcome

-- A replayed acceptance is handed to the supervisor again while the run is still being cancelled.
unfoldable pub redispatch : Manager → CancelResponse → Manager × List Effect
redispatch m (cancel_failure f) = (m, [])
redispatch m (cancel_result r) =
    if is_pending_cancellation (find_run r.harness_run_id m.runs)
      && any (λ id. str_eq id r.harness_run_id) m.active_supervisions
    then (
      record m {
        accepted_cancellations =
            (r.harness_run_id, r.cooperative_deadline_at) ∷ m.accepted_cancellations;
      },
      request_cancellation r.harness_run_id r.cooperative_deadline_at ∷ [],
    )
    else (m, [])

unfoldable pub replay :
    CancelStamp → CancelRequest → String → String → Retained CancelResponse → Manager → Answer
unfolding failure_response replayed redispatch
replay stamp request hash fingerprint existing m =
    if str_eq existing.request_fingerprint fingerprint
    then (let (m', effects) = redispatch m existing.response in
        (m', replayed request.attribution.request_id existing.response, effects))
    else (
      m,
      failure_response stamp request (some hash) CancelCode.idempotency_key_conflict false,
      [],
    )

abbrev is_settled : Status → Bool
is_settled Status.recovery_required = true
is_settled Status.succeeded = true
is_settled Status.failed = true
is_settled Status.cancelled = true
is_settled _ = false

unfoldable pub is_cancellable : Run → Bool
is_cancellable run = is_none run.outcome && is_none run.cancellation && not (is_settled run.status)

-- The run to cancel, or the code of the refusal.
unfoldable pub admit : CancelRequest → Option String → List Run → Result CancelCode Run
unfolding is_cancellable
admit request hash runs =
    if not (attribution_accepts "harness_run_cancellation" request.attribution)
      || is_none hash
      || not (is_harness_run_id request.harness_run_id)
    then err CancelCode.mutation_contract_invalid
    else elim (find_run request.harness_run_id runs) [
      | none ↦ err CancelCode.harness_run_not_found
      | some run ↦ if is_cancellable run then ok run else err CancelCode.harness_run_not_cancellable
    ]

abbrev is_not_found : CancelCode → Bool
is_not_found CancelCode.harness_run_not_found = true
is_not_found _ = false

unfoldable pub retain : String → String → CancelResponse → Manager → Manager
retain hash fingerprint response m = record m {
  cancellation_outcomes =
      m.cancellation_outcomes
      ++ record {
        idempotency_key_hash = hash;
        request_fingerprint = fingerprint;
        response = response;
      }
        ∷ [];
}

unfoldable pub refuse :
    CancelStamp
    → CancelRequest
    → Option String
    → String
    → CancelCode
    → Manager
    → Result Failure Answer
unfolding failure_response retain
refuse stamp request none fingerprint code m =
    ok (m, failure_response stamp request none code (is_not_found code), [])
refuse stamp request (some hash) fingerprint code m =
    let response = failure_response stamp request (some hash) code (is_not_found code) in
    persist m.runs >>= λ runs. ok (retain hash fingerprint response m, response, [])

-- The run whose cancellation is accepted.
unfoldable pub accept_cancellation : CancelStamp → String → Run → Result Failure Run
accept_cancellation stamp hash run =
    append_event stamp.event
      (record run {
        status = Status.cancelling;
        revision = run.revision + 1;
        cancellation = some (record {
          accepted_at = stamp.now;
          cooperative_deadline_at = stamp.now + stamp.cancellation_grace_ms;
          cancellation_audit_id = stamp.audit_id;
          cancellation_key_hash = hash;
          cooperative_signal_sent_at = none;
          forced_termination_sent_at = none;
          termination_confirmed_at = none;
        });
      })
      EventType.harness_run_cancellation_accepted none none

-- The supervisor, where there is one, prepares before the commit and is asked behind it.
unfoldable pub dispatch : String → ℕ → List String → List Effect
dispatch id deadline active =
    if any (λ a. str_eq a id) active
    then prepare_cancellation id ∷ request_cancellation id deadline ∷ []
    else []

unfoldable pub accept :
    CancelStamp → CancelRequest → String → String → Run → Manager → Result Failure Answer
unfolding retain dispatch
accept stamp request hash fingerprint run m =
    let id = run_id run in
    let deadline = stamp.now + stamp.cancellation_grace_ms in
    let response : CancelResponse = cancel_result (record {
      request_id = request.attribution.request_id;
      idempotency_key_hash = hash;
      idempotent_replay = false;
      audit_id = stamp.audit_id;
      harness_run_id = id;
      accepted_at = stamp.now;
      cooperative_deadline_at = deadline;
    }) in
    accept_cancellation stamp hash run >>= λ run'.
    persist (put_run request.harness_run_id run' m.runs) >>= λ runs. ok (
      record (retain hash fingerprint response m) {
        runs = runs;
        accepted_cancellations = (id, deadline) ∷ m.accepted_cancellations;
      },
      response,
      dispatch id deadline m.active_supervisions,
    )

unfoldable pub decide_new :
    CancelStamp → CancelRequest → Option String → String → Manager → Result Failure Answer
unfolding admit refuse accept
decide_new stamp request hash fingerprint m = elim (admit request hash m.runs) [
  | err code ↦ refuse stamp request hash fingerprint code m
  | ok run ↦ elim hash [
    | none ↦ refuse stamp request none fingerprint CancelCode.mutation_contract_invalid m
    | some h ↦ accept stamp request h fingerprint run m
  ]
]

unfoldable pub cancel_keyed :
    CancelStamp → CancelRequest → Option String → String → Manager → Result Failure Answer
unfolding decide_new replay
cancel_keyed stamp request hash fingerprint m =
    elim (retained_outcome m.cancellation_outcomes hash) [
      | none ↦ decide_new stamp request hash fingerprint m
      | some existing ↦
          ok (replay stamp request existing.idempotency_key_hash fingerprint existing m)
    ]

abbrev pub request_fingerprint_of : Hashing → CancelRequest → String
request_fingerprint_of h request =
    h.cancellation_fingerprint request.harness_run_id request.attribution.controller_session_id
      request.attribution.source request.attribution.authorization_class

-- `cancel`, under the mutation lock.
unfoldable pub cancel : Hashing → CancelStamp → CancelRequest → Manager → Result Failure Answer
unfolding cancel_keyed
cancel h stamp request m =
    cancel_keyed stamp request (request_idempotency_key_hash h.digest request.attribution)
      (request_fingerprint_of h request) m
