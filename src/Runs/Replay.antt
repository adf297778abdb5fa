-- ===== src/Runs/Replay.antt =====
-- What retained responses promise of `cancel` in src/harness-runs/operations/cancel.mjs.
use sandking.Base.{
  find-append, ◌≡◌, ap, ◌∙◌, false, String, str_eq, List, Option, none, some, ok, arith, eq_refl,
  if◌then◌else◌,
}
use sandking.Runs.Requests.{Retained, retained_outcome, request_idempotency_key_hash}
use sandking.Runs.Manager.{Manager, CancelCode, CancelResponse, Effect, Hashing}
use sandking.Runs.Cancel.{
  CancelRequest, CancelStamp, cancel, cancel_keyed, decide_new, refuse, accept, retain, replay,
  redispatch, replayed, failure_response, request_fingerprint_of,
}

-- The response that a key has retained.
abbrev pub Retains : Option String → String → CancelResponse → Manager → Type 0
Retains hash fingerprint response m =
    (entry : Retained CancelResponse) × (retained_outcome m.cancellation_outcomes hash ≡ some entry)
    × (entry.request_fingerprint ≡ fingerprint)
    × (entry.response ≡ response)

-- A request under a key that has been answered changes neither a run nor a retained response. The
-- same request gets its response again, any other one a conflict.
pub cancel_again :
    (h : Hashing) (stamp : CancelStamp) (request : CancelRequest) (m : Manager)
    (entry : Retained CancelResponse)
    → retained_outcome m.cancellation_outcomes
        (request_idempotency_key_hash h.digest request.attribution)
      ≡ some entry
    → (m' : Manager) × (response : CancelResponse) × (effects : List Effect) × (cancel h stamp
          request m
        ≡ ok (m', response, effects))
      × (m'.runs ≡ m.runs)
      × (m'.cancellation_outcomes ≡ m.cancellation_outcomes)
      × (response ≡ (
          if str_eq entry.request_fingerprint (request_fingerprint_of h request)
          then replayed request.attribution.request_id entry.response
          else failure_response stamp request
              (some entry.idempotency_key_hash)
              CancelCode.idempotency_key_conflict
              false))
unfolding cancel cancel_keyed replay redispatch
cancel_again h stamp request m entry e =
    let (m', response, effects) =
      replay stamp request entry.idempotency_key_hash (request_fingerprint_of h request) entry m in
    (m', response, effects, ground arith, ground arith, ground arith, ground arith)

-- The first response to a request with a key is retained under it.
cancel-Retains :
    (h : Hashing) (stamp : CancelStamp) (request : CancelRequest) (m m' : Manager)
    (response : CancelResponse) (effects : List Effect) (key : String)
    → request_idempotency_key_hash h.digest request.attribution ≡ some key
    → retained_outcome m.cancellation_outcomes (some key) ≡ none
    → cancel h stamp request m ≡ ok (m', response, effects)
    → retained_outcome m'.cancellation_outcomes (some key)
      ≡ some (record {
        idempotency_key_hash = key;
        request_fingerprint = request_fingerprint_of h request;
        response = response;
      })
unfolding cancel cancel_keyed decide_new refuse accept retain retained_outcome
cancel-Retains h stamp request m m' response effects key keyed fresh answered = ground (
  arith,
  find-append (λ o. str_eq o.idempotency_key_hash key) m.cancellation_outcomes
      (record {
        idempotency_key_hash = key;
        request_fingerprint = request_fingerprint_of h request;
        response = response;
      })
      fresh (eq_refl key),
)

-- Behind the answer to a request to cancel under a key that was new, the same request, at any time, gets
-- that answer again, and leaves the runs and the retained answers as they are.
pub cancel-cancel :
    (h : Hashing) (stamp stamp' : CancelStamp) (request : CancelRequest) (m m' : Manager)
    (response : CancelResponse) (effects : List Effect) (key : String)
    → request_idempotency_key_hash h.digest request.attribution ≡ some key
    → retained_outcome m.cancellation_outcomes (some key) ≡ none
    → cancel h stamp request m ≡ ok (m', response, effects)
    → (m'' : Manager) × (effects' : List Effect) × (cancel h stamp' request m'
        ≡ ok (m'', replayed request.attribution.request_id response, effects'))
      × (m''.runs ≡ m'.runs)
      × (m''.cancellation_outcomes ≡ m'.cancellation_outcomes)
cancel-cancel h stamp stamp' request m m' response effects key keyed fresh answered =
    let (m'', response', effects', made, runs, outcomes, same) =
      cancel_again h stamp' request m' _ (
        ap (retained_outcome m'.cancellation_outcomes) keyed
        ∙ cancel-Retains h stamp request m m' response effects key keyed fresh answered) in
    (
      m'',
      effects',
      ground (arith, made, same, eq_refl (request_fingerprint_of h request)),
      runs,
      outcomes,
    )
