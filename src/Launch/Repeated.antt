-- ===== src/Launch/Repeated.antt =====
-- What retained responses promise of `launch` in src/harness-runs/operations/launch.mjs.
use sandking.Base.{find-append, ◌≡◌, ap, ◌∙◌, subst, String, str_eq, [], none, some, ok, arith}
use sandking.Runs.Requests.{request_idempotency_key_hash, retained_outcome}
use sandking.Launch.Request.{
  LaunchRequest, LaunchCalls, LaunchStamp, LaunchResponse, LaunchState, LaunchHashing,
  contract_code,
}
use sandking.Launch.Preparation.{Preparation, prepare}
use sandking.Launch.Operation.{
  launch, launch_keyed, launch_new, answer_existing, conclude, fail, accept, retain, replayed,
  with_snapshot,
}
use sandking.Base.{eq_refl}

-- An answer of the operation is retained under the request's key.
conclude-retained :
    (stamp : LaunchStamp) (request : LaunchRequest) (key fingerprint : String) (p : Preparation)
    (s s' : LaunchState) (response : LaunchResponse)
    → retained_outcome s.launch_outcomes (some key) ≡ none
    → conclude stamp request (some key) fingerprint p s ≡ ok (s', response)
    → retained_outcome s'.launch_outcomes (some key)
      ≡ some record {
        idempotency_key_hash = key;
        request_fingerprint = fingerprint;
        response = response;
      }
unfolding conclude fail accept retain retained_outcome
conclude-retained stamp request key fingerprint p s s' response fresh e = ground (
  arith,
  find-append (λ o. str_eq o.idempotency_key_hash key) s.launch_outcomes
      record { idempotency_key_hash = key; request_fingerprint = fingerprint; response = response }
      fresh (eq_refl key),
)

pub launch_keyed-retained :
    (calls : LaunchCalls) (stamp : LaunchStamp) (request : LaunchRequest) (key fingerprint : String)
    (s s' : LaunchState) (response : LaunchResponse)
    → retained_outcome s.launch_outcomes (some key) ≡ none
    → (launch_keyed calls stamp request (some key) fingerprint s).0 ≡ ok (s', response)
    → retained_outcome s'.launch_outcomes (some key)
      ≡ some record {
        idempotency_key_hash = key;
        request_fingerprint = fingerprint;
        response = response;
      }
unfolding launch_keyed launch_new
launch_keyed-retained calls stamp request key fingerprint s s' response fresh e =
    conclude-retained stamp request key fingerprint
      (let p = prepare request calls (contract_code request (some key)) in
        with_snapshot calls p.context p)
      s s' response fresh (ground (arith, fresh, e))

launch_keyed-replayed :
    (calls : LaunchCalls) (stamp : LaunchStamp) (request : LaunchRequest) (key fingerprint : String)
    (s : LaunchState) (response : LaunchResponse)
    → retained_outcome s.launch_outcomes (some key)
      ≡ some record {
        idempotency_key_hash = key;
        request_fingerprint = fingerprint;
        response = response;
      }
    → launch_keyed calls stamp request (some key) fingerprint s
      ≡ (ok (s, replayed request.attribution.request_id response), [])
unfolding launch_keyed answer_existing
launch_keyed-replayed calls stamp request key fingerprint s response found =
    ground (arith, eq_refl fingerprint)

-- A request with a key is carried out once: behind its first answer, which is retained, the same
-- request gets that answer again, whatever the calls would say by then; nothing changes, no run is
-- created, and no provider is acquired.
pub launch-launch :
    (h : LaunchHashing) (calls calls' : LaunchCalls) (stamp stamp' : LaunchStamp)
    (request : LaunchRequest) (s s' : LaunchState) (response : LaunchResponse) (key : String)
    → request_idempotency_key_hash h.digest request.attribution ≡ some key
    → retained_outcome s.launch_outcomes (some key) ≡ none
    → (launch h calls stamp request s).0 ≡ ok (s', response)
    → launch h calls' stamp' request s'
      ≡ (ok (s', replayed request.attribution.request_id response), [])
unfolding launch
launch-launch h calls calls' stamp stamp' request s s' response key keyed fresh e =
    let fingerprint = h.launch_fingerprint request in
    ap (λ hash. launch_keyed calls' stamp' request hash fingerprint s') keyed
    ∙ launch_keyed-replayed calls' stamp' request key fingerprint s' response (
        launch_keyed-retained calls stamp request key fingerprint s s' response fresh (
          subst
            (λ hash. (launch_keyed calls stamp request hash fingerprint s).0 ≡ ok (s', response))
            keyed e))
