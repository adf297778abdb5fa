-- ===== src/Launch/Lookup.antt =====
-- `lookup` and `lookupRecovery` of src/harness-runs/operations/queries.mjs: what a caller that has lost
-- its answer learns of a launch or a recovery.
use sandking.Base.{
  ◌≡◌, subst, Bool, true, false, String, List, Option, none, some, is_some, is_none, ok, arith,
}
use sandking.Runs.Requests.{Attribution, request_idempotency_key_hash, Retained, retained_outcome}
use sandking.Runs.Manager.{RecoveryMutation, RecoverResponse}
use sandking.Runs.Recover.{retained_recovery_mutation}
use sandking.Launch.Request.{
  LaunchRequest, LaunchCalls, LaunchStamp, LaunchResponse, LaunchState, LaunchHashing,
}
use sandking.Launch.Operation.{launch, launch_keyed}
use sandking.Launch.Repeated.{launch_keyed-retained}

pub data LookupCode : Type 0 where
  harness_run_launch_outcome_found harness_run_launch_outcome_absent : LookupCode
  harness_recovery_outcome_found harness_recovery_outcome_absent : LookupCode

pub record Lookup : Type 0 where
  pub request_id : String
  pub code : LookupCode
  pub idempotency_key_hash : Option String
  pub found : Bool
  pub launch_outcome : Option LaunchResponse

pub record RecoveryLookup : Type 0 where
  pub request_id : String
  pub code : LookupCode
  pub idempotency_key_hash : Option String
  pub found : Bool
  pub pending : Bool
  pub recovery_outcome : Option RecoverResponse

looked_up : Attribution → Option String → Option (Retained LaunchResponse) → Lookup
looked_up a hash none = record {
  request_id = a.request_id;
  code = harness_run_launch_outcome_absent;
  idempotency_key_hash = hash;
  found = false;
  launch_outcome = none;
}
looked_up a hash (some existing) = record {
  request_id = a.request_id;
  code = harness_run_launch_outcome_found;
  idempotency_key_hash = hash;
  found = true;
  launch_outcome = some existing.response;
}

-- Of the attribution only the request's id and its key are used.
unfoldable pub lookup : (String → String) → Attribution → LaunchState → Lookup
unfolding looked_up
lookup digest a state =
    let hash = request_idempotency_key_hash digest a in
    looked_up a hash (retained_outcome state.launch_outcomes hash)

recovery_looked_up : Attribution → Option String → Option RecoveryMutation → RecoveryLookup
recovery_looked_up a hash none = record {
  request_id = a.request_id;
  code = harness_recovery_outcome_absent;
  idempotency_key_hash = hash;
  found = false;
  pending = false;
  recovery_outcome = none;
}
recovery_looked_up a hash (some existing) = record {
  request_id = a.request_id;
  code = harness_recovery_outcome_found;
  idempotency_key_hash = hash;
  found = is_some existing.response;
  pending = is_none existing.response;
  recovery_outcome = existing.response;
}

unfoldable pub lookup_recovery :
    (String → String) → Attribution → List RecoveryMutation → RecoveryLookup
unfolding recovery_looked_up
lookup_recovery digest a mutations =
    let hash = request_idempotency_key_hash digest a in
    recovery_looked_up a hash (retained_recovery_mutation mutations hash)

-- Behind the first answer to a launch with a key, who looks up that key, under whatever id, finds the
-- answer.
pub launch-lookup :
    (h : LaunchHashing) (calls : LaunchCalls) (stamp : LaunchStamp) (request : LaunchRequest)
    (s s' : LaunchState) (response : LaunchResponse) (key : String) (a : Attribution)
    → request_idempotency_key_hash h.digest request.attribution ≡ some key
    → retained_outcome s.launch_outcomes (some key) ≡ none
    → (launch h calls stamp request s).0 ≡ ok (s', response)
    → request_idempotency_key_hash h.digest a ≡ some key
    → lookup h.digest a s' ≡ record {
      request_id = a.request_id;
      code = harness_run_launch_outcome_found;
      idempotency_key_hash = some key;
      found = true;
      launch_outcome = some response;
    }
unfolding launch lookup
launch-lookup h calls stamp request s s' response key a keyed fresh e same = ground (
  arith,
  same,
  launch_keyed-retained calls stamp request key (h.launch_fingerprint request) s s' response fresh (
      subst
        (λ hash.
          (launch_keyed calls stamp request hash (h.launch_fingerprint request) s).0
          ≡ ok (s', response))
        keyed e),
)
