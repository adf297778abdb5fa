-- ===== src/Runs/Recover.antt =====
-- `recover` of src/harness-runs/operations/recover.mjs: a request becomes a retained intent.
use sandking.Base.{
  Bool, true, false, not, ◌&&◌, ◌||◌, String, str_eq, List, [], ◌∷◌, ◌++◌, Option, none, some,
  is_none, any, find, Result, ok, err, ◌>>=◌, if◌then◌else◌,
}
use sandking.Base.Identifiers.{is_harness_run_id}
use sandking.Runs.Types.{Run, Action, Recovery, Failure}
use sandking.Runs.State.{find_run, persist}
use sandking.Runs.Observation.{same_action}
use sandking.Runs.Requests.{Attribution, attribution_accepts, request_idempotency_key_hash}
use sandking.Runs.Manager.{
  Manager, RecoveryMutation, RecoverCode, RecoverResponse, recover_failure, recover_result, Hashing,
}
use sandking.Runs.Intent.{RecoverFacts, recoverable, complete_recovery_mutation}

pub record RecoverRequest : Type 0 where
  pub attribution : Attribution
  pub harness_run_id : String
  pub action : Option Action

unfoldable pub readdressed : String → Bool → RecoverResponse → RecoverResponse
readdressed request_id replay (recover_failure r) =
    recover_failure (record r { request_id = request_id; idempotent_replay = replay })
readdressed request_id replay (recover_result r) =
    recover_result (record r { request_id = request_id; idempotent_replay = replay })

unfoldable pub valid_run_id : String → Option String
valid_run_id id = if is_harness_run_id id then some id else none

unfoldable pub recover_failure_response :
    RecoverFacts → RecoverRequest → Option String → RecoverCode → Bool → RecoverResponse
unfolding valid_run_id
recover_failure_response f request hash code retryable = recover_failure (record {
  request_id = request.attribution.request_id;
  code = code;
  retryable = retryable;
  idempotency_key_hash = hash;
  idempotent_replay = false;
  audit_id = f.audit_id;
  harness_run_id = valid_run_id request.harness_run_id;
  action = request.action;
})

-- Whether the action is offered for the run, and terminating it is safe.
unfoldable pub action_is_available : Bool → Action → Recovery → Bool
action_is_available termination_available action recovery =
    any (same_action action) recovery.available_actions
    && (not (same_action action Action.terminate_confirmed_tree)
        || (termination_available && recovery.process_observation.safe_to_terminate))

unfoldable pub admit_action : Bool → Action → Option Run → Result RecoverCode Action
unfolding action_is_available
admit_action available action none = err RecoverCode.harness_run_not_found
admit_action available action (some run) = elim (recoverable (some run)) [
  | none ↦ err RecoverCode.harness_run_not_recoverable
  | some (r, recovery) ↦
      if action_is_available available action recovery
      then ok action
      else err RecoverCode.harness_recovery_action_not_available
]

unfoldable pub admit_recovery :
    RecoverFacts → RecoverRequest → Option String → List Run → Result RecoverCode Action
unfolding admit_action
admit_recovery f request hash runs = elim request.action [
  | none ↦ err RecoverCode.mutation_contract_invalid
  | some action ↦
      if not (attribution_accepts "harness_run_recovery" request.attribution)
        || is_none hash
        || not (is_harness_run_id request.harness_run_id)
      then err RecoverCode.mutation_contract_invalid
      else admit_action f.termination_available action (find_run request.harness_run_id runs)
]

-- The mutation that is retained under a key.
unfoldable pub retained_recovery_mutation :
    List RecoveryMutation → Option String → Option RecoveryMutation
retained_recovery_mutation mutations none = none
retained_recovery_mutation mutations (some hash) =
    find (λ m. str_eq m.idempotency_key_hash hash) mutations

abbrev pub answer_of :
    Option RecoverResponse
    → RecoverFacts
    → RecoveryMutation
    → Manager
    → Result Failure (Manager × RecoverResponse)
answer_of (some response) f existing m = ok (m, response)
answer_of none f existing m = complete_recovery_mutation f existing m

unfoldable pub replay :
    RecoverFacts
    → RecoverRequest
    → String
    → RecoveryMutation
    → Manager
    → Result Failure (Manager × RecoverResponse)
unfolding recover_failure_response
replay f request fingerprint existing m =
    if str_eq existing.request_fingerprint fingerprint
    then (answer_of existing.response f existing m >>= λ (m', response).
        ok (m', readdressed request.attribution.request_id true response))
    else ok (
      m,
      recover_failure_response f request (some existing.idempotency_key_hash)
          RecoverCode.idempotency_key_conflict false,
    )

unfoldable pub intent : RecoverFacts → RecoverRequest → String → String → Action → RecoveryMutation
intent f request hash fingerprint action = record {
  idempotency_key_hash = hash;
  request_fingerprint = fingerprint;
  harness_run_id = request.harness_run_id;
  action = action;
  accepted_at = f.accepted_at;
  audit_id = f.audit_id;
  response = none;
}

unfoldable pub retain : RecoveryMutation → Manager → Result Failure Manager
retain mutation m = persist m.runs >>= λ runs.
    ok (record m { runs = runs; recovery_mutations = m.recovery_mutations ++ mutation ∷ [] })

abbrev is_not_found : RecoverCode → Bool
is_not_found RecoverCode.harness_run_not_found = true
is_not_found _ = false

-- A refusal is retained if the request has a key, a run id and an action.
unfoldable pub refuse :
    RecoverFacts
    → RecoverRequest
    → Option String
    → String
    → RecoverCode
    → Manager
    → Result Failure (Manager × RecoverResponse)
unfolding recover_failure_response intent retain
refuse f request hash fingerprint code m =
    let response = recover_failure_response f request hash code (is_not_found code) in
    elim hash [
      | none ↦ ok (m, response)
      | some h ↦ elim request.action [
        | none ↦ ok (m, response)
        | some action ↦
            if is_harness_run_id request.harness_run_id
            then (retain
                  (record (intent f request h fingerprint action) { response = some response }) m
                >>= λ m'. ok (m', response))
            else ok (m, response)
      ]
    ]

-- The intent is retained before the action, and its response behind it.
unfoldable pub pursue :
    RecoverFacts
    → RecoverRequest
    → String
    → String
    → Action
    → Manager
    → Result Failure (Manager × RecoverResponse)
unfolding intent retain
pursue f request hash fingerprint action m =
    let mutation = intent f request hash fingerprint action in
    retain mutation m >>= λ m'. complete_recovery_mutation f mutation m' >>= λ (m'', response).
    ok (m'', readdressed request.attribution.request_id false response)

unfoldable pub decide_new :
    RecoverFacts
    → RecoverRequest
    → Option String
    → String
    → Manager
    → Result Failure (Manager × RecoverResponse)
unfolding refuse pursue
decide_new f request none fingerprint m =
    refuse f request none fingerprint RecoverCode.mutation_contract_invalid m
decide_new f request (some hash) fingerprint m =
    elim (admit_recovery f request (some hash) m.runs) [
      | err code ↦ refuse f request (some hash) fingerprint code m
      | ok action ↦ pursue f request hash fingerprint action m
    ]

unfoldable pub recover_keyed :
    RecoverFacts
    → RecoverRequest
    → Option String
    → String
    → Manager
    → Result Failure (Manager × RecoverResponse)
unfolding decide_new replay
recover_keyed f request hash fingerprint m =
    elim (retained_recovery_mutation m.recovery_mutations hash) [
      | none ↦ decide_new f request hash fingerprint m
      | some existing ↦ replay f request fingerprint existing m
    ]

abbrev pub recovery_fingerprint_of : Hashing → RecoverRequest → String
recovery_fingerprint_of h request =
    h.recovery_fingerprint request.harness_run_id request.action
      request.attribution.controller_session_id request.attribution.source
      request.attribution.authorization_class

-- `recover`, under the mutation lock.
unfoldable pub recover :
    Hashing → RecoverFacts → RecoverRequest → Manager → Result Failure (Manager × RecoverResponse)
unfolding recover_keyed
recover h f request m =
    recover_keyed f request (request_idempotency_key_hash h.digest request.attribution)
      (recovery_fingerprint_of h request) m
