-- ===== src/Launch/Held.antt =====
-- Failed launches of src/harness-runs/operations/launch.mjs, and that every launch is answered.
use sandking.Base.{
  any, ◌++◌, ◌&&◌, some, is_some, if◌then◌else◌, all-append, ℕ, ◌≡◌, refl, inl, inr, Bool, true,
  false, not, String, List, [], ◌∷◌, Option, none, Result, ok, err, Option-cases, arith, all,
}
use sandking.Runs.Types.{Run, EventType, Failure}
use sandking.Runs.Events.{append_event, next_event}
use sandking.Runs.State.{persist, stored_run_accepts, harness_run_outcome_adapter_identity_agrees}
use sandking.Runs.Requests.{request_idempotency_key_hash}
use sandking.Launch.Request.{
  LaunchRequest, Context, Prepared, LaunchCalls, LaunchStamp, launch_failure, launch_result,
  LaunchState, LaunchEffect, is_acquire, is_rollback, is_supervise, acquire, LaunchHashing,
  contract_code,
}
use sandking.Launch.Preparation.{
  Preparation, prepare, prepare_context, validate, check_prepared, catch_preparation, take_snapshot,
}
use sandking.Launch.Operation.{
  LaunchAnswer, launch, launch_keyed, launch_new, conclude, fail, accept, retain, create_run,
  new_run, effects_of, reply, with_snapshot, launch_failure_of, launch_result_of,
}
use sandking.Base.{count, is_ok}

-- How often the effects acquire a provider without rolling it back, and supervise a run.
abbrev pub acquisitions : List LaunchEffect → ℕ
acquisitions = count is_acquire

abbrev pub rollbacks : List LaunchEffect → ℕ
rollbacks = count is_rollback

abbrev pub supervisions : List LaunchEffect → ℕ
supervisions = count is_supervise

-- The launch has created a run.
abbrev pub is_created : Result Failure LaunchAnswer → Bool
is_created (err e) = false
is_created (ok (s', launch_failure f)) = false
is_created (ok (s', launch_result r)) = not r.idempotent_replay

-- The retained runs behind a call; a call that throws has written nothing.
abbrev pub runs_behind : LaunchState → Result Failure LaunchAnswer → List Run
runs_behind s (err e) = s.runs
runs_behind s (ok (s', response)) = s'.runs

-- The preparation holds a provider exactly where it has acquired one.
prepare-effects :
    (request : LaunchRequest) (calls : LaunchCalls) (code : Option String)
    → (prepare request calls code).effects
      ≡ (if (prepare request calls code).holds_provider then acquire ∷ [] else [])
unfolding prepare prepare_context validate check_prepared catch_preparation
prepare-effects request calls code = ground arith

with_snapshot-effects :
    (calls : LaunchCalls) (context : Option Context) (p : Preparation)
    → p.effects ≡ (if p.holds_provider then acquire ∷ [] else [])
    → (with_snapshot calls context p).effects
      ≡ (if (with_snapshot calls context p).holds_provider then acquire ∷ [] else [])
unfolding take_snapshot
with_snapshot-effects calls none p h = h
with_snapshot-effects calls (some context) p h = ground arith

conclude_failed :
    (stamp : LaunchStamp) (request : LaunchRequest) (hash : Option String) (fingerprint : String)
    (p : Preparation) (s : LaunchState)
    → p.effects ≡ (if p.holds_provider then acquire ∷ [] else [])
    → is_created (conclude stamp request hash fingerprint p s) ≡ false
    → let answer = conclude stamp request hash fingerprint p s in
      (runs_behind s answer ≡ s.runs)
      × (supervisions (p.effects ++ effects_of p.holds_provider answer) ≡ 0)
      × (rollbacks (p.effects ++ effects_of p.holds_provider answer)
          ≡ acquisitions (p.effects ++ effects_of p.holds_provider answer))
unfolding conclude fail accept retain persist launch_failure_of launch_result_of effects_of
conclude_failed stamp request hash fingerprint p s h e = ground arith

launch_keyed_failed :
    (calls : LaunchCalls) (stamp : LaunchStamp) (request : LaunchRequest) (hash : Option String)
    (fingerprint : String) (s : LaunchState)
    → is_created (launch_keyed calls stamp request hash fingerprint s).0 ≡ false
    → (runs_behind s (launch_keyed calls stamp request hash fingerprint s).0 ≡ s.runs)
      × (supervisions (launch_keyed calls stamp request hash fingerprint s).1 ≡ 0)
      × (rollbacks (launch_keyed calls stamp request hash fingerprint s).1
          ≡ acquisitions (launch_keyed calls stamp request hash fingerprint s).1)
unfolding launch_keyed launch_new
launch_keyed_failed calls stamp request hash fingerprint s e =
    let p = prepare request calls (contract_code request hash) in
    ground (
      arith,
      conclude_failed stamp request hash fingerprint (with_snapshot calls p.context p) s (
          with_snapshot-effects calls p.context p
            (prepare-effects request calls (contract_code request hash))),
    )

-- A launch that creates no run, whatever it fails for or throws, leaves the retained runs as they were,
-- supervises nothing, and calls the rollback of each provider that it has acquired.
pub launch_failed :
    (h : LaunchHashing) (calls : LaunchCalls) (stamp : LaunchStamp) (request : LaunchRequest)
    (s : LaunchState)
    → is_created (launch h calls stamp request s).0 ≡ false
    → (runs_behind s (launch h calls stamp request s).0 ≡ s.runs)
      × (supervisions (launch h calls stamp request s).1 ≡ 0)
      × (rollbacks (launch h calls stamp request s).1
          ≡ acquisitions (launch h calls stamp request s).1)
unfolding launch
launch_failed h calls stamp request s =
    launch_keyed_failed calls stamp request
      (request_idempotency_key_hash h.digest request.attribution) (h.launch_fingerprint request) s

create_run_stored :
    (stamp : LaunchStamp) (context : Context) (prepared : Prepared)
    → (run : Run) × (create_run stamp context prepared ≡ ok run) × (stored_run_accepts run ≡ true)
unfolding create_run append_event next_event stored_run_accepts
    harness_run_outcome_adapter_identity_agrees
create_run_stored stamp context prepared = (
  record (new_run stamp context prepared) {
    events =
        next_event stamp.event (new_run stamp context prepared) EventType.harness_run_created none
          none
        ∷ [];
  },
  refl,
  refl,
)

accept_answers :
    (stamp : LaunchStamp) (request : LaunchRequest) (key fingerprint : String) (context : Context)
    (prepared : Prepared) (s : LaunchState)
    → all stored_run_accepts s.runs ≡ true
    → is_ok (accept stamp request key fingerprint context prepared s) ≡ true
unfolding accept retain persist
accept_answers stamp request key fingerprint context prepared s h =
    let (run, made, stored) = create_run_stored stamp context prepared in
    ground (arith, made, all-append stored_run_accepts s.runs (run ∷ []), h, stored)

conclude_answers :
    (stamp : LaunchStamp) (request : LaunchRequest) (hash : Option String) (fingerprint : String)
    (p : Preparation) (s : LaunchState)
    → all stored_run_accepts s.runs ≡ true
    → is_ok (conclude stamp request hash fingerprint p s) ≡ true
unfolding conclude fail retain persist
conclude_answers stamp request hash fingerprint p s h = elim (Option-cases hash) [
  | inl keyless ↦ ground arith
  | inr (key, keyed) ↦ elim (Option-cases p.context) [
    | inl missing ↦ ground arith
    | inr (context, found) ↦ elim (Option-cases p.prepared) [
      | inl missing ↦ ground arith
      | inr (prepared, ready) ↦
          ground (arith, accept_answers stamp request key fingerprint context prepared s h)
    ]
  ]
]

launch_keyed_answers :
    (calls : LaunchCalls) (stamp : LaunchStamp) (request : LaunchRequest) (hash : Option String)
    (fingerprint : String) (s : LaunchState)
    → all stored_run_accepts s.runs ≡ true
    → is_ok (launch_keyed calls stamp request hash fingerprint s).0 ≡ true
unfolding launch_keyed launch_new
launch_keyed_answers calls stamp request hash fingerprint s h = ground (
  arith,
  conclude_answers stamp request hash fingerprint
      (let p = prepare request calls (contract_code request hash) in
        with_snapshot calls p.context p)
      s h,
)

conclude_rolls_back :
    (stamp : LaunchStamp) (request : LaunchRequest) (hash : Option String) (fingerprint : String)
    (p : Preparation) (s : LaunchState)
    → p.effects ≡ (if p.holds_provider then acquire ∷ [] else [])
    → let answer = conclude stamp request hash fingerprint p s in
      any is_rollback (p.effects ++ effects_of p.holds_provider answer) ≡ (
        any is_acquire (p.effects ++ effects_of p.holds_provider answer) && not (is_created answer))
unfolding conclude fail accept retain persist launch_failure_of launch_result_of effects_of
conclude_rolls_back stamp request hash fingerprint p s h = ground arith

-- A provider is rolled back exactly where it was acquired and no run is created.
launch_keyed_rolls_back :
    (calls : LaunchCalls) (stamp : LaunchStamp) (request : LaunchRequest) (hash : Option String)
    (fingerprint : String) (s : LaunchState)
    → any is_rollback (launch_keyed calls stamp request hash fingerprint s).1 ≡ (
        any is_acquire (launch_keyed calls stamp request hash fingerprint s).1
        && not (is_created (launch_keyed calls stamp request hash fingerprint s).0))
unfolding launch_keyed launch_new
launch_keyed_rolls_back calls stamp request hash fingerprint s =
    let p = prepare request calls (contract_code request hash) in
    ground (
      arith,
      conclude_rolls_back stamp request hash fingerprint (with_snapshot calls p.context p) s (
          with_snapshot-effects calls p.context p
            (prepare-effects request calls (contract_code request hash))),
    )

reply_ok :
    (calls : LaunchCalls) (answer : Result Failure LaunchAnswer) (effects : List LaunchEffect)
    → is_ok answer ≡ true
    → is_ok (reply calls (answer, effects))
      ≡ not (any is_rollback effects && is_some calls.rollback_production_provider)
unfolding reply
reply_ok calls (ok (s, response)) effects h = ground arith
reply_ok calls (err e) effects h = ground arith

-- Over retained runs that the schema accepts, a launch, of which audits and log files are left out,
-- answers its caller, whatever its calls throw, except exactly where it has acquired a provider, creates
-- no run, and the rollback of the provider throws.
pub launch_answers :
    (h : LaunchHashing) (calls : LaunchCalls) (stamp : LaunchStamp) (request : LaunchRequest)
    (s : LaunchState)
    → all stored_run_accepts s.runs ≡ true
    → is_ok (reply calls (launch h calls stamp request s))
      ≡ not (
          any is_acquire (launch h calls stamp request s).1
          && not (is_created (launch h calls stamp request s).0)
          && is_some calls.rollback_production_provider)
unfolding launch
launch_answers h calls stamp request s accepted =
    let hash = request_idempotency_key_hash h.digest request.attribution in
    let fingerprint = h.launch_fingerprint request in
    let launched = launch_keyed calls stamp request hash fingerprint s in
    ground (
      arith,
      reply_ok calls launched.0 launched.1
          (launch_keyed_answers calls stamp request hash fingerprint s accepted),
      launch_keyed_rolls_back calls stamp request hash fingerprint s,
    )
