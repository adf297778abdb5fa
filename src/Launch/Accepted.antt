-- ===== src/Launch/Accepted.antt =====
-- Which launches src/harness-runs/operations/launch.mjs accepts, and what it creates for them.
use sandking.Base.{
  ◌≡◌, refl, subst, inl, inr, true, false, String, [], ◌∷◌, ◌++◌, Option, none, some, ok,
  Result-cases, Option-cases, arith,
}
use sandking.Runs.Types.{Run, Status, EventType}
use sandking.Runs.Events.{append_event, next_event}
use sandking.Runs.State.{persist, stored_run_accepts, harness_run_outcome_adapter_identity_agrees}
use sandking.Runs.Requests.{request_idempotency_key_hash, retained_outcome}
use sandking.Runs.History.{IsWellFormed, kind_count, terminals}
use sandking.Launch.Request.{
  LaunchRequest, Context, Prepared, LaunchCalls, LaunchStamp, LaunchResult, launch_result,
  LaunchState, LaunchHashing, contract_code,
}
use sandking.Launch.Preparation.{
  Preparation, prepare, prepare_context, validate, check_prepared, catch_preparation, take_snapshot,
  pin_is_valid,
}
use sandking.Launch.Operation.{
  launch, launch_keyed, launch_new, answer_existing, conclude, fail, accept, retain, create_run,
  new_run, replayed, conflict, with_snapshot, launch_failure_of, launch_result_of,
}

-- What a preparation without a code has found.
pub record IsPrepared (request : LaunchRequest) (calls : LaunchCalls) (p : Preparation)
    : Type 0 where
  pub context : Context
  pub prepared : Prepared
  pub loaded : calls.load_launch_context ≡ ok context
  pub validated : calls.validate_harness_launch ≡ ok prepared
  pub pinned : pin_is_valid request context prepared ≡ true
  pub has_context : p.context ≡ some context
  pub has_prepared : p.prepared ≡ some prepared

prepare-IsPrepared :
    (request : LaunchRequest) (calls : LaunchCalls) (code : Option String)
    → (prepare request calls code).code ≡ none
    → IsPrepared request calls (prepare request calls code)
unfolding prepare prepare_context validate check_prepared catch_preparation
prepare-IsPrepared request calls code h = elim (Result-cases calls.load_launch_context) [
  | inl (context, loaded) ↦ elim (Result-cases calls.validate_harness_launch) [
    | inl (prepared, validated) ↦ record {
      context = context;
      prepared = prepared;
      loaded = loaded;
      validated = validated;
      pinned = ground arith;
      has_context = ground arith;
      has_prepared = ground arith;
    }
    | inr (e, failed) ↦ absurd (ground arith)
  ]
  | inr (e, failed) ↦ absurd (ground arith)
]

-- A new run is well formed, and never meets a bound.
create_run-IsWellFormed :
    (stamp : LaunchStamp) (context : Context) (prepared : Prepared)
    → (run : Run) × (create_run stamp context prepared ≡ ok run)
      × IsWellFormed run
      × (run.status ≡ Status.starting)
      × (run.identity.harness_run_id ≡ stamp.harness_run_id)
unfolding create_run append_event next_event new_run stored_run_accepts
    harness_run_outcome_adapter_identity_agrees kind_count terminals
create_run-IsWellFormed stamp context prepared = (
  record (new_run stamp context prepared) {
    events =
        next_event stamp.event (new_run stamp context prepared) EventType.harness_run_created none
          none
        ∷ [];
  },
  refl,
  ground arith,
  refl,
  refl,
)

-- What a conclusion with a result has used and left.
pub record IsConcluded (stamp : LaunchStamp) (p : Preparation) (s s' : LaunchState)
    (r : LaunchResult) : Type 0 where
  pub context : Context
  pub prepared : Prepared
  pub uncoded : p.code ≡ none
  pub has_context : p.context ≡ some context
  pub has_prepared : p.prepared ≡ some prepared
  pub created : create_run stamp context prepared ≡ ok r.run
  pub grown : s'.runs ≡ s.runs ++ r.run ∷ []

conclude-IsConcluded :
    (stamp : LaunchStamp) (request : LaunchRequest) (hash : Option String) (fingerprint : String)
    (p : Preparation) (s s' : LaunchState) (r : LaunchResult)
    → conclude stamp request hash fingerprint p s ≡ ok (s', launch_result r)
    → IsConcluded stamp p s s' r
unfolding conclude fail accept retain persist launch_failure_of launch_result_of
conclude-IsConcluded stamp request hash fingerprint p s s' r e = elim (Option-cases p.context) [
  | inl missing ↦ absurd (ground arith)
  | inr (context, found) ↦ elim (Option-cases p.prepared) [
    | inl missing ↦ absurd (ground arith)
    | inr (prepared, ready) ↦ elim (Result-cases (create_run stamp context prepared)) [
      | inl (run, made) ↦ record {
        context = context;
        prepared = prepared;
        uncoded = ground arith;
        has_context = found;
        has_prepared = ready;
        created = ground arith;
        grown = ground arith;
      }
      | inr (e', failed) ↦ absurd (ground arith)
    ]
  ]
]

-- The execution snapshot can only fail.
with_snapshot_kept :
    (calls : LaunchCalls) (p : Preparation)
    → (with_snapshot calls p.context p).code ≡ none
    → (p.code ≡ none)
      × ((with_snapshot calls p.context p).context ≡ p.context)
      × ((with_snapshot calls p.context p).prepared ≡ p.prepared)
unfolding take_snapshot
with_snapshot_kept calls p e = elim (Option-cases p.context) [
  | inl missing ↦ (ground arith, ground arith, ground arith)
  | inr (context, found) ↦ (ground arith, ground arith, ground arith)
]

-- What the first result for a request says: the request was sound, its project is registered with the
-- harness, revision and adapter that were validated, and its run is the only one that is new.
pub record IsAccepted (calls : LaunchCalls) (stamp : LaunchStamp) (request : LaunchRequest)
    (hash : Option String) (s s' : LaunchState) (r : LaunchResult) : Type 0 where
  pub context : Context
  pub prepared : Prepared
  pub sound : contract_code request hash ≡ none
  pub loaded : calls.load_launch_context ≡ ok context
  pub validated : calls.validate_harness_launch ≡ ok prepared
  pub pinned : pin_is_valid request context prepared ≡ true
  pub created : create_run stamp context prepared ≡ ok r.run
  pub formed : IsWellFormed r.run
  pub starts : r.run.status ≡ Status.starting
  pub grown : s'.runs ≡ s.runs ++ r.run ∷ []

prepare-contract_code :
    (request : LaunchRequest) (calls : LaunchCalls) (code : Option String)
    → (prepare request calls code).code ≡ none
    → code ≡ none
unfolding prepare
prepare-contract_code request calls none e = refl
prepare-contract_code request calls (some code) e = absurd (ground arith)

created_of_same :
    (stamp : LaunchStamp) (c c' : Option Context) (q q' : Option Prepared) (x y : Context)
    (u v : Prepared) (run : Run)
    → c ≡ some x
    → c' ≡ c
    → c' ≡ some y
    → q ≡ some u
    → q' ≡ q
    → q' ≡ some v
    → create_run stamp y v ≡ ok run
    → create_run stamp x u ≡ ok run
created_of_same stamp c c' q q' x y u v run e1 e2 e3 e4 e5 e6 made = ground arith

created_formed :
    (stamp : LaunchStamp) (context : Context) (prepared : Prepared) (run : Run)
    → create_run stamp context prepared ≡ ok run
    → IsWellFormed run × (run.status ≡ Status.starting)
created_formed stamp context prepared run made =
    let (run', made', formed, starts, named) = create_run-IsWellFormed stamp context prepared in
    (subst IsWellFormed {x = run'} (ground arith) formed, ground arith)

launch_new-IsAccepted :
    (calls : LaunchCalls) (stamp : LaunchStamp) (request : LaunchRequest) (hash : Option String)
    (fingerprint : String) (s s' : LaunchState) (r : LaunchResult)
    → (launch_new calls stamp request hash fingerprint s).0 ≡ ok (s', launch_result r)
    → IsAccepted calls stamp request hash s s' r
unfolding launch_new
launch_new-IsAccepted calls stamp request hash fingerprint s s' r e = record {
  context = found.context;
  prepared = found.prepared;
  sound = prepare-contract_code request calls (contract_code request hash) kept.0;
  loaded = found.loaded;
  validated = found.validated;
  pinned = found.pinned;
  created = made;
  formed = (created_formed stamp found.context found.prepared r.run made).0;
  starts = (created_formed stamp found.context found.prepared r.run made).1;
  grown = ended.grown;
}
  where
    first : Preparation
    first = prepare request calls (contract_code request hash)

    ended : IsConcluded stamp (with_snapshot calls first.context first) s s' r
    ended = conclude-IsConcluded stamp request hash fingerprint _ s s' r e

    kept :
        (first.code ≡ none)
        × ((with_snapshot calls first.context first).context ≡ first.context)
        × ((with_snapshot calls first.context first).prepared ≡ first.prepared)
    kept = with_snapshot_kept calls first ended.uncoded

    found : IsPrepared request calls first
    found = prepare-IsPrepared request calls (contract_code request hash) kept.0

    made : create_run stamp found.context found.prepared ≡ ok r.run
    made =
        created_of_same stamp first.context (with_snapshot calls first.context first).context
          first.prepared (with_snapshot calls first.context first).prepared found.context
          ended.context found.prepared ended.prepared r.run found.has_context kept.1
          ended.has_context found.has_prepared kept.2 ended.has_prepared ended.created

-- A launch that returns a result which is no replay was asked for soundly; its project, harness,
-- revision, adapter and protocol are the ones registered; and what it adds to the retained runs is
-- one well-formed run, which starts.
pub launch-IsAccepted :
    (h : LaunchHashing) (calls : LaunchCalls) (stamp : LaunchStamp) (request : LaunchRequest)
    (s s' : LaunchState) (r : LaunchResult)
    → (launch h calls stamp request s).0 ≡ ok (s', launch_result r)
    → r.idempotent_replay ≡ false
    → IsAccepted calls stamp request
        (request_idempotency_key_hash h.digest request.attribution)
        s
        s'
        r
unfolding launch launch_keyed answer_existing replayed conflict
launch-IsAccepted h calls stamp request s s' r e fresh =
    let hash = request_idempotency_key_hash h.digest request.attribution in
    elim (Option-cases (retained_outcome s.launch_outcomes hash)) [
      | inl missing ↦
          launch_new-IsAccepted calls stamp request hash (h.launch_fingerprint request) s s' r
            (ground arith)
      | inr (existing, found) ↦ absurd (ground arith)
    ]
