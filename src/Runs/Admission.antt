-- ===== src/Runs/Admission.antt =====
-- Which requests src/harness-runs/operations/cancel.mjs accepts, and what a refusal leaves.
use sandking.Base.{
  str_eq, any, if◌then◌else◌, ◌+◌, ◌≡◌, ◌≤◌, inl, inr, refl, Bool, true, false, String, List, [],
  ◌∷◌, Option, none, some, is_some, ok, arith, all, length, Option-cases, Result-cases, is_ok,
  is_ok-elim,
}
use sandking.Runs.Types.{Run, Status}
use sandking.Runs.Events.{append_event, max_retained_run_events}
use sandking.Runs.State.{
  run_id, find_run, put_run, persist, stored_run_accepts,
  harness_run_outcome_adapter_identity_agrees,
}
use sandking.Runs.Requests.{request_idempotency_key_hash, attribution_accepts}
use sandking.Runs.Manager.{
  Manager, CancelFailure, CancelResult, cancel_failure, cancel_result, Effect, prepare_cancellation,
  request_cancellation, Hashing,
}
use sandking.Runs.Cancel.{
  CancelRequest, CancelStamp, Answer, cancel, cancel_keyed, decide_new, admit, refuse, accept,
  dispatch, retain, replay, redispatch, replayed, request_fingerprint_of, accept_cancellation,
  is_cancellable,
}
use sandking.Runs.History.{IsWellFormed, length-kind_count, bit}
use sandking.Runs.Lifecycle.{accept_cancellation-IsWellFormed}

accept_cancellation_lem :
    (stamp : CancelStamp) (hash : String) (run run' : Run)
    → accept_cancellation stamp hash run ≡ ok run'
    → is_cancellable run ≡ true
    → (run'.status ≡ Status.cancelling)
      × (run'.outcome ≡ none)
      × (run'.cancellation
          ≡ some record {
            accepted_at = stamp.now;
            cooperative_deadline_at = stamp.now + stamp.cancellation_grace_ms;
            cancellation_audit_id = stamp.audit_id;
            cancellation_key_hash = hash;
            cooperative_signal_sent_at = none;
            forced_termination_sent_at = none;
            termination_confirmed_at = none;
          })
unfolding accept_cancellation append_event is_cancellable
accept_cancellation_lem stamp hash run run' made cancellable =
    (ground arith, ground arith, ground arith)

-- Whatever a refusal is for, it leaves every run as it was and asks no supervisor for anything.
pub cancel_refused :
    (h : Hashing) (stamp : CancelStamp) (request : CancelRequest) (m m' : Manager)
    (f : CancelFailure) (effects : List Effect)
    → cancel h stamp request m ≡ ok (m', cancel_failure f, effects)
    → (m'.runs ≡ m.runs) × (effects ≡ [])
unfolding cancel cancel_keyed decide_new refuse accept retain replay redispatch replayed
cancel_refused h stamp request m m' f effects answered = ground arith

-- The run as its cancellation leaves it, and what the answer, the table of accepted cancellations and the
-- supervisor are told of its deadline.
pub record IsCancelling (stamp : CancelStamp) (r : CancelResult) (run run' : Run) (m m' : Manager)
    (effects : List Effect) : Type 0 where
  pub status : run'.status ≡ Status.cancelling
  pub unsettled : run'.outcome ≡ none
  pub recorded :
      run'.cancellation
      ≡ some record {
        accepted_at = stamp.now;
        cooperative_deadline_at = stamp.now + stamp.cancellation_grace_ms;
        cancellation_audit_id = stamp.audit_id;
        cancellation_key_hash = r.idempotency_key_hash;
        cooperative_signal_sent_at = none;
        forced_termination_sent_at = none;
        termination_confirmed_at = none;
      }
  pub answered : r.cooperative_deadline_at ≡ stamp.now + stamp.cancellation_grace_ms
  pub retained :
      m'.accepted_cancellations
      ≡ (run_id run, stamp.now + stamp.cancellation_grace_ms) ∷ m.accepted_cancellations
  pub asked : effects ≡ (
      if any (λ id. str_eq id (run_id run)) m.active_supervisions
      then prepare_cancellation (run_id run)
        ∷ request_cancellation (run_id run) (stamp.now + stamp.cancellation_grace_ms)
        ∷ []
      else [])

-- A cancellation is accepted anew only of a run that is known, has no outcome, is not being
-- cancelled and does not wait for recovery, and only for a request under the right authorization. The
-- run is then being cancelled, and the run, the answer and the supervisor that runs it, which is
-- prepared and asked, all have the same deadline, the grace period after the acceptance.
pub cancel_accepted :
    (h : Hashing) (stamp : CancelStamp) (request : CancelRequest) (m m' : Manager)
    (r : CancelResult) (effects : List Effect)
    → cancel h stamp request m ≡ ok (m', cancel_result r, effects)
    → r.idempotent_replay ≡ false
    → (run : Run) × (run' : Run) × (find_run request.harness_run_id m.runs ≡ some run)
      × (is_cancellable run ≡ true)
      × (attribution_accepts "harness_run_cancellation" request.attribution ≡ true)
      × (m'.runs ≡ put_run request.harness_run_id run' m.runs)
      × IsCancelling stamp r run run' m m' effects
unfolding cancel cancel_keyed decide_new admit refuse accept retain replay redispatch replayed
    persist dispatch
cancel_accepted h stamp request m m' r effects answered fresh =
    elim (Option-cases (find_run request.harness_run_id m.runs)) [
      | inl missing ↦ absurd (ground arith)
      | inr (run, found) ↦
          elim (Result-cases (accept_cancellation stamp r.idempotency_key_hash run)) [
            | inl (run', made) ↦
                let (cancelling, open_, recorded) =
                  accept_cancellation_lem stamp r.idempotency_key_hash run run' made
                    (ground arith) in
                (
                  run,
                  run',
                  found,
                  ground arith,
                  ground arith,
                  ground arith,
                  record {
                    status = cancelling;
                    unsettled = open_;
                    recorded = recorded;
                    answered = ground arith;
                    retained = ground arith;
                    asked = ground arith;
                  },
                )
            | inr (e, failed) ↦ absurd (ground arith)
          ]
    ]

all-put_run :
    (id : String) (new : Run) (runs : List Run)
    → all stored_run_accepts runs ≡ true
    → stored_run_accepts new ≡ true
    → all stored_run_accepts (put_run id new runs) ≡ true
unfolding put_run
all-put_run id new [] h fine = refl
all-put_run id new (run ∷ runs) h fine = ground (arith, all-put_run id new runs)

find_run-stored :
    (id : String) (run : Run) (runs : List Run)
    → all stored_run_accepts runs ≡ true
    → find_run id runs ≡ some run
    → stored_run_accepts run ≡ true
unfolding find_run
find_run-stored id run [] h found = cc
find_run-stored id run (r ∷ runs) h found = ground (arith, find_run-stored id run runs)

bit-le : (b : Bool) → bit b ≤ 1
bit-le true = omega arith
bit-le false = omega arith

-- The bound on the retained events leaves room for every well-formed run.
IsWellFormed-length : {run : Run} → IsWellFormed run → length run.events ≤ max_retained_run_events
IsWellFormed-length {run} w = omega (
  arith,
  length-kind_count run.events,
  w.created_once,
  w.ready_once,
  w.progress_bounded,
  w.cancel_once,
  w.recovery_once,
  w.terminal_once,
  bit-le (is_some run.adapter_ready_at),
  bit-le (is_some run.cancellation),
  bit-le (is_some run.outcome),
)

accept_cancellation-stored :
    (stamp : CancelStamp) (hash : String) (run run' : Run)
    → accept_cancellation stamp hash run ≡ ok run'
    → IsWellFormed run'
    → stored_run_accepts run ≡ true
    → stored_run_accepts run' ≡ true
unfolding stored_run_accepts accept_cancellation append_event
    harness_run_outcome_adapter_identity_agrees
accept_cancellation-stored stamp hash run run' made w fine = ground (arith, IsWellFormed-length w)

accept_answers :
    (stamp : CancelStamp) (request : CancelRequest) (hash fingerprint : String) (run : Run)
    (m : Manager)
    → all stored_run_accepts m.runs ≡ true
    → IsWellFormed run
    → is_cancellable run ≡ true
    → stored_run_accepts run ≡ true
    → is_ok (accept stamp request hash fingerprint run m) ≡ true
unfolding accept persist
accept_answers stamp request hash fingerprint run m stored w open_ fine =
    let (run', made, w') = accept_cancellation-IsWellFormed stamp hash run w open_ in
    let fine' = accept_cancellation-stored stamp hash run run' made w' fine in
    let put = all-put_run request.harness_run_id run' m.runs stored fine' in
    ground (arith, made, put)

cancel_keyed_answers :
    (stamp : CancelStamp) (request : CancelRequest) (hash : Option String) (fingerprint : String)
    (m : Manager)
    → all stored_run_accepts m.runs ≡ true
    → ((run : Run) → find_run request.harness_run_id m.runs ≡ some run → IsWellFormed run)
    → is_ok (cancel_keyed stamp request hash fingerprint m) ≡ true
unfolding cancel_keyed decide_new refuse persist admit
cancel_keyed_answers stamp request none fingerprint m stored well = ground arith
cancel_keyed_answers stamp request (some hash) fingerprint m stored well =
    elim (Option-cases (find_run request.harness_run_id m.runs)) [
      | inl missing ↦ ground arith
      | inr (run, found) ↦
          let fine = find_run-stored request.harness_run_id run m.runs stored found in
          let accepts =
            accept_answers stamp request hash fingerprint run m stored (well run found) in
          ground (arith, accepts)
    ]

-- Over stored well-formed runs, every request to cancel is answered: no step of it throws.
pub cancel_answers :
    (h : Hashing) (stamp : CancelStamp) (request : CancelRequest) (m : Manager)
    → all stored_run_accepts m.runs ≡ true
    → ((run : Run) → find_run request.harness_run_id m.runs ≡ some run → IsWellFormed run)
    → (answer : Answer) × (cancel h stamp request m ≡ ok answer)
unfolding cancel
cancel_answers h stamp request m stored well = is_ok-elim _ (
    cancel_keyed_answers stamp request (request_idempotency_key_hash h.digest request.attribution)
      (request_fingerprint_of h request) m stored well)
