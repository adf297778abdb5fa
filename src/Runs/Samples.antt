-- ===== src/Runs/Samples.antt =====
-- Concrete runs and requests, on which the theorems about src/harness-runs are tried.
use sandking.Base.{true, false, String, List, [], ◌∷◌, none, some, arith}
use sandking.Runs.Types.{
  Run, Identity, Event, EventType, Status, AdapterId, Cancellation, TerminalEnvelope, OutcomeStatus,
  Platform, Action,
}
use sandking.Runs.Events.{Stamp}
use sandking.Runs.Commit.{CommitStamp, Supervision, Termination}
use sandking.Runs.Observation.{Inspection}
use sandking.Runs.Interruption.{FinalStamp}
use sandking.Runs.Reconcile.{Facts}
use sandking.Runs.Requests.{Attribution, Source}
use sandking.Runs.Manager.{Manager, Hashing}
use sandking.Runs.Cancel.{CancelRequest, CancelStamp}
use sandking.Runs.Intent.{RecoverFacts}
use sandking.Runs.Recover.{RecoverRequest}
use sandking.Runs.History.{IsWellFormed, kind_count, terminals}

abbrev pub run_name : String
run_name = "harness-run-0123456789abcdef01234567"

abbrev pub stamp : Stamp
stamp = record { event_id = "harness-event-1"; recorded_at = 7 }

abbrev pub identity : Identity
identity = record {
  harness_run_id = run_name;
  project_id = "project";
  harness_id = "harness";
  adapter_id = AdapterId.sandcastle_adapter;
  adapter_protocol = "1.0.0";
  created_at = 1;
  launch_audit_id = "audit";
  execution_snapshot = "{}";
}

abbrev pub created_event : Event
created_event = record {
  event_id = "harness-event-0";
  harness_run_id = run_name;
  sequence = 1;
  event_type = EventType.harness_run_created;
  recorded_at = 1;
  progress_record = none;
  outcome_reference = none;
}

abbrev pub starting_run : Run
starting_run = record {
  identity = identity;
  revision = 1;
  status = Status.starting;
  adapter_ready_at = none;
  completed_at = none;
  events = created_event ∷ [];
  outcome = none;
  validation = record {
    adapter_ready_observed = false;
    valid_terminal_envelope_count = 0;
    exactly_one = false;
    adapter_channel_closed_observed = false;
    process_exit_observed = false;
  };
  stdout = record { stream_id = "out"; available_end = 0 };
  stderr = record { stream_id = "err"; available_end = 0 };
  cancellation = none;
  recovery = none;
  cancellation_reconciliation = none;
}

pub starting_run-IsWellFormed : IsWellFormed starting_run
unfolding kind_count terminals
starting_run-IsWellFormed = ground arith

abbrev pub cancellation : Cancellation
cancellation = record {
  accepted_at = 5;
  cooperative_deadline_at = 10;
  cancellation_audit_id = "audit";
  cancellation_key_hash = "key";
  cooperative_signal_sent_at = none;
  forced_termination_sent_at = none;
  termination_confirmed_at = none;
}

abbrev pub cancelling_run : Run
cancelling_run = record starting_run {
  status = Status.cancelling;
  cancellation = some cancellation;
  events =
      created_event
      ∷ record created_event {
        sequence = 2;
        event_type = EventType.harness_run_cancellation_accepted;
      }
      ∷ [];
}

pub cancelling_run-IsWellFormed : IsWellFormed cancelling_run
unfolding kind_count terminals
cancelling_run-IsWellFormed = ground arith

abbrev pub envelope : TerminalEnvelope
envelope = record {
  terminal_id = "terminal";
  terminal_status = OutcomeStatus.succeeded;
  adapter_id = AdapterId.sandcastle_adapter;
  adapter_protocol = "1.0.0";
  result = some "{}";
}

abbrev pub commit_stamp : CommitStamp
commit_stamp = record {
  event = stamp;
  outcome_id = "outcome";
  outcome_audit_id = "audit";
  completed_at = 8;
  committed_at = 9;
}

abbrev pub supervision : Supervision
supervision = record {
  adapter_ready_observed = true;
  protocol_invalid = false;
  terminal_envelopes = envelope ∷ [];
  adapter_channel_closed_observed = true;
  start_failed = false;
  termination = none;
}

abbrev pub termination : Termination
termination = record { cooperative_at = some 6; forced_at = none; confirmed_at = some 7 }

-- A process tree that runs under the retained identity.
abbrev pub running_tree : Inspection
running_tree = record {
  platform = Platform.linux;
  is_confirmed = false;
  process_state_running_confirmed = true;
  identity_retained = true;
  safe_to_terminate = true;
  process_count = some 2;
  launch_settled = some true;
  tree_empty = some false;
}

abbrev pub final_stamp : FinalStamp
final_stamp = record {
  event = stamp;
  outcome_id = "outcome";
  outcome_audit_id = "audit";
  reconciliation_audit_id = "audit-2";
  completed_at = 20;
}

abbrev pub facts : Facts
facts = record {
  host_platform = Platform.linux;
  termination_available = true;
  inspection = running_tree;
  stamp = final_stamp;
}

abbrev pub digest_text : String
digest_text = "sha256:0123456789abcdef0123456789abcdef0123456789abcdef0123456789abcdef"

abbrev pub attribution : String → Attribution
attribution authorization = record {
  request_id = "request-1";
  authorization_class = authorization;
  source = some Source.cockpit;
  controller_id = "runtime-0123456789abcdef01234567";
  controller_session_id = none;
  idempotency_key_hash = some digest_text;
  idempotency_key = none;
}

abbrev pub hashing : Hashing
hashing = record {
  digest = λ s. s;
  cancellation_fingerprint = λ id session source class_. id;
  recovery_fingerprint = λ id action session source class_. id;
}

abbrev pub manager : List Run → Manager
manager runs = record {
  runs = runs;
  cancellation_outcomes = [];
  recovery_mutations = [];
  accepted_cancellations = [];
  active_supervisions = run_name ∷ [];
}

abbrev pub cancel_request : CancelRequest
cancel_request = record {
  attribution = attribution "harness_run_cancellation";
  harness_run_id = run_name;
}

abbrev pub cancel_stamp : CancelStamp
cancel_stamp = record { now = 5; cancellation_grace_ms = 10; audit_id = "audit-3"; event = stamp }

abbrev pub recover_request : RecoverRequest
recover_request = record {
  attribution = attribution "harness_run_recovery";
  harness_run_id = run_name;
  action = some Action.recheck;
}

abbrev pub recover_facts : RecoverFacts
recover_facts = record {
  termination_available = true;
  inspected = some running_tree;
  terminated = none;
  stamp = final_stamp;
  accepted_at = 21;
  audit_id = "audit-4";
}
