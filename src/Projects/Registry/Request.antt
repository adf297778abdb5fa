-- ===== src/Projects/Registry/Request.antt =====
-- The inspection of projects by src/project-registration/registry.mjs, and the requests to register one.
use sandking.Base.{
  ℕ, Bool, true, false, ◌&&◌, ◌||◌, List, Option, none, some, Result, ok, err, if◌then◌else◌,
}
use sandking.Projects.Types.{
  Status, Project, Registration, FailureCode, ResultCode, Response, answered, failed, Outcome,
  State, project_path_moved, project_path_replaced, project_path_tombstoned,
}
use sandking.Projects.Location.{
  Candidate, Location, failure, registered, unregistered, resolve_project_location,
}
use sandking.Projects.Requests.{
  Envelope, Surroundings, find_project, find_outcome, operation_failure, replay,
}
use sandking.Projects.Preparing.{PreparationFailure, Workshop, prepare_retained_production_project}

-- What an inspection answers.
pub data Inspection : Type 0 where
  found : ℕ → Project → Inspection
  not_found : ℕ → Inspection
  inspection_failed : FailureCode → ℕ → Option (List Registration) → Inspection

-- A project that is prepared is retained by `prepareRetainedProductionProject`.
abbrev pub inspect_prepared :
    State → Project → ℕ → Result PreparationFailure State → State × Inspection
inspect_prepared s p n (err f) = (s, inspection_failed f.code n f.registrations)
inspect_prepared s p n (ok s') = (s', found_again (find_project p.project_id s'.projects))
  where
    found_again : Option Project → Inspection
    found_again none = found n p
    found_again (some q) = found n q

abbrev pub inspect_at : Workshop → Surroundings → State → Location → State × Inspection
inspect_at shop w s (failure f) = (s, inspection_failed f.code f.actual_revision f.registrations)
inspect_at shop w s (registered p n) =
    inspect_prepared s p n (prepare_retained_production_project shop s p)
inspect_at shop w s (unregistered c n) = (s, not_found n)

unfoldable pub inspect_project : Workshop → Surroundings → State → State × Inspection
inspect_project shop w s = inspect_at shop w s (resolve_project_location s.projects (w.place 0))

pub data ResolutionAction : Type 0 where
  absent register_as_new unknown : ResolutionAction

-- `configuration` is none where it does not parse.
pub record RegisterRequest : Type 0 where
  pub envelope : Envelope
  pub configuration : Option ℕ
  pub resolution_action : ResolutionAction

abbrev pub is_absent : ResolutionAction → Bool
is_absent absent = true
is_absent _ = false

abbrev pub is_new : ResolutionAction → Bool
is_new register_as_new = true
is_new _ = false

abbrev pub Registered : Type 0
Registered = State × Response

abbrev pub reject :
    State
    → RegisterRequest
    → Surroundings
    → FailureCode
    → Bool
    → ℕ
    → Option (List Registration)
    → Registered
reject s r w code retryable revision registrations =
    (s, failed (operation_failure r.envelope w code retryable revision registrations))

abbrev pub or_revision : ℕ → Option ℕ → ℕ
or_revision n none = n
or_revision n (some m) = m

abbrev pub reject_preparation :
    State → RegisterRequest → Surroundings → Project → PreparationFailure → Registered
reject_preparation s r w p f =
    reject s r w f.code true (or_revision p.revision f.actual_revision) f.registrations

-- `Number(existing.response.revision ?? 0)`.
abbrev pub revision_or_zero : Response → ℕ
revision_or_zero (answered a) = a.revision
revision_or_zero (failed f) = 0

abbrev pub project_of : Response → List Project → Option Project
project_of (answered a) ps = find_project a.project.project_id ps
project_of (failed f) ps = none

abbrev pub replay_retained : RegisterRequest → State → Outcome → Option Outcome → Registered
replay_retained r s o none = (s, replay r.envelope o.response)
replay_retained r s o (some o') = (s, replay r.envelope o'.response)

abbrev pub replay_prepared :
    State
    → RegisterRequest
    → Surroundings
    → Outcome
    → Project
    → Result PreparationFailure State
    → Registered
replay_prepared s r w o p (err f) = reject_preparation s r w p f
replay_prepared s r w o p (ok s') =
    replay_retained r s' o (find_outcome r.envelope.idempotency_key_hash s'.registration_outcomes)

abbrev pub replay_of :
    Workshop → State → RegisterRequest → Surroundings → Outcome → Option Project → Registered
replay_of shop s r w o none = (s, replay r.envelope o.response)
replay_of shop s r w o (some p) =
    replay_prepared s r w o p (prepare_retained_production_project shop s p)

-- The members of a request that is sound.
pub record Contract : Type 0 where
  pub idempotency_key_hash : ℕ
  pub expected_revision : ℕ
  pub configuration : ℕ

abbrev pub contract_of : RegisterRequest → Option ℕ → Option ℕ → Option ℕ → Option Contract
contract_of r (some hash) (some revision) (some configuration) =
    if r.envelope.authorized && (is_absent r.resolution_action || is_new r.resolution_action)
    then some record {
      idempotency_key_hash = hash;
      expected_revision = revision;
      configuration = configuration;
    }
    else none
contract_of r _ _ _ = none

abbrev pub may_be_new : FailureCode → Bool
may_be_new project_path_moved = true
may_be_new project_path_replaced = true
may_be_new project_path_tombstoned = true
may_be_new _ = false

abbrev pub answer : RegisterRequest → Surroundings → Contract → ResultCode → ℕ → Project → Response
answer r w k code revision p = answered record {
  request_id = r.envelope.request_id;
  code = code;
  expected_revision = k.expected_revision;
  revision = revision;
  idempotent_replay = false;
  audit_id = w.audit_id;
  project = p;
  harness = none;
}

abbrev pub new_project : Surroundings → Contract → ℕ → Candidate → Project
new_project w k id c = record {
  project_id = id;
  revision = 1;
  display_name = c.display_name;
  canonical_path = c.canonical_path;
  filesystem_identity_digest = c.identity_digest;
  status = Status.active;
  git_detected = c.git_detected;
  configuration = k.configuration;
  harness = none;
  created_at = w.now;
  updated_at = w.now;
}
