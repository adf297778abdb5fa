-- ===== src/Projects/Resolution/Request.antt =====
-- The requests of src/project-registration/resolution.mjs, and how they are rejected and concluded.
use sandking.Base.{
  ℕ, ◌+◌, ◌==◌, Bool, true, false, ◌&&◌, ◌||◌, List, [], ◌∷◌, Option, none, some, any, map, Result,
  ok, if◌then◌else◌,
}
use sandking.Projects.Types.{
  active, Project, Registration, project_resolution_registration, FailureCode, Response, failed,
  project_path_conflict, project_path_missing, project_path_moved, State,
}
use sandking.Projects.Location.{
  Candidate, LocationFailure, Location, failure, registered, unregistered,
}
use sandking.Projects.Requests.{Envelope, Surroundings, Thrown, find_project, operation_failure}

pub data Action : Type 0 where
  forget restore resolve_conflict : Action

-- `action` and `project_id` are none where they are not valid; `has_path` says that the path is a text that
-- is not empty.
pub record ResolveRequest : Type 0 where
  pub envelope : Envelope
  pub action : Option Action
  pub project_id : Option ℕ
  pub has_path : Bool

abbrev pub is_forget : Action → Bool
is_forget forget = true
is_forget _ = false

-- The conditions on the members of a request, which has these.
pub record Contract : Type 0 where
  pub idempotency_key_hash : ℕ
  pub action : Action
  pub project_id : ℕ
  pub expected_revision : ℕ

abbrev pub contract_of :
    ResolveRequest → Option ℕ → Option Action → Option ℕ → Option ℕ → Option Contract
contract_of r (some hash) (some action) (some id) (some revision) =
    if r.envelope.authorized && (is_forget action || r.has_path)
    then some record {
      idempotency_key_hash = hash;
      action = action;
      project_id = id;
      expected_revision = revision;
    }
    else none
contract_of r _ _ _ _ = none

abbrev pub contract : ResolveRequest → Option Contract
contract r =
    contract_of r r.envelope.idempotency_key_hash r.action r.project_id r.envelope.expected_revision

abbrev pub retained_of : Registration → Option Project → Registration
retained_of r none = r
retained_of r (some p) = project_resolution_registration p

-- The registrations of a rejection, as they are retained.
abbrev pub current : List Project → Registration → Registration
current ps r = retained_of r (find_project r.project_id ps)

abbrev pub Resolved : Type 0
Resolved = Result Thrown (State × Response)

abbrev pub reject :
    State
    → ResolveRequest
    → Surroundings
    → FailureCode
    → Bool
    → ℕ
    → Option (List Registration)
    → Resolved
reject s r w code retryable revision registrations =
    ok (s, failed (operation_failure r.envelope w code retryable revision registrations))

abbrev pub set_active : Project → Project
set_active p = record p { status = active }

abbrev pub move_to : ℕ → Project → Project
move_to path p = record p { canonical_path = path }

abbrev pub raise : ℕ → Project → Project
raise now p = record p { revision = p.revision + 1; updated_at = now }

abbrev pub names : ℕ → List Registration → Bool
names id = any (λ r. r.project_id == id)

abbrev pub names_some : ℕ → Option (List Registration) → Bool
names_some id none = false
names_some id (some rs) = names id rs

abbrev pub ids_of : List Registration → List ℕ
ids_of = map (λ r. r.project_id)

abbrev pub conflict_under : FailureCode → LocationFailure → Option LocationFailure
conflict_under project_path_conflict f = some f
conflict_under _ f = none

abbrev pub conflict_of : Location → Option LocationFailure
conflict_of (failure f) = conflict_under f.code f
conflict_of _ = none

abbrev pub moved_under : FailureCode → Option Candidate → Option Candidate
moved_under project_path_moved candidate = candidate
moved_under _ candidate = none

abbrev pub moved_to : Location → Option Candidate
moved_to (failure f) = moved_under f.code f.registration_candidate
moved_to _ = none

abbrev pub actual_revision_of : Location → ℕ
actual_revision_of (failure f) = f.actual_revision
actual_revision_of (registered p n) = n
actual_revision_of (unregistered c n) = n

abbrev pub is_found : ℕ → Location → Bool
is_found id (registered p n) = p.project_id == id
is_found id _ = false

abbrev pub is_missing : FailureCode → Bool
is_missing project_path_missing = true
is_missing _ = false

abbrev pub names_only : ℕ → Option (List Registration) → Bool
names_only id (some (r ∷ [])) = r.project_id == id
names_only id _ = false

abbrev pub is_selected : ℕ → Location → Bool
is_selected id (failure f) = is_missing f.code && names_only id f.registrations
is_selected id (registered p n) = p.project_id == id
is_selected id (unregistered c n) = false
