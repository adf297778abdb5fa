-- ===== src/Projects/Resolution.antt =====
-- `applyProjectRegistrationResolution` of src/project-registration/resolution.mjs, under the mutation lock
-- of its registry.
mod Request
mod Restoring
mod Selecting
pub use Request.*
unfoldable pub use Restoring.*
unfoldable pub use Selecting.*
use sandking.Base.{
  ℕ, suc, length, ◌+◌, ◌==◌, Bool, true, false, not, ◌&&◌, ◌||◌, List, [], ◌∷◌, Option, none, some,
  any, map, Result, ok, err, if◌then◌else◌,
}
use sandking.Projects.Types.{
  active, tombstoned, Project, Registration, project_resolution_registration, FailureCode,
  ResultCode, Response, answered, failed, mutation_contract_invalid, idempotency_key_conflict,
  mutation_revision_conflict, project_not_found, project_path_conflict, project_path_tombstoned,
  project_path_missing, project_path_moved, project_registration_forgotten,
  project_registration_restored, project_registration_conflict_resolved, Outcome, State, is_active,
}
use sandking.Projects.Location.{
  Candidate, LocationFailure, Location, failure, registered, unregistered, resolve_project_location,
  tombstoned_ones,
}
use sandking.Projects.Requests.{
  Envelope, Surroundings, Thrown, project_registration_state_invalid, find_project, update_project,
  find_outcome, push_outcome, operation_failure, revision_of, replay,
}

unfoldable pub carry_out :
    Action → State → ResolveRequest → Surroundings → Contract → Project → Resolved
carry_out forget = forget_project
carry_out restore = restore_project
carry_out resolve_conflict = resolve_project

unfoldable pub address :
    State → ResolveRequest → Surroundings → Contract → Option Project → Resolved
address s r w k none = reject s r w project_not_found true 0 none
address s r w k (some p) =
    if k.expected_revision == p.revision
    then carry_out k.action s r w k p
    else reject s r w mutation_revision_conflict true p.revision none

unfoldable pub resolve_new : State → ResolveRequest → Surroundings → Option Contract → Resolved
resolve_new s r w none = reject s r w mutation_contract_invalid false 0 none
resolve_new s r w (some k) = address s r w k (find_project k.project_id s.projects)

unfoldable pub resolve_existing : State → ResolveRequest → Surroundings → Option Outcome → Resolved
resolve_existing s r w none = resolve_new s r w (contract r)
resolve_existing s r w (some o) =
    if o.request_fingerprint == r.envelope.request_fingerprint
    then ok (s, replay r.envelope o.response)
    else reject s r w idempotency_key_conflict false (revision_of o.response) none

unfoldable pub apply_project_registration_resolution :
    State → ResolveRequest → Surroundings → Resolved
apply_project_registration_resolution s r w =
    resolve_existing s r w (find_outcome r.envelope.idempotency_key_hash s.registration_outcomes)
