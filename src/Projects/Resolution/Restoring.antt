-- ===== src/Projects/Resolution/Restoring.antt =====
-- `forget` and `restore` of src/project-registration/resolution.mjs.
use sandking.Base.{ℕ, true, false, List, [], ◌∷◌, Option, none, some, ok, err, if◌then◌else◌}
use sandking.Projects.Types.{
  tombstoned, Project, project_resolution_registration, ResultCode, answered, failed,
  mutation_contract_invalid, project_path_conflict, project_path_tombstoned,
  project_registration_forgotten, project_registration_restored, State, is_active,
}
use sandking.Projects.Location.{Candidate, LocationFailure, Location, resolve_project_location}
use sandking.Projects.Requests.{
  Surroundings, project_registration_state_invalid, update_project, push_outcome, operation_failure,
}
use sandking.Projects.Resolution.Request.{
  ResolveRequest, Contract, current, Resolved, reject, set_active, move_to, raise, names_some,
  conflict_of, moved_to, is_found,
}

-- The end of an accepted request: the project as it is now, and all projects. That `publicProject` throws
-- for a project whose retained production link has no preparation is left out.
unfoldable pub conclude :
    State
    → ResolveRequest
    → Surroundings
    → Contract
    → ResultCode
    → Project
    → List Project
    → Resolved
conclude s r w k code p ps =
    let response = answered record {
      request_id = r.envelope.request_id;
      code = code;
      expected_revision = k.expected_revision;
      revision = p.revision;
      idempotent_replay = false;
      audit_id = w.audit_id;
      project = p;
      harness = none;
    } in
    ok (
      push_outcome k.idempotency_key_hash r.envelope.request_fingerprint response
          (record s { projects = ps }),
      response,
    )

abbrev pub set_tombstoned : Project → Project
set_tombstoned p = record p { status = tombstoned }

unfoldable pub forget_project :
    State → ResolveRequest → Surroundings → Contract → Project → Resolved
forget_project s r w k p =
    if is_active p
    then conclude s r w k project_registration_forgotten (raise w.now (set_tombstoned p))
        (update_project p.project_id (λ q. raise w.now (set_tombstoned q)) s.projects)
    else reject s r w project_path_tombstoned false p.revision
        (some (current s.projects (project_resolution_registration p) ∷ []))

-- The restored project conflicts with others: it stays restored, for the conflict to be resolved.
unfoldable pub keep_conflict :
    State
    → ResolveRequest
    → Surroundings
    → Contract
    → Project
    → List Project
    → Option LocationFailure
    → Resolved
keep_conflict s r w k p ps none = err project_registration_state_invalid
keep_conflict s r w k p ps (some f) =
    let response = failed (
      operation_failure r.envelope w project_path_conflict true f.actual_revision
        f.registrations) in
    if names_some p.project_id f.registrations
    then ok (
      push_outcome k.idempotency_key_hash r.envelope.request_fingerprint response
          (record s { projects = ps }),
      response,
    )
    else err project_registration_state_invalid

unfoldable pub restore_conflicting :
    State
    → ResolveRequest
    → Surroundings
    → Contract
    → Project
    → (Project → Project)
    → Option LocationFailure
    → Resolved
restore_conflicting s r w k p change none =
    reject s r w project_path_tombstoned true p.revision
      (some (current s.projects (project_resolution_registration p) ∷ []))
restore_conflicting s r w k p change (some f) =
    let ps = update_project p.project_id (λ q. raise w.now (change q)) s.projects in
    keep_conflict s r w k p ps (conflict_of (resolve_project_location ps (w.place 2)))

-- Where the project is found once it is changed.
unfoldable pub restore_at :
    State
    → ResolveRequest
    → Surroundings
    → Contract
    → Project
    → (Project → Project)
    → Location
    → Resolved
restore_at s r w k p change location =
    if is_found p.project_id location
    then conclude s r w k project_registration_restored (raise w.now (change p))
        (update_project p.project_id (λ q. raise w.now (change q)) s.projects)
    else restore_conflicting s r w k p change (conflict_of location)

abbrev pub move_active : ℕ → Project → Project
move_active path p = move_to path (set_active p)

unfoldable pub restore_moved :
    State
    → ResolveRequest
    → Surroundings
    → Contract
    → Project
    → Location
    → Option Candidate
    → Resolved
restore_moved s r w k p location none = restore_at s r w k p set_active location
restore_moved s r w k p location (some c) = restore_at s r w k p (move_active c.canonical_path) (
    resolve_project_location (update_project p.project_id (move_active c.canonical_path) s.projects)
      (w.place 1))

unfoldable pub restore_project :
    State → ResolveRequest → Surroundings → Contract → Project → Resolved
restore_project s r w k p =
    let location =
      resolve_project_location (update_project p.project_id set_active s.projects) (w.place 0) in
    if is_active p
    then reject s r w mutation_contract_invalid false p.revision none
    else restore_moved s r w k p location (moved_to location)
