-- ===== src/Projects/Registry.antt =====
-- `inspectProject` and `registerProject` of src/project-registration/registry.mjs, each under the mutation
-- lock.
mod Request
pub use Request.*
use sandking.Base.{
  ℕ, ◌==◌, Bool, true, false, not, ◌&&◌, ◌||◌, List, [], ◌∷◌, ◌++◌, Option, none, some, is_some,
  Result, ok, err, if◌then◌else◌,
}
use sandking.Projects.Types.{
  Status, Project, Registration, FailureCode, ResultCode, Response, answered, failed, Outcome,
  State, mutation_contract_invalid, idempotency_key_conflict, mutation_revision_conflict,
  bounded_configuration_invalid, project_configuration_conflict, project_path_moved,
  project_path_replaced, project_path_tombstoned, project_registered, project_registration_reused,
}
use sandking.Projects.Location.{
  Candidate, LocationFailure, Location, failure, registered, unregistered, resolve_project_location,
}
use sandking.Projects.Requests.{
  Envelope, Surroundings, find_project, find_outcome, push_outcome, operation_failure, replay,
}
use sandking.Projects.Preparing.{PreparationFailure, Workshop, prepare_retained_production_project}

unfoldable pub register_new :
    State → RegisterRequest → Surroundings → Contract → ℕ → Candidate → Registered
register_new s r w k id c =
    let p = new_project w k id c in
    let response = answer r w k project_registered 1 p in
    (
      push_outcome k.idempotency_key_hash r.envelope.request_fingerprint response
          (record s { projects = s.projects ++ p ∷ [] }),
      response,
    )

abbrev pub reuse : State → RegisterRequest → Surroundings → Contract → ℕ → Project → Registered
reuse s r w k n p =
    let response = answer r w k project_registration_reused n p in
    (push_outcome k.idempotency_key_hash r.envelope.request_fingerprint response s, response)

abbrev pub or_project : Project → Option Project → Project
or_project p none = p
or_project p (some q) = q

abbrev pub reuse_prepared :
    State
    → RegisterRequest
    → Surroundings
    → Contract
    → ℕ
    → Project
    → Result PreparationFailure State
    → Registered
reuse_prepared s r w k n p (err f) = reject_preparation s r w p f
reuse_prepared s r w k n p (ok s') =
    reuse s' r w k n (or_project p (find_project p.project_id s'.projects))

unfoldable pub register_again :
    Workshop → State → RegisterRequest → Surroundings → Contract → Project → ℕ → Registered
register_again shop s r w k p n =
    if p.configuration == k.configuration
    then reuse_prepared s r w k n p (prepare_retained_production_project shop s p)
    else reject s r w project_configuration_conflict false n none

abbrev pub new_or_not : LocationFailure → Bool → Option Candidate → Location
new_or_not f true (some c) = unregistered c f.actual_revision
new_or_not f _ _ = failure f

-- `register_as_new` takes a directory for an unregistered one.
abbrev pub as_new : ResolutionAction → Location → Location
as_new action (failure f) =
    new_or_not f (may_be_new f.code && is_new action) f.registration_candidate
as_new action l = l

abbrev pub was_failure : Location → Bool
was_failure (failure f) = true
was_failure _ = false

unfoldable pub register_at :
    Workshop → State → RegisterRequest → Surroundings → Contract → ℕ → Bool → Location → Registered
register_at shop s r w k id renewed (failure f) =
    reject s r w f.code true f.actual_revision f.registrations
register_at shop s r w k id renewed (registered p n) =
    if not (is_absent r.resolution_action)
    then reject s r w mutation_contract_invalid false n none
    else if k.expected_revision == n
    then register_again shop s r w k p n
    else reject s r w mutation_revision_conflict true n none
register_at shop s r w k id renewed (unregistered c n) =
    if not (is_absent r.resolution_action) && not renewed
    then reject s r w mutation_contract_invalid false n none
    else if k.expected_revision == n
    then register_new s r w k id c
    else reject s r w mutation_revision_conflict true n none

unfoldable pub register_request :
    Workshop → State → RegisterRequest → Surroundings → ℕ → Option Contract → Registered
register_request shop s r w id none =
    reject s r w
      (if is_some r.configuration then mutation_contract_invalid else bounded_configuration_invalid)
      false 0 none
register_request shop s r w id (some k) =
    let location = resolve_project_location s.projects (w.place 0) in
    register_at shop s r w k id (was_failure location) (as_new r.resolution_action location)

unfoldable pub register_existing :
    Workshop → State → RegisterRequest → Surroundings → ℕ → Option Outcome → Registered
register_existing shop s r w id none =
    register_request shop s r w id
      (contract_of r r.envelope.idempotency_key_hash r.envelope.expected_revision r.configuration)
register_existing shop s r w id (some o) =
    if o.request_fingerprint == r.envelope.request_fingerprint
    then replay_of shop s r w o (project_of o.response s.projects)
    else reject s r w idempotency_key_conflict false (revision_or_zero o.response) none

-- `id` is the id that a new project would get.
unfoldable pub register_project : Workshop → State → RegisterRequest → Surroundings → ℕ → Registered
register_project shop s r w id =
    register_existing shop s r w id
      (find_outcome r.envelope.idempotency_key_hash s.registration_outcomes)
