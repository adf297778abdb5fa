-- ===== src/Projects/Preparing.antt =====
-- `prepareRetainedProductionProject` and `requireRegisteredProjectLocation` of
-- src/project-registration/registry.mjs, with `refreshRetainedProjectReferences` of state.mjs.
use sandking.Base.{
  ℕ, ◌==◌, Bool, true, false, not, ◌&&◌, ◌||◌, List, [], ◌∷◌, Option, none, some, find, map, Result,
  ok, err, if◌then◌else◌,
}
use sandking.Projects.Types.{
  AdapterId, conformance, sandcastle, Harness, HarnessLink, Project, Registration,
  project_resolution_registration, FailureCode, Response, answered, failed, Outcome, State,
  is_active, project_path_tombstoned, project_path_conflict, project_path_replaced,
  harness_not_found, harness_pin_invalid,
}
use sandking.Projects.Location.{
  Place, Location, failure, registered, unregistered, resolve_project_location, max_revision,
}
use sandking.Projects.Requests.{update_project}

-- `preparationFailure`.
pub record PreparationFailure : Type 0 where
  pub code : FailureCode
  pub actual_revision : Option ℕ
  pub registrations : Option (List Registration)

-- The harnesses, what the file system says of the project's own path, and what `prepareProductionHarness`
-- returns or throws when it is called to check a retained project, and when it is called again. The head
-- is the one that git reads in a harness's workspace.
pub record Workshop : Type 0 where
  pub harnesses : List Harness
  pub place : Place
  pub prepared : Result FailureCode ℕ
  pub prepared_again : Result FailureCode ℕ
  pub observed_head : Option ℕ

abbrev pub is_sandcastle : AdapterId → Bool
is_sandcastle sandcastle = true
is_sandcastle conformance = false

abbrev pub located : FailureCode → ℕ → List Registration → PreparationFailure
located code revision registrations = record {
  code = code;
  actual_revision = some revision;
  registrations = some registrations;
}

abbrev pub plain : FailureCode → PreparationFailure
plain code = record { code = code; actual_revision = none; registrations = none }

-- The path leads to another project, or to none.
abbrev pub displaced : Project → List Project → PreparationFailure
displaced p (q ∷ others) =
    if is_active p
    then located project_path_conflict (max_revision (p ∷ q ∷ []))
        (project_resolution_registration p ∷ project_resolution_registration q ∷ [])
    else located project_path_tombstoned (max_revision (p ∷ q ∷ []))
        (project_resolution_registration p ∷ [])
displaced p [] =
    located (if is_active p then project_path_replaced else project_path_tombstoned) p.revision
      (project_resolution_registration p ∷ [])

unfoldable pub require_registered_project_location : Project → Location → Option PreparationFailure
require_registered_project_location p (failure f) = some record {
  code = f.code;
  actual_revision = some f.actual_revision;
  registrations = f.registrations;
}
require_registered_project_location p (registered q n) =
    if q.project_id == p.project_id then none else some (displaced p (q ∷ []))
require_registered_project_location p (unregistered c n) = some (displaced p [])

abbrev pub same_harness : HarnessLink → HarnessLink → Bool
same_harness l m =
    l.harness_id == m.harness_id
    && same_adapter l.adapter_id m.adapter_id
    && l.pinned_revision == m.pinned_revision
  where
    same_adapter : AdapterId → AdapterId → Bool
    same_adapter sandcastle b = is_sandcastle b
    same_adapter conformance b = not (is_sandcastle b)

abbrev pub with_preparation : ℕ → Project → HarnessLink → Project
with_preparation preparation p l = record p {
  harness = some (record l { preparation = some preparation });
}

abbrev pub refresh_project : ℕ → HarnessLink → ℕ → Project → Option HarnessLink → Project
refresh_project id l preparation p none = p
refresh_project id l preparation p (some m) =
    if p.project_id == id && same_harness m l then with_preparation preparation p m else p

abbrev pub refresh_response : ℕ → HarnessLink → ℕ → Response → Response
refresh_response id l preparation (failed f) = failed f
refresh_response id l preparation (answered a) =
    answered (record a { project = refresh_project id l preparation a.project a.project.harness })

abbrev pub refresh_outcome : ℕ → HarnessLink → ℕ → Outcome → Outcome
refresh_outcome id l preparation o = record o {
  response = refresh_response id l preparation o.response;
}

-- What is left to do with what was prepared.
unfoldable pub keep_preparation :
    State → Project → HarnessLink → ℕ → Option ℕ → Result PreparationFailure State
keep_preparation s p l preparation (some retained) =
    if retained == preparation then ok s else err (plain harness_pin_invalid)
keep_preparation s p l preparation none = ok record {
  projects = update_project p.project_id (λ q. with_preparation preparation q l) s.projects;
  registration_outcomes = map (refresh_outcome p.project_id l preparation) s.registration_outcomes;
  pin_outcomes = map (refresh_outcome p.project_id l preparation) s.pin_outcomes;
}

abbrev pub keep_prepared :
    State → Project → HarnessLink → Result FailureCode ℕ → Result PreparationFailure State
keep_prepared s p l (err code) = err (plain code)
keep_prepared s p l (ok preparation) = keep_preparation s p l preparation l.preparation

unfoldable pub prepare_located :
    Workshop → State → Project → HarnessLink → Option Harness → Result PreparationFailure State
prepare_located shop s p l none = err (plain harness_not_found)
prepare_located shop s p l (some h) =
    if not (is_sandcastle h.adapter_id) || not (h.immutable_revision == l.pinned_revision)
    then err (plain harness_pin_invalid)
    else keep_prepared s p l shop.prepared

abbrev pub unless_lost :
    Workshop
    → State
    → Project
    → HarnessLink
    → Option PreparationFailure
    → Result PreparationFailure State
unless_lost shop s p l (some f) = err f
unless_lost shop s p l none =
    prepare_located shop s p l (find (λ h. h.harness_id == l.harness_id) shop.harnesses)

unfoldable pub prepare_linked :
    Workshop → State → Project → Option HarnessLink → Result PreparationFailure State
prepare_linked shop s p none = ok s
prepare_linked shop s p (some l) =
    if is_sandcastle l.adapter_id
    then unless_lost shop s p l
        (require_registered_project_location p (resolve_project_location s.projects shop.place))
    else ok s

unfoldable pub prepare_retained_production_project :
    Workshop → State → Project → Result PreparationFailure State
prepare_retained_production_project shop s p = prepare_linked shop s p p.harness
