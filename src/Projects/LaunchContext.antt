-- ===== src/Projects/LaunchContext.antt =====
-- `loadLaunchContext` of src/project-registration/registry.mjs, under the mutation lock.
use sandking.Base.{
  ℕ, ◌==◌, Bool, false, not, ◌&&◌, Option, none, some, find, Result, ok, err, if◌then◌else◌,
}
use sandking.Projects.Types.{
  HarnessLink, Harness, Project, FailureCode, State, is_active, project_not_found,
  harness_pin_missing, harness_not_found, harness_pin_invalid,
}
use sandking.Projects.Location.{
  Location, failure, registered, unregistered, resolve_project_location,
}
use sandking.Projects.Requests.{find_project}
use sandking.Projects.Preparing.{
  PreparationFailure, Workshop, is_sandcastle, prepare_retained_production_project,
}
use sandking.Projects.Registry.{or_project}
use sandking.Projects.Pinning.{find_harness, same_option}

pub data LaunchThrown : Type 0 where
  launch_precondition_invalid : LaunchThrown
  coded : FailureCode → LaunchThrown

-- Without preparation, only the path of the project.
pub data LaunchContext : Type 0 where
  located_at : ℕ → LaunchContext
  launches : Project → Harness → LaunchContext

abbrev pub Loaded : Type 0
Loaded = Result LaunchThrown (State × LaunchContext)

abbrev pub is_prepared : ℕ → Option HarnessLink → Bool
is_prepared preparation none = false
is_prepared preparation (some l) =
    is_sandcastle l.adapter_id && same_option l.preparation (some preparation)

abbrev pub load_again : State → Project → Harness → Result FailureCode ℕ → Loaded
load_again s p h (err code) = err (coded code)
load_again s p h (ok preparation) =
    if is_prepared preparation p.harness
    then ok (s, launches p h)
    else err (coded harness_pin_invalid)

abbrev pub load_retained : Workshop → Project → Harness → Result PreparationFailure State → Loaded
load_retained shop p h (err f) = err (coded f.code)
load_retained shop p h (ok s') =
    load_again s' (or_project p (find_project p.project_id s'.projects)) h shop.prepared_again

unfoldable pub load_pinned :
    Workshop → State → Bool → Project → HarnessLink → Option Harness → Loaded
load_pinned shop s prepares p l none = err (coded harness_not_found)
load_pinned shop s prepares p l (some h) =
    if not (h.immutable_revision == l.pinned_revision)
    then err (coded harness_pin_invalid)
    else if not prepares
    then ok (s, located_at p.canonical_path)
    else if is_sandcastle h.adapter_id
    then load_retained shop p h (prepare_retained_production_project shop s p)
    else ok (s, launches p h)

unfoldable pub load_linked : Workshop → State → Bool → Project → Option HarnessLink → Loaded
load_linked shop s prepares p none = err (coded harness_pin_missing)
load_linked shop s prepares p (some l) =
    load_pinned shop s prepares p l (find_harness l.harness_id shop.harnesses)

unfoldable pub load_located : Workshop → State → Bool → Project → Location → Loaded
load_located shop s prepares p (failure f) = err (coded f.code)
load_located shop s prepares p (registered q n) =
    if q.project_id == p.project_id
    then load_linked shop s prepares p p.harness
    else err launch_precondition_invalid
load_located shop s prepares p (unregistered c n) = err launch_precondition_invalid

unfoldable pub load_active : Workshop → State → Bool → Option Project → Loaded
load_active shop s prepares none = err (coded project_not_found)
load_active shop s prepares (some p) =
    load_located shop s prepares p (resolve_project_location s.projects shop.place)

unfoldable pub load_launch_context : Workshop → State → Bool → ℕ → Loaded
load_launch_context shop s prepares id =
    load_active shop s prepares (find (λ p. p.project_id == id && is_active p) s.projects)
