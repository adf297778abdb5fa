-- ===== src/Projects/Resolution/Selecting.antt =====
-- `resolve_conflict` of src/project-registration/resolution.mjs.
use sandking.Base.{
  ℕ, suc, length, ◌==◌, true, false, not, ◌&&◌, List, [], ◌∷◌, Option, none, some, map,
  if◌then◌else◌,
}
use sandking.Projects.Types.{
  Project, Registration, mutation_contract_invalid, project_path_conflict,
  project_registration_conflict_resolved, State, is_active,
}
use sandking.Projects.Location.{
  LocationFailure, Location, resolve_project_location, tombstoned_ones,
}
use sandking.Projects.Requests.{Surroundings, update_project}
use sandking.Projects.Resolution.Request.{
  ResolveRequest, Contract, Resolved, reject, set_active, raise, names_some, conflict_of,
  actual_revision_of, is_selected,
}
use sandking.Projects.Resolution.Restoring.{conclude, set_tombstoned, move_active}

-- The tombstoned projects by whose restoration the path would come into a conflict over the project.
abbrev pub trial_ids : Project → List Project → List ℕ
trial_ids p ps =
    if is_active p then map (λ q. q.project_id) (tombstoned_ones ps) else p.project_id ∷ []

abbrev pub naming : ℕ → Option LocationFailure → Option LocationFailure
naming id none = none
naming id (some f) = if names_some id f.registrations then some f else none

abbrev pub or_next :
    List Project
    → Option LocationFailure
    → Option (List Project × LocationFailure)
    → Option (List Project × LocationFailure)
or_next ps none next = next
or_next ps (some f) next = some (ps, f)

abbrev pub try_restored :
    ℕ → Surroundings → List Project → ℕ → List ℕ → Option (List Project × LocationFailure)
try_restored id w ps n [] = none
try_restored id w ps n (t ∷ ts) =
    let rest = try_restored id w ps (suc n) ts in
    let restored = update_project t set_active ps in
    or_next restored (naming id (conflict_of (resolve_project_location restored (w.place n)))) rest

abbrev pub find_conflict :
    Surroundings
    → Project
    → List Project
    → Option LocationFailure
    → Option (List Project × LocationFailure)
find_conflict w p ps (some f) = some (ps, f)
find_conflict w p ps none = try_restored p.project_id w ps 1 (trial_ids p ps)

-- The selected one of the conflicting projects is active, the others are tombstoned.
abbrev pub keep_selected : ℕ → Option (List Registration) → Project → Project
keep_selected id rs q =
    if names_some q.project_id rs && not (q.project_id == id) then set_tombstoned q else q

abbrev pub resolved_one : ℕ → ℕ → ℕ → Option (List Registration) → Project → Project
resolved_one now id path rs q =
    if names_some q.project_id rs
    then raise now (if q.project_id == id then move_active path q else set_tombstoned q)
    else q

unfoldable pub select_project :
    State
    → ResolveRequest
    → Surroundings
    → Contract
    → Project
    → List Project
    → LocationFailure
    → Option ℕ
    → Resolved
select_project s r w k p cs f none =
    reject s r w project_path_conflict true f.actual_revision f.registrations
select_project s r w k p cs f (some path) =
    let others = map (keep_selected p.project_id f.registrations) cs in
    let candidates = update_project p.project_id (move_active path) others in
    let location =
      resolve_project_location candidates (w.place (suc (length (trial_ids p s.projects)))) in
    if names_some p.project_id f.registrations && is_selected p.project_id location
    then conclude s r w k project_registration_conflict_resolved (raise w.now (move_active path p))
        (map (resolved_one w.now p.project_id path f.registrations) s.projects)
    else reject s r w project_path_conflict true f.actual_revision f.registrations

unfoldable pub resolve_found :
    State
    → ResolveRequest
    → Surroundings
    → Contract
    → Project
    → Location
    → Option (List Project × LocationFailure)
    → Resolved
resolve_found s r w k p location none =
    reject s r w mutation_contract_invalid false (actual_revision_of location) none
resolve_found s r w k p location (some (cs, f)) =
    select_project s r w k p cs f f.selected_canonical_path

unfoldable pub resolve_project :
    State → ResolveRequest → Surroundings → Contract → Project → Resolved
resolve_project s r w k p =
    let location = resolve_project_location s.projects (w.place 0) in
    resolve_found s r w k p location (find_conflict w p s.projects (conflict_of location))
