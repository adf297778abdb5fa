-- ===== src/Projects/Found.antt =====
-- Where the path leads behind a resolution of src/project-registration/resolution.mjs.
use sandking.Base.{
  ℕ, suc, length, ◌≡◌, ◌==◌, ◌&&◌, ◌||◌, inl, inr, refl, subst, Bool, true, false, List, Option,
  none, some, map, ok, if◌then◌else◌, arith, Bool-cases, not, is_some, and_true,
}
use sandking.Projects.Types.{
  Project, answered, State, ResultCode, is_active, project_registration_restored,
  project_registration_conflict_resolved, project_path_conflict,
}
use sandking.Projects.Location.{
  Location, LocationFailure, Candidate, resolve_project_location, directory,
}
use sandking.Projects.Located.{is_selected-is_found}
use sandking.Projects.Requests.{Surroundings, update_project, find_outcome}
use sandking.Projects.Settled.{has_distinct_ids, update_project-is_found, resolve_all-is_found}
use sandking.Projects.Resolution.{
  ResolveRequest, Contract, Action, forget, restore, resolve_conflict, Resolved, contract,
  contract_of, raise, set_active, names_some, move_active, is_found, is_selected, keep_selected,
  trial_ids, reject, conclude, forget_project, keep_conflict, restore_conflicting, restore_at,
  restore_moved, restore_project, resolved_one, select_project, resolve_found, resolve_project,
  carry_out, address, resolve_new, resolve_existing, apply_project_registration_resolution,
  conflict_of, find_conflict,
}

abbrev pub settles : ResultCode → Bool
settles project_registration_restored = true
settles project_registration_conflict_resolved = true
settles _ = false

-- Where a project was restored or selected, the directory is resolved to it from the state that is left.
abbrev pub settled : Candidate → Resolved → Bool
settled c (ok (s, answered a)) =
    not (settles a.code)
    || is_found a.project.project_id (resolve_project_location s.projects (directory c))
settled c _ = true

abbrev pub in_conflict : Candidate → State → Option Action → Bool
in_conflict c s (some resolve_conflict) =
    is_some (conflict_of (resolve_project_location s.projects (directory c)))
in_conflict c s _ = true

either_settled :
    (c : Candidate) (b : Bool) (x y : Resolved)
    → (b ≡ true → settled c x ≡ true)
    → settled c y ≡ true
    → settled c (if b then x else y) ≡ true
either_settled c true x y h k = h refl
either_settled c false x y h k = k

contract_of-action :
    (r : ResolveRequest) (hash : Option ℕ) (action : Option Action) (id revision : Option ℕ)
    (k : Contract)
    → contract_of r hash action id revision ≡ some k
    → action ≡ some k.action
contract_of-action r none action id revision k h = ground arith
contract_of-action r (some hash) none id revision k h = ground arith
contract_of-action r (some hash) (some action) none revision k h = ground arith
contract_of-action r (some hash) (some action) (some id) none k h = ground arith
contract_of-action r (some hash) (some action) (some id) (some revision) k h = ground arith

module _ (s : State) (r : ResolveRequest) (w : Surroundings) (c : Candidate) where
  conclude_settled :
      (k : Contract) (code : ResultCode) (p : Project) (ps : List Project)
      → is_found p.project_id (resolve_project_location ps (directory c)) ≡ true
      → settled c (conclude s r w k code p ps) ≡ true
  unfolding conclude
  conclude_settled k code p ps h = elim (Bool-cases (settles code)) [
    | inl is ↦ rw is h
    | inr isnt ↦ rw isnt refl
  ]

  forget_project_settled :
      (k : Contract) (p : Project) → settled c (forget_project s r w k p) ≡ true
  unfolding forget_project conclude
  forget_project_settled k p = ground arith

  keep_conflict_settled :
      (k : Contract) (p : Project) (ps : List Project) (f : Option LocationFailure)
      → settled c (keep_conflict s r w k p ps f) ≡ true
  unfolding keep_conflict
  keep_conflict_settled k p ps none = refl
  keep_conflict_settled k p ps (some f) = ground arith

  restore_conflicting_settled :
      (k : Contract) (p : Project) (change : Project → Project) (f : Option LocationFailure)
      → settled c (restore_conflicting s r w k p change f) ≡ true
  unfolding restore_conflicting
  restore_conflicting_settled k p change none = refl
  restore_conflicting_settled k p change (some f) = keep_conflict_settled k p _ _

  restore_at_settled :
      (k : Contract) (p : Project) (change : Project → Project)
      → ((q : Project) → (change q).project_id ≡ q.project_id)
      → has_distinct_ids s.projects ≡ true
      → settled c (
          restore_at s r w k p change (
            resolve_project_location (update_project p.project_id change s.projects) (directory c)))
        ≡ true
  unfolding restore_at
  restore_at_settled k p change h d =
      let location =
        resolve_project_location (update_project p.project_id change s.projects) (directory c) in
      either_settled c (is_found p.project_id location)
        (conclude s r w k project_registration_restored (raise w.now (change p))
          (update_project p.project_id (λ q. raise w.now (change q)) s.projects))
        (restore_conflicting s r w k p change (conflict_of location))
        (λ found.
          conclude_settled k project_registration_restored (raise w.now (change p)) _
            (rw (h p) (update_project-is_found w.now p.project_id change s.projects c h d found)))
        (restore_conflicting_settled k p change (conflict_of location))

  restore_moved_settled :
      (k : Contract) (p : Project) (moved : Option Candidate)
      → w.place 1 ≡ directory c
      → has_distinct_ids s.projects ≡ true
      → settled c (
          restore_moved s r w k p
            (resolve_project_location
              (update_project p.project_id set_active s.projects)
              (directory c))
            moved)
        ≡ true
  unfolding restore_moved
  restore_moved_settled k p none here d = restore_at_settled k p set_active (λ q. refl) d
  restore_moved_settled k p (some m) here d =
      rw here (restore_at_settled k p (move_active m.canonical_path) (λ q. refl) d)

  restore_project_settled :
      (k : Contract) (p : Project)
      → w.place 0 ≡ directory c
      → w.place 1 ≡ directory c
      → has_distinct_ids s.projects ≡ true
      → settled c (restore_project s r w k p) ≡ true
  unfolding restore_project
  restore_project_settled k p here then_here d = elim (Bool-cases (is_active p)) [
    | inl is ↦ rw is refl
    | inr gone ↦ rw gone (rw here (restore_moved_settled k p _ then_here d))
  ]

  select_project_settled :
      (k : Contract) (p : Project) (f : LocationFailure) (path : Option ℕ)
      → w.place (suc (length (trial_ids p s.projects))) ≡ directory c
      → has_distinct_ids s.projects ≡ true
      → settled c (select_project s r w k p s.projects f path) ≡ true
  unfolding select_project
  select_project_settled k p f none here d = refl
  select_project_settled k p f (some path) here d =
      let others = map (keep_selected p.project_id f.registrations) s.projects in
      let candidates = update_project p.project_id (move_active path) others in
      let location = resolve_project_location candidates (directory c) in
      rw here (
        either_settled c
          (names_some p.project_id f.registrations && is_selected p.project_id location)
          (conclude s r w k project_registration_conflict_resolved
            (raise w.now (move_active path p))
            (map (resolved_one w.now p.project_id path f.registrations) s.projects))
          (reject s r w project_path_conflict true f.actual_revision f.registrations)
          (λ both.
            let (named, found) =
              and_true (names_some p.project_id f.registrations) (is_selected p.project_id location)
                both in
            conclude_settled k project_registration_conflict_resolved
              (raise w.now (move_active path p)) _
              (resolve_all-is_found w.now p.project_id path f.registrations s.projects c named d
                (is_selected-is_found p.project_id c candidates found)))
          refl)

  resolve_found_settled :
      (k : Contract) (p : Project) (location : Location) (f : Option LocationFailure)
      → w.place (suc (length (trial_ids p s.projects))) ≡ directory c
      → has_distinct_ids s.projects ≡ true
      → is_some f ≡ true
      → settled c (resolve_found s r w k p location (find_conflict w p s.projects f)) ≡ true
  unfolding resolve_found
  resolve_found_settled k p location none here d h = ground arith
  resolve_found_settled k p location (some f) here d h =
      select_project_settled k p f f.selected_canonical_path here d

  carry_out_settled :
      (action : Action) (k : Contract) (p : Project)
      → ((n : ℕ) → w.place n ≡ directory c)
      → has_distinct_ids s.projects ≡ true
      → in_conflict c s (some action) ≡ true
      → settled c (carry_out action s r w k p) ≡ true
  unfolding carry_out resolve_project
  carry_out_settled forget k p here d h = forget_project_settled k p
  carry_out_settled restore k p here d h = restore_project_settled k p (here 0) (here 1) d
  carry_out_settled resolve_conflict k p here d h =
      rw (here 0) (resolve_found_settled k p _ _ (here _) d h)

  address_settled :
      (k : Contract) (p : Option Project)
      → ((n : ℕ) → w.place n ≡ directory c)
      → has_distinct_ids s.projects ≡ true
      → in_conflict c s (some k.action) ≡ true
      → settled c (address s r w k p) ≡ true
  unfolding address
  address_settled k none here d h = refl
  address_settled k (some p) here d h =
      either_settled c (k.expected_revision == p.revision) _ _
        (λ same. carry_out_settled k.action k p here d h) refl

  resolve_new_settled :
      (k : Option Contract)
      → ((n : ℕ) → w.place n ≡ directory c)
      → has_distinct_ids s.projects ≡ true
      → contract r ≡ k
      → in_conflict c s r.action ≡ true
      → settled c (resolve_new s r w k) ≡ true
  unfolding resolve_new
  resolve_new_settled none here d e h = refl
  resolve_new_settled (some k) here d e h =
      address_settled k _ here d
        (subst (λ a. in_conflict c s a ≡ true) (contract_of-action r _ r.action _ _ k e) h)

-- Where no outcome is retained under the key of the request, the directory at the path stays the same, the
-- ids of the projects are distinct, and a conflict is only resolved where the path is in one: behind a
-- restoration or a resolved conflict, the directory is resolved to the restored or selected project.
pub resolution_settles :
    (s : State) (r : ResolveRequest) (w : Surroundings) (c : Candidate)
    → find_outcome r.envelope.idempotency_key_hash s.registration_outcomes ≡ none
    → ((n : ℕ) → w.place n ≡ directory c)
    → has_distinct_ids s.projects ≡ true
    → in_conflict c s r.action ≡ true
    → settled c (apply_project_registration_resolution s r w) ≡ true
unfolding apply_project_registration_resolution resolve_existing
resolution_settles s r w c new here d h =
    rw new (resolve_new_settled s r w c (contract r) here d refl h)
