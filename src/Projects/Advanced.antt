-- ===== src/Projects/Advanced.antt =====
-- What a resolution of src/project-registration/resolution.mjs does to the retained projects.
use sandking.Base.{
  ℕ, suc, length, ◌≡◌, ◌+◌, ◌==◌, ◌&&◌, inl, inr, refl, Bool, true, false, List, [], ◌∷◌, Option,
  none, some, map, ok, err, if◌then◌else◌, arith, Bool-cases, not,
}
use sandking.Projects.Types.{
  Project, Registration, answered, failed, Outcome, State, FailureCode, ResultCode,
  project_registration_conflict_resolved, project_path_conflict, is_active,
}
use sandking.Projects.Location.{Location, LocationFailure, Candidate, resolve_project_location}
use sandking.Projects.Requests.{Surroundings, find_project, update_project, find_outcome}
use sandking.Projects.Resolution.{
  ResolveRequest, Contract, Action, forget, restore, resolve_conflict, Resolved, contract, raise,
  set_active, set_tombstoned, names_some, move_active, is_found, is_selected, keep_selected,
  trial_ids, reject, conclude, forget_project, keep_conflict, restore_conflicting, restore_at,
  restore_moved, restore_project, resolved_one, select_project, resolve_found, resolve_project,
  carry_out, address, resolve_new, resolve_existing, apply_project_registration_resolution,
  conflict_of, moved_to, find_conflict,
}

-- A project stays what it is, or gets the next revision and keeps what identifies it.
pub data Advanced : Project → Project → Type 0 where
  kept : {p : Project} → Advanced p p
  raised :
      {p q : Project}
      → q.revision ≡ p.revision + 1
      → q.project_id ≡ p.project_id
      → q.filesystem_identity_digest ≡ p.filesystem_identity_digest
      → q.configuration ≡ p.configuration
      → q.harness ≡ p.harness
      → Advanced p q

pub data Advances : List Project → List Project → Type 0 where
  nil : Advances [] []
  cons :
      {p q : Project} {ps qs : List Project}
      → Advanced p q
      → Advances ps qs
      → Advances (p ∷ ps) (q ∷ qs)

unchanged-Advances : (ps : List Project) → Advances ps ps
unchanged-Advances [] = nil
unchanged-Advances (p ∷ ps) = cons kept (unchanged-Advances ps)

update_project-Advances :
    (id : ℕ) (change : Project → Project) (ps : List Project)
    → ((p : Project) → Advanced p (change p))
    → Advances ps (update_project id change ps)
update_project-Advances id change [] h = nil
update_project-Advances id change (p ∷ ps) h = elim (Bool-cases (p.project_id == id)) [
  | inl same ↦ rw same (cons (h p) (unchanged-Advances ps))
  | inr differs ↦ rw differs (cons kept (update_project-Advances id change ps h))
]

map-Advances :
    (change : Project → Project) (ps : List Project)
    → ((p : Project) → Advanced p (change p))
    → Advances ps (map change ps)
map-Advances change [] h = nil
map-Advances change (p ∷ ps) h = cons (h p) (map-Advances change ps h)

resolved_one-Advanced :
    (now id path : ℕ) (rs : Option (List Registration)) (p : Project)
    → Advanced p (resolved_one now id path rs p)
resolved_one-Advanced now id path rs p = elim (Bool-cases (names_some p.project_id rs)) [
  | inl named ↦ rw named (elim (Bool-cases (p.project_id == id)) [
    | inl same ↦ rw same (raised refl refl refl refl refl)
    | inr differs ↦ rw differs (raised refl refl refl refl refl)
  ])
  | inr unnamed ↦ rw unnamed kept
]

-- The state behind an operation. One that throws writes nothing.
abbrev pub left_by : State → Resolved → State
left_by s (err e) = s
left_by s (ok (s', a)) = s'

-- What a resolution does to the projects: it advances them, and changes none where it fails otherwise than
-- by a conflict.
abbrev pub is_conflict : FailureCode → Bool
is_conflict project_path_conflict = true
is_conflict _ = false

abbrev pub is_rejected : Resolved → Bool
is_rejected (err e) = true
is_rejected (ok (s, answered a)) = false
is_rejected (ok (s, failed f)) = not (is_conflict f.code)

pub record IsSound (s : State) (x : Resolved) : Type 0 where
  pub advances : Advances s.projects (left_by s x).projects
  pub rejected : is_rejected x ≡ true → left_by s x ≡ s

either-IsSound :
    (s : State) (b : Bool) (x y : Resolved)
    → IsSound s x
    → IsSound s y
    → IsSound s (if b then x else y)
either-IsSound s true x y h k = h
either-IsSound s false x y h k = k

module _ (s : State) (r : ResolveRequest) (w : Surroundings) where
  conclude-IsSound :
      (k : Contract) (code : ResultCode) (p : Project) (ps : List Project)
      → Advances s.projects ps
      → IsSound s (conclude s r w k code p ps)
  unfolding conclude
  conclude-IsSound k code p ps h = record { advances = h; rejected = ground arith }

  forget_project-IsSound : (k : Contract) (p : Project) → IsSound s (forget_project s r w k p)
  unfolding forget_project conclude
  forget_project-IsSound k p = elim (Bool-cases (is_active p)) [
    | inl is ↦ rw is record {
      advances =
          update_project-Advances p.project_id (λ q. raise w.now (set_tombstoned q)) s.projects
            (λ q. raised refl refl refl refl refl);
      rejected = ground arith;
    }
    | inr gone ↦ rw gone record { advances = unchanged-Advances s.projects; rejected = λ h. refl }
  ]

  keep_conflict-IsSound :
      (k : Contract) (p : Project) (ps : List Project) (f : Option LocationFailure)
      → Advances s.projects ps
      → IsSound s (keep_conflict s r w k p ps f)
  unfolding keep_conflict
  keep_conflict-IsSound k p ps none h = record {
    advances = unchanged-Advances s.projects;
    rejected = λ e. refl;
  }
  keep_conflict-IsSound k p ps (some f) h =
      elim (Bool-cases (names_some p.project_id f.registrations)) [
        | inl named ↦ rw named record { advances = h; rejected = ground arith }
        | inr unnamed ↦
            rw unnamed record { advances = unchanged-Advances s.projects; rejected = λ e. refl }
      ]

  restore_conflicting-IsSound :
      (k : Contract) (p : Project) (change : Project → Project) (f : Option LocationFailure)
      → ((q : Project) → Advanced q (raise w.now (change q)))
      → IsSound s (restore_conflicting s r w k p change f)
  unfolding restore_conflicting
  restore_conflicting-IsSound k p change none h = record {
    advances = unchanged-Advances s.projects;
    rejected = λ e. refl;
  }
  restore_conflicting-IsSound k p change (some f) h =
      let ps = update_project p.project_id (λ q. raise w.now (change q)) s.projects in
      keep_conflict-IsSound k p ps (conflict_of (resolve_project_location ps (w.place 2)))
        (update_project-Advances p.project_id (λ q. raise w.now (change q)) s.projects h)

  restore_at-IsSound :
      (k : Contract) (p : Project) (change : Project → Project) (location : Location)
      → ((q : Project) → Advanced q (raise w.now (change q)))
      → IsSound s (restore_at s r w k p change location)
  unfolding restore_at conclude
  restore_at-IsSound k p change location h = elim (Bool-cases (is_found p.project_id location)) [
    | inl found ↦ rw found record {
      advances = update_project-Advances p.project_id (λ q. raise w.now (change q)) s.projects h;
      rejected = ground arith;
    }
    | inr other ↦ rw other (restore_conflicting-IsSound k p change (conflict_of location) h)
  ]

  restore_moved-IsSound :
      (k : Contract) (p : Project) (location : Location) (c : Option Candidate)
      → IsSound s (restore_moved s r w k p location c)
  unfolding restore_moved
  restore_moved-IsSound k p location none =
      restore_at-IsSound k p set_active location (λ q. raised refl refl refl refl refl)
  restore_moved-IsSound k p location (some c) =
      restore_at-IsSound k p (move_active c.canonical_path) _ (λ q. raised refl refl refl refl refl)

  restore_project-IsSound : (k : Contract) (p : Project) → IsSound s (restore_project s r w k p)
  unfolding restore_project
  restore_project-IsSound k p = elim (Bool-cases (is_active p)) [
    | inl is ↦ rw is record { advances = unchanged-Advances s.projects; rejected = λ e. refl }
    | inr gone ↦
        let location =
          resolve_project_location (update_project p.project_id set_active s.projects)
            (w.place 0) in
        rw gone (restore_moved-IsSound k p location (moved_to location))
  ]

  select_project-IsSound :
      (k : Contract) (p : Project) (cs : List Project) (f : LocationFailure) (path : Option ℕ)
      → IsSound s (select_project s r w k p cs f path)
  unfolding select_project
  select_project-IsSound k p cs f none = record {
    advances = unchanged-Advances s.projects;
    rejected = λ e. refl;
  }
  select_project-IsSound k p cs f (some path) =
      let others = map (keep_selected p.project_id f.registrations) cs in
      let candidates = update_project p.project_id (move_active path) others in
      let location =
        resolve_project_location candidates (w.place (suc (length (trial_ids p s.projects)))) in
      either-IsSound s
        (names_some p.project_id f.registrations && is_selected p.project_id location)
        (conclude s r w k project_registration_conflict_resolved (raise w.now (move_active path p))
          (map (resolved_one w.now p.project_id path f.registrations) s.projects))
        (reject s r w project_path_conflict true f.actual_revision f.registrations)
        (conclude-IsSound k project_registration_conflict_resolved
          (raise w.now (move_active path p)) _
          (map-Advances (resolved_one w.now p.project_id path f.registrations) s.projects
            (resolved_one-Advanced w.now p.project_id path f.registrations)))
        record { advances = unchanged-Advances s.projects; rejected = λ e. refl }

  resolve_found-IsSound :
      (k : Contract) (p : Project) (location : Location)
      (found : Option (List Project × LocationFailure))
      → IsSound s (resolve_found s r w k p location found)
  unfolding resolve_found
  resolve_found-IsSound k p location none = record {
    advances = unchanged-Advances s.projects;
    rejected = λ e. refl;
  }
  resolve_found-IsSound k p location (some (cs, f)) =
      select_project-IsSound k p cs f f.selected_canonical_path

  carry_out-IsSound :
      (action : Action) (k : Contract) (p : Project) → IsSound s (carry_out action s r w k p)
  unfolding carry_out resolve_project
  carry_out-IsSound forget k p = forget_project-IsSound k p
  carry_out-IsSound restore k p = restore_project-IsSound k p
  carry_out-IsSound resolve_conflict k p =
      let location = resolve_project_location s.projects (w.place 0) in
      resolve_found-IsSound k p location (find_conflict w p s.projects (conflict_of location))

  address-IsSound : (k : Contract) (p : Option Project) → IsSound s (address s r w k p)
  unfolding address
  address-IsSound k none = record { advances = unchanged-Advances s.projects; rejected = λ e. refl }
  address-IsSound k (some p) = elim (Bool-cases (k.expected_revision == p.revision)) [
    | inl same ↦ rw same (carry_out-IsSound k.action k p)
    | inr differs ↦
        rw differs record { advances = unchanged-Advances s.projects; rejected = λ e. refl }
  ]

  resolve_new-IsSound : (k : Option Contract) → IsSound s (resolve_new s r w k)
  unfolding resolve_new
  resolve_new-IsSound none = record {
    advances = unchanged-Advances s.projects;
    rejected = λ e. refl;
  }
  resolve_new-IsSound (some k) = address-IsSound k (find_project k.project_id s.projects)

  resolve_existing-IsSound : (o : Option Outcome) → IsSound s (resolve_existing s r w o)
  unfolding resolve_existing
  resolve_existing-IsSound none = resolve_new-IsSound (contract r)
  resolve_existing-IsSound (some o) =
      elim (Bool-cases (o.request_fingerprint == r.envelope.request_fingerprint)) [
        | inl same ↦
            rw same record { advances = unchanged-Advances s.projects; rejected = λ e. refl }
        | inr differs ↦
            rw differs record { advances = unchanged-Advances s.projects; rejected = λ e. refl }
      ]

-- Whatever is answered or thrown, every project stays as it is, or gets the next revision and keeps its id,
-- identity, configuration and harness; and a failure other than a conflict changes nothing.
pub resolution-IsSound :
    (s : State) (r : ResolveRequest) (w : Surroundings)
    → IsSound s (apply_project_registration_resolution s r w)
unfolding apply_project_registration_resolution
resolution-IsSound s r w =
    resolve_existing-IsSound s r w
      (find_outcome r.envelope.idempotency_key_hash s.registration_outcomes)
