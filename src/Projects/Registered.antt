-- ===== src/Projects/Registered.antt =====
-- Where the path leads behind a registration of src/project-registration/registry.mjs.
mod Appended
pub use Appended.*
use sandking.Base.{
  ℕ, ◌≡◌, ◌==◌, ◌&&◌, ◌||◌, inl, inr, refl, sym, ap, subst, ◌∙◌, Bool, true, false, List, [], ◌∷◌,
  ◌++◌, Option, none, some, map, if◌then◌else◌, arith, Bool-cases, Result, ok, err, not, filter,
}
use sandking.Projects.Types.{
  Project, Answer, answered, failed, State, ResultCode, is_active, project_registered,
  project_resolution_registration,
}
use sandking.Projects.Location.{
  Location, LocationFailure, Candidate, resolve_project_location, directory, registered, failure,
  unregistered, active_ones, at_path, of_identity, tombstoned_ones, resolve_directory,
  resolve_registered, resolve_elsewhere,
}
use sandking.Projects.Located.{
  resolve_registered_iff, resolve_unregistered_iff, active_at, active_with,
}
use sandking.Projects.Requests.{Surroundings, find_outcome}
use sandking.Projects.Resolution.{is_found, conflict_of, names_some, names}
use sandking.Projects.Preparing.{Workshop, PreparationFailure, prepare_retained_production_project}
use sandking.Projects.Registry.{
  RegisterRequest, Contract, ResolutionAction, absent, register_as_new, unknown, Registered,
  register_new, register_again, register_at, register_request, register_existing, register_project,
  reuse_prepared, new_project, as_new, new_or_not, contract_of, is_absent, may_be_new, is_new,
}

abbrev candidate_of : Location → Option Candidate
candidate_of (failure f) = f.registration_candidate
candidate_of (registered p n) = none
candidate_of (unregistered c n) = some c

resolve_elsewhere-candidate :
    (c d : Candidate) (ps gone : List Project)
    → candidate_of (resolve_elsewhere c ps gone) ≡ some d
    → d ≡ c
resolve_elsewhere-candidate c d (a ∷ b ∷ ps) gone h = ground arith
resolve_elsewhere-candidate c d (a ∷ []) gone h = ground arith
resolve_elsewhere-candidate c d [] (t ∷ ts) h = ground arith
resolve_elsewhere-candidate c d [] [] h = ground arith

resolve_registered-candidate :
    (c : Candidate) (p : Project) (ps : List Project)
    → candidate_of (resolve_registered c p ps) ≡ none
resolve_registered-candidate c p [] = refl
resolve_registered-candidate c p (a ∷ []) = refl
resolve_registered-candidate c p (a ∷ b ∷ ps) = refl

resolve_directory-candidate :
    (c d : Candidate) (here gone matching : List Project)
    → candidate_of (resolve_directory c here gone matching) ≡ some d
    → d ≡ c
resolve_directory-candidate c d (p ∷ q ∷ ps) gone matching h = ground arith
resolve_directory-candidate c d (p ∷ []) gone matching h =
    elim (Bool-cases (p.filesystem_identity_digest == c.identity_digest)) [
      | inl same ↦ ground (arith, resolve_registered-candidate c p (active_ones matching))
      | inr differs ↦ ground arith
    ]
resolve_directory-candidate c d [] (t ∷ ts) matching h = ground arith
resolve_directory-candidate c d [] [] matching h =
    resolve_elsewhere-candidate c d (active_ones matching) (tombstoned_ones matching) h

as_new-candidate :
    (action : ResolutionAction) (l : Location) (d : Candidate) (n : ℕ)
    → as_new action l ≡ unregistered d n
    → candidate_of l ≡ some d
as_new-candidate action (failure f) d n h =
    renew f (may_be_new f.code && is_new action) f.registration_candidate h
  where
    renew :
        (f : LocationFailure) (b : Bool) (o : Option Candidate)
        → new_or_not f b o ≡ unregistered d n
        → o ≡ some d
    renew f true none h = ground arith
    renew f true (some c) h = ground arith
    renew f false o h = ground arith
as_new-candidate action (registered p m) d n h = ground arith
as_new-candidate action (unregistered c m) d n h = ground arith

as_new_directory :
    (action : ResolutionAction) (ps : List Project) (c d : Candidate) (n : ℕ)
    → as_new action (resolve_project_location ps (directory c)) ≡ unregistered d n
    → d ≡ c
unfolding resolve_project_location
as_new_directory action ps c d n h =
    resolve_directory-candidate c d (active_at c.canonical_path ps)
      (tombstoned_ones (at_path c.canonical_path ps)) (of_identity c.identity_digest ps)
      (as_new-candidate action (resolve_project_location ps (directory c)) d n h)

as_new_absent :
    (action : ResolutionAction) (l : Location) (d : Candidate) (n : ℕ)
    → is_absent action ≡ true
    → as_new action l ≡ unregistered d n
    → l ≡ unregistered d n
as_new_absent absent (failure f) d n e h = elim (Bool-cases (may_be_new f.code)) [
  | inl may ↦ ground arith
  | inr not_may ↦ ground arith
]
as_new_absent absent (registered p m) d n e h = ground arith
as_new_absent absent (unregistered c m) d n e h = h
as_new_absent register_as_new l d n e h = ground arith
as_new_absent unknown l d n e h = ground arith

-- What a registration that is answered as a new one means for the state it leaves.
abbrev pub is_new_project : ResultCode → Bool
is_new_project project_registered = true
is_new_project _ = false

IsLed : Candidate → Bool → Registered → Type 0
IsLed c fresh (s, failed f) = true ≡ true
IsLed c fresh (s, answered a) =
    is_new_project a.code ≡ true
    → (leads_to a.project.project_id (resolve_project_location s.projects (directory c)) ≡ true)
      × (fresh ≡ true → resolve_project_location s.projects (directory c) ≡ registered a.project 1)

either-IsLed :
    (c : Candidate) (fresh b : Bool) (x y : Registered)
    → IsLed c fresh x
    → IsLed c fresh y
    → IsLed c fresh (if b then x else y)
either-IsLed c fresh true x y h k = h
either-IsLed c fresh false x y h k = k

module _ (shop : Workshop) (s : State) (r : RegisterRequest) (w : Surroundings) (id : ℕ)
    (c : Candidate) where
  register_new-IsLed :
      (k : Contract)
      → (is_absent r.resolution_action ≡ true
          → (at_path c.canonical_path s.projects ≡ [])
            × (of_identity c.identity_digest s.projects ≡ []))
      → IsLed c (is_absent r.resolution_action) (register_new s r w k id c)
  unfolding IsLed register_new
  register_new-IsLed k free new =
      let p = new_project w k id c in
      (
        append-leads_to s.projects c p (ground arith) (ground arith) refl,
        λ is.
            append-registered s.projects c p (ground arith) (ground arith) refl (free is).0
              (free is).1,
      )

  register_again-IsLed :
      (k : Contract) (p : Project) (n : ℕ) (fresh : Bool)
      → IsLed c fresh (register_again shop s r w k p n)
  unfolding register_again IsLed
  register_again-IsLed k p n fresh =
      either-IsLed c fresh (p.configuration == k.configuration) _ _
        (again (prepare_retained_production_project shop s p)) refl
    where
      again : (x : Result PreparationFailure State) → IsLed c fresh (reuse_prepared s r w k n p x)
      again (err f) = refl
      again (ok s') = λ e. (ground arith, ground arith)

  register_at-IsLed :
      (k : Contract) (renewed : Bool) (l : Location)
      → ((d : Candidate) (n : ℕ) → l ≡ unregistered d n → d ≡ c)
      → (is_absent r.resolution_action ≡ true
          → (d : Candidate) (n : ℕ) → l ≡ unregistered d n
          → (at_path c.canonical_path s.projects ≡ [])
            × (of_identity c.identity_digest s.projects ≡ []))
      → IsLed c (is_absent r.resolution_action) (register_at shop s r w k id renewed l)
  unfolding register_at IsLed
  register_at-IsLed k renewed (failure f) here free = refl
  register_at-IsLed k renewed (registered p n) here free =
      let fresh = is_absent r.resolution_action in
      either-IsLed c fresh (not fresh) _ _ refl (
        either-IsLed c fresh (k.expected_revision == n) _ _ (register_again-IsLed k p n fresh) refl)
  register_at-IsLed k renewed (unregistered d n) here free =
      let fresh = is_absent r.resolution_action in
      let new =
        subst (λ x. IsLed c fresh (register_new s r w k id x)) (sym (here d n refl))
          (register_new-IsLed k (λ e. free e d n refl)) in
      either-IsLed c fresh (not fresh && not renewed) _ _ refl
        (either-IsLed c fresh (k.expected_revision == n) _ _ new refl)

  register_request-IsLed :
      (k : Option Contract)
      → w.place 0 ≡ directory c
      → IsLed c (is_absent r.resolution_action) (register_request shop s r w id k)
  unfolding register_request IsLed
  register_request-IsLed none here = refl
  register_request-IsLed (some k) here = rw here (
      register_at-IsLed k _
        (as_new r.resolution_action (resolve_project_location s.projects (directory c)))
        (λ d n h. as_new_directory r.resolution_action s.projects c d n h)
        (λ is d n h.
          let (none_at, none_of, same, nought) = (resolve_unregistered_iff s.projects c d n).0 (
            as_new_absent r.resolution_action (resolve_project_location s.projects (directory c)) d
              n is h) in
          (none_at, none_of)))

-- Where no outcome is retained under the key of the request, and the selected path is a directory: behind
-- an answer with a new project, the directory is resolved to that project or to a conflict that names it,
-- and surely to the project, at revision 1, where the request asked for no resolution.
pub register_project-leads_to :
    (shop : Workshop) (s s' : State) (r : RegisterRequest) (w : Surroundings) (id : ℕ)
    (c : Candidate) (a : Answer)
    → find_outcome r.envelope.idempotency_key_hash s.registration_outcomes ≡ none
    → w.place 0 ≡ directory c
    → register_project shop s r w id ≡ (s', answered a)
    → is_new_project a.code ≡ true
    → (leads_to a.project.project_id (resolve_project_location s'.projects (directory c)) ≡ true)
      × (is_absent r.resolution_action ≡ true
          → resolve_project_location s'.projects (directory c) ≡ registered a.project 1)
unfolding register_project register_existing IsLed
register_project-leads_to shop s s' r w id c a new here e =
    subst (IsLed c (is_absent r.resolution_action)) e (
      rw new (
        register_request-IsLed shop s r w id c
          (contract_of r r.envelope.idempotency_key_hash r.envelope.expected_revision
            r.configuration)
          here))
