-- ===== src/Projects/Pinned.antt =====
-- A harness that was pinned by src/project-registration/registry.mjs can be launched.
use sandking.Base.{
  ℕ, ◌≡◌, ◌==◌, ◌||◌, ◌⊎◌, inl, inr, refl, sym, ap, subst, ◌∙◌, Bool, true, false, not, List,
  Option, none, some, if◌then◌else◌, arith, Bool-cases, Result, ok, err,
}
use sandking.Projects.Types.{Project, State, Harness, HarnessLink, FailureCode}
use sandking.Projects.Location.{
  Candidate, Location, failure, unregistered, directory, registered, resolve_project_location,
}
use sandking.Projects.Requests.{find_project, update_project}
use sandking.Projects.Resolution.{is_found}
use sandking.Projects.Settled.{IsSteady}
use sandking.Projects.Standing.{IsStanding, update_project-IsStanding, IsStanding-active}
use sandking.Projects.Preparing.{
  PreparationFailure, Workshop, is_sandcastle, with_preparation, keep_prepared, keep_preparation,
  prepare_located, unless_lost, prepare_linked, require_registered_project_location,
  prepare_retained_production_project,
}
use sandking.Projects.Registry.{or_project}
use sandking.Projects.Pinning.{find_harness}
use sandking.Projects.LaunchContext.{
  launches, load_pinned, load_linked, load_located, load_active, load_launch_context, is_prepared,
}

require_registered_project_location-found :
    (p : Project) (l : Location)
    → is_found p.project_id l ≡ true
    → require_registered_project_location p l ≡ none
unfolding require_registered_project_location
require_registered_project_location-found p (registered q n) h = rw h refl
require_registered_project_location-found p (failure f) h = ground arith
require_registered_project_location-found p (unregistered c n) h = ground arith

-- The link that a launch wants: of a registered harness, and prepared as it is prepared now.
pub record Fits (shop : Workshop) (h : Harness) (l : HarnessLink) (x : ℕ) : Type 0 where
  pub harness : find_harness l.harness_id shop.harnesses ≡ some h
  pub revision : (h.immutable_revision == l.pinned_revision) ≡ true
  pub sandcastle : is_sandcastle h.adapter_id ≡ true → is_sandcastle l.adapter_id ≡ true
  pub preparation : is_sandcastle h.adapter_id ≡ true → l.preparation ≡ some x

keep_preparation-same :
    (s : State) (p : Project) (l : HarnessLink) (x : ℕ) → keep_preparation s p l x (some x) ≡ ok s
unfolding keep_preparation
keep_preparation-same s p l x = ground arith

prepare_linked-same :
    (shop : Workshop) (c : Candidate) (s : State) (p : Project) (h : Harness) (l : HarnessLink)
    (x : ℕ)
    → shop.place ≡ directory c
    → shop.prepared ≡ ok x
    → IsStanding c s.projects p
    → Fits shop h l x
    → is_sandcastle h.adapter_id ≡ true
    → prepare_linked shop s p (some l) ≡ ok s
unfolding prepare_linked prepare_located keep_preparation
prepare_linked-same shop c s p h l x here prepared stands fits is = rw (fits.sandcastle is) (
    rw here (
      rw
        (require_registered_project_location-found p
          (resolve_project_location s.projects (directory c)) stands.located)
        (rw fits.harness (
          rw is (
            rw fits.revision (
              rw prepared (
                subst (λ o. keep_preparation s p l x o ≡ ok s) (sym (fits.preparation is))
                  (keep_preparation-same s p l x))))))))

is_prepared_lem :
    (x : ℕ) (l : HarnessLink)
    → is_sandcastle l.adapter_id ≡ true
    → l.preparation ≡ some x
    → is_prepared x (some l) ≡ true
is_prepared_lem x l is prepared = rw is (rw prepared (ground arith))

load_located-found :
    (shop : Workshop) (s : State) (p : Project) (location : Location)
    → is_found p.project_id location ≡ true
    → load_located shop s true p location ≡ load_linked shop s true p p.harness
unfolding load_located
load_located-found shop s p (registered q n) h = rw h refl
load_located-found shop s p (failure f) h = ground arith
load_located-found shop s p (unregistered c n) h = ground arith

load_linked-harness :
    (shop : Workshop) (s : State) (p : Project) (l : HarnessLink) (h : Harness)
    → find_harness l.harness_id shop.harnesses ≡ some h
    → load_linked shop s true p (some l) ≡ load_pinned shop s true p l (some h)
unfolding load_linked
load_linked-harness shop s p l h found = rw found refl

load_pinned-launches :
    (shop : Workshop) (c : Candidate) (s : State) (p : Project) (h : Harness) (l : HarnessLink)
    (x : ℕ)
    → shop.place ≡ directory c
    → shop.prepared ≡ ok x
    → shop.prepared_again ≡ ok x
    → IsStanding c s.projects p
    → p.harness ≡ some l
    → Fits shop h l x
    → load_pinned shop s true p l (some h) ≡ ok (s, launches p h)
unfolding load_pinned prepare_retained_production_project
load_pinned-launches shop c s p h l x here prepared again stands link fits =
    elim (Bool-cases (is_sandcastle h.adapter_id)) [
      | inl is ↦
          let same =
            ap (prepare_linked shop s p) link
            ∙ prepare_linked-same shop c s p h l x here prepared stands fits is in
          let ready =
            subst (λ o. is_prepared x o ≡ true) (sym link)
              (is_prepared_lem x l (fits.sandcastle is) (fits.preparation is)) in
          rw fits.revision (rw is (rw same (rw stands.found (rw again (rw ready refl)))))
      | inr isnt ↦ rw fits.revision (rw isnt refl)
    ]

pub load-launches :
    (shop : Workshop) (c : Candidate) (s : State) (p : Project) (h : Harness) (l : HarnessLink)
    (x : ℕ)
    → shop.place ≡ directory c
    → shop.prepared ≡ ok x
    → shop.prepared_again ≡ ok x
    → IsStanding c s.projects p
    → p.harness ≡ some l
    → Fits shop h l x
    → load_launch_context shop s true p.project_id ≡ ok (s, launches p h)
unfolding load_launch_context load_active
load-launches shop c s p h l x here prepared again stands link fits =
    ap (load_active shop s true) (IsStanding-active c s.projects p stands)
    ∙ ap (λ place. load_located shop s true p (resolve_project_location s.projects place)) here
    ∙ load_located-found shop s p (resolve_project_location s.projects (directory c)) stands.located
    ∙ ap (load_linked shop s true p) link
    ∙ load_linked-harness shop s p l h fits.harness
    ∙ load_pinned-launches shop c s p h l x here prepared again stands link fits

-- What is kept of a state: all, or all but a preparation that is filled in.
IsKept : State → Project → HarnessLink → Result PreparationFailure State → Type 0
IsKept s p l (err f) = true ≡ true
IsKept s p l (ok s') =
    (s ≡ s')
    ⊎ ((x : ℕ) × (s'.projects
          ≡ update_project p.project_id (λ q. with_preparation x q l) s.projects))

either-IsKept :
    (s : State) (p : Project) (l : HarnessLink) (b : Bool) (x y : Result PreparationFailure State)
    → IsKept s p l x
    → IsKept s p l y
    → IsKept s p l (if b then x else y)
either-IsKept s p l true x y h k = h
either-IsKept s p l false x y h k = k

keep_preparation-IsKept :
    (s : State) (p : Project) (l : HarnessLink) (x : ℕ) (o : Option ℕ)
    → IsKept s p l (keep_preparation s p l x o)
unfolding keep_preparation IsKept
keep_preparation-IsKept s p l x none = inr (x, refl)
keep_preparation-IsKept s p l x (some y) = either-IsKept s p l (y == x) _ _ (inl refl) refl

keep_prepared-IsKept :
    (s : State) (p : Project) (l : HarnessLink) (prepared : Result FailureCode ℕ)
    → IsKept s p l (keep_prepared s p l prepared)
unfolding IsKept
keep_prepared-IsKept s p l (err code) = refl
keep_prepared-IsKept s p l (ok x) = keep_preparation-IsKept s p l x l.preparation

prepare_located-IsKept :
    (shop : Workshop) (s : State) (p : Project) (l : HarnessLink) (o : Option Harness)
    → IsKept s p l (prepare_located shop s p l o)
unfolding prepare_located IsKept
prepare_located-IsKept shop s p l none = refl
prepare_located-IsKept shop s p l (some h) =
    either-IsKept s p l
      (not (is_sandcastle h.adapter_id) || not (h.immutable_revision == l.pinned_revision)) _ _ refl
      (keep_prepared-IsKept s p l shop.prepared)

unless_lost-IsKept :
    (shop : Workshop) (s : State) (p : Project) (l : HarnessLink) (o : Option PreparationFailure)
    → IsKept s p l (unless_lost shop s p l o)
unfolding IsKept
unless_lost-IsKept shop s p l (some f) = refl
unless_lost-IsKept shop s p l none = prepare_located-IsKept shop s p l _

prepare_linked-IsKept :
    (shop : Workshop) (s : State) (p : Project) (l : HarnessLink)
    → IsKept s p l (prepare_linked shop s p (some l))
unfolding prepare_linked IsKept
prepare_linked-IsKept shop s p l =
    either-IsKept s p l (is_sandcastle l.adapter_id) _ _ (unless_lost-IsKept shop s p l _)
      (inl refl)

with_preparation-IsSteady : (x : ℕ) (l : HarnessLink) → IsSteady (λ q. with_preparation x q l)
with_preparation-IsSteady x l = record {
  id = λ p. refl;
  path = λ p. refl;
  identity = λ p. refl;
  activity = λ p. refl;
}

-- The project as it is found in a state, which stands there.
abbrev pub HasStanding : Candidate → ℕ → Project → List Project → Type 0
HasStanding c id p ps =
    IsStanding c ps (or_project p (find_project id ps))
    × ((or_project p (find_project id ps)).project_id ≡ id)

standing_found :
    (c : Candidate) (id : ℕ) (p q : Project) (ps : List Project)
    → IsStanding c ps q
    → q.project_id ≡ id
    → HasStanding c id p ps
standing_found c id p q ps stands same =
    subst (λ o. IsStanding c ps (or_project p o) × ((or_project p o).project_id ≡ id)) {x = some q}
      {y = find_project id ps} (sym (subst (λ i. find_project i ps ≡ some q) same stands.found))
      (stands, same)

IsKept-standing :
    (c : Candidate) (s s' : State) (p : Project) (l : HarnessLink)
    → IsStanding c s.projects p
    → IsKept s p l (ok s')
    → HasStanding c p.project_id p s'.projects
unfolding IsKept
IsKept-standing c s s' p l stands (inl same) =
    subst (λ t. HasStanding c p.project_id p t.projects) same
      (standing_found c p.project_id p p s.projects stands refl)
IsKept-standing c s s' p l stands (inr (x, e)) = subst (HasStanding c p.project_id p) (sym e) (
    standing_found c p.project_id p (with_preparation x p l) _
      (update_project-IsStanding c s.projects p (λ q. with_preparation x q l)
        (with_preparation-IsSteady x l) stands)
      refl)

pub prepare_linked-standing :
    (shop : Workshop) (c : Candidate) (s s' : State) (p : Project) (o : Option HarnessLink)
    → IsStanding c s.projects p
    → prepare_linked shop s p o ≡ ok s'
    → HasStanding c p.project_id p s'.projects
unfolding prepare_linked
prepare_linked-standing shop c s s' p none stands e =
    subst (λ t. HasStanding c p.project_id p t.projects) {x = s} {y = s'} (ground arith)
      (standing_found c p.project_id p p s.projects stands refl)
prepare_linked-standing shop c s s' p (some l) stands e =
    IsKept-standing c s s' p l stands (subst (IsKept s p l) e (prepare_linked-IsKept shop s p l))
