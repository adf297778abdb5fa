-- ===== src/Projects/Launched.antt =====
-- Behind a pin of src/project-registration/registry.mjs, the launch context of the project loads.
use sandking.Base.{
  ℕ, ◌≡◌, ◌==◌, inl, inr, refl, sym, subst, ◌∙◌, Bool, true, false, List, [], ◌∷◌, Option, none,
  some, if◌then◌else◌, arith, Bool-cases, Result, ok, err,
}
use sandking.Projects.Types.{
  Project, State, Harness, HarnessLink, Answer, answered, failed, ResultCode,
  project_harness_pinned, project_harness_pin_reused,
}
use sandking.Projects.Location.{
  Candidate, Location, failure, unregistered, directory, registered, resolve_project_location,
}
use sandking.Projects.Requests.{find_project, update_project, Surroundings, find_outcome}
use sandking.Projects.Settled.{IsSteady, has_distinct_ids}
use sandking.Projects.Resolution.{is_found}
use sandking.Projects.Standing.{IsStanding, update_project-IsStanding}
use sandking.Projects.Preparing.{
  PreparationFailure, Workshop, is_sandcastle, require_registered_project_location,
  prepare_retained_production_project,
}
use sandking.Projects.Registry.{or_project}
use sandking.Projects.Pinning.{
  PinRequest, Pinned, PinContract, find_harness, link_of, links_same, pinned_project, retain_pin,
  pin_prepared, pin_again, pin_retained, pin_located, pin_new, pin_existing, pin_harness,
  same_option, pin_contract, retained_immutable_revision,
}
use sandking.Projects.LaunchContext.{launches, load_launch_context}
use sandking.Projects.Pinned.{Fits, load-launches, prepare_linked-standing}

Launches : Workshop → Harness → Pinned → Type 0
Launches shop h (s, failed f) = true ≡ true
Launches shop h (s, answered a) =
    load_launch_context shop s true a.project.project_id ≡ ok (s, launches a.project h)

either-Launches :
    (shop : Workshop) (h : Harness) (b : Bool) (x y : Pinned)
    → (b ≡ true → Launches shop h x)
    → Launches shop h y
    → Launches shop h (if b then x else y)
either-Launches shop h true x y k l = k refl
either-Launches shop h false x y k l = l

same_option-eq : (a b : Option ℕ) → same_option a b ≡ true → a ≡ b
same_option-eq none none h = refl
same_option-eq none (some b) h = ground arith
same_option-eq (some a) none h = ground arith
same_option-eq (some a) (some b) h = ground arith

find_harness-id :
    (id : ℕ) (hs : List Harness) (h : Harness) → find_harness id hs ≡ some h → id ≡ h.harness_id
find_harness-id id [] h e = ground arith
find_harness-id id (g ∷ hs) h e = ground (arith, find_harness-id id hs h)

module _ (shop : Workshop) (c : Candidate) (h : Harness) (x : ℕ) (here : shop.place ≡ directory c)
    (prepared : shop.prepared ≡ ok x) (again : shop.prepared_again ≡ ok x)
    (registered_one : find_harness h.harness_id shop.harnesses ≡ some h) (r : PinRequest)
    (w : Surroundings) (k : PinContract) (fingerprint : ℕ) where
  retain_pin-Launches :
      (s : State) (code : ResultCode) (p : Project) (l : HarnessLink) (ps : List Project)
      → IsStanding c ps p
      → p.harness ≡ some l
      → Fits shop h l x
      → Launches shop h (retain_pin s r w k fingerprint code p h ps)
  unfolding retain_pin Launches
  retain_pin-Launches s code p l ps stands link fits =
      load-launches shop c (retain_pin s r w k fingerprint code p h ps).0 p h l x here prepared
        again stands link fits

  links_same-Fits :
      (configuration : ℕ) (preparation : Option ℕ) (o : Option HarnessLink)
      → (is_sandcastle h.adapter_id ≡ true → preparation ≡ some x)
      → links_same h configuration preparation o ≡ true
      → (l : HarnessLink) × (o ≡ some l) × Fits shop h l x
  links_same-Fits configuration preparation none ready same = ground arith
  links_same-Fits configuration preparation (some l) ready same = (
    l,
    refl,
    record {
      harness =
          subst (λ id. find_harness id shop.harnesses ≡ some h) {x = h.harness_id}
            {y = l.harness_id} (ground arith) registered_one;
      revision = ground arith;
      sandcastle = λ is. ground arith;
      preparation = λ is. same_option-eq l.preparation preparation (ground arith) ∙ ready is;
    },
  )

  pinned_project-IsSteady : (l : HarnessLink) → IsSteady (pinned_project w.now l)
  pinned_project-IsSteady l = record {
    id = λ p. refl;
    path = λ p. refl;
    identity = λ p. refl;
    activity = λ p. refl;
  }

  pin_prepared-Launches :
      (s : State) (p : Project) (configuration : ℕ) (preparation : Option ℕ)
      → IsStanding c s.projects p
      → (is_sandcastle h.adapter_id ≡ true → preparation ≡ some x)
      → Launches shop h (pin_prepared s r w k fingerprint p h configuration preparation)
  unfolding pin_prepared
  pin_prepared-Launches s p configuration preparation stands ready =
      let l = link_of h configuration preparation in
      either-Launches shop h (links_same h configuration preparation p.harness)
        (retain_pin s r w k fingerprint project_harness_pin_reused p h s.projects)
        (retain_pin s r w k fingerprint project_harness_pinned (pinned_project w.now l p) h
          (update_project p.project_id (pinned_project w.now l) s.projects))
        (λ same.
          let (m, link, fits) = links_same-Fits configuration preparation p.harness ready same in
          retain_pin-Launches s project_harness_pin_reused p m s.projects stands link fits)
        (retain_pin-Launches s project_harness_pinned (pinned_project w.now l p) l _
          (update_project-IsStanding c s.projects p (pinned_project w.now l)
            (pinned_project-IsSteady l) stands)
          refl
          record {
            harness = registered_one;
            revision = ground arith;
            sandcastle = λ is. is;
            preparation = ready;
          })

  pin_retained-Launches :
      (s : State) (p : Project) (configuration : ℕ) (y : Result PreparationFailure State)
      → IsStanding c s.projects p
      → prepare_retained_production_project shop s p ≡ y
      → Launches shop h (pin_retained shop s r w k fingerprint p h configuration y)
  unfolding Launches prepare_retained_production_project
  pin_retained-Launches s p configuration (err f) stands e = refl
  pin_retained-Launches s p configuration (ok s') stands e =
      let q = or_project p (find_project p.project_id s'.projects) in
      subst (λ y. Launches shop h (pin_again s' r w k fingerprint q h configuration y)) (sym again)
        (pin_prepared-Launches s' q configuration (some x)
          (prepare_linked-standing shop c s s' p p.harness stands e).0 (λ is. refl))

  pin_located-Launches :
      (s : State) (p : Project) (configuration : ℕ) (o : Option PreparationFailure)
      → (o ≡ none → IsStanding c s.projects p)
      → Launches shop h (pin_located shop s r w k fingerprint p h configuration o)
  unfolding pin_located Launches
  pin_located-Launches s p configuration (some f) stands = refl
  pin_located-Launches s p configuration none stands =
      elim (Bool-cases (is_sandcastle h.adapter_id)) [
        | inl is ↦ rw is (
            pin_retained-Launches s p configuration (prepare_retained_production_project shop s p)
              (stands refl) refl)
        | inr isnt ↦ rw isnt (
            either-Launches shop h (same_option shop.observed_head (some h.immutable_revision)) _ _
              (λ same. pin_prepared-Launches s p configuration none (stands refl) (ground arith))
              refl)
      ]

require_registered_project_location-none :
    (p : Project) (l : Location)
    → require_registered_project_location p l ≡ none
    → is_found p.project_id l ≡ true
unfolding require_registered_project_location
require_registered_project_location-none p (registered q n) e = ground arith
require_registered_project_location-none p (failure f) e = ground arith
require_registered_project_location-none p (unregistered c n) e = ground arith

find_project-id :
    (id : ℕ) (ps : List Project) (p : Project) → find_project id ps ≡ some p → id ≡ p.project_id
find_project-id id [] p e = ground arith
find_project-id id (q ∷ ps) p e = ground (arith, find_project-id id ps p)

-- What a request to pin means for the project and the harness that it names.
LaunchesSome : Workshop → Option Harness → Pinned → Type 0
LaunchesSome shop o (s, failed f) = true ≡ true
LaunchesSome shop o (s, answered a) =
    (h : Harness) × (o ≡ some h)
    × (load_launch_context shop s true a.project.project_id ≡ ok (s, launches a.project h))

launches_some :
    (shop : Workshop) (h : Harness) (y : Pinned) → Launches shop h y → LaunchesSome shop (some h) y
unfolding Launches LaunchesSome
launches_some shop h (s, failed f) k = refl
launches_some shop h (s, answered a) k = (h, refl, k)

module _ (shop : Workshop) (c : Candidate) (x : ℕ) (here : shop.place ≡ directory c)
    (prepared : shop.prepared ≡ ok x) (again : shop.prepared_again ≡ ok x) (r : PinRequest)
    (w : Surroundings) where
  pin_new_launches :
      (s : State) (fingerprint : ℕ) (k : Option PinContract) (p : Option Project)
      (h : Option Harness) (configuration : Option ℕ)
      → has_distinct_ids s.projects ≡ true
      → find_project r.project_id s.projects ≡ p
      → find_harness r.harness_id shop.harnesses ≡ h
      → LaunchesSome shop h (pin_new shop s r w fingerprint k p h configuration)
  unfolding pin_new LaunchesSome Launches
  pin_new_launches s fingerprint none p h configuration d e f = refl
  pin_new_launches s fingerprint (some k) none h configuration d e f = refl
  pin_new_launches s fingerprint (some k) (some p) none configuration d e f = refl
  pin_new_launches s fingerprint (some k) (some p) (some h) none d e f = refl
  pin_new_launches s fingerprint (some k) (some p) (some h) (some configuration) d e f =
      let location = resolve_project_location s.projects shop.place in
      let one =
        subst (λ id. find_harness id shop.harnesses ≡ some h)
          (find_harness-id r.harness_id shop.harnesses h f) f in
      launches_some shop h _ (
        either-Launches shop h (k.expected_revision == p.revision)
          (pin_located shop s r w k fingerprint p h configuration
            (require_registered_project_location p location))
          _
          (λ same.
            pin_located-Launches shop c h x here prepared again one r w k fingerprint s p
              configuration (require_registered_project_location p location)
              (λ lost. record {
                found =
                    subst (λ id. find_project id s.projects ≡ some p)
                      (find_project-id r.project_id s.projects p e) e;
                located =
                    subst
                      (λ place.
                        is_found p.project_id (resolve_project_location s.projects place) ≡ true)
                      here (require_registered_project_location-none p location lost);
                distinct = d;
              }))
          refl)

-- A pin under a new key that is answered, over projects with distinct ids, with a directory at the path of
-- the project and a preparation that comes out the same each time: the launch context of the project then
-- loads, with the project as it was answered and the harness that was asked for, and changes nothing.
pub pin_harness-load_launch_context :
    (shop : Workshop) (s s' : State) (r : PinRequest) (w : Surroundings) (c : Candidate) (x : ℕ)
    (a : Answer)
    → shop.place ≡ directory c
    → shop.prepared ≡ ok x
    → shop.prepared_again ≡ ok x
    → has_distinct_ids s.projects ≡ true
    → find_outcome r.envelope.idempotency_key_hash s.pin_outcomes ≡ none
    → pin_harness shop s r w ≡ (s', answered a)
    → (h : Harness) × (find_harness r.harness_id shop.harnesses ≡ some h)
      × (load_launch_context shop s' true a.project.project_id ≡ ok (s', launches a.project h))
unfolding pin_harness pin_existing LaunchesSome
pin_harness-load_launch_context shop s s' r w c x a here prepared again d new e =
    let p = find_project r.project_id s.projects in
    let h = find_harness r.harness_id shop.harnesses in
    subst (LaunchesSome shop h) e (
      subst
        (λ o. LaunchesSome shop h (
          pin_existing shop s r w (r.pin_request_fingerprint (retained_immutable_revision o p h)) p
            h o))
        (sym new)
        (pin_new_launches shop c x here prepared again r w s
          (r.pin_request_fingerprint (retained_immutable_revision none p h))
          (pin_contract r.envelope.authorized r.envelope.idempotency_key_hash
            r.envelope.expected_revision)
          p h r.bounded_configuration d refl refl))
