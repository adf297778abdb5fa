-- ===== src/Projects/Pinning.antt =====
-- `pinConformanceHarness` of src/project-registration/registry.mjs, which pins every harness, under the
-- mutation lock.
mod Request
pub use Request.*
use sandking.Base.{
  ℕ, ◌+◌, ◌==◌, Bool, true, false, not, ◌&&◌, ◌||◌, List, [], ◌∷◌, ◌++◌, Option, none, some, find,
  Result, ok, err, if◌then◌else◌,
}
use sandking.Projects.Types.{
  HarnessLink, Harness, Project, Registration, FailureCode, ResultCode, Response, answered, failed,
  Outcome, State, mutation_contract_invalid, idempotency_key_conflict, mutation_revision_conflict,
  bounded_configuration_invalid, project_not_found, harness_not_found, harness_workspace_invalid,
  project_harness_pinned, project_harness_pin_reused,
}
use sandking.Projects.Location.{resolve_project_location}
use sandking.Projects.Requests.{
  Envelope, Surroundings, find_project, update_project, find_outcome, keep_last, operation_failure,
  replay,
}
use sandking.Projects.Preparing.{
  PreparationFailure, Workshop, is_sandcastle, require_registered_project_location,
  prepare_retained_production_project,
}
use sandking.Projects.Registry.{or_revision, or_project}

pub record PinContract : Type 0 where
  pub idempotency_key_hash : ℕ
  pub expected_revision : ℕ

abbrev pub pin_contract : Bool → Option ℕ → Option ℕ → Option PinContract
pin_contract true (some hash) (some revision) =
    some record { idempotency_key_hash = hash; expected_revision = revision }
pin_contract _ _ _ = none

abbrev pub same_option : Option ℕ → Option ℕ → Bool
same_option none none = true
same_option (some a) (some b) = a == b
same_option _ _ = false

-- The link that a pin gives the project.
abbrev pub link_of : Harness → ℕ → Option ℕ → HarnessLink
link_of h configuration preparation = record {
  harness_id = h.harness_id;
  adapter_id = h.adapter_id;
  pinned_revision = h.immutable_revision;
  bounded_configuration = configuration;
  preparation = preparation;
}

abbrev pub links_same : Harness → ℕ → Option ℕ → Option HarnessLink → Bool
links_same h configuration preparation none = false
links_same h configuration preparation (some l) =
    l.harness_id == h.harness_id
    && l.pinned_revision == h.immutable_revision
    && l.bounded_configuration == configuration
    && (not (is_sandcastle h.adapter_id)
        || is_sandcastle l.adapter_id && same_option l.preparation preparation)

abbrev pub pinned_project : ℕ → HarnessLink → Project → Project
pinned_project now l p = record p { revision = p.revision + 1; harness = some l; updated_at = now }

unfoldable pub retain_pin :
    State
    → PinRequest
    → Surroundings
    → PinContract
    → ℕ
    → ResultCode
    → Project
    → Harness
    → List Project
    → Pinned
retain_pin s r w k fingerprint code p h ps =
    let response = answered record {
      request_id = r.envelope.request_id;
      code = code;
      expected_revision = k.expected_revision;
      revision = p.revision;
      idempotent_replay = false;
      audit_id = w.audit_id;
      project = p;
      harness = some h;
    } in
    (
      record s {
        projects = ps;
        pin_outcomes = keep_last 256 (
            s.pin_outcomes
            ++ record {
              idempotency_key_hash = k.idempotency_key_hash;
              request_fingerprint = fingerprint;
              response = response;
            }
              ∷ []);
      },
      response,
    )

-- What is prepared is pinned, unless it is already.
unfoldable pub pin_prepared :
    State → PinRequest → Surroundings → PinContract → ℕ → Project → Harness → ℕ → Option ℕ → Pinned
pin_prepared s r w k fingerprint p h configuration preparation =
    let l = link_of h configuration preparation in
    if links_same h configuration preparation p.harness
    then retain_pin s r w k fingerprint project_harness_pin_reused p h s.projects
    else retain_pin s r w k fingerprint project_harness_pinned (pinned_project w.now l p) h
        (update_project p.project_id (pinned_project w.now l) s.projects)

abbrev pub pin_again :
    State
    → PinRequest
    → Surroundings
    → PinContract
    → ℕ
    → Project
    → Harness
    → ℕ
    → Result FailureCode ℕ
    → Pinned
pin_again s r w k fingerprint p h configuration (err code) = reject s r w code true p.revision none
pin_again s r w k fingerprint p h configuration (ok preparation) =
    pin_prepared s r w k fingerprint p h configuration (some preparation)

abbrev pub pin_retained :
    Workshop
    → State
    → PinRequest
    → Surroundings
    → PinContract
    → ℕ
    → Project
    → Harness
    → ℕ
    → Result PreparationFailure State
    → Pinned
pin_retained shop s r w k fingerprint p h configuration (err f) =
    reject_preparation s r w p.revision f
pin_retained shop s r w k fingerprint p h configuration (ok s') =
    pin_again s' r w k fingerprint (or_project p (find_project p.project_id s'.projects)) h
      configuration shop.prepared_again

unfoldable pub pin_located :
    Workshop
    → State
    → PinRequest
    → Surroundings
    → PinContract
    → ℕ
    → Project
    → Harness
    → ℕ
    → Option PreparationFailure
    → Pinned
pin_located shop s r w k fingerprint p h configuration (some f) =
    reject_preparation s r w p.revision f
pin_located shop s r w k fingerprint p h configuration none =
    if is_sandcastle h.adapter_id
    then pin_retained shop s r w k fingerprint p h configuration
        (prepare_retained_production_project shop s p)
    else if same_option shop.observed_head (some h.immutable_revision)
    then pin_prepared s r w k fingerprint p h configuration none
    else reject s r w harness_workspace_invalid true p.revision none

unfoldable pub pin_new :
    Workshop
    → State
    → PinRequest
    → Surroundings
    → ℕ
    → Option PinContract
    → Option Project
    → Option Harness
    → Option ℕ
    → Pinned
pin_new shop s r w fingerprint none p h configuration =
    reject s r w mutation_contract_invalid true (revision_or_zero p) none
pin_new shop s r w fingerprint (some k) none h configuration =
    reject s r w project_not_found true 0 none
pin_new shop s r w fingerprint (some k) (some p) none configuration =
    reject s r w harness_not_found true p.revision none
pin_new shop s r w fingerprint (some k) (some p) (some h) none =
    reject s r w bounded_configuration_invalid false p.revision none
pin_new shop s r w fingerprint (some k) (some p) (some h) (some configuration) =
    if k.expected_revision == p.revision
    then pin_located shop s r w k fingerprint p h configuration
        (require_registered_project_location p (resolve_project_location s.projects shop.place))
    else reject s r w mutation_revision_conflict true p.revision none

unfoldable pub pin_existing :
    Workshop
    → State
    → PinRequest
    → Surroundings
    → ℕ
    → Option Project
    → Option Harness
    → Option Outcome
    → Pinned
pin_existing shop s r w fingerprint p h none =
    pin_new shop s r w fingerprint
      (pin_contract r.envelope.authorized r.envelope.idempotency_key_hash
        r.envelope.expected_revision)
      p h r.bounded_configuration
pin_existing shop s r w fingerprint p h (some o) =
    if o.request_fingerprint == fingerprint
    then replay_pin shop s r w o p
    else reject s r w idempotency_key_conflict false (revision_or_zero p) none

unfoldable pub pin_harness : Workshop → State → PinRequest → Surroundings → Pinned
pin_harness shop s r w =
    let p = find_project r.project_id s.projects in
    let h = find_harness r.harness_id shop.harnesses in
    let existing = find_outcome r.envelope.idempotency_key_hash s.pin_outcomes in
    pin_existing shop s r w (r.pin_request_fingerprint (retained_immutable_revision existing p h)) p
      h existing
