-- ===== src/Projects/Pinning/Request.antt =====
-- The requests to pin of src/project-registration/registry.mjs, and their replay.
use sandking.Base.{ℕ, ◌==◌, Bool, true, List, Option, none, some, find, Result, ok, err}
use sandking.Projects.Types.{
  HarnessLink, Harness, Project, Registration, FailureCode, Response, answered, failed, Outcome,
  State,
}
use sandking.Projects.Location.{resolve_project_location}
use sandking.Projects.Requests.{Envelope, Surroundings, find_outcome, operation_failure, replay}
use sandking.Projects.Preparing.{
  PreparationFailure, Workshop, require_registered_project_location,
  prepare_retained_production_project,
}
use sandking.Projects.Registry.{or_revision}

-- The fingerprint of a pin covers the immutable revision. `bounded_configuration` is none where it does not
-- parse.
pub record PinRequest : Type 0 where
  pub envelope : Envelope
  pub project_id : ℕ
  pub harness_id : ℕ
  pub bounded_configuration : Option ℕ
  pub pin_request_fingerprint : Option ℕ → ℕ

abbrev pub Pinned : Type 0
Pinned = State × Response

abbrev pub find_harness : ℕ → List Harness → Option Harness
find_harness id = find (λ h. h.harness_id == id)

abbrev pub revision_or_zero : Option Project → ℕ
revision_or_zero none = 0
revision_or_zero (some p) = p.revision

abbrev pub immutable_of : Option Harness → Option ℕ
immutable_of none = none
immutable_of (some h) = some h.immutable_revision

abbrev pub pinned_of_link : Option HarnessLink → Option ℕ → Option ℕ
pinned_of_link none otherwise = otherwise
pinned_of_link (some l) otherwise = some l.pinned_revision

abbrev pub pinned_of : Option Project → Option ℕ → Option ℕ
pinned_of none otherwise = otherwise
pinned_of (some p) otherwise = pinned_of_link p.harness otherwise

abbrev pub answered_harness : Option Harness → Option ℕ → Option ℕ
answered_harness none otherwise = otherwise
answered_harness (some h) otherwise = some h.immutable_revision

abbrev pub of_response : Response → Option ℕ → Option ℕ
of_response (answered a) otherwise = answered_harness a.harness otherwise
of_response (failed f) otherwise = otherwise

-- The immutable revision of the retained answer, of the project's pin, or of the harness.
abbrev pub retained_immutable_revision : Option Outcome → Option Project → Option Harness → Option ℕ
retained_immutable_revision none p h = pinned_of p (immutable_of h)
retained_immutable_revision (some o) p h = of_response o.response (pinned_of p (immutable_of h))

abbrev pub reject :
    State → PinRequest → Surroundings → FailureCode → Bool → ℕ → Option (List Registration) → Pinned
reject s r w code retryable revision registrations =
    (s, failed (operation_failure r.envelope w code retryable revision registrations))

abbrev pub reject_preparation : State → PinRequest → Surroundings → ℕ → PreparationFailure → Pinned
reject_preparation s r w revision f =
    reject s r w f.code true (or_revision revision f.actual_revision) f.registrations

abbrev pub replay_found : PinRequest → State → Outcome → Option Outcome → Pinned
replay_found r s o none = (s, replay r.envelope o.response)
replay_found r s o (some o') = (s, replay r.envelope o'.response)

abbrev pub replay_prepared :
    State → PinRequest → Surroundings → Outcome → Project → Result PreparationFailure State → Pinned
replay_prepared s r w o p (err f) = reject_preparation s r w p.revision f
replay_prepared s r w o p (ok s') =
    replay_found r s' o (find_outcome r.envelope.idempotency_key_hash s'.pin_outcomes)

abbrev pub replay_located :
    Workshop
    → State
    → PinRequest
    → Surroundings
    → Outcome
    → Project
    → Option PreparationFailure
    → Pinned
replay_located shop s r w o p (some f) = reject_preparation s r w p.revision f
replay_located shop s r w o p none =
    replay_prepared s r w o p (prepare_retained_production_project shop s p)

abbrev pub replay_pin :
    Workshop → State → PinRequest → Surroundings → Outcome → Option Project → Pinned
replay_pin shop s r w o none = (s, replay r.envelope o.response)
replay_pin shop s r w o (some p) =
    replay_located shop s r w o p
      (require_registered_project_location p (resolve_project_location s.projects shop.place))
