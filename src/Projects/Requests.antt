-- ===== src/Projects/Requests.antt =====
-- What the operations of src/project-registration share: requests with a key, their retained outcomes, and
-- failures.
use sandking.Base.{
  ℕ, ◌-◌, ◌==◌, Bool, true, List, [], ◌∷◌, ◌++◌, Option, none, some, find, drop, length,
  if◌then◌else◌,
}
use sandking.Projects.Types.{
  Project, Registration, FailureCode, Failure, Response, answered, failed, Outcome, State,
}
use sandking.Projects.Location.{Place}

-- `idempotency_key_hash` is none for a key that is not valid, and `expected_revision` for a number that is
-- no safe natural number. `request_fingerprint` is the digest of all but the id and the key.
pub record Envelope : Type 0 where
  pub request_id : ℕ
  pub authorized : Bool
  pub idempotency_key_hash : Option ℕ
  pub request_fingerprint : ℕ
  pub expected_revision : Option ℕ

-- What an operation gets from outside: the id of its audit, the time, and what the file system says of the
-- selected path each time that it is resolved.
pub record Surroundings : Type 0 where
  pub audit_id : ℕ
  pub now : ℕ
  pub place : ℕ → Place

pub data Thrown : Type 0 where
  project_registration_state_invalid : Thrown

abbrev pub find_project : ℕ → List Project → Option Project
find_project id = find (λ p. p.project_id == id)

abbrev pub update_project : ℕ → (Project → Project) → List Project → List Project
update_project id change [] = []
update_project id change (p ∷ ps) =
    let rest = update_project id change ps in if p.project_id == id then change p ∷ ps else p ∷ rest

abbrev pub find_outcome : Option ℕ → List Outcome → Option Outcome
find_outcome none os = none
find_outcome (some hash) os = find (λ o. o.idempotency_key_hash == hash) os

-- `slice(-256)`.
abbrev pub keep_last : ℕ → List Outcome → List Outcome
keep_last n os = drop (length os - n) os

abbrev pub push_outcome : ℕ → ℕ → Response → State → State
push_outcome hash fingerprint response s = record s {
  registration_outcomes = keep_last 256 (
      s.registration_outcomes
      ++ record {
        idempotency_key_hash = hash;
        request_fingerprint = fingerprint;
        response = response;
      }
        ∷ []);
}

abbrev pub operation_failure :
    Envelope → Surroundings → FailureCode → Bool → ℕ → Option (List Registration) → Failure
operation_failure e w code retryable actual_revision registrations = record {
  request_id = e.request_id;
  code = code;
  retryable = retryable;
  expected_revision = e.expected_revision;
  actual_revision = actual_revision;
  audit_id = w.audit_id;
  registrations = registrations;
}

-- `response.revision ?? response.actualRevision`.
abbrev pub revision_of : Response → ℕ
revision_of (answered a) = a.revision
revision_of (failed f) = f.actual_revision

-- A retained answer, repeated.
abbrev pub replay : Envelope → Response → Response
replay e (answered a) = answered (record a { request_id = e.request_id; idempotent_replay = true })
replay e (failed f) = failed (record f { request_id = e.request_id })
