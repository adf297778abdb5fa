-- ===== src/Runs/Requests.antt =====
-- What the mutations of a run share: the caller's attribution, idempotency keys and retained
-- outcomes. Digests are a parameter: `digest` and the fingerprint of the request's members.
use sandking.Base.{
  Bool, false, ◌&&◌, String, str_eq, List, Option, none, some, is_none, leb, length, find,
  if◌then◌else◌,
}
use sandking.Base.Identifiers.{codes, is_digest, is_controller_id, is_controller_session_id}

-- A source that is neither of the two is none.
pub data Source : Type 0 where
  controller_cli cockpit : Source

-- Who asks, for what and under which key; a member that is no text is none. Of `controller_session_id`
-- none is null, and what is neither null nor a text is a text that is no session id, such as the empty one.
pub record Attribution : Type 0 where
  pub request_id : String
  pub authorization_class : String
  pub source : Option Source
  pub controller_id : String
  pub controller_session_id : Option String
  pub idempotency_key_hash : Option String
  pub idempotency_key : Option String

abbrev session_accepts : Option Source → Option String → Bool
session_accepts none session = false
session_accepts (some Source.controller_cli) none = false
session_accepts (some Source.controller_cli) (some s) = is_controller_session_id s
session_accepts (some Source.cockpit) session = is_none session

-- The part of `mutation_contract_invalid` that cancelling and recovering share.
unfoldable pub attribution_accepts : String → Attribution → Bool
attribution_accepts authorization_class a =
    str_eq a.authorization_class authorization_class
    && is_controller_id a.controller_id
    && session_accepts a.source a.controller_session_id

key_hash : (String → String) → Option String → Option String
key_hash digest none = none
key_hash digest (some key) =
    if leb 1 (length (codes key)) && leb (length (codes key)) 256 then some (digest key) else none

supplied_hash : Option String → Option String
supplied_hash none = none
supplied_hash (some hash) = if is_digest hash then some hash else none

unfoldable pub request_idempotency_key_hash : (String → String) → Attribution → Option String
unfolding key_hash supplied_hash
request_idempotency_key_hash digest a = elim (supplied_hash a.idempotency_key_hash) [
  | some hash ↦ some hash
  | none ↦ key_hash digest a.idempotency_key
]

-- An outcome that is retained under a key, with the fingerprint of the request that it answered.
pub record Retained {ℓ} (R : Type ℓ) : Type ℓ where
  pub idempotency_key_hash : String
  pub request_fingerprint : String
  pub response : R

unfoldable pub retained_outcome {ℓ} :
    {R : Type ℓ} → List (Retained R) → Option String → Option (Retained R)
retained_outcome outcomes none = none
retained_outcome outcomes (some hash) = find (λ o. str_eq o.idempotency_key_hash hash) outcomes
