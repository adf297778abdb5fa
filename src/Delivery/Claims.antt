-- ===== src/Delivery/Claims.antt =====
-- The claims on an issue in .sandcastle/issue-delivery.mjs: `computeActiveClaim`, and
-- `acquireIssueClaim` cut at its calls of the adapter `github`, between which other instances run. The
-- ledger is the one of an issue; times, hosts, process ids and branches are left out.
use sandking.Base.{
  Bool, false, not, String, str_eq, List, [], ◌∷◌, ◌++◌, Option, none, some, if◌then◌else◌,
}

pub data ClaimAction : Type 0 where
  claim release override : ClaimAction

pub record ClaimEvent : Type 0 where
  pub claim_action : ClaimAction
  pub instance_id : String

-- One turn of the loop; the active claim is told by its instance.
unfoldable pub apply_claim_event : ClaimAction → String → Option String → Option String
apply_claim_event ClaimAction.claim id none = some id
apply_claim_event ClaimAction.claim id (some holder) = some holder
apply_claim_event ClaimAction.release id none = none
apply_claim_event ClaimAction.release id (some holder) =
    if str_eq holder id then none else some holder
apply_claim_event ClaimAction.override id active = none

unfoldable pub replay_claims : Option String → List ClaimEvent → Option String
unfolding apply_claim_event
replay_claims active [] = active
replay_claims active (e ∷ ledger) =
    replay_claims (apply_claim_event e.claim_action e.instance_id active) ledger

unfoldable pub compute_active_claim : List ClaimEvent → Option String
unfolding replay_claims
compute_active_claim ledger = replay_claims none ledger

-- Where an instance is in `acquireIssueClaim` and the delivery behind it.
pub data Phase : Type 0 where
  idle overriding claiming rechecking holding refused : Phase

-- The ledger, and each instance's phase.
pub record Claims : Type 0 where
  pub ledger : List ClaimEvent
  pub phase_of : String → Phase

abbrev pub set_phase : String → Phase → (String → Phase) → String → Phase
set_phase id p phases other = if str_eq other id then p else phases other

abbrev pub post : ClaimAction → String → List ClaimEvent → List ClaimEvent
post action id ledger = ledger ++ record { claim_action = action; instance_id = id } ∷ []

abbrev pub held_by : Option String → String → Bool
held_by none id = false
held_by (some holder) id = str_eq holder id

abbrev held_by_other : Option String → String → Bool
held_by_other none id = false
held_by_other (some holder) id = not (str_eq holder id)

-- The first reading of the ledger.
unfoldable pub read_before : Bool → String → Claims → Claims
read_before override_claim id s = record s {
  phase_of =
      set_phase id
        (if held_by_other (compute_active_claim s.ledger) id
          then (if override_claim then Phase.overriding else Phase.refused)
          else Phase.claiming)
        s.phase_of;
}

unfoldable pub post_override : String → Claims → Claims
post_override id s = record {
  ledger = post ClaimAction.override id s.ledger;
  phase_of = set_phase id Phase.claiming s.phase_of;
}

unfoldable pub post_claim : String → Claims → Claims
post_claim id s = record {
  ledger = post ClaimAction.claim id s.ledger;
  phase_of = set_phase id Phase.rechecking s.phase_of;
}

-- The second reading.
unfoldable pub recheck : String → Claims → Claims
recheck id s = record s {
  phase_of =
      set_phase id
        (if held_by (compute_active_claim s.ledger) id then Phase.holding else Phase.refused)
        s.phase_of;
}

-- `release`, behind the delivery, whether it throws or not.
unfoldable pub post_release : String → Claims → Claims
post_release id s = record {
  ledger = post ClaimAction.release id s.ledger;
  phase_of = set_phase id Phase.idle s.phase_of;
}
