-- ===== src/Delivery/Exclusion.antt =====
-- Instances that claim the same issue, in every interleaving of their steps.
use sandking.Base.{
  ◌≡◌, refl, ap, true, false, String, str_eq, List, [], ◌∷◌, Option, none, some, arith, eq_iff,
}
use sandking.Delivery.Claims.{
  ClaimAction, ClaimEvent, apply_claim_event, replay_claims, compute_active_claim, Phase, Claims,
  post, held_by, read_before, post_claim, recheck, post_release,
}

str_eq_sound : (a b : String) → str_eq a b ≡ true → a ≡ b
str_eq_sound a b h = (eq_iff a b).0 h

held_by_sound : (active : Option String) (id : String) → held_by active id ≡ true → active ≡ some id
held_by_sound none id h = cc
held_by_sound (some holder) id h = ap some (str_eq_sound holder id h)

replay_claims-append :
    (active : Option String) (ledger : List ClaimEvent) (action : ClaimAction) (id : String)
    → replay_claims active (post action id ledger)
      ≡ apply_claim_event action id (replay_claims active ledger)
unfolding replay_claims
replay_claims-append active [] action id = refl
replay_claims-append active (e ∷ ledger) action id =
    replay_claims-append (apply_claim_event e.claim_action e.instance_id active) ledger action id

pub compute_active_claim-post :
    (ledger : List ClaimEvent) (action : ClaimAction) (id : String)
    → compute_active_claim (post action id ledger)
      ≡ apply_claim_event action id (compute_active_claim ledger)
unfolding compute_active_claim
compute_active_claim-post ledger action id = replay_claims-append none ledger action id

-- One step of one instance; no instance overrides a claim.
pub data Step : Claims → Claims → Type 0 where
  reads : {s : Claims} (id : String) → s.phase_of id ≡ Phase.idle → Step s (read_before false id s)
  claims : {s : Claims} (id : String) → s.phase_of id ≡ Phase.claiming → Step s (post_claim id s)
  rechecks : {s : Claims} (id : String) → s.phase_of id ≡ Phase.rechecking → Step s (recheck id s)
  releases : {s : Claims} (id : String) → s.phase_of id ≡ Phase.holding → Step s (post_release id s)

pub data Reaches : Claims → Claims → Type 0 where
  here : {s : Claims} → Reaches s s
  then_step : {s s' s'' : Claims} → Reaches s s' → Step s' s'' → Reaches s s''

-- Who holds the issue is who the ledger names.
abbrev pub IsExclusive : Claims → Type 0
IsExclusive s =
    (id : String) → s.phase_of id ≡ Phase.holding → compute_active_claim s.ledger ≡ some id

Step-IsExclusive : {s s' : Claims} → Step s s' → IsExclusive s → IsExclusive s'
unfolding read_before post_claim recheck post_release apply_claim_event
Step-IsExclusive (Step.reads {s} id at) w other holds =
    ground (arith, w other, str_eq_sound other id)
Step-IsExclusive (Step.claims {s} id at) w other holds =
    ground (
      arith,
      w other,
      compute_active_claim-post s.ledger ClaimAction.claim id,
      str_eq_sound other id,
    )
Step-IsExclusive (Step.rechecks {s} id at) w other holds =
    ground (arith, w other, str_eq_sound other id, held_by_sound (compute_active_claim s.ledger) id)
Step-IsExclusive (Step.releases {s} id at) w other holds =
    ground (arith, w other, compute_active_claim-post s.ledger ClaimAction.release id)

Reaches-IsExclusive : {s s' : Claims} → Reaches s s' → IsExclusive s → IsExclusive s'
Reaches-IsExclusive Reaches.here w = w
Reaches-IsExclusive (Reaches.then_step r t) w = Step-IsExclusive t (Reaches-IsExclusive r w)

idle-IsExclusive : (s : Claims) → ((i : String) → s.phase_of i ≡ Phase.idle) → IsExclusive s
idle-IsExclusive s idle_ id holds = ground (arith, idle_ id)

-- From a state in which no instance is at work, whatever the ledger holds by then and in whatever order
-- the instances read, post and release, no two of them deliver the issue at once, as long as none
-- overrides a claim.
pub Reaches-exclusive :
    (s s' : Claims) (id other : String)
    → ((i : String) → s.phase_of i ≡ Phase.idle)
    → Reaches s s'
    → s'.phase_of id ≡ Phase.holding
    → s'.phase_of other ≡ Phase.holding
    → id ≡ other
Reaches-exclusive s s' id other idle_ r first second =
    let w = Reaches-IsExclusive r (idle-IsExclusive s idle_) in
    let mine = w id first in let theirs = w other second in cc
