-- ===== src/Adapter/Armed.antt =====
-- What the deadline of a cancellation promises, in every order of its callbacks.
use sandking.Base.{
  ℕ, ◌≡◌, Bool, true, false, not, ◌&&◌, [], none, is_some, leb, all, length, arith, if◌then◌else◌,
}
use sandking.Adapter.Deadline.{
  Escalation, schedule_cancellation_escalation, fire, finish_operation, cancel,
}

pub data Step : Escalation → Escalation → Type 0 where
  fires : {e : Escalation} (now : ℕ) (throws : Bool) → Step e (fire now throws e)
  finishes : {e : Escalation} → Step e (finish_operation e)
  is_cancelled : {e : Escalation} → Step e (cancel e).1

pub data Reaches : Escalation → Escalation → Type 0 where
  here : {e : Escalation} → Reaches e e
  then_step : {e e' e'' : Escalation} → Reaches e e' → Step e' e'' → Reaches e e''

-- Either the timer is set, or the escalation has started once, or it was cancelled.
pub record IsArmed (e : Escalation) : Type 0 where
  pub once : length e.escalations ≡ (if e.escalation_started then 1 else 0)
  pub due : all (λ at. leb e.deadline at) e.escalations ≡ true
  pub disarmed : e.escalation_started ≡ true → e.active_timer ≡ none
  pub waits : is_some e.active_timer ≡ (not e.escalation_started && not e.operation_settled)
  pub reported : e.deadline_reached ≡ e.escalation_started

Step-IsArmed : {e e' : Escalation} → Step e e' → IsArmed e → IsArmed e'
unfolding fire finish_operation cancel
Step-IsArmed (Step.fires {e} now throws) w = ground arith
Step-IsArmed (Step.finishes {e}) w = ground arith
Step-IsArmed (Step.is_cancelled {e}) w = ground arith

Reaches-keeps : {e e' : Escalation} → Reaches e e' → IsArmed e → IsArmed e'
Reaches-keeps Reaches.here w = w
Reaches-keeps (Reaches.then_step r s) w = Step-IsArmed s (Reaches-keeps r w)

schedule-IsArmed : (deadline now : ℕ) → IsArmed (schedule_cancellation_escalation deadline now)
unfolding schedule_cancellation_escalation
schedule-IsArmed deadline now = ground arith

-- In every order of timers, results and calls of `cancel`, the escalation starts at most once, never
-- before its deadline, and the timer is set exactly as long as it neither started nor was cancelled.
pub Reaches-IsArmed :
    (deadline now : ℕ) (e : Escalation)
    → Reaches (schedule_cancellation_escalation deadline now) e
    → IsArmed e
Reaches-IsArmed deadline now e r = Reaches-keeps r (schedule-IsArmed deadline now)

record IsQuiet (e : Escalation) : Type 0 where
  pub over : e.operation_settled ≡ true
  pub idle : e.escalation_started ≡ false
  pub none_called : e.escalations ≡ []

Step-IsQuiet : {e e' : Escalation} → Step e e' → IsQuiet e → IsQuiet e'
unfolding fire finish_operation cancel
Step-IsQuiet (Step.fires {e} now throws) w = ground arith
Step-IsQuiet (Step.finishes {e}) w = ground arith
Step-IsQuiet (Step.is_cancelled {e}) w = ground arith

Reaches-IsQuiet : {e e' : Escalation} → Reaches e e' → IsQuiet e → IsQuiet e'
Reaches-IsQuiet Reaches.here w = w
Reaches-IsQuiet (Reaches.then_step r s) w = Step-IsQuiet s (Reaches-IsQuiet r w)

cancel-IsQuiet : (e : Escalation) → IsArmed e → (cancel e).0 ≡ true → IsQuiet (cancel e).1
unfolding cancel
cancel-IsQuiet e w c = ground arith

-- Once `cancel` has returned true, the escalation is never called, whatever callbacks follow.
pub Reaches-cancel :
    (deadline now : ℕ) (e e' : Escalation)
    → Reaches (schedule_cancellation_escalation deadline now) e
    → (cancel e).0 ≡ true
    → Reaches (cancel e).1 e'
    → e'.escalations ≡ []
Reaches-cancel deadline now e e' r c later =
    (Reaches-IsQuiet later (cancel-IsQuiet e (Reaches-IsArmed deadline now e r) c)).none_called
