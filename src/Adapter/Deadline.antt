-- ===== src/Adapter/Deadline.antt =====
-- `scheduleCancellationEscalation` of src/harness-runs/cancellation-escalation.mjs: its closure's variables
-- as a state, and its callbacks as operations on it. The clock is the time of each call.
use sandking.Base.{
  ℕ, ◌-◌, Bool, true, false, ◌||◌, List, [], ◌∷◌, Option, none, some, ltb, if◌then◌else◌,
}

-- `active_timer` is the delay of the timer that is set, if one is; `escalations` are the times at which
-- `escalate` was called.
pub record Escalation : Type 0 where
  pub deadline : ℕ
  pub operation_settled : Bool
  pub escalation_started : Bool
  pub deadline_reached : Bool
  pub active_timer : Option ℕ
  pub escalations : List ℕ

-- The timer's first delay is `Math.max(0, deadline - currentTime())`.
unfoldable pub schedule_cancellation_escalation : ℕ → ℕ → Escalation
schedule_cancellation_escalation deadline now = record {
  deadline = deadline;
  operation_settled = false;
  escalation_started = false;
  deadline_reached = false;
  active_timer = some (deadline - now);
  escalations = [];
}

-- `escalateWhenDue`; `throws` tells whether `escalate` throws.
escalate_when_due : ℕ → Bool → Escalation → Escalation
escalate_when_due now throws e =
    if e.operation_settled
    then e
    else if ltb now e.deadline
    then record e { active_timer = some (e.deadline - now) }
    else record e {
      escalation_started = true;
      deadline_reached = true;
      escalations = now ∷ e.escalations;
      operation_settled = throws;
    }

-- The timer that is set goes off.
unfoldable pub fire : ℕ → Bool → Escalation → Escalation
unfolding escalate_when_due
fire now throws e = elim e.active_timer [
  | none ↦ e
  | some delay ↦ escalate_when_due now throws (record e { active_timer = none })
]

-- The promise of a started escalation is settled.
unfoldable pub finish_operation : Escalation → Escalation
finish_operation e = if e.escalation_started then record e { operation_settled = true } else e

-- `cancel`, with what it returns.
unfoldable pub cancel : Escalation → Bool × Escalation
cancel e =
    if e.escalation_started || e.operation_settled
    then (false, e)
    else (true, record e { operation_settled = true; active_timer = none })
