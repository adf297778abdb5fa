-- ===== src/Runs/History.antt =====
-- The history of a run that src/harness-runs keeps: which events it holds, how often and in which
-- order, against the view in the run's other members.
use sandking.Base.{
  ℕ, suc, ◌+◌, ◌≤◌, ◌<◌, ◌≡◌, ◌⊎◌, refl, sym, subst, ◌∙◌, ◌&&◌, ◌==◌, Bool, true, false, not, ◌||◌,
  String, List, [], ◌∷◌, ◌++◌, Option, none, some, is_some, is_none, ok, arith, length,
  if◌then◌else◌,
}
use sandking.Runs.Types.{
  Cancellation, Recovery, Run, Event, EventType, Status, Outcome, ProgressRecord,
}
use sandking.Runs.Events.{
  Stamp, append_event, next_event, max_retained_run_events, max_progress_records_per_run,
}
use sandking.Runs.Commit.{status_of, terminal_event_of}
use sandking.Runs.Interruption.{same_status, is_terminal_type, same_terminal_type, refers_to}
use sandking.Runs.Reconcile.{is_interrupted}

-- The terminal events are of one kind.
pub data Kind : Type 0 where
  created ready progress cancel_accepted recovery terminal : Kind

abbrev pub kind_of : EventType → Kind
kind_of EventType.harness_run_created = created
kind_of EventType.harness_adapter_ready = ready
kind_of EventType.harness_progress_published = progress
kind_of EventType.harness_run_cancellation_accepted = cancel_accepted
kind_of EventType.harness_run_recovery_required = recovery
kind_of EventType.harness_run_succeeded = terminal
kind_of EventType.harness_run_failed = terminal
kind_of EventType.harness_run_cancelled = terminal

abbrev pub is_kind : Kind → Kind → ℕ
is_kind created created = 1
is_kind ready ready = 1
is_kind progress progress = 1
is_kind cancel_accepted cancel_accepted = 1
is_kind recovery recovery = 1
is_kind terminal terminal = 1
is_kind _ _ = 0

unfoldable pub kind_count : Kind → List Event → ℕ
kind_count k [] = 0
kind_count k (e ∷ es) = is_kind k (kind_of e.event_type) + kind_count k es

pub kind_count-append :
    (k : Kind) (es : List Event) (e : Event)
    → kind_count k (es ++ e ∷ []) ≡ kind_count k es + is_kind k (kind_of e.event_type)
unfolding kind_count
kind_count-append k [] e = omega arith
kind_count-append k (x ∷ es) e = omega (arith, kind_count-append k es e)

is_kind_total :
    (k : Kind)
    → is_kind created k
        + is_kind ready k
        + is_kind progress k
        + is_kind cancel_accepted k
        + is_kind recovery k
        + is_kind terminal k
      ≡ 1
is_kind_total created = refl
is_kind_total _ = refl

-- Every event is of exactly one kind.
pub length-kind_count :
    (es : List Event)
    → length es
      ≡ kind_count created es
        + kind_count ready es
        + kind_count progress es
        + kind_count cancel_accepted es
        + kind_count recovery es
        + kind_count terminal es
unfolding kind_count
length-kind_count [] = refl
length-kind_count (e ∷ es) =
    omega (arith, length-kind_count es, is_kind_total (kind_of e.event_type))

-- The events carry the numbers behind `n`, with no gap.
abbrev pub Sequenced : ℕ → List Event → Type 0
Sequenced n [] = Unit {0}
Sequenced n (e ∷ es) = (e.sequence ≡ suc n) × Sequenced (suc n) es

pub Sequenced-append :
    (n : ℕ) (es : List Event) (e : Event)
    → Sequenced n es
    → e.sequence ≡ suc (n + length es)
    → Sequenced n (es ++ e ∷ [])
Sequenced-append n [] e s h = (omega arith, tt)
Sequenced-append n (x ∷ es) e s h = (s.0, Sequenced-append (suc n) es e s.1 (omega arith))

-- The terminal events with the outcomes that they refer to.
unfoldable pub terminals : List Event → List (EventType × Option String)
terminals [] = []
terminals (e ∷ es) =
    if is_terminal_type e.event_type
    then (e.event_type, e.outcome_reference) ∷ terminals es
    else terminals es

abbrev pub with_event :
    EventType → Option String → List (EventType × Option String) → List (EventType × Option String)
with_event kind reference ts = if is_terminal_type kind then ts ++ (kind, reference) ∷ [] else ts

terminals-append :
    (es : List Event) (e : Event)
    → terminals (es ++ e ∷ []) ≡ with_event e.event_type e.outcome_reference (terminals es)
unfolding terminals
terminals-append [] e = refl
terminals-append (x ∷ es) e = ground (arith, terminals-append es e)

-- The history ends with the outcome of the view, and with no other.
abbrev pub terminals_agree : Option Outcome → List (EventType × Option String) → Bool
terminals_agree none [] = true
terminals_agree (some o) ((kind, reference) ∷ []) =
    same_terminal_type kind (terminal_event_of o.outcome_status) && refers_to reference o.outcome_id
terminals_agree _ _ = false

abbrev pub bit : Bool → ℕ
bit true = 1
bit false = 0

abbrev pub expected_status : Option Outcome → Status → Status
expected_status none s = s
expected_status (some o) s = status_of o.outcome_status

abbrev pub expected_completion : Option Outcome → Option ℕ
expected_completion none = none
expected_completion (some o) = some o.outcome_completed_at

abbrev pub is_active : Status → Bool
is_active Status.succeeded = false
is_active Status.failed = false
is_active Status.cancelled = false
is_active _ = true

-- The status that a recovery has retained tells whether a cancellation was accepted.
abbrev pub previous_agrees : Option Recovery → Option Cancellation → Bool
previous_agrees none c = true
previous_agrees (some r) none =
    same_status r.previous_status Status.starting || same_status r.previous_status Status.running
previous_agrees (some r) (some c) = same_status r.previous_status Status.cancelling

-- A run as the manager keeps it: each member of the view has its one event, and the other way round.
pub record IsWellFormed (run : Run) : Type 0 where
  pub sequenced : Sequenced 0 run.events
  pub created_once : kind_count created run.events ≡ 1
  pub ready_once : kind_count ready run.events ≡ bit (is_some run.adapter_ready_at)
  pub progress_bounded : kind_count progress run.events ≤ max_progress_records_per_run
  pub cancel_once : kind_count cancel_accepted run.events ≡ bit (is_some run.cancellation)
  pub recovery_once : kind_count recovery run.events ≤ 1
  pub recovery_open : is_interrupted run.status ≡ true → kind_count recovery run.events ≡ 0
  pub terminal_once : kind_count terminal run.events ≡ bit (is_some run.outcome)
  pub terminal_agrees : terminals_agree run.outcome (terminals run.events) ≡ true
  pub unvalidated :
      is_some run.outcome
        || (run.validation.valid_terminal_envelope_count == 0 && not run.validation.exactly_one)
      ≡ true
  pub active_open : is_active run.status ≡ is_none run.outcome
  pub status_settled : run.status ≡ expected_status run.outcome run.status
  pub completion_settled : run.completed_at ≡ expected_completion run.outcome
  pub cancelling_accepted :
      same_status run.status Status.cancelling ≡ true → is_some run.cancellation ≡ true
  pub accepted_cancelling :
      is_some run.cancellation ≡ true
      → is_active run.status ≡ true
      → (run.status ≡ Status.cancelling) ⊎ (run.status ≡ Status.recovery_required)
  pub recovery_view : is_some run.recovery ≡ same_status run.status Status.recovery_required
  pub recovery_previous : previous_agrees run.recovery run.cancellation ≡ true

-- The run before an event of this kind is appended: well formed with it.
pub record Awaits (kind : EventType) (reference : Option String) (run : Run) : Type 0 where
  pub sequenced : Sequenced 0 run.events
  pub created_once : kind_count created run.events + is_kind created (kind_of kind) ≡ 1
  pub ready_once :
      kind_count ready run.events + is_kind ready (kind_of kind)
      ≡ bit (is_some run.adapter_ready_at)
  pub progress_bounded :
      kind_count progress run.events + is_kind progress (kind_of kind)
      ≤ max_progress_records_per_run
  pub cancel_once :
      kind_count cancel_accepted run.events + is_kind cancel_accepted (kind_of kind)
      ≡ bit (is_some run.cancellation)
  pub recovery_once : kind_count recovery run.events + is_kind recovery (kind_of kind) ≤ 1
  pub recovery_open :
      is_interrupted run.status ≡ true
      → kind_count recovery run.events + is_kind recovery (kind_of kind) ≡ 0
  pub terminal_once :
      kind_count terminal run.events + is_kind terminal (kind_of kind) ≡ bit (is_some run.outcome)
  pub terminal_agrees :
      terminals_agree run.outcome (with_event kind reference (terminals run.events)) ≡ true
  pub unvalidated :
      is_some run.outcome
        || (run.validation.valid_terminal_envelope_count == 0 && not run.validation.exactly_one)
      ≡ true
  pub active_open : is_active run.status ≡ is_none run.outcome
  pub status_settled : run.status ≡ expected_status run.outcome run.status
  pub completion_settled : run.completed_at ≡ expected_completion run.outcome
  pub cancelling_accepted :
      same_status run.status Status.cancelling ≡ true → is_some run.cancellation ≡ true
  pub accepted_cancelling :
      is_some run.cancellation ≡ true
      → is_active run.status ≡ true
      → (run.status ≡ Status.cancelling) ⊎ (run.status ≡ Status.recovery_required)
  pub recovery_view : is_some run.recovery ≡ same_status run.status Status.recovery_required
  pub recovery_previous : previous_agrees run.recovery run.cancellation ≡ true

bit-le : (b : Bool) → bit b ≤ 1
bit-le true = omega arith
bit-le false = omega arith

-- Five events of the universal kinds and the progress records fit the bound.
Awaits-length :
    {kind : EventType} {reference : Option String} {run : Run}
    → Awaits kind reference run
    → length run.events < max_retained_run_events
Awaits-length {kind} {run} a = omega (
  arith,
  length-kind_count run.events,
  is_kind_total (kind_of kind),
  bit-le (is_some run.adapter_ready_at),
  bit-le (is_some run.cancellation),
  bit-le (is_some run.outcome),
)

-- Such an append never meets the bound on events, and makes the run well formed.
pub append_event-IsWellFormed :
    {kind : EventType} {run : Run} (stamp : Stamp) (published : Option ProgressRecord)
    (reference : Option String)
    → Awaits kind reference run
    → (run' : Run) × (append_event stamp run kind published reference ≡ ok run') × IsWellFormed run'
unfolding append_event
append_event-IsWellFormed {kind} {run} stamp published reference a = (
  record run { events = run.events ++ event ∷ [] },
  ground (arith, Awaits-length a),
  record {
    sequenced = Sequenced-append 0 run.events event a.sequenced (omega arith);
    created_once = kind_count-append created run.events event ∙ a.created_once;
    ready_once = kind_count-append ready run.events event ∙ a.ready_once;
    progress_bounded =
        omega (arith, kind_count-append progress run.events event, a.progress_bounded);
    cancel_once = kind_count-append cancel_accepted run.events event ∙ a.cancel_once;
    recovery_once = omega (arith, kind_count-append recovery run.events event, a.recovery_once);
    recovery_open = λ h. kind_count-append recovery run.events event ∙ a.recovery_open h;
    terminal_once = kind_count-append terminal run.events event ∙ a.terminal_once;
    terminal_agrees =
        subst (λ ts. terminals_agree run.outcome ts ≡ true)
          (sym (terminals-append run.events event)) a.terminal_agrees;
    unvalidated = a.unvalidated;
    active_open = a.active_open;
    status_settled = a.status_settled;
    completion_settled = a.completion_settled;
    cancelling_accepted = a.cancelling_accepted;
    accepted_cancelling = a.accepted_cancelling;
    recovery_view = a.recovery_view;
    recovery_previous = a.recovery_previous;
  },
)
  where
    event : Event
    event = next_event stamp run kind published reference
