-- ===== src/Runs/Lifecycle.antt =====
-- Every update of src/harness-runs on a well-formed run succeeds and keeps it well formed.
use sandking.Base.{
  ℕ, suc, ◌+◌, ◌≤◌, ◌<◌, ◌≡◌, ◌⊎◌, inl, inr, refl, true, String, List, [], ◌∷◌, none, some, ◌||◌,
  is_some, Result, ok, arith, length, Bool-cases,
}
use sandking.Runs.Types.{Run, EventType, Status, ProgressRecord, Failure}
use sandking.Runs.Events.{Stamp, append_event, next_event, max_progress_records_per_run}
use sandking.Runs.Supervision.{
  on_ready, publish_progress, publish_all, persist_progress_records, SignalKind,
  on_cancellation_signal_published, on_cancellation_termination_confirmed, Producer,
  append_diagnostic,
}
use sandking.Runs.History.{
  progress, kind_count, kind_count-append, IsWellFormed, append_event-IsWellFormed,
}
use sandking.Runs.Cancel.{CancelStamp, accept_cancellation, is_cancellable}

-- An update succeeds, and what it makes is well formed.
abbrev pub Keeps : Result Failure Run → Type 0
Keeps result = (run : Run) × (result ≡ ok run) × IsWellFormed run

-- The adapter's one readiness, on a run that is starting or being cancelled.
pub on_ready-IsWellFormed :
    (stamp : Stamp) (at : ℕ) (run : Run)
    → IsWellFormed run
    → run.adapter_ready_at ≡ none
    → (run.status ≡ Status.starting) ⊎ (run.status ≡ Status.cancelling)
    → Keeps (on_ready stamp at run)
unfolding on_ready
on_ready-IsWellFormed stamp at run w unready (inl e) =
    rw e (append_event-IsWellFormed stamp none none (ground arith))
on_ready-IsWellFormed stamp at run w unready (inr e) =
    rw e (append_event-IsWellFormed stamp none none (ground arith))

-- One more progress record is in the history.
abbrev Publishes : Run → Result Failure Run → Type 0
Publishes run result =
    (run' : Run) × (result ≡ ok run')
    × IsWellFormed run'
    × (kind_count progress run'.events ≡ suc (kind_count progress run.events))

publish_progress-count :
    (stamp : Stamp) (published : ProgressRecord) (run run' : Run)
    → publish_progress stamp published run ≡ ok run'
    → kind_count progress run'.events ≡ suc (kind_count progress run.events)
unfolding publish_progress append_event
publish_progress-count stamp published run run' h = ground (
  arith,
  kind_count-append progress run.events
      (next_event stamp run EventType.harness_progress_published (some published) none),
)

publish_progress-Keeps :
    (stamp : Stamp) (published : ProgressRecord) (run : Run)
    → IsWellFormed run
    → kind_count progress run.events < max_progress_records_per_run
    → Keeps (publish_progress stamp published run)
unfolding publish_progress
publish_progress-Keeps stamp published run w room =
    append_event-IsWellFormed stamp (some published) none (ground arith)

publish_progress-Publishes :
    (stamp : Stamp) (published : ProgressRecord) (run : Run)
    → IsWellFormed run
    → kind_count progress run.events < max_progress_records_per_run
    → Publishes run (publish_progress stamp published run)
publish_progress-Publishes stamp published run w room =
    let (run', done, w') = publish_progress-Keeps stamp published run w room in
    (run', done, w', publish_progress-count stamp published run run' done)

publish_all-IsWellFormed :
    (records : List (Stamp × ProgressRecord)) (run : Run)
    → IsWellFormed run
    → kind_count progress run.events + length records ≤ max_progress_records_per_run
    → Keeps (publish_all records run)
unfolding publish_all
publish_all-IsWellFormed [] run w room = (run, refl, w)
publish_all-IsWellFormed ((stamp, published) ∷ more) run w room =
    let (run', done, w', count) = publish_progress-Publishes stamp published run w (omega arith) in
    rw done (publish_all-IsWellFormed more run' w' (omega arith))

-- As many progress records as the adapter protocol lets through fit the history.
pub persist_progress_records-IsWellFormed :
    (records : List (Stamp × ProgressRecord)) (run : Run)
    → IsWellFormed run
    → kind_count progress run.events + length records ≤ max_progress_records_per_run
    → Keeps (persist_progress_records records run)
unfolding persist_progress_records
persist_progress_records-IsWellFormed records run w room =
    elim (Bool-cases (is_some run.cancellation || is_some run.outcome)) [
      | inl closed ↦ rw closed (run, refl, w)
      | inr open_ ↦ rw open_ (publish_all-IsWellFormed records run w room)
    ]

-- A signal is published only for a run whose cancellation was accepted.
pub on_cancellation_signal_published-IsWellFormed :
    (kind : SignalKind) (at : ℕ) (run run' : Run)
    → IsWellFormed run
    → on_cancellation_signal_published kind at run ≡ ok run'
    → IsWellFormed run'
unfolding on_cancellation_signal_published
on_cancellation_signal_published-IsWellFormed SignalKind.cooperative at run run' w h = ground arith
on_cancellation_signal_published-IsWellFormed SignalKind.forced at run run' w h = ground arith

pub on_cancellation_termination_confirmed-IsWellFormed :
    (at : ℕ) (run run' : Run)
    → IsWellFormed run
    → on_cancellation_termination_confirmed at run ≡ ok run'
    → IsWellFormed run'
unfolding on_cancellation_termination_confirmed
on_cancellation_termination_confirmed-IsWellFormed at run run' w h = ground arith

pub append_diagnostic-IsWellFormed :
    (producer : Producer) (size : ℕ) (run : Run)
    → IsWellFormed run
    → IsWellFormed (append_diagnostic producer size run)
unfolding append_diagnostic
append_diagnostic-IsWellFormed Producer.stdout_producer size run w = ground arith
append_diagnostic-IsWellFormed Producer.stderr_producer size run w = ground arith

pub accept_cancellation-IsWellFormed :
    (stamp : CancelStamp) (hash : String) (run : Run)
    → IsWellFormed run
    → is_cancellable run ≡ true
    → Keeps (accept_cancellation stamp hash run)
unfolding accept_cancellation is_cancellable
accept_cancellation-IsWellFormed stamp hash run w open_ =
    append_event-IsWellFormed stamp.event none none (ground arith)
