-- ===== src/Runs/Supervision.antt =====
-- The updates that `supervise` of src/harness-runs/run-supervision.mjs makes while the adapter runs.
use sandking.Base.{
  ℕ, ◌+◌, ◌-◌, Bool, true, false, ◌||◌, List, [], ◌∷◌, ◌++◌, Option, none, some, is_some, Result,
  ok, err, ◌>>=◌, leb, ◌==◌, length, min, if◌then◌else◌,
}
use sandking.Runs.Types.{Run, Status, EventType, ProgressRecord, Cancellation, Failure, LogStream}
use sandking.Runs.Events.{Stamp, append_event}

-- `onReady`: a run that is being cancelled stays so.
ready_status : Status → Result Failure Status
ready_status Status.starting = ok Status.running
ready_status Status.cancelling = ok Status.cancelling
ready_status _ = err Failure.harness_run_state_invalid

unfoldable pub on_ready : Stamp → ℕ → Run → Result Failure Run
unfolding ready_status
on_ready stamp ready_at run = ready_status run.status >>= λ status.
    append_event stamp
      (record run {
        status = status;
        adapter_ready_at = some ready_at;
        validation = record run.validation { adapter_ready_observed = true };
        revision = run.revision + 1;
      })
      EventType.harness_adapter_ready none none

-- One turn of the loop of `persistProgressRecords`.
unfoldable pub publish_progress : Stamp → ProgressRecord → Run → Result Failure Run
publish_progress stamp progress run =
    append_event stamp (record run { revision = run.revision + 1 })
      EventType.harness_progress_published (some progress) none

unfoldable pub publish_all : List (Stamp × ProgressRecord) → Run → Result Failure Run
unfolding publish_progress
publish_all [] run = ok run
publish_all ((stamp, progress) ∷ more) run =
    publish_progress stamp progress run >>= publish_all more

-- The update of `persistProgressRecords`: after an accepted cancellation or an outcome nothing of the
-- Harness's enters the history.
unfoldable pub persist_progress_records : List (Stamp × ProgressRecord) → Run → Result Failure Run
unfolding publish_all
persist_progress_records records run =
    if is_some run.cancellation || is_some run.outcome then ok run else publish_all records run

abbrev pub progress_persist_batch_size : ℕ
progress_persist_batch_size = 32

-- What `onProgress` keeps between calls: the records that wait, and how many have come in all.
pub record ProgressQueue : Type 0 where
  pub waiting : List ProgressRecord
  pub progress_record_count : ℕ

-- `onProgress`: the queue after it, and the records that it persists now.
unfoldable pub on_progress : ProgressRecord → ProgressQueue → ProgressQueue × List ProgressRecord
on_progress progress queue =
    let waiting = queue.waiting ++ progress ∷ [] in
    let number = queue.progress_record_count + 1 in
    if number == 1 || leb progress_persist_batch_size (length waiting)
    then (record { waiting = []; progress_record_count = number }, waiting)
    else (record { waiting = waiting; progress_record_count = number }, [])

pub data SignalKind : Type 0 where
  cooperative forced : SignalKind

-- A time that is set once.
abbrev set_once : Option ℕ → ℕ → Option ℕ
set_once none at = some at
set_once (some old) at = some old

bump_if : Bool → ℕ → ℕ
bump_if changed revision = if changed then revision + 1 else revision

abbrev is_unset : Option ℕ → Bool
is_unset none = true
is_unset (some t) = false

publish_signal : SignalKind → ℕ → Cancellation → Run → Run
unfolding bump_if
publish_signal SignalKind.cooperative sent_at c run = record run {
  cancellation =
      some
        (record c { cooperative_signal_sent_at = set_once c.cooperative_signal_sent_at sent_at });
  revision = bump_if (is_unset c.cooperative_signal_sent_at) run.revision;
}
publish_signal SignalKind.forced sent_at c run = record run {
  cancellation =
      some
        (record c { forced_termination_sent_at = set_once c.forced_termination_sent_at sent_at });
  revision = bump_if (is_unset c.forced_termination_sent_at) run.revision;
}

-- The update of `onCancellationSignalPublished`.
unfoldable pub on_cancellation_signal_published : SignalKind → ℕ → Run → Result Failure Run
unfolding publish_signal
on_cancellation_signal_published kind sent_at run = elim run.cancellation [
  | none ↦ err Failure.harness_run_cancellation_state_invalid
  | some c ↦ ok (publish_signal kind sent_at c run)
]

-- The update of `onCancellationTerminationConfirmed`.
unfoldable pub on_cancellation_termination_confirmed : ℕ → Run → Result Failure Run
unfolding bump_if
on_cancellation_termination_confirmed at run = elim run.cancellation [
  | none ↦ err Failure.harness_run_cancellation_state_invalid
  | some c ↦ ok (record run {
    cancellation =
        some (record c { termination_confirmed_at = set_once c.termination_confirmed_at at });
    revision = bump_if (is_unset c.termination_confirmed_at) run.revision;
  })
]

pub data Producer : Type 0 where
  stdout_producer stderr_producer : Producer

abbrev pub max_log_bytes : ℕ
max_log_bytes = 65536

-- The bytes of one piece of output that `appendDiagnostic` writes to the log.
abbrev pub bounded_length : ℕ → LogStream → ℕ
bounded_length size stream = min size (max_log_bytes - stream.available_end)

grow : ℕ → LogStream → LogStream
grow size stream = record stream {
  available_end = stream.available_end + bounded_length size stream;
}

-- `appendDiagnostic`, for a piece of output of the given size.
unfoldable pub append_diagnostic : Producer → ℕ → Run → Run
unfolding grow
append_diagnostic Producer.stdout_producer size run = record run { stdout = grow size run.stdout }
append_diagnostic Producer.stderr_producer size run = record run { stderr = grow size run.stderr }
