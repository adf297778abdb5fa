-- ===== src/Runs/Query.antt =====
-- `observe`, `readLogs` and the range of logs of src/harness-runs/operations/queries.mjs.
use sandking.Base.{
  ℕ, ◌+◌, Bool, false, not, ◌&&◌, ◌||◌, List, [], ◌∷◌, Option, none, some, is_some, Result, ok, err,
  ltb, ◌==◌, min, length, take, drop, filter, last?, if◌then◌else◌,
}
use sandking.Runs.Types.{Run, Event}

pub data ObserveMode : Type 0 where
  snapshot resume resync_required : ObserveMode

pub data ResyncReason : Type 0 where
  cursor_incompatible history_gap : ResyncReason

-- What `observe` answers of a run; the members that it copies from the run are left out.
pub record Observed : Type 0 where
  pub mode : ObserveMode
  pub reason : Option ResyncReason
  pub available_from_sequence : ℕ
  pub events : List Event
  pub next_sequence : ℕ

abbrev pub sequence_or_zero : Option Event → ℕ
sequence_or_zero none = 0
sequence_or_zero (some e) = e.sequence

abbrev pub first? : List Event → Option Event
first? [] = none
first? (e ∷ es) = some e

abbrev pub later_than : ℕ → List Event → List Event
later_than after = filter (λ e. ltb after e.sequence)

-- The first event behind the cursor is not the next one.
abbrev pub skips : ℕ → Option Event → Bool
skips after none = false
skips after (some e) = not (e.sequence == after + 1)

unfoldable pub resync_reason : ℕ → List Event → Option ResyncReason
resync_reason after events =
    let maximum = sequence_or_zero (last? events) in
    if ltb maximum after
    then some ResyncReason.cursor_incompatible
    else if ltb 0 after && ltb after maximum && skips after (first? (later_than after events))
    then some ResyncReason.history_gap
    else none

-- `observe` of a run, for a cursor that is a safe integer and not negative.
unfoldable pub observe : ℕ → Run → Observed
unfolding resync_reason
observe after run =
    let reason = resync_reason after run.events in
    record {
      mode =
          if is_some reason
          then ObserveMode.resync_required
          else if after == 0
          then ObserveMode.snapshot
          else ObserveMode.resume;
      reason = reason;
      available_from_sequence = sequence_or_zero (first? run.events);
      events = if is_some reason then run.events else later_than after run.events;
      next_sequence = sequence_or_zero (last? run.events);
    }

pub data LogFailure : Type 0 where
  harness_log_range_invalid : LogFailure

pub record LogRange {ℓ} (A : Type ℓ) : Type ℓ where
  pub start : ℕ
  pub end : ℕ
  pub available_end : ℕ
  pub eof : Bool
  pub bytes : List A

module _ {ℓ} {A : Type ℓ} where
  -- `readLogs`, over the bytes of the log file: the state's `available_end` bounds what is shown.
  unfoldable pub read_logs : ℕ → List A → ℕ → ℕ → Result LogFailure (LogRange A)
  read_logs state_end available offset limit =
      let durable = min state_end (length available) in
      let start = min offset durable in
      let end = min (start + limit) durable in
      if ltb limit 1 || ltb 16384 limit
      then err harness_log_range_invalid
      else ok (record {
        start = start;
        end = end;
        available_end = durable;
        eof = end == durable;
        bytes = drop start (take end available);
      })
