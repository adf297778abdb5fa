-- ===== src/Runs/State.antt =====
-- `stateSchema`, `readState`, `persist` and `updateRun` of src/harness-runs. Audits that reading and
-- writing publish are not part of the state.
use sandking.Base.{
  Bool, true, false, ◌&&◌, String, str_eq, List, [], ◌∷◌, Option, none, some, Result, ok, err,
  ◌>>=◌, leb, length, all, if◌then◌else◌,
}
use sandking.Runs.Types.{Run, Outcome, TerminalEnvelope, Failure, AdapterId, Identity}
use sandking.Runs.Events.{max_retained_run_events}

abbrev pub same_adapter : AdapterId → AdapterId → Bool
same_adapter AdapterId.conformance_adapter AdapterId.conformance_adapter = true
same_adapter AdapterId.sandcastle_adapter AdapterId.sandcastle_adapter = true
same_adapter _ _ = false

abbrev envelope_of : Option Outcome → Option TerminalEnvelope
envelope_of none = none
envelope_of (some o) = o.terminal_envelope

abbrev envelope_agrees : Identity → Option TerminalEnvelope → Bool
envelope_agrees identity none = true
envelope_agrees identity (some e) =
    same_adapter e.adapter_id identity.adapter_id
    && str_eq e.adapter_protocol identity.adapter_protocol

unfoldable pub harness_run_outcome_adapter_identity_agrees : Identity → Option Outcome → Bool
harness_run_outcome_adapter_identity_agrees identity outcome =
    envelope_agrees identity (envelope_of outcome)

-- What `storedRunSchema` asks beyond the types. That the execution snapshot names the run's own adapter
-- is left out: the snapshot is a text here.
unfoldable pub stored_run_accepts : Run → Bool
stored_run_accepts run =
    leb (length run.events) max_retained_run_events
    && harness_run_outcome_adapter_identity_agrees run.identity run.outcome

abbrev pub run_id : Run → String
run_id run = run.identity.harness_run_id

-- `runs.find((candidate) => candidate.harnessRunId === id)`.
unfoldable pub find_run : String → List Run → Option Run
find_run id [] = none
find_run id (run ∷ runs) = if str_eq (run_id run) id then some run else find_run id runs

-- The list after the run that `find_run` returns has been mutated.
unfoldable pub put_run : String → Run → List Run → List Run
put_run id new [] = []
put_run id new (run ∷ runs) =
    if str_eq (run_id run) id then new ∷ runs else run ∷ put_run id new runs

-- `stateSchema.parse` and the write.
unfoldable pub persist : List Run → Result Failure (List Run)
persist runs = if all stored_run_accepts runs then ok runs else err Failure.schema_invalid

unfoldable pub update_run :
    String → (Run → Result Failure Run) → List Run → Result Failure (List Run × Run)
update_run id update runs = elim (find_run id runs) [
  | none ↦ err Failure.harness_run_not_found
  | some run ↦
      update run >>= λ updated. persist (put_run id updated runs) >>= λ stored. ok (stored, updated)
]
