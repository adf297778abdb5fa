-- ===== src/Adapter/Examples.antt =====
-- Two adapters and a deadline, on which the theorems about them are tried.
use sandking.Base.{◌≡◌, refl, true, false, String, List, [], ◌∷◌, Option, none, some}
use sandking.Runs.Types.{AdapterId, ProgressRecord, TerminalEnvelope, OutcomeStatus}
use sandking.Adapter.Consume.{
  Binding, Body, Message, Read, Call, fresh_consumer, consume_frames, consume_message,
}
use sandking.Adapter.Consumed.{IsOrderly, consume_frames-IsOrderly, fresh_consumer-IsOrderly}
use sandking.Adapter.Deadline.{Escalation, schedule_cancellation_escalation, fire, cancel}
use sandking.Adapter.Armed.{Step, Reaches, IsArmed, Reaches-IsArmed}

abbrev this_run : Binding
this_run = record {
  harness_run_id = "run";
  adapter_id = AdapterId.sandcastle_adapter;
  adapter_protocol = "1.0.0";
}

abbrev progress_of : String → Option String → ProgressRecord
progress_of id parent = record {
  record_id = id;
  record_type = "worker";
  parent_record_id = parent;
  label = "";
  summary = "";
  record_status = "running";
  timestamp = 1;
  payload = "";
}

abbrev says : Body → Read
says body = Read.message (Message.of_run this_run body)

abbrev envelope : TerminalEnvelope
envelope = record {
  terminal_id = "terminal";
  terminal_status = OutcomeStatus.succeeded;
  adapter_id = AdapterId.sandcastle_adapter;
  adapter_protocol = "1.0.0";
  result = none;
}

-- The second record repeats an id.
abbrev reads : List Read
reads =
    says (Body.harness_run_ready 2)
    ∷ says (Body.harness_run_progress (progress_of "a" none))
    ∷ says (Body.harness_run_progress (progress_of "b" (some "a")))
    ∷ says (Body.harness_run_progress (progress_of "a" none))
    ∷ says (Body.harness_run_terminal envelope)
    ∷ Read.channel_closed
    ∷ []

reads-calls :
    (consume_frames this_run reads fresh_consumer).calls
    ≡ Call.on_ready 2
      ∷ Call.on_progress (progress_of "a" none)
      ∷ Call.on_progress (progress_of "b" (some "a"))
      ∷ []
unfolding consume_frames consume_message
reads-calls = refl

reads-invalid : (consume_frames this_run reads fresh_consumer).protocol_invalid ≡ true
unfolding consume_frames consume_message
reads-invalid = refl

consume_frames-IsOrderly_example : IsOrderly (consume_frames this_run reads fresh_consumer)
consume_frames-IsOrderly_example =
    consume_frames-IsOrderly this_run reads fresh_consumer fresh_consumer-IsOrderly

abbrev scheduled : Escalation
scheduled = schedule_cancellation_escalation 10 4

Reaches-IsArmed_example : IsArmed (fire 10 false (fire 9 false scheduled))
Reaches-IsArmed_example =
    Reaches-IsArmed 10 4 (fire 10 false (fire 9 false scheduled)) (
      Reaches.then_step (Reaches.then_step Reaches.here (Step.fires 9 false)) (Step.fires 10 false))

scheduled-cancel : (cancel scheduled).0 ≡ true
unfolding cancel schedule_cancellation_escalation
scheduled-cancel = refl
