-- ===== src/Adapter/Consume.antt =====
-- `consumeFrames` of src/harness-runs/adapter-supervision.mjs. The parser of frames is not part of it: a
-- read gives a message, the end of the channel or a failure. The observer's calls are what the loop
-- returns; a call that throws ends the loop, as the end of the reads does.
use sandking.Base.{
  ℕ, Bool, true, false, not, ◌&&◌, ◌||◌, String, str_eq, List, [], ◌∷◌, ◌++◌, Option, none, some,
  any, ltb, length, if◌then◌else◌,
}
use sandking.Runs.Types.{ProgressRecord, TerminalEnvelope, AdapterId}
use sandking.Runs.Events.{max_progress_records_per_run}
use sandking.Runs.State.{same_adapter}

-- The members of a message that bind it to a run.
pub record Binding : Type 0 where
  pub harness_run_id : String
  pub adapter_id : AdapterId
  pub adapter_protocol : String

pub data Body : Type 0 where
  harness_run_start : Body
  harness_run_ready : ℕ → Body
  harness_run_progress : ProgressRecord → Body
  harness_run_terminal : TerminalEnvelope → Body

pub data Message : Type 0 where
  harness_adapter_probe harness_launch_prepared harness_launch_failure : Message
  of_run : Binding → Body → Message

pub data Read : Type 0 where
  message : Message → Read
  channel_closed frame_failure : Read

pub data Call : Type 0 where
  on_ready : ℕ → Call
  on_progress : ProgressRecord → Call

-- `terminated` tells whether the adapter was terminated for its protocol.
pub record Consumer : Type 0 where
  pub adapter_ready_observed : Bool
  pub protocol_invalid : Bool
  pub adapter_channel_closed_observed : Bool
  pub published_progress_record_ids : List String
  pub terminal_envelopes : List TerminalEnvelope
  pub terminated : Bool
  pub calls : List Call

abbrev pub fresh_consumer : Consumer
fresh_consumer = record {
  adapter_ready_observed = false;
  protocol_invalid = false;
  adapter_channel_closed_observed = false;
  published_progress_record_ids = [];
  terminal_envelopes = [];
  terminated = false;
  calls = [];
}

-- `terminateProtocolInvalidAdapter`.
unfoldable pub terminate_protocol_invalid_adapter : Consumer → Consumer
terminate_protocol_invalid_adapter c = record c { protocol_invalid = true; terminated = true }

abbrev pub same_binding : Binding → Binding → Bool
same_binding b run =
    str_eq b.harness_run_id run.harness_run_id
    && same_adapter b.adapter_id run.adapter_id
    && str_eq b.adapter_protocol run.adapter_protocol

abbrev pub is_published : List String → String → Bool
is_published ids id = any (λ i. str_eq i id) ids

abbrev pub parent_is_published : List String → Option String → Bool
parent_is_published ids none = true
parent_is_published ids (some id) = is_published ids id

abbrev is_empty {ℓ} : {A : Type ℓ} → List A → Bool
is_empty [] = true
is_empty (x ∷ xs) = false

-- The negation of the five conditions under which a progress record is refused.
unfoldable pub publishable : ProgressRecord → Consumer → Bool
publishable r c =
    c.adapter_ready_observed
    && is_empty c.terminal_envelopes
    && ltb (length c.published_progress_record_ids) max_progress_records_per_run
    && not (is_published c.published_progress_record_ids r.record_id)
    && parent_is_published c.published_progress_record_ids r.parent_record_id

unfoldable pub consume_body : Body → Consumer → Consumer
unfolding terminate_protocol_invalid_adapter publishable
consume_body Body.harness_run_start c = terminate_protocol_invalid_adapter c
consume_body (Body.harness_run_ready ready_at) c =
    if c.adapter_ready_observed
    then terminate_protocol_invalid_adapter c
    else record c { adapter_ready_observed = true; calls = c.calls ++ Call.on_ready ready_at ∷ [] }
consume_body (Body.harness_run_progress r) c =
    if publishable r c
    then record c {
      published_progress_record_ids = c.published_progress_record_ids ++ r.record_id ∷ [];
      calls = c.calls ++ Call.on_progress r ∷ [];
    }
    else terminate_protocol_invalid_adapter c
consume_body (Body.harness_run_terminal e) c = record c {
  protocol_invalid = c.protocol_invalid || not c.adapter_ready_observed;
  terminal_envelopes = c.terminal_envelopes ++ e ∷ [];
}

-- One turn of the loop, for a message.
unfoldable pub consume_message : Binding → Message → Consumer → Consumer
unfolding terminate_protocol_invalid_adapter consume_body
consume_message run (Message.of_run b body) c =
    if same_binding b run then consume_body body c else terminate_protocol_invalid_adapter c
consume_message run _ c = terminate_protocol_invalid_adapter c

-- The loop. The reads end where the next one is still awaited.
unfoldable pub consume_frames : Binding → List Read → Consumer → Consumer
unfolding terminate_protocol_invalid_adapter
consume_frames run [] c = c
consume_frames run (Read.channel_closed ∷ reads) c = record c {
  adapter_channel_closed_observed = true;
}
consume_frames run (Read.frame_failure ∷ reads) c = terminate_protocol_invalid_adapter c
consume_frames run (Read.message m ∷ reads) c = consume_frames run reads (consume_message run m c)
