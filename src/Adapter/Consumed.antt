-- ===== src/Adapter/Consumed.antt =====
-- What the observer is told of an adapter, whatever the adapter sends.
use sandking.Base.{
  ℕ, suc, ◌≡◌, ◌≤◌, refl, ap, Bool, true, false, not, ◌&&◌, String, List, [], ◌∷◌, ◌++◌, length,
  length-append, arith,
}
use sandking.Runs.Types.{ProgressRecord}
use sandking.Runs.Events.{max_progress_records_per_run}
use sandking.Runs.History.{bit}
use sandking.Adapter.Consume.{
  Binding, Body, Message, Read, Call, Consumer, fresh_consumer, is_published, parent_is_published,
  consume_body, consume_message, consume_frames, terminate_protocol_invalid_adapter, publishable,
}

-- The records that were published, in their order.
pub records : List Call → List ProgressRecord
records [] = []
records (Call.on_ready t ∷ cs) = records cs
records (Call.on_progress r ∷ cs) = r ∷ records cs

pub ready_count : List Call → ℕ
ready_count [] = 0
ready_count (Call.on_ready t ∷ cs) = suc (ready_count cs)
ready_count (Call.on_progress r ∷ cs) = ready_count cs

-- No id appears twice, and every parent appears before its children.
abbrev pub is_forest : List String → List ProgressRecord → Bool
is_forest seen [] = true
is_forest seen (r ∷ rs) =
    not (is_published seen r.record_id)
    && parent_is_published seen r.parent_record_id
    && is_forest (seen ++ r.record_id ∷ []) rs

abbrev pub starts_ready : List Call → Bool
starts_ready (Call.on_progress r ∷ cs) = false
starts_ready _ = true

-- The ids that a list of records adds to those seen.
abbrev pub seen_with : List String → List ProgressRecord → List String
seen_with seen [] = seen
seen_with seen (r ∷ rs) = seen_with (seen ++ r.record_id ∷ []) rs

pub record IsOrderly (c : Consumer) : Type 0 where
  pub published : c.published_progress_record_ids ≡ seen_with [] (records c.calls)
  pub forest : is_forest [] (records c.calls) ≡ true
  pub bounded : length c.published_progress_record_ids ≤ max_progress_records_per_run
  pub ready_once : ready_count c.calls ≡ bit c.adapter_ready_observed
  pub silent_before : c.adapter_ready_observed ≡ false → c.calls ≡ []
  pub ready_first : starts_ready c.calls ≡ true

records-append :
    (cs : List Call) (r : ProgressRecord)
    → records (cs ++ Call.on_progress r ∷ []) ≡ records cs ++ r ∷ []
unfolding records
records-append [] r = refl
records-append (Call.on_ready t ∷ cs) r = records-append cs r
records-append (Call.on_progress x ∷ cs) r = ap (◌∷◌ x) (records-append cs r)

ready_count-append :
    (cs : List Call) (r : ProgressRecord)
    → ready_count (cs ++ Call.on_progress r ∷ []) ≡ ready_count cs
unfolding ready_count
ready_count-append [] r = refl
ready_count-append (Call.on_ready t ∷ cs) r = ap suc (ready_count-append cs r)
ready_count-append (Call.on_progress x ∷ cs) r = ready_count-append cs r

starts_ready-append :
    (cs : List Call) (r : ProgressRecord)
    → starts_ready cs ≡ true
    → ready_count cs ≡ 1
    → starts_ready (cs ++ Call.on_progress r ∷ []) ≡ true
unfolding ready_count
starts_ready-append [] r h one = absurd (omega arith)
starts_ready-append (Call.on_ready t ∷ cs) r h one = refl
starts_ready-append (Call.on_progress x ∷ cs) r h one = h

seen_with-append :
    (seen : List String) (rs : List ProgressRecord) (r : ProgressRecord)
    → seen_with seen (rs ++ r ∷ []) ≡ seen_with seen rs ++ r.record_id ∷ []
seen_with-append seen [] r = refl
seen_with-append seen (x ∷ rs) r = seen_with-append (seen ++ x.record_id ∷ []) rs r

is_forest-append :
    (seen : List String) (rs : List ProgressRecord) (r : ProgressRecord)
    → is_forest seen rs ≡ true
    → is_published (seen_with seen rs) r.record_id ≡ false
    → parent_is_published (seen_with seen rs) r.parent_record_id ≡ true
    → is_forest seen (rs ++ r ∷ []) ≡ true
is_forest-append seen [] r h new parent = ground arith
is_forest-append seen (x ∷ rs) r h new parent =
    ground (arith, is_forest-append (seen ++ x.record_id ∷ []) rs r)

consume_body-IsOrderly :
    (body : Body) (c : Consumer) → IsOrderly c → IsOrderly (consume_body body c)
unfolding consume_body publishable terminate_protocol_invalid_adapter records ready_count
consume_body-IsOrderly Body.harness_run_start c w = ground arith
consume_body-IsOrderly (Body.harness_run_ready t) c w = ground arith
consume_body-IsOrderly (Body.harness_run_terminal e) c w = ground arith
consume_body-IsOrderly (Body.harness_run_progress r) c w = ground (
  arith,
  records-append c.calls r,
  ready_count-append c.calls r,
  starts_ready-append c.calls r,
  seen_with-append [] (records c.calls) r,
  is_forest-append [] (records c.calls) r,
  length-append c.published_progress_record_ids (r.record_id ∷ []),
)

consume_message-IsOrderly :
    (run : Binding) (m : Message) (c : Consumer) → IsOrderly c → IsOrderly (consume_message run m c)
unfolding consume_message terminate_protocol_invalid_adapter
consume_message-IsOrderly run (Message.of_run b body) c w =
    ground (arith, consume_body-IsOrderly body c w)
consume_message-IsOrderly run _ c w = ground arith

-- Whatever an adapter sends, its run becomes ready at most once and before any progress, the published
-- records have distinct ids and published parents, and there are no more of them than the history of a
-- run has room for.
pub consume_frames-IsOrderly :
    (run : Binding) (reads : List Read) (c : Consumer)
    → IsOrderly c
    → IsOrderly (consume_frames run reads c)
unfolding consume_frames terminate_protocol_invalid_adapter
consume_frames-IsOrderly run [] c w = w
consume_frames-IsOrderly run (Read.channel_closed ∷ reads) c w = ground arith
consume_frames-IsOrderly run (Read.frame_failure ∷ reads) c w = ground arith
consume_frames-IsOrderly run (Read.message m ∷ reads) c w =
    consume_frames-IsOrderly run reads (consume_message run m c)
      (consume_message-IsOrderly run m c w)

pub fresh_consumer-IsOrderly : IsOrderly fresh_consumer
unfolding records ready_count
fresh_consumer-IsOrderly = record {
  published = refl;
  forest = refl;
  bounded = omega arith;
  ready_once = refl;
  silent_before = λ h. refl;
  ready_first = refl;
}

-- A violation, a terminal envelope and what was published stay, whatever follows.
pub record Extends (c c' : Consumer) : Type 0 where
  pub still_invalid : c.protocol_invalid ≡ true → c'.protocol_invalid ≡ true
  pub more_terminals : length c.terminal_envelopes ≤ length c'.terminal_envelopes
  pub silent_after : 1 ≤ length c.terminal_envelopes → records c'.calls ≡ records c.calls

records-ready : (cs : List Call) (t : ℕ) → records (cs ++ Call.on_ready t ∷ []) ≡ records cs
unfolding records
records-ready [] t = refl
records-ready (Call.on_ready x ∷ cs) t = records-ready cs t
records-ready (Call.on_progress r ∷ cs) t = ap (◌∷◌ r) (records-ready cs t)

consume_message-Extends :
    (run : Binding) (m : Message) (c : Consumer) → Extends c (consume_message run m c)
unfolding consume_message consume_body publishable terminate_protocol_invalid_adapter
consume_message-Extends run (Message.of_run b Body.harness_run_start) c = ground arith
consume_message-Extends run (Message.of_run b (Body.harness_run_ready t)) c =
    ground (arith, records-ready c.calls t)
consume_message-Extends run (Message.of_run b (Body.harness_run_progress r)) c = ground arith
consume_message-Extends run (Message.of_run b (Body.harness_run_terminal e)) c =
    ground (arith, length-append c.terminal_envelopes (e ∷ []))
consume_message-Extends run _ c = ground arith

-- Once the protocol is violated, it stays so; once a terminal envelope has come, no further progress is
-- published.
pub consume_frames-Extends :
    (run : Binding) (reads : List Read) (c : Consumer) → Extends c (consume_frames run reads c)
unfolding consume_frames terminate_protocol_invalid_adapter
consume_frames-Extends run [] c = ground arith
consume_frames-Extends run (Read.channel_closed ∷ reads) c = ground arith
consume_frames-Extends run (Read.frame_failure ∷ reads) c = ground arith
consume_frames-Extends run (Read.message m ∷ reads) c =
    let one = consume_message-Extends run m c in
    let more = consume_frames-Extends run reads (consume_message run m c) in ground arith
