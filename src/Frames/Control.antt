-- ===== src/Frames/Control.antt =====
-- `writeFrame`, `readProtocolFrame` and `readFrame` of src/protocol.mjs. JSON and the zod schema
-- `controlMessageSchema` are a parameter.
use sandking.Base.{
  ◌≡◌, refl, ◌∙◌, List, [], ◌∷◌, ◌++◌, Option, none, some, Result, ok, err, ◌>>=◌, arith, ◌==◌,
  if◌then◌else◌, ℕ, zero, suc, length,
}
use mathlib.Core.List.{append_assoc}
use sandking.Frames.Bytes.{Bytes}
use sandking.Frames.Wire.{
  ProtocolError, frame_schema_invalid, frame_json_invalid, frame_channel_invalid,
  unexpected_bulk_frame, control_channel, bulk_channel, write_wire_frame,
}
use sandking.Frames.Reader.{Reader, pending, read_wire_frame, read_wire_frame-write_wire_frame}
use sandking.Frames.Bulk.{BulkFrame, write_bulk_frame, decode_bulk, decode_bulk-write_bulk_frame}

-- `JSON` and the schema. A message is what the schema returns; it may hold less than the value that
-- it was read from, and what it returns it accepts again.
pub record Codec : Type 1 where
  pub Json : Type 0
  pub Message : Type 0
  pub parse_json : Bytes → Option Json
  pub stringify : Message → Bytes
  pub safe_parse : Json → Option Message
  pub to_json : Message → Json
  pub parse_json-stringify : (m : Message) → parse_json (stringify m) ≡ some (to_json m)
  pub safe_parse-to_json :
      (j : Json) (m : Message) → safe_parse j ≡ some m → safe_parse (to_json m) ≡ some m

module _ (codec : Codec) where
  open codec use {
    Json, Message, parse_json, stringify, safe_parse, to_json, parse_json-stringify,
    safe_parse-to_json,
  }

  pub data Frame : Type 0 where
    control : Message → Frame
    bulk : BulkFrame → Frame

  unfoldable pub write_frame : Json → Result ProtocolError Bytes
  write_frame payload = elim (safe_parse payload) [
    | none ↦ err frame_schema_invalid
    | some m ↦ write_wire_frame control_channel (stringify m)
  ]

  decode_control : Bytes → Result ProtocolError Frame
  decode_control body = elim (parse_json body) [
    | none ↦ err frame_json_invalid
    | some json ↦ elim (safe_parse json) [
      | none ↦ err frame_schema_invalid
      | some m ↦ ok (control m)
    ]
  ]

  decode_frame : Bytes → Result ProtocolError Frame
  unfolding decode_control
  decode_frame [] = err frame_channel_invalid
  decode_frame (channel ∷ body) =
      if channel == control_channel
      then decode_control body
      else if channel == bulk_channel
      then (decode_bulk body >>= λ f. ok (bulk f))
      else err frame_channel_invalid

  -- What is read, and the reader behind it: a frame that does not decode is consumed too.
  pub read_protocol_frame : Reader → Result ProtocolError (Result ProtocolError Frame × Reader)
  unfolding decode_frame
  read_protocol_frame r = read_wire_frame r >>= λ (frame, s). ok (decode_frame frame, s)

  message_of : Frame → Result ProtocolError Message
  message_of (control m) = ok m
  message_of (bulk f) = err unexpected_bulk_frame

  pub read_frame : Reader → Result ProtocolError (Result ProtocolError Message × Reader)
  unfolding message_of
  read_frame r = read_protocol_frame r >>= λ (frame, s). ok (frame >>= message_of, s)

  -- The bytes that one of the two writers puts on the stream for a frame.
  pub data Sent : Frame → Bytes → Type 0 where
    sent_control :
        {payload : Json} {m : Message} {bytes : Bytes}
        → safe_parse payload ≡ some m
        → write_frame payload ≡ ok bytes
        → Sent (control m) bytes
    sent_bulk :
        {f : BulkFrame} {bytes : Bytes} → write_bulk_frame f ≡ ok bytes → Sent (bulk f) bytes

  -- The bytes of several frames, one behind the other.
  pub data SentAll : List Frame → Bytes → Type 0 where
    none_sent : SentAll [] []
    then_sent :
        {f : Frame} {fs : List Frame} {bytes more : Bytes}
        → Sent f bytes
        → SentAll fs more
        → SentAll (f ∷ fs) (bytes ++ more)

  write_frame_ok :
      (payload : Json) {m : Message} {bytes : Bytes}
      → safe_parse payload ≡ some m
      → write_frame payload ≡ ok bytes
      → write_wire_frame control_channel (stringify m) ≡ ok bytes
  unfolding write_frame
  write_frame_ok payload parsed written = ground arith

  decode_control-stringify :
      (payload : Json) (m : Message)
      → safe_parse payload ≡ some m
      → decode_control (stringify m) ≡ ok (control m)
  unfolding decode_control
  decode_control-stringify payload m parsed =
      ground (arith, parse_json-stringify m, safe_parse-to_json payload m parsed)

  -- A sent frame is a wire frame that decodes to it.
  Sent-wire :
      {f : Frame} {bytes : Bytes}
      → Sent f bytes
      → (channel : ℕ) × (body : Bytes) × (write_wire_frame channel body ≡ ok bytes)
        × (decode_frame (channel ∷ body) ≡ ok f)
  unfolding decode_frame
  Sent-wire (sent_control {payload} {m} parsed written) = (
    control_channel,
    stringify m,
    write_frame_ok payload parsed written,
    decode_control-stringify payload m parsed,
  )
  Sent-wire (sent_bulk {f} written) =
      let (body, wire, decoded) = decode_bulk-write_bulk_frame f written in
      (bulk_channel, body, wire, rw decoded)

  -- One sent frame is read back, however the stream is cut into chunks, and what is behind it stays.
  pub read_protocol_frame-Sent :
      {f : Frame} {bytes : Bytes} (rest : Bytes) (r : Reader)
      → Sent f bytes
      → pending r ≡ bytes ++ rest
      → (s : Reader) × (read_protocol_frame r ≡ ok (ok f, s)) × (pending s ≡ rest)
  unfolding read_protocol_frame
  read_protocol_frame-Sent {bytes = bytes} rest r sent held =
      let (channel, body, wire, decoded) = Sent-wire sent in
      let (s, got, left) = read_wire_frame-write_wire_frame channel body rest bytes r wire held in
      (s, rw (got, decoded) refl, left)

  -- The reader's loop, until it has read as many frames or one fails.
  pub read_frames : ℕ → Reader → Result ProtocolError (List Frame × Reader)
  read_frames zero r = ok ([], r)
  read_frames (suc n) r = read_protocol_frame r >>= λ (frame, s).
      frame >>= λ f. read_frames n s >>= λ (fs, t). ok (f ∷ fs, t)

  -- Whatever frames are sent are read in the same order, whole, with nothing left over.
  pub read_frames-SentAll :
      {fs : List Frame} {bytes : Bytes} (rest : Bytes) (r : Reader)
      → SentAll fs bytes
      → pending r ≡ bytes ++ rest
      → (s : Reader) × (read_frames (length fs) r ≡ ok (fs, s)) × (pending s ≡ rest)
  unfolding read_frames
  read_frames-SentAll rest r none_sent held = (r, refl, held)
  read_frames-SentAll rest r (then_sent {bytes = bytes} {more = more} sent others) held =
      let (s, got, left) =
        read_protocol_frame-Sent (more ++ rest) r sent (held ∙ append_assoc bytes more rest) in
      let (t, rest_got, rest_left) = read_frames-SentAll rest s others left in
      (t, rw (got, rest_got) refl, rest_left)
