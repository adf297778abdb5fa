-- ===== src/Frames/Examples.antt =====
-- Tests of the frames, and the theorems about them at concrete streams.
use sandking.Base.{◌≡◌, refl, List, [], ◌∷◌, ◌++◌, Option, none, some, ok, err, true}
use sandking.Frames.Bytes.{Bytes, u16_be, u32_be}
use sandking.Frames.Wire.{write_wire_frame, range_error}
use sandking.Frames.Reader.{Reader, pending}
use sandking.Frames.Bulk.{BulkFrame, is_identifier, write_bulk_frame}
use sandking.Frames.Control.{
  Codec, Frame, SentAll, Sent, write_frame, read_frames, read_frames-SentAll,
}

abbrev accept : Bytes → Option Bytes
accept [] = none
accept (c ∷ cs) = some (c ∷ cs)

accept-accept : (j m : Bytes) → accept j ≡ some m → accept m ≡ some m
accept-accept [] m h = cc
accept-accept (c ∷ cs) [] h = cc
accept-accept (c ∷ cs) (d ∷ ds) h = refl

-- A message is its own text, and the schema accepts what is not empty.
abbrev text_codec : Codec
text_codec = record {
  Json = Bytes;
  Message = Bytes;
  parse_json = some;
  stringify = λ m. m;
  safe_parse = accept;
  to_json = λ m. m;
  parse_json-stringify = λ m. refl;
  safe_parse-to_json = accept-accept;
}

abbrev log_frame : BulkFrame
log_frame = record {
  stream_id = b'l' ∷ b'-' ∷ b'1' ∷ [];
  sequence = 7;
  eof = true;
  chunk = 255 ∷ 0 ∷ [];
}

abbrev log_bytes : Bytes
log_bytes = 0 ∷ 0 ∷ 0 ∷ 13 ∷ 2 ∷ 1 ∷ 0 ∷ 3 ∷ 0 ∷ 0 ∷ 0 ∷ 7 ∷ b'l' ∷ b'-' ∷ b'1' ∷ 255 ∷ 0 ∷ []

write_log : write_bulk_frame log_frame ≡ ok log_bytes
unfolding write_bulk_frame write_wire_frame u16_be u32_be is_identifier
write_log = refl

abbrev greeting : Bytes
greeting = b'h' ∷ b'i' ∷ []

abbrev greeting_bytes : Bytes
greeting_bytes = 0 ∷ 0 ∷ 0 ∷ 3 ∷ 1 ∷ b'h' ∷ b'i' ∷ []

write_greeting : write_frame text_codec greeting ≡ ok greeting_bytes
unfolding write_frame write_wire_frame u32_be
write_greeting = refl

-- The two frames, cut in the header of the first and in the body of the second.
abbrev cut : Reader
cut = record {
  buffer = 0 ∷ 0 ∷ [];
  chunks =
      (0 ∷ 3 ∷ 1 ∷ b'h' ∷ b'i' ∷ 0 ∷ 0 ∷ 0 ∷ 13 ∷ 2 ∷ [])
      ∷ (1 ∷ 0 ∷ 3 ∷ 0 ∷ 0 ∷ 0 ∷ 7 ∷ b'l' ∷ b'-' ∷ b'1' ∷ 255 ∷ 0 ∷ [])
      ∷ [];
}

abbrev both : List (Frame text_codec)
both = Frame.control greeting ∷ Frame.bulk log_frame ∷ []

both_sent : SentAll text_codec both (greeting_bytes ++ (log_bytes ++ []))
both_sent =
    SentAll.then_sent (Sent.sent_control {payload = greeting} refl write_greeting)
      (SentAll.then_sent (Sent.sent_bulk write_log) SentAll.none_sent)

read_frames-SentAll_example :
    (s : Reader) × (read_frames text_codec 2 cut ≡ ok (both, s)) × (pending s ≡ [])
read_frames-SentAll_example = read_frames-SentAll text_codec [] cut both_sent refl

-- A sequence number of 2 ^ 32 passes the writer's tests, and then `writeUInt32BE` throws.
write_range : write_bulk_frame (record log_frame { sequence = 4294967296 }) ≡ err range_error
unfolding write_bulk_frame is_identifier
write_range = refl
