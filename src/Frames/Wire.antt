-- ===== src/Frames/Wire.antt =====
-- `writeWireFrame`, the bounds and the error codes of src/protocol.mjs.
use sandking.Base.{ℕ, ◌+◌, ◌≤◌, ◌≡◌, ◌∷◌, ◌++◌, Result, ok, err, arith, ltb, length, if◌then◌else◌}
use sandking.Frames.Bytes.{Bytes, u32_be}

-- The codes of `ProtocolError`; `range_error` is the `RangeError` that `Buffer` throws when a number
-- does not fit the integer that is written.
pub data ProtocolError : Type 0 where
  frame_truncated frame_size_invalid frame_schema_invalid frame_json_invalid : ProtocolError
  frame_channel_invalid unexpected_bulk_frame : ProtocolError
  bulk_metadata_invalid bulk_chunk_too_large range_error : ProtocolError

abbrev pub max_frame_bytes : ℕ
max_frame_bytes = 65536

abbrev pub max_bulk_chunk_bytes : ℕ
max_bulk_chunk_bytes = 16384

abbrev pub control_channel : ℕ
control_channel = 1

abbrev pub bulk_channel : ℕ
bulk_channel = 2

-- The bytes that are handed to `stream.write`.
unfoldable pub write_wire_frame : ℕ → Bytes → Result ProtocolError Bytes
write_wire_frame channel body =
    if ltb max_frame_bytes (length body + 1)
    then err frame_size_invalid
    else ok (u32_be (length body + 1) ++ channel ∷ body)

-- What is written is the header, the channel and the body, within the bound.
pub write_wire_frame_ok :
    (channel : ℕ) (body : Bytes) {bytes : Bytes}
    → write_wire_frame channel body ≡ ok bytes
    → (bytes ≡ u32_be (length body + 1) ++ channel ∷ body) × (length body + 1 ≤ max_frame_bytes)
unfolding write_wire_frame
write_wire_frame_ok channel body h = (ground arith, ground arith)
