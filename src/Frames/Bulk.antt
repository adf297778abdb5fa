-- ===== src/Frames/Bulk.antt =====
-- `writeBulkFrame` and the bulk branch of `readProtocolFrame` of src/protocol.mjs.
use sandking.Base.{
  ℕ, suc, ◌+◌, ◌*◌, ◌/◌, ◌%◌, ◌≤◌, ◌<◌, ◌≡◌, ◌↔◌, refl, sym, ◌∙◌, Bool, true, not, ◌&&◌, ◌||◌, [],
  ◌∷◌, ◌++◌, Result, ok, err, arith, ltb, leb, ◌==◌, length, length-append, take, drop, take-append,
  drop-append, all, if◌then◌else◌,
}
use sandking.Frames.Bytes.{Bytes, u16_be, u32_be, read_u16_be, read_u32_be}
use sandking.Frames.Wire.{
  ProtocolError, bulk_metadata_invalid, bulk_chunk_too_large, range_error, max_bulk_chunk_bytes,
  max_frame_bytes, bulk_channel, write_wire_frame,
}

-- A stream id is the list of its characters: where the schema accepts it they are its bytes.
pub record BulkFrame : Type 0 where
  pub stream_id : Bytes
  pub sequence : ℕ
  pub eof : Bool
  pub chunk : Bytes

abbrev is_identifier_char : ℕ → Bool
is_identifier_char c =
    (leb b'a' c && leb c b'z')
    || (leb b'A' c && leb c b'Z')
    || (leb b'0' c && leb c b'9')
    || c == b'.'
    || c == b'_'
    || c == b':'
    || c == b'-'

-- `identifierSchema`: between 1 and 128 characters, each of `[a-zA-Z0-9._:-]`.
unfoldable pub is_identifier : Bytes → Bool
is_identifier s = leb 1 (length s) && leb (length s) 128 && all is_identifier_char s

abbrev bulk_metadata_bytes : ℕ
bulk_metadata_bytes = 7

-- `Number.isSafeInteger`, on a number that is not negative.
abbrev pub is_safe_integer : ℕ → Bool
is_safe_integer n = leb n 9007199254740991

bulk_metadata : BulkFrame → Bytes
bulk_metadata f = (if f.eof then 1 else 0) ∷ (u16_be (length f.stream_id) ++ u32_be f.sequence)

unfoldable pub write_bulk_frame : BulkFrame → Result ProtocolError Bytes
unfolding bulk_metadata
write_bulk_frame f =
    if not (is_identifier f.stream_id) || not (is_safe_integer f.sequence)
    then err bulk_metadata_invalid
    else if ltb max_bulk_chunk_bytes (length f.chunk)
    then err bulk_chunk_too_large
    else if ltb 255 (length f.stream_id)
    then err bulk_metadata_invalid
    else if leb 4294967296 f.sequence
    then err range_error
    else write_wire_frame bulk_channel (bulk_metadata f ++ (f.stream_id ++ f.chunk))

-- The two tests behind the stream id.
bulk_of_parts : ℕ → ℕ → Bytes → Bytes → Result ProtocolError BulkFrame
bulk_of_parts flags sequence stream_id chunk =
    if not (is_identifier stream_id)
    then err bulk_metadata_invalid
    else if ltb max_bulk_chunk_bytes (length chunk)
    then err bulk_chunk_too_large
    else ok
        (record { stream_id = stream_id; sequence = sequence; eof = flags % 2 == 1; chunk = chunk })

-- `readUInt8(0)`; the callers have checked that the byte is there.
abbrev read_u8 : Bytes → ℕ
read_u8 [] = 0
read_u8 (b ∷ rest) = b

-- The branch for the bulk channel, on the bytes behind the channel. `flags & ~1` is not 0 for a byte
-- above 1.
unfoldable pub decode_bulk : Bytes → Result ProtocolError BulkFrame
unfolding bulk_of_parts
decode_bulk body =
    let flags = read_u8 body in
    let stream_id_length = read_u16_be (drop 1 body) in
    let sequence = read_u32_be (drop 3 body) in
    let data_offset = bulk_metadata_bytes + stream_id_length in
    if ltb (length body) bulk_metadata_bytes
    then err bulk_metadata_invalid
    else if ltb 1 flags || ltb (length body) data_offset
    then err bulk_metadata_invalid
    else bulk_of_parts flags sequence (take stream_id_length (drop bulk_metadata_bytes body))
        (drop data_offset body)

-- What the writer accepts.
pub record IsWritable (f : BulkFrame) : Type 0 where
  pub identifier : is_identifier f.stream_id ≡ true
  pub sequence_fits : f.sequence < 4294967296
  pub chunk_fits : length f.chunk ≤ max_bulk_chunk_bytes

decode_bulk_parts :
    (b : Bool) (n : ℕ) (sequence : ℕ) (stream_id chunk : Bytes)
    → length stream_id ≡ n
    → decode_bulk ((if b then 1 else 0) ∷ (u16_be n ++ u32_be sequence) ++ (stream_id ++ chunk))
      ≡ bulk_of_parts (if b then 1 else 0) sequence stream_id chunk
unfolding decode_bulk u16_be u32_be read_u16_be read_u32_be
decode_bulk_parts b n sequence stream_id chunk h =
    let q : n / 256 * 256 + n % 256 ≡ n = omega arith in
    let s : sequence / 16777216 * 16777216
          + sequence / 65536 % 256 * 65536
          + sequence / 256 % 256 * 256
          + sequence % 256
        ≡ sequence =
      omega arith in
    let e : 7 + n ≡ suc (suc (suc (suc (suc (suc (suc n)))))) = omega arith in
    rw (q, s, e, take-append stream_id chunk n h, drop-append stream_id chunk n h)
      (ground (arith, length-append stream_id chunk))

is_identifier-length : (s : Bytes) → is_identifier s ≡ true → length s ≤ 128
unfolding is_identifier
is_identifier-length s h = ground arith

bulk_body : BulkFrame → Bytes
unfolding bulk_metadata
bulk_body f = bulk_metadata f ++ (f.stream_id ++ f.chunk)

length-bulk_body : (f : BulkFrame) → length (bulk_body f) ≡ 7 + length f.stream_id + length f.chunk
unfolding bulk_body u16_be u32_be
length-bulk_body f = omega (arith, length-append f.stream_id f.chunk)

-- A writable frame passes every test of the writer, the size of the frame among them.
write_bulk_frame_ok :
    (f : BulkFrame)
    → IsWritable f
    → write_bulk_frame f ≡ write_wire_frame bulk_channel (bulk_body f)
unfolding write_bulk_frame bulk_body
write_bulk_frame_ok f w = ground (arith, is_identifier-length f.stream_id)

write_bulk_frame-IsWritable :
    (f : BulkFrame) {bytes : Bytes} → write_bulk_frame f ≡ ok bytes → IsWritable f
unfolding write_bulk_frame
write_bulk_frame-IsWritable f h = ground arith

write_wire_frame_fits :
    (channel : ℕ) (body : Bytes)
    → length body < max_frame_bytes
    → write_wire_frame channel body ≡ ok (u32_be (length body + 1) ++ channel ∷ body)
unfolding write_wire_frame
write_wire_frame_fits channel body h = ground arith

-- The writer succeeds exactly on the writable frames: its other tests never decide.
pub write_bulk_frame_iff :
    (f : BulkFrame) → ((bytes : Bytes) × (write_bulk_frame f ≡ ok bytes)) ↔ IsWritable f
write_bulk_frame_iff f = (λ h. write_bulk_frame-IsWritable f h.1, back)
  where
    back : IsWritable f → (bytes : Bytes) × (write_bulk_frame f ≡ ok bytes)
    back w = (
      u32_be (length (bulk_body f) + 1) ++ bulk_channel ∷ bulk_body f,
      write_bulk_frame_ok f w
          ∙ write_wire_frame_fits bulk_channel (bulk_body f) (
              omega (
                arith,
                length-bulk_body f,
                is_identifier-length f.stream_id w.identifier,
                w.chunk_fits,
              )),
    )

bulk_of_parts_ok :
    (f : BulkFrame)
    → IsWritable f
    → bulk_of_parts (if f.eof then 1 else 0) f.sequence f.stream_id f.chunk ≡ ok f
unfolding bulk_of_parts
bulk_of_parts_ok f w = ground arith

decode_bulk-bulk_body : (f : BulkFrame) → IsWritable f → decode_bulk (bulk_body f) ≡ ok f
unfolding bulk_body
decode_bulk-bulk_body f w =
    decode_bulk_parts f.eof (length f.stream_id) f.sequence f.stream_id f.chunk refl
    ∙ bulk_of_parts_ok f w

-- What the writer has written is decoded to the frame that was given.
pub decode_bulk-write_bulk_frame :
    (f : BulkFrame) {bytes : Bytes}
    → write_bulk_frame f ≡ ok bytes
    → (body : Bytes) × (write_wire_frame bulk_channel body ≡ ok bytes) × (decode_bulk body ≡ ok f)
decode_bulk-write_bulk_frame f h =
    let w = write_bulk_frame-IsWritable f h in
    (bulk_body f, sym (write_bulk_frame_ok f w) ∙ h, decode_bulk-bulk_body f w)
