-- ===== src/Frames/Reader.antt =====
-- `fillBuffer` and the first half of `readProtocolFrame` of src/protocol.mjs: from chunks to frames.
use mathlib.Core.List.{append_assoc}
use sandking.Base.{
  ℕ, ◌+◌, ◌≤◌, ◌<◌, ◌≡◌, refl, sym, ap, ◌∙◌, inl, inr, ◌||◌, List, [], ◌∷◌, ◌++◌, Result, ok, err,
  ◌>>=◌, arith, ltb, length, length-append, take, drop, take-append, drop-append, take-append-le,
  drop-append-le, length-drop, if◌then◌else◌, Bool-cases,
}
use sandking.Frames.Bytes.{
  Bytes, u32_be, read_u32_be, read_u32_be-u32_be, read_u32_be-append, length-u32_be,
}
use sandking.Frames.Wire.{
  ProtocolError, frame_truncated, frame_size_invalid, max_frame_bytes, write_wire_frame,
  write_wire_frame_ok,
}

-- `readerStates` keeps this for each stream; `chunks` is what the iterator will deliver.
pub record Reader : Type 0 where
  pub buffer : Bytes
  pub chunks : List Bytes

abbrev pub concat : List Bytes → Bytes
concat [] = []
concat (c ∷ cs) = c ++ concat cs

-- Every byte that the reader has not yet handed out.
abbrev pub pending : Reader → Bytes
pending r = r.buffer ++ concat r.chunks

abbrev pub frame_header_bytes : ℕ
frame_header_bytes = 4

-- The loop of `fillBuffer`, over what the iterator delivers.
fill_from : ℕ → Bytes → List Bytes → Result ProtocolError Reader
fill_from count buffer [] =
    if ltb (length buffer) count
    then err frame_truncated
    else ok (record { buffer = buffer; chunks = [] })
fill_from count buffer (chunk ∷ chunks) =
    if ltb (length buffer) count
    then fill_from count (buffer ++ chunk) chunks
    else ok (record { buffer = buffer; chunks = chunk ∷ chunks })

unfoldable pub fill_buffer : ℕ → Reader → Result ProtocolError Reader
unfolding fill_from
fill_buffer count r = fill_from count r.buffer r.chunks

-- The frame's bytes without the header, and the reader behind them.
split_frame : ℕ → Reader → Bytes × Reader
split_frame n r = (
  take n (drop frame_header_bytes r.buffer),
  record r { buffer = drop (frame_header_bytes + n) r.buffer },
)

take_frame : ℕ → Reader → Result ProtocolError (Bytes × Reader)
unfolding split_frame
take_frame n r =
    if ltb n 1 || ltb max_frame_bytes n
    then err frame_size_invalid
    else (fill_buffer (frame_header_bytes + n) r >>= λ filled. ok (split_frame n filled))

unfoldable pub read_wire_frame : Reader → Result ProtocolError (Bytes × Reader)
unfolding take_frame
read_wire_frame r =
    fill_buffer frame_header_bytes r >>= λ filled. take_frame (read_u32_be filled.buffer) filled

abbrev Filled : ℕ → Bytes → Result ProtocolError Reader → Type 0
Filled count bytes result =
    (r : Reader) × (result ≡ ok r) × (pending r ≡ bytes) × (count ≤ length r.buffer)

fill_from-ok :
    (count : ℕ) (buffer : Bytes) (chunks : List Bytes)
    → count ≤ length (buffer ++ concat chunks)
    → Filled count (buffer ++ concat chunks) (fill_from count buffer chunks)
unfolding fill_from
fill_from-ok count buffer [] h = (
  record { buffer = buffer; chunks = [] },
  ground (arith, length-append buffer []),
  refl,
  omega (arith, length-append buffer []),
)
fill_from-ok count buffer (chunk ∷ chunks) h = elim (Bool-cases (ltb (length buffer) count)) [
  | inl short ↦
      rw (short, ← append_assoc buffer chunk (concat chunks))
        (fill_from-ok count (buffer ++ chunk) chunks
          (rw (append_assoc buffer chunk (concat chunks)) h))
  | inr enough ↦
      (record { buffer = buffer; chunks = chunk ∷ chunks }, rw enough, refl, ground arith)
]

fill_from-truncated :
    (count : ℕ) (buffer : Bytes) (chunks : List Bytes)
    → length (buffer ++ concat chunks) < count
    → fill_from count buffer chunks ≡ err frame_truncated
unfolding fill_from
fill_from-truncated count buffer [] h = ground (arith, length-append buffer [])
fill_from-truncated count buffer (chunk ∷ chunks) h =
    elim (Bool-cases (ltb (length buffer) count)) [
      | inl short ↦ rw short (
          fill_from-truncated count (buffer ++ chunk) chunks
            (rw (append_assoc buffer chunk (concat chunks)) h))
      | inr enough ↦ ground (arith, length-append buffer (concat (chunk ∷ chunks)))
    ]

-- With enough bytes to come the buffer is filled, and no byte is lost or moved.
pub fill_buffer_ok :
    (count : ℕ) (r : Reader)
    → count ≤ length (pending r)
    → (s : Reader) × (fill_buffer count r ≡ ok s)
      × (pending s ≡ pending r)
      × (count ≤ length s.buffer)
unfolding fill_buffer
fill_buffer_ok count r h = fill_from-ok count r.buffer r.chunks h

-- With too few bytes to come the reader throws, however they are cut into chunks.
pub fill_buffer_truncated :
    (count : ℕ) (r : Reader)
    → length (pending r) < count
    → fill_buffer count r ≡ err frame_truncated
unfolding fill_buffer
fill_buffer_truncated count r h = fill_from-truncated count r.buffer r.chunks h

abbrev Splits : Bytes → Bytes → Bytes × Reader → Type 0
Splits payload rest (frame, r) = (frame ≡ payload) × (pending r ≡ rest)

split_frame_lem :
    (n : ℕ) (r : Reader) (header payload rest : Bytes)
    → frame_header_bytes + n ≤ length r.buffer
    → length header ≡ frame_header_bytes
    → length payload ≡ n
    → pending r ≡ header ++ (payload ++ rest)
    → Splits payload rest (split_frame n r)
unfolding split_frame
split_frame_lem n r header payload rest enough head size held = (front, back)
  where
    later : Bytes
    later = concat r.chunks

    front : take n (drop 4 r.buffer) ≡ payload
    front =
        sym (take-append-le n (drop 4 r.buffer) later (omega (arith, length-drop 4 r.buffer)))
        ∙ ap (take n) (sym (drop-append-le 4 r.buffer later (omega arith)))
        ∙ ap (λ (b : Bytes). take n (drop 4 b)) held
        ∙ ap (take n) (drop-append header (payload ++ rest) 4 head)
        ∙ take-append payload rest n size

    back : drop (4 + n) r.buffer ++ later ≡ rest
    back =
        sym (drop-append-le (4 + n) r.buffer later enough)
        ∙ ap (drop (4 + n)) (held ∙ sym (append_assoc header payload rest))
        ∙ drop-append (header ++ payload) rest (4 + n) (omega (arith, length-append header payload))

-- With the whole frame in sight, it is taken off and what is behind it stays.
take_frame_lem :
    (n : ℕ) (r : Reader) (header payload rest : Bytes)
    → 1 ≤ n
    → n ≤ max_frame_bytes
    → length header ≡ frame_header_bytes
    → length payload ≡ n
    → pending r ≡ header ++ (payload ++ rest)
    → (s : Reader) × (take_frame n r ≡ ok (payload, s)) × (pending s ≡ rest)
unfolding take_frame
take_frame_lem n r header payload rest pos fits head size held =
    let (s, filled, same, enough) = fill_buffer_ok (frame_header_bytes + n) r (
      omega (
        arith,
        ap length held,
        length-append header (payload ++ rest),
        length-append payload rest,
      )) in
    let (front, back) = split_frame_lem n s header payload rest enough head size (same ∙ held) in
    ((split_frame n s).1, unfold split_frame in ground (arith, filled, front), back)

-- One frame on the wire, cut into chunks in any way, is read back, and the rest stays.
pub read_wire_frame-write_wire_frame :
    (channel : ℕ) (body rest bytes : Bytes) (r : Reader)
    → write_wire_frame channel body ≡ ok bytes
    → pending r ≡ bytes ++ rest
    → (s : Reader) × (read_wire_frame r ≡ ok (channel ∷ body, s)) × (pending s ≡ rest)
unfolding read_wire_frame
read_wire_frame-write_wire_frame channel body rest bytes r written held =
    let n = length body + 1 in
    let (shape, fits) = write_wire_frame_ok channel body written in
    let whole : pending r ≡ u32_be n ++ ((channel ∷ body) ++ rest) =
      held ∙ ap (λ (b : Bytes). b ++ rest) shape ∙ append_assoc (u32_be n) (channel ∷ body) rest in
    let (s, filled, same, enough) = fill_buffer_ok frame_header_bytes r (
      omega (
        arith,
        ap length whole,
        length-append (u32_be n) ((channel ∷ body) ++ rest),
        length-u32_be n,
      )) in
    let number : read_u32_be s.buffer ≡ n =
      sym (read_u32_be-append s.buffer (concat s.chunks) enough)
      ∙ ap read_u32_be (same ∙ whole)
      ∙ read_u32_be-u32_be n ((channel ∷ body) ++ rest) in
    rw (filled, number)
      (take_frame_lem n s (u32_be n) (channel ∷ body) rest (omega arith) fits (length-u32_be n)
        (omega arith) (same ∙ whole))
