-- ===== src/Sessions/Input.antt =====
-- `write` and `resize` of src/controller-sessions.mjs.
use sandking.Base.{
  ℕ, ◌+◌, ◌==◌, Bool, false, not, ◌&&◌, ◌||◌, String, str_eq, [], ◌∷◌, ◌++◌, Option, none, some,
  leb, Result, ok, err, ◌>>=◌, if◌then◌else◌,
}
use sandking.Frames.Bytes.{Bytes}
use sandking.Sessions.Terminal.{
  Session, SessionError, controller_terminal_not_found, terminal_write_attachment_required,
  terminal_input_sequence_conflict, terminal_resize_attachment_required,
  terminal_resize_sequence_conflict, terminal_resize_dimensions_invalid, provider_pty_resize_failed,
  holds,
}

-- `bytes` are the request's buffer, and `utf8` the answer of its `toString("utf8")`.
pub record WriteRequest : Type 0 where
  pub socket : ℕ
  pub sequence : ℕ
  pub eof : Bool
  pub bytes : Bytes
  pub utf8 : String

-- `write`, for the session of the stream; a stream that has none is answered by false.
unfoldable pub write : WriteRequest → Session → Result SessionError Session
write request s =
    if not (holds s.writable_socket request.socket)
    then err terminal_write_attachment_required
    else if not (request.sequence == s.expected_input_sequence) || request.eof || not s.running
    then err terminal_input_sequence_conflict
    else ok (record s {
      expected_input_sequence = s.expected_input_sequence + 1;
      terminal_input = s.terminal_input ++ request.utf8 ∷ [];
    })

-- A number that is no safe integer, or below 0, is none.
pub record ResizeRequest : Type 0 where
  pub socket : ℕ
  pub stream_id : String
  pub attachment_id : String
  pub sequence : Option ℕ
  pub columns : Option ℕ
  pub rows : Option ℕ

abbrev is_number : Option ℕ → ℕ → Bool
is_number none n = false
is_number (some m) n = m == n

within : ℕ → ℕ → Option ℕ → Option ℕ
within low high none = none
within low high (some n) = if leb low n && leb n high then some n else none

-- Both dimensions within their bounds.
dimensions : ResizeRequest → Result SessionError (ℕ × ℕ)
unfolding within
dimensions request = elim (within 20 500 request.columns) [
  | none ↦ err terminal_resize_dimensions_invalid
  | some columns ↦ elim (within 5 200 request.rows) [
    | none ↦ err terminal_resize_dimensions_invalid
    | some rows ↦ ok (columns, rows)
  ]
]

-- `resize`, for the session of the request; `fits` tells whether the terminal takes the size.
unfoldable pub resize : Bool → ResizeRequest → Session → Result SessionError Session
unfolding dimensions
resize fits request s =
    if not (str_eq s.stream_id request.stream_id)
      || not (str_eq s.attachment_id request.attachment_id)
    then err controller_terminal_not_found
    else if not (holds s.writable_socket request.socket)
    then err terminal_resize_attachment_required
    else if not (is_number request.sequence s.expected_resize_sequence)
    then err terminal_resize_sequence_conflict
    else (dimensions request >>= λ (columns, rows).
        if not s.running
        then err terminal_resize_sequence_conflict
        else if not fits
        then err provider_pty_resize_failed
        else ok (record s {
          expected_resize_sequence = s.expected_resize_sequence + 1;
          columns = columns;
          rows = rows;
        }))
