-- ===== src/Sessions/Terminal.antt =====
-- The state that src/controller-sessions.mjs keeps of one active session, `runtimeSession`, and its
-- errors. A socket is told by a number.
use sandking.Base.{ℕ, ◌==◌, Bool, true, false, String, List, [], Option, none, some}
use sandking.Frames.Bytes.{Bytes}

pub data SessionError : Type 0 where
  controller_terminal_not_found controller_terminal_attachment_mode_invalid : SessionError
  terminal_write_attachment_conflict terminal_write_attachment_required : SessionError
  terminal_input_sequence_conflict terminal_resize_attachment_required : SessionError
  terminal_resize_sequence_conflict terminal_resize_dimensions_invalid : SessionError
  provider_pty_resize_failed : SessionError

pub record Frame : Type 0 where
  pub sequence : ℕ
  pub eof : Bool
  pub bytes : Bytes

-- `providerExitReasonSchema`: the codes and sources that the exit of a terminal itself yields, or the
-- reason that the provider has reported.
pub data ExitReason : Type 0 where
  runtime_terminated provider_session_completed provider_process_exit_unclassified : ExitReason
  reported : String → ExitReason

-- `terminal_input` is what the pseudo terminal was given, a text for each `write`. `has_output` tells whether `onOutput` is set:
-- it is the callback of the writable socket. `output_handlers` are the sockets that have one.
pub record Session : Type 0 where
  pub session_id : String
  pub stream_id : String
  pub attachment_id : String
  pub buffered_frames : List Frame
  pub output_sequence : ℕ
  pub expected_input_sequence : ℕ
  pub expected_resize_sequence : ℕ
  pub columns : ℕ
  pub rows : ℕ
  pub writable_socket : Option ℕ
  pub has_output : Bool
  pub read_only_sockets : List ℕ
  pub output_handlers : List ℕ
  pub running : Bool
  pub exit_reason : Option ExitReason
  pub terminal_input : List String

-- A session whose terminal was just started with the size that its provider has prepared.
unfoldable pub open_session : String → String → String → ℕ → ℕ → Session
open_session session_id stream_id attachment_id columns rows = record {
  session_id = session_id;
  stream_id = stream_id;
  attachment_id = attachment_id;
  buffered_frames = [];
  output_sequence = 0;
  expected_input_sequence = 0;
  expected_resize_sequence = 0;
  columns = columns;
  rows = rows;
  writable_socket = none;
  has_output = false;
  read_only_sockets = [];
  output_handlers = [];
  running = true;
  exit_reason = none;
  terminal_input = [];
}

abbrev pub holds : Option ℕ → ℕ → Bool
holds none k = false
holds (some j) k = j == k
