-- ===== src/Sessions/Output.antt =====
-- The callbacks `onData` and `onExit` of a session's terminal in src/controller-sessions.mjs.
use sandking.Base.{
  has, ℕ, zero, suc, ◌+◌, ◌==◌, Bool, true, false, ◌&&◌, List, [], ◌∷◌, ◌++◌, Option, none, some,
  ltb, length, take, drop, if◌then◌else◌,
}
use sandking.Frames.Bytes.{Bytes}
use sandking.Sessions.Terminal.{
  Session, Frame, ExitReason, runtime_terminated, provider_session_completed,
  provider_process_exit_unclassified,
}

abbrev pub max_frame_size : ℕ
max_frame_size = 16384

abbrev pub max_buffered_frames : ℕ
max_buffered_frames = 256

-- What one event sends: a frame to a socket.
abbrev pub Sends : Type 0
Sends = List (ℕ × Frame)

-- The chunks of the loop in `onData`; as many rounds as there are bytes are enough.
unfoldable pub split_rounds : ℕ → Bytes → List Bytes
split_rounds zero bytes = []
split_rounds (suc n) [] = []
split_rounds (suc n) (b ∷ bytes) =
    take max_frame_size (b ∷ bytes) ∷ split_rounds n (drop max_frame_size (b ∷ bytes))

unfoldable pub split_output : Bytes → List Bytes
unfolding split_rounds
split_output bytes = split_rounds (length bytes) bytes

unfoldable pub to_writable : (ℕ → Bool) → Frame → Option ℕ → Bool → Sends
to_writable is_open frame none has_output = []
to_writable is_open frame (some k) has_output =
    if is_open k && has_output then (k, frame) ∷ [] else []

unfoldable pub to_readers : (ℕ → Bool) → Frame → List ℕ → List ℕ → Sends
to_readers is_open frame handlers [] = []
to_readers is_open frame handlers (k ∷ ks) =
    let rest = to_readers is_open frame handlers ks in
    if is_open k && has k handlers then (k, frame) ∷ rest else rest

-- The writable socket first, then the read-only ones, each if it is open and has its callback.
unfoldable pub deliver : (ℕ → Bool) → Frame → Session → Sends
unfolding to_writable to_readers
deliver is_open frame s =
    to_writable is_open frame s.writable_socket s.has_output
    ++ to_readers is_open frame s.output_handlers s.read_only_sockets

-- `shift` past 256 frames.
abbrev pub shift_past : List Frame → List Frame
shift_past frames = if ltb max_buffered_frames (length frames) then drop 1 frames else frames

-- One round of the loop in `onData`.
unfoldable pub push_output : (ℕ → Bool) → Bytes → Session → Session × Sends
unfolding deliver
push_output is_open bytes s =
    let frame : Frame = record { sequence = s.output_sequence; eof = false; bytes = bytes } in
    let s' : Session = record s {
      output_sequence = s.output_sequence + 1;
      buffered_frames = shift_past (s.buffered_frames ++ frame ∷ []);
    } in
    (s', deliver is_open frame s')

unfoldable pub push_all : (ℕ → Bool) → List Bytes → Session → Session × Sends
unfolding push_output
push_all is_open [] s = (s, [])
push_all is_open (bytes ∷ more) s =
    let (s', sends) = push_output is_open bytes s in
    let (s'', later) = push_all is_open more s' in (s'', sends ++ later)

-- `onData`, on the bytes of the text.
unfoldable pub on_data : (ℕ → Bool) → Bytes → Session → Session × Sends
unfolding push_all split_output
on_data is_open bytes s = push_all is_open (split_output bytes) s

exit_reason_of : Option ExitReason → Bool → ℕ → ExitReason
exit_reason_of (some reason) signalled exit_code = reason
exit_reason_of none signalled exit_code =
    if signalled
    then runtime_terminated
    else if exit_code == 0
    then provider_session_completed
    else provider_process_exit_unclassified

-- `onExit`: the end of the stream is a frame of its own, and does not shift the buffer.
unfoldable pub on_exit : (ℕ → Bool) → Option ExitReason → Bool → ℕ → Session → Session × Sends
unfolding deliver exit_reason_of
on_exit is_open reported signalled exit_code s =
    let frame : Frame = record { sequence = s.output_sequence; eof = true; bytes = [] } in
    let s' : Session = record s {
      running = false;
      exit_reason = some (exit_reason_of reported signalled exit_code);
      output_sequence = s.output_sequence + 1;
      buffered_frames = s.buffered_frames ++ frame ∷ [];
    } in
    (s', deliver is_open frame s')
