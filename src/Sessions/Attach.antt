-- ===== src/Sessions/Attach.antt =====
-- `attach` and `detach` of src/controller-sessions.mjs. `attach` waits for an audit once, so it is two
-- operations, `accept_attachment` and `stage_attachment`; `activate` is called later.
use sandking.Base.{
  has, add, delete, ℕ, ◌+◌, ◌==◌, Bool, true, false, not, ◌&&◌, String, str_eq, List, [], ◌∷◌, ◌++◌,
  Option, none, some, is_some, leb, last?, map, filter, Result, ok, err, ◌>>=◌, if◌then◌else◌,
}
use sandking.Sessions.Terminal.{
  Session, SessionError, controller_terminal_not_found, controller_terminal_attachment_mode_invalid,
  terminal_write_attachment_conflict, Frame, holds,
}
use sandking.Sessions.Output.{Sends}

-- A mode that is none of the three is none.
pub data Mode : Type 0 where
  read_write read_only read_write_if_available : Mode

-- A cursor that is not a safe integer, or below 0, is none.
pub record AttachRequest : Type 0 where
  pub socket : ℕ
  pub session_id : String
  pub stream_id : String
  pub attachment_id : String
  pub mode : Option Mode
  pub output_cursor : Option ℕ

-- Whether a socket may write.
pub data Role : Type 0 where
  writer reader : Role

pub find_session : String → List Session → Option Session
find_session id [] = none
find_session id (s ∷ ss) = if str_eq s.session_id id then some s else find_session id ss

-- The session to attach to and the cursor.
admit_attachment : AttachRequest → Option Session → Result SessionError (ℕ × Session)
admit_attachment request none = err controller_terminal_not_found
admit_attachment request (some s) = elim request.output_cursor [
  | none ↦ err controller_terminal_not_found
  | some cursor ↦
      if str_eq s.stream_id request.stream_id && str_eq s.attachment_id request.attachment_id
      then ok (cursor, s)
      else err controller_terminal_not_found
]

-- Another socket has the exclusive attachment.
abbrev pub is_taken : ℕ → Session → Bool
is_taken k s = is_some s.writable_socket && not (holds s.writable_socket k)

role_of : Option Mode → ℕ → Session → Result SessionError Role
role_of none k s = err controller_terminal_attachment_mode_invalid
role_of (some read_write) k s =
    if is_taken k s then err terminal_write_attachment_conflict else ok writer
role_of (some read_only) k s = ok reader
role_of (some read_write_if_available) k s = ok (if is_taken k s then reader else writer)

-- The session after a socket has its role: it has no callback until it is activated.
unfoldable pub take_role : Role → ℕ → Session → Session
take_role writer k s = record s {
  writable_socket = some k;
  has_output = false;
  read_only_sockets = delete k s.read_only_sockets;
  output_handlers = delete k s.output_handlers;
}
take_role reader k s = record s {
  writable_socket = if holds s.writable_socket k then none else s.writable_socket;
  has_output = if holds s.writable_socket k then false else s.has_output;
  read_only_sockets = add k s.read_only_sockets;
  output_handlers = delete k s.output_handlers;
}

-- `attach` before it waits.
unfoldable pub accept_attachment :
    AttachRequest → Option Session → Result SessionError (Role × ℕ × Session)
unfolding admit_attachment role_of take_role
accept_attachment request found = admit_attachment request found >>= λ (cursor, s).
    role_of request.mode request.socket s >>= λ role.
    ok (role, cursor, take_role role request.socket s)

pub record Attachment : Type 0 where
  pub socket : ℕ
  pub role : Role
  pub input_sequence : ℕ
  pub resize_sequence : ℕ
  pub output_cursor : ℕ
  pub resynchronized : Bool
  pub frames : List Frame
  pub next_output_sequence : ℕ

abbrev pub first_sequence : List Frame → ℕ → ℕ
first_sequence [] next = next
first_sequence (f ∷ fs) next = f.sequence

abbrev pub behind_last : Option Frame → ℕ → ℕ
behind_last none cursor = cursor
behind_last (some f) cursor = f.sequence + 1

abbrev pub from_sequence : ℕ → List Frame → List Frame
from_sequence n = filter (λ f. leb n f.sequence)

abbrev pub max : ℕ → ℕ → ℕ
max a b = if leb a b then b else a

-- `attach` behind its wait: the replay is what the session has buffered by then.
unfoldable pub stage_attachment : ℕ → Role → ℕ → Session → Attachment
stage_attachment k role requested s =
    let cursor = max requested (first_sequence s.buffered_frames s.output_sequence) in
    let frames = from_sequence cursor s.buffered_frames in
    record {
      socket = k;
      role = role;
      input_sequence = s.expected_input_sequence;
      resize_sequence = s.expected_resize_sequence;
      output_cursor = cursor;
      resynchronized = not (cursor == requested);
      frames = frames;
      next_output_sequence = behind_last (last? frames) cursor;
    }

abbrev still_has : Role → ℕ → Session → Bool
still_has writer k s = holds s.writable_socket k
still_has reader k s = has k s.read_only_sockets

abbrev with_callback : Role → ℕ → Session → Session
with_callback writer k s = record s { has_output = true }
with_callback reader k s = record s { output_handlers = add k s.output_handlers }

-- The first call of `activate`: none where the attachment was superseded.
unfoldable pub activate : Attachment → Session → Option (Session × Sends)
activate a s =
    if still_has a.role a.socket s
    then some (
      with_callback a.role a.socket s,
      map (λ f. (a.socket, f)) (a.frames ++ from_sequence a.next_output_sequence s.buffered_frames),
    )
    else none

-- `detach`, for one of the active sessions.
unfoldable pub detach : ℕ → Session → Session
detach k s = record s {
  writable_socket = if holds s.writable_socket k then none else s.writable_socket;
  has_output = if holds s.writable_socket k then false else s.has_output;
  read_only_sockets = delete k s.read_only_sockets;
  output_handlers = delete k s.output_handlers;
}
