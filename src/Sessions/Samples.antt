-- ===== src/Sessions/Samples.antt =====
-- A session with one writer, for the examples of src/controller-sessions.mjs.
use sandking.Base.{ℕ, Bool, true, false, [], ◌∷◌, Option, none, some, Result, ok, err, String}
use sandking.Frames.Bytes.{Bytes}
use sandking.Sessions.Terminal.{Session, open_session}
use sandking.Sessions.Output.{Sends, on_data, on_exit}
use sandking.Sessions.Attach.{
  AttachRequest, Mode, Attachment, Role, accept_attachment, stage_attachment, activate,
}
use sandking.Sessions.Input.{WriteRequest, write, ResizeRequest, resize}

abbrev pub session_name : String
session_name = "controller-session-1"

abbrev pub stream_name : String
stream_name = "stream-1"

abbrev pub attachment_name : String
attachment_name = "attachment-1"

abbrev pub opened : Session
opened = open_session session_name stream_name attachment_name 80 24

abbrev pub all_open : ℕ → Bool
all_open k = true

-- What a step of the examples leaves.
abbrev pub session_of : Session × Sends → Session
session_of p = p.0

abbrev pub value_or {ℓ} : {A : Type ℓ} → A → Option A → A
value_or d none = d
value_or d (some a) = a

abbrev pub ok_or {ℓ} : {A : Type ℓ} {E : Type 0} → A → Result E A → A
ok_or d (err e) = d
ok_or d (ok a) = a

abbrev pub attaches : AttachRequest
attaches = record {
  socket = 7;
  session_id = session_name;
  stream_id = stream_name;
  attachment_id = attachment_name;
  mode = some Mode.read_write;
  output_cursor = some 0;
}

abbrev pub watches : AttachRequest
watches = record attaches { socket = 8; mode = some Mode.read_only }

abbrev pub types : WriteRequest
types = record { socket = 7; sequence = 0; eof = false; bytes = 108 ∷ 115 ∷ []; utf8 = "ls" }

abbrev pub enters : WriteRequest
enters = record types { sequence = 1; bytes = 13 ∷ []; utf8 = "\r" }

abbrev pub resizes : ResizeRequest
resizes = record {
  socket = 7;
  stream_id = stream_name;
  attachment_id = attachment_name;
  sequence = some 0;
  columns = some 120;
  rows = some 40;
}

-- The terminal greets, a socket attaches, the terminal goes on, and the socket is activated.
abbrev pub greeting : Bytes
greeting = 104 ∷ 105 ∷ []

abbrev pub greeted : Session
greeted = (on_data all_open greeting opened).0

abbrev pub accepted : Session
accepted = (ok_or (Role.writer, 0, opened) (accept_attachment attaches (some greeted))).2

abbrev pub replayed : Attachment
replayed = stage_attachment 7 Role.writer 0 accepted

abbrev pub prompted : Session
prompted = (on_data all_open (36 ∷ []) accepted).0

abbrev pub activated : Session × Sends
activated = value_or (opened, []) (activate replayed prompted)

abbrev pub watched : Session
watched = (ok_or (Role.writer, 0, opened) (accept_attachment watches (some activated.0))).2

abbrev pub typed : Session
typed = ok_or opened (write types watched)

abbrev pub entered : Session
entered = ok_or opened (write enters typed)

abbrev pub resized : Session
resized = ok_or opened (resize true resizes entered)

abbrev pub listed : Session × Sends
listed = on_data all_open (97 ∷ 98 ∷ []) resized

abbrev pub ended : Session × Sends
ended = on_exit all_open none false 0 listed.0
