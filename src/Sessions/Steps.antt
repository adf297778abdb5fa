-- ===== src/Sessions/Steps.antt =====
-- What can happen to a session of src/controller-sessions.mjs, as a step relation: the callbacks of its
-- terminal and the calls of the sockets that succeed; a call that throws changes nothing.
use sandking.Base.{ℕ, ◌≡◌, Bool, true, List, [], ◌∷◌, ◌++◌, Option, some, ok}
use sandking.Frames.Bytes.{Bytes}
use sandking.Sessions.Terminal.{Session, ExitReason}
use sandking.Sessions.Output.{Sends, on_data, on_exit}
use sandking.Sessions.Attach.{AttachRequest, Role, Attachment, accept_attachment, activate, detach}
use sandking.Sessions.Input.{WriteRequest, write, ResizeRequest, resize}

-- An output of the terminal comes with the sockets that are open at its time.
pub data Event : Type 0 where
  output : (ℕ → Bool) → Bytes → Event
  exit : (ℕ → Bool) → Option ExitReason → Bool → ℕ → Event
  attachment : AttachRequest → Event
  activation : Attachment → Event
  input : WriteRequest → Event
  resizing : Bool → ResizeRequest → Event
  leaving : ℕ → Event

-- A terminal exits once.
pub data Step : Event → Session → Session → Sends → Type 0 where
  on_output :
      {is_open : ℕ → Bool} {bytes : Bytes} {s s' : Session} {sends : Sends}
      → on_data is_open bytes s ≡ (s', sends)
      → Step (output is_open bytes) s s' sends
  on_end :
      {is_open : ℕ → Bool} {reported : Option ExitReason} {signalled : Bool} {exit_code : ℕ}
      {s s' : Session} {sends : Sends}
      → s.running ≡ true
      → on_exit is_open reported signalled exit_code s ≡ (s', sends)
      → Step (exit is_open reported signalled exit_code) s s' sends
  on_attach :
      {request : AttachRequest} {role : Role} {cursor : ℕ} {s s' : Session}
      → accept_attachment request (some s) ≡ ok (role, cursor, s')
      → Step (attachment request) s s' []
  on_activate :
      {a : Attachment} {s s' : Session} {sends : Sends}
      → activate a s ≡ some (s', sends)
      → Step (activation a) s s' sends
  on_write :
      {request : WriteRequest} {s s' : Session}
      → write request s ≡ ok s'
      → Step (input request) s s' []
  on_resize :
      {fits : Bool} {request : ResizeRequest} {s s' : Session}
      → resize fits request s ≡ ok s'
      → Step (resizing fits request) s s' []
  on_detach : {k : ℕ} {s s' : Session} → detach k s ≡ s' → Step (leaving k) s s' []

-- The events, one behind the other, and all that they send.
pub data Run : List Event → Session → Session → Sends → Type 0 where
  done : {s : Session} → Run [] s s []
  step :
      {e : Event} {es : List Event} {s s' s'' : Session} {sends later : Sends}
      → Step e s s' sends
      → Run es s' s'' later
      → Run (e ∷ es) s s'' (sends ++ later)
