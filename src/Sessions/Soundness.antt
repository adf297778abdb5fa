-- ===== src/Sessions/Soundness.antt =====
-- The invariant of a session of src/controller-sessions.mjs, whatever happens to it.
use sandking.Base.{
  ℕ, ◌≤◌, ◌≡◌, refl, sym, ap, subst, Bool, true, false, String, ◌&&◌, List, [], ◌∷◌, Option, some,
  leb, length, length-append, ok, if◌then◌else◌, arith,
}
use sandking.Frames.Bytes.{Bytes}
use sandking.Sessions.Terminal.{Session, ExitReason, open_session}
use sandking.Sessions.Numbering.{is_numbered}
use sandking.Sessions.Output.{Sends, push_output, push_all, on_data, on_exit, split_output}
use sandking.Sessions.Attach.{
  Role, writer, reader, is_taken, AttachRequest, Attachment, take_role, accept_attachment, activate,
  detach,
}
use sandking.Sessions.Input.{WriteRequest, write, ResizeRequest, resize}
use sandking.Sessions.Buffered.{IsBuffered, IsBuffered-append, push_output-IsBuffered}
use sandking.Sessions.Attached.{attachments, take_role-attachments, detach-attachments}
use sandking.Sessions.Steps.{
  Event, Step, on_output, on_end, on_attach, on_activate, on_write, on_resize, on_detach, Run, done,
  step,
}

abbrev pub frame_limit : Session → ℕ
frame_limit s = if s.running then 256 else 257

abbrev pub is_sized : Session → Bool
is_sized s = leb 20 s.columns && leb s.columns 500 && leb 5 s.rows && leb s.rows 200

-- The buffer holds the last frames in order and within its limit, the terminal was given as many inputs as
-- were accepted, its size is within the bounds, and no socket is attached twice.
pub record IsSound (s : Session) : Type 0 where
  pub buffered : IsBuffered (frame_limit s) s.output_sequence s.buffered_frames
  pub entered : length s.terminal_input ≡ s.expected_input_sequence
  pub sized : is_sized s ≡ true
  pub once : (k : ℕ) → attachments k s ≤ 1

pub open_session-IsSound :
    (session_id stream_id attachment_id : String) (columns rows : ℕ)
    → is_sized (open_session session_id stream_id attachment_id columns rows) ≡ true
    → IsSound (open_session session_id stream_id attachment_id columns rows)
unfolding open_session attachments is_numbered
open_session-IsSound session_id stream_id attachment_id columns rows h = record {
  buffered = record { counted = omega arith; bounded = omega arith; in_order = refl };
  entered = refl;
  sized = h;
  once = λ k. omega arith;
}

IsBuffered-kept :
    (s s' : Session)
    → IsBuffered (frame_limit s) s.output_sequence s.buffered_frames
    → s'.running ≡ s.running
    → s'.output_sequence ≡ s.output_sequence
    → s'.buffered_frames ≡ s.buffered_frames
    → IsBuffered (frame_limit s') s'.output_sequence s'.buffered_frames
IsBuffered-kept s s' h e e' e'' = record {
  counted = ground (arith, h.counted);
  bounded = ground (arith, h.bounded);
  in_order = ground (arith, h.in_order);
}

pub push_output-IsSound :
    (is_open : ℕ → Bool) (bytes : Bytes) (s : Session)
    → IsSound s
    → IsSound (push_output is_open bytes s).0
unfolding push_output attachments
push_output-IsSound is_open bytes s h = record {
  buffered =
      unfold push_output in
      push_output-IsBuffered is_open bytes s (frame_limit s) (ground arith) h.buffered;
  entered = h.entered;
  sized = h.sized;
  once = h.once;
}

-- The same for every piece of an output.
push_all-IsSound :
    (is_open : ℕ → Bool) (pieces : List Bytes) (s : Session)
    → IsSound s
    → IsSound (push_all is_open pieces s).0
unfolding push_all
push_all-IsSound is_open [] s h = h
push_all-IsSound is_open (bytes ∷ more) s h =
    push_all-IsSound is_open more _ (push_output-IsSound is_open bytes s h)

on_exit-IsSound :
    (is_open : ℕ → Bool) (reported : Option ExitReason) (signalled : Bool) (exit_code : ℕ)
    (s : Session)
    → s.running ≡ true
    → IsSound s
    → IsSound (on_exit is_open reported signalled exit_code s).0
unfolding on_exit attachments
on_exit-IsSound is_open reported signalled exit_code s e h = record {
  buffered =
      IsBuffered-append 256 s.output_sequence s.buffered_frames _ refl
        (subst (λ n. IsBuffered n s.output_sequence s.buffered_frames) (ground arith) h.buffered);
  entered = h.entered;
  sized = h.sized;
  once = h.once;
}

-- The role that a socket is given changes nothing but who is attached.
take_role-IsSound : (role : Role) (k : ℕ) (s : Session) → IsSound s → IsSound (take_role role k s)
unfolding take_role
take_role-IsSound writer k s h = record {
  buffered = h.buffered;
  entered = h.entered;
  sized = h.sized;
  once = λ j. take_role-attachments writer k j s (h.once j);
}
take_role-IsSound reader k s h = record {
  buffered = h.buffered;
  entered = h.entered;
  sized = h.sized;
  once = λ j. take_role-attachments reader k j s (h.once j);
}

-- An attachment that is accepted takes a role that is free.
pub accept_attachment-take_role :
    (request : AttachRequest) (s s' : Session) (role : Role) (cursor : ℕ)
    → accept_attachment request (some s) ≡ ok (role, cursor, s')
    → (s' ≡ take_role role request.socket s)
      × (role ≡ writer → is_taken request.socket s ≡ false)
      × (request.output_cursor ≡ some cursor)
unfolding accept_attachment
accept_attachment-take_role request s s' role cursor e =
    (ground arith, λ r. ground arith, ground arith)

activate-IsSound :
    (a : Attachment) (s s' : Session) (sends : Sends)
    → activate a s ≡ some (s', sends)
    → IsSound s
    → IsSound s'
unfolding activate attachments
activate-IsSound a s s' sends e h = record {
  buffered = IsBuffered-kept s s' h.buffered (ground arith) (ground arith) (ground arith);
  entered = ground (arith, h.entered);
  sized = ground (arith, h.sized);
  once = λ k. ground (arith, h.once k);
}

write-IsSound :
    (request : WriteRequest) (s s' : Session) → write request s ≡ ok s' → IsSound s → IsSound s'
unfolding write attachments
write-IsSound request s s' e h = record {
  buffered = IsBuffered-kept s s' h.buffered (ground arith) (ground arith) (ground arith);
  entered = ground (arith, h.entered, length-append s.terminal_input (request.utf8 ∷ []));
  sized = ground (arith, h.sized);
  once = λ k. ground (arith, h.once k);
}

resize-IsSound :
    (fits : Bool) (request : ResizeRequest) (s s' : Session)
    → resize fits request s ≡ ok s'
    → IsSound s
    → IsSound s'
unfolding resize attachments
resize-IsSound fits request s s' e h = record {
  buffered = IsBuffered-kept s s' h.buffered (ground arith) (ground arith) (ground arith);
  entered = ground (arith, h.entered);
  sized = ground (arith, h.sized);
  once = λ k. ground (arith, h.once k);
}

detach-IsSound : (k : ℕ) (s : Session) → IsSound s → IsSound (detach k s)
unfolding detach
detach-IsSound k s h = record {
  buffered = h.buffered;
  entered = h.entered;
  sized = h.sized;
  once = λ j. detach-attachments k j s (h.once j);
}

pub Step-IsSound :
    {e : Event} {s s' : Session} {sends : Sends} → Step e s s' sends → IsSound s → IsSound s'
unfolding on_data
Step-IsSound (on_output {is_open} {bytes} {s} e) h =
    subst IsSound (ap (λ p. p.0) e) (push_all-IsSound is_open (split_output bytes) s h)
Step-IsSound (on_end {is_open} {reported} {signalled} {exit_code} {s} r e) h =
    subst IsSound (ap (λ p. p.0) e) (on_exit-IsSound is_open reported signalled exit_code s r h)
Step-IsSound (on_attach {request} {role} {cursor} {s} {s'} e) h =
    subst IsSound (sym (accept_attachment-take_role request s s' role cursor e).0)
      (take_role-IsSound role request.socket s h)
Step-IsSound (on_activate {a} {s} {s'} {sends} e) h = activate-IsSound a s s' sends e h
Step-IsSound (on_write {request} {s} {s'} e) h = write-IsSound request s s' e h
Step-IsSound (on_resize {fits} {request} {s} {s'} e) h = resize-IsSound fits request s s' e h
Step-IsSound (on_detach {k} {s} e) h = subst IsSound e (detach-IsSound k s h)

-- Whatever happens to a session, in any order, its invariant is kept.
pub Run-IsSound :
    {es : List Event} {s s' : Session} {sends : Sends} → Run es s s' sends → IsSound s → IsSound s'
Run-IsSound done h = h
Run-IsSound (step r rs) h = Run-IsSound rs (Step-IsSound r h)
