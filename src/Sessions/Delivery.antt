-- ===== src/Sessions/Delivery.antt =====
-- The attachments of src/controller-sessions.mjs from their replay on: nothing is lost or sent twice.
use sandking.Base.{
  ℕ, ◌-◌, ◌≤◌, ◌≡◌, sym, ◌∙◌, subst, true, List, ◌++◌, some, length, length-drop, drop, arith,
}
use sandking.Sessions.Terminal.{Session, Frame}
use sandking.Sessions.Output.{Sends}
use sandking.Sessions.Attach.{
  Role, Attachment, activate, from_sequence, stage_attachment, first_sequence, max,
}
use sandking.Sessions.Numbering.{
  is_numbered, is_numbered-drop, is_numbered-first_sequence, from_sequence-drop,
  is_numbered-behind_last,
}
use sandking.Sessions.Attached.{has-add_same}
use sandking.Sessions.Delivered.{received, received-append, received-map, is_active}
use sandking.Sessions.Steps.{Event, Run, on_activate}
use sandking.Sessions.Soundness.{IsSound, frame_limit, Step-IsSound, Run-IsSound}
use sandking.Sessions.Gapless.{IsGapless, IsGapless-append, IsServed}
use sandking.Sessions.Served.{undisturbed, Run-IsServed}
use sandking.Sessions.Buffered.{IsBuffered}
use sandking.Sessions.Advance.{Run-output_sequence}

IsBuffered-first_sequence :
    (limit next : ℕ) (frames : List Frame)
    → IsBuffered limit next frames
    → first_sequence frames next ≡ next - length frames
IsBuffered-first_sequence limit next frames b =
    subst (λ n. first_sequence frames n ≡ next - length frames) (omega (arith, b.counted))
      (is_numbered-first_sequence (next - length frames) frames b.in_order)

-- From a buffered sequence number on, the buffer goes on to the end of the output.
from_sequence-IsGapless :
    (c limit next : ℕ) (frames : List Frame)
    → IsBuffered limit next frames
    → first_sequence frames next ≤ c
    → c ≤ next
    → IsGapless c next (from_sequence c frames)
from_sequence-IsGapless c limit next frames b low high = subst (IsGapless c next) (sym cut) record {
  in_order =
      subst (λ n. is_numbered n (drop (c - first) frames) ≡ true) (omega (arith, starts, b.counted))
        (is_numbered-drop (c - first) first frames b.in_order);
  complete = omega (arith, starts, b.counted, length-drop (c - first) frames);
}
  where
    first : ℕ
    first = next - length frames

    starts : first_sequence frames next ≡ first
    starts = IsBuffered-first_sequence limit next frames b

    cut : from_sequence c frames ≡ drop (c - first) frames
    cut =
        subst (λ n. from_sequence n frames ≡ drop (c - first) frames)
          (omega (arith, starts, low, b.counted))
          (from_sequence-drop (c - first) first frames b.in_order)

-- An attachment that is staged replays the output from its cursor to the end.
stage_attachment-IsGapless :
    (k requested : ℕ) (role : Role) (s : Session)
    → IsSound s
    → requested ≤ s.output_sequence
    → IsGapless
        (stage_attachment k role requested s).output_cursor
        s.output_sequence
        (stage_attachment k role requested s).frames
unfolding stage_attachment
stage_attachment-IsGapless k requested role s h le =
    from_sequence-IsGapless (max requested (first_sequence s.buffered_frames s.output_sequence))
      (frame_limit s) s.output_sequence s.buffered_frames h.buffered (ground arith)
      (ground (
        arith,
        IsBuffered-first_sequence (frame_limit s) s.output_sequence s.buffered_frames h.buffered,
      ))

-- What an attachment takes over from the buffer when it is activated is what its replay has not.
stage_attachment-next_output_sequence :
    (k requested : ℕ) (role : Role) (s : Session)
    → IsSound s
    → requested ≤ s.output_sequence
    → (stage_attachment k role requested s).next_output_sequence ≡ s.output_sequence
unfolding stage_attachment
stage_attachment-next_output_sequence k requested role s h le =
    let g = stage_attachment-IsGapless k requested role s h le in
    is_numbered-behind_last _ _ g.in_order ∙ g.complete

activate-IsGapless :
    (a : Attachment) (s s' : Session) (sends : Sends) (c n : ℕ)
    → activate a s ≡ some (s', sends)
    → IsSound s
    → IsGapless c n a.frames
    → a.next_output_sequence ≡ n
    → first_sequence s.buffered_frames s.output_sequence ≤ n
    → n ≤ s.output_sequence
    → IsGapless c s'.output_sequence (received a.socket sends) × (is_active a.socket s' ≡ true)
unfolding activate is_active
activate-IsGapless a s s' sends c n e h g next low high = (
  record {
    in_order = ground (arith, whole.in_order, sent);
    complete = ground (arith, whole.complete, sent);
  },
  ground (arith, has-add_same a.socket s.output_handlers),
)
  where
    replay : List Frame
    replay = a.frames ++ from_sequence a.next_output_sequence s.buffered_frames

    whole : IsGapless c s.output_sequence replay
    whole = IsGapless-append a.frames _ g (
        subst (λ m. IsGapless n s.output_sequence (from_sequence m s.buffered_frames)) (sym next)
          (from_sequence-IsGapless n (frame_limit s) s.output_sequence s.buffered_frames h.buffered
            low high))

    sent : received a.socket sends ≡ replay
    sent = ground (arith, received-map a.socket replay)

-- A socket is attached to a sound session with a cursor that is not ahead of the output, and is
-- activated later, when the frame behind its replay has not left the buffer; after that, it stays open
-- and neither attaches again nor leaves. Then it receives, from the cursor of its attachment to the
-- end of the output, every frame once and in order.
pub stage_attachment-activate :
    (k requested : ℕ) (role : Role) (s s' t t' : Session) (es later : List Event)
    (others replay live : Sends)
    → IsSound s
    → requested ≤ s.output_sequence
    → Run es s s' others
    → first_sequence s'.buffered_frames s'.output_sequence ≤ s.output_sequence
    → activate (stage_attachment k role requested s) s' ≡ some (t, replay)
    → Run later t t' live
    → undisturbed k later ≡ true
    → IsGapless
        (stage_attachment k role requested s).output_cursor
        t'.output_sequence
        (received k (replay ++ live))
stage_attachment-activate k requested role s s' t t' es later others replay live h le r low e r' u =
    subst (IsGapless staged.output_cursor t'.output_sequence) (sym (received-append k replay live))
      (IsGapless-append _ _ replayed.0 served.gapless)
  where
    staged : Attachment
    staged = stage_attachment k role requested s

    sound : IsSound s'
    sound = Run-IsSound r h

    replayed :
        IsGapless staged.output_cursor t.output_sequence (received k replay)
        × (is_active k t ≡ true)
    replayed =
        unfold stage_attachment in
        activate-IsGapless staged s' t replay staged.output_cursor s.output_sequence e sound
          (stage_attachment-IsGapless k requested role s h le)
          (stage_attachment-next_output_sequence k requested role s h le) low
          (Run-output_sequence r)

    served : IsServed k t t' live
    served = Run-IsServed k r' (Step-IsSound (on_activate e) sound) replayed.1 u
