-- ===== src/Sessions/Advance.antt =====
-- The output of a session of src/controller-sessions.mjs only grows.
use sandking.Base.{ℕ, ◌≤◌, ◌≡◌, subst, Bool, List, [], ◌∷◌, arith}
use sandking.Frames.Bytes.{Bytes}
use sandking.Sessions.Terminal.{Session}
use sandking.Sessions.Output.{Sends, push_output, push_all, on_data, on_exit, split_output}
use sandking.Sessions.Attach.{Role, writer, reader, take_role, accept_attachment, activate, detach}
use sandking.Sessions.Input.{write, resize}
use sandking.Sessions.Steps.{
  Event, Step, Run, on_output, on_end, on_attach, on_activate, on_write, on_resize, on_detach, done,
  step,
}
use sandking.Sessions.Soundness.{accept_attachment-take_role}

push_all-output_sequence :
    (is_open : ℕ → Bool) (pieces : List Bytes) (s : Session)
    → s.output_sequence ≤ (push_all is_open pieces s).0.output_sequence
unfolding push_all push_output
push_all-output_sequence is_open [] s = omega arith
push_all-output_sequence is_open (bytes ∷ more) s =
    omega (arith, push_all-output_sequence is_open more (push_output is_open bytes s).0)

Step-output_sequence :
    {e : Event} {s s' : Session} {sends : Sends}
    → Step e s s' sends
    → s.output_sequence ≤ s'.output_sequence
unfolding on_data on_exit accept_attachment take_role activate write resize detach
Step-output_sequence (on_output {is_open} {bytes} {s} e) =
    subst (λ p. s.output_sequence ≤ p.0.output_sequence) e
      (push_all-output_sequence is_open (split_output bytes) s)
Step-output_sequence (on_end r e) = ground arith
Step-output_sequence (on_attach {request} {role} {cursor} {s} {s'} e) =
    role_kept role (accept_attachment-take_role request s s' role cursor e).0
  where
    role_kept :
        (role : Role)
        → s' ≡ take_role role request.socket s
        → s.output_sequence ≤ s'.output_sequence
    role_kept writer e' = ground arith
    role_kept reader e' = ground arith
Step-output_sequence (on_activate e) = ground arith
Step-output_sequence (on_write e) = ground arith
Step-output_sequence (on_resize e) = ground arith
Step-output_sequence (on_detach e) = ground arith

pub Run-output_sequence :
    {es : List Event} {s s' : Session} {sends : Sends}
    → Run es s s' sends
    → s.output_sequence ≤ s'.output_sequence
Run-output_sequence done = omega arith
Run-output_sequence (step r rs) = omega (arith, Step-output_sequence r, Run-output_sequence rs)
