-- ===== src/Sessions/Served.antt =====
-- A socket of src/controller-sessions.mjs is served until it asks for something else or leaves.
use sandking.Base.{
  ℕ, ◌==◌, ◌≡◌, refl, sym, subst, Bool, true, false, not, List, [], ◌∷◌, ◌++◌, some, all, map,
  arith, ok,
}
use sandking.Sessions.Terminal.{Session, Frame}
use sandking.Sessions.Output.{Sends, on_data, split_output}
use sandking.Sessions.Attach.{
  Role, writer, reader, Attachment, take_role, is_taken, activate, detach, from_sequence,
}
use sandking.Sessions.Input.{WriteRequest, write, ResizeRequest, resize}
use sandking.Sessions.Attached.{has-delete, has-add}
use sandking.Sessions.Delivered.{received, is_active}
use sandking.Sessions.Steps.{
  Event, Step, Run, output, exit, attachment, activation, input, resizing, leaving, on_output,
  on_end, on_attach, on_activate, on_write, on_resize, on_detach, done, step,
}
use sandking.Sessions.Soundness.{IsSound, Step-IsSound, accept_attachment-take_role}
use sandking.Sessions.Gapless.{
  IsServed, IsServed-idle, IsServed-append, push_all-IsServed, on_exit-IsServed,
}

-- The socket asks for something else, leaves, or is closed while the terminal has output.
unfoldable pub disturbs : ℕ → Event → Bool
disturbs k (output is_open bytes) = not (is_open k)
disturbs k (exit is_open reported signalled exit_code) = not (is_open k)
disturbs k (attachment request) = request.socket == k
disturbs k (activation a) = a.socket == k
disturbs k (input request) = false
disturbs k (resizing fits request) = false
disturbs k (leaving j) = j == k

-- A socket stays attached when another one gets its role.
take_role-is_active :
    (role : Role) (j k : ℕ) (s : Session)
    → (j == k) ≡ false
    → (role ≡ writer → is_taken j s ≡ false)
    → is_active k s ≡ true
    → is_active k (take_role role j s) ≡ true
unfolding is_active take_role
take_role-is_active writer j k s d f a =
    ground (arith, f refl, has-delete k j s.read_only_sockets d, has-delete k j s.output_handlers d)
take_role-is_active reader j k s d f a =
    ground (arith, has-add k j s.read_only_sockets d, has-delete k j s.output_handlers d)

detach-is_active :
    (j k : ℕ) (s : Session)
    → (j == k) ≡ false
    → is_active k s ≡ true
    → is_active k (detach j s) ≡ true
unfolding is_active detach
detach-is_active j k s d a =
    ground (arith, has-delete k j s.read_only_sockets d, has-delete k j s.output_handlers d)

take_role-IsServed :
    (role : Role) (j k : ℕ) (s : Session)
    → (j == k) ≡ false
    → (role ≡ writer → is_taken j s ≡ false)
    → is_active k s ≡ true
    → IsServed k s (take_role role j s) []
unfolding take_role received
take_role-IsServed writer j k s d f a =
    IsServed-idle k s _ [] refl refl (take_role-is_active writer j k s d f a)
take_role-IsServed reader j k s d f a =
    IsServed-idle k s _ [] refl refl (take_role-is_active reader j k s d f a)

received-map_other :
    (k j : ℕ) (frames : List Frame) → (j == k) ≡ false → received k (map (λ f. (j, f)) frames) ≡ []
unfolding received
received-map_other k j [] d = refl
received-map_other k j (f ∷ fs) d = ground (arith, received-map_other k j fs d)

activate-IsServed :
    (other : Attachment) (k : ℕ) (s s' : Session) (sends : Sends)
    → activate other s ≡ some (s', sends)
    → (other.socket == k) ≡ false
    → is_active k s ≡ true
    → IsServed k s s' sends
unfolding activate is_active
activate-IsServed other k s s' sends e d a =
    IsServed-idle k s s' sends
      (ground (
        arith,
        received-map_other k other.socket
            (other.frames ++ from_sequence other.next_output_sequence s.buffered_frames) d,
      ))
      (ground arith) (ground (arith, has-add k other.socket s.output_handlers d))

write-IsServed :
    (request : WriteRequest) (k : ℕ) (s s' : Session)
    → write request s ≡ ok s'
    → is_active k s ≡ true
    → IsServed k s s' []
unfolding write is_active received
write-IsServed request k s s' e a = IsServed-idle k s s' [] refl (ground arith) (ground arith)

resize-IsServed :
    (fits : Bool) (request : ResizeRequest) (k : ℕ) (s s' : Session)
    → resize fits request s ≡ ok s'
    → is_active k s ≡ true
    → IsServed k s s' []
unfolding resize is_active received
resize-IsServed fits request k s s' e a = IsServed-idle k s s' [] refl (ground arith) (ground arith)

detach-IsServed :
    (j k : ℕ) (s : Session) → (j == k) ≡ false → is_active k s ≡ true → IsServed k s (detach j s) []
unfolding detach received
detach-IsServed j k s d a = IsServed-idle k s _ [] refl refl (detach-is_active j k s d a)

Step-IsServed :
    {e : Event} {s s' : Session} {sends : Sends} (k : ℕ)
    → Step e s s' sends
    → IsSound s
    → is_active k s ≡ true
    → disturbs k e ≡ false
    → IsServed k s s' sends
unfolding disturbs on_data
Step-IsServed k (on_output {is_open} {bytes} {s} e) h a d =
    subst (λ p. IsServed k s p.0 p.1) e
      (push_all-IsServed is_open (split_output bytes) s k (ground arith) h a)
Step-IsServed k (on_end {is_open} {reported} {signalled} {exit_code} {s} r e) h a d =
    subst (λ p. IsServed k s p.0 p.1) e
      (on_exit-IsServed is_open reported signalled exit_code s k (ground arith) (h.once k) a)
Step-IsServed k (on_attach {request} {role} {cursor} {s} {s'} e) h a d =
    let accepted = accept_attachment-take_role request s s' role cursor e in
    subst (λ t. IsServed k s t []) (sym accepted.0)
      (take_role-IsServed role request.socket k s d accepted.1 a)
Step-IsServed k (on_activate {a = other} {s} {s'} {sends} e) h a d =
    activate-IsServed other k s s' sends e d a
Step-IsServed k (on_write {request} {s} {s'} e) h a d = write-IsServed request k s s' e a
Step-IsServed k (on_resize {fits} {request} {s} {s'} e) h a d =
    resize-IsServed fits request k s s' e a
Step-IsServed k (on_detach {k = j} {s} e) h a d =
    subst (λ s'. IsServed k s s' []) e (detach-IsServed j k s d a)

-- No event is the socket's own, or closes it.
abbrev pub undisturbed : ℕ → List Event → Bool
undisturbed k = all (λ e. not (disturbs k e))

pub Run-IsServed :
    {es : List Event} {s s' : Session} {sends : Sends} (k : ℕ)
    → Run es s s' sends
    → IsSound s
    → is_active k s ≡ true
    → undisturbed k es ≡ true
    → IsServed k s s' sends
Run-IsServed k (done {s}) h a u = IsServed-idle k s s [] (unfold received in refl) refl a
Run-IsServed k (step {e} {es} {sends} {later} r rs) h a u =
    let first = Step-IsServed k r h a (ground arith) in
    IsServed-append sends later first
      (Run-IsServed k rs (Step-IsSound r h) first.active (ground arith))
