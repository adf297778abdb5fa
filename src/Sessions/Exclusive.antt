-- ===== src/Sessions/Exclusive.antt =====
-- The exclusive attachment of src/controller-sessions.mjs: no other socket enters anything.
use sandking.Base.{
  all-append, ℕ, ◌==◌, ◌≡◌, refl, sym, subst, Bool, true, false, not, all, List, [], ◌∷◌, arith,
}
use sandking.Frames.Bytes.{Bytes}
use sandking.Sessions.Terminal.{Session, holds}
use sandking.Sessions.Output.{Sends, push_output, push_all, on_data, on_exit, split_output}
use sandking.Sessions.Attach.{Role, writer, reader, is_taken, take_role, activate, detach}
use sandking.Sessions.Input.{write, resize}
use sandking.Sessions.Steps.{
  Event, Step, Run, output, exit, attachment, activation, input, resizing, leaving, on_output,
  on_end, on_attach, on_activate, on_write, on_resize, on_detach, done, step,
}
use sandking.Sessions.Soundness.{accept_attachment-take_role}
use sandking.Sessions.Entered.{inputs_of, inputs}

-- A socket attaches, perhaps in another mode, or leaves.
unfoldable pub asks : ℕ → Event → Bool
asks k (attachment request) = request.socket == k
asks k (leaving j) = j == k
asks k (output is_open bytes) = false
asks k (exit is_open reported signalled exit_code) = false
asks k (activation a) = false
asks k (input request) = false
asks k (resizing fits request) = false

push_all-writable_socket :
    (is_open : ℕ → Bool) (pieces : List Bytes) (s : Session)
    → (push_all is_open pieces s).0.writable_socket ≡ s.writable_socket
unfolding push_all push_output
push_all-writable_socket is_open [] s = refl
push_all-writable_socket is_open (bytes ∷ more) s =
    push_all-writable_socket is_open more (push_output is_open bytes s).0

take_role-holds :
    (role : Role) (j k : ℕ) (s : Session)
    → (j == k) ≡ false
    → (role ≡ writer → is_taken j s ≡ false)
    → holds s.writable_socket k ≡ true
    → holds (take_role role j s).writable_socket k ≡ true
unfolding take_role
take_role-holds writer j k s d f h = ground (arith, f refl)
take_role-holds reader j k s d f h = ground arith

Step-holds :
    {e : Event} {s s' : Session} {sends : Sends} (k : ℕ)
    → Step e s s' sends
    → holds s.writable_socket k ≡ true
    → asks k e ≡ false
    → holds s'.writable_socket k ≡ true
unfolding asks on_data on_exit activate write resize detach
Step-holds k (on_output {is_open} {bytes} {s} e) h a =
    subst (λ p. holds p.0.writable_socket k ≡ true) e
      (subst (λ socket. holds socket k ≡ true)
        (sym (push_all-writable_socket is_open (split_output bytes) s)) h)
Step-holds k (on_end r e) h a = ground arith
Step-holds k (on_attach {request} {role} {cursor} {s} {s'} e) h a =
    let taken = accept_attachment-take_role request s s' role cursor e in
    subst (λ t. holds t.writable_socket k ≡ true) (sym taken.0)
      (take_role-holds role request.socket k s a taken.1 h)
Step-holds k (on_activate e) h a = ground arith
Step-holds k (on_write e) h a = ground arith
Step-holds k (on_resize e) h a = ground arith
Step-holds k (on_detach {k = j} e) h a = ground arith

-- An input that succeeds is of the socket with the exclusive attachment.
Step-exclusive :
    {e : Event} {s s' : Session} {sends : Sends} (k : ℕ)
    → Step e s s' sends
    → holds s.writable_socket k ≡ true
    → all (λ r. r.socket == k) (inputs_of e) ≡ true
unfolding inputs_of write
Step-exclusive k (on_output e) h = refl
Step-exclusive k (on_end r e) h = refl
Step-exclusive k (on_attach e) h = refl
Step-exclusive k (on_activate e) h = refl
Step-exclusive k (on_write e) h = ground arith
Step-exclusive k (on_resize e) h = refl
Step-exclusive k (on_detach e) h = refl

abbrev pub are_unasked : ℕ → List Event → Bool
are_unasked k = all (λ e. not (asks k e))

-- While a socket has the exclusive attachment, and neither attaches again nor leaves, every input that
-- succeeds is its own.
pub Run-exclusive :
    {es : List Event} {s s' : Session} {sends : Sends} (k : ℕ)
    → Run es s s' sends
    → holds s.writable_socket k ≡ true
    → are_unasked k es ≡ true
    → all (λ r. r.socket == k) (inputs es) ≡ true
unfolding inputs
Run-exclusive k done h u = refl
Run-exclusive k (step {e} {es} r rs) h u = ground (
  arith,
  all-append (λ r. r.socket == k) (inputs_of e) (inputs es),
  Step-exclusive k r h,
  Run-exclusive k rs (Step-holds k r h (ground arith)) (ground arith),
)
