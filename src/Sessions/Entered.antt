-- ===== src/Sessions/Entered.antt =====
-- The input of a terminal in src/controller-sessions.mjs.
use mathlib.Core.List.{append-nil, append_assoc, map-append}
use sandking.Base.{
  ℕ, ◌+◌, ◌==◌, ◌≡◌, refl, sym, ap, ◌∙◌, subst, Bool, true, ◌&&◌, List, [], ◌∷◌, ◌++◌, length,
  length-append, map, ok, arith,
}
use sandking.Frames.Bytes.{Bytes}
use sandking.Sessions.Terminal.{Session}
use sandking.Sessions.Output.{Sends, push_output, push_all, on_data, on_exit, split_output}
use sandking.Sessions.Attach.{Role, writer, reader, take_role, accept_attachment, activate, detach}
use sandking.Sessions.Input.{WriteRequest, write, resize}
use sandking.Sessions.Steps.{
  Event, Step, Run, output, exit, attachment, activation, input, resizing, leaving, on_output,
  on_end, on_attach, on_activate, on_write, on_resize, on_detach, done, step,
}
use sandking.Sessions.Soundness.{accept_attachment-take_role}

-- The inputs of an event that succeeds.
unfoldable pub inputs_of : Event → List WriteRequest
inputs_of (input request) = request ∷ []
inputs_of (output is_open bytes) = []
inputs_of (exit is_open reported signalled exit_code) = []
inputs_of (attachment request) = []
inputs_of (activation a) = []
inputs_of (resizing fits request) = []
inputs_of (leaving k) = []

unfoldable pub inputs : List Event → List WriteRequest
unfolding inputs_of
inputs [] = []
inputs (e ∷ es) = inputs_of e ++ inputs es

-- The inputs have the sequence numbers from `n` on, without a gap.
unfoldable pub are_consecutive : ℕ → List WriteRequest → Bool
are_consecutive n [] = true
are_consecutive n (r ∷ rs) = r.sequence == n && are_consecutive (n + 1) rs

-- What the terminal was given between two states of its session.
pub record IsEntered (s s' : Session) (requests : List WriteRequest) : Type 0 where
  pub given : s'.terminal_input ≡ s.terminal_input ++ map (λ r. r.utf8) requests
  pub next : s'.expected_input_sequence ≡ s.expected_input_sequence + length requests
  pub in_order : are_consecutive s.expected_input_sequence requests ≡ true

-- Nothing is entered.
IsEntered-idle :
    (s s' : Session)
    → s'.terminal_input ≡ s.terminal_input
    → s'.expected_input_sequence ≡ s.expected_input_sequence
    → IsEntered s s' []
unfolding are_consecutive
IsEntered-idle s s' e e' = record {
  given = e ∙ sym (append-nil s.terminal_input);
  next = omega arith;
  in_order = refl;
}

push_all-IsEntered :
    (is_open : ℕ → Bool) (pieces : List Bytes) (s : Session)
    → IsEntered s (push_all is_open pieces s).0 []
unfolding push_all push_output
push_all-IsEntered is_open [] s = IsEntered-idle s s refl refl
push_all-IsEntered is_open (bytes ∷ more) s =
    let rest = push_all-IsEntered is_open more (push_output is_open bytes s).0 in
    record { given = rest.given; next = rest.next; in_order = rest.in_order }

-- A write that succeeds is the next one of the socket with the exclusive attachment, and the terminal
-- runs.
write-IsEntered :
    (request : WriteRequest) (s s' : Session)
    → write request s ≡ ok s'
    → IsEntered s s' (request ∷ [])
unfolding write are_consecutive
write-IsEntered request s s' e = record {
  given = ground arith;
  next = ground arith;
  in_order = ground arith;
}

Step-IsEntered :
    {e : Event} {s s' : Session} {sends : Sends} → Step e s s' sends → IsEntered s s' (inputs_of e)
unfolding inputs_of on_data on_exit accept_attachment take_role activate resize detach
Step-IsEntered (on_output {is_open} {bytes} {s} e) =
    subst (λ p. IsEntered s p.0 []) e (push_all-IsEntered is_open (split_output bytes) s)
Step-IsEntered (on_end {s} {s'} r e) = IsEntered-idle s s' (ground arith) (ground arith)
Step-IsEntered (on_attach {request} {role} {cursor} {s} {s'} e) =
    role_given role (accept_attachment-take_role request s s' role cursor e).0
  where
    role_given : (role : Role) → s' ≡ take_role role request.socket s → IsEntered s s' []
    role_given writer e' = IsEntered-idle s s' (ground arith) (ground arith)
    role_given reader e' = IsEntered-idle s s' (ground arith) (ground arith)
Step-IsEntered (on_activate {s} {s'} e) = IsEntered-idle s s' (ground arith) (ground arith)
Step-IsEntered (on_write {request} {s} {s'} e) = write-IsEntered request s s' e
Step-IsEntered (on_resize {s} {s'} e) = IsEntered-idle s s' (ground arith) (ground arith)
Step-IsEntered (on_detach {s} {s'} e) = IsEntered-idle s s' (ground arith) (ground arith)

are_consecutive-append :
    (n : ℕ) (xs ys : List WriteRequest)
    → are_consecutive n xs ≡ true
    → are_consecutive (n + length xs) ys ≡ true
    → are_consecutive n (xs ++ ys) ≡ true
unfolding are_consecutive
are_consecutive-append n [] ys h h' = subst (λ m. are_consecutive m ys ≡ true) (omega arith) h'
are_consecutive-append n (x ∷ xs) ys h h' = ground (
  arith,
  are_consecutive-append (n + 1) xs ys (ground arith)
      (subst (λ m. are_consecutive m ys ≡ true) (omega arith) h'),
)

IsEntered-append :
    {s s' s'' : Session} (xs ys : List WriteRequest)
    → IsEntered s s' xs
    → IsEntered s' s'' ys
    → IsEntered s s'' (xs ++ ys)
IsEntered-append {s} {s'} {s''} xs ys h h' = record {
  given =
      h'.given
      ∙ ap (λ given. given ++ map (λ r. r.utf8) ys) h.given
      ∙ append_assoc s.terminal_input (map (λ r. r.utf8) xs) (map (λ r. r.utf8) ys)
      ∙ ap (λ more. s.terminal_input ++ more) (sym (map-append (λ r. r.utf8) xs ys));
  next = omega (arith, h.next, h'.next, length-append xs ys);
  in_order =
      are_consecutive-append s.expected_input_sequence xs ys h.in_order
        (subst (λ n. are_consecutive n ys ≡ true) h.next h'.in_order);
}

-- Whatever happens to a session, the inputs that succeed have consecutive sequence numbers, and the
-- terminal was given what `toString("utf8")` makes of the bytes of each of them, once, in that order, and
-- nothing else.
pub Run-IsEntered :
    {es : List Event} {s s' : Session} {sends : Sends}
    → Run es s s' sends
    → IsEntered s s' (inputs es)
unfolding inputs
Run-IsEntered (done {s}) = IsEntered-idle s s refl refl
Run-IsEntered (step {e} {es} r rs) =
    IsEntered-append (inputs_of e) (inputs es) (Step-IsEntered r) (Run-IsEntered rs)
