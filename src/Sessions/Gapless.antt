-- ===== src/Sessions/Gapless.antt =====
-- The output of a terminal in src/controller-sessions.mjs, as one attached socket receives it.
use sandking.Base.{
  ℕ, ◌+◌, ◌≤◌, ◌≡◌, refl, sym, subst, Bool, true, false, List, [], ◌∷◌, ◌++◌, Option, length,
  length-append, arith,
}
use sandking.Frames.Bytes.{Bytes}
use sandking.Sessions.Terminal.{Session, Frame, ExitReason}
use sandking.Sessions.Output.{Sends, push_output, push_all, on_exit, deliver}
use sandking.Sessions.Numbering.{is_numbered, is_numbered-append}
use sandking.Sessions.Attached.{attachments}
use sandking.Sessions.Delivered.{received, received-append, is_active, received-deliver}
use sandking.Sessions.Soundness.{IsSound, push_output-IsSound}

-- The frames are the ones from a sequence number up to another one, each once and in order.
pub record IsGapless (first next : ℕ) (frames : List Frame) : Type 0 where
  pub in_order : is_numbered first frames ≡ true
  pub complete : first + length frames ≡ next

pub IsGapless-append :
    {a b c : ℕ} (xs ys : List Frame)
    → IsGapless a b xs
    → IsGapless b c ys
    → IsGapless a c (xs ++ ys)
IsGapless-append {a} {b} {c} xs ys h h' = record {
  in_order =
      is_numbered-append a xs ys h.in_order
        (subst (λ n. is_numbered n ys ≡ true) (sym h.complete) h'.in_order);
  complete = omega (arith, length-append xs ys, h.complete, h'.complete);
}

-- What a socket keeps and receives while the session goes from one state to another.
pub record IsServed (k : ℕ) (s s' : Session) (sends : Sends) : Type 0 where
  pub active : is_active k s' ≡ true
  pub gapless : IsGapless s.output_sequence s'.output_sequence (received k sends)

-- Nothing is sent, and the socket stays.
pub IsServed-idle :
    (k : ℕ) (s s' : Session) (sends : Sends)
    → received k sends ≡ []
    → s'.output_sequence ≡ s.output_sequence
    → is_active k s' ≡ true
    → IsServed k s s' sends
unfolding is_numbered
IsServed-idle k s s' sends r e a = record {
  active = a;
  gapless = record { in_order = ground (arith, r); complete = ground (arith, r) };
}

IsServed-frame :
    (is_open : ℕ → Bool) (eof : Bool) (bytes : Bytes) (s s' : Session) (k : ℕ)
    → is_open k ≡ true
    → attachments k s' ≤ 1
    → is_active k s' ≡ true
    → s'.output_sequence ≡ s.output_sequence + 1
    → IsServed k s s'
        (deliver is_open record { sequence = s.output_sequence; eof = eof; bytes = bytes } s')
unfolding is_numbered
IsServed-frame is_open eof bytes s s' k o h a e = record {
  active = a;
  gapless = record {
    in_order = ground (
      arith,
      received-deliver is_open record { sequence = s.output_sequence; eof = eof; bytes = bytes } s'
          k o h a,
    );
    complete = ground (
      arith,
      received-deliver is_open record { sequence = s.output_sequence; eof = eof; bytes = bytes } s'
          k o h a,
    );
  };
}

pub IsServed-append :
    {k : ℕ} {s s' s'' : Session} (xs ys : Sends)
    → IsServed k s s' xs
    → IsServed k s' s'' ys
    → IsServed k s s'' (xs ++ ys)
IsServed-append {k} {s} {s'} {s''} xs ys h h' = record {
  active = h'.active;
  gapless =
      subst (IsGapless s.output_sequence s''.output_sequence) (sym (received-append k xs ys))
        (IsGapless-append (received k xs) (received k ys) h.gapless h'.gapless);
}

push_output-IsServed :
    (is_open : ℕ → Bool) (bytes : Bytes) (s : Session) (k : ℕ)
    → is_open k ≡ true
    → attachments k s ≤ 1
    → is_active k s ≡ true
    → IsServed k s (push_output is_open bytes s).0 (push_output is_open bytes s).1
unfolding push_output attachments is_active
push_output-IsServed is_open bytes s k o h a =
    IsServed-frame is_open false bytes s (push_output is_open bytes s).0 k o h a refl

pub push_all-IsServed :
    (is_open : ℕ → Bool) (pieces : List Bytes) (s : Session) (k : ℕ)
    → is_open k ≡ true
    → IsSound s
    → is_active k s ≡ true
    → IsServed k s (push_all is_open pieces s).0 (push_all is_open pieces s).1
unfolding push_all
push_all-IsServed is_open [] s k o h a = IsServed-idle k s s [] (unfold received in refl) refl a
push_all-IsServed is_open (bytes ∷ more) s k o h a =
    let first = push_output-IsServed is_open bytes s k o (h.once k) a in
    IsServed-append (push_output is_open bytes s).1 _ first (
      push_all-IsServed is_open more (push_output is_open bytes s).0 k o
        (push_output-IsSound is_open bytes s h) first.active)

pub on_exit-IsServed :
    (is_open : ℕ → Bool) (reported : Option ExitReason) (signalled : Bool) (exit_code : ℕ)
    (s : Session) (k : ℕ)
    → is_open k ≡ true
    → attachments k s ≤ 1
    → is_active k s ≡ true
    → IsServed k s
        (on_exit is_open reported signalled exit_code s).0
        (on_exit is_open reported signalled exit_code s).1
unfolding on_exit attachments is_active
on_exit-IsServed is_open reported signalled exit_code s k o h a =
    IsServed-frame is_open true [] s (on_exit is_open reported signalled exit_code s).0 k o h a refl
