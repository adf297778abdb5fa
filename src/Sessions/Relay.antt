-- ===== src/Sessions/Relay.antt =====
-- The bytes that `onData` of src/controller-sessions.mjs relays to a socket.
use sandking.Base.{
  ℕ, zero, suc, ◌≤◌, ◌≡◌, refl, sym, ap, ◌∙◌, subst, Bool, true, false, not, ◌&&◌, List, [], ◌∷◌,
  ◌++◌, all, leb, length, length-take, length-drop, take-append-drop, take, drop, map, and_true,
  arith,
}
use sandking.Frames.Bytes.{Bytes}
use sandking.Sessions.Terminal.{Session, Frame}
use sandking.Sessions.Output.{
  split_output, split_rounds, push_output, push_all, on_data, max_frame_size,
}
use sandking.Sessions.Attached.{attachments}
use sandking.Sessions.Delivered.{received, received-append, is_active, received-deliver}
use sandking.Sessions.Soundness.{IsSound}

unfoldable pub join : List Bytes → Bytes
join [] = []
join (bytes ∷ more) = bytes ++ join more

-- As many rounds as there are bytes are enough.
split_rounds-join : (n : ℕ) (bytes : Bytes) → length bytes ≤ n → join (split_rounds n bytes) ≡ bytes
unfolding join split_rounds
split_rounds-join zero [] h = refl
split_rounds-join zero (b ∷ bytes) h = absurd (omega arith)
split_rounds-join (suc n) [] h = refl
split_rounds-join (suc n) (b ∷ bytes) h =
    ap (λ rest. take max_frame_size (b ∷ bytes) ++ rest)
      (split_rounds-join n (drop max_frame_size (b ∷ bytes))
        (omega (arith, length-drop max_frame_size (b ∷ bytes))))
    ∙ take-append-drop max_frame_size (b ∷ bytes)

abbrev pub fits : Bytes → Bool
fits bytes = leb 1 (length bytes) && leb (length bytes) max_frame_size

fits-intro : (bytes : Bytes) → 1 ≤ length bytes → length bytes ≤ max_frame_size → fits bytes ≡ true
fits-intro bytes low high = ground arith

fits-all :
    (piece : Bytes) (pieces : List Bytes)
    → fits piece ≡ true
    → all fits pieces ≡ true
    → all fits (piece ∷ pieces) ≡ true
fits-all piece pieces h h' = ap (λ b. b && all fits pieces) h ∙ h'

split_rounds-fits : (n : ℕ) (bytes : Bytes) → all fits (split_rounds n bytes) ≡ true
unfolding split_rounds
split_rounds-fits zero bytes = refl
split_rounds-fits (suc n) [] = refl
split_rounds-fits (suc n) (b ∷ bytes) =
    fits-all (take max_frame_size (b ∷ bytes)) (split_rounds n (drop max_frame_size (b ∷ bytes)))
      (fits-intro (take max_frame_size (b ∷ bytes))
        (omega (arith, length-take max_frame_size (b ∷ bytes)))
        (omega (arith, length-take max_frame_size (b ∷ bytes))))
      (split_rounds-fits n (drop max_frame_size (b ∷ bytes)))

-- The frames of one output: each has at least one byte and at most 16,384, and together they are the
-- output.
pub record IsRelayed (bytes : Bytes) (frames : List Frame) : Type 0 where
  pub whole : join (map (λ f. f.bytes) frames) ≡ bytes
  pub sized : all (λ f. fits f.bytes) frames ≡ true
  pub goes_on : all (λ f. not f.eof) frames ≡ true

IsRelayed-cons :
    (f : Frame) (fs : List Frame) (bytes : Bytes)
    → f.eof ≡ false
    → fits f.bytes ≡ true
    → IsRelayed bytes fs
    → IsRelayed (f.bytes ++ bytes) (f ∷ fs)
unfolding join
IsRelayed-cons f fs bytes e h r = record {
  whole = ap (λ rest. f.bytes ++ rest) r.whole;
  sized = fits-all-cons;
  goes_on = ground (arith, r.goes_on);
}
  where
    fits-all-cons : (fits f.bytes && all (λ g. fits g.bytes) fs) ≡ true
    fits-all-cons = ap (λ b. b && all (λ g. fits g.bytes) fs) h ∙ r.sized

push_output-received :
    (is_open : ℕ → Bool) (bytes : Bytes) (s : Session) (k : ℕ)
    → is_open k ≡ true
    → attachments k s ≤ 1
    → is_active k s ≡ true
    → received k (push_output is_open bytes s).1
      ≡ record { sequence = s.output_sequence; eof = false; bytes = bytes } ∷ []
unfolding push_output attachments is_active
push_output-received is_open bytes s k o h a =
    received-deliver is_open _ (push_output is_open bytes s).0 k o h a

push_all-received :
    (is_open : ℕ → Bool) (pieces : List Bytes) (s : Session) (k : ℕ)
    → is_open k ≡ true
    → attachments k s ≤ 1
    → is_active k s ≡ true
    → all fits pieces ≡ true
    → IsRelayed (join pieces) (received k (push_all is_open pieces s).1)
unfolding push_all push_output attachments is_active join received
push_all-received is_open [] s k o h a f = record { whole = refl; sized = refl; goes_on = refl }
push_all-received is_open (bytes ∷ more) s k o h a f =
    subst (IsRelayed (bytes ++ join more))
      (sym (
        received-append k (push_output is_open bytes s).1 _
        ∙ ap
            (λ first. first ++ received k (push_all is_open more (push_output is_open bytes s).0).1)
            (push_output-received is_open bytes s k o h a)))
      (IsRelayed-cons record { sequence = s.output_sequence; eof = false; bytes = bytes } _ _ refl
        (and_true _ (all fits more) f).0
        (push_all-received is_open more (push_output is_open bytes s).0 k o h a
          (and_true (fits bytes) _ f).1))

-- An open socket whose attachment to a sound session is active receives the whole output of the terminal,
-- in frames of at least one byte and at most 16,384, none of which ends the stream.
pub on_data-received :
    (is_open : ℕ → Bool) (bytes : Bytes) (s : Session) (k : ℕ)
    → IsSound s
    → is_open k ≡ true
    → is_active k s ≡ true
    → IsRelayed bytes (received k (on_data is_open bytes s).1)
unfolding on_data split_output
on_data-received is_open bytes s k h o a =
    subst (λ whole. IsRelayed whole (received k (push_all is_open (split_output bytes) s).1))
      (split_rounds-join (length bytes) bytes (omega arith))
      (push_all-received is_open (split_output bytes) s k o (h.once k) a
        (split_rounds-fits (length bytes) bytes))
