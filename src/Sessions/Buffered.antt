-- ===== src/Sessions/Buffered.antt =====
-- The frames that a session of src/controller-sessions.mjs buffers are the last of its output, in order.
use sandking.Base.{
  ℕ, ◌+◌, ◌-◌, ◌≤◌, ◌≡◌, refl, sym, subst, Bool, true, false, List, [], ◌∷◌, ◌++◌, ltb, length,
  drop, length-append, length-drop, Bool-cases, inl, inr, arith,
}
use sandking.Frames.Bytes.{Bytes}
use sandking.Sessions.Terminal.{Session, Frame}
use sandking.Sessions.Output.{shift_past, push_output}
use sandking.Sessions.Numbering.{is_numbered, is_numbered-append, is_numbered-drop}

-- At most `limit` frames are buffered, and they are the ones in front of the sequence number `next`.
pub record IsBuffered (limit next : ℕ) (frames : List Frame) : Type 0 where
  pub counted : length frames ≤ next
  pub bounded : length frames ≤ limit
  pub in_order : is_numbered (next - length frames) frames ≡ true

pub IsBuffered-append :
    (limit next : ℕ) (frames : List Frame) (f : Frame)
    → f.sequence ≡ next
    → IsBuffered limit next frames
    → IsBuffered (limit + 1) (next + 1) (frames ++ f ∷ [])
unfolding is_numbered
IsBuffered-append limit next frames f e h = record {
  counted = omega (arith, h.counted, length-append frames (f ∷ []));
  bounded = omega (arith, h.bounded, length-append frames (f ∷ []));
  in_order =
      subst (λ n. is_numbered n (frames ++ f ∷ []) ≡ true)
        (omega (arith, h.counted, length-append frames (f ∷ [])))
        (is_numbered-append (next - length frames) frames (f ∷ []) h.in_order
          (ground (arith, h.counted)));
}

IsBuffered-drop :
    (k limit next : ℕ) (frames : List Frame)
    → k ≤ length frames
    → length frames ≤ limit + k
    → length frames ≤ next
    → is_numbered (next - length frames) frames ≡ true
    → IsBuffered limit next (drop k frames)
IsBuffered-drop k limit next frames le bound count h = record {
  counted = omega (arith, length-drop k frames);
  bounded = omega (arith, length-drop k frames);
  in_order =
      subst (λ n. is_numbered n (drop k frames) ≡ true) (omega (arith, length-drop k frames))
        (is_numbered-drop k (next - length frames) frames h);
}

shift_past-kept :
    (frames : List Frame) → ltb 256 (length frames) ≡ false → shift_past frames ≡ frames
shift_past-kept frames e = ground arith

shift_past-drop :
    (frames : List Frame) → ltb 256 (length frames) ≡ true → shift_past frames ≡ drop 1 frames
shift_past-drop frames e = ground arith

pub IsBuffered-shift_past :
    (limit next : ℕ) (frames : List Frame)
    → 256 ≤ limit
    → IsBuffered (limit + 1) next frames
    → IsBuffered limit next (shift_past frames)
IsBuffered-shift_past limit next frames h b = elim (Bool-cases (ltb 256 (length frames))) [
  | inl e ↦
      subst (IsBuffered limit next) (sym (shift_past-drop frames e))
        (IsBuffered-drop 1 limit next frames (ground arith) b.bounded b.counted b.in_order)
  | inr e ↦
      subst (IsBuffered limit next) (sym (shift_past-kept frames e))
        record { counted = b.counted; bounded = ground arith; in_order = b.in_order }
]

-- A frame that is put behind the others, as `onData` does it.
pub push_output-IsBuffered :
    (is_open : ℕ → Bool) (bytes : Bytes) (s : Session) (limit : ℕ)
    → 256 ≤ limit
    → IsBuffered limit s.output_sequence s.buffered_frames
    → IsBuffered limit
        (push_output is_open bytes s).0.output_sequence
        (push_output is_open bytes s).0.buffered_frames
unfolding push_output
push_output-IsBuffered is_open bytes s limit le h =
    IsBuffered-shift_past limit (s.output_sequence + 1) _ le
      (IsBuffered-append limit s.output_sequence s.buffered_frames _ refl h)
