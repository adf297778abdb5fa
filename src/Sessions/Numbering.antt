-- ===== src/Sessions/Numbering.antt =====
-- The sequence numbers of the output frames of src/controller-sessions.mjs: one more for each frame.
use sandking.Base.{
  ℕ, zero, suc, ◌+◌, ◌≤◌, ◌==◌, ◌≡◌, refl, subst, Bool, true, ◌&&◌, List, [], ◌∷◌, ◌++◌, length,
  drop, last?, arith,
}
use sandking.Sessions.Terminal.{Frame}
use sandking.Sessions.Attach.{first_sequence, behind_last, from_sequence}

-- The frames have the sequence numbers from `n` on, without a gap.
unfoldable pub is_numbered : ℕ → List Frame → Bool
is_numbered n [] = true
is_numbered n (f ∷ fs) = f.sequence == n && is_numbered (n + 1) fs

pub is_numbered-append :
    (n : ℕ) (xs ys : List Frame)
    → is_numbered n xs ≡ true
    → is_numbered (n + length xs) ys ≡ true
    → is_numbered n (xs ++ ys) ≡ true
unfolding is_numbered
is_numbered-append n [] ys h h' = subst (λ m. is_numbered m ys ≡ true) (omega arith) h'
is_numbered-append n (x ∷ xs) ys h h' = ground (
  arith,
  is_numbered-append (n + 1) xs ys (ground arith)
      (subst (λ m. is_numbered m ys ≡ true) (omega arith) h'),
)

pub is_numbered-drop :
    (k n : ℕ) (xs : List Frame) → is_numbered n xs ≡ true → is_numbered (n + k) (drop k xs) ≡ true
unfolding is_numbered
is_numbered-drop zero n xs h = subst (λ m. is_numbered m xs ≡ true) (omega arith) h
is_numbered-drop (suc k) n [] h = refl
is_numbered-drop (suc k) n (x ∷ xs) h =
    subst (λ m. is_numbered m (drop k xs) ≡ true) (omega arith)
      (is_numbered-drop k (n + 1) xs (ground arith))

-- Numbered frames begin at their number.
pub is_numbered-first_sequence :
    (n : ℕ) (xs : List Frame) → is_numbered n xs ≡ true → first_sequence xs (n + length xs) ≡ n
unfolding is_numbered
is_numbered-first_sequence n [] h = omega arith
is_numbered-first_sequence n (x ∷ xs) h = ground arith

from_sequence-all :
    (c n : ℕ) (xs : List Frame) → c ≤ n → is_numbered n xs ≡ true → from_sequence c xs ≡ xs
unfolding is_numbered
from_sequence-all c n [] h h' = refl
from_sequence-all c n (x ∷ xs) h h' =
    ground (arith, from_sequence-all c (n + 1) xs (omega arith) (ground arith))

-- What the numbered frames from a sequence number on are.
pub from_sequence-drop :
    (k n : ℕ) (xs : List Frame) → is_numbered n xs ≡ true → from_sequence (n + k) xs ≡ drop k xs
unfolding is_numbered
from_sequence-drop zero n xs h = from_sequence-all (n + 0) n xs (omega arith) h
from_sequence-drop (suc k) n [] h = refl
from_sequence-drop (suc k) n (x ∷ xs) h = ground (
  arith,
  subst (λ m. from_sequence m xs ≡ drop k xs) {y = n + suc k} (omega arith)
      (from_sequence-drop k (n + 1) xs (ground arith)),
)

behind_last-next :
    (n c : ℕ) (x : Frame) (xs : List Frame)
    → is_numbered n (x ∷ xs) ≡ true
    → behind_last (last? (x ∷ xs)) c ≡ n + length (x ∷ xs)
unfolding is_numbered
behind_last-next n c x [] h = ground arith
behind_last-next n c x (y ∷ xs) h = omega (arith, behind_last-next (n + 1) c y xs (ground arith))

pub is_numbered-behind_last :
    (n : ℕ) (xs : List Frame) → is_numbered n xs ≡ true → behind_last (last? xs) n ≡ n + length xs
is_numbered-behind_last n [] h = omega arith
is_numbered-behind_last n (x ∷ xs) h = behind_last-next n n x xs h
