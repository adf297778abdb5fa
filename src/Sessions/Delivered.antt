-- ===== src/Sessions/Delivered.antt =====
-- What one socket receives of the frames that a session of src/controller-sessions.mjs sends.
use sandking.Base.{
  has, ℕ, ◌≤◌, ◌==◌, ◌≡◌, refl, Bool, true, ◌&&◌, ◌||◌, List, [], ◌∷◌, ◌++◌, Option, none, some,
  map, if◌then◌else◌, arith,
}
use sandking.Sessions.Terminal.{Session, Frame, holds}
use sandking.Sessions.Output.{Sends, to_writable, to_readers, deliver}
use sandking.Sessions.Attached.{count_of, has-count_of, attachments}

unfoldable pub received : ℕ → Sends → List Frame
received k [] = []
received k ((j, f) ∷ sends) = let rest = received k sends in if j == k then f ∷ rest else rest

pub received-append :
    (k : ℕ) (xs ys : Sends) → received k (xs ++ ys) ≡ received k xs ++ received k ys
unfolding received
received-append k [] ys = refl
received-append k ((j, f) ∷ xs) ys = ground (arith, received-append k xs ys)

-- What is sent to one socket is received by it.
pub received-map : (k : ℕ) (frames : List Frame) → received k (map (λ f. (k, f)) frames) ≡ frames
unfolding received
received-map k [] = refl
received-map k (f ∷ fs) = ground (arith, received-map k fs)

-- A socket that is attached has its callback.
unfoldable pub is_active : ℕ → Session → Bool
is_active k s =
    (holds s.writable_socket k && s.has_output)
    || (has k s.read_only_sockets && has k s.output_handlers)

received-to_readers_none :
    (is_open : ℕ → Bool) (f : Frame) (handlers ks : List ℕ) (k : ℕ)
    → count_of k ks ≡ 0
    → received k (to_readers is_open f handlers ks) ≡ []
unfolding to_readers received
received-to_readers_none is_open f handlers [] k h = refl
received-to_readers_none is_open f handlers (j ∷ js) k h =
    ground (arith, received-to_readers_none is_open f handlers js k)

received-to_readers_once :
    (is_open : ℕ → Bool) (f : Frame) (handlers ks : List ℕ) (k : ℕ)
    → count_of k ks ≡ 1
    → is_open k ≡ true
    → has k handlers ≡ true
    → received k (to_readers is_open f handlers ks) ≡ f ∷ []
unfolding to_readers received
received-to_readers_once is_open f handlers [] k h o a = absurd (omega arith)
received-to_readers_once is_open f handlers (j ∷ js) k h o a = ground (
  arith,
  received-to_readers_none is_open f handlers js k,
  received-to_readers_once is_open f handlers js k,
)

received-to_writable :
    (is_open : ℕ → Bool) (f : Frame) (socket : Option ℕ) (has_output : Bool) (k : ℕ)
    → is_open k ≡ true
    → received k (to_writable is_open f socket has_output)
      ≡ (if holds socket k && has_output then f ∷ [] else [])
unfolding to_writable received
received-to_writable is_open f none has_output k o = refl
received-to_writable is_open f (some j) has_output k o = ground arith

-- A socket that is attached once and open receives each frame once.
pub received-deliver :
    (is_open : ℕ → Bool) (f : Frame) (s : Session) (k : ℕ)
    → is_open k ≡ true
    → attachments k s ≤ 1
    → is_active k s ≡ true
    → received k (deliver is_open f s) ≡ f ∷ []
unfolding deliver is_active attachments
received-deliver is_open f s k o h a = ground (
  arith,
  has-count_of k s.read_only_sockets,
  received-append k (to_writable is_open f s.writable_socket s.has_output)
      (to_readers is_open f s.output_handlers s.read_only_sockets),
  received-to_writable is_open f s.writable_socket s.has_output k o,
  received-to_readers_none is_open f s.output_handlers s.read_only_sockets k,
  received-to_readers_once is_open f s.output_handlers s.read_only_sockets k,
)
