-- ===== src/Host/Lock/Abandoned.antt =====
-- What a call of src/private-state-lock.mjs does with the files of processes that have ended.
use sandking.Base.{ℕ, zero, suc, ◌≡◌, Bool, true, not, Option, none, some, arith}
use sandking.Host.Lock.Turns.{File, Files, Phase, looking, holding, turn, is_stale}

-- A call takes so many turns, while no other does. It sees which processes run, and an incomplete file is
-- more than a second old.
unfoldable pub turns : ℕ → ℕ → Files → Phase → Files × Phase
turns zero i m p = (m, p)
turns (suc n) i m p = let (m', p') = turn true i m p in turns n i m' p'

-- There is no such file, or its process has ended.
abbrev pub is_abandoned : Files → Option File → Bool
is_abandoned m none = true
is_abandoned m (some f) = not (m.running f.writer)

unfoldable pub count_turns : Option File → Option File → ℕ
count_turns none none = 3
count_turns (some f) none = 11
count_turns none (some g) = 5
count_turns (some f) (some g) = 13

-- A call that runs alone, sees which processes run, and finds an incomplete file more than a second old,
-- gets the lock, completes it and leaves no marker, within `count_turns`, where the processes that left a
-- lock or a marker behind have ended.
pub turns-holding :
    (i : ℕ) (lock recovery : Option File) (running : ℕ → Bool)
    → is_abandoned (record { lock = lock; recovery = recovery; running = running }) lock ≡ true
    → is_abandoned (record { lock = lock; recovery = recovery; running = running }) recovery ≡ true
    → turns
        (count_turns lock recovery)
        i
        (record { lock = lock; recovery = recovery; running = running })
        looking
      ≡ (
        record {
          lock = some record { writer = i; complete = true };
          recovery = none;
          running = running;
        },
        holding,
      )
unfolding turns turn count_turns is_stale
turns-holding i none none running h k = ground arith
turns-holding i (some f) none running h k = ground arith
turns-holding i none (some g) running h k = ground arith
turns-holding i (some f) (some g) running h k = ground arith
