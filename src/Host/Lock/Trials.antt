-- ===== src/Host/Lock/Trials.antt =====
-- Calls of src/private-state-lock.mjs in concrete orders.
use sandking.Base.{ℕ, ◌==◌, ◌≡◌, refl, Bool, true, false, List, [], ◌∷◌, none, some}
use sandking.Host.Lock.Turns.{
  Phase, looking, holding, System, turn, take_turn, crash, is_stale, moves, crashes, Reaches, here,
  then_step, initial,
}
use sandking.Host.Lock.Abandoned.{turns, turns-holding, count_turns}

-- Turns of calls, one after the other.
unfoldable play : List (Bool × ℕ) → System → System
play [] s = s
play ((choice, i) ∷ rest) s = play rest (take_turn choice i s)

abbrev begin : List ℕ → System → System
begin [] s = s
begin (i ∷ rest) s = begin rest (take_turn true i s)

-- Call 1 gets the lock, its process ends, and call 0 recovers the lock.
abbrev ended : System
ended = crash 1 (begin (1 ∷ 1 ∷ 1 ∷ []) initial)

abbrev ended-Reaches : Reaches initial ended
unfolding initial take_turn turn is_stale
ended-Reaches =
    then_step
      (then_step
        (then_step (then_step here (moves true 1 refl refl refl)) (moves true 1 refl refl refl))
        (moves true 1 refl refl refl))
      (crashes 1)

abbrev recovered : System
recovered = begin (0 ∷ 0 ∷ 0 ∷ 0 ∷ 0 ∷ 0 ∷ 0 ∷ 0 ∷ 0 ∷ 0 ∷ 0 ∷ []) ended

abbrev none_but_0 : ℕ → Bool
none_but_0 i = i == 0

turns-holding_example :
    turns 13 0
      (record {
        lock = some record { writer = 1; complete = true };
        recovery = some record { writer = 2; complete = false };
        running = none_but_0;
      })
      looking
    ≡ (
      record {
        lock = some record { writer = 0; complete = true };
        recovery = none;
        running = none_but_0;
      },
      holding,
    )
unfolding count_turns
turns-holding_example =
    turns-holding 0 (some record { writer = 1; complete = true })
      (some record { writer = 2; complete = false }) none_but_0 refl refl

-- Call 0 leaves while call 1 inspects the lock. Call 1 takes the lock that is gone for a stale one, and
-- removes the one that call 2 creates in the meantime.
abbrev overtaken : System
overtaken =
    play
      ((true, 0)
        ∷ (true, 0)
        ∷ (true, 0)
        ∷ (true, 1)
        ∷ (true, 1)
        ∷ (false, 0)
        ∷ (true, 0)
        ∷ (true, 0)
        ∷ (true, 2)
        ∷ (true, 1)
        ∷ (true, 1)
        ∷ (true, 1)
        ∷ (true, 1)
        ∷ (true, 2)
        ∷ (true, 2)
        ∷ (true, 1)
        ∷ (true, 1)
        ∷ (true, 1)
        ∷ (true, 1)
        ∷ (true, 1)
        ∷ [])
      initial

overtaken_holds : ◌≡◌ {A = Phase × Phase} (overtaken.phase 1, overtaken.phase 2) (holding, holding)
unfolding initial take_turn turn is_stale play
overtaken_holds = refl

-- Call 0 creates the lock and stops for more than a second before it writes it. Call 1 takes the lock for
-- ownerless and gets it, and call 0 goes on.
abbrev stopped : System
stopped =
    play
      ((true, 0)
        ∷ (true, 0)
        ∷ (true, 1)
        ∷ (true, 1)
        ∷ (true, 1)
        ∷ (true, 1)
        ∷ (true, 1)
        ∷ (true, 1)
        ∷ (true, 1)
        ∷ (true, 1)
        ∷ (true, 1)
        ∷ (true, 1)
        ∷ (true, 1)
        ∷ (true, 0)
        ∷ [])
      initial

stopped_holds : ◌≡◌ {A = Phase × Phase} (stopped.phase 0, stopped.phase 1) (holding, holding)
unfolding initial take_turn turn is_stale play
stopped_holds = refl
