-- ===== src/Launch/Lease/Trials.antt =====
-- Two launches that share a preparation, which is cleaned up behind the second.
use sandking.Base.{◌≡◌, refl, true, false, [], ◌∷◌, arith}
use sandking.Launch.Lease.Holders.{
  Lease, Provider, no_provider, begin_acquire, prepared, drop_holder, cleanup_lease, release,
  rollback_failed, schedule_cleanup, retry, rollback_succeeded,
}
use sandking.Launch.Lease.Turns.{
  Reaches, here, then_turn, begins, prepares, releases, rolls_back, rolls_not_back, retries,
}
use sandking.Launch.Lease.Counted.{IsCounted, no_provider-IsCounted, Reaches-IsCounted}

abbrev cleaned : Lease
cleaned = record { preparation_id = 0; count = 0; cleaning = true; retry_timer = false }

abbrev timed : Lease
timed = record { preparation_id = 0; count = 0; cleaning = false; retry_timer = true }

abbrev first : Provider
first = prepared false (begin_acquire no_provider)

abbrev both : Provider
both = prepared true (begin_acquire first)

abbrev gone : Provider
gone = release (release both)

abbrev ended : Provider
ended = rollback_succeeded cleaned (retry timed (rollback_failed true cleaned gone))

ended_lem : ended.rolled_back ≡ 0 ∷ []
unfolding no_provider begin_acquire prepared release drop_holder cleanup_lease rollback_failed
    schedule_cleanup retry rollback_succeeded
ended_lem = refl

run : Reaches no_provider ended
unfolding no_provider begin_acquire prepared release drop_holder cleanup_lease rollback_failed
    schedule_cleanup retry rollback_succeeded
run =
    then_turn
      (then_turn
        (then_turn
          (then_turn
            (then_turn
              (then_turn
                (then_turn (then_turn (then_turn here (begins refl)) (prepares false refl))
                  (begins refl))
                (prepares true refl))
              (releases (omega arith)))
            (releases (omega arith)))
          (rolls_not_back true cleaned refl refl))
        (retries timed refl refl))
      (rolls_back cleaned refl refl)

Reaches-IsCounted_example : IsCounted ended
Reaches-IsCounted_example = Reaches-IsCounted run no_provider-IsCounted
