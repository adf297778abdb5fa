-- ===== src/Launch/Lease/Holders.antt =====
-- `acquireProductionProvider`, `cleanupProductionProviderLease` and
-- `scheduleProductionProviderCleanup` of src/harness-runs/operations/launch.mjs, for one project. Each is
-- cut where it waits: a preparation and a rollback take their time while others have their turns.
use sandking.Base.{
  ℕ, ◌+◌, ◌-◌, ◌==◌, Bool, true, false, ◌||◌, List, [], ◌∷◌, Option, none, some, ltb, if◌then◌else◌,
}

-- A lease: `cleaning` is whether it has a `cleanupOperation`. Its preparation is told by a number.
pub record Lease : Type 0 where
  pub preparation_id : ℕ
  pub count : ℕ
  pub cleaning : Bool
  pub retry_timer : Bool

-- How far the acquisition is that has the mutation lock: it waits for the cleanup of a lease without
-- holders, or it prepares, with a lease that it has joined or for one of its own.
pub data Phase : Type 0 where
  idle waiting : Phase
  preparing : Bool → Phase

-- `active` is what `activeProductionProviderPreparations` has for the project. `holding` counts the
-- launches that have acquired and not yet released, `rolled_back` lists the rollbacks that succeeded.
pub record Provider : Type 0 where
  pub active : Option Lease
  pub phase : Phase
  pub holding : ℕ
  pub next_preparation_id : ℕ
  pub rolled_back : List ℕ

unfoldable pub no_provider : Provider
no_provider = record {
  active = none;
  phase = idle;
  holding = 0;
  next_preparation_id = 0;
  rolled_back = [];
}

-- `scheduleProductionProviderCleanup` of the active lease.
unfoldable pub schedule_cleanup : Lease → Lease
schedule_cleanup l = if l.retry_timer || ltb 0 l.count then l else record l { retry_timer = true }

-- `cleanupProductionProviderLease` of the active lease, up to its wait.
unfoldable pub cleanup_lease : Lease → Lease
cleanup_lease l = if ltb 0 l.count then l else record l { cleaning = true }

-- The acquisition up to its first wait.
unfoldable pub begin_acquire : Provider → Provider
unfolding cleanup_lease
begin_acquire p = elim p.active [
  | none ↦ record p { phase = preparing false }
  | some l ↦
      if l.count == 0
      then record p { active = some (cleanup_lease l); phase = waiting }
      else record p { active = some (record l { count = l.count + 1 }); phase = preparing true }
]

-- The preparation has succeeded.
unfoldable pub prepared : Bool → Provider → Provider
prepared true p = record p { phase = idle; holding = p.holding + 1 }
prepared false p = record p {
  active = some record {
    preparation_id = p.next_preparation_id;
    count = 1;
    cleaning = false;
    retry_timer = false;
  };
  phase = idle;
  holding = p.holding + 1;
  next_preparation_id = p.next_preparation_id + 1;
}

-- The lease after one of its holders is gone.
unfoldable pub drop_holder : Provider → Provider
unfolding cleanup_lease
drop_holder p = elim p.active [
  | none ↦ p
  | some l ↦ record p { active = some (cleanup_lease (record l { count = l.count - 1 })) }
]

-- The preparation has thrown.
unfoldable pub preparation_failed : Bool → Provider → Provider
unfolding drop_holder
preparation_failed true p = drop_holder (record p { phase = idle })
preparation_failed false p = record p { phase = idle }

-- The first call of `rollback` of one of the holders.
unfoldable pub release : Provider → Provider
unfolding drop_holder
release p = drop_holder (record p { holding = p.holding - 1 })

-- A further call of `rollback`, of the holder of a preparation.
unfoldable pub release_again : ℕ → Provider → Provider
unfolding cleanup_lease
release_again id p = elim p.active [
  | none ↦ p
  | some l ↦ if l.preparation_id == id then record p { active = some (cleanup_lease l) } else p
]

-- The acquisition that waits goes on with a preparation of its own.
abbrev resumed : Phase → Phase
resumed waiting = preparing false
resumed idle = idle
resumed (preparing joined) = preparing joined

abbrev thrown : Phase → Phase
thrown waiting = idle
thrown idle = idle
thrown (preparing joined) = preparing joined

-- The rollback of the active lease has succeeded.
unfoldable pub rollback_succeeded : Lease → Provider → Provider
rollback_succeeded l p = record p {
  active = if l.count == 0 then none else some (record l { retry_timer = false });
  phase = resumed p.phase;
  rolled_back = l.preparation_id ∷ p.rolled_back;
}

-- The rollback has thrown; `transient` is whether with `harness_projection_failed`.
unfoldable pub rollback_failed : Bool → Lease → Provider → Provider
unfolding schedule_cleanup
rollback_failed transient l p =
    let free : Lease = record l { cleaning = false } in
    record p {
      active = some (if transient then schedule_cleanup free else free);
      phase = thrown p.phase;
    }

-- The timer fires.
unfoldable pub retry : Lease → Provider → Provider
unfolding cleanup_lease
retry l p = record p { active = some (cleanup_lease (record l { retry_timer = false })) }
