-- ===== src/Runs/Observed.antt =====
-- What the Host makes of an inspection of a process tree in src/harness-runs/schemas.mjs: which
-- observation it retains, and which actions it offers.
use sandking.Base.{ℕ, ◌≡◌, Bool, not, ◌&&◌, ok, any, arith, if◌then◌else◌}
use sandking.Runs.Types.{Observation, Action}
use sandking.Runs.Observation.{
  Inspection, is_confirmed_evidence, observation_accepts, parse_observation, may_terminate,
  recovery_process_observation, available_recovery_actions, same_action, confirmed_observation,
  unconfirmed_observation,
}

abbrev pub offers : Action → Observation → Bool
offers action o = any (same_action action) (available_recovery_actions o)

-- Every inspection yields an observation that the schema accepts. It counts as confirmed exactly if
-- the inspection does, and terminating is safe exactly if the tree is known to run under the
-- identity that the Host has retained.
pub recovery_process_observation_lem :
    (i : Inspection) (observed_at : ℕ) (available : Bool)
    → (o : Observation) × (recovery_process_observation i observed_at available ≡ ok o)
      × (is_confirmed_evidence o.termination_evidence ≡ i.is_confirmed)
      × (o.safe_to_terminate ≡ (not i.is_confirmed && may_terminate i available))
      × (o.platform ≡ i.platform)
unfolding recovery_process_observation parse_observation observation_accepts may_terminate
    confirmed_observation unconfirmed_observation
recovery_process_observation_lem i observed_at available = (
  if i.is_confirmed
      then confirmed_observation i observed_at
      else unconfirmed_observation i observed_at (may_terminate i available),
  ground arith,
  ground arith,
  ground arith,
  ground arith,
)

-- The actions on offer: finalizing exactly on confirmed termination, terminating exactly where it is
-- safe, looking again exactly while termination is unconfirmed.
pub recovery_process_observation-available_recovery_actions :
    (i : Inspection) (observed_at : ℕ) (available : Bool) (o : Observation)
    → recovery_process_observation i observed_at available ≡ ok o
    → (offers Action.finalize o ≡ i.is_confirmed)
      × (offers Action.recheck o ≡ not i.is_confirmed)
      × (offers Action.terminate_confirmed_tree o
          ≡ (not i.is_confirmed && may_terminate i available))
unfolding recovery_process_observation parse_observation may_terminate available_recovery_actions
    confirmed_observation unconfirmed_observation
recovery_process_observation-available_recovery_actions i observed_at available o h = ground arith
