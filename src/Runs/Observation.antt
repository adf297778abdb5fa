-- ===== src/Runs/Observation.antt =====
-- `recoveryProcessObservation`, the two refinements of the recovery schemas and
-- `availableRecoveryActions` of src/harness-runs/schemas.mjs.
use sandking.Base.{
  ℕ, Bool, true, false, not, ◌&&◌, ◌||◌, List, [], ◌∷◌, Option, none, some, Result, ok, err, leb,
  ltb, ◌==◌, if◌then◌else◌,
}
use sandking.Runs.Types.{
  Platform, Evidence, ProcessState, IdentityProof, Observation, Action, Recovery, Failure,
}

-- What an inspection of the process tree reports. The platform is one of the three, by the
-- inspectors' types; any other member that is missing, or of another type than the code asks for, is
-- none.
pub record Inspection : Type 0 where
  pub platform : Platform
  pub is_confirmed : Bool
  pub process_state_running_confirmed : Bool
  pub identity_retained : Bool
  pub safe_to_terminate : Bool
  pub process_count : Option ℕ
  pub launch_settled : Option Bool
  pub tree_empty : Option Bool

abbrev is_true : Option Bool → Bool
is_true (some true) = true
is_true _ = false

abbrev is_false : Option Bool → Bool
is_false (some false) = true
is_false _ = false

abbrev is_zero : Option ℕ → Bool
is_zero none = false
is_zero (some n) = n == 0

abbrev is_positive : Option ℕ → Bool
is_positive none = false
is_positive (some n) = ltb 0 n

abbrev is_absent : Option ℕ → Bool
is_absent none = true
is_absent (some n) = false

abbrev pub is_confirmed_evidence : Evidence → Bool
is_confirmed_evidence Evidence.confirmed = true
is_confirmed_evidence Evidence.unconfirmed = false

abbrev is_terminated : ProcessState → Bool
is_terminated ProcessState.terminated_confirmed = true
is_terminated _ = false

abbrev is_running : ProcessState → Bool
is_running ProcessState.running_confirmed = true
is_running _ = false

abbrev is_unknown : ProcessState → Bool
is_unknown ProcessState.unknown = true
is_unknown _ = false

abbrev is_retained : IdentityProof → Bool
is_retained IdentityProof.retained_supervision_identity = true
is_retained IdentityProof.unavailable = false

-- The three issues of `harnessRunRecoveryProcessObservationSchema`, and the bound on the count.
unfoldable pub observation_accepts : Observation → Bool
observation_accepts o =
    not (
      is_confirmed_evidence o.termination_evidence
      && (not (is_terminated o.related_process_state)
          || not (is_true o.tree_empty)
          || not (is_zero o.process_count)
          || o.safe_to_terminate))
    && not (
        o.safe_to_terminate
        && (is_confirmed_evidence o.termination_evidence
            || not (is_running o.related_process_state)
            || not (is_retained o.identity_proof)
            || not (is_positive o.process_count)
            || not (is_true o.launch_settled)
            || not (is_false o.tree_empty)))
    && not (
        is_unknown o.related_process_state
        && (is_retained o.identity_proof || not (is_absent o.process_count) || o.safe_to_terminate))
    && within o.process_count
  where
    within : Option ℕ → Bool
    within none = true
    within (some n) = leb n 65536

unfoldable pub parse_observation : Observation → Result Failure Observation
parse_observation o = if observation_accepts o then ok o else err Failure.schema_invalid

abbrev bounded_count : Option ℕ → Option ℕ
bounded_count none = none
bounded_count (some n) = if ltb 0 n && leb n 65536 then some n else none

abbrev or_true : Option Bool → Option Bool
or_true none = some true
or_true (some b) = some b

unfoldable pub confirmed_observation : Inspection → ℕ → Observation
confirmed_observation i observed_at = record {
  observed_at = observed_at;
  platform = i.platform;
  termination_evidence = Evidence.confirmed;
  related_process_state = ProcessState.terminated_confirmed;
  identity_proof =
      if i.identity_retained
      then IdentityProof.retained_supervision_identity
      else IdentityProof.unavailable;
  process_count = some 0;
  launch_settled = or_true i.launch_settled;
  tree_empty = some true;
  safe_to_terminate = false;
}

-- The test that `safeToTerminate` is computed by.
unfoldable pub may_terminate : Inspection → Bool → Bool
may_terminate i termination_available =
    i.process_state_running_confirmed
    && i.identity_retained
    && i.safe_to_terminate
    && termination_available
    && is_true i.launch_settled
    && is_false i.tree_empty
    && is_positive (bounded_count i.process_count)

unfoldable pub unconfirmed_observation : Inspection → ℕ → Bool → Observation
unconfirmed_observation i observed_at safe = record {
  observed_at = observed_at;
  platform = i.platform;
  termination_evidence = Evidence.unconfirmed;
  related_process_state = if safe then ProcessState.running_confirmed else ProcessState.unknown;
  identity_proof =
      if safe then IdentityProof.retained_supervision_identity else IdentityProof.unavailable;
  process_count = if safe then bounded_count i.process_count else none;
  launch_settled = i.launch_settled;
  tree_empty = i.tree_empty;
  safe_to_terminate = safe;
}

unfoldable pub recovery_process_observation : Inspection → ℕ → Bool → Result Failure Observation
unfolding confirmed_observation unconfirmed_observation
recovery_process_observation i observed_at termination_available = parse_observation (
    if i.is_confirmed
    then confirmed_observation i observed_at
    else unconfirmed_observation i observed_at (may_terminate i termination_available))

unfoldable pub available_recovery_actions : Observation → List Action
available_recovery_actions o =
    if is_confirmed_evidence o.termination_evidence
    then Action.finalize ∷ []
    else if o.safe_to_terminate
    then Action.recheck ∷ Action.terminate_confirmed_tree ∷ []
    else Action.recheck ∷ []

abbrev pub same_platform : Platform → Platform → Bool
same_platform Platform.linux Platform.linux = true
same_platform Platform.win32 Platform.win32 = true
same_platform Platform.darwin Platform.darwin = true
same_platform _ _ = false

abbrev pub same_action : Action → Action → Bool
same_action Action.recheck Action.recheck = true
same_action Action.terminate_confirmed_tree Action.terminate_confirmed_tree = true
same_action Action.finalize Action.finalize = true
same_action _ _ = false

abbrev same_evidence : Evidence → Evidence → Bool
same_evidence Evidence.confirmed Evidence.confirmed = true
same_evidence Evidence.unconfirmed Evidence.unconfirmed = true
same_evidence _ _ = false

abbrev same_actions : List Action → List Action → Bool
same_actions [] [] = true
same_actions (a ∷ as_) (b ∷ bs) = same_action a b && same_actions as_ bs
same_actions _ _ = false

-- The issue of `harnessRunRecoverySchema`.
unfoldable pub recovery_accepts : Recovery → Bool
recovery_accepts r =
    not (is_confirmed_evidence r.initial_process_observation.termination_evidence)
    && same_platform r.initial_process_observation.platform r.platform
    && same_platform r.process_observation.platform r.platform
    && same_evidence r.process_observation.termination_evidence r.termination_evidence
    && same_actions r.initial_available_actions
        (available_recovery_actions r.initial_process_observation)
    && same_actions r.available_actions (available_recovery_actions r.process_observation)

unfoldable pub parse_recovery : Recovery → Result Failure Recovery
parse_recovery r = if recovery_accepts r then ok r else err Failure.schema_invalid
