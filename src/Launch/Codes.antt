-- ===== src/Launch/Codes.antt =====
-- The codes of failed launches in src/harness-runs/operations/launch.mjs and
-- src/github-credential-contract.mjs.
use sandking.Base.{Bool, String, str_eq, List, [], ◌∷◌, ◌++◌, any, if◌then◌else◌}

abbrev pub includes : List String → String → Bool
includes codes code = any (λ c. str_eq c code) codes

unfoldable pub github_credential_failure_codes : List String
github_credential_failure_codes =
    "github_credential_unconfigured" ∷ "github_host_gh_session_unavailable" ∷ []

-- The codes that the preparation of a launch may throw.
unfoldable pub preparation_codes : List String
unfolding github_credential_failure_codes
preparation_codes =
    ("project_not_found" ∷ "harness_not_found" ∷ "harness_pin_missing" ∷ "harness_pin_invalid"
      ∷ "harness_workspace_invalid" ∷ "harness_pin_unreadable" ∷ "harness_adapter_bytes_mismatch"
      ∷ "harness_compatibility_unsupported" ∷ "harness_skill_lock_missing"
      ∷ "harness_skill_lock_invalid" ∷ "harness_locked_skill_unavailable"
      ∷ "harness_skill_integrity_mismatch" ∷ "harness_projection_collision"
      ∷ "harness_projection_failed" ∷ "harness_execution_runtime_unavailable"
      ∷ "harness_worker_provider_unavailable" ∷ "real_delegation_issue_required"
      ∷ "bounded_configuration_invalid" ∷ "harness_capability_unsupported"
      ∷ "harness_adapter_protocol_invalid" ∷ "harness_preparation_side_effect_detected" ∷ [])
    ++ github_credential_failure_codes

unfoldable pub retryable_preparation_failures : List String
unfolding github_credential_failure_codes
retryable_preparation_failures =
    ("project_not_found" ∷ "harness_pin_unreadable" ∷ "harness_adapter_bytes_mismatch"
      ∷ "harness_compatibility_unsupported" ∷ "harness_skill_lock_missing"
      ∷ "harness_skill_lock_invalid" ∷ "harness_locked_skill_unavailable"
      ∷ "harness_skill_integrity_mismatch" ∷ "harness_projection_collision"
      ∷ "harness_projection_failed" ∷ "harness_execution_runtime_unavailable"
      ∷ "harness_worker_provider_unavailable" ∷ "real_delegation_issue_required" ∷ [])
    ++ github_credential_failure_codes

-- The code of an error that the preparation has thrown.
unfoldable pub preparation_code : String → String
preparation_code code =
    if includes preparation_codes code then code else "harness_workspace_invalid"

-- The code of an error that the execution snapshot has thrown.
unfoldable pub snapshot_code : String → String
snapshot_code code =
    if includes ("harness_projection_collision" ∷ "harness_projection_failed" ∷ []) code
    then code
    else "harness_projection_failed"

unfoldable pub is_retryable : String → Bool
is_retryable code = includes retryable_preparation_failures code
