-- ===== src/Projects/Harnesses.antt =====
-- `registerBundledHarness` of src/project-registration/registry.mjs, under the mutation lock, and the
-- inspection of a registered harness.
use sandking.Base.{
  ℕ, ◌-◌, ◌==◌, Bool, true, false, not, ◌&&◌, List, [], ◌∷◌, ◌++◌, Option, none, some, find, drop,
  length, Result, ok, err, if◌then◌else◌,
}
use sandking.Projects.Types.{
  AdapterId, conformance, sandcastle, Harness, FailureCode, Failure, mutation_contract_invalid,
  idempotency_key_conflict, mutation_revision_conflict, harness_seed_missing,
}
use sandking.Projects.Requests.{Envelope, Surroundings, operation_failure}
use sandking.Projects.Preparing.{is_sandcastle}

pub data HarnessCode : Type 0 where
  harness_registered harness_registration_reused : HarnessCode

pub record HarnessAnswer : Type 0 where
  pub request_id : ℕ
  pub code : HarnessCode
  pub expected_revision : ℕ
  pub revision : ℕ
  pub idempotent_replay : Bool
  pub audit_id : ℕ
  pub harness : Harness

pub data HarnessResponse : Type 0 where
  registered_as : HarnessAnswer → HarnessResponse
  refused : Failure → HarnessResponse

pub record HarnessOutcome : Type 0 where
  pub idempotency_key_hash : ℕ
  pub request_fingerprint : ℕ
  pub response : HarnessAnswer

pub record HarnessState : Type 0 where
  pub harnesses : List Harness
  pub registration_outcomes : List HarnessOutcome

-- Any other error while a workspace is made.
pub data HarnessThrown : Type 0 where
  workspace_failed : HarnessThrown

-- The adapter is the descriptor's; `names_it` says that the request has the descriptor's name.
pub record HarnessRequest : Type 0 where
  pub envelope : Envelope
  pub adapter_id : AdapterId
  pub names_it : Bool

-- A new harness: its id, and the immutable revision of the workspace that was made and probed, or the
-- error, with the code of a seed error.
pub record Making : Type 0 where
  pub harness_id : ℕ
  pub made : Result (Option FailureCode) ℕ

abbrev pub HarnessResult : Type 0
HarnessResult = Result HarnessThrown (HarnessState × HarnessResponse)

abbrev pub same_adapter : AdapterId → AdapterId → Bool
same_adapter sandcastle b = is_sandcastle b
same_adapter conformance b = not (is_sandcastle b)

abbrev pub of_adapter : AdapterId → List Harness → Option Harness
of_adapter a = find (λ h. same_adapter h.adapter_id a)

abbrev pub harness_revision : Option Harness → ℕ
harness_revision none = 0
harness_revision (some h) = h.revision

abbrev pub find_answer : Option ℕ → List HarnessOutcome → Option HarnessOutcome
find_answer none os = none
find_answer (some hash) os = find (λ o. o.idempotency_key_hash == hash) os

abbrev pub refuse :
    HarnessState → HarnessRequest → Surroundings → FailureCode → Bool → ℕ → HarnessResult
refuse s r w code retryable revision =
    ok (s, refused (operation_failure r.envelope w code retryable revision none))

unfoldable pub retain_harness :
    HarnessState
    → HarnessRequest
    → Surroundings
    → ℕ
    → ℕ
    → HarnessCode
    → Harness
    → List Harness
    → HarnessResult
retain_harness s r w hash expected code h hs =
    let answer : HarnessAnswer = record {
      request_id = r.envelope.request_id;
      code = code;
      expected_revision = expected;
      revision = h.revision;
      idempotent_replay = false;
      audit_id = w.audit_id;
      harness = h;
    } in
    let outcomes : List HarnessOutcome =
      s.registration_outcomes
      ++ record {
        idempotency_key_hash = hash;
        request_fingerprint = r.envelope.request_fingerprint;
        response = answer;
      }
        ∷ [] in
    ok (
      record { harnesses = hs; registration_outcomes = drop (length outcomes - 256) outcomes },
      registered_as answer,
    )

-- An error while the production workspace is made is one of its seed.
unfoldable pub make_harness :
    HarnessState
    → HarnessRequest
    → Surroundings
    → ℕ
    → ℕ
    → ℕ
    → Result (Option FailureCode) ℕ
    → HarnessResult
make_harness s r w id hash expected (ok revision) =
    let h : Harness = record {
      harness_id = id;
      revision = 1;
      adapter_id = r.adapter_id;
      immutable_revision = revision;
    } in
    retain_harness s r w hash expected harness_registered h (s.harnesses ++ h ∷ [])
make_harness s r w id hash expected (err (some code)) = refuse s r w code false 0
make_harness s r w id hash expected (err none) =
    if is_sandcastle r.adapter_id
    then refuse s r w harness_seed_missing false 0
    else err workspace_failed

unfoldable pub register_or_reuse :
    HarnessState → HarnessRequest → Surroundings → Making → ℕ → ℕ → Option Harness → HarnessResult
register_or_reuse s r w making hash expected (some h) =
    retain_harness s r w hash expected harness_registration_reused h s.harnesses
register_or_reuse s r w making hash expected none =
    make_harness s r w making.harness_id hash expected making.made

unfoldable pub register_sound :
    HarnessState
    → HarnessRequest
    → Surroundings
    → Making
    → Option ℕ
    → Option ℕ
    → Option Harness
    → HarnessResult
register_sound s r w making (some hash) (some expected) registered =
    if r.envelope.authorized && r.names_it
    then if expected == harness_revision registered
      then register_or_reuse s r w making hash expected registered
      else refuse s r w mutation_revision_conflict true (harness_revision registered)
    else refuse s r w mutation_contract_invalid false (harness_revision registered)
register_sound s r w making _ _ registered =
    refuse s r w mutation_contract_invalid false (harness_revision registered)

unfoldable pub register_answered :
    HarnessState → HarnessRequest → Surroundings → Making → Option HarnessOutcome → HarnessResult
register_answered s r w making none =
    register_sound s r w making r.envelope.idempotency_key_hash r.envelope.expected_revision
      (of_adapter r.adapter_id s.harnesses)
register_answered s r w making (some o) =
    if o.request_fingerprint == r.envelope.request_fingerprint
    then ok (
      s,
      registered_as
          (record o.response { request_id = r.envelope.request_id; idempotent_replay = true }),
    )
    else refuse s r w idempotency_key_conflict false o.response.revision

unfoldable pub register_bundled_harness :
    HarnessState → HarnessRequest → Surroundings → Making → HarnessResult
register_bundled_harness s r w making =
    register_answered s r w making
      (find_answer r.envelope.idempotency_key_hash s.registration_outcomes)

-- `readRegisteredHarness`.
unfoldable pub read_registered_harness : AdapterId → HarnessState → Option Harness
read_registered_harness a s = of_adapter a s.harnesses
