-- ===== src/Projects/PinTrials.antt =====
-- Pins and harnesses of src/project-registration/registry.mjs on concrete projects.
use sandking.Base.{◌≡◌, refl, true, false, [], ◌∷◌, none, some, ok}
use sandking.Projects.Types.{
  Status, AdapterId, Project, Harness, Answer, answered, State, project_harness_pinned,
}
use sandking.Projects.Location.{directory, resolve_project_location}
use sandking.Projects.Requests.{Surroundings}
use sandking.Projects.Preparing.{
  Workshop, prepare_retained_production_project, prepare_linked,
  require_registered_project_location,
}
use sandking.Projects.Pinning.{
  PinRequest, find_harness, pin_harness, pin_existing, pin_new, pin_located, pin_prepared,
  retain_pin,
}
use sandking.Projects.LaunchContext.{launches, load_launch_context}
use sandking.Projects.Harnesses.{HarnessState, HarnessRequest, register_bundled_harness}
use sandking.Projects.Bundled.{Keeps, left_by, register_bundled_harness-Keeps}
use sandking.Projects.Launched.{pin_harness-load_launch_context}

abbrev project : Project
project = record {
  project_id = 3;
  revision = 1;
  display_name = 5;
  canonical_path = 7;
  filesystem_identity_digest = 9;
  status = Status.active;
  git_detected = true;
  configuration = 4;
  harness = none;
  created_at = 10;
  updated_at = 10;
}

abbrev harness : Harness
harness = record {
  harness_id = 50;
  revision = 1;
  adapter_id = AdapterId.sandcastle;
  immutable_revision = 60;
}

abbrev workshop : Workshop
workshop = record {
  harnesses = harness ∷ [];
  place =
      directory
        record { canonical_path = 7; identity_digest = 9; display_name = 5; git_detected = true };
  prepared = ok 70;
  prepared_again = ok 70;
  observed_head = none;
}

abbrev retained : State
retained = record { projects = project ∷ []; registration_outcomes = []; pin_outcomes = [] }

abbrev pin_request : PinRequest
pin_request = record {
  envelope = record {
    request_id = 30;
    authorized = true;
    idempotency_key_hash = some 11;
    request_fingerprint = 0;
    expected_revision = some 1;
  };
  project_id = 3;
  harness_id = 50;
  bounded_configuration = some 80;
  pin_request_fingerprint = λ revision. 12;
}

abbrev surroundings : Surroundings
surroundings = record { audit_id = 13; now = 20; place = λ n. workshop.place }

abbrev pinned : Project
pinned = record project {
  revision = 2;
  harness = some record {
    harness_id = 50;
    adapter_id = AdapterId.sandcastle;
    pinned_revision = 60;
    bounded_configuration = 80;
    preparation = some 70;
  };
  updated_at = 20;
}

abbrev pin : Answer
pin = record {
  request_id = 30;
  code = project_harness_pinned;
  expected_revision = 1;
  revision = 2;
  idempotent_replay = false;
  audit_id = 13;
  project = pinned;
  harness = some harness;
}

abbrev pinned_state : State
pinned_state = record {
  projects = pinned ∷ [];
  registration_outcomes = [];
  pin_outcomes =
      record { idempotency_key_hash = 11; request_fingerprint = 12; response = answered pin } ∷ [];
}

pins : pin_harness workshop retained pin_request surroundings ≡ (pinned_state, answered pin)
unfolding pin_harness pin_existing pin_new pin_located pin_prepared retain_pin prepare_linked
    prepare_retained_production_project require_registered_project_location resolve_project_location
pins = refl

pin_harness-load_launch_context_example :
    (h : Harness) × (find_harness 50 workshop.harnesses ≡ some h)
    × (load_launch_context workshop pinned_state true 3 ≡ ok (pinned_state, launches pinned h))
pin_harness-load_launch_context_example =
    pin_harness-load_launch_context workshop retained pinned_state pin_request surroundings
      (record { canonical_path = 7; identity_digest = 9; display_name = 5; git_detected = true }) 70
      pin refl refl refl refl refl pins

abbrev one_harness : HarnessState
one_harness = record { harnesses = harness ∷ []; registration_outcomes = [] }

abbrev harness_request : HarnessRequest
harness_request = record {
  envelope = record pin_request.envelope { expected_revision = some 0 };
  adapter_id = AdapterId.conformance;
  names_it = true;
}

register_bundled_harness-Keeps_example : Keeps one_harness (
    left_by one_harness (
      register_bundled_harness one_harness harness_request surroundings
        (record { harness_id = 51; made = ok 61 })))
register_bundled_harness-Keeps_example =
    register_bundled_harness-Keeps one_harness harness_request surroundings
      (record { harness_id = 51; made = ok 61 })
