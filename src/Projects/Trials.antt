-- ===== src/Projects/Trials.antt =====
-- The operations of src/project-registration on concrete projects.
use sandking.Base.{ℕ, ◌≡◌, refl, true, false, [], ◌∷◌, none, some, ok, ◌↔◌}
use sandking.Projects.Types.{
  Status, Project, Answer, answered, State, project_registered,
  project_registration_conflict_resolved,
}
use sandking.Projects.Location.{Candidate, directory, registered, resolve_project_location}
use sandking.Projects.Located.{resolve_registered_iff, active_at, active_with}
use sandking.Projects.Requests.{Envelope, Surroundings, replay}
use sandking.Projects.Resolution.{
  ResolveRequest, resolve_conflict, apply_project_registration_resolution, resolve_existing,
  resolve_new, address, carry_out, resolve_project, resolve_found, select_project, conclude,
}
use sandking.Projects.Advanced.{IsSound, resolution-IsSound}
use sandking.Projects.Found.{settled, resolution_settles}
use sandking.Projects.Repeated.{resolution-resolution}
use sandking.Projects.Preparing.{Workshop}
use sandking.Projects.Registry.{
  RegisterRequest, absent, register_project, register_existing, register_request, register_at,
  register_new, is_absent,
}
use sandking.Projects.Registered.{leads_to, register_project-leads_to}

abbrev here : Candidate
here = record { canonical_path = 7; identity_digest = 9; display_name = 5; git_detected = true }

abbrev project_at : ℕ → ℕ → Status → Project
project_at id revision status = record {
  project_id = id;
  revision = revision;
  display_name = 5;
  canonical_path = 7;
  filesystem_identity_digest = 9;
  status = status;
  git_detected = true;
  configuration = 4;
  harness = none;
  created_at = 10;
  updated_at = 10;
}

abbrev envelope : ℕ → ℕ → Envelope
envelope request_id revision = record {
  request_id = request_id;
  authorized = true;
  idempotency_key_hash = some 11;
  request_fingerprint = 12;
  expected_revision = some revision;
}

abbrev surroundings : Surroundings
surroundings = record { audit_id = 13; now = 20; place = λ n. directory here }

-- Two active projects at one path.
abbrev conflicting : State
conflicting = record {
  projects = project_at 1 3 Status.active ∷ project_at 2 1 Status.active ∷ [];
  registration_outcomes = [];
  pin_outcomes = [];
}

abbrev select_1 : ℕ → ResolveRequest
select_1 request_id = record {
  envelope = envelope request_id 3;
  action = some resolve_conflict;
  project_id = some 1;
  has_path = true;
}

abbrev selected : Project
selected = record (project_at 1 4 Status.active) { updated_at = 20 }

abbrev selection : Answer
selection = record {
  request_id = 30;
  code = project_registration_conflict_resolved;
  expected_revision = 3;
  revision = 4;
  idempotent_replay = false;
  audit_id = 13;
  project = selected;
  harness = none;
}

abbrev resolved : State
resolved = record {
  projects = selected ∷ record (project_at 2 2 Status.tombstoned) { updated_at = 20 } ∷ [];
  registration_outcomes =
      record { idempotency_key_hash = 11; request_fingerprint = 12; response = answered selection }
      ∷ [];
  pin_outcomes = [];
}

selects :
    apply_project_registration_resolution conflicting (select_1 30) surroundings
    ≡ ok (resolved, answered selection)
unfolding apply_project_registration_resolution resolve_existing resolve_new address carry_out
    resolve_project resolve_found select_project conclude resolve_project_location
selects = refl

resolve_registered_iff_example :
    (resolve_project_location resolved.projects (directory here) ≡ registered selected 4) ↔ (
      (active_at 7 resolved.projects ≡ selected ∷ [])
      × (active_with 9 resolved.projects ≡ selected ∷ [])
      × (◌≡◌ {A = ℕ} 4 4))
resolve_registered_iff_example = resolve_registered_iff resolved.projects here selected 4

resolution-IsSound_example :
    IsSound conflicting
      (apply_project_registration_resolution conflicting (select_1 30) surroundings)
resolution-IsSound_example = resolution-IsSound conflicting (select_1 30) surroundings

resolution_settles_example :
    settled here (apply_project_registration_resolution conflicting (select_1 30) surroundings)
    ≡ true
unfolding resolve_project_location
resolution_settles_example =
    resolution_settles conflicting (select_1 30) surroundings here refl (λ n. refl) refl refl

resolution-resolution_example :
    apply_project_registration_resolution resolved (select_1 31) surroundings
    ≡ ok (resolved, replay (envelope 31 3) (answered selection))
resolution-resolution_example =
    resolution-resolution conflicting resolved (select_1 30) (select_1 31) surroundings surroundings
      11 selection refl refl refl refl selects

abbrev shop : Workshop
shop = record {
  harnesses = [];
  place = directory here;
  prepared = ok 0;
  prepared_again = ok 0;
  observed_head = none;
}

abbrev nothing : State
nothing = record { projects = []; registration_outcomes = []; pin_outcomes = [] }

abbrev new_request : RegisterRequest
new_request = record {
  envelope = envelope 40 0;
  configuration = some 4;
  resolution_action = absent;
}

abbrev registration : Answer
registration = record {
  request_id = 40;
  code = project_registered;
  expected_revision = 0;
  revision = 1;
  idempotent_replay = false;
  audit_id = 13;
  project = record (project_at 3 1 Status.active) { created_at = 20; updated_at = 20 };
  harness = none;
}

abbrev one_project : State
one_project = record {
  projects = registration.project ∷ [];
  registration_outcomes =
      record {
        idempotency_key_hash = 11;
        request_fingerprint = 12;
        response = answered registration;
      }
      ∷ [];
  pin_outcomes = [];
}

registers :
    register_project shop nothing new_request surroundings 3 ≡ (one_project, answered registration)
unfolding register_project register_existing register_request register_at register_new
    resolve_project_location
registers = refl

register_project-leads_to_example :
    (leads_to 3 (resolve_project_location one_project.projects (directory here)) ≡ true)
    × (is_absent absent ≡ true
        → resolve_project_location one_project.projects (directory here)
          ≡ registered registration.project 1)
register_project-leads_to_example =
    register_project-leads_to shop nothing one_project new_request surroundings 3 here registration
      refl refl registers refl
