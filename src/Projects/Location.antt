-- ===== src/Projects/Location.antt =====
-- `resolveProjectLocation` of src/project-registration/path-resolution.mjs. What the file system says of a
-- path is an argument.
use sandking.Base.{
  ℕ, ◌==◌, Bool, not, ◌&&◌, List, [], ◌∷◌, Option, none, some, any, filter, leb, map, if◌then◌else◌,
}
use sandking.Projects.Types.{
  Project, Registration, FailureCode, project_resolution_registration, is_active,
  project_path_invalid,
}

-- `registrationCandidateAt`.
pub record Candidate : Type 0 where
  pub canonical_path : ℕ
  pub identity_digest : ℕ
  pub display_name : ℕ
  pub git_detected : Bool

-- A path that is no project's (it is malformed, no directory, or the Host's own), one that cannot be read,
-- by its normalized form, or a directory.
pub data Place : Type 0 where
  refused : Place
  unreadable : ℕ → Place
  directory : Candidate → Place

pub record LocationFailure : Type 0 where
  pub code : FailureCode
  pub actual_revision : ℕ
  pub registrations : Option (List Registration)
  pub registration_candidate : Option Candidate
  pub selected_canonical_path : Option ℕ

pub data Location : Type 0 where
  failure : LocationFailure → Location
  registered : Project → ℕ → Location
  unregistered : Candidate → ℕ → Location

abbrev pub max_revision : List Project → ℕ
max_revision [] = 0
max_revision (p ∷ ps) =
    let rest = max_revision ps in if leb p.revision rest then rest else p.revision

-- `reduce`: the first of the greatest revision.
abbrev pub latest : Project → List Project → Project
latest p [] = p
latest p (q ∷ ps) = latest (if leb q.revision p.revision then p else q) ps

abbrev pub at_path : ℕ → List Project → List Project
at_path path = filter (λ p. p.canonical_path == path)

abbrev pub of_identity : ℕ → List Project → List Project
of_identity digest = filter (λ p. p.filesystem_identity_digest == digest)

abbrev pub active_ones : List Project → List Project
active_ones = filter is_active

abbrev pub tombstoned_ones : List Project → List Project
tombstoned_ones = filter (λ p. not (is_active p))

abbrev pub invalid : Location
invalid = failure record {
  code = project_path_invalid;
  actual_revision = 0;
  registrations = none;
  registration_candidate = none;
  selected_canonical_path = none;
}

abbrev pub conflict : List Project → ℕ → Location
conflict ps path = failure record {
  code = FailureCode.project_path_conflict;
  actual_revision = max_revision ps;
  registrations = some (map project_resolution_registration ps);
  registration_candidate = none;
  selected_canonical_path = some path;
}

abbrev pub tombstoned : Project → List Project → Option Candidate → Location
tombstoned p ps candidate = failure record {
  code = FailureCode.project_path_tombstoned;
  actual_revision = (latest p ps).revision;
  registrations = some (map project_resolution_registration (p ∷ ps));
  registration_candidate = candidate;
  selected_canonical_path = none;
}

abbrev pub only_one : FailureCode → Project → Option Candidate → Location
only_one code p candidate = failure record {
  code = code;
  actual_revision = p.revision;
  registrations = some (project_resolution_registration p ∷ []);
  registration_candidate = candidate;
  selected_canonical_path = none;
}

-- The active registrations that share their identity with one at the path.
abbrev pub active_of : List Project → List Project → List Project
active_of [] ps = []
active_of (a ∷ rest) ps =
    filter
      (λ p.
        is_active p
        && any (λ q. q.filesystem_identity_digest == p.filesystem_identity_digest) (a ∷ rest))
      ps

abbrev pub resolve_unreadable : ℕ → List Project → List Project → Location
resolve_unreadable path (p ∷ q ∷ ps) stored = conflict (p ∷ q ∷ ps) path
resolve_unreadable path (p ∷ []) stored = only_one FailureCode.project_path_missing p none
resolve_unreadable path [] (t ∷ ts) = tombstoned t ts none
resolve_unreadable path [] [] = invalid

-- An active registration at the path.
abbrev pub resolve_registered : Candidate → Project → List Project → Location
resolve_registered c p (a ∷ b ∷ ps) = conflict (a ∷ b ∷ ps) c.canonical_path
resolve_registered c p _ = registered p p.revision

-- No active registration at the path, nor a tombstoned one.
abbrev pub resolve_elsewhere : Candidate → List Project → List Project → Location
resolve_elsewhere c (a ∷ b ∷ ps) gone = conflict (a ∷ b ∷ ps) c.canonical_path
resolve_elsewhere c (a ∷ []) gone = only_one FailureCode.project_path_moved a (some c)
resolve_elsewhere c [] (t ∷ ts) = tombstoned t ts (some c)
resolve_elsewhere c [] [] = unregistered c 0

abbrev pub resolve_inactive : Candidate → List Project → List Project → Location
resolve_inactive c (t ∷ ts) matching = tombstoned t ts (some c)
resolve_inactive c [] matching =
    resolve_elsewhere c (active_ones matching) (tombstoned_ones matching)

abbrev pub resolve_directory : Candidate → List Project → List Project → List Project → Location
resolve_directory c (p ∷ q ∷ ps) gone matching = conflict (p ∷ q ∷ ps) c.canonical_path
resolve_directory c (p ∷ []) gone matching =
    if p.filesystem_identity_digest == c.identity_digest
    then resolve_registered c p (active_ones matching)
    else only_one FailureCode.project_path_replaced p (some c)
resolve_directory c [] gone matching = resolve_inactive c gone matching

unfoldable pub resolve_project_location : List Project → Place → Location
resolve_project_location ps refused = invalid
resolve_project_location ps (unreadable path) =
    resolve_unreadable path (active_of (active_ones (at_path path ps)) ps)
      (tombstoned_ones (at_path path ps))
resolve_project_location ps (directory c) =
    resolve_directory c (active_ones (at_path c.canonical_path ps))
      (tombstoned_ones (at_path c.canonical_path ps)) (of_identity c.identity_digest ps)
