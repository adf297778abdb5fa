-- ===== src/Projects/Registered/Appended.antt =====
-- Where a path leads once a project is put behind the others, for src/project-registration/registry.mjs.
use sandking.Base.{
  ℕ, ◌≡◌, ◌==◌, ◌||◌, refl, ap, ◌∙◌, Bool, true, false, List, [], ◌∷◌, ◌++◌, Option, none, some,
  map, arith, filter,
}
use sandking.Projects.Types.{Project, is_active, project_resolution_registration}
use sandking.Projects.Location.{
  Location, LocationFailure, Candidate, resolve_project_location, directory, registered,
  active_ones, at_path, of_identity, tombstoned_ones, resolve_directory, resolve_registered,
}
use sandking.Projects.Located.{resolve_registered_iff, active_at, active_with}
use sandking.Projects.Resolution.{is_found, conflict_of, names_some, names}

filter-append {ℓ} :
    {A : Type ℓ} (p : A → Bool) (xs : List A) (y : A)
    → p y ≡ true
    → filter p (xs ++ y ∷ []) ≡ filter p xs ++ y ∷ []
filter-append p [] y h = ground arith
filter-append p (x ∷ xs) y h = ground (arith, filter-append p xs y)

abbrev names_in : ℕ → Option LocationFailure → Bool
names_in id none = false
names_in id (some f) = names_some id f.registrations

-- The path is found to be the project, or in a conflict that names it.
abbrev pub leads_to : ℕ → Location → Bool
leads_to id l = is_found id l || names_in id (conflict_of l)

names-append :
    (ps : List Project) (p : Project)
    → names p.project_id (map project_resolution_registration (ps ++ p ∷ [])) ≡ true
names-append [] p = ground arith
names-append (q ∷ ps) p = ground (arith, names-append ps p)

resolve_registered-append :
    (c : Candidate) (p : Project) (ps : List Project)
    → leads_to p.project_id (resolve_registered c p (ps ++ p ∷ [])) ≡ true
resolve_registered-append c p [] = ground arith
resolve_registered-append c p (a ∷ []) = ground arith
resolve_registered-append c p (a ∷ b ∷ ps) = names-append (a ∷ b ∷ ps) p

resolve_directory-append :
    (c : Candidate) (p : Project) (here gone matching ps : List Project)
    → (p.filesystem_identity_digest == c.identity_digest) ≡ true
    → active_ones matching ≡ ps ++ p ∷ []
    → leads_to p.project_id (resolve_directory c (here ++ p ∷ []) gone matching) ≡ true
resolve_directory-append c p [] gone matching ps h e =
    rw h (rw e (resolve_registered-append c p ps))
resolve_directory-append c p (a ∷ []) gone matching ps h e = ground arith
resolve_directory-append c p (a ∷ b ∷ qs) gone matching ps h e = names-append (a ∷ b ∷ qs) p

module _ (ps : List Project) (c : Candidate) (p : Project)
    (path : (p.canonical_path == c.canonical_path) ≡ true)
    (identity : (p.filesystem_identity_digest == c.identity_digest) ≡ true)
    (activity : is_active p ≡ true) where
  active_at-append :
      active_at c.canonical_path (ps ++ p ∷ []) ≡ active_at c.canonical_path ps ++ p ∷ []
  active_at-append =
      ap active_ones (filter-append (λ q. q.canonical_path == c.canonical_path) ps p path)
      ∙ filter-append is_active (at_path c.canonical_path ps) p activity

  active_with-append :
      active_with c.identity_digest (ps ++ p ∷ []) ≡ active_with c.identity_digest ps ++ p ∷ []
  active_with-append =
      ap active_ones
        (filter-append (λ q. q.filesystem_identity_digest == c.identity_digest) ps p identity)
      ∙ filter-append is_active (of_identity c.identity_digest ps) p activity

  pub append-leads_to :
      leads_to p.project_id (resolve_project_location (ps ++ p ∷ []) (directory c)) ≡ true
  unfolding resolve_project_location
  append-leads_to = rw active_at-append (
      resolve_directory-append c p (active_at c.canonical_path ps)
        (tombstoned_ones (at_path c.canonical_path (ps ++ p ∷ [])))
        (of_identity c.identity_digest (ps ++ p ∷ [])) (active_with c.identity_digest ps) identity
        active_with-append)

  pub append-registered :
      at_path c.canonical_path ps ≡ []
      → of_identity c.identity_digest ps ≡ []
      → resolve_project_location (ps ++ p ∷ []) (directory c) ≡ registered p p.revision
  append-registered none_at none_of = (resolve_registered_iff (ps ++ p ∷ []) c p p.revision).1 (
    active_at-append ∙ ap (λ qs. active_ones qs ++ p ∷ []) none_at,
    active_with-append ∙ ap (λ qs. active_ones qs ++ p ∷ []) none_of,
    refl,
  )
