-- ===== src/Projects/Located.antt =====
-- What src/project-registration/path-resolution.mjs finds at a directory.
use sandking.Base.{
  ℕ, ◌≢◌, ◌≡◌, ◌≤◌, ◌==◌, ◌↔◌, inl, inr, subst, refl, Bool, true, false, not, List, [], ◌∷◌, some,
  filter, if◌then◌else◌, arith, length, Bool-cases,
}
use sandking.Projects.Types.{Project, is_active, FailureCode}
use sandking.Projects.Resolution.{is_selected, is_found}
use sandking.Projects.Location.{
  only_one, Candidate, directory, registered, unregistered, resolve_project_location, at_path,
  of_identity, active_ones, tombstoned_ones, resolve_directory, resolve_registered,
  resolve_inactive, resolve_elsewhere,
}

abbrev pub active_at : ℕ → List Project → List Project
active_at path ps = active_ones (at_path path ps)

abbrev pub active_with : ℕ → List Project → List Project
active_with digest ps = active_ones (of_identity digest ps)

active_with_one :
    (path digest : ℕ) (p : Project) (ps : List Project)
    → active_at path ps ≡ p ∷ []
    → (p.filesystem_identity_digest == digest) ≡ true
    → length (active_with digest ps) ≤ 1
    → active_with digest ps ≡ p ∷ []
active_with_one path digest p [] h same few = ground arith
active_with_one path digest p (q ∷ qs) h same few = ground (arith, active_with_one path digest p qs)

resolve_elsewhere-registered :
    (c : Candidate) (ps gone : List Project) (p : Project) (n : ℕ)
    → resolve_elsewhere c ps gone ≢ registered p n
resolve_elsewhere-registered c (a ∷ b ∷ ps) gone p n = ground arith
resolve_elsewhere-registered c (a ∷ []) gone p n = ground arith
resolve_elsewhere-registered c [] (t ∷ ts) p n = ground arith
resolve_elsewhere-registered c [] [] p n = ground arith

resolve_inactive-registered :
    (c : Candidate) (gone matching : List Project) (p : Project) (n : ℕ)
    → resolve_inactive c gone matching ≢ registered p n
resolve_inactive-registered c (t ∷ ts) matching p n = ground arith
resolve_inactive-registered c [] matching p n =
    resolve_elsewhere-registered c (active_ones matching) (tombstoned_ones matching) p n

resolve_registered_lem :
    (c : Candidate) (q : Project) (ps : List Project) (p : Project) (n : ℕ)
    → resolve_registered c q ps ≡ registered p n
    → (length ps ≤ 1) × (q ≡ p) × (n ≡ p.revision)
resolve_registered_lem c q [] p n h = ground arith
resolve_registered_lem c q (a ∷ []) p n h = ground arith
resolve_registered_lem c q (a ∷ b ∷ ps) p n h = ground arith

resolve_directory-registered :
    (c : Candidate) (here gone matching : List Project) (p : Project) (n : ℕ)
    → resolve_directory c here gone matching ≡ registered p n
    → (here ≡ p ∷ [])
      × ((p.filesystem_identity_digest == c.identity_digest) ≡ true)
      × (length (active_ones matching) ≤ 1)
      × (n ≡ p.revision)
resolve_directory-registered c [] gone matching p n h =
    ground (arith, resolve_inactive-registered c gone matching p n)
resolve_directory-registered c (q ∷ []) gone matching p n h =
    ground (arith, resolve_registered_lem c q (active_ones matching) p n)
resolve_directory-registered c (q ∷ r ∷ qs) gone matching p n h = ground arith

one-identity :
    (digest : ℕ) (p : Project) (ps : List Project)
    → active_with digest ps ≡ p ∷ []
    → (p.filesystem_identity_digest == digest) ≡ true
one-identity digest p [] h = ground arith
one-identity digest p (q ∷ qs) h = ground (arith, one-identity digest p qs)

resolve_registered_back :
    (ps : List Project) (c : Candidate) (p : Project)
    → active_at c.canonical_path ps ≡ p ∷ []
    → active_with c.identity_digest ps ≡ p ∷ []
    → resolve_project_location ps (directory c) ≡ registered p p.revision
unfolding resolve_project_location
resolve_registered_back ps c p h k = rw h (rw (one-identity c.identity_digest p ps k) (rw k refl))

-- A directory is resolved to a project exactly where it is the only active one at the path, and the only
-- active one of the directory's identity.
pub resolve_registered_iff :
    (ps : List Project) (c : Candidate) (p : Project) (n : ℕ)
    → (resolve_project_location ps (directory c) ≡ registered p n) ↔ (
        (active_at c.canonical_path ps ≡ p ∷ [])
        × (active_with c.identity_digest ps ≡ p ∷ [])
        × (n ≡ p.revision))
unfolding resolve_project_location
resolve_registered_iff ps c p n = (
  (λ h.
      let l =
        resolve_directory-registered c (active_at c.canonical_path ps)
          (tombstoned_ones (at_path c.canonical_path ps)) (of_identity c.identity_digest ps) p n
          h in
      (l.0, active_with_one c.canonical_path c.identity_digest p ps l.0 l.1 l.2, l.3)),
  λ k. rw k.2 (resolve_registered_back ps c p k.0 k.1),
)

filter_empty {ℓ} :
    {A : Type ℓ} (p : A → Bool) (xs : List A)
    → filter p xs ≡ []
    → filter (λ x. not (p x)) xs ≡ []
    → xs ≡ []
filter_empty p [] h k = refl
filter_empty p (x ∷ xs) h k = ground arith

resolve_elsewhere-unregistered :
    (c d : Candidate) (ps gone : List Project) (n : ℕ)
    → resolve_elsewhere c ps gone ≡ unregistered d n
    → (ps ≡ []) × (gone ≡ []) × (d ≡ c) × (n ≡ 0)
resolve_elsewhere-unregistered c d (a ∷ b ∷ ps) gone n h = ground arith
resolve_elsewhere-unregistered c d (a ∷ []) gone n h = ground arith
resolve_elsewhere-unregistered c d [] (t ∷ ts) n h = ground arith
resolve_elsewhere-unregistered c d [] [] n h = ground arith

resolve_registered-unregistered :
    (c d : Candidate) (q : Project) (ps : List Project) (n : ℕ)
    → resolve_registered c q ps ≢ unregistered d n
resolve_registered-unregistered c d q [] n = ground arith
resolve_registered-unregistered c d q (a ∷ []) n = ground arith
resolve_registered-unregistered c d q (a ∷ b ∷ ps) n = ground arith

resolve_directory-unregistered :
    (c d : Candidate) (here gone matching : List Project) (n : ℕ)
    → resolve_directory c here gone matching ≡ unregistered d n
    → (here ≡ []) × (gone ≡ []) × (matching ≡ []) × (d ≡ c) × (n ≡ 0)
resolve_directory-unregistered c d [] [] matching n h =
    let l =
      resolve_elsewhere-unregistered c d (active_ones matching) (tombstoned_ones matching) n h in
    (refl, refl, filter_empty is_active matching l.0 l.1, l.2, l.3)
resolve_directory-unregistered c d [] (t ∷ ts) matching n h = ground arith
resolve_directory-unregistered c d (p ∷ []) gone matching n h =
    elim (Bool-cases (p.filesystem_identity_digest == c.identity_digest)) [
      | inl same ↦ ground (arith, resolve_registered-unregistered c d p (active_ones matching) n)
      | inr differs ↦ ground arith
    ]
resolve_directory-unregistered c d (p ∷ q ∷ ps) gone matching n h = ground arith

-- A directory is resolved to no project exactly where no retained project, active or tombstoned, has its
-- path or its identity.
pub resolve_unregistered_iff :
    (ps : List Project) (c d : Candidate) (n : ℕ)
    → (resolve_project_location ps (directory c) ≡ unregistered d n) ↔ (
        (at_path c.canonical_path ps ≡ [])
        × (of_identity c.identity_digest ps ≡ [])
        × (d ≡ c)
        × (n ≡ 0))
unfolding resolve_project_location
resolve_unregistered_iff ps c d n = (
  (λ h.
      let l =
        resolve_directory-unregistered c d (active_at c.canonical_path ps)
          (tombstoned_ones (at_path c.canonical_path ps)) (of_identity c.identity_digest ps) n h in
      (filter_empty is_active (at_path c.canonical_path ps) l.0 l.1, l.2, l.3, l.4)),
  λ k. rw k.2 (rw k.3 (rw k.0 (rw k.1 refl))),
)

resolve_elsewhere-is_selected :
    (id : ℕ) (c : Candidate) (ps gone : List Project)
    → is_selected id (resolve_elsewhere c ps gone) ≡ false
resolve_elsewhere-is_selected id c (a ∷ b ∷ ps) gone = refl
resolve_elsewhere-is_selected id c (a ∷ []) gone = refl
resolve_elsewhere-is_selected id c [] (t ∷ ts) = refl
resolve_elsewhere-is_selected id c [] [] = refl

resolve_registered-is_selected :
    (id : ℕ) (c : Candidate) (p : Project) (ps : List Project)
    → is_selected id (resolve_registered c p ps) ≡ true
    → is_found id (resolve_registered c p ps) ≡ true
resolve_registered-is_selected id c p (a ∷ b ∷ ps) h = ground arith
resolve_registered-is_selected id c p (a ∷ []) h = h
resolve_registered-is_selected id c p [] h = h

resolve_directory-is_selected :
    (id : ℕ) (c : Candidate) (here gone matching : List Project)
    → is_selected id (resolve_directory c here gone matching) ≡ true
    → is_found id (resolve_directory c here gone matching) ≡ true
resolve_directory-is_selected id c (p ∷ q ∷ ps) gone matching h = ground arith
resolve_directory-is_selected id c (p ∷ []) gone matching h =
    elim (Bool-cases (p.filesystem_identity_digest == c.identity_digest)) [
      | inl same ↦ rw same (
          resolve_registered-is_selected id c p (active_ones matching) (
            subst
              (λ b.
                is_selected id (
                  if b
                  then resolve_registered c p (active_ones matching)
                  else only_one FailureCode.project_path_replaced p (some c))
                ≡ true)
              same h))
      | inr differs ↦ ground arith
    ]
resolve_directory-is_selected id c [] (t ∷ ts) matching h = ground arith
resolve_directory-is_selected id c [] [] matching h =
    ground
      (arith, resolve_elsewhere-is_selected id c (active_ones matching) (tombstoned_ones matching))

-- A directory that can be read is never a missing project.
pub is_selected-is_found :
    (id : ℕ) (c : Candidate) (ps : List Project)
    → is_selected id (resolve_project_location ps (directory c)) ≡ true
    → is_found id (resolve_project_location ps (directory c)) ≡ true
unfolding resolve_project_location
is_selected-is_found id c ps h =
    resolve_directory-is_selected id c (active_at c.canonical_path ps)
      (tombstoned_ones (at_path c.canonical_path ps)) (of_identity c.identity_digest ps) h
