-- ===== src/Projects/Settled.antt =====
-- A resolution of src/project-registration/resolution.mjs leaves the path to the project that it names.
use sandking.Base.{
  ℕ, ◌≡◌, ◌==◌, ◌&&◌, inl, inr, refl, ap, subst, ◌∙◌, Bool, true, false, List, [], ◌∷◌, Option, map,
  filter, if◌then◌else◌, arith, Bool-cases, any, not,
}
use sandking.Projects.Types.{Project, Registration, is_active}
use sandking.Projects.Location.{
  Location, Candidate, resolve_project_location, directory, registered, failure, unregistered,
  active_ones, at_path, of_identity,
}
use sandking.Projects.Located.{resolve_registered_iff}
use sandking.Projects.Requests.{update_project}
use sandking.Projects.Resolution.{
  raise, names_some, move_active, is_found, keep_selected, resolved_one,
}

filter-map {ℓ} :
    {A : Type ℓ} (p : A → Bool) (g : A → A) (xs : List A)
    → ((x : A) → p (g x) ≡ p x)
    → filter p (map g xs) ≡ map g (filter p xs)
filter-map p g [] h = refl
filter-map p g (x ∷ xs) h = ground (arith, h x, filter-map p g xs h)

-- A change that leaves where a project is found.
pub record IsSteady (g : Project → Project) : Type 0 where
  pub id : (p : Project) → (g p).project_id ≡ p.project_id
  pub path : (p : Project) → (g p).canonical_path ≡ p.canonical_path
  pub identity : (p : Project) → (g p).filesystem_identity_digest ≡ p.filesystem_identity_digest
  pub activity : (p : Project) → is_active (g p) ≡ is_active p

pub is_found_lem :
    (id : ℕ) (l : Location)
    → is_found id l ≡ true
    → (q : Project) × (n : ℕ) × (l ≡ registered q n) × ((q.project_id == id) ≡ true)
is_found_lem id (registered q n) h = (q, n, refl, h)
is_found_lem id (failure f) h = ground arith
is_found_lem id (unregistered c n) h = ground arith

pub map-is_found :
    (g : Project → Project) (ps : List Project) (c : Candidate) (id : ℕ)
    → IsSteady g
    → is_found id (resolve_project_location ps (directory c)) ≡ true
    → is_found id (resolve_project_location (map g ps) (directory c)) ≡ true
map-is_found g ps c id h found =
    let (q, n, e, same) = is_found_lem id (resolve_project_location ps (directory c)) found in
    let one = (resolve_registered_iff ps c q n).0 e in
    let here =
      ap active_ones (
        filter-map (λ p. p.canonical_path == c.canonical_path) g ps
          (λ p. ap (λ a. a == c.canonical_path) (h.path p)))
      ∙ filter-map is_active g (at_path c.canonical_path ps) h.activity
      ∙ ap (map g) one.0 in
    let alike =
      ap active_ones (
        filter-map (λ p. p.filesystem_identity_digest == c.identity_digest) g ps
          (λ p. ap (λ a. a == c.identity_digest) (h.identity p)))
      ∙ filter-map is_active g (of_identity c.identity_digest ps) h.activity
      ∙ ap (map g) one.1 in
    rw ((resolve_registered_iff (map g ps) c (g q) (g q).revision).1 (here, alike, refl))
      (rw (h.id q) same)

abbrev pub named : ℕ → List Project → Bool
named id = any (λ p. p.project_id == id)

-- No two retained projects have the same id.
abbrev pub has_distinct_ids : List Project → Bool
has_distinct_ids [] = true
has_distinct_ids (p ∷ ps) = not (named p.project_id ps) && has_distinct_ids ps

abbrev raise_at : ℕ → ℕ → Project → Project
raise_at now id p = if p.project_id == id then raise now p else p

raise_if-IsSteady : (now : ℕ) (b : Project → Bool) → IsSteady (λ p. if b p then raise now p else p)
raise_if-IsSteady now b = record {
  id = λ p. ground arith;
  path = λ p. ground arith;
  identity = λ p. ground arith;
  activity = λ p. elim (Bool-cases (b p)) [ inl is ↦ rw is refl | inr isnt ↦ rw isnt refl ];
}

map-raise_at :
    (now id : ℕ) (ps : List Project) → named id ps ≡ false → map (raise_at now id) ps ≡ ps
map-raise_at now id [] h = refl
map-raise_at now id (p ∷ ps) h = ground (arith, map-raise_at now id ps)

update_project-raise :
    (now id : ℕ) (change : Project → Project) (ps : List Project)
    → ((p : Project) → (change p).project_id ≡ p.project_id)
    → has_distinct_ids ps ≡ true
    → update_project id (λ p. raise now (change p)) ps
      ≡ map (raise_at now id) (update_project id change ps)
update_project-raise now id change [] h d = refl
update_project-raise now id change (p ∷ ps) h d = elim (Bool-cases (p.project_id == id)) [
  | inl same ↦ ground (arith, h p, map-raise_at now id ps)
  | inr differs ↦ ground (arith, update_project-raise now id change ps h)
]

resolved_one-one :
    (now id path : ℕ) (rs : Option (List Registration)) (p : Project)
    → (p.project_id == id) ≡ false
    → resolved_one now id path rs p ≡ (
        if names_some (keep_selected id rs p).project_id rs
        then raise now (keep_selected id rs p)
        else keep_selected id rs p)
resolved_one-one now id path rs p h = elim (Bool-cases (names_some p.project_id rs)) [
  | inl is ↦ rw is (rw h (rw is refl))
  | inr isnt ↦ rw isnt (rw isnt refl)
]

resolved_one-raise :
    (now id path : ℕ) (rs : Option (List Registration)) (ps : List Project)
    → named id ps ≡ false
    → map (resolved_one now id path rs) ps
      ≡ map
          (λ q. if names_some q.project_id rs then raise now q else q)
          (map (keep_selected id rs) ps)
resolved_one-raise now id path rs [] h = refl
resolved_one-raise now id path rs (p ∷ ps) h =
    ground (arith, resolved_one-one now id path rs p, resolved_one-raise now id path rs ps)

names_same :
    (id : ℕ) (rs : Option (List Registration)) (p : Project)
    → (p.project_id == id) ≡ true
    → names_some id rs ≡ true
    → names_some p.project_id rs ≡ true
names_same id rs p h n =
    subst (λ x. names_some x rs ≡ true) {x = id} {y = p.project_id} (ground arith) n

keep_selected-same :
    (id : ℕ) (rs : Option (List Registration)) (p : Project)
    → (p.project_id == id) ≡ true
    → keep_selected id rs p ≡ p
keep_selected-same id rs p h = ground arith

keep_selected-id :
    (id : ℕ) (rs : Option (List Registration)) (p : Project)
    → (keep_selected id rs p).project_id ≡ p.project_id
keep_selected-id id rs p = ground arith

resolved_one-same :
    (now id path : ℕ) (rs : Option (List Registration)) (p : Project)
    → (p.project_id == id) ≡ true
    → names_some p.project_id rs ≡ true
    → resolved_one now id path rs p ≡ raise now (move_active path p)
resolved_one-same now id path rs p h n = rw n (rw h refl)

resolve_all-raise :
    (now id path : ℕ) (rs : Option (List Registration)) (ps : List Project)
    → names_some id rs ≡ true
    → has_distinct_ids ps ≡ true
    → map (resolved_one now id path rs) ps
      ≡ map
          (λ q. if names_some q.project_id rs then raise now q else q)
          (update_project id (move_active path) (map (keep_selected id rs) ps))
resolve_all-raise now id path rs [] n d = refl
resolve_all-raise now id path rs (p ∷ ps) n d = elim (Bool-cases (p.project_id == id)) [
  | inl same ↦ ground (
    arith,
    keep_selected-same id rs p,
    resolved_one-same now id path rs p,
    resolved_one-raise now id path rs ps,
    names_same id rs p,
  )
  | inr differs ↦ ground (
    arith,
    keep_selected-id id rs p,
    resolved_one-one now id path rs p,
    resolve_all-raise now id path rs ps n,
  )
]

pub update_project-is_found :
    (now id : ℕ) (change : Project → Project) (ps : List Project) (c : Candidate)
    → ((p : Project) → (change p).project_id ≡ p.project_id)
    → has_distinct_ids ps ≡ true
    → is_found id (resolve_project_location (update_project id change ps) (directory c)) ≡ true
    → is_found id
        (resolve_project_location (update_project id (λ p. raise now (change p)) ps) (directory c))
      ≡ true
update_project-is_found now id change ps c h d found =
    rw (update_project-raise now id change ps h d) (
      map-is_found (raise_at now id) (update_project id change ps) c id
        (raise_if-IsSteady now (λ p. p.project_id == id)) found)

pub resolve_all-is_found :
    (now id path : ℕ) (rs : Option (List Registration)) (ps : List Project) (c : Candidate)
    → names_some id rs ≡ true
    → has_distinct_ids ps ≡ true
    → is_found id (
        resolve_project_location
          (update_project id (move_active path) (map (keep_selected id rs) ps))
          (directory c))
      ≡ true
    → is_found id (resolve_project_location (map (resolved_one now id path rs) ps) (directory c))
      ≡ true
resolve_all-is_found now id path rs ps c n d found = rw (resolve_all-raise now id path rs ps n d) (
    map-is_found (λ q. if names_some q.project_id rs then raise now q else q) _ c id
      (raise_if-IsSteady now (λ q. names_some q.project_id rs)) found)
