-- ===== src/Projects/Standing.antt =====
-- A project that its path leads to, and what keeps it so.
use sandking.Base.{
  ℕ, ◌≡◌, ◌==◌, ◌&&◌, inl, inr, refl, sym, ap, subst, ◌∙◌, true, false, List, [], ◌∷◌, some, find,
  map, if◌then◌else◌, arith, Bool-cases,
}
use sandking.Projects.Types.{Project, is_active}
use sandking.Projects.Location.{Candidate, directory, resolve_project_location}
use sandking.Projects.Located.{resolve_registered_iff, active_at}
use sandking.Projects.Requests.{find_project, update_project}
use sandking.Projects.Resolution.{is_found}
use sandking.Projects.Settled.{IsSteady, map-is_found, is_found_lem, has_distinct_ids, named}

abbrev change_at : ℕ → (Project → Project) → Project → Project
change_at id g p = if p.project_id == id then g p else p

change_at-IsSteady : (id : ℕ) (g : Project → Project) → IsSteady g → IsSteady (change_at id g)
change_at-IsSteady id g h = record {
  id = λ p. ground (arith, h.id p);
  path = λ p. ground (arith, h.path p);
  identity = λ p. ground (arith, h.identity p);
  activity = λ p. elim (Bool-cases (p.project_id == id)) [
    | inl same ↦ rw same (h.activity p)
    | inr differs ↦ rw differs refl
  ];
}

map-change_at :
    (id : ℕ) (g : Project → Project) (ps : List Project)
    → named id ps ≡ false
    → map (change_at id g) ps ≡ ps
map-change_at id g [] h = refl
map-change_at id g (p ∷ ps) h = ground (arith, map-change_at id g ps)

update_project-map :
    (id : ℕ) (g : Project → Project) (ps : List Project)
    → has_distinct_ids ps ≡ true
    → update_project id g ps ≡ map (change_at id g) ps
update_project-map id g [] d = refl
update_project-map id g (p ∷ ps) d = elim (Bool-cases (p.project_id == id)) [
  | inl same ↦ ground (arith, map-change_at id g ps)
  | inr differs ↦ ground (arith, update_project-map id g ps)
]

named-update_project :
    (x id : ℕ) (g : Project → Project) (ps : List Project)
    → IsSteady g
    → named x (update_project id g ps) ≡ named x ps
named-update_project x id g [] h = refl
named-update_project x id g (p ∷ ps) h = ground (arith, h.id p, named-update_project x id g ps h)

has_distinct_ids-update_project :
    (id : ℕ) (g : Project → Project) (ps : List Project)
    → IsSteady g
    → has_distinct_ids (update_project id g ps) ≡ has_distinct_ids ps
has_distinct_ids-update_project id g [] h = refl
has_distinct_ids-update_project id g (p ∷ ps) h = ground (
  arith,
  h.id p,
  named-update_project p.project_id id g ps h,
  has_distinct_ids-update_project id g ps h,
)

find_project-update_project :
    (id : ℕ) (g : Project → Project) (ps : List Project) (p : Project)
    → IsSteady g
    → find_project id ps ≡ some p
    → find_project id (update_project id g ps) ≡ some (g p)
find_project-update_project id g [] p h e = ground arith
find_project-update_project id g (q ∷ ps) p h e = elim (Bool-cases (q.project_id == id)) [
  | inl same ↦ ground (arith, h.id q)
  | inr differs ↦ ground (arith, find_project-update_project id g ps p h)
]

-- The project has its id alone, and the directory is resolved to it.
pub record IsStanding (c : Candidate) (ps : List Project) (p : Project) : Type 0 where
  pub found : find_project p.project_id ps ≡ some p
  pub located : is_found p.project_id (resolve_project_location ps (directory c)) ≡ true
  pub distinct : has_distinct_ids ps ≡ true

pub update_project-IsStanding :
    (c : Candidate) (ps : List Project) (p : Project) (g : Project → Project)
    → IsSteady g
    → IsStanding c ps p
    → IsStanding c (update_project p.project_id g ps) (g p)
update_project-IsStanding c ps p g h k = record {
  found =
      subst (λ x. find_project x (update_project p.project_id g ps) ≡ some (g p)) (sym (h.id p))
        (find_project-update_project p.project_id g ps p h k.found);
  located =
      subst
        (λ x.
          is_found x (resolve_project_location (update_project p.project_id g ps) (directory c))
          ≡ true)
        (sym (h.id p))
        (rw (update_project-map p.project_id g ps k.distinct) (
          map-is_found (change_at p.project_id g) ps c p.project_id
            (change_at-IsSteady p.project_id g h) k.located));
  distinct = has_distinct_ids-update_project p.project_id g ps h ∙ k.distinct;
}

active_at-named :
    (path id : ℕ) (ps : List Project) (q : Project)
    → active_at path ps ≡ q ∷ []
    → (q.project_id == id) ≡ true
    → named id ps ≡ true
active_at-named path id [] q h same = ground arith
active_at-named path id (p ∷ ps) q h same = ground (arith, active_at-named path id ps q)

named_same : (x id : ℕ) (ps : List Project) → (x == id) ≡ true → named x ps ≡ named id ps
named_same x id ps h = ap (λ y. named y ps) {x = x} {y = id} (ground arith)

find_active :
    (path id : ℕ) (ps : List Project) (q : Project)
    → active_at path ps ≡ q ∷ []
    → (q.project_id == id) ≡ true
    → has_distinct_ids ps ≡ true
    → find (λ p. p.project_id == id && is_active p) ps ≡ find_project id ps
find_active path id [] q h same d = refl
find_active path id (p ∷ ps) q h same d =
    ground
      (arith, active_at-named path id ps q, named_same p.project_id id ps, find_active path id ps q)

pub IsStanding-active :
    (c : Candidate) (ps : List Project) (p : Project)
    → IsStanding c ps p
    → find (λ q. q.project_id == p.project_id && is_active q) ps ≡ some p
IsStanding-active c ps p h =
    let (q, n, e, same) =
      is_found_lem p.project_id (resolve_project_location ps (directory c)) h.located in
    find_active c.canonical_path p.project_id ps q ((resolve_registered_iff ps c q n).0 e).0 same
      h.distinct
    ∙ h.found
