-- ===== src/Delivery/Descendants.antt =====
-- The scope of a parent in .sandcastle/run-scope.mjs is its descendants.
use sandking.Base.{
  ℕ, zero, suc, ◌≤◌, ◌==◌, ◌≡◌, refl, ap, subst, inl, inr, Bool, true, false, List, [], ◌∷◌, ◌++◌,
  some, count, count-append, has, length, ok, Bool-cases, Option-cases, arith,
}
use sandking.Delivery.Scope.{
  GitHub, Scan, visit_child, visit_children, visit_descendants, create_parent_scope,
}
use sandking.Delivery.ScopeFuel.{unvisited, visit_children-ends}
use sandking.Delivery.Scoped.{has-append, visit_children-IsVisited}

-- An issue below another one, at any depth.
pub data Descends (subs : ℕ → List ℕ) (root : ℕ) : ℕ → Type 0 where
  child : {x : ℕ} → has x (subs root) ≡ true → Descends subs root x
  below : {x y : ℕ} → Descends subs root x → has y (subs x) ≡ true → Descends subs root y

-- What holds of the scan and is kept when a child that has `P` is visited for the first time is kept by
-- the whole visit, where the children have `P` and hand it down.
visit_children-invariant :
    (subs : ℕ → List ℕ) (I : Scan → Type 0) (P : ℕ → Type 0)
    → ((c : ℕ) (s : Scan) → P c → has c s.visited ≡ false → I s → I (visit_child c s))
    → ((x y : ℕ) → P x → has y (subs x) ≡ true → P y)
    → (n : ℕ) (cs : List ℕ) (s s' : Scan) → ((c : ℕ) → has c cs ≡ true → P c)
    → visit_children subs n cs s ≡ some s'
    → I s
    → I s'
unfolding visit_children
visit_children-invariant subs I P visit down n [] s s' all_P e h = subst I {x = s} (ground arith) h
visit_children-invariant subs I P visit down zero (c ∷ cs) s s' all_P e h =
    elim (Bool-cases (has c s.visited)) [
      | inl seen ↦
          visit_children-invariant subs I P visit down zero cs s s' (λ x m. all_P x (ground arith))
            (ground arith) h
      | inr new ↦ absurd (ground arith)
    ]
visit_children-invariant subs I P visit down (suc n) (c ∷ cs) s s' all_P e h =
    elim (Bool-cases (has c s.visited)) [
      | inl seen ↦
          visit_children-invariant subs I P visit down (suc n) cs s s'
            (λ x m. all_P x (ground arith)) (ground arith) h
      | inr new ↦ elim (Option-cases (visit_children subs n (subs c) (visit_child c s))) [
        | inl spent ↦ absurd (ground arith)
        | inr (t, inner) ↦
            let has_P = all_P c (ground arith) in
            visit_children-invariant subs I P visit down (suc n) cs t s'
              (λ x m. all_P x (ground arith)) (ground arith)
              (visit_children-invariant subs I P visit down n (subs c) (visit_child c s) t
                (λ x m. down c x has_P m) inner (visit c s has_P new h))
      ]
    ]

-- What the scan of a parent's descendants keeps.
record IsScanned (subs : ℕ → List ℕ) (parent : ℕ) (s : Scan) : Type 0 where
  paired : s.visited ≡ parent ∷ s.issue_ids
  once : (k : ℕ) → count (λ j. j == k) s.visited ≤ 1
  descend : (x : ℕ) → has x s.issue_ids ≡ true → Descends subs parent x

count-has : (k : ℕ) (ks : List ℕ) → has k ks ≡ false → count (λ j. j == k) ks ≡ 0
count-has k [] h = refl
count-has k (j ∷ js) h = ground (arith, count-has k js)

has-count : (k : ℕ) (ks : List ℕ) → has k ks ≡ true → 1 ≤ count (λ j. j == k) ks
has-count k [] h = absurd (ground arith)
has-count k (j ∷ js) h = ground (arith, has-count k js)

visit_child-IsScanned :
    (subs : ℕ → List ℕ) (parent c : ℕ) (s : Scan)
    → Descends subs parent c
    → has c s.visited ≡ false
    → IsScanned subs parent s
    → IsScanned subs parent (visit_child c s)
visit_child-IsScanned subs parent c s d new h = record {
  paired = ap (λ ids. ids ++ c ∷ []) h.paired;
  once = λ k.
      ground
        (arith, h.once k, count-append (λ j. j == k) s.visited (c ∷ []), count-has c s.visited new);
  descend = λ x m. elim (Bool-cases (c == x)) [
    | inl same ↦ subst (Descends subs parent) {x = c} (ground arith) d
    | inr differs ↦ h.descend x (ground (arith, has-append x c s.issue_ids))
  ];
}

visit_descendants-IsScanned :
    (subs : ℕ → List ℕ) (fuel parent : ℕ) (s : Scan)
    → visit_descendants subs fuel parent ≡ some s
    → IsScanned subs parent s
unfolding visit_descendants
visit_descendants-IsScanned subs fuel parent s e =
    visit_children-invariant subs (IsScanned subs parent) (Descends subs parent)
      (visit_child-IsScanned subs parent) (λ x y d m. below d m) fuel (subs parent) _ s
      (λ c m. child m) e
      record { paired = refl; once = λ k. ground arith; descend = λ x m. absurd (ground arith) }

-- Nothing below the parent is left out.
descends-visited :
    (subs : ℕ → List ℕ) (fuel parent x : ℕ) (s : Scan)
    → visit_descendants subs fuel parent ≡ some s
    → Descends subs parent x
    → has x s.visited ≡ true
unfolding visit_descendants
descends-visited subs fuel parent x s e (child m) =
    (visit_children-IsVisited subs fuel (subs parent) _ s e).children x m
descends-visited subs fuel parent x s e (below {x = z} d m) =
    let all_visited = visit_children-IsVisited subs fuel (subs parent) _ s e in
    elim (Bool-cases (parent == z)) [
      | inl root ↦
          all_visited.children x
            (subst (λ w. has x (subs w) ≡ true) {x = z} {y = parent} (ground arith) m)
      | inr inner ↦
          all_visited.closed z x (descends-visited subs fuel parent z s e d) (ground arith) m
    ]

-- The ids are those of the issues below the parent, at any depth and but for itself, each once.
pub record IsScope (subs : ℕ → List ℕ) (parent : ℕ) (ids : List ℕ) : Type 0 where
  pub sound : (x : ℕ) → has x ids ≡ true → Descends subs parent x × ((parent == x) ≡ false)
  pub complete : (x : ℕ) → Descends subs parent x → (parent == x) ≡ false → has x ids ≡ true
  pub once : (x : ℕ) → count (λ j. j == x) ids ≤ 1

visit_descendants-IsScope :
    (subs : ℕ → List ℕ) (fuel parent : ℕ) (s : Scan)
    → visit_descendants subs fuel parent ≡ some s
    → IsScope subs parent s.issue_ids
visit_descendants-IsScope subs fuel parent s e = record {
  sound = λ x m. (scanned.descend x m, ground (arith, counted x, has-count x s.issue_ids m));
  complete = λ x d differs. ground (arith, there x, descends-visited subs fuel parent x s e d);
  once = λ x. ground (arith, counted x);
}
  where
    scanned : IsScanned subs parent s
    scanned = visit_descendants-IsScanned subs fuel parent s e

    counted : (x : ℕ) → count (λ j. j == x) (parent ∷ s.issue_ids) ≤ 1
    counted x = subst (λ v. count (λ j. j == x) v ≤ 1) scanned.paired (scanned.once x)

    there : (x : ℕ) → has x s.visited ≡ has x (parent ∷ s.issue_ids)
    there x = ap (has x) scanned.paired

count-le : (issues : List ℕ) (v : List ℕ) → unvisited issues v ≤ length issues
count-le [] v = omega arith
count-le (i ∷ is) v = ground (arith, count-le is v)

visit_descendants_ends :
    (subs : ℕ → List ℕ) (issues : List ℕ)
    → ((x y : ℕ) → has y (subs x) ≡ true → has y issues ≡ true)
    → (parent : ℕ) → (s : Scan) × (visit_descendants subs (length issues) parent ≡ some s)
unfolding visit_descendants
visit_descendants_ends subs issues known parent =
    visit_children-ends subs issues known (length issues) (subs parent)
      record { visited = parent ∷ []; issue_ids = [] } (λ c m. known parent c m)
      (count-le issues (parent ∷ []))

-- For a parent that is found, and finitely many issues below anything, the scope is computed, with fuel
-- for as many issues; it is what is below the parent, at any depth and also in a cycle.
pub create_parent_scope-IsScope :
    (github : GitHub) (parent : ℕ) (issues : List ℕ) (closed : Bool)
    → github.is_closed parent ≡ some closed
    → ((x y : ℕ) → has y (github.list_sub_issues x) ≡ true → has y issues ≡ true)
    → (ids : List ℕ) × (create_parent_scope github (length issues) parent ≡ ok (some ids))
      × IsScope github.list_sub_issues parent ids
unfolding create_parent_scope
create_parent_scope-IsScope github parent issues closed found known =
    let (s, e) = visit_descendants_ends github.list_sub_issues issues known parent in
    (
      s.issue_ids,
      ground (arith, found, e),
      visit_descendants-IsScope github.list_sub_issues (length issues) parent s e,
    )
