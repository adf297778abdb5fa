-- ===== src/Delivery/ScopeFuel.antt =====
-- The visit of .sandcastle/run-scope.mjs ends when the issues below a parent are among finitely many.
use sandking.Base.{
  ℕ, zero, suc, ◌+◌, ◌≤◌, ◌==◌, ◌≡◌, subst, inl, inr, true, false, not, List, [], ◌∷◌, ◌++◌, some,
  count, has, Bool-cases, arith,
}
use sandking.Delivery.Scope.{Scan, visit_child, visit_children}
use sandking.Delivery.Scoped.{has-append, visit_children-IsVisited}

-- How many of the issues were not visited.
abbrev pub unvisited : List ℕ → List ℕ → ℕ
unvisited issues visited = count (λ i. not (has i visited)) issues

unvisited_kept :
    (issues v v' : List ℕ)
    → ((x : ℕ) → has x v ≡ true → has x v' ≡ true)
    → unvisited issues v' ≤ unvisited issues v
unvisited_kept [] v v' h = omega arith
unvisited_kept (i ∷ is) v v' h = ground (arith, h i, unvisited_kept is v v' h)

unvisited_append_le :
    (issues v : List ℕ) (c : ℕ) → unvisited issues (v ++ c ∷ []) ≤ unvisited issues v
unvisited_append_le [] v c = omega arith
unvisited_append_le (i ∷ is) v c = ground (arith, has-append i c v, unvisited_append_le is v c)

-- A first visit of one of the issues leaves one less.
unvisited_append :
    (issues v : List ℕ) (c : ℕ)
    → has c issues ≡ true
    → has c v ≡ false
    → unvisited issues (v ++ c ∷ []) + 1 ≤ unvisited issues v
unvisited_append [] v c m new = absurd (ground arith)
unvisited_append (i ∷ is) v c m new = elim (Bool-cases (i == c)) [
  | inl same ↦ ground (
    arith,
    has-append i c v,
    subst (λ z. has z v ≡ false) {x = c} {y = i} (ground arith) new,
    unvisited_append_le is v c,
  )
  | inr differs ↦ ground (arith, has-append i c v, unvisited_append is v c (ground arith) new)
]

pub visit_children-ends :
    (subs : ℕ → List ℕ) (issues : List ℕ)
    → ((x y : ℕ) → has y (subs x) ≡ true → has y issues ≡ true)
    → (n : ℕ) (cs : List ℕ) (s : Scan) → ((c : ℕ) → has c cs ≡ true → has c issues ≡ true)
    → unvisited issues s.visited ≤ n
    → (s' : Scan) × (visit_children subs n cs s ≡ some s')
unfolding visit_children
visit_children-ends subs issues known n [] s all_known le = (s, ground arith)
visit_children-ends subs issues known zero (c ∷ cs) s all_known le =
    elim (Bool-cases (has c s.visited)) [
      | inl seen ↦
          let (s', e) =
            visit_children-ends subs issues known zero cs s (λ x m. all_known x (ground arith))
              le in
          (s', ground arith)
      | inr new ↦
          absurd
            (omega (arith, unvisited_append issues s.visited c (all_known c (ground arith)) new))
    ]
visit_children-ends subs issues known (suc n) (c ∷ cs) s all_known le =
    elim (Bool-cases (has c s.visited)) [
      | inl seen ↦
          let (s', e) =
            visit_children-ends subs issues known (suc n) cs s (λ x m. all_known x (ground arith))
              le in
          (s', ground arith)
      | inr new ↦
          let (t, inner) =
            visit_children-ends subs issues known n (subs c) (visit_child c s) (λ x m. known c x m)
              (omega
                (arith, unvisited_append issues s.visited c (all_known c (ground arith)) new)) in
          let (s', e) =
            visit_children-ends subs issues known (suc n) cs t (λ x m. all_known x (ground arith))
              (omega (
                arith,
                unvisited_append issues s.visited c (all_known c (ground arith)) new,
                unvisited_kept issues (s.visited ++ c ∷ []) t.visited
                    (visit_children-IsVisited subs n (subs c) (visit_child c s) t inner).kept,
              )) in
          (s', ground arith)
    ]
