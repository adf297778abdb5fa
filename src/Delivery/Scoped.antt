-- ===== src/Delivery/Scoped.antt =====
-- What `visitDescendants` of .sandcastle/run-scope.mjs visits.
use sandking.Base.{
  ℕ, zero, suc, ◌==◌, ◌≡◌, subst, inl, inr, true, false, ◌||◌, List, [], ◌∷◌, ◌++◌, some, has,
  Bool-cases, Option-cases, arith,
}
use sandking.Delivery.Scope.{Scan, visit_child, visit_children}

pub has-append : (x c : ℕ) (xs : List ℕ) → has x (xs ++ c ∷ []) ≡ (has x xs || c == x)
has-append x c [] = ground arith
has-append x c (y ∷ ys) = ground (arith, has-append x c ys)

-- Between two states of the scan, the children were visited, and all that is new with its children.
pub record IsVisited (subs : ℕ → List ℕ) (cs : List ℕ) (s s' : Scan) : Type 0 where
  pub kept : (x : ℕ) → has x s.visited ≡ true → has x s'.visited ≡ true
  pub children : (x : ℕ) → has x cs ≡ true → has x s'.visited ≡ true
  pub closed :
      (x y : ℕ)
      → has x s'.visited ≡ true
      → has x s.visited ≡ false
      → has y (subs x) ≡ true
      → has y s'.visited ≡ true

IsVisited-seen :
    (subs : ℕ → List ℕ) (c : ℕ) (cs : List ℕ) (s s' : Scan)
    → has c s.visited ≡ true
    → IsVisited subs cs s s'
    → IsVisited subs (c ∷ cs) s s'
IsVisited-seen subs c cs s s' seen h = record {
  kept = h.kept;
  children = λ x e. ground (arith, seen, h.kept c seen, h.children x);
  closed = h.closed;
}

IsVisited-new :
    (subs : ℕ → List ℕ) (c : ℕ) (cs : List ℕ) (s s' s'' : Scan)
    → IsVisited subs (subs c) (visit_child c s) s'
    → IsVisited subs cs s' s''
    → IsVisited subs (c ∷ cs) s s''
IsVisited-new subs c cs s s' s'' h h' = record {
  kept = λ x e. h'.kept x (h.kept x (ground (arith, has-append x c s.visited)));
  children = λ x e. elim (Bool-cases (c == x)) [
    | inl same ↦ h'.kept x (h.kept x (ground (arith, has-append x c s.visited)))
    | inr differs ↦ h'.children x (ground arith)
  ];
  closed = λ x y there new below. elim (Bool-cases (has x s'.visited)) [
    | inl early ↦ elim (Bool-cases (c == x)) [
      | inl same ↦
          h'.kept y (h.children y (subst (λ z. has y (subs z) ≡ true) {x = x} (ground arith) below))
      | inr differs ↦
          h'.kept y (h.closed x y early (ground (arith, has-append x c s.visited)) below)
    ]
    | inr late ↦ h'.closed x y there late below
  ];
}

pub visit_children-IsVisited :
    (subs : ℕ → List ℕ) (n : ℕ) (cs : List ℕ) (s s' : Scan)
    → visit_children subs n cs s ≡ some s'
    → IsVisited subs cs s s'
unfolding visit_children
visit_children-IsVisited subs n [] s s' e =
    subst (IsVisited subs [] s) {x = s} (ground arith) record {
      kept = λ x h. h;
      children = λ x h. absurd (ground arith);
      closed = λ x y there new below. absurd (ground arith);
    }
visit_children-IsVisited subs zero (c ∷ cs) s s' e = elim (Bool-cases (has c s.visited)) [
  | inl seen ↦
      IsVisited-seen subs c cs s s' seen (visit_children-IsVisited subs zero cs s s' (ground arith))
  | inr new ↦ absurd (ground arith)
]
visit_children-IsVisited subs (suc n) (c ∷ cs) s s' e = elim (Bool-cases (has c s.visited)) [
  | inl seen ↦
      IsVisited-seen subs c cs s s' seen
        (visit_children-IsVisited subs (suc n) cs s s' (ground arith))
  | inr new ↦ elim (Option-cases (visit_children subs n (subs c) (visit_child c s))) [
    | inl spent ↦ absurd (ground arith)
    | inr (t, below) ↦
        IsVisited-new subs c cs s t s'
          (visit_children-IsVisited subs n (subs c) (visit_child c s) t below)
          (visit_children-IsVisited subs (suc n) cs t s' (ground arith))
  ]
]
