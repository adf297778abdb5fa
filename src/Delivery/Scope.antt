-- ===== src/Delivery/Scope.antt =====
-- The scope of a run of issue deliveries: `createIssueScope`, `createParentScope` and
-- `selectScopedIssues` of .sandcastle/run-scope.mjs. GitHub is a parameter: which issues it has, and the
-- issues below one. Issues are told by numbers.
use sandking.Base.{
  ℕ, zero, suc, Bool, true, false, List, [], ◌∷◌, ◌++◌, Option, none, some, Result, ok, err, filter,
  has,
}

-- What the calls of GitHub return; `is_closed` is none for an issue that is not found.
pub record GitHub : Type 0 where
  pub is_closed : ℕ → Option Bool
  pub list_sub_issues : ℕ → List ℕ

pub data ScopeError : Type 0 where
  issue_not_found parent_not_found : ℕ → ScopeError

-- `visited` and `issueIds`, in the order of their insertions.
pub record Scan : Type 0 where
  pub visited : List ℕ
  pub issue_ids : List ℕ

abbrev pub visit_child : ℕ → Scan → Scan
visit_child id scan = record {
  visited = scan.visited ++ id ∷ [];
  issue_ids = scan.issue_ids ++ id ∷ [];
}

-- The loop of `visitDescendants` over the children of an issue, none where the fuel for the calls within
-- calls is spent.
unfoldable pub visit_children : (ℕ → List ℕ) → ℕ → List ℕ → Scan → Option Scan
visit_children subs n [] scan = some scan
visit_children subs zero (c ∷ cs) scan = elim (has c scan.visited) [
  | true ↦ visit_children subs zero cs scan
  | false ↦ none
]
visit_children subs (suc n) (c ∷ cs) scan = elim (has c scan.visited) [
  | true ↦ visit_children subs (suc n) cs scan
  | false ↦ elim (visit_children subs n (subs c) (visit_child c scan)) [
    | none ↦ none
    | some scan' ↦ visit_children subs (suc n) cs scan'
  ]
]

unfoldable pub visit_descendants : (ℕ → List ℕ) → ℕ → ℕ → Option Scan
unfolding visit_children
visit_descendants subs fuel parent =
    visit_children subs fuel (subs parent) record { visited = parent ∷ []; issue_ids = [] }

-- The ids of `createParentScope`, none where the fuel is spent.
unfoldable pub create_parent_scope : GitHub → ℕ → ℕ → Result ScopeError (Option (List ℕ))
unfolding visit_descendants
create_parent_scope github fuel parent = elim (github.is_closed parent) [
  | none ↦ err (parent_not_found parent)
  | some closed ↦ elim (visit_descendants github.list_sub_issues fuel parent) [
    | none ↦ ok none
    | some scan ↦ ok (some scan.issue_ids)
  ]
]

-- The ids of `createIssueScope`.
unfoldable pub create_issue_scope : GitHub → ℕ → Result ScopeError (List ℕ)
create_issue_scope github issue = elim (github.is_closed issue) [
  | none ↦ err (issue_not_found issue)
  | some closed ↦ ok (issue ∷ [])
]

-- A run without a scope takes every issue.
unfoldable pub select_scoped_issues : Option (List ℕ) → List ℕ → List ℕ
select_scoped_issues none issues = issues
select_scoped_issues (some ids) issues = filter (λ issue. has issue ids) issues
