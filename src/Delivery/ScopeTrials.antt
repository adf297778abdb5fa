-- ===== src/Delivery/ScopeTrials.antt =====
-- The scope of a parent whose issues make a cycle, in .sandcastle/run-scope.mjs.
use sandking.Base.{
  ◌<◌, none, ℕ, ◌==◌, ◌≡◌, refl, true, false, List, [], ◌∷◌, some, has, ok, arith, if◌then◌else◌,
}
use sandking.Delivery.Parents.{
  Relations, complete_eligible_parents, IsCompleted, complete_eligible_parents-IsCompleted,
}
use sandking.Delivery.Scope.{
  GitHub, visit_children, visit_descendants, create_parent_scope, create_issue_scope,
  select_scoped_issues,
}
use sandking.Delivery.Descendants.{IsScope, create_parent_scope-IsScope}

-- Issue 2 has its own parent among its sub-issues.
abbrev github : GitHub
github = record {
  is_closed = λ issue. some false;
  list_sub_issues =
      λ issue. if issue == 1 then 2 ∷ 3 ∷ [] else if issue == 2 then 1 ∷ 4 ∷ [] else [];
}

abbrev issues : List ℕ
issues = 1 ∷ 2 ∷ 3 ∷ 4 ∷ []

issues_known : (x y : ℕ) → has y (github.list_sub_issues x) ≡ true → has y issues ≡ true
issues_known x y h = ground arith

create_parent_scope-IsScope_example :
    (ids : List ℕ) × (create_parent_scope github 4 1 ≡ ok (some ids))
    × IsScope github.list_sub_issues 1 ids
create_parent_scope-IsScope_example =
    create_parent_scope-IsScope github 1 issues false refl issues_known

create_parent_scope_lem : create_parent_scope github 4 1 ≡ ok (some (2 ∷ 4 ∷ 3 ∷ []))
unfolding create_parent_scope visit_descendants visit_children
create_parent_scope_lem = refl

create_issue_scope_lem : create_issue_scope github 3 ≡ ok (3 ∷ [])
unfolding create_issue_scope
create_issue_scope_lem = refl

select_scoped_issues_lem : select_scoped_issues (some (2 ∷ 4 ∷ [])) (4 ∷ 5 ∷ 2 ∷ []) ≡ 4 ∷ 2 ∷ []
unfolding select_scoped_issues
select_scoped_issues_lem = refl

-- Issue 3 is the only one below 2, which is the only one below 1.
abbrev relations : Relations
relations = record {
  get_parent_issue = λ issue. if issue == 3 then some 2 else if issue == 2 then some 1 else none;
  list_sub_issues = λ issue. if issue == 1 then 2 ∷ [] else if issue == 2 then 3 ∷ [] else [];
}

complete_eligible_parents_lem :
    complete_eligible_parents relations 4 3 (3 ∷ []) ≡ some (3 ∷ 2 ∷ 1 ∷ [])
unfolding complete_eligible_parents
complete_eligible_parents_lem = refl

parent_lower : (x parent : ℕ) → relations.get_parent_issue x ≡ some parent → parent < x
parent_lower x parent h = ground arith

complete_eligible_parents-IsCompleted_example :
    (closed' : List ℕ) × (complete_eligible_parents relations 4 3 (3 ∷ []) ≡ some closed')
    × IsCompleted relations 3 (3 ∷ []) closed'
complete_eligible_parents-IsCompleted_example =
    complete_eligible_parents-IsCompleted relations (λ x. x) parent_lower 4 3 (3 ∷ []) (omega arith)
