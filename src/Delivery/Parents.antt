-- ===== src/Delivery/Parents.antt =====
-- `completeEligibleParents` of .sandcastle/issue-delivery.mjs: a parent is closed when all its issues
-- are. GitHub's relations are a parameter, which issues are closed is the state; issues are numbers.
use sandking.Base.{
  ℕ, zero, suc, ◌<◌, ◌==◌, ◌≡◌, subst, inl, inr, Bool, true, false, not, ◌&&◌, ◌||◌, List, [], ◌∷◌,
  Option, none, some, all, length, has, add, Bool-cases, Option-cases, arith, if◌then◌else◌,
}
use sandking.Delivery.Scoped.{has-append}

pub record Relations : Type 0 where
  pub get_parent_issue : ℕ → Option ℕ
  pub list_sub_issues : ℕ → List ℕ

-- The issue has issues below it, and they are all closed.
abbrev pub is_eligible : Relations → ℕ → List ℕ → Bool
is_eligible github parent closed =
    not (length (github.list_sub_issues parent) == 0)
    && all (λ sub. has sub closed) (github.list_sub_issues parent)

-- The loop, none where its fuel is spent: the issues that are closed behind it.
unfoldable pub complete_eligible_parents : Relations → ℕ → ℕ → List ℕ → Option (List ℕ)
complete_eligible_parents github zero child closed = none
complete_eligible_parents github (suc n) child closed = elim (github.get_parent_issue child) [
  | none ↦ some closed
  | some parent ↦
      let rest = complete_eligible_parents github n parent (add parent closed) in
      if is_eligible github parent closed then rest else some closed
]

-- From an issue to one above it, over parents that are closed.
pub data Climbs (github : Relations) (closed : List ℕ) : ℕ → ℕ → Type 0 where
  stays : {x : ℕ} → Climbs github closed x x
  climbs :
      {x parent top : ℕ}
      → github.get_parent_issue x ≡ some parent
      → has parent closed ≡ true
      → Climbs github closed parent top
      → Climbs github closed x top

-- The climb ends: there is no parent, or it has no issues, or one of them is open.
abbrev pub is_settled : Relations → List ℕ → ℕ → Bool
is_settled github closed top = elim (github.get_parent_issue top) [
  | none ↦ true
  | some parent ↦ not (is_eligible github parent closed)
]

-- Nothing is opened; what was closed has issues, all of them closed; and the climb went as far as it goes.
pub record IsCompleted (github : Relations) (child : ℕ) (closed closed' : List ℕ) : Type 0 where
  pub kept : (x : ℕ) → has x closed ≡ true → has x closed' ≡ true
  pub justified :
      (x : ℕ)
      → has x closed' ≡ true
      → has x closed ≡ false
      → (length (github.list_sub_issues x) == 0) ≡ false
        × ((y : ℕ) → has y (github.list_sub_issues x) ≡ true → has y closed' ≡ true)
  pub top : ℕ
  pub climbed : Climbs github closed' child top
  pub settled : is_settled github closed' top ≡ true

has-add : (x c : ℕ) (xs : List ℕ) → has x (add c xs) ≡ (has x xs || c == x)
has-add x c xs = elim (Bool-cases (c == x)) [
  | inl same ↦
      subst (λ z. has z (add c xs) ≡ (has z xs || c == z)) {x = c} (ground arith)
        (ground (arith, has-append c c xs))
  | inr differs ↦ ground (arith, has-append x c xs)
]

all-has :
    (y : ℕ) (closed subs : List ℕ)
    → all (λ sub. has sub closed) subs ≡ true
    → has y subs ≡ true
    → has y closed ≡ true
all-has y closed [] h m = absurd (ground arith)
all-has y closed (x ∷ xs) h m = elim (Bool-cases (x == y)) [
  | inl same ↦ subst (λ z. has z closed ≡ true) {x = x} (ground arith) (ground arith)
  | inr differs ↦ all-has y closed xs (ground arith) (ground arith)
]

idle-IsCompleted :
    (github : Relations) (child : ℕ) (closed : List ℕ)
    → is_settled github closed child ≡ true
    → IsCompleted github child closed closed
idle-IsCompleted github child closed h = record {
  kept = λ x m. m;
  justified = λ x m new. absurd (ground arith);
  top = child;
  climbed = stays;
  settled = h;
}

closed-IsCompleted :
    (github : Relations) (child parent : ℕ) (closed closed' : List ℕ)
    → github.get_parent_issue child ≡ some parent
    → is_eligible github parent closed ≡ true
    → IsCompleted github parent (add parent closed) closed'
    → IsCompleted github child closed closed'
closed-IsCompleted github child parent closed closed' above eligible h = record {
  kept = λ x m. h.kept x (ground (arith, has-add x parent closed));
  justified = λ x m new. elim (Bool-cases (parent == x)) [
    | inl same ↦
        subst
          (λ z.
            (length (github.list_sub_issues z) == 0) ≡ false
            × ((y : ℕ) → has y (github.list_sub_issues z) ≡ true → has y closed' ≡ true))
          {x = parent} (ground arith)
          (
            ground arith,
            λ y below. h.kept y (
                ground (
                  arith,
                  has-add y parent closed,
                  all-has y closed (github.list_sub_issues parent) (ground arith) below,
                )),
          )
    | inr differs ↦ h.justified x m (ground (arith, has-add x parent closed))
  ];
  top = h.top;
  climbed = climbs above (h.kept parent (ground (arith, has-add parent parent closed))) h.climbed;
  settled = h.settled;
}

-- Where every parent is lower than its issues by some measure, as without cycles, the loop ends; then
-- nothing was opened, every issue that it closed has issues and all of them are closed, and the parent
-- that it has stopped below is absent or not eligible.
pub complete_eligible_parents-IsCompleted :
    (github : Relations) (depth : ℕ → ℕ)
    → ((x parent : ℕ) → github.get_parent_issue x ≡ some parent → depth parent < depth x)
    → (n child : ℕ) (closed : List ℕ) → depth child < n
    → (closed' : List ℕ) × (complete_eligible_parents github n child closed ≡ some closed')
      × IsCompleted github child closed closed'
unfolding complete_eligible_parents
complete_eligible_parents-IsCompleted github depth lower zero child closed le = absurd (omega arith)
complete_eligible_parents-IsCompleted github depth lower (suc n) child closed le =
    elim (Option-cases (github.get_parent_issue child)) [
      | inl top ↦ (closed, ground arith, idle-IsCompleted github child closed (ground arith))
      | inr (parent, above) ↦ elim (Bool-cases (is_eligible github parent closed)) [
        | inl eligible ↦
            let (closed', made, h) =
              complete_eligible_parents-IsCompleted github depth lower n parent (add parent closed)
                (omega (arith, lower child parent above)) in
            (
              closed',
              ground (arith, above, eligible, made),
              closed-IsCompleted github child parent closed closed' above eligible h,
            )
        | inr open_ ↦ (
          closed,
          ground (arith, above, open_),
          idle-IsCompleted github child closed (ground (arith, above, open_)),
        )
      ]
    ]
