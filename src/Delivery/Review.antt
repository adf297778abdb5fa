-- ===== src/Delivery/Review.antt =====
-- The review loop of `deliverClaimedIssueThroughPullRequest` in .sandcastle/issue-delivery.mjs. What the
-- adapters return in its turns, the diff and the review, is a function of the turn's number.
use sandking.Base.{
  ℕ, zero, suc, ◌+◌, Bool, false, String, str_eq, List, [], ◌∷◌, ◌++◌, Option, none, some, last?,
  length, Result, ok, err, ltb, leb, ◌==◌, if◌then◌else◌,
}

abbrev pub default_max_review_attempts : ℕ
default_max_review_attempts = 15

abbrev pub max_consecutive_no_progress_attempts : ℕ
max_consecutive_no_progress_attempts = 3

-- A review, with the summaries of its blocking findings.
pub record Review : Type 0 where
  pub approved : Bool
  pub summaries : List String

-- `is_blank` tells whether nothing of the diff is left by `trim`.
pub record Turn : Type 0 where
  pub diff : String
  pub is_blank : Bool
  pub review : Review

pub data DeliveryError : Type 0 where
  used_all_attempts remained_empty remained_unchanged was_not_approved : DeliveryError

-- `implementations` counts the calls of the worker.
pub record Loop : Type 0 where
  pub review_attempt : ℕ
  pub consecutive_empty_diffs : ℕ
  pub consecutive_unchanged_diffs : ℕ
  pub last_reviewed_diff : Option String
  pub last_review : Option Review
  pub review_ledger : List Review
  pub implementations : ℕ

pub data Next : Type 0 where
  again : Loop → Next
  break : Loop → Next
  throws : DeliveryError → Next

abbrev is_diff : String → Option String → Bool
is_diff diff none = false
is_diff diff (some last) = str_eq diff last

unfoldable pub turn_empty : Loop → Next
turn_empty l =
    if leb max_consecutive_no_progress_attempts (l.consecutive_empty_diffs + 1)
    then throws DeliveryError.remained_empty
    else again (record l {
      consecutive_empty_diffs = l.consecutive_empty_diffs + 1;
      implementations = l.implementations + 1;
    })

unfoldable pub turn_unchanged : Loop → Next
turn_unchanged l =
    if leb max_consecutive_no_progress_attempts (l.consecutive_unchanged_diffs + 1)
    then throws DeliveryError.remained_unchanged
    else again (record l {
      consecutive_empty_diffs = 0;
      consecutive_unchanged_diffs = l.consecutive_unchanged_diffs + 1;
      implementations = l.implementations + 1;
    })

unfoldable pub turn_reviewed : ℕ → Turn → Loop → Next
turn_reviewed max t l =
    let reviewed : Loop = record l {
      consecutive_empty_diffs = 0;
      consecutive_unchanged_diffs = 0;
      last_reviewed_diff = some t.diff;
      review_attempt = l.review_attempt + 1;
      last_review = some t.review;
      review_ledger = l.review_ledger ++ t.review ∷ [];
    } in
    if t.review.approved
    then break reviewed
    else if l.review_attempt + 1 == max
    then throws DeliveryError.was_not_approved
    else again (record reviewed { implementations = l.implementations + 1 })

-- The body of the loop.
unfoldable pub take_turn : ℕ → Turn → Loop → Next
unfolding turn_empty turn_unchanged turn_reviewed
take_turn max t l =
    if t.is_blank
    then turn_empty l
    else if is_diff t.diff l.last_reviewed_diff
    then turn_unchanged l
    else turn_reviewed max t l

-- The loop on fuel; none is where it runs out.
unfoldable pub review_loop : ℕ → ℕ → (ℕ → Turn) → ℕ → Loop → Option (Result DeliveryError Loop)
unfolding take_turn
review_loop zero max turns n l = none
review_loop (suc fuel) max turns n l =
    if ltb l.review_attempt max
    then (elim (take_turn max (turns n) l) [
      | again l' ↦ review_loop fuel max turns (suc n) l'
      | break l' ↦ some (ok l')
      | throws e ↦ some (err e)
    ])
    else some (ok l)

-- The loop with the check before it, from the reviews that the pull request already has.
unfoldable pub review_pull_request :
    ℕ → ℕ → (ℕ → Turn) → List Review → Option (Result DeliveryError Loop)
review_pull_request fuel max turns ledger =
    if leb max (length ledger)
    then some (err DeliveryError.used_all_attempts)
    else review_loop fuel max turns 0 (record {
      review_attempt = length ledger;
      consecutive_empty_diffs = 0;
      consecutive_unchanged_diffs = 0;
      last_reviewed_diff = none;
      last_review = last? ledger;
      review_ledger = ledger;
      implementations = 0;
    })
