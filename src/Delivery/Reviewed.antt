-- ===== src/Delivery/Reviewed.antt =====
-- That the review loop ends, and with what.
use sandking.Base.{
  ℕ, zero, suc, ◌+◌, ◌-◌, ◌*◌, ◌≡◌, ◌≤◌, ◌<◌, ◌⊎◌, inl, inr, refl, Bool, true, false, List, [], ◌∷◌,
  Option, none, some, Result, ok, err, leb, length, length-append, last?, arith, Bool-cases,
}
use sandking.Delivery.Review.{
  Review, Turn, DeliveryError, Loop, Next, again, break, throws, take_turn, review_loop,
  review_pull_request,
}

abbrev pub measure : ℕ → Loop → ℕ
measure max l =
    (max - l.review_attempt) * 9
    + (2 - l.consecutive_unchanged_diffs) * 3
    + (2 - l.consecutive_empty_diffs)

-- The loop between two turns.
pub record IsSound (max : ℕ) (l : Loop) : Type 0 where
  pub few_empty : l.consecutive_empty_diffs ≤ 2
  pub few_unchanged : l.consecutive_unchanged_diffs ≤ 2
  pub under_way : l.review_attempt < max
  pub counted : l.review_attempt ≡ length l.review_ledger

abbrev pub is_approved : Option Review → Bool
is_approved none = false
is_approved (some r) = r.approved

-- What the loop ends with: a last review that approves, within the attempts.
pub record IsApproved (max : ℕ) (l : Loop) : Type 0 where
  pub approves : is_approved l.last_review ≡ true
  pub within : l.review_attempt ≤ max
  pub counted : l.review_attempt ≡ length l.review_ledger

take_turn-again :
    (max : ℕ) (t : Turn) (l l' : Loop)
    → IsSound max l
    → take_turn max t l ≡ again l'
    → IsSound max l' × (measure max l' < measure max l)
unfolding take_turn
take_turn-again max t l l' w h = ground (arith, length-append l.review_ledger (t.review ∷ []))

take_turn-break :
    (max : ℕ) (t : Turn) (l l' : Loop)
    → IsSound max l
    → take_turn max t l ≡ break l'
    → IsApproved max l'
unfolding take_turn
take_turn-break max t l l' w h = ground (arith, length-append l.review_ledger (t.review ∷ []))

-- The loop ended, by an error or approved.
abbrev pub Ends : ℕ → Option (Result DeliveryError Loop) → Type 0
Ends max result =
    ((e : DeliveryError) × (result ≡ some (err e)))
    ⊎ ((l : Loop) × (result ≡ some (ok l)) × IsApproved max l)

Next-cases :
    (next : Next)
    → ((l : Loop) × (next ≡ again l))
      ⊎ (((l : Loop) × (next ≡ break l)) ⊎ ((e : DeliveryError) × (next ≡ throws e)))
Next-cases (again l) = inl (l, refl)
Next-cases (break l) = inr (inl (l, refl))
Next-cases (throws e) = inr (inr (e, refl))

review_loop-Ends :
    (fuel max : ℕ) (turns : ℕ → Turn) (n : ℕ) (l : Loop)
    → IsSound max l
    → measure max l < fuel
    → Ends max (review_loop fuel max turns n l)
unfolding review_loop
review_loop-Ends zero max turns n l w enough = absurd (omega arith)
review_loop-Ends (suc fuel) max turns n l w enough = elim (Next-cases (take_turn max (turns n) l)) [
  | inl (l', e) ↦
      let (w', less) = take_turn-again max (turns n) l l' w e in
      elim (review_loop-Ends fuel max turns (suc n) l' w' (omega arith)) [
        | inl (failure, done) ↦ inl (failure, ground (arith, w.under_way))
        | inr (l'', done, approved) ↦ inr (l'', ground (arith, w.under_way), approved)
      ]
  | inr (inl (l', e)) ↦
      inr (l', ground (arith, w.under_way), take_turn-break max (turns n) l l' w e)
  | inr (inr (failure, e)) ↦ inl (failure, ground (arith, w.under_way))
]

-- Whatever diffs and reviews come in, the loop ends within nine turns for each attempt that is left and
-- nine more, and where it ends without an error the last review approves, and no more than the allowed attempts
-- were made.
pub review_pull_request-Ends :
    (fuel max : ℕ) (turns : ℕ → Turn) (ledger : List Review)
    → (max - length ledger) * 9 + 8 < fuel
    → Ends max (review_pull_request fuel max turns ledger)
unfolding review_pull_request
review_pull_request-Ends fuel max turns ledger enough =
    elim (Bool-cases (leb max (length ledger))) [
      | inl used ↦ inl (DeliveryError.used_all_attempts, ground arith)
      | inr left ↦
          let l : Loop = record {
            review_attempt = length ledger;
            consecutive_empty_diffs = 0;
            consecutive_unchanged_diffs = 0;
            last_reviewed_diff = none;
            last_review = last? ledger;
            review_ledger = ledger;
            implementations = 0;
          } in
          elim (review_loop-Ends fuel max turns 0 l (ground arith) (omega arith)) [
            | inl (failure, done) ↦ inl (failure, ground arith)
            | inr (l', done, approved) ↦ inr (l', ground arith, approved)
          ]
    ]
