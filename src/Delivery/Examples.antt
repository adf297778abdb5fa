-- ===== src/Delivery/Examples.antt =====
-- Two instances, and a review loop, on which the theorems about them are tried.
use sandking.Base.{ℕ, ◌≡◌, refl, Bool, true, false, String, [], ◌∷◌, arith, ◌==◌}
use sandking.Delivery.Claims.{Claims, Phase, compute_active_claim, read_before, post_claim, recheck}
use sandking.Delivery.Exclusion.{Step, Reaches, Reaches-exclusive}
use sandking.Delivery.Review.{Turn, review_pull_request}
use sandking.Delivery.Reviewed.{Ends, review_pull_request-Ends}

abbrev laptop : String
laptop = "laptop"

abbrev nobody : Claims
nobody = record { ledger = []; phase_of = λ id. Phase.idle }

-- Both read before either has posted; the laptop posts first.
abbrev both_claim : Claims
both_claim = recheck "devbox" (
    recheck "laptop" (
      post_claim "devbox"
        (post_claim "laptop" (read_before false "laptop" (read_before false "devbox" nobody)))))

both_claim_lem :
    (both_claim.phase_of "laptop" ≡ Phase.holding) × (both_claim.phase_of "devbox" ≡ Phase.refused)
unfolding read_before post_claim recheck compute_active_claim
both_claim_lem = (refl, refl)

both_claim-Reaches : Reaches nobody both_claim
unfolding read_before post_claim recheck compute_active_claim
both_claim-Reaches =
    Reaches.then_step
      (Reaches.then_step
        (Reaches.then_step
          (Reaches.then_step
            (Reaches.then_step (Reaches.then_step Reaches.here (Step.reads "devbox" refl))
              (Step.reads "laptop" refl))
            (Step.claims "laptop" refl))
          (Step.claims "devbox" refl))
        (Step.rechecks "laptop" refl))
      (Step.rechecks "devbox" refl)

Reaches-exclusive_example : laptop ≡ laptop
Reaches-exclusive_example =
    Reaches-exclusive nobody both_claim laptop laptop (λ i. refl) both_claim-Reaches
      both_claim_lem.0 both_claim_lem.0

abbrev first_or_second : Bool → String
first_or_second true = "first"
first_or_second false = "second"

-- The diff stays empty in the first turn; the second review approves.
abbrev turns : ℕ → Turn
turns n = record {
  diff = first_or_second (n == 1);
  is_blank = n == 0;
  review = record { approved = n == 2; summaries = "race" ∷ [] };
}

review_pull_request-Ends_example : Ends 2 (review_pull_request 27 2 turns [])
review_pull_request-Ends_example = review_pull_request-Ends 27 2 turns [] (omega arith)
