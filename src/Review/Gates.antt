-- ===== src/Review/Gates.antt =====
-- internal/review/usecase/decide_application_version_review.go: what stands between a reviewer and a
-- decision.
use iwut_app_center.Prelude.{
  Bool, true, false, Option, none, some, Bytes, Result, ok, err, ◌≡◌, refl, arith,
}
use iwut_app_center.Shared.{Time, AuthId, utc}
use iwut_app_center.Review.{Error}
use iwut_app_center.Review.Decision.{
  ReviewDecision, approved, rejected, ApplicationReviewDecision, VersionReviewPolicy,
}
use iwut_app_center.Review.Attempt.{ApplicationReview, reject_review}
use iwut_app_center.Review.Candidate.{DecisionCandidate}
use iwut_app_center.Review.Lifecycle.{outcome-new_rejected_decision, reject_review-decision}
use iwut_app_center.Review.Decide.{
  DecisionPorts, DecideCommand, ReviewerIdentity, PortError, reviewer_rejection, system_rejection,
  system_reason, choose, settle, admit, plan_decision,
}

outcome-reject_review :
    (r s : ApplicationReview) (policy reason : Bytes) (by : AuthId) (at : Time)
    (d : ApplicationReviewDecision)
    → reject_review (some r) policy reason by at ≡ ok (s, d)
    → d.outcome ≡ rejected
outcome-reject_review r s policy reason by at d h =
    outcome-new_rejected_decision policy reason by at d
      (reject_review-decision r s policy reason by at d h)

module _ {S : Type 0} (ports : DecisionPorts S) where
  outcome-reviewer_rejection :
      (c : DecisionCandidate) (policy reason : Bytes) (by : AuthId) (d : ApplicationReviewDecision)
      (o : Result Error (ApplicationReview × ApplicationReviewDecision))
      → reject_review (some c.review) policy reason by (utc ports.now) ≡ o
      → reviewer_rejection ports c policy reason by ≡ ok d
      → d.outcome ≡ rejected
  unfolding reviewer_rejection
  outcome-reviewer_rejection c policy reason by d (err e) k h = ground arith
  outcome-reviewer_rejection c policy reason by d (ok (s, d')) k h =
      ground (arith, outcome-reject_review c.review s policy reason by (utc ports.now) d')

  outcome-system_rejection :
      (c : DecisionCandidate) (policy : Bytes) (d : ApplicationReviewDecision) (system : AuthId)
      (o : Result Error (ApplicationReview × ApplicationReviewDecision))
      → ports.resolve_auto_rejection ≡ ok system
      → reject_review (some c.review) policy system_reason system (utc ports.now) ≡ o
      → system_rejection ports c policy ≡ ok d
      → d.outcome ≡ rejected
  unfolding system_rejection
  outcome-system_rejection c policy d system (err e) a k h = ground arith
  outcome-system_rejection c policy d system (ok (s, d')) a k h =
      ground
        (arith, outcome-reject_review c.review s policy system_reason system (utc ports.now) d')

  -- An approval is decided only where no suspension blocks it.
  NotBlocked : DecisionCandidate → Type 0
  NotBlocked c = ports.blocks_approval c.current_admin_id c.review.submitted_by ≡ ok false

  system_outcome :
      (c : DecisionCandidate) (policy : Bytes) (d : ApplicationReviewDecision)
      (o : Result PortError AuthId)
      → ports.resolve_auto_rejection ≡ o
      → system_rejection ports c policy ≡ ok d
      → d.outcome ≡ rejected
  unfolding system_rejection
  system_outcome c policy d (err e) a h = ground arith
  system_outcome c policy d (ok system) a h = outcome-system_rejection c policy d system _ a refl h

  NotBlocked-choose :
      (action : ReviewDecision) (c : DecisionCandidate) (version : Bytes)
      (policy : VersionReviewPolicy) (command : DecideCommand) (by : AuthId)
      (d : ApplicationReviewDecision) (o : Result PortError Bool)
      → ports.blocks_approval c.current_admin_id c.review.submitted_by ≡ o
      → choose ports action c version policy command by ≡ ok d
      → d.outcome ≡ approved
      → NotBlocked c
  unfolding choose NotBlocked
  NotBlocked-choose rejected c version policy command by d o a h e =
      ground (arith, outcome-reviewer_rejection c version command.reason by d _ refl h)
  NotBlocked-choose approved c version policy command by d (err x) a h e = ground arith
  NotBlocked-choose approved c version policy command by d (ok false) a h e = a
  NotBlocked-choose approved c version policy command by d (ok true) a h e =
      ground (arith, system_outcome c version d _ refl)

  choose-settle :
      (action : ReviewDecision) (c : DecisionCandidate) (version : Bytes) (command : DecideCommand)
      (by : AuthId) (d : ApplicationReviewDecision)
      (o : Result PortError (Option VersionReviewPolicy))
      → ports.require_usable version c.review.snapshot ≡ o
      → settle ports c action version command by ≡ ok d
      → d.outcome ≡ approved
      → NotBlocked c
  unfolding settle
  choose-settle action c version command by d (err x) a h e = ground arith
  choose-settle action c version command by d (ok none) a h e = ground arith
  choose-settle action c version command by d (ok (some policy)) a h e =
      NotBlocked-choose action c version policy command by d _ refl (ground arith) e

  -- An approval that is handed to the repository has passed the suspension check: the services said
  -- that neither the candidate's administrator nor the submitter is suspended.
  pub plan_decision-NotBlocked :
      (identity : ReviewerIdentity) (application_id version_id review_id : Bytes)
      (command : DecideCommand) (s : S) (c : DecisionCandidate) (d : ApplicationReviewDecision)
      → plan_decision ports identity application_id version_id review_id command s ≡ ok (c, d)
      → d.outcome ≡ approved
      → ports.blocks_approval c.current_admin_id c.review.submitted_by ≡ ok false
  unfolding plan_decision NotBlocked
  plan_decision-NotBlocked identity a v r command s c d h e =
      by_admitted (admit ports identity a v r command s) refl
    where
      by_admitted :
          (o : Result Error (DecisionCandidate × ReviewDecision × Bytes))
          → admit ports identity a v r command s ≡ o
          → NotBlocked c
      by_admitted (err x) o = ground arith
      by_admitted (ok (c', action, version)) o =
          choose-settle action c version command identity.auth_id d _ refl (ground arith) e
