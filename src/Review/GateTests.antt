-- ===== src/Review/GateTests.antt =====
-- The theorems on decisions, at an approval that passes every check.
use iwut_app_center.Prelude.{
  true, ℕ, suc, arith, pos, false, some, [], ◌∷◌, codes, ok, err, ◌≡◌, refl,
}
use iwut_app_center.Review.Decision.{
  ApplicationReviewDecision, approved, new_review_action, new_review_policy_version,
  new_review_check_id, usable, new_approval_validation, new_approved_decision,
}
use iwut_app_center.Review.Attempt.{approve, all_scopes}
use iwut_app_center.Review.Candidate.{DecisionCandidate, reviewer_conflicts}
use iwut_app_center.Review.Decide.{
  DecisionPorts, DecideCommand, ReviewerIdentity, unexpected, plan_decision, handle,
}
use iwut_app_center.Review.Gates.{plan_decision-NotBlocked}
use iwut_app_center.Review.Deciders.{Decides, handle-Decides}
use iwut_app_center.Review.Tests.{
  tests, policy, app, version, review_id, reviewer, now, observed, confirmed, normalized,
}

-- Services that agree, and a repository that holds one candidate and counts the commits.
abbrev services : DecisionPorts ℕ
services = record {
  wired = true;
  load_decision_candidate = λ a v r by s. ok (some observed);
  require_usable = λ v snapshot. ok (some policy);
  blocks_approval = λ a b. ok false;
  resolve_auto_rejection = err unexpected;
  validate_redirects = λ p c. ok tt;
  ensure_all_requestable = λ scopes. ok (pos 9);
  inspect = λ url. ok (codes "submit-v1");
  now = now;
  decide = λ c by d s. (ok (some c.review), suc s);
}

abbrev identity : ReviewerIdentity
identity = record { auth_id = reviewer; permissions = codes "app.version.review" ∷ [] }

abbrev command : DecideCommand
command = record {
  outcome = codes "APPROVE";
  expected_policy_version = codes "review-v1";
  confirmed_check_ids = confirmed;
  reason = [];
}

abbrev verdict : ApplicationReviewDecision
verdict = record {
  outcome = approved;
  review_policy_version = codes "review-v1";
  confirmed_check_ids = normalized;
  reason = [];
  decided_by = reviewer;
  decided_at = now;
  approval_validation =
      some
        (record { scope_catalog_revision = pos 9; preflight_policy_version = codes "submit-v1" });
}

approval_planned :
    plan_decision services identity app version review_id command 0 ≡ ok (observed, verdict)
unfolding tests plan_decision new_review_action new_review_policy_version new_review_check_id usable
    new_approval_validation new_approved_decision approve all_scopes reviewer_conflicts
approval_planned = refl

plan_decision-NotBlocked_example :
    services.blocks_approval observed.current_admin_id observed.review.submitted_by ≡ ok false
plan_decision-NotBlocked_example =
    plan_decision-NotBlocked services identity app version review_id command 0 observed verdict
      approval_planned refl

decision_committed :
    handle services identity app version review_id command 0 ≡ (ok observed.review, 1)
unfolding tests plan_decision new_review_action new_review_policy_version new_review_check_id usable
    new_approval_validation new_approved_decision approve all_scopes reviewer_conflicts handle
decision_committed = refl

handle-Decides_example :
    (c : DecisionCandidate) × (d : ApplicationReviewDecision) × Decides services identity app
      version review_id 0 c
    × ((services.decide c identity.auth_id d 0).1 ≡ 1)
handle-Decides_example =
    handle-Decides services identity app version review_id command 0 1 (ok observed.review)
      decision_committed (λ e. absurd (omega arith))
