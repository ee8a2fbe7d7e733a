-- ===== src/Version/Reviewed.antt =====
-- internal/adapter/mongo/application_review_repository.go and application_review_decision_repository.go:
-- what a submission and a decision of internal/review write into the version.
use iwut_app_center.Prelude.{
  ltb_ℤ, max_int64, inc_int64, Bool, true, false, none, some, List, [], Bytes, Option, ok, ◌≡◌,
  refl, subst, arith,
}
use iwut_app_center.Shared.{Time, is_zero, AuthId, auth_id_is_valid}
use iwut_app_center.Review.Decision.{
  ReviewDecision, ApplicationReviewDecision, ApprovalValidation, new_application_review_decision,
  new_approved_decision, new_rejected_decision,
}
use iwut_app_center.Review.Attempt.{ApplicationReview, SubmissionCandidate, approve, reject_review}
use iwut_app_center.Review.Candidate.{
  VersionSummary, DecisionCandidate, DecidedVersion, new_submitted_application_version,
  new_decided_application_version,
}
use iwut_app_center.Review.Lifecycle.{approve-decision, reject_review-decision}
use iwut_app_center.Version.Urls.{Urls}
use iwut_app_center.Version.Draft.{
  ReviewStatus, submitted, approved, rejected, ApplicationVersion, status_is_valid,
}
use iwut_app_center.Version.Edited.{Sound, next_revision}

-- The update of a submitted version.
abbrev pub as_submitted : ApplicationVersion → VersionSummary → ApplicationVersion
as_submitted v s = record v {
  review_status = submitted;
  revision = inc_int64 v.revision;
  updated_by = s.updated_by;
  updated_at = s.updated_at;
}

abbrev decided_status : ReviewDecision → ReviewStatus
decided_status iwut_app_center.Review.Decision.approved = approved
decided_status iwut_app_center.Review.Decision.rejected = rejected

-- The update of a version that was decided on.
abbrev pub as_decided : ApplicationVersion → DecidedVersion → ApplicationVersion
as_decided v d = record v {
  review_status = decided_status d.review_status;
  revision = inc_int64 v.revision;
  updated_by = d.summary.updated_by;
  updated_at = d.summary.updated_at;
}

abbrev pub awaits_decision : ReviewStatus → Bool
awaits_decision submitted = true
awaits_decision _ = false

-- The decision that Approve or Reject has made on the review.
pub data DecisionOn (r : ApplicationReview) (d : ApplicationReviewDecision) : Type 0 where
  by_approval :
      (q : ApplicationReview) (policy : Bytes) (checks : List Bytes) (reason : Bytes)
      (validation : Option ApprovalValidation) (by : AuthId) (at : Time)
      → approve (some r) policy checks reason validation by at ≡ ok (q, d)
      → DecisionOn r d
  by_rejection :
      (q : ApplicationReview) (policy reason : Bytes) (by : AuthId) (at : Time)
      → reject_review (some r) policy reason by at ≡ ok (q, d)
      → DecisionOn r d

-- An editor and a time that a version may have.
record Signed (by : AuthId) (at : Time) : Type 0 where
  who : auth_id_is_valid by ≡ true
  when : is_zero at ≡ false
  in_utc : at.in_utc ≡ true

Signed-submission :
    (c : SubmissionCandidate) (by : AuthId) (at : Time) (s : VersionSummary)
    → new_submitted_application_version (some c) by at ≡ ok s
    → Signed s.updated_by s.updated_at
unfolding new_submitted_application_version
Signed-submission c by at s h = record {
  who = ground arith;
  when = ground arith;
  in_utc = ground arith;
}

Signed-decision :
    (outcome : ReviewDecision) (policy : Bytes) (checks : List Bytes) (reason : Bytes)
    (validation : Option ApprovalValidation) (by : AuthId) (at : Time)
    (d : ApplicationReviewDecision)
    → new_application_review_decision outcome policy checks reason validation by at ≡ ok d
    → Signed d.decided_by d.decided_at
unfolding new_application_review_decision
Signed-decision outcome policy checks reason validation by at d h = record {
  who = ground arith;
  when = ground arith;
  in_utc = ground arith;
}

new_approved_decision-general :
    (policy : Bytes) (checks : List Bytes) (reason : Bytes) (validation : Option ApprovalValidation)
    (by : AuthId) (at : Time) (d : ApplicationReviewDecision)
    → new_approved_decision policy checks reason validation by at ≡ ok d
    → new_application_review_decision iwut_app_center.Review.Decision.approved policy checks reason
        validation by at
      ≡ ok d
unfolding new_approved_decision
new_approved_decision-general policy checks reason none by at d h = absurd (ground arith)
new_approved_decision-general policy checks reason (some v) by at d h = h

Signed-DecisionOn :
    (r : ApplicationReview) (d : ApplicationReviewDecision)
    → DecisionOn r d
    → Signed d.decided_by d.decided_at
unfolding new_rejected_decision
Signed-DecisionOn r d (by_approval q policy checks reason validation by at h) =
    Signed-decision iwut_app_center.Review.Decision.approved policy checks reason validation by at d
      (new_approved_decision-general policy checks reason validation by at d
        (approve-decision r q policy checks reason validation by at d h))
Signed-DecisionOn r d (by_rejection q policy reason by at h) =
    Signed-decision iwut_app_center.Review.Decision.rejected policy [] reason none by at d
      (reject_review-decision r q policy reason by at d h)

signature-of_decided :
    (c : DecisionCandidate) (d : ApplicationReviewDecision) (w : DecidedVersion)
    → new_decided_application_version (some c) (some d) ≡ ok w
    → (d.decided_by ≡ w.summary.updated_by) × (d.decided_at ≡ w.summary.updated_at)
unfolding new_decided_application_version
signature-of_decided c d w h = ground arith

Signed-Sound :
    (urls : Urls) (v : ApplicationVersion) (status : ReviewStatus) (by : AuthId) (at : Time)
    → Sound urls v
    → ltb_ℤ v.revision max_int64 ≡ true
    → status_is_valid status ≡ true
    → Signed by at
    → Sound urls (record v {
      review_status = status;
      revision = inc_int64 v.revision;
      updated_by = by;
      updated_at = at;
    })
Signed-Sound urls v status by at s few fine signed = record {
  id = s.id;
  application_id = s.application_id;
  sequence = s.sequence;
  content = s.content;
  status = fine;
  creator = s.creator;
  created = s.created;
  created_utc = s.created_utc;
  revision = next_revision v.revision s.revision few;
  updater = signed.who;
  updated = signed.when;
  updated_utc = signed.in_utc;
}

pub as_submitted-Sound :
    (urls : Urls) (v : ApplicationVersion) (c : SubmissionCandidate) (by : AuthId) (at : Time)
    (s : VersionSummary)
    → Sound urls v
    → ltb_ℤ v.revision max_int64 ≡ true
    → new_submitted_application_version (some c) by at ≡ ok s
    → Sound urls (as_submitted v s)
unfolding status_is_valid
as_submitted-Sound urls v c by at s sound few h =
    Signed-Sound urls v submitted s.updated_by s.updated_at sound few refl
      (Signed-submission c by at s h)

decided_status-valid : (o : ReviewDecision) → status_is_valid (decided_status o) ≡ true
unfolding status_is_valid
decided_status-valid iwut_app_center.Review.Decision.approved = refl
decided_status-valid iwut_app_center.Review.Decision.rejected = refl

pub as_decided-Sound :
    (urls : Urls) (v : ApplicationVersion) (r : ApplicationReview) (c : DecisionCandidate)
    (d : ApplicationReviewDecision) (w : DecidedVersion)
    → Sound urls v
    → ltb_ℤ v.revision max_int64 ≡ true
    → DecisionOn r d
    → new_decided_application_version (some c) (some d) ≡ ok w
    → Sound urls (as_decided v w)
as_decided-Sound urls v r c d w sound few made h =
    let (by, at) = signature-of_decided c d w h in
    let signed = Signed-DecisionOn r d made in
    Signed-Sound urls v (decided_status w.review_status) w.summary.updated_by w.summary.updated_at
      sound few (decided_status-valid w.review_status)
      (subst (λ b. Signed b w.summary.updated_at) by (subst (Signed d.decided_by) at signed))
