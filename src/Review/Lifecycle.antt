-- ===== src/Review/Lifecycle.antt =====
-- internal/review/domain: the states of a review as the commands reach them.
use iwut_app_center.Prelude.{
  ℤ, true, Option, none, some, List, Bytes, ok, ◌≡◌, refl, subst, ◌∙◌, arith,
}
use iwut_app_center.Shared.{Time, AuthId}
use iwut_app_center.Review.Snapshot.{VersionSnapshot}
use iwut_app_center.Review.Decision.{
  approved, rejected, ApplicationReviewDecision, ApprovalValidation, new_approved_decision,
  new_rejected_decision,
}
use iwut_app_center.Review.Attempt.{
  ApplicationReview, SubmissionCandidate, new_submission_candidate, new_pending_application_review,
  restore_application_review, approve, reject_review, record_draft_restoration, DraftRestoration,
  status_is_rejected,
}

-- One command on a review.
pub data Step (r s : ApplicationReview) : Type 0 where
  approval :
      (policy : Bytes) (checks : List Bytes) (reason : Bytes)
      (validation : Option ApprovalValidation) (by : AuthId) (at : Time)
      (d : ApplicationReviewDecision)
      → approve (some r) policy checks reason validation by at ≡ ok (s, d)
      → Step r s
  rejection :
      (policy reason : Bytes) (by : AuthId) (at : Time) (d : ApplicationReviewDecision)
      → reject_review (some r) policy reason by at ≡ ok (s, d)
      → Step r s
  restoration :
      (by : AuthId) (at : Time) (revision : ℤ) (x : DraftRestoration)
      → record_draft_restoration (some r) by at revision ≡ ok (s, x)
      → Step r s

-- The reviews that the commands reach from a submission.
pub data Reach : ApplicationReview → Type 0 where
  submission :
      (application_id version_id : Bytes) (revision : ℤ) (snapshot : Option VersionSnapshot)
      (c : SubmissionCandidate) (id : Bytes) (attempt scopes : ℤ) (preflight : Bytes) (by : AuthId)
      (at : Time) (r : ApplicationReview)
      → new_submission_candidate application_id version_id revision snapshot ≡ ok c
      → new_pending_application_review (some c) id attempt scopes preflight by at ≡ ok r
      → Reach r
  step : (r s : ApplicationReview) → Reach r → Step r s → Reach s

-- What RestoreApplicationReview accepts and gives back unchanged.
pub IsRestorable : ApplicationReview → Type 0
IsRestorable r = restore_application_review r ≡ ok r

outcome-new_approved_decision :
    (policy : Bytes) (checks : List Bytes) (reason : Bytes) (validation : Option ApprovalValidation)
    (by : AuthId) (at : Time) (d : ApplicationReviewDecision)
    → new_approved_decision policy checks reason validation by at ≡ ok d
    → d.outcome ≡ approved
unfolding new_approved_decision
outcome-new_approved_decision policy checks reason validation by at d h = ground arith

pub outcome-new_rejected_decision :
    (policy reason : Bytes) (by : AuthId) (at : Time) (d : ApplicationReviewDecision)
    → new_rejected_decision policy reason by at ≡ ok d
    → d.outcome ≡ rejected
unfolding new_rejected_decision
outcome-new_rejected_decision policy reason by at d h = ground arith

IsRestorable-of_submission :
    (application_id version_id : Bytes) (revision : ℤ) (snapshot : Option VersionSnapshot)
    (c : SubmissionCandidate) (id : Bytes) (attempt scopes : ℤ) (preflight : Bytes) (by : AuthId)
    (at : Time) (r : ApplicationReview)
    → new_submission_candidate application_id version_id revision snapshot ≡ ok c
    → new_pending_application_review (some c) id attempt scopes preflight by at ≡ ok r
    → IsRestorable r
unfolding IsRestorable new_submission_candidate new_pending_application_review
    restore_application_review
IsRestorable-of_submission a v n none c id k scopes p by at r h e = ground arith
IsRestorable-of_submission a v n (some x) c id k scopes p by at r h e = ground arith

-- A decision is written once: no later command changes it, nor the status.
Step-decision :
    (r s : ApplicationReview) (d : ApplicationReviewDecision)
    → Step r s
    → r.decision ≡ some d
    → (s.decision ≡ some d) × (s.status ≡ r.status)
unfolding approve reject_review record_draft_restoration
Step-decision r s d (approval policy checks reason validation by at _ h) e = ground arith
Step-decision r s d (rejection policy reason by at _ h) e = ground arith
Step-decision r s d (restoration by at revision x h) e = ground arith

-- Any number of commands.
pub data Steps (r : ApplicationReview) : ApplicationReview → Type 0 where
  stay : Steps r r
  after : (s t : ApplicationReview) → Steps r s → Step s t → Steps r t

-- Once a review has a decision, no sequence of commands changes the decision or the status.
pub Steps-decision :
    (r s : ApplicationReview) (d : ApplicationReviewDecision)
    → Steps r s
    → r.decision ≡ some d
    → (s.decision ≡ some d) × (s.status ≡ r.status)
Steps-decision r _ d stay e = (e, refl)
Steps-decision r _ d (after s t many one) e =
    let (kept, status) = Steps-decision r s d many e in
    let (kept', status') = Step-decision s t d one kept in (kept', status' ∙ status)

IsRestorable-approval :
    (r s : ApplicationReview) (policy : Bytes) (checks : List Bytes) (reason : Bytes)
    (validation : Option ApprovalValidation) (by : AuthId) (at : Time)
    (d : ApplicationReviewDecision)
    → IsRestorable r
    → approve (some r) policy checks reason validation by at ≡ ok (s, d)
    → d.outcome ≡ approved
    → IsRestorable s
unfolding IsRestorable approve restore_application_review
IsRestorable-approval r s policy checks reason validation by at d i h o = ground arith

IsRestorable-rejection :
    (r s : ApplicationReview) (policy reason : Bytes) (by : AuthId) (at : Time)
    (d : ApplicationReviewDecision)
    → IsRestorable r
    → reject_review (some r) policy reason by at ≡ ok (s, d)
    → d.outcome ≡ rejected
    → IsRestorable s
unfolding IsRestorable reject_review restore_application_review
IsRestorable-rejection r s policy reason by at d i h o = ground arith

record_draft_restoration-eq :
    (r s : ApplicationReview) (by : AuthId) (at : Time) (revision : ℤ) (x : DraftRestoration)
    → record_draft_restoration (some r) by at revision ≡ ok (s, x)
    → (record r { draft_restoration = some x } ≡ s) × (status_is_rejected r.status ≡ true)
unfolding record_draft_restoration
record_draft_restoration-eq r s by at revision x h = ground arith

IsRestorable-restored :
    (r : ApplicationReview) (x : DraftRestoration)
    → IsRestorable r
    → status_is_rejected r.status ≡ true
    → IsRestorable (record r { draft_restoration = some x })
unfolding IsRestorable restore_application_review
IsRestorable-restored r x i h = ground arith

IsRestorable-restoration :
    (r s : ApplicationReview) (by : AuthId) (at : Time) (revision : ℤ) (x : DraftRestoration)
    → IsRestorable r
    → record_draft_restoration (some r) by at revision ≡ ok (s, x)
    → IsRestorable s
IsRestorable-restoration r s by at revision x i h =
    let (same, status) = record_draft_restoration-eq r s by at revision x h in
    subst IsRestorable same (IsRestorable-restored r x i status)

pub approve-decision :
    (r s : ApplicationReview) (policy : Bytes) (checks : List Bytes) (reason : Bytes)
    (validation : Option ApprovalValidation) (by : AuthId) (at : Time)
    (d : ApplicationReviewDecision)
    → approve (some r) policy checks reason validation by at ≡ ok (s, d)
    → new_approved_decision policy checks reason validation by at ≡ ok d
unfolding approve
approve-decision r s policy checks reason validation by at d h = ground arith

pub reject_review-decision :
    (r s : ApplicationReview) (policy reason : Bytes) (by : AuthId) (at : Time)
    (d : ApplicationReviewDecision)
    → reject_review (some r) policy reason by at ≡ ok (s, d)
    → new_rejected_decision policy reason by at ≡ ok d
unfolding reject_review
reject_review-decision r s policy reason by at d h = ground arith

-- Every review that the commands reach from a valid submission is one that
-- RestoreApplicationReview accepts and gives back unchanged.
pub Reach-IsRestorable : (r : ApplicationReview) → Reach r → IsRestorable r
Reach-IsRestorable _ (submission a v n x c id k scopes p by at r h e) =
    IsRestorable-of_submission a v n x c id k scopes p by at r h e
Reach-IsRestorable _ (step r s reach (approval policy checks reason validation by at d h)) =
    IsRestorable-approval r s policy checks reason validation by at d (Reach-IsRestorable r reach) h
      (outcome-new_approved_decision policy checks reason validation by at d
        (approve-decision r s policy checks reason validation by at d h))
Reach-IsRestorable _ (step r s reach (rejection policy reason by at d h)) =
    IsRestorable-rejection r s policy reason by at d (Reach-IsRestorable r reach) h (
      outcome-new_rejected_decision policy reason by at d
        (reject_review-decision r s policy reason by at d h))
Reach-IsRestorable _ (step r s reach (restoration by at revision x h)) =
    IsRestorable-restoration r s by at revision x (Reach-IsRestorable r reach) h
