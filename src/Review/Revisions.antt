-- ===== src/Review/Revisions.antt =====
-- internal/review/domain/application_review.go and decision_candidate.go: the revisions that a version
-- has as it is submitted, rejected and restored.
use iwut_app_center.Prelude.{
  ℤ, pos, ◌+ℤ◌, ltb_ℤ, eqb_ℤ, eqb_ℤ_iff, inc_int64, true, some, Bytes, ok, ◌≡◌, ap, ◌∙◌, arith,
}
use iwut_app_center.Shared.{Time, AuthId}
use iwut_app_center.Review.Snapshot.{VersionSnapshot}
use iwut_app_center.Review.Decision.{ApplicationReviewDecision}
use iwut_app_center.Review.Attempt.{
  ApplicationReview, SubmissionCandidate, new_submission_candidate, new_pending_application_review,
  reject_review, record_draft_restoration, DraftRestoration, plus_three,
}
use iwut_app_center.Review.Candidate.{
  VersionSummary, DecisionCandidate, DecidedVersion, new_submitted_application_version,
  new_decision_candidate, new_decided_application_version,
}

revision-of_submission :
    (a v : Bytes) (n : ℤ) (snapshot : VersionSnapshot) (c : SubmissionCandidate)
    → new_submission_candidate a v n (some snapshot) ≡ ok c
    → c.revision ≡ n
unfolding new_submission_candidate
revision-of_submission a v n snapshot c h = ground arith

source-of_pending :
    (c : SubmissionCandidate) (id : Bytes) (attempt scopes : ℤ) (preflight : Bytes) (by : AuthId)
    (at : Time) (r : ApplicationReview)
    → new_pending_application_review (some c) id attempt scopes preflight by at ≡ ok r
    → r.source_version_revision ≡ c.revision
unfolding new_pending_application_review
source-of_pending c id attempt scopes preflight by at r h = ground arith

revision-of_submitted :
    (c : SubmissionCandidate) (by : AuthId) (at : Time) (v : VersionSummary)
    → new_submitted_application_version (some c) by at ≡ ok v
    → v.revision ≡ inc_int64 c.revision
unfolding new_submitted_application_version
revision-of_submitted c by at v h = ground arith

version_revision-of_candidate :
    (r : ApplicationReview) (status : Bytes) (revision : ℤ) (creator admin : AuthId)
    (snapshot : VersionSnapshot) (c : DecisionCandidate)
    → new_decision_candidate (some r) status revision creator (some snapshot) admin ≡ ok c
    → eqb_ℤ c.version_revision (inc_int64 r.source_version_revision) ≡ true
unfolding new_decision_candidate
version_revision-of_candidate r status revision creator admin snapshot c h = ground arith

source-reject_review :
    (r s : ApplicationReview) (policy reason : Bytes) (by : AuthId) (at : Time)
    (d : ApplicationReviewDecision)
    → reject_review (some r) policy reason by at ≡ ok (s, d)
    → s.source_version_revision ≡ r.source_version_revision
unfolding reject_review
source-reject_review r s policy reason by at d h = ground arith

revision-of_decided :
    (c : DecisionCandidate) (d : ApplicationReviewDecision) (v : DecidedVersion)
    → new_decided_application_version (some c) (some d) ≡ ok v
    → v.summary.revision ≡ inc_int64 c.version_revision
unfolding new_decided_application_version
revision-of_decided c d v h = ground arith

revision-of_restoration :
    (s t : ApplicationReview) (by : AuthId) (at : Time) (n : ℤ) (x : DraftRestoration)
    → record_draft_restoration (some s) by at n ≡ ok (t, x)
    → (eqb_ℤ n (plus_three s.source_version_revision) ≡ true) × (x.result_version_revision ≡ n)
unfolding record_draft_restoration
revision-of_restoration s t by at n x h = ground arith

-- Counting up from a revision that leaves room for three steps.
counted :
    (n : ℤ)
    → ltb_ℤ n (pos 9223372036854775805) ≡ true
    → (inc_int64 n ≡ n +ℤ pos 1)
      × (inc_int64 (inc_int64 n) ≡ n +ℤ pos 2)
      × (plus_three n ≡ n +ℤ pos 3)
unfolding inc_int64
counted n few = ground arith

-- A draft at revision n, with three revisions below the largest int64 left, is submitted at n + 1 and
-- rejected at n + 2, and the restoration of the rejected version is recorded at n + 3 and at no other
-- revision.
pub restoration-revision :
    (a v id policy reason preflight status : Bytes) (n seen m attempt scopes : ℤ)
    (snapshot current : VersionSnapshot) (by creator admin reviewer restorer : AuthId)
    (at decided_at restored_at : Time) (candidate : SubmissionCandidate) (r s t : ApplicationReview)
    (submitted : VersionSummary) (c : DecisionCandidate) (d : ApplicationReviewDecision)
    (decided : DecidedVersion) (x : DraftRestoration)
    → new_submission_candidate a v n (some snapshot) ≡ ok candidate
    → new_pending_application_review (some candidate) id attempt scopes preflight by at ≡ ok r
    → new_submitted_application_version (some candidate) by at ≡ ok submitted
    → new_decision_candidate (some r) status seen creator (some current) admin ≡ ok c
    → reject_review (some r) policy reason reviewer decided_at ≡ ok (s, d)
    → new_decided_application_version (some c) (some d) ≡ ok decided
    → record_draft_restoration (some s) restorer restored_at m ≡ ok (t, x)
    → ltb_ℤ n (pos 9223372036854775805) ≡ true
    → (submitted.revision ≡ n +ℤ pos 1)
      × (decided.summary.revision ≡ n +ℤ pos 2)
      × (x.result_version_revision ≡ n +ℤ pos 3)
      × (m ≡ n +ℤ pos 3)
restoration-revision a v id policy reason preflight status n seen m attempt scopes snapshot current
      by creator admin reviewer restorer at decided_at restored_at candidate r s t submitted c d
      decided x made pending handed_in observed refused closed restored few =
    let from = revision-of_submission a v n snapshot candidate made in
    let source : r.source_version_revision ≡ n =
      source-of_pending candidate id attempt scopes preflight by at r pending ∙ from in
    let kept : s.source_version_revision ≡ n =
      source-reject_review r s policy reason reviewer decided_at d refused ∙ source in
    let (one, two, three) = counted n few in
    let at_review : c.version_revision ≡ inc_int64 n =
      (eqb_ℤ_iff c.version_revision _).0
        (version_revision-of_candidate r status seen creator admin current c observed)
      ∙ ap inc_int64 source in
    let (asked, recorded) = revision-of_restoration s t restorer restored_at m x restored in
    let last : m ≡ n +ℤ pos 3 =
      (eqb_ℤ_iff m (plus_three s.source_version_revision)).0 asked ∙ ap plus_three kept ∙ three in
    (
      revision-of_submitted candidate by at submitted handed_in ∙ ap inc_int64 from ∙ one,
      revision-of_decided c d decided closed ∙ ap inc_int64 at_review ∙ two,
      recorded ∙ last,
      last,
    )
