-- ===== src/Review/Candidate.antt =====
-- internal/review/domain/application_review.go and decision_candidate.go: what a submission, a
-- decision and a restoration make of the version, and the results that pair it with the review.
use iwut_app_center.Prelude.{
  ℤ, pos, ltb_ℤ, eqb_ℤ, inc_int64, Bool, true, false, not, ◌&&◌, ◌||◌, Option, none, some, is_none,
  Bytes, bytes_eq, codes, Result, ok, err, ◌>>◌, reject,
}
use iwut_app_center.Shared.{Time, AuthId, is_zero, utc, time_equal, auth_id_is_valid}
use iwut_app_center.Shared.Uuid.{is_uuid_v7}
use iwut_app_center.Review.{Error, internal}
use iwut_app_center.Review.Snapshot.{VersionSnapshot, snapshot_equal}
use iwut_app_center.Review.Decision.{ReviewDecision, rejected, ApplicationReviewDecision}
use iwut_app_center.Review.Attempt.{
  SubmissionCandidate, ApplicationReview, pending, decided, outcome_eq,
}

-- RestoredApplicationVersion and SubmittedApplicationVersion.
pub record VersionSummary : Type 0 where
  pub application_id : Bytes
  pub version_id : Bytes
  pub revision : ℤ  -- int64
  pub updated_by : AuthId
  pub updated_at : Time

unfoldable pub new_restored_application_version :
    Bytes → Bytes → ℤ → AuthId → Time → Result Error VersionSummary
new_restored_application_version application_id version_id revision by at = do
  reject
      (not (is_uuid_v7 application_id)
        || not (is_uuid_v7 version_id)
        || ltb_ℤ revision (pos 1)
        || not (auth_id_is_valid by)
        || is_zero at)
      internal
  ok (record {
    application_id = application_id;
    version_id = version_id;
    revision = revision;
    updated_by = by;
    updated_at = utc at;
  })

unfoldable pub new_submitted_application_version :
    Option SubmissionCandidate → AuthId → Time → Result Error VersionSummary
unfolding inc_int64
new_submitted_application_version none by at = err internal
new_submitted_application_version (some c) by at = do
  reject (not (auth_id_is_valid by) || is_zero at) internal
  ok (record {
    application_id = c.application_id;
    version_id = c.version_id;
    revision = inc_int64 c.revision;
    updated_by = by;
    updated_at = utc at;
  })

abbrev same_version : ApplicationReview → VersionSummary → Bool
same_version r v = bytes_eq r.application_id v.application_id && bytes_eq r.version_id v.version_id

unfoldable pub new_review_submission_result :
    Option ApplicationReview
    → Option VersionSummary
    → Result Error (ApplicationReview × VersionSummary)
unfolding inc_int64
new_review_submission_result (some r) (some v) = do
  reject
      (not (same_version r v)
        || not (eqb_ℤ (inc_int64 r.source_version_revision) v.revision)
        || not (bytes_eq r.submitted_by v.updated_by)
        || not (time_equal r.submitted_at v.updated_at))
      internal
  ok (r, v)
new_review_submission_result _ _ = err internal

abbrev is_rejected : ApplicationReview → Bool
is_rejected r = elim r.status [ decided rejected ↦ true | _ ↦ false ]

unfoldable pub new_restore_rejected_version_result :
    Option ApplicationReview
    → Option VersionSummary
    → Result Error (ApplicationReview × VersionSummary)
new_restore_rejected_version_result (some r) (some v) = elim r.draft_restoration [
  | none ↦ err internal
  | some restoration ↦ do
    reject (not (is_rejected r) || not (same_version r v)) internal
    reject
        (not (eqb_ℤ restoration.result_version_revision v.revision)
          || not (bytes_eq restoration.restored_by v.updated_by)
          || not (time_equal restoration.restored_at v.updated_at))
        internal
    ok (r, v)
]
new_restore_rejected_version_result _ _ = err internal

pub record DecisionCandidate : Type 0 where
  pub review : ApplicationReview
  pub version_revision : ℤ  -- int64
  pub version_created_by : AuthId
  pub version_snapshot : VersionSnapshot
  pub current_admin_id : AuthId

abbrev is_pending : ApplicationReview → Bool
is_pending r = elim r.status [ pending ↦ is_none r.decision | _ ↦ false ]

-- The status of the version is compared with SubmittedVersionReviewStatus.
unfoldable pub new_decision_candidate :
    Option ApplicationReview
    → Bytes
    → ℤ
    → AuthId
    → Option VersionSnapshot
    → AuthId
    → Result Error DecisionCandidate
unfolding inc_int64
new_decision_candidate (some r) version_status revision created_by (some snapshot) admin = do
  reject
      (not (is_pending r)
        || not (bytes_eq version_status (codes "SUBMITTED"))
        || not (eqb_ℤ revision (inc_int64 r.source_version_revision))
        || not (snapshot_equal snapshot r.snapshot)
        || not (auth_id_is_valid created_by)
        || not (auth_id_is_valid admin))
      internal
  ok (record {
    review = r;
    version_revision = revision;
    version_created_by = created_by;
    version_snapshot = snapshot;
    current_admin_id = admin;
  })
new_decision_candidate _ version_status revision created_by _ admin = err internal

unfoldable pub reviewer_conflicts : DecisionCandidate → AuthId → Bool
reviewer_conflicts c reviewer =
    bytes_eq reviewer c.current_admin_id
    || bytes_eq reviewer c.version_created_by
    || bytes_eq reviewer c.review.submitted_by

pub record DecidedVersion : Type 0 where
  pub summary : VersionSummary
  pub review_status : ReviewDecision

unfoldable pub new_decided_application_version :
    Option DecisionCandidate → Option ApplicationReviewDecision → Result Error DecidedVersion
unfolding inc_int64
new_decided_application_version (some c) (some d) = ok (record {
  summary = record {
    application_id = c.review.application_id;
    version_id = c.review.version_id;
    revision = inc_int64 c.version_revision;
    updated_by = d.decided_by;
    updated_at = d.decided_at;
  };
  review_status = d.outcome;
})
new_decided_application_version _ _ = err internal

abbrev status_is : ApplicationReview → ReviewDecision → Bool
status_is r outcome = elim r.status [ decided o ↦ outcome_eq o outcome | _ ↦ false ]

unfoldable pub new_decision_result :
    Option ApplicationReview
    → Option DecidedVersion
    → Result Error (ApplicationReview × DecidedVersion)
new_decision_result (some r) (some v) = elim r.decision [
  | none ↦ err internal
  | some d ↦ do
    reject
        (not (same_version r v.summary)
          || not (status_is r v.review_status)
          || not (bytes_eq d.decided_by v.summary.updated_by)
          || not (time_equal d.decided_at v.summary.updated_at))
        internal
    ok (r, v)
]
new_decision_result _ _ = err internal
