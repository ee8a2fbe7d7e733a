-- ===== src/Profile/Decide.antt =====
-- internal/profile/domain/decide_application_profile_review.go (DecideReview): a reviewer decides on a
-- submitted revision.
use iwut_app_center.Prelude.{
  ◌==◌, ℤ, pos, eqb_ℤ, max_int64, inc_int64, ◌+ℤ◌, Bool, true, false, not, ◌||◌, Option, some, List,
  Bytes, codes, bytes_eq, bytes_lt, length, Result, ok, ◌>>◌, reject,
}
use iwut_app_center.Shared.{Time, is_zero, utc, AuthId, auth_id_is_valid}
use iwut_app_center.Shared.Sorting.{sort_by}
use iwut_app_center.Publication.Snapshot.{contains, compact}
use iwut_app_center.Review.Snapshot.{strings_equal}
use iwut_app_center.Profile.{
  Error, reviewer_identity_required, permission_required, review_state_inconsistent,
  conflict_of_interest, already_decided, review_state_conflict, revision_conflict,
  policy_unavailable, invalid_decision, checks_incomplete, invalid_content,
}
use iwut_app_center.Profile.Text.{Unicode}
use iwut_app_center.Profile.Revision.{
  ProfileRevision, Content, same_content, content_is_canonical, ReviewStatus, approved, rejected,
  status_is_submitted,
}
use iwut_app_center.Profile.Review.{
  ProfileReview, ProfileReviewStatus, review_approved, review_rejected, is_pending,
  valid_policy_version, validate_profile_reason,
}

-- `other` is a text that is neither.
pub data Outcome : Type 0 where
  approve reject_it other : Outcome

pub record ReviewPolicy : Type 0 where
  pub version : Bytes
  pub required_checks : List Bytes
  pub status : Bytes

pub record Verdict : Type 0 where
  pub reviewer : AuthId
  pub admin : AuthId
  pub permissions : List Bytes
  pub expected : ℤ
  pub outcome : Outcome
  pub policy : ReviewPolicy
  pub checks : List Bytes
  pub reason : Option Bytes
  pub at : Time

abbrev pub outcome_is_other : Outcome → Bool
outcome_is_other other = true
outcome_is_other _ = false

abbrev pub outcome_is_reject : Outcome → Bool
outcome_is_reject reject_it = true
outcome_is_reject _ = false

-- Whether the review is of this revision, as it was submitted.
unfoldable pub is_of_revision : ProfileReview → ProfileRevision → Bool
unfolding same_content
is_of_revision v r = not (
    not (bytes_eq v.application_id r.application_id)
    || not (bytes_eq v.profile_revision_id r.id)
    || eqb_ℤ v.source_revision max_int64
    || not (eqb_ℤ r.revision (v.source_revision +ℤ pos 1))
    || not (same_content r.content v.snapshot))

abbrev pub status_of : Outcome → ReviewStatus
status_of reject_it = rejected
status_of _ = approved

abbrev pub review_status_of : Outcome → ProfileReviewStatus
review_status_of reject_it = review_rejected
review_status_of _ = review_approved

pub record Decided : Type 0 where
  pub revision : ProfileRevision
  pub review : ProfileReview

abbrev pub decided_of : ProfileRevision → ProfileReview → Verdict → Decided
decided_of r v d = record {
  revision = record r {
    review_status = status_of d.outcome;
    revision = inc_int64 r.revision;
    updated_by = d.reviewer;
    updated_at = utc d.at;
  };
  review = record v {
    status = review_status_of d.outcome;
    decision = some (record {
      outcome = review_status_of d.outcome;
      policy_version = d.policy.version;
      confirmed_check_ids = sort_by bytes_lt d.checks;
      reason = d.reason;
      decided_by = d.reviewer;
      decided_at = utc d.at;
    });
  };
}

-- Who may decide, and on what: the guards before the policy.
unfoldable pub admit_reviewer : ProfileRevision → ProfileReview → Verdict → Result Error (Unit {0})
unfolding contains is_of_revision
admit_reviewer r v d = do
  reject (not (auth_id_is_valid d.reviewer)) reviewer_identity_required
  reject (not (contains d.permissions (codes "app.profile.review"))) permission_required
  reject (not (auth_id_is_valid d.admin)) review_state_inconsistent
  reject
      (bytes_eq d.reviewer d.admin
        || bytes_eq d.reviewer r.created_by
        || bytes_eq d.reviewer v.submitted_by)
      conflict_of_interest
  reject (not (is_pending v.status)) already_decided
  reject (not (status_is_submitted r.review_status)) review_state_conflict
  reject (not (eqb_ℤ r.revision d.expected)) revision_conflict
  reject (not (is_of_revision v r)) review_state_inconsistent

module _ (unicode : Unicode) where
  -- The checks that are confirmed, and the content of what is approved.
  unfoldable pub confirm_checks :
      Outcome → ReviewPolicy → List Bytes → Content → Result Error (Unit {0})
  unfolding sort_by strings_equal compact content_is_canonical
  confirm_checks approve policy checks snapshot = do
    let sorted = sort_by bytes_lt checks
    reject
        (length sorted == 0
          || not (strings_equal sorted (sort_by bytes_lt policy.required_checks))
          || not (length (compact sorted) == length sorted))
        checks_incomplete
    reject (not (content_is_canonical unicode snapshot)) invalid_content
  confirm_checks _ policy checks snapshot = reject (not (length checks == 0)) checks_incomplete

  unfoldable pub decide_review : ProfileRevision → ProfileReview → Verdict → Result Error Decided
  unfolding admit_reviewer confirm_checks valid_policy_version validate_profile_reason
  decide_review r v d = do
    admit_reviewer r v d
    reject
        (not (bytes_eq d.policy.status (codes "ACTIVE"))
          || not (valid_policy_version d.policy.version))
        policy_unavailable
    reject (outcome_is_other d.outcome) invalid_decision
    validate_profile_reason d.reason (outcome_is_reject d.outcome)
    confirm_checks d.outcome d.policy d.checks v.snapshot
    reject (eqb_ℤ r.revision max_int64 || is_zero d.at) review_state_inconsistent
    ok (decided_of r v d)
