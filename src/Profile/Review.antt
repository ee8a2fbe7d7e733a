-- ===== src/Profile/Review.antt =====
-- internal/profile/domain/application_profile_review.go and decide_application_profile_review.go: the
-- submission of a draft, the review it makes, and how a review is read back from the store.
use iwut_app_center.Prelude.{
  ltb, ◌==◌, ℤ, pos, ltb_ℤ, eqb_ℤ, max_int64, inc_int64, Bool, true, false, not, ◌&&◌, ◌||◌, any,
  all, Option, none, some, List, [], ◌∷◌, Bytes, bytes_eq, length, get_or, Result, ok, err, is_ok,
  ◌>>◌, reject, if◌then◌else◌,
}
use iwut_app_center.Shared.{Time, is_zero, utc, AuthId, auth_id_is_valid}
use iwut_app_center.Shared.Uuid.{is_uuid_v7}
use iwut_app_center.Shared.Utf8.{valid_string, runes, is_control, is_space}
use iwut_app_center.Shared.PolicyVersion.{is_policy_char}
use iwut_app_center.Publication.Snapshot.{is_sorted}
use iwut_app_center.Version.Label.{last_rune}
use iwut_app_center.Profile.{
  Error, profile_state_inconsistent, revision_not_draft, revision_conflict,
  invalid_review_submission, invalid_content, internal, review_state_inconsistent, invalid_reason,
}
use iwut_app_center.Profile.Text.{Unicode}
use iwut_app_center.Profile.Revision.{
  ProfileRevision, Content, content_is_canonical, submitted, status_is_draft,
}

-- `review_undefined` is a status that is none of the three.
pub data ProfileReviewStatus : Type 0 where
  review_pending review_approved review_rejected review_undefined : ProfileReviewStatus

abbrev pub is_pending : ProfileReviewStatus → Bool
is_pending review_pending = true
is_pending _ = false

abbrev pub same_status : ProfileReviewStatus → ProfileReviewStatus → Bool
same_status review_pending review_pending = true
same_status review_approved review_approved = true
same_status review_rejected review_rejected = true
same_status review_undefined review_undefined = true
same_status _ _ = false

pub record ProfileDecision : Type 0 where
  pub outcome : ProfileReviewStatus
  pub policy_version : Bytes
  pub confirmed_check_ids : List Bytes
  pub reason : Option Bytes
  pub decided_by : AuthId
  pub decided_at : Time

-- ApplicationProfileReview, and the state that it is restored from.
pub record ProfileReview : Type 0 where
  pub id : Bytes
  pub application_id : Bytes
  pub profile_revision_id : Bytes
  pub attempt : ℤ  -- int32
  pub source_revision : ℤ  -- int64
  pub snapshot : Content
  pub submitted_by : AuthId
  pub submitted_at : Time
  pub status : ProfileReviewStatus
  pub decision : Option ProfileDecision

pub record Submission : Type 0 where
  pub revision : ProfileRevision
  pub review : ProfileReview

-- ValidProfileReviewPolicyVersion.
unfoldable pub valid_policy_version : Bytes → Bool
valid_policy_version s = not (ltb (length s) 1 || ltb 50 (length s)) && all is_policy_char (runes s)

unfoldable pub validate_profile_reason : Option Bytes → Bool → Result Error (Unit {0})
validate_profile_reason none required = if required then err invalid_reason else ok tt
validate_profile_reason (some s) required = do
  let rs = runes s
  reject (not (valid_string s) || ltb (length rs) 1 || ltb 2000 (length rs)) invalid_reason
  reject (is_space (get_or rs 0 0) || is_space (last_rune rs 0)) invalid_reason
  reject (any is_control rs) invalid_reason

-- The loop over the confirmed checks, after the one before.
unfoldable pub checks_after : Bytes → List Bytes → Bool
unfolding valid_policy_version
checks_after previous [] = true
checks_after previous (id ∷ ids) =
    valid_policy_version id && not (bytes_eq id previous) && checks_after id ids

unfoldable pub checks_are_stored : List Bytes → Bool
unfolding valid_policy_version checks_after is_sorted
checks_are_stored [] = false
checks_are_stored (id ∷ ids) =
    is_sorted (id ∷ ids) && valid_policy_version id && checks_after id ids

unfoldable pub review_is_malformed : ProfileReview → Bool
review_is_malformed r =
    not (is_uuid_v7 r.id)
    || not (is_uuid_v7 r.application_id)
    || not (is_uuid_v7 r.profile_revision_id)
    || ltb_ℤ r.attempt (pos 1)
    || ltb_ℤ r.source_revision (pos 1)
    || not (auth_id_is_valid r.submitted_by)
    || is_zero r.submitted_at

-- What a decided status asks of its decision.
unfoldable pub decision_is_malformed : ProfileReviewStatus → ProfileDecision → Bool → Bool
unfolding valid_policy_version validate_profile_reason
decision_is_malformed status d required =
    not (same_status d.outcome status)
    || not (valid_policy_version d.policy_version)
    || not (auth_id_is_valid d.decided_by)
    || is_zero d.decided_at
    || not (is_ok (validate_profile_reason d.reason required))

abbrev pub submission_of : ProfileRevision → ℤ → Bytes → ℤ → AuthId → Time → Submission
submission_of r expected id attempt by at = record {
  revision = record r {
    review_status = submitted;
    revision = inc_int64 r.revision;
    updated_by = by;
    updated_at = utc at;
  };
  review = record {
    id = id;
    application_id = r.application_id;
    profile_revision_id = r.id;
    attempt = attempt;
    source_revision = expected;
    snapshot = r.content;
    submitted_by = by;
    submitted_at = utc at;
    status = review_pending;
    decision = none;
  };
}

module _ (unicode : Unicode) where
  -- The switch on the status.
  unfoldable pub decision_fits : ProfileReviewStatus → Option ProfileDecision → Content → Bool
  unfolding decision_is_malformed checks_are_stored content_is_canonical
  decision_fits review_pending none snapshot = true
  decision_fits review_approved (some d) snapshot =
      not (decision_is_malformed review_approved d false)
      && checks_are_stored d.confirmed_check_ids
      && content_is_canonical unicode snapshot
  decision_fits review_rejected (some d) snapshot =
      not (decision_is_malformed review_rejected d true) && length d.confirmed_check_ids == 0
  decision_fits _ _ snapshot = false

  unfoldable pub restore_review_candidate : ProfileReview → Result Error ProfileReview
  unfolding review_is_malformed decision_fits
  restore_review_candidate r = do
    reject (review_is_malformed r) review_state_inconsistent
    reject (not (decision_fits r.status r.decision r.snapshot)) review_state_inconsistent
    ok (record r { submitted_at = utc r.submitted_at })

  unfoldable pub submit_draft :
      ProfileRevision → ℤ → Bytes → ℤ → AuthId → Time → Result Error Submission
  unfolding content_is_canonical
  submit_draft r expected id attempt by at = do
    reject (ltb_ℤ expected (pos 1)) invalid_review_submission
    reject (not (status_is_draft r.review_status)) revision_not_draft
    reject (not (eqb_ℤ r.revision expected)) revision_conflict
    reject (not (content_is_canonical unicode r.content)) invalid_content
    reject (eqb_ℤ r.revision max_int64 || ltb_ℤ attempt (pos 1)) profile_state_inconsistent
    reject (not (is_uuid_v7 id) || not (auth_id_is_valid by) || is_zero at) internal
    ok (submission_of r expected id attempt by at)
