-- ===== src/Review/Attempt.antt =====
-- internal/review/domain/application_review.go: one attempt to have a version reviewed, from its
-- submission to its decision and the restoration of its draft.
use iwut_app_center.Prelude.{
  ℤ, pos, ltb_ℤ, eqb_ℤ, inc_int64, Bool, true, false, not, ◌&&◌, ◌||◌, Option, none, some, is_some,
  is_none, List, ◌++◌, Bytes, bytes_lt, Result, ok, err, ◌>>=◌, ◌>>◌, reject,
}
use iwut_app_center.Shared.{Time, AuthId, is_zero, utc, auth_id_is_valid}
use iwut_app_center.Shared.Uuid.{is_uuid_v7}
use iwut_app_center.Shared.PolicyVersion.{policy_version_matches}
use iwut_app_center.Review.{Error, already_decided, state_inconsistent, already_restored, internal}
use iwut_app_center.Shared.Sorting.{sort_by}
use iwut_app_center.Review.Snapshot.{VersionSnapshot}
use iwut_app_center.Review.Decision.{
  ReviewDecision, approved, rejected, ApplicationReviewDecision, ApprovalValidation,
  new_approved_decision, new_rejected_decision,
}

pub record SubmissionCandidate : Type 0 where
  pub application_id : Bytes
  pub version_id : Bytes
  pub revision : ℤ  -- int64
  pub snapshot : VersionSnapshot

unfoldable pub new_submission_candidate :
    Bytes → Bytes → ℤ → Option VersionSnapshot → Result Error SubmissionCandidate
new_submission_candidate application_id version_id revision none = err internal
new_submission_candidate application_id version_id revision (some snapshot) = do
  reject (not (is_uuid_v7 application_id) || not (is_uuid_v7 version_id) || ltb_ℤ revision (pos 1))
      internal
  ok (record {
    application_id = application_id;
    version_id = version_id;
    revision = revision;
    snapshot = snapshot;
  })

-- The scopes of a candidate, required and optional, in order.
unfoldable pub all_scopes : VersionSnapshot → List Bytes
unfolding sort_by
all_scopes s = sort_by bytes_lt (s.required_scopes ++ s.optional_scopes)

-- `undefined` is a status that is none of the three.
pub data ReviewStatus : Type 0 where
  pending undefined : ReviewStatus
  decided : ReviewDecision → ReviewStatus

pub record DraftRestoration : Type 0 where
  pub restored_by : AuthId
  pub restored_at : Time
  pub result_version_revision : ℤ  -- int64

unfoldable pub new_draft_restoration : AuthId → Time → ℤ → Result Error DraftRestoration
new_draft_restoration by at revision = do
  reject (not (auth_id_is_valid by) || is_zero at || ltb_ℤ revision (pos 1)) internal
  ok (record { restored_by = by; restored_at = utc at; result_version_revision = revision })

pub record ApplicationReview : Type 0 where
  pub review_id : Bytes
  pub application_id : Bytes
  pub version_id : Bytes
  pub attempt : ℤ  -- int32
  pub source_version_revision : ℤ  -- int64
  pub snapshot : VersionSnapshot
  pub scope_catalog_revision : ℤ  -- int64
  pub preflight_policy_version : Bytes
  pub submitted_by : AuthId
  pub submitted_at : Time
  pub status : ReviewStatus
  pub decision : Option ApplicationReviewDecision
  pub draft_restoration : Option DraftRestoration

unfoldable pub new_pending_application_review :
    Option SubmissionCandidate
    → Bytes
    → ℤ
    → ℤ
    → Bytes
    → AuthId
    → Time
    → Result Error ApplicationReview
new_pending_application_review none id attempt scopes preflight by at = err internal
new_pending_application_review (some candidate) id attempt scopes preflight by at = do
  reject
      (not (is_uuid_v7 id)
        || ltb_ℤ attempt (pos 1)
        || ltb_ℤ scopes (pos 1)
        || not (policy_version_matches preflight)
        || not (auth_id_is_valid by)
        || is_zero at)
      internal
  ok (record {
    review_id = id;
    application_id = candidate.application_id;
    version_id = candidate.version_id;
    attempt = attempt;
    source_version_revision = candidate.revision;
    snapshot = candidate.snapshot;
    scope_catalog_revision = scopes;
    preflight_policy_version = preflight;
    submitted_by = by;
    submitted_at = utc at;
    status = pending;
    decision = none;
    draft_restoration = none;
  })

abbrev pub outcome_eq : ReviewDecision → ReviewDecision → Bool
outcome_eq approved approved = true
outcome_eq rejected rejected = true
outcome_eq _ _ = false

-- `decision == nil || decision.Outcome() != ReviewDecision(status)` for a status that is not PENDING.
abbrev lacks_decision : ReviewStatus → Option ApplicationReviewDecision → Bool
lacks_decision pending decision = is_some decision
lacks_decision _ none = true
lacks_decision (decided outcome) (some d) = not (outcome_eq d.outcome outcome)
lacks_decision undefined (some d) = true

abbrev status_is_valid : ReviewStatus → Bool
status_is_valid undefined = false
status_is_valid _ = true

abbrev pub status_is_rejected : ReviewStatus → Bool
status_is_rejected (decided rejected) = true
status_is_rejected _ = false

-- RestoreApplicationReview on the stored fields, given as a review.
unfoldable pub restore_application_review : ApplicationReview → Result Error ApplicationReview
restore_application_review r = do
  reject
      (not (is_uuid_v7 r.review_id)
        || not (is_uuid_v7 r.application_id)
        || not (is_uuid_v7 r.version_id)
        || ltb_ℤ r.attempt (pos 1)
        || ltb_ℤ r.source_version_revision (pos 1)
        || ltb_ℤ r.scope_catalog_revision (pos 1)
        || not (policy_version_matches r.preflight_policy_version)
        || not (auth_id_is_valid r.submitted_by)
        || is_zero r.submitted_at
        || not (status_is_valid r.status))
      internal
  reject (lacks_decision r.status r.decision) internal
  reject (is_some r.draft_restoration && not (status_is_rejected r.status)) internal
  ok (record r { submitted_at = utc r.submitted_at })

abbrev is_decidable : ApplicationReview → Bool
is_decidable r = elim r.status [ pending ↦ is_none r.decision | _ ↦ false ]

-- Approve and Reject change the review in place: they answer with what it is afterwards.
unfoldable pub approve :
    Option ApplicationReview
    → Bytes
    → List Bytes
    → Bytes
    → Option ApprovalValidation
    → AuthId
    → Time
    → Result Error (ApplicationReview × ApplicationReviewDecision)
unfolding new_approved_decision
approve none policy checks reason validation by at = err already_decided
approve (some r) policy checks reason validation by at = do
  reject (not (is_decidable r)) already_decided
  decision ← new_approved_decision policy checks reason validation by at
  ok (record r { status = decided approved; decision = some decision }, decision)

-- The method Reject.
unfoldable pub reject_review :
    Option ApplicationReview
    → Bytes
    → Bytes
    → AuthId
    → Time
    → Result Error (ApplicationReview × ApplicationReviewDecision)
unfolding new_rejected_decision
reject_review none policy reason by at = err already_decided
reject_review (some r) policy reason by at = do
  reject (not (is_decidable r)) already_decided
  decision ← new_rejected_decision policy reason by at
  ok (record r { status = decided rejected; decision = some decision }, decision)

-- `status != REJECTED || decision == nil || decision.Outcome() != REJECTED`.
abbrev is_restorable : ApplicationReview → Bool
is_restorable r = elim r.decision [
  | none ↦ false
  | some d ↦ status_is_rejected r.status && outcome_eq d.outcome rejected
]

-- `revision + 3` on int64.
abbrev pub plus_three : ℤ → ℤ
plus_three n = inc_int64 (inc_int64 (inc_int64 n))

unfoldable pub record_draft_restoration :
    Option ApplicationReview
    → AuthId
    → Time
    → ℤ
    → Result Error (ApplicationReview × DraftRestoration)
unfolding new_draft_restoration inc_int64
record_draft_restoration none by at revision = err state_inconsistent
record_draft_restoration (some r) by at revision = do
  reject (not (is_restorable r)) state_inconsistent
  reject (is_some r.draft_restoration) already_restored
  reject (not (eqb_ℤ revision (plus_three r.source_version_revision))) state_inconsistent
  restoration ← new_draft_restoration by at revision
  ok (record r { draft_restoration = some restoration }, restoration)
