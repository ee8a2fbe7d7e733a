-- ===== src/Review/Tests.antt =====
-- The theorems on reviews, at an attempt that is submitted, rejected and restored.
use iwut_app_center.Prelude.{
  pos, ◌+ℤ◌, true, none, some, List, [], ◌∷◌, Bytes, bytes_eq, bytes_lt, codes, inc_int64, ok, err,
  ◌≡◌, refl,
}
use iwut_app_center.Shared.{Time, AuthId, auth_id_is_valid}
use iwut_app_center.Shared.Uuid.{is_uuid_v7}
use iwut_app_center.Shared.PolicyVersion.{policy_version_matches}
use iwut_app_center.Shared.Utf8.{decode, runes, rune_count, valid_string}
use iwut_app_center.Publication.Snapshot.{
  strictly_sorted_unique, contains, is_sorted, compact, compact_after,
}
use iwut_app_center.Review.{checks_incomplete}
use iwut_app_center.Shared.Sorting.{sort_by}
use iwut_app_center.Review.Snapshot.{VersionSnapshot, snapshot_equal, strings_equal}
use iwut_app_center.Review.Decision.{
  ReviewCheckDefinition, VersionReviewPolicy, active, rejected, ApplicationReviewDecision,
  check_ids, validate_confirmation, confirm, validate_review_reason, is_trimmed,
  new_rejected_decision, new_application_review_decision, outcome_fits,
}
use iwut_app_center.Review.Confirmation.{IsDistinct, validate_confirmation_sound}
use iwut_app_center.Review.Attempt.{
  SubmissionCandidate, ApplicationReview, DraftRestoration, pending, decided,
  new_submission_candidate, new_pending_application_review, reject_review, record_draft_restoration,
  new_draft_restoration,
}
use iwut_app_center.Review.Candidate.{
  VersionSummary, new_submitted_application_version, DecisionCandidate, DecidedVersion,
  new_decision_candidate, new_decided_application_version,
}
use iwut_app_center.Review.Lifecycle.{
  rejection, restoration, stay, after, Reach, submission, step, IsRestorable, Steps-decision,
  Reach-IsRestorable,
}
use iwut_app_center.Review.Revisions.{restoration-revision}

unfoldable pub tests : Unit {0}
unfolding bytes_eq bytes_lt inc_int64 auth_id_is_valid is_uuid_v7 policy_version_matches decode
    runes rune_count valid_string strictly_sorted_unique contains is_sorted compact compact_after
    sort_by snapshot_equal strings_equal validate_confirmation confirm validate_review_reason
    is_trimmed new_rejected_decision new_application_review_decision outcome_fits
    new_submission_candidate new_pending_application_review reject_review record_draft_restoration
    new_draft_restoration new_decision_candidate new_decided_application_version
tests = tt

abbrev check : Bytes → ReviewCheckDefinition
check id = record { id = id; title = []; description = [] }

abbrev pub policy : VersionReviewPolicy
policy = record {
  version = codes "review-v1";
  required_checks = check (codes "privacy") ∷ check (codes "launch") ∷ [];
  status = active;
}

abbrev pub confirmed : List Bytes
confirmed = codes "privacy" ∷ codes "launch" ∷ []

abbrev pub normalized : List Bytes
normalized = codes "launch" ∷ codes "privacy" ∷ []

confirmation_accepted : validate_confirmation policy confirmed ≡ ok normalized
unfolding tests
confirmation_accepted = refl

confirmation_short : validate_confirmation policy (codes "launch" ∷ []) ≡ err checks_incomplete
unfolding tests
confirmation_short = refl

validate_confirmation_sound_example :
    (contains (check_ids policy) (codes "launch") ≡ contains confirmed (codes "launch"))
    × (contains normalized (codes "launch") ≡ contains confirmed (codes "launch"))
    × IsDistinct confirmed
validate_confirmation_sound_example =
    validate_confirmation_sound policy confirmed normalized (codes "launch") confirmation_accepted

abbrev pub app : Bytes
app = codes "01890a5d-ac96-774b-bcce-b302099a8057"

abbrev pub version : Bytes
version = codes "01890a5d-ac96-774b-8cce-b302099a8001"

abbrev pub review_id : Bytes
review_id = codes "01890a5d-ac96-774b-9cce-b302099a8002"

abbrev pub admin : AuthId
admin = codes "developer-1"

abbrev pub reviewer : AuthId
reviewer = codes "reviewer-1"

abbrev pub now : Time
now = record { instant = pos 63_000_000; in_utc = true }

abbrev pub snapshot : VersionSnapshot
snapshot = record {
  version_label = codes "1.0";
  launch_url = codes "https://app.example";
  rpc_api_min_version = pos 1;
  rpc_api_max_version_exclusive = pos 3;
  required_capabilities = [];
  required_scopes = codes "profile" ∷ [];
  optional_scopes = codes "email" ∷ [];
  pkce_redirect_uris = [];
  confidential_redirect_uris = [];
}

abbrev draft : SubmissionCandidate
draft = record { application_id = app; version_id = version; revision = pos 4; snapshot = snapshot }

abbrev submitted : ApplicationReview
submitted = record {
  review_id = review_id;
  application_id = app;
  version_id = version;
  attempt = pos 1;
  source_version_revision = pos 4;
  snapshot = snapshot;
  scope_catalog_revision = pos 9;
  preflight_policy_version = codes "submit-v1";
  submitted_by = admin;
  submitted_at = now;
  status = pending;
  decision = none;
  draft_restoration = none;
}

abbrev verdict : ApplicationReviewDecision
verdict = record {
  outcome = rejected;
  review_policy_version = codes "review-v1";
  confirmed_check_ids = [];
  reason = codes "The launch page is empty.";
  decided_by = reviewer;
  decided_at = now;
  approval_validation = none;
}

abbrev refused : ApplicationReview
refused = record submitted { status = decided rejected; decision = some verdict }

abbrev returned : DraftRestoration
returned = record { restored_by = admin; restored_at = now; result_version_revision = pos 7 }

abbrev restored : ApplicationReview
restored = record refused { draft_restoration = some returned }

refusal_run :
    reject_review
      (some submitted)
      (codes "review-v1")
      (codes "The launch page is empty.")
      reviewer
      now
    ≡ ok (refused, verdict)
unfolding tests
refusal_run = refl

return_run : record_draft_restoration (some refused) admin now (pos 7) ≡ ok (restored, returned)
unfolding tests
return_run = refl

refused-Reach : Reach refused
unfolding tests
refused-Reach =
    step submitted refused
      (submission app version (pos 4) (some snapshot) draft review_id (pos 1) (pos 9)
        (codes "submit-v1") admin now submitted refl refl)
      (rejection (codes "review-v1") (codes "The launch page is empty.") reviewer now verdict
        refusal_run)

Reach-IsRestorable_example : IsRestorable restored
Reach-IsRestorable_example =
    Reach-IsRestorable restored
      (step refused restored refused-Reach (restoration admin now (pos 7) returned return_run))

Steps-decision_example : (restored.decision ≡ some verdict) × (restored.status ≡ refused.status)
Steps-decision_example =
    Steps-decision refused restored verdict
      (after refused restored stay (restoration admin now (pos 7) returned return_run)) refl

abbrev pub observed : DecisionCandidate
observed = record {
  review = submitted;
  version_revision = pos 5;
  version_created_by = admin;
  version_snapshot = snapshot;
  current_admin_id = admin;
}

abbrev decided_version : DecidedVersion
decided_version = record {
  summary = record {
    application_id = app;
    version_id = version;
    revision = pos 6;
    updated_by = reviewer;
    updated_at = now;
  };
  review_status = rejected;
}

observed_run :
    new_decision_candidate (some submitted) (codes "SUBMITTED") (pos 5) admin (some snapshot) admin
    ≡ ok observed
unfolding tests
observed_run = refl

decided_run : new_decided_application_version (some observed) (some verdict) ≡ ok decided_version
unfolding tests
decided_run = refl

abbrev submitted_version : VersionSummary
submitted_version = record {
  application_id = app;
  version_id = version;
  revision = pos 5;
  updated_by = admin;
  updated_at = now;
}

draft_run : new_submission_candidate app version (pos 4) (some snapshot) ≡ ok draft
unfolding tests
draft_run = refl

pending_run :
    new_pending_application_review
      (some draft)
      review_id
      (pos 1)
      (pos 9)
      (codes "submit-v1")
      admin
      now
    ≡ ok submitted
unfolding tests
pending_run = refl

submitted_run : new_submitted_application_version (some draft) admin now ≡ ok submitted_version
unfolding tests new_submitted_application_version
submitted_run = refl

restoration-revision_example :
    (pos 5 ≡ pos 4 +ℤ pos 1)
    × (pos 6 ≡ pos 4 +ℤ pos 2)
    × (pos 7 ≡ pos 4 +ℤ pos 3)
    × (pos 7 ≡ pos 4 +ℤ pos 3)
restoration-revision_example =
    restoration-revision app version review_id (codes "review-v1")
      (codes "The launch page is empty.") (codes "submit-v1") (codes "SUBMITTED") (pos 4) (pos 5)
      (pos 7) (pos 1) (pos 9) snapshot snapshot admin admin admin reviewer admin now now now draft
      submitted refused restored submitted_version observed verdict decided_version returned
      draft_run pending_run submitted_run observed_run refusal_run decided_run return_run refl
