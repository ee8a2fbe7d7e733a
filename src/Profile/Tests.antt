-- ===== src/Profile/Tests.antt =====
-- A profile revision from its draft to a decision, at concrete input. The tables of Unicode here know one
-- composition, of e with an acute accent.
use iwut_app_center.Prelude.{
  ◌==◌, ◌&&◌, pos, true, false, none, some, [], ◌∷◌, ◌++◌, Bytes, bytes_eq, bytes_lt, codes, ok,
  is_ok, ◌≡◌, ◌≢◌, refl, inc_int64, if◌then◌else◌,
}
use iwut_app_center.Shared.{Time, auth_id_is_valid}
use iwut_app_center.Shared.Uuid.{is_uuid_v7}
use iwut_app_center.Shared.Utf8.{decode, runes, valid_string}
use iwut_app_center.Shared.Sorting.{sort_by, insert_by}
use iwut_app_center.Publication.Snapshot.{contains, compact, is_sorted}
use iwut_app_center.Review.Snapshot.{strings_equal}
use iwut_app_center.Profile.Text.{
  Unicode, canonical_nfc, canonical_text, characters, order, compose_all, encode, set_at, place,
  normalize_text, new_display_name,
}
use iwut_app_center.Profile.Revision.{
  ProfileDraft, ProfileRevision, Content, draft, content_is_canonical, same_content,
  new_profile_draft, assign_sequence, restore_profile_revision, replace_profile_draft,
  revision_is_malformed, is_first_but_changed, status_is_valid, restore_raw,
}
use iwut_app_center.Profile.Review.{
  Submission, submission_of, submit_draft, valid_policy_version, validate_profile_reason,
  restore_review_candidate,
}
use iwut_app_center.Profile.Decide.{
  approve, Verdict, Decided, decided_of, decide_review, ReviewPolicy, admit_reviewer,
  confirm_checks, is_of_revision,
}
use iwut_app_center.Profile.Lifecycle.{
  drafted, replaced, handed_in, decided, ProfileLife-IsRestorable, decide_review_once,
  decided_by_of, HasStoredChecks,
}

unfoldable tests : Unit {0}
unfolding bytes_eq bytes_lt inc_int64 auth_id_is_valid is_uuid_v7 decode runes valid_string sort_by
    insert_by contains compact is_sorted strings_equal canonical_nfc canonical_text characters order
    compose_all encode set_at place normalize_text new_display_name content_is_canonical
    same_content new_profile_draft assign_sequence restore_profile_revision replace_profile_draft
    revision_is_malformed is_first_but_changed status_is_valid restore_raw submit_draft
    valid_policy_version validate_profile_reason restore_review_candidate decide_review
    admit_reviewer confirm_checks is_of_revision
tests = tt

abbrev unicode : Unicode
unicode = record {
  decompose = λ r. if r == 233 then 101 ∷ 769 ∷ [] else r ∷ [];
  combining_class = λ r. if r == 769 then 230 else 0;
  compose = λ a b. if a == 101 && b == 769 then 233 ∷ [] else a ∷ b ∷ [];
  is_format = λ r. r == 173;
}

-- "Cafe" with the accent on its own, and with the composed letter.
abbrev cafe : Bytes
cafe = codes "Cafe" ++ 204 ∷ 129 ∷ []

abbrev composed_cafe : Bytes
composed_cafe = codes "Caf" ++ 195 ∷ 169 ∷ []

cafe_composed : new_display_name unicode cafe ≡ ok composed_cafe
unfolding tests
cafe_composed = refl

stays_composed : canonical_nfc unicode composed_cafe ≡ composed_cafe
unfolding tests
stays_composed = refl

not_canonical : canonical_text unicode cafe 80 ≡ false
unfolding tests
not_canonical = refl

abbrev content : Content
content = record { display_name = composed_cafe; description = none; icon = some (codes "cup") }

abbrev other_content : Content
other_content = record { display_name = codes "Tea"; description = none; icon = none }

abbrev monday : Time
monday = record { instant = pos 1000; in_utc = true }

abbrev tuesday : Time
tuesday = record { instant = pos 2000; in_utc = true }

abbrev given : ProfileDraft
given = record {
  id = codes "01890a5d-ac96-774b-bcce-b302099a8057";
  application_id = codes "01890a5d-ac96-774b-bcce-b302099a8058";
  content = content;
  created_by = codes "7";
  created_at = monday;
}

abbrev first_revision : ProfileRevision
first_revision = record {
  id = given.id;
  application_id = given.application_id;
  sequence = pos 1;
  content = content;
  review_status = draft;
  created_by = codes "7";
  created_at = monday;
  revision = pos 1;
  updated_by = codes "7";
  updated_at = monday;
}

abbrev second_revision : ProfileRevision
second_revision = record first_revision {
  content = other_content;
  revision = pos 2;
  updated_at = tuesday;
}

abbrev review_id : Bytes
review_id = codes "01890a5d-ac96-774b-bcce-b302099a8059"

abbrev submission : Submission
unfolding inc_int64
submission = submission_of second_revision (pos 2) review_id (pos 1) (codes "7") tuesday

abbrev policy : ReviewPolicy
policy = record {
  version = codes "app-profile-review-v1";
  required_checks = codes "content-policy-reviewed" ∷ codes "icon-content-reviewed" ∷ [];
  status = codes "ACTIVE";
}

abbrev approval : Verdict
approval = record {
  reviewer = codes "9";
  admin = codes "8";
  permissions = codes "app.profile.review" ∷ [];
  expected = pos 3;
  outcome = approve;
  policy = policy;
  checks = codes "icon-content-reviewed" ∷ codes "content-policy-reviewed" ∷ [];
  reason = none;
  at = tuesday;
}

abbrev outcome : Decided
unfolding inc_int64 sort_by insert_by bytes_lt
outcome = decided_of submission.revision submission.review approval

draft_accepted : new_profile_draft unicode given ≡ ok given
unfolding tests
draft_accepted = refl

sequence_assigned : assign_sequence unicode given (pos 1) ≡ ok first_revision
unfolding tests
sequence_assigned = refl

draft_replaced :
    replace_profile_draft unicode first_revision (pos 1) other_content (codes "7") tuesday
    ≡ ok second_revision
unfolding tests
draft_replaced = refl

draft_submitted :
    submit_draft unicode second_revision (pos 2) review_id (pos 1) (codes "7") tuesday
    ≡ ok submission
unfolding tests submission
draft_submitted = refl

approved_once : decide_review unicode submission.revision submission.review approval ≡ ok outcome
unfolding tests submission outcome
approved_once = refl

policy-HasStoredChecks : HasStoredChecks policy
unfolding tests
policy-HasStoredChecks = refl

ProfileLife-IsRestorable_example :
    (restore_profile_revision unicode outcome.revision ≡ ok outcome.revision)
    × (restore_review_candidate unicode outcome.review ≡ ok outcome.review)
ProfileLife-IsRestorable_example =
    ProfileLife-IsRestorable unicode outcome.revision outcome.review (
      decided submission.revision submission.review approval outcome
        (handed_in second_revision (pos 2) review_id (pos 1) (codes "7") tuesday submission
          (replaced first_revision second_revision (pos 1) other_content (codes "7") tuesday
            (drafted given given (pos 1) first_revision draft_accepted sequence_assigned)
            draft_replaced)
          draft_submitted)
        policy-HasStoredChecks approved_once)

decide_review_once_example :
    (contains approval.permissions (codes "app.profile.review") ≡ true)
    × (approval.reviewer ≢ approval.admin)
    × (approval.reviewer ≢ submission.revision.created_by)
    × (approval.reviewer ≢ submission.review.submitted_by)
    × (outcome.revision.updated_by ≡ approval.reviewer)
    × (decided_by_of outcome.review ≡ some approval.reviewer)
    × (is_ok (decide_review unicode outcome.revision outcome.review approval) ≡ false)
decide_review_once_example =
    decide_review_once unicode submission.revision submission.review approval approval outcome
      approved_once
