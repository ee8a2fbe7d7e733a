-- ===== src/Profile/Guards.antt =====
-- internal/profile/domain: what the guards of ReplaceDraft, SubmitDraft and DecideReview have let through,
-- and what each makes.
use iwut_app_center.Prelude.{
  ◌==◌, ℤ, pos, ltb_ℤ, eqb_ℤ, max_int64, Bool, true, false, not, List, Bytes, codes, bytes_eq,
  bytes_lt, length, ok, ◌>>◌, reject, reject-ok, reject-passed, or_false, not-false, check-passed,
  reject-end, ◌≡◌, ◌⊎◌, inl, inr, arith, if◌then◌else◌,
}
use iwut_app_center.Shared.{Time, is_zero, AuthId, auth_id_is_valid}
use iwut_app_center.Shared.Uuid.{is_uuid_v7}
use iwut_app_center.Shared.Sorting.{sort_by}
use iwut_app_center.Publication.Snapshot.{contains, compact}
use iwut_app_center.Review.Snapshot.{strings_equal}
use iwut_app_center.Profile.Text.{Unicode}
use iwut_app_center.Profile.Revision.{
  ProfileRevision, Content, same_content, content_is_canonical, status_is_draft,
  status_is_submitted, replaced_by, replace_profile_draft,
}
use iwut_app_center.Profile.Review.{
  ProfileReview, is_pending, Submission, submission_of, submit_draft, valid_policy_version,
  validate_profile_reason,
}
use iwut_app_center.Profile.Decide.{
  approve, outcome_is_other, outcome_is_reject, ReviewPolicy, Verdict, is_of_revision, Decided,
  decided_of, admit_reviewer, confirm_checks, decide_review,
}

kept_or_made :
    {E A : Type 0}
    → (same full : Bool) (e : E) (r made w : A)
    → (if same then ok r else (reject full e >> ok made)) ≡ ok w
    → (w ≡ r) ⊎ ((full ≡ false) × (made ≡ w))
kept_or_made true full e r made w h = inl (ground arith)
kept_or_made false full e r made w h = inr (reject-ok full e made w h)

pub record Replaced (unicode : Unicode) (r w : ProfileRevision) (replacement : Content)
    (by : AuthId) (at : Time) : Type 0 where
  pub is_draft : status_is_draft r.review_status ≡ true
  pub canonical : content_is_canonical unicode replacement ≡ true
  pub who : auth_id_is_valid by ≡ true
  pub when : is_zero at ≡ false
  pub made :
      (w ≡ r) ⊎ ((eqb_ℤ r.revision max_int64 ≡ false) × (replaced_by r replacement by at ≡ w))

pub replace_profile_draft-Replaced :
    (unicode : Unicode) (r w : ProfileRevision) (expected : ℤ) (replacement : Content) (by : AuthId)
    (at : Time)
    → replace_profile_draft unicode r expected replacement by at ≡ ok w
    → Replaced unicode r w replacement by at
unfolding replace_profile_draft
replace_profile_draft-Replaced unicode r w expected replacement by at h =
    let (given, h1) = reject-passed (ltb_ℤ expected (pos 1)) _ _ w h in
    let (is_draft, h2) = reject-passed (not (status_is_draft r.review_status)) _ _ w h1 in
    let (same, h3) = reject-passed (not (eqb_ℤ r.revision expected)) _ _ w h2 in
    let (fit, h4) = reject-passed _ _ _ w h3 in
    let (fit', when) = or_false _ (is_zero at) fit in
    let (canonical, who) = or_false _ (not (auth_id_is_valid by)) fit' in
    record {
      is_draft = not-false _ is_draft;
      canonical = not-false _ canonical;
      who = not-false _ who;
      when = when;
      made = kept_or_made (same_content replacement r.content) _ _ r _ w h4;
    }

pub record Submitted (unicode : Unicode) (r : ProfileRevision) (expected : ℤ) (id : Bytes)
    (attempt : ℤ) (by : AuthId) (at : Time) (s : Submission) : Type 0 where
  pub given : ltb_ℤ expected (pos 1) ≡ false
  pub canonical : content_is_canonical unicode r.content ≡ true
  pub room : eqb_ℤ r.revision max_int64 ≡ false
  pub counted : ltb_ℤ attempt (pos 1) ≡ false
  pub named : is_uuid_v7 id ≡ true
  pub who : auth_id_is_valid by ≡ true
  pub when : is_zero at ≡ false
  pub made : submission_of r expected id attempt by at ≡ s

pub submit_draft-Submitted :
    (unicode : Unicode) (r : ProfileRevision) (expected : ℤ) (id : Bytes) (attempt : ℤ)
    (by : AuthId) (at : Time) (s : Submission)
    → submit_draft unicode r expected id attempt by at ≡ ok s
    → Submitted unicode r expected id attempt by at s
unfolding submit_draft
submit_draft-Submitted unicode r expected id attempt by at s h =
    let (given, h1) = reject-passed (ltb_ℤ expected (pos 1)) _ _ s h in
    let (is_draft, h2) = reject-passed (not (status_is_draft r.review_status)) _ _ s h1 in
    let (same, h3) = reject-passed (not (eqb_ℤ r.revision expected)) _ _ s h2 in
    let (canonical, h4) = reject-passed _ _ _ s h3 in
    let (room, h5) = reject-passed _ _ _ s h4 in
    let (fit, made) = reject-ok _ _ _ s h5 in
    let (room', counted) = or_false _ (ltb_ℤ attempt (pos 1)) room in
    let (fit', when) = or_false _ (is_zero at) fit in
    let (named, who) = or_false _ (not (auth_id_is_valid by)) fit' in
    record {
      given = given;
      canonical = not-false _ canonical;
      room = room';
      counted = counted;
      named = not-false _ named;
      who = not-false _ who;
      when = when;
      made = made;
    }

-- Who may decide, and on which revision.
pub record Admitted (r : ProfileRevision) (v : ProfileReview) (d : Verdict) : Type 0 where
  pub who : auth_id_is_valid d.reviewer ≡ true
  pub permitted : contains d.permissions (codes "app.profile.review") ≡ true
  pub not_admin : bytes_eq d.reviewer d.admin ≡ false
  pub not_creator : bytes_eq d.reviewer r.created_by ≡ false
  pub not_submitter : bytes_eq d.reviewer v.submitted_by ≡ false
  pub undecided : is_pending v.status ≡ true
  pub submitted : status_is_submitted r.review_status ≡ true
  pub same : is_of_revision v r ≡ true

pub admit_reviewer-Admitted :
    (r : ProfileRevision) (v : ProfileReview) (d : Verdict)
    → admit_reviewer r v d ≡ ok tt
    → Admitted r v d
unfolding admit_reviewer
admit_reviewer-Admitted r v d h =
    let (who, h1) = reject-passed (not (auth_id_is_valid d.reviewer)) _ _ tt h in
    let (permitted, h2) = reject-passed _ _ _ tt h1 in
    let (admin, h3) = reject-passed (not (auth_id_is_valid d.admin)) _ _ tt h2 in
    let (apart, h4) = reject-passed _ _ _ tt h3 in
    let (undecided, h5) = reject-passed (not (is_pending v.status)) _ _ tt h4 in
    let (submitted, h6) = reject-passed (not (status_is_submitted r.review_status)) _ _ tt h5 in
    let (expected, h7) = reject-passed (not (eqb_ℤ r.revision d.expected)) _ _ tt h6 in
    let (apart', not_submitter) = or_false _ (bytes_eq d.reviewer v.submitted_by) apart in
    let (not_admin, not_creator) = or_false _ (bytes_eq d.reviewer r.created_by) apart' in
    record {
      who = not-false _ who;
      permitted = not-false _ permitted;
      not_admin = not_admin;
      not_creator = not_creator;
      not_submitter = not_submitter;
      undecided = not-false _ undecided;
      submitted = not-false _ submitted;
      same = not-false _ (reject-end _ _ h7);
    }

pub record Passed (unicode : Unicode) (r : ProfileRevision) (v : ProfileReview) (d : Verdict)
    (w : Decided) : Type 0 where
  pub admitted : Admitted r v d
  pub policy : valid_policy_version d.policy.version ≡ true
  pub known : outcome_is_other d.outcome ≡ false
  pub reason : validate_profile_reason d.reason (outcome_is_reject d.outcome) ≡ ok tt
  pub checks : confirm_checks unicode d.outcome d.policy d.checks v.snapshot ≡ ok tt
  pub room : eqb_ℤ r.revision max_int64 ≡ false
  pub when : is_zero d.at ≡ false
  pub made : decided_of r v d ≡ w

pub decide_review-Passed :
    (unicode : Unicode) (r : ProfileRevision) (v : ProfileReview) (d : Verdict) (w : Decided)
    → decide_review unicode r v d ≡ ok w
    → Passed unicode r v d w
unfolding decide_review
decide_review-Passed unicode r v d w h =
    let (admitted, h1) = check-passed (admit_reviewer r v d) _ w h in
    let (policy, h2) = reject-passed _ _ _ w h1 in
    let (known, h3) = reject-passed (outcome_is_other d.outcome) _ _ w h2 in
    let (reason, h4) =
      check-passed (validate_profile_reason d.reason (outcome_is_reject d.outcome)) _ w h3 in
    let (checks, h5) =
      check-passed (confirm_checks unicode d.outcome d.policy d.checks v.snapshot) _ w h4 in
    let (fit, made) = reject-ok _ _ _ w h5 in
    let (room, when) = or_false _ (is_zero d.at) fit in
    let (active, version) = or_false _ (not (valid_policy_version d.policy.version)) policy in
    record {
      admitted = admit_reviewer-Admitted r v d admitted;
      policy = not-false _ version;
      known = known;
      reason = reason;
      checks = checks;
      room = room;
      when = when;
      made = made;
    }

-- What an approval has confirmed.
pub record Confirmed (unicode : Unicode) (policy : ReviewPolicy) (checks : List Bytes)
    (snapshot : Content) : Type 0 where
  pub some_check : (length (sort_by bytes_lt checks) == 0) ≡ false
  pub required :
      strings_equal (sort_by bytes_lt checks) (sort_by bytes_lt policy.required_checks) ≡ true
  pub once : (length (compact (sort_by bytes_lt checks)) == length (sort_by bytes_lt checks)) ≡ true
  pub canonical : content_is_canonical unicode snapshot ≡ true

pub confirm_checks-Confirmed :
    (unicode : Unicode) (policy : ReviewPolicy) (checks : List Bytes) (snapshot : Content)
    → confirm_checks unicode approve policy checks snapshot ≡ ok tt
    → Confirmed unicode policy checks snapshot
unfolding confirm_checks
confirm_checks-Confirmed unicode policy checks snapshot h =
    let (complete, h1) = reject-passed _ _ _ tt h in
    let (complete', once) = or_false _ (not _) complete in
    let (some_check, required) = or_false _ (not _) complete' in
    record {
      some_check = some_check;
      required = not-false _ required;
      once = not-false _ once;
      canonical = not-false _ (reject-end _ _ h1);
    }
