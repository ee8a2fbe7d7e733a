-- ===== src/Version/DraftTests.antt =====
-- A version from its draft on, at concrete input. The URL library here knows two URLs.
use iwut_app_center.Prelude.{
  pos, true, false, ◌||◌, none, some, [], ◌∷◌, Bytes, bytes_eq, bytes_lt, codes, ok, err, ◌≡◌, ◌≢◌,
  refl, inc_int64, arith, if◌then◌else◌,
}
use iwut_app_center.Shared.{Time, auth_id_is_valid}
use iwut_app_center.Shared.Uuid.{is_uuid_v7, to_lower, lower}
use iwut_app_center.Shared.Utf8.{decode, runes, valid_string}
use iwut_app_center.Shared.Sorting.{sort_by, insert_by}
use iwut_app_center.Publication.Snapshot.{contains, has_overlap}
use iwut_app_center.Review.Snapshot.{strings_equal}
use iwut_app_center.Version.{invalid_oauth_redirects, new_rpc_api_range, range_is_valid}
use iwut_app_center.Version.Label.{new_version_label, label_is_valid}
use iwut_app_center.Version.Names.{
  code_point_less, is_capability_name, new_capability_set, new_scope_request, split_dots,
}
use iwut_app_center.Version.Urls.{
  Urls, ParsedUrl, new_launch_url, launch_url_is_valid, has_suffix, trim_dot, is_development_host,
}
use iwut_app_center.Version.Redirects.{
  new_oauth_redirects, redirects_are_valid, canonical_oauth_hostname, is_special_use_hostname,
  has_two_dots, ends_with, label_is_canonical, redirects_equal, valid_oauth_redirect_uri,
}
use iwut_app_center.Version.Draft.{
  Replacement, DraftVersion, ApplicationVersion, draft, submitted, rejected, new_draft,
  new_application_version, new_replacement, restore_application_version, replace_draft,
  has_replacement, capabilities_are_valid, scope_request_is_valid, content_is_valid,
}
use iwut_app_center.Version.Revalidated.{new_replacement-accepts}
use iwut_app_center.Version.Edited.{Edit, replace, back_to_draft, edited, expected_of}
use iwut_app_center.Shared.PolicyVersion.{policy_version_matches}
use iwut_app_center.Shared.Utf8.{rune_count}
use iwut_app_center.Publication.Snapshot.{strictly_sorted_unique, is_sorted, compact}
use iwut_app_center.Review.Snapshot.{VersionSnapshot, snapshot_equal}
use iwut_app_center.Review.Decision.{
  ApplicationReviewDecision, new_rejected_decision, new_application_review_decision, outcome_fits,
  validate_review_reason, is_trimmed,
}
use iwut_app_center.Review.Attempt.{
  SubmissionCandidate, ApplicationReview, pending, new_submission_candidate, reject_review,
}
use iwut_app_center.Review.Candidate.{
  VersionSummary, DecisionCandidate, DecidedVersion, new_submitted_application_version,
  new_decision_candidate, new_decided_application_version,
}
use iwut_app_center.Version.Reviewed.{by_rejection}
use iwut_app_center.Version.Lifecycle.{
  Life, created, changed, handed_in, decided, Life-IsRestorable, replaced_again, edited-conflict,
}

unfoldable tests : Unit {0}
unfolding bytes_eq bytes_lt inc_int64 auth_id_is_valid is_uuid_v7 to_lower lower decode runes
    valid_string sort_by insert_by contains has_overlap strings_equal new_rpc_api_range
    range_is_valid new_version_label label_is_valid code_point_less is_capability_name
    new_capability_set new_scope_request split_dots new_launch_url launch_url_is_valid has_suffix
    trim_dot is_development_host new_oauth_redirects redirects_are_valid canonical_oauth_hostname
    is_special_use_hostname has_two_dots ends_with label_is_canonical redirects_equal
    valid_oauth_redirect_uri new_draft new_application_version new_replacement
    restore_application_version replace_draft has_replacement capabilities_are_valid
    scope_request_is_valid content_is_valid edited
tests = tt

abbrev site : Bytes
site = codes "https://app.token.team/"

abbrev callback : Bytes
callback = codes "https://app.token.team/callback"

abbrev site_url : ParsedUrl
site_url = record {
  scheme = codes "https";
  host = codes "app.token.team";
  hostname = codes "app.token.team";
  has_user = false;
  fragment = [];
  raw_query = [];
}

abbrev urls : Urls
urls = record {
  parse = λ value. if bytes_eq value site || bytes_eq value callback then some site_url else none;
  parse_ip = λ host. none;
  query_keys = λ query. some [];
  to_lower = to_lower;
}

abbrev content_at : Bytes → Replacement
content_at label = record {
  version_label = label;
  launch_url = record { value = site; developmental = false };
  rpc_api_range = record { minimum = pos 1; maximum_exclusive = pos 3 };
  required_capabilities = codes "app.location.v1" ∷ codes "app.share.v2" ∷ [];
  scope_request = record { required = codes "profile" ∷ []; optional = codes "email" ∷ [] };
  oauth_redirects = record { pkce_uris = callback ∷ []; confidential_uris = [] };
}

abbrev content : Replacement
content = content_at (codes "1.0")

abbrev other_content : Replacement
other_content = content_at (codes "1.1")

redirects_accepted :
    new_oauth_redirects urls (some (callback ∷ [])) (some []) ≡ ok content.oauth_redirects
unfolding tests
redirects_accepted = refl

label_accepted : new_version_label (codes "1.0") ≡ ok content.version_label
unfolding tests
label_accepted = refl

url_accepted : new_launch_url urls site ≡ ok content.launch_url
unfolding tests
url_accepted = refl

range_accepted : new_rpc_api_range (pos 1) (pos 3) ≡ ok content.rpc_api_range
unfolding tests
range_accepted = refl

capabilities_accepted :
    new_capability_set (codes "app.share.v2" ∷ codes "app.location.v1" ∷ [])
    ≡ ok content.required_capabilities
unfolding tests
capabilities_accepted = refl

scopes_accepted :
    new_scope_request (codes "profile" ∷ []) (codes "email" ∷ []) ≡ ok content.scope_request
unfolding tests
scopes_accepted = refl

new_replacement-accepts_example : new_replacement urls content ≡ ok content
new_replacement-accepts_example =
    new_replacement-accepts urls (codes "1.0") site (pos 1) (pos 3)
      (codes "app.share.v2" ∷ codes "app.location.v1" ∷ []) (codes "profile" ∷ [])
      (codes "email" ∷ []) (callback ∷ []) [] content label_accepted url_accepted range_accepted
      capabilities_accepted scopes_accepted redirects_accepted

special_use_refused :
    new_oauth_redirects urls (some (codes "https://localhost/" ∷ [])) (some [])
    ≡ err invalid_oauth_redirects
unfolding tests
special_use_refused = refl

local_special : is_special_use_hostname (codes "printer.local") ≡ true
unfolding tests
local_special = refl

abbrev monday : Time
monday = record { instant = pos 1000; in_utc = true }

abbrev tuesday : Time
tuesday = record { instant = pos 2000; in_utc = true }

abbrev given : DraftVersion
given = record {
  id = codes "01890a5d-ac96-774b-bcce-b302099a8057";
  application_id = codes "01890a5d-ac96-774b-bcce-b302099a8058";
  content = content;
  created_by = codes "7";
  created_at = monday;
}

abbrev first_version : ApplicationVersion
first_version = record {
  id = given.id;
  application_id = given.application_id;
  sequence = pos 1;
  content = content;
  review_status = draft;
  created_by = codes "7";
  created_at = monday;
  revision = pos 1;
  updated_by = codes "7";
  updated_at = monday;
}

abbrev second_version : ApplicationVersion
second_version = record first_version {
  content = other_content;
  revision = pos 2;
  updated_by = codes "8";
  updated_at = tuesday;
}

drafted : new_draft urls given ≡ ok given
unfolding tests
drafted = refl

numbered : new_application_version urls given (pos 1) ≡ ok first_version
unfolding tests
numbered = refl

content_replaced :
    replace_draft urls first_version (pos 1) other_content (codes "8") tuesday ≡ ok second_version
unfolding tests
content_replaced = refl

abbrev edit : Edit
edit = replace (pos 1) other_content (codes "8") tuesday

content_edited : edited urls first_version edit ≡ ok second_version
unfolding tests
content_edited = refl

abbrev snapshot : VersionSnapshot
snapshot = record {
  version_label = codes "1.1";
  launch_url = site;
  rpc_api_min_version = pos 1;
  rpc_api_max_version_exclusive = pos 3;
  required_capabilities = content.required_capabilities;
  required_scopes = codes "profile" ∷ [];
  optional_scopes = codes "email" ∷ [];
  pkce_redirect_uris = callback ∷ [];
  confidential_redirect_uris = [];
}

abbrev candidate : SubmissionCandidate
candidate = record {
  application_id = given.application_id;
  version_id = given.id;
  revision = pos 2;
  snapshot = snapshot;
}

abbrev submission : VersionSummary
submission = record {
  application_id = given.application_id;
  version_id = given.id;
  revision = pos 3;
  updated_by = codes "7";
  updated_at = tuesday;
}

abbrev pending_review : ApplicationReview
pending_review = record {
  review_id = codes "01890a5d-ac96-774b-9cce-b302099a8002";
  application_id = given.application_id;
  version_id = given.id;
  attempt = pos 1;
  source_version_revision = pos 2;
  snapshot = snapshot;
  scope_catalog_revision = pos 9;
  preflight_policy_version = codes "submit-v1";
  submitted_by = codes "7";
  submitted_at = tuesday;
  status = pending;
  decision = none;
  draft_restoration = none;
}

abbrev refusal : ApplicationReviewDecision
refusal = record {
  outcome = iwut_app_center.Review.Decision.rejected;
  review_policy_version = codes "review-v1";
  confirmed_check_ids = [];
  reason = codes "The launch page is empty.";
  decided_by = codes "9";
  decided_at = tuesday;
  approval_validation = none;
}

abbrev refused_review : ApplicationReview
refused_review = record pending_review {
  status = iwut_app_center.Review.Attempt.decided iwut_app_center.Review.Decision.rejected;
  decision = some refusal;
}

abbrev observed : DecisionCandidate
observed = record {
  review = pending_review;
  version_revision = pos 3;
  version_created_by = codes "7";
  version_snapshot = snapshot;
  current_admin_id = codes "7";
}

abbrev refused_version : DecidedVersion
refused_version = record {
  summary = record {
    application_id = given.application_id;
    version_id = given.id;
    revision = pos 4;
    updated_by = codes "9";
    updated_at = tuesday;
  };
  review_status = iwut_app_center.Review.Decision.rejected;
}

candidate_made :
    new_submission_candidate given.application_id given.id (pos 2) (some snapshot) ≡ ok candidate
unfolding tests new_submission_candidate
candidate_made = refl

submission_made :
    new_submitted_application_version (some candidate) (codes "7") tuesday ≡ ok submission
unfolding tests new_submitted_application_version
submission_made = refl

observed_made :
    new_decision_candidate
      (some pending_review)
      (codes "SUBMITTED")
      (pos 3)
      (codes "7")
      (some snapshot)
      (codes "7")
    ≡ ok observed
unfolding tests new_decision_candidate snapshot_equal
observed_made = refl

refusal_made :
    reject_review
      (some pending_review)
      (codes "review-v1")
      (codes "The launch page is empty.")
      (codes "9")
      tuesday
    ≡ ok (refused_review, refusal)
unfolding tests reject_review new_rejected_decision new_application_review_decision outcome_fits
    policy_version_matches validate_review_reason is_trimmed rune_count strictly_sorted_unique
    is_sorted compact
refusal_made = refl

refused_made : new_decided_application_version (some observed) (some refusal) ≡ ok refused_version
unfolding tests new_decided_application_version
refused_made = refl

abbrev third_version : ApplicationVersion
third_version = record second_version {
  review_status = submitted;
  revision = pos 3;
  updated_by = codes "7";
  updated_at = tuesday;
}

abbrev fourth_version : ApplicationVersion
fourth_version = record second_version {
  review_status = rejected;
  revision = pos 4;
  updated_by = codes "9";
  updated_at = tuesday;
}

third_version-Life : Life urls third_version
unfolding tests
third_version-Life =
    handed_in second_version snapshot candidate (codes "7") tuesday submission
      (changed first_version second_version edit
        (created given given (pos 1) first_version drafted numbered) refl content_edited)
      refl refl candidate_made submission_made

fourth_version-Life : Life urls fourth_version
unfolding tests
fourth_version-Life =
    decided third_version pending_review (codes "SUBMITTED") snapshot (codes "7") observed refusal
      refused_version third_version-Life refl refl (refl, refl) observed_made
      (by_rejection refused_review (codes "review-v1") (codes "The launch page is empty.")
        (codes "9") tuesday refusal_made)
      refused_made

Life-IsRestorable_example : restore_application_version urls fourth_version ≡ ok fourth_version
Life-IsRestorable_example = Life-IsRestorable urls fourth_version fourth_version-Life

someone : auth_id_is_valid (codes "9") ≡ true
unfolding tests
someone = refl

replaced_again_example :
    replace_draft urls second_version (pos 2) other_content (codes "9") monday ≡ ok second_version
replaced_again_example =
    replaced_again urls first_version second_version (pos 1) other_content (codes "8") (codes "9")
      tuesday monday content_replaced refl someone refl

revision_moved : pos 2 ≢ pos 1
revision_moved e = absurd (ground arith)

same_expectation : expected_of (back_to_draft (pos 1) (codes "7") monday) ≡ expected_of edit
unfolding expected_of
same_expectation = refl

edited-conflict_example :
    edited urls second_version (back_to_draft (pos 1) (codes "7") monday) ≢ ok first_version
edited-conflict_example =
    edited-conflict urls first_version second_version first_version edit
      (back_to_draft (pos 1) (codes "7") monday) content_edited revision_moved same_expectation
