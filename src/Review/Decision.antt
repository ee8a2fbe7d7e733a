-- ===== src/Review/Decision.antt =====
-- internal/review/domain/decision.go: review policies, the confirmation of their checks, and the
-- decision that a review gets once.
use iwut_app_center.Prelude.{
  ℕ, ltb, ℤ, pos, ltb_ℤ, Bool, true, false, not, ◌&&◌, ◌||◌, any, all, get_or, length, Option, none,
  some, is_none, is_some, List, [], ◌∷◌, map, Bytes, bytes_eq, bytes_lt, is_empty, codes, Result,
  ok, err, is_ok, ◌>>◌, reject, if◌then◌else◌,
}
use iwut_app_center.Shared.{Time, AuthId, is_zero, utc, auth_id_is_valid}
use iwut_app_center.Shared.PolicyVersion.{policy_version_matches}
use iwut_app_center.Shared.Utf8.{valid_string, runes, rune_count, is_control, is_space}
use iwut_app_center.Publication.Snapshot.{strictly_sorted_unique, contains}
use iwut_app_center.Review.{
  Error, invalid_reason, checks_incomplete, invalid_policy_version, invalid_outcome, internal,
}
use iwut_app_center.Shared.Sorting.{sort_by}

pub data ReviewDecision : Type 0 where
  approved rejected : ReviewDecision

unfoldable pub new_review_action : Bytes → Result Error ReviewDecision
new_review_action value =
    if bytes_eq value (codes "APPROVE")
    then ok approved
    else if bytes_eq value (codes "REJECT")
    then ok rejected
    else err invalid_outcome

unfoldable pub new_review_policy_version : Bytes → Result Error Bytes
new_review_policy_version value = do
  reject (not (policy_version_matches value)) invalid_policy_version
  ok value

abbrev last_or : List ℕ → ℕ → ℕ
last_or [] d = d
last_or (x ∷ xs) d = last_or xs x

-- `strings.TrimSpace(value) == value` on a text that is valid UTF-8: no space at either end.
unfoldable pub is_trimmed : Bytes → Bool
is_trimmed value =
    let rs = runes value in not (is_space (get_or rs 0 0)) && not (is_space (last_or rs 0))

unfoldable pub new_review_check_id : Bytes → Result Error Bytes
unfolding is_trimmed
new_review_check_id value = do
  reject (is_empty value || not (valid_string value) || not (is_trimmed value)) internal
  reject (any is_control (runes value)) internal
  ok value

pub record ReviewCheckDefinition : Type 0 where
  pub id : Bytes
  pub title : Bytes
  pub description : Bytes

unfoldable pub valid_review_definition_text : Bytes → ℕ → Bool
unfolding is_trimmed
valid_review_definition_text value max =
    if not (valid_string value)
      || not (is_trimmed value)
      || ltb (rune_count value) 1
      || ltb max (rune_count value)
    then false
    else not (any is_control (runes value))

unfoldable pub new_review_check_definition : Bytes → Result Error ReviewCheckDefinition
new_review_check_definition id = do
  reject (is_empty id) internal
  ok (record { id = id; title = []; description = [] })

unfoldable pub new_formal_review_check_definition :
    Bytes → Bytes → Bytes → Result Error ReviewCheckDefinition
unfolding new_review_check_id valid_review_definition_text
new_formal_review_check_definition id title description = do
  reject
      (not (is_ok (new_review_check_id id))
        || not (valid_review_definition_text title 80)
        || not (valid_review_definition_text description 2000))
      internal
  ok (record { id = id; title = title; description = description })

-- `other` is a status that is neither ACTIVE nor RETIRED.
pub data ReviewPolicyStatus : Type 0 where
  active retired other : ReviewPolicyStatus

abbrev pub policy_status_is_valid : ReviewPolicyStatus → Bool
policy_status_is_valid other = false
policy_status_is_valid _ = true

pub record VersionReviewPolicy : Type 0 where
  pub version : Bytes
  pub required_checks : List ReviewCheckDefinition
  pub status : ReviewPolicyStatus

-- The loop of NewVersionReviewPolicy, with the ids it has seen.
unfoldable pub checks_are_distinct : List Bytes → List ReviewCheckDefinition → Bool
checks_are_distinct seen [] = true
checks_are_distinct seen (check ∷ checks) =
    not (is_empty check.id)
    && not (contains seen check.id)
    && checks_are_distinct (check.id ∷ seen) checks

unfoldable pub new_version_review_policy :
    Bytes → List ReviewCheckDefinition → ReviewPolicyStatus → Result Error VersionReviewPolicy
unfolding checks_are_distinct
new_version_review_policy version checks status = do
  reject (not (policy_version_matches version) || not (policy_status_is_valid status)) internal
  reject (not (checks_are_distinct [] checks)) internal
  ok (record { version = version; required_checks = checks; status = status })

unfoldable pub usable : VersionReviewPolicy → Bool
usable policy = elim policy.status [ active ↦ true | _ ↦ false ]

abbrev pub check_ids : VersionReviewPolicy → List Bytes
check_ids policy = map (λ check. check.id) policy.required_checks

unfoldable pub required_check_ids : VersionReviewPolicy → List Bytes
unfolding sort_by
required_check_ids policy = sort_by bytes_lt (check_ids policy)

-- The loop over the confirmed ids: the ids seen at its end.
unfoldable pub confirm : List Bytes → List Bytes → List Bytes → Option (List Bytes)
confirm required seen [] = some seen
confirm required seen (id ∷ ids) =
    let rest = confirm required (id ∷ seen) ids in
    if is_empty id || contains seen id || not (contains required id) then none else rest

unfoldable pub validate_confirmation : VersionReviewPolicy → List Bytes → Result Error (List Bytes)
unfolding confirm sort_by
validate_confirmation policy confirmed = elim (confirm (check_ids policy) [] confirmed) [
  | none ↦ err checks_incomplete
  | some seen ↦ do
    reject (not (all (contains seen) (check_ids policy))) checks_incomplete
    ok (sort_by bytes_lt confirmed)
]

pub record ApprovalValidation : Type 0 where
  pub scope_catalog_revision : ℤ  -- int64
  pub preflight_policy_version : Bytes

unfoldable pub new_approval_validation : ℤ → Bytes → Result Error ApprovalValidation
new_approval_validation scope_catalog_revision preflight_policy_version = do
  reject
      (ltb_ℤ scope_catalog_revision (pos 1)
        || not (policy_version_matches preflight_policy_version))
      internal
  ok (record {
    scope_catalog_revision = scope_catalog_revision;
    preflight_policy_version = preflight_policy_version;
  })

pub record ApplicationReviewDecision : Type 0 where
  pub outcome : ReviewDecision
  pub review_policy_version : Bytes
  pub confirmed_check_ids : List Bytes
  pub reason : Bytes
  pub decided_by : AuthId
  pub decided_at : Time
  pub approval_validation : Option ApprovalValidation

unfoldable pub validate_review_reason : Bytes → Result Error (Unit {0})
unfolding is_trimmed
validate_review_reason value = do
  reject (is_empty value || not (valid_string value)) invalid_reason
  reject (ltb (rune_count value) 1 || ltb 2000 (rune_count value)) invalid_reason
  reject (not (is_trimmed value)) invalid_reason
  reject (any is_control (runes value)) invalid_reason

-- The switch on the outcome.
unfoldable pub outcome_fits :
    ReviewDecision → List Bytes → Bytes → Option ApprovalValidation → Result Error (Unit {0})
outcome_fits approved normalized reason validation = do
  reject (is_none validation) internal
  if is_empty reason then ok tt else validate_review_reason reason
outcome_fits rejected normalized reason validation = do
  reject (is_some validation || ltb 0 (length normalized)) internal
  validate_review_reason reason

unfoldable pub new_application_review_decision :
    ReviewDecision
    → Bytes
    → List Bytes
    → Bytes
    → Option ApprovalValidation
    → AuthId
    → Time
    → Result Error ApplicationReviewDecision
unfolding sort_by outcome_fits
new_application_review_decision outcome policy_version checks reason validation by at = do
  reject (not (policy_version_matches policy_version) || not (auth_id_is_valid by) || is_zero at)
      internal
  let normalized = sort_by bytes_lt checks
  reject (not (strictly_sorted_unique (some normalized))) internal
  outcome_fits outcome normalized reason validation
  ok (record {
    outcome = outcome;
    review_policy_version = policy_version;
    confirmed_check_ids = normalized;
    reason = reason;
    decided_by = by;
    decided_at = utc at;
    approval_validation = validation;
  })

unfoldable pub new_approved_decision :
    Bytes
    → List Bytes
    → Bytes
    → Option ApprovalValidation
    → AuthId
    → Time
    → Result Error ApplicationReviewDecision
unfolding new_application_review_decision
new_approved_decision policy_version checks reason validation by at = do
  reject (is_none validation) internal
  new_application_review_decision approved policy_version checks reason validation by at

unfoldable pub new_rejected_decision :
    Bytes → Bytes → AuthId → Time → Result Error ApplicationReviewDecision
unfolding new_application_review_decision
new_rejected_decision policy_version reason by at =
    new_application_review_decision rejected policy_version [] reason none by at
