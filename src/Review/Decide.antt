-- ===== src/Review/Decide.antt =====
-- internal/review/usecase/decide_application_version_review.go: a reviewer's decision, over the
-- services and the repository of internal/review/port.
use iwut_app_center.Prelude.{
  ℤ, pos, ltb, ltb_ℤ, Bool, not, ◌||◌, any, length, Option, none, some, List, [], ◌∷◌, Bytes,
  bytes_eq, codes, is_empty, Result, ok, err, ◌>>=◌, ◌>>◌, reject, if◌then◌else◌,
}
use iwut_app_center.Shared.{Time, AuthId, is_zero, utc, auth_id_is_valid}
use iwut_app_center.Shared.Uuid.{is_uuid_v7}
use iwut_app_center.Shared.PolicyVersion.{policy_version_matches}
use iwut_app_center.Publication.Snapshot.{contains}
use iwut_app_center.Review.{
  Error, checks_incomplete, already_decided, state_inconsistent, internal,
  reviewer_identity_required, permission_required, review_not_found, invalid_checks,
  conflict_of_interest, policy_changed, developer_status_unavailable, system_principal_unavailable,
  invalid_redirects, invalid_scope, scope_catalog_unavailable, launch_url_not_reviewable,
  inspection_unavailable,
}
use iwut_app_center.Review.Snapshot.{VersionSnapshot}
use iwut_app_center.Review.Decision.{
  ReviewDecision, approved, rejected, ApplicationReviewDecision, VersionReviewPolicy, usable,
  new_review_action, new_review_policy_version, new_review_check_id, validate_confirmation,
  validate_review_reason, new_approval_validation,
}
use iwut_app_center.Review.Attempt.{ApplicationReview, approve, reject_review, all_scopes}
use iwut_app_center.Review.Candidate.{DecisionCandidate, reviewer_conflicts}

-- SystemEligibilityRejectionReason, in UTF-8.
abbrev pub system_reason : Bytes
system_reason =
    229 ∷ 189 ∷ 147 ∷ 229 ∷ 137 ∷ 141 ∷ 229 ∷ 186 ∷ 148 ∷ 231 ∷ 148 ∷ 168 ∷ 231 ∷ 174 ∷ 161 ∷ 231
    ∷ 144 ∷ 134 ∷ 229 ∷ 145 ∷ 152 ∷ 230 ∷ 136 ∷ 150 ∷ 229 ∷ 174 ∷ 161 ∷ 230 ∷ 160 ∷ 184 ∷ 230 ∷ 143
    ∷ 144 ∷ 228 ∷ 186 ∷ 164 ∷ 232 ∷ 128 ∷ 133 ∷ 228 ∷ 184 ∷ 141 ∷ 230 ∷ 187 ∷ 161 ∷ 232 ∷ 182 ∷ 179
    ∷ 232 ∷ 180 ∷ 166 ∷ 229 ∷ 143 ∷ 183 ∷ 228 ∷ 184 ∷ 142 ∷ 229 ∷ 188 ∷ 128 ∷ 229 ∷ 143 ∷ 145 ∷ 232
    ∷ 128 ∷ 133 ∷ 232 ∷ 181 ∷ 132 ∷ 230 ∷ 160 ∷ 188 ∷ 232 ∷ 166 ∷ 129 ∷ 230 ∷ 177 ∷ 130 ∷ 239 ∷ 188
    ∷ 140 ∷ 229 ∷ 190 ∷ 133 ∷ 229 ∷ 164 ∷ 132 ∷ 231 ∷ 144 ∷ 134 ∷ 229 ∷ 174 ∷ 161 ∷ 230 ∷ 160 ∷ 184
    ∷ 229 ∷ 183 ∷ 178 ∷ 231 ∷ 148 ∷ 177 ∷ 231 ∷ 179 ∷ 187 ∷ 231 ∷ 187 ∷ 159 ∷ 232 ∷ 135 ∷ 170 ∷ 229
    ∷ 138 ∷ 168 ∷ 230 ∷ 139 ∷ 146 ∷ 231 ∷ 187 ∷ 157 ∷ 227 ∷ 128 ∷ 130 ∷ []

pub record ReviewerIdentity : Type 0 where
  pub auth_id : AuthId
  pub permissions : List Bytes

unfoldable pub has_permission : ReviewerIdentity → Bytes → Bool
has_permission identity permission =
    any (λ candidate. bytes_eq candidate permission) identity.permissions

pub record DecideCommand : Type 0 where
  pub outcome : Bytes
  pub expected_policy_version : Bytes
  pub confirmed_check_ids : List Bytes
  pub reason : Bytes

-- What the ports answer when they fail; `unexpected` is any other error.
pub data PortError : Type 0 where
  changed_policy not_found was_decided inconsistent has_conflict not_requestable : PortError
  catalog_unavailable not_reviewable inspection_failed unexpected : PortError

-- The parameters: whether the handler and each of its ports is there, what the services answer during the
-- request, and the repository, whose states are `S`.
pub record DecisionPorts (S : Type 0) : Type 0 where
  pub wired : Bool
  pub load_decision_candidate :
      Bytes → Bytes → Bytes → AuthId → S → Result PortError (Option DecisionCandidate)
  pub require_usable : Bytes → VersionSnapshot → Result PortError (Option VersionReviewPolicy)
  pub blocks_approval : AuthId → AuthId → Result PortError Bool
  pub resolve_auto_rejection : Result PortError AuthId
  pub validate_redirects : List Bytes → List Bytes → Result PortError (Unit {0})
  pub ensure_all_requestable : List Bytes → Result PortError ℤ
  pub inspect : Bytes → Result PortError Bytes
  pub now : Time
  pub decide :
      DecisionCandidate
      → AuthId
      → ApplicationReviewDecision
      → S
      → Result PortError (Option ApplicationReview) × S

-- `value, err := port(...)`, with the port's errors mapped.
abbrev pub mapped {ℓ} : {A : Type ℓ} → (PortError → Error) → Result PortError A → Result Error A
mapped f (ok a) = ok a
mapped f (err e) = err (f e)

-- A nil answer without an error.
abbrev pub present {ℓ} : {A : Type ℓ} → Error → Option A → Result Error A
present e none = err e
present e (some a) = ok a

abbrev pub map_decision_repository_error : PortError → Error
map_decision_repository_error changed_policy = policy_changed
map_decision_repository_error not_found = review_not_found
map_decision_repository_error was_decided = already_decided
map_decision_repository_error inconsistent = state_inconsistent
map_decision_repository_error has_conflict = conflict_of_interest
map_decision_repository_error _ = internal

abbrev policy_error : PortError → Error
policy_error changed_policy = policy_changed
policy_error _ = internal

abbrev redirect_error : PortError → Error
redirect_error not_reviewable = invalid_redirects
redirect_error _ = internal

abbrev scope_error : PortError → Error
scope_error not_requestable = invalid_scope
scope_error catalog_unavailable = scope_catalog_unavailable
scope_error _ = internal

abbrev launch_error : PortError → Error
launch_error not_reviewable = launch_url_not_reviewable
launch_error inspection_failed = inspection_unavailable
launch_error _ = internal

-- Any error of NewReviewCheckID reads as an incomplete confirmation.
abbrev checked : Result Error Bytes → Result Error Bytes
checked (ok id) = ok id
checked (err e) = err checks_incomplete

abbrev internal_error {ℓ} : {A : Type ℓ} → Result Error A → Result Error A
internal_error (ok a) = ok a
internal_error (err e) = err internal

-- The loop of parseConfirmedCheckIDs: whether each value is an id and was not seen before.
unfoldable pub parse_confirmed_check_ids : List Bytes → List Bytes → Result Error (Unit {0})
parse_confirmed_check_ids seen [] = ok tt
parse_confirmed_check_ids seen (value ∷ values) = do
  mapped_id ← checked (new_review_check_id value)
  reject (contains seen value) checks_incomplete
  parse_confirmed_check_ids (value ∷ seen) values

-- The reason and the checks of the command, before anything is read.
unfoldable pub check_command : ReviewDecision → DecideCommand → Result Error (Unit {0})
check_command rejected command = do
  reject (ltb 0 (length command.confirmed_check_ids)) invalid_checks
  validate_review_reason command.reason
check_command approved command =
    if is_empty command.reason then ok tt else validate_review_reason command.reason

-- A review as another path names it.
abbrev is_other : DecisionCandidate → Bytes → Bytes → Bytes → Bool
is_other c application_id version_id review_id =
    not (bytes_eq c.review.application_id application_id)
    || not (bytes_eq c.review.version_id version_id)
    || not (bytes_eq c.review.review_id review_id)

-- `clock.Now().UTC()`, refused when it is zero.
abbrev read_clock : Time → Result Error Time
read_clock now = do reject (is_zero (utc now)) internal; ok (utc now)

module _ {S : Type 0} (ports : DecisionPorts S) where
  -- The rejection that the reviewer asks for.
  unfoldable pub reviewer_rejection :
      DecisionCandidate → Bytes → Bytes → AuthId → Result Error ApplicationReviewDecision
  reviewer_rejection c policy reason reviewer = do
    at ← read_clock ports.now
    answer ← reject_review (some c.review) policy reason reviewer at
    ok answer.1

  -- The rejection in the name of the system.
  unfoldable pub system_rejection :
      DecisionCandidate → Bytes → Result Error ApplicationReviewDecision
  system_rejection c policy = do
    at ← read_clock ports.now
    system ← mapped (λ e. system_principal_unavailable) ports.resolve_auto_rejection
    reject (not (auth_id_is_valid system)) system_principal_unavailable
    answer ← reject_review (some c.review) policy system_reason system at
    ok answer.1

  -- The approval, after the external checks.
  unfoldable pub approval :
      DecisionCandidate
      → Bytes
      → List Bytes
      → Bytes
      → AuthId
      → Result Error ApplicationReviewDecision
  approval c policy checks reason reviewer = do
    mapped redirect_error (
        ports.validate_redirects c.review.snapshot.pkce_redirect_uris
          c.review.snapshot.confidential_redirect_uris)
    scopes ← mapped scope_error (ports.ensure_all_requestable (all_scopes c.review.snapshot))
    reject (ltb_ℤ scopes (pos 1)) internal
    preflight ← mapped launch_error (ports.inspect c.review.snapshot.launch_url)
    reject (not (policy_version_matches preflight)) internal
    validation ← internal_error (new_approval_validation scopes preflight)
    at ← read_clock ports.now
    answer ← approve (some c.review) policy checks reason (some validation) reviewer at
    ok answer.1

  -- What is decided on a candidate.
  unfoldable pub choose :
      ReviewDecision
      → DecisionCandidate
      → Bytes
      → VersionReviewPolicy
      → DecideCommand
      → AuthId
      → Result Error ApplicationReviewDecision
  unfolding reviewer_rejection system_rejection approval
  choose rejected c policy_version policy command reviewer =
      reviewer_rejection c policy_version command.reason reviewer
  choose approved c policy_version policy command reviewer = do
    checks ← validate_confirmation policy command.confirmed_check_ids
    suspended ←
        mapped (λ e. developer_status_unavailable)
          (ports.blocks_approval c.current_admin_id c.review.submitted_by)
    if suspended
        then system_rejection c policy_version
        else approval c policy_version checks command.reason reviewer

  -- Handle up to the candidate that may be decided.
  unfoldable pub admit :
      ReviewerIdentity
      → Bytes
      → Bytes
      → Bytes
      → DecideCommand
      → S
      → Result Error (DecisionCandidate × ReviewDecision × Bytes)
  unfolding has_permission check_command parse_confirmed_check_ids
  admit identity application_id version_id review_id command s = do
    reject (not (auth_id_is_valid identity.auth_id)) reviewer_identity_required
    reject (not (has_permission identity (codes "app.version.review"))) permission_required
    action ← new_review_action command.outcome
    policy_version ← new_review_policy_version command.expected_policy_version
    reject
        (not (is_uuid_v7 application_id)
          || not (is_uuid_v7 version_id)
          || not (is_uuid_v7 review_id))
        review_not_found
    check_command action command
    parse_confirmed_check_ids [] command.confirmed_check_ids
    reject (not ports.wired) internal
    found ←
        mapped map_decision_repository_error
          (ports.load_decision_candidate application_id version_id review_id identity.auth_id s)
    c ← present review_not_found found
    reject (is_other c application_id version_id review_id) review_not_found
    reject (reviewer_conflicts c identity.auth_id) conflict_of_interest
    ok (c, action, policy_version)

  -- The policy, and what is decided under it.
  unfoldable pub settle :
      DecisionCandidate
      → ReviewDecision
      → Bytes
      → DecideCommand
      → AuthId
      → Result Error ApplicationReviewDecision
  unfolding choose
  settle c action policy_version command reviewer = do
    answer ← mapped policy_error (ports.require_usable policy_version c.review.snapshot)
    policy ← present policy_changed answer
    reject (not (bytes_eq policy.version policy_version) || not (usable policy)) policy_changed
    choose action c policy_version policy command reviewer

  -- Handle up to the commit.
  unfoldable pub plan_decision :
      ReviewerIdentity
      → Bytes
      → Bytes
      → Bytes
      → DecideCommand
      → S
      → Result Error (DecisionCandidate × ApplicationReviewDecision)
  unfolding admit settle
  plan_decision identity application_id version_id review_id command s =
      elim (admit identity application_id version_id review_id command s) [
        | err e ↦ err e
        | ok (c, action, policy_version) ↦ do
          d ← settle c action policy_version command identity.auth_id
          ok (c, d)
      ]

  -- Handle: the decision, and the commit where there is one.
  unfoldable pub handle :
      ReviewerIdentity
      → Bytes
      → Bytes
      → Bytes
      → DecideCommand
      → S
      → Result Error ApplicationReview × S
  unfolding plan_decision
  handle identity application_id version_id review_id command s =
      elim (plan_decision identity application_id version_id review_id command s) [
        | err e ↦ (err e, s)
        | ok (c, d) ↦
            let done = ports.decide c identity.auth_id d s in
            (mapped map_decision_repository_error done.0 >>= present internal, done.1)
      ]
