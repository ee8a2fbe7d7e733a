-- ===== src/Publication.antt =====
-- internal/publication/domain: the data of a publication (publication.go, grey.go, error.go), and
-- the one gate by which a stored publication is read back.
pub mod Snapshot
pub mod Place
pub mod Stable
pub mod Grey
pub mod Clear
pub mod Rollout
pub mod Classify
pub mod Cohort
pub mod Exposure
pub mod Slots
pub mod Candidates
pub mod Effects
pub mod Audit
pub mod Restorable
pub mod Stored
pub mod Conflict
mod Scenario
mod Tests
use iwut_app_center.Prelude.{
  ℤ, pos, ltb_ℤ, leb_ℤ, Bool, true, false, not, ◌&&◌, ◌||◌, Option, none, some, Bytes, is_some,
  is_none, Result, ok, err, ◌>>◌, ◌>>=◌, reject, if◌then◌else◌,
}
use iwut_app_center.Shared.{Time, AuthId, is_zero, utc, auth_id_is_valid}
use iwut_app_center.Shared.Uuid.{is_uuid_v7}
use iwut_app_center.Shared.PolicyVersion.{policy_version_matches}

-- The error codes of error.go.
pub data Error : Type 0 where
  developer_identity_required developer_approval_required invalid_rpc_api_major : Error
  invalid_application_id invalid_application_version_id : Error
  invalid_application_publication_revision invalid_grey_exposure_basis_points : Error
  application_version_not_found application_admin_required application_version_not_approved : Error
  application_review_state_inconsistent application_version_rpc_api_incompatible : Error
  application_publication_already_exists application_publication_not_found : Error
  application_publication_not_allowed application_publication_revision_conflict : Error
  invalid_application_scope scope_catalog_unavailable : Error
  application_launch_url_not_reviewable launch_url_inspection_unavailable : Error
  oauth_client_registration_required application_profile_required : Error
  application_profile_state_inconsistent stable_publication_required_by_grey : Error
  grey_stable_baseline_required application_publication_state_inconsistent internal : Error

pub record PublicationValidation : Type 0 where
  pub scope_catalog_revision : ℤ  -- int64
  pub preflight_policy_version : Bytes

unfoldable pub validation_is_valid : PublicationValidation → Bool
validation_is_valid v =
    ltb_ℤ (pos 0) v.scope_catalog_revision && policy_version_matches v.preflight_policy_version

-- `exposure.IsValid()` of ExposureBasisPoints, an int32.
unfoldable pub exposure_is_valid : ℤ → Bool
exposure_is_valid e = leb_ℤ (pos 1) e && leb_ℤ e (pos 10_000)

unfoldable pub new_exposure_basis_points : ℤ → Result Error ℤ
new_exposure_basis_points value =
    if ltb_ℤ value (pos 1) || ltb_ℤ (pos 10_000) value
    then err invalid_grey_exposure_basis_points
    else ok value

pub record GreyRollout : Type 0 where
  pub rollout_id : Bytes
  pub version_id : Bytes
  pub exposure_basis_points : ℤ  -- int32
  pub cohort_seed : Bytes  -- [32]byte

unfoldable pub restore_grey_rollout : Bytes → Bytes → ℤ → Bytes → Result Error GreyRollout
restore_grey_rollout id version_id exposure seed =
    if not (is_uuid_v7 id) || not (is_uuid_v7 version_id) || not (exposure_is_valid exposure)
    then err application_publication_state_inconsistent
    else ok (record {
      rollout_id = id;
      version_id = version_id;
      exposure_basis_points = exposure;
      cohort_seed = seed;
    })

-- The three slots and the audit fields; the copies that the source makes are the values.
pub record ApplicationPublication : Type 0 where
  pub publication_id : Bytes
  pub application_id : Bytes
  pub rpc_api_major : ℤ  -- int32
  pub test_version_id : Option Bytes
  pub stable_version_id : Option Bytes
  pub grey_rollout : Option GreyRollout
  pub revision : ℤ  -- int64
  pub created_by : AuthId
  pub created_at : Time
  pub updated_by : AuthId
  pub updated_at : Time

-- `id != nil && !id.IsValid()`.
abbrev pub is_malformed : Option Bytes → Bool
is_malformed none = false
is_malformed (some id) = not (is_uuid_v7 id)

-- RestoreApplicationPublicationSlotsWithGrey, on the fields of a record.
unfoldable pub restore_slots_with_grey :
    ApplicationPublication → Result Error ApplicationPublication
restore_slots_with_grey p = do
  reject
      (not (is_uuid_v7 p.publication_id)
        || not (is_uuid_v7 p.application_id)
        || ltb_ℤ p.rpc_api_major (pos 1)
        || ltb_ℤ p.revision (pos 1)
        || not (auth_id_is_valid p.created_by)
        || not (auth_id_is_valid p.updated_by)
        || is_zero p.created_at
        || is_zero p.updated_at
        || is_malformed p.test_version_id
        || is_malformed p.stable_version_id)
      internal
  reject (is_some p.grey_rollout && is_none p.stable_version_id)
      application_publication_state_inconsistent
  ok (record p { created_at = utc p.created_at; updated_at = utc p.updated_at })

pub data PublicationAction : Type 0 where
  -- the empty text, which a missing key of a map gives
  no_action : PublicationAction
  set_test_version clear_test_version set_stable_version clear_stable_version : PublicationAction
  set_grey_rollout increase_grey_exposure decrease_grey_exposure : PublicationAction
  replace_grey_version clear_grey_rollout : PublicationAction

pub record ApplicationPublicationHistory : Type 0 where
  pub history_id : Bytes
  pub publication_id : Bytes
  pub application_id : Bytes
  pub rpc_api_major : ℤ
  pub publication_revision : ℤ
  pub action : PublicationAction
  pub previous_version_id : Option Bytes
  pub new_version_id : Option Bytes
  pub approved_review_id : Option Bytes
  pub validation : Option PublicationValidation
  pub grey_rollout_id : Option Bytes
  pub previous_exposure : Option ℤ
  pub new_exposure : Option ℤ
  pub cohort_seed : Option Bytes
  pub changed_by : AuthId
  pub changed_at : Time

pub record PlaceInTestResult : Type 0 where
  pub publication : ApplicationPublication
  pub history : Option ApplicationPublicationHistory

unfoldable pub is_changed : PlaceInTestResult → Bool
is_changed r = is_some r.history

unfoldable pub new_no_op_result : Option ApplicationPublication → Result Error PlaceInTestResult
new_no_op_result none = err internal
new_no_op_result (some p) = ok (record { publication = p; history = none })
