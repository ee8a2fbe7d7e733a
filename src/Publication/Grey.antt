-- ===== src/Publication/Grey.antt =====
-- internal/publication/domain/grey.go: the classification of a change of the grey rollout, and the
-- operations that set and clear it.
use iwut_app_center.Prelude.{
  ℤ, pos, ltb_ℤ, eqb_ℤ, Bool, true, false, not, ◌||◌, Option, none, some, Bytes, bytes_eq, is_some,
  is_none, Result, ok, err, ◌>>=◌, ◌>>◌, reject, if◌then◌else◌,
}
use iwut_app_center.Shared.Uuid.{is_uuid_v7}
use iwut_app_center.Publication.{
  Error, internal, invalid_application_version_id, invalid_grey_exposure_basis_points,
  invalid_application_publication_revision, application_publication_not_found,
  application_publication_revision_conflict, application_publication_state_inconsistent,
  grey_stable_baseline_required, PublicationValidation, validation_is_valid, exposure_is_valid,
  GreyRollout, restore_grey_rollout, ApplicationPublication, PublicationAction, no_action,
  set_grey_rollout, increase_grey_exposure, decrease_grey_exposure, replace_grey_version,
}
use iwut_app_center.Publication.Place.{TestPlacementCandidate}

pub data GreyChangeKind : Type 0 where
  no_op start increase decrease replace : GreyChangeKind

-- What is left to compare once there is a rollout.
abbrev pub compare_rollout : GreyRollout → Bytes → ℤ → GreyChangeKind
compare_rollout current version exposure =
    if not (bytes_eq current.version_id version)
    then replace
    else if eqb_ℤ current.exposure_basis_points exposure
    then no_op
    else if ltb_ℤ current.exposure_basis_points exposure
    then increase
    else decrease

abbrev pub compare_slot : Option GreyRollout → Bytes → ℤ → GreyChangeKind
compare_slot none version exposure = start
compare_slot (some current) version exposure = compare_rollout current version exposure

-- The baseline that a rollout stands on.
abbrev pub require_baseline : ApplicationPublication → Result Error (Unit {0})
require_baseline p =
    if is_none p.stable_version_id
    then if is_some p.grey_rollout
      then err application_publication_state_inconsistent
      else err grey_stable_baseline_required
    else ok tt

abbrev classify_publication :
    Option ApplicationPublication → Bytes → ℤ → ℤ → Result Error GreyChangeKind
classify_publication none version exposure expected = err application_publication_not_found
classify_publication (some p) version exposure expected = do
  reject (not (eqb_ℤ p.revision expected)) application_publication_revision_conflict
  require_baseline p
  ok (compare_slot p.grey_rollout version exposure)

unfoldable pub classify_grey_change :
    Option ApplicationPublication → Bytes → ℤ → ℤ → Result Error GreyChangeKind
classify_grey_change publication version exposure expected = do
  reject (not (is_uuid_v7 version)) invalid_application_version_id
  reject (not (exposure_is_valid exposure)) invalid_grey_exposure_basis_points
  reject (ltb_ℤ expected (pos 1)) invalid_application_publication_revision
  classify_publication publication version exposure expected

pub record GreyPlacementCandidate : Type 0 where
  pub application_id : Bytes
  pub rpc_api_major : ℤ
  pub version_id : Bytes
  pub exposure : ℤ
  pub publication : Option ApplicationPublication
  pub expected_revision : ℤ
  pub change : GreyChangeKind
  pub approved : Option TestPlacementCandidate

abbrev grey_candidate_at :
    TestPlacementCandidate → ℤ → Option ℤ → Result Error GreyPlacementCandidate
grey_candidate_at approved exposure none = err internal
grey_candidate_at approved exposure (some expected) = do
  change ← classify_grey_change approved.publication approved.version_id exposure expected
  ok (record {
    application_id = approved.application_id;
    rpc_api_major = approved.rpc_api_major;
    version_id = approved.version_id;
    exposure = exposure;
    publication = approved.publication;
    expected_revision = expected;
    change = change;
    approved = some approved;
  })

unfoldable pub new_grey_placement_candidate :
    Option TestPlacementCandidate → ℤ → Result Error GreyPlacementCandidate
new_grey_placement_candidate none exposure = err internal
new_grey_placement_candidate (some approved) exposure =
    grey_candidate_at approved exposure approved.expected_publication_revision

abbrev pub is_reduction : GreyChangeKind → Bool
is_reduction no_op = true
is_reduction decrease = true
is_reduction _ = false

-- The candidate of a change that shows the version to no new user, which needs no approval.
unfoldable pub new_grey_reduction_candidate :
    Bytes → ℤ → Bytes → ℤ → Option ApplicationPublication → ℤ → Result Error GreyPlacementCandidate
new_grey_reduction_candidate app major version exposure none expected = err internal
new_grey_reduction_candidate app major version exposure (some p) expected = do
  reject
      (not (is_uuid_v7 app)
        || ltb_ℤ major (pos 1)
        || not (bytes_eq p.application_id app)
        || not (eqb_ℤ p.rpc_api_major major))
      internal
  change ← classify_grey_change (some p) version exposure expected
  reject (not (is_reduction change)) internal
  ok (record {
    application_id = app;
    rpc_api_major = major;
    version_id = version;
    exposure = exposure;
    publication = some p;
    expected_revision = expected;
    change = change;
    approved = none;
  })

abbrev is_no_op_kind : GreyChangeKind → Bool
is_no_op_kind no_op = true
is_no_op_kind _ = false

unfoldable pub is_grey_no_op : GreyPlacementCandidate → Bool
is_grey_no_op c = is_no_op_kind c.change

unfoldable pub requires_validation : GreyPlacementCandidate → Bool
requires_validation c = not (is_reduction c.change)

-- `validation == nil || !validation.Valid()`.
abbrev pub is_unvalidated : Option PublicationValidation → Bool
is_unvalidated none = true
is_unvalidated (some v) = not (validation_is_valid v)

-- The rollout that a START creates.
abbrev started_rollout : Option Bytes → Option Bytes → Bytes → ℤ → Result Error GreyRollout
started_rollout (some rollout_id) (some seed) version exposure = do
  reject (not (is_uuid_v7 rollout_id)) internal
  elim (restore_grey_rollout rollout_id version exposure seed) [
    | ok r ↦ ok r
    | err e ↦ err internal
  ]
started_rollout _ _ version exposure = err internal

-- The rollout that another change leaves: its identity and its seed stay.
abbrev continued_rollout :
    Option Bytes → Option Bytes → Option GreyRollout → Bytes → ℤ → Result Error GreyRollout
continued_rollout none none (some previous) version exposure =
    ok (record previous { version_id = version; exposure_basis_points = exposure })
continued_rollout _ _ _ version exposure = err internal

abbrev pub next_rollout :
    GreyChangeKind
    → Option Bytes
    → Option Bytes
    → Option GreyRollout
    → Bytes
    → ℤ
    → Result Error GreyRollout
next_rollout start rollout_id seed previous version exposure =
    started_rollout rollout_id seed version exposure
next_rollout _ rollout_id seed previous version exposure =
    continued_rollout rollout_id seed previous version exposure

abbrev pub action_of : GreyChangeKind → PublicationAction
action_of no_op = no_action
action_of start = set_grey_rollout
action_of increase = increase_grey_exposure
action_of decrease = decrease_grey_exposure
action_of replace = replace_grey_version

-- The approved review is recorded where a validation is; the constructors give such a candidate its
-- approved one.
abbrev pub review_of : GreyPlacementCandidate → Option TestPlacementCandidate → Option Bytes
review_of c none = none
review_of c (some a) = if requires_validation c then some a.review_id else none

abbrev pub start_seed : GreyChangeKind → Option Bytes → Option Bytes
start_seed start seed = seed
start_seed _ seed = none

abbrev pub rollout_version : Option GreyRollout → Option Bytes
rollout_version none = none
rollout_version (some r) = some r.version_id

abbrev pub rollout_exposure : Option GreyRollout → Option ℤ
rollout_exposure none = none
rollout_exposure (some r) = some r.exposure_basis_points
