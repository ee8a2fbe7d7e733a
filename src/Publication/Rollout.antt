-- ===== src/Publication/Rollout.antt =====
-- internal/publication/domain/grey.go (SetGrey, GreyClearCandidate): the operations on the grey slot.
use iwut_app_center.Prelude.{
  ℤ, pos, ltb_ℤ, eqb_ℤ, inc_int64, not, ◌&&◌, ◌||◌, Option, none, some, Bytes, is_some, Result, ok,
  err, ◌>>=◌, ◌>>◌, reject, if◌then◌else◌,
}
use iwut_app_center.Shared.{Time, AuthId, utc}
use iwut_app_center.Publication.{
  Error, internal, invalid_application_publication_revision, application_publication_not_found,
  application_publication_revision_conflict, PublicationValidation, GreyRollout,
  ApplicationPublication, ApplicationPublicationHistory, clear_grey_rollout, PlaceInTestResult,
  new_no_op_result,
}
use iwut_app_center.Publication.Clear.{is_unfit}
use iwut_app_center.Publication.Grey.{
  GreyPlacementCandidate, is_grey_no_op, requires_validation, is_unvalidated, next_rollout,
  action_of, review_of, start_seed, rollout_version, rollout_exposure, require_baseline,
}

-- The audit record of a change of the rollout.
abbrev grey_history :
    GreyPlacementCandidate
    → Option Bytes
    → Bytes
    → AuthId
    → Option PublicationValidation
    → Time
    → Option GreyRollout
    → GreyRollout
    → ApplicationPublication
    → ApplicationPublicationHistory
grey_history c seed history_id admin validation at previous rollout p = record {
  history_id = history_id;
  publication_id = p.publication_id;
  application_id = c.application_id;
  rpc_api_major = c.rpc_api_major;
  publication_revision = p.revision;
  action = action_of c.change;
  previous_version_id = rollout_version previous;
  new_version_id = some c.version_id;
  approved_review_id = review_of c c.approved;
  validation = if requires_validation c then validation else none;
  grey_rollout_id = some rollout.rollout_id;
  previous_exposure = rollout_exposure previous;
  new_exposure = some c.exposure;
  cohort_seed = start_seed c.change seed;
  changed_by = admin;
  changed_at = utc at;
}

unfoldable pub change_rollout :
    GreyPlacementCandidate
    → Option Bytes
    → Option Bytes
    → Bytes
    → AuthId
    → Option PublicationValidation
    → Time
    → ApplicationPublication
    → Result Error PlaceInTestResult
unfolding requires_validation
change_rollout c rollout_id seed history_id admin validation at p = do
  reject (is_unfit p history_id admin at) internal
  reject
      (requires_validation c && is_unvalidated validation
        || not (requires_validation c) && is_some validation)
      internal
  rollout ← next_rollout c.change rollout_id seed p.grey_rollout c.version_id c.exposure
  let next = record p {
    grey_rollout = some rollout;
    revision = inc_int64 p.revision;
    updated_by = admin;
    updated_at = utc at;
  }
  ok (record {
    publication = next;
    history = some (grey_history c seed history_id admin validation at p.grey_rollout rollout next);
  })

abbrev set_grey_on :
    Option ApplicationPublication
    → GreyPlacementCandidate
    → Option Bytes
    → Option Bytes
    → Bytes
    → AuthId
    → Option PublicationValidation
    → Time
    → Result Error PlaceInTestResult
set_grey_on none c rollout_id seed history_id admin validation at = err internal
set_grey_on (some p) c rollout_id seed history_id admin validation at =
    if is_grey_no_op c
    then new_no_op_result (some p)
    else change_rollout c rollout_id seed history_id admin validation at p

unfoldable pub set_grey :
    Option GreyPlacementCandidate
    → (rollout_id seed : Option Bytes) → (history_id : Bytes) → AuthId
    → Option PublicationValidation
    → Time
    → Result Error PlaceInTestResult
unfolding change_rollout is_grey_no_op new_no_op_result
set_grey none rollout_id seed history_id admin validation at = err internal
set_grey (some c) rollout_id seed history_id admin validation at =
    set_grey_on c.publication c rollout_id seed history_id admin validation at

unfoldable pub new_grey_clear_candidate :
    Option ApplicationPublication → ℤ → Result Error ApplicationPublication
new_grey_clear_candidate none expected = do
  reject (ltb_ℤ expected (pos 1)) invalid_application_publication_revision
  err application_publication_not_found
new_grey_clear_candidate (some p) expected = do
  reject (ltb_ℤ expected (pos 1)) invalid_application_publication_revision
  reject (not (eqb_ℤ p.revision expected)) application_publication_revision_conflict
  require_baseline p
  ok p

abbrev grey_clear_history :
    Bytes → AuthId → Time → GreyRollout → ApplicationPublication → ApplicationPublicationHistory
grey_clear_history history_id admin at previous p = record {
  history_id = history_id;
  publication_id = p.publication_id;
  application_id = p.application_id;
  rpc_api_major = p.rpc_api_major;
  publication_revision = p.revision;
  action = clear_grey_rollout;
  previous_version_id = some previous.version_id;
  new_version_id = none;
  approved_review_id = none;
  validation = none;
  grey_rollout_id = some previous.rollout_id;
  previous_exposure = some previous.exposure_basis_points;
  new_exposure = none;
  cohort_seed = none;
  changed_by = admin;
  changed_at = utc at;
}

abbrev clear_rollout :
    Option GreyRollout
    → ApplicationPublication
    → Bytes
    → AuthId
    → Time
    → Result Error PlaceInTestResult
clear_rollout none p history_id admin at = new_no_op_result (some p)
clear_rollout (some previous) p history_id admin at = do
  reject (is_unfit p history_id admin at) internal
  let next = record p {
    grey_rollout = none;
    revision = inc_int64 p.revision;
    updated_by = admin;
    updated_at = utc at;
  }
  ok (record {
    publication = next;
    history = some (grey_clear_history history_id admin at previous next);
  })

unfoldable pub clear_grey :
    Option ApplicationPublication → Bytes → AuthId → Time → Result Error PlaceInTestResult
unfolding new_no_op_result
clear_grey none history_id admin at = err internal
clear_grey (some p) history_id admin at = clear_rollout p.grey_rollout p history_id admin at
