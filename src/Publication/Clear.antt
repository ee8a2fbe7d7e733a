-- ===== src/Publication/Clear.antt =====
-- internal/publication/domain/test_clear.go and stable.go (StableClearCandidate): emptying the test
-- and the stable slot.
use iwut_app_center.Prelude.{
  ℤ, pos, ltb_ℤ, eqb_ℤ, max_int64, inc_int64, Bool, not, ◌||◌, Option, none, some, Bytes, is_some,
  is_none, Result, ok, err, ◌>>◌, reject, if◌then◌else◌,
}
use iwut_app_center.Shared.{Time, AuthId, is_zero, utc, auth_id_is_valid}
use iwut_app_center.Shared.Uuid.{is_uuid_v7}
use iwut_app_center.Publication.{
  Error, internal, invalid_application_publication_revision, application_publication_not_found,
  application_publication_revision_conflict, stable_publication_required_by_grey,
  ApplicationPublication, ApplicationPublicationHistory, PublicationAction, clear_test_version,
  clear_stable_version, PlaceInTestResult, new_no_op_result,
}

-- A candidate is the publication that was read.
unfoldable pub new_test_clear_candidate :
    Option ApplicationPublication → ℤ → Result Error ApplicationPublication
new_test_clear_candidate none expected = do
  reject (ltb_ℤ expected (pos 1)) invalid_application_publication_revision
  err application_publication_not_found
new_test_clear_candidate (some p) expected = do
  reject (ltb_ℤ expected (pos 1)) invalid_application_publication_revision
  reject (not (eqb_ℤ p.revision expected)) application_publication_revision_conflict
  ok p

unfoldable pub new_stable_clear_candidate :
    Option ApplicationPublication → ℤ → Result Error ApplicationPublication
new_stable_clear_candidate none expected = do
  reject (ltb_ℤ expected (pos 1)) invalid_application_publication_revision
  err application_publication_not_found
new_stable_clear_candidate (some p) expected = do
  reject (ltb_ℤ expected (pos 1)) invalid_application_publication_revision
  reject (is_some p.grey_rollout) stable_publication_required_by_grey
  reject (not (eqb_ℤ p.revision expected)) application_publication_revision_conflict
  ok p

-- The audit record of an emptied slot.
abbrev pub clear_history :
    PublicationAction
    → Bytes
    → AuthId
    → Time
    → ApplicationPublication
    → Option Bytes
    → ApplicationPublicationHistory
clear_history action history_id admin at p previous = record {
  history_id = history_id;
  publication_id = p.publication_id;
  application_id = p.application_id;
  rpc_api_major = p.rpc_api_major;
  publication_revision = p.revision;
  action = action;
  previous_version_id = previous;
  new_version_id = none;
  approved_review_id = none;
  validation = none;
  grey_rollout_id = none;
  previous_exposure = none;
  new_exposure = none;
  cohort_seed = none;
  changed_by = admin;
  changed_at = utc at;
}

-- The guard that the three clearing operations share.
abbrev pub is_unfit : ApplicationPublication → Bytes → AuthId → Time → Bool
is_unfit p history_id admin at =
    not (is_uuid_v7 history_id)
    || not (auth_id_is_valid admin)
    || is_zero at
    || eqb_ℤ p.revision max_int64

unfoldable pub clear_test :
    Option ApplicationPublication → Bytes → AuthId → Time → Result Error PlaceInTestResult
unfolding new_no_op_result
clear_test none history_id admin at = err internal
clear_test (some p) history_id admin at =
    if is_none p.test_version_id then new_no_op_result (some p) else do
      reject (is_unfit p history_id admin at) internal
      let next = record p {
        test_version_id = none;
        revision = inc_int64 p.revision;
        updated_by = admin;
        updated_at = utc at;
      }
      ok (record {
        publication = next;
        history =
            some (clear_history clear_test_version history_id admin at next p.test_version_id);
      })

unfoldable pub clear_stable :
    Option ApplicationPublication → Bytes → AuthId → Time → Result Error PlaceInTestResult
unfolding new_no_op_result
clear_stable none history_id admin at = err internal
clear_stable (some p) history_id admin at =
    if is_none p.stable_version_id then new_no_op_result (some p) else do
      reject (is_unfit p history_id admin at) internal
      let next = record p {
        stable_version_id = none;
        revision = inc_int64 p.revision;
        updated_by = admin;
        updated_at = utc at;
      }
      ok (record {
        publication = next;
        history =
            some (clear_history clear_stable_version history_id admin at next p.stable_version_id);
      })
