-- ===== src/Publication/Place.antt =====
-- internal/publication/domain/publication.go (TestPlacementCandidate, PlaceInTest): putting an
-- approved version into the test slot.
use iwut_app_center.Prelude.{
  ℤ, pos, ltb_ℤ, leb_ℤ, eqb_ℤ, max_int64, inc_int64, Bool, true, false, not, ◌&&◌, ◌||◌, Option,
  none, some, [], Bytes, bytes_eq, is_empty, is_some, is_none, Result, ok, err, ◌>>=◌, ◌>>◌, reject,
  if◌then◌else◌,
}
use iwut_app_center.Shared.{Time, AuthId, is_zero, utc, auth_id_is_valid}
use iwut_app_center.Shared.Uuid.{is_uuid_v7}
use iwut_app_center.Publication.{
  Error, internal, application_version_rpc_api_incompatible,
  invalid_application_publication_revision, application_publication_already_exists,
  application_publication_not_found, application_publication_revision_conflict,
  ApplicationPublication, PublicationValidation, validation_is_valid, ApplicationPublicationHistory,
  PublicationAction, set_test_version, PlaceInTestResult, new_no_op_result,
}
use iwut_app_center.Publication.Snapshot.{ReviewSnapshot}

pub record TestPlacementCandidate : Type 0 where
  pub application_id : Bytes
  pub rpc_api_major : ℤ
  pub version_id : Bytes
  pub review_id : Bytes
  pub version_revision : ℤ
  pub snapshot : ReviewSnapshot
  pub publication : Option ApplicationPublication
  pub expected_publication_revision : Option ℤ

-- The tests on the two pointers; a revision is compared only where both are there.
abbrev pub is_below_one : Option ℤ → Bool
is_below_one none = false
is_below_one (some r) = ltb_ℤ r (pos 1)

abbrev pub is_elsewhere : Bytes → ℤ → Option ApplicationPublication → Bool
is_elsewhere app major none = false
is_elsewhere app major (some p) =
    not (bytes_eq p.application_id app) || not (eqb_ℤ p.rpc_api_major major)

abbrev pub is_at_other_revision : Option ApplicationPublication → Option ℤ → Bool
is_at_other_revision (some p) (some r) = not (eqb_ℤ p.revision r)
is_at_other_revision _ _ = false

unfoldable pub new_test_placement_candidate :
    Bytes
    → ℤ
    → Bytes
    → Bytes
    → ℤ
    → ReviewSnapshot
    → Option ApplicationPublication
    → Option ℤ
    → Result Error TestPlacementCandidate
new_test_placement_candidate app major version review version_revision snapshot publication
      expected =
    do
      reject
          (not (is_uuid_v7 app)
            || ltb_ℤ major (pos 1)
            || not (is_uuid_v7 version)
            || not (is_uuid_v7 review)
            || ltb_ℤ version_revision (pos 3)
            || is_empty snapshot.launch_url)
          internal
      reject
          (ltb_ℤ major snapshot.rpc_api_min_version
            || leb_ℤ snapshot.rpc_api_max_version_exclusive major)
          application_version_rpc_api_incompatible
      reject (is_below_one expected) invalid_application_publication_revision
      reject (is_elsewhere app major publication) internal
      reject (is_none expected && is_some publication) application_publication_already_exists
      reject (is_some expected && is_none publication) application_publication_not_found
      reject (is_at_other_revision publication expected) application_publication_revision_conflict
      ok (record {
        application_id = app;
        rpc_api_major = major;
        version_id = version;
        review_id = review;
        version_revision = version_revision;
        snapshot = snapshot;
        publication = publication;
        expected_publication_revision = expected;
      })

-- `slot != nil && *slot == version`.
abbrev pub holds_version : Option Bytes → Bytes → Bool
holds_version none version = false
holds_version (some v) version = bytes_eq v version

abbrev test_slot_holds : Option ApplicationPublication → Bytes → Bool
test_slot_holds none version = false
test_slot_holds (some p) version = holds_version p.test_version_id version

unfoldable pub is_test_no_op : TestPlacementCandidate → Bool
is_test_no_op c = test_slot_holds c.publication c.version_id

-- `id == nil || !id.IsValid()`.
abbrev pub is_missing_id : Option Bytes → Bool
is_missing_id none = true
is_missing_id (some id) = not (is_uuid_v7 id)

abbrev pub id_or_empty : Option Bytes → Bytes
id_or_empty none = []
id_or_empty (some id) = id

-- The publication with the version in its test slot, and what the slot held before: a first
-- publication, or the next revision of the one that is there.
unfoldable pub put_in_test :
    TestPlacementCandidate
    → Option Bytes
    → AuthId
    → Time
    → Option ApplicationPublication
    → Result Error (ApplicationPublication × Option Bytes)
put_in_test c publication_id admin at none =
    if is_missing_id publication_id
    then err internal
    else ok (
      record {
        publication_id = id_or_empty publication_id;
        application_id = c.application_id;
        rpc_api_major = c.rpc_api_major;
        test_version_id = some c.version_id;
        stable_version_id = none;
        grey_rollout = none;
        revision = pos 1;
        created_by = admin;
        created_at = utc at;
        updated_by = admin;
        updated_at = utc at;
      },
      none,
    )
put_in_test c publication_id admin at (some p) =
    if is_some publication_id || eqb_ℤ p.revision max_int64
    then err internal
    else ok (
      record p {
        test_version_id = some c.version_id;
        revision = inc_int64 p.revision;
        updated_by = admin;
        updated_at = utc at;
      },
      p.test_version_id,
    )

-- The audit record of a placement into a slot.
abbrev pub placement_history :
    PublicationAction
    → TestPlacementCandidate
    → Bytes
    → AuthId
    → PublicationValidation
    → Time
    → ApplicationPublication
    → Option Bytes
    → ApplicationPublicationHistory
placement_history action c history_id admin validation at p previous = record {
  history_id = history_id;
  publication_id = p.publication_id;
  application_id = c.application_id;
  rpc_api_major = c.rpc_api_major;
  publication_revision = p.revision;
  action = action;
  previous_version_id = previous;
  new_version_id = some c.version_id;
  approved_review_id = some c.review_id;
  validation = some validation;
  grey_rollout_id = none;
  previous_exposure = none;
  new_exposure = none;
  cohort_seed = none;
  changed_by = admin;
  changed_at = utc at;
}

unfoldable pub place_in_test :
    Option TestPlacementCandidate
    → (publication_id : Option Bytes) → (history_id : Bytes) → AuthId
    → PublicationValidation
    → Time
    → Result Error PlaceInTestResult
unfolding put_in_test is_test_no_op new_no_op_result
place_in_test none publication_id history_id admin validation at = err internal
place_in_test (some c) publication_id history_id admin validation at =
    if is_test_no_op c then new_no_op_result c.publication else do
      reject
          (not (is_uuid_v7 history_id)
            || not (auth_id_is_valid admin)
            || not (validation_is_valid validation)
            || is_zero at)
          internal
      (p, previous) ← put_in_test c publication_id admin at c.publication
      ok (record {
        publication = p;
        history =
            some (placement_history set_test_version c history_id admin validation at p previous);
      })
