-- ===== src/Publication/Stable.antt =====
-- internal/publication/domain/stable.go (StablePlacementCandidate, SetStable): putting an approved
-- version into the stable slot. The candidate is a TestPlacementCandidate by another name.
use iwut_app_center.Prelude.{
  ℤ, pos, eqb_ℤ, max_int64, inc_int64, Bool, false, not, ◌||◌, Option, none, some, Bytes, is_some,
  Result, ok, err, ◌>>=◌, ◌>>◌, reject, if◌then◌else◌,
}
use iwut_app_center.Shared.{Time, AuthId, is_zero, utc, auth_id_is_valid}
use iwut_app_center.Shared.Uuid.{is_uuid_v7}
use iwut_app_center.Publication.{
  Error, internal, ApplicationPublication, PublicationValidation, validation_is_valid,
  set_stable_version, PlaceInTestResult, new_no_op_result,
}
use iwut_app_center.Publication.Snapshot.{ReviewSnapshot}
use iwut_app_center.Publication.Place.{
  TestPlacementCandidate, new_test_placement_candidate, holds_version, is_missing_id, id_or_empty,
  placement_history,
}

abbrev pub StablePlacementCandidate : Type 0
StablePlacementCandidate = TestPlacementCandidate

unfoldable pub new_stable_placement_candidate :
    Bytes
    → ℤ
    → Bytes
    → Bytes
    → ℤ
    → ReviewSnapshot
    → Option ApplicationPublication
    → Option ℤ
    → Result Error StablePlacementCandidate
unfolding new_test_placement_candidate
new_stable_placement_candidate app major version review version_revision snapshot publication
      expected =
    do
      candidate ←
          new_test_placement_candidate app major version review version_revision snapshot
            publication expected
      ok candidate

abbrev stable_slot_holds : Option ApplicationPublication → Bytes → Bool
stable_slot_holds none version = false
stable_slot_holds (some p) version = holds_version p.stable_version_id version

unfoldable pub is_stable_no_op : StablePlacementCandidate → Bool
is_stable_no_op c = stable_slot_holds c.publication c.version_id

-- The publication with the version in its stable slot, and what the slot held before.
unfoldable pub put_in_stable :
    StablePlacementCandidate
    → Option Bytes
    → AuthId
    → Time
    → Option ApplicationPublication
    → Result Error (ApplicationPublication × Option Bytes)
put_in_stable c publication_id admin at none =
    if is_missing_id publication_id
    then err internal
    else ok (
      record {
        publication_id = id_or_empty publication_id;
        application_id = c.application_id;
        rpc_api_major = c.rpc_api_major;
        test_version_id = none;
        stable_version_id = some c.version_id;
        grey_rollout = none;
        revision = pos 1;
        created_by = admin;
        created_at = utc at;
        updated_by = admin;
        updated_at = utc at;
      },
      none,
    )
put_in_stable c publication_id admin at (some p) =
    if is_some publication_id || eqb_ℤ p.revision max_int64
    then err internal
    else ok (
      record p {
        stable_version_id = some c.version_id;
        revision = inc_int64 p.revision;
        updated_by = admin;
        updated_at = utc at;
      },
      p.stable_version_id,
    )

unfoldable pub set_stable :
    Option StablePlacementCandidate
    → (publication_id : Option Bytes) → (history_id : Bytes) → AuthId
    → PublicationValidation
    → Time
    → Result Error PlaceInTestResult
unfolding put_in_stable is_stable_no_op new_no_op_result
set_stable none publication_id history_id admin validation at = err internal
set_stable (some c) publication_id history_id admin validation at =
    if is_stable_no_op c then new_no_op_result c.publication else do
      reject
          (not (is_uuid_v7 history_id)
            || not (auth_id_is_valid admin)
            || not (validation_is_valid validation)
            || is_zero at)
          internal
      (p, previous) ← put_in_stable c publication_id admin at c.publication
      ok (record {
        publication = p;
        history =
            some (placement_history set_stable_version c history_id admin validation at p previous);
      })
