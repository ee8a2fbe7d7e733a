-- ===== src/Publication/Restorable.antt =====
-- The store: what a command returns is what RestoreApplicationPublicationSlotsWithGrey reads back.
use iwut_app_center.Prelude.{
  ℤ, pos, ◌≤ℤ◌, inc_int64, true, false, ◌&&◌, Option, none, some, Bytes, is_some, is_none, ◌≡◌, ok,
  arith,
}
use iwut_app_center.Shared.{Time, AuthId, is_zero, auth_id_is_valid}
use iwut_app_center.Shared.Uuid.{is_uuid_v7}
use iwut_app_center.Publication.{
  GreyRollout, restore_grey_rollout, restore_slots_with_grey, exposure_is_valid, is_malformed,
  PublicationValidation, ApplicationPublication, PlaceInTestResult,
}
use iwut_app_center.Publication.Snapshot.{ReviewSnapshot}
use iwut_app_center.Publication.Place.{
  TestPlacementCandidate, new_test_placement_candidate, place_in_test,
}
use iwut_app_center.Publication.Stable.{new_stable_placement_candidate, set_stable}
use iwut_app_center.Publication.Clear.{new_stable_clear_candidate, clear_test, clear_stable}
use iwut_app_center.Publication.Rollout.{set_grey, clear_grey}
use iwut_app_center.Publication.Grey.{
  GreyPlacementCandidate, classify_grey_change, new_grey_placement_candidate,
  new_grey_reduction_candidate,
}

abbrev pub IsStoredRollout : Option GreyRollout → Type 0
IsStoredRollout none = Unit
IsStoredRollout (some g) =
    (is_uuid_v7 g.rollout_id ≡ true)
    × (is_uuid_v7 g.version_id ≡ true)
    × (exposure_is_valid g.exposure_basis_points ≡ true)

-- What the two gates ask, written out; times are stored in UTC.
pub record IsStored (p : ApplicationPublication) : Type 0 where
  pub publication_valid : is_uuid_v7 p.publication_id ≡ true
  pub application_valid : is_uuid_v7 p.application_id ≡ true
  pub major_positive : pos 1 ≤ℤ p.rpc_api_major
  pub revision_positive : pos 1 ≤ℤ p.revision
  pub creator_valid : auth_id_is_valid p.created_by ≡ true
  pub updater_valid : auth_id_is_valid p.updated_by ≡ true
  pub created : is_zero p.created_at ≡ false
  pub updated : is_zero p.updated_at ≡ false
  pub created_utc : p.created_at.in_utc ≡ true
  pub updated_utc : p.updated_at.in_utc ≡ true
  pub test_valid : is_malformed p.test_version_id ≡ false
  pub stable_valid : is_malformed p.stable_version_id ≡ false
  pub grey_on_stable : (is_some p.grey_rollout && is_none p.stable_version_id) ≡ false
  pub grey_valid : IsStoredRollout p.grey_rollout

-- A rollout that RestoreGreyRollout reads back as it is.
abbrev pub IsRestorableRollout : Option GreyRollout → Type 0
IsRestorableRollout none = Unit
IsRestorableRollout (some g) =
    restore_grey_rollout g.rollout_id g.version_id g.exposure_basis_points g.cohort_seed ≡ ok g

-- A stored publication, if there is one, is read back as it is, and so is its rollout.
abbrev pub IsRestorable : Option ApplicationPublication → Type 0
IsRestorable none = Unit
IsRestorable (some p) = (restore_slots_with_grey p ≡ ok p) × IsRestorableRollout p.grey_rollout

pub IsStored-of_restore : (p : ApplicationPublication) → IsRestorable (some p) → IsStored p
unfolding restore_slots_with_grey restore_grey_rollout
IsStored-of_restore p h = ground arith

pub restore_of_IsStored : (p : ApplicationPublication) → IsStored p → IsRestorable (some p)
unfolding restore_slots_with_grey restore_grey_rollout
restore_of_IsStored p h = ground arith

abbrev pub IsStoredAt : Option ApplicationPublication → Type 0
IsStoredAt none = Unit
IsStoredAt (some p) = IsStored p

-- What a placement candidate adds to what was stored.
abbrev pub IsPlaceable : TestPlacementCandidate → Type 0
IsPlaceable c =
    (is_uuid_v7 c.application_id ≡ true)
    × (is_uuid_v7 c.version_id ≡ true)
    × (pos 1 ≤ℤ c.rpc_api_major)

abbrev pub HasBaseline : Option ApplicationPublication → Type 0
HasBaseline none = Unit
HasBaseline (some p) = is_some p.stable_version_id ≡ true

abbrev pub IsGreyPlaceable : GreyPlacementCandidate → Type 0
IsGreyPlaceable c =
    (is_uuid_v7 c.version_id ≡ true)
    × (exposure_is_valid c.exposure ≡ true)
    × HasBaseline c.publication

module _ (app : Bytes) (major : ℤ) (version review : Bytes) (version_revision : ℤ)
    (snapshot : ReviewSnapshot) (before : Option ApplicationPublication) (expected : Option ℤ)
    (c : TestPlacementCandidate) where
  pub new_test_placement_candidate-IsPlaceable :
      new_test_placement_candidate app major version review version_revision snapshot before
          expected
        ≡ ok c
      → IsPlaceable c
  unfolding new_test_placement_candidate
  new_test_placement_candidate-IsPlaceable h = ground arith

  pub new_stable_placement_candidate-IsPlaceable :
      new_stable_placement_candidate app major version review version_revision snapshot before
          expected
        ≡ ok c
      → IsPlaceable c
  unfolding new_stable_placement_candidate
  new_stable_placement_candidate-IsPlaceable h = ground arith

pub new_grey_placement_candidate-IsGreyPlaceable :
    (approved : TestPlacementCandidate) (exposure : ℤ) (c : GreyPlacementCandidate)
    → new_grey_placement_candidate (some approved) exposure ≡ ok c
    → IsGreyPlaceable c
unfolding new_grey_placement_candidate classify_grey_change
new_grey_placement_candidate-IsGreyPlaceable approved exposure c h = ground arith

pub new_grey_reduction_candidate-IsGreyPlaceable :
    (app : Bytes) (major : ℤ) (version : Bytes) (exposure : ℤ)
    (before : Option ApplicationPublication) (expected : ℤ) (c : GreyPlacementCandidate)
    → new_grey_reduction_candidate app major version exposure before expected ≡ ok c
    → IsGreyPlaceable c
unfolding new_grey_reduction_candidate classify_grey_change
new_grey_reduction_candidate-IsGreyPlaceable app major version exposure before expected c h =
    ground arith

pub new_stable_clear_candidate-grey :
    (before : Option ApplicationPublication) (expected : ℤ) (p : ApplicationPublication)
    → new_stable_clear_candidate before expected ≡ ok p
    → is_some p.grey_rollout ≡ false
unfolding new_stable_clear_candidate
new_stable_clear_candidate-grey before expected p h = ground arith

module _ (history_id : Bytes) (admin : AuthId) (at : Time) (r : PlaceInTestResult) where
  pub place_in_test-IsStored :
      (c : TestPlacementCandidate) (publication_id : Option Bytes) (v : PublicationValidation)
      → place_in_test (some c) publication_id history_id admin v at ≡ ok r
      → IsPlaceable c
      → IsStoredAt c.publication
      → IsStored r.publication
  unfolding place_in_test inc_int64
  place_in_test-IsStored c publication_id v e k h = ground arith

  pub set_stable-IsStored :
      (c : TestPlacementCandidate) (publication_id : Option Bytes) (v : PublicationValidation)
      → set_stable (some c) publication_id history_id admin v at ≡ ok r
      → IsPlaceable c
      → IsStoredAt c.publication
      → IsStored r.publication
  unfolding set_stable inc_int64
  set_stable-IsStored c publication_id v e k h = ground arith

  pub set_grey-IsStored :
      (c : GreyPlacementCandidate) (rollout_id seed : Option Bytes)
      (v : Option PublicationValidation)
      → set_grey (some c) rollout_id seed history_id admin v at ≡ ok r
      → IsGreyPlaceable c
      → IsStoredAt c.publication
      → IsStored r.publication
  unfolding set_grey restore_grey_rollout inc_int64
  set_grey-IsStored c rollout_id seed v e k h = ground arith

  pub clear_test-IsStored :
      (p : ApplicationPublication)
      → clear_test (some p) history_id admin at ≡ ok r
      → IsStored p
      → IsStored r.publication
  unfolding clear_test inc_int64
  clear_test-IsStored p e h = ground arith

  pub clear_stable-IsStored :
      (p : ApplicationPublication)
      → clear_stable (some p) history_id admin at ≡ ok r
      → is_some p.grey_rollout ≡ false
      → IsStored p
      → IsStored r.publication
  unfolding clear_stable inc_int64
  clear_stable-IsStored p e k h = ground arith

  pub clear_grey-IsStored :
      (p : ApplicationPublication)
      → clear_grey (some p) history_id admin at ≡ ok r
      → IsStored p
      → IsStored r.publication
  unfolding clear_grey inc_int64
  clear_grey-IsStored p e h = ground arith
