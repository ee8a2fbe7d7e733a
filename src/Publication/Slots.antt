-- ===== src/Publication/Slots.antt =====
-- What a publication is to its readers: the content of the three slots. A command is any of the six
-- operations, run on the candidate that its own constructor has accepted.
use iwut_app_center.Prelude.{ℤ, Option, none, some, Bytes, ◌≡◌, ok}
use iwut_app_center.Shared.{Time, AuthId}
use iwut_app_center.Publication.{
  PublicationValidation, GreyRollout, ApplicationPublication, ApplicationPublicationHistory,
  PublicationAction, no_action, set_test_version, clear_test_version, set_stable_version,
  clear_stable_version, set_grey_rollout, increase_grey_exposure, decrease_grey_exposure,
  replace_grey_version, clear_grey_rollout, PlaceInTestResult,
}
use iwut_app_center.Publication.Snapshot.{ReviewSnapshot}
use iwut_app_center.Publication.Place.{
  TestPlacementCandidate, new_test_placement_candidate, place_in_test,
}
use iwut_app_center.Publication.Stable.{new_stable_placement_candidate, set_stable}
use iwut_app_center.Publication.Clear.{
  new_test_clear_candidate, clear_test, new_stable_clear_candidate, clear_stable,
}
use iwut_app_center.Publication.Grey.{
  GreyPlacementCandidate, new_grey_placement_candidate, new_grey_reduction_candidate,
}
use iwut_app_center.Publication.Rollout.{set_grey, new_grey_clear_candidate, clear_grey}

pub record Slots : Type 0 where
  pub test : Option Bytes
  pub stable : Option Bytes
  pub grey : Option GreyRollout

-- An absent publication has three empty slots.
abbrev pub slots_of : Option ApplicationPublication → Slots
slots_of none = record { test = none; stable = none; grey = none }
slots_of (some p) = record {
  test = p.test_version_id;
  stable = p.stable_version_id;
  grey = p.grey_rollout;
}

abbrev seed_of : Option GreyRollout → Option Bytes
seed_of none = none
seed_of (some r) = some r.cohort_seed

abbrev rollout_from : Option Bytes → Option Bytes → Option ℤ → Option Bytes → Option GreyRollout
rollout_from (some id) (some version) (some exposure) (some seed) = some (record {
  rollout_id = id;
  version_id = version;
  exposure_basis_points = exposure;
  cohort_seed = seed;
})
rollout_from _ _ _ _ = none

-- What one audit record does to the slots, read from the record alone.
abbrev replay_action : PublicationAction → ApplicationPublicationHistory → Slots → Slots
replay_action no_action h s = s
replay_action set_test_version h s = record s { test = h.new_version_id }
replay_action clear_test_version h s = record s { test = none }
replay_action set_stable_version h s = record s { stable = h.new_version_id }
replay_action clear_stable_version h s = record s { stable = none }
replay_action set_grey_rollout h s = record s {
  grey = rollout_from h.grey_rollout_id h.new_version_id h.new_exposure h.cohort_seed;
}
replay_action increase_grey_exposure h s = record s {
  grey = rollout_from h.grey_rollout_id h.new_version_id h.new_exposure (seed_of s.grey);
}
replay_action decrease_grey_exposure h s = record s {
  grey = rollout_from h.grey_rollout_id h.new_version_id h.new_exposure (seed_of s.grey);
}
replay_action replace_grey_version h s = record s {
  grey = rollout_from h.grey_rollout_id h.new_version_id h.new_exposure (seed_of s.grey);
}
replay_action clear_grey_rollout h s = record s { grey = none }

unfoldable pub replay : ApplicationPublicationHistory → Slots → Slots
replay h s = replay_action h.action h s

-- A command on `before` that expected `expected` and returned `r`.
pub data Command (before : Option ApplicationPublication) (expected : Option ℤ)
    (r : PlaceInTestResult) : Type 0 where
  test_placed :
      (app : Bytes) (major : ℤ) (version review : Bytes) (version_revision : ℤ)
      (snapshot : ReviewSnapshot) (c : TestPlacementCandidate) (publication_id : Option Bytes)
      (history_id : Bytes) (admin : AuthId) (validation : PublicationValidation) (at : Time)
      → new_test_placement_candidate app major version review version_revision snapshot before
          expected
        ≡ ok c
      → place_in_test (some c) publication_id history_id admin validation at ≡ ok r
      → Command before expected r
  stable_set :
      (app : Bytes) (major : ℤ) (version review : Bytes) (version_revision : ℤ)
      (snapshot : ReviewSnapshot) (c : TestPlacementCandidate) (publication_id : Option Bytes)
      (history_id : Bytes) (admin : AuthId) (validation : PublicationValidation) (at : Time)
      → new_stable_placement_candidate app major version review version_revision snapshot before
          expected
        ≡ ok c
      → set_stable (some c) publication_id history_id admin validation at ≡ ok r
      → Command before expected r
  grey_placed :
      (app : Bytes) (major : ℤ) (version review : Bytes) (version_revision : ℤ)
      (snapshot : ReviewSnapshot) (approved : TestPlacementCandidate) (exposure : ℤ)
      (c : GreyPlacementCandidate) (rollout_id seed : Option Bytes) (history_id : Bytes)
      (admin : AuthId) (validation : Option PublicationValidation) (at : Time)
      → new_test_placement_candidate app major version review version_revision snapshot before
          expected
        ≡ ok approved
      → new_grey_placement_candidate (some approved) exposure ≡ ok c
      → set_grey (some c) rollout_id seed history_id admin validation at ≡ ok r
      → Command before expected r
  grey_reduced :
      (app : Bytes) (major : ℤ) (version : Bytes) (exposure expected_revision : ℤ)
      (c : GreyPlacementCandidate) (rollout_id seed : Option Bytes) (history_id : Bytes)
      (admin : AuthId) (validation : Option PublicationValidation) (at : Time)
      → expected ≡ some expected_revision
      → new_grey_reduction_candidate app major version exposure before expected_revision ≡ ok c
      → set_grey (some c) rollout_id seed history_id admin validation at ≡ ok r
      → Command before expected r
  test_cleared :
      (expected_revision : ℤ) (c : ApplicationPublication) (history_id : Bytes) (admin : AuthId)
      (at : Time)
      → expected ≡ some expected_revision
      → new_test_clear_candidate before expected_revision ≡ ok c
      → clear_test (some c) history_id admin at ≡ ok r
      → Command before expected r
  stable_cleared :
      (expected_revision : ℤ) (c : ApplicationPublication) (history_id : Bytes) (admin : AuthId)
      (at : Time)
      → expected ≡ some expected_revision
      → new_stable_clear_candidate before expected_revision ≡ ok c
      → clear_stable (some c) history_id admin at ≡ ok r
      → Command before expected r
  grey_cleared :
      (expected_revision : ℤ) (c : ApplicationPublication) (history_id : Bytes) (admin : AuthId)
      (at : Time)
      → expected ≡ some expected_revision
      → new_grey_clear_candidate before expected_revision ≡ ok c
      → clear_grey (some c) history_id admin at ≡ ok r
      → Command before expected r
