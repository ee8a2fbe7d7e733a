-- ===== src/Publication/Scenario.antt =====
-- A publication's life on concrete input: placed in test, made stable, rolled out, reduced, enlarged.
use iwut_app_center.Prelude.{
  ℕ, ℤ, pos, true, Option, none, some, [], ◌∷◌, Bytes, bytes_eq, inc_int64, codes, ok, ◌≡◌, refl,
}
use iwut_app_center.Shared.{Time, AuthId, auth_id_is_valid}
use iwut_app_center.Shared.Uuid.{is_uuid_v7}
use iwut_app_center.Shared.PolicyVersion.{policy_version_matches}
use iwut_app_center.Publication.{
  PublicationValidation, validation_is_valid, exposure_is_valid, GreyRollout, restore_grey_rollout,
  ApplicationPublication, restore_slots_with_grey, ApplicationPublicationHistory, set_test_version,
  set_stable_version, set_grey_rollout, increase_grey_exposure, decrease_grey_exposure,
  PlaceInTestResult,
}
use iwut_app_center.Publication.Snapshot.{ReviewSnapshot}
use iwut_app_center.Publication.Place.{
  TestPlacementCandidate, new_test_placement_candidate, place_in_test,
}
use iwut_app_center.Publication.Stable.{new_stable_placement_candidate, set_stable}
use iwut_app_center.Publication.Clear.{new_test_clear_candidate, clear_test}
use iwut_app_center.Publication.Grey.{
  GreyPlacementCandidate, start, increase, decrease, classify_grey_change,
  new_grey_placement_candidate, new_grey_reduction_candidate,
}
use iwut_app_center.Publication.Rollout.{set_grey}
use iwut_app_center.Publication.Slots.{Command, test_placed, stable_set, grey_placed, grey_reduced}

unfoldable pub tests : Unit {0}
unfolding bytes_eq inc_int64 is_uuid_v7 auth_id_is_valid validation_is_valid exposure_is_valid
    restore_grey_rollout restore_slots_with_grey new_test_placement_candidate place_in_test
    new_stable_placement_candidate set_stable new_test_clear_candidate clear_test
    classify_grey_change new_grey_placement_candidate new_grey_reduction_candidate set_grey
    policy_version_matches
tests = tt

abbrev pub app : Bytes
app = codes "01890a5d-ac96-774b-bcce-b302099a8057"

abbrev pub v1 : Bytes
v1 = codes "01890a5d-ac96-774b-8cce-b302099a8001"

abbrev pub v2 : Bytes
v2 = codes "01890a5d-ac96-774b-9cce-b302099a8002"

abbrev pub other_id : Bytes
other_id = codes "01890a5d-ac96-774b-acce-b302099a80ff"

abbrev pub admin : AuthId
admin = codes "developer-1"

abbrev pub now : Time
now = record { instant = pos 63_000_000; in_utc = true }

abbrev pub validation : PublicationValidation
validation = record { scope_catalog_revision = pos 4; preflight_policy_version = codes "submit-v1" }

abbrev pub snapshot : ReviewSnapshot
snapshot = record {
  version_label = codes "1.0";
  launch_url = codes "https://app.example";
  rpc_api_min_version = pos 1;
  rpc_api_max_version_exclusive = pos 3;
  required_capabilities = [];
  required_scopes = codes "email" ∷ codes "profile" ∷ [];
  optional_scopes = [];
  pkce_redirect_uris = [];
  confidential_redirect_uris = [];
}

abbrev pub candidate : Bytes → Option ApplicationPublication → Option ℤ → TestPlacementCandidate
candidate version before expected = record {
  application_id = app;
  rpc_api_major = pos 2;
  version_id = version;
  review_id = other_id;
  version_revision = pos 3;
  snapshot = snapshot;
  publication = before;
  expected_publication_revision = expected;
}

abbrev pub first : ApplicationPublication
first = record {
  publication_id = other_id;
  application_id = app;
  rpc_api_major = pos 2;
  test_version_id = some v1;
  stable_version_id = none;
  grey_rollout = none;
  revision = pos 1;
  created_by = admin;
  created_at = now;
  updated_by = admin;
  updated_at = now;
}

abbrev pub stable : ApplicationPublication
stable = record first { stable_version_id = some v1; revision = pos 2 }

abbrev pub rollout : ℕ → GreyRollout
rollout exposure = record {
  rollout_id = other_id;
  version_id = v2;
  exposure_basis_points = pos exposure;
  cohort_seed = codes "0123456789abcdef0123456789abcdef";
}

abbrev pub grey : ApplicationPublication
grey = record stable { grey_rollout = some (rollout 500); revision = pos 3 }

abbrev pub reduced : ApplicationPublication
reduced = record stable { grey_rollout = some (rollout 100); revision = pos 4 }

abbrev pub placement :
    Option ApplicationPublication
    → Option Bytes
    → ApplicationPublication
    → ApplicationPublicationHistory
placement before previous after = record {
  history_id = other_id;
  publication_id = other_id;
  application_id = app;
  rpc_api_major = pos 2;
  publication_revision = after.revision;
  action = set_test_version;
  previous_version_id = previous;
  new_version_id = some v1;
  approved_review_id = some other_id;
  validation = some validation;
  grey_rollout_id = none;
  previous_exposure = none;
  new_exposure = none;
  cohort_seed = none;
  changed_by = admin;
  changed_at = now;
}

abbrev pub placed : PlaceInTestResult
placed = record { publication = first; history = some (placement none none first) }

abbrev pub placed_record : PlaceInTestResult → ApplicationPublicationHistory
placed_record r = elim r.history [ some h ↦ h | none ↦ placement none none first ]

pub placed-Command : Command none none placed
unfolding tests
placed-Command =
    test_placed app (pos 2) v1 other_id (pos 3) snapshot (candidate v1 none none) (some other_id)
      other_id admin validation now refl refl

abbrev pub made_stable : PlaceInTestResult
made_stable = record {
  publication = stable;
  history = some (record (placement none none stable) { action = set_stable_version });
}

pub stable-Command : Command (some first) (some (pos 1)) made_stable
unfolding tests
stable-Command =
    stable_set app (pos 2) v1 other_id (pos 3) snapshot (candidate v1 (some first) (some (pos 1)))
      none other_id admin validation now refl refl

abbrev pub grey_candidate : GreyPlacementCandidate
grey_candidate = record {
  application_id = app;
  rpc_api_major = pos 2;
  version_id = v2;
  exposure = pos 500;
  publication = some stable;
  expected_revision = pos 2;
  change = start;
  approved = some (candidate v2 (some stable) (some (pos 2)));
}

abbrev pub rolled_out : PlaceInTestResult
rolled_out = record {
  publication = grey;
  history = some (record (placement none none grey) {
    action = set_grey_rollout;
    new_version_id = some v2;
    grey_rollout_id = some other_id;
    new_exposure = some (pos 500);
    cohort_seed = some (rollout 500).cohort_seed;
  });
}

pub grey-Command : Command (some stable) (some (pos 2)) rolled_out
unfolding tests
grey-Command =
    grey_placed app (pos 2) v2 other_id (pos 3) snapshot (candidate v2 (some stable) (some (pos 2)))
      (pos 500) grey_candidate (some other_id) (some (rollout 500).cohort_seed) other_id admin
      (some validation) now refl refl refl

abbrev pub reduction : GreyPlacementCandidate
reduction = record grey_candidate {
  exposure = pos 100;
  publication = some grey;
  expected_revision = pos 3;
  change = decrease;
  approved = none;
}

abbrev pub cut_back : PlaceInTestResult
cut_back = record {
  publication = reduced;
  history = some (record (placement none (some v2) reduced) {
    action = decrease_grey_exposure;
    new_version_id = some v2;
    approved_review_id = none;
    validation = none;
    grey_rollout_id = some other_id;
    previous_exposure = some (pos 500);
    new_exposure = some (pos 100);
  });
}

pub reduction_built :
    new_grey_reduction_candidate app (pos 2) v2 (pos 100) (some grey) (pos 3) ≡ ok reduction
unfolding tests
reduction_built = refl

pub reduction_run : set_grey (some reduction) none none other_id admin none now ≡ ok cut_back
unfolding tests
reduction_run = refl

pub reduction-Command : Command (some grey) (some (pos 3)) cut_back
reduction-Command =
    grey_reduced app (pos 2) v2 (pos 100) (pos 3) reduction none none other_id admin none now refl
      reduction_built reduction_run

abbrev pub enlargement : GreyPlacementCandidate
enlargement = record grey_candidate {
  publication = some reduced;
  expected_revision = pos 4;
  change = increase;
  approved = some (candidate v2 (some reduced) (some (pos 4)));
}

abbrev pub enlarged : PlaceInTestResult
enlarged = record {
  publication = record grey { revision = pos 5 };
  history = some (record (placement none (some v2) reduced) {
    publication_revision = pos 5;
    action = increase_grey_exposure;
    new_version_id = some v2;
    grey_rollout_id = some other_id;
    previous_exposure = some (pos 100);
    new_exposure = some (pos 500);
  });
}

pub enlargement_run :
    set_grey (some enlargement) none none other_id admin (some validation) now ≡ ok enlarged
unfolding tests
enlargement_run = refl

-- The same publication is not put into its test slot twice.
placed_again :
    place_in_test
      (some (candidate v1 (some first) (some (pos 1))))
      none
      other_id
      admin
      validation
      now
    ≡ ok (record { publication = first; history = none })
unfolding tests
placed_again = refl
