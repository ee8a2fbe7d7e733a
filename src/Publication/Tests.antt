-- ===== src/Publication/Tests.antt =====
-- The theorems on publications, each at the state that the scenario reaches.
use iwut_app_center.Prelude.{
  pos, ◌≤ℤ◌, ◌<ℤ◌, true, false, none, some, [], ◌∷◌, Bytes, codes, is_some, is_empty, ok, is_ok,
  ◌≡◌, refl, ◌↔◌,
}
use iwut_app_center.Shared.{auth_id_is_valid}
use iwut_app_center.Shared.Uuid.{is_uuid_v7}
use iwut_app_center.Publication.{exposure_is_valid, is_changed}
use iwut_app_center.Publication.Snapshot.{strictly_sorted_unique}
use iwut_app_center.Publication.Snapshot.Sorted.{IsIncreasing, strictly_sorted_unique_iff}
use iwut_app_center.Publication.Place.{new_test_placement_candidate}
use iwut_app_center.Publication.Grey.{decrease, rollout_version, classify_grey_change}
use iwut_app_center.Publication.Slots.{Command}
use iwut_app_center.Publication.Candidates.{Expects}
use iwut_app_center.Publication.Effects.{Effect}
use iwut_app_center.Publication.Audit.{LogSays, Log-LogSays, absent, changed, Command-Effect}
use iwut_app_center.Publication.Conflict.{no_lost_update, IsAt, new_test_placement_candidate_iff}
use iwut_app_center.Publication.Restorable.{IsRestorable}
use iwut_app_center.Publication.Stored.{Command-IsRestorable}
use iwut_app_center.Publication.Cohort.{bucket, matches, matches_all_users}
use iwut_app_center.Publication.Classify.{IsChange, classify_grey_change_iff}
use iwut_app_center.Publication.Exposure.{reduction_shows_no_one_new, increase_keeps_everyone}
use iwut_app_center.Publication.Scenario.{
  tests, app, v1, v2, other_id, admin, now, validation, snapshot, candidate, first, rollout, grey,
  reduced, placed, placed_record, placed-Command, made_stable, stable-Command, rolled_out,
  grey-Command, reduction, cut_back, reduction_built, reduction_run, reduction-Command, enlargement,
  enlarged, enlargement_run,
}

Command-Effect_example : Effect (some grey) reduced cut_back.history
Command-Effect_example = Command-Effect reduction-Command

Log-LogSays_example :
    LogSays
      (some grey)
      (placed_record rolled_out ∷ placed_record made_stable ∷ placed_record placed ∷ [])
Log-LogSays_example = Log-LogSays (
    changed (placed_record rolled_out)
      (changed (placed_record made_stable)
        (changed (placed_record placed) absent placed-Command refl) stable-Command refl)
      grey-Command refl)

no_lost_update_example : ¬ Command (some grey) (some (pos 2)) rolled_out
no_lost_update_example = no_lost_update grey-Command (unfold is_changed in refl)

Command-IsRestorable_example : IsRestorable (some reduced)
unfolding tests
Command-IsRestorable_example = Command-IsRestorable reduction-Command (refl, refl)

-- A key and a message give a digest whose first eight bytes are 42.
abbrev digest : Bytes → Bytes → Bytes
digest key message = 0 ∷ 0 ∷ 0 ∷ 0 ∷ 0 ∷ 0 ∷ 0 ∷ 42 ∷ []

reduction_shows_no_one_new_example :
    (rollout_version reduced.grey_rollout ≡ rollout_version grey.grey_rollout)
    × (matches digest grey.grey_rollout (codes "user-7") ≡ true)
unfolding matches bucket auth_id_is_valid
reduction_shows_no_one_new_example =
    reduction_shows_no_one_new digest reduction grey none none other_id admin none now cut_back
      reduction_run app (pos 2) v2 (pos 100) (pos 3) (codes "user-7") reduction_built refl

increase_keeps_everyone_example :
    (rollout_version grey.grey_rollout ≡ rollout_version reduced.grey_rollout)
    × (matches digest grey.grey_rollout (codes "user-7") ≡ true)
unfolding tests matches bucket
increase_keeps_everyone_example =
    increase_keeps_everyone digest enlargement reduced none none other_id admin (some validation)
      now enlarged enlargement_run (candidate v2 (some reduced) (some (pos 4))) (pos 500)
      (rollout 100) (codes "user-7") refl refl refl refl refl refl

matches_all_users_example : matches digest (some (rollout 10_000)) (codes "user-7") ≡ true
unfolding auth_id_is_valid
matches_all_users_example = matches_all_users digest (rollout 10_000) (codes "user-7") refl refl

classify_grey_change_iff_example :
    (classify_grey_change (some grey) v2 (pos 100) (pos 3) ≡ ok decrease) ↔ (
      (is_uuid_v7 v2 ≡ true)
      × (exposure_is_valid (pos 100) ≡ true)
      × (pos 1 ≤ℤ pos 3)
      × (grey.revision ≡ pos 3)
      × (is_some grey.stable_version_id ≡ true)
      × IsChange decrease grey.grey_rollout v2 (pos 100))
classify_grey_change_iff_example = classify_grey_change_iff grey v2 (pos 100) (pos 3) decrease

new_test_placement_candidate_iff_example :
    (is_ok (
        new_test_placement_candidate app
          (pos 2)
          v1
          other_id
          (pos 3)
          snapshot
          (some first)
          (some (pos 1)))
      ≡ true)
    ↔ ((is_uuid_v7 app ≡ true)
        × (is_uuid_v7 v1 ≡ true)
        × (is_uuid_v7 other_id ≡ true)
        × (pos 1 ≤ℤ pos 2)
        × (pos 3 ≤ℤ pos 3)
        × (is_empty snapshot.launch_url ≡ false)
        × (snapshot.rpc_api_min_version ≤ℤ pos 2)
        × (pos 2 <ℤ snapshot.rpc_api_max_version_exclusive)
        × IsAt app (pos 2) (some first)
        × Expects (some first) (some (pos 1)))
new_test_placement_candidate_iff_example =
    new_test_placement_candidate_iff app (pos 2) v1 other_id (pos 3) snapshot (some first)
      (some (pos 1))

strictly_sorted_unique_iff_example :
    (strictly_sorted_unique (some (codes "email" ∷ codes "profile" ∷ [])) ≡ true)
    ↔ IsIncreasing (codes "email" ∷ codes "profile" ∷ [])
strictly_sorted_unique_iff_example =
    strictly_sorted_unique_iff (codes "email" ∷ codes "profile" ∷ [])
