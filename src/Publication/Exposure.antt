-- ===== src/Publication/Exposure.antt =====
-- grey.go: whom a change of the rollout newly shows the grey version.
use iwut_app_center.Prelude.{
  ℤ, pos, ◌≤ℤ◌, true, Option, some, Bytes, ◌≡◌, sym, ap, ◌∙◌, ◌⊎◌, inl, inr, ok, arith,
  bytes_eq_iff, Option-cases,
}
use iwut_app_center.Shared.{Time, AuthId}
use iwut_app_center.Publication.{
  exposure_is_valid, PublicationValidation, GreyRollout, ApplicationPublication, PlaceInTestResult,
}
use iwut_app_center.Publication.Place.{TestPlacementCandidate}
use iwut_app_center.Publication.Grey.{
  GreyPlacementCandidate, no_op, decrease, increase, rollout_version, classify_grey_change,
  new_grey_placement_candidate, new_grey_reduction_candidate,
}
use iwut_app_center.Publication.Rollout.{set_grey}
use iwut_app_center.Publication.Cohort.{matches, matches_mono}

-- The same identity and seed, and an exposure from 1 on and no larger.
abbrev IsWithin : GreyRollout → GreyRollout → Type 0
IsWithin small large =
    (small.rollout_id ≡ large.rollout_id)
    × (small.cohort_seed ≡ large.cohort_seed)
    × (pos 1 ≤ℤ small.exposure_basis_points)
    × (small.exposure_basis_points ≤ℤ large.exposure_basis_points)

-- The rollout that a candidate asks for on the identity and the seed of the one that is there.
abbrev asked : GreyPlacementCandidate → GreyRollout → GreyRollout
asked c old = record old { version_id = c.version_id; exposure_basis_points = c.exposure }

module _ (c : GreyPlacementCandidate) (p : ApplicationPublication) where
  reduction_needs_rollout :
      (app : Bytes) (major : ℤ) (version : Bytes) (exposure expected : ℤ)
      → new_grey_reduction_candidate app major version exposure (some p) expected ≡ ok c
      → (old : GreyRollout) × (p.grey_rollout ≡ some old)
  unfolding new_grey_reduction_candidate classify_grey_change
  reduction_needs_rollout app major version exposure expected built =
      elim (Option-cases p.grey_rollout) [
        | inl missing ↦ absurd (ground (arith, missing, built))
        | inr found ↦ found
      ]

  module _ (old : GreyRollout) (at_old : p.grey_rollout ≡ some old) where
    reduction_fields :
        (app : Bytes) (major : ℤ) (version : Bytes) (exposure expected : ℤ)
        → new_grey_reduction_candidate app major version exposure (some p) expected ≡ ok c
        → (c.publication ≡ some p)
          × (c.version_id ≡ old.version_id)
          × IsWithin (asked c old) old
          × ((c.change ≡ decrease) ⊎ (c.change ≡ no_op) × (asked c old ≡ old))
    unfolding new_grey_reduction_candidate classify_grey_change exposure_is_valid
    reduction_fields app major version exposure expected built =
        ground (arith, bytes_eq_iff old.version_id version)

    increase_fields :
        (approved : TestPlacementCandidate) (exposure : ℤ)
        → approved.publication ≡ some p
        → exposure_is_valid old.exposure_basis_points ≡ true
        → new_grey_placement_candidate (some approved) exposure ≡ ok c
        → c.change ≡ increase
        → (c.publication ≡ some p) × (c.version_id ≡ old.version_id) × IsWithin old (asked c old)
    unfolding new_grey_placement_candidate classify_grey_change exposure_is_valid
    increase_fields approved exposure at_p valid built up =
        ground (arith, bytes_eq_iff old.version_id approved.version_id)

    module _ (rollout_id seed : Option Bytes) (history_id : Bytes) (admin : AuthId)
        (validation : Option PublicationValidation) (at : Time) (r : PlaceInTestResult)
        (here : c.publication ≡ some p)
        (run : set_grey (some c) rollout_id seed history_id admin validation at ≡ ok r) where
      set_grey_continues :
          (c.change ≡ decrease) ⊎ (c.change ≡ increase)
          → r.publication.grey_rollout ≡ some (asked c old)
      unfolding set_grey
      set_grey_continues k = ground arith

      set_grey_no_op : c.change ≡ no_op → r.publication.grey_rollout ≡ some old
      unfolding set_grey
      set_grey_no_op k = ground arith

module _ (hmac_sha256 : Bytes → Bytes → Bytes) (c : GreyPlacementCandidate)
    (p : ApplicationPublication) (rollout_id seed : Option Bytes) (history_id : Bytes)
    (admin : AuthId) (validation : Option PublicationValidation) (at : Time) (r : PlaceInTestResult)
    (run : set_grey (some c) rollout_id seed history_id admin validation at ≡ ok r) where
  -- A reduction, which needs no approved review, shows the version to no user who did not see it:
  -- whoever is in the cohort afterwards was in it before, and the version is the same.
  pub reduction_shows_no_one_new :
      (app : Bytes) (major : ℤ) (version : Bytes) (exposure expected : ℤ) (auth : AuthId)
      → new_grey_reduction_candidate app major version exposure (some p) expected ≡ ok c
      → matches hmac_sha256 r.publication.grey_rollout auth ≡ true
      → (rollout_version r.publication.grey_rollout ≡ rollout_version p.grey_rollout)
        × (matches hmac_sha256 p.grey_rollout auth ≡ true)
  reduction_shows_no_one_new app major version exposure expected auth built seen =
      let (old, at_old) = reduction_needs_rollout c p app major version exposure expected built in
      let (here, same, within, kind) =
        reduction_fields c p old at_old app major version exposure expected built in
      let after : r.publication.grey_rollout ≡ some (asked c old) = elim kind [
        | inl down ↦
            set_grey_continues c p old at_old rollout_id seed history_id admin validation at r here
              run (inl down)
        | inr (still, equal) ↦
            set_grey_no_op c p old at_old rollout_id seed history_id admin validation at r here run
              still
            ∙ ap some (sym equal)
      ] in
      (
        rw (after, at_old) (ap some same),
        rw at_old (
            matches_mono hmac_sha256 (asked c old) old auth within.1 within.2 within.3
              (rw after at seen)),
      )

  -- An increase takes the version from no user: whoever was in the cohort of the rollout, whose
  -- exposure is valid, is in it afterwards, and the version is the same.
  pub increase_keeps_everyone :
      (approved : TestPlacementCandidate) (exposure : ℤ) (old : GreyRollout) (auth : AuthId)
      → approved.publication ≡ some p
      → p.grey_rollout ≡ some old
      → exposure_is_valid old.exposure_basis_points ≡ true
      → new_grey_placement_candidate (some approved) exposure ≡ ok c
      → c.change ≡ increase
      → matches hmac_sha256 p.grey_rollout auth ≡ true
      → (rollout_version r.publication.grey_rollout ≡ rollout_version p.grey_rollout)
        × (matches hmac_sha256 r.publication.grey_rollout auth ≡ true)
  increase_keeps_everyone approved exposure old auth at_p at_old valid built up seen =
      let (here, same, within) =
        increase_fields c p old at_old approved exposure at_p valid built up in
      let after : r.publication.grey_rollout ≡ some (asked c old) =
        set_grey_continues c p old at_old rollout_id seed history_id admin validation at r here run
          (inr up) in
      (
        rw (after, at_old) (ap some same),
        rw after (
            matches_mono hmac_sha256 old (asked c old) auth within.1 within.2 within.3
              (rw at_old at seen)),
      )
