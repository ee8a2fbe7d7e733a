-- ===== src/Publication/Candidates.antt =====
-- What the constructors of the candidates tell of the publication that was read.
use iwut_app_center.Prelude.{ℤ, pos, ◌≤ℤ◌, Option, none, some, Bytes, ◌≡◌, ok, arith}
use iwut_app_center.Publication.{ApplicationPublication}
use iwut_app_center.Publication.Snapshot.{ReviewSnapshot}
use iwut_app_center.Publication.Place.{TestPlacementCandidate, new_test_placement_candidate}
use iwut_app_center.Publication.Stable.{new_stable_placement_candidate}
use iwut_app_center.Publication.Clear.{new_test_clear_candidate, new_stable_clear_candidate}
use iwut_app_center.Publication.Grey.{
  GreyPlacementCandidate, classify_grey_change, new_grey_placement_candidate,
  new_grey_reduction_candidate,
}
use iwut_app_center.Publication.Rollout.{new_grey_clear_candidate}

-- The caller expected what was there: no publication, or one at that revision.
abbrev pub Expects : Option ApplicationPublication → Option ℤ → Type 0
Expects none none = Unit
Expects (some p) (some r) = (p.revision ≡ r) × (pos 1 ≤ℤ r)
Expects _ _ = ⊥

module _ (app : Bytes) (major : ℤ) (version review : Bytes) (version_revision : ℤ)
    (snapshot : ReviewSnapshot) (before : Option ApplicationPublication) (expected : Option ℤ)
    (c : TestPlacementCandidate) where
  pub new_test_placement_candidate-fields :
      new_test_placement_candidate app major version review version_revision snapshot before
          expected
        ≡ ok c
      → (c.publication ≡ before)
        × (c.expected_publication_revision ≡ expected)
        × Expects before expected
  unfolding new_test_placement_candidate
  new_test_placement_candidate-fields h = ground arith

  pub new_stable_placement_candidate-fields :
      new_stable_placement_candidate app major version review version_revision snapshot before
          expected
        ≡ ok c
      → (c.publication ≡ before)
        × (c.expected_publication_revision ≡ expected)
        × Expects before expected
  unfolding new_stable_placement_candidate
  new_stable_placement_candidate-fields h = ground arith

pub new_grey_placement_candidate-publication :
    (approved : TestPlacementCandidate) (exposure : ℤ) (c : GreyPlacementCandidate)
    → new_grey_placement_candidate (some approved) exposure ≡ ok c
    → c.publication ≡ approved.publication
unfolding new_grey_placement_candidate
new_grey_placement_candidate-publication approved exposure c h = ground arith

pub new_grey_reduction_candidate-fields :
    (app : Bytes) (major : ℤ) (version : Bytes) (exposure : ℤ)
    (before : Option ApplicationPublication) (expected : ℤ) (c : GreyPlacementCandidate)
    → new_grey_reduction_candidate app major version exposure before expected ≡ ok c
    → (c.publication ≡ before) × Expects before (some expected)
unfolding new_grey_reduction_candidate classify_grey_change
new_grey_reduction_candidate-fields app major version exposure before expected c h = ground arith

module _ (before : Option ApplicationPublication) (expected : ℤ) (c : ApplicationPublication) where
  pub new_test_clear_candidate-fields :
      new_test_clear_candidate before expected ≡ ok c
      → (some c ≡ before) × Expects before (some expected)
  unfolding new_test_clear_candidate
  new_test_clear_candidate-fields h = ground arith

  pub new_stable_clear_candidate-fields :
      new_stable_clear_candidate before expected ≡ ok c
      → (some c ≡ before) × Expects before (some expected)
  unfolding new_stable_clear_candidate
  new_stable_clear_candidate-fields h = ground arith

  pub new_grey_clear_candidate-fields :
      new_grey_clear_candidate before expected ≡ ok c
      → (some c ≡ before) × Expects before (some expected)
  unfolding new_grey_clear_candidate
  new_grey_clear_candidate-fields h = ground arith
