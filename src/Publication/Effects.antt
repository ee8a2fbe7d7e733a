-- ===== src/Publication/Effects.antt =====
-- What one operation does, told of the publication that its candidate holds: what an unchanged
-- result is, what the audit record replays to, and how the revisions go.
use iwut_app_center.Prelude.{ℤ, pos, ◌+ℤ◌, inc_int64, Option, none, some, Bytes, ◌≡◌, ok, arith}
use iwut_app_center.Shared.{Time, AuthId}
use iwut_app_center.Publication.{
  PublicationValidation, restore_grey_rollout, ApplicationPublication, PlaceInTestResult,
  ApplicationPublicationHistory,
}
use iwut_app_center.Publication.Place.{TestPlacementCandidate, place_in_test}
use iwut_app_center.Publication.Stable.{set_stable}
use iwut_app_center.Publication.Clear.{clear_test, clear_stable}
use iwut_app_center.Publication.Grey.{GreyPlacementCandidate}
use iwut_app_center.Publication.Rollout.{set_grey, clear_grey}
use iwut_app_center.Publication.Slots.{slots_of, replay}

abbrev pub next_revision : Option ApplicationPublication → ℤ
next_revision none = pos 1
next_revision (some p) = p.revision +ℤ pos 1

-- A result with no audit record is the publication as it was. A result with one has the next
-- revision, the slots that the record replays to, and the identity, revision, author and time that
-- the record names.
abbrev pub Effect :
    Option ApplicationPublication
    → ApplicationPublication
    → Option ApplicationPublicationHistory
    → Type 0
Effect before p none = before ≡ some p
Effect before p (some h) =
    (slots_of (some p) ≡ replay h (slots_of before))
    × (p.revision ≡ next_revision before)
    × (h.publication_revision ≡ p.revision)
    × (h.publication_id ≡ p.publication_id)
    × (h.changed_by ≡ p.updated_by)
    × (h.changed_at ≡ p.updated_at)

module _ (history_id : Bytes) (admin : AuthId) (at : Time) (r : PlaceInTestResult) where
  pub place_in_test-Effect :
      (c : TestPlacementCandidate) (publication_id : Option Bytes) (v : PublicationValidation)
      → place_in_test (some c) publication_id history_id admin v at ≡ ok r
      → Effect c.publication r.publication r.history
  unfolding place_in_test replay inc_int64
  place_in_test-Effect c publication_id v e = ground arith

  pub set_stable-Effect :
      (c : TestPlacementCandidate) (publication_id : Option Bytes) (v : PublicationValidation)
      → set_stable (some c) publication_id history_id admin v at ≡ ok r
      → Effect c.publication r.publication r.history
  unfolding set_stable replay inc_int64
  set_stable-Effect c publication_id v e = ground arith

  pub set_grey-Effect :
      (c : GreyPlacementCandidate) (rollout_id seed : Option Bytes)
      (v : Option PublicationValidation)
      → set_grey (some c) rollout_id seed history_id admin v at ≡ ok r
      → Effect c.publication r.publication r.history
  unfolding set_grey restore_grey_rollout replay inc_int64
  set_grey-Effect c rollout_id seed v e = ground arith

  pub clear_test-Effect :
      (p : ApplicationPublication)
      → clear_test (some p) history_id admin at ≡ ok r
      → Effect (some p) r.publication r.history
  unfolding clear_test replay inc_int64
  clear_test-Effect p e = ground arith

  pub clear_stable-Effect :
      (p : ApplicationPublication)
      → clear_stable (some p) history_id admin at ≡ ok r
      → Effect (some p) r.publication r.history
  unfolding clear_stable replay inc_int64
  clear_stable-Effect p e = ground arith

  pub clear_grey-Effect :
      (p : ApplicationPublication)
      → clear_grey (some p) history_id admin at ≡ ok r
      → Effect (some p) r.publication r.history
  unfolding clear_grey replay inc_int64
  clear_grey-Effect p e = ground arith
