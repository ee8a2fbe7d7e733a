-- ===== src/Profile.antt =====
-- internal/profile/domain: what an application shows of itself, drafted, submitted and decided on.
pub mod Text
pub mod Revision
pub mod Review
pub mod Decide
pub mod Stored
pub mod Checks
pub mod Guards
pub mod Lifecycle
mod Tests

-- The error codes of error.go that the modelled code returns.
pub data Error : Type 0 where
  invalid_display_name invalid_description invalid_icon : Error
  profile_state_inconsistent expected_revision_required revision_not_draft : Error
  revision_conflict invalid_review_submission invalid_content internal : Error
  reviewer_identity_required permission_required review_state_inconsistent : Error
  conflict_of_interest already_decided review_state_conflict policy_unavailable : Error
  invalid_decision invalid_reason checks_incomplete : Error
