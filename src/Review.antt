-- ===== src/Review.antt =====
-- internal/review: the attempts to have a version reviewed, their one decision, and the return of a
-- rejected version to its draft.
pub mod Snapshot
pub mod Decision
pub mod Confirmation
pub mod Attempt
pub mod Candidate
pub mod Lifecycle
pub mod Decide
pub mod Gates
mod Tests
mod Deciders
mod Revisions
mod GateTests

-- The error codes of error.go that the modelled code returns.
pub data Error : Type 0 where
  invalid_reason checks_incomplete invalid_policy_version invalid_outcome : Error
  already_decided state_inconsistent already_restored internal : Error
  reviewer_identity_required permission_required review_not_found invalid_checks : Error
  conflict_of_interest policy_changed developer_status_unavailable : Error
  system_principal_unavailable invalid_redirects invalid_scope scope_catalog_unavailable : Error
  launch_url_not_reviewable inspection_unavailable : Error
