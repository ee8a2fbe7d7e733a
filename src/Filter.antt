-- ===== src/Filter.antt =====
-- internal/filter: the rule that decides which users' profiles see an application.
pub mod Date
pub mod Rule
pub mod Shape
pub mod Equal
pub mod Bounds
pub mod Revision
pub mod Publish
pub mod Handlers
pub mod Kept
pub mod Planned
pub mod Served
pub mod Commands
mod Scenario
mod Tests

-- The error codes of error.go.
pub data Error : Type 0 where
  invalid_application_id developer_identity_required developer_approval_required : Error
  invalid_application_filter application_not_found application_admin_required : Error
  application_filter_revision_conflict application_filter_state_inconsistent internal : Error
