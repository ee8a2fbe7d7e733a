-- ===== src/Application.antt =====
-- internal/application: an application, its name, the quota of its administrator, and its closure.
pub mod Name
pub mod Aggregate
pub mod Quota
pub mod Closure
pub mod Gates
mod Tests
use iwut_app_center.Prelude.{Bytes}

-- The errors of error.go, application_closure.go and admin_transfer.go that the modelled code returns;
-- `failed` is any other error of a repository, by its text.
pub data Error : Type 0 where
  invalid_application_id invalid_application_name application_quota_exceeded internal : Error
  developer_identity_required developer_approval_required : Error
  invalid_ownership_revision invalid_lifecycle_revision invalid_close_confirmation : Error
  high_risk_proof_invalid application_lifecycle_changed developer_status_unavailable : Error
  application_closure_not_found application_not_found : Error
  failed : Bytes → Error
