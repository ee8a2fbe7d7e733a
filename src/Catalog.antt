-- ===== src/Catalog.antt =====
-- internal/catalog: what a host may launch, and the pages of the public catalog.
pub mod Names
pub mod Sets
pub mod Launch
pub mod Resolve
pub mod Pages
pub mod Scanned
pub mod Sorted
pub mod Walk
pub mod Follow
pub mod Public
mod Tests

-- The error codes of error.go that the modelled code returns.
pub data Error : Type 0 where
  authenticated_user_required invalid_application_id invalid_host_rpc_api_major : Error
  invalid_host_capabilities application_not_found application_tester_required : Error
  application_test_target_unavailable host_capabilities_insufficient : Error
  application_test_publication_inconsistent application_launch_target_unavailable : Error
  application_runtime_state_inconsistent invalid_page_size invalid_page_token : Error
  public_application_not_found application_catalog_state_inconsistent internal : Error
