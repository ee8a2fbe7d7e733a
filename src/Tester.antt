-- ===== src/Tester.antt =====
-- internal/tester/domain: the links by which users join as testers, and their memberships.
pub mod JoinLink
pub mod Membership
pub mod Links
pub mod Members
mod Tests

-- The error codes of error.go, removal.go and revocation.go that the modelled code returns.
pub data Error : Type 0 where
  invalid_join_link_id join_link_already_exists join_link_not_found : Error
  join_link_changed join_link_state_inconsistent tester_state_inconsistent internal : Error
