-- ===== src/Version.antt =====
-- internal/version/domain: what a version declares of itself: its label, the range of the RPC API it
-- runs on, the capabilities it needs and the scopes it asks for.
pub mod Label
pub mod Names
pub mod Members
mod Capabilities
pub mod Urls
pub mod Redirects
pub mod Resorting
pub mod Draft
pub mod Abandonment
pub mod Revalidated
pub mod Edited
pub mod Reviewed
pub mod Lifecycle
mod Tests
mod DraftTests
use iwut_app_center.Prelude.{
  ℤ, pos, ltb_ℤ, leb_ℤ, Bool, ◌||◌, ◌&&◌, not, Result, ok, err, ◌>>◌, reject,
}

-- The error codes of error.go that the modelled code returns.
pub data Error : Type 0 where
  invalid_version_label invalid_rpc_api_range invalid_required_capability : Error
  invalid_application_scope invalid_launch_url invalid_oauth_redirects : Error
  revision_required version_not_draft version_not_rejected revision_conflict internal : Error

pub record RpcApiRange : Type 0 where
  pub minimum : ℤ  -- int32
  pub maximum_exclusive : ℤ  -- int32

unfoldable pub new_rpc_api_range : ℤ → ℤ → Result Error RpcApiRange
new_rpc_api_range minimum maximum_exclusive = do
  reject (ltb_ℤ minimum (pos 1) || leb_ℤ maximum_exclusive minimum) invalid_rpc_api_range
  ok (record { minimum = minimum; maximum_exclusive = maximum_exclusive })

unfoldable pub range_is_valid : RpcApiRange → Bool
range_is_valid r = leb_ℤ (pos 1) r.minimum && ltb_ℤ r.minimum r.maximum_exclusive
