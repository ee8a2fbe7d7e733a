-- ===== src/Catalog/Launch.antt =====
-- internal/catalog/domain/launch.go: the description of the one version that is launched.
use iwut_app_center.Prelude.{
  ℤ, pos, ltb_ℤ, leb_ℤ, Bool, true, false, not, ◌&&◌, ◌||◌, all, List, [], ◌∷◌, Bytes, bytes_eq,
  is_empty, Result, ok, ◌>>◌, reject,
}
use iwut_app_center.Shared.Utf8.{valid_string}
use iwut_app_center.Shared.Uuid.{is_uuid_v7}
use iwut_app_center.Publication.Snapshot.{is_sorted, has_overlap}
use iwut_app_center.Catalog.{
  Error, application_test_publication_inconsistent, application_runtime_state_inconsistent,
}
use iwut_app_center.Catalog.Names.{matches_capability_name}

-- `undefined` is a channel that is none of the three.
pub data LaunchChannel : Type 0 where
  channel_test channel_grey channel_stable undefined : LaunchChannel

unfoldable pub channel_is_valid : LaunchChannel → Bool
channel_is_valid undefined = false
channel_is_valid _ = true

-- LaunchTargetDescriptor; TestLaunchDescriptor has the same fields but the channel.
pub record Descriptor : Type 0 where
  pub application_id : Bytes
  pub publication_id : Bytes
  pub publication_revision : ℤ  -- int64
  pub rpc_api_major : ℤ  -- int32
  pub version_id : Bytes
  pub version_label : Bytes
  pub launch_url : Bytes
  pub rpc_api_min_version : ℤ  -- int32
  pub rpc_api_max_version_exclusive : ℤ  -- int32
  pub required_capabilities : List Bytes
  pub required_scopes : List Bytes
  pub optional_scopes : List Bytes

pub record LaunchTarget : Type 0 where
  pub descriptor : Descriptor
  pub channel : LaunchChannel

-- The loop of strictlySortedUnique, after the item before.
unfoldable pub no_empty_after : Bytes → List Bytes → Bool
no_empty_after previous [] = true
no_empty_after previous (v ∷ vs) =
    not (is_empty v) && not (bytes_eq previous v) && no_empty_after v vs

unfoldable pub strictly_sorted : List Bytes → Bool
unfolding is_sorted no_empty_after
strictly_sorted [] = true
strictly_sorted (v ∷ vs) = is_sorted (v ∷ vs) && not (is_empty v) && no_empty_after v vs

unfoldable pub valid_launch_descriptor : Descriptor → Bool
unfolding strictly_sorted
valid_launch_descriptor d =
    not (
      not (is_uuid_v7 d.application_id)
      || not (is_uuid_v7 d.publication_id)
      || not (is_uuid_v7 d.version_id)
      || ltb_ℤ d.publication_revision (pos 1)
      || ltb_ℤ d.rpc_api_min_version (pos 1)
      || leb_ℤ d.rpc_api_max_version_exclusive d.rpc_api_min_version
      || ltb_ℤ d.rpc_api_major d.rpc_api_min_version
      || leb_ℤ d.rpc_api_max_version_exclusive d.rpc_api_major
      || is_empty d.version_label
      || not (valid_string d.version_label)
      || is_empty d.launch_url
      || not (strictly_sorted d.required_capabilities)
      || not (strictly_sorted d.required_scopes)
      || not (strictly_sorted d.optional_scopes))
    && all matches_capability_name d.required_capabilities
    && not (has_overlap d.optional_scopes d.required_scopes)

unfoldable pub new_launch_target_descriptor : Descriptor → LaunchChannel → Result Error LaunchTarget
unfolding valid_launch_descriptor channel_is_valid
new_launch_target_descriptor d channel = do
  reject (not (valid_launch_descriptor d) || not (channel_is_valid channel))
      application_runtime_state_inconsistent
  ok (record { descriptor = d; channel = channel })

unfoldable pub new_test_launch_descriptor : Descriptor → Result Error Descriptor
unfolding valid_launch_descriptor
new_test_launch_descriptor d = do
  reject (not (valid_launch_descriptor d)) application_test_publication_inconsistent
  ok d
