-- ===== src/Version/Draft.antt =====
-- internal/version/domain/application_version.go and application_version_abandonment.go: a version, from
-- its draft on.
use iwut_app_center.Prelude.{
  ℤ, pos, ltb_ℤ, eqb_ℤ, Bool, true, false, not, ◌&&◌, ◌||◌, List, Bytes, bytes_eq, Result, ok, err,
  ◌>>◌, reject, if◌then◌else◌, inc_int64,
}
use iwut_app_center.Shared.{Time, is_zero, utc, AuthId, auth_id_is_valid}
use iwut_app_center.Shared.Uuid.{is_uuid_v7}
use iwut_app_center.Review.Snapshot.{strings_equal}
use iwut_app_center.Version.{
  Error, revision_required, version_not_draft, version_not_rejected, revision_conflict, internal,
  RpcApiRange, range_is_valid,
}
use iwut_app_center.Version.Label.{label_is_valid}
use iwut_app_center.Version.Names.{new_capability_set, ScopeRequest, new_scope_request}
use iwut_app_center.Version.Urls.{Urls, LaunchUrl, launch_url_is_valid}
use iwut_app_center.Version.Redirects.{OauthRedirects, redirects_equal, redirects_are_valid}

-- `undefined` is a status that is none of the five.
pub data ReviewStatus : Type 0 where
  draft submitted approved rejected revoked undefined : ReviewStatus

unfoldable pub status_is_valid : ReviewStatus → Bool
status_is_valid undefined = false
status_is_valid _ = true

abbrev pub status_is_draft : ReviewStatus → Bool
status_is_draft draft = true
status_is_draft _ = false

abbrev pub status_is_rejected : ReviewStatus → Bool
status_is_rejected rejected = true
status_is_rejected _ = false

abbrev same_values : List Bytes → Result Error (List Bytes) → Bool
same_values values (err e) = false
same_values values (ok validated) = strings_equal validated values

unfoldable pub capabilities_are_valid : List Bytes → Bool
unfolding new_capability_set strings_equal
capabilities_are_valid values = same_values values (new_capability_set values)

abbrev same_scopes : ScopeRequest → Result Error ScopeRequest → Bool
same_scopes request (err e) = false
same_scopes request (ok validated) =
    strings_equal validated.required request.required
    && strings_equal validated.optional request.optional

unfoldable pub scope_request_is_valid : ScopeRequest → Bool
unfolding new_scope_request strings_equal
scope_request_is_valid request =
    same_scopes request (new_scope_request request.required request.optional)

-- DraftApplicationVersionReplacement: what a draft may change.
pub record Replacement : Type 0 where
  pub version_label : Bytes
  pub launch_url : LaunchUrl
  pub rpc_api_range : RpcApiRange
  pub required_capabilities : List Bytes
  pub scope_request : ScopeRequest
  pub oauth_redirects : OauthRedirects

pub record DraftVersion : Type 0 where
  pub id : Bytes
  pub application_id : Bytes
  pub content : Replacement
  pub created_by : AuthId
  pub created_at : Time

pub record ApplicationVersion : Type 0 where
  pub id : Bytes
  pub application_id : Bytes
  pub sequence : ℤ  -- int32
  pub content : Replacement
  pub review_status : ReviewStatus
  pub created_by : AuthId
  pub created_at : Time
  pub revision : ℤ  -- int64
  pub updated_by : AuthId
  pub updated_at : Time

-- The version that NewApplicationVersion asks RestoreApplicationVersion for.
abbrev pub version_of_draft : DraftVersion → ℤ → ApplicationVersion
version_of_draft d sequence = record {
  id = d.id;
  application_id = d.application_id;
  sequence = sequence;
  content = d.content;
  review_status = draft;
  created_by = d.created_by;
  created_at = d.created_at;
  revision = pos 1;
  updated_by = d.created_by;
  updated_at = d.created_at;
}

abbrev pub same_bool : Bool → Bool → Bool
same_bool true b = b
same_bool false b = not b

-- hasReplacement.
unfoldable pub has_replacement : Replacement → Replacement → Bool
unfolding strings_equal redirects_equal
has_replacement v r =
    bytes_eq v.version_label r.version_label
    && (bytes_eq v.launch_url.value r.launch_url.value
        && same_bool v.launch_url.developmental r.launch_url.developmental)
    && (eqb_ℤ v.rpc_api_range.minimum r.rpc_api_range.minimum
        && eqb_ℤ v.rpc_api_range.maximum_exclusive r.rpc_api_range.maximum_exclusive)
    && strings_equal v.required_capabilities r.required_capabilities
    && strings_equal v.scope_request.required r.scope_request.required
    && strings_equal v.scope_request.optional r.scope_request.optional
    && redirects_equal v.oauth_redirects r.oauth_redirects

module _ (urls : Urls) where
  unfoldable pub content_is_valid : Replacement → Bool
  unfolding capabilities_are_valid scope_request_is_valid label_is_valid launch_url_is_valid
      range_is_valid redirects_are_valid
  content_is_valid r = not (
      not (label_is_valid r.version_label)
      || not (launch_url_is_valid urls r.launch_url)
      || not (range_is_valid r.rpc_api_range)
      || not (capabilities_are_valid r.required_capabilities)
      || not (scope_request_is_valid r.scope_request)
      || not (redirects_are_valid urls r.oauth_redirects))

  unfoldable pub new_replacement : Replacement → Result Error Replacement
  unfolding content_is_valid
  new_replacement r = do reject (not (content_is_valid r)) internal; ok r

  unfoldable pub new_draft : DraftVersion → Result Error DraftVersion
  unfolding content_is_valid
  new_draft d = do
    reject
        (not (is_uuid_v7 d.id)
          || not (is_uuid_v7 d.application_id)
          || not (content_is_valid d.content)
          || not (auth_id_is_valid d.created_by)
          || is_zero d.created_at)
        internal
    ok (record d { created_at = utc d.created_at })

  unfoldable pub version_is_malformed : ApplicationVersion → Bool
  unfolding content_is_valid status_is_valid
  version_is_malformed v =
      not (is_uuid_v7 v.id)
      || not (is_uuid_v7 v.application_id)
      || ltb_ℤ v.sequence (pos 1)
      || not (content_is_valid v.content)
      || not (status_is_valid v.review_status)
      || not (auth_id_is_valid v.created_by)
      || is_zero v.created_at
      || ltb_ℤ v.revision (pos 1)
      || not (auth_id_is_valid v.updated_by)
      || is_zero v.updated_at

  unfoldable pub restore_application_version : ApplicationVersion → Result Error ApplicationVersion
  unfolding version_is_malformed
  restore_application_version v = do
    reject (version_is_malformed v) internal
    ok (record v { created_at = utc v.created_at; updated_at = utc v.updated_at })

  unfoldable pub new_application_version : DraftVersion → ℤ → Result Error ApplicationVersion
  unfolding restore_application_version
  new_application_version d sequence = restore_application_version (version_of_draft d sequence)

  unfoldable pub replace_draft :
      ApplicationVersion → ℤ → Replacement → AuthId → Time → Result Error ApplicationVersion
  unfolding content_is_valid has_replacement
  replace_draft v expected replacement by at = do
    reject (ltb_ℤ expected (pos 1)) revision_required
    reject (not (status_is_draft v.review_status)) version_not_draft
    reject (not (eqb_ℤ v.revision expected)) revision_conflict
    reject (not (content_is_valid replacement) || not (auth_id_is_valid by) || is_zero at) internal
    ok (
        if has_replacement v.content replacement then v else record v {
          content = replacement;
          revision = inc_int64 v.revision;
          updated_by = by;
          updated_at = utc at;
        })

-- RestoreDraft, which looks at no URL.
unfoldable pub restore_draft :
    ApplicationVersion → ℤ → AuthId → Time → Result Error ApplicationVersion
restore_draft v expected by at = do
  reject (ltb_ℤ expected (pos 1)) revision_required
  reject (not (status_is_rejected v.review_status)) version_not_rejected
  reject (not (eqb_ℤ v.revision expected)) revision_conflict
  reject (not (auth_id_is_valid by) || is_zero at) internal
  ok (record v {
    review_status = draft;
    revision = inc_int64 v.revision;
    updated_by = by;
    updated_at = utc at;
  })
