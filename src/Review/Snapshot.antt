-- ===== src/Review/Snapshot.antt =====
-- internal/review/domain/application_review.go: the content of a version that a review is about.
-- strictlySortedUnique and hasOverlap are those of the publication domain, word for word.
use iwut_app_center.Prelude.{
  ℤ, pos, ltb, ltb_ℤ, leb_ℤ, eqb_ℤ, Bool, true, false, not, ◌&&◌, ◌||◌, Option, some, List, [], ◌∷◌,
  Bytes, bytes_eq, is_empty, is_none, length, Result, ok, err, ◌>>=◌, ◌>>◌, reject,
}
use iwut_app_center.Shared.Utf8.{valid_string}
use iwut_app_center.Publication.Snapshot.{strictly_sorted_unique, has_overlap, items}
use iwut_app_center.Review.{Error, internal}

-- A nil slice is `none`.
pub record Redirects : Type 0 where
  pub pkce_uris : Option (List Bytes)
  pub confidential_uris : Option (List Bytes)

unfoldable pub new_redirects : Option (List Bytes) → Option (List Bytes) → Result Error Redirects
new_redirects pkce confidential = do
  reject
      (is_none pkce
        || is_none confidential
        || ltb 10 (length (items pkce))
        || ltb 10 (length (items confidential))
        || not (strictly_sorted_unique pkce)
        || not (strictly_sorted_unique confidential)
        || has_overlap (items pkce) (items confidential))
      internal
  ok (record { pkce_uris = some (items pkce); confidential_uris = some (items confidential) })

abbrev pub empty_redirects : Redirects
empty_redirects = record { pkce_uris = some []; confidential_uris = some [] }

-- slices.Equal.
unfoldable pub strings_equal : List Bytes → List Bytes → Bool
strings_equal [] [] = true
strings_equal (x ∷ xs) (y ∷ ys) = bytes_eq x y && strings_equal xs ys
strings_equal _ _ = false

pub record VersionSnapshot : Type 0 where
  pub version_label : Bytes
  pub launch_url : Bytes
  pub rpc_api_min_version : ℤ  -- int32
  pub rpc_api_max_version_exclusive : ℤ  -- int32
  pub required_capabilities : List Bytes
  pub required_scopes : List Bytes
  pub optional_scopes : List Bytes
  pub pkce_redirect_uris : List Bytes
  pub confidential_redirect_uris : List Bytes

-- The getters copy, so that a nil slice of the argument is an empty one here.
abbrev one_redirects : List Redirects → Result Error Redirects
one_redirects [] = ok empty_redirects
one_redirects (r ∷ []) = ok (record {
  pkce_uris = some (items r.pkce_uris);
  confidential_uris = some (items r.confidential_uris);
})
one_redirects (r ∷ q ∷ rs) = err internal

unfoldable pub new_version_snapshot :
    Bytes
    → Bytes
    → ℤ
    → ℤ
    → (capabilities required optional : Option (List Bytes)) → List Redirects
    → Result Error VersionSnapshot
new_version_snapshot label url lo hi capabilities required optional variadic = do
  redirects ← one_redirects variadic
  reject
      (is_empty label
        || not (valid_string label)
        || is_empty url
        || ltb_ℤ lo (pos 1)
        || leb_ℤ hi lo
        || not (strictly_sorted_unique capabilities)
        || not (strictly_sorted_unique required)
        || not (strictly_sorted_unique optional)
        || has_overlap (items required) (items optional)
        || not (strictly_sorted_unique redirects.pkce_uris)
        || not (strictly_sorted_unique redirects.confidential_uris)
        || has_overlap (items redirects.pkce_uris) (items redirects.confidential_uris))
      internal
  ok (record {
    version_label = label;
    launch_url = url;
    rpc_api_min_version = lo;
    rpc_api_max_version_exclusive = hi;
    required_capabilities = items capabilities;
    required_scopes = items required;
    optional_scopes = items optional;
    pkce_redirect_uris = items redirects.pkce_uris;
    confidential_redirect_uris = items redirects.confidential_uris;
  })

unfoldable pub snapshot_equal : VersionSnapshot → VersionSnapshot → Bool
unfolding strings_equal
snapshot_equal s t =
    bytes_eq s.version_label t.version_label
    && bytes_eq s.launch_url t.launch_url
    && eqb_ℤ s.rpc_api_min_version t.rpc_api_min_version
    && eqb_ℤ s.rpc_api_max_version_exclusive t.rpc_api_max_version_exclusive
    && strings_equal s.required_capabilities t.required_capabilities
    && strings_equal s.required_scopes t.required_scopes
    && strings_equal s.optional_scopes t.optional_scopes
    && strings_equal s.pkce_redirect_uris t.pkce_redirect_uris
    && strings_equal s.confidential_redirect_uris t.confidential_redirect_uris
