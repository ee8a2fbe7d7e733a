-- ===== src/Publication/Snapshot.antt =====
-- internal/publication/domain/snapshot.go: the reviewed content of a version.
pub mod Sorted
use iwut_app_center.Prelude.{
  ℕ, suc, ◌==◌, ℤ, pos, ltb_ℤ, leb_ℤ, eqb_ℤ, Bool, true, false, not, ◌&&◌, ◌||◌, Option, none, some,
  List, [], ◌∷◌, Bytes, bytes_eq, bytes_lt, is_empty, length, any, Result, ok, err, ◌>>=◌, ◌>>◌,
  reject, if◌then◌else◌,
}
use iwut_app_center.Shared.Utf8.{valid_string}
use iwut_app_center.Publication.{Error, internal}

-- slices.IsSorted: no item is less than the one before it.
unfoldable pub is_sorted : List Bytes → Bool
is_sorted [] = true
is_sorted (x ∷ []) = true
is_sorted (x ∷ y ∷ xs) = not (bytes_lt y x) && is_sorted (y ∷ xs)

-- slices.Compact: of a run of equal items the first is kept.
unfoldable pub compact_after : Bytes → List Bytes → List Bytes
compact_after x [] = []
compact_after x (y ∷ ys) = let rest = compact_after y ys in if bytes_eq x y then rest else y ∷ rest

unfoldable pub compact : List Bytes → List Bytes
unfolding compact_after
compact [] = []
compact (x ∷ xs) = x ∷ compact_after x xs

-- A slice that is nil is `none`.
unfoldable pub strictly_sorted_unique : Option (List Bytes) → Bool
strictly_sorted_unique none = false
strictly_sorted_unique (some xs) = is_sorted xs && length (compact xs) == length xs

-- Membership in the set `seen` that the source builds from `left`.
unfoldable pub contains : List Bytes → Bytes → Bool
contains left v = any (bytes_eq v) left

unfoldable pub has_overlap : List Bytes → List Bytes → Bool
has_overlap left right = any (contains left) right

pub record OauthRedirectConfiguration : Type 0 where
  pub pkce : Option (List Bytes)
  pub confidential : Option (List Bytes)

pub record ReviewSnapshot : Type 0 where
  pub version_label : Bytes
  pub launch_url : Bytes
  pub rpc_api_min_version : ℤ  -- int32
  pub rpc_api_max_version_exclusive : ℤ  -- int32
  pub required_capabilities : List Bytes
  pub required_scopes : List Bytes
  pub optional_scopes : List Bytes
  pub pkce_redirect_uris : List Bytes
  pub confidential_redirect_uris : List Bytes

-- What a nil slice ranges over.
abbrev pub items : Option (List Bytes) → List Bytes
items none = []
items (some xs) = xs

-- The redirects of the variadic argument: none, one, or too many.
abbrev the_redirects : List OauthRedirectConfiguration → Result Error OauthRedirectConfiguration
the_redirects [] = ok (record { pkce = some []; confidential = some [] })
the_redirects (r ∷ []) = ok r
the_redirects (r ∷ q ∷ rs) = err internal

-- NewApplicationVersionReviewSnapshot.
unfoldable pub new_review_snapshot :
    Bytes
    → Bytes
    → ℤ
    → ℤ
    → (capabilities required optional : Option (List Bytes)) → List OauthRedirectConfiguration
    → Result Error ReviewSnapshot
new_review_snapshot label url lo hi capabilities required optional variadic = do
  redirects ← the_redirects variadic
  reject
      (is_empty label
        || not (valid_string label)
        || is_empty url
        || ltb_ℤ lo (pos 1)
        || leb_ℤ hi lo
        || not (strictly_sorted_unique capabilities)
        || not (strictly_sorted_unique required)
        || not (strictly_sorted_unique optional)
        || has_overlap (items required) (items optional)
        || not (strictly_sorted_unique redirects.pkce)
        || not (strictly_sorted_unique redirects.confidential)
        || has_overlap (items redirects.pkce) (items redirects.confidential))
      internal
  ok (record {
    version_label = label;
    launch_url = url;
    rpc_api_min_version = lo;
    rpc_api_max_version_exclusive = hi;
    required_capabilities = items capabilities;
    required_scopes = items required;
    optional_scopes = items optional;
    pkce_redirect_uris = items redirects.pkce;
    confidential_redirect_uris = items redirects.confidential;
  })
