-- ===== src/Version/Redirects.antt =====
-- internal/version/domain/oauth_redirect_configuration.go: the URIs to which an authorisation may return,
-- in one set for each type of client.
use iwut_app_center.Prelude.{
  ℕ, ltb, leb, ◌==◌, Bool, true, false, not, ◌&&◌, ◌||◌, any, all, Option, none, some, List, [],
  ◌∷◌, Bytes, codes, bytes_eq, bytes_lt, is_empty, is_some, length, Result, ok, err, ◌>>◌, ◌>>=◌,
  reject,
}
use iwut_app_center.Shared.Uuid.{to_lower}
use iwut_app_center.Shared.Utf8.{runes}
use iwut_app_center.Shared.Sorting.{sort_by}
use iwut_app_center.Publication.Snapshot.{contains, has_overlap}
use iwut_app_center.Review.Snapshot.{strings_equal}
use iwut_app_center.Version.{Error, invalid_oauth_redirects}
use iwut_app_center.Version.Names.{split_dots}
use iwut_app_center.Version.Urls.{ParsedUrl, Urls, has_suffix, maximum_launch_url_bytes}

abbrev pub maximum_redirect_uris : ℕ
maximum_redirect_uris = 10

abbrev reserved_response_parameters : List Bytes
reserved_response_parameters =
    codes "code"
    ∷ codes "state"
    ∷ codes "iss"
    ∷ codes "error"
    ∷ codes "error_description"
    ∷ codes "error_uri"
    ∷ []

abbrev special_use_domain_names : List Bytes
special_use_domain_names =
    codes "alt"
    ∷ codes "6tisch.arpa"
    ∷ codes "eap.arpa"
    ∷ codes "eap-noob.arpa"
    ∷ codes "home.arpa"
    ∷ codes "10.in-addr.arpa"
    ∷ codes "254.169.in-addr.arpa"
    ∷ codes "16.172.in-addr.arpa"
    ∷ codes "17.172.in-addr.arpa"
    ∷ codes "18.172.in-addr.arpa"
    ∷ codes "19.172.in-addr.arpa"
    ∷ codes "20.172.in-addr.arpa"
    ∷ codes "21.172.in-addr.arpa"
    ∷ codes "22.172.in-addr.arpa"
    ∷ codes "23.172.in-addr.arpa"
    ∷ codes "24.172.in-addr.arpa"
    ∷ codes "25.172.in-addr.arpa"
    ∷ codes "26.172.in-addr.arpa"
    ∷ codes "27.172.in-addr.arpa"
    ∷ codes "28.172.in-addr.arpa"
    ∷ codes "29.172.in-addr.arpa"
    ∷ codes "30.172.in-addr.arpa"
    ∷ codes "31.172.in-addr.arpa"
    ∷ codes "170.0.0.192.in-addr.arpa"
    ∷ codes "171.0.0.192.in-addr.arpa"
    ∷ codes "168.192.in-addr.arpa"
    ∷ codes "8.e.f.ip6.arpa"
    ∷ codes "9.e.f.ip6.arpa"
    ∷ codes "a.e.f.ip6.arpa"
    ∷ codes "b.e.f.ip6.arpa"
    ∷ codes "ipv4only.arpa"
    ∷ codes "resolver.arpa"
    ∷ codes "service.arpa"
    ∷ codes "example"
    ∷ codes "example.com"
    ∷ codes "example.net"
    ∷ codes "example.org"
    ∷ codes "invalid"
    ∷ codes "local"
    ∷ codes "localhost"
    ∷ codes "onion"
    ∷ codes "test"
    ∷ []

pub record OauthRedirects : Type 0 where
  pub pkce_uris : List Bytes
  pub confidential_uris : List Bytes

-- The two dots of strings.Contains(host, "..").
unfoldable pub has_two_dots : Bytes → Bool
has_two_dots (c ∷ d ∷ ds) = (c == b'.' && d == b'.') || has_two_dots (d ∷ ds)
has_two_dots _ = false

abbrev starts_with : ℕ → Bytes → Bool
starts_with c [] = false
starts_with c (x ∷ xs) = x == c

unfoldable pub ends_with : ℕ → Bytes → Bool
ends_with c [] = false
ends_with c (x ∷ []) = x == c
ends_with c (x ∷ y ∷ ys) = ends_with c (y ∷ ys)

abbrev is_label_char : ℕ → Bool
is_label_char c = (leb b'a' c && leb c b'z') || (leb b'0' c && leb c b'9') || c == b'-'

-- One label of the loop over strings.Split(host, ".").
unfoldable pub label_is_canonical : Bytes → Bool
unfolding ends_with
label_is_canonical label =
    not (is_empty label || ltb 63 (length label) || starts_with b'-' label || ends_with b'-' label)
    && all is_label_char (runes label)

unfoldable pub canonical_oauth_hostname : Bytes → Result Error Bytes
unfolding has_two_dots ends_with label_is_canonical split_dots
canonical_oauth_hostname host = do
  reject (is_empty host || starts_with b'.' host || ends_with b'.' host || has_two_dots host)
      invalid_oauth_redirects
  reject (any (λ c. ltb 127 c || (leb b'A' c && leb c b'Z')) (runes host)) invalid_oauth_redirects
  reject (not (all label_is_canonical (split_dots host))) invalid_oauth_redirects
  reject (ltb 253 (length host)) invalid_oauth_redirects
  ok host

unfoldable pub is_special_use_hostname : Bytes → Bool
unfolding has_suffix
is_special_use_hostname host =
    any (λ special. bytes_eq host special || has_suffix host (b'.' ∷ special))
      special_use_domain_names

abbrev canonical_host : Bytes → Result Error Bytes → Bool
canonical_host host (err e) = false
canonical_host host (ok canonical) =
    bytes_eq host canonical && not (is_special_use_hostname canonical)

abbrev free_of_reserved : Option (List Bytes) → Bool
free_of_reserved none = false
free_of_reserved (some keys) = not (any (contains reserved_response_parameters) keys)

unfoldable pub redirects_equal : OauthRedirects → OauthRedirects → Bool
unfolding strings_equal
redirects_equal a b =
    strings_equal a.pkce_uris b.pkce_uris && strings_equal a.confidential_uris b.confidential_uris

abbrev same_redirects : OauthRedirects → Result Error OauthRedirects → Bool
same_redirects r (err e) = false
same_redirects r (ok v) = redirects_equal r v

module _ (urls : Urls) where
  -- A scheme that url.Parse finds is ASCII, so that EqualFold is equality of the small letters.
  abbrev parsed_is_valid : Bytes → Option ParsedUrl → Bool
  parsed_is_valid value none = false
  parsed_is_valid value (some u) =
      not (
        is_empty u.scheme
        || not (bytes_eq (to_lower u.scheme) (codes "https"))
        || is_empty u.host
        || is_empty u.hostname
        || u.has_user
        || not (is_empty u.fragment)
        || any (λ c. c == b'#') value)
      && not (any (λ c. c == b'*') u.hostname || is_some (urls.parse_ip u.hostname))
      && canonical_host u.hostname (canonical_oauth_hostname u.hostname)
      && free_of_reserved (urls.query_keys u.raw_query)

  unfoldable pub valid_oauth_redirect_uri : Bytes → Bool
  unfolding canonical_oauth_hostname is_special_use_hostname
  valid_oauth_redirect_uri value =
      not (is_empty value || ltb maximum_launch_url_bytes (length value))
      && parsed_is_valid value (urls.parse value)

  -- The loop of validateOAuthRedirectSet.
  unfoldable pub are_new_uris : List Bytes → List Bytes → Bool
  unfolding valid_oauth_redirect_uri
  are_new_uris seen [] = true
  are_new_uris seen (value ∷ values) =
      not (contains seen value || not (valid_oauth_redirect_uri value))
      && are_new_uris (value ∷ seen) values

  unfoldable pub validate_redirect_set : List Bytes → Result Error (List Bytes)
  unfolding are_new_uris sort_by
  validate_redirect_set values = do
    reject (not (are_new_uris [] values)) invalid_oauth_redirects
    ok (sort_by bytes_lt values)

  -- A nil slice is `none`. slices.BinarySearch finds what a sorted slice holds.
  abbrev given_uris : Option (List Bytes) → Option (List Bytes) → Result Error OauthRedirects
  given_uris (some pkce) (some confidential) = do
    reject
        (ltb maximum_redirect_uris (length pkce) || ltb maximum_redirect_uris (length confidential))
        invalid_oauth_redirects
    pkce_copy ← validate_redirect_set pkce
    confidential_copy ← validate_redirect_set confidential
    reject (has_overlap confidential_copy pkce_copy) invalid_oauth_redirects
    ok (record { pkce_uris = pkce_copy; confidential_uris = confidential_copy })
  given_uris _ _ = err invalid_oauth_redirects

  unfoldable pub new_oauth_redirects :
      Option (List Bytes) → Option (List Bytes) → Result Error OauthRedirects
  unfolding validate_redirect_set
  new_oauth_redirects pkce confidential = given_uris pkce confidential

  unfoldable pub redirects_are_valid : OauthRedirects → Bool
  unfolding new_oauth_redirects redirects_equal
  redirects_are_valid r =
      same_redirects r (new_oauth_redirects (some r.pkce_uris) (some r.confidential_uris))
