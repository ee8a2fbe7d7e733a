-- ===== src/Version/Revalidated.antt =====
-- internal/version/domain: what the constructors make of a request passes the tests that a draft and a
-- version put their parts to.
use iwut_app_center.Prelude.{
  ℤ, ap₂, ltb, Bool, true, false, ◌&&◌, all, Option, none, some, List, [], ◌∷◌, Bytes,
  bytes_eq_refl, bytes_lt, bytes_lt_asymm, length, Result, ok, err, is_ok, ◌≡◌, refl, sym, ap, ◌∙◌,
  subst, arith,
}
use iwut_app_center.Shared.Sorting.{sort_by}
use iwut_app_center.Publication.Snapshot.{has_overlap}
use iwut_app_center.Review.Snapshot.{strings_equal}
use iwut_app_center.Version.{Error, RpcApiRange, new_rpc_api_range, range_is_valid}
use iwut_app_center.Version.Label.{new_version_label, label_is_valid}
use iwut_app_center.Version.Names.{
  code_point_less, is_capability_name, are_new_names, are_unseen, normalize_scopes,
  new_capability_set, ScopeRequest, new_scope_request,
}
use iwut_app_center.Version.Members.{is_sorted_by-sort_by, code_point_less_asym}
use iwut_app_center.Version.Urls.{
  Urls, ParsedUrl, LaunchUrl, same_url, new_launch_url, launch_url_is_valid,
}
use iwut_app_center.Version.Redirects.{
  OauthRedirects, maximum_redirect_uris, valid_oauth_redirect_uri, are_new_uris,
  validate_redirect_set, new_oauth_redirects, redirects_equal, redirects_are_valid,
}
use iwut_app_center.Version.Resorting.{
  sort_by-sorted, all-sort_by, length-sort_by, are_unseen-sort_by, has_overlap-sort_by,
}
use iwut_app_center.Version.Draft.{
  Replacement, capabilities_are_valid, scope_request_is_valid, content_is_valid, new_replacement,
}

pub strings_equal_refl : (xs : List Bytes) → strings_equal xs xs ≡ true
unfolding strings_equal
strings_equal_refl [] = refl
strings_equal_refl (x ∷ xs) = ground (arith, strings_equal_refl xs, bytes_eq_refl x)

sort_by_code_points_twice :
    (xs : List Bytes)
    → sort_by code_point_less (sort_by code_point_less xs) ≡ sort_by code_point_less xs
sort_by_code_points_twice xs =
    sort_by-sorted code_point_less (sort_by code_point_less xs)
      (is_sorted_by-sort_by code_point_less code_point_less_asym xs)

sort_by_bytes_twice :
    (xs : List Bytes) → sort_by bytes_lt (sort_by bytes_lt xs) ≡ sort_by bytes_lt xs
sort_by_bytes_twice xs =
    sort_by-sorted bytes_lt (sort_by bytes_lt xs) (is_sorted_by-sort_by bytes_lt bytes_lt_asymm xs)

-- The loop over capabilities is a test of each and a test of repetitions.
are_new_names-eq :
    (seen values : List Bytes)
    → are_new_names seen values ≡ (all is_capability_name values && are_unseen seen values)
unfolding are_new_names are_unseen
are_new_names-eq seen [] = refl
are_new_names-eq seen (x ∷ xs) = ground (arith, are_new_names-eq (x ∷ seen) xs)

are_new_uris-eq :
    (urls : Urls) (seen values : List Bytes)
    → are_new_uris urls seen values
      ≡ (all (valid_oauth_redirect_uri urls) values && are_unseen seen values)
unfolding are_new_uris are_unseen
are_new_uris-eq urls seen [] = refl
are_new_uris-eq urls seen (x ∷ xs) = ground (arith, are_new_uris-eq urls (x ∷ seen) xs)

label-valid :
    (value label : Bytes) → new_version_label value ≡ ok label → label_is_valid label ≡ true
unfolding label_is_valid new_version_label
label-valid value label h =
    let same : value ≡ label = ground arith in
    subst (λ l. is_ok (new_version_label l) ≡ true) same (ap is_ok h)

range-valid :
    (lo hi : ℤ) (r : RpcApiRange) → new_rpc_api_range lo hi ≡ ok r → range_is_valid r ≡ true
unfolding new_rpc_api_range range_is_valid
range-valid lo hi r h =
    let least : lo ≡ r.minimum = ground arith in
    let most : hi ≡ r.maximum_exclusive = ground arith in ground arith

capability_set-valid :
    (values s : List Bytes) → new_capability_set values ≡ ok s → capabilities_are_valid s ≡ true
unfolding new_capability_set capabilities_are_valid
capability_set-valid values s h =
    let names : are_new_names [] values ≡ true = ground arith in
    let made : sort_by code_point_less values ≡ s = ground arith in
    let still : are_new_names [] (sort_by code_point_less values) ≡ true =
      are_new_names-eq [] (sort_by code_point_less values)
      ∙ ap₂ (λ a b. a && b) (all-sort_by is_capability_name code_point_less values)
          (are_unseen-sort_by code_point_less [] values)
      ∙ sym (are_new_names-eq [] values)
      ∙ names in
    subst (λ l. capabilities_are_valid l ≡ true) made
      (rw (still, sort_by_code_points_twice values)
        (strings_equal_refl (sort_by code_point_less values)))

still_unseen :
    (less : Bytes → Bytes → Bool) (values : List Bytes)
    → are_unseen [] values ≡ true
    → are_unseen [] (sort_by less values) ≡ true
still_unseen less values h = are_unseen-sort_by less [] values ∙ h

new_scope_request-eq :
    (required optional : List Bytes) (r : ScopeRequest)
    → new_scope_request required optional ≡ ok r
    → (are_unseen [] required ≡ true)
      × (are_unseen [] optional ≡ true)
      × (has_overlap optional required ≡ false)
      × (r ≡ record {
        required = sort_by code_point_less required;
        optional = sort_by code_point_less optional;
      })
unfolding new_scope_request normalize_scopes
new_scope_request-eq required optional r h = ground arith

scope_request-valid :
    (required optional : List Bytes) (r : ScopeRequest)
    → new_scope_request required optional ≡ ok r
    → scope_request_is_valid r ≡ true
unfolding new_scope_request normalize_scopes scope_request_is_valid
scope_request-valid required optional r h =
    let (first, second, apart, made) = new_scope_request-eq required optional r h in
    let left = sort_by code_point_less required in
    let right = sort_by code_point_less optional in
    subst (λ s. scope_request_is_valid s ≡ true) (sym made)
      (rw
        (
          still_unseen code_point_less required first,
          still_unseen code_point_less optional second,
          sort_by_code_points_twice required,
          sort_by_code_points_twice optional,
          has_overlap-sort_by code_point_less optional required ∙ apart,
          strings_equal_refl left,
          strings_equal_refl right,
        )
        refl)

value-of_launch_url :
    (urls : Urls) (value : Bytes) (u : LaunchUrl)
    → new_launch_url urls value ≡ ok u
    → value ≡ u.value
unfolding new_launch_url
value-of_launch_url urls value u h = by_parsed (urls.parse value) refl
  where
    by_parsed : (p : Option ParsedUrl) → urls.parse value ≡ p → value ≡ u.value
    by_parsed none e = absurd (ground arith)
    by_parsed (some p) e = ground arith

same_url_refl : (u : LaunchUrl) → same_url u (ok u) ≡ true
same_url_refl u = ground (arith, bytes_eq_refl u.value)

launch_url-valid :
    (urls : Urls) (value : Bytes) (u : LaunchUrl)
    → new_launch_url urls value ≡ ok u
    → launch_url_is_valid urls u ≡ true
unfolding launch_url_is_valid
launch_url-valid urls value u h =
    subst (λ v. same_url u (new_launch_url urls v) ≡ true) (value-of_launch_url urls value u h)
      (ap (same_url u) h ∙ same_url_refl u)

validate_redirect_set-eq :
    (urls : Urls) (values s : List Bytes)
    → validate_redirect_set urls values ≡ ok s
    → (are_new_uris urls [] values ≡ true) × (s ≡ sort_by bytes_lt values)
unfolding validate_redirect_set
validate_redirect_set-eq urls values s h = ground arith

-- A set that was checked is accepted again, as it is.
validate_redirect_set-again :
    (urls : Urls) (values : List Bytes)
    → are_new_uris urls [] values ≡ true
    → validate_redirect_set urls (sort_by bytes_lt values) ≡ ok (sort_by bytes_lt values)
unfolding validate_redirect_set
validate_redirect_set-again urls values h =
    let still : are_new_uris urls [] (sort_by bytes_lt values) ≡ true =
      are_new_uris-eq urls [] (sort_by bytes_lt values)
      ∙ ap₂ (λ a b. a && b) (all-sort_by (valid_oauth_redirect_uri urls) bytes_lt values)
          (are_unseen-sort_by bytes_lt [] values)
      ∙ sym (are_new_uris-eq urls [] values)
      ∙ h in
    rw (still, sort_by_bytes_twice values) refl

redirects-valid :
    (urls : Urls) (pkce confidential : List Bytes) (r : OauthRedirects)
    → new_oauth_redirects urls (some pkce) (some confidential) ≡ ok r
    → redirects_are_valid urls r ≡ true
unfolding new_oauth_redirects redirects_are_valid redirects_equal
redirects-valid urls pkce confidential r h =
    by_sets (validate_redirect_set urls pkce) (validate_redirect_set urls confidential) refl refl
  where
    by_sets :
        (a b : Result Error (List Bytes))
        → validate_redirect_set urls pkce ≡ a
        → validate_redirect_set urls confidential ≡ b
        → redirects_are_valid urls r ≡ true
    by_sets (err x) b e f = absurd (ground arith)
    by_sets (ok p) (err x) e f = absurd (ground arith)
    by_sets (ok p) (ok c) e f =
        let (new_p, sorted_p) = validate_redirect_set-eq urls pkce p e in
        let (new_c, sorted_c) = validate_redirect_set-eq urls confidential c f in
        let again_p : validate_redirect_set urls p ≡ ok p =
          subst (λ l. validate_redirect_set urls l ≡ ok l) (sym sorted_p)
            (validate_redirect_set-again urls pkce new_p) in
        let again_c : validate_redirect_set urls c ≡ ok c =
          subst (λ l. validate_redirect_set urls l ≡ ok l) (sym sorted_c)
            (validate_redirect_set-again urls confidential new_c) in
        let long_p : length p ≡ length pkce = ap length sorted_p ∙ length-sort_by bytes_lt pkce in
        let long_c : length c ≡ length confidential =
          ap length sorted_c ∙ length-sort_by bytes_lt confidential in
        let first : p ≡ r.pkce_uris = ground arith in
        let second : c ≡ r.confidential_uris = ground arith in
        let apart : has_overlap c p ≡ false = ground arith in
        let few_p : ltb maximum_redirect_uris (length p) ≡ false = ground arith in
        let few_c : ltb maximum_redirect_uris (length c) ≡ false = ground arith in
        let whole : redirects_are_valid urls (record { pkce_uris = p; confidential_uris = c })
            ≡ true =
          rw (few_p, few_c, again_p, again_c, apart, strings_equal_refl p, strings_equal_refl c)
            refl in
        subst
          (λ l.
            redirects_are_valid urls
              (record { pkce_uris = l; confidential_uris = r.confidential_uris })
            ≡ true)
          first
          (subst
            (λ l. redirects_are_valid urls (record { pkce_uris = p; confidential_uris = l }) ≡ true)
            second whole)

-- What the constructors of the six parts make of any request passes the test of each part, so that
-- NewDraftApplicationVersionReplacementWithOAuth accepts the six of them.
pub new_replacement-accepts :
    (urls : Urls) (value url : Bytes) (lo hi : ℤ) (capabilities required optional : List Bytes)
    (pkce confidential : List Bytes) (r : Replacement)
    → new_version_label value ≡ ok r.version_label
    → new_launch_url urls url ≡ ok r.launch_url
    → new_rpc_api_range lo hi ≡ ok r.rpc_api_range
    → new_capability_set capabilities ≡ ok r.required_capabilities
    → new_scope_request required optional ≡ ok r.scope_request
    → new_oauth_redirects urls (some pkce) (some confidential) ≡ ok r.oauth_redirects
    → new_replacement urls r ≡ ok r
unfolding content_is_valid new_replacement
new_replacement-accepts urls value url lo hi capabilities required optional pkce confidential r a b
      c d e f =
    rw
      (
        label-valid value r.version_label a,
        launch_url-valid urls url r.launch_url b,
        range-valid lo hi r.rpc_api_range c,
        capability_set-valid capabilities r.required_capabilities d,
        scope_request-valid required optional r.scope_request e,
        redirects-valid urls pkce confidential r.oauth_redirects f,
      )
      refl
