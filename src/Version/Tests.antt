-- ===== src/Version/Tests.antt =====
-- The theorems on capability sets and scope requests at concrete input.
use iwut_app_center.Prelude.{
  all, length, true, false, ◌&&◌, List, [], ◌∷◌, Bytes, bytes_eq, bytes_lt, codes, ok, ◌≡◌, refl,
}
use iwut_app_center.Shared.Utf8.{decode, runes, valid_string}
use iwut_app_center.Shared.Sorting.{sort_by}
use iwut_app_center.Publication.Snapshot.{contains, has_overlap}
use iwut_app_center.Version.Label.{new_version_label, label_is_valid}
use iwut_app_center.Version.Names.{
  code_point_less, is_capability_name, new_capability_set, ScopeRequest, new_scope_request,
}
use iwut_app_center.Version.Capabilities.{new_capability_set_sound}
use iwut_app_center.Version.Members.{is_sorted_by, new_scope_request_sound}

unfoldable tests : Unit {0}
unfolding bytes_eq bytes_lt decode runes valid_string sort_by contains has_overlap new_version_label
    label_is_valid code_point_less is_capability_name new_capability_set new_scope_request
tests = tt

abbrev capabilities : List Bytes
capabilities = codes "app.share.v2" ∷ codes "app.location.v1" ∷ []

abbrev sorted_capabilities : List Bytes
sorted_capabilities = codes "app.location.v1" ∷ codes "app.share.v2" ∷ []

capabilities_accepted : new_capability_set capabilities ≡ ok sorted_capabilities
unfolding tests
capabilities_accepted = refl

unversioned : is_capability_name (codes "app.share") ≡ false
unfolding tests
unversioned = refl

space_at_end : label_is_valid (codes "1.0 ") ≡ false
unfolding tests
space_at_end = refl

new_capability_set_sound_example :
    (contains sorted_capabilities (codes "app.share.v2")
      ≡ contains capabilities (codes "app.share.v2"))
    × (length sorted_capabilities ≡ length capabilities)
    × (all is_capability_name sorted_capabilities ≡ true)
    × (is_sorted_by code_point_less sorted_capabilities ≡ true)
new_capability_set_sound_example =
    new_capability_set_sound capabilities sorted_capabilities (codes "app.share.v2")
      capabilities_accepted

abbrev required : List Bytes
required = codes "profile" ∷ codes "email" ∷ []

abbrev optional : List Bytes
optional = codes "phone" ∷ []

abbrev request : ScopeRequest
request = record { required = codes "email" ∷ codes "profile" ∷ []; optional = optional }

request_accepted : new_scope_request required optional ≡ ok request
unfolding tests
request_accepted = refl

new_scope_request_sound_example :
    (contains request.required (codes "email") ≡ contains required (codes "email"))
    × (contains request.optional (codes "email") ≡ contains optional (codes "email"))
    × ((contains request.required (codes "email") && contains request.optional (codes "email"))
        ≡ false)
new_scope_request_sound_example =
    new_scope_request_sound required optional request (codes "email") request_accepted
