-- ===== src/Version/Names.antt =====
-- internal/version/domain/sort.go, capability_set.go and scope_request.go: the names of capabilities
-- and scopes, without repetition and in the order of their code points.
use iwut_app_center.Prelude.{
  ℕ, leb, ltb, ◌==◌, Bool, true, false, not, ◌&&◌, ◌||◌, all, length, Option, none, some, List, [],
  ◌∷◌, ◌++◌, Bytes, bytes_lt, Result, ok, err, ◌>>=◌, ◌>>◌, reject, if◌then◌else◌,
}
use iwut_app_center.Shared.Utf8.{runes}
use iwut_app_center.Shared.Sorting.{sort_by}
use iwut_app_center.Publication.Snapshot.{contains, has_overlap}
use iwut_app_center.Version.{Error, invalid_required_capability, invalid_application_scope}

-- The loop over the common part, then the lengths, then `tie`.
unfoldable pub runes_less : Bool → List ℕ → List ℕ → Bool
runes_less tie [] [] = tie
runes_less tie [] (y ∷ ys) = true
runes_less tie (x ∷ xs) [] = false
runes_less tie (x ∷ xs) (y ∷ ys) =
    let rest = runes_less tie xs ys in if not (x == y) then ltb x y else rest

unfoldable pub code_point_less : Bytes → Bytes → Bool
unfolding runes_less
code_point_less left right = runes_less (bytes_lt left right) (runes left) (runes right)

-- A byte in front of the first part.
abbrev onto_first : ℕ → List Bytes → List Bytes
onto_first c [] = (c ∷ []) ∷ []
onto_first c (part ∷ parts) = (c ∷ part) ∷ parts

-- strings.Split(value, "."), which has one part at least.
unfoldable pub split_dots : Bytes → List Bytes
split_dots [] = [] ∷ []
split_dots (c ∷ cs) = let rest = split_dots cs in if c == b'.' then [] ∷ rest else onto_first c rest

abbrev is_small : ℕ → Bool
is_small c = leb b'a' c && leb c b'z'

abbrev is_digit : ℕ → Bool
is_digit c = leb b'0' c && leb c b'9'

-- A part that is not the last: a letter, then letters and digits.
unfoldable pub is_name_part : Bytes → Bool
is_name_part [] = false
is_name_part (c ∷ cs) = is_small c && all (λ d. is_small d || is_digit d) cs

-- The last part: "v" and a number that does not start with 0.
unfoldable pub is_version_part : Bytes → Bool
is_version_part (v ∷ d ∷ ds) = v == b'v' && leb b'1' d && leb d b'9' && all is_digit (d ∷ ds)
is_version_part _ = false

unfoldable pub parts_are_valid : List Bytes → Bool
unfolding is_name_part is_version_part
parts_are_valid [] = false
parts_are_valid (last ∷ []) = is_version_part last
parts_are_valid (part ∷ next ∷ parts) = is_name_part part && parts_are_valid (next ∷ parts)

unfoldable pub is_capability_name : Bytes → Bool
unfolding split_dots parts_are_valid
is_capability_name value =
    let parts = split_dots value in not (ltb (length parts) 2) && parts_are_valid parts

-- The loop of NewCapabilitySet: whether each value is a name and was not seen before.
unfoldable pub are_new_names : List Bytes → List Bytes → Bool
unfolding is_capability_name
are_new_names seen [] = true
are_new_names seen (value ∷ values) =
    is_capability_name value && not (contains seen value) && are_new_names (value ∷ seen) values

unfoldable pub new_capability_set : List Bytes → Result Error (List Bytes)
unfolding are_new_names sort_by
new_capability_set values = do
  reject (not (are_new_names [] values)) invalid_required_capability
  ok (sort_by code_point_less values)

-- The loop of normalizeScopes.
unfoldable pub are_unseen : List Bytes → List Bytes → Bool
are_unseen seen [] = true
are_unseen seen (value ∷ values) = not (contains seen value) && are_unseen (value ∷ seen) values

unfoldable pub normalize_scopes : List Bytes → Option (List Bytes)
unfolding are_unseen sort_by
normalize_scopes values =
    if are_unseen [] values then some (sort_by code_point_less values) else none

pub record ScopeRequest : Type 0 where
  pub required : List Bytes
  pub optional : List Bytes

abbrev normalized_or_error : Option (List Bytes) → Result Error (List Bytes)
normalized_or_error none = err invalid_application_scope
normalized_or_error (some values) = ok values

unfoldable pub new_scope_request : List Bytes → List Bytes → Result Error ScopeRequest
unfolding normalize_scopes
new_scope_request required_values optional_values = do
  required ← normalized_or_error (normalize_scopes required_values)
  optional ← normalized_or_error (normalize_scopes optional_values)
  reject (has_overlap optional_values required_values) invalid_application_scope
  ok (record { required = required; optional = optional })

unfoldable pub all_scopes_of : ScopeRequest → List Bytes
unfolding sort_by
all_scopes_of request = sort_by code_point_less (request.required ++ request.optional)
