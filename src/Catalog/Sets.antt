-- ===== src/Catalog/Sets.antt =====
-- internal/catalog/domain/launch.go: the capabilities that a host declares, and those it lacks.
use iwut_app_center.Prelude.{
  not, ◌&&◌, ◌||◌, Bool-cases, inl, inr, all, List, [], ◌∷◌, Bytes, bytes_eq, bytes_eq_iff,
  bytes_eq_refl, bytes_lt, Result, ok, ◌>>◌, reject, if◌then◌else◌, ◌≡◌, refl, subst, ◌∙◌, arith,
}
use iwut_app_center.Shared.Sorting.{sort_by}
use iwut_app_center.Publication.Snapshot.{contains, compact, compact_after}
use iwut_app_center.Review.Confirmation.{contains-sort_by}
use iwut_app_center.Catalog.{Error, invalid_host_capabilities}
use iwut_app_center.Catalog.Names.{matches_capability_name}

-- The host's declaration as a set: repetitions are no error.
unfoldable pub normalize_host_capabilities : List Bytes → Result Error (List Bytes)
unfolding sort_by compact
normalize_host_capabilities values = do
  reject (not (all matches_capability_name values)) invalid_host_capabilities
  ok (compact (sort_by bytes_lt values))

-- The loop of MissingCapabilities.
unfoldable pub missing_from : List Bytes → List Bytes → List Bytes
missing_from host [] = []
missing_from host (v ∷ vs) =
    let rest = missing_from host vs in if contains host v then rest else v ∷ rest

unfoldable pub missing_capabilities : List Bytes → List Bytes → List Bytes
unfolding missing_from sort_by compact
missing_capabilities required host = compact (sort_by bytes_lt (missing_from host required))

contains-compact_after :
    (x : Bytes) (xs : List Bytes) (v : Bytes)
    → (bytes_eq v x || contains (compact_after x xs) v) ≡ (bytes_eq v x || contains xs v)
unfolding contains compact_after
contains-compact_after x [] v = refl
contains-compact_after x (y ∷ ys) v =
    ground
      (arith, contains-compact_after y ys v, bytes_eq_iff x y, bytes_eq_iff v x, bytes_eq_iff v y)

contains-compact : (xs : List Bytes) (v : Bytes) → contains (compact xs) v ≡ contains xs v
unfolding contains compact
contains-compact [] v = refl
contains-compact (x ∷ xs) v = ground (arith, contains-compact_after x xs v)

contains-missing_from :
    (host required : List Bytes) (v : Bytes)
    → contains (missing_from host required) v ≡ (contains required v && not (contains host v))
unfolding contains missing_from
contains-missing_from host [] v = refl
contains-missing_from host (x ∷ xs) v = elim (Bool-cases (bytes_eq v x)) [
  | inl same ↦
      subst
        (λ y.
          contains (missing_from host (y ∷ xs)) v ≡ (contains (y ∷ xs) v && not (contains host v)))
        ((bytes_eq_iff v x).0 same)
        (ground (arith, contains-missing_from host xs v, bytes_eq_refl v))
  | inr other ↦ ground (arith, contains-missing_from host xs v)
]

-- What is missing are the required capabilities that the host does not have.
pub contains-missing_capabilities :
    (required host : List Bytes) (v : Bytes)
    → contains (missing_capabilities required host) v
      ≡ (contains required v && not (contains host v))
unfolding missing_capabilities
contains-missing_capabilities required host v =
    contains-compact (sort_by bytes_lt (missing_from host required)) v
    ∙ contains-sort_by bytes_lt (missing_from host required) v
    ∙ contains-missing_from host required v

-- The set holds the declared capabilities.
pub contains-normalize_host_capabilities :
    (values s : List Bytes) (v : Bytes)
    → normalize_host_capabilities values ≡ ok s
    → contains s v ≡ contains values v
unfolding normalize_host_capabilities
contains-normalize_host_capabilities values s v h =
    let made : compact (sort_by bytes_lt values) ≡ s = ground arith in
    subst (λ l. contains l v ≡ contains values v) made
      (contains-compact (sort_by bytes_lt values) v ∙ contains-sort_by bytes_lt values v)
