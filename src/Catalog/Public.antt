-- ===== src/Catalog/Public.antt =====
-- internal/catalog/usecase/public_catalog.go: the checks before the repository is asked for a page or an
-- application, and what becomes of its answer.
use iwut_app_center.Prelude.{
  ℕ, ◌≤◌, ltb, ℤ, pos, ltb_ℤ, eqb_ℤ, false, not, ◌||◌, Option, none, some, List, Bytes, bytes_eq,
  length, Result, ok, err, ◌>>=◌, ◌>>◌, reject, ◌≡◌, ◌↔◌, refl, sym, arith, if◌then◌else◌,
}
use iwut_app_center.Shared.{AuthId}
use iwut_app_center.Shared.Uuid.{parse_application_id}
use iwut_app_center.Catalog.{
  Error, invalid_application_id, invalid_host_rpc_api_major, invalid_page_size, invalid_page_token,
  public_application_not_found, application_catalog_state_inconsistent, internal,
}
use iwut_app_center.Publication.Snapshot.{contains}
use iwut_app_center.Catalog.Sets.{normalize_host_capabilities, contains-normalize_host_capabilities}
use iwut_app_center.Catalog.Pages.{Page, Item}

abbrev pub default_page_size : ℤ
default_page_size = pos 20

abbrev pub max_page_size : ℤ
max_page_size = pos 100

abbrev pub max_page_token_bytes : ℕ
max_page_token_bytes = 4096

pub record CatalogRuntimeQuery : Type 0 where
  pub host_rpc_api_major : ℤ  -- int32
  pub host_capabilities : List Bytes

pub record ListPublicApplicationsQuery : Type 0 where
  pub runtime : CatalogRuntimeQuery
  pub page_size : ℤ  -- int32
  pub page_token : Bytes

pub record GetPublicApplicationQuery : Type 0 where
  pub application_id : Bytes
  pub runtime : CatalogRuntimeQuery

-- The errors that the repository is known to answer with; `unexpected` is any other error.
pub data RepositoryError : Type 0 where
  page_token_refused application_not_found state_inconsistent unexpected : RepositoryError

-- The repository; a pointer that it answers with may be nil. An application is found with its item.
pub record PublicRepository (A : Type 0) : Type 0 where
  pub list_public : AuthId → ℤ → List Bytes → ℤ → Bytes → Result RepositoryError (Option (Page A))
  pub get_public : Bytes → AuthId → ℤ → List Bytes → Result RepositoryError (Option (Item A))

abbrev map_public_catalog_error : RepositoryError → Error
map_public_catalog_error page_token_refused = invalid_page_token
map_public_catalog_error application_not_found = public_application_not_found
map_public_catalog_error state_inconsistent = application_catalog_state_inconsistent
map_public_catalog_error unexpected = internal

unfoldable pub validate_catalog_runtime : CatalogRuntimeQuery → Result Error (ℤ × List Bytes)
validate_catalog_runtime query = do
  reject (ltb_ℤ query.host_rpc_api_major (pos 1)) invalid_host_rpc_api_major
  capabilities ← normalize_host_capabilities query.host_capabilities
  ok (query.host_rpc_api_major, capabilities)

abbrev wired : {A : Type 0} → Option (PublicRepository A) → Result Error (PublicRepository A)
wired none = err internal
wired (some repository) = ok repository

abbrev answered : {B : Type 0} → Error → Result RepositoryError (Option B) → Result Error B
answered missing (err e) = err (map_public_catalog_error e)
answered missing (ok none) = err missing
answered missing (ok (some b)) = ok b

abbrev effective_page_size : ℤ → ℤ
effective_page_size size = if eqb_ℤ size (pos 0) then default_page_size else size

-- `list` of a handler without a repository is an internal error.
unfoldable pub list :
    {A : Type 0}
    → Option (PublicRepository A)
    → AuthId
    → ListPublicApplicationsQuery
    → Result Error (Page A)
unfolding validate_catalog_runtime
list repository identity query = do
  runtime ← validate_catalog_runtime query.runtime
  let page_size = effective_page_size query.page_size
  reject (ltb_ℤ page_size (pos 1) || ltb_ℤ max_page_size page_size) invalid_page_size
  reject (ltb max_page_token_bytes (length query.page_token)) invalid_page_token
  store ← wired repository
  answered internal (store.list_public identity runtime.0 runtime.1 page_size query.page_token)

abbrev parsed : Option Bytes → Result Error Bytes
parsed none = err invalid_application_id
parsed (some id) = ok id

unfoldable pub get :
    {A : Type 0}
    → Option (PublicRepository A)
    → AuthId
    → GetPublicApplicationQuery
    → Result Error (Item A)
unfolding validate_catalog_runtime
get repository identity query = do
  application_id ← parsed (parse_application_id query.application_id)
  runtime ← validate_catalog_runtime query.runtime
  store ← wired repository
  item ←
      answered application_catalog_state_inconsistent
        (store.get_public application_id identity runtime.0 runtime.1)
  reject (not (bytes_eq item.0 application_id)) application_catalog_state_inconsistent
  ok item

-- A request that is in bounds, and what the repository answers it with.
pub record Asked {A : Type 0} (store : PublicRepository A) (identity : AuthId)
    (query : ListPublicApplicationsQuery) (page : Page A) : Type 0 where
  pub size : ℤ
  pub host : List Bytes
  pub size_of : size ≡ (if eqb_ℤ query.page_size (pos 0) then pos 20 else query.page_size)
  pub at_least_one : ltb_ℤ size (pos 1) ≡ false
  pub at_most_hundred : ltb_ℤ (pos 100) size ≡ false
  pub major_given : ltb_ℤ query.runtime.host_rpc_api_major (pos 1) ≡ false
  pub token_fits : length query.page_token ≤ 4096
  pub normalized : normalize_host_capabilities query.runtime.host_capabilities ≡ ok host
  pub declared : (v : Bytes) → contains host v ≡ contains query.runtime.host_capabilities v
  pub asked :
      store.list_public identity query.runtime.host_rpc_api_major host size query.page_token
      ≡ ok (some page)

Asked-of_list :
    {A : Type 0}
    → (store : PublicRepository A) (identity : AuthId) (query : ListPublicApplicationsQuery)
      (page : Page A)
    → list (some store) identity query ≡ ok page
    → Asked store identity query page
unfolding list validate_catalog_runtime
Asked-of_list store identity query page h =
    by_host (normalize_host_capabilities query.runtime.host_capabilities) refl
  where
    size : ℤ
    size = effective_page_size query.page_size

    by_answer :
        (host : List Bytes)
        → normalize_host_capabilities query.runtime.host_capabilities ≡ ok host
        → (o : Result RepositoryError (Option (Page _)))
        → store.list_public identity query.runtime.host_rpc_api_major host size query.page_token ≡ o
        → Asked store identity query page
    by_answer host n (err e) a = absurd (ground arith)
    by_answer host n (ok none) a = absurd (ground arith)
    by_answer host n (ok (some p)) a = record {
      size = size;
      host = host;
      size_of = refl;
      at_least_one = ground arith;
      at_most_hundred = ground arith;
      major_given = ground arith;
      token_fits = ground arith;
      normalized = n;
      declared = λ v. contains-normalize_host_capabilities query.runtime.host_capabilities host v n;
      asked = ground arith;
    }

    by_host :
        (r : Result Error (List Bytes))
        → normalize_host_capabilities query.runtime.host_capabilities ≡ r
        → Asked store identity query page
    by_host (err e) n = absurd (ground arith)
    by_host (ok host) n =
        by_answer host n
          (store.list_public identity query.runtime.host_rpc_api_major host size query.page_token)
          refl

list-of_Asked :
    {A : Type 0}
    → (store : PublicRepository A) (identity : AuthId) (query : ListPublicApplicationsQuery)
      (page : Page A)
    → Asked store identity query page
    → list (some store) identity query ≡ ok page
unfolding list validate_catalog_runtime
list-of_Asked store identity query page a =
    let of_size : effective_page_size query.page_size ≡ a.size = sym a.size_of in
    let short : ltb max_page_token_bytes (length query.page_token) ≡ false =
      ground (arith, a.token_fits) in
    rw (a.major_given, a.normalized, of_size, a.at_least_one, a.at_most_hundred, short, a.asked)
      refl

-- A page is answered exactly where the request is in bounds and the repository answers with that page:
-- the size is 20 where none was given and else from 1 to 100, the API major is from 1 on, the token has
-- at most 4096 bytes, and the capabilities asked with are those that were declared, normalized.
pub list-Asked :
    {A : Type 0}
    → (store : PublicRepository A) (identity : AuthId) (query : ListPublicApplicationsQuery)
      (page : Page A)
    → (list (some store) identity query ≡ ok page) ↔ Asked store identity query page
list-Asked store identity query page =
    (Asked-of_list store identity query page, list-of_Asked store identity query page)
