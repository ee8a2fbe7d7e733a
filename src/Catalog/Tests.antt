-- ===== src/Catalog/Tests.antt =====
-- Concrete inputs of internal/catalog and of the pages that the MongoDB repository answers.
use iwut_app_center.Prelude.{
  ◌||◌, ◌↔◌, ℕ, pos, true, false, not, ◌&&◌, Option, none, some, List, [], ◌∷◌, ◌++◌, Bytes, codes,
  bytes_eq, bytes_lt, is_empty, length, take, drop, ok, err, ◌≡◌, refl, ap, arith,
}
use iwut_app_center.Shared.Uuid.{is_uuid_v7, to_lower, lower, parse_application_id}
use iwut_app_center.Shared.Sorting.{insert_by, sort_by}
use iwut_app_center.Publication.Snapshot.{contains, compact, compact_after}
use iwut_app_center.Version.Names.{is_capability_name}
use iwut_app_center.Catalog.Names.{matches_capability_name, matches_capability_name-eq, reads}
use iwut_app_center.Catalog.Sets.{
  normalize_host_capabilities, missing_capabilities, missing_from, contains-missing_capabilities,
}
use iwut_app_center.Catalog.Launch.{Descriptor, LaunchTarget, channel_is_valid, channel_grey}
use iwut_app_center.Catalog.Resolve.{
  ResolveQuery, Resolver, answers, resolve_launch_target, resolve_launch_target_sound,
}
use iwut_app_center.Catalog.Pages.{
  Entry, Cursor, Page, Codec, encode_catalog_cursor, decode_catalog_cursor,
}
use iwut_app_center.Catalog.Public.{
  PublicRepository, ListPublicApplicationsQuery, page_token_refused, list, Asked, list-Asked,
}
use iwut_app_center.Catalog.Scanned.{eligible}
use iwut_app_center.Catalog.Follow.{
  ReadsBack, Consistent, encode_catalog_cursor-decode_catalog_cursor, follow_tokens,
  follow_tokens-eligible,
}

matches_capability_name-eq_example :
    matches_capability_name (codes "host.user2.v1") ≡ is_capability_name (codes "host.user2.v1")
matches_capability_name-eq_example = matches_capability_name-eq (codes "host.user2.v1")

name_accepted : matches_capability_name (codes "host.user2.v1") ≡ true
unfolding matches_capability_name reads
name_accepted = refl

name_refused : matches_capability_name (codes "host..v1") ≡ false
unfolding matches_capability_name reads
name_refused = refl

abbrev camera : Bytes
camera = codes "host.camera.v1"

abbrev storage : Bytes
storage = codes "host.storage.v2"

contains-missing_capabilities_example :
    contains (missing_capabilities (camera ∷ storage ∷ []) (storage ∷ [])) camera
    ≡ (contains (camera ∷ storage ∷ []) camera && not (contains (storage ∷ []) camera))
contains-missing_capabilities_example =
    contains-missing_capabilities (camera ∷ storage ∷ []) (storage ∷ []) camera

one_missing : missing_capabilities (camera ∷ storage ∷ []) (storage ∷ []) ≡ camera ∷ []
unfolding missing_capabilities missing_from contains compact compact_after sort_by insert_by
    bytes_eq bytes_lt
one_missing = refl

abbrev first_id : Bytes
first_id = codes "01890a5d-ac96-774b-bcce-b302099a8057"

abbrev second_id : Bytes
second_id = codes "01890a5d-ac96-774b-bcce-b302099a8058"

abbrev third_id : Bytes
third_id = codes "01890a5d-ac96-774b-bcce-b302099a8059"

abbrev descriptor : Descriptor
descriptor = record {
  application_id = first_id;
  publication_id = second_id;
  publication_revision = pos 4;
  rpc_api_major = pos 2;
  version_id = third_id;
  version_label = codes "1.0";
  launch_url = codes "https://app.example/";
  rpc_api_min_version = pos 1;
  rpc_api_max_version_exclusive = pos 3;
  required_capabilities = camera ∷ [];
  required_scopes = codes "profile" ∷ [];
  optional_scopes = [];
}

abbrev target : LaunchTarget
target = record { descriptor = descriptor; channel = channel_grey }

abbrev resolver : Option (Resolver LaunchTarget)
resolver = some (λ id identity major host. ok (some target))

abbrev query : ResolveQuery
query = record {
  application_id = first_id;
  host_rpc_api_major = pos 2;
  host_capabilities = storage ∷ camera ∷ storage ∷ [];
}

resolved_grey : resolve_launch_target resolver (codes "7") query ≡ ok target
unfolding resolve_launch_target answers channel_is_valid parse_application_id to_lower lower
    is_uuid_v7 normalize_host_capabilities matches_capability_name reads missing_capabilities
    missing_from contains compact compact_after sort_by insert_by bytes_eq bytes_lt
resolved_grey = refl

needs_camera : contains descriptor.required_capabilities camera ≡ true
unfolding contains bytes_eq
needs_camera = refl

resolve_launch_target_sound_example :
    (parse_application_id first_id ≡ some first_id)
    × (pos 2 ≡ pos 2)
    × (channel_is_valid channel_grey ≡ true)
    × ((not (contains target.descriptor.required_capabilities camera)
          || contains (storage ∷ camera ∷ storage ∷ []) camera)
        ≡ true)
resolve_launch_target_sound_example =
    resolve_launch_target_sound resolver (codes "7") query target camera resolved_grey

-- A codec that writes the fields one after another, with the length of the first text.
write_cursor : Cursor → Bytes
write_cursor c = c.version ∷ length c.last ∷ c.last ++ c.fingerprint

read_cursor : Bytes → Option Cursor
read_cursor (v ∷ n ∷ cs) = some (record { version = v; last = take n cs; fingerprint = drop n cs })
read_cursor _ = none

abbrev codec : Codec
codec = record {
  marshal = write_cursor;
  unmarshal = read_cursor;
  fingerprint = λ major host. length host ∷ [];
}

take-front : (xs ys : Bytes) → take (length xs) (xs ++ ys) ≡ xs
take-front [] ys = refl
take-front (x ∷ xs) ys = ap (λ l. x ∷ l) (take-front xs ys)

drop-front : (xs ys : Bytes) → drop (length xs) (xs ++ ys) ≡ ys
drop-front [] ys = refl
drop-front (x ∷ xs) ys = drop-front xs ys

codec-ReadsBack : ReadsBack codec
unfolding write_cursor read_cursor
codec-ReadsBack = record {
  reads_back = λ c. rw (take-front c.last c.fingerprint, drop-front c.last c.fingerprint) refl;
  some_text = λ c. refl;
}

abbrev token : Bytes
unfolding write_cursor
token = write_cursor (record { version = 1; last = second_id; fingerprint = 1 ∷ [] })

token_written : encode_catalog_cursor codec (pos 2) (camera ∷ []) second_id ≡ ok token
unfolding encode_catalog_cursor is_uuid_v7 token write_cursor
token_written = refl

encode_catalog_cursor-decode_catalog_cursor_example :
    (is_empty token ≡ false)
    × (decode_catalog_cursor codec (pos 2) (camera ∷ []) token ≡ ok second_id)
encode_catalog_cursor-decode_catalog_cursor_example =
    encode_catalog_cursor-decode_catalog_cursor codec (pos 2) (camera ∷ []) second_id token
      codec-ReadsBack token_written

-- The second application is not shown.
abbrev store : List (Entry ℕ)
store =
    record { application_id = first_id; answer = ok (some (10, 300)) }
    ∷ record { application_id = second_id; answer = ok none }
    ∷ record { application_id = third_id; answer = ok (some (30, 300)) }
    ∷ []

store-Consistent : Consistent store
unfolding bytes_lt is_uuid_v7
store-Consistent = record {
  sorted = ((refl, (refl, tt)), ((refl, tt), (tt, tt)));
  valid = (refl, (refl, (refl, tt)));
  fine = (refl, (refl, (refl, tt)));
}

follow_tokens-eligible_example :
    follow_tokens codec (pos 2) (camera ∷ []) 4 store 1 [] ≡ some (ok (eligible store))
follow_tokens-eligible_example =
    follow_tokens-eligible codec (pos 2) (camera ∷ []) 4 store 1 codec-ReadsBack store-Consistent
      (omega arith)

two_shown : eligible store ≡ (first_id, 10) ∷ (third_id, 30) ∷ []
unfolding eligible
two_shown = refl

abbrev shown_page : Page ℕ
shown_page = record { items = (first_id, 10) ∷ []; next_page_token = [] }

abbrev repository : PublicRepository ℕ
repository = record {
  list_public = λ identity major host size token. ok (some shown_page);
  get_public = λ id identity major host. err page_token_refused;
}

abbrev list_query : ListPublicApplicationsQuery
list_query = record {
  runtime = record { host_rpc_api_major = pos 2; host_capabilities = camera ∷ [] };
  page_size = pos 0;
  page_token = [];
}

page_listed : list (some repository) (codes "7") list_query ≡ ok shown_page
unfolding list normalize_host_capabilities matches_capability_name reads compact compact_after
    sort_by insert_by bytes_eq bytes_lt
page_listed = refl

list-Asked_example :
    (list (some repository) (codes "7") list_query ≡ ok shown_page)
    ↔ Asked repository (codes "7") list_query shown_page
list-Asked_example = list-Asked repository (codes "7") list_query shown_page
