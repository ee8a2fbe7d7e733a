-- ===== src/Catalog/Resolve.antt =====
-- internal/catalog/usecase/unified_launch.go and test_launch.go: resolving the version to launch, over
-- the resolvers of internal/catalog/port.
use iwut_app_center.Prelude.{
  ℤ, pos, ltb_ℤ, eqb_ℤ, eqb_ℤ_iff, Bool, true, false, not, ◌&&◌, ◌||◌, Option, none, some, List, [],
  ◌∷◌, Bytes, bytes_eq, bytes_eq_iff, length, ltb, Result, ok, err, ◌>>=◌, ◌>>◌, reject, ◌≡◌, ◌∙◌,
  ap, sym, refl, arith,
}
use iwut_app_center.Shared.{AuthId, auth_id_is_valid}
use iwut_app_center.Shared.Uuid.{parse_application_id}
use iwut_app_center.Publication.Snapshot.{contains}
use iwut_app_center.Catalog.{
  Error, authenticated_user_required, invalid_application_id, invalid_host_rpc_api_major,
  host_capabilities_insufficient, application_not_found, application_tester_required,
  application_test_target_unavailable, application_test_publication_inconsistent,
  application_launch_target_unavailable, application_runtime_state_inconsistent, internal,
}
use iwut_app_center.Catalog.Launch.{Descriptor, LaunchTarget, channel_is_valid}
use iwut_app_center.Catalog.Sets.{
  normalize_host_capabilities, missing_capabilities, contains-missing_capabilities,
  contains-normalize_host_capabilities,
}

pub record ResolveQuery : Type 0 where
  pub application_id : Bytes
  pub host_rpc_api_major : ℤ  -- int32
  pub host_capabilities : List Bytes

-- What the resolvers answer with when they fail; `unexpected` is any other error.
pub data PortError : Type 0 where
  not_found tester_required target_unavailable inconsistent insufficient unexpected : PortError

abbrev pub Resolver : Type 0 → Type 0
Resolver A = Bytes → AuthId → ℤ → List Bytes → Result PortError (Option A)

abbrev map_unified_resolver_error : PortError → Error
map_unified_resolver_error not_found = application_not_found
map_unified_resolver_error target_unavailable = application_launch_target_unavailable
map_unified_resolver_error inconsistent = application_runtime_state_inconsistent
map_unified_resolver_error _ = internal

abbrev map_resolver_error : PortError → Error
map_resolver_error not_found = application_not_found
map_resolver_error tester_required = application_tester_required
map_resolver_error target_unavailable = application_test_target_unavailable
map_resolver_error inconsistent = application_test_publication_inconsistent
map_resolver_error insufficient = host_capabilities_insufficient
map_resolver_error unexpected = internal

abbrev resolved : {A : Type 0} → (PortError → Error) → Result PortError (Option A) → Result Error A
resolved f (err e) = err (f e)
resolved f (ok none) = err internal
resolved f (ok (some d)) = ok d

abbrev parsed : Option Bytes → Result Error Bytes
parsed none = err invalid_application_id
parsed (some id) = ok id

-- A handler without a resolver is `none`.
abbrev resolver_of : {A : Type 0} → Option (Resolver A) → Result Error (Resolver A)
resolver_of none = err internal
resolver_of (some resolve) = ok resolve

-- What the caller asked for and the descriptor must have.
unfoldable pub answers : Descriptor → Bytes → ℤ → List Bytes → Bool
answers d application_id major host =
    bytes_eq d.application_id application_id
    && eqb_ℤ d.rpc_api_major major
    && not (ltb 0 (length (missing_capabilities d.required_capabilities host)))

unfoldable pub resolve_launch_target :
    Option (Resolver LaunchTarget) → AuthId → ResolveQuery → Result Error LaunchTarget
unfolding answers channel_is_valid
resolve_launch_target resolver identity query = do
  application_id ← parsed (parse_application_id query.application_id)
  reject (ltb_ℤ query.host_rpc_api_major (pos 1)) invalid_host_rpc_api_major
  host ← normalize_host_capabilities query.host_capabilities
  resolve ← resolver_of resolver
  target ←
      resolved map_unified_resolver_error
        (resolve application_id identity query.host_rpc_api_major host)
  reject
      (not (answers target.descriptor application_id query.host_rpc_api_major host)
        || not (channel_is_valid target.channel))
      application_runtime_state_inconsistent
  ok target

unfoldable pub resolve_test_launch_target :
    Option (Resolver Descriptor) → AuthId → ResolveQuery → Result Error Descriptor
unfolding answers
resolve_test_launch_target resolver identity query = do
  reject (not (auth_id_is_valid identity)) authenticated_user_required
  application_id ← parsed (parse_application_id query.application_id)
  reject (ltb_ℤ query.host_rpc_api_major (pos 1)) invalid_host_rpc_api_major
  host ← normalize_host_capabilities query.host_capabilities
  resolve ← resolver_of resolver
  d ← resolved map_resolver_error (resolve application_id identity query.host_rpc_api_major host)
  reject (not (answers d application_id query.host_rpc_api_major host))
      application_test_publication_inconsistent
  ok d

no_missing :
    (required host : List Bytes) (v : Bytes)
    → ltb 0 (length (missing_capabilities required host)) ≡ false
    → contains required v ≡ true
    → contains host v ≡ true
unfolding contains
no_missing required host v h c = by_missing (missing_capabilities required host) refl
  where
    by_missing : (l : List Bytes) → missing_capabilities required host ≡ l → contains host v ≡ true
    by_missing [] e = ground (arith, contains-missing_capabilities required host v)
    by_missing (x ∷ xs) e = ground arith

answers-eq :
    (d : Descriptor) (id : Bytes) (major : ℤ) (host : List Bytes)
    → answers d id major host ≡ true
    → (d.application_id ≡ id)
      × (d.rpc_api_major ≡ major)
      × (ltb 0 (length (missing_capabilities d.required_capabilities host)) ≡ false)
unfolding answers
answers-eq d id major host h =
    ground (arith, bytes_eq_iff d.application_id id, eqb_ℤ_iff d.rpc_api_major major)

-- The checks on a target, where its application and the host's capabilities are known.
checks-of_ok :
    (resolver : Option (Resolver LaunchTarget)) (identity : AuthId) (query : ResolveQuery)
    (target : LaunchTarget) (o : Option Bytes) (r : Result Error (List Bytes))
    → parse_application_id query.application_id ≡ o
    → normalize_host_capabilities query.host_capabilities ≡ r
    → resolve_launch_target resolver identity query ≡ ok target
    → (id : Bytes) × (host : List Bytes) × (o ≡ some id)
      × (r ≡ ok host)
      × (answers target.descriptor id query.host_rpc_api_major host ≡ true)
      × (channel_is_valid target.channel ≡ true)
unfolding resolve_launch_target
checks-of_ok resolver identity query target none r p n h = absurd (ground arith)
checks-of_ok resolver identity query target (some id) (err e) p n h = absurd (ground arith)
checks-of_ok none identity query target (some id) (ok host) p n h = absurd (ground arith)
checks-of_ok (some resolve) identity query target (some id) (ok host) p n h =
    (id, host, refl, refl, ground arith, ground arith)

-- Whatever the resolver answers, a target that is returned is of the application that was asked for,
-- at the host's own API major, on a known channel, and every capability that it requires is one that the
-- host declared; the first three hold of a target that requires none, too.
pub resolve_launch_target_sound :
    (resolver : Option (Resolver LaunchTarget)) (identity : AuthId) (query : ResolveQuery)
    (target : LaunchTarget) (v : Bytes)
    → resolve_launch_target resolver identity query ≡ ok target
    → (parse_application_id query.application_id ≡ some target.descriptor.application_id)
      × (target.descriptor.rpc_api_major ≡ query.host_rpc_api_major)
      × (channel_is_valid target.channel ≡ true)
      × ((not (contains target.descriptor.required_capabilities v)
            || contains query.host_capabilities v)
          ≡ true)
resolve_launch_target_sound resolver identity query target v h =
    let (id, host, parsed, normalized, answer, channel) =
      checks-of_ok resolver identity query target _ _ refl refl h in
    let (same, major, none_missing) =
      answers-eq target.descriptor id query.host_rpc_api_major host answer in
    (
      parsed ∙ ap some (sym same),
      major,
      channel,
      ground (
        arith,
        no_missing target.descriptor.required_capabilities host v none_missing,
        contains-normalize_host_capabilities query.host_capabilities host v normalized,
      ),
    )
