-- ===== src/Filter/Handlers.antt =====
-- internal/filter/usecase/handlers.go: reading, setting and clearing an application's filter, over
-- the repository, the generator of revision ids and the clock of internal/filter/port.
use iwut_app_center.Prelude.{
  ℤ, pos, ltb_ℤ, eqb_ℤ, Bool, true, false, not, ◌||◌, Option, none, some, Bytes, Result, ok, err,
  ◌>>=◌, ◌>>◌, reject, if◌then◌else◌,
}
use iwut_app_center.Shared.{Time, AuthId, DeveloperIdentity, is_approved, auth_id_is_valid, utc}
use iwut_app_center.Shared.Uuid.{parse_application_id}
use iwut_app_center.Filter.{
  Error, invalid_application_id, developer_identity_required, developer_approval_required,
  invalid_application_filter, application_not_found, application_admin_required,
  application_filter_revision_conflict, application_filter_state_inconsistent, internal,
}
use iwut_app_center.Filter.Rule.{Rule}
use iwut_app_center.Filter.Revision.{
  ApplicationFilter, ApplicationFilterRevision, is_absent, matches_rule, is_allow_all, publish_rule,
  publish_allow_all,
}

-- The errors of the port; any other error of an adapter is `unexpected`.
pub data PortError : Type 0 where
  not_found admin_required revision_conflict state_inconsistent unexpected : PortError

-- The parameters: the store's states are `S`, and a failed generator has no id.
pub record Ports (S : Type 0) : Type 0 where
  pub load_for_admin : Bytes → AuthId → S → Result PortError (Option ApplicationFilter)
  pub commit :
      AuthId
      → ℤ
      → ApplicationFilter
      → ApplicationFilterRevision
      → S
      → Result PortError (Option ApplicationFilter) × S
  pub new_uuid_v7 : S → Option Bytes
  pub now : S → Time

-- Handlers as NewHandlers makes them; `none` is a handler that lacks a port.
abbrev pub Handlers : Type 0 → Type 0
Handlers S = Option (Ports S)

pub record ChangeResult : Type 0 where
  pub filter : ApplicationFilter
  pub changed : Bool

unfoldable pub validate_request : DeveloperIdentity → Bytes → Result Error Bytes
validate_request identity raw = do
  reject (not (auth_id_is_valid identity.auth_id)) developer_identity_required
  reject (not (is_approved identity.developer_status)) developer_approval_required
  elim (parse_application_id raw) [ none ↦ err invalid_application_id | some id ↦ ok id ]

abbrev pub map_repository_error : PortError → Error
map_repository_error not_found = application_not_found
map_repository_error admin_required = application_admin_required
map_repository_error revision_conflict = application_filter_revision_conflict
map_repository_error state_inconsistent = application_filter_state_inconsistent
map_repository_error unexpected = internal

-- What a port answers, with its errors mapped and a nil answer an internal error.
abbrev pub answered : Result PortError (Option ApplicationFilter) → Result Error ApplicationFilter
answered (err e) = err (map_repository_error e)
answered (ok none) = err internal
answered (ok (some f)) = ok f

-- An error of the domain is wrapped as an internal one.
abbrev pub wrapped {ℓ} : {A : Type ℓ} → Result Error A → Result Error A
wrapped (err e) = err internal
wrapped (ok a) = ok a

abbrev pub generated : Option Bytes → Result Error Bytes
generated none = err internal
generated (some id) = ok id

abbrev pub wired : {S : Type 0} → Handlers S → Result Error (Ports S)
wired none = err internal
wired (some ports) = ok ports

unfoldable pub get :
    {S : Type 0} → Handlers S → DeveloperIdentity → Bytes → S → Result Error ApplicationFilter
unfolding validate_request
get h identity raw s = do
  application_id ← validate_request identity raw
  ports ← wired h
  answered (ports.load_for_admin application_id identity.auth_id s)

-- What a command does once it has read: nothing, or one commit.
pub data Plan : Type 0 where
  keep : ApplicationFilter → Plan
  publish : ApplicationFilter → ApplicationFilterRevision → Plan

unfoldable pub plan_set :
    {S : Type 0} → Ports S → DeveloperIdentity → Bytes → ℤ → Rule → S → Result Error Plan
unfolding matches_rule publish_rule
plan_set ports identity application_id expected rule s = do
  current ← answered (ports.load_for_admin application_id identity.auth_id s)
  reject (not (eqb_ℤ current.revision expected)) application_filter_revision_conflict
  if matches_rule current rule then ok (keep current) else do
    id ← generated (ports.new_uuid_v7 s)
    next ← wrapped (publish_rule current id rule identity.auth_id (utc (ports.now s)))
    ok (publish next.0 next.1)

unfoldable pub plan_clear :
    {S : Type 0} → Ports S → DeveloperIdentity → Bytes → ℤ → S → Result Error Plan
unfolding is_allow_all publish_allow_all
plan_clear ports identity application_id expected s = do
  current ← answered (ports.load_for_admin application_id identity.auth_id s)
  reject (not (eqb_ℤ current.revision expected)) application_filter_revision_conflict
  if is_allow_all current then ok (keep current) else do
    id ← generated (ports.new_uuid_v7 s)
    next ← wrapped (publish_allow_all current id identity.auth_id (utc (ports.now s)))
    ok (publish next.0 next.1)

abbrev changed_by : Result Error ApplicationFilter → Result Error ChangeResult
changed_by (err e) = err e
changed_by (ok f) = ok (record { filter = f; changed = true })

-- The end of Set and of Clear: the commit and its answer.
unfoldable pub execute :
    {S : Type 0}
    → Ports S
    → DeveloperIdentity
    → ℤ
    → Result Error Plan
    → S
    → Result Error ChangeResult × S
execute ports identity expected (err e) s = (err e, s)
execute ports identity expected (ok (keep f)) s = (ok (record { filter = f; changed = false }), s)
execute ports identity expected (ok (publish next revision)) s =
    let done = ports.commit identity.auth_id expected next revision s in
    (changed_by (answered done.0), done.1)

-- The checks of Set before its ports are used.
unfoldable pub admit_set :
    {S : Type 0}
    → Handlers S
    → DeveloperIdentity
    → Bytes
    → ℤ
    → Rule
    → Result Error (Ports S × Bytes)
unfolding validate_request
admit_set h identity raw expected rule = do
  application_id ← validate_request identity raw
  reject (ltb_ℤ expected (pos 0) || is_absent rule) invalid_application_filter
  ports ← wired h
  ok (ports, application_id)

unfoldable pub admit_clear :
    {S : Type 0} → Handlers S → DeveloperIdentity → Bytes → ℤ → Result Error (Ports S × Bytes)
unfolding validate_request
admit_clear h identity raw expected = do
  application_id ← validate_request identity raw
  reject (ltb_ℤ expected (pos 0)) invalid_application_filter
  ports ← wired h
  ok (ports, application_id)

unfoldable pub set :
    {S : Type 0}
    → Handlers S
    → DeveloperIdentity
    → Bytes
    → ℤ
    → Rule
    → S
    → Result Error ChangeResult × S
unfolding admit_set plan_set execute
set h identity raw expected rule s = elim (admit_set h identity raw expected rule) [
  | err e ↦ (err e, s)
  | ok (ports, application_id) ↦
      execute ports identity expected (plan_set ports identity application_id expected rule s) s
]

unfoldable pub clear :
    {S : Type 0} → Handlers S → DeveloperIdentity → Bytes → ℤ → S → Result Error ChangeResult × S
unfolding admit_clear plan_clear execute
clear h identity raw expected s = elim (admit_clear h identity raw expected) [
  | err e ↦ (err e, s)
  | ok (ports, application_id) ↦
      execute ports identity expected (plan_clear ports identity application_id expected s) s
]
