-- ===== src/Tester/JoinLink.antt =====
-- internal/tester/domain/join_link.go and revocation.go: a link that is active until it is rotated or
-- revoked. The 32 bytes of the hash of its secret are a text here.
use iwut_app_center.Prelude.{
  Bool, true, false, not, ◌&&◌, ◌||◌, Option, none, some, Bytes, bytes_eq, is_none, is_some, Result,
  ok, err, is_ok, ◌>>◌, reject,
}
use iwut_app_center.Shared.{Time, is_zero, utc, AuthId, auth_id_is_valid}
use iwut_app_center.Shared.Uuid.{is_uuid_v7}
use iwut_app_center.Tester.{
  Error, invalid_join_link_id, join_link_already_exists, join_link_not_found, join_link_changed,
  join_link_state_inconsistent, internal,
}

-- `undefined` is a status that is neither.
pub data JoinLinkStatus : Type 0 where
  active revoked undefined : JoinLinkStatus

-- `unknown` is a reason that is none of the four.
pub data RevocationReason : Type 0 where
  rotated manual admin_transfer application_closure unknown : RevocationReason

-- ApplicationTesterJoinLink, and what it is restored from.
pub record JoinLink : Type 0 where
  pub id : Bytes
  pub application_id : Bytes
  pub token_hash : Bytes
  pub status : JoinLinkStatus
  pub created_by : AuthId
  pub created_at : Time
  pub revoked_by : Option AuthId
  pub revoked_at : Option Time
  pub revocation_reason : Option RevocationReason
  pub replaced_by : Option Bytes

abbrev pub is_active : JoinLinkStatus → Bool
is_active active = true
is_active _ = false

abbrev pub is_revoked : JoinLinkStatus → Bool
is_revoked revoked = true
is_revoked _ = false

abbrev pub utc_of : Option Time → Option Time
utc_of none = none
utc_of (some t) = some (utc t)

abbrev pub valid_actor : Option AuthId → Bool
valid_actor none = false
valid_actor (some by) = auth_id_is_valid by

abbrev pub valid_time : Option Time → Bool
valid_time none = false
valid_time (some at) = not (is_zero at)

abbrev valid_replacement : Bytes → Option Bytes → Bool
valid_replacement id none = false
valid_replacement id (some other) = is_uuid_v7 other && not (bytes_eq other id)

-- The inner switch: only a rotation has a link in place of this one.
unfoldable pub reason_fits : Bytes → Option RevocationReason → Option Bytes → Bool
reason_fits id none replaced = false
reason_fits id (some rotated) replaced = valid_replacement id replaced
reason_fits id (some unknown) replaced = false
reason_fits id (some _) replaced = is_none replaced

-- The switch on the status.
unfoldable pub link_fits : JoinLink → Bool
unfolding reason_fits
link_fits l = elim l.status [
  | active ↦ not (
      is_some l.revoked_by
      || is_some l.revoked_at
      || is_some l.revocation_reason
      || is_some l.replaced_by)
  | revoked ↦
      valid_actor l.revoked_by
      && valid_time l.revoked_at
      && reason_fits l.id l.revocation_reason l.replaced_by
  | undefined ↦ false
]

unfoldable pub link_is_malformed : JoinLink → Bool
link_is_malformed l =
    not (is_uuid_v7 l.id)
    || not (is_uuid_v7 l.application_id)
    || not (auth_id_is_valid l.created_by)
    || is_zero l.created_at

unfoldable pub restore_join_link : JoinLink → Result Error JoinLink
unfolding link_is_malformed link_fits
restore_join_link l = do
  reject (link_is_malformed l) internal
  reject (not (link_fits l)) internal
  ok (record l { created_at = utc l.created_at; revoked_at = utc_of l.revoked_at })

abbrev pub new_link : Bytes → Bytes → Bytes → AuthId → Time → JoinLink
new_link id app hash by at = record {
  id = id;
  application_id = app;
  token_hash = hash;
  status = active;
  created_by = by;
  created_at = at;
  revoked_by = none;
  revoked_at = none;
  revocation_reason = none;
  replaced_by = none;
}

unfoldable pub new_active_join_link : Bytes → Bytes → Bytes → AuthId → Time → Result Error JoinLink
unfolding restore_join_link
new_active_join_link id app hash by at = restore_join_link (new_link id app hash by at)

abbrev pub rotated_link : JoinLink → Bytes → AuthId → Time → JoinLink
rotated_link l replacement by at = record l {
  status = revoked;
  revoked_by = some by;
  revoked_at = some at;
  revocation_reason = some rotated;
  replaced_by = some replacement;
}

unfoldable pub rotate : JoinLink → Bytes → AuthId → Time → Result Error JoinLink
unfolding restore_join_link
rotate l replacement by at = do
  reject (not (is_active l.status)) join_link_changed
  restore_join_link (rotated_link l replacement by at)

-- validateRevocationLink.
unfoldable pub revocation_link_is_valid : JoinLink → Bool
unfolding restore_join_link
revocation_link_is_valid l = is_ok (restore_join_link l)

abbrev pub revoked_link : JoinLink → AuthId → Time → JoinLink
revoked_link l by at = record l {
  status = revoked;
  revoked_by = some by;
  revoked_at = some at;
  revocation_reason = some manual;
  replaced_by = none;
}

-- What Revoke does, as the link is revoked already or not.
unfoldable pub revoke_unless : Bool → JoinLink → AuthId → Time → Result Error JoinLink
unfolding restore_join_link
revoke_unless true l by at = ok l
revoke_unless false l by at = do
  reject (not (auth_id_is_valid by) || is_zero at) internal
  restore_join_link (revoked_link l by at)

unfoldable pub revoke : JoinLink → AuthId → Time → Result Error JoinLink
unfolding revocation_link_is_valid revoke_unless
revoke l by at = do
  reject (not (revocation_link_is_valid l)) join_link_state_inconsistent
  revoke_unless (is_revoked l.status) l by at

-- TesterJoinLinkCandidate: the application and its active link.
pub record JoinLinkCandidate : Type 0 where
  pub application_id : Bytes
  pub active_link : Option JoinLink

abbrev is_foreign_link : Bytes → Option JoinLink → Bool
is_foreign_link app none = false
is_foreign_link app (some l) = not (bytes_eq l.application_id app) || not (is_active l.status)

unfoldable pub new_join_link_candidate : Bytes → Option JoinLink → Result Error JoinLinkCandidate
new_join_link_candidate app link = do
  reject (not (is_uuid_v7 app) || is_foreign_link app link) internal
  ok (record { application_id = app; active_link = link })

unfoldable pub ensure_expected : JoinLinkCandidate → Option Bytes → Result Error (Unit {0})
ensure_expected c none = reject (is_some c.active_link) join_link_already_exists
ensure_expected c (some id) = do
  reject (not (is_uuid_v7 id)) invalid_join_link_id
  elim c.active_link [
    | none ↦ err join_link_not_found
    | some l ↦ reject (not (bytes_eq id l.id)) join_link_changed
  ]
