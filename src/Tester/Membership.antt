-- ===== src/Tester/Membership.antt =====
-- internal/tester/domain/membership.go and removal.go: one episode of a tester's membership, which ends
-- once.
use iwut_app_center.Prelude.{
  ℤ, pos, ltb_ℤ, leb_ℤ, eqb_ℤ, Bool, true, false, not, ◌&&◌, ◌||◌, Option, none, some, Bytes,
  is_some, Result, ok, err, is_ok, ◌>>◌, reject,
}
use iwut_app_center.Shared.{Time, is_zero, utc, AuthId, auth_id_is_valid}
use iwut_app_center.Shared.Uuid.{is_uuid_v7}
use iwut_app_center.Tester.{Error, tester_state_inconsistent, internal}
use iwut_app_center.Tester.JoinLink.{utc_of, valid_actor, valid_time}

abbrev pub tester_limit : ℤ
tester_limit = pos 100

-- `undefined` is a status that is neither.
pub data MembershipStatus : Type 0 where
  active removed undefined : MembershipStatus

pub record Membership : Type 0 where
  pub id : Bytes
  pub application_id : Bytes
  pub tester : AuthId
  pub status : MembershipStatus
  pub joined_via : Bytes
  pub joined_at : Time
  pub removed_by : Option AuthId
  pub removed_at : Option Time

abbrev pub is_active : MembershipStatus → Bool
is_active active = true
is_active _ = false

abbrev pub is_removed : MembershipStatus → Bool
is_removed removed = true
is_removed _ = false

-- The switch on the status.
unfoldable pub membership_fits : Membership → Bool
membership_fits m = elim m.status [
  | active ↦ not (is_some m.removed_by || is_some m.removed_at)
  | removed ↦ valid_actor m.removed_by && valid_time m.removed_at
  | undefined ↦ false
]

unfoldable pub membership_is_malformed : Membership → Bool
membership_is_malformed m =
    not (is_uuid_v7 m.id)
    || not (is_uuid_v7 m.application_id)
    || not (auth_id_is_valid m.tester)
    || not (is_uuid_v7 m.joined_via)
    || is_zero m.joined_at

unfoldable pub restore_membership : Membership → Result Error Membership
unfolding membership_is_malformed membership_fits
restore_membership m = do
  reject (membership_is_malformed m) internal
  reject (not (membership_fits m)) internal
  ok (record m { joined_at = utc m.joined_at; removed_at = utc_of m.removed_at })

abbrev pub new_member : Bytes → Bytes → AuthId → Bytes → Time → Membership
new_member id app tester link at = record {
  id = id;
  application_id = app;
  tester = tester;
  status = active;
  joined_via = link;
  joined_at = at;
  removed_by = none;
  removed_at = none;
}

unfoldable pub new_active_membership :
    Bytes → Bytes → AuthId → Bytes → Time → Result Error Membership
unfolding restore_membership
new_active_membership id app tester link at = restore_membership (new_member id app tester link at)

abbrev pub removed_member : Membership → AuthId → Time → Membership
removed_member m by at = record m { status = removed; removed_by = some by; removed_at = some at }

-- What Remove does, by the status that the membership has.
unfoldable pub remove_as : MembershipStatus → Membership → AuthId → Time → Result Error Membership
unfolding restore_membership
remove_as removed m by at = ok m
remove_as undefined m by at = err tester_state_inconsistent
remove_as active m by at = do
  reject (not (auth_id_is_valid by) || is_zero at) internal
  restore_membership (removed_member m by at)

unfoldable pub remove : Membership → AuthId → Time → Result Error Membership
unfolding remove_as
remove m by at = do
  reject (not (is_uuid_v7 m.id)) tester_state_inconsistent
  remove_as m.status m by at

-- No error of validateRemovalSnapshot.
unfoldable pub removal_snapshot_is_valid : Membership → ℤ → Bool
unfolding restore_membership
removal_snapshot_is_valid m count =
    not (
      ltb_ℤ count (pos 0)
      || ltb_ℤ tester_limit count
      || (is_active m.status && eqb_ℤ count (pos 0)))
    && is_ok (restore_membership m)

pub record Removal : Type 0 where
  pub membership : Membership
  pub removed_now : Bool
  pub active_tester_count : ℤ  -- int32
  pub tester_limit : ℤ  -- int32
  pub active_join_link_exists : Bool

unfoldable pub new_removal_result : Removal → Result Error Removal
unfolding removal_snapshot_is_valid
new_removal_result r = do
  reject (not (removal_snapshot_is_valid r.membership r.active_tester_count))
      tester_state_inconsistent
  reject
      (not (is_removed r.membership.status)
        || not (eqb_ℤ r.tester_limit tester_limit)
        || (r.removed_now && leb_ℤ r.tester_limit r.active_tester_count))
      tester_state_inconsistent
  ok r

pub record Joining : Type 0 where
  pub membership : Membership
  pub joined : Bool
  pub active_tester_count : ℤ  -- int32
  pub tester_limit : ℤ  -- int32

unfoldable pub new_join_result : Joining → Result Error Joining
new_join_result r = do
  reject
      (not (is_uuid_v7 r.membership.id)
        || not (is_active r.membership.status)
        || not (eqb_ℤ r.tester_limit tester_limit)
        || ltb_ℤ r.active_tester_count (pos 1)
        || ltb_ℤ r.tester_limit r.active_tester_count)
      internal
  ok r
