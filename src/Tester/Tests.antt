-- ===== src/Tester/Tests.antt =====
-- A link and a membership that end, at concrete input.
use iwut_app_center.Prelude.{
  pos, true, false, none, some, Bytes, bytes_eq, codes, ok, err, ◌≡◌, refl,
}
use iwut_app_center.Shared.{Time, auth_id_is_valid}
use iwut_app_center.Shared.Uuid.{is_uuid_v7}
use iwut_app_center.Tester.{join_link_changed, join_link_already_exists}
use iwut_app_center.Tester.JoinLink.{
  JoinLink, new_link, new_active_join_link, restore_join_link, link_fits, link_is_malformed,
  reason_fits, revoked_link, revoke, revoke_unless, revocation_link_is_valid, rotate,
  ensure_expected,
}
use iwut_app_center.Tester.Membership.{
  Membership, new_member, new_active_membership, restore_membership, membership_fits,
  membership_is_malformed, removed_member, remove, remove_as, is_removed, removal_snapshot_is_valid,
}
use iwut_app_center.Tester.Links.{opened, revoke_ends}
use iwut_app_center.Tester.Members.{joined, remove_ends}

unfoldable tests : Unit {0}
unfolding bytes_eq auth_id_is_valid is_uuid_v7 new_active_join_link restore_join_link link_fits
    link_is_malformed reason_fits revoke revoke_unless revocation_link_is_valid rotate
    ensure_expected new_active_membership restore_membership membership_fits membership_is_malformed
    remove remove_as removal_snapshot_is_valid
tests = tt

abbrev link_id : Bytes
link_id = codes "01890a5d-ac96-774b-bcce-b302099a8057"

abbrev app : Bytes
app = codes "01890a5d-ac96-774b-bcce-b302099a8058"

abbrev member_id : Bytes
member_id = codes "01890a5d-ac96-774b-bcce-b302099a8059"

abbrev monday : Time
monday = record { instant = pos 1000; in_utc = true }

abbrev tuesday : Time
tuesday = record { instant = pos 2000; in_utc = true }

abbrev link : JoinLink
link = new_link link_id app (codes "hash") (codes "7") monday

abbrev closed_link : JoinLink
closed_link = revoked_link link (codes "7") tuesday

link_opened : new_active_join_link link_id app (codes "hash") (codes "7") monday ≡ ok link
unfolding tests
link_opened = refl

link_revoked : revoke link (codes "7") tuesday ≡ ok closed_link
unfolding tests
link_revoked = refl

second_link_refused :
    ensure_expected (record { application_id = app; active_link = some link }) none
    ≡ err join_link_already_exists
unfolding tests
second_link_refused = refl

revoke_ends_example :
    (restore_join_link closed_link ≡ ok closed_link)
    × (revoke closed_link (codes "8") monday ≡ ok closed_link)
    × (rotate closed_link member_id (codes "8") monday ≡ err join_link_changed)
revoke_ends_example =
    revoke_ends link closed_link (codes "7") (codes "8") tuesday monday member_id
      (opened link_id app (codes "hash") (codes "7") monday link link_opened) link_revoked

abbrev member : Membership
member = new_member member_id app (codes "9") link_id monday

abbrev former_member : Membership
former_member = removed_member member (codes "7") tuesday

member_joined : new_active_membership member_id app (codes "9") link_id monday ≡ ok member
unfolding tests
member_joined = refl

member_removed : remove member (codes "7") tuesday ≡ ok former_member
unfolding tests
member_removed = refl

no_member_counted : removal_snapshot_is_valid member (pos 0) ≡ false
unfolding tests
no_member_counted = refl

remove_ends_example :
    (restore_membership former_member ≡ ok former_member)
    × (is_removed former_member.status ≡ true)
    × (remove former_member (codes "9") monday ≡ ok former_member)
remove_ends_example =
    remove_ends member former_member (codes "7") (codes "9") tuesday monday
      (joined member_id app (codes "9") link_id monday member member_joined) member_removed
