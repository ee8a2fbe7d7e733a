-- ===== src/Tester/Members.antt =====
-- internal/tester/domain/membership.go and removal.go: a membership that has ended stays as it ended.
use iwut_app_center.Prelude.{
  true, not, Bytes, ok, reject-ok, reject-passed, or_false, not-false, ◌≡◌, ◌⊎◌, inl, inr, refl, ap,
  ◌∙◌, subst, arith,
}
use iwut_app_center.Shared.{Time, is_zero, utc, AuthId, auth_id_is_valid}
use iwut_app_center.Shared.Uuid.{is_uuid_v7}
use iwut_app_center.Tester.{internal}
use iwut_app_center.Tester.JoinLink.{utc_of}
use iwut_app_center.Tester.Membership.{
  Membership, MembershipStatus, membership_fits, membership_is_malformed, restore_membership,
  new_active_membership, new_member, removed_member, remove, remove_as, is_removed,
}
use iwut_app_center.Tester.Membership
use iwut_app_center.Tester.Links.{valid_time-utc_of, is_some-utc_of, utc_of-again}

-- The membership that is restored.
restored_member : Membership → Membership
restored_member m = record m { joined_at = utc m.joined_at; removed_at = utc_of m.removed_at }

membership_fits-restored_member :
    (m : Membership) → membership_fits (restored_member m) ≡ membership_fits m
unfolding membership_fits restored_member
membership_fits-restored_member m = by_status m.status refl
  where
    by_status :
        (s : MembershipStatus)
        → m.status ≡ s
        → membership_fits (restored_member m) ≡ membership_fits m
    by_status Membership.active e = rw e (rw (is_some-utc_of m.removed_at) refl)
    by_status Membership.removed e = rw e (rw (valid_time-utc_of m.removed_at) refl)
    by_status Membership.undefined e = rw e refl

restore_membership-again :
    (m w : Membership)
    → restore_membership m ≡ ok w
    → (restored_member m ≡ w) × (restore_membership w ≡ ok w)
unfolding restore_membership membership_is_malformed restored_member
restore_membership-again m w h =
    let (fine, h1) = reject-passed (membership_is_malformed m) internal _ w h in
    let (fits, made) = reject-ok _ internal _ w h1 in
    (
      made,
      subst (λ x. restore_membership x ≡ ok x) made
          (rw
            (fine, membership_fits-restored_member m ∙ not-false _ fits, utc_of-again m.removed_at)
            refl),
    )

-- The memberships that joining and removal lead to.
pub data MemberLife : Membership → Type 0 where
  joined :
      (id app : Bytes) (tester : AuthId) (link : Bytes) (at : Time) (m : Membership)
      → new_active_membership id app tester link at ≡ ok m
      → MemberLife m
  left :
      (m w : Membership) (by : AuthId) (at : Time)
      → MemberLife m
      → remove m by at ≡ ok w
      → MemberLife w

remove_by_status :
    (s : MembershipStatus) (m w : Membership) (by : AuthId) (at : Time)
    → remove_as s m by at ≡ ok w
    → ((is_removed s ≡ true) × (m ≡ w)) ⊎ (restore_membership (removed_member m by at) ≡ ok w)
unfolding remove_as
remove_by_status Membership.removed m w by at h = inl (refl, ground arith)
remove_by_status Membership.undefined m w by at h = absurd (ground arith)
remove_by_status Membership.active m w by at h = inr (reject-passed _ _ _ w h).1

remove-eq :
    (m w : Membership) (by : AuthId) (at : Time)
    → remove m by at ≡ ok w
    → ((is_removed m.status ≡ true) × (m ≡ w))
      ⊎ (restore_membership (removed_member m by at) ≡ ok w)
unfolding remove
remove-eq m w by at h =
    remove_by_status m.status m w by at (reject-passed (not (is_uuid_v7 m.id)) _ _ w h).1

restore-remove :
    (m w : Membership) (by : AuthId) (at : Time)
    → restore_membership m ≡ ok m
    → ((is_removed m.status ≡ true) × (m ≡ w))
      ⊎ (restore_membership (removed_member m by at) ≡ ok w)
    → (restore_membership w ≡ ok w) × (is_removed w.status ≡ true)
unfolding restored_member
restore-remove m w by at stored (inl (old, same)) =
    subst (λ x. (restore_membership x ≡ ok x) × (is_removed x.status ≡ true)) same (stored, old)
restore-remove m w by at stored (inr made) =
    let (same, again) = restore_membership-again (removed_member m by at) w made in
    (again, subst (λ x. is_removed x.status ≡ true) same refl)

MemberLife-restore : (m : Membership) → MemberLife m → restore_membership m ≡ ok m
unfolding new_active_membership
MemberLife-restore _ (joined id app tester link at m run) =
    (restore_membership-again (new_member id app tester link at) m run).1
MemberLife-restore _ (left m w by at life run) =
    (restore-remove m w by at (MemberLife-restore m life) (remove-eq m w by at run)).0

removed_again :
    (w : Membership) (by : AuthId) (at : Time)
    → restore_membership w ≡ ok w
    → is_removed w.status ≡ true
    → remove w by at ≡ ok w
unfolding remove remove_as restore_membership membership_is_malformed
removed_again w by at stored ended = by_status w.status refl
  where
    named : is_uuid_v7 w.id ≡ true
    named =
        let (fine, rest) = reject-passed (membership_is_malformed w) internal _ w stored in
        let (fine4, when) = or_false _ (is_zero w.joined_at) fine in
        let (fine3, via) = or_false _ (not (is_uuid_v7 w.joined_via)) fine4 in
        let (fine2, who) = or_false _ (not (auth_id_is_valid w.tester)) fine3 in
        not-false _ (or_false _ (not (is_uuid_v7 w.application_id)) fine2).0

    by_status : (s : MembershipStatus) → w.status ≡ s → remove w by at ≡ ok w
    by_status Membership.removed e = rw (named, e) refl
    by_status Membership.active e = let not_ended = ap is_removed e in absurd (ground arith)
    by_status Membership.undefined e = let not_ended = ap is_removed e in absurd (ground arith)

-- A membership that was ended is read back from the store as it is, and stays so: to remove it again
-- changes nothing of its record of who ended it and when.
pub remove_ends :
    (m w : Membership) (by by' : AuthId) (at at' : Time)
    → MemberLife m
    → remove m by at ≡ ok w
    → (restore_membership w ≡ ok w) × (is_removed w.status ≡ true) × (remove w by' at' ≡ ok w)
remove_ends m w by by' at at' life run =
    let (stored, ended) =
      restore-remove m w by at (MemberLife-restore m life) (remove-eq m w by at run) in
    (stored, ended, removed_again w by' at' stored ended)
