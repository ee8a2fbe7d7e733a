-- ===== src/Tester/Links.antt =====
-- internal/tester/domain/join_link.go and revocation.go: a link that has ended stays as it ended.
use iwut_app_center.Prelude.{
  Bool, true, false, not, Option, none, some, Bytes, is_some, ok, err, reject-ok, reject-passed,
  not-false, ◌≡◌, ◌⊎◌, inl, inr, refl, ◌∙◌, subst, arith,
}
use iwut_app_center.Shared.{Time, utc, AuthId}
use iwut_app_center.Tester.{join_link_changed, internal}
use iwut_app_center.Tester.JoinLink.{
  JoinLink, JoinLinkStatus, utc_of, is_revoked, valid_actor, valid_time, reason_fits, link_fits,
  link_is_malformed, restore_join_link, new_active_join_link, new_link, rotated_link, rotate,
  revocation_link_is_valid, revoked_link, revoke, revoke_unless, is_active,
}
use iwut_app_center.Tester.JoinLink

pub valid_time-utc_of : (o : Option Time) → valid_time (utc_of o) ≡ valid_time o
valid_time-utc_of none = refl
valid_time-utc_of (some t) = refl

pub is_some-utc_of : (o : Option Time) → is_some (utc_of o) ≡ is_some o
is_some-utc_of none = refl
is_some-utc_of (some t) = refl

pub utc_of-again : (o : Option Time) → utc_of (utc_of o) ≡ utc_of o
utc_of-again none = refl
utc_of-again (some t) = refl

-- The link that is restored.
restored_link : JoinLink → JoinLink
restored_link l = record l { created_at = utc l.created_at; revoked_at = utc_of l.revoked_at }

link_fits-restored_link : (l : JoinLink) → link_fits (restored_link l) ≡ link_fits l
unfolding link_fits restored_link
link_fits-restored_link l = by_status l.status refl
  where
    by_status : (s : JoinLinkStatus) → l.status ≡ s → link_fits (restored_link l) ≡ link_fits l
    by_status JoinLink.active e = rw e (rw (is_some-utc_of l.revoked_at) refl)
    by_status JoinLink.revoked e = rw e (rw (valid_time-utc_of l.revoked_at) refl)
    by_status JoinLink.undefined e = rw e refl

restore_join_link-eq :
    (l w : JoinLink)
    → restore_join_link l ≡ ok w
    → (link_is_malformed l ≡ false) × (link_fits l ≡ true) × (restored_link l ≡ w)
unfolding restore_join_link restored_link
restore_join_link-eq l w h =
    let (fine, h1) = reject-passed (link_is_malformed l) internal _ w h in
    let (fits, made) = reject-ok _ internal _ w h1 in (fine, not-false _ fits, made)

-- What was restored is restored as it is.
restore_join_link-again : (l w : JoinLink) → restore_join_link l ≡ ok w → restore_join_link w ≡ ok w
unfolding restore_join_link link_is_malformed restored_link
restore_join_link-again l w h =
    let (fine, fits, made) = restore_join_link-eq l w h in
    subst (λ x. restore_join_link x ≡ ok x) made
      (rw (fine, link_fits-restored_link l ∙ fits, utc_of-again l.revoked_at) refl)

-- The links that creation, rotation and revocation lead to.
pub data LinkLife : JoinLink → Type 0 where
  opened :
      (id app hash : Bytes) (by : AuthId) (at : Time) (l : JoinLink)
      → new_active_join_link id app hash by at ≡ ok l
      → LinkLife l
  rotated_away :
      (l w : JoinLink) (replacement : Bytes) (by : AuthId) (at : Time)
      → LinkLife l
      → rotate l replacement by at ≡ ok w
      → LinkLife w
  closed :
      (l w : JoinLink) (by : AuthId) (at : Time) → LinkLife l → revoke l by at ≡ ok w → LinkLife w

-- A link that was revoked before, or one that is revoked now.
revoke_unless-eq :
    (b : Bool) (l w : JoinLink) (by : AuthId) (at : Time)
    → revoke_unless b l by at ≡ ok w
    → ((b ≡ true) × (l ≡ w)) ⊎ (restore_join_link (revoked_link l by at) ≡ ok w)
unfolding revoke_unless
revoke_unless-eq true l w by at h = inl (refl, ground arith)
revoke_unless-eq false l w by at h = inr (reject-passed _ _ _ w h).1

revoke-eq :
    (l w : JoinLink) (by : AuthId) (at : Time)
    → revoke l by at ≡ ok w
    → ((is_revoked l.status ≡ true) × (l ≡ w)) ⊎ (restore_join_link (revoked_link l by at) ≡ ok w)
unfolding revoke
revoke-eq l w by at h =
    revoke_unless-eq (is_revoked l.status) l w by at
      (reject-passed (not (revocation_link_is_valid l)) _ _ w h).1

rotate-eq :
    (l w : JoinLink) (replacement : Bytes) (by : AuthId) (at : Time)
    → rotate l replacement by at ≡ ok w
    → restore_join_link (rotated_link l replacement by at) ≡ ok w
unfolding rotate
rotate-eq l w replacement by at h = (reject-passed _ join_link_changed _ w h).1

restore-revoke :
    (l w : JoinLink) (by : AuthId) (at : Time)
    → restore_join_link l ≡ ok l
    → ((is_revoked l.status ≡ true) × (l ≡ w)) ⊎ (restore_join_link (revoked_link l by at) ≡ ok w)
    → restore_join_link w ≡ ok w
restore-revoke l w by at stored (inl (old, same)) =
    subst (λ x. restore_join_link x ≡ ok x) same stored
restore-revoke l w by at stored (inr made) = restore_join_link-again (revoked_link l by at) w made

LinkLife-restore : (l : JoinLink) → LinkLife l → restore_join_link l ≡ ok l
unfolding new_active_join_link
LinkLife-restore _ (opened id app hash by at l run) =
    restore_join_link-again (new_link id app hash by at) l run
LinkLife-restore _ (rotated_away l w replacement by at life run) =
    restore_join_link-again (rotated_link l replacement by at) w
      (rotate-eq l w replacement by at run)
LinkLife-restore _ (closed l w by at life run) =
    restore-revoke l w by at (LinkLife-restore l life) (revoke-eq l w by at run)

status-revoke :
    (l w : JoinLink) (by : AuthId) (at : Time) → revoke l by at ≡ ok w → is_revoked w.status ≡ true
unfolding restored_link
status-revoke l w by at run = by_cases (revoke-eq l w by at run)
  where
    by_cases :
        ((is_revoked l.status ≡ true) × (l ≡ w)) ⊎ (restore_join_link (revoked_link l by at) ≡ ok w)
        → is_revoked w.status ≡ true
    by_cases (inl (old, same)) = subst (λ x. is_revoked x.status ≡ true) same old
    by_cases (inr made) =
        let (fine, fits, same) = restore_join_link-eq (revoked_link l by at) w made in
        subst (λ x. is_revoked x.status ≡ true) same refl

-- A link that was revoked is read back from the store as it is, and stays so: to revoke it again changes
-- nothing of its record of who revoked it, when and why, and it cannot be rotated.
pub revoke_ends :
    (l w : JoinLink) (by by' : AuthId) (at at' : Time) (replacement : Bytes)
    → LinkLife l
    → revoke l by at ≡ ok w
    → (restore_join_link w ≡ ok w)
      × (revoke w by' at' ≡ ok w)
      × (rotate w replacement by' at' ≡ err join_link_changed)
unfolding revoke revoke_unless rotate revocation_link_is_valid
revoke_ends l w by by' at at' replacement life run =
    let stored = LinkLife-restore w (closed l w by at life run) in
    let ended = status-revoke l w by at run in
    (stored, rw (stored, ended) refl, rw (inactive w.status ended) refl)
  where
    inactive : (s : JoinLinkStatus) → is_revoked s ≡ true → is_active s ≡ false
    inactive JoinLink.active h = absurd (ground arith)
    inactive JoinLink.revoked h = refl
    inactive JoinLink.undefined h = refl
