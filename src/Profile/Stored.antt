-- ===== src/Profile/Stored.antt =====
-- internal/profile/domain: revisions and reviews as restoreProfileRevision and
-- RestoreProfileReviewDecisionCandidate want them.
use iwut_app_center.Prelude.{
  ℤ, pos, ltb_ℤ, leb_ℤ, eqb_ℤ, max_int64, inc_int64, Bool, true, false, not, ◌&&◌, ok, reject-ok,
  reject-passed, or_false, not-false, ◌≡◌, refl, sym, ap, subst, arith,
}
use iwut_app_center.Shared.{Time, is_zero, utc, AuthId, auth_id_is_valid}
use iwut_app_center.Shared.Uuid.{is_uuid_v7}
use iwut_app_center.Profile.Text.{Unicode}
use iwut_app_center.Profile.Revision.{
  ReviewStatus, status_is_valid, status_is_rejected, Content, ProfileRevision, content_is_canonical,
  is_first_but_changed, revision_is_malformed, restore_raw, restore_profile_revision,
}
use iwut_app_center.Profile.Review.{
  ProfileReview, review_is_malformed, decision_fits, restore_review_candidate,
}

-- A revision that is restored as it is, where its content is canonical.
pub record Sound (unicode : Unicode) (r : ProfileRevision) : Type 0 where
  pub id : is_uuid_v7 r.id ≡ true
  pub application_id : is_uuid_v7 r.application_id ≡ true
  pub sequence : ltb_ℤ r.sequence (pos 1) ≡ false
  pub content : content_is_canonical unicode r.content ≡ true
  pub status : status_is_valid r.review_status ≡ true
  pub creator : auth_id_is_valid r.created_by ≡ true
  pub created : is_zero r.created_at ≡ false
  pub created_utc : r.created_at.in_utc ≡ true
  pub revision : ltb_ℤ r.revision (pos 1) ≡ false
  pub updater : auth_id_is_valid r.updated_by ≡ true
  pub updated : is_zero r.updated_at ≡ false
  pub updated_utc : r.updated_at.in_utc ≡ true
  pub first : is_first_but_changed r ≡ false
  pub in_range : leb_ℤ r.revision max_int64 ≡ true  -- int64

Sound-restore_raw :
    (unicode : Unicode) (r : ProfileRevision) (raw_content : Bool)
    → Sound unicode r
    → restore_raw unicode r raw_content ≡ ok r
unfolding restore_raw revision_is_malformed
Sound-restore_raw unicode r raw_content s =
    let canonical : (not raw_content && not (content_is_canonical unicode r.content)) ≡ false =
      rw s.content (ground arith) in
    rw
      (
        s.id, s.application_id, s.sequence, canonical, s.status, s.creator, s.created, s.revision,
        s.updater, s.updated, s.first,
      )
      (ap ok (λ i. record r {
        created_at = record r.created_at { in_utc = sym s.created_utc i };
        updated_at = record r.updated_at { in_utc = sym s.updated_utc i };
      }))

pub Sound-restore :
    (unicode : Unicode) (r : ProfileRevision)
    → Sound unicode r
    → restore_profile_revision unicode r ≡ ok r
unfolding restore_profile_revision
Sound-restore unicode r s = Sound-restore_raw unicode r (status_is_rejected r.review_status) s

-- A draft is restored with its content tested.
pub Sound-of_draft :
    (unicode : Unicode) (r : ProfileRevision)
    → status_is_rejected r.review_status ≡ false
    → leb_ℤ r.revision max_int64 ≡ true
    → (w : ProfileRevision) → restore_profile_revision unicode r ≡ ok w
    → Sound unicode w
unfolding restore_profile_revision restore_raw revision_is_malformed is_first_but_changed
Sound-of_draft unicode r raw in_range w h =
    let (fine, h') = reject-passed _ _ _ w h in
    let (first, made) = reject-ok _ _ _ w h' in
    let (h9, updated) = or_false _ (is_zero r.updated_at) fine in
    let (h8, updater) = or_false _ (not (auth_id_is_valid r.updated_by)) h9 in
    let (h7, revision) = or_false _ (ltb_ℤ r.revision (pos 1)) h8 in
    let (h6, created) = or_false _ (is_zero r.created_at) h7 in
    let (h5, creator) = or_false _ (not (auth_id_is_valid r.created_by)) h6 in
    let (h4, status) = or_false _ (not (status_is_valid r.review_status)) h5 in
    let (h3, content) = or_false _ _ h4 in
    let (h2, sequence) = or_false _ (ltb_ℤ r.sequence (pos 1)) h3 in
    let (id, application_id) = or_false _ (not (is_uuid_v7 r.application_id)) h2 in
    let canonical : content_is_canonical unicode r.content ≡ true =
      not-false _ (
        subst (λ b. (not b && not (content_is_canonical unicode r.content)) ≡ false) raw content) in
    subst (Sound unicode) made (record {
      id = not-false _ id;
      application_id = not-false _ application_id;
      sequence = sequence;
      content = canonical;
      status = not-false _ status;
      creator = not-false _ creator;
      created = created;
      created_utc = refl;
      revision = revision;
      updater = not-false _ updater;
      updated = updated;
      updated_utc = refl;
      first = first;
      in_range = in_range;
    })

-- The revision after an edit: it is 2 at least, and an int64.
pub next_revision :
    (n : ℤ)
    → ltb_ℤ n (pos 1) ≡ false
    → leb_ℤ n max_int64 ≡ true
    → eqb_ℤ n max_int64 ≡ false
    → (ltb_ℤ (inc_int64 n) (pos 1) ≡ false)
      × (eqb_ℤ (inc_int64 n) (pos 1) ≡ false)
      × (leb_ℤ (inc_int64 n) max_int64 ≡ true)
unfolding inc_int64
next_revision n h k l = ground arith

-- A sound revision with another content, status, editor and time, counted up.
pub Sound-next :
    (unicode : Unicode) (r : ProfileRevision) (content : Content) (status : ReviewStatus)
    (by : AuthId) (at : Time)
    → Sound unicode r
    → eqb_ℤ r.revision max_int64 ≡ false
    → content_is_canonical unicode content ≡ true
    → status_is_valid status ≡ true
    → auth_id_is_valid by ≡ true
    → is_zero at ≡ false
    → Sound unicode (record r {
      content = content;
      review_status = status;
      revision = inc_int64 r.revision;
      updated_by = by;
      updated_at = utc at;
    })
unfolding is_first_but_changed
Sound-next unicode r content status by at s room canonical fine who when =
    let (positive, not_first, in_range) = next_revision r.revision s.revision s.in_range room in
    record {
      id = s.id;
      application_id = s.application_id;
      sequence = s.sequence;
      content = canonical;
      status = fine;
      creator = s.creator;
      created = s.created;
      created_utc = s.created_utc;
      revision = positive;
      updater = who;
      updated = when;
      updated_utc = refl;
      first = rw not_first refl;
      in_range = in_range;
    }

-- A review that is restored as it is.
pub record SoundReview (unicode : Unicode) (v : ProfileReview) : Type 0 where
  pub fine : review_is_malformed v ≡ false
  pub fits : decision_fits unicode v.status v.decision v.snapshot ≡ true
  pub submitted_utc : v.submitted_at.in_utc ≡ true

pub SoundReview-restore :
    (unicode : Unicode) (v : ProfileReview)
    → SoundReview unicode v
    → restore_review_candidate unicode v ≡ ok v
unfolding restore_review_candidate
SoundReview-restore unicode v s =
    rw (s.fine, s.fits)
      (ap ok
        (λ i. record v { submitted_at = record v.submitted_at { in_utc = sym s.submitted_utc i } }))
