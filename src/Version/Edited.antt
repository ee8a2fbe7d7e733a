-- ===== src/Version/Edited.antt =====
-- internal/version/domain/application_version.go: how a version is changed, by a replacement of its draft
-- and back to a draft where it was rejected: what the guards let through, and that it stays sound.
use iwut_app_center.Prelude.{
  ℤ, pos, ltb_ℤ, eqb_ℤ, max_int64, inc_int64, true, false, not, Bool-cases, Result, ok, reject-ok,
  reject-passed, or_false, not-false, ◌≡◌, inl, inr, refl, sym, ap, ◌∙◌, subst, arith,
  if◌then◌else◌,
}
use iwut_app_center.Shared.{Time, is_zero, utc, AuthId, auth_id_is_valid}
use iwut_app_center.Shared.Uuid.{is_uuid_v7}
use iwut_app_center.Version.{Error, internal}
use iwut_app_center.Version.Urls.{Urls}
use iwut_app_center.Version.Draft.{
  draft, Replacement, ApplicationVersion, has_replacement, content_is_valid,
  restore_application_version, version_is_malformed, replace_draft, restore_draft, status_is_valid,
  status_is_draft, status_is_rejected,
}

-- What may be asked of a version, with the revision that the caller expects.
pub data Edit : Type 0 where
  replace : ℤ → Replacement → AuthId → Time → Edit
  back_to_draft : ℤ → AuthId → Time → Edit

unfoldable pub expected_of : Edit → ℤ
expected_of (replace expected r by at) = expected
expected_of (back_to_draft expected by at) = expected

unfoldable pub edited : Urls → ApplicationVersion → Edit → Result Error ApplicationVersion
unfolding replace_draft restore_draft
edited urls v (replace expected r by at) = replace_draft urls v expected r by at
edited urls v (back_to_draft expected by at) = restore_draft v expected by at

-- The tests of RestoreApplicationVersion, and times in UTC.
pub record Sound (urls : Urls) (v : ApplicationVersion) : Type 0 where
  pub id : is_uuid_v7 v.id ≡ true
  pub application_id : is_uuid_v7 v.application_id ≡ true
  pub sequence : ltb_ℤ v.sequence (pos 1) ≡ false
  pub content : content_is_valid urls v.content ≡ true
  pub status : status_is_valid v.review_status ≡ true
  pub creator : auth_id_is_valid v.created_by ≡ true
  pub created : is_zero v.created_at ≡ false
  pub created_utc : v.created_at.in_utc ≡ true
  pub revision : ltb_ℤ v.revision (pos 1) ≡ false
  pub updater : auth_id_is_valid v.updated_by ≡ true
  pub updated : is_zero v.updated_at ≡ false
  pub updated_utc : v.updated_at.in_utc ≡ true

pub restore_application_version-eq :
    (urls : Urls) (v w : ApplicationVersion)
    → restore_application_version urls v ≡ ok w
    → (version_is_malformed urls v ≡ false)
      × (record v { created_at = utc v.created_at; updated_at = utc v.updated_at } ≡ w)
unfolding restore_application_version
restore_application_version-eq urls v w h =
    reject-ok (version_is_malformed urls v) internal
      (record v { created_at = utc v.created_at; updated_at = utc v.updated_at }) w h

pub restore-Sound :
    (urls : Urls) (v w : ApplicationVersion)
    → version_is_malformed urls v ≡ false
    → Sound urls (record v { created_at = utc v.created_at; updated_at = utc v.updated_at })
unfolding version_is_malformed
restore-Sound urls v w h =
    let (h9, updated) = or_false _ (is_zero v.updated_at) h in
    let (h8, updater) = or_false _ (not (auth_id_is_valid v.updated_by)) h9 in
    let (h7, revision) = or_false _ (ltb_ℤ v.revision (pos 1)) h8 in
    let (h6, created) = or_false _ (is_zero v.created_at) h7 in
    let (h5, creator) = or_false _ (not (auth_id_is_valid v.created_by)) h6 in
    let (h4, status) = or_false _ (not (status_is_valid v.review_status)) h5 in
    let (h3, content) = or_false _ (not (content_is_valid urls v.content)) h4 in
    let (h2, sequence) = or_false _ (ltb_ℤ v.sequence (pos 1)) h3 in
    let (id, application_id) = or_false _ (not (is_uuid_v7 v.application_id)) h2 in
    record {
      id = not-false _ id;
      application_id = not-false _ application_id;
      sequence = sequence;
      content = not-false _ content;
      status = not-false _ status;
      creator = not-false _ creator;
      created = created;
      created_utc = refl;
      revision = revision;
      updater = not-false _ updater;
      updated = updated;
      updated_utc = refl;
    }

pub Sound-restore :
    (urls : Urls) (v : ApplicationVersion)
    → Sound urls v
    → restore_application_version urls v ≡ ok v
unfolding restore_application_version version_is_malformed
Sound-restore urls v s =
    rw
      (
        s.id, s.application_id, s.sequence, s.content, s.status, s.creator, s.created, s.revision,
        s.updater, s.updated,
      )
      (ap ok (λ i. record v {
        created_at = record v.created_at { in_utc = sym s.created_utc i };
        updated_at = record v.updated_at { in_utc = sym s.updated_utc i };
      }))

pub next_revision :
    (n : ℤ)
    → ltb_ℤ n (pos 1) ≡ false
    → ltb_ℤ n max_int64 ≡ true
    → ltb_ℤ (inc_int64 n) (pos 1) ≡ false
unfolding inc_int64
next_revision n h k = ground arith

unfoldable pub replaced : ApplicationVersion → Replacement → AuthId → Time → ApplicationVersion
replaced v r by at = record v {
  content = r;
  revision = inc_int64 v.revision;
  updated_by = by;
  updated_at = utc at;
}

unfoldable pub drafted : ApplicationVersion → AuthId → Time → ApplicationVersion
drafted v by at = record v {
  review_status = draft;
  revision = inc_int64 v.revision;
  updated_by = by;
  updated_at = utc at;
}

-- What the guards of a replacement have let through, and what it makes.
pub record Replaced (urls : Urls) (v w : ApplicationVersion) (expected : ℤ) (r : Replacement)
    (by : AuthId) (at : Time) : Type 0 where
  pub given : ltb_ℤ expected (pos 1) ≡ false
  pub is_draft : status_is_draft v.review_status ≡ true
  pub same_revision : eqb_ℤ v.revision expected ≡ true
  pub content : content_is_valid urls r ≡ true
  pub updater : auth_id_is_valid by ≡ true
  pub updated : is_zero at ≡ false
  pub made : (if has_replacement v.content r then v else replaced v r by at) ≡ w

pub replace_draft-Replaced :
    (urls : Urls) (v w : ApplicationVersion) (expected : ℤ) (r : Replacement) (by : AuthId)
    (at : Time)
    → replace_draft urls v expected r by at ≡ ok w
    → Replaced urls v w expected r by at
unfolding replace_draft replaced
replace_draft-Replaced urls v w expected r by at run =
    let (given, run1) = reject-passed (ltb_ℤ expected (pos 1)) _ _ w run in
    let (is_draft, run2) = reject-passed (not (status_is_draft v.review_status)) _ _ w run1 in
    let (same, run3) = reject-passed (not (eqb_ℤ v.revision expected)) _ _ w run2 in
    let (fit, made) = reject-ok _ _ _ w run3 in
    let (fit', updated) = or_false _ (is_zero at) fit in
    let (content, updater) = or_false _ (not (auth_id_is_valid by)) fit' in
    record {
      given = given;
      is_draft = not-false _ is_draft;
      same_revision = not-false _ same;
      content = not-false _ content;
      updater = not-false _ updater;
      updated = updated;
      made = made;
    }

pub record Drafted (v w : ApplicationVersion) (expected : ℤ) (by : AuthId) (at : Time)
    : Type 0 where
  pub given : ltb_ℤ expected (pos 1) ≡ false
  pub is_rejected : status_is_rejected v.review_status ≡ true
  pub same_revision : eqb_ℤ v.revision expected ≡ true
  pub updater : auth_id_is_valid by ≡ true
  pub updated : is_zero at ≡ false
  pub made : drafted v by at ≡ w

pub restore_draft-Drafted :
    (v w : ApplicationVersion) (expected : ℤ) (by : AuthId) (at : Time)
    → restore_draft v expected by at ≡ ok w
    → Drafted v w expected by at
unfolding restore_draft drafted
restore_draft-Drafted v w expected by at run =
    let (given, run1) = reject-passed (ltb_ℤ expected (pos 1)) _ _ w run in
    let (is_rejected, run2) = reject-passed (not (status_is_rejected v.review_status)) _ _ w run1 in
    let (same, run3) = reject-passed (not (eqb_ℤ v.revision expected)) _ _ w run2 in
    let (fit, made) = reject-ok _ _ _ w run3 in
    let (updater, updated) = or_false _ (is_zero at) fit in
    record {
      given = given;
      is_rejected = not-false _ is_rejected;
      same_revision = not-false _ same;
      updater = not-false _ updater;
      updated = updated;
      made = made;
    }

replace-Sound :
    (urls : Urls) (v w : ApplicationVersion) (expected : ℤ) (r : Replacement) (by : AuthId)
    (at : Time)
    → Sound urls v
    → ltb_ℤ v.revision max_int64 ≡ true
    → Replaced urls v w expected r by at
    → Sound urls w
unfolding replaced
replace-Sound urls v w expected r by at s few h =
    let next : Sound urls (replaced v r by at) = record {
      id = s.id;
      application_id = s.application_id;
      sequence = s.sequence;
      content = h.content;
      status = s.status;
      creator = s.creator;
      created = s.created;
      created_utc = s.created_utc;
      revision = next_revision v.revision s.revision few;
      updater = h.updater;
      updated = h.updated;
      updated_utc = refl;
    } in
    elim (Bool-cases (has_replacement v.content r)) [
      | inl same ↦ subst (Sound urls) (sym (rw same refl) ∙ h.made) s
      | inr other ↦ subst (Sound urls) (sym (rw other refl) ∙ h.made) next
    ]

Drafted-Sound :
    (urls : Urls) (v w : ApplicationVersion) (expected : ℤ) (by : AuthId) (at : Time)
    → Sound urls v
    → ltb_ℤ v.revision max_int64 ≡ true
    → Drafted v w expected by at
    → Sound urls w
unfolding drafted status_is_valid
Drafted-Sound urls v w expected by at s few h = subst (Sound urls) h.made (record {
  id = s.id;
  application_id = s.application_id;
  sequence = s.sequence;
  content = s.content;
  status = refl;
  creator = s.creator;
  created = s.created;
  created_utc = s.created_utc;
  revision = next_revision v.revision s.revision few;
  updater = h.updater;
  updated = h.updated;
  updated_utc = refl;
})

pub edited-Sound :
    (urls : Urls) (v w : ApplicationVersion) (e : Edit)
    → Sound urls v
    → ltb_ℤ v.revision max_int64 ≡ true
    → edited urls v e ≡ ok w
    → Sound urls w
unfolding edited
edited-Sound urls v w (replace expected r by at) s few run =
    replace-Sound urls v w expected r by at s few
      (replace_draft-Replaced urls v w expected r by at run)
edited-Sound urls v w (back_to_draft expected by at) s few run =
    Drafted-Sound urls v w expected by at s few (restore_draft-Drafted v w expected by at run)
