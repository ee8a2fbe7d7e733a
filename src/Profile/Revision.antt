-- ===== src/Profile/Revision.antt =====
-- internal/profile/domain/application_profile_revision.go and replace_draft.go: a revision of a profile,
-- from its draft to its submission, and how it is read back from the store.
use iwut_app_center.Prelude.{
  ℕ, ℤ, pos, ltb_ℤ, eqb_ℤ, max_int64, inc_int64, Bool, true, false, not, ◌&&◌, ◌||◌, Option, none,
  some, Bytes, bytes_eq, Result, ok, ◌>>=◌, ◌>>◌, reject, if◌then◌else◌,
}
use iwut_app_center.Shared.{Time, is_zero, utc, time_equal, AuthId, auth_id_is_valid}
use iwut_app_center.Shared.Uuid.{is_uuid_v7}
use iwut_app_center.Profile.{
  Error, profile_state_inconsistent, expected_revision_required, revision_not_draft,
  revision_conflict, internal,
}
use iwut_app_center.Profile.Text.{
  Unicode, canonical_text, new_display_name, new_description, new_icon,
}

-- `undefined` is a status that is none of the four.
pub data ReviewStatus : Type 0 where
  draft submitted approved rejected undefined : ReviewStatus

unfoldable pub status_is_valid : ReviewStatus → Bool
status_is_valid undefined = false
status_is_valid _ = true

abbrev pub status_is_draft : ReviewStatus → Bool
status_is_draft draft = true
status_is_draft _ = false

abbrev pub status_is_submitted : ReviewStatus → Bool
status_is_submitted submitted = true
status_is_submitted _ = false

abbrev pub status_is_rejected : ReviewStatus → Bool
status_is_rejected rejected = true
status_is_rejected _ = false

-- The texts of a profile: DraftApplicationProfileReplacement and the snapshot of a review.
pub record Content : Type 0 where
  pub display_name : Bytes
  pub description : Option Bytes
  pub icon : Option Bytes

-- equalDescription and equalIcon.
abbrev pub equal_text : Option Bytes → Option Bytes → Bool
equal_text none none = true
equal_text (some a) (some b) = bytes_eq a b
equal_text _ _ = false

unfoldable pub same_content : Content → Content → Bool
same_content a b =
    bytes_eq a.display_name b.display_name
    && equal_text a.description b.description
    && equal_text a.icon b.icon

-- ApplicationProfileRevision, and the state that it is restored from.
pub record ProfileRevision : Type 0 where
  pub id : Bytes
  pub application_id : Bytes
  pub sequence : ℤ  -- int32
  pub content : Content
  pub review_status : ReviewStatus
  pub created_by : AuthId
  pub created_at : Time
  pub revision : ℤ  -- int64
  pub updated_by : AuthId
  pub updated_at : Time

pub record ProfileDraft : Type 0 where
  pub id : Bytes
  pub application_id : Bytes
  pub content : Content
  pub created_by : AuthId
  pub created_at : Time

abbrev pub in_utc : ProfileRevision → ProfileRevision
in_utc r = record r { created_at = utc r.created_at; updated_at = utc r.updated_at }

-- The first revision is the draft as it was created.
unfoldable pub is_first_but_changed : ProfileRevision → Bool
is_first_but_changed r =
    eqb_ℤ r.revision (pos 1)
    && (not (status_is_draft r.review_status)
        || not (bytes_eq r.created_by r.updated_by)
        || not (time_equal r.created_at r.updated_at))

-- The state that AssignSequence restores a revision from.
abbrev pub numbered : ProfileDraft → ℤ → ProfileRevision
numbered d sequence = record {
  id = d.id;
  application_id = d.application_id;
  sequence = sequence;
  content = d.content;
  review_status = draft;
  created_by = d.created_by;
  created_at = d.created_at;
  revision = pos 1;
  updated_by = d.created_by;
  updated_at = d.created_at;
}

abbrev pub replaced_by : ProfileRevision → Content → AuthId → Time → ProfileRevision
replaced_by r replacement by at = record r {
  content = replacement;
  revision = inc_int64 r.revision;
  updated_by = by;
  updated_at = utc at;
}

abbrev optional_or : (Bytes → Result Error Bytes) → Option Bytes → Result Error (Option Bytes)
optional_or new none = ok none
optional_or new (some text) = do value ← new text; ok (some value)

module _ (unicode : Unicode) where
  abbrev optional_text : Option Bytes → ℕ → Bool
  optional_text none max = true
  optional_text (some text) max = canonical_text unicode text max

  -- No error of ValidateStoredApplicationProfileContent.
  unfoldable pub content_is_canonical : Content → Bool
  unfolding canonical_text
  content_is_canonical c =
      canonical_text unicode c.display_name 80
      && optional_text c.description 1000
      && optional_text c.icon 512

  unfoldable pub new_profile_replacement : Content → Result Error Content
  unfolding new_display_name new_description new_icon
  new_profile_replacement given = do
    display_name ← new_display_name unicode given.display_name
    description ← optional_or (new_description unicode) given.description
    icon ← optional_or (new_icon unicode) given.icon
    ok (record { display_name = display_name; description = description; icon = icon })

  unfoldable pub new_profile_draft : ProfileDraft → Result Error ProfileDraft
  unfolding content_is_canonical
  new_profile_draft d = do
    reject
        (not (is_uuid_v7 d.id)
          || not (is_uuid_v7 d.application_id)
          || not (content_is_canonical d.content)
          || not (auth_id_is_valid d.created_by)
          || is_zero d.created_at)
        internal
    ok (record d { created_at = utc d.created_at })

  -- The first test of restoreProfileRevision.
  unfoldable pub revision_is_malformed : ProfileRevision → Bool → Bool
  unfolding content_is_canonical status_is_valid
  revision_is_malformed r raw_content =
      not (is_uuid_v7 r.id)
      || not (is_uuid_v7 r.application_id)
      || ltb_ℤ r.sequence (pos 1)
      || (not raw_content && not (content_is_canonical r.content))
      || not (status_is_valid r.review_status)
      || not (auth_id_is_valid r.created_by)
      || is_zero r.created_at
      || ltb_ℤ r.revision (pos 1)
      || not (auth_id_is_valid r.updated_by)
      || is_zero r.updated_at

  unfoldable pub restore_raw : ProfileRevision → Bool → Result Error ProfileRevision
  unfolding revision_is_malformed is_first_but_changed
  restore_raw r raw_content = do
    reject (revision_is_malformed r raw_content) profile_state_inconsistent
    reject (is_first_but_changed r) profile_state_inconsistent
    ok (in_utc r)

  unfoldable pub restore_profile_revision : ProfileRevision → Result Error ProfileRevision
  unfolding restore_raw
  restore_profile_revision r = restore_raw r (status_is_rejected r.review_status)

  unfoldable pub restore_revision_candidate : ProfileRevision → Result Error ProfileRevision
  unfolding restore_raw
  restore_revision_candidate r = restore_raw r true

  unfoldable pub assign_sequence : ProfileDraft → ℤ → Result Error ProfileRevision
  unfolding restore_profile_revision
  assign_sequence d sequence = restore_profile_revision (numbered d sequence)

  unfoldable pub replace_profile_draft :
      ProfileRevision → ℤ → Content → AuthId → Time → Result Error ProfileRevision
  unfolding content_is_canonical same_content
  replace_profile_draft r expected replacement by at = do
    reject (ltb_ℤ expected (pos 1)) expected_revision_required
    reject (not (status_is_draft r.review_status)) revision_not_draft
    reject (not (eqb_ℤ r.revision expected)) revision_conflict
    reject (not (content_is_canonical replacement) || not (auth_id_is_valid by) || is_zero at)
        internal
    if same_content replacement r.content then ok r else do
      reject (eqb_ℤ r.revision max_int64) profile_state_inconsistent
      ok (replaced_by r replacement by at)
