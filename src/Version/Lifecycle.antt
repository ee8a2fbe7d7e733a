-- ===== src/Version/Lifecycle.antt =====
-- internal/version/domain/application_version.go: the life of a version: that it is read back from the
-- store, that a replacement can be sent twice, and that no edit is lost.
use iwut_app_center.Prelude.{
  ℤ, pos, ltb_ℤ, eqb_ℤ_iff, max_int64, Bool, Bytes, some, true, false, Bool-cases, bytes_eq_refl,
  ok, ◌≡◌, ◌≢◌, inl, inr, refl, sym, ◌∙◌, subst, if◌then◌else◌,
}
use iwut_app_center.Shared.{Time, is_zero, AuthId, auth_id_is_valid}
use iwut_app_center.Version.Urls.{Urls}
use iwut_app_center.Version.Redirects.{redirects_equal}
use iwut_app_center.Version.Draft.{
  Replacement, DraftVersion, ApplicationVersion, has_replacement, restore_application_version,
  new_draft, new_application_version, replace_draft, status_is_draft, same_bool, version_of_draft,
}
use iwut_app_center.Review.Snapshot.{VersionSnapshot}
use iwut_app_center.Review.Decision.{ApplicationReviewDecision}
use iwut_app_center.Review.Attempt.{
  ApplicationReview, SubmissionCandidate, new_submission_candidate,
}
use iwut_app_center.Review.Candidate.{
  VersionSummary, DecisionCandidate, DecidedVersion, new_submitted_application_version,
  new_decision_candidate, new_decided_application_version,
}
use iwut_app_center.Version.Reviewed.{
  as_submitted, as_decided, awaits_decision, DecisionOn, as_submitted-Sound, as_decided-Sound,
}
use iwut_app_center.Version.Revalidated.{strings_equal_refl}
use iwut_app_center.Version.Edited.{
  Edit, replace, back_to_draft, expected_of, edited, Sound, restore_application_version-eq,
  restore-Sound, Sound-restore, replaced, Replaced, replace_draft-Replaced, restore_draft-Drafted,
  edited-Sound,
}

-- The versions that a developer's edits and the submissions and decisions of internal/review lead to, while
-- a revision is left to count.
pub data Life (urls : Urls) : ApplicationVersion → Type 0 where
  created :
      (given d : DraftVersion) (sequence : ℤ) (v : ApplicationVersion)
      → new_draft urls given ≡ ok d
      → new_application_version urls d sequence ≡ ok v
      → Life urls v
  changed :
      (v w : ApplicationVersion) (e : Edit)
      → Life urls v
      → ltb_ℤ v.revision max_int64 ≡ true
      → edited urls v e ≡ ok w
      → Life urls w
  handed_in :
      (v : ApplicationVersion) (snapshot : VersionSnapshot) (c : SubmissionCandidate) (by : AuthId)
      (at : Time) (s : VersionSummary)
      → Life urls v
      → ltb_ℤ v.revision max_int64 ≡ true
      → status_is_draft v.review_status ≡ true
      → new_submission_candidate v.application_id v.id v.revision (some snapshot) ≡ ok c
      → new_submitted_application_version (some c) by at ≡ ok s
      → Life urls (as_submitted v s)
  decided :
      (v : ApplicationVersion) (r : ApplicationReview) (status : Bytes) (snapshot : VersionSnapshot)
      (admin : AuthId) (c : DecisionCandidate) (d : ApplicationReviewDecision) (w : DecidedVersion)
      → Life urls v
      → ltb_ℤ v.revision max_int64 ≡ true
      → awaits_decision v.review_status ≡ true
      → (r.application_id ≡ v.application_id) × (r.version_id ≡ v.id)
      → new_decision_candidate (some r) status v.revision v.created_by (some snapshot) admin ≡ ok c
      → DecisionOn r d
      → new_decided_application_version (some c) (some d) ≡ ok w
      → Life urls (as_decided v w)

Life-Sound : (urls : Urls) (v : ApplicationVersion) → Life urls v → Sound urls v
unfolding new_application_version
Life-Sound urls _ (created given d sequence v drafted run) =
    let (fine, made) = restore_application_version-eq urls (version_of_draft d sequence) v run in
    subst (Sound urls) made (restore-Sound urls (version_of_draft d sequence) v fine)
Life-Sound urls _ (changed v w e l few run) = edited-Sound urls v w e (Life-Sound urls v l) few run
Life-Sound urls _ (handed_in v snapshot c by at s l few is_draft made run) =
    as_submitted-Sound urls v c by at s (Life-Sound urls v l) few run
Life-Sound urls _ (decided v r status snapshot admin c d w l few is_submitted same seen made run) =
    as_decided-Sound urls v r c d w (Life-Sound urls v l) few made run

-- A version that creation, edits, submissions and decisions lead to, while the revisions are below the
-- largest int64, is one that RestoreApplicationVersion accepts and gives back unchanged: its parts pass
-- their tests and its times are in UTC.
pub Life-IsRestorable :
    (urls : Urls) (v : ApplicationVersion) → Life urls v → restore_application_version urls v ≡ ok v
Life-IsRestorable urls v l = Sound-restore urls v (Life-Sound urls v l)

same_bool_refl : (b : Bool) → same_bool b b ≡ true
same_bool_refl true = refl
same_bool_refl false = refl

has_replacement_refl : (r : Replacement) → has_replacement r r ≡ true
unfolding has_replacement redirects_equal
has_replacement_refl r =
    rw
      (
        bytes_eq_refl r.version_label,
        bytes_eq_refl r.launch_url.value,
        same_bool_refl r.launch_url.developmental,
        (eqb_ℤ_iff r.rpc_api_range.minimum r.rpc_api_range.minimum).1 refl,
        (eqb_ℤ_iff r.rpc_api_range.maximum_exclusive r.rpc_api_range.maximum_exclusive).1 refl,
        strings_equal_refl r.required_capabilities,
        strings_equal_refl r.scope_request.required,
        strings_equal_refl r.scope_request.optional,
        strings_equal_refl r.oauth_redirects.pkce_uris,
        strings_equal_refl r.oauth_redirects.confidential_uris,
      )
      refl

-- A draft whose content is the replacement's.
abbrev IsDraftOf : Replacement → ApplicationVersion → Type 0
IsDraftOf r w = (status_is_draft w.review_status ≡ true) × (has_replacement w.content r ≡ true)

draft-of_Replaced :
    (urls : Urls) (v w : ApplicationVersion) (expected : ℤ) (r : Replacement) (by : AuthId)
    (at : Time)
    → Replaced urls v w expected r by at
    → IsDraftOf r w
unfolding replaced
draft-of_Replaced urls v w expected r by at h = elim (Bool-cases (has_replacement v.content r)) [
  | inl same ↦
      let kept : v ≡ w = subst (λ b. (if b then v else replaced v r by at) ≡ w) same h.made in
      subst (IsDraftOf r) kept (h.is_draft, same)
  | inr other ↦
      let made : replaced v r by at ≡ w =
        subst (λ b. (if b then v else replaced v r by at) ≡ w) other h.made in
      subst (IsDraftOf r) made (h.is_draft, has_replacement_refl r)
]

revision-of_edited :
    (urls : Urls) (v w : ApplicationVersion) (e : Edit)
    → edited urls v e ≡ ok w
    → v.revision ≡ expected_of e
unfolding edited expected_of
revision-of_edited urls v w (replace expected r by at) run =
    (eqb_ℤ_iff v.revision expected).0
      (replace_draft-Replaced urls v w expected r by at run).same_revision
revision-of_edited urls v w (back_to_draft expected by at) run =
    (eqb_ℤ_iff v.revision expected).0 (restore_draft-Drafted v w expected by at run).same_revision

-- A draft that was just replaced is left as it is by the same replacement at its new revision, whoever
-- sends it again: neither its revision nor its editor changes.
pub replaced_again :
    (urls : Urls) (v w : ApplicationVersion) (expected : ℤ) (r : Replacement) (by by' : AuthId)
    (at at' : Time)
    → replace_draft urls v expected r by at ≡ ok w
    → ltb_ℤ w.revision (pos 1) ≡ false
    → auth_id_is_valid by' ≡ true
    → is_zero at' ≡ false
    → replace_draft urls w w.revision r by' at' ≡ ok w
unfolding replace_draft
replaced_again urls v w expected r by by' at at' run positive who when =
    let h = replace_draft-Replaced urls v w expected r by at run in
    let (is_draft, same) = draft-of_Replaced urls v w expected r by at h in
    rw (positive, is_draft, (eqb_ℤ_iff w.revision w.revision).1 refl, h.content, who, when, same)
      refl

-- After an edit that counted the revision up, no edit that still expects the revision before succeeds.
pub edited-conflict :
    (urls : Urls) (v w u : ApplicationVersion) (e e' : Edit)
    → edited urls v e ≡ ok w
    → w.revision ≢ v.revision
    → expected_of e' ≡ expected_of e
    → edited urls w e' ≢ ok u
edited-conflict urls v w u e e' run moved same again =
    moved (revision-of_edited urls w u e' again ∙ same ∙ sym (revision-of_edited urls v w e run))
