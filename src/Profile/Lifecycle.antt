-- ===== src/Profile/Lifecycle.antt =====
-- internal/profile/domain: the life of a profile revision and of its review: that both are read back from
-- the store, who decides, and that a decision stands.
use iwut_app_center.Prelude.{
  ◌==◌, ℤ, eqb_ℤ, max_int64, true, false, all, Option, none, some, Bytes, codes, bytes_eq,
  bytes_eq_iff, bytes_lt, length, Result, ok, err, is_ok, reject-end, not-false, ◌≡◌, ◌≢◌, ◌⊎◌, inl,
  inr, refl, sym, ap, subst, arith,
}
use iwut_app_center.Shared.{Time, AuthId}
use iwut_app_center.Shared.Sorting.{sort_by}
use iwut_app_center.Publication.Snapshot.{contains}
use iwut_app_center.Version.Resorting.{length-sort_by}
use iwut_app_center.Profile.{Error}
use iwut_app_center.Profile.Text.{Unicode}
use iwut_app_center.Profile.Revision.{
  ProfileDraft, ProfileRevision, Content, submitted, status_is_valid, new_profile_draft,
  assign_sequence, restore_profile_revision, replace_profile_draft, replaced_by, numbered,
}
use iwut_app_center.Profile.Review.{
  ProfileReview, is_pending, Submission, submit_draft, valid_policy_version,
  validate_profile_reason, decision_fits, decision_is_malformed, review_is_malformed,
  restore_review_candidate,
}
use iwut_app_center.Profile.Decide.{
  Outcome, approve, reject_it, other, outcome_is_reject, outcome_is_other, status_of,
  review_status_of, Verdict, Decided, decided_of, decide_review, confirm_checks, ReviewPolicy,
}
use iwut_app_center.Profile.Stored.{
  Sound, Sound-restore, Sound-of_draft, Sound-next, SoundReview, SoundReview-restore,
}
use iwut_app_center.Profile.Checks.{checks_are_stored-sort_by}
use iwut_app_center.Profile.Guards.{
  Replaced, replace_profile_draft-Replaced, Submitted, submit_draft-Submitted, Passed,
  decide_review-Passed, confirm_checks-Confirmed,
}

-- The ids of the checks that a policy requires are in the form in which reviews are stored.
abbrev pub HasStoredChecks : ReviewPolicy → Type 0
HasStoredChecks policy = all valid_policy_version policy.required_checks ≡ true

-- The revisions, with the review of those that were submitted, that the commands lead to.
pub data ProfileLife (unicode : Unicode) : ProfileRevision → Option ProfileReview → Type 0 where
  drafted :
      (given d : ProfileDraft) (sequence : ℤ) (r : ProfileRevision)
      → new_profile_draft unicode given ≡ ok d
      → assign_sequence unicode d sequence ≡ ok r
      → ProfileLife unicode r none
  replaced :
      (r w : ProfileRevision) (expected : ℤ) (replacement : Content) (by : AuthId) (at : Time)
      → ProfileLife unicode r none
      → replace_profile_draft unicode r expected replacement by at ≡ ok w
      → ProfileLife unicode w none
  handed_in :
      (r : ProfileRevision) (expected : ℤ) (id : Bytes) (attempt : ℤ) (by : AuthId) (at : Time)
      (s : Submission)
      → ProfileLife unicode r none
      → submit_draft unicode r expected id attempt by at ≡ ok s
      → ProfileLife unicode s.revision (some s.review)
  decided :
      (r : ProfileRevision) (v : ProfileReview) (d : Verdict) (w : Decided)
      → ProfileLife unicode r (some v)
      → HasStoredChecks d.policy
      → decide_review unicode r v d ≡ ok w
      → ProfileLife unicode w.revision (some w.review)

abbrev SoundReviews : Unicode → Option ProfileReview → Type 0
SoundReviews unicode none = Unit
SoundReviews unicode (some v) = SoundReview unicode v

Replaced-Sound :
    (unicode : Unicode) (r w : ProfileRevision) (replacement : Content) (by : AuthId) (at : Time)
    → Sound unicode r
    → Replaced unicode r w replacement by at
    → (w ≡ r) ⊎ ((eqb_ℤ r.revision max_int64 ≡ false) × (replaced_by r replacement by at ≡ w))
    → Sound unicode w
Replaced-Sound unicode r w replacement by at s h (inl same) = subst (Sound unicode) (sym same) s
Replaced-Sound unicode r w replacement by at s h (inr (room, made)) = subst (Sound unicode) made (
    Sound-next unicode r replacement r.review_status by at s room h.canonical s.status h.who h.when)

Submitted-Sound :
    (unicode : Unicode) (r : ProfileRevision) (expected : ℤ) (id : Bytes) (attempt : ℤ)
    (by : AuthId) (at : Time) (s : Submission)
    → Sound unicode r
    → Submitted unicode r expected id attempt by at s
    → Sound unicode s.revision × SoundReview unicode s.review
unfolding status_is_valid review_is_malformed decision_fits
Submitted-Sound unicode r expected id attempt by at s sound h =
    subst (λ x. Sound unicode x.revision × SoundReview unicode x.review) h.made
      (
        Sound-next unicode r r.content submitted by at sound h.room sound.content refl h.who h.when,
        record {
          fine =
              rw (h.named, sound.application_id, sound.id, h.counted, h.given, h.who, h.when) refl;
          fits = refl;
          submitted_utc = refl;
        },
      )

-- What the store asks of a decision, where its outcome is `outcome`.
decision-fits :
    (unicode : Unicode) (r : ProfileRevision) (v : ProfileReview) (d : Verdict) (w : Decided)
    (outcome : Outcome)
    → HasStoredChecks d.policy
    → Passed unicode r v d w
    → d.outcome ≡ outcome
    → decision_fits unicode
        (decided_of r v d).review.status
        (decided_of r v d).review.decision
        v.snapshot
      ≡ true
unfolding decision_fits decision_is_malformed confirm_checks
decision-fits unicode r v d w approve stored p e =
    let reason : validate_profile_reason d.reason false ≡ ok tt =
      subst (λ o. validate_profile_reason d.reason (outcome_is_reject o) ≡ ok tt) e p.reason in
    let c =
      confirm_checks-Confirmed unicode d.policy d.checks v.snapshot
        (subst (λ o. confirm_checks unicode o d.policy d.checks v.snapshot ≡ ok tt) e p.checks) in
    let checks =
      checks_are_stored-sort_by d.checks d.policy.required_checks c.some_check c.required c.once
        stored in
    rw e (rw (p.policy, p.admitted.who, p.when, reason, checks, c.canonical) refl)
decision-fits unicode r v d w reject_it stored p e =
    let reason : validate_profile_reason d.reason true ≡ ok tt =
      subst (λ o. validate_profile_reason d.reason (outcome_is_reject o) ≡ ok tt) e p.reason in
    let none_given : (length (sort_by bytes_lt d.checks) == 0) ≡ true =
      rw (length-sort_by bytes_lt d.checks) (
        not-false _ (
          reject-end _ _ (
            subst (λ o. confirm_checks unicode o d.policy d.checks v.snapshot ≡ ok tt) e
              p.checks))) in
    rw e (rw (p.policy, p.admitted.who, p.when, reason, none_given) refl)
decision-fits unicode r v d w other stored p e =
    let known : outcome_is_other other ≡ false =
      subst (λ o. outcome_is_other o ≡ false) e p.known in
    absurd (ground arith)

Decided-Sound :
    (unicode : Unicode) (r : ProfileRevision) (v : ProfileReview) (d : Verdict) (w : Decided)
    → HasStoredChecks d.policy
    → Sound unicode r
    → SoundReview unicode v
    → Passed unicode r v d w
    → Sound unicode w.revision × SoundReview unicode w.review
unfolding review_is_malformed status_is_valid
Decided-Sound unicode r v d w stored s sv p =
    subst (λ x. Sound unicode x.revision × SoundReview unicode x.review) p.made
      (
        Sound-next unicode r r.content (decided_of r v d).revision.review_status d.reviewer d.at s
            p.room s.content (known_status d.outcome) p.admitted.who p.when,
        record {
          fine = sv.fine;
          fits = decision-fits unicode r v d w d.outcome stored p refl;
          submitted_utc = sv.submitted_utc;
        },
      )
  where
    known_status : (o : Outcome) → status_is_valid (status_of o) ≡ true
    known_status approve = refl
    known_status reject_it = refl
    known_status other = refl

ProfileLife-Sound :
    (unicode : Unicode) (r : ProfileRevision) (o : Option ProfileReview)
    → ProfileLife unicode r o
    → Sound unicode r × SoundReviews unicode o
unfolding assign_sequence
ProfileLife-Sound unicode _ _ (drafted given d sequence r new run) =
    (Sound-of_draft unicode (numbered d sequence) refl refl r run, tt)
ProfileLife-Sound unicode _ _ (replaced r w expected replacement by at l run) =
    let h = replace_profile_draft-Replaced unicode r w expected replacement by at run in
    (
      Replaced-Sound unicode r w replacement by at (ProfileLife-Sound unicode r none l).0 h h.made,
      tt,
    )
ProfileLife-Sound unicode _ _ (handed_in r expected id attempt by at s l run) =
    Submitted-Sound unicode r expected id attempt by at s (ProfileLife-Sound unicode r none l).0
      (submit_draft-Submitted unicode r expected id attempt by at s run)
ProfileLife-Sound unicode _ _ (decided r v d w l stored run) =
    let (s, sv) = ProfileLife-Sound unicode r (some v) l in
    Decided-Sound unicode r v d w stored s sv (decide_review-Passed unicode r v d w run)

-- A profile revision and its review that drafts, replacements, submissions and decisions lead to are both
-- read back from the store as they are, where the checks that the policies require have ids in the form
-- in which reviews are stored.
pub ProfileLife-IsRestorable :
    (unicode : Unicode) (r : ProfileRevision) (v : ProfileReview)
    → ProfileLife unicode r (some v)
    → (restore_profile_revision unicode r ≡ ok r) × (restore_review_candidate unicode v ≡ ok v)
ProfileLife-IsRestorable unicode r v l =
    let (s, sv) = ProfileLife-Sound unicode r (some v) l in
    (Sound-restore unicode r s, SoundReview-restore unicode v sv)

decided_already :
    (unicode : Unicode) (r : ProfileRevision) (v : ProfileReview) (d : Verdict)
    → is_pending v.status ≡ false
    → is_ok (decide_review unicode r v d) ≡ false
decided_already unicode r v d h = by_result (decide_review unicode r v d) refl
  where
    by_result :
        (o : Result Error Decided)
        → decide_review unicode r v d ≡ o
        → is_ok (decide_review unicode r v d) ≡ false
    by_result (err e) run = ap is_ok run
    by_result (ok w) run =
        let pending = (decide_review-Passed unicode r v d w run).admitted.undecided in
        absurd (ground arith)

different : (a b : Bytes) → bytes_eq a b ≡ false → a ≢ b
different a b h e = absurd (ground (arith, bytes_eq_iff a b))

not_pending : (o : Outcome) → is_pending (review_status_of o) ≡ false
not_pending approve = refl
not_pending reject_it = refl
not_pending other = refl

-- Whom the review's decision names.
abbrev pub decided_by_of : ProfileReview → Option AuthId
decided_by_of v = elim v.decision [ none ↦ none | some decision ↦ some decision.decided_by ]

-- Who decided held the permission and is neither the administrator, nor who created the revision, nor
-- who submitted it; the review's decision and the revision bear their name, and no one can decide again.
pub decide_review_once :
    (unicode : Unicode) (r : ProfileRevision) (v : ProfileReview) (d d' : Verdict) (w : Decided)
    → decide_review unicode r v d ≡ ok w
    → (contains d.permissions (codes "app.profile.review") ≡ true)
      × (d.reviewer ≢ d.admin)
      × (d.reviewer ≢ r.created_by)
      × (d.reviewer ≢ v.submitted_by)
      × (w.revision.updated_by ≡ d.reviewer)
      × (decided_by_of w.review ≡ some d.reviewer)
      × (is_ok (decide_review unicode w.revision w.review d') ≡ false)
decide_review_once unicode r v d d' w h =
    let p = decide_review-Passed unicode r v d w h in
    let a = p.admitted in
    (
      a.permitted,
      different d.reviewer d.admin a.not_admin,
      different d.reviewer r.created_by a.not_creator,
      different d.reviewer v.submitted_by a.not_submitter,
      ap (λ x. x.revision.updated_by) (sym p.made),
      ap (λ x. decided_by_of x.review) (sym p.made),
      decided_already unicode w.revision w.review d'
          (subst (λ x. is_pending x.review.status ≡ false) p.made (not_pending d.outcome)),
    )
