-- ===== src/Review/Deciders.antt =====
-- internal/review/usecase/decide_application_version_review.go: by whom, and over which candidate, Handle
-- changes the store.
use iwut_app_center.Prelude.{
  true, false, any, Option, none, some, List, [], ◌∷◌, Bytes, codes, bytes_eq, bytes_eq_iff, Result,
  ok, err, ◌≡◌, ◌≢◌, refl, subst, arith,
}
use iwut_app_center.Publication.Snapshot.{contains}
use iwut_app_center.Review.{Error}
use iwut_app_center.Review.Decision.{ReviewDecision, ApplicationReviewDecision}
use iwut_app_center.Review.Attempt.{ApplicationReview}
use iwut_app_center.Review.Candidate.{DecisionCandidate, reviewer_conflicts}
use iwut_app_center.Review.Decide.{
  DecisionPorts, DecideCommand, ReviewerIdentity, PortError, has_permission, admit, plan_decision,
  handle,
}

contains-of_any :
    (values : List Bytes) (x : Bytes)
    → any (λ y. bytes_eq y x) values ≡ true
    → contains values x ≡ true
unfolding contains
contains-of_any [] x h = absurd (ground arith)
contains-of_any (y ∷ ys) x h =
    ground (arith, contains-of_any ys x, bytes_eq_iff y x, bytes_eq_iff x y)

different : (a b : Bytes) → bytes_eq a b ≡ false → a ≢ b
different a b h e = absurd (ground (arith, bytes_eq_iff a b))

-- A reviewer who may decide, and the candidate that was read for the path.
pub record Decides {S : Type 0} (ports : DecisionPorts S) (identity : ReviewerIdentity)
    (application_id version_id review_id : Bytes) (s : S) (c : DecisionCandidate) : Type 0 where
  pub permitted : contains identity.permissions (codes "app.version.review") ≡ true
  pub loaded :
      ports.load_decision_candidate application_id version_id review_id identity.auth_id s
      ≡ ok (some c)
  pub application : c.review.application_id ≡ application_id
  pub version : c.review.version_id ≡ version_id
  pub review : c.review.review_id ≡ review_id
  pub not_admin : identity.auth_id ≢ c.current_admin_id
  pub not_creator : identity.auth_id ≢ c.version_created_by
  pub not_submitter : identity.auth_id ≢ c.review.submitted_by

module _ {S : Type 0} (ports : DecisionPorts S) where
  admit-permitted :
      (identity : ReviewerIdentity) (a v r : Bytes) (command : DecideCommand) (s : S)
      (c : DecisionCandidate) (action : ReviewDecision) (policy : Bytes)
      → admit ports identity a v r command s ≡ ok (c, action, policy)
      → any (λ y. bytes_eq y (codes "app.version.review")) identity.permissions ≡ true
  unfolding admit has_permission
  admit-permitted identity a v r command s c action policy h = ground arith

  -- What the guards on the candidate have let through.
  record Guarded (identity : ReviewerIdentity) (a v r : Bytes) (s : S) (c : DecisionCandidate)
      : Type 0 where
    loaded : ports.load_decision_candidate a v r identity.auth_id s ≡ ok (some c)
    application : bytes_eq c.review.application_id a ≡ true
    version : bytes_eq c.review.version_id v ≡ true
    review : bytes_eq c.review.review_id r ≡ true
    not_admin : bytes_eq identity.auth_id c.current_admin_id ≡ false
    not_creator : bytes_eq identity.auth_id c.version_created_by ≡ false
    not_submitter : bytes_eq identity.auth_id c.review.submitted_by ≡ false

  admit-Guarded :
      (identity : ReviewerIdentity) (a v r : Bytes) (command : DecideCommand) (s : S)
      (c : DecisionCandidate) (action : ReviewDecision) (policy : Bytes)
      (o : Result PortError (Option DecisionCandidate))
      → ports.load_decision_candidate a v r identity.auth_id s ≡ o
      → admit ports identity a v r command s ≡ ok (c, action, policy)
      → Guarded identity a v r s c
  unfolding admit reviewer_conflicts
  admit-Guarded identity a v r command s c action policy (err e) l h = absurd (ground arith)
  admit-Guarded identity a v r command s c action policy (ok none) l h = absurd (ground arith)
  admit-Guarded identity a v r command s c action policy (ok (some found)) l h = record {
    loaded = ground arith;
    application = ground arith;
    version = ground arith;
    review = ground arith;
    not_admin = ground arith;
    not_creator = ground arith;
    not_submitter = ground arith;
  }

  Decides-of_admit :
      (identity : ReviewerIdentity) (a v r : Bytes) (command : DecideCommand) (s : S)
      (c : DecisionCandidate) (action : ReviewDecision) (policy : Bytes)
      → admit ports identity a v r command s ≡ ok (c, action, policy)
      → Decides ports identity a v r s c
  Decides-of_admit identity a v r command s c action policy h =
      let g = admit-Guarded identity a v r command s c action policy _ refl h in
      record {
        permitted =
            contains-of_any identity.permissions (codes "app.version.review")
              (admit-permitted identity a v r command s c action policy h);
        loaded = g.loaded;
        application = (bytes_eq_iff c.review.application_id a).0 g.application;
        version = (bytes_eq_iff c.review.version_id v).0 g.version;
        review = (bytes_eq_iff c.review.review_id r).0 g.review;
        not_admin = different identity.auth_id c.current_admin_id g.not_admin;
        not_creator = different identity.auth_id c.version_created_by g.not_creator;
        not_submitter = different identity.auth_id c.review.submitted_by g.not_submitter;
      }

  Decides-of_plan :
      (identity : ReviewerIdentity) (a v r : Bytes) (command : DecideCommand) (s : S)
      (c : DecisionCandidate) (d : ApplicationReviewDecision)
      → plan_decision ports identity a v r command s ≡ ok (c, d)
      → Decides ports identity a v r s c
  unfolding plan_decision
  Decides-of_plan identity a v r command s c d h =
      by_admitted (admit ports identity a v r command s) refl
    where
      by_admitted :
          (o : Result Error (DecisionCandidate × ReviewDecision × Bytes))
          → admit ports identity a v r command s ≡ o
          → Decides ports identity a v r s c
      by_admitted (err x) o = absurd (ground arith)
      by_admitted (ok (c', action, policy)) o =
          let same : c' ≡ c = ground arith in
          subst (Decides ports identity a v r s) same
            (Decides-of_admit identity a v r command s c' action policy o)

  -- Handle changes the store only by one commit of a decision on the candidate that was read for the
  -- three ids of the path, and only where the caller holds the permission and is neither the
  -- administrator of the application nor the creator of the version nor the submitter of the review.
  pub handle-Decides :
      (identity : ReviewerIdentity) (application_id version_id review_id : Bytes)
      (command : DecideCommand) (s t : S) (o : Result Error ApplicationReview)
      → handle ports identity application_id version_id review_id command s ≡ (o, t)
      → t ≢ s
      → (c : DecisionCandidate) × (d : ApplicationReviewDecision) × Decides ports identity
          application_id version_id review_id s c
        × ((ports.decide c identity.auth_id d s).1 ≡ t)
  unfolding handle
  handle-Decides identity a v r command s t o h moved =
      by_plan (plan_decision ports identity a v r command s) refl
    where
      by_plan :
          (p : Result Error (DecisionCandidate × ApplicationReviewDecision))
          → plan_decision ports identity a v r command s ≡ p
          → (c : DecisionCandidate) × (d : ApplicationReviewDecision) × Decides ports identity a v r
              s c
            × ((ports.decide c identity.auth_id d s).1 ≡ t)
      by_plan (err e) p = absurd (moved (ground arith))
      by_plan (ok (c, d)) p = (c, d, Decides-of_plan identity a v r command s c d p, ground arith)
