-- ===== src/Filter/Planned.antt =====
-- internal/filter/usecase/handlers.go: what the plans of Set and Clear lead to, by what the repository
-- answers when it is read.
use iwut_app_center.Prelude.{
  ℤ, pos, eqb_ℤ_iff, ◌+ℤ◌, ◌<ℤ◌, max_int64, Bool, true, false, Option, none, some, Bytes, Result,
  ok, err, ◌≡◌, sym, ap, ◌∙◌, subst, arith,
}
use iwut_app_center.Shared.{Time, AuthId, DeveloperIdentity, utc, is_zero}
use iwut_app_center.Filter.Rule.{Rule}
use iwut_app_center.Filter.Revision.{
  ApplicationFilter, ApplicationFilterRevision, matches_rule, is_allow_all, publish_rule,
  publish_allow_all,
}
use iwut_app_center.Filter.Publish.{
  Publication, of_rule, of_allow_all, matches_rule-publish_rule, application_id-publish_rule,
  application_id-publish_allow_all, is_allow_all-publish_allow_all, revision-Publication,
}
use iwut_app_center.Filter.Kept.{IsConstructed, HasConstructed, Committable, Finds}
use iwut_app_center.Filter.Handlers.{Ports, PortError, Plan, keep, publish, plan_set, plan_clear}

revision-publish_rule :
    (f g : ApplicationFilter) (id : Bytes) (rule : Rule) (by : AuthId) (at : Time)
    (r : ApplicationFilterRevision)
    → publish_rule f id rule by at ≡ ok (g, r)
    → (r.rule ≡ some rule) × (r.published_at ≡ at)
unfolding publish_rule
revision-publish_rule f g id rule by at r h = ground arith

revision-publish_allow_all :
    (f g : ApplicationFilter) (id : Bytes) (by : AuthId) (at : Time) (r : ApplicationFilterRevision)
    → publish_allow_all f id by at ≡ ok (g, r)
    → (r.rule ≡ none) × (r.published_at ≡ at)
unfolding publish_allow_all
revision-publish_allow_all f g id by at r h = ground arith

-- A plan that leads to a filter with the property `q`: one that is there, or one that can be committed
-- while its revision is below the largest int64.
unfoldable pub LeadsTo :
    {S : Type 0}
    → Ports S
    → (Time → Time)
    → (ApplicationFilter → Bool)
    → AuthId
    → Bytes
    → ℤ
    → S
    → Plan
    → Type 0
LeadsTo ports as_stored q admin id expected s (keep f) =
    (ports.load_for_admin id admin s ≡ ok (some f)) × (q f ≡ true)
LeadsTo ports as_stored q admin id expected s (publish f r) =
    (f.application_id ≡ id)
    × (q f ≡ true)
    × (f.revision ≡ expected +ℤ pos 1)
    × (f.revision <ℤ max_int64 → Committable as_stored f r)

module _ {S : Type 0} (ports : Ports S) (as_stored : Time → Time) where
  LeadsTo-Publication :
      (q : ApplicationFilter → Bool) (admin : AuthId) (id : Bytes) (expected : ℤ) (s : S)
      (f0 f : ApplicationFilter) (r : ApplicationFilterRevision)
      → Finds as_stored ports
      → is_zero (as_stored (utc (ports.now s))) ≡ false
      → ports.load_for_admin id admin s ≡ ok (some f0)
      → f0.revision ≡ expected
      → Publication f0 f r
      → f.application_id ≡ f0.application_id
      → r.published_at ≡ utc (ports.now s)
      → HasConstructed r.rule
      → q f ≡ true
      → LeadsTo ports as_stored q admin id expected s (publish f r)
  unfolding LeadsTo Finds
  LeadsTo-Publication q admin id expected s f0 f r finds timed l e p same at built holds =
      let (own, stored) = finds id admin s f0 l in
      (
        same ∙ own,
        holds,
        revision-Publication f0 f r stored p ∙ ap (λ n. n +ℤ pos 1) e,
        λ room. record {
          before = f0;
          stored = stored;
          published = p;
          room = room;
          rule = built;
          timed = subst (λ t. is_zero (as_stored t) ≡ false) (sym at) timed;
        },
      )

  pub LeadsTo-plan_set :
      (identity : DeveloperIdentity) (id : Bytes) (expected : ℤ) (rule : Rule) (s : S) (p : Plan)
      (o : Result PortError (Option ApplicationFilter)) (u : Option Bytes)
      → Finds as_stored ports
      → is_zero (as_stored (utc (ports.now s))) ≡ false
      → IsConstructed rule
      → ports.load_for_admin id identity.auth_id s ≡ o
      → ports.new_uuid_v7 s ≡ u
      → plan_set ports identity id expected rule s ≡ ok p
      → LeadsTo ports as_stored (λ f. matches_rule f rule) identity.auth_id id expected s p
  unfolding plan_set LeadsTo
  LeadsTo-plan_set identity id expected rule s p (err e) u finds timed built l g h =
      absurd (ground arith)
  LeadsTo-plan_set identity id expected rule s p (ok none) u finds timed built l g h =
      absurd (ground arith)
  LeadsTo-plan_set identity id expected rule s (keep f) (ok (some f0)) u finds timed built l g h =
      ground arith
  LeadsTo-plan_set identity id expected rule s (publish f r) (ok (some f0)) none finds timed built l
        g h =
      absurd (ground arith)
  LeadsTo-plan_set identity id expected rule s (publish f r) (ok (some f0)) (some i) finds timed
        built l g h =
      let at = utc (ports.now s) in
      let made : publish_rule f0 i rule identity.auth_id at ≡ ok (f, r) = ground arith in
      let (with_rule, timed_at) = revision-publish_rule f0 f i rule identity.auth_id at r made in
      LeadsTo-Publication (λ f. matches_rule f rule) identity.auth_id id expected s f0 f r finds
        timed l (ground (arith, eqb_ℤ_iff f0.revision expected))
        (of_rule i rule identity.auth_id at made)
        (application_id-publish_rule f0 f i rule identity.auth_id at r made) timed_at
        (subst HasConstructed (sym with_rule) built)
        (matches_rule-publish_rule f0 f i rule identity.auth_id at r made)

  pub LeadsTo-plan_clear :
      (identity : DeveloperIdentity) (id : Bytes) (expected : ℤ) (s : S) (p : Plan)
      (o : Result PortError (Option ApplicationFilter)) (u : Option Bytes)
      → Finds as_stored ports
      → is_zero (as_stored (utc (ports.now s))) ≡ false
      → ports.load_for_admin id identity.auth_id s ≡ o
      → ports.new_uuid_v7 s ≡ u
      → plan_clear ports identity id expected s ≡ ok p
      → LeadsTo ports as_stored is_allow_all identity.auth_id id expected s p
  unfolding plan_clear LeadsTo
  LeadsTo-plan_clear identity id expected s p (err e) u finds timed l g h = absurd (ground arith)
  LeadsTo-plan_clear identity id expected s p (ok none) u finds timed l g h = absurd (ground arith)
  LeadsTo-plan_clear identity id expected s (keep f) (ok (some f0)) u finds timed l g h =
      ground arith
  LeadsTo-plan_clear identity id expected s (publish f r) (ok (some f0)) none finds timed l g h =
      absurd (ground arith)
  LeadsTo-plan_clear identity id expected s (publish f r) (ok (some f0)) (some i) finds timed l g
        h =
      let at = utc (ports.now s) in
      let made : publish_allow_all f0 i identity.auth_id at ≡ ok (f, r) = ground arith in
      let (no_rule, timed_at) = revision-publish_allow_all f0 f i identity.auth_id at r made in
      LeadsTo-Publication is_allow_all identity.auth_id id expected s f0 f r finds timed l
        (ground (arith, eqb_ℤ_iff f0.revision expected)) (of_allow_all i identity.auth_id at made)
        (application_id-publish_allow_all f0 f i identity.auth_id at r made) timed_at
        (subst HasConstructed (sym no_rule) tt)
        (is_allow_all-publish_allow_all f0 f i identity.auth_id at r made)
