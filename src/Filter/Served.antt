-- ===== src/Filter/Served.antt =====
-- internal/filter/usecase/handlers.go: what a Set and a Clear that answer leave in the repository.
use iwut_app_center.Prelude.{
  ℤ, pos, ltb_ℤ, ◌+ℤ◌, ◌<ℤ◌, max_int64, Bool, true, false, ◌⊎◌, inl, inr, Option, some, Bytes,
  Result, ok, err, ◌≡◌, refl, sym, subst, ◌∙◌, arith,
}
use iwut_app_center.Shared.{Time, AuthId, DeveloperIdentity, utc, is_zero}
use iwut_app_center.Filter.{Error}
use iwut_app_center.Filter.Rule.{Rule}
use iwut_app_center.Filter.Revision.{
  ApplicationFilter, ApplicationFilterRevision, matches_rule, is_allow_all,
}
use iwut_app_center.Filter.Kept.{
  IsConstructed, Keeps, Finds, reread, in_store, matches_rule-reread, is_allow_all-reread,
}
use iwut_app_center.Filter.Planned.{LeadsTo, LeadsTo-plan_set, LeadsTo-plan_clear}
use iwut_app_center.Filter.Handlers.{
  Ports, PortError, ChangeResult, Plan, keep, publish, validate_request, get, set, clear, plan_set,
  plan_clear, execute,
}

module _ {S : Type 0} (ports : Ports S) (as_stored : Time → Time) where
  -- What an answered command leaves in the store: its answer, as the store gives it back.
  pub record Done (q : ApplicationFilter → Bool) (admin : AuthId) (id : Bytes) (expected : ℤ)
      (t : S) (c : ChangeResult) : Type 0 where
    pub loads : ports.load_for_admin id admin t ≡ ok (some (in_store as_stored c))
    pub holds : q c.filter ≡ true
    pub holds_stored : q (in_store as_stored c) ≡ true
    pub next : (c.changed ≡ false) ⊎ (c.filter.revision ≡ expected +ℤ pos 1)

  Done-kept :
      (q : ApplicationFilter → Bool) (identity : DeveloperIdentity) (id : Bytes) (expected : ℤ)
      (s t : S) (f : ApplicationFilter) (c : ChangeResult)
      → LeadsTo ports as_stored q identity.auth_id id expected s (keep f)
      → execute ports identity expected (ok (keep f)) s ≡ (ok c, t)
      → Done q identity.auth_id id expected t c
  unfolding LeadsTo execute
  Done-kept q identity id expected s t f c l h =
      let answer : ChangeResult = record { filter = f; changed = false } in
      let same : answer ≡ c = ground arith in
      let left : s ≡ t = ground arith in
      let done : Done q identity.auth_id id expected s answer = record {
        loads = l.0;
        holds = l.1;
        holds_stored = l.1;
        next = inl refl;
      } in
      subst (λ x. Done q identity.auth_id id expected x c) left
        (subst (Done q identity.auth_id id expected s) same done)

  Done-published :
      (q : ApplicationFilter → Bool) (identity : DeveloperIdentity) (id : Bytes) (expected : ℤ)
      (s t : S) (f : ApplicationFilter) (r : ApplicationFilterRevision) (c : ChangeResult)
      → Keeps as_stored ports
      → ((g : ApplicationFilter) → q (reread as_stored g) ≡ q g)
      → expected +ℤ pos 1 <ℤ max_int64
      → LeadsTo ports as_stored q identity.auth_id id expected s (publish f r)
      → execute ports identity expected (ok (publish f r)) s ≡ (ok c, t)
      → Done q identity.auth_id id expected t c
  unfolding Keeps LeadsTo execute
  Done-published q identity id expected s t f r c keeps same room (own, holds, next, committable)
        h =
      by_commit (ports.commit identity.auth_id expected f r s) refl
    where
      Finished : Type 0
      Finished = Done q identity.auth_id id expected t c

      by_commit :
          (o : Result PortError (Option ApplicationFilter) × S)
          → ports.commit identity.auth_id expected f r s ≡ o
          → Finished
      by_commit (err e, t') o = absurd (ground arith)
      by_commit (ok v, t') o =
          let ready = committable (subst (λ n. n <ℤ max_int64) (sym next) room) in
          let (answered, loaded) = keeps identity.auth_id expected f r s t' v ready o in
          let answer : ChangeResult = record { filter = f; changed = true } in
          let same_answer : answer ≡ c = ground arith in
          let left : t' ≡ t = ground arith in
          let done : Done q identity.auth_id id expected t' answer = record {
            loads =
                subst
                  (λ i. ports.load_for_admin i identity.auth_id t' ≡ ok (some (reread as_stored f)))
                  own loaded;
            holds = holds;
            holds_stored = same f ∙ holds;
            next = inr next;
          } in
          subst (λ x. Done q identity.auth_id id expected x c) left
            (subst (Done q identity.auth_id id expected t') same_answer done)

  Done-execute :
      (q : ApplicationFilter → Bool) (identity : DeveloperIdentity) (id : Bytes) (expected : ℤ)
      (s t : S) (p : Plan) (c : ChangeResult)
      → Keeps as_stored ports
      → ((g : ApplicationFilter) → q (reread as_stored g) ≡ q g)
      → expected +ℤ pos 1 <ℤ max_int64
      → LeadsTo ports as_stored q identity.auth_id id expected s p
      → execute ports identity expected (ok p) s ≡ (ok c, t)
      → Done q identity.auth_id id expected t c
  Done-execute q identity id expected s t (keep f) c keeps same room l h =
      Done-kept q identity id expected s t f c l h
  Done-execute q identity id expected s t (publish f r) c keeps same room l h =
      Done-published q identity id expected s t f r c keeps same room l h

  pub get-load :
      (identity : DeveloperIdentity) (raw id : Bytes) (t : S) (f : ApplicationFilter)
      → validate_request identity raw ≡ ok id
      → ports.load_for_admin id identity.auth_id t ≡ ok (some f)
      → get (some ports) identity raw t ≡ ok f
  unfolding get
  get-load identity raw id t f v l = ground arith

  -- A request that was let through, and what the command left.
  pub record Served (q : ApplicationFilter → Bool) (identity : DeveloperIdentity) (raw : Bytes)
      (expected : ℤ) (t : S) (c : ChangeResult) : Type 0 where
    pub id : Bytes
    pub valid : validate_request identity raw ≡ ok id
    pub positive : ltb_ℤ expected (pos 0) ≡ false
    pub done : Done q identity.auth_id id expected t c

  pub Served-set :
      (identity : DeveloperIdentity) (raw : Bytes) (expected : ℤ) (rule : Rule) (s t : S)
      (c : ChangeResult)
      → Keeps as_stored ports
      → Finds as_stored ports
      → is_zero (as_stored (utc (ports.now s))) ≡ false
      → IsConstructed rule
      → expected +ℤ pos 1 <ℤ max_int64
      → set (some ports) identity raw expected rule s ≡ (ok c, t)
      → Served (λ f. matches_rule f rule) identity raw expected t c
  unfolding set
  Served-set identity raw expected rule s t c keeps finds timed built room h =
      by_id (validate_request identity raw) refl
    where
      Q : ApplicationFilter → Bool
      Q f = matches_rule f rule

      by_plan :
          (id : Bytes) (p : Result Error Plan)
          → validate_request identity raw ≡ ok id
          → plan_set ports identity id expected rule s ≡ p
          → Served Q identity raw expected t c
      by_plan id (err e) v k = absurd (ground arith)
      by_plan id (ok p) v k =
          let l =
            LeadsTo-plan_set ports as_stored identity id expected rule s p _ _ finds timed built
              refl refl k in
          record {
            id = id;
            valid = v;
            positive = ground arith;
            done =
                Done-execute Q identity id expected s t p c keeps
                  (λ g. matches_rule-reread as_stored g rule) room l (ground arith);
          }

      by_id :
          (v : Result Error Bytes)
          → validate_request identity raw ≡ v
          → Served Q identity raw expected t c
      by_id (err e) v = absurd (ground arith)
      by_id (ok id) v = by_plan id (plan_set ports identity id expected rule s) v refl

  pub Served-clear :
      (identity : DeveloperIdentity) (raw : Bytes) (expected : ℤ) (s t : S) (c : ChangeResult)
      → Keeps as_stored ports
      → Finds as_stored ports
      → is_zero (as_stored (utc (ports.now s))) ≡ false
      → expected +ℤ pos 1 <ℤ max_int64
      → clear (some ports) identity raw expected s ≡ (ok c, t)
      → Served is_allow_all identity raw expected t c
  unfolding clear
  Served-clear identity raw expected s t c keeps finds timed room h =
      by_id (validate_request identity raw) refl
    where
      by_plan :
          (id : Bytes) (p : Result Error Plan)
          → validate_request identity raw ≡ ok id
          → plan_clear ports identity id expected s ≡ p
          → Served is_allow_all identity raw expected t c
      by_plan id (err e) v k = absurd (ground arith)
      by_plan id (ok p) v k =
          let l =
            LeadsTo-plan_clear ports as_stored identity id expected s p _ _ finds timed refl refl
              k in
          record {
            id = id;
            valid = v;
            positive = ground arith;
            done =
                Done-execute is_allow_all identity id expected s t p c keeps
                  (is_allow_all-reread as_stored) room l (ground arith);
          }

      by_id :
          (v : Result Error Bytes)
          → validate_request identity raw ≡ v
          → Served is_allow_all identity raw expected t c
      by_id (err e) v = absurd (ground arith)
      by_id (ok id) v = by_plan id (plan_clear ports identity id expected s) v refl
