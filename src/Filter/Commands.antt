-- ===== src/Filter/Commands.antt =====
-- internal/filter/usecase/handlers.go: what a caller sees after Set and Clear, over any repository
-- that keeps what it commits, be it with another precision of the time.
use iwut_app_center.Prelude.{
  ℤ, pos, ltb_ℤ, eqb_ℤ, ◌+ℤ◌, ◌<ℤ◌, max_int64, Bool, true, false, ◌⊎◌, inl, inr, some, Bytes, ok,
  err, ◌≡◌, refl, arith,
}
use iwut_app_center.Shared.{Time, DeveloperIdentity, utc, is_zero}
use iwut_app_center.Filter.{application_filter_revision_conflict}
use iwut_app_center.Filter.Rule.{Rule}
use iwut_app_center.Filter.Revision.{ApplicationFilter, matches_rule, is_allow_all, is_absent}
use iwut_app_center.Filter.Kept.{IsConstructed, Keeps, Finds, in_store}
use iwut_app_center.Filter.Served.{Served-set, Served-clear, get-load}
use iwut_app_center.Filter.Handlers.{
  Ports, ChangeResult, validate_request, get, set, clear, plan_set, plan_clear,
}

module _ {S : Type 0} (ports : Ports S) (as_stored : Time → Time) where
  -- A Set that answers, with a rule that the constructors made and a revision left to count to, shows one
  -- filter: Get then reads the filter that it answered with, the time of a new publication as the store
  -- keeps it, and both match the rule that was set. The repository keeps what the handlers commit,
  -- finds an application's own stored filter, and does not store the clock's time as the zero time.
  pub set-get :
      (identity : DeveloperIdentity) (raw : Bytes) (expected : ℤ) (rule : Rule) (s t : S)
      (c : ChangeResult)
      → Keeps as_stored ports
      → Finds as_stored ports
      → is_zero (as_stored (utc (ports.now s))) ≡ false
      → IsConstructed rule
      → expected +ℤ pos 1 <ℤ max_int64
      → set (some ports) identity raw expected rule s ≡ (ok c, t)
      → (get (some ports) identity raw t ≡ ok (in_store as_stored c))
        × (matches_rule (in_store as_stored c) rule ≡ true)
        × (matches_rule c.filter rule ≡ true)
  set-get identity raw expected rule s t c keeps finds timed built room h =
      let served =
        Served-set ports as_stored identity raw expected rule s t c keeps finds timed built room
          h in
      let d = served.done in
      (
        get-load ports as_stored identity raw served.id t (in_store as_stored c) served.valid
            d.loads,
        d.holds_stored,
        d.holds,
      )

  -- A Clear that answers, with a revision left to count to, shows one filter: Get then reads the filter
  -- that it answered with, the time of a new publication as the store keeps it, and both allow everyone.
  -- The repository keeps what the handlers commit, finds an application's own stored filter, and does not
  -- store the clock's time as the zero time.
  pub clear-get :
      (identity : DeveloperIdentity) (raw : Bytes) (expected : ℤ) (s t : S) (c : ChangeResult)
      → Keeps as_stored ports
      → Finds as_stored ports
      → is_zero (as_stored (utc (ports.now s))) ≡ false
      → expected +ℤ pos 1 <ℤ max_int64
      → clear (some ports) identity raw expected s ≡ (ok c, t)
      → (get (some ports) identity raw t ≡ ok (in_store as_stored c))
        × (is_allow_all (in_store as_stored c) ≡ true)
        × (is_allow_all c.filter ≡ true)
  clear-get identity raw expected s t c keeps finds timed room h =
      let served =
        Served-clear ports as_stored identity raw expected s t c keeps finds timed room h in
      let d = served.done in
      (
        get-load ports as_stored identity raw served.id t (in_store as_stored c) served.valid
            d.loads,
        d.holds_stored,
        d.holds,
      )

  moved_on : (expected n : ℤ) → n ≡ expected +ℤ pos 1 → eqb_ℤ n expected ≡ false
  moved_on expected n e = ground arith

  -- A filter in the store whose revision is not the expected one is left alone.
  plan_set-other :
      (identity : DeveloperIdentity) (id : Bytes) (expected : ℤ) (rule : Rule) (t : S)
      (g : ApplicationFilter)
      → ports.load_for_admin id identity.auth_id t ≡ ok (some g)
      → eqb_ℤ g.revision expected ≡ false
      → plan_set ports identity id expected rule t ≡ err application_filter_revision_conflict
  unfolding plan_set
  plan_set-other identity id expected rule t g loads other = ground arith

  plan_clear-other :
      (identity : DeveloperIdentity) (id : Bytes) (expected : ℤ) (t : S) (g : ApplicationFilter)
      → ports.load_for_admin id identity.auth_id t ≡ ok (some g)
      → eqb_ℤ g.revision expected ≡ false
      → plan_clear ports identity id expected t ≡ err application_filter_revision_conflict
  unfolding plan_clear
  plan_clear-other identity id expected t g loads other = ground arith

  set-planned :
      (identity : DeveloperIdentity) (raw id : Bytes) (expected : ℤ) (rule : Rule) (t : S)
      → validate_request identity raw ≡ ok id
      → ltb_ℤ expected (pos 0) ≡ false
      → is_absent rule ≡ false
      → plan_set ports identity id expected rule t ≡ err application_filter_revision_conflict
      → set (some ports) identity raw expected rule t
        ≡ (err application_filter_revision_conflict, t)
  unfolding set
  set-planned identity raw id expected rule t valid positive given planned = ground arith

  clear-planned :
      (identity : DeveloperIdentity) (raw id : Bytes) (expected : ℤ) (t : S)
      → validate_request identity raw ≡ ok id
      → ltb_ℤ expected (pos 0) ≡ false
      → plan_clear ports identity id expected t ≡ err application_filter_revision_conflict
      → clear (some ports) identity raw expected t ≡ (err application_filter_revision_conflict, t)
  unfolding clear
  clear-planned identity raw id expected t valid positive planned = ground arith

  -- After a Set that published a rule that the constructors made, with a revision left to count to, no
  -- other command of the caller that still expects the revision before is served: a Set of any rule but the
  -- zero one and a Clear both answer with the conflict and leave the store as it is. The repository keeps
  -- what the handlers commit, finds an application's own stored filter, and does not store the clock's time
  -- as the zero time.
  pub set-conflict :
      (identity : DeveloperIdentity) (raw : Bytes) (expected : ℤ) (rule rule' : Rule) (s t : S)
      (c : ChangeResult)
      → Keeps as_stored ports
      → Finds as_stored ports
      → is_zero (as_stored (utc (ports.now s))) ≡ false
      → IsConstructed rule
      → expected +ℤ pos 1 <ℤ max_int64
      → set (some ports) identity raw expected rule s ≡ (ok c, t)
      → c.changed ≡ true
      → is_absent rule' ≡ false
      → (set (some ports) identity raw expected rule' t
          ≡ (err application_filter_revision_conflict, t))
        × (clear (some ports) identity raw expected t
            ≡ (err application_filter_revision_conflict, t))
  set-conflict identity raw expected rule rule' s t c keeps finds timed built room h moved given =
      let served =
        Served-set ports as_stored identity raw expected rule s t c keeps finds timed built room
          h in
      let d = served.done in
      let stale = other d.next in
      let id = served.id in
      (
        set-planned identity raw id expected rule' t served.valid served.positive given
            (plan_set-other identity id expected rule' t (in_store as_stored c) d.loads stale),
        clear-planned identity raw id expected t served.valid served.positive
            (plan_clear-other identity id expected t (in_store as_stored c) d.loads stale),
      )
    where
      in_store-revision : (in_store as_stored c).revision ≡ c.filter.revision
      in_store-revision = by_changed c.changed
        where
          by_changed :
              (b : Bool)
              → (in_store as_stored (record c { changed = b })).revision ≡ c.filter.revision
          by_changed true = refl
          by_changed false = refl

      other :
          (c.changed ≡ false) ⊎ (c.filter.revision ≡ expected +ℤ pos 1)
          → eqb_ℤ (in_store as_stored c).revision expected ≡ false
      other (inl same) = absurd (ground arith)
      other (inr next) = rw in_store-revision (moved_on expected c.filter.revision next)
