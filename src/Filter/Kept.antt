-- ===== src/Filter/Kept.antt =====
-- internal/filter/port: what the handlers rely on of a repository. The store may keep the time of a
-- publication at another precision than the clock's, so that a filter is read back with that time.
use iwut_app_center.Prelude.{
  ℤ, ◌<ℤ◌, max_int64, true, false, Option, none, some, Bytes, ok, ◌≡◌, refl, arith,
}
use iwut_app_center.Shared.{Time, AuthId, is_zero}
use iwut_app_center.Filter.Rule.{
  Rule, Rules, end, ◌then◌, GroupOperator, PredicateOperator, Scalar, new_group, new_predicate,
}
use iwut_app_center.Filter.Revision.{
  ApplicationFilter, ApplicationFilterRevision, matches_rule, is_allow_all,
  restore_application_filter,
}
use iwut_app_center.Filter.Publish.{IsStored, IsRestorable, Publication}
use iwut_app_center.Filter.Handlers.{Ports, ChangeResult}

-- Rules that the constructors made, from the predicates up.
pub data AreConstructed : Rules → Type 0 where
  no_rule : AreConstructed end
  a_predicate :
      (key : Bytes) (operator : PredicateOperator) (value : Option Scalar) (r : Rule) (rest : Rules)
      → new_predicate key operator value ≡ ok r
      → AreConstructed rest
      → AreConstructed (r then rest)
  a_group :
      (operator : GroupOperator) (children : Rules) (r : Rule) (rest : Rules)
      → AreConstructed children
      → new_group operator children ≡ ok r
      → AreConstructed rest
      → AreConstructed (r then rest)

abbrev pub IsConstructed : Rule → Type 0
IsConstructed rule = AreConstructed (rule then end)

abbrev pub HasConstructed : Option Rule → Type 0
HasConstructed none = Unit
HasConstructed (some rule) = IsConstructed rule

module _ (as_stored : Time → Time) where
  abbrev pub reread_revision : ApplicationFilterRevision → ApplicationFilterRevision
  reread_revision r = record r { published_at = as_stored r.published_at }

  -- The filter as the store gives it back.
  abbrev pub reread : ApplicationFilter → ApplicationFilter
  reread f = record f {
    current = elim f.current [ none ↦ none | some r ↦ some (reread_revision r) ];
  }

  -- What a command's answer is in the store: what it has published, or what was there.
  abbrev pub in_store : ChangeResult → ApplicationFilter
  in_store c = elim c.changed [ true ↦ reread c.filter | false ↦ c.filter ]

  pub matches_rule-reread :
      (f : ApplicationFilter) (rule : Rule) → matches_rule (reread f) rule ≡ matches_rule f rule
  unfolding matches_rule
  matches_rule-reread f rule = by_current f.current
    where
      by_current :
          (o : Option ApplicationFilterRevision)
          → matches_rule (reread (record f { current = o })) rule
            ≡ matches_rule (record f { current = o }) rule
      by_current none = refl
      by_current (some r) = refl

  pub is_allow_all-reread : (f : ApplicationFilter) → is_allow_all (reread f) ≡ is_allow_all f
  unfolding is_allow_all
  is_allow_all-reread f = by_current f.current
    where
      by_current :
          (o : Option ApplicationFilterRevision)
          → is_allow_all (reread (record f { current = o }))
            ≡ is_allow_all (record f { current = o })
      by_current none = refl
      by_current (some r) = refl

  pub current-reread :
      (f : ApplicationFilter) (r : ApplicationFilterRevision)
      → f.current ≡ some r
      → (reread f).current ≡ some (reread_revision r)
  current-reread f r e = rw e refl

  pub IsRestorable-reread : (f : ApplicationFilter) → IsRestorable f → IsRestorable (reread f)
  unfolding IsRestorable restore_application_filter
  IsRestorable-reread f h = by_current f.current refl
    where
      by_current : (o : Option ApplicationFilterRevision) → f.current ≡ o → IsRestorable (reread f)
      by_current none e = ground arith
      by_current (some r) e = ground arith

  -- What the commands commit: a publication after a stored filter that leaves room for one more revision,
  -- whose rule the constructors made and whose time is not the zero time in the store either.
  pub record Committable (f : ApplicationFilter) (r : ApplicationFilterRevision) : Type 0 where
    pub before : ApplicationFilter
    pub stored : IsStored before
    pub published : Publication before f r
    pub room : f.revision <ℤ max_int64
    pub rule : HasConstructed r.rule
    pub timed : is_zero (as_stored r.published_at) ≡ false

  module _ {S : Type 0} (ports : Ports S) where
    -- A commit that answers has kept the filter for its administrator, and answers with it as it was given.
    unfoldable pub Keeps : Type 0
    Keeps =
        (admin : AuthId) (expected : ℤ) (f : ApplicationFilter) (r : ApplicationFilterRevision)
        (s t : S) (c : Option ApplicationFilter)
        → Committable f r
        → ports.commit admin expected f r s ≡ (ok c, t)
        → (c ≡ some f) × (ports.load_for_admin f.application_id admin t ≡ ok (some (reread f)))

    -- A filter that is found is the application's own, and one that RestoreApplicationFilter or
    -- NewDefaultApplicationFilter gave.
    unfoldable pub Finds : Type 0
    Finds =
        (id : Bytes) (admin : AuthId) (s : S) (f : ApplicationFilter)
        → ports.load_for_admin id admin s ≡ ok (some f)
        → (f.application_id ≡ id) × IsStored f
