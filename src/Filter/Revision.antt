-- ===== src/Filter/Revision.antt =====
-- internal/filter/domain/filter.go: the revisions of an application's filter, and how one is
-- published after another.
use iwut_app_center.Prelude.{
  ℤ, pos, ltb_ℤ, eqb_ℤ, max_int64, inc_int64, Bool, true, false, not, ◌&&◌, ◌||◌, Option, none,
  some, Bytes, bytes_eq, is_some, is_none, Result, ok, ◌>>=◌, ◌>>◌, reject,
}
use iwut_app_center.Shared.{Time, AuthId, is_zero, auth_id_is_valid}
use iwut_app_center.Shared.Uuid.{is_uuid_v7}
use iwut_app_center.Filter.{
  Error, invalid_application_filter, application_filter_state_inconsistent,
}
use iwut_app_center.Filter.Rule.{Rule, absent, shape, fits, equal}

pub data RevisionMode : Type 0 where
  allow_all by_rule : RevisionMode

pub record ApplicationFilterRevision : Type 0 where
  pub id : Bytes
  pub application_id : Bytes
  pub sequence : ℤ  -- int64
  pub mode : RevisionMode
  pub rule : Option Rule
  pub published_by : AuthId
  pub published_at : Time

abbrev is_by_rule : RevisionMode → Bool
is_by_rule by_rule = true
is_by_rule allow_all = false

abbrev pub is_absent : Rule → Bool
is_absent absent = true
is_absent _ = false

-- `(mode == RevisionModeRule) != (rule != nil)`.
abbrev mode_disagrees : RevisionMode → Option Rule → Bool
mode_disagrees by_rule rule = is_none rule
mode_disagrees allow_all rule = is_some rule

abbrev rule_is_unfit : Option Rule → Bool
rule_is_unfit none = false
rule_is_unfit (some rule) = not (fits (shape rule))

unfoldable pub new_revision :
    Bytes
    → Bytes
    → ℤ
    → RevisionMode
    → Option Rule
    → AuthId
    → Time
    → Result Error ApplicationFilterRevision
new_revision id application_id sequence mode rule by at = do
  reject
      (not (is_uuid_v7 id)
        || not (is_uuid_v7 application_id)
        || ltb_ℤ sequence (pos 1)
        || not (auth_id_is_valid by)
        || is_zero at
        || not at.in_utc
        || mode_disagrees mode rule)
      application_filter_state_inconsistent
  reject (rule_is_unfit rule) application_filter_state_inconsistent
  ok (record {
    id = id;
    application_id = application_id;
    sequence = sequence;
    mode = mode;
    rule = rule;
    published_by = by;
    published_at = at;
  })

unfoldable pub new_rule_revision :
    Bytes → Bytes → ℤ → Rule → AuthId → Time → Result Error ApplicationFilterRevision
unfolding new_revision
new_rule_revision id application_id sequence rule by at = do
  reject (is_absent rule) invalid_application_filter
  new_revision id application_id sequence by_rule (some rule) by at

unfoldable pub new_allow_all_revision :
    Bytes → Bytes → ℤ → AuthId → Time → Result Error ApplicationFilterRevision
unfolding new_revision
new_allow_all_revision id application_id sequence by at =
    new_revision id application_id sequence allow_all none by at

pub record ApplicationFilter : Type 0 where
  pub application_id : Bytes
  pub revision : ℤ  -- int64
  pub next_sequence : ℤ  -- int64
  pub current : Option ApplicationFilterRevision

unfoldable pub new_default_application_filter : Bytes → Result Error ApplicationFilter
new_default_application_filter application_id = do
  reject (not (is_uuid_v7 application_id)) application_filter_state_inconsistent
  ok (record {
    application_id = application_id;
    revision = pos 0;
    next_sequence = pos 1;
    current = none;
  })

-- Whether the stored revision is another application's or another revision's.
abbrev is_foreign : Option ApplicationFilterRevision → Bytes → ℤ → Bool
is_foreign none application_id revision = true
is_foreign (some r) application_id revision =
    not (bytes_eq r.application_id application_id) || not (eqb_ℤ r.sequence revision)

unfoldable pub restore_application_filter :
    Bytes → ℤ → ℤ → Option ApplicationFilterRevision → Result Error ApplicationFilter
unfolding inc_int64
restore_application_filter application_id revision next_sequence current = do
  reject
      (not (is_uuid_v7 application_id)
        || ltb_ℤ revision (pos 1)
        || eqb_ℤ revision max_int64
        || not (eqb_ℤ next_sequence (inc_int64 revision))
        || is_foreign current application_id revision)
      application_filter_state_inconsistent
  ok (record {
    application_id = application_id;
    revision = revision;
    next_sequence = next_sequence;
    current = current;
  })

unfoldable pub effective_mode : ApplicationFilter → RevisionMode
effective_mode f = elim f.current [ none ↦ allow_all | some r ↦ r.mode ]

-- A revision by rule has a rule: new_revision keeps `none` away.
abbrev rule_equals : Option Rule → Rule → Bool
rule_equals none rule = false
rule_equals (some r) rule = equal r rule

unfoldable pub matches_rule : ApplicationFilter → Rule → Bool
matches_rule f rule = elim f.current [
  | none ↦ false
  | some r ↦ is_by_rule r.mode && rule_equals r.rule rule
]

unfoldable pub is_allow_all : ApplicationFilter → Bool
is_allow_all f = elim f.current [ none ↦ true | some r ↦ not (is_by_rule r.mode) ]

unfoldable pub advance :
    ApplicationFilter
    → ApplicationFilterRevision
    → Result Error (ApplicationFilter × ApplicationFilterRevision)
unfolding inc_int64
advance f current = do
  reject
      (eqb_ℤ f.revision max_int64
        || eqb_ℤ f.next_sequence max_int64
        || not (eqb_ℤ current.sequence f.next_sequence))
      application_filter_state_inconsistent
  ok (
    record {
      application_id = f.application_id;
      revision = inc_int64 f.revision;
      next_sequence = inc_int64 f.next_sequence;
      current = some current;
    },
    current,
  )

unfoldable pub publish_rule :
    ApplicationFilter
    → Bytes
    → Rule
    → AuthId
    → Time
    → Result Error (ApplicationFilter × ApplicationFilterRevision)
unfolding new_rule_revision advance
publish_rule f id rule by at = do
  revision ← new_rule_revision id f.application_id f.next_sequence rule by at
  advance f revision

unfoldable pub publish_allow_all :
    ApplicationFilter
    → Bytes
    → AuthId
    → Time
    → Result Error (ApplicationFilter × ApplicationFilterRevision)
unfolding new_allow_all_revision advance
publish_allow_all f id by at = do
  revision ← new_allow_all_revision id f.application_id f.next_sequence by at
  advance f revision
