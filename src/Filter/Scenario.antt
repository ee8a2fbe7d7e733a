-- ===== src/Filter/Scenario.antt =====
-- A filter's life on concrete input, over a store of one filter in memory.
use iwut_app_center.Prelude.{
  pos, negsuc, ◌/◌, ◌*◌, Option, Result, eqb_ℤ, true, none, some, Bytes, bytes_eq, bytes_eq_refl,
  bytes_eq_iff, codes, inc_int64, ok, err, if◌then◌else◌, ◌≡◌, inl, inr, refl, sym, ap, subst, ◌∙◌,
  ℤ, arith,
}
use iwut_app_center.Shared.{Time, DeveloperIdentity, approved, auth_id_is_valid}
use iwut_app_center.Shared.Uuid.{is_uuid_v7, parse_application_id, to_lower}
use iwut_app_center.Filter.{Error}
use iwut_app_center.Filter.Date.{date_is_valid, days_in}
use iwut_app_center.Filter.Rule.{
  Rule, group, predicate, end, ◌then◌, integer, date, op_all, op_not, op_gte, op_lt, new_group,
  new_predicate, value_fits, valid_scalar, matches_from, shape, equal,
}
use iwut_app_center.Filter.Revision.{
  ApplicationFilter, ApplicationFilterRevision, publish_rule, publish_allow_all,
  new_default_application_filter, restore_application_filter, matches_rule, is_allow_all,
}
use iwut_app_center.Filter.Handlers.{
  Ports, PortError, not_found, revision_conflict, state_inconsistent, validate_request, get, set,
  clear,
}
use iwut_app_center.Filter.Publish.{
  IsStored, IsRestorable, Publication-IsRestorable, current-Publication,
}
use iwut_app_center.Filter.Kept.{
  Keeps, Finds, reread, reread_revision, IsRestorable-reread, current-reread,
}

abbrev pub app : Bytes
app = codes "01890a5d-ac96-774b-bcce-b302099a8057"

abbrev pub first_id : Bytes
first_id = codes "01890a5d-ac96-774b-8cce-b302099a8001"

abbrev pub caller : DeveloperIdentity
caller = record { auth_id = codes "developer-1"; developer_status = approved }

abbrev pub instant : Time
instant = record { instant = pos 63_000_123; in_utc = true }

abbrev pub adult : Rule
adult = predicate (codes "profile.age") op_gte (some (integer (pos 18)))

abbrev pub enrolled : Rule
enrolled = predicate (codes "enrolled_on") op_lt (some (date (codes "2024-02-29")))

abbrev pub students : Rule
students = group op_all (adult then group op_not (enrolled then end) then end)

abbrev pub empty_filter : ApplicationFilter
empty_filter = record {
  application_id = app;
  revision = pos 0;
  next_sequence = pos 1;
  current = none;
}

-- A store of milliseconds.
abbrev pub in_ms : Time → Time
in_ms t = elim t.instant [
  | pos n ↦ record { instant = pos (n / 1_000_000 * 1_000_000); in_utc = true }
  | negsuc n ↦ record { instant = negsuc n; in_utc = true }
]

-- What is read back of a stored filter.
unfoldable pub read_as :
    ApplicationFilter → Option ApplicationFilterRevision → Result Error ApplicationFilter
unfolding new_default_application_filter restore_application_filter
read_as s none = new_default_application_filter s.application_id
read_as s (some r) = restore_application_filter s.application_id s.revision s.next_sequence (some r)

abbrev pub read_back : ApplicationFilter → Result Error ApplicationFilter
read_back s = read_as s s.current

abbrev found : Result Error ApplicationFilter → Result PortError (Option ApplicationFilter)
found (err e) = err state_inconsistent
found (ok f) = ok (some f)

-- The store is the filter of one application.
abbrev pub memory : Ports ApplicationFilter
memory = record {
  load_for_admin =
      λ id admin s. if bytes_eq s.application_id id then found (read_back s) else err not_found;
  commit = λ admin expected f r s.
      if eqb_ℤ s.revision expected
      then (ok (some f), reread in_ms f)
      else (err revision_conflict, s);
  new_uuid_v7 = λ s. some first_id;
  now = λ s. instant;
}

read_as-restorable :
    (s : ApplicationFilter) (o : Option ApplicationFilterRevision) (r : ApplicationFilterRevision)
    → o ≡ some r
    → restore_application_filter s.application_id s.revision s.next_sequence o ≡ ok s
    → read_as s o ≡ ok s
unfolding read_as
read_as-restorable s none r e h = absurd (ground arith)
read_as-restorable s (some r') r e h = h

read_back-restorable :
    (s : ApplicationFilter) (r : ApplicationFilterRevision)
    → s.current ≡ some r
    → IsRestorable s
    → read_back s ≡ ok s
unfolding IsRestorable
read_back-restorable s r e h = read_as-restorable s s.current r e h

restored :
    (id : Bytes) (revision next : ℤ) (current : Option ApplicationFilterRevision)
    (f : ApplicationFilter)
    → restore_application_filter id revision next current ≡ ok f
    → (f.application_id ≡ id) × IsRestorable f
unfolding restore_application_filter IsRestorable
restored id revision next current f h =
    let made : ApplicationFilter = record {
      application_id = id;
      revision = revision;
      next_sequence = next;
      current = current;
    } in
    let same : made ≡ f = ground arith in
    (
      sym (ap (λ g. g.application_id) same),
      subst
          (λ g.
            restore_application_filter g.application_id g.revision g.next_sequence g.current ≡ ok g)
          same (h ∙ sym (ap ok same)),
    )

defaulted :
    (id : Bytes) (f : ApplicationFilter)
    → new_default_application_filter id ≡ ok f
    → f.application_id ≡ id
unfolding new_default_application_filter
defaulted id f h = ground arith

read_as-IsStored :
    (s f : ApplicationFilter) (o : Option ApplicationFilterRevision)
    → read_as s o ≡ ok f
    → (f.application_id ≡ s.application_id) × IsStored f
unfolding read_as IsStored
read_as-IsStored s f none made =
    let same = defaulted s.application_id f made in
    (same, inl (subst (λ i. new_default_application_filter i ≡ ok f) (sym same) made))
read_as-IsStored s f (some r) h =
    let (same, stored) = restored s.application_id s.revision s.next_sequence (some r) f h in
    (same, inr stored)

pub memory-Keeps : Keeps in_ms memory
unfolding Keeps
memory-Keeps admin expected f r s t c k h =
    let restorable : IsRestorable (reread in_ms f) =
      IsRestorable-reread in_ms f
        (Publication-IsRestorable k.before f r k.stored k.published k.room).0 in
    let back =
      read_back-restorable (reread in_ms f) (reread_revision in_ms r)
        (current-reread in_ms f r (current-Publication k.before f r k.published)) restorable in
    ground (arith, bytes_eq_refl f.application_id)

pub memory-Finds : Finds in_ms memory
unfolding Finds
memory-Finds id admin s f h = by_found (read_back s) refl
  where
    by_found :
        (o : Result Error ApplicationFilter)
        → read_back s ≡ o
        → (f.application_id ≡ id) × IsStored f
    by_found (err e) o = absurd (ground arith)
    by_found (ok g) o =
        let same : g ≡ f = ground arith in
        let (own, stored) = read_as-IsStored s f s.current (o ∙ ap ok same) in
        (ground (arith, bytes_eq_iff s.application_id id), stored)

unfoldable pub tests : Unit {0}
unfolding bytes_eq inc_int64 is_uuid_v7 parse_application_id auth_id_is_valid date_is_valid days_in
    new_group new_predicate value_fits valid_scalar matches_from shape equal publish_rule
    publish_allow_all new_default_application_filter restore_application_filter matches_rule
    is_allow_all validate_request get set clear to_lower read_as
tests = tt

abbrev pub student_revision : ApplicationFilterRevision
student_revision = record {
  id = first_id;
  application_id = app;
  sequence = pos 1;
  mode = iwut_app_center.Filter.Revision.by_rule;
  rule = some students;
  published_by = codes "developer-1";
  published_at = instant;
}

abbrev pub student_filter : ApplicationFilter
student_filter = record {
  application_id = app;
  revision = pos 1;
  next_sequence = pos 2;
  current = some student_revision;
}

abbrev pub stored_students : ApplicationFilter
stored_students = reread in_ms student_filter

pub accepted_set :
    set (some memory) caller app (pos 0) students empty_filter
    ≡ (ok (record { filter = student_filter; changed = true }), stored_students)
unfolding tests
accepted_set = refl
