-- ===== src/Filter/Tests.antt =====
-- The theorems on filters, each at concrete input.
use iwut_app_center.Prelude.{
  pos, ◌+ℤ◌, eqb_ℤ, max_int64, true, false, not, ◌&&◌, Option, none, some, [], ◌∷◌, Bytes, codes,
  if◌then◌else◌, Result, ok, err, is_ok, ◌≡◌, ◌↔◌, refl, inl, inr,
}
use iwut_app_center.Shared.{is_zero, auth_id_is_valid}
use iwut_app_center.Shared.Uuid.{is_uuid_v7}
use iwut_app_center.Filter.{application_filter_revision_conflict}
use iwut_app_center.Filter.Date.{Date, date_is_valid, date_is_valid_iff, format_date, IsDate}
use iwut_app_center.Filter.Rule.{
  group, end, integer, date, op_gte, op_lt, ◌then◌, op_all, op_not, shape, equal, new_group,
}
use iwut_app_center.Filter.Shape.{shape_lem, is_whole, nodes, depth}
use iwut_app_center.Filter.Equal.{equal_iff}
use iwut_app_center.Filter.Revision.{
  ApplicationFilter, allow_all, publish_rule, matches_rule, is_allow_all,
}
use iwut_app_center.Filter.Publish.{IsRestorable, IsStored, of_rule, Publication-IsRestorable}
use iwut_app_center.Filter.Bounds.{of_group, is_ok-publish_rule-IsBuilt}
use iwut_app_center.Filter.Handlers.{get, set, clear}
use iwut_app_center.Filter.Kept.{IsConstructed, no_rule, a_predicate, a_group, reread}
use iwut_app_center.Filter.Commands.{set-get, clear-get, set-conflict}
use iwut_app_center.Filter.Scenario.{
  tests, app, first_id, caller, instant, adult, enrolled, students, empty_filter, memory,
  memory-Keeps, memory-Finds, in_ms, stored_students, student_revision, student_filter,
  accepted_set,
}

four_rules : shape students ≡ some (4, 3)
unfolding tests
four_rules = refl

no_children : is_ok (new_group op_all end) ≡ false
unfolding tests
no_children = refl

leap_day : date_is_valid (codes "2023-02-29") ≡ false
unfolding tests
leap_day = refl

date_is_valid_iff_example :
    (date_is_valid (codes "2024-02-29") ≡ true)
    ↔ ((t : Date) × IsDate t × (codes "2024-02-29" ≡ format_date t))
date_is_valid_iff_example = date_is_valid_iff (codes "2024-02-29")

shape_lem_example :
    shape students ≡ (if is_whole students then some (nodes students, depth students) else none)
shape_lem_example = shape_lem students

equal_iff_example : (equal students adult ≡ true) ↔ (students ≡ adult)
equal_iff_example = equal_iff students adult

empty_filter-IsStored : IsStored empty_filter
unfolding tests IsStored
empty_filter-IsStored = inl refl

students_published :
    publish_rule empty_filter first_id students (codes "developer-1") instant
    ≡ ok (student_filter, student_revision)
unfolding tests
students_published = refl

Publication-IsRestorable_example :
    IsRestorable student_filter × (student_filter.revision ≡ empty_filter.revision +ℤ pos 1)
Publication-IsRestorable_example =
    Publication-IsRestorable empty_filter student_filter student_revision empty_filter-IsStored
      (of_rule first_id students (codes "developer-1") instant students_published)
      (omega iwut_app_center.Prelude.arith)

students_built :
    new_group op_all (adult then group op_not (enrolled then end) then end) ≡ ok students
unfolding tests
students_built = refl

is_ok-publish_rule-IsBuilt_example :
    is_ok (publish_rule empty_filter first_id students (codes "developer-1") instant) ≡ (
      is_uuid_v7 first_id
      && auth_id_is_valid (codes "developer-1")
      && not (is_zero instant)
      && instant.in_utc
      && not (eqb_ℤ empty_filter.next_sequence max_int64))
is_ok-publish_rule-IsBuilt_example =
    is_ok-publish_rule-IsBuilt empty_filter first_id students (codes "developer-1") instant
      empty_filter-IsStored (of_group op_all _ students students_built)

students-IsConstructed : IsConstructed students
unfolding tests
students-IsConstructed =
    a_group op_all (adult then group op_not (enrolled then end) then end) students end
      (a_predicate (codes "profile.age") op_gte (some (integer (pos 18))) adult _ refl (
        a_group op_not (enrolled then end) (group op_not (enrolled then end)) end
          (a_predicate (codes "enrolled_on") op_lt (some (date (codes "2024-02-29"))) enrolled end
            refl no_rule)
          refl no_rule))
      refl no_rule

set-get_example :
    (get (some memory) caller app stored_students ≡ ok stored_students)
    × (matches_rule stored_students students ≡ true)
    × (matches_rule student_filter students ≡ true)
set-get_example =
    set-get memory in_ms caller app (pos 0) students empty_filter stored_students
      (record { filter = student_filter; changed = true }) memory-Keeps memory-Finds refl
      students-IsConstructed (omega iwut_app_center.Prelude.arith) accepted_set

abbrev open_filter : ApplicationFilter
open_filter = record {
  application_id = app;
  revision = pos 2;
  next_sequence = pos 3;
  current = some (record {
    id = first_id;
    application_id = app;
    sequence = pos 2;
    mode = allow_all;
    rule = none;
    published_by = codes "developer-1";
    published_at = instant;
  });
}

abbrev stored_open : ApplicationFilter
stored_open = reread in_ms open_filter

accepted_clear :
    clear (some memory) caller app (pos 1) stored_students
    ≡ (ok (record { filter = open_filter; changed = true }), stored_open)
unfolding tests
accepted_clear = refl

clear-get_example :
    (get (some memory) caller app stored_open ≡ ok stored_open)
    × (is_allow_all stored_open ≡ true)
    × (is_allow_all open_filter ≡ true)
clear-get_example =
    clear-get memory in_ms caller app (pos 1) stored_students stored_open
      (record { filter = open_filter; changed = true }) memory-Keeps memory-Finds refl
      (omega iwut_app_center.Prelude.arith) accepted_clear

set-conflict_example :
    (set (some memory) caller app (pos 0) adult stored_students
      ≡ (err application_filter_revision_conflict, stored_students))
    × (clear (some memory) caller app (pos 0) stored_students
        ≡ (err application_filter_revision_conflict, stored_students))
set-conflict_example =
    set-conflict memory in_ms caller app (pos 0) students adult empty_filter stored_students
      (record { filter = student_filter; changed = true }) memory-Keeps memory-Finds refl
      students-IsConstructed (omega iwut_app_center.Prelude.arith) accepted_set refl refl
