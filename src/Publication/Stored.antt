-- ===== src/Publication/Stored.antt =====
-- Every publication that the commands can reach is one that the store reads back unchanged.
use iwut_app_center.Prelude.{ℤ, Option, none, some, List, subst, sym}
use iwut_app_center.Publication.{
  ApplicationPublication, ApplicationPublicationHistory, PlaceInTestResult,
}
use iwut_app_center.Publication.Slots.{
  Command, test_placed, stable_set, grey_placed, grey_reduced, test_cleared, stable_cleared,
  grey_cleared,
}
use iwut_app_center.Publication.Candidates.{
  new_test_placement_candidate-fields, new_stable_placement_candidate-fields,
  new_grey_placement_candidate-publication, new_grey_reduction_candidate-fields,
  new_test_clear_candidate-fields, new_stable_clear_candidate-fields,
  new_grey_clear_candidate-fields,
}
use iwut_app_center.Publication.Audit.{Log, absent, unchanged, changed}
use iwut_app_center.Publication.Restorable.{
  IsRestorable, IsStored, IsStoredAt, IsStored-of_restore, restore_of_IsStored,
  new_test_placement_candidate-IsPlaceable, new_stable_placement_candidate-IsPlaceable,
  new_grey_placement_candidate-IsGreyPlaceable, new_grey_reduction_candidate-IsGreyPlaceable,
  new_stable_clear_candidate-grey, place_in_test-IsStored, set_stable-IsStored, set_grey-IsStored,
  clear_test-IsStored, clear_stable-IsStored, clear_grey-IsStored,
}

IsStoredAt-of : (o : Option ApplicationPublication) → IsRestorable o → IsStoredAt o
IsStoredAt-of none h = tt
IsStoredAt-of (some p) h = IsStored-of_restore p h

Command-IsStored :
    {before : Option ApplicationPublication} {expected : Option ℤ} {r : PlaceInTestResult}
    → Command before expected r
    → IsStoredAt before
    → IsStored r.publication
Command-IsStored {before} {expected} {r}
      (test_placed app major version review vr s c pid hid admin v at built run) h =
    place_in_test-IsStored hid admin at r c pid v run
      (new_test_placement_candidate-IsPlaceable app major version review vr s before expected c
        built)
      (rw
        (new_test_placement_candidate-fields app major version review vr s before expected c
          built).0
        h)
Command-IsStored {before} {expected} {r}
      (stable_set app major version review vr s c pid hid admin v at built run) h =
    set_stable-IsStored hid admin at r c pid v run
      (new_stable_placement_candidate-IsPlaceable app major version review vr s before expected c
        built)
      (rw
        (new_stable_placement_candidate-fields app major version review vr s before expected c
          built).0
        h)
Command-IsStored {before} {expected} {r}
      (grey_placed app major version review vr s a e c rid seed hid admin v at built b2 run) h =
    set_grey-IsStored hid admin at r c rid seed v run
      (new_grey_placement_candidate-IsGreyPlaceable a e c b2)
      (rw (new_grey_placement_candidate-publication a e c b2) (
        rw
          (new_test_placement_candidate-fields app major version review vr s before expected a
            built).0
          h))
Command-IsStored {before} {expected} {r}
      (grey_reduced app major version e n c rid seed hid admin v at same built run) h =
    set_grey-IsStored hid admin at r c rid seed v run
      (new_grey_reduction_candidate-IsGreyPlaceable app major version e before n c built)
      (rw (new_grey_reduction_candidate-fields app major version e before n c built).0 h)
Command-IsStored {before} {expected} {r} (test_cleared n c hid admin at same built run) h =
    clear_test-IsStored hid admin at r c run
      (subst IsStoredAt (sym (new_test_clear_candidate-fields before n c built).0) h)
Command-IsStored {before} {expected} {r} (stable_cleared n c hid admin at same built run) h =
    clear_stable-IsStored hid admin at r c run (new_stable_clear_candidate-grey before n c built)
      (subst IsStoredAt (sym (new_stable_clear_candidate-fields before n c built).0) h)
Command-IsStored {before} {expected} {r} (grey_cleared n c hid admin at same built run) h =
    clear_grey-IsStored hid admin at r c run
      (subst IsStoredAt (sym (new_grey_clear_candidate-fields before n c built).0) h)

-- A command on a stored publication, or on none, returns one that the store reads back as it is: in
-- particular a rollout stands only on a stable version.
pub Command-IsRestorable :
    {before : Option ApplicationPublication} {expected : Option ℤ} {r : PlaceInTestResult}
    → Command before expected r
    → IsRestorable before
    → IsRestorable (some r.publication)
Command-IsRestorable {before} {expected} {r} c h =
    restore_of_IsStored r.publication (Command-IsStored c (IsStoredAt-of before h))

pub Log-IsRestorable :
    {p : Option ApplicationPublication} {hs : List ApplicationPublicationHistory}
    → Log p hs
    → IsRestorable p
Log-IsRestorable absent = tt
Log-IsRestorable (unchanged l c n) = Command-IsRestorable c (Log-IsRestorable l)
Log-IsRestorable (changed h l c e) = Command-IsRestorable c (Log-IsRestorable l)
