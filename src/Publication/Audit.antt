-- ===== src/Publication/Audit.antt =====
-- The audit log of a publication: what a command records, and what a whole log of commands says.
use iwut_app_center.Prelude.{
  ℕ, suc, ℤ, pos, Option, none, some, ◌≡◌, refl, subst, List, [], ◌∷◌, length, arith,
}
use iwut_app_center.Publication.{
  ApplicationPublication, ApplicationPublicationHistory, PlaceInTestResult,
}
use iwut_app_center.Publication.Slots.{
  Slots, slots_of, replay, Command, test_placed, stable_set, grey_placed, grey_reduced,
  test_cleared, stable_cleared, grey_cleared,
}
use iwut_app_center.Publication.Candidates.{
  Expects, new_test_placement_candidate-fields, new_stable_placement_candidate-fields,
  new_grey_placement_candidate-publication, new_grey_reduction_candidate-fields,
  new_test_clear_candidate-fields, new_stable_clear_candidate-fields,
  new_grey_clear_candidate-fields,
}
use iwut_app_center.Publication.Effects.{
  Effect, next_revision, place_in_test-Effect, set_stable-Effect, set_grey-Effect,
  clear_test-Effect, clear_stable-Effect, clear_grey-Effect,
}

module _ {before : Option ApplicationPublication} {expected : Option ℤ}
    {r : PlaceInTestResult} where
  -- A command runs only if the caller expected what was there.
  pub Command-Expects : Command before expected r → Expects before expected
  Command-Expects (test_placed app major version review vr s c pid hid admin v at built run) =
      (new_test_placement_candidate-fields app major version review vr s before expected c built).2
  Command-Expects (stable_set app major version review vr s c pid hid admin v at built run) =
      (new_stable_placement_candidate-fields app major version review vr s before expected c
        built).2
  Command-Expects
        (grey_placed app major version review vr s a e c rid seed hid admin v at built b2 run) =
      (new_test_placement_candidate-fields app major version review vr s before expected a built).2
  Command-Expects (grey_reduced app major version e n c rid seed hid admin v at same built run) =
      rw same (new_grey_reduction_candidate-fields app major version e before n c built).1
  Command-Expects (test_cleared n c hid admin at same built run) =
      rw same (new_test_clear_candidate-fields before n c built).1
  Command-Expects (stable_cleared n c hid admin at same built run) =
      rw same (new_stable_clear_candidate-fields before n c built).1
  Command-Expects (grey_cleared n c hid admin at same built run) =
      rw same (new_grey_clear_candidate-fields before n c built).1

  -- Whichever of the seven commands ran: without an audit record the publication is the one that was
  -- there; with one, the record replays the slots as they were before to the slots as they are now,
  -- the revision is the next one, and the record names it, the publication, its author and its time.
  pub Command-Effect : Command before expected r → Effect before r.publication r.history
  Command-Effect (test_placed app major version review vr s c pid hid admin v at built run) =
      rw
        (new_test_placement_candidate-fields app major version review vr s before expected c
          built).0
        at (place_in_test-Effect hid admin at r c pid v run)
  Command-Effect (stable_set app major version review vr s c pid hid admin v at built run) =
      rw
        (new_stable_placement_candidate-fields app major version review vr s before expected c
          built).0
        at (set_stable-Effect hid admin at r c pid v run)
  Command-Effect
        (grey_placed app major version review vr s a e c rid seed hid admin v at built b2 run) =
      rw
        (new_test_placement_candidate-fields app major version review vr s before expected a
          built).0
        at
        (rw (new_grey_placement_candidate-publication a e c b2) at
          (set_grey-Effect hid admin at r c rid seed v run))
  Command-Effect (grey_reduced app major version e n c rid seed hid admin v at same built run) =
      rw (new_grey_reduction_candidate-fields app major version e before n c built).0 at
        (set_grey-Effect hid admin at r c rid seed v run)
  Command-Effect (test_cleared n c hid admin at same built run) =
      rw (new_test_clear_candidate-fields before n c built).0 at
        (clear_test-Effect hid admin at r c run)
  Command-Effect (stable_cleared n c hid admin at same built run) =
      rw (new_stable_clear_candidate-fields before n c built).0 at
        (clear_stable-Effect hid admin at r c run)
  Command-Effect (grey_cleared n c hid admin at same built run) =
      rw (new_grey_clear_candidate-fields before n c built).0 at
        (clear_grey-Effect hid admin at r c run)

-- The log of a publication: the audit records of the commands that changed it, the newest first.
pub data Log : Option ApplicationPublication → List ApplicationPublicationHistory → Type 0 where
  absent : Log none []
  unchanged :
      {before : Option ApplicationPublication} {hs : List ApplicationPublicationHistory}
      {expected : Option ℤ} {r : PlaceInTestResult}
      → Log before hs
      → Command before expected r
      → r.history ≡ none
      → Log (some r.publication) hs
  changed :
      {before : Option ApplicationPublication} {hs : List ApplicationPublicationHistory}
      {expected : Option ℤ} {r : PlaceInTestResult} (h : ApplicationPublicationHistory)
      → Log before hs
      → Command before expected r
      → r.history ≡ some h
      → Log (some r.publication) (h ∷ hs)

abbrev pub replay_all : List ApplicationPublicationHistory → Slots
replay_all [] = slots_of none
replay_all (h ∷ hs) = replay h (replay_all hs)

abbrev pub revision_of : Option ApplicationPublication → ℤ
revision_of none = pos 0
revision_of (some p) = p.revision

next_revision_counts :
    (before : Option ApplicationPublication) (n : ℕ)
    → revision_of before ≡ pos n
    → next_revision before ≡ pos (suc n)
next_revision_counts before n h = ground arith

-- The records are numbered by the revisions 1, 2, 3 and so on.
abbrev pub AreNumbered : List ApplicationPublicationHistory → Type 0
AreNumbered [] = Unit
AreNumbered (h ∷ hs) = (h.publication_revision ≡ pos (length (h ∷ hs))) × AreNumbered hs

-- What the log tells of the publication.
abbrev pub LogSays : Option ApplicationPublication → List ApplicationPublicationHistory → Type 0
LogSays p hs = (slots_of p ≡ replay_all hs) × (revision_of p ≡ pos (length hs)) × AreNumbered hs

module _ (before : Option ApplicationPublication) (p : ApplicationPublication)
    (o : Option ApplicationPublicationHistory) (effect : Effect before p o)
    (hs : List ApplicationPublicationHistory) (said : LogSays before hs) where
  LogSays-unchanged : o ≡ none → LogSays (some p) hs
  LogSays-unchanged n = subst (λ q. LogSays q hs) (rw n at effect) said

  LogSays-changed : (h : ApplicationPublicationHistory) → o ≡ some h → LogSays (some p) (h ∷ hs)
  LogSays-changed h e = ground (arith, next_revision_counts before (length hs) said.1)

-- However the commands were ordered, the log alone tells the content of the three slots; the
-- publication's revision is the number of its records, and they are numbered without a gap.
pub Log-LogSays :
    {p : Option ApplicationPublication} {hs : List ApplicationPublicationHistory}
    → Log p hs
    → LogSays p hs
Log-LogSays absent = (refl, refl, tt)
Log-LogSays (unchanged {before} {hs} {expected} {r} l c n) =
    LogSays-unchanged before r.publication r.history (Command-Effect c) hs (Log-LogSays l) n
Log-LogSays (changed {before} {hs} {expected} {r} h l c e) =
    LogSays-changed before r.publication r.history (Command-Effect c) hs (Log-LogSays l) h e
