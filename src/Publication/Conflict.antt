-- ===== src/Publication/Conflict.antt =====
-- Optimistic concurrency: what a command does when the publication is not what the caller expected.
use iwut_app_center.Prelude.{
  ℤ, pos, ◌≤ℤ◌, ◌<ℤ◌, true, false, Option, none, some, Bytes, is_empty, bytes_eq_iff, is_ok, ◌≡◌,
  ◌↔◌, is_some, arith,
}
use iwut_app_center.Shared.Uuid.{is_uuid_v7}
use iwut_app_center.Publication.{
  ApplicationPublication, ApplicationPublicationHistory, PlaceInTestResult, is_changed,
}
use iwut_app_center.Publication.Snapshot.{ReviewSnapshot}
use iwut_app_center.Publication.Place.{new_test_placement_candidate}
use iwut_app_center.Publication.Slots.{Command}
use iwut_app_center.Publication.Candidates.{Expects}
use iwut_app_center.Publication.Effects.{Effect}
use iwut_app_center.Publication.Audit.{Command-Expects, Command-Effect}

stale :
    (before : Option ApplicationPublication) (expected : Option ℤ) (p : ApplicationPublication)
    (o : Option ApplicationPublicationHistory)
    → Effect before p o
    → is_some o ≡ true
    → Expects before expected
    → ¬ Expects (some p) expected
stale before expected p o effect changed e f = ground arith

-- Of two commands that expected the same state, at most one changes the publication: once a command
-- has changed it, no command with the same expectation runs on the result.
pub no_lost_update :
    {before : Option ApplicationPublication} {expected : Option ℤ} {r s : PlaceInTestResult}
    → Command before expected r
    → is_changed r ≡ true
    → ¬ Command (some r.publication) expected s
unfolding is_changed
no_lost_update {before} {expected} {r} c changed d =
    stale before expected r.publication r.history (Command-Effect c) changed (Command-Expects c)
      (Command-Expects d)

-- The publication that a command is about, where there is one, is that of the named partition.
abbrev pub IsAt : Bytes → ℤ → Option ApplicationPublication → Type 0
IsAt app major none = Unit
IsAt app major (some p) = (p.application_id ≡ app) × (p.rpc_api_major ≡ major)

-- A placement candidate is built exactly if the identities are valid, the version was approved (its
-- revision is at least 3) and has a launch URL, the snapshot's API range has the major, and the
-- publication is of that partition and what the caller expected.
pub new_test_placement_candidate_iff :
    (app : Bytes) (major : ℤ) (version review : Bytes) (version_revision : ℤ)
    (snapshot : ReviewSnapshot) (before : Option ApplicationPublication) (expected : Option ℤ)
    → (is_ok (
          new_test_placement_candidate app major version review version_revision snapshot before
            expected)
        ≡ true)
      ↔ ((is_uuid_v7 app ≡ true)
          × (is_uuid_v7 version ≡ true)
          × (is_uuid_v7 review ≡ true)
          × (pos 1 ≤ℤ major)
          × (pos 3 ≤ℤ version_revision)
          × (is_empty snapshot.launch_url ≡ false)
          × (snapshot.rpc_api_min_version ≤ℤ major)
          × (major <ℤ snapshot.rpc_api_max_version_exclusive)
          × IsAt app major before
          × Expects before expected)
unfolding new_test_placement_candidate
new_test_placement_candidate_iff app major version review vr snapshot none none =
    (λ h. ground arith, λ h. ground arith)
new_test_placement_candidate_iff app major version review vr snapshot none (some e) =
    (λ h. ground arith, λ h. ground arith)
new_test_placement_candidate_iff app major version review vr snapshot (some p) none =
    (λ h. ground arith, λ h. ground arith)
new_test_placement_candidate_iff app major version review vr snapshot (some p) (some e) = (
  λ h. ground (arith, bytes_eq_iff p.application_id app),
  λ h. ground (arith, bytes_eq_iff p.application_id app),
)
