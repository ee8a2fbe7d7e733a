-- ===== src/Filter/Publish.antt =====
-- internal/filter/domain/filter.go: what a published filter is, and when publishing answers.
use iwut_app_center.Prelude.{
  pos, ltb_ℤ, eqb_ℤ, ◌<ℤ◌, max_int64, inc_int64, ◌+ℤ◌, true, false, some, Bytes, bytes_eq_refl, ok,
  ◌≡◌, ◌⊎◌, inl, inr, arith,
}
use iwut_app_center.Shared.{Time, AuthId}
use iwut_app_center.Shared.Uuid.{is_uuid_v7}
use iwut_app_center.Filter.Rule.{Rule}
use iwut_app_center.Filter.Equal.{equal_refl}
use iwut_app_center.Filter.Revision.{
  ApplicationFilter, ApplicationFilterRevision, new_default_application_filter,
  restore_application_filter, matches_rule, is_allow_all, publish_rule, publish_allow_all,
}

-- What RestoreApplicationFilter accepts again.
unfoldable pub IsRestorable : ApplicationFilter → Type 0
IsRestorable f =
    restore_application_filter f.application_id f.revision f.next_sequence f.current ≡ ok f

-- A filter that a repository may hand out.
unfoldable pub IsStored : ApplicationFilter → Type 0
IsStored f = (new_default_application_filter f.application_id ≡ ok f) ⊎ IsRestorable f

-- The facts of a stored filter that publishing reads.
pub record Facts (f : ApplicationFilter) : Type 0 where
  pub valid : is_uuid_v7 f.application_id ≡ true
  pub not_negative : ltb_ℤ f.revision (pos 0) ≡ false
  pub below : eqb_ℤ f.revision max_int64 ≡ false
  pub next : f.next_sequence ≡ f.revision +ℤ pos 1

pub Facts-of_stored : (f : ApplicationFilter) → IsStored f → Facts f
unfolding IsStored IsRestorable new_default_application_filter restore_application_filter inc_int64
Facts-of_stored f (inl h) = ground arith
Facts-of_stored f (inr h) = ground arith

-- What publishing the revision `r` after `f` makes of it.
record IsNext (f g : ApplicationFilter) (r : ApplicationFilterRevision) : Type 0 where
  same : g.application_id ≡ f.application_id
  of_same : r.application_id ≡ f.application_id
  revision_of : g.revision ≡ inc_int64 f.revision
  next_of : g.next_sequence ≡ inc_int64 f.next_sequence
  sequence_of : r.sequence ≡ f.next_sequence
  current_of : g.current ≡ some r

IsNext-of_rule :
    (f g : ApplicationFilter) (id : Bytes) (rule : Rule) (by : AuthId) (at : Time)
    (r : ApplicationFilterRevision)
    → publish_rule f id rule by at ≡ ok (g, r)
    → IsNext f g r
unfolding publish_rule
IsNext-of_rule f g id rule by at r h = ground arith

IsNext-of_allow_all :
    (f g : ApplicationFilter) (id : Bytes) (by : AuthId) (at : Time) (r : ApplicationFilterRevision)
    → publish_allow_all f id by at ≡ ok (g, r)
    → IsNext f g r
unfolding publish_allow_all
IsNext-of_allow_all f g id by at r h = ground arith

IsRestorable-of_next :
    (f g : ApplicationFilter) (r : ApplicationFilterRevision)
    → Facts f
    → IsNext f g r
    → g.revision <ℤ max_int64
    → IsRestorable g
unfolding IsRestorable restore_application_filter inc_int64
IsRestorable-of_next f g r facts n small = ground (arith, bytes_eq_refl f.application_id)

pub matches_rule-publish_rule :
    (f g : ApplicationFilter) (id : Bytes) (rule : Rule) (by : AuthId) (at : Time)
    (r : ApplicationFilterRevision)
    → publish_rule f id rule by at ≡ ok (g, r)
    → matches_rule g rule ≡ true
unfolding matches_rule publish_rule
matches_rule-publish_rule f g id rule by at r h = ground (arith, equal_refl rule)

pub is_allow_all-publish_allow_all :
    (f g : ApplicationFilter) (id : Bytes) (by : AuthId) (at : Time) (r : ApplicationFilterRevision)
    → publish_allow_all f id by at ≡ ok (g, r)
    → is_allow_all g ≡ true
unfolding is_allow_all publish_allow_all
is_allow_all-publish_allow_all f g id by at r h = ground arith

pub application_id-publish_rule :
    (f g : ApplicationFilter) (id : Bytes) (rule : Rule) (by : AuthId) (at : Time)
    (r : ApplicationFilterRevision)
    → publish_rule f id rule by at ≡ ok (g, r)
    → g.application_id ≡ f.application_id
application_id-publish_rule f g id rule by at r h = (IsNext-of_rule f g id rule by at r h).same

pub application_id-publish_allow_all :
    (f g : ApplicationFilter) (id : Bytes) (by : AuthId) (at : Time) (r : ApplicationFilterRevision)
    → publish_allow_all f id by at ≡ ok (g, r)
    → g.application_id ≡ f.application_id
application_id-publish_allow_all f g id by at r h = (IsNext-of_allow_all f g id by at r h).same

-- One publication after the filter `f`.
pub data Publication (f g : ApplicationFilter) (r : ApplicationFilterRevision) : Type 0 where
  of_rule :
      (id : Bytes) (rule : Rule) (by : AuthId) (at : Time)
      → publish_rule f id rule by at ≡ ok (g, r)
      → Publication f g r
  of_allow_all :
      (id : Bytes) (by : AuthId) (at : Time)
      → publish_allow_all f id by at ≡ ok (g, r)
      → Publication f g r

IsNext-of_Publication :
    (f g : ApplicationFilter) (r : ApplicationFilterRevision) → Publication f g r → IsNext f g r
IsNext-of_Publication f g r (of_rule id rule by at h) = IsNext-of_rule f g id rule by at r h
IsNext-of_Publication f g r (of_allow_all id by at h) = IsNext-of_allow_all f g id by at r h

revision-IsNext :
    (f g : ApplicationFilter) (r : ApplicationFilterRevision)
    → Facts f
    → IsNext f g r
    → g.revision ≡ f.revision +ℤ pos 1
unfolding inc_int64
revision-IsNext f g r facts n = ground arith

pub current-Publication :
    (f g : ApplicationFilter) (r : ApplicationFilterRevision)
    → Publication f g r
    → g.current ≡ some r
current-Publication f g r p = (IsNext-of_Publication f g r p).current_of

pub revision-Publication :
    (f g : ApplicationFilter) (r : ApplicationFilterRevision)
    → IsStored f
    → Publication f g r
    → g.revision ≡ f.revision +ℤ pos 1
revision-Publication f g r stored p =
    revision-IsNext f g r (Facts-of_stored f stored) (IsNext-of_Publication f g r p)

-- Publishing a rule or an open filter after a filter that is stored or the default one gives the
-- next revision, and, while that is below the largest int64, RestoreApplicationFilter accepts the
-- filter again.
pub Publication-IsRestorable :
    (f g : ApplicationFilter) (r : ApplicationFilterRevision)
    → IsStored f
    → Publication f g r
    → g.revision <ℤ max_int64
    → IsRestorable g × (g.revision ≡ f.revision +ℤ pos 1)
Publication-IsRestorable f g r stored p small =
    let facts = Facts-of_stored f stored in
    let n = IsNext-of_Publication f g r p in
    (IsRestorable-of_next f g r facts n small, revision-IsNext f g r facts n)
