-- ===== src/Filter/Bounds.antt =====
-- internal/filter/domain: the rules that the constructors give are within the bounds that
-- publishing checks again, so that publishing one fails for no reason of the rule's.
use iwut_app_center.Prelude.{
  eqb_ℤ, max_int64, true, false, not, ◌&&◌, Option, Bytes, ok, is_ok, ◌≡◌, arith,
}
use iwut_app_center.Shared.{Time, AuthId, is_zero, auth_id_is_valid}
use iwut_app_center.Shared.Uuid.{is_uuid_v7}
use iwut_app_center.Filter.Rule.{
  Rule, Rules, Scalar, GroupOperator, PredicateOperator, new_group, new_predicate, shape, fits,
}
use iwut_app_center.Filter.Revision.{ApplicationFilter, publish_rule, is_absent}
use iwut_app_center.Filter.Publish.{IsStored, Facts, Facts-of_stored}

-- The rules that the two constructors return.
pub data IsBuilt : Rule → Type 0 where
  of_group :
      (operator : GroupOperator) (children : Rules) (r : Rule)
      → new_group operator children ≡ ok r
      → IsBuilt r
  of_predicate :
      (key : Bytes) (operator : PredicateOperator) (value : Option Scalar) (r : Rule)
      → new_predicate key operator value ≡ ok r
      → IsBuilt r

fits-new_group :
    (operator : GroupOperator) (children : Rules) (r : Rule)
    → new_group operator children ≡ ok r
    → (fits (shape r) ≡ true) × (is_absent r ≡ false)
unfolding new_group
fits-new_group operator children r h = ground arith

fits-new_predicate :
    (key : Bytes) (operator : PredicateOperator) (value : Option Scalar) (r : Rule)
    → new_predicate key operator value ≡ ok r
    → (fits (shape r) ≡ true) × (is_absent r ≡ false)
unfolding new_predicate shape
fits-new_predicate key operator value r h = ground arith

fits-IsBuilt : (r : Rule) → IsBuilt r → (fits (shape r) ≡ true) × (is_absent r ≡ false)
fits-IsBuilt r (of_group operator children _ h) = fits-new_group operator children r h
fits-IsBuilt r (of_predicate key operator value _ h) = fits-new_predicate key operator value r h

is_ok-publish_rule :
    (f : ApplicationFilter) (id : Bytes) (rule : Rule) (by : AuthId) (at : Time)
    → Facts f
    → fits (shape rule) ≡ true
    → is_absent rule ≡ false
    → is_ok (publish_rule f id rule by at) ≡ (
        is_uuid_v7 id
        && auth_id_is_valid by
        && not (is_zero at)
        && at.in_utc
        && not (eqb_ℤ f.next_sequence max_int64))
unfolding publish_rule
is_ok-publish_rule f id rule by at facts fit present = ground arith

-- A rule that the constructors built is published after a stored filter exactly when the id is a
-- UUIDv7, the author is named, the time is set and in UTC, and a next sequence number is left.
pub is_ok-publish_rule-IsBuilt :
    (f : ApplicationFilter) (id : Bytes) (rule : Rule) (by : AuthId) (at : Time)
    → IsStored f
    → IsBuilt rule
    → is_ok (publish_rule f id rule by at) ≡ (
        is_uuid_v7 id
        && auth_id_is_valid by
        && not (is_zero at)
        && at.in_utc
        && not (eqb_ℤ f.next_sequence max_int64))
is_ok-publish_rule-IsBuilt f id rule by at stored built =
    let (fit, present) = fits-IsBuilt rule built in
    is_ok-publish_rule f id rule by at (Facts-of_stored f stored) fit present
