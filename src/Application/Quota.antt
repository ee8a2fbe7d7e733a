-- ===== src/Application/Quota.antt =====
-- internal/application/domain/developer_application_quota.go: how a quota counts.
use iwut_app_center.Prelude.{
  ℤ, pos, ltb_ℤ, leb_ℤ, ◌+ℤ◌, max_int32, inc_int32, true, false, ok, reject-ok, or_false, not-false,
  ◌≡◌, refl, subst, arith,
}
use iwut_app_center.Shared.{auth_id_is_valid}
use iwut_app_center.Application.{application_quota_exceeded, internal}
use iwut_app_center.Application.Aggregate.{Quota, new_quota, has_capacity, consume}

next_count :
    (limit used : ℤ)
    → leb_ℤ limit max_int32 ≡ true
    → ltb_ℤ used (pos 0) ≡ false
    → ltb_ℤ used limit ≡ true
    → (inc_int32 used ≡ (used +ℤ pos 1))
      × (ltb_ℤ (inc_int32 used) (pos 0) ≡ false)
      × (ltb_ℤ limit (inc_int32 used) ≡ false)
unfolding inc_int32
next_count limit used h k l = ground arith

-- What NewDeveloperApplicationQuota accepts.
record IsQuota (q : Quota) : Type 0 where
  who : auth_id_is_valid q.admin_id ≡ true
  limited : ltb_ℤ q.limit (pos 0) ≡ false
  counted : ltb_ℤ q.used_count (pos 0) ≡ false
  within : ltb_ℤ q.limit q.used_count ≡ false

IsQuota-of : (q : Quota) → new_quota q.admin_id q.limit q.used_count ≡ ok q → IsQuota q
unfolding new_quota
IsQuota-of q h =
    let (fine, same) = reject-ok _ internal _ q h in
    let (fine2, within) = or_false _ (ltb_ℤ q.limit q.used_count) fine in
    let (fine1, counted) = or_false _ (ltb_ℤ q.used_count (pos 0)) fine2 in
    let (who, limited) = or_false _ (ltb_ℤ q.limit (pos 0)) fine1 in
    record { who = not-false _ who; limited = limited; counted = counted; within = within }

new_quota-IsQuota : (q : Quota) → IsQuota q → new_quota q.admin_id q.limit q.used_count ≡ ok q
unfolding new_quota
new_quota-IsQuota q h = rw (h.who, h.limited, h.counted, h.within) refl

-- A quota that NewDeveloperApplicationQuota accepts counts one more when it is consumed, without wrapping
-- at the largest int32, and the result is accepted again.
pub consume_bounds :
    (q w : Quota)
    → leb_ℤ q.limit max_int32 ≡ true
    → new_quota q.admin_id q.limit q.used_count ≡ ok q
    → consume q ≡ ok w
    → (w.used_count ≡ (q.used_count +ℤ pos 1)) × (new_quota w.admin_id w.limit w.used_count ≡ ok w)
unfolding consume has_capacity
consume_bounds q w h made run =
    let fine = IsQuota-of q made in
    let (room, counted_on) = reject-ok _ application_quota_exceeded _ w run in
    let (next, positive, within) =
      next_count q.limit q.used_count h fine.counted (not-false _ room) in
    subst
      (λ x.
        (x.used_count ≡ (q.used_count +ℤ pos 1))
        × (new_quota x.admin_id x.limit x.used_count ≡ ok x))
      counted_on
      (
        next,
        new_quota-IsQuota (record q { used_count = inc_int32 q.used_count })
            (record {
              who = fine.who;
              limited = fine.limited;
              counted = positive;
              within = within;
            }),
      )
