-- ===== src/Filter/Equal.antt =====
-- internal/filter/domain/rule.go (Equal): the comparison is equality of rules.
use iwut_app_center.Prelude.{
  Bool, ◌&&◌, true, false, Option, none, some, Bytes, bytes_eq, bytes_eq_iff, ◌≡◌, ◌↔◌, refl, subst,
  arith,
}
use iwut_app_center.Filter.Rule.{
  Scalar, unset, string, date, integer, boolean, Rule, absent, group, predicate, Rules, end, ◌then◌,
  op_other, unknown, GroupOperator, PredicateOperator, count, equal, equal_children, scalar_eq,
  value_eq, group_operator_eq, predicate_operator_eq,
}

scalar_eq_iff : (a b : Scalar) → (scalar_eq a b ≡ true) ↔ (a ≡ b)
unfolding scalar_eq
scalar_eq_iff unset b = ground arith
scalar_eq_iff (string x) (string y) = ground (arith, bytes_eq_iff x y)
scalar_eq_iff (date x) (date y) = ground (arith, bytes_eq_iff x y)
scalar_eq_iff (string x) b = ground arith
scalar_eq_iff (date x) b = ground arith
scalar_eq_iff (integer i) b = ground arith
scalar_eq_iff (boolean true) b = ground arith
scalar_eq_iff (boolean false) b = ground arith

value_eq_iff : (a b : Option Scalar) → (value_eq a b ≡ true) ↔ (a ≡ b)
unfolding value_eq
value_eq_iff none b = ground arith
value_eq_iff (some a) none = ground arith
value_eq_iff (some a) (some b) = ground (arith, scalar_eq_iff a b)

group_operator_eq_iff : (a b : GroupOperator) → (group_operator_eq a b ≡ true) ↔ (a ≡ b)
unfolding group_operator_eq
group_operator_eq_iff (op_other x) (op_other y) = ground (arith, bytes_eq_iff x y)
group_operator_eq_iff a b = ground arith

predicate_operator_eq_iff : (a b : PredicateOperator) → (predicate_operator_eq a b ≡ true) ↔ (a ≡ b)
unfolding predicate_operator_eq
predicate_operator_eq_iff (unknown x) (unknown y) = ground (arith, bytes_eq_iff x y)
predicate_operator_eq_iff a b = ground arith

both : (a b : Bool) → (a && b) ≡ true → (a ≡ true) × (b ≡ true)
both a b h = ground arith

predicate-cong :
    (k l : Bytes) (f g : PredicateOperator) (v w : Option Scalar)
    → k ≡ l
    → f ≡ g
    → v ≡ w
    → predicate k f v ≡ predicate l g w
predicate-cong k l f g v w p q r = cc

group-cong : (f g : GroupOperator) (xs ys : Rules) → f ≡ g → xs ≡ ys → group f xs ≡ group g ys
group-cong f g xs ys p q = cc

then-cong : (r s : Rule) (xs ys : Rules) → r ≡ s → xs ≡ ys → (r then xs) ≡ (s then ys)
then-cong r s xs ys p q = cc

group-parts :
    (f g : GroupOperator) (xs ys : Rules)
    → equal (group f xs) (group g ys) ≡ true
    → (group_operator_eq f g ≡ true) × (count xs ≡ count ys) × (equal_children xs ys ≡ true)
unfolding equal
group-parts f g xs ys h = ground arith

mutual
  unfolding equal

  pub equal→eq : (r s : Rule) → equal r s ≡ true → r ≡ s
  equal→eq absent s h = ground arith
  equal→eq (predicate k f v) (predicate l g w) h =
      let (front, values) = both (bytes_eq k l && predicate_operator_eq f g) (value_eq v w) h in
      let (keys, operators) = both (bytes_eq k l) (predicate_operator_eq f g) front in
      predicate-cong k l f g v w ((bytes_eq_iff k l).0 keys)
        ((predicate_operator_eq_iff f g).0 operators) ((value_eq_iff v w).0 values)
  equal→eq (group f xs) (group g ys) h =
      let (operators, counts, children) = group-parts f g xs ys h in
      group-cong f g xs ys ((group_operator_eq_iff f g).0 operators)
        (equal_children→eq xs ys counts children)
  equal→eq _ _ h = cc

  equal_children→eq : (xs ys : Rules) → count xs ≡ count ys → equal_children xs ys ≡ true → xs ≡ ys
  equal_children→eq end end e h = refl
  equal_children→eq (r then xs) (s then ys) e h =
      let (first, rest) = both (equal r s) (equal_children xs ys) h in
      then-cong r s xs ys (equal→eq r s first) (equal_children→eq xs ys (omega (arith, e)) rest)
  equal_children→eq _ _ e h = ground arith

mutual
  unfolding equal

  pub equal_refl : (r : Rule) → equal r r ≡ true
  equal_refl absent = refl
  equal_refl (predicate k f v) =
      ground (arith, bytes_eq_iff k k, predicate_operator_eq_iff f f, value_eq_iff v v)
  equal_refl (group f xs) = ground (arith, group_operator_eq_iff f f, equal_children_refl xs)

  equal_children_refl : (xs : Rules) → equal_children xs xs ≡ true
  equal_children_refl end = refl
  equal_children_refl (r then xs) = ground (arith, equal_refl r, equal_children_refl xs)

-- Two rules are Equal exactly when they are one rule: the same tree of groups in the same order,
-- with the same keys, operators and values.
pub equal_iff : (r s : Rule) → (equal r s ≡ true) ↔ (r ≡ s)
equal_iff r s = (equal→eq r s, λ e. subst (λ t. equal r t ≡ true) e (equal_refl r))
