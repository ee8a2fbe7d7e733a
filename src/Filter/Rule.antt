-- ===== src/Filter/Rule.antt =====
-- internal/filter/domain/rule.go: scalars, predicates and groups, their constructors and guards.
use iwut_app_center.Prelude.{
  ℕ, ◌+◌, ℤ, leb, ltb, ◌==◌, eqb_ℤ, Bool, true, false, not, ◌&&◌, ◌||◌, Option, none, some, [], ◌∷◌,
  Bytes, bytes_eq, length, is_none, Result, ok, is_ok, ◌>>◌, reject, if◌then◌else◌,
}
use iwut_app_center.Shared.Utf8.{valid_string, rune_count}
use iwut_app_center.Filter.{Error, invalid_application_filter}
use iwut_app_center.Filter.Date.{date_is_valid}

-- `unset` is the zero Scalar; a date keeps the text it was made of.
pub data Scalar : Type 0 where
  unset : Scalar
  string date : Bytes → Scalar
  integer : ℤ → Scalar
  boolean : Bool → Scalar

unfoldable pub new_string_scalar : Bytes → Result Error Scalar
new_string_scalar value = do
  reject (not (valid_string value) || ltb 4096 (rune_count value)) invalid_application_filter
  ok (string value)

unfoldable pub new_date_scalar : Bytes → Result Error Scalar
new_date_scalar value = do
  reject (not (date_is_valid value)) invalid_application_filter
  ok (date value)

unfoldable pub valid_scalar : Scalar → Bool
unfolding new_string_scalar new_date_scalar
valid_scalar unset = false
valid_scalar (string value) = is_ok (new_string_scalar value)
valid_scalar (integer value) = true
valid_scalar (boolean value) = true
valid_scalar (date value) = is_ok (new_date_scalar value)

-- GroupOperator and PredicateOperator are strings: the last case is any other text.
pub data GroupOperator : Type 0 where
  op_all op_any op_not : GroupOperator
  op_other : Bytes → GroupOperator

pub data PredicateOperator : Type 0 where
  op_eq op_ne op_lt op_lte op_gt op_gte op_exists op_not_exists : PredicateOperator
  unknown : Bytes → PredicateOperator

-- `absent` is the zero Rule, whose kind is "".
mutual
  pub data Rule : Type 0 where
    absent : Rule
    group : GroupOperator → Rules → Rule
    predicate : Bytes → PredicateOperator → Option Scalar → Rule

  pub data Rules : Type 0 where
    end : Rules
    ◌then◌ : Rule → Rules → Rules

infixr 20 ◌then◌
abbrev pub count : Rules → ℕ
count end = 0
count (r then rs) = 1 + count rs

abbrev is_lower : ℕ → Bool
is_lower c = leb b'a' c && leb c b'z'

abbrev is_key_char : ℕ → Bool
is_key_char c = is_lower c || leb b'0' c && leb c b'9' || c == b'_'

-- fieldKeyPattern, read from left to right: whether a segment must start here.
unfoldable pub matches_from : Bool → Bytes → Bool
matches_from true [] = false
matches_from true (c ∷ cs) = is_lower c && matches_from false cs
matches_from false [] = true
matches_from false (c ∷ cs) =
    is_key_char c && matches_from false cs || c == b'.' && matches_from true cs

abbrev pub matches_field_key : Bytes → Bool
matches_field_key key = matches_from true key

-- The switch on the operator in NewPredicate.
unfoldable pub value_fits : PredicateOperator → Option Scalar → Bool
value_fits op_exists value = is_none value
value_fits op_not_exists value = is_none value
value_fits op_eq (some value) = valid_scalar value
value_fits op_ne (some value) = valid_scalar value
value_fits (unknown text) _ = false
value_fits _ (some (integer value)) = valid_scalar (integer value)
value_fits _ (some (date value)) = valid_scalar (date value)
value_fits _ _ = false

unfoldable pub new_predicate : Bytes → PredicateOperator → Option Scalar → Result Error Rule
new_predicate key operator value = do
  reject (ltb (length key) 1 || ltb 128 (length key) || not (matches_field_key key))
      invalid_application_filter
  reject (not (value_fits operator value)) invalid_application_filter
  ok (predicate key operator value)

abbrev widen : ℕ → ℕ → ℕ
widen depth child = if ltb depth (child + 1) then child + 1 else depth

-- The nodes and the depth of a rule; of a group's children, on top of what was counted before.
unfoldable mutual
  pub shape : Rule → Option (ℕ × ℕ)
  shape absent = none
  shape (predicate key operator value) = some (1, 1)
  shape (group operator end) = none
  shape (group operator (child then children)) = shape_from 1 1 (child then children)

  pub shape_from : ℕ → ℕ → Rules → Option (ℕ × ℕ)
  shape_from nodes depth end = some (nodes, depth)
  shape_from nodes depth (child then children) =
      let below = shape child in
      elim below [ none ↦ none | some (n, d) ↦ shape_from (nodes + n) (widen depth d) children ]

-- `ok && nodes <= MaxRuleNodes && depth <= MaxRuleDepth`.
abbrev pub fits : Option (ℕ × ℕ) → Bool
fits none = false
fits (some (nodes, depth)) = leb nodes 128 && leb depth 8

abbrev valid_count : GroupOperator → ℕ → Bool
valid_count op_all n = leb 1 n && leb n 32
valid_count op_any n = leb 1 n && leb n 32
valid_count op_not n = n == 1
valid_count (op_other text) n = false

unfoldable pub new_group : GroupOperator → Rules → Result Error Rule
new_group operator children = do
  reject (not (valid_count operator (count children))) invalid_application_filter
  reject (not (fits (shape (group operator children)))) invalid_application_filter
  ok (group operator children)

unfoldable pub scalar_eq : Scalar → Scalar → Bool
scalar_eq unset unset = true
scalar_eq (string a) (string b) = bytes_eq a b
scalar_eq (date a) (date b) = bytes_eq a b
scalar_eq (integer a) (integer b) = eqb_ℤ a b
scalar_eq (boolean true) (boolean b) = b
scalar_eq (boolean false) (boolean b) = not b
scalar_eq _ _ = false

unfoldable pub value_eq : Option Scalar → Option Scalar → Bool
unfolding scalar_eq
value_eq none none = true
value_eq (some a) (some b) = scalar_eq a b
value_eq _ _ = false

unfoldable pub group_operator_eq : GroupOperator → GroupOperator → Bool
group_operator_eq op_all op_all = true
group_operator_eq op_any op_any = true
group_operator_eq op_not op_not = true
group_operator_eq (op_other a) (op_other b) = bytes_eq a b
group_operator_eq _ _ = false

unfoldable pub predicate_operator_eq : PredicateOperator → PredicateOperator → Bool
predicate_operator_eq op_eq op_eq = true
predicate_operator_eq op_ne op_ne = true
predicate_operator_eq op_lt op_lt = true
predicate_operator_eq op_lte op_lte = true
predicate_operator_eq op_gt op_gt = true
predicate_operator_eq op_gte op_gte = true
predicate_operator_eq op_exists op_exists = true
predicate_operator_eq op_not_exists op_not_exists = true
predicate_operator_eq (unknown a) (unknown b) = bytes_eq a b
predicate_operator_eq _ _ = false

-- Rule.Equal; of two lists of children, which must have one length.
unfoldable mutual
  pub equal : Rule → Rule → Bool
  equal absent absent = true
  equal (group f xs) (group g ys) =
      group_operator_eq f g && count xs == count ys && equal_children xs ys
  equal (predicate k f v) (predicate l g w) =
      bytes_eq k l && predicate_operator_eq f g && value_eq v w
  equal _ _ = false

  pub equal_children : Rules → Rules → Bool
  equal_children (a then xs) (b then ys) = equal a b && equal_children xs ys
  equal_children _ _ = true
