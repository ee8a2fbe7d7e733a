-- ===== src/Filter/Shape.antt =====
-- internal/filter/domain/rule.go: what shape counts, and the rules that Equal tells apart.
use iwut_app_center.Prelude.{
  ℕ, ◌+◌, ◌≤◌, ltb, Bool, true, false, ◌&&◌, Option, none, some, if◌then◌else◌, ◌≡◌, ◌∙◌, refl,
  arith,
}
use iwut_app_center.Filter.Rule.{
  Rule, Rules, absent, group, predicate, end, ◌then◌, shape, shape_from,
}

-- No rule below is the zero rule, and no group is empty.
mutual
  pub is_whole : Rule → Bool
  is_whole absent = false
  is_whole (predicate key operator value) = true
  is_whole (group operator end) = false
  is_whole (group operator (child then children)) = are_whole (child then children)

  are_whole : Rules → Bool
  are_whole end = true
  are_whole (child then children) = is_whole child && are_whole children

-- All the rules of the tree, the groups included.
mutual
  pub nodes : Rule → ℕ
  nodes (group operator children) = 1 + nodes_of children
  nodes _ = 1

  nodes_of : Rules → ℕ
  nodes_of end = 0
  nodes_of (child then children) = nodes child + nodes_of children

abbrev max : ℕ → ℕ → ℕ
max a b = if ltb a b then b else a

-- The length of the longest branch.
mutual
  pub depth : Rule → ℕ
  depth (group operator children) = 1 + depth_of children
  depth _ = 1

  depth_of : Rules → ℕ
  depth_of end = 0
  depth_of (child then children) = max (depth child) (depth_of children)

max_one : (a : ℕ) → max 1 (1 + a) ≡ 1 + a
max_one a = ground arith

one-le-max : (d a : ℕ) → 1 ≤ d → 1 ≤ max d (1 + a)
one-le-max d a h = ground arith

max_step : (d a b : ℕ) → max (max d (1 + a)) (1 + b) ≡ max d (1 + max a b)
max_step d a b = ground arith

-- The answer for a list of children, after nodes and depth of what stands before it.
abbrev answer : Bool → ℕ → ℕ → Option (ℕ × ℕ)
answer whole n d = if whole then some (n, d) else none

answer-eq : (b : Bool) (m n d e : ℕ) → m ≡ n → d ≡ e → answer b m d ≡ answer b n e
answer-eq b m n d e p q = cc

-- A first child that has an answer leaves the question to the others.
shape_from-then :
    (n d : ℕ) (r : Rule) (rs : Rules) (b : Bool) (m e : ℕ)
    → shape r ≡ answer b m e
    → shape_from n d (r then rs) ≡ (if b then shape_from (n + m) (max d (1 + e)) rs else none)
unfolding shape
shape_from-then n d r rs true m e h = ground (arith, h)
shape_from-then n d r rs false m e h = ground (arith, h)

-- The answers of a first child and of the others make the answer of the whole list.
answer-both :
    (o : Option (ℕ × ℕ)) (first rest : Bool) (n d r_nodes r_depth nodes_below depth_below : ℕ)
    → o ≡ answer rest (n + r_nodes + nodes_below) (max (max d (1 + r_depth)) (1 + depth_below))
    → (if first then o else none)
      ≡ answer (first && rest) (n + (r_nodes + nodes_below)) (max d (1 + max r_depth depth_below))
answer-both o false rest n d i j k l h = refl
answer-both o true rest n d i j k l h = h ∙ answer-eq rest _ _ _ _ (omega arith) (max_step d j l)

mutual
  unfolding shape is_whole nodes depth

  shape_answer : (r : Rule) → shape r ≡ (if is_whole r then some (nodes r, depth r) else none)
  shape_answer absent = refl
  shape_answer (predicate key operator value) = refl
  shape_answer (group operator end) = refl
  shape_answer (group operator (child then children)) =
      shape_from_lem 1 1 (child then children) (omega arith)
      ∙ answer-eq (are_whole (child then children)) _ _ _ _ refl
          (max_one (depth_of (child then children)))

  shape_from_lem :
      (n d : ℕ) (rs : Rules)
      → 1 ≤ d
      → shape_from n d rs ≡ answer (are_whole rs) (n + nodes_of rs) (max d (1 + depth_of rs))
  shape_from_lem n d end h = ground arith
  shape_from_lem n d (r then rs) h =
      shape_from-then n d r rs (is_whole r) (nodes r) (depth r) (shape_answer r)
      ∙ answer-both _ (is_whole r) (are_whole rs) n d (nodes r) (depth r) (nodes_of rs)
          (depth_of rs)
          (shape_from_lem (n + nodes r) (max d (1 + depth r)) rs (one-le-max d (depth r) h))

-- Rule.shape answers for the rules in which no group is empty and no rule is the zero one, and for
-- no others, with the number of nodes and the length of the longest branch.
pub shape_lem : (r : Rule) → shape r ≡ (if is_whole r then some (nodes r, depth r) else none)
shape_lem r = shape_answer r
