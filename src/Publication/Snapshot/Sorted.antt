-- ===== src/Publication/Snapshot/Sorted.antt =====
-- snapshot.go: what strictlySortedUnique accepts.
use iwut_app_center.Prelude.{
  ◌≤◌, ◌≡◌, refl, ◌↔◌, true, some, List, [], ◌∷◌, Bytes, bytes_eq_iff, bytes_lt, bytes_lt_irrefl,
  bytes_lt_asymm, bytes_lt_trichotomy, length, arith,
}
use iwut_app_center.Publication.Snapshot.{is_sorted, compact_after, compact, strictly_sorted_unique}

-- Each item is less than the next.
abbrev pub IsIncreasing : List Bytes → Type 0
IsIncreasing [] = Unit
IsIncreasing (x ∷ []) = Unit
IsIncreasing (x ∷ y ∷ xs) = (bytes_lt x y ≡ true) × IsIncreasing (y ∷ xs)

length-compact_after : (x : Bytes) (xs : List Bytes) → length (compact_after x xs) ≤ length xs
unfolding compact_after
length-compact_after x [] = omega arith
length-compact_after x (y ∷ ys) = ground (arith, length-compact_after y ys)

IsIncreasing-of :
    (x : Bytes) (xs : List Bytes)
    → is_sorted (x ∷ xs) ≡ true
    → length (compact_after x xs) ≡ length xs
    → IsIncreasing (x ∷ xs)
unfolding is_sorted compact_after
IsIncreasing-of x [] s c = tt
IsIncreasing-of x (y ∷ ys) s c =
    ground (arith, IsIncreasing-of y ys, bytes_lt_trichotomy x y, length-compact_after y ys)

of_IsIncreasing :
    (x : Bytes) (xs : List Bytes)
    → IsIncreasing (x ∷ xs)
    → (is_sorted (x ∷ xs) ≡ true) × (length (compact_after x xs) ≡ length xs)
unfolding is_sorted compact_after
of_IsIncreasing x [] h = (refl, refl)
of_IsIncreasing x (y ∷ ys) (lt, h) =
    ground
      (arith, of_IsIncreasing y ys h, bytes_lt_asymm x y lt, bytes_lt_irrefl x, bytes_eq_iff x y)

-- A slice that is not nil is accepted exactly if each item is less than the next.
pub strictly_sorted_unique_iff :
    (xs : List Bytes) → (strictly_sorted_unique (some xs) ≡ true) ↔ IsIncreasing xs
unfolding strictly_sorted_unique is_sorted compact
strictly_sorted_unique_iff [] = (λ _. tt, λ _. refl)
strictly_sorted_unique_iff (x ∷ xs) = ground (arith, IsIncreasing-of x xs, of_IsIncreasing x xs)
