-- ===== src/Shared/Sorting.antt =====
-- slices.Sort and sort.Slice on strings. Equal strings are one value, so any sorting is this one.
use iwut_app_center.Prelude.{Bool, List, [], ◌∷◌, Bytes, if◌then◌else◌}

unfoldable pub insert_by : (Bytes → Bytes → Bool) → Bytes → List Bytes → List Bytes
insert_by less x [] = x ∷ []
insert_by less x (y ∷ ys) =
    let rest = insert_by less x ys in if less y x then y ∷ rest else x ∷ y ∷ ys

unfoldable pub sort_by : (Bytes → Bytes → Bool) → List Bytes → List Bytes
unfolding insert_by
sort_by less [] = []
sort_by less (x ∷ xs) = insert_by less x (sort_by less xs)
