-- ===== src/Profile/Checks.antt =====
-- internal/profile/domain/decide_application_profile_review.go: the checks that an approval confirms are
-- in the form in which the store keeps them.
use iwut_app_center.Prelude.{
  ◌==◌, true, false, all, List, [], ◌∷◌, Bytes, bytes_eq_iff, bytes_lt, bytes_lt_irrefl,
  bytes_lt_asymm, length, ◌≡◌, refl, sym, ap, ◌∙◌, arith,
}
use iwut_app_center.Shared.Sorting.{sort_by}
use iwut_app_center.Publication.Snapshot.{is_sorted, compact, strictly_sorted_unique}
use iwut_app_center.Publication.Snapshot.Sorted.{IsIncreasing, strictly_sorted_unique_iff}
use iwut_app_center.Review.Snapshot.{strings_equal}
use iwut_app_center.Version.Members.{is_sorted_by, is_sorted_by-sort_by}
use iwut_app_center.Version.Resorting.{all-sort_by}
use iwut_app_center.Profile.Review.{valid_policy_version, checks_after, checks_are_stored}

is_sorted-by_bytes : (xs : List Bytes) → is_sorted_by bytes_lt xs ≡ is_sorted xs
unfolding is_sorted is_sorted_by
is_sorted-by_bytes [] = refl
is_sorted-by_bytes (x ∷ []) = refl
is_sorted-by_bytes (x ∷ y ∷ ys) = ground (arith, is_sorted-by_bytes (y ∷ ys))

pub strings_equal_sound : (xs ys : List Bytes) → strings_equal xs ys ≡ true → xs ≡ ys
unfolding strings_equal
strings_equal_sound [] [] h = refl
strings_equal_sound [] (y ∷ ys) h = absurd (ground arith)
strings_equal_sound (x ∷ xs) [] h = absurd (ground arith)
strings_equal_sound (x ∷ xs) (y ∷ ys) h =
    ground (arith, bytes_eq_iff x y, strings_equal_sound xs ys)

checks_after-IsIncreasing :
    (x : Bytes) (xs : List Bytes)
    → IsIncreasing (x ∷ xs)
    → all valid_policy_version xs ≡ true
    → checks_after x xs ≡ true
unfolding checks_after
checks_after-IsIncreasing x [] h v = refl
checks_after-IsIncreasing x (y ∷ ys) h v =
    let rest = checks_after-IsIncreasing y ys h.1 (ground arith) in
    let less = h.0 in ground (arith, bytes_eq_iff y x, bytes_lt_irrefl x)

checks_are_stored-of :
    (xs : List Bytes)
    → (length xs == 0) ≡ false
    → all valid_policy_version xs ≡ true
    → is_sorted xs ≡ true
    → (length (compact xs) == length xs) ≡ true
    → checks_are_stored xs ≡ true
unfolding checks_are_stored strictly_sorted_unique
checks_are_stored-of [] some_check v s c = absurd (ground arith)
checks_are_stored-of (x ∷ xs) some_check v s c =
    let increasing = (strictly_sorted_unique_iff (x ∷ xs)).0 (rw (s, c) refl) in
    let after = checks_after-IsIncreasing x xs increasing (ground arith) in
    rw (s, after) (ground arith)

-- Sorted checks that are the required ones, each once.
pub checks_are_stored-sort_by :
    (checks required : List Bytes)
    → (length (sort_by bytes_lt checks) == 0) ≡ false
    → strings_equal (sort_by bytes_lt checks) (sort_by bytes_lt required) ≡ true
    → (length (compact (sort_by bytes_lt checks)) == length (sort_by bytes_lt checks)) ≡ true
    → all valid_policy_version required ≡ true
    → checks_are_stored (sort_by bytes_lt checks) ≡ true
checks_are_stored-sort_by checks required some_check same once valid =
    let equal = strings_equal_sound (sort_by bytes_lt checks) (sort_by bytes_lt required) same in
    checks_are_stored-of (sort_by bytes_lt checks) some_check
      (ap (all valid_policy_version) equal
        ∙ all-sort_by valid_policy_version bytes_lt required
        ∙ valid)
      (sym (is_sorted-by_bytes (sort_by bytes_lt checks))
        ∙ is_sorted_by-sort_by bytes_lt bytes_lt_asymm checks)
      once
