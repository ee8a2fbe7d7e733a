-- ===== src/Version/Resorting.antt =====
-- internal/version/domain: what sorting does to lists that are read again: they are in order, hold the
-- same values, and hold each once.
use iwut_app_center.Prelude.{
  Bool, true, not, ◌&&◌, ◌||◌, all, List, [], ◌∷◌, Bytes, bytes_eq, bytes_eq_iff, length, suc, ◌≡◌,
  refl, ap, ◌∙◌, arith,
}
use iwut_app_center.Shared.Sorting.{insert_by, sort_by}
use iwut_app_center.Publication.Snapshot.{contains, has_overlap}
use iwut_app_center.Review.Confirmation.{contains-sort_by}
use iwut_app_center.Version.Names.{are_unseen}
use iwut_app_center.Version.Members.{is_sorted_by}

-- Sorting what is sorted changes nothing.
pub sort_by-sorted :
    (less : Bytes → Bytes → Bool) (xs : List Bytes)
    → is_sorted_by less xs ≡ true
    → sort_by less xs ≡ xs
unfolding is_sorted_by sort_by insert_by
sort_by-sorted less [] h = refl
sort_by-sorted less (x ∷ []) h = refl
sort_by-sorted less (x ∷ y ∷ ys) h =
    ap (insert_by less x) (sort_by-sorted less (y ∷ ys) (ground arith)) ∙ ground arith

pub all-insert_by :
    (p : Bytes → Bool) (less : Bytes → Bytes → Bool) (x : Bytes) (xs : List Bytes)
    → all p (insert_by less x xs) ≡ (p x && all p xs)
unfolding insert_by
all-insert_by p less x [] = refl
all-insert_by p less x (y ∷ ys) = ground (arith, all-insert_by p less x ys)

pub all-sort_by :
    (p : Bytes → Bool) (less : Bytes → Bytes → Bool) (xs : List Bytes)
    → all p (sort_by less xs) ≡ all p xs
unfolding sort_by
all-sort_by p less [] = refl
all-sort_by p less (x ∷ xs) =
    ground (arith, all-insert_by p less x (sort_by less xs), all-sort_by p less xs)

length-insert_by :
    (less : Bytes → Bytes → Bool) (x : Bytes) (xs : List Bytes)
    → length (insert_by less x xs) ≡ suc (length xs)
unfolding insert_by
length-insert_by less x [] = refl
length-insert_by less x (y ∷ ys) = ground (arith, length-insert_by less x ys)

pub length-sort_by :
    (less : Bytes → Bytes → Bool) (xs : List Bytes) → length (sort_by less xs) ≡ length xs
unfolding sort_by
length-sort_by less [] = refl
length-sort_by less (x ∷ xs) =
    length-insert_by less x (sort_by less xs) ∙ ap suc (length-sort_by less xs)

-- Only what has been seen counts, not in which order.
are_unseen-same :
    (s t values : List Bytes)
    → ((v : Bytes) → contains s v ≡ contains t v)
    → are_unseen s values ≡ are_unseen t values
unfolding are_unseen contains
are_unseen-same s t [] h = refl
are_unseen-same s t (x ∷ xs) h =
    let rest = are_unseen-same (x ∷ s) (x ∷ t) xs (λ v. ap (λ b. bytes_eq v x || b) (h v)) in
    rw (h x, rest) refl

swap_seen :
    (x y : Bytes) (s : List Bytes) (v : Bytes) → contains (x ∷ y ∷ s) v ≡ contains (y ∷ x ∷ s) v
unfolding contains
swap_seen x y s v = ground arith

bytes_eq_swap : (x y : Bytes) → bytes_eq x y ≡ bytes_eq y x
bytes_eq_swap x y = ground (arith, bytes_eq_iff x y, bytes_eq_iff y x)

are_unseen-insert_by :
    (less : Bytes → Bytes → Bool) (seen : List Bytes) (x : Bytes) (ys : List Bytes)
    → are_unseen seen (insert_by less x ys) ≡ (not (contains seen x) && are_unseen (x ∷ seen) ys)
unfolding are_unseen insert_by contains
are_unseen-insert_by less seen x [] = refl
are_unseen-insert_by less seen x (y ∷ ys) =
    let rest = are_unseen-insert_by less (y ∷ seen) x ys in
    let swapped = are_unseen-same (x ∷ y ∷ seen) (y ∷ x ∷ seen) ys (swap_seen x y seen) in
    let same = bytes_eq_swap x y in ground arith

-- No value of the sorted list is met twice, where none of the list is.
pub are_unseen-sort_by :
    (less : Bytes → Bytes → Bool) (seen xs : List Bytes)
    → are_unseen seen (sort_by less xs) ≡ are_unseen seen xs
unfolding are_unseen sort_by
are_unseen-sort_by less seen [] = refl
are_unseen-sort_by less seen (x ∷ xs) =
    are_unseen-insert_by less seen x (sort_by less xs)
    ∙ ap (λ b. not (contains seen x) && b) (are_unseen-sort_by less (x ∷ seen) xs)

-- Whether two sorted lists share a value.
has_overlap-left :
    (s t right : List Bytes)
    → ((v : Bytes) → contains s v ≡ contains t v)
    → has_overlap s right ≡ has_overlap t right
unfolding has_overlap
has_overlap-left s t [] h = refl
has_overlap-left s t (x ∷ xs) h = rw (h x, has_overlap-left s t xs h) refl

has_overlap-insert_by :
    (less : Bytes → Bytes → Bool) (left : List Bytes) (x : Bytes) (xs : List Bytes)
    → has_overlap left (insert_by less x xs) ≡ (contains left x || has_overlap left xs)
unfolding has_overlap insert_by
has_overlap-insert_by less left x [] = refl
has_overlap-insert_by less left x (y ∷ ys) = ground (arith, has_overlap-insert_by less left x ys)

pub has_overlap-sort_by :
    (less : Bytes → Bytes → Bool) (left right : List Bytes)
    → has_overlap (sort_by less left) (sort_by less right) ≡ has_overlap left right
unfolding has_overlap sort_by
has_overlap-sort_by less left [] = refl
has_overlap-sort_by less left (x ∷ xs) =
    has_overlap-insert_by less (sort_by less left) x (sort_by less xs)
    ∙ ap (λ b. b || has_overlap (sort_by less left) (sort_by less xs))
        (contains-sort_by less left x)
    ∙ ap (λ b. contains left x || b) (has_overlap-sort_by less left xs)
