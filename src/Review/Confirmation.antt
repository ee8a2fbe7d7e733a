-- ===== src/Review/Confirmation.antt =====
-- internal/review/domain/decision.go (ValidateConfirmation): the checks that a reviewer confirms are
-- the policy's, as sets.
use iwut_app_center.Prelude.{
  Bool, true, false, ◌||◌, Bool-cases, all, Option, none, some, List, [], ◌∷◌, Bytes, bytes_eq,
  bytes_lt, bytes_eq_iff, bytes_eq_refl, ok, ◌≡◌, inl, inr, refl, sym, subst, arith,
}
use iwut_app_center.Publication.Snapshot.{contains}
use iwut_app_center.Shared.Sorting.{sort_by, insert_by}
use iwut_app_center.Review.Decision.{VersionReviewPolicy, check_ids, confirm, validate_confirmation}

-- No id stands twice.
pub IsDistinct : List Bytes → Type 0
IsDistinct [] = Unit
IsDistinct (id ∷ ids) = (contains ids id ≡ false) × IsDistinct ids

contains-all :
    (required ids : List Bytes) (x : Bytes)
    → all (contains required) ids ≡ true
    → contains ids x ≡ true
    → contains required x ≡ true
unfolding contains
contains-all required [] x h c = ground arith
contains-all required (id ∷ ids) x h c = elim (Bool-cases (bytes_eq x id)) [
  | inl e ↦ subst (λ y. contains required y ≡ true) (sym ((bytes_eq_iff x id).0 e)) (ground arith)
  | inr n ↦ contains-all required ids x (ground arith) (ground arith)
]

-- Inserting an id into a list adds that id and nothing else.
contains-insert_by :
    (less : Bytes → Bytes → Bool) (x : Bytes) (ids : List Bytes) (v : Bytes)
    → contains (insert_by less x ids) v ≡ (bytes_eq v x || contains ids v)
unfolding contains insert_by
contains-insert_by less x [] v = ground arith
contains-insert_by less x (y ∷ ys) v = ground (arith, contains-insert_by less x ys v)

pub contains-sort_by :
    (less : Bytes → Bytes → Bool) (ids : List Bytes) (v : Bytes)
    → contains (sort_by less ids) v ≡ contains ids v
unfolding contains sort_by
contains-sort_by less [] v = refl
contains-sort_by less (x ∷ xs) v =
    ground (arith, contains-sort_by less xs v, contains-insert_by less x (sort_by less xs) v)

-- The ids that were seen at the end are those of before and the confirmed ones.
contains-confirm :
    (required seen ids out : List Bytes) (x : Bytes)
    → confirm required seen ids ≡ some out
    → contains out x ≡ (contains ids x || contains seen x)
unfolding contains confirm
contains-confirm required seen [] out x h = ground arith
contains-confirm required seen (id ∷ ids) out x h =
    ground (arith, contains-confirm required (id ∷ seen) ids out x)

all-confirm :
    (required seen ids out : List Bytes)
    → confirm required seen ids ≡ some out
    → all (contains required) ids ≡ true
unfolding contains confirm
all-confirm required seen [] out h = refl
all-confirm required seen (id ∷ ids) out h =
    ground (arith, all-confirm required (id ∷ seen) ids out)

-- An id that was seen before is not confirmed again.
contains-seen :
    (required seen ids out : List Bytes) (x : Bytes)
    → confirm required seen ids ≡ some out
    → contains seen x ≡ true
    → contains ids x ≡ false
unfolding contains confirm
contains-seen required seen [] out x h c = refl
contains-seen required seen (id ∷ ids) out x h c = elim (Bool-cases (bytes_eq x id)) [
  | inl e ↦
      let again : contains seen id ≡ true =
        subst (λ y. contains seen y ≡ true) ((bytes_eq_iff x id).0 e) c in
      ground arith
  | inr n ↦ ground (arith, contains-seen required (id ∷ seen) ids out x)
]

IsDistinct-confirm :
    (required seen ids out : List Bytes) → confirm required seen ids ≡ some out → IsDistinct ids
unfolding IsDistinct contains confirm
IsDistinct-confirm required seen [] out h = tt
IsDistinct-confirm required seen (id ∷ ids) out h = ground (
  arith,
  bytes_eq_refl id,
  contains-seen required (id ∷ seen) ids out id,
  IsDistinct-confirm required (id ∷ seen) ids out,
)

abbrev Parts : VersionReviewPolicy → List Bytes → List Bytes → Type 0
Parts policy confirmed normalized =
    (out : List Bytes) × (confirm (check_ids policy) [] confirmed ≡ some out)
    × (all (contains out) (check_ids policy) ≡ true)
    × (normalized ≡ sort_by bytes_lt confirmed)

confirm-of_ok :
    (policy : VersionReviewPolicy) (confirmed normalized : List Bytes)
    → validate_confirmation policy confirmed ≡ ok normalized
    → Parts policy confirmed normalized
unfolding validate_confirmation
confirm-of_ok policy confirmed normalized h = by_seen (confirm (check_ids policy) [] confirmed) refl
  where
    by_seen :
        (o : Option (List Bytes))
        → confirm (check_ids policy) [] confirmed ≡ o
        → Parts policy confirmed normalized
    by_seen none e = absurd (ground arith)
    by_seen (some out) e = (out, e, ground arith, ground arith)

same-tests : (a b : Bool) → (a ≡ true → b ≡ true) → (b ≡ true → a ≡ true) → a ≡ b
same-tests true b f g = sym (f refl)
same-tests false true f g = g refl
same-tests false false f g = refl

contains-without_seen :
    (confirmed out : List Bytes) (x : Bytes)
    → contains out x ≡ (contains confirmed x || contains [] x)
    → contains out x ≡ true
    → contains confirmed x ≡ true
unfolding contains
contains-without_seen confirmed out x same c = ground arith

-- If a confirmation is accepted, no check is confirmed twice, exactly the policy's checks are
-- confirmed, and the list that is kept has the same ones.
pub validate_confirmation_sound :
    (policy : VersionReviewPolicy) (confirmed normalized : List Bytes) (x : Bytes)
    → validate_confirmation policy confirmed ≡ ok normalized
    → (contains (check_ids policy) x ≡ contains confirmed x)
      × (contains normalized x ≡ contains confirmed x)
      × IsDistinct confirmed
validate_confirmation_sound policy confirmed normalized x h =
    let (out, seen, covered, kept) = confirm-of_ok policy confirmed normalized h in
    let known = all-confirm (check_ids policy) [] confirmed out seen in
    let same = contains-confirm (check_ids policy) [] confirmed out x seen in
    (
      same-tests (contains (check_ids policy) x) (contains confirmed x)
          (λ c.
            contains-without_seen confirmed out x same
              (contains-all out (check_ids policy) x covered c))
          (contains-all (check_ids policy) confirmed x known),
      subst (λ n. contains n x ≡ contains confirmed x) (sym kept)
          (contains-sort_by bytes_lt confirmed x),
      IsDistinct-confirm (check_ids policy) [] confirmed out seen,
    )
