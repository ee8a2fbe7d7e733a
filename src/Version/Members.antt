-- ===== src/Version/Members.antt =====
-- internal/version/domain/sort.go and scope_request.go: the order of the sets, and what a scope request
-- holds.
use iwut_app_center.Prelude.{
  ℕ, Bool, true, false, not, ◌&&◌, Bool-cases, List, [], ◌∷◌, Bytes, bytes_eq, bytes_eq_iff,
  bytes_lt, bytes_lt_asymm, ok, ◌≡◌, inl, inr, refl, sym, subst, arith,
}
use iwut_app_center.Shared.Utf8.{runes}
use iwut_app_center.Shared.Sorting.{insert_by, sort_by}
use iwut_app_center.Publication.Snapshot.{contains, has_overlap}
use iwut_app_center.Review.Confirmation.{contains-sort_by}
use iwut_app_center.Version.Names.{runes_less, code_point_less, ScopeRequest, new_scope_request}

runes_less_asym :
    (s t : Bool) (xs ys : List ℕ)
    → (s && t) ≡ false
    → runes_less s xs ys ≡ true
    → runes_less t ys xs ≡ false
unfolding runes_less
runes_less_asym s t [] [] h l = ground arith
runes_less_asym s t [] (y ∷ ys) h l = refl
runes_less_asym s t (x ∷ xs) [] h l = ground arith
runes_less_asym s t (x ∷ xs) (y ∷ ys) h l = ground (arith, runes_less_asym s t xs ys)

bytes_lt_asym : (xs ys : Bytes) → (bytes_lt xs ys && bytes_lt ys xs) ≡ false
bytes_lt_asym xs ys = ground (arith, bytes_lt_asymm xs ys)

pub code_point_less_asym : (a b : Bytes) → code_point_less a b ≡ true → code_point_less b a ≡ false
unfolding code_point_less
code_point_less_asym a b h =
    runes_less_asym (bytes_lt a b) (bytes_lt b a) (runes a) (runes b) (bytes_lt_asym a b) h

-- No item is less than the one before it.
unfoldable pub is_sorted_by : (Bytes → Bytes → Bool) → List Bytes → Bool
is_sorted_by less [] = true
is_sorted_by less (x ∷ []) = true
is_sorted_by less (x ∷ y ∷ ys) = not (less y x) && is_sorted_by less (y ∷ ys)

module _ (less : Bytes → Bytes → Bool)
    (asym : (a b : Bytes) → less a b ≡ true → less b a ≡ false) where
  is_sorted_by-insert_by :
      (x : Bytes) (ys : List Bytes)
      → is_sorted_by less ys ≡ true
      → is_sorted_by less (insert_by less x ys) ≡ true
  unfolding is_sorted_by insert_by
  is_sorted_by-insert_by x [] h = refl
  is_sorted_by-insert_by x (y ∷ []) h = ground (arith, asym y x)
  is_sorted_by-insert_by x (y ∷ z ∷ zs) h =
      ground (arith, asym y x, is_sorted_by-insert_by x (z ∷ zs))

  pub is_sorted_by-sort_by : (xs : List Bytes) → is_sorted_by less (sort_by less xs) ≡ true
  unfolding is_sorted_by sort_by
  is_sorted_by-sort_by [] = refl
  is_sorted_by-sort_by (x ∷ xs) =
      is_sorted_by-insert_by x (sort_by less xs) (is_sorted_by-sort_by xs)

contains-no_overlap :
    (left right : List Bytes) (x : Bytes)
    → has_overlap left right ≡ false
    → (contains right x && contains left x) ≡ false
unfolding has_overlap contains
contains-no_overlap left [] x h = refl
contains-no_overlap left (y ∷ ys) x h = elim (Bool-cases (bytes_eq x y)) [
  | inl e ↦
      let absent : contains left x ≡ false =
        subst (λ z. contains left z ≡ false) (sym ((bytes_eq_iff x y).0 e)) (ground arith) in
      ground arith
  | inr n ↦ ground (arith, contains-no_overlap left ys x)
]

new_scope_request-eq :
    (required optional : List Bytes) (r : ScopeRequest)
    → new_scope_request required optional ≡ ok r
    → (sort_by code_point_less required ≡ r.required)
      × (sort_by code_point_less optional ≡ r.optional)
      × (has_overlap optional required ≡ false)
unfolding new_scope_request
new_scope_request-eq required optional r h = ground arith

-- An accepted scope request holds the required and the optional scopes that were asked for, and no
-- scope is both.
pub new_scope_request_sound :
    (required optional : List Bytes) (r : ScopeRequest) (x : Bytes)
    → new_scope_request required optional ≡ ok r
    → (contains r.required x ≡ contains required x)
      × (contains r.optional x ≡ contains optional x)
      × ((contains r.required x && contains r.optional x) ≡ false)
new_scope_request_sound required optional r x h =
    let (made, made', apart) = new_scope_request-eq required optional r h in
    let first : contains r.required x ≡ contains required x =
      subst (λ l. contains l x ≡ contains required x) made
        (contains-sort_by code_point_less required x) in
    let second : contains r.optional x ≡ contains optional x =
      subst (λ l. contains l x ≡ contains optional x) made'
        (contains-sort_by code_point_less optional x) in
    (first, second, rw (first, second) (contains-no_overlap optional required x apart))
