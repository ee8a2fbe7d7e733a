-- ===== src/Catalog/Sorted.antt =====
-- internal/adapter/mongo/public_catalog_repository.go (ListPublic): publications in the order of their
-- applications, which is the order of the pages.
use iwut_app_center.Prelude.{
  ℕ, zero, suc, ◌==◌, true, false, List, [], ◌∷◌, ◌++◌, Bytes, bytes_lt, bytes_lt_irrefl,
  bytes_lt_asymm, is_empty, length, take, drop, ◌≡◌, refl, ap, arith,
}
use iwut_app_center.Shared.Uuid.{is_uuid_v7}
use iwut_app_center.Catalog.Pages.{Entry, in_order, in_order_after}
use iwut_app_center.Catalog.Scanned.{eligible, AllAnswered, last_of}

pub valid-is_empty : (id : Bytes) → is_uuid_v7 id ≡ true → is_empty id ≡ false
unfolding is_uuid_v7
valid-is_empty [] h = ground arith
valid-is_empty (c ∷ cs) h = refl

module _ {A : Type 0} where
  abbrev pub AllAbove : Bytes → List (Entry A) → Type 0
  AllAbove k [] = Unit
  AllAbove k (e ∷ es) = (bytes_lt k e.application_id ≡ true) × AllAbove k es

  abbrev pub NoneAbove : Bytes → List (Entry A) → Type 0
  NoneAbove k [] = Unit
  NoneAbove k (e ∷ es) = (bytes_lt k e.application_id ≡ false) × NoneAbove k es

  -- The publications are sorted by application, of which each has one.
  abbrev pub IsIncreasing : List (Entry A) → Type 0
  IsIncreasing [] = Unit
  IsIncreasing (e ∷ es) = AllAbove e.application_id es × IsIncreasing es

  abbrev pub AllValid : List (Entry A) → Type 0
  AllValid [] = Unit
  AllValid (e ∷ es) = (is_uuid_v7 e.application_id ≡ true) × AllValid es

  pub AllAbove-right : (k : Bytes) (xs ys : List (Entry A)) → AllAbove k (xs ++ ys) → AllAbove k ys
  AllAbove-right k [] ys h = h
  AllAbove-right k (x ∷ xs) ys h = AllAbove-right k xs ys h.1

  pub AllAbove-left : (k : Bytes) (xs ys : List (Entry A)) → AllAbove k (xs ++ ys) → AllAbove k xs
  AllAbove-left k [] ys h = tt
  AllAbove-left k (x ∷ xs) ys h = (h.0, AllAbove-left k xs ys h.1)

  pub IsIncreasing-right : (xs ys : List (Entry A)) → IsIncreasing (xs ++ ys) → IsIncreasing ys
  IsIncreasing-right [] ys h = h
  IsIncreasing-right (x ∷ xs) ys h = IsIncreasing-right xs ys h.1

  pub IsIncreasing-left : (xs ys : List (Entry A)) → IsIncreasing (xs ++ ys) → IsIncreasing xs
  IsIncreasing-left [] ys h = tt
  IsIncreasing-left (x ∷ xs) ys h =
      (AllAbove-left x.application_id xs ys h.0, IsIncreasing-left xs ys h.1)

  pub AllValid-right : (xs ys : List (Entry A)) → AllValid (xs ++ ys) → AllValid ys
  AllValid-right [] ys h = h
  AllValid-right (x ∷ xs) ys h = AllValid-right xs ys h.1

  pub AllValid-left : (xs ys : List (Entry A)) → AllValid (xs ++ ys) → AllValid xs
  AllValid-left [] ys h = tt
  AllValid-left (x ∷ xs) ys h = (h.0, AllValid-left xs ys h.1)

  pub AllAnswered-left : (xs ys : List (Entry A)) → AllAnswered (xs ++ ys) → AllAnswered xs
  AllAnswered-left [] ys h = tt
  AllAnswered-left (x ∷ xs) ys h = (h.0, AllAnswered-left xs ys h.1)

  pub AllAnswered-right : (xs ys : List (Entry A)) → AllAnswered (xs ++ ys) → AllAnswered ys
  AllAnswered-right [] ys h = h
  AllAnswered-right (x ∷ xs) ys h = AllAnswered-right xs ys h.1

  -- Past the last of the first publications stand the others.
  pub AllAbove-last_of :
      (x : Entry A) (xs ys : List (Entry A))
      → IsIncreasing (x ∷ xs ++ ys)
      → AllAbove (last_of x.application_id xs) ys
  unfolding last_of
  AllAbove-last_of x [] ys h = h.0
  AllAbove-last_of x (y ∷ xs) ys h = AllAbove-last_of y xs ys h.1

  pub above-last_of :
      (k : Bytes) (x : Entry A) (xs : List (Entry A))
      → AllAbove k (x ∷ xs)
      → bytes_lt k (last_of x.application_id xs) ≡ true
  unfolding last_of
  above-last_of k x [] h = h.0
  above-last_of k x (y ∷ xs) h = above-last_of k y xs h.1

  pub NoneAbove-last_of :
      (x : Entry A) (xs : List (Entry A))
      → IsIncreasing (x ∷ xs)
      → NoneAbove (last_of x.application_id xs) (x ∷ xs)
  unfolding last_of
  NoneAbove-last_of x [] h = (bytes_lt_irrefl x.application_id, tt)
  NoneAbove-last_of x (y ∷ xs) h = (
    bytes_lt_asymm x.application_id (last_of y.application_id xs)
        (above-last_of x.application_id y xs h.0),
    NoneAbove-last_of y xs h.1,
  )

  pub last_of-append :
      (d : Bytes) (xs : List (Entry A)) (y : Entry A) (ys : List (Entry A))
      → last_of d (xs ++ y ∷ ys) ≡ last_of y.application_id ys
  unfolding last_of
  last_of-append d [] y ys = refl
  last_of-append d (x ∷ xs) y ys = last_of-append x.application_id xs y ys

  pub valid-last_of :
      (x : Entry A) (xs : List (Entry A))
      → AllValid (x ∷ xs)
      → is_uuid_v7 (last_of x.application_id xs) ≡ true
  unfolding last_of
  valid-last_of x [] h = h.0
  valid-last_of x (y ∷ xs) h = valid-last_of y xs h.1

  pub take-drop : (n : ℕ) (xs : List (Entry A)) → take n xs ++ drop n xs ≡ xs
  take-drop zero xs = refl
  take-drop (suc n) [] = refl
  take-drop (suc n) (x ∷ xs) = ap (λ l. x ∷ l) (take-drop n xs)

  pub drop_short :
      (n : ℕ) (xs : List (Entry A)) → (length (take n xs) == n) ≡ false → drop n xs ≡ []
  drop_short zero xs h = ground arith
  drop_short (suc n) [] h = refl
  drop_short (suc n) (x ∷ xs) h = drop_short n xs (ground arith)

  -- The items of sorted publications are in the order that a page wants.
  pub in_order_after-eligible :
      (k : Bytes) (es : List (Entry A))
      → AllAbove k es
      → IsIncreasing es
      → in_order_after k (eligible es) ≡ true
  unfolding in_order_after eligible
  in_order_after-eligible k [] a h = refl
  in_order_after-eligible k (e ∷ es) a h =
      ground (arith, in_order_after-eligible k es, in_order_after-eligible e.application_id es)

  pub in_order-eligible : (es : List (Entry A)) → IsIncreasing es → in_order (eligible es) ≡ true
  unfolding in_order in_order_after eligible
  in_order-eligible [] h = refl
  in_order-eligible (e ∷ es) h =
      ground (arith, in_order-eligible es, in_order_after-eligible e.application_id es)
