-- ===== src/Prelude/Order.antt =====
-- Go's `<` on strings is a strict total order.
use mathlib.Core.Path.{◌≡◌, refl}
use mathlib.Core.Bool.{true, false}
use mathlib.Core.List.{[], ◌∷◌}
use native.Mathlib.Omega.{arith}
use iwut_app_center.Prelude.Texts.{Bytes, bytes_eq, bytes_lt}

pub bytes_lt_irrefl : (xs : Bytes) → bytes_lt xs xs ≡ false
unfolding bytes_lt
bytes_lt_irrefl [] = refl
bytes_lt_irrefl (x ∷ xs) = ground (arith, bytes_lt_irrefl xs)

pub bytes_lt_asymm : (xs ys : Bytes) → bytes_lt xs ys ≡ true → bytes_lt ys xs ≡ false
unfolding bytes_lt
bytes_lt_asymm [] [] h = refl
bytes_lt_asymm [] (y ∷ ys) h = refl
bytes_lt_asymm (x ∷ xs) [] h = cc
bytes_lt_asymm (x ∷ xs) (y ∷ ys) h = ground (arith, bytes_lt_asymm xs ys)

pub bytes_lt_trichotomy :
    (xs ys : Bytes) → bytes_lt ys xs ≡ false → bytes_eq xs ys ≡ false → bytes_lt xs ys ≡ true
unfolding bytes_lt bytes_eq
bytes_lt_trichotomy [] [] h k = cc
bytes_lt_trichotomy [] (y ∷ ys) h k = refl
bytes_lt_trichotomy (x ∷ xs) [] h k = cc
bytes_lt_trichotomy (x ∷ xs) (y ∷ ys) h k = ground (arith, bytes_lt_trichotomy xs ys)

pub bytes_lt_trans :
    (xs ys zs : Bytes) → bytes_lt xs ys ≡ true → bytes_lt ys zs ≡ true → bytes_lt xs zs ≡ true
unfolding bytes_lt
bytes_lt_trans xs ys [] h k = ground arith
bytes_lt_trans xs [] (z ∷ zs) h k = ground arith
bytes_lt_trans [] (y ∷ ys) (z ∷ zs) h k = refl
bytes_lt_trans (x ∷ xs) (y ∷ ys) (z ∷ zs) h k = ground (arith, bytes_lt_trans xs ys zs)
