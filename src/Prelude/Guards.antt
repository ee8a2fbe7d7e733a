-- ===== src/Prelude/Guards.antt =====
-- Guards that were passed: what a result that is no error says of them.
use mathlib.Core.Path.{◌≡◌, refl}
use mathlib.Core.Bool.{Bool, true, false, not, ◌||◌}
use native.Mathlib.Omega.{arith}
use iwut_app_center.Prelude.Results.{Result, ok, err, ◌>>◌, reject}

pub reject-ok :
    {E A : Type 0}
    → (b : Bool) (e : E) (x y : A) → (reject b e >> ok x) ≡ ok y
    → (b ≡ false) × (x ≡ y)
reject-ok true e x y h = absurd (ground arith)
reject-ok false e x y h = (refl, ground arith)

-- The first guard of several.
pub reject-passed :
    {E A : Type 0}
    → (b : Bool) (e : E) (rest : Result E A) (y : A) → (reject b e >> rest) ≡ ok y
    → (b ≡ false) × (rest ≡ ok y)
reject-passed true e rest y h = absurd (ground arith)
reject-passed false e rest y h = (refl, h)

pub or_false : (a b : Bool) → (a || b) ≡ false → (a ≡ false) × (b ≡ false)
or_false true b h = absurd (ground arith)
or_false false b h = (refl, h)

pub not-false : (b : Bool) → not b ≡ false → b ≡ true
not-false true h = refl
not-false false h = absurd (ground arith)

-- A check that was passed, and what comes after it.
pub check-passed :
    {E A : Type 0}
    → (m : Result E (Unit {0})) (rest : Result E A) (y : A) → (m >> rest) ≡ ok y
    → (m ≡ ok tt) × (rest ≡ ok y)
check-passed (err e) rest y h = absurd (ground arith)
check-passed (ok tt) rest y h = (refl, h)

-- A last guard.
pub reject-end : {E : Type 0} → (b : Bool) (e : E) → reject b e ≡ ok tt → b ≡ false
reject-end true e h = absurd (ground arith)
reject-end false e h = refl
