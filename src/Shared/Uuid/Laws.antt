-- ===== src/Shared/Uuid/Laws.antt =====
-- internal/shared/application_id.go: lower case keeps a UUIDv7 valid, and is reached in one step.
use iwut_app_center.Prelude.{
  ℕ, zero, suc, ◌==◌, ◌≡◌, refl, ap, ap₂, true, ◌&&◌, ◌||◌, some, [], ◌∷◌, Bytes, length, get_or,
  arith,
}
use iwut_app_center.Shared.Uuid.{
  is_hex, is_dash_index, all_hex_from, is_variant, is_uuid_v7, lower, to_lower,
  parse_application_id,
}

lower_idem : (c : ℕ) → lower (lower c) ≡ lower c
unfolding lower
lower_idem c = ground arith

lower-is_hex : (c : ℕ) → is_hex (lower c) ≡ is_hex c
unfolding lower is_hex
lower-is_hex c = ground arith

lower-is_variant : (c : ℕ) → is_variant (lower c) ≡ is_variant c
unfolding lower
lower-is_variant c = ground arith

-- A byte that is no letter is its own lower case, and that of no other.
lower-dash : (c : ℕ) → (lower c == b'-') ≡ (c == b'-')
unfolding lower
lower-dash c = ground arith

lower-seven : (c : ℕ) → (lower c == b'7') ≡ (c == b'7')
unfolding lower
lower-seven c = ground arith

length-to_lower : (s : Bytes) → length (to_lower s) ≡ length s
unfolding to_lower
length-to_lower [] = refl
length-to_lower (c ∷ s) = ap suc (length-to_lower s)

get_or-to_lower : (s : Bytes) (i : ℕ) → get_or (to_lower s) i 0 ≡ lower (get_or s i 0)
unfolding to_lower
get_or-to_lower [] i = refl
get_or-to_lower (c ∷ s) zero = refl
get_or-to_lower (c ∷ s) (suc i) = get_or-to_lower s i

all_hex_from-to_lower : (i : ℕ) (s : Bytes) → all_hex_from i (to_lower s) ≡ all_hex_from i s
unfolding all_hex_from to_lower
all_hex_from-to_lower i [] = refl
all_hex_from-to_lower i (c ∷ s) =
    ap₂ (λ a b. (is_dash_index i || a) && b) (lower-is_hex c) (all_hex_from-to_lower (suc i) s)

pub is_uuid_v7-to_lower : (s : Bytes) → is_uuid_v7 (to_lower s) ≡ is_uuid_v7 s
unfolding is_uuid_v7
is_uuid_v7-to_lower s = simp (
  length-to_lower, get_or-to_lower, lower-dash, lower-seven, lower-is_variant,
  all_hex_from-to_lower,
)

pub to_lower_idem : (s : Bytes) → to_lower (to_lower s) ≡ to_lower s
unfolding to_lower
to_lower_idem [] = refl
to_lower_idem (c ∷ s) = ap₂ ◌∷◌ (lower_idem c) (to_lower_idem s)

-- An identity that the parser returns is valid, and the parser returns it as it is.
pub parse_application_id_canonical :
    (value : Bytes) {id : Bytes}
    → parse_application_id value ≡ some id
    → (is_uuid_v7 id ≡ true) × (parse_application_id id ≡ some id)
unfolding parse_application_id
parse_application_id_canonical value h =
    ground (arith, is_uuid_v7-to_lower value, to_lower_idem value)
