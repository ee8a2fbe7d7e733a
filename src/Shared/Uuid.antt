-- ===== src/Shared/Uuid.antt =====
-- internal/shared/application_id.go: the textual form of a UUIDv7.
pub mod Laws
use iwut_app_center.Prelude.{
  ℕ, suc, ◌+◌, ◌==◌, leb, Bool, true, false, not, ◌&&◌, ◌||◌, if◌then◌else◌, Option, none, some,
  List, [], ◌∷◌, map, Bytes, length, get_or,
}

unfoldable pub is_hex : ℕ → Bool
is_hex c = leb b'0' c && leb c b'9' || leb b'a' c && leb c b'f' || leb b'A' c && leb c b'F'

-- The four positions of the dashes.
abbrev pub is_dash_index : ℕ → Bool
is_dash_index i = i == 8 || i == 13 || i == 18 || i == 23

-- The loop of IsUUIDv7 over the bytes from `index` on.
all_hex_from : ℕ → Bytes → Bool
unfolding is_hex
all_hex_from index [] = true
all_hex_from index (c ∷ cs) = (is_dash_index index || is_hex c) && all_hex_from (suc index) cs

abbrev pub is_variant : ℕ → Bool
is_variant c = c == b'8' || c == b'9' || c == b'a' || c == b'A' || c == b'b' || c == b'B'

-- Byte `i`; it is read only where the text has 36 bytes.
abbrev pub byte_at : Bytes → ℕ → ℕ
byte_at value i = get_or value i 0

unfoldable pub is_uuid_v7 : Bytes → Bool
unfolding all_hex_from
is_uuid_v7 value =
    if not (length value == 36)
      || not (byte_at value 8 == b'-')
      || not (byte_at value 13 == b'-')
      || not (byte_at value 18 == b'-')
      || not (byte_at value 23 == b'-')
    then false
    else if not (all_hex_from 0 value)
    then false
    else if not (byte_at value 14 == b'7')
    then false
    else is_variant (byte_at value 19)

-- strings.ToLower, on the ASCII texts that the callers have checked.
unfoldable pub lower : ℕ → ℕ
lower c = if leb b'A' c && leb c b'Z' then c + 32 else c

unfoldable pub to_lower : Bytes → Bytes
unfolding lower
to_lower value = map lower value

unfoldable pub parse_application_id : Bytes → Option Bytes
parse_application_id value = if not (is_uuid_v7 value) then none else some (to_lower value)
