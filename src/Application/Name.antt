-- ===== src/Application/Name.antt =====
-- internal/application/domain/application_name.go.
use iwut_app_center.Prelude.{
  ℕ, leb, ltb, ◌==◌, Bool, false, not, ◌&&◌, ◌||◌, all, Bytes, bytes_eq, length, Result, ok, err,
  ◌>>◌, reject,
}
use iwut_app_center.Shared.Uuid.{to_lower}
use iwut_app_center.Application.{Error, invalid_application_name}

abbrev pub maximum_name_length : ℕ
maximum_name_length = 50

pub record ApplicationName : Type 0 where
  pub value : Bytes
  pub key : Bytes

-- isASCIIAlphaNumeric, and the two marks.
abbrev pub is_name_char : ℕ → Bool
is_name_char c =
    (leb b'A' c && leb c b'Z')
    || (leb b'a' c && leb c b'z')
    || (leb b'0' c && leb c b'9')
    || c == b'-'
    || c == b'_'

unfoldable pub new_application_name : Bytes → Result Error ApplicationName
unfolding to_lower
new_application_name value = do
  reject (length value == 0 || ltb maximum_name_length (length value)) invalid_application_name
  reject (not (all is_name_char value)) invalid_application_name
  ok (record { value = value; key = to_lower value })

abbrev same_key : ApplicationName → Result Error ApplicationName → Bool
same_key name (err e) = false
same_key name (ok validated) = bytes_eq validated.key name.key

unfoldable pub name_is_valid : ApplicationName → Bool
unfolding new_application_name
name_is_valid name = same_key name (new_application_name name.value)
