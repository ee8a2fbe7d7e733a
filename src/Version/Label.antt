-- ===== src/Version/Label.antt =====
-- internal/version/domain/version_label.go.
use iwut_app_center.Prelude.{
  ℕ, ltb, ◌==◌, Bool, not, ◌||◌, any, get_or, length, List, [], ◌∷◌, Bytes, Result, ok, ◌>>◌,
  reject, is_ok,
}
use iwut_app_center.Shared.Utf8.{valid_string, runes, is_control, is_space}
use iwut_app_center.Version.{Error, invalid_version_label}

abbrev pub last_rune : List ℕ → ℕ → ℕ
last_rune [] d = d
last_rune (x ∷ xs) d = last_rune xs x

unfoldable pub new_version_label : Bytes → Result Error Bytes
new_version_label value = do
  reject (not (valid_string value)) invalid_version_label
  let rs = runes value
  reject (length rs == 0 || ltb 50 (length rs)) invalid_version_label
  reject (is_space (get_or rs 0 0) || is_space (last_rune rs 0)) invalid_version_label
  reject (any is_control rs) invalid_version_label
  ok value

unfoldable pub label_is_valid : Bytes → Bool
unfolding new_version_label
label_is_valid label = is_ok (new_version_label label)
