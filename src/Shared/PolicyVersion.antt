-- ===== src/Shared/PolicyVersion.antt =====
-- policyVersionPattern, `^[A-Za-z0-9._-]{1,50}$`, of internal/publication/domain/publication.go and
-- internal/review/domain/application_review.go. Its class is ASCII, so bytes serve for code points.
use iwut_app_center.Prelude.{ℕ, ◌==◌, leb, Bool, ◌&&◌, ◌||◌, Bytes, length, all}

abbrev pub is_policy_char : ℕ → Bool
is_policy_char c =
    leb b'A' c && leb c b'Z'
    || leb b'a' c && leb c b'z'
    || leb b'0' c && leb c b'9'
    || c == b'.'
    || c == b'_'
    || c == b'-'

unfoldable pub policy_version_matches : Bytes → Bool
policy_version_matches v = leb 1 (length v) && leb (length v) 50 && all is_policy_char v
