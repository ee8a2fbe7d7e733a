-- ===== src/Shared/Utf8.antt =====
-- Go's reading of a string as code points: `range` over a string, `[]rune(s)`, utf8.ValidString and
-- utf8.RuneCountInString. An ill-formed byte reads as U+FFFD and takes one byte.
use iwut_app_center.Prelude.{
  ℕ, zero, suc, ◌+◌, ◌-◌, ◌*◌, leb, ltb, ◌==◌, Bool, true, not, ◌&&◌, ◌||◌, List, [], ◌∷◌, Bytes,
  get_or, length, if◌then◌else◌,
}

abbrev pub rune_error : ℕ
rune_error = 0xfffd

abbrev is_within : ℕ → ℕ → ℕ → Bool
is_within lo hi c = leb lo c && leb c hi

-- The code point at the head of `b ∷ bs`, and how many bytes it takes.
unfoldable pub decode : ℕ → Bytes → ℕ × ℕ
decode b bs =
    let b1 = get_or bs 0 0 in
    let b2 = get_or bs 1 0 in
    let b3 = get_or bs 2 0 in
    let tail2 = is_within 0x80 0xbf b2 in
    let tail3 = tail2 && is_within 0x80 0xbf b3 in
    if ltb b 0x80
    then (b, 1)
    else if is_within 0xc2 0xdf b && is_within 0x80 0xbf b1
    then ((b - 0xc0) * 64 + (b1 - 0x80), 2)
    else if b == 0xe0 && is_within 0xa0 0xbf b1 && tail2
        || is_within 0xe1 0xec b && is_within 0x80 0xbf b1 && tail2
        || b == 0xed && is_within 0x80 0x9f b1 && tail2
        || is_within 0xee 0xef b && is_within 0x80 0xbf b1 && tail2
    then ((b - 0xe0) * 4096 + (b1 - 0x80) * 64 + (b2 - 0x80), 3)
    else if b == 0xf0 && is_within 0x90 0xbf b1 && tail3
        || is_within 0xf1 0xf3 b && is_within 0x80 0xbf b1 && tail3
        || b == 0xf4 && is_within 0x80 0x8f b1 && tail3
    then ((b - 0xf0) * 262144 + (b1 - 0x80) * 4096 + (b2 - 0x80) * 64 + (b3 - 0x80), 4)
    else (rune_error, 1)

-- The code points of what follows `skip` bytes, each with the index of its first byte.
unfoldable pub indexed_runes_from : ℕ → ℕ → Bytes → List (ℕ × ℕ)
indexed_runes_from index skip [] = []
indexed_runes_from index (suc skip) (b ∷ bs) = indexed_runes_from (suc index) skip bs
indexed_runes_from index zero (b ∷ bs) =
    (index, (decode b bs).0) ∷ indexed_runes_from (suc index) ((decode b bs).1 - 1) bs

unfoldable pub runes_from : ℕ → Bytes → List ℕ
runes_from skip [] = []
runes_from (suc skip) (b ∷ bs) = runes_from skip bs
runes_from zero (b ∷ bs) = (decode b bs).0 ∷ runes_from ((decode b bs).1 - 1) bs

-- `[]rune(s)`.
unfoldable pub runes : Bytes → List ℕ
unfolding runes_from decode
runes s = runes_from 0 s

-- utf8.RuneCountInString.
unfoldable pub rune_count : Bytes → ℕ
unfolding runes
rune_count s = length (runes s)

-- No byte of 0x80 or more stands alone.
valid_from : ℕ → Bytes → Bool
valid_from skip [] = true
valid_from (suc skip) (b ∷ bs) = valid_from skip bs
valid_from zero (b ∷ bs) =
    (ltb b 0x80 || not ((decode b bs).1 == 1)) && valid_from ((decode b bs).1 - 1) bs

-- utf8.ValidString.
unfoldable pub valid_string : Bytes → Bool
unfolding valid_from decode
valid_string s = valid_from 0 s

-- unicode.Cc: the control characters.
abbrev pub is_control : ℕ → Bool
is_control c = leb c 0x1f || leb 0x7f c && leb c 0x9f

-- unicode.IsSpace.
abbrev pub is_space : ℕ → Bool
is_space c =
    leb 0x9 c && leb c 0xd
    || c == 0x20
    || c == 0x85
    || c == 0xa0
    || c == 0x1680
    || leb 0x2000 c && leb c 0x200a
    || c == 0x2028
    || c == 0x2029
    || c == 0x202f
    || c == 0x205f
    || c == 0x3000
