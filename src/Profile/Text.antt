-- ===== src/Profile/Text.antt =====
-- internal/profile/domain/profile_text.go: texts in the canonical composition of Unicode. The tables of
-- Unicode are a parameter; the algorithm that reads them is the code's.
use iwut_app_center.Prelude.{
  ℕ, ◌+◌, ◌/◌, ◌%◌, ltb, leb, ◌==◌, zero, suc, Bool, not, ◌&&◌, ◌||◌, any, Option, none, some, List,
  [], ◌∷◌, ◌++◌, Bytes, bytes_eq, length, get_or, Result, ok, err, if◌then◌else◌,
}
use iwut_app_center.Shared.Utf8.{valid_string, runes, is_control, is_space}
use iwut_app_center.Version.Label.{last_rune}
use iwut_app_center.Profile.{Error, invalid_display_name, invalid_description, invalid_icon}

-- The canonical decomposition of one code point, combining classes, the composition of two code points,
-- and the category of format characters (unicode.Cf).
pub record Unicode : Type 0 where
  pub decompose : ℕ → List ℕ
  pub combining_class : ℕ → ℕ
  pub compose : ℕ → ℕ → List ℕ
  pub is_format : ℕ → Bool

pub record Character : Type 0 where
  pub rune : ℕ
  pub class : ℕ

-- A non-starter before the greater ones of the run that follows it, and before those that are equal.
unfoldable pub place : Character → List Character → List Character
place c [] = c ∷ []
place c (d ∷ ds) =
    let rest = place c ds in
    if not (d.class == 0) && ltb d.class c.class then d ∷ rest else c ∷ d ∷ ds

-- The stable order within each run of non-starters.
unfoldable pub order : List Character → List Character
unfolding place
order [] = []
order (c ∷ cs) = let rest = order cs in if c.class == 0 then c ∷ rest else place c rest

-- `result[i] = r`.
unfoldable pub set_at : List ℕ → ℕ → ℕ → List ℕ
set_at [] i r = []
set_at (x ∷ xs) zero r = r ∷ xs
set_at (x ∷ xs) (suc i) r = x ∷ set_at xs i r

-- string(r) of one code point: surrogates and what is too large become the replacement character.
abbrev encode_rune : ℕ → Bytes
encode_rune r =
    if ltb r 128
    then r ∷ []
    else if ltb r 2048
    then (192 + r / 64) ∷ (128 + r % 64) ∷ []
    else if (leb 55296 r && leb r 57343) || ltb 1114111 r
    then 239 ∷ 191 ∷ 189 ∷ []
    else if ltb r 65536
    then (224 + r / 4096) ∷ (128 + (r / 64) % 64) ∷ (128 + r % 64) ∷ []
    else (240 + r / 262144) ∷ (128 + (r / 4096) % 64) ∷ (128 + (r / 64) % 64) ∷ (128 + r % 64) ∷ []

unfoldable pub encode : List ℕ → Bytes
encode [] = []
encode (r ∷ rs) = encode_rune r ++ encode rs

-- A pair is composed where it has become one code point.
abbrev composed : List ℕ → Option ℕ
composed (p ∷ []) = some p
composed _ = none

abbrev text_or : Error → Option Bytes → Result Error Bytes
text_or e none = err e
text_or e (some text) = ok text

module _ (unicode : Unicode) where
  unfoldable pub characters : List ℕ → List Character
  characters [] = []
  characters (r ∷ rs) = one (unicode.decompose r) ++ characters rs
    where
      one : List ℕ → List Character
      one [] = []
      one (d ∷ ds) = record { rune = d; class = unicode.combining_class d } ∷ one ds

  abbrev pair_with : List ℕ → Option ℕ → ℕ → Character → Option ℕ
  pair_with result none last c = none
  pair_with result (some i) last c =
      if last == 0 || ltb last c.class
      then composed (unicode.compose (get_or result i 0) c.rune)
      else none

  -- The loop over the characters: the result so far, where its last starter stands, and the class of
  -- the character that was appended last.
  unfoldable pub compose_all : List ℕ → Option ℕ → ℕ → List Character → List ℕ
  unfolding set_at
  compose_all result starter last [] = result
  compose_all result none last (c ∷ cs) =
      compose_all (result ++ c.rune ∷ []) (if c.class == 0 then some (length result) else none)
        c.class cs
  compose_all result (some i) last (c ∷ cs) = elim (pair_with result (some i) last c) [
    | some p ↦ compose_all (set_at result i p) (some i) last cs
    | none ↦
        compose_all (result ++ c.rune ∷ []) (some (if c.class == 0 then length result else i))
          c.class cs
  ]

  unfoldable pub canonical_nfc : Bytes → Bytes
  unfolding characters order compose_all encode
  canonical_nfc value = encode (compose_all [] none 0 (order (characters (runes value))))

  -- unicode.Cc, Cf, Cs, Zl and Zp.
  abbrev is_forbidden : ℕ → Bool
  is_forbidden r =
      is_control r || unicode.is_format r || (leb 55296 r && leb r 57343) || r == 8232 || r == 8233

  unfoldable pub canonical_text : Bytes → ℕ → Bool
  unfolding canonical_nfc
  canonical_text value max =
      let rs = runes value in
      not (not (valid_string value) || not (bytes_eq (canonical_nfc value) value))
      && not (ltb (length rs) 1 || ltb max (length rs))
      && not (is_space (get_or rs 0 0) || is_space (last_rune rs 0))
      && not (any is_forbidden rs)

  -- The two results of normalizeText.
  unfoldable pub normalize_text : Bytes → ℕ → Option Bytes
  unfolding canonical_text
  normalize_text value max =
      if not (valid_string value)
      then none
      else if not (canonical_text (canonical_nfc value) max)
      then none
      else some (canonical_nfc value)

  unfoldable pub new_display_name : Bytes → Result Error Bytes
  unfolding normalize_text
  new_display_name value = text_or invalid_display_name (normalize_text value 80)

  unfoldable pub new_description : Bytes → Result Error Bytes
  unfolding normalize_text
  new_description value = text_or invalid_description (normalize_text value 1000)

  unfoldable pub new_icon : Bytes → Result Error Bytes
  unfolding normalize_text
  new_icon value = text_or invalid_icon (normalize_text value 512)
