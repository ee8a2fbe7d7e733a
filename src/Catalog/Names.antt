-- ===== src/Catalog/Names.antt =====
-- internal/catalog/domain/launch.go (capabilityNamePattern): the pattern, and the test that the
-- version domain makes of the same names.
use iwut_app_center.Prelude.{
  ℕ, leb, ◌==◌, Bool, true, false, Bool-cases, inl, inr, ◌&&◌, ◌||◌, all, List, [], ◌∷◌, Bytes,
  if◌then◌else◌, ◌≡◌, refl, ◌∙◌, arith,
}
use iwut_app_center.Version.Names.{
  split_dots, is_name_part, is_version_part, parts_are_valid, is_capability_name,
}

-- The states of the pattern's automaton: nothing read, inside a part, after a dot, after a part "v",
-- and after a part that reads as a version.
pub data Reading : Type 0 where
  at_start in_part after_dot after_v in_version : Reading

abbrev is_letter : ℕ → Bool
is_letter c = leb b'a' c && leb c b'z'

abbrev is_digit : ℕ → Bool
is_digit c = leb b'0' c && leb c b'9'

abbrev is_part_char : ℕ → Bool
is_part_char c = is_letter c || is_digit c

-- `^[a-z][a-z0-9]*(\.[a-z][a-z0-9]*)*\.v[1-9][0-9]*$` from a state on.
unfoldable pub reads : Reading → Bytes → Bool
reads in_version [] = true
reads _ [] = false
reads at_start (c ∷ cs) = is_letter c && reads in_part cs
reads after_dot (c ∷ cs) =
    let v = reads after_v cs in
    let part = reads in_part cs in if c == b'v' then v else is_letter c && part
reads in_part (c ∷ cs) =
    let dot = reads after_dot cs in
    let part = reads in_part cs in if c == b'.' then dot else is_part_char c && part
reads after_v (c ∷ cs) =
    let dot = reads after_dot cs in
    let version = reads in_version cs in
    let part = reads in_part cs in
    if c == b'.' then dot else if leb b'1' c && leb c b'9' then version else is_part_char c && part
reads in_version (c ∷ cs) =
    let dot = reads after_dot cs in
    let version = reads in_version cs in
    let part = reads in_part cs in
    if c == b'.' then dot else if is_digit c then version else is_letter c && part

unfoldable pub matches_capability_name : Bytes → Bool
unfolding reads
matches_capability_name value = reads at_start value

-- What a state still asks of the part that it is in and of the parts that follow.
asks : Reading → Bytes → List Bytes → Bool
unfolding parts_are_valid is_name_part
asks at_start part [] = false
asks at_start part (next ∷ parts) = is_name_part part && parts_are_valid (next ∷ parts)
asks after_dot part parts = parts_are_valid (part ∷ parts)
asks in_part part [] = false
asks in_part part (next ∷ parts) = all is_part_char part && parts_are_valid (next ∷ parts)
asks after_v part (next ∷ parts) = all is_part_char part && parts_are_valid (next ∷ parts)
asks after_v [] [] = false
asks after_v (d ∷ ds) [] = leb b'1' d && leb d b'9' && all is_digit ds
asks in_version part (next ∷ parts) = all is_part_char part && parts_are_valid (next ∷ parts)
asks in_version part [] = all is_digit part

split_dots-cons :
    (value : Bytes) → (part : Bytes) × (parts : List Bytes) × (split_dots value ≡ part ∷ parts)
unfolding split_dots
split_dots-cons [] = ([], [], refl)
split_dots-cons (c ∷ cs) =
    let (part, parts, e) = split_dots-cons cs in
    elim (Bool-cases (c == b'.')) [
      | inl dot ↦ ([], part ∷ parts, ground (arith, e))
      | inr other ↦ (c ∷ part, parts, ground (arith, e))
    ]

-- One byte: what the states ask after it is what they asked before it.
reads-step :
    (q : Reading) (c : ℕ) (cs part : Bytes) (parts : List Bytes)
    → ((x : Reading) → reads x cs ≡ asks x part parts)
    → reads q (c ∷ cs) ≡ (if c == b'.' then asks q [] (part ∷ parts) else asks q (c ∷ part) parts)
unfolding reads asks parts_are_valid is_name_part is_version_part
reads-step at_start c cs part [] ih = ground (arith, ih in_part)
reads-step at_start c cs part (x ∷ xs) ih = ground (arith, ih in_part)
reads-step in_part c cs part [] ih = ground (arith, ih in_part, ih after_dot)
reads-step in_part c cs part (x ∷ xs) ih = ground (arith, ih in_part, ih after_dot)
reads-step after_dot c cs [] [] ih = ground (arith, ih in_part, ih after_v)
reads-step after_dot c cs (d ∷ ds) [] ih = ground (arith, ih in_part, ih after_v)
reads-step after_dot c cs part (x ∷ xs) ih = ground (arith, ih in_part, ih after_v)
reads-step after_v c cs part [] ih = ground (arith, ih in_part, ih after_dot, ih in_version)
reads-step after_v c cs part (x ∷ xs) ih = ground (arith, ih in_part, ih after_dot, ih in_version)
reads-step in_version c cs part [] ih = ground (arith, ih in_part, ih after_dot, ih in_version)
reads-step in_version c cs part (x ∷ xs) ih =
    ground (arith, ih in_part, ih after_dot, ih in_version)

asks-split_dots :
    (q : Reading) (c : ℕ) (cs part first : Bytes) (parts rest : List Bytes)
    → split_dots cs ≡ part ∷ parts
    → split_dots (c ∷ cs) ≡ first ∷ rest
    → (if c == b'.' then asks q [] (part ∷ parts) else asks q (c ∷ part) parts) ≡ asks q first rest
unfolding split_dots
asks-split_dots q c cs part first parts rest d e = ground arith

reads-eq-asks :
    (q : Reading) (value part : Bytes) (parts : List Bytes)
    → split_dots value ≡ part ∷ parts
    → reads q value ≡ asks q part parts
unfolding reads asks split_dots parts_are_valid is_name_part is_version_part
reads-eq-asks at_start [] part parts e = ground arith
reads-eq-asks in_part [] part parts e = ground arith
reads-eq-asks after_dot [] part parts e = ground arith
reads-eq-asks after_v [] part parts e = ground arith
reads-eq-asks in_version [] part parts e = ground arith
reads-eq-asks q (c ∷ cs) part parts e =
    let (first, rest, d) = split_dots-cons cs in
    reads-step q c cs first rest (λ x. reads-eq-asks x cs first rest d)
    ∙ asks-split_dots q c cs first part rest parts d e

-- The pattern of the catalog and the test by parts of the version domain accept the same names.
pub matches_capability_name-eq :
    (value : Bytes) → matches_capability_name value ≡ is_capability_name value
unfolding matches_capability_name is_capability_name asks parts_are_valid
matches_capability_name-eq value =
    let (part, parts, e) = split_dots-cons value in
    let read = reads-eq-asks at_start value part parts e in by_parts part parts e read
  where
    by_parts :
        (part : Bytes) (parts : List Bytes)
        → split_dots value ≡ part ∷ parts
        → reads at_start value ≡ asks at_start part parts
        → matches_capability_name value ≡ is_capability_name value
    by_parts part [] e read = ground (arith, e)
    by_parts part (x ∷ xs) e read = ground (arith, e)
