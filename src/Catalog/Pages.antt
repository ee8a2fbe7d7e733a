-- ===== src/Catalog/Pages.antt =====
-- internal/adapter/mongo/public_catalog_repository.go (ListPublic): one page of the public catalog.
-- catalogItem is read as what it answers for each publication of the snapshot, whatever that is.
use iwut_app_center.Prelude.{
  ℕ, ◌+◌, ltb, leb, ◌==◌, ℤ, Bool, true, false, not, ◌&&◌, ◌||◌, Option, none, some, List, [], ◌∷◌,
  ◌++◌, Bytes, bytes_eq, bytes_lt, is_empty, length, take, Result, ok, err, ◌>>=◌, ◌>>◌, reject,
  if◌then◌else◌,
}
use iwut_app_center.Shared.Uuid.{is_uuid_v7}
use iwut_app_center.Catalog.{Error, invalid_page_token, application_catalog_state_inconsistent}

abbrev pub scan_budget : ℕ
scan_budget = 500

abbrev pub response_budget : ℕ
response_budget = 3145728

abbrev pub is_nil {ℓ} : {A : Type ℓ} → List A → Bool
is_nil [] = true
is_nil (x ∷ xs) = false

-- A publication with a stable version, and what catalogItem answers: an error, an application that is
-- not shown, or its item with a size in bytes.
pub record Entry (A : Type 0) : Type 0 where
  pub application_id : Bytes
  pub answer : Result Error (Option (A × ℕ))

-- An item and its application.
abbrev pub Item : Type 0 → Type 0
Item A = Bytes × A

pub record Scan (A : Type 0) : Type 0 where
  pub items : List (Item A)
  pub last_scanned : Bytes
  pub stopped : Bool

-- The loop over the publications: the items so far, their size, the last publication that was
-- scanned; `full` says whether the query found as many as it may.
unfoldable pub scan :
    {A : Type 0} → ℕ → Bool → List (Item A) → ℕ → Bytes → List (Entry A) → Result Error (Scan A)
scan size full items bytes last [] =
    ok (record { items = items; last_scanned = last; stopped = false })
scan size full items bytes last (e ∷ es) = elim e.answer [
  | err x ↦ err x
  | ok none ↦ scan size full items bytes e.application_id es
  | ok (some (a, n)) ↦
      elim (not (is_nil items) && (leb size (length items) || ltb response_budget (bytes + n))) [
        | true ↦ ok (record { items = items; last_scanned = last; stopped = true })
        | false ↦
            let items' = items ++ (e.application_id, a) ∷ [] in
            elim (leb size (length items')) [
              | true ↦ ok (record {
                items = items';
                last_scanned = e.application_id;
                stopped = not (is_nil es) || full;
              })
              | false ↦ scan size full items' (bytes + n) e.application_id es
            ]
      ]
]

-- NewPublicApplicationCatalogPage: the loop, after the item before.
unfoldable pub in_order_after : {A : Type 0} → Bytes → List (Item A) → Bool
in_order_after previous [] = true
in_order_after previous (i ∷ is) = bytes_lt previous i.0 && in_order_after i.0 is

unfoldable pub in_order : {A : Type 0} → List (Item A) → Bool
unfolding in_order_after
in_order [] = true
in_order (i ∷ is) = in_order_after i.0 is

pub record Page (A : Type 0) : Type 0 where
  pub items : List (Item A)
  pub next_page_token : Bytes

unfoldable pub new_page : {A : Type 0} → List (Item A) → Bytes → Result Error (Page A)
unfolding in_order
new_page items token = do
  reject (not (in_order items)) application_catalog_state_inconsistent
  ok (record { items = items; next_page_token = token })

pub record Cursor : Type 0 where
  pub version : ℕ
  pub last : Bytes
  pub fingerprint : Bytes

-- JSON in base64, and SHA-256 over the query.
pub record Codec : Type 0 where
  pub marshal : Cursor → Bytes
  pub unmarshal : Bytes → Option Cursor
  pub fingerprint : ℤ → List Bytes → Bytes

-- The publications past `after`: the query sorts them by application.
unfoldable pub entries_after : {A : Type 0} → Bytes → List (Entry A) → List (Entry A)
entries_after after [] = []
entries_after after (e ∷ es) =
    let rest = entries_after after es in
    if is_empty after || bytes_lt after e.application_id then e ∷ rest else rest

module _ (codec : Codec) (major : ℤ) (host : List Bytes) where
  unfoldable pub encode_catalog_cursor : Bytes → Result Error Bytes
  encode_catalog_cursor last = do
    reject (not (is_uuid_v7 last)) application_catalog_state_inconsistent
    ok (
        codec.marshal
          (record { version = 1; last = last; fingerprint = codec.fingerprint major host }))

  -- No token stands for the beginning.
  unfoldable pub decode_catalog_cursor : Bytes → Result Error Bytes
  decode_catalog_cursor token = if is_empty token then ok [] else elim (codec.unmarshal token) [
    | none ↦ err invalid_page_token
    | some cursor ↦ do
      reject
          (not (cursor.version == 1)
            || not (is_uuid_v7 cursor.last)
            || not (bytes_eq cursor.fingerprint (codec.fingerprint major host)))
          invalid_page_token
      ok cursor.last
  ]

  unfoldable pub token_of : Bool → Bytes → Result Error Bytes
  unfolding encode_catalog_cursor
  token_of more last = if more then encode_catalog_cursor last else ok []

  unfoldable pub page_of : {A : Type 0} → ℕ → Bytes → List (Entry A) → Result Error (Page A)
  unfolding token_of scan new_page
  page_of size after publications = if is_nil publications then new_page [] [] else do
    s ← scan size (length publications == scan_budget) [] 0 after publications
    next ← token_of (s.stopped || length publications == scan_budget) s.last_scanned
    new_page s.items next

  unfoldable pub list_public : {A : Type 0} → List (Entry A) → ℕ → Bytes → Result Error (Page A)
  unfolding decode_catalog_cursor page_of entries_after
  list_public store size token = do
    after ← decode_catalog_cursor token
    page_of size after (take scan_budget (entries_after after store))
