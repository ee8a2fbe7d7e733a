-- ===== src/Catalog/Follow.antt =====
-- internal/adapter/mongo/public_catalog_repository.go (ListPublic, encodeCatalogCursor,
-- decodeCatalogCursor): a client that follows the tokens over one state of the store.
use iwut_app_center.Prelude.{
  ℕ, zero, suc, ◌<◌, ◌==◌, ℤ, true, false, Bool-cases, inl, inr, Option, none, some, List, [], ◌∷◌,
  ◌++◌, Bytes, bytes_eq_refl, is_empty, length, length-append, take, drop, Result, ok, err, ◌≡◌,
  ◌⊎◌, refl, ap, ◌∙◌, sym, subst, arith,
}
use mathlib.Core.List.{append_assoc, append-nil}
use iwut_app_center.Shared.Uuid.{is_uuid_v7}
use iwut_app_center.Catalog.{Error}
use iwut_app_center.Catalog.Pages.{
  Entry, Item, Page, Cursor, Codec, scan_budget, encode_catalog_cursor, decode_catalog_cursor,
  entries_after, list_public,
}
use iwut_app_center.Catalog.Scanned.{eligible, eligible-append, AllAnswered, last_of}
use iwut_app_center.Catalog.Sorted.{
  IsIncreasing, AllValid, last_of-append, take-drop, drop_short, IsIncreasing-left,
  IsIncreasing-right, AllValid-left, AllValid-right, AllAnswered-left, AllAnswered-right,
}
use iwut_app_center.Catalog.Walk.{
  entries_after_start, entries_after-last_of, PageCut, Pages, page_of-PageCut,
}

-- What the code relies on JSON and base64 for: a text is read back as it was written, and is not empty.
pub record ReadsBack (codec : Codec) : Type 0 where
  pub reads_back : (c : Cursor) → codec.unmarshal (codec.marshal c) ≡ some c
  pub some_text : (c : Cursor) → is_empty (codec.marshal c) ≡ false

-- Each application has one publication, with a version of its own name, in the order of the index,
-- and catalogItem answers for each.
pub record Consistent {A : Type 0} (store : List (Entry A)) : Type 0 where
  pub sorted : IsIncreasing store
  pub valid : AllValid store
  pub fine : AllAnswered store

Consistent-right : {A : Type 0} → (xs ys : List (Entry A)) → Consistent (xs ++ ys) → Consistent ys
Consistent-right xs ys c = record {
  sorted = IsIncreasing-right xs ys c.sorted;
  valid = AllValid-right xs ys c.valid;
  fine = AllAnswered-right xs ys c.fine;
}

Consistent-left : {A : Type 0} → (xs ys : List (Entry A)) → Consistent (xs ++ ys) → Consistent xs
Consistent-left xs ys c = record {
  sorted = IsIncreasing-left xs ys c.sorted;
  valid = AllValid-left xs ys c.valid;
  fine = AllAnswered-left xs ys c.fine;
}

-- Past the last of the publications that stand before `zs` there are just those.
entries_after-middle :
    {A : Type 0}
    → (ws : List (Entry A)) (x : Entry A) (ys zs : List (Entry A))
    → Consistent ((ws ++ x ∷ ys) ++ zs)
    → entries_after (last_of x.application_id ys) ((ws ++ x ∷ ys) ++ zs) ≡ zs
entries_after-middle [] x ys zs c =
    entries_after-last_of x ys zs c.sorted (AllValid-left (x ∷ ys) zs c.valid)
entries_after-middle (w ∷ ws) x ys zs c =
    subst (λ k. entries_after k ((w ∷ ws ++ x ∷ ys) ++ zs) ≡ zs)
      (last_of-append w.application_id ws x ys)
      (entries_after-last_of w (ws ++ x ∷ ys) zs c.sorted
        (AllValid-left (w ∷ ws ++ x ∷ ys) zs c.valid))

module _ (codec : Codec) (major : ℤ) (host : List Bytes) where
  -- The token that is written for an application is not empty and is read as this application, by the
  -- same query, where the codec reads back what it wrote.
  pub encode_catalog_cursor-decode_catalog_cursor :
      (last token : Bytes)
      → ReadsBack codec
      → encode_catalog_cursor codec major host last ≡ ok token
      → (is_empty token ≡ false) × (decode_catalog_cursor codec major host token ≡ ok last)
  unfolding encode_catalog_cursor decode_catalog_cursor
  encode_catalog_cursor-decode_catalog_cursor last token h e = by_id (Bool-cases (is_uuid_v7 last))
    where
      print : Bytes
      print = codec.fingerprint major host

      cursor : Cursor
      cursor = record { version = 1; last = last; fingerprint = print }

      by_id :
          (is_uuid_v7 last ≡ true) ⊎ (is_uuid_v7 last ≡ false)
          → (is_empty token ≡ false) × (decode_catalog_cursor codec major host token ≡ ok last)
      by_id (inl v) =
          let text : codec.marshal cursor ≡ token = ground arith in
          rw (sym text) (
            h.some_text cursor,
            rw (h.some_text cursor, h.reads_back cursor, v, bytes_eq_refl print) refl,
          )
      by_id (inr v) = absurd (ground arith)

  -- The client asks for the first page, then for the page of each token, until there is none. Without
  -- fuel there is no answer.
  unfoldable pub follow_tokens :
      {A : Type 0} → ℕ → List (Entry A) → ℕ → Bytes → Option (Result Error (List (Item A)))
  follow_tokens zero store size token = none
  follow_tokens (suc fuel) store size token = elim (list_public codec major host store size token) [
    | err x ↦ some (err x)
    | ok page ↦ elim (is_empty page.next_page_token) [
      | true ↦ some (ok page.items)
      | false ↦ elim (follow_tokens fuel store size page.next_page_token) [
        | none ↦ none
        | some (err x) ↦ some (err x)
        | some (ok items) ↦ some (ok (page.items ++ items))
      ]
    ]
  ]

  list_public-PageCut :
      {A : Type 0}
      → (store : List (Entry A)) (size : ℕ) (token after : Bytes) (rest : List (Entry A))
      → decode_catalog_cursor codec major host token ≡ ok after
      → entries_after after store ≡ rest
      → Consistent rest
      → Pages codec major host
          (list_public codec major host store size token)
          (take scan_budget rest)
  unfolding list_public
  list_public-PageCut store size token after rest decoded found c =
      let w = take scan_budget rest in
      let front : Consistent w =
        Consistent-left w (drop scan_budget rest)
          (subst Consistent (sym (take-drop scan_budget rest)) c) in
      rw (decoded, found)
        (page_of-PageCut codec major host size after w front.fine front.valid front.sorted)

  follow_tokens-last :
      {A : Type 0}
      → (fuel : ℕ) (store : List (Entry A)) (size : ℕ) (token : Bytes) (page : Page A)
      → list_public codec major host store size token ≡ ok page
      → is_empty page.next_page_token ≡ true
      → follow_tokens (suc fuel) store size token ≡ some (ok page.items)
  unfolding follow_tokens
  follow_tokens-last fuel store size token page run e = ground arith

  follow_tokens-more :
      {A : Type 0}
      → (fuel : ℕ) (store : List (Entry A)) (size : ℕ) (token : Bytes) (page : Page A)
        (items : List (Item A))
      → list_public codec major host store size token ≡ ok page
      → is_empty page.next_page_token ≡ false
      → follow_tokens fuel store size page.next_page_token ≡ some (ok items)
      → follow_tokens (suc fuel) store size token ≡ some (ok (page.items ++ items))
  unfolding follow_tokens
  follow_tokens-more fuel store size token page items run e others = ground arith

  -- The rest is answered from a token on: where there is fuel for all of it.
  abbrev FollowsFrom : (A : Type 0) → ℕ → ℕ → Type 0
  FollowsFrom A fuel size =
      (before rest : List (Entry A)) (token after : Bytes)
      → Consistent (before ++ rest)
      → decode_catalog_cursor codec major host token ≡ ok after
      → entries_after after (before ++ rest) ≡ rest
      → length rest < fuel
      → follow_tokens fuel (before ++ rest) size token ≡ some (ok (eligible rest))

  follow_tokens-page :
      {A : Type 0}
      → (fuel : ℕ) (before rest : List (Entry A)) (size : ℕ) (token : Bytes) (page : Page A)
      → ReadsBack codec
      → Consistent (before ++ rest)
      → list_public codec major host (before ++ rest) size token ≡ ok page
      → (cut : PageCut codec major host (take scan_budget rest) page) → FollowsFrom A fuel size
      → ((is_empty page.next_page_token ≡ true)
          × (cut.todo ≡ [])
          × ((length (take scan_budget rest) == scan_budget) ≡ false))
        ⊎ ((x : Entry A) × (xs : List (Entry A)) × (cut.done ≡ x ∷ xs)
            × (encode_catalog_cursor codec major host (last_of x.application_id xs)
                ≡ ok page.next_page_token))
      → length rest < suc fuel
      → follow_tokens (suc fuel) (before ++ rest) size token ≡ some (ok (eligible rest))
  follow_tokens-page fuel before rest size token page h c run cut ih
        (inl (last_page, no_more, short)) enough =
      let whole : cut.done ≡ rest =
        sym (append-nil cut.done)
        ∙ ap (λ l. cut.done ++ l) (sym no_more)
        ∙ sym cut.split
        ∙ sym (append-nil (take scan_budget rest))
        ∙ ap (λ l. take scan_budget rest ++ l) (sym (drop_short scan_budget rest short))
        ∙ take-drop scan_budget rest in
      follow_tokens-last fuel (before ++ rest) size token page run last_page
      ∙ ap (λ l. some (ok l)) (cut.kept ∙ ap eligible whole)
  follow_tokens-page fuel before rest size token page h c run cut ih (inr (x, xs, done, encoded))
        enough =
      let back = drop scan_budget rest in
      let todo = cut.todo ++ back in
      let split : rest ≡ (x ∷ xs) ++ todo =
        sym (take-drop scan_budget rest)
        ∙ ap (λ l. l ++ back) (cut.split ∙ ap (λ l. l ++ cut.todo) done)
        ∙ append_assoc (x ∷ xs) cut.todo back in
      let whole : before ++ rest ≡ (before ++ x ∷ xs) ++ todo =
        ap (λ l. before ++ l) split ∙ sym (append_assoc before (x ∷ xs) todo) in
      let c' : Consistent ((before ++ x ∷ xs) ++ todo) = subst Consistent whole c in
      let (some_token, decoded') =
        encode_catalog_cursor-decode_catalog_cursor (last_of x.application_id xs)
          page.next_page_token h encoded in
      let shorter : length todo < fuel =
        let lengths = ap length split ∙ length-append (x ∷ xs) todo in ground arith in
      let others =
        ih (before ++ x ∷ xs) todo page.next_page_token (last_of x.application_id xs) c' decoded'
          (entries_after-middle before x xs todo c') shorter in
      follow_tokens-more fuel (before ++ rest) size token page (eligible todo) run some_token (
        subst (λ l. follow_tokens fuel l size page.next_page_token ≡ some (ok (eligible todo)))
          (sym whole) others)
      ∙ ap (λ l. some (ok l))
          (ap (λ l. l ++ eligible todo) (cut.kept ∙ ap eligible done)
            ∙ sym (eligible-append (x ∷ xs) todo)
            ∙ ap eligible (sym split))

  follow_tokens-rest : (A : Type 0) (fuel size : ℕ) → ReadsBack codec → FollowsFrom A fuel size
  follow_tokens-rest A zero size h before rest token after c decoded found enough =
      absurd (ground arith)
  follow_tokens-rest A (suc fuel) size h before rest token after c decoded found enough =
      let (page, run, cut) =
        list_public-PageCut (before ++ rest) size token after rest decoded found
          (Consistent-right before rest c) in
      follow_tokens-page fuel before rest size token page h c run cut
        (follow_tokens-rest A fuel size h) cut.next enough

-- Following the tokens from the first page ends, and answers every shown application of the store,
-- each once and in order, however large the pages are asked for: for a consistent store, a codec that
-- reads back what it wrote, and fuel above the number of publications.
pub follow_tokens-eligible :
    {A : Type 0}
    → (codec : Codec) (major : ℤ) (host : List Bytes) (fuel : ℕ) (store : List (Entry A)) (size : ℕ)
    → ReadsBack codec
    → Consistent store
    → length store < fuel
    → follow_tokens codec major host fuel store size [] ≡ some (ok (eligible store))
unfolding decode_catalog_cursor
follow_tokens-eligible codec major host fuel store size h c enough =
    follow_tokens-rest codec major host _ fuel size h [] store [] [] c refl
      (entries_after_start store) enough
