-- ===== src/Catalog/Walk.antt =====
-- internal/adapter/mongo/public_catalog_repository.go (ListPublic): following the tokens from page to
-- page over one state of the store.
use iwut_app_center.Prelude.{
  ℕ, ◌==◌, ℤ, true, false, ◌||◌, Bool-cases, inl, inr, List, [], ◌∷◌, ◌++◌, Bytes, is_empty, length,
  Result, ok, ◌≡◌, ◌⊎◌, refl, ap, ◌∙◌, sym, subst, arith,
}
use iwut_app_center.Shared.Uuid.{is_uuid_v7}
use iwut_app_center.Catalog.{Error}
use iwut_app_center.Catalog.Pages.{
  Entry, Scan, in_order, Page, Codec, scan, scan_budget, is_nil, new_page, encode_catalog_cursor,
  entries_after, token_of, page_of,
}
use iwut_app_center.Catalog.Scanned.{eligible, AllAnswered, last_of, Cut, scan-Cut}
use iwut_app_center.Catalog.Sorted.{
  AllAbove, NoneAbove, IsIncreasing, AllValid, AllAbove-last_of, NoneAbove-last_of, valid-last_of,
  valid-is_empty, in_order-eligible, IsIncreasing-left, AllValid-left,
}

module _ {A : Type 0} where
  entries_after-all : (k : Bytes) (ys : List (Entry A)) → AllAbove k ys → entries_after k ys ≡ ys
  unfolding entries_after
  entries_after-all k [] h = refl
  entries_after-all k (y ∷ ys) h = ground (arith, entries_after-all k ys)

  entries_after-none :
      (k : Bytes) (xs ys : List (Entry A))
      → is_empty k ≡ false
      → NoneAbove k xs
      → entries_after k (xs ++ ys) ≡ entries_after k ys
  unfolding entries_after
  entries_after-none k [] ys e h = refl
  entries_after-none k (x ∷ xs) ys e h = ground (arith, entries_after-none k xs ys)

  pub entries_after_start : (ys : List (Entry A)) → entries_after [] ys ≡ ys
  unfolding entries_after
  entries_after_start [] = refl
  entries_after_start (y ∷ ys) = ap (λ l. y ∷ l) (entries_after_start ys)

  -- Past the last of the first publications stand the others.
  pub entries_after-last_of :
      (x : Entry A) (xs ys : List (Entry A))
      → IsIncreasing (x ∷ xs ++ ys)
      → AllValid (x ∷ xs)
      → entries_after (last_of x.application_id xs) (x ∷ xs ++ ys) ≡ ys
  entries_after-last_of x xs ys h v =
      let k = last_of x.application_id xs in
      entries_after-none k (x ∷ xs) ys (valid-is_empty k (valid-last_of x xs v))
        (NoneAbove-last_of x xs (IsIncreasing-left (x ∷ xs) ys h))
      ∙ entries_after-all k ys (AllAbove-last_of x xs ys h)

  module _ (codec : Codec) (major : ℤ) (host : List Bytes) where
    -- A page has the items of the first publications; it has no token only where none is left.
    pub record PageCut (w : List (Entry A)) (page : Page A) : Type 0 where
      pub done : List (Entry A)
      pub todo : List (Entry A)
      pub split : w ≡ done ++ todo
      pub kept : page.items ≡ eligible done
      pub next :
          ((is_empty page.next_page_token ≡ true)
            × (todo ≡ [])
            × ((length w == scan_budget) ≡ false))
          ⊎ ((x : Entry A) × (xs : List (Entry A)) × (done ≡ x ∷ xs)
              × (encode_catalog_cursor codec major host (last_of x.application_id xs)
                  ≡ ok page.next_page_token))

    abbrev pub Pages : Result Error (Page A) → List (Entry A) → Type 0
    Pages r w = (page : Page A) × (r ≡ ok page) × PageCut w page

    -- What the page is, where the loop has gone through `x ∷ xs`.
    Pages-of_scan :
        (size : ℕ) (after : Bytes) (w : List (Entry A)) (s : Scan A) (x : Entry A)
        (xs todo : List (Entry A))
        → is_nil w ≡ false
        → scan size (length w == scan_budget) [] 0 after w ≡ ok s
        → w ≡ (x ∷ xs) ++ todo
        → s.items ≡ eligible (x ∷ xs)
        → s.last_scanned ≡ last_of x.application_id xs
        → (s.stopped ≡ true) ⊎ (todo ≡ [])
        → AllValid (x ∷ xs)
        → IsIncreasing (x ∷ xs)
        → Pages (page_of codec major host size after w) w
    unfolding page_of token_of encode_catalog_cursor new_page
    Pages-of_scan size after w s x xs todo some_w run split kept at whole valid sorted =
        let last = last_of x.application_id xs in
        let ordered : in_order s.items ≡ true = rw kept (in_order-eligible (x ∷ xs) sorted) in
        let valid_last : is_uuid_v7 s.last_scanned ≡ true = rw at (valid-last_of x xs valid) in
        elim (Bool-cases (s.stopped || length w == scan_budget)) [
          | inl more ↦
              let token = codec.marshal (record {
                version = 1;
                last = s.last_scanned;
                fingerprint = codec.fingerprint major host;
              }) in
              (
                record { items = s.items; next_page_token = token },
                rw (some_w, run) (rw (more, valid_last) (rw ordered refl)),
                record {
                  done = x ∷ xs;
                  todo = todo;
                  split = split;
                  kept = kept;
                  next = inr (x, xs, refl, rw (sym at) (rw valid_last refl));
                },
              )
          | inr whole_w ↦ (
            record { items = s.items; next_page_token = [] },
            rw (some_w, run) (rw whole_w (rw ordered refl)),
            record {
              done = x ∷ xs;
              todo = todo;
              split = split;
              kept = kept;
              next = inl (refl, ground arith, ground arith);
            },
          )
        ]

    pub page_of-PageCut :
        (size : ℕ) (after : Bytes) (w : List (Entry A))
        → AllAnswered w
        → AllValid w
        → IsIncreasing w
        → Pages (page_of codec major host size after w) w
    unfolding page_of new_page in_order eligible last_of
    page_of-PageCut size after [] fine valid sorted = (
      record { items = []; next_page_token = [] },
      refl,
      record { done = []; todo = []; split = refl; kept = refl; next = inl (refl, refl, refl) },
    )
    page_of-PageCut size after (e ∷ es) fine valid sorted =
        let (s, run, c) = scan-Cut size (length (e ∷ es) == scan_budget) [] 0 after (e ∷ es) fine in
        by_done s run c c.done refl
      where
        by_done :
            (s : Scan A)
            → scan size (length (e ∷ es) == scan_budget) [] 0 after (e ∷ es) ≡ ok s
            → (c : Cut [] after (e ∷ es) s) (done : List (Entry A)) → c.done ≡ done
            → Pages (page_of codec major host size after (e ∷ es)) (e ∷ es)
        by_done s run c [] h = let progress = c.progress in absurd (ground arith)
        by_done s run c (x ∷ xs) h =
            let split : e ∷ es ≡ (x ∷ xs) ++ c.todo = c.split ∙ ap (λ d. d ++ c.todo) h in
            Pages-of_scan size after (e ∷ es) s x xs c.todo refl run split (c.kept ∙ ap eligible h)
              (c.at ∙ ap (last_of after) h) c.whole
              (AllValid-left (x ∷ xs) c.todo (subst AllValid split valid))
              (IsIncreasing-left (x ∷ xs) c.todo (subst IsIncreasing split sorted))
