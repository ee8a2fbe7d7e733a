-- ===== src/Catalog/Scanned.antt =====
-- internal/adapter/mongo/public_catalog_repository.go (ListPublic): what the loop of one page has taken
-- from the publications that the query found.
use iwut_app_center.Prelude.{
  ℕ, ◌+◌, ltb, leb, Bool, true, false, not, ◌&&◌, ◌||◌, Bool-cases, inl, inr, Option, none, some,
  List, [], ◌∷◌, ◌++◌, Bytes, length, Result, ok, err, is_ok, ◌≡◌, ◌⊎◌, refl, ap, ◌∙◌, sym, arith,
}
use mathlib.Core.List.{append-nil, append_assoc}
use iwut_app_center.Catalog.{Error}
use iwut_app_center.Catalog.Pages.{Entry, Item, Scan, scan, is_nil, response_budget}

module _ {A : Type 0} where
  -- The items of the applications that are shown.
  unfoldable pub eligible : List (Entry A) → List (Item A)
  eligible [] = []
  eligible (e ∷ es) = elim e.answer [
    | err x ↦ eligible es
    | ok none ↦ eligible es
    | ok (some (a, n)) ↦ (e.application_id, a) ∷ eligible es
  ]

  pub eligible-append : (xs ys : List (Entry A)) → eligible (xs ++ ys) ≡ eligible xs ++ eligible ys
  unfolding eligible
  eligible-append [] ys = refl
  eligible-append (e ∷ es) ys = ground (arith, eligible-append es ys)

  -- catalogItem fails for no publication.
  abbrev pub AllAnswered : List (Entry A) → Type 0
  AllAnswered [] = Unit
  AllAnswered (e ∷ es) = (is_ok e.answer ≡ true) × AllAnswered es

  unfoldable pub last_of : Bytes → List (Entry A) → Bytes
  last_of d [] = d
  last_of d (e ∷ es) = last_of e.application_id es

  -- A scan has gone through the first publications and has their items.
  pub record Cut (items : List (Item A)) (last : Bytes) (es : List (Entry A)) (s : Scan A)
      : Type 0 where
    pub done : List (Entry A)
    pub todo : List (Entry A)
    pub split : es ≡ done ++ todo
    pub kept : s.items ≡ items ++ eligible done
    pub at : s.last_scanned ≡ last_of last done
    pub whole : (s.stopped ≡ true) ⊎ (todo ≡ [])
    pub progress : (is_nil items ≡ false) ⊎ (is_nil es ≡ true) ⊎ (is_nil done ≡ false)

  abbrev Cuts : Result Error (Scan A) → List (Item A) → Bytes → List (Entry A) → Type 0
  Cuts r items last es = (s : Scan A) × (r ≡ ok s) × Cut items last es s

  -- The publications before a cut, one more in front of them.
  Cut-cons :
      (items items' : List (Item A)) (last : Bytes) (e : Entry A) (es : List (Entry A)) (s : Scan A)
      → (items ++ eligible (e ∷ []) ≡ items')
      → Cut items' e.application_id es s
      → Cut items last (e ∷ es) s
  unfolding last_of
  Cut-cons items items' last e es s h c = record {
    done = e ∷ c.done;
    todo = c.todo;
    split = ap (λ l. e ∷ l) c.split;
    kept =
        c.kept
        ∙ ap (λ l. l ++ eligible c.done) (sym h)
        ∙ append_assoc items (eligible (e ∷ [])) (eligible c.done)
        ∙ ap (λ l. items ++ l) (sym (eligible-append (e ∷ []) c.done));
    at = c.at;
    whole = c.whole;
    progress = inr (inr refl);
  }

  -- One publication: what the loop does with it, and with the others by `ih`.
  Cuts-cons :
      (size : ℕ) (full : Bool) (items : List (Item A)) (bytes : ℕ) (last : Bytes) (e : Entry A)
      (es : List (Entry A))
      → is_ok e.answer ≡ true
      → ((items' : List (Item A)) (bytes' : ℕ) (last' : Bytes)
          → Cuts (scan size full items' bytes' last' es) items' last' es)
      → Cuts (scan size full items bytes last (e ∷ es)) items last (e ∷ es)
  unfolding scan eligible last_of
  Cuts-cons size full items bytes last e es fine ih = by_answer e.answer refl
    where
      rest_or_none : (xs : List (Entry A)) → ((not (is_nil xs) || full) ≡ true) ⊎ (xs ≡ [])
      rest_or_none [] = inr refl
      rest_or_none (x ∷ xs) = inl refl

      by_answer :
          (o : Result Error (Option (A × ℕ)))
          → e.answer ≡ o
          → Cuts (scan size full items bytes last (e ∷ es)) items last (e ∷ es)
      by_answer (err x) h = absurd (ground arith)
      by_answer (ok none) h =
          let (s, run, c) = ih items bytes e.application_id in
          (s, rw h run, Cut-cons items items last e es s (rw h (append-nil items)) c)
      by_answer (ok (some (a, n))) h =
          let items' : List (Item A) = items ++ (e.application_id, a) ∷ [] in
          let added : items ++ eligible (e ∷ []) ≡ items' = rw h refl in
          elim (Bool-cases
            (not (is_nil items) && (leb size (length items) || ltb response_budget (bytes + n)))) [
              | inl over ↦ (
                record { items = items; last_scanned = last; stopped = true },
                rw (h, over) refl,
                record {
                  done = [];
                  todo = e ∷ es;
                  split = refl;
                  kept = sym (append-nil items);
                  at = refl;
                  whole = inl refl;
                  progress = inl (ground arith);
                },
              )
              | inr under ↦ elim (Bool-cases (leb size (length items'))) [
                | inl enough ↦ (
                  record {
                    items = items';
                    last_scanned = e.application_id;
                    stopped = not (is_nil es) || full;
                  },
                  rw (h, under, enough) refl,
                  record {
                    done = e ∷ [];
                    todo = es;
                    split = refl;
                    kept = sym added;
                    at = refl;
                    whole = rest_or_none es;
                    progress = inr (inr refl);
                  },
                )
                | inr more ↦
                    let (s, run, c) = ih items' (bytes + n) e.application_id in
                    (s, rw (h, under, more) run, Cut-cons items items' last e es s added c)
              ]
            ]

  -- The loop answers, and has gone through the first publications that the query found.
  pub scan-Cut :
      (size : ℕ) (full : Bool) (items : List (Item A)) (bytes : ℕ) (last : Bytes)
      (es : List (Entry A))
      → AllAnswered es
      → Cuts (scan size full items bytes last es) items last es
  unfolding scan eligible last_of
  scan-Cut size full items bytes last [] fine = (
    record { items = items; last_scanned = last; stopped = false },
    refl,
    record {
      done = [];
      todo = [];
      split = refl;
      kept = sym (append-nil items);
      at = refl;
      whole = inr refl;
      progress = inr (inl refl);
    },
  )
  scan-Cut size full items bytes last (e ∷ es) fine =
      Cuts-cons size full items bytes last e es fine.0
        (λ items' bytes' last'. scan-Cut size full items' bytes' last' es fine.1)
