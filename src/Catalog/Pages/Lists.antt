-- ===== src/Catalog/Pages/Lists.antt =====
-- `catalogPage` of src/core/catalog-snapshot-store.ts: a page fits its budget, goes on, and describes
-- the entries that it covers one by one.
use kiro_fabric.Prelude.{
  ℕ, suc, ◌+◌, ◌≤◌, ◌||◌, ◌&&◌, not, true, false, ◌≡◌, refl, sym, ap, subst, ◌∙◌, ◌⊎◌, inl, inr,
  List, [], ◌∷◌, ◌++◌, none, some, length, length-append, drop, length-drop, arith, ltb, leb, ◌==◌,
  Bool-cases, if_cases, option_cases, ok,
}
use mathlib.Core.List.{append-nil, append_assoc}
use kiro_fabric.Catalog.Store.{Policy, Entry}
use kiro_fabric.Catalog.Cursors.{Body, Access, token, describe_of}
use kiro_fabric.Catalog.Pages.{
  Item, inline, deferred, CatalogPage, Budget, Json, text_fits, list_page, fits_list, defer,
  choose_item, fill, make_list_page,
}

length_zero : {A : Type 0} (xs : List A) → length xs ≡ 0 → xs ≡ []
length_zero [] h = refl
length_zero (x ∷ xs) h = absurd (omega (arith, h))

module _ (json : Json) (mac : ℕ → Body → ℕ) (p : Policy) (key : ℕ) (a : Access) where
  -- The items stand for the entries from `at` on: each in full, or by its digest with the cursor to
  -- its text.
  pub data Describes : ℕ → List Entry → List Item → Type 0 where
    ends : {at : ℕ} → Describes at [] []
    in_full :
        {at : ℕ} {es : List Entry} {items : List Item} (e : Entry)
        → Describes (at + 1) es items
        → Describes at (e ∷ es) (inline e.text ∷ items)
    by_cursor :
        {at : ℕ} {es : List Entry} {items : List Item} (e : Entry)
        → Describes (at + 1) es items
        → Describes at (e ∷ es) (
            deferred e.digest (token mac p key a.id a.expires (describe_of a.method) (some at) 0)
            ∷ items)

  pub length-Describes :
      {at : ℕ} {es : List Entry} {items : List Item}
      → Describes at es items
      → length items ≡ length es
  length-Describes ends = refl
  length-Describes (in_full e d) = ap suc (length-Describes d)
  length-Describes (by_cursor e d) = ap suc (length-Describes d)

  module _ (budget : Budget) where
    choose_item-cases :
        (e : Entry) (next : ℕ) (items : List Item) (item : Item)
        → choose_item json mac p key a budget e next items ≡ some item
        → (item ≡ inline e.text) ⊎ (item ≡ defer json mac p key a budget e next)
    unfolding choose_item
    choose_item-cases e next items item h =
        elim (Bool-cases (
          fits_list json mac p key a budget (items ++ defer json mac p key a budget e next ∷ [])
            (next + 1))) [ inl fit ↦ ground (arith, h, fit) | inr tight ↦ ground (arith, h, tight) ]

    -- The loop adds items for a stretch of the entries, at most up to the limit.
    pub record Filled (limit : ℕ) (es : List Entry) (next : ℕ) (items : List Item)
        (x : List Item × ℕ) : Type 0 where
      pub covered : List Entry
      pub left : List Entry
      pub split : es ≡ covered ++ left
      pub added : List Item
      pub appended : x.0 ≡ items ++ added
      pub describes : Describes next covered added
      pub counted : x.1 ≡ next + length added
      pub limited : length items ≤ limit → length x.0 ≤ limit

    stays :
        (limit : ℕ) (es : List Entry) (next : ℕ) (items : List Item)
        → Filled limit es next items (items, next)
    stays limit es next items = record {
      covered = [];
      left = es;
      split = refl;
      added = [];
      appended = sym (append-nil items);
      describes = ends;
      counted = omega arith;
      limited = λ h. h;
    }

    Describes-item :
        {at : ℕ} {es : List Entry} {items : List Item} (e : Entry) (item : Item)
        → (item ≡ inline e.text) ⊎ (item ≡ defer json mac p key a budget e at)
        → Describes (at + 1) es items
        → Describes at (e ∷ es) (item ∷ items)
    unfolding defer
    Describes-item {at} {es} {items} e item (inl full) d =
        subst (λ x. Describes at (e ∷ es) (x ∷ items)) (sym full) (in_full e d)
    Describes-item {at} {es} {items} e item (inr cursor_only) d =
        subst (λ x. Describes at (e ∷ es) (x ∷ items)) (sym cursor_only) (by_cursor e d)

    fill-Filled :
        (limit : ℕ) (es : List Entry) (next : ℕ) (items : List Item)
        → Filled limit es next items (fill json mac p key a budget limit es next items)
    unfolding fill
    fill-Filled limit [] next items = stays limit [] next items
    fill-Filled limit (e ∷ es) next items =
        if_cases (Filled limit (e ∷ es) next items) (leb limit (length items))
          (λ _. stays limit (e ∷ es) next items)
          λ more.
            option_cases (Filled limit (e ∷ es) next items)
              (choose_item json mac p key a budget e next items)
              (λ _. stays limit (e ∷ es) next items)
              λ item chosen.
                let rest = fill-Filled limit es (next + 1) (items ++ item ∷ []) in
                record {
                  covered = e ∷ rest.covered;
                  left = rest.left;
                  split = ap (◌∷◌ e) rest.split;
                  added = item ∷ rest.added;
                  appended = rest.appended ∙ append_assoc items (item ∷ []) rest.added;
                  describes =
                      Describes-item e item (choose_item-cases e next items item chosen)
                        rest.describes;
                  counted = omega (arith, rest.counted);
                  limited =
                      λ h. rest.limited (ground (arith, more, length-append items (item ∷ [])));
                }

    -- What a page of the list is.
    pub record IsListPage (limit : ℕ) (page : CatalogPage) : Type 0 where
      pub covered : List Entry
      pub left : List Entry
      pub split : drop a.position a.entries ≡ covered ++ left
      pub describes : Describes a.position covered page.items
      pub fitting : text_fits json (json.catalog_text page) budget ≡ true
      pub limited : length page.items ≤ limit
      pub progress : (1 ≤ length page.items) ⊎ (left ≡ [])
      pub counted : page.total ≡ length a.entries
      pub returned : page.returned ≡ length page.items
      pub complete : page.is_complete ≡ (length left == 0)
      pub continued :
          1 ≤ length left
          → page.next_cursor
            ≡ some (token mac p key a.id a.expires a.method none (a.position + length page.items))
      pub ended : left ≡ [] → page.next_cursor ≡ none

    list_page-IsListPage :
        (limit : ℕ) (x : List Item × ℕ)
        → a.position ≤ length a.entries
        → Filled limit (drop a.position a.entries) a.position [] x
        → (length x.0 == 0 && ltb x.1 (length a.entries)) ≡ false
        → fits_list json mac p key a budget x.0 x.1 ≡ true
        → IsListPage limit (list_page json mac p key a budget x.0 x.1)
    unfolding list_page
    list_page-IsListPage limit x h f moves fits = record {
      covered = f.covered;
      left = f.left;
      split = f.split;
      describes = subst (Describes a.position f.covered) (sym f.appended) f.describes;
      fitting = fits;
      limited = f.limited (omega arith);
      progress = elim (Bool-cases (length x.0 == 0)) [
        | inl none_added ↦ inr (no_left (ground (arith, none_added, moves, left_over)))
        | inr some_added ↦ inl (ground (arith, some_added))
      ];
      counted = refl;
      returned = refl;
      complete = ground (arith, left_over);
      continued = λ more.
          ground (arith, more, left_over)
          ∙ ap (λ n. some (token mac p key a.id a.expires a.method none n)) moved;
      ended = λ e. ground (arith, left_over, ap length e);
    }
      where
        left_over : x.1 + length f.left ≡ length a.entries
        left_over = omega (
          arith,
          h,
          f.counted,
          ap length f.split,
          length-append f.covered f.left,
          length-Describes f.describes,
          length-drop a.position a.entries,
        )

        moved : x.1 ≡ a.position + length x.0
        moved = omega (arith, f.counted, ap length f.appended)

        no_left : length f.left ≡ 0 → f.left ≡ []
        no_left = length_zero f.left

    -- A page that is returned fits its budget and its limit. Its items describe the next entries one
    -- by one, at least one while there are any, and its cursor goes on right behind them.
    pub make_list_page-IsListPage :
        (limit : ℕ) (page : CatalogPage)
        → a.position ≤ length a.entries
        → make_list_page json mac p key a budget limit ≡ ok page
        → IsListPage limit page
    unfolding make_list_page list_page
    make_list_page-IsListPage limit page h run =
        elim (Bool-cases (
          length x.0 == 0 && ltb x.1 (length a.entries)
          || not (fits_list json mac p key a budget x.0 x.1))) [
            | inl bad ↦ absurd (ground (arith, run, bad))
            | inr good ↦ subst (IsListPage limit) (ground (arith, run, good)) (
                list_page-IsListPage limit x h
                  (fill-Filled limit (drop a.position a.entries) a.position [])
                  (ground (arith, good)) (ground (arith, good)))
          ]
      where
        x : List Item × ℕ
        x = fill json mac p key a budget limit (drop a.position a.entries) a.position []
