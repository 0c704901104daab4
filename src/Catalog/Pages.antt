-- ===== src/Catalog/Pages.antt =====
-- The pages of src/core/catalog-snapshot-store.ts: `catalogPage` walks the list of descriptors,
-- `describePage` the text of one. Serialisation by JSON.stringify, with the checks before it, is a
-- parameter, and so is the length in UTF-8.
pub mod Lists
pub mod Chunks
use kiro_fabric.Prelude.{
  ℕ, ◌+◌, ◌-◌, ◌*◌, min, Bool, true, false, ◌&&◌, ◌||◌, not, ltb, leb, ◌==◌, if◌then◌else◌, List,
  [], ◌∷◌, ◌++◌, Option, none, some, length, drop, get_elem?, get_or, Text, slice,
  is_high_surrogate, is_low_surrogate, Outcome, ok, err, ◌>>=◌, ◌>>◌, throw_if,
}
use kiro_fabric.BoundedSearch.{largest_fitting_integer}
use kiro_fabric.Catalog.Store.{Method, CatalogError, page_budget, unavailable, Policy, Entry, Store}
use kiro_fabric.Catalog.Cursors.{Body, Cursor, Access, describe_of, token, authenticate}

-- A descriptor in a page: its JSON text, parsed, or a cursor to read it with.
pub data Item : Type 0 where
  inline : Text → Item
  deferred : ℕ → Cursor → Item

pub record CatalogPage : Type 0 where
  pub items : List Item
  pub total : ℕ
  pub returned : ℕ
  pub is_complete : Bool
  pub next_cursor : Option Cursor

pub record DescriptorPage : Type 0 where
  pub text : Text
  pub total_chars : ℕ
  pub digest : ℕ
  pub is_complete : Bool
  pub next_cursor : Option Cursor

pub record Budget : Type 0 where
  pub bytes : ℕ
  pub chars : ℕ

pub record Json : Type 0 where
  pub utf8_bytes : Text → ℕ
  pub catalog_text : CatalogPage → Option Text
  pub descriptor_text : DescriptorPage → Option Text

unfoldable pub budgets : Option ℕ → ℕ → Outcome CatalogError Budget
budgets max_bytes max_chars =
    let bytes : ℕ = elim max_bytes [ none ↦ 64 * 1024 | some n ↦ n ] in
    if ltb bytes 1000 || ltb 2_000_000 bytes || ltb max_chars 1000
    then err page_budget
    else ok (record { bytes = min bytes 2_000_000; chars = min max_chars 2_000_000 })

-- One unit less, where the halves of a surrogate pair would be split.
unfoldable pub before_pair : Text → ℕ → ℕ → ℕ
before_pair text position low =
    if ltb low (length text)
      && ltb position low
      && is_high_surrogate (get_or text (low - 1) 0)
      && is_low_surrogate (get_or text low 0)
    then low - 1
    else low

module _ (json : Json) where
  abbrev pub text_fits : Option Text → Budget → Bool
  text_fits none budget = false
  text_fits (some text) budget =
      leb (length text) budget.chars && leb (json.utf8_bytes text) budget.bytes

  module _ (mac : ℕ → Body → ℕ) (p : Policy) (key : ℕ) (a : Access) (budget : Budget) where
    unfoldable pub list_page : List Item → ℕ → CatalogPage
    list_page items next = record {
      items = items;
      total = length a.entries;
      returned = length items;
      is_complete = next == length a.entries;
      next_cursor =
          if ltb next (length a.entries)
          then some (token mac p key a.id a.expires a.method none next)
          else none;
    }

    abbrev pub fits_list : List Item → ℕ → Bool
    fits_list items next = text_fits (json.catalog_text (list_page items next)) budget

    unfoldable pub defer : Entry → ℕ → Item
    defer e at =
        deferred e.digest (token mac p key a.id a.expires (describe_of a.method) (some at) 0)

    -- How the next entry is added: in full, deferred, or not at all.
    unfoldable pub choose_item : Entry → ℕ → List Item → Option Item
    choose_item e next items =
        if not (ltb budget.chars (length e.text) || ltb budget.bytes (json.utf8_bytes e.text))
          && fits_list (items ++ inline e.text ∷ []) (next + 1)
        then some (inline e.text)
        else if fits_list (items ++ defer e next ∷ []) (next + 1)
        then some (defer e next)
        else none

    -- The loop, along the entries from `next` on.
    unfoldable pub fill : ℕ → List Entry → ℕ → List Item → List Item × ℕ
    fill limit [] next items = (items, next)
    fill limit (e ∷ es) next items =
        if leb limit (length items) then (items, next) else elim (choose_item e next items) [
          | none ↦ (items, next)
          | some item ↦ fill limit es (next + 1) (items ++ item ∷ [])
        ]

    unfoldable pub make_list_page : ℕ → Outcome CatalogError CatalogPage
    make_list_page limit =
        let (items, next) = fill limit (drop a.position a.entries) a.position [] in
        if length items == 0 && ltb next (length a.entries) || not (fits_list items next)
        then err page_budget
        else ok (list_page items next)

    unfoldable pub chunk : Entry → ℕ → ℕ → DescriptorPage
    chunk e descriptor end = record {
      text = slice e.text a.position end;
      total_chars = length e.text;
      digest = e.digest;
      is_complete = end == length e.text;
      next_cursor =
          if ltb end (length e.text)
          then some (token mac p key a.id a.expires a.method (some descriptor) end)
          else none;
    }

    abbrev pub fits_chunk : Entry → ℕ → ℕ → Bool
    fits_chunk e descriptor end = text_fits (json.descriptor_text (chunk e descriptor end)) budget

    abbrev pub longest_fitting : Entry → ℕ → ℕ
    longest_fitting e descriptor =
        largest_fitting_integer a.position
          (min (length e.text - 1) (a.position + min budget.bytes budget.chars))
          (fits_chunk e descriptor)

    -- Where the page ends when the rest of the text does not fit.
    unfoldable pub chunk_end : Entry → ℕ → ℕ
    chunk_end e descriptor = before_pair e.text a.position (longest_fitting e descriptor)

    unfoldable pub make_chunk : Entry → ℕ → Outcome CatalogError DescriptorPage
    make_chunk e descriptor =
        let low = chunk_end e descriptor in
        if leb (length e.text - a.position) (min budget.bytes budget.chars)
          && fits_chunk e descriptor (length e.text)
        then ok (chunk e descriptor (length e.text))
        else if (low == a.position) && ltb a.position (length e.text)
            || not (fits_chunk e descriptor low)
        then err page_budget
        else ok (chunk e descriptor low)

  module _ (mac : ℕ → Body → ℕ) (p : Policy) (is_current : ℕ → Bool) where
    unfoldable pub catalog_page :
        Store
        → Cursor
        → (limit max_bytes : Option ℕ) → (max_chars now later : ℕ)
        → Store × Outcome CatalogError CatalogPage
    catalog_page st c limit max_bytes max_chars now later =
        let (used, r) = authenticate mac p is_current st c now later in
        let count : ℕ = elim limit [ none ↦ 30 | some n ↦ n ] in
        (
          used,
          do
            a ← r
            throw_if (elim a.descriptor [ none ↦ false | some _ ↦ true ]) unavailable
            budget ← budgets max_bytes max_chars
            throw_if (ltb count 1 || ltb 100 count) page_budget
            make_list_page mac p st.key a budget count,
        )

    unfoldable pub describe_page :
        Store
        → Cursor
        → Option ℕ
        → (max_chars now later : ℕ) → Store × Outcome CatalogError DescriptorPage
    describe_page st c max_bytes max_chars now later =
        let (used, r) = authenticate mac p is_current st c now later in
        (
          used,
          do
            a ← r
            elim a.descriptor [
              | none ↦ err unavailable
              | some d ↦ elim (get_elem? a.entries d) [
                | none ↦ err unavailable
                | some e ↦ do
                  budget ← budgets max_bytes max_chars
                  make_chunk mac p st.key a budget e d
              ]
            ],
        )
