-- ===== src/ResultStore/Paging.antt =====
-- Reading a retained result of src/fovea/result-store.ts page by page.
use kiro_fabric.Prelude.{
  ℕ, ◌+◌, ◌-◌, ◌*◌, ◌≤◌, ◌<◌, false, ◌&&◌, ◌≡◌, refl, subst, ◌⊎◌, inl, inr, List, [], ◌∷◌, ◌++◌,
  Option, none, some, length, arith, drop, ltb, Bool-cases, Outcome, ok, err, Text,
  slice-append-drop, slice_to_end, is_high_surrogate, is_low_surrogate, get_or, All,
}
use kiro_fabric.ResultStore.{
  Stored, ResultStore, ResultOwner, Cursor, StoreError, max_text, lookup, sweep, page, offset_of,
  make_page, page_end, issue, put,
}
use kiro_fabric.ResultStore.Invariant.{
  IsValid, sweep-IsValid, put-Puts, Puts-IsValid, lookup-Puts, new_entry,
}
use kiro_fabric.ResultStore.Access.{lookup-sweep, Served-page}

-- Where a page ends: within the text and the budget, at the text's end or 255 units further at
-- least, and not between the two halves of a surrogate pair.
pub record IsPageEnd (text : Text) (offset max_page end : ℕ) : Type 0 where
  pub forward : offset ≤ end
  pub in_text : end ≤ length text
  pub in_budget : end ≤ offset + max_page
  pub progress : (end ≡ length text) ⊎ (offset + 255 ≤ end)
  pub unsplit :
      end < length text
      → (is_high_surrogate (get_or text (end - 1) 0) && is_low_surrogate (get_or text end 0))
        ≡ false

-- For an offset within the text and a budget of at least 256, a page ends within the text and the
-- budget, at the end of the text or at least 255 units further, and never between the halves of a
-- surrogate pair.
pub page_end-IsPageEnd :
    (text : Text) (offset max_page : ℕ)
    → offset ≤ length text
    → 256 ≤ max_page
    → IsPageEnd text offset max_page (page_end text offset max_page)
unfolding page_end
page_end-IsPageEnd text offset max_page h wide = record {
  forward = ground arith;
  in_text = ground arith;
  in_budget = ground arith;
  progress = ground arith;
  unsplit = λ lt. ground arith;
}

-- A cursor that was issued is accepted for its own result, at its own offset.
pub offset_of-issue :
    (mac : ℕ → ℕ → ℕ) (id offset : ℕ)
    → offset < 100_000_000
    → offset_of mac id (some (issue mac id offset)) ≡ ok offset
unfolding offset_of issue
offset_of-issue mac id offset h = ground arith

abbrev prepend : Text → Option (Outcome StoreError Text) → Option (Outcome StoreError Text)
prepend text none = none
prepend text (some (err e)) = some (err e)
prepend text (some (ok rest)) = some (ok (text ++ rest))

-- A client that follows `nextCursor`; one clock reading for each page. `none`: it has read all that
-- it has readings for.
pub read_pages :
    (ℕ → ℕ → ℕ)
    → List ℕ
    → ResultStore
    → ResultOwner
    → ℕ
    → Option Cursor
    → ℕ
    → Option (Outcome StoreError Text)
read_pages mac [] s owner id from max_page = none
read_pages mac (now ∷ nows) s owner id from max_page =
    let (t, r) = page mac s owner id from max_page now in
    elim r [
      | err e ↦ some (err e)
      | ok p ↦ elim p.next_cursor [
        | none ↦ some (ok p.text)
        | some c ↦ prepend p.text (read_pages mac nows t owner id (some c) max_page)
      ]
    ]

page-store :
    (mac : ℕ → ℕ → ℕ) (s : ResultStore) (owner : ResultOwner) (id : ℕ) (from : Option Cursor)
    (max_page now : ℕ)
    → 256 ≤ max_page
    → max_page ≤ 32_000
    → (page mac s owner id from max_page now).0 ≡ sweep s now
unfolding page
page-store mac s owner id from max_page now wide narrow = ground arith

module _ (mac : ℕ → ℕ → ℕ) (owner : ResultOwner) (id max_page : ℕ) (e : Stored)
    (owned : e.owner ≡ owner) (small : length e.text ≤ max_text) (wide : 256 ≤ max_page)
    (narrow : max_page ≤ 32_000) where
  -- The client gets all that lies behind the offset of its cursor.
  read_pages-drop :
      (nows : List ℕ) (s : ResultStore) (from : Option Cursor) (offset : ℕ)
      → IsValid s
      → lookup id s.entries ≡ some e
      → All (λ now. now < e.expires_at) nows
      → offset_of mac id from ≡ ok offset
      → offset ≤ length e.text
      → length e.text ≤ offset + 255 * length nows
      → 1 ≤ length nows
      → read_pages mac nows s owner id from max_page ≡ some (ok (drop offset e.text))
  unfolding read_pages make_page
  read_pages-drop [] s from offset v held fresh start le enough some_left = absurd (omega arith)
  read_pages-drop (now ∷ nows) s from offset v held fresh start le enough some_left =
      elim (Bool-cases (ltb end (length e.text))) [
        | inl more ↦ ground (
          arith,
          served,
          page-store mac s owner id from max_page now wide narrow,
          more,
          slice-append-drop e.text offset end stop.forward,
          read_pages-drop nows (sweep s now) (some (issue mac id end)) end (sweep-IsValid s now v)
              (ground (arith, lookup-sweep s now id v, held, fresh.0)) fresh.1
              (offset_of-issue mac id end (omega (arith, stop.in_text))) stop.in_text
              (ground (arith, stop.progress, more, enough))
              (ground (arith, stop.progress, more, enough)),
        )
        | inr last ↦ ground (arith, served, last, stop.in_text, slice_to_end e.text offset end)
      ]
    where
      end : ℕ
      end = page_end e.text offset max_page

      stop : IsPageEnd e.text offset max_page end
      stop = page_end-IsPageEnd e.text offset max_page le wide

      served :
          (page mac s owner id from max_page now).1 ≡ ok (make_page mac e.text id offset max_page)
      served =
          Served-page mac s owner id from max_page now e offset v
            (record { held = held; owned = owned; unexpired = fresh.0 }) start le wide narrow

-- On a valid store, a text of at most 512,000 characters put under an unused id is read back
-- exactly by a client of its owner that follows the page cursors before the entry expires, with
-- one clock reading for each 255 characters and a page budget from 256 to 32,000.
pub read_pages-put :
    (mac : ℕ → ℕ → ℕ) (s t : ResultStore) (owner : ResultOwner) (text : Text) (id now max_page : ℕ)
    (nows : List ℕ)
    → IsValid s
    → lookup id s.entries ≡ none
    → length text ≤ max_text
    → put s owner text id now ≡ some (ok t)
    → All (λ later. later < now + s.ttl_ms) nows
    → 1 ≤ length nows
    → length text ≤ 255 * length nows
    → 256 ≤ max_page
    → max_page ≤ 32_000
    → read_pages mac nows t owner id none max_page ≡ some (ok text)
unfolding offset_of
read_pages-put mac s t owner text id now max_page nows v new small run fresh some_left enough wide
      narrow =
    let (t', run', p) = put-Puts s owner text id now v small in
    let e : t' ≡ t = ground (arith, run, run') in
    read_pages-drop mac owner id max_page (new_entry s owner text now) refl small wide narrow nows t
      none 0 (subst IsValid e (Puts-IsValid v new p))
      (subst (λ u. lookup id u.entries ≡ some (new_entry s owner text now)) e (lookup-Puts new p))
      fresh refl (omega arith) (omega arith) some_left
