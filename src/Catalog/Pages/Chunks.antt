-- ===== src/Catalog/Pages/Chunks.antt =====
-- `describePage` of src/core/catalog-snapshot-store.ts: a piece of a descriptor's text.
use kiro_fabric.Prelude.{
  ℕ, ◌+◌, ◌-◌, ◌≤◌, ◌<◌, ◌||◌, ◌&&◌, not, min, true, false, ◌≡◌, refl, subst, ◌⊎◌, inl, inr, none,
  some, length, arith, ltb, leb, ◌==◌, Bool-cases, if_cases, ok, Text, slice, get_or,
  is_high_surrogate, is_low_surrogate,
}
use kiro_fabric.BoundedSearch.Laws.{largest_fitting_integer-Found, largest_fitting_integer_empty}
use kiro_fabric.Catalog.Store.{Policy, Entry}
use kiro_fabric.Catalog.Cursors.{Body, Access, token}
use kiro_fabric.Catalog.Pages.{
  DescriptorPage, Budget, Json, text_fits, chunk, fits_chunk, chunk_end, make_chunk,
  longest_fitting, before_pair,
}

record InText (text : Text) (position end : ℕ) : Type 0 where
  forward : position ≤ end
  in_text : end ≤ length text
  unsplit :
      position < end
      → end < length text
      → (is_high_surrogate (get_or text (end - 1) 0) && is_low_surrogate (get_or text end 0))
        ≡ false

before_pair-InText :
    (text : Text) (position low : ℕ)
    → position ≤ low
    → low ≤ length text
    → InText text position (before_pair text position low)
unfolding before_pair
before_pair-InText text position low above below =
    if_cases (InText text position)
      (ltb low (length text)
        && ltb position low
        && is_high_surrogate (get_or text (low - 1) 0)
        && is_low_surrogate (get_or text low 0))
      (λ pair. record {
        forward = ground (arith, pair);
        in_text = ground (arith, pair);
        unsplit = λ past more. ground (arith, pair);
      })
      (λ whole. record {
        forward = above;
        in_text = below;
        unsplit = λ past more. ground (arith, whole, past, more);
      })

module _ (json : Json) (mac : ℕ → Body → ℕ) (p : Policy) (key : ℕ) (a : Access) (budget : Budget)
    (e : Entry) (descriptor : ℕ) where
  -- A page of the text from the cursor's position to `end`.
  pub record IsChunk (page : DescriptorPage) : Type 0 where
    pub end : ℕ
    pub text : page.text ≡ slice e.text a.position end
    pub forward : a.position ≤ end
    pub in_text : end ≤ length e.text
    pub progress : (a.position < end) ⊎ (a.position ≡ length e.text)
    pub fitting : text_fits json (json.descriptor_text page) budget ≡ true
    pub complete : page.is_complete ≡ (end == length e.text)
    pub counted : page.total_chars ≡ length e.text
    pub digest : page.digest ≡ e.digest
    pub continued :
        end < length e.text
        → page.next_cursor ≡ some (token mac p key a.id a.expires a.method (some descriptor) end)
    pub ended : end ≡ length e.text → page.next_cursor ≡ none
    pub unsplit :
        end < length e.text
        → (is_high_surrogate (get_or e.text (end - 1) 0) && is_low_surrogate (get_or e.text end 0))
          ≡ false

  longest_fitting-le :
      a.position ≤ length e.text
      → (a.position ≤ longest_fitting json mac p key a budget e descriptor)
        × (longest_fitting json mac p key a budget e descriptor ≤ length e.text)
  longest_fitting-le h = elim (Bool-cases (leb a.position upper)) [
    | inl wide ↦
        let found =
          largest_fitting_integer-Found a.position upper
            (fits_chunk json mac p key a budget e descriptor) (ground (arith, wide)) in
        (found.above, omega (arith, found.below, small))
    | inr narrow ↦
        let same =
          largest_fitting_integer_empty a.position upper
            (fits_chunk json mac p key a budget e descriptor) (ground (arith, narrow)) in
        (omega (arith, same), omega (arith, same, h))
  ]
    where
      upper : ℕ
      upper = min (length e.text - 1) (a.position + min budget.bytes budget.chars)

      small : upper ≤ length e.text
      small = omega arith

  chunk_end-InText :
      a.position ≤ length e.text
      → InText e.text a.position (chunk_end json mac p key a budget e descriptor)
  unfolding chunk_end
  chunk_end-InText h =
      let (above, below) = longest_fitting-le h in
      before_pair-InText e.text a.position (longest_fitting json mac p key a budget e descriptor)
        above below

  chunk-IsChunk :
      (end : ℕ)
      → a.position ≤ end
      → end ≤ length e.text
      → (a.position < end) ⊎ (a.position ≡ length e.text)
      → fits_chunk json mac p key a budget e descriptor end ≡ true
      → (end < length e.text
          → (is_high_surrogate (get_or e.text (end - 1) 0)
              && is_low_surrogate (get_or e.text end 0))
            ≡ false)
      → IsChunk (chunk json mac p key a budget e descriptor end)
  unfolding chunk
  chunk-IsChunk end f i m fits u = record {
    end = end;
    text = refl;
    forward = f;
    in_text = i;
    progress = m;
    fitting = fits;
    complete = refl;
    counted = refl;
    digest = refl;
    continued = λ more. ground (arith, more);
    ended = λ all. ground (arith, all);
    unsplit = u;
  }

  -- A page that is returned fits its budget, is the next piece of the text, not empty unless the
  -- text is at its end, and does not end between the halves of a surrogate pair; its cursor goes on
  -- right behind it.
  pub make_chunk-IsChunk :
      (page : DescriptorPage)
      → a.position ≤ length e.text
      → make_chunk json mac p key a budget e descriptor ≡ ok page
      → IsChunk page
  unfolding make_chunk
  make_chunk-IsChunk page h run =
      elim (Bool-cases (
        leb (length e.text - a.position) (min budget.bytes budget.chars)
        && fits_chunk json mac p key a budget e descriptor (length e.text))) [
          | inl all ↦ subst IsChunk (ground (arith, run, all)) (
              chunk-IsChunk (length e.text) h (omega arith) (ends h) (ground (arith, all))
                (λ lt. absurd (omega (arith, lt))))
          | inr part ↦
              elim (Bool-cases (
                (low == a.position) && ltb a.position (length e.text)
                || not (fits_chunk json mac p key a budget e descriptor low))) [
                  | inl bad ↦ absurd (ground (arith, run, part, bad))
                  | inr good ↦
                      let stop = chunk_end-InText h in
                      subst IsChunk (ground (arith, run, part, good)) (
                        chunk-IsChunk low stop.forward stop.in_text
                          (ground (arith, good, stop.forward, h)) (ground (arith, good))
                          (λ lt. stop.unsplit (ground (arith, good, stop.forward, lt)) lt))
                ]
        ]
    where
      low : ℕ
      low = chunk_end json mac p key a budget e descriptor

      ends :
          a.position ≤ length e.text → (a.position < length e.text) ⊎ (a.position ≡ length e.text)
      ends le = ground (arith, le)
