-- ===== src/Artifacts/Reads.antt =====
-- What src/kiro/artifacts.ts serves: pieces of unexpired entries.
use kiro_fabric.Prelude.{
  ℕ, ◌+◌, ◌-◌, ◌≤◌, ◌<◌, min, Bool, false, ◌≡◌, refl, sym, ap, subst, inl, inr, ◌&&◌, ltb, leb,
  ◌==◌, [], ◌++◌, some, length, length-take, length-drop, take, drop, get_or, Text, slice, arith,
  Bool-cases, if_cases, Outcome, ok, err, is_high_surrogate, is_low_surrogate, slice-append-drop,
  ok-injective,
}
use kiro_fabric.Artifacts.{ArtifactError, ArtifactPage, make_page, before_pair}

-- The piece of a text at an offset.
pub record IsPiece (content : Text) (offset limit : ℕ) (next : ℕ) (text : Text) : Type 0 where
  pub followed : text ++ drop next content ≡ drop offset content
  pub next_at : next ≡ offset + length text
  pub short : length text ≤ min limit 16_000
  pub goes_on : offset < length content → 1 ≤ length text
  pub whole :
      next < length content
      → (is_high_surrogate (get_or content (next - 1) 0)
          && is_low_surrogate (get_or content next 0))
        ≡ false

module _ (is_before : Text → Text → Bool) where
  record IsEnd (content : Text) (offset limit end : ℕ) : Type 0 where
    behind : offset ≤ end
    inside : end ≤ length content
    near : end ≤ offset + min limit 16_000
    whole :
        end < length content
        → (is_high_surrogate (get_or content (end - 1) 0)
            && is_low_surrogate (get_or content end 0))
          ≡ false

  before_pair-IsEnd :
      (content : Text) (offset limit : ℕ)
      → offset ≤ length content
      → 1 ≤ limit
      → IsEnd content offset limit
          (before_pair is_before content (min (length content) (offset + min limit 16_000)))
  before_pair-IsEnd content offset limit inside some_limit =
      let end = min (length content) (offset + min limit 16_000) in
      if_cases (IsEnd content offset limit)
        (ltb end (length content)
          && (is_high_surrogate (get_or content (end - 1) 0)
              && is_low_surrogate (get_or content end 0)))
        (λ split. record {
          behind = ground (arith, split);
          inside = omega arith;
          near = omega arith;
          whole = λ lt. ground (arith, split);
        })
        (λ joined. record {
          behind = omega arith;
          inside = omega arith;
          near = omega arith;
          whole = λ lt. ground (arith, joined, lt);
        })

  at_end :
      (content : Text) (offset limit : ℕ)
      → length content < offset
      → IsPiece content offset limit offset []
  at_end content offset limit out = record {
    followed = refl;
    next_at = omega arith;
    short = omega arith;
    goes_on = λ lt. absurd (omega (arith, lt));
    whole = λ lt. absurd (omega (arith, lt));
  }

  -- A page: a piece, and whether the text ends with it.
  pub record IsPage (content : Text) (offset limit : ℕ) (p : ArtifactPage is_before) : Type 0 where
    pub piece : IsPiece content offset limit p.next_offset p.text
    pub at : p.offset ≡ offset
    pub total : p.total_chars ≡ length content
    pub done : p.is_done ≡ leb (length content) p.next_offset

  slice-IsPiece :
      (content : Text) (offset limit end : ℕ)
      → IsEnd content offset limit end
      → (offset < length content → offset < end)
      → IsPiece content offset limit
          (offset + length (slice content offset end))
          (slice content offset end)
  slice-IsPiece content offset limit end e moves =
      let size : length (slice content offset end) ≡ end - offset = omega (
        arith,
        length-take (end - offset) (drop offset content),
        length-drop offset content,
        e.behind,
        e.inside,
      ) in
      let next : offset + length (slice content offset end) ≡ end = omega (arith, size, e.behind) in
      subst (λ n. IsPiece content offset limit n (slice content offset end)) (sym next)
        (record {
          followed = slice-append-drop content offset end e.behind;
          next_at = sym next;
          short = omega (arith, size, e.near);
          goes_on = λ lt. omega (arith, size, moves lt);
          whole = e.whole;
        })

  pub make_page-IsPage :
      (content : Text) (offset limit : ℕ) (p : ArtifactPage is_before)
      → make_page is_before content (some offset) (some limit) ≡ ok p
      → IsPage content offset limit p
  unfolding make_page
  make_page-IsPage content offset limit =
      let end = before_pair is_before content (min (length content) (offset + min limit 16_000)) in
      let text = slice content offset end in
      if_cases Right (ltb limit 1) bad (λ some_limit.
        if_cases Right
          (ltb 0 offset
            && (is_low_surrogate (get_or content offset 0)
                && is_high_surrogate (get_or content (offset - 1) 0)))
          bad
          (λ _. if_cases Right ((end == offset) && ltb offset (length content)) bad (λ moves p h.
            subst (IsPage content offset limit) (ok-injective h) (record {
              piece = piece (ground (arith, some_limit)) moves;
              at = refl;
              total = refl;
              done = refl;
            }))))
    where
      Right : Outcome ArtifactError (ArtifactPage is_before) → Type 0
      Right m = (p : ArtifactPage is_before) → m ≡ ok p → IsPage content offset limit p

      bad : {b c : Bool} {x : ArtifactError} → b ≡ c → Right (err x)
      bad b p h = absurd (ground (arith, h))

      piece :
          1 ≤ limit
          → ((before_pair is_before content (min (length content) (offset + min limit 16_000))
                == offset)
              && ltb offset (length content))
            ≡ false
          → IsPiece content offset limit
              (offset
                + length (
                    slice content offset (
                      before_pair is_before content
                        (min (length content) (offset + min limit 16_000)))))
              (slice content offset
                (before_pair is_before content (min (length content) (offset + min limit 16_000))))
      piece some_limit moves = elim (Bool-cases (leb offset (length content))) [
        | inl inside ↦
            let e = before_pair-IsEnd content offset limit (ground (arith, inside)) some_limit in
            slice-IsPiece content offset limit _ e (λ lt. ground (arith, moves, lt, e.behind))
        | inr out ↦
            let lt : length content < offset = ground (arith, out) in
            let at_least : before_pair is_before content
                    (min (length content) (offset + min limit 16_000))
                  - offset
                ≡ 0 =
              ground (arith, lt) in
            let none_left : slice content offset
                  (before_pair is_before content (min (length content) (offset + min limit 16_000)))
                ≡ [] =
              ap (λ n. take n (drop offset content)) at_least in
            let stays : offset
                  + length (
                      slice content offset (
                        before_pair is_before content
                          (min (length content) (offset + min limit 16_000))))
                ≡ offset =
              omega (arith, ap length none_left) in
            rw stays (rw none_left (at_end content offset limit lt))
      ]
