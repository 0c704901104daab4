-- ===== src/Prelude/Strings.antt =====
-- JavaScript strings as lists of UTF-16 code units: slices, literal search and surrogates.
use Prim.Native.Nat.{ℕ, zero, suc, ◌+◌, ◌-◌, ◌≤◌}
use mathlib.Core.Path.{◌≡◌, refl, sym, ap, ◌∙◌}
use mathlib.Core.List.{List, [], ◌∷◌, ◌++◌, append-nil}
use mathlib.Core.Bool.{Bool, true, false, ◌&&◌}
use mathlib.Core.Option.{Option, none, some}
use native.Mathlib.Omega.{arith}
use kiro_fabric.Prelude.Lists.{length, take, drop, take-append-drop}
use kiro_fabric.Prelude.Tests.{leb, ◌==◌, if◌then◌else◌}

abbrev pub Text : Type 0
Text = List ℕ

-- `text.slice(start, end)` for `start <= end`.
abbrev pub slice : Text → ℕ → ℕ → Text
slice text start end = take (end - start) (drop start text)

abbrev pub is_high_surrogate : ℕ → Bool
is_high_surrogate unit = leb 0xd800 unit && leb unit 0xdbff

abbrev pub is_low_surrogate : ℕ → Bool
is_low_surrogate unit = leb 0xdc00 unit && leb unit 0xdfff

-- `text.startsWith(query)`.
unfoldable pub starts_with : Text → Text → Bool
starts_with [] text = true
starts_with (q ∷ query) [] = false
starts_with (q ∷ query) (t ∷ text) = (q == t) && starts_with query text

-- `text.indexOf(query)` for a query that is not empty; `none` is -1.
unfoldable pub index_of : Text → Text → Option ℕ
index_of query [] = none
index_of query (t ∷ text) =
    if starts_with query (t ∷ text)
    then some 0
    else elim (index_of query text) [ none ↦ none | some i ↦ some (suc i) ]

-- `text.indexOf(query, from)`.
unfoldable pub index_of_from : Text → Text → ℕ → Option ℕ
unfolding index_of
index_of_from query text from = elim (index_of query (drop from text)) [
  | none ↦ none
  | some i ↦ some (from + i)
]

take-nil : (n : ℕ) → take {A = ℕ} n [] ≡ []
take-nil zero = refl
take-nil (suc n) = refl

-- A slice, and the text behind it.
pub slice-append-drop :
    (text : Text) (start end : ℕ)
    → start ≤ end
    → slice text start end ++ drop end text ≡ drop start text
slice-append-drop text zero end h =
    let e : end - 0 ≡ end = omega arith in rw e (take-append-drop end text)
slice-append-drop text (suc start) zero h = absurd (omega arith)
slice-append-drop [] (suc start) (suc end) h = rw (take-nil (suc end - suc start))
slice-append-drop (x ∷ text) (suc start) (suc end) h =
    let e : suc end - suc start ≡ end - start = omega arith in
    rw e (slice-append-drop text start end (omega arith))

drop_all : (n : ℕ) (text : Text) → length text ≤ n → drop n text ≡ []
drop_all zero [] h = refl
drop_all zero (x ∷ text) h = absurd (omega arith)
drop_all (suc n) [] h = refl
drop_all (suc n) (x ∷ text) h = drop_all n text (omega arith)

pub slice_to_end :
    (text : Text) (start end : ℕ)
    → start ≤ end
    → length text ≤ end
    → slice text start end ≡ drop start text
slice_to_end text start end h k =
    sym (append-nil (slice text start end))
    ∙ ap (◌++◌ (slice text start end)) (sym (drop_all end text k))
    ∙ slice-append-drop text start end h

-- `a === b`, of texts.
unfoldable pub same_text : Text → Text → Bool
same_text [] [] = true
same_text [] (y ∷ b) = false
same_text (x ∷ a) [] = false
same_text (x ∷ a) (y ∷ b) = (x == y) && same_text a b
