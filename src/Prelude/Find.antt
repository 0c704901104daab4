-- ===== src/Prelude/Find.antt =====
-- What `indexOf` finds: the first occurrence.
use Prim.Native.Nat.{ℕ, zero, suc, ◌+◌, ◌-◌, ◌≤◌, ◌<◌}
use mathlib.Core.Path.{◌≡◌, refl, sym, ap, ◌∙◌}
use mathlib.Core.List.{[], ◌∷◌}
use mathlib.Core.Bool.{Bool, true, false}
use mathlib.Core.Option.{none, some}
use mathlib.Core.Logic.{inl, inr, ◌≢◌}
use native.Mathlib.Omega.{arith}
use kiro_fabric.Prelude.Lists.{drop}
use kiro_fabric.Prelude.Tests.{Bool-cases, Option-cases}
use kiro_fabric.Prelude.Strings.{Text, starts_with, index_of, index_of_from}

-- The query stands in the text at this position.
abbrev pub occurs : Text → Text → ℕ → Bool
occurs query text i = starts_with query (drop i text)

pub drop-drop : (m n : ℕ) (text : Text) → drop n (drop m text) ≡ drop (m + n) text
drop-drop zero n text = let e : 0 + n ≡ n = omega arith in rw e
drop-drop (suc m) zero [] = let e : suc m + 0 ≡ suc m = omega arith in rw e
drop-drop (suc m) (suc n) [] = let e : suc m + suc n ≡ suc (m + suc n) = omega arith in rw e
drop-drop (suc m) n (x ∷ text) =
    let e : suc m + n ≡ suc (m + n) = omega arith in rw e (drop-drop m n text)

pub not-occurs-nil : (query : Text) (i : ℕ) → query ≢ [] → occurs query [] i ≡ false
unfolding starts_with
not-occurs-nil [] i h = absurd (h refl)
not-occurs-nil (q ∷ query) zero h = refl
not-occurs-nil (q ∷ query) (suc i) h = refl

-- `i` is the first position at which the query stands.
pub record IsFirst (query text : Text) (i : ℕ) : Type 0 where
  pub here : occurs query text i ≡ true
  pub earlier : (j : ℕ) → j < i → occurs query text j ≡ false

pub index_of-IsFirst :
    (query text : Text) (i : ℕ) → index_of query text ≡ some i → IsFirst query text i
unfolding index_of
index_of-IsFirst query [] i h = absurd (ground (arith, h))
index_of-IsFirst query (t ∷ text) i h = elim (Bool-cases (starts_with query (t ∷ text))) [
  | inl found ↦
      let e : i ≡ 0 = ground (arith, h, found) in
      rw e (record { here = found; earlier = λ j lt. absurd (omega arith) })
  | inr miss ↦ elim (Option-cases (index_of query text)) [
    | inl none_left ↦ absurd (ground (arith, h, miss, none_left))
    | inr (k, later) ↦
        let e : i ≡ suc k = ground (arith, h, miss, later) in
        let rest = index_of-IsFirst query text k later in
        rw e (record { here = rest.here; earlier = before query t text k miss rest.earlier })
  ]
]
  where
    before :
        (query : Text) (t : ℕ) (text : Text) (k : ℕ)
        → starts_with query (t ∷ text) ≡ false
        → ((j : ℕ) → j < k → occurs query text j ≡ false)
        → (j : ℕ) → j < suc k
        → occurs query (t ∷ text) j ≡ false
    before query t text k miss rest zero lt = miss
    before query t text k miss rest (suc j) lt = rest j (omega arith)

pub index_of-absent :
    (query text : Text) (j : ℕ)
    → query ≢ []
    → index_of query text ≡ none
    → occurs query text j ≡ false
unfolding index_of
index_of-absent query [] j q h = not-occurs-nil query j q
index_of-absent query (t ∷ text) zero q h = ground (arith, h)
index_of-absent query (t ∷ text) (suc j) q h = index_of-absent query text j q (ground (arith, h))

-- The first occurrence at `from` or behind it.
pub record IsFirstFrom (query text : Text) (from i : ℕ) : Type 0 where
  pub behind : from ≤ i
  pub here : occurs query text i ≡ true
  pub earlier : (j : ℕ) → from ≤ j → j < i → occurs query text j ≡ false

occurs-drop :
    (query text : Text) (from j : ℕ)
    → from ≤ j
    → occurs query text j ≡ occurs query (drop from text) (j - from)
occurs-drop query text from j h =
    let e : from + (j - from) ≡ j = omega arith in
    ap (starts_with query) (ap (λ k. drop k text) (sym e) ∙ sym (drop-drop from (j - from) text))

pub index_of_from-IsFirstFrom :
    (query text : Text) (from i : ℕ)
    → index_of_from query text from ≡ some i
    → IsFirstFrom query text from i
unfolding index_of_from
index_of_from-IsFirstFrom query text from i h =
    elim (Option-cases (index_of query (drop from text))) [
      | inl gone ↦ absurd (ground (arith, h, gone))
      | inr (k, found) ↦
          let e : i ≡ from + k = ground (arith, h, found) in
          let first = index_of-IsFirst query (drop from text) k found in
          rw e (record {
            behind = omega arith;
            here = rw (← drop-drop from k text) first.here;
            earlier = λ j le lt.
                occurs-drop query text from j le ∙ first.earlier (j - from) (omega arith);
          })
    ]

pub index_of_from-absent :
    (query text : Text) (from j : ℕ)
    → query ≢ []
    → index_of_from query text from ≡ none
    → from ≤ j
    → occurs query text j ≡ false
unfolding index_of_from
index_of_from-absent query text from j q h le =
    elim (Option-cases (index_of query (drop from text))) [
      | inl gone ↦
          occurs-drop query text from j le
          ∙ index_of-absent query (drop from text) (j - from) q gone
      | inr (k, found) ↦ absurd (ground (arith, h, found))
    ]
