-- ===== src/BoundedSearch/Laws.antt =====
-- What the search of src/bounded-search.ts returns, with and without a monotone test.
use kiro_fabric.Prelude.{
  ℕ, zero, suc, ◌+◌, ◌-◌, ◌/◌, ◌≤◌, ◌<◌, ltb, Bool, true, false, Bool-cases, arith, ◌≡◌, ◌⊎◌, inl,
  inr, refl, ltb→lt, ◌↔◌,
}
use native.Mathlib.Decide.{dec_le}
use kiro_fabric.BoundedSearch.{search_loop, largest_fitting_integer}

-- The loop's result `r`, seen from the interval that it was started on.
pub record Found (lower upper : ℕ) (fits : ℕ → Bool) (r : ℕ) : Type 0 where
  pub above : lower ≤ r
  pub below : r ≤ upper
  pub fitting : (r ≡ lower) ⊎ (fits r ≡ true)
  pub maximal : (r ≡ upper) ⊎ (fits (r + 1) ≡ false)

search_loop-Found :
    (fuel lower upper : ℕ) (fits : ℕ → Bool)
    → lower ≤ upper
    → upper - lower ≤ fuel
    → Found lower upper fits (search_loop fuel lower upper fits)
unfolding search_loop
search_loop-Found zero lower upper fits h f = record {
  above = omega arith;
  below = h;
  fitting = inl refl;
  maximal = inl (omega arith);
}
search_loop-Found (suc fuel) lower upper fits h f = elim (Bool-cases (ltb lower upper)) [
  | inl less ↦
      let middle = (lower + upper + 1) / 2 in
      let before : lower < upper = ltb→lt lower upper less in
      elim (Bool-cases (fits middle)) [
        | inl good ↦
            let rest = search_loop-Found fuel middle upper fits (omega arith) (omega arith) in
            rw (less, good)
              (record {
                above = omega (arith, rest.above);
                below = rest.below;
                fitting = ground (arith, rest.fitting, good);
                maximal = rest.maximal;
              })
        | inr bad ↦
            let rest = search_loop-Found fuel lower (middle - 1) fits (omega arith) (omega arith) in
            let e : middle ≡ (middle - 1) + 1 = omega arith in
            rw (less, bad)
              (record {
                above = rest.above;
                below = omega (arith, rest.below);
                fitting = rest.fitting;
                maximal = ground (arith, rest.maximal, bad);
              })
      ]
  | inr stop ↦
      rw stop (record {
        above = omega arith;
        below = h;
        fitting = inl refl;
        maximal = inl (ground arith);
      })
]

-- On an interval that is not inverted and for any test, the result lies in the interval, passes
-- unless it is the lower end, and the next integer fails unless the upper end was reached.
pub largest_fitting_integer-Found :
    (lower upper : ℕ) (fits : ℕ → Bool)
    → lower ≤ upper
    → Found lower upper fits (largest_fitting_integer lower upper fits)
unfolding largest_fitting_integer
largest_fitting_integer-Found lower upper fits h =
    search_loop-Found (upper - lower) lower upper fits h (omega arith)

-- The test never recovers above `lower`, up to `upper`.
abbrev pub IsMonotone : ℕ → ℕ → (ℕ → Bool) → Type 0
IsMonotone lower upper fits =
    (j k : ℕ) → lower < j → j ≤ k → k ≤ upper → fits k ≡ true → fits j ≡ true

-- On an interval that is not inverted and for a test that is first true and then false, the
-- integers above the lower end and up to the upper end that pass are exactly those up to the
-- result.
pub largest_fitting_integer-threshold :
    (lower upper : ℕ) (fits : ℕ → Bool)
    → lower ≤ upper
    → IsMonotone lower upper fits
    → (k : ℕ) → lower < k
    → k ≤ upper
    → (fits k ≡ true) ↔ (k ≤ largest_fitting_integer lower upper fits)
largest_fitting_integer-threshold lower upper fits h mono k above below = (only, all)
  where
    r : ℕ
    r = largest_fitting_integer lower upper fits

    found : Found lower upper fits r
    found = largest_fitting_integer-Found lower upper fits h

    only : fits k ≡ true → k ≤ r
    only t = elim (dec_le k r) [
      | yes le ↦ le
      | no gt ↦ absurd (
          ground (
            arith,
            found.maximal,
            found.above,
            found.below,
            mono (r + 1) k (omega (arith, found.above)) (omega arith) below t,
          ))
    ]

    all : k ≤ r → fits k ≡ true
    all le = mono k r above le found.below (ground (arith, found.fitting, found.above))

-- On an interval without another integer the result is its lower end.
pub largest_fitting_integer_empty :
    (lower upper : ℕ) (fits : ℕ → Bool)
    → upper ≤ lower
    → largest_fitting_integer lower upper fits ≡ lower
unfolding largest_fitting_integer search_loop
largest_fitting_integer_empty lower upper fits h =
    let e : upper - lower ≡ 0 = omega arith in rw e refl
