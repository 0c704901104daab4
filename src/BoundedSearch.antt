-- ===== src/BoundedSearch.antt =====
-- src/bounded-search.ts: the binary search that every page budget of the program goes through.
-- JavaScript's safe integers are natural numbers here: all callers pass character and line counts.
pub mod Laws
mod Tests
use kiro_fabric.Prelude.{ℕ, zero, suc, ◌+◌, ◌-◌, ◌/◌, ltb, Bool, if◌then◌else◌}

-- One round of the loop per unit of fuel; a round leaves the interval shorter.
pub search_loop : ℕ → ℕ → ℕ → (ℕ → Bool) → ℕ
search_loop zero lower upper fits = lower
search_loop (suc fuel) lower upper fits =
    let middle = (lower + upper + 1) / 2 in
    let above = search_loop fuel middle upper fits in
    let below = search_loop fuel lower (middle - 1) fits in
    if ltb lower upper then (if fits middle then above else below) else lower

unfoldable pub largest_fitting_integer : ℕ → ℕ → (ℕ → Bool) → ℕ
unfolding search_loop
largest_fitting_integer lower upper fits = search_loop (upper - lower) lower upper fits
