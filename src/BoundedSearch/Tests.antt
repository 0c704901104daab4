-- ===== src/BoundedSearch/Tests.antt =====
-- The search of src/bounded-search.ts on small inputs.
use kiro_fabric.Prelude.{ℕ, ◌≡◌, ◌≤◌, ◌↔◌, Bool, true, leb, ◌==◌, ◌||◌, refl, arith}
use kiro_fabric.BoundedSearch.{largest_fitting_integer}
use kiro_fabric.BoundedSearch.Laws.{
  Found, largest_fitting_integer-Found, largest_fitting_integer-threshold,
}

abbrev at_most_nine : ℕ → Bool
at_most_nine k = leb k 9

abbrev gappy : ℕ → Bool
gappy k = leb k 4 || k == 8

nine : largest_fitting_integer 2 40 at_most_nine ≡ 9
unfolding largest_fitting_integer
nine = refl

inverted : largest_fitting_integer 7 3 at_most_nine ≡ 7
unfolding largest_fitting_integer
inverted = refl

largest_fitting_integer-Found_example : Found 1 12 gappy (largest_fitting_integer 1 12 gappy)
largest_fitting_integer-Found_example = largest_fitting_integer-Found 1 12 gappy (omega arith)

largest_fitting_integer-threshold_example :
    (at_most_nine 6 ≡ true) ↔ (6 ≤ largest_fitting_integer 2 40 at_most_nine)
largest_fitting_integer-threshold_example =
    largest_fitting_integer-threshold 2 40 at_most_nine (omega arith)
      (λ j k a b c t. ground (arith, t)) 6 (omega arith) (omega arith)
