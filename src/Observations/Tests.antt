-- ===== src/Observations/Tests.antt =====
-- An execution of src/fovea/observations.ts whose observer fails at the second event.
use kiro_fabric.Prelude.{◌≡◌, refl, List, [], ◌∷◌, true, false, arith}
use kiro_fabric.Observations.{Execution, observed, gapped, gap, observe, Call, observes, gaps, run}
use kiro_fabric.Observations.Order.{IsOrdered, starts, run-IsOrdered}

abbrev fresh : Execution
fresh = record { sequence = 0; is_gapped = false; log = [] }

abbrev calls : List Call
calls = observes 5 70 true true ∷ observes 5 71 true false ∷ observes 6 72 true true ∷ gaps ∷ []

one_gap : (run 3 calls fresh).log ≡ gapped ∷ observed 2 5 71 ∷ observed 1 5 70 ∷ []
unfolding run observe gap
one_gap = refl

fresh-IsOrdered : IsOrdered 3 fresh
fresh-IsOrdered = record { prefix = []; numbered = starts; bounded = omega arith; log = refl }

run-IsOrdered_example : IsOrdered 3 (run 3 calls fresh)
run-IsOrdered_example = run-IsOrdered 3 calls fresh fresh-IsOrdered
