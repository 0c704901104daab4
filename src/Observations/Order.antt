-- ===== src/Observations/Order.antt =====
-- What the observer of src/fovea/observations.ts is called with.
use kiro_fabric.Prelude.{
  ℕ, ◌+◌, ◌≤◌, Bool, false, not, ◌≡◌, List, [], ◌∷◌, arith, leb, if◌then◌else◌, if_cases,
}
use kiro_fabric.Observations.{
  Notice, observed, gapped, Execution, gap, observe, Call, observes, gaps, run,
}

-- Observations that are numbered n, n - 1, … , 1.
pub data Numbered : ℕ → List Notice → Type 0 where
  starts : Numbered 0 []
  continues :
      {n : ℕ} {log : List Notice} (operation_id event : ℕ)
      → Numbered n log
      → Numbered (n + 1) (observed (n + 1) operation_id event ∷ log)

-- The observer has got a bounded prefix that is numbered without holes, and behind it one gap if
-- there was one.
pub record IsOrdered (maximum : ℕ) (x : Execution) : Type 0 where
  pub prefix : List Notice
  pub numbered : Numbered x.sequence prefix
  pub bounded : x.sequence ≤ maximum
  pub log : x.log ≡ (if x.is_gapped then gapped ∷ prefix else prefix)

gap-IsOrdered : (maximum : ℕ) (x : Execution) → IsOrdered maximum x → IsOrdered maximum (gap x)
unfolding gap
gap-IsOrdered maximum x o =
    if_cases (IsOrdered maximum) x.is_gapped (λ _. o)
      λ open_yet. record {
        prefix = o.prefix;
        numbered = o.numbered;
        bounded = o.bounded;
        log = ground (arith, open_yet, o.log);
      }

observe-IsOrdered :
    (maximum : ℕ) (x : Execution) (operation_id event : ℕ) (is_cloned is_accepted : Bool)
    → IsOrdered maximum x
    → IsOrdered maximum (observe maximum x operation_id event is_cloned is_accepted)
unfolding observe
observe-IsOrdered maximum x operation_id event is_cloned is_accepted o =
    if_cases (IsOrdered maximum) x.is_gapped (λ _. o)
      λ open_yet.
        if_cases (IsOrdered maximum) (leb maximum x.sequence) (λ _. gap-IsOrdered maximum x o)
          λ room.
            if_cases (IsOrdered maximum) (not is_cloned) (λ _. gap-IsOrdered maximum x o)
              λ _.
                if_cases (IsOrdered maximum) is_accepted (λ _. sent open_yet room)
                  (λ _. gap-IsOrdered maximum _ (sent open_yet room))
  where
    sent :
        x.is_gapped ≡ false
        → leb maximum x.sequence ≡ false
        → IsOrdered maximum (record x {
          sequence = x.sequence + 1;
          log = observed (x.sequence + 1) operation_id event ∷ x.log;
        })
    sent open_yet room = record {
      prefix = observed (x.sequence + 1) operation_id event ∷ o.prefix;
      numbered = continues operation_id event o.numbered;
      bounded = ground (arith, room);
      log = ground (arith, open_yet, o.log);
    }

-- From an ordered execution, whatever calls follow and whatever fails in them, the observer has
-- got observations that are numbered from 1 without holes, at most the maximum of them, and then
-- nothing more than a single gap.
pub run-IsOrdered :
    (maximum : ℕ) (calls : List Call) (x : Execution)
    → IsOrdered maximum x
    → IsOrdered maximum (run maximum calls x)
unfolding run
run-IsOrdered maximum [] x o = o
run-IsOrdered maximum (gaps ∷ calls) x o =
    run-IsOrdered maximum calls (gap x) (gap-IsOrdered maximum x o)
run-IsOrdered maximum (observes i e c a ∷ calls) x o =
    run-IsOrdered maximum calls (observe maximum x i e c a) (observe-IsOrdered maximum x i e c a o)
