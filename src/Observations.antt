-- ===== src/Observations.antt =====
-- FoveaObservationExecution of src/fovea/observations.ts: the bounded, ordered prefix of host facts
-- that an execution reports. Whether an event can be cloned and whether the observer throws are
-- arguments; `log` is what the observer has been called with, newest first.
pub mod Order
mod Tests
use kiro_fabric.Prelude.{ℕ, ◌+◌, Bool, true, not, leb, if◌then◌else◌, List, [], ◌∷◌}

pub data Notice : Type 0 where
  observed : (sequence operation_id event : ℕ) → Notice
  gapped : Notice

pub record Execution : Type 0 where
  pub sequence : ℕ
  pub is_gapped : Bool
  pub log : List Notice

unfoldable pub gap : Execution → Execution
gap x = if x.is_gapped then x else record x { is_gapped = true; log = gapped ∷ x.log }

unfoldable pub observe :
    (maximum : ℕ)
    → Execution
    → (operation_id event : ℕ) → (is_cloned is_accepted : Bool) → Execution
observe maximum x operation_id event is_cloned is_accepted =
    let sent : Execution = record x {
      sequence = x.sequence + 1;
      log = observed (x.sequence + 1) operation_id event ∷ x.log;
    } in
    if x.is_gapped
    then x
    else if leb maximum x.sequence
    then gap x
    else if not is_cloned
    then gap x
    else if is_accepted
    then sent
    else gap sent

pub data Call : Type 0 where
  observes : (operation_id event : ℕ) (is_cloned is_accepted : Bool) → Call
  gaps : Call

unfoldable pub run : ℕ → List Call → Execution → Execution
run maximum [] x = x
run maximum (gaps ∷ calls) x = run maximum calls (gap x)
run maximum (observes operation_id event is_cloned is_accepted ∷ calls) x =
    run maximum calls (observe maximum x operation_id event is_cloned is_accepted)
