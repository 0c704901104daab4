-- ===== src/Registry/Tests.antt =====
-- Calls of src/core/action-registry.ts that run side by side.
use kiro_fabric.Prelude.{
  ℕ, ◌+◌, ◌*◌, ◌≡◌, refl, true, false, List, [], ◌∷◌, ◌++◌, none, some, ok, err, arith, length,
}
use kiro_fabric.JsonBudget.{whole, bounded_result}
use kiro_fabric.Registry.Resources.{named, overlaps}
use kiro_fabric.Registry.Invocation.{
  Action, ProviderName, ActionName, Risk, overlapping, closed, Host, Context, Phase, Flight, World,
  Event, is_write_like, is_shell, publication, effect_resources, is_conflicting, delete_write, find,
  update, remove, write_audit, put_context, drop_flight,
}
use kiro_fabric.Registry.Invocation.Steps.{
  finish, fail, begin, on_described, dispatch, on_prepared, on_reserved, on_approved, deliver,
  on_invoked, on_released, on_cleaned, resume, step, new_audit,
}
use kiro_fabric.Registry.Invocation.Flights.{tally}
use kiro_fabric.Registry.Invocation.Writes.{find_write}
use kiro_fabric.Registry.Invocation.Moves.{holding, Agrees, IsFresh}
use kiro_fabric.Registry.Invocation.Exclusion.{Reach, writes_exclusive, active_writes_counted}

program : Unit {0}
unfolding is_write_like is_shell publication effect_resources is_conflicting delete_write find
    update remove write_audit put_context drop_flight finish fail begin on_described dispatch
    on_prepared on_reserved on_approved deliver on_invoked on_released on_cleaned resume step
    overlaps bounded_result tally find_write
program = tt

abbrev host : Host
host = record {
  audit_bytes = λ a. 90;
  list_bytes = λ audits. 2 + 91 * length audits;
  message = λ e. [];
  envelope_chars = λ n. 60;
}

abbrev context : Context
context = record {
  audits = [];
  audit_budget = none;
  max_audit_entries = some 8;
  max_audit_bytes = some 20_000;
  max_result_chars = 4_000;
}

abbrev idle : World
idle = record {
  is_closed = false;
  active_writes = [];
  contexts = λ k. context;
  flights = [];
  results = [];
  log = [];
}

abbrev write_file : Action
write_file = record {
  provider = ProviderName.local_provider;
  name = ActionName.write_action;
  risk = Risk.write;
  effect = none;
  effect_resources = none;
}

abbrev prepares : ℕ → ℕ → Event
prepares id file =
    Event.prepared id
      (ok (record {
        is_record = true;
        is_valid = true;
        provider_resources = some (named file ∷ []);
        call_id = 100 + id;
        now = 5;
      }))
      false

abbrev after : World → List Event → World
after w [] = w
after w (e ∷ es) = after (step host w e) es

abbrev opening : List Event
opening =
    Event.begins 1 0 70 true false false
    ∷ Event.described 1 (ok write_file)
    ∷ Event.begins 2 0 71 true false false
    ∷ Event.described 2 (ok write_file)
    ∷ prepares 1 30
    ∷ []

-- The second write of the same file is turned down while the first waits for its approval.
second_write_fails :
    (after idle (opening ++ prepares 2 30 ∷ [])).results ≡ (2, err overlapping) ∷ []
unfolding program
second_write_fails = refl

-- A call that is approved in an open registry delivers its result, and its intent ends.
delivered :
    let w = after idle (
      opening
      ++ Event.reserved 1 (ok true) false 6
        ∷ Event.approved 1 (ok tt) false 7
        ∷ Event.invoked 1
            (ok (record { text = 1 ∷ 2 ∷ []; changed = true; is_catalog = false }))
            false
            false
            8
        ∷ Event.released 1 (ok tt) 9
        ∷ []) in
    (w.results ≡ (1, ok whole) ∷ []) × (w.active_writes ≡ [])
unfolding program
delivered = (refl, refl)

-- A registry that closes during the approval never starts the invocation.
closed_before_start :
    (after idle (
      opening
      ++ Event.reserved 1 (ok false) false 6
        ∷ Event.closes
        ∷ Event.approved 1 (ok tt) false 7
        ∷ [])).results
    ≡ (1, err closed) ∷ []
unfolding program
closed_before_start = refl

idle-Agrees : Agrees idle.flights idle.active_writes
unfolding program
idle-Agrees = record {
  distinct = tt;
  exclusive = tt;
  held = λ id f k d. cc;
  apart = λ i j f g k l d d' same. cc;
  counted = refl;
}

abbrev both : List Event
both = opening ++ prepares 2 31 ∷ []

-- Dispatched calls with other ids than 102.
IsFresh-second : IsFresh (after idle opening).flights (after idle opening).active_writes 102
unfolding program
IsFresh-second = record { unlisted = refl; unused = λ j h k d. ground arith }

IsFresh-first :
    IsFresh
      (after idle (
        Event.begins 1 0 70 true false false
        ∷ Event.described 1 (ok write_file)
        ∷ Event.begins 2 0 71 true false false
        ∷ Event.described 2 (ok write_file)
        ∷ [])).flights
      []
      101
unfolding program
IsFresh-first = record { unlisted = refl; unused = λ j h k d. ground arith }

both-Reach : Reach host idle (after idle both)
unfolding program
both-Reach =
    Reach.next (prepares 2 31)
      (Reach.next (prepares 1 30)
        (Reach.next (Event.described 2 (ok write_file))
          (Reach.next (Event.begins 2 0 71 true false false)
            (Reach.next (Event.described 1 (ok write_file))
              (Reach.next (Event.begins 1 0 70 true false false) Reach.here tt refl) tt refl)
            tt refl)
          tt refl)
        IsFresh-first refl)
      IsFresh-second refl

abbrev writing : ℕ → ℕ → ℕ → Flight
writing id ref file = record {
  id = id;
  context = 0;
  ref = ref;
  phase = Phase.reserving;
  action = write_file;
  call_id = 100 + id;
  resources = named file ∷ [];
  audit = new_audit ref (100 + id) 5;
  reservation = 8_284;
  holds_release = false;
  is_started = false;
  published = none;
}

writes_exclusive_example : overlaps (writing 1 70 30).resources (writing 2 71 31).resources ≡ false
unfolding program
writes_exclusive_example =
    writes_exclusive host 1 2 (writing 1 70 30) (writing 2 71 31) idle-Agrees both-Reach refl refl
      refl refl refl refl (omega arith)

active_writes_counted_example :
    (length (after idle both).active_writes ≡ tally holding (after idle both).flights)
    × ((after idle both).flights ≡ [] → (after idle both).active_writes ≡ [])
active_writes_counted_example = active_writes_counted host idle-Agrees both-Reach
