-- ===== src/Registry/Invocation/Moves.antt =====
-- What the steps of src/core/action-registry.ts do to the calls in flight and to the table of
-- active writes: five moves, and what each keeps.
use kiro_fabric.Prelude.{
  ℕ, Bool, true, false, ◌&&◌, ◌≡◌, ◌≢◌, List, ◌∷◌, Option, none, some, if◌then◌else◌, length,
}
use kiro_fabric.Registry.Invocation.{
  ActiveWrite, Phase, describing, preparing, Flight, is_write_like, is_conflicting, delete_write,
  find, update, remove,
}
use kiro_fabric.Registry.Invocation.Flights.{IsDistinct, tally}
use kiro_fabric.Registry.Invocation.Writes.{find_write, IsExclusive}

-- The call has passed its quotas: it has an audit, and if it writes, a write intent.
abbrev pub is_dispatched : Phase → Bool
is_dispatched describing = false
is_dispatched preparing = false
is_dispatched _ = true

-- The entry that a dispatched call holds in the table.
abbrev pub intent_of : Flight → Option ActiveWrite
intent_of f =
    if is_write_like f.action
    then some (record { call_id = f.call_id; ref = f.ref; resources = f.resources })
    else none

abbrev pub holding : Flight → ℕ
holding f = if is_dispatched f.phase && is_write_like f.action then 1 else 0

abbrev pub admit : Option ActiveWrite → List ActiveWrite → List ActiveWrite
admit none ws = ws
admit (some a) ws = a ∷ ws

-- `g` is the same call as `f`, further on.
pub record Continues (f g : Flight) : Type 0 where
  pub same_id : g.id ≡ f.id
  pub same_call : g.call_id ≡ f.call_id
  pub same_ref : g.ref ≡ f.ref
  pub same_resources : g.resources ≡ f.resources
  pub same_action : g.action ≡ f.action
  pub same_stage : is_dispatched g.phase ≡ is_dispatched f.phase

-- No active write and no dispatched call has the id.
pub record IsFresh (fs : List Flight) (ws : List ActiveWrite) (call_id : ℕ) : Type 0 where
  pub unlisted : find_write call_id ws ≡ none
  pub unused :
      (j : ℕ) (h : Flight) → find j fs ≡ some h → is_dispatched h.phase ≡ true → h.call_id ≢ call_id

pub data Move (fs : List Flight) (ws : List ActiveWrite)
    : List Flight → List ActiveWrite → Type 0 where
  stays : Move fs ws fs ws
  begins :
      (f : Flight) → find f.id fs ≡ none → is_dispatched f.phase ≡ false → Move fs ws (f ∷ fs) ws
  goes_on : (f g : Flight) → find g.id fs ≡ some f → Continues f g → Move fs ws (update g fs) ws
  prepares :
      (f g : Flight)
      → find g.id fs ≡ some f
      → is_dispatched f.phase ≡ false
      → is_dispatched g.phase ≡ false
      → Move fs ws (update g fs) ws
  is_admitted :
      (f g : Flight)
      → find g.id fs ≡ some f
      → is_dispatched f.phase ≡ false
      → is_dispatched g.phase ≡ true
      → IsFresh fs ws g.call_id
      → (is_write_like g.action ≡ true → is_conflicting g.resources ws ≡ false)
      → Move fs ws (update g fs) (admit (intent_of g) ws)
  is_dropped :
      (f : Flight)
      → find f.id fs ≡ some f
      → is_dispatched f.phase ≡ false
      → Move fs ws (remove f.id fs) ws
  ends :
      (f : Flight)
      → find f.id fs ≡ some f
      → is_dispatched f.phase ≡ true
      → Move fs ws (remove f.id fs) (delete_write f.call_id ws)

-- The calls in flight and the table agree, and no two entries of the table conflict.
pub record Agrees (fs : List Flight) (ws : List ActiveWrite) : Type 0 where
  pub distinct : IsDistinct fs
  pub exclusive : IsExclusive ws
  pub held :
      (id : ℕ) (f : Flight)
      → find id fs ≡ some f
      → is_dispatched f.phase ≡ true
      → find_write f.call_id ws ≡ intent_of f
  pub apart :
      (i j : ℕ) (f g : Flight)
      → find i fs ≡ some f
      → find j fs ≡ some g
      → is_dispatched f.phase ≡ true
      → is_dispatched g.phase ≡ true
      → f.call_id ≡ g.call_id
      → i ≡ j
  pub counted : length ws ≡ tally holding fs
