-- ===== src/Registry/Invocation.antt =====
-- `invoke` and `close` of src/core/action-registry.ts as steps of a world with any number of calls
-- in flight. Each `await` ends a step; an event says what the awaited code gave, what the clock
-- read, and whether the call was aborted or past its deadline at the checks of that step.

pub mod Steps
pub mod Flights
pub mod Writes
pub mod Moves
pub mod Agreement
pub mod Handlers
pub mod Exclusion
use kiro_fabric.Prelude.{
  ℕ, ◌+◌, ◌-◌, Bool, true, false, ◌&&◌, ◌||◌, not, ltb, leb, ◌==◌, if◌then◌else◌, List, [], ◌∷◌,
  Option, none, some, length, take, Text, Outcome, ok, err,
}
use kiro_fabric.Registry.Resources.{Resource, wildcard, overlaps}
use kiro_fabric.JsonBudget.{Bounded}

pub data ProviderName : Type 0 where
  local_provider mcp_provider : ProviderName
  provider : ℕ → ProviderName

pub data ActionName : Type 0 where
  write_action edit_action shell_action : ActionName
  action : ℕ → ActionName

pub data Risk : Type 0 where
  read write execute network : Risk

pub data EffectKind : Type 0 where
  no_effect reads writes emission : EffectKind

-- A resolved descriptor, as far as dispatch reads it.
pub record Action : Type 0 where
  pub provider : ProviderName
  pub name : ActionName
  pub risk : Risk
  pub effect : Option EffectKind
  pub effect_resources : Option (List Resource)

-- The operation of a commit acknowledgement.
pub data Operation : Type 0 where
  sets deletes writes_file edits_file : Operation

pub data Failure : Type 0 where
  closed aborted bad_arguments stray_options bad_preparation invalid_arguments : Failure
  entry_quota byte_quota overlapping result_budget page_budget cleanup_failed : Failure
  -- an error of a provider, of the approval or of a reservation, with its acknowledgement
  raised : Text → Option Operation → Failure

pub record Audit : Type 0 where
  pub ref : ℕ
  pub call_id : ℕ
  pub started_at : ℕ
  pub ended_at : Option ℕ
  pub success : Option Bool
  pub error : Option Text
  pub result_chars : Option ℕ
  pub is_truncated : Bool
  pub acknowledgement : Option Operation
  pub is_uncertain : Bool

-- What the code of other modules and of Node supplies: the bytes of an audit and of an audit list
-- as JSON, an error's message, and the size of a truncation envelope.
pub record Host : Type 0 where
  pub audit_bytes : Audit → ℕ
  pub list_bytes : List Audit → ℕ
  pub message : Failure → Text
  pub envelope_chars : ℕ → ℕ

-- The part of an execution's context that its calls share.
pub record Context : Type 0 where
  pub audits : List Audit
  pub audit_budget : Option ℕ
  pub max_audit_entries : Option ℕ
  pub max_audit_bytes : Option ℕ
  pub max_result_chars : ℕ

pub record ActiveWrite : Type 0 where
  pub call_id : ℕ
  pub ref : ℕ
  pub resources : List Resource

-- What the call waits for.
pub data Phase : Type 0 where
  describing preparing reserving approving invoking : Phase
  releasing : Bounded → ℕ → Phase
  cleaning : Failure → Phase

pub record Flight : Type 0 where
  pub id : ℕ
  pub context : ℕ
  pub ref : ℕ
  pub phase : Phase
  pub action : Action
  pub call_id : ℕ
  pub resources : List Resource
  pub audit : Audit
  pub reservation : ℕ
  pub holds_release : Bool
  pub is_started : Bool
  pub published : Option Operation

-- What a call has asked other code to do, newest first.
pub data Effect : Type 0 where
  approval_asked approval_given invocation_started : ℕ → Effect

pub record World : Type 0 where
  pub is_closed : Bool
  pub active_writes : List ActiveWrite
  pub contexts : ℕ → Context
  pub flights : List Flight
  pub results : List (ℕ × Outcome Failure Bounded)
  pub log : List Effect

-- The outcome of preparation, with what dispatch reads of it.
pub record Prepared : Type 0 where
  pub is_record : Bool
  pub is_valid : Bool
  pub provider_resources : Option (List Resource)
  pub call_id : ℕ
  pub now : ℕ

-- A provider's value: the text of the formatted result, whether it reports a change, and whether it
-- is a page of a catalog.
pub record Value : Type 0 where
  pub text : Text
  pub changed : Bool
  pub is_catalog : Bool

pub data Event : Type 0 where
  begins : (id context ref : ℕ) (is_record is_aborted has_stray_options : Bool) → Event
  described : ℕ → Outcome Failure Action → Event
  prepared : ℕ → Outcome Failure Prepared → Bool → Event
  reserved : ℕ → Outcome Failure Bool → Bool → ℕ → Event
  approved : ℕ → Outcome Failure (Unit {0}) → Bool → ℕ → Event
  invoked : ℕ → Outcome Failure Value → (stop late : Bool) → ℕ → Event
  released : ℕ → Outcome Failure (Unit {0}) → ℕ → Event
  cleaned : ℕ → Outcome Failure (Unit {0}) → ℕ → Event
  closes : Event

abbrev pub audit_terminal_bytes : ℕ
audit_terminal_bytes = 8_192

unfoldable pub is_write_like : Action → Bool
is_write_like a = elim a.risk [
  | write ↦ true
  | _ ↦ elim a.effect [ some writes ↦ true | _ ↦ false ]
]

unfoldable pub is_shell : Action → Bool
is_shell a = elim a.provider [
  | local_provider ↦ elim a.name [ shell_action ↦ true | _ ↦ false ]
  | _ ↦ false
]

-- What a value of a local write or edit that reports a change has published.
unfoldable pub publication : Action → Value → Option Operation
publication a v = elim a.provider [
  | local_provider ↦ elim a.name [
    | write_action ↦ if v.changed then some writes_file else none
    | edit_action ↦ if v.changed then some edits_file else none
    | _ ↦ none
  ]
  | _ ↦ none
]

unfoldable pub effect_resources : Action → Option (List Resource) → List Resource
effect_resources a (some rs) = rs
effect_resources a none = elim a.effect_resources [
  | some rs ↦ rs
  | none ↦ if is_write_like a then wildcard ∷ [] else []
]

-- The loop over the active writes.
unfoldable pub is_conflicting : List Resource → List ActiveWrite → Bool
is_conflicting resources [] = false
is_conflicting resources (a ∷ rest) =
    overlaps resources a.resources || is_conflicting resources rest

unfoldable pub delete_write : ℕ → List ActiveWrite → List ActiveWrite
delete_write call_id [] = []
delete_write call_id (a ∷ rest) =
    if a.call_id == call_id then rest else a ∷ delete_write call_id rest

unfoldable pub find : ℕ → List Flight → Option Flight
find id [] = none
find id (f ∷ fs) = if f.id == id then some f else find id fs

-- The flight of `g` goes on as `g`.
unfoldable pub update : Flight → List Flight → List Flight
update g [] = []
update g (f ∷ fs) = if f.id == g.id then g ∷ fs else f ∷ update g fs

unfoldable pub remove : ℕ → List Flight → List Flight
remove id [] = []
remove id (f ∷ fs) = if f.id == id then fs else f ∷ remove id fs

-- An audit is one object: the list of its context shows what its call has written to it.
unfoldable pub write_audit : Audit → List Audit → List Audit
write_audit a [] = []
write_audit a (b ∷ rest) = if b.call_id == a.call_id then a ∷ rest else b ∷ write_audit a rest

unfoldable pub put_context : ℕ → Context → World → World
put_context k c w = record w { contexts = λ j. if j == k then c else w.contexts j }

abbrev pub exceeds : ℕ → Option ℕ → Bool
exceeds n none = false
exceeds n (some limit) = ltb limit n

-- A call that ends before its dispatch leaves nothing but its result.
unfoldable pub drop_flight : ℕ → Failure → World → World
drop_flight id e w = record w { flights = remove id w.flights; results = (id, err e) ∷ w.results }
