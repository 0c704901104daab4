-- ===== src/JsonBudget.antt =====
-- src/runtime/json-budget.ts: bounded JSON text. `json_string_prefix` cuts a string so that its
-- escaped form fits a budget; `bounded_result` of src/core/action-registry.ts uses it to fit an
-- oversized result into a truncation envelope.
pub mod Escape
pub mod Prefix
pub mod Preflight
mod Tests
use kiro_fabric.Prelude.{
  ℕ, ◌+◌, ◌-◌, ◌≤◌, ◌<◌, Bool, true, false, ◌&&◌, ◌||◌, not, ltb, leb, ◌==◌, if◌then◌else◌, List,
  [], ◌∷◌, take, length, Text, is_high_surrogate, is_low_surrogate, Outcome, ok, err,
}

-- The five control characters with a two-character escape.
unfoldable pub has_short_escape : ℕ → Bool
has_short_escape unit = unit == 8 || unit == 9 || unit == 10 || unit == 12 || unit == 13

-- What one step of the scan adds to the escaped length, for a unit that is or is not the first half
-- of a pair.
unfoldable pub unit_cost : Bool → ℕ → ℕ
unfolding has_short_escape
unit_cost pair unit =
    if unit == 0x22 || unit == 0x5c
    then 2
    else if ltb unit 0x20
    then (if has_short_escape unit then 2 else 6)
    else if not pair && leb 0xd800 unit && leb unit 0xdfff
    then 6
    else if pair
    then 2
    else 1

-- The `while` loop: the text behind `end`, and the end that it stops at.
unfoldable pub scan : ℕ → Text → ℕ → ℕ → ℕ
unfolding unit_cost
scan content_chars [] end used = end
scan content_chars (unit ∷ []) end used =
    if ltb content_chars (used + unit_cost false unit) then end else end + 1
scan content_chars (unit ∷ next ∷ rest) end used =
    let pair = is_high_surrogate unit && is_low_surrogate next in
    let cost = unit_cost pair unit in
    let after_pair = scan content_chars rest (end + 2) (used + cost) in
    let after_unit = scan content_chars (next ∷ rest) (end + 1) (used + cost) in
    if ltb content_chars (used + cost) then end else if pair then after_pair else after_unit

unfoldable pub json_string_prefix : Text → ℕ → Text
unfolding scan
json_string_prefix value content_chars = take (scan content_chars value 0 0) value

-- `boundedResult` returns the value itself or the envelope around a preview of its text.
pub data Bounded : Type 0 where
  whole : Bounded
  truncated : Text → Bounded

pub data BudgetError : Type 0 where
  invalid_budget no_room_for_metadata : BudgetError

module _ (envelope_chars : ℕ → ℕ) where
  -- `envelope_chars n` is the length of JSON.stringify of the envelope of a text of `n` characters
  -- with an empty preview.
  unfoldable pub bounded_result : Text → ℕ → Outcome BudgetError Bounded
  bounded_result text maximum =
      if ltb maximum 1
      then err invalid_budget
      else if leb (length text) maximum
      then ok whole
      else if ltb maximum (envelope_chars (length text))
      then err no_room_for_metadata
      else ok (truncated (json_string_prefix text (maximum - envelope_chars (length text))))
