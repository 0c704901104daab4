-- ===== src/JsonBudget/Escape.antt =====
-- JSON.stringify's text for a string's content, without the quotes, as ECMA-262 describes it
-- (QuoteJSONString). It is the measure that src/runtime/json-budget.ts budgets by.
use kiro_fabric.Prelude.{
  ℕ, ◌+◌, ◌/◌, ◌%◌, ◌&&◌, ◌||◌, ltb, ◌==◌, if◌then◌else◌, [], ◌∷◌, ◌++◌, Text, is_high_surrogate,
  is_low_surrogate,
}

hex_digit : ℕ → ℕ
hex_digit d = if ltb d 10 then 48 + d else 87 + d

-- `\uXXXX` with lower-case digits.
unfoldable pub unicode_escape : ℕ → Text
unfolding hex_digit
unicode_escape unit =
    0x5c
    ∷ 117
    ∷ hex_digit (unit / 4096)
    ∷ hex_digit (unit / 256 % 16)
    ∷ hex_digit (unit / 16 % 16)
    ∷ hex_digit (unit % 16)
    ∷ []

-- A unit that is no half of a pair.
unfoldable pub escape_unit : ℕ → Text
unfolding unicode_escape
escape_unit unit =
    if unit == 0x22 || unit == 0x5c
    then 0x5c ∷ unit ∷ []
    else if unit == 8
    then 0x5c ∷ 98 ∷ []
    else if unit == 9
    then 0x5c ∷ 116 ∷ []
    else if unit == 10
    then 0x5c ∷ 110 ∷ []
    else if unit == 12
    then 0x5c ∷ 102 ∷ []
    else if unit == 13
    then 0x5c ∷ 114 ∷ []
    else if ltb unit 0x20
    then unicode_escape unit
    else if is_high_surrogate unit || is_low_surrogate unit
    then unicode_escape unit
    else unit ∷ []

unfoldable pub escape : Text → Text
unfolding escape_unit
escape [] = []
escape (unit ∷ []) = escape_unit unit
escape (unit ∷ next ∷ rest) =
    if is_high_surrogate unit && is_low_surrogate next
    then unit ∷ next ∷ escape rest
    else escape_unit unit ++ escape (next ∷ rest)
