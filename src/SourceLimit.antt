-- ===== src/SourceLimit.antt =====
-- src/runtime/source-limit.ts: the limits of a program's source and of its payloads. The length in
-- UTF-8, Node's Buffer.byteLength, is a parameter. An error is what the source puts into its message.
pub mod Payloads
mod Tests
use kiro_fabric.Prelude.{
  ℕ, ◌+◌, ◌*◌, min, max, Bool, ltb, if◌then◌else◌, List, [], ◌∷◌, Option, none, some, length, Text,
}

pub data LimitError : Type 0 where
  source_too_large : (maximum received : ℕ) → LimitError
  too_many_keys key_too_large not_a_string : LimitError
  payloads_too_large : (maximum received : ℕ) → LimitError
  transpiled_too_large : (maximum received : ℕ) → LimitError

abbrev pub default_source_bytes : ℕ
default_source_bytes = 256 * 1024

abbrev pub min_source_bytes : ℕ
min_source_bytes = 1_024

abbrev pub max_source_bytes : ℕ
max_source_bytes = 2 * 1024 * 1024

abbrev pub max_payload_keys : ℕ
max_payload_keys = 128

abbrev pub max_payload_key_bytes : ℕ
max_payload_key_bytes = 1_024

-- `none` is a value that is no safe integer; a negative one is raised to the minimum as 0 is.
unfoldable pub effective_source_limit : Option ℕ → ℕ
effective_source_limit none = default_source_bytes
effective_source_limit (some value) = max min_source_bytes (min max_source_bytes value)

-- An own key with its value; `none` is a value that is no string.
pub record Payload : Type 0 where
  pub key : Text
  pub value : Option Text

module _ (utf8_bytes : Text → ℕ) where
  unfoldable pub source_limit_error : Text → ℕ → Option LimitError
  source_limit_error code maximum =
      let bytes = utf8_bytes code in
      if ltb maximum bytes then some (source_too_large maximum bytes) else none

  -- The loop over the keys.
  unfoldable pub payloads_loop : List Payload → ℕ → ℕ → Option LimitError
  payloads_loop [] maximum total = none
  payloads_loop (p ∷ ps) maximum total =
      if ltb max_payload_key_bytes (utf8_bytes p.key) then some key_too_large else elim p.value [
        | none ↦ some not_a_string
        | some value ↦
            let sum = total + (utf8_bytes p.key + utf8_bytes value) in
            let rest = payloads_loop ps maximum sum in
            if ltb maximum sum then some (payloads_too_large maximum sum) else rest
      ]

  unfoldable pub payloads_limit_error : Option (List Payload) → ℕ → Option LimitError
  payloads_limit_error none maximum = none
  payloads_limit_error (some ps) maximum =
      if ltb max_payload_keys (length ps) then some too_many_keys else payloads_loop ps maximum 0

  unfoldable pub transpiled_limit_error : Text → Option LimitError
  transpiled_limit_error code =
      let maximum = max_source_bytes * 4 in
      let bytes = utf8_bytes code in
      if ltb maximum bytes then some (transpiled_too_large maximum bytes) else none
