-- ===== src/SourceLimit/Payloads.antt =====
-- Which payloads src/runtime/source-limit.ts accepts.
use kiro_fabric.Prelude.{
  ℕ, ◌+◌, ◌≤◌, ◌≡◌, ◌↔◌, refl, List, [], ◌∷◌, Option, none, some, length, arith, Option-cases, inl,
  inr, Text, All,
}
use kiro_fabric.SourceLimit.{
  Payload, max_payload_keys, max_payload_key_bytes, payloads_loop, payloads_limit_error,
}

module _ (utf8_bytes : Text → ℕ) where
  pub value_bytes : Option Text → ℕ
  value_bytes none = 0
  value_bytes (some value) = utf8_bytes value

  -- All bytes of the keys and the values.
  pub total_bytes : List Payload → ℕ
  total_bytes [] = 0
  total_bytes (p ∷ ps) = utf8_bytes p.key + value_bytes p.value + total_bytes ps

  -- A short key and a string.
  pub record IsPayload (p : Payload) : Type 0 where
    pub short : utf8_bytes p.key ≤ max_payload_key_bytes
    pub value : Text
    pub is_string : p.value ≡ some value

  pub record IsAccepted (ps : List Payload) (maximum : ℕ) : Type 0 where
    pub few : length ps ≤ max_payload_keys
    pub each : All IsPayload ps
    pub within : total_bytes ps ≤ maximum

  loop_sound :
      (ps : List Payload) (maximum total : ℕ)
      → total ≤ maximum
      → payloads_loop utf8_bytes ps maximum total ≡ none
      → All IsPayload ps × (total + total_bytes ps ≤ maximum)
  unfolding payloads_loop total_bytes value_bytes
  loop_sound [] maximum total h run = (tt, omega arith)
  loop_sound (p ∷ ps) maximum total h run = elim (Option-cases p.value) [
    | inl missing ↦ absurd (ground (arith, run, missing))
    | inr (value, given) ↦
        let rest =
          loop_sound ps maximum (total + (utf8_bytes p.key + utf8_bytes value))
            (ground (arith, run, given)) (ground (arith, run, given)) in
        (
          (record { short = ground (arith, run); value = value; is_string = given }, rest.0),
          ground (arith, given, rest.1),
        )
  ]

  loop_complete :
      (ps : List Payload) (maximum total : ℕ)
      → All IsPayload ps
      → total + total_bytes ps ≤ maximum
      → payloads_loop utf8_bytes ps maximum total ≡ none
  unfolding payloads_loop total_bytes value_bytes
  loop_complete [] maximum total each h = refl
  loop_complete (p ∷ ps) maximum total each h =
      let given = each.0.is_string in
      let rest =
        loop_complete ps maximum (total + (utf8_bytes p.key + utf8_bytes each.0.value)) each.1
          (ground (arith, given, h)) in
      ground (arith, given, each.0.short, rest, h)

  -- Payloads are accepted exactly if there are at most 128, every key takes at most 1,024 bytes,
  -- every value is a string, and all keys and values together take at most the maximum.
  pub payloads_limit_error-IsAccepted :
      (ps : List Payload) (maximum : ℕ)
      → (payloads_limit_error utf8_bytes (some ps) maximum ≡ none) ↔ IsAccepted ps maximum
  unfolding payloads_limit_error
  payloads_limit_error-IsAccepted ps maximum = (
    (λ run.
        let (each, within) = loop_sound ps maximum 0 (omega arith) (ground (arith, run)) in
        record { few = ground (arith, run); each = each; within = omega (arith, within) }),
    (λ a. ground (arith, a.few, loop_complete ps maximum 0 a.each (omega (arith, a.within)))),
  )
