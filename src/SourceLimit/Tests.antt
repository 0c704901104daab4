-- ===== src/SourceLimit/Tests.antt =====
-- Payloads at the limits of src/runtime/source-limit.ts.
use kiro_fabric.Prelude.{◌≡◌, ◌↔◌, refl, [], ◌∷◌, none, some, length}
use kiro_fabric.SourceLimit.{
  Payload, payloads_too_large, not_a_string, payloads_loop, payloads_limit_error,
}
use kiro_fabric.SourceLimit.Payloads.{IsAccepted, payloads_limit_error-IsAccepted}

abbrev greeting : Payload
greeting = record { key = 1 ∷ 2 ∷ []; value = some (3 ∷ []) }

one_byte_over :
    payloads_limit_error length (some (greeting ∷ greeting ∷ [])) 5 ≡ some (payloads_too_large 5 6)
unfolding payloads_limit_error payloads_loop
one_byte_over = refl

no_string :
    payloads_limit_error length (some (record greeting { value = none } ∷ [])) 5 ≡ some not_a_string
unfolding payloads_limit_error payloads_loop
no_string = refl

payloads_limit_error-IsAccepted_example :
    (payloads_limit_error length (some (greeting ∷ greeting ∷ [])) 6 ≡ none)
    ↔ IsAccepted length (greeting ∷ greeting ∷ []) 6
payloads_limit_error-IsAccepted_example =
    payloads_limit_error-IsAccepted length (greeting ∷ greeting ∷ []) 6
