-- ===== src/Deadline.antt =====
-- The deadline of src/runtime/deadline.ts without shared state. Times are whole microseconds, timeouts
-- whole milliseconds; a timeout that is not finite is `none`.
pub mod Laws
mod Tests
use kiro_fabric.Prelude.{
  ℕ, ◌+◌, ◌-◌, ◌*◌, ◌/◌, min, max, Bool, leb, ltb, if◌then◌else◌, Option, none, some, Outcome, ok,
  err,
}

pub record Deadline : Type 0 where
  pub started_at : ℕ
  pub maximum_at : ℕ
  pub expires_at : ℕ

abbrev pub milliseconds : ℕ → ℕ
milliseconds n = n * 1_000

unfoldable pub make_deadline : (timeout_ms maximum_ms now : ℕ) → Deadline
make_deadline timeout_ms maximum_ms now = record {
  started_at = now;
  maximum_at = now + milliseconds (max 1 maximum_ms);
  expires_at = now + milliseconds (min (max 1 maximum_ms) (max 1 timeout_ms));
}

-- `Math.round`.
abbrev pub effective_timeout_ms : Deadline → ℕ
effective_timeout_ms d = (d.expires_at - d.started_at + 500) / 1_000

abbrev pub is_expired : ℕ → Deadline → Bool
is_expired now d = leb d.expires_at now

abbrev pub remaining : ℕ → Deadline → ℕ
remaining now d = d.expires_at - now

unfoldable pub extend_to : ℕ → Option ℕ → Deadline → Deadline × ℕ
extend_to now none d = (d, effective_timeout_ms d)
extend_to now (some timeout_ms) d =
    let extended : Deadline = record d {
      expires_at =
          min d.maximum_at (max d.expires_at (d.started_at + milliseconds (max 1 timeout_ms)));
    } in
    if is_expired now d
    then (d, effective_timeout_ms d)
    else (extended, effective_timeout_ms extended)

pub data TimedOut : Type 0 where
  timed_out_after : ℕ → TimedOut

unfoldable pub throw_if_expired : ℕ → Deadline → Outcome TimedOut (Unit {0})
throw_if_expired now d =
    if is_expired now d then err (timed_out_after (effective_timeout_ms d)) else ok tt

unfoldable pub expire_now : Deadline → Deadline
expire_now d = record d { expires_at = d.started_at }
