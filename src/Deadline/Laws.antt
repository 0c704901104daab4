-- ===== src/Deadline/Laws.antt =====
-- A deadline of src/runtime/deadline.ts keeps its maximum and is not revived.
use kiro_fabric.Prelude.{ℕ, ◌≤◌, ◌≡◌, refl, List, [], ◌∷◌, Option, none, some, All, arith, if_cases}
use kiro_fabric.Deadline.{Deadline, make_deadline, is_expired, extend_to, expire_now}

pub data DeadlineCall : Type 0 where
  extends : (now : ℕ) → Option ℕ → DeadlineCall
  expires : DeadlineCall

unfoldable pub deadline_run : List DeadlineCall → Deadline → Deadline
deadline_run [] d = d
deadline_run (extends now timeout ∷ calls) d = deadline_run calls (extend_to now timeout d).0
deadline_run (expires ∷ calls) d = deadline_run calls (expire_now d)

-- The call reads the clock at this time or later.
abbrev pub IsLater : ℕ → DeadlineCall → Type 0
IsLater time (extends now timeout) = time ≤ now
IsLater time expires = Unit

-- The deadline `e` comes from `d`.
pub record Follows (d e : Deadline) : Type 0 where
  pub started : e.started_at ≡ d.started_at
  pub maximum : e.maximum_at ≡ d.maximum_at
  pub begun : e.started_at ≤ e.expires_at
  pub bounded : e.expires_at ≤ e.maximum_at

extend_to-Follows :
    (now : ℕ) (timeout : Option ℕ) (d e : Deadline)
    → Follows d e
    → Follows d (extend_to now timeout e).0
unfolding extend_to
extend_to-Follows now none d e h = h
extend_to-Follows now (some n) d e h =
    if_cases (λ (x : Deadline × ℕ). Follows d x.0) (is_expired now e) (λ _. h)
      (λ _. record {
        started = h.started;
        maximum = h.maximum;
        begun = omega (arith, h.begun, h.bounded);
        bounded = omega arith;
      })

expire_now-Follows : (d e : Deadline) → Follows d e → Follows d (expire_now e)
unfolding expire_now
expire_now-Follows d e h = record {
  started = h.started;
  maximum = h.maximum;
  begun = omega arith;
  bounded = omega (arith, h.begun, h.bounded);
}

run-Follows :
    (calls : List DeadlineCall) (d e : Deadline) → Follows d e → Follows d (deadline_run calls e)
unfolding deadline_run
run-Follows [] d e h = h
run-Follows (extends now timeout ∷ calls) d e h =
    run-Follows calls d (extend_to now timeout e).0 (extend_to-Follows now timeout d e h)
run-Follows (expires ∷ calls) d e h = run-Follows calls d (expire_now e) (expire_now-Follows d e h)

extend_to_expired :
    (now : ℕ) (timeout : Option ℕ) (time : ℕ) (d : Deadline)
    → d.expires_at ≤ time
    → time ≤ now
    → (extend_to now timeout d).0.expires_at ≤ time
unfolding extend_to
extend_to_expired now none time d h later = h
extend_to_expired now (some n) time d h later = ground (arith, h, later)

expire_now_earlier :
    (time : ℕ) (e : Deadline) → e.started_at ≤ time → (expire_now e).expires_at ≤ time
unfolding expire_now
expire_now_earlier time e h = h

expired_run :
    (calls : List DeadlineCall) (time : ℕ) (d e : Deadline)
    → Follows d e
    → e.expires_at ≤ time
    → All (IsLater time) calls
    → (deadline_run calls e).expires_at ≤ time
unfolding deadline_run
expired_run [] time d e f h later = h
expired_run (extends now timeout ∷ calls) time d e f h later =
    expired_run calls time d (extend_to now timeout e).0 (extend_to-Follows now timeout d e f)
      (extend_to_expired now timeout time e h later.0) later.1
expired_run (expires ∷ calls) time d e f h later =
    expired_run calls time d (expire_now e) (expire_now-Follows d e f)
      (expire_now_earlier time e (omega (arith, f.begun, h))) later.1

-- After any extensions and forced expiries, a deadline has its start and its maximum, and lies
-- between them; and where it has expired at a time, it has still expired at that time after any
-- further extensions tried at that time or later and any further forced expiries.
pub make_deadline_run-Follows :
    (timeout_ms maximum_ms now time : ℕ) (before later : List DeadlineCall)
    → (deadline_run before (make_deadline timeout_ms maximum_ms now)).expires_at ≤ time
    → All (IsLater time) later
    → Follows
        (make_deadline timeout_ms maximum_ms now)
        (deadline_run before (make_deadline timeout_ms maximum_ms now))
      × ((deadline_run later
            (deadline_run before (make_deadline timeout_ms maximum_ms now))).expires_at
          ≤ time)
unfolding make_deadline
make_deadline_run-Follows timeout_ms maximum_ms now time before later h all_later =
    let d = make_deadline timeout_ms maximum_ms now in
    let f =
      run-Follows before d d
        (record { started = refl; maximum = refl; begun = omega arith; bounded = omega arith }) in
    (f, expired_run later time d (deadline_run before d) f h all_later)
