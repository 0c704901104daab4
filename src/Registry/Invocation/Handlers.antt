-- ===== src/Registry/Invocation/Handlers.antt =====
-- Each handler of src/core/action-registry.ts makes one move of the calls in flight and the table.
use kiro_fabric.Prelude.{
  ℕ, Bool, true, false, ◌≡◌, refl, ◌∙◌, sym, subst, List, ◌∷◌, some, arith, if◌then◌else◌, if_cases,
  length, Outcome, ok, err, not,
}
use kiro_fabric.JsonBudget.{Bounded, BudgetError, whole, truncated, bounded_result}
use kiro_fabric.Registry.Resources.{Resource}
use kiro_fabric.Registry.Invocation.{
  Action, Failure, closed, aborted, result_budget, page_budget, approval_given, publication, Audit,
  Host, Context, reserving, approving, invoking, Flight, World, Prepared, Value, is_write_like,
  is_conflicting, find, update, drop_flight, put_context, effect_resources,
}
use kiro_fabric.Registry.Invocation.Steps.{
  finish, fail, on_described, dispatch, on_prepared, on_reserved, on_approved, deliver, on_invoked,
  on_released, on_cleaned, new_audit, is_over_entries, is_over_bytes, reservation_bytes,
}
use kiro_fabric.Registry.Invocation.Moves.{is_dispatched, Continues, IsFresh, Move}

-- What a step does to the calls in flight and to the table.
pub record MovesTo (w v : World) : Type 0 where
  pub move : Move w.flights w.active_writes v.flights v.active_writes

pub drop_flight-Move :
    (w : World) (f : Flight) (e : Failure)
    → find f.id w.flights ≡ some f
    → is_dispatched f.phase ≡ false
    → MovesTo w (drop_flight f.id e w)
unfolding drop_flight
drop_flight-Move w f e k idle = record { move = Move.is_dropped f k idle }

module _ (host : Host) where
  finish-Move :
      (w : World) (f g : Flight) (a : Audit) (r : Outcome Failure Bounded)
      → find g.id w.flights ≡ some f
      → Continues f g
      → is_dispatched f.phase ≡ true
      → MovesTo w (finish host w g a r)
  unfolding finish put_context
  finish-Move w f g a r e c busy = record {
    move =
        rw (c.same_id, c.same_call)
          (Move.ends f (subst (λ (n : ℕ). find n w.flights ≡ some f) c.same_id e) busy);
  }

  fail-Move :
      (w : World) (f g : Flight) (e : Failure) (now : ℕ)
      → find g.id w.flights ≡ some f
      → Continues f g
      → is_dispatched f.phase ≡ true
      → MovesTo w (fail host w g e now)
  unfolding fail
  fail-Move w f g e now k c busy =
      if_cases (MovesTo w) g.holds_release
        (λ held. record {
          move = Move.goes_on f _ k (record {
            same_id = c.same_id;
            same_call = c.same_call;
            same_ref = c.same_ref;
            same_resources = c.same_resources;
            same_action = c.same_action;
            same_stage = sym busy;
          });
        })
        (λ free. finish-Move w f g _ _ k c busy)

  continues : (f : Flight) → Continues f f
  continues f = record {
    same_id = refl;
    same_call = refl;
    same_ref = refl;
    same_resources = refl;
    same_action = refl;
    same_stage = refl;
  }

  pub on_described-Move :
      (w : World) (f : Flight) (r : Outcome Failure Action)
      → find f.id w.flights ≡ some f
      → is_dispatched f.phase ≡ false
      → MovesTo w (on_described host w f r)
  unfolding on_described
  on_described-Move w f (err e) k idle = drop_flight-Move w f e k idle
  on_described-Move w f (ok a) k idle =
      if_cases (MovesTo w) w.is_closed (λ _. drop_flight-Move w f _ k idle)
        (λ _. record { move = Move.prepares f _ k idle refl })

  dispatch-Move :
      (w : World) (f : Flight) (p : Prepared)
      → find f.id w.flights ≡ some f
      → is_dispatched f.phase ≡ false
      → IsFresh w.flights w.active_writes p.call_id
      → MovesTo w (dispatch host w f p)
  unfolding dispatch put_context drop_flight
  dispatch-Move w f p k idle fresh =
      if_cases (MovesTo w) (is_over_entries host c) (λ _. drop_flight-Move w f _ k idle)
        λ _.
          if_cases (MovesTo w) (is_over_bytes host c a)
            (λ _. record { move = Move.is_dropped f k idle })
            λ _.
              if_cases (MovesTo w) (is_write_like f.action)
                (λ writes.
                  if_cases (MovesTo w) (is_conflicting resources w.active_writes)
                    (λ _. record { move = Move.is_dropped f k idle })
                    (λ free. record {
                      move =
                          subst (λ ws. Move w.flights w.active_writes (update g w.flights) ws)
                            (rw writes) (Move.is_admitted f g k idle refl fresh (λ _. free));
                    }))
                (λ reads. record {
                  move =
                      subst (λ ws. Move w.flights w.active_writes (update g w.flights) ws)
                        (rw reads)
                        (Move.is_admitted f g k idle refl fresh
                          (λ writes. absurd (ground (arith, reads, writes))));
                })
    where
      c : Context
      c = w.contexts f.context

      a : Audit
      a = new_audit f.ref p.call_id p.now

      resources : List Resource
      resources = effect_resources f.action p.provider_resources

      g : Flight
      g = record f {
        phase = reserving;
        call_id = p.call_id;
        resources = resources;
        audit = a;
        reservation = reservation_bytes host a;
      }

  pub on_prepared-Move :
      (w : World) (f : Flight) (r : Outcome Failure Prepared) (stop : Bool)
      → find f.id w.flights ≡ some f
      → is_dispatched f.phase ≡ false
      → ((p : Prepared) → r ≡ ok p → IsFresh w.flights w.active_writes p.call_id)
      → MovesTo w (on_prepared host w f r stop)
  unfolding on_prepared
  on_prepared-Move w f (err e) stop k idle fresh = drop_flight-Move w f e k idle
  on_prepared-Move w f (ok p) stop k idle fresh =
      if_cases (MovesTo w) stop (λ _. drop_flight-Move w f _ k idle)
        λ _.
          if_cases (MovesTo w) w.is_closed (λ _. drop_flight-Move w f _ k idle)
            λ _.
              if_cases (MovesTo w) (not p.is_record) (λ _. drop_flight-Move w f _ k idle)
                λ _.
                  if_cases (MovesTo w) (not p.is_valid) (λ _. drop_flight-Move w f _ k idle)
                    λ _. dispatch-Move w f p k idle (fresh p refl)

  -- The call waits for something else now.
  advance :
      (w v : World) (f g : Flight)
      → find f.id w.flights ≡ some f
      → v.flights ≡ update g w.flights
      → v.active_writes ≡ w.active_writes
      → Continues f g
      → MovesTo w v
  advance w v f g k e e' c = record {
    move =
        rw (e, e')
          (Move.goes_on f g (subst (λ (n : ℕ). find n w.flights ≡ some f) (sym c.same_id) k) c);
  }

  onward :
      (f g : Flight)
      → g.id ≡ f.id
      → g.call_id ≡ f.call_id
      → g.ref ≡ f.ref
      → g.resources ≡ f.resources
      → g.action ≡ f.action
      → is_dispatched f.phase ≡ true
      → is_dispatched g.phase ≡ true
      → Continues f g
  onward f g a b c d e busy busy' = record {
    same_id = a;
    same_call = b;
    same_ref = c;
    same_resources = d;
    same_action = e;
    same_stage = busy' ∙ sym busy;
  }

  pub on_reserved-Move :
      (w : World) (f : Flight) (r : Outcome Failure Bool) (stop : Bool) (now : ℕ)
      → find f.id w.flights ≡ some f
      → is_dispatched f.phase ≡ true
      → MovesTo w (on_reserved host w f r stop now)
  unfolding on_reserved
  on_reserved-Move w f (err e) stop now k busy = fail-Move w f f e now k (continues f) busy
  on_reserved-Move w f (ok holds) stop now k busy =
      if_cases (MovesTo w) w.is_closed (λ _. fail-Move w f g _ now k c busy)
        λ _.
          if_cases (MovesTo w) stop (λ _. fail-Move w f g _ now k c busy)
            λ _. advance w _ f g k refl refl c
    where
      g : Flight
      g = record f { phase = approving; holds_release = holds }

      c : Continues f g
      c = onward f g refl refl refl refl refl busy refl

  pub on_approved-Move :
      (w : World) (f : Flight) (r : Outcome Failure (Unit {0})) (stop : Bool) (now : ℕ)
      → find f.id w.flights ≡ some f
      → is_dispatched f.phase ≡ true
      → MovesTo w (on_approved host w f r stop now)
  unfolding on_approved
  on_approved-Move w f (err e) stop now k busy = fail-Move w f f e now k (continues f) busy
  on_approved-Move w f (ok _) stop now k busy =
      if_cases (MovesTo w) w.is_closed (λ _. record { move = failed closed })
        λ _.
          if_cases (MovesTo w) stop (λ _. record { move = failed aborted })
            λ _. advance w _ f g k refl refl (onward f g refl refl refl refl refl busy refl)
    where
      g : Flight
      g = record f { phase = invoking; is_started = true }

      v : World
      v = record w { log = approval_given f.id ∷ w.log }

      failed :
          (e : Failure)
          → Move w.flights w.active_writes
              (fail host v f e now).flights
              (fail host v f e now).active_writes
      failed e = (fail-Move v f f e now k (continues f) busy).move

  deliver-Move :
      (w : World) (f g : Flight) (b : Bounded) (chars now : ℕ)
      → find f.id w.flights ≡ some f
      → find g.id w.flights ≡ some f
      → Continues f g
      → is_dispatched f.phase ≡ true
      → MovesTo w (deliver host w g b chars now)
  unfolding deliver
  deliver-Move w f g b chars now k k' c busy =
      if_cases (MovesTo w) g.holds_release
        (λ _.
          advance w _ f _ k refl refl
            (onward f _ c.same_id c.same_call c.same_ref c.same_resources c.same_action busy refl))
        (λ _. finish-Move w f g _ _ k' c busy)

  pub on_invoked-Move :
      (w : World) (f : Flight) (r : Outcome Failure Value) (stop late : Bool) (now : ℕ)
      → find f.id w.flights ≡ some f
      → is_dispatched f.phase ≡ true
      → MovesTo w (on_invoked host w f r stop late now)
  unfolding on_invoked
  on_invoked-Move w f (err e) stop late now k busy = fail-Move w f f e now k (continues f) busy
  on_invoked-Move w f (ok v) stop late now k busy =
      if_cases (MovesTo w) stop (λ _. fail-Move w f g _ now k c busy)
        λ _.
          bounded
            (bounded_result host.envelope_chars v.text (w.contexts f.context).max_result_chars)
    where
      g : Flight
      g = record f { published = publication f.action v }

      c : Continues f g
      c = onward f g refl refl refl refl refl busy busy

      bounded :
          (b : Outcome BudgetError Bounded)
          → MovesTo w (elim b [
            | err _ ↦ fail host w g result_budget now
            | ok whole ↦
                if late
                then fail host w g aborted now
                else deliver host w g whole (length v.text) now
            | ok (truncated preview) ↦
                if v.is_catalog
                then fail host w g page_budget now
                else if late
                then fail host w g aborted now
                else deliver host w g (truncated preview) (length v.text) now
          ])
      bounded (err _) = fail-Move w f g _ now k c busy
      bounded (ok whole) =
          if_cases (MovesTo w) late (λ _. fail-Move w f g _ now k c busy)
            (λ _. deliver-Move w f g _ _ now k k c busy)
      bounded (ok (truncated preview)) =
          if_cases (MovesTo w) v.is_catalog (λ _. fail-Move w f g _ now k c busy)
            (λ _.
              if_cases (MovesTo w) late (λ _. fail-Move w f g _ now k c busy)
                (λ _. deliver-Move w f g _ _ now k k c busy))

  pub on_released-Move :
      (w : World) (f : Flight) (b : Bounded) (chars : ℕ) (r : Outcome Failure (Unit {0})) (now : ℕ)
      → find f.id w.flights ≡ some f
      → is_dispatched f.phase ≡ true
      → MovesTo w (on_released host w f b chars r now)
  unfolding on_released
  on_released-Move w f b chars (err e) now k busy = fail-Move w f f e now k (continues f) busy
  on_released-Move w f b chars (ok _) now k busy = finish-Move w f f _ _ k (continues f) busy

  pub on_cleaned-Move :
      (w : World) (f : Flight) (e : Failure) (r : Outcome Failure (Unit {0})) (now : ℕ)
      → find f.id w.flights ≡ some f
      → is_dispatched f.phase ≡ true
      → MovesTo w (on_cleaned host w f e r now)
  unfolding on_cleaned
  on_cleaned-Move w f e (err _) now k busy = finish-Move w f f _ _ k (continues f) busy
  on_cleaned-Move w f e (ok _) now k busy = finish-Move w f f _ _ k (continues f) busy
