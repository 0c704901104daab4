-- ===== src/Registry/Invocation/Exclusion.antt =====
-- No two calls of src/core/action-registry.ts hold conflicting write intents at the same time.
use kiro_fabric.Prelude.{
  ℕ, Bool, true, false, ◌≡◌, ◌≢◌, refl, ◌∙◌, sym, subst, inl, inr, List, [], ◌∷◌, none, some, arith,
  if_cases, Option-cases, ok, err, ok-injective, not, length,
}
use kiro_fabric.Registry.Resources.{overlaps}
use kiro_fabric.Registry.Invocation.{
  Host, ActiveWrite, Phase, describing, preparing, reserving, approving, invoking, releasing,
  cleaning, Flight, World, Event, begins, described, prepared, reserved, approved, invoked,
  released, cleaned, closes, is_write_like, find, remove, drop_flight, Failure,
}
use kiro_fabric.Registry.Invocation.Steps.{begin, resume, resume_found, step}
use kiro_fabric.Registry.Invocation.Flights.{find-id, tally}
use kiro_fabric.Registry.Invocation.Writes.{IsExclusive-overlaps}
use kiro_fabric.Registry.Invocation.Moves.{is_dispatched, holding, IsFresh, Move, Agrees}
use kiro_fabric.Registry.Invocation.Agreement.{Move-Agrees}
use kiro_fabric.Registry.Invocation.Handlers.{
  MovesTo, on_described-Move, on_prepared-Move, on_reserved-Move, on_approved-Move, on_invoked-Move,
  on_released-Move, on_cleaned-Move,
}

-- A random id of a new call is new.
abbrev pub IsFreshFor : World → Event → Type 0
IsFreshFor w (prepared id (ok p) stop) = IsFresh w.flights w.active_writes p.call_id
IsFreshFor w _ = Unit {0}

remove_absent : (id : ℕ) (fs : List Flight) → find id fs ≡ none → remove id fs ≡ fs
unfolding find remove
remove_absent id [] h = refl
remove_absent id (f ∷ fs) h = ground (arith, remove_absent id fs)

no_length : (ws : List ActiveWrite) → length ws ≡ 0 → ws ≡ []
no_length [] h = refl
no_length (a ∷ ws) h = absurd (omega arith)

drop_absent :
    (w : World) (id : ℕ) (e : Failure) → find id w.flights ≡ none → MovesTo w (drop_flight id e w)
unfolding drop_flight
drop_absent w id e h = record { move = rw (remove_absent id w.flights h) Move.stays }

module _ (host : Host) where
  begin-Move :
      (w : World) (id context ref : ℕ) (is_record is_aborted has_stray_options : Bool)
      → find id w.flights ≡ none
      → MovesTo w (begin host w id context ref is_record is_aborted has_stray_options)
  unfolding begin
  begin-Move w id context ref is_record is_aborted has_stray_options h =
      if_cases (MovesTo w) w.is_closed (λ _. drop_absent w id _ h)
        λ _.
          if_cases (MovesTo w) is_aborted (λ _. drop_absent w id _ h)
            λ _.
              if_cases (MovesTo w) (not is_record) (λ _. drop_absent w id _ h)
                λ _.
                  if_cases (MovesTo w) has_stray_options (λ _. drop_absent w id _ h)
                    λ _. record { move = Move.begins _ h refl }

  -- Only a call that waits for the event goes on.
  waits-Move :
      (w : World) (f : Flight) (ph : Phase) (e : Event)
      → find f.id w.flights ≡ some (record f { phase = ph })
      → IsFreshFor w e
      → MovesTo w (resume host w (record f { phase = ph }) e)
  unfolding resume
  waits-Move w f describing (described id r) k fresh =
      on_described-Move host w (record f { phase = describing }) r k refl
  waits-Move w f preparing (prepared id (err e) stop) k fresh =
      on_prepared-Move host w (record f { phase = preparing }) (err e) stop k refl (λ p q. cc)
  waits-Move w f preparing (prepared id (ok p) stop) k fresh =
      on_prepared-Move host w (record f { phase = preparing }) (ok p) stop k refl
        (λ p' q. subst (λ x. IsFresh w.flights w.active_writes x.call_id) (ok-injective q) fresh)
  waits-Move w f reserving (reserved id r stop now) k fresh =
      on_reserved-Move host w (record f { phase = reserving }) r stop now k refl
  waits-Move w f approving (approved id r stop now) k fresh =
      on_approved-Move host w (record f { phase = approving }) r stop now k refl
  waits-Move w f invoking (invoked id r stop late now) k fresh =
      on_invoked-Move host w (record f { phase = invoking }) r stop late now k refl
  waits-Move w f (releasing b chars) (released id r now) k fresh =
      on_released-Move host w (record f { phase = releasing b chars }) b chars r now k refl
  waits-Move w f (cleaning e) (cleaned id r now) k fresh =
      on_cleaned-Move host w (record f { phase = cleaning e }) e r now k refl
  waits-Move w f _ _ k fresh = record { move = Move.stays }

  found-Move :
      (w : World) (id : ℕ) (e : Event)
      → IsFreshFor w e
      → MovesTo w (resume_found host w (find id w.flights) e)
  found-Move w id e fresh = elim (Option-cases (find id w.flights)) [
    | inl gone ↦ rw gone (record { move = Move.stays })
    | inr (f, k) ↦ rw k (
        waits-Move w f f.phase e
          (subst (λ (n : ℕ). find n w.flights ≡ some f) (sym (find-id id w.flights f k)) k) fresh)
  ]

  -- Every step makes one move.
  step-Move : (w : World) (e : Event) → IsFreshFor w e → MovesTo w (step host w e)
  unfolding step
  step-Move w (begins id context ref is_record is_aborted has_stray_options) fresh =
      elim (Option-cases (find id w.flights)) [
        | inl new ↦
            rw (new, step) (begin-Move w id context ref is_record is_aborted has_stray_options new)
        | inr (f, k) ↦ rw (k, step) (record { move = Move.stays })
      ]
  step-Move w closes fresh = record { move = Move.stays }
  step-Move w (described id r) fresh = found-Move w id (described id r) fresh
  step-Move w (prepared id r stop) fresh = found-Move w id (prepared id r stop) fresh
  step-Move w (reserved id r stop now) fresh = found-Move w id (reserved id r stop now) fresh
  step-Move w (approved id r stop now) fresh = found-Move w id (approved id r stop now) fresh
  step-Move w (invoked id r stop late now) fresh =
      found-Move w id (invoked id r stop late now) fresh
  step-Move w (released id r now) fresh = found-Move w id (released id r now) fresh
  step-Move w (cleaned id r now) fresh = found-Move w id (cleaned id r now) fresh

  -- A history of events in which every dispatched call draws a new id.
  pub data Reach (w : World) : World → Type 0 where
    here : Reach w w
    next : {v u : World} (e : Event) → Reach w v → IsFreshFor v e → step host v e ≡ u → Reach w u

  Reach-Agrees :
      {w v : World}
      → Agrees w.flights w.active_writes
      → Reach w v
      → Agrees v.flights v.active_writes
  Reach-Agrees a here = a
  Reach-Agrees a (next {v = v} e r fresh q) =
      subst (λ u. Agrees u.flights u.active_writes) q
        (Move-Agrees (step-Move v e fresh).move (Reach-Agrees a r))

  -- From a world whose calls and write table agree, in every history of invocation events in which
  -- dispatched calls draw new ids, two different dispatched write-like calls in flight never name
  -- a common resource or a wildcard.
  pub writes_exclusive :
      {w v : World} (i j : ℕ) (f g : Flight)
      → Agrees w.flights w.active_writes
      → Reach w v
      → find i v.flights ≡ some f
      → find j v.flights ≡ some g
      → is_dispatched f.phase ≡ true
      → is_dispatched g.phase ≡ true
      → is_write_like f.action ≡ true
      → is_write_like g.action ≡ true
      → i ≢ j
      → overlaps f.resources g.resources ≡ false
  writes_exclusive {v = v} i j f g start r k l d d' u u' different =
      IsExclusive-overlaps v.active_writes f.call_id g.call_id (entry f) (entry g) a.exclusive
        (a.held i f k d ∙ (rw u)) (a.held j g l d' ∙ (rw u'))
        (λ same. different (a.apart i j f g k l d d' same))
    where
      a : Agrees v.flights v.active_writes
      a = Reach-Agrees start r

      entry : Flight → ActiveWrite
      entry h = record { call_id = h.call_id; ref = h.ref; resources = h.resources }

  -- From a world whose calls and write table agree, in every history of invocation events in which
  -- dispatched calls draw new ids, the table of active writes has one entry for each dispatched
  -- write-like call in flight, and it is empty when no call is in flight.
  pub active_writes_counted :
      {w v : World}
      → Agrees w.flights w.active_writes
      → Reach w v
      → (length v.active_writes ≡ tally holding v.flights) × (v.flights ≡ [] → v.active_writes ≡ [])
  active_writes_counted {v = v} start r = (a.counted, empty)
    where
      a : Agrees v.flights v.active_writes
      a = Reach-Agrees start r

      empty : v.flights ≡ [] → v.active_writes ≡ []
      empty none_left =
          no_length v.active_writes (a.counted ∙ (rw none_left (unfold tally in refl)))
