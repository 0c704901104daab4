-- ===== src/Catalog/History.antt =====
-- Histories of calls of src/core/catalog-snapshot-store.ts, and that its quotas hold in each.
use kiro_fabric.Prelude.{
  ℕ, ◌≤◌, ◌||◌, not, Bool, true, false, ◌≡◌, refl, sym, subst, List, Option, none, some, length,
  arith, ltb, ◌==◌, if_cases, option_cases, some-injective, ◌∙◌, Text,
}
use kiro_fabric.Catalog.Store.{
  Method, Policy, Snapshot, Store, Reservation, Published, lookup, delete, replace, prune, reserve,
  depend, release, union, is_too_large, is_published,
}
use kiro_fabric.Catalog.Store.Quotas.{
  IsWithin, Charged, Shrinks-IsWithin, delete-Shrinks, prune-Shrinks, replace-Shrinks,
  lookup-Charged, lookup-id, lookup-prune_held,
}
use kiro_fabric.Catalog.Store.Reserving.{reserve-Returns}
use kiro_fabric.Catalog.Cursors.{
  Body, Cursor, malformed, cursor, is_position, touch, accept, authenticate, invalidate,
}
use kiro_fabric.Catalog.Publish.Charges.{build-Returned}
use kiro_fabric.Catalog.Publish.{Inventory, build, publish}

module _ (p : Policy) where
  -- The result of a call that leaves a store within the quotas.
  record Leaves {B : Type 0} (x : Store × B) : Type 0 where
    within : IsWithin p x.0.snapshots

  record LeavesBoth {B C : Type 0} (x : (Store × C) × B) : Type 0 where
    within : IsWithin p x.0.0.snapshots

  delete-IsWithin : (id : ℕ) (ss : List Snapshot) → IsWithin p ss → IsWithin p (delete id ss)
  delete-IsWithin id ss w = Shrinks-IsWithin p w (delete-Shrinks p id ss w.distinct w.charged)

  prune-IsWithin :
      (f : ℕ → Bool) (now : ℕ) (ss : List Snapshot) → IsWithin p ss → IsWithin p (prune p f now ss)
  prune-IsWithin f now ss w = Shrinks-IsWithin p w (prune-Shrinks p f now ss w.distinct w.charged)

  -- A held snapshot may be replaced by one that is charged no more.
  replace-IsWithin :
      (new s : Snapshot) (ss : List Snapshot)
      → IsWithin p ss
      → lookup s.id ss ≡ some s
      → new.id ≡ s.id
      → new.bytes ≤ s.bytes
      → new.nodes ≤ s.nodes
      → Charged p new
      → IsWithin p (replace new ss)
  replace-IsWithin new s ss w held same b n c = Shrinks-IsWithin p w (
      replace-Shrinks p new s ss w.distinct w.charged
        (subst (λ i. lookup i ss ≡ some s) (sym same) held) b n c)

  self_held :
      (id : ℕ) (ss : List Snapshot) (s : Snapshot) → lookup id ss ≡ some s → lookup s.id ss ≡ some s
  self_held id ss s h = subst (λ i. lookup i ss ≡ some s) (sym (lookup-id id ss s h)) h

  release-Leaves :
      (st : Store) (r : Reservation) → IsWithin p st.snapshots → Leaves (release p st r)
  unfolding release
  release-Leaves st r w =
      if_cases Leaves r.is_active (λ _. record { within = delete-IsWithin r.id st.snapshots w })
        (λ _. record { within = w })

  module _ (mac : ℕ → Body → ℕ) where
    accept-Leaves :
        (st : Store) (b : Body) (s : Snapshot) (q : Published) (now : ℕ)
        → IsWithin p st.snapshots
        → lookup b.id st.snapshots ≡ some s
        → Leaves (accept mac p st b s q now)
    unfolding accept touch
    accept-Leaves st b s q now w held =
        if_cases Leaves (is_position q b)
          (λ _. record {
            within =
                replace-IsWithin (touch mac p s now) s st.snapshots w
                  (self_held b.id st.snapshots s held) refl (omega arith) (omega arith)
                  (let c = lookup-Charged p b.id st.snapshots s w.charged held in
                    record {
                      bytes = c.bytes;
                      nodes = c.nodes;
                      full_bytes = c.full_bytes;
                      full_nodes = c.full_nodes;
                      few = c.few;
                      linked = c.linked;
                    });
          })
          (λ _. record { within = w })

    authenticate-Leaves :
        (f : ℕ → Bool) (st : Store) (c : Cursor) (now later : ℕ)
        → IsWithin p st.snapshots
        → Leaves (authenticate mac p f st c now later)
    unfolding authenticate
    authenticate-Leaves f st malformed now later w = record {
      within = prune-IsWithin f now st.snapshots w;
    }
    authenticate-Leaves f st (cursor b signature) now later w =
        let v = prune-IsWithin f now st.snapshots w in
        option_cases Leaves (lookup b.id (prune p f now st.snapshots)) (λ _. record { within = v })
          λ s held.
            option_cases Leaves s.published (λ _. record { within = v })
              λ q _.
                if_cases Leaves (signature == mac st.key b)
                  (λ _. accept-Leaves _ b s q later v held) (λ _. record { within = v })

  depend-LeavesBoth :
      (f g : ℕ → Bool) (st : Store) (r : Reservation) (ds : List ℕ) (now later : ℕ)
      → IsWithin p st.snapshots
      → LeavesBoth (depend p f g st r ds now later)
  unfolding depend
  depend-LeavesBoth f g st r ds now later w =
      let pruned = prune p f now st.snapshots in
      let v = prune-IsWithin f now st.snapshots w in
      option_cases LeavesBoth (lookup r.id pruned) (λ _. record { within = v })
        λ s held.
          if_cases LeavesBoth (not r.is_active) (λ _. record { within = v })
            λ _.
              if_cases LeavesBoth (ltb 256 (length ds))
                (λ _. record { within = delete-IsWithin r.id pruned v })
                λ _.
                  if_cases LeavesBoth
                    (ltb 256 (length (union s.dependencies ds))
                      || is_too_large p (length (union s.dependencies ds)))
                    (λ _. record { within = delete-IsWithin r.id pruned v })
                    λ small. record {
                      within = prune-IsWithin g later _ (
                          replace-IsWithin (record s { dependencies = union s.dependencies ds }) s
                            pruned v (self_held r.id pruned s held) refl (omega arith) (omega arith)
                            (let c = lookup-Charged p r.id pruned s v.charged held in
                              record {
                                bytes = c.bytes;
                                nodes = c.nodes;
                                full_bytes = c.full_bytes;
                                full_nodes = c.full_nodes;
                                few = ground (arith, small);
                                linked = ground (arith, small);
                              }));
                    }

  -- An active reservation's snapshot is not published: `publish` ends the reservation.
  pub record IsPending (st : Store) (r : Reservation) : Type 0 where
    pub pending :
        (s : Snapshot)
        → r.is_active ≡ true
        → lookup r.id st.snapshots ≡ some s
        → is_published s ≡ false

  module _ (utf8_bytes : Text → ℕ) (mac : ℕ → Body → ℕ) where
    publish-LeavesBoth :
        (f : ℕ → Bool) (st : Store) (r : Reservation) (method : Method) (inventory : Inventory)
        (query : Option Text) (now later : ℕ)
        → IsWithin p st.snapshots
        → IsPending st r
        → LeavesBoth (publish utf8_bytes p mac f st r method inventory query now later)
    unfolding publish
    publish-LeavesBoth f st r method inventory query now later w own =
        let pruned = prune p f now st.snapshots in
        let v = prune-IsWithin f now st.snapshots w in
        option_cases LeavesBoth (lookup r.id pruned) (λ _. record { within = v })
          λ s held.
            if_cases LeavesBoth (not r.is_active) (λ _. record { within = v })
              λ active.
                option_cases LeavesBoth
                  (build utf8_bytes p (length s.dependencies) method inventory query)
                  (λ _. record { within = delete-IsWithin r.id pruned v })
                  λ (entries, (bytes, nodes)) built.
                    let c = lookup-Charged p r.id pruned s v.charged held in
                    let charge =
                      (build-Returned utf8_bytes p (length s.dependencies) method inventory query
                          c.linked).result
                        entries bytes nodes built in
                    let pending : is_published s ≡ false =
                      own.pending s (ground (arith, active))
                        (lookup-prune_held p f now r.id st.snapshots s w.distinct held) in
                    record {
                      within =
                          replace-IsWithin _ s pruned v (self_held r.id pruned s held) refl
                            (omega (arith, charge.within_bytes, c.full_bytes pending))
                            (omega (arith, charge.within_nodes, c.full_nodes pending))
                            (record {
                              bytes = charge.within_bytes;
                              nodes = charge.within_nodes;
                              full_bytes = λ h. absurd (ground (arith, h));
                              full_nodes = λ h. absurd (ground (arith, h));
                              few = c.few;
                              linked = c.linked;
                            });
                    }

-- The calls of the store, each with what the dependencies answer and what the clock reads. Every use
-- of a cursor, for a method or a page, is an `authenticate`.
pub data Call : Type 0 where
  reserves : (ℕ → Bool) → List ℕ → (id now later : ℕ) → Call
  depends : (f g : ℕ → Bool) → Reservation → List ℕ → (now later : ℕ) → Call
  releases : Reservation → Call
  publishes : (ℕ → Bool) → Reservation → Method → Inventory → Option Text → (now later : ℕ) → Call
  uses : (ℕ → Bool) → Cursor → (now later : ℕ) → Call
  invalidates : (new_key : ℕ) → Call

module _ (p : Policy) (utf8_bytes : Text → ℕ) (mac : ℕ → Body → ℕ) where
  -- The store after a call. One that never returns leaves none.
  unfoldable pub step : Store → Call → Option Store
  step st (reserves f ds id now later) = elim (reserve p f st ds id now later) [
    | none ↦ none
    | some x ↦ some x.0
  ]
  step st (depends f g r ds now later) = some (depend p f g st r ds now later).0.0
  step st (releases r) = some (release p st r).0
  step st (publishes f r method inventory query now later) =
      some (publish utf8_bytes p mac f st r method inventory query now later).0.0
  step st (uses f c now later) = some (authenticate mac p f st c now later).0
  step st (invalidates new_key) = some (invalidate new_key st)

  -- A new id is not in use, and a published snapshot's reservation is no longer active.
  abbrev pub IsProper : Store → Call → Type 0
  IsProper st (reserves f ds id now later) = lookup id st.snapshots ≡ none
  IsProper st (publishes f r method inventory query now later) = IsPending p st r
  IsProper st _ = Unit {0}

  pub data Reach : Store → Store → Type 0 where
    starts : {st : Store} → Reach st st
    steps : {st t u : Store} (c : Call) → Reach st t → IsProper t c → step t c ≡ some u → Reach st u

  -- Every proper call returns, and leaves the store within its quotas.
  pub step-IsWithin :
      (st : Store) (c : Call)
      → IsWithin p st.snapshots
      → IsProper st c
      → (t : Store) × (step st c ≡ some t) × IsWithin p t.snapshots
  unfolding step invalidate
  step-IsWithin st (reserves f ds id now later) w proper =
      let r = reserve-Returns p f st w ds id now later proper in
      (r.out.0, rw (r.returns, step) refl, r.within)
  step-IsWithin st (depends f g r ds now later) w proper =
      (_, refl, (depend-LeavesBoth p f g st r ds now later w).within)
  step-IsWithin st (releases r) w proper = (_, refl, (release-Leaves p st r w).within)
  step-IsWithin st (publishes f r method inventory query now later) w proper = (
    _,
    refl,
    (publish-LeavesBoth p utf8_bytes mac f st r method inventory query now later w proper).within,
  )
  step-IsWithin st (uses f c now later) w proper =
      (_, refl, (authenticate-Leaves p mac f st c now later w).within)
  step-IsWithin st (invalidates new_key) w proper = (_, refl, cleared)
    where
      cleared : IsWithin p (invalidate new_key st).snapshots
      cleared = record {
        fewer = omega arith;
        bytes = omega arith;
        nodes = omega arith;
        distinct = tt;
        charged = tt;
      }

  -- From a store within its quotas, in every history of calls in which reservations draw unused
  -- ids and an active reservation that is published has an unpublished snapshot, the catalog store
  -- stays within its quotas of snapshots, bytes and nodes, and each snapshot is charged at most
  -- its reservation, and all of it until it is published.
  pub Reach-IsWithin :
      {st t : Store} → IsWithin p st.snapshots → Reach st t → IsWithin p t.snapshots
  Reach-IsWithin w starts = w
  Reach-IsWithin w (steps {t} {u} c r proper run) =
      let (v, run', within) = step-IsWithin t c (Reach-IsWithin w r) proper in
      subst (λ x. IsWithin p x.snapshots) (some-injective (sym run' ∙ run)) within
