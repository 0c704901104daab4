-- ===== src/Catalog/Store/Reserving.antt =====
-- `reserve` of src/core/catalog-snapshot-store.ts: it returns, within the quotas, and at whose expense.
use kiro_fabric.Prelude.{
  ℕ, suc, ◌*◌, ◌≤◌, ◌||◌, not, Bool, true, false, ◌≡◌, refl, sym, subst, List, [], ◌∷◌, ◌++◌,
  Option, none, some, length, arith, ltb, if_cases, Outcome, ok, err,
}
use kiro_fabric.Catalog.Store.{
  CatalogError, Policy, Snapshot, Store, Reservation, lookup, prune, evict, reserve, grant,
  is_published, reserve_snapshot, are_current, is_too_large,
}
use kiro_fabric.Catalog.Store.Eviction.{Evicts, Evicted, evict-Evicted, Evicts-pending}
use kiro_fabric.Catalog.Store.Quotas.{
  IsWithin, Charged, Shrinks-IsWithin, prune-Shrinks, append-IsWithin, Evicts-Shrinks, length-union,
  lookup-prune_absent, lookup-append_held, lookup-prune_held, lookup-Evicts_absent,
}

module _ (p : Policy) where
  -- What a call of `reserve` returns.
  pub record Returns (st : Store) (pruned : List Snapshot) (new : Snapshot)
      (x : Option (Store × Outcome CatalogError Reservation)) : Type 0 where
    pub out : Store × Outcome CatalogError Reservation
    pub returns : x ≡ some out
    pub within : IsWithin p out.0.snapshots
    pub pending :
        (r : Snapshot)
        → is_published r ≡ false
        → lookup r.id pruned ≡ some r
        → lookup r.id out.0.snapshots ≡ some r
    pub granted :
        (r : Reservation)
        → out.1 ≡ ok r
        → (kept : List Snapshot) × Evicts p pruned kept × (out.0.snapshots ≡ kept ++ new ∷ [])

  module _ (f : ℕ → Bool) (st : Store) (w : IsWithin p st.snapshots) where
    abbrev pruned_at : ℕ → List Snapshot
    pruned_at now = prune p f now st.snapshots

    prune-IsWithin : (now : ℕ) → IsWithin p (pruned_at now)
    prune-IsWithin now =
        Shrinks-IsWithin p w (prune-Shrinks p f now st.snapshots w.distinct w.charged)

    refuses :
        (now : ℕ) (new : Snapshot) (e : CatalogError)
        → Returns st (pruned_at now) new (some (st, err e))
    refuses now new e = record {
      out = (st, err e);
      returns = refl;
      within = w;
      pending = λ r h held. lookup-prune_held p f now r.id st.snapshots r w.distinct held;
      granted = λ r h. absurd (ground (arith, h));
    }

    refuses_swept :
        (now : ℕ) (new : Snapshot) (e : CatalogError)
        → Returns st (pruned_at now) new (some (record st { snapshots = pruned_at now }, err e))
    refuses_swept now new e = record {
      out = (record st { snapshots = pruned_at now }, err e);
      returns = refl;
      within = prune-IsWithin now;
      pending = λ r h held. held;
      granted = λ r h. absurd (ground (arith, h));
    }

    grant-Returns :
        (now : ℕ) (new : Snapshot) (b : Bool) (kept : List Snapshot)
        → Charged p new
        → new.bytes ≡ p.reservation_bytes
        → new.nodes ≡ p.reservation_nodes
        → lookup new.id (pruned_at now) ≡ none
        → Evicted p (pruned_at now) b kept
        → Returns st (pruned_at now) new (grant p st new (some (b, kept)))
    grant-Returns now new false kept c full_bytes full_nodes absent e =
        let within = prune-IsWithin now in
        record {
          out = (record st { snapshots = kept }, err CatalogError.quota);
          returns = refl;
          within =
              Shrinks-IsWithin p within (Evicts-Shrinks p within.distinct within.charged e.rounds);
          pending = λ r h held. Evicts-pending p r within.distinct h held e.rounds;
          granted = λ r h. absurd (ground (arith, h));
        }
    grant-Returns now new true kept c full_bytes full_nodes absent e =
        let within = prune-IsWithin now in
        let less = Evicts-Shrinks p within.distinct within.charged e.rounds in
        record {
          out = (
            record st { snapshots = kept ++ new ∷ [] },
            ok (record { id = new.id; is_active = true }),
          );
          returns = refl;
          within =
              append-IsWithin p new kept less.distinct less.charged
                (lookup-Evicts_absent new.id absent e.rounds) e.room c full_bytes full_nodes;
          pending = λ r h held.
              lookup-append_held r.id kept (new ∷ []) r
                (Evicts-pending p r within.distinct h held e.rounds);
          granted = λ r h. (kept, e.rounds, refl);
        }

    -- On a store within its quotas, a reservation under an unused id returns and keeps the quotas;
    -- its eviction loop keeps every unexpired reservation in progress, and when it succeeds it has
    -- evicted only published snapshots, each time one such that no published snapshot of the store
    -- was touched before it, and only while there was no room.
    pub reserve-Returns :
        (dependencies : List ℕ) (id now later : ℕ)
        → lookup id st.snapshots ≡ none
        → Returns st
            (prune p f now st.snapshots)
            (reserve_snapshot p dependencies id later)
            (reserve p f st dependencies id now later)
    unfolding reserve reserve_snapshot
    reserve-Returns dependencies id now later fresh =
        if_cases (Returns st (pruned_at now) new) (ltb 256 (length dependencies))
          (λ _. refuses now new _)
          λ short.
            if_cases (Returns st (pruned_at now) new) (not (are_current f dependencies))
              (λ _. refuses now new _)
              λ _.
                if_cases (Returns st (pruned_at now) new) st.is_closed (λ _. refuses now new _)
                  λ _.
                    if_cases (Returns st (pruned_at now) new) (is_too_large p (length dependencies))
                      (λ _. refuses_swept now new _)
                      λ small.
                        if_cases (Returns st (pruned_at now) new)
                          (ltb p.max_bytes p.reservation_bytes
                            || ltb p.max_nodes p.reservation_nodes)
                          (λ _. refuses_swept now new _)
                          (λ _. settles (ground (arith, short)) (ground (arith, small)))
      where
        new : Snapshot
        new = reserve_snapshot p dependencies id later

        settles :
            length dependencies ≤ 256
            → length dependencies * 64 ≤ p.reservation_bytes
            → Returns st
                (pruned_at now)
                new
                (grant p st new (evict p (suc (length (pruned_at now))) (pruned_at now)))
        settles few linked =
            let within = prune-IsWithin now in
            let (b, kept, run, e) =
              evict-Evicted p (suc (length (pruned_at now))) (pruned_at now) within.distinct
                (omega arith) in
            subst (λ x. Returns st (pruned_at now) new (grant p st new x)) (sym run)
              (grant-Returns now new b kept
                (record {
                  bytes = omega arith;
                  nodes = omega arith;
                  full_bytes = λ _. refl;
                  full_nodes = λ _. refl;
                  few = omega (arith, few, length-union [] dependencies);
                  linked = omega (arith, linked, length-union [] dependencies);
                })
                refl refl (lookup-prune_absent p f now id st.snapshots fresh) e)
