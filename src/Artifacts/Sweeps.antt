-- ===== src/Artifacts/Sweeps.antt =====
-- What the removals of src/kiro/artifacts.ts keep, a sweep keeps.
use kiro_fabric.Prelude.{
  ℕ, zero, suc, ◌-◌, Bool, false, ◌&&◌, not, ltb, ◌≡◌, List, [], ◌∷◌, length, Text, arith, ok,
  if_cases, option_cases, outcome_cases,
}
use kiro_fabric.Artifacts.{
  StoredArtifact, ArtifactStore, Call, Disk, remove, oldest, sweep_expired, remove_oldest, has_many,
  open_error, sweep, remove_all,
}

module _ (P : ArtifactStore → Type 0)
    (keeps : (d : Disk) (id : Text) (s : ArtifactStore) → P s → P (remove d id s).0) where
  abbrev Kept : Call (Unit {0}) → Type 0
  Kept r = P r.0

  pub remove_all-keeps :
      (d : Disk) (es : List StoredArtifact) (s : ArtifactStore) → P s → P (remove_all d es s).0
  unfolding remove_all
  remove_all-keeps d [] s h = h
  remove_all-keeps d (e ∷ es) s h = remove_all-keeps d es (remove d e.id s).0 (keeps d e.id s h)

  module _ (is_before : Text → Text → Bool) where
    pub sweep_expired-keeps :
        (d : Disk) (now max_age : ℕ) (es : List StoredArtifact) (s : ArtifactStore)
        → P s
        → P (sweep_expired is_before d now max_age es s).0
    unfolding sweep_expired
    sweep_expired-keeps d now max_age [] s h = h
    sweep_expired-keeps d now max_age (e ∷ es) s h =
        let gone = keeps d e.id s h in
        if_cases Kept (ltb max_age (now - e.last_read_at))
          (λ _.
            outcome_cases Kept (remove d e.id s).1 (λ x _. gone)
              (λ u _. sweep_expired-keeps d now max_age es (remove d e.id s).0 gone))
          (λ _. sweep_expired-keeps d now max_age es s h)

    pub remove_oldest-keeps :
        (rounds : ℕ) (d : Disk) (kept : List Text) (is_full : ArtifactStore → Bool)
        (s : ArtifactStore)
        → P s
        → P (remove_oldest is_before rounds d kept is_full s).0
    unfolding remove_oldest
    remove_oldest-keeps zero d kept is_full s h = if_cases Kept (is_full s) (λ _. h) (λ _. h)
    remove_oldest-keeps (suc rounds) d kept is_full s h =
        if_cases Kept (is_full s)
          (λ _.
            option_cases Kept (oldest is_before kept s.entries) (λ _. h)
              (λ o _.
                let gone = keeps d o.id s h in
                outcome_cases Kept (remove d o.id s).1 (λ x _. gone)
                  (λ u _. remove_oldest-keeps rounds d kept is_full (remove d o.id s).0 gone)))
          (λ _. h)

    pub sweep-keeps :
        (d : Disk) (now max_age max_entries : ℕ) (s : ArtifactStore)
        → P s
        → P (sweep is_before d now max_age max_entries s).0
    unfolding sweep
    sweep-keeps d now max_age max_entries s h =
        let expired = sweep_expired is_before d now max_age s.entries s in
        let v = sweep_expired-keeps d now max_age s.entries s h in
        option_cases Kept (open_error d s)
          (λ _.
            if_cases Kept (s.has_root && not d.is_sweep_guarded) (λ _. h)
              (λ _.
                outcome_cases Kept expired.1 (λ x _. v)
                  (λ u _.
                    remove_oldest-keeps (length expired.0.entries) d []
                      (has_many is_before max_entries) expired.0 v)))
          (λ x _. h)

module _ (is_before : Text → Text → Bool) where
  -- A loop that returns ends at its test.
  pub remove_oldest_ends :
      (rounds : ℕ) (d : Disk) (kept : List Text) (is_full : ArtifactStore → Bool)
      (s : ArtifactStore)
      → (remove_oldest is_before rounds d kept is_full s).1 ≡ ok tt
      → is_full (remove_oldest is_before rounds d kept is_full s).0 ≡ false
  unfolding remove_oldest
  remove_oldest_ends zero d kept is_full s =
      if_cases Ends (is_full s) (λ _ h. absurd (ground (arith, h))) (λ free h. free)
    where
      Ends : Call (Unit {0}) → Type 0
      Ends r = r.1 ≡ ok tt → is_full r.0 ≡ false
  remove_oldest_ends (suc rounds) d kept is_full s =
      if_cases Ends (is_full s)
        (λ _.
          option_cases Ends (oldest is_before kept s.entries) (λ _ h. absurd (ground (arith, h)))
            (λ o _.
              outcome_cases Ends (remove d o.id s).1 (λ x _ h. absurd (ground (arith, h)))
                (λ u _. remove_oldest_ends rounds d kept is_full (remove d o.id s).0)))
        (λ free h. free)
    where
      Ends : Call (Unit {0}) → Type 0
      Ends r = r.1 ≡ ok tt → is_full r.0 ≡ false
