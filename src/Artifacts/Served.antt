-- ===== src/Artifacts/Served.antt =====
-- A read of src/kiro/artifacts.ts that returns serves a piece of an unexpired entry.
use kiro_fabric.Prelude.{
  ℕ, ◌-◌, ◌≤◌, Bool, false, ◌≡◌, not, some, Text, arith, if_cases, option_cases, outcome_cases, ok,
  err, ok-injective, subst,
}
use kiro_fabric.Artifacts.{
  StoredArtifact, ArtifactError, ArtifactStore, ArtifactPage, Call, Disk, find, open_error, sweep,
  make_page, read, is_artifact_id,
}
use kiro_fabric.Artifacts.Invariant.{IsValid}
use kiro_fabric.Artifacts.Expiry.{sweep-unexpired}
use kiro_fabric.Artifacts.Reads.{IsPage, make_page-IsPage}

module _ (is_before : Text → Text → Bool) where
  pub record Served (swept_at : ℕ) (id : Text) (offset limit : ℕ) (s : ArtifactStore)
      (p : ArtifactPage is_before) : Type 0 where
    pub open_store : s.is_closed ≡ false
    pub entry : StoredArtifact
    pub found : find id s.entries ≡ some entry
    pub young : swept_at - entry.last_read_at ≤ s.ttl_ms
    pub page : IsPage is_before entry.content offset limit p

  -- On a valid store, a read that returns found an entry of that id, not expired, in an open
  -- store; the page is the next piece of its content at the offset, within the limit and 16,000
  -- units, not empty before the end, does not end inside a surrogate pair, and says where it goes
  -- on and whether it is the last.
  pub read-Served :
      (d : Disk) (swept_at now : ℕ) (id : Text) (offset limit : ℕ) (s : ArtifactStore)
      (p : ArtifactPage is_before)
      → IsValid s
      → (read is_before d swept_at now id (some offset) (some limit) s).1 ≡ ok p
      → Served swept_at id offset limit s p
  unfolding read
  read-Served d swept_at now id offset limit s p h =
      let swept = sweep is_before d swept_at s.ttl_ms s.max_artifacts s in
      let v = swept.0 in
      option_cases Right (open_error d s)
        (λ opened.
          if_cases Right (not (is_artifact_id id)) (λ _. bad s _)
            (λ _.
              outcome_cases Right swept.1 (λ x _. bad s _)
                (λ u done.
                  option_cases Right (find id v.entries) (λ _. bad s _)
                    (λ e at.
                      outcome_cases Right (make_page is_before e.content (some offset) (some limit))
                        (λ x _. bad s _)
                        (λ q made k.
                          let unexpired =
                            sweep-unexpired is_before d swept_at s.ttl_ms s.max_artifacts id e s h
                              (ground (arith, done)) at in
                          record {
                            open_store = ground (arith, opened);
                            entry = e;
                            found = unexpired.0;
                            young = unexpired.1;
                            page =
                                subst (IsPage is_before e.content offset limit) (ok-injective k)
                                  (make_page-IsPage is_before e.content offset limit q made);
                          })))))
        (λ x _. bad s _)
    where
      Right : Call (ArtifactPage is_before) → Type 0
      Right r = r.1 ≡ ok p → Served swept_at id offset limit s p

      bad : (v : ArtifactStore) (x : ArtifactError) → Right (v, err x)
      bad v x k = absurd (ground (arith, k))
