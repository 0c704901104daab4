-- ===== src/Artifacts/Succeeds.antt =====
-- A write of src/kiro/artifacts.ts that fits succeeds where the file system does.
use kiro_fabric.Prelude.{
  ℕ, ◌+◌, ◌-◌, ◌≤◌, ◌<◌, Bool, false, ◌≡◌, refl, ap, ◌&&◌, ◌||◌, not, ltb, leb, if◌then◌else◌, List,
  [], ◌∷◌, ◌++◌, none, some, length, Text, arith, if_cases, option_cases, outcome_cases, ok, err,
}
use kiro_fabric.Artifacts.{
  StoredArtifact, ArtifactStore, Call, Disk, find, sum_chars, open_error, remove, sweep_expired,
  remove_oldest, has_many, sweep, retained, is_crowded, store_entry, write, Creation, created,
  fails, creation_failed,
}
use kiro_fabric.Artifacts.Entries.{same_text_self, find-delete-none}
use kiro_fabric.Artifacts.Invariant.{IsValid, remove_cases}
use kiro_fabric.Artifacts.Sweeps.{sweep-keeps, remove_oldest-keeps}
use kiro_fabric.Artifacts.Room.{sweep_expired-few, remove_oldest_idle}
use kiro_fabric.Artifacts.Writes.{
  Obeys, remove-Removed, Fits, loop_returns, find-append_new, remove-Fits,
}

module _ (is_before : Text → Text → Bool) where
  sweep_expired_returns :
      (d : Disk) (now max_age : ℕ) (es : List StoredArtifact) (s : ArtifactStore)
      → Obeys d
      → (sweep_expired is_before d now max_age es s).1 ≡ ok tt
  unfolding sweep_expired
  sweep_expired_returns d now max_age [] s o = refl
  sweep_expired_returns d now max_age (e ∷ es) s o =
      if_cases Returns (ltb max_age (now - e.last_read_at))
        (λ _.
          outcome_cases Returns (remove d e.id s).1
            (λ x bad. absurd (ground (arith, bad, (remove-Removed d e.id s o).returns)))
            (λ u _. sweep_expired_returns d now max_age es (remove d e.id s).0 o))
        (λ _. sweep_expired_returns d now max_age es s o)
    where
      Returns : Call (Unit {0}) → Type 0
      Returns r = r.1 ≡ ok tt

  opens : (d : Disk) (s : ArtifactStore) → Obeys d → s.is_closed ≡ false → open_error d s ≡ none
  opens d s o opened = ground (arith, opened, o.guarded)

  sweep_returns :
      (d : Disk) (now max_age : ℕ) (s : ArtifactStore)
      → Obeys d
      → IsValid s
      → s.is_closed ≡ false
      → (sweep is_before d now max_age s.max_artifacts s).1 ≡ ok tt
  unfolding sweep
  sweep_returns d now max_age s o valid opened =
      let expired = sweep_expired is_before d now max_age s.entries s in
      option_cases Returns (open_error d s)
        (λ _.
          if_cases Returns (s.has_root && not d.is_sweep_guarded)
            (λ bad. absurd (ground (arith, bad, o.sweep_guarded)))
            (λ _.
              outcome_cases Returns expired.1
                (λ x bad.
                  absurd (ground (arith, bad, sweep_expired_returns d now max_age s.entries s o)))
                (λ u _.
                  ap (λ r. r.1)
                    (remove_oldest_idle is_before (length expired.0.entries) d []
                      (has_many is_before s.max_artifacts) expired.0
                      (sweep_expired-few is_before d now max_age s valid)))))
        (λ x bad. absurd (ground (arith, bad, opens d s o opened)))
    where
      Returns : Call (Unit {0}) → Type 0
      Returns r = r.1 ≡ ok tt

  -- The write returns its id, which then leads to the content.
  pub record Succeeds (now : ℕ) (id content : Text) (r : Call Text) : Type 0 where
    pub returned : r.1 ≡ ok id
    pub entry : StoredArtifact
    pub found : find id r.0.entries ≡ some entry
    pub stored : entry.content ≡ content
    pub dated : entry.last_read_at ≡ now

  store_entry-Succeeds :
      (d : Disk) (now : ℕ) (id content : Text) (s : ArtifactStore)
      → Obeys d
      → find id s.entries ≡ none
      → Succeeds now id content (store_entry is_before d now id content s)
  unfolding store_entry
  store_entry-Succeeds d now id content s o unused =
      if_cases (Succeeds now id content) s.has_root (λ _. let e = o.creates in by_disk d.creates e)
        (λ _. stored)
    where
      added : StoredArtifact
      added = record { id = id; content = content; last_read_at = now; has_file = s.has_root }

      stored : Succeeds now id content (
        record s {
          entries = s.entries ++ added ∷ [];
          total_chars = s.total_chars + length content;
        },
        ok id,
      )
      stored = record {
        returned = refl;
        entry = added;
        found = find-append_new id s.entries added unused (same_text_self id);
        stored = refl;
        dated = refl;
      }

      by_disk :
          (c : Creation)
          → c ≡ created
          → Succeeds now id content (elim c [
            | created ↦ (
              record s {
                entries = s.entries ++ added ∷ [];
                total_chars = s.total_chars + length content;
              },
              ok id,
            )
            | fails residue n ↦ (
              record s {
                failed_writes = if residue then s.failed_writes ++ id ∷ [] else s.failed_writes;
                uncertain_closes = s.uncertain_closes + n;
              },
              err creation_failed,
            )
          ])
      by_disk created e = stored
      by_disk (fails residue n) e = absurd (ground (arith, e))

  -- On a valid open store with no failed cleanup and a file system that does what it is asked, a
  -- write under an unused id of a content within the limit of an entry, whose protected entries
  -- leave room for it, returns the id, and the id then leads to the content with its time.
  pub write-Succeeds :
      (d : Disk) (swept_at now : ℕ) (id content : Text) (kept : List Text) (s : ArtifactStore)
      → Obeys d
      → IsValid s
      → s.is_closed ≡ false
      → s.failed_writes ≡ []
      → s.uncertain_closes ≡ 0
      → length content ≤ s.max_artifact_chars
      → find id s.entries ≡ none
      → length (retained is_before kept s.entries) < s.max_artifacts
      → length content + sum_chars (retained is_before kept s.entries) ≤ s.max_total_chars
      → Succeeds now id content (write is_before d swept_at now id content kept s)
  unfolding write
  write-Succeeds d swept_at now id content kept s o valid opened no_files no_closes fits unused few
        small =
      let swept = sweep is_before d swept_at s.ttl_ms s.max_artifacts s in
      let v = swept.0 in
      let room =
        remove_oldest is_before (length v.entries) d kept (is_crowded is_before (length content))
          v in
      let ready : Fits is_before kept (length content) s = record {
        valid = valid;
        few = few;
        small = small;
      } in
      let ready_v =
        sweep-keeps Ready step is_before d swept_at s.ttl_ms s.max_artifacts s (ready, unused) in
      option_cases Right (open_error d s)
        (λ _.
          if_cases Right (ltb 0 (length s.failed_writes) || ltb 0 s.uncertain_closes)
            (λ bad. absurd (ground (arith, bad, ap length no_files, no_closes)))
            (λ _.
              if_cases Right (ltb s.max_artifact_chars (length content))
                (λ bad. absurd (ground (arith, bad, fits)))
                (λ _.
                  if_cases Right (ltb s.max_total_chars (length content))
                    (λ bad. absurd (ground (arith, bad, small)))
                    (λ _.
                      outcome_cases Right swept.1
                        (λ x bad.
                          absurd (
                            ground
                              (arith, bad, sweep_returns d swept_at s.ttl_ms s o valid opened)))
                        (λ u _.
                          if_cases Right
                            (leb v.max_artifacts (length (retained is_before kept v.entries))
                              || ltb v.max_total_chars
                                  (length content + sum_chars (retained is_before kept v.entries)))
                            (λ bad. absurd (ground (arith, bad, ready_v.0.few, ready_v.0.small)))
                            (λ _.
                              outcome_cases Right room.1
                                (λ x bad. absurd (
                                  ground (
                                    arith,
                                    bad,
                                    loop_returns is_before (length v.entries) d kept
                                        (length content) v o ready_v.0 (omega arith),
                                  )))
                                (λ u _. store_entry-Succeeds d now id content room.0 o (
                                  remove_oldest-keeps (λ w. find id w.entries ≡ none) gone is_before
                                    (length v.entries) d kept
                                    (is_crowded is_before (length content)) v ready_v.1))))))))
        (λ x bad. absurd (ground (arith, bad, opens d s o opened)))
    where
      Right : Call Text → Type 0
      Right = Succeeds now id content

      gone :
          (e : Disk) (key : Text) (w : ArtifactStore)
          → find id w.entries ≡ none
          → find id (remove e key w).0.entries ≡ none
      gone e key w h =
          remove_cases (λ u. find id u.entries ≡ none) e key w h h
            (λ x at. find-delete-none id key w.entries h)

      Ready : ArtifactStore → Type 0
      Ready w = Fits is_before kept (length content) w × (find id w.entries ≡ none)

      step : (e : Disk) (key : Text) (w : ArtifactStore) → Ready w → Ready (remove e key w).0
      step e key w h = (remove-Fits is_before kept (length content) e key w h.0, gone e key w h.1)
