-- ===== src/Artifacts/History.antt =====
-- Histories of the store of src/kiro/artifacts.ts.
use kiro_fabric.Prelude.{
  ℕ, ◌≡◌, refl, ◌||◌, Bool, ltb, List, Option, none, Text, arith, Outcome, ok, if_cases,
  ok-injective, subst,
}
use kiro_fabric.Artifacts.{
  ArtifactStore, ArtifactError, ArtifactBounds, or_else, Disk, find, sum_chars, make_artifact_store,
  sweep, write, read, close,
}
use kiro_fabric.Artifacts.Invariant.{
  IsValid, sweep-IsValid, write-IsValid, read-IsValid, close-IsValid,
}

module _ (is_before : Text → Text → Bool) where
  -- The stores that calls lead to, whatever the file system does; a write draws an unused id.
  pub data Reach (s : ArtifactStore) : ArtifactStore → Type 0 where
    here : Reach s s
    swept :
        {t : ArtifactStore} (d : Disk) (now max_age max_entries : ℕ)
        → Reach s t
        → Reach s (sweep is_before d now max_age max_entries t).0
    written :
        {t : ArtifactStore} (d : Disk) (swept_at now : ℕ) (id content : Text) (kept : List Text)
        → find id t.entries ≡ none
        → Reach s t
        → Reach s (write is_before d swept_at now id content kept t).0
    read_from :
        {t : ArtifactStore} (d : Disk) (swept_at now : ℕ) (id : Text) (offset limit : Option ℕ)
        → Reach s t
        → Reach s (read is_before d swept_at now id offset limit t).0
    closed_by : {t : ArtifactStore} (d : Disk) → Reach s t → Reach s (close d t).0

  Reach-keeps : {s t : ArtifactStore} → IsValid s → Reach s t → IsValid t
  Reach-keeps h here = h
  Reach-keeps h (swept {t} d now max_age max_entries r) =
      sweep-IsValid is_before d now max_age max_entries t (Reach-keeps h r)
  Reach-keeps h (written {t} d swept_at now id content kept unused r) =
      write-IsValid is_before d swept_at now id content kept t (Reach-keeps h r) unused
  Reach-keeps h (read_from {t} d swept_at now id offset limit r) =
      read-IsValid is_before d swept_at now id offset limit t (Reach-keeps h r)
  Reach-keeps h (closed_by {t} d r) = close-IsValid d t (Reach-keeps h r)

  new_store-IsValid :
      (o : ArtifactBounds) (has_root : Bool) (s : ArtifactStore)
      → make_artifact_store o has_root ≡ ok s
      → IsValid s
  unfolding make_artifact_store sum_chars
  new_store-IsValid o has_root =
      if_cases Valid
        (ltb (or_else o.max_artifacts 32) 1
          || ltb (or_else o.max_artifact_chars 2_000_000) 1
          || ltb (or_else o.max_total_chars 8_000_000) 1
          || ltb (or_else o.ttl_ms 3_600_000) 1)
        (λ _ s h. absurd (ground (arith, h)))
        (λ _ s h. subst IsValid (ok-injective h) (record {
          few = omega arith;
          counted = refl;
          within = omega arith;
          small = tt;
          distinct = tt;
        }))
    where
      Valid : Outcome ArtifactError ArtifactStore → Type 0
      Valid m = (s : ArtifactStore) → m ≡ ok s → IsValid s

  -- From a new store, after any sweeps, writes under unused ids, reads and closes, whatever the
  -- file system does in them, the store has at most its maximum of entries, counts exactly the
  -- characters of its contents, which keep the limits of an entry and of the store, and has no id
  -- twice.
  pub Reach-make_artifact_store :
      (o : ArtifactBounds) (has_root : Bool) (s t : ArtifactStore)
      → make_artifact_store o has_root ≡ ok s
      → Reach s t
      → IsValid t
  Reach-make_artifact_store o has_root s t h r = Reach-keeps (new_store-IsValid o has_root s h) r
