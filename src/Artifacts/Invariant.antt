-- ===== src/Artifacts/Invariant.antt =====
-- Every call of the store of src/kiro/artifacts.ts keeps its quotas and its accounts.
use kiro_fabric.Prelude.{
  ℕ, ◌+◌, ◌-◌, ◌≤◌, Bool, true, false, ◌≡◌, refl, ◌||◌, not, ltb, leb, if◌then◌else◌, List, [], ◌∷◌,
  ◌++◌, Option, none, some, length, length-append, Text, arith, All, if_cases, option_cases,
  outcome_cases, ok, err,
}
use kiro_fabric.Artifacts
use kiro_fabric.Artifacts.{
  StoredArtifact, ArtifactError, ArtifactStore, Call, Disk, Removal, removed, refused, uncertain,
  Creation, created, fails, find, delete, id_of, itself, touch, sum_chars, open_error, remove,
  sweep, remove_oldest, retained, is_crowded, store_entry, write, make_page, read, is_artifact_id,
  remove_all, remove_residues, close, has_many,
}
use kiro_fabric.Artifacts.Entries.{
  IsDistinct, find-delete-none, IsDistinct-delete, All-delete, delete_counts, sum_chars-append,
  IsDistinct-append, All-append, length-touch, sum_chars-touch, IsDistinct-touch, All-touch,
}
use kiro_fabric.Artifacts.Sweeps.{
  remove_all-keeps, remove_oldest-keeps, sweep-keeps, remove_oldest_ends,
}

abbrev pub IsSmall : ℕ → StoredArtifact → Type 0
IsSmall n e = length e.content ≤ n

pub record IsValid (s : ArtifactStore) : Type 0 where
  pub few : length s.entries ≤ s.max_artifacts
  pub counted : s.total_chars ≡ sum_chars s.entries
  pub within : s.total_chars ≤ s.max_total_chars
  pub small : All (IsSmall s.max_artifact_chars) s.entries
  pub distinct : IsDistinct s.entries

-- A valid store in which an id is not used, with these bounds.
pub record IsReady (id : Text) (chars total : ℕ) (s : ArtifactStore) : Type 0 where
  pub valid : IsValid s
  pub unused : find id s.entries ≡ none
  pub chars_kept : s.max_artifact_chars ≡ chars
  pub total_kept : s.max_total_chars ≡ total

deleted-IsValid :
    (s : ArtifactStore) (id : Text) (e : StoredArtifact)
    → find id s.entries ≡ some e
    → IsValid s
    → IsValid (record s {
      entries = delete id_of id s.entries;
      total_chars = s.total_chars - length e.content;
    })
deleted-IsValid s id e at h =
    let c = delete_counts id s.entries e at in
    record {
      few = omega (arith, h.few, c.0);
      counted = omega (arith, h.counted, c.1);
      within = omega (arith, h.within);
      small = All-delete (IsSmall s.max_artifact_chars) id s.entries h.small;
      distinct = IsDistinct-delete id s.entries h.distinct;
    }

-- The stores that a removal can leave.
abbrev pub without : ArtifactStore → Text → StoredArtifact → ArtifactStore
without s id e = record s {
  entries = delete id_of id s.entries;
  total_chars = s.total_chars - length e.content;
}

abbrev pub unsure : ArtifactStore → ArtifactStore
unsure s = record s { uncertain_closes = s.uncertain_closes + 1 }

pub remove_cases :
    (P : ArtifactStore → Type 0) (d : Disk) (id : Text) (s : ArtifactStore)
    → P s
    → P (unsure s)
    → ((e : StoredArtifact) → find id s.entries ≡ some e → P (without s id e))
    → P (remove d id s).0
unfolding remove
remove_cases P d id s same more less =
    option_cases Kept (find id s.entries) (λ _. same)
      (λ e at. if_cases Kept e.has_file (λ _. by_disk e at (d.removes id)) (λ _. less e at))
  where
    Kept : Call (Unit {0}) → Type 0
    Kept r = P r.0

    by_disk :
        (e : StoredArtifact)
        → find id s.entries ≡ some e
        → (r : Removal)
        → Kept (elim r [
          | removed ↦ (without s id e, ok tt)
          | refused ↦ (s, err Artifacts.removal_failed)
          | uncertain ↦ (unsure s, err Artifacts.removal_failed)
        ])
    by_disk e at removed = less e at
    by_disk e at refused = same
    by_disk e at uncertain = more

pub remove-IsValid :
    (d : Disk) (id : Text) (s : ArtifactStore) → IsValid s → IsValid (remove d id s).0
remove-IsValid d id s h =
    remove_cases IsValid d id s h
      (record {
        few = h.few;
        counted = h.counted;
        within = h.within;
        small = h.small;
        distinct = h.distinct;
      })
      (λ e at. deleted-IsValid s id e at h)

remove-IsReady :
    (key : Text) (chars total : ℕ) (d : Disk) (id : Text) (s : ArtifactStore)
    → IsReady key chars total s
    → IsReady key chars total (remove d id s).0
remove-IsReady key chars total d id s h = record {
  valid = remove-IsValid d id s h.valid;
  unused =
      remove_cases (λ v. find key v.entries ≡ none) d id s h.unused h.unused
        (λ e at. find-delete-none key id s.entries h.unused);
  chars_kept =
      remove_cases (λ v. v.max_artifact_chars ≡ chars) d id s h.chars_kept h.chars_kept
        (λ e at. h.chars_kept);
  total_kept =
      remove_cases (λ v. v.max_total_chars ≡ total) d id s h.total_kept h.total_kept
        (λ e at. h.total_kept);
}

-- An entry that has room is added, or nothing is.
store_entry-IsValid :
    (is_before : Text → Text → Bool) (d : Disk) (now : ℕ) (id content : Text) (s : ArtifactStore)
    → IsReady id s.max_artifact_chars s.max_total_chars s
    → is_crowded is_before (length content) s ≡ false
    → length content ≤ s.max_artifact_chars
    → IsValid (store_entry is_before d now id content s).0
unfolding store_entry
store_entry-IsValid is_before d now id content s h room fits =
    if_cases Kept s.has_root (λ _. by_disk d.creates) (λ _. stored)
  where
    added : StoredArtifact
    added = record { id = id; content = content; last_read_at = now; has_file = s.has_root }

    Kept : Call Text → Type 0
    Kept r = IsValid r.0

    stored : IsValid (record s {
      entries = s.entries ++ added ∷ [];
      total_chars = s.total_chars + length content;
    })
    stored = record {
      few = ground (arith, room, length-append s.entries (added ∷ []));
      counted = omega (arith, h.valid.counted, sum_chars-append s.entries added);
      within = ground (arith, room);
      small = All-append (IsSmall s.max_artifact_chars) s.entries added h.valid.small fits;
      distinct = IsDistinct-append s.entries added h.valid.distinct h.unused;
    }

    by_disk :
        (c : Creation)
        → Kept (elim c [
          | created ↦ (
            record s {
              entries = s.entries ++ added ∷ [];
              total_chars = s.total_chars + length content;
            },
            ok id,
          )
          | fails residue n ↦ (
            record s {
              failed_writes = if residue then s.failed_writes ++ id ∷ [] else s.failed_writes;
              uncertain_closes = s.uncertain_closes + n;
            },
            err Artifacts.creation_failed,
          )
        ])
    by_disk created = stored
    by_disk (fails residue n) = record {
      few = h.valid.few;
      counted = h.valid.counted;
      within = h.valid.within;
      small = h.valid.small;
      distinct = h.valid.distinct;
    }

module _ (is_before : Text → Text → Bool) where
  pub sweep-IsValid :
      (d : Disk) (now max_age max_entries : ℕ) (s : ArtifactStore)
      → IsValid s
      → IsValid (sweep is_before d now max_age max_entries s).0
  sweep-IsValid = sweep-keeps IsValid remove-IsValid is_before

  pub write-IsValid :
      (d : Disk) (swept_at now : ℕ) (id content : Text) (kept : List Text) (s : ArtifactStore)
      → IsValid s
      → find id s.entries ≡ none
      → IsValid (write is_before d swept_at now id content kept s).0
  unfolding write
  write-IsValid d swept_at now id content kept s h unused =
      let P = IsReady id s.max_artifact_chars s.max_total_chars in
      let ready : P s = record {
        valid = h;
        unused = unused;
        chars_kept = refl;
        total_kept = refl;
      } in
      let swept = sweep is_before d swept_at s.ttl_ms s.max_artifacts s in
      let v = swept.0 in
      let ready_v =
        sweep-keeps P (remove-IsReady id s.max_artifact_chars s.max_total_chars) is_before d
          swept_at s.ttl_ms s.max_artifacts s ready in
      let room =
        remove_oldest is_before (length v.entries) d kept (is_crowded is_before (length content))
          v in
      let ready_w =
        remove_oldest-keeps P (remove-IsReady id s.max_artifact_chars s.max_total_chars) is_before
          (length v.entries) d kept (is_crowded is_before (length content)) v ready_v in
      option_cases Kept (open_error d s)
        (λ _.
          if_cases Kept (ltb 0 (length s.failed_writes) || ltb 0 s.uncertain_closes) (λ _. h)
            (λ _.
              if_cases Kept (ltb s.max_artifact_chars (length content)) (λ _. h)
                (λ fits.
                  if_cases Kept (ltb s.max_total_chars (length content)) (λ _. h)
                    (λ _.
                      outcome_cases Kept swept.1 (λ x _. ready_v.valid)
                        (λ u _.
                          if_cases Kept
                            (leb v.max_artifacts (length (retained is_before kept v.entries))
                              || ltb v.max_total_chars
                                  (length content + sum_chars (retained is_before kept v.entries)))
                            (λ _. ready_v.valid)
                            (λ _.
                              outcome_cases Kept room.1 (λ x _. ready_w.valid)
                                (λ u done.
                                  store_entry-IsValid is_before d now id content room.0
                                    (record {
                                      valid = ready_w.valid;
                                      unused = ready_w.unused;
                                      chars_kept = refl;
                                      total_kept = refl;
                                    })
                                    (remove_oldest_ends is_before (length v.entries) d kept
                                      (is_crowded is_before (length content)) v
                                      (ground (arith, done)))
                                    (ground (arith, fits, ready_w.chars_kept)))))))))
        (λ x _. h)
    where
      Kept : Call Text → Type 0
      Kept r = IsValid r.0

  pub read-IsValid :
      (d : Disk) (swept_at now : ℕ) (id : Text) (offset limit : Option ℕ) (s : ArtifactStore)
      → IsValid s
      → IsValid (read is_before d swept_at now id offset limit s).0
  unfolding read
  read-IsValid d swept_at now id offset limit s h =
      let swept = sweep is_before d swept_at s.ttl_ms s.max_artifacts s in
      let v = swept.0 in
      let valid = sweep-IsValid d swept_at s.ttl_ms s.max_artifacts s h in
      option_cases Kept (open_error d s)
        (λ _.
          if_cases Kept (not (is_artifact_id id)) (λ _. h)
            (λ _.
              outcome_cases Kept swept.1 (λ x _. valid)
                (λ u _.
                  option_cases Kept (find id v.entries) (λ _. valid)
                    (λ e _.
                      outcome_cases Kept (make_page is_before e.content offset limit) (λ x _. valid)
                        (λ p _.
                          if_cases (λ es. IsValid (record v { entries = es }))
                            (ltb 0 (length p.text)) (λ _. touched v valid) (λ _. valid))))))
        (λ x _. h)
    where
      Kept : Call (Artifacts.ArtifactPage is_before) → Type 0
      Kept r = IsValid r.0

      touched :
          (v : ArtifactStore) → IsValid v → IsValid (record v { entries = touch id now v.entries })
      touched v k = record {
        few = ground (arith, k.few, length-touch id now v.entries);
        counted = ground (arith, k.counted, sum_chars-touch id now v.entries);
        within = k.within;
        small =
            All-touch id now (IsSmall v.max_artifact_chars) v.entries (λ e small. small) k.small;
        distinct = IsDistinct-touch id now v.entries k.distinct;
      }

-- A property of what follows each result of a removal.
pub removal_cases :
    {A : Type 0} (P : A → Type 0) (r : Removal) {x y z : A}
    → (r ≡ removed → P x)
    → (r ≡ refused → P y)
    → (r ≡ uncertain → P z)
    → P (elim r [ removed ↦ x | refused ↦ y | uncertain ↦ z ])
removal_cases P removed f g h = f refl
removal_cases P refused f g h = g refl
removal_cases P uncertain f g h = h refl

-- The entries are all that the invariant is about.
same_entries :
    (s : ArtifactStore) (files : List Text) (closes : ℕ) (is_closed : Bool)
    → IsValid s
    → IsValid (record s { failed_writes = files; uncertain_closes = closes; is_closed = is_closed })
same_entries s files closes is_closed h = record {
  few = h.few;
  counted = h.counted;
  within = h.within;
  small = h.small;
  distinct = h.distinct;
}

remove_residues-IsValid :
    (d : Disk) (fs : List Text) (s : ArtifactStore) → IsValid s → IsValid (remove_residues d fs s).0
unfolding remove_residues
remove_residues-IsValid d [] s h = h
remove_residues-IsValid d (f ∷ fs) s h =
    removal_cases (λ (r : ArtifactStore × ℕ). IsValid r.0) (d.removes_residue f)
      (λ _.
        remove_residues-IsValid d fs _
          (same_entries s (delete itself f s.failed_writes) s.uncertain_closes s.is_closed h))
      (λ _. remove_residues-IsValid d fs s h)
      (λ _.
        remove_residues-IsValid d fs _
          (same_entries s s.failed_writes (s.uncertain_closes + 1) s.is_closed h))

pub close-IsValid : (d : Disk) (s : ArtifactStore) → IsValid s → IsValid (close d s).0
unfolding close
close-IsValid d s h =
    let removed_all = remove_all d s.entries s in
    let cleaned = remove_residues d removed_all.0.failed_writes removed_all.0 in
    let valid : IsValid cleaned.0 =
      remove_residues-IsValid d removed_all.0.failed_writes removed_all.0
        (remove_all-keeps IsValid remove-IsValid d s.entries s h) in
    if_cases Kept s.is_closed (λ _. h)
      (λ _.
        if_cases Kept (ltb 0 (removed_all.1 + cleaned.1 + cleaned.0.uncertain_closes)) (λ _. valid)
          (λ _.
            same_entries cleaned.0 cleaned.0.failed_writes cleaned.0.uncertain_closes true valid))
  where
    Kept : Call (Unit {0}) → Type 0
    Kept r = IsValid r.0
