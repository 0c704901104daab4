-- ===== src/Artifacts/Closing.antt =====
-- A close of src/kiro/artifacts.ts removes what it can, and keeps what it could not remove.
use kiro_fabric.Prelude.{
  same_text, ℕ, ◌+◌, ◌-◌, Bool, true, false, ◌≡◌, refl, sym, ap, subst, ◌∙◌, inl, inr, ◌&&◌, ◌||◌,
  not, ltb, if◌then◌else◌, List, [], ◌∷◌, ◌++◌, none, some, length, Text, arith, All, Bool-cases,
  if_cases, option_cases, ok, err,
}
use mathlib.Core.List.{append_assoc}
use kiro_fabric.Artifacts.{
  StoredArtifact, ArtifactStore, Call, Disk, Removal, removed, refused, uncertain, removal_failed,
  cleanup_failed, find, delete, id_of, itself, remove, remove_all, remove_residues, close,
}
use kiro_fabric.Artifacts.Invariant.{IsValid, removal_cases}
use kiro_fabric.Artifacts.Entries.{IsDistinct, same_text_self, same_text_comm}

abbrev is_stuck : Removal → Bool
is_stuck removed = false
is_stuck refused = true
is_stuck uncertain = true

-- The entries whose files are not removed.
pub stuck_entries : Disk → List StoredArtifact → List StoredArtifact
stuck_entries d [] = []
stuck_entries d (e ∷ es) =
    if e.has_file && is_stuck (d.removes e.id) then e ∷ stuck_entries d es else stuck_entries d es

pub stuck_residues : Disk → List Text → List Text
stuck_residues d [] = []
stuck_residues d (f ∷ fs) =
    if is_stuck (d.removes_residue f) then f ∷ stuck_residues d fs else stuck_residues d fs

module _ {A : Type 0} (key : A → Text) where
  -- No key stands twice.
  abbrev pub IsUnique : List A → Type 0
  IsUnique [] = Unit
  IsUnique (x ∷ xs) = All (λ y. same_text (key y) (key x) ≡ false) xs × IsUnique xs

  -- No key of the second list stands in the first.
  abbrev IsApart : List A → List A → Type 0
  IsApart kept xs = All (λ x. All (λ k. same_text (key x) (key k) ≡ false) kept) xs

  delete_at :
      (kept : List A) (x : A) (xs : List A)
      → All (λ k. same_text (key x) (key k) ≡ false) kept
      → delete key (key x) (kept ++ x ∷ xs) ≡ kept ++ xs
  unfolding delete
  delete_at [] x xs h = ground (arith, same_text_self (key x))
  delete_at (k ∷ kept) x xs h = ground (arith, h.0, delete_at kept x xs h.1)

  IsApart-nil : (xs : List A) → IsApart [] xs
  IsApart-nil [] = tt
  IsApart-nil (x ∷ xs) = (tt, IsApart-nil xs)

  All-snoc : (P : A → Type 0) (xs : List A) (x : A) → All P xs → P x → All P (xs ++ x ∷ [])
  All-snoc P [] x h k = (k, tt)
  All-snoc P (y ∷ xs) x h k = (h.0, All-snoc P xs x h.1 k)

  IsApart-snoc :
      (kept : List A) (x : A) (xs : List A)
      → IsApart kept xs
      → All (λ y. same_text (key y) (key x) ≡ false) xs
      → IsApart (kept ++ x ∷ []) xs
  IsApart-snoc kept x [] h k = tt
  IsApart-snoc kept x (y ∷ xs) h k = (
    All-snoc (λ z. same_text (key y) (key z) ≡ false) kept x h.0 k.0,
    IsApart-snoc kept x xs h.1 k.1,
  )

find_at :
    (kept : List StoredArtifact) (e : StoredArtifact) (es : List StoredArtifact)
    → All (λ k. same_text e.id k.id ≡ false) kept
    → find e.id (kept ++ e ∷ es) ≡ some e
unfolding find
find_at [] e es h = ground (arith, same_text_self e.id)
find_at (k ∷ kept) e es h = ground (arith, h.0, find_at kept e es h.1)

others_differ :
    (id : Text) (es : List StoredArtifact)
    → find id es ≡ none
    → All (λ y. same_text y.id id ≡ false) es
unfolding find
others_differ id [] h = tt
others_differ id (x ∷ es) h =
    (ground (arith, h, same_text_comm x.id id), others_differ id es (ground (arith, h)))

distinct→unique : (es : List StoredArtifact) → IsDistinct es → IsUnique id_of es
distinct→unique [] h = tt
distinct→unique (e ∷ es) h = (others_differ e.id es h.0, distinct→unique es h.1)

-- One removal of the loop.
record Step (d : Disk) (e : StoredArtifact) (kept es : List StoredArtifact) (s : ArtifactStore)
    (r : Call (Unit {0})) : Type 0 where
  entries :
      r.0.entries ≡ (if e.has_file && is_stuck (d.removes e.id) then kept ++ e ∷ es else kept ++ es)
  files : r.0.failed_writes ≡ s.failed_writes
  closed : r.0.is_closed ≡ s.is_closed
  result : r.1 ≡ (if e.has_file && is_stuck (d.removes e.id) then err removal_failed else ok tt)

remove-Step :
    (d : Disk) (e : StoredArtifact) (kept es : List StoredArtifact) (s : ArtifactStore)
    → s.entries ≡ kept ++ e ∷ es
    → All (λ k. same_text e.id k.id ≡ false) kept
    → Step d e kept es s (remove d e.id s)
unfolding remove
remove-Step d e kept es s at apart =
    option_cases (Step d e kept es s) (find e.id s.entries)
      (λ gone. absurd (ground (arith, gone, found)))
      (λ x there.
        let same : e ≡ x = ground (arith, found, there) in
        subst
          (λ y. Step d e kept es s (
            if y.has_file
            then elim (d.removes e.id) [
              | removed ↦ (without y, ok tt)
              | refused ↦ (s, err removal_failed)
              | uncertain ↦ (unsure, err removal_failed)
            ]
            else (without y, ok tt)))
          same
          (if_cases (Step d e kept es s) e.has_file
            (λ file.
              removal_cases (Step d e kept es s) (d.removes e.id)
                (λ r. record {
                  entries = ground (arith, r, less);
                  files = refl;
                  closed = refl;
                  result = ground (arith, r);
                })
                (λ r. record {
                  entries = ground (arith, r, file, at);
                  files = refl;
                  closed = refl;
                  result = ground (arith, r, file);
                })
                (λ r. record {
                  entries = ground (arith, r, file, at);
                  files = refl;
                  closed = refl;
                  result = ground (arith, r, file);
                }))
            (λ memory. record {
              entries = ground (arith, memory, less);
              files = refl;
              closed = refl;
              result = ground (arith, memory);
            })))
  where
    found : find e.id s.entries ≡ some e
    found = ap (find e.id) at ∙ find_at kept e es apart

    less : delete id_of e.id s.entries ≡ kept ++ es
    less = ap (delete id_of e.id) at ∙ delete_at id_of kept e es apart

    without : StoredArtifact → ArtifactStore
    without y = record s {
      entries = delete id_of e.id s.entries;
      total_chars = s.total_chars - length y.content;
    }

    unsure : ArtifactStore
    unsure = record s { uncertain_closes = s.uncertain_closes + 1 }

-- What a loop of `close` leaves of its list behind the elements that it has kept.
record Left (entries : List StoredArtifact) (files : List Text) (failures : ℕ) (is_closed : Bool)
    (x : ArtifactStore × ℕ) : Type 0 where
  closed : x.0.is_closed ≡ is_closed
  left : x.0.entries ≡ entries
  files_left : x.0.failed_writes ≡ files
  failed : x.1 ≡ failures

remove_all-Left :
    (d : Disk) (kept es : List StoredArtifact) (s : ArtifactStore)
    → s.entries ≡ kept ++ es
    → IsApart id_of kept es
    → IsUnique id_of es
    → Left
        (kept ++ stuck_entries d es)
        s.failed_writes
        (length (stuck_entries d es))
        s.is_closed
        (remove_all d es s)
unfolding remove_all stuck_entries
remove_all-Left d kept [] s at apart unique = record {
  left = at;
  files_left = refl;
  failed = refl;
  closed = refl;
}
remove_all-Left d kept (e ∷ es) s at apart unique =
    let step = remove-Step d e kept es s at apart.0 in
    elim (Bool-cases (e.has_file && is_stuck (d.removes e.id))) [
      | inl stuck ↦
          let rest =
            remove_all-Left d (kept ++ e ∷ []) es (remove d e.id s).0
              (ground (arith, step.entries, stuck, append_assoc kept (e ∷ []) es))
              (IsApart-snoc id_of kept e es apart.1 unique.0) unique.1 in
          record {
            left =
                rest.left
                ∙ append_assoc kept (e ∷ []) (stuck_entries d es)
                ∙ ap (λ b. kept ++ (if b then e ∷ stuck_entries d es else stuck_entries d es))
                    (sym stuck);
            files_left = rest.files_left ∙ step.files;
            closed = rest.closed ∙ step.closed;
            failed = ground (arith, rest.failed, step.result, stuck);
          }
      | inr free ↦
          let rest =
            remove_all-Left d kept es (remove d e.id s).0 (ground (arith, step.entries, free))
              apart.1 unique.1 in
          record {
            left =
                rest.left
                ∙ ap (λ b. kept ++ (if b then e ∷ stuck_entries d es else stuck_entries d es))
                    (sym free);
            files_left = rest.files_left ∙ step.files;
            closed = rest.closed ∙ step.closed;
            failed = ground (arith, rest.failed, step.result, free);
          }
    ]

remove_residues-Left :
    (d : Disk) (kept fs : List Text) (s : ArtifactStore)
    → s.failed_writes ≡ kept ++ fs
    → IsApart itself kept fs
    → IsUnique itself fs
    → Left s.entries
        (kept ++ stuck_residues d fs)
        (length (stuck_residues d fs))
        s.is_closed
        (remove_residues d fs s)
unfolding remove_residues stuck_residues
remove_residues-Left d kept [] s at apart unique = record {
  left = refl;
  files_left = at;
  failed = refl;
  closed = refl;
}
remove_residues-Left d kept (f ∷ fs) s at apart unique =
    removal_cases
      (Left s.entries (kept ++ stuck_residues d (f ∷ fs)) (length (stuck_residues d (f ∷ fs)))
        s.is_closed)
      (d.removes_residue f)
      (λ r.
        let rest =
          remove_residues-Left d kept fs
            (record s { failed_writes = delete itself f s.failed_writes })
            (ap (delete itself f) at ∙ delete_at itself kept f fs apart.0) apart.1 unique.1 in
        record {
          left = rest.left;
          closed = rest.closed;
          files_left = ground (arith, r, rest.files_left);
          failed = ground (arith, r, rest.failed);
        })
      (λ r.
        let rest =
          remove_residues-Left d (kept ++ f ∷ []) fs s (at ∙ sym (append_assoc kept (f ∷ []) fs))
            (IsApart-snoc itself kept f fs apart.1 unique.0) unique.1 in
        record {
          left = rest.left;
          closed = rest.closed;
          files_left =
              ground (arith, r, rest.files_left, append_assoc kept (f ∷ []) (stuck_residues d fs));
          failed = ground (arith, r, rest.failed);
        })
      (λ r.
        let rest =
          remove_residues-Left d (kept ++ f ∷ []) fs
            (record s { uncertain_closes = s.uncertain_closes + 1 })
            (at ∙ sym (append_assoc kept (f ∷ []) fs))
            (IsApart-snoc itself kept f fs apart.1 unique.0) unique.1 in
        record {
          left = rest.left;
          closed = rest.closed;
          files_left =
              ground (arith, r, rest.files_left, append_assoc kept (f ∷ []) (stuck_residues d fs));
          failed = ground (arith, r, rest.failed);
        })

-- Nothing is left to clean up.
abbrev pub is_clean : ArtifactStore → Bool
is_clean s =
    not (ltb 0 (length s.entries) || ltb 0 (length s.failed_writes) || ltb 0 s.uncertain_closes)

pub record Closes (d : Disk) (s : ArtifactStore) (r : Call (Unit {0})) : Type 0 where
  pub entries : r.0.entries ≡ stuck_entries d s.entries
  pub files : r.0.failed_writes ≡ stuck_residues d s.failed_writes
  pub closed : r.0.is_closed ≡ is_clean r.0
  pub result : r.1 ≡ (if is_clean r.0 then ok tt else err cleanup_failed)

-- Closing an open valid store, with no failed write twice, keeps exactly the entries and residues
-- whose removal failed; it fails, and leaves the store open, exactly if one of them or an
-- uncertain close of a descriptor remains.
pub close-Closes :
    (d : Disk) (s : ArtifactStore)
    → IsValid s
    → IsUnique itself s.failed_writes
    → s.is_closed ≡ false
    → Closes d s (close d s)
unfolding close
close-Closes d s h files opened =
    let removed_all = remove_all d s.entries s in
    let first =
      remove_all-Left d [] s.entries s refl (IsApart-nil id_of s.entries)
        (distinct→unique s.entries h.distinct) in
    let second =
      remove_residues-Left d [] removed_all.0.failed_writes removed_all.0 refl
        (IsApart-nil itself _) (subst (IsUnique itself) (sym first.files_left) files) in
    let cleaned = remove_residues d removed_all.0.failed_writes removed_all.0 in
    let es : cleaned.0.entries ≡ stuck_entries d s.entries = second.left ∙ first.left in
    let fs : cleaned.0.failed_writes ≡ stuck_residues d s.failed_writes =
      second.files_left ∙ ap (stuck_residues d) first.files_left in
    let still : cleaned.0.is_closed ≡ false = second.closed ∙ first.closed ∙ opened in
    if_cases (Closes d s) s.is_closed (λ shut. absurd (ground (arith, shut, opened)))
      (λ _.
        if_cases (Closes d s) (ltb 0 (removed_all.1 + cleaned.1 + cleaned.0.uncertain_closes))
          (λ failed.
            let dirty : is_clean cleaned.0 ≡ false = ground (
              arith,
              failed,
              first.failed,
              second.failed,
              ap length es,
              ap length fs,
              ap length first.files_left,
              ap (λ f. length (stuck_residues d f)) first.files_left,
            ) in
            record { entries = es; files = fs; closed = still ∙ sym dirty; result = rw dirty })
          (λ none_failed.
            let clean : is_clean cleaned.0 ≡ true = ground (
              arith,
              none_failed,
              first.failed,
              second.failed,
              ap length es,
              ap length fs,
              ap (λ f. length (stuck_residues d f)) first.files_left,
            ) in
            record { entries = es; files = fs; closed = sym clean; result = rw clean }))
