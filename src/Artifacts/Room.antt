-- ===== src/Artifacts/Room.antt =====
-- How a write of src/kiro/artifacts.ts makes room: it spares protected and unexpired entries, and it
-- succeeds where the file system does.
use kiro_fabric.Prelude.{
  same_text, ℕ, zero, suc, ◌-◌, ◌≤◌, Bool, true, false, ◌≡◌, refl, sym, ap, subst, ◌∙◌, ◌⊎◌, inl,
  inr, ◌&&◌, not, ltb, List, [], ◌∷◌, Option, none, some, length, Text, arith, Bool-cases,
  Option-cases, if_cases, option_cases, outcome_cases, ok,
}
use kiro_fabric.Artifacts.{
  StoredArtifact, ArtifactStore, Call, Disk, has, find, open_error, remove, oldest, is_older,
  sweep_expired, remove_oldest, has_many, sweep,
}
use kiro_fabric.Artifacts.Entries.{IsDistinct, same_text→≡, same_text_comm}
use kiro_fabric.Artifacts.Invariant.{IsValid, remove_cases, remove-IsValid}
use kiro_fabric.Artifacts.Sweeps.{sweep_expired-keeps}
use kiro_fabric.Artifacts.Expiry.{find-delete_other}

has_same : (a b : Text) (kept : List Text) → same_text a b ≡ true → has a kept ≡ has b kept
has_same a b kept h = ap (λ k. has k kept) (same_text→≡ a b h)

pub apart_of :
    (a b : Text) (kept : List Text) → has a kept ≡ false → has b kept ≡ true → same_text a b ≡ false
apart_of a b kept h k = elim (Bool-cases (same_text a b)) [
  | inl same ↦ absurd (ground (arith, h, k, has_same a b kept same))
  | inr other ↦ other
]

-- A removal of another key changes nothing for this one.
pub remove_other :
    (d : Disk) (key id : Text) (was : Option StoredArtifact) (s : ArtifactStore)
    → same_text key id ≡ false
    → find id s.entries ≡ was
    → find id (remove d key s).0.entries ≡ was
remove_other d key id was s other h =
    remove_cases (λ v. find id v.entries ≡ was) d key s h h
      (λ e at. find-delete_other id key s.entries other ∙ h)

module _ (is_before : Text → Text → Bool) where
  pub oldest_unprotected :
      (kept : List Text) (es : List StoredArtifact) (o : StoredArtifact)
      → oldest is_before kept es ≡ some o
      → has o.id kept ≡ false
  unfolding oldest
  oldest_unprotected kept [] o h = absurd (ground (arith, h))
  oldest_unprotected kept (e ∷ es) o h = elim (Bool-cases (has e.id kept)) [
    | inl held ↦ oldest_unprotected kept es o (ground (arith, h, held))
    | inr free ↦ elim (Option-cases (oldest is_before kept es)) [
      | inl only ↦
          let at : e ≡ o = ground (arith, h, free, only) in
          subst (λ x. has x.id kept ≡ false) at free
      | inr (x, rest) ↦ elim (Bool-cases (is_older is_before x e)) [
        | inl older ↦
            let at : x ≡ o = ground (arith, h, free, rest, older) in
            oldest_unprotected kept es o (rest ∙ ap some at)
        | inr newer ↦
            let at : e ≡ o = ground (arith, h, free, rest, newer) in
            subst (λ x. has x.id kept ≡ false) at free
      ]
    ]
  ]

  -- What removals of unprotected entries keep, the loop keeps.
  pub remove_oldest-spares :
      (P : ArtifactStore → Type 0) (d : Disk) (kept : List Text)
      → ((o : StoredArtifact) (s : ArtifactStore)
          → has o.id kept ≡ false
          → P s
          → P (remove d o.id s).0)
      → (rounds : ℕ) (is_full : ArtifactStore → Bool) (s : ArtifactStore) → P s
      → P (remove_oldest is_before rounds d kept is_full s).0
  unfolding remove_oldest
  remove_oldest-spares P d kept keeps zero is_full s h =
      if_cases (λ (r : Call (Unit {0})). P r.0) (is_full s) (λ _. h) (λ _. h)
  remove_oldest-spares P d kept keeps (suc rounds) is_full s h =
      if_cases (λ (r : Call (Unit {0})). P r.0) (is_full s)
        (λ _.
          option_cases (λ (r : Call (Unit {0})). P r.0) (oldest is_before kept s.entries) (λ _. h)
            (λ o at.
              let gone = keeps o s (oldest_unprotected kept s.entries o at) h in
              outcome_cases (λ (r : Call (Unit {0})). P r.0) (remove d o.id s).1 (λ x _. gone)
                (λ u _.
                  remove_oldest-spares P d kept keeps rounds is_full (remove d o.id s).0 gone)))
        (λ _. h)

  pub remove_oldest_idle :
      (rounds : ℕ) (d : Disk) (kept : List Text) (is_full : ArtifactStore → Bool)
      (s : ArtifactStore)
      → is_full s ≡ false
      → remove_oldest is_before rounds d kept is_full s ≡ (s, ok tt)
  unfolding remove_oldest
  remove_oldest_idle zero d kept is_full s h = rw h
  remove_oldest_idle (suc rounds) d kept is_full s h = rw h

  pub sweep_expired-spares :
      (d : Disk) (now max_age : ℕ) (id : Text) (e : StoredArtifact) (es : List StoredArtifact)
      (s : ArtifactStore)
      → IsDistinct es
      → (find id es ≡ none) ⊎ (find id es ≡ some e)
      → now - e.last_read_at ≤ max_age
      → find id s.entries ≡ some e
      → find id (sweep_expired is_before d now max_age es s).0.entries ≡ some e
  unfolding sweep_expired find
  sweep_expired-spares d now max_age id e [] s distinct among young h = h
  sweep_expired-spares d now max_age id e (x ∷ es) s distinct among young h =
      if_cases Spared (ltb max_age (now - x.last_read_at))
        (λ old.
          let gone = remove_other d x.id id (some e) s (other old) h in
          outcome_cases Spared (remove d x.id s).1 (λ y _. gone)
            (λ u _.
              sweep_expired-spares d now max_age id e es (remove d x.id s).0 distinct.1 later young
                gone))
        (λ _. sweep_expired-spares d now max_age id e es s distinct.1 later young h)
    where
      Spared : Call (Unit {0}) → Type 0
      Spared r = find id r.0.entries ≡ some e

      later : (find id es ≡ none) ⊎ (find id es ≡ some e)
      later = elim (Bool-cases (same_text id x.id)) [
        | inl same ↦ inl (ap (λ k. find k es) (same_text→≡ id x.id same) ∙ distinct.0)
        | inr differs ↦ elim among [
          | inl missing ↦ inl (ground (arith, missing, differs))
          | inr there ↦ inr (ground (arith, there, differs))
        ]
      ]

      other : ltb max_age (now - x.last_read_at) ≡ true → same_text x.id id ≡ false
      other old = elim (Bool-cases (same_text id x.id)) [
        | inl same ↦ elim among [
          | inl missing ↦ absurd (ground (arith, missing, same))
          | inr there ↦
              let at : x ≡ e = ground (arith, there, same) in
              absurd (ground (arith, old, young, ap (λ (y : StoredArtifact). y.last_read_at) at))
        ]
        | inr differs ↦ same_text_comm x.id id ∙ differs
      ]

  -- Behind the first loop of a sweep, a valid store keeps its quota of entries.
  pub sweep_expired-few :
      (d : Disk) (now max_age : ℕ) (s : ArtifactStore)
      → IsValid s
      → has_many is_before s.max_artifacts (sweep_expired is_before d now max_age s.entries s).0
        ≡ false
  sweep_expired-few d now max_age s valid =
      let v =
        sweep_expired-keeps Bounded bounded is_before d now max_age s.entries s (valid, refl) in
      ground (arith, v.0.few, v.1)
    where
      Bounded : ArtifactStore → Type 0
      Bounded v = IsValid v × (v.max_artifacts ≡ s.max_artifacts)

      bounded : (d : Disk) (id : Text) (v : ArtifactStore) → Bounded v → Bounded (remove d id v).0
      bounded d id v g = (
        remove-IsValid d id v g.0,
        remove_cases (λ w. w.max_artifacts ≡ s.max_artifacts) d id v g.1 g.1 (λ e at. g.1),
      )

  -- A sweep to the quotas of a valid store removes expired entries only.
  pub sweep-quotas :
      (P : ArtifactStore → Type 0) (d : Disk) (now max_age : ℕ) (s : ArtifactStore)
      → IsValid s
      → P s
      → P (sweep_expired is_before d now max_age s.entries s).0
      → P (sweep is_before d now max_age s.max_artifacts s).0
  unfolding sweep
  sweep-quotas P d now max_age s valid h k =
      let expired = sweep_expired is_before d now max_age s.entries s in
      let few = sweep_expired-few d now max_age s valid in
      option_cases Kept (open_error d s)
        (λ _.
          if_cases Kept (s.has_root && not d.is_sweep_guarded) (λ _. h)
            (λ _.
              outcome_cases Kept expired.1 (λ x _. k)
                (λ u _.
                  subst Kept
                    (sym (
                      remove_oldest_idle (length expired.0.entries) d []
                        (has_many is_before s.max_artifacts) expired.0 few))
                    k)))
        (λ x _. h)
    where
      Kept : Call (Unit {0}) → Type 0
      Kept r = P r.0
