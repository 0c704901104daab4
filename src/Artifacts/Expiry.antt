-- ===== src/Artifacts/Expiry.antt =====
-- A sweep of src/kiro/artifacts.ts that returns has removed the expired entries, and changed no other.
use kiro_fabric.Prelude.{
  same_text, ℕ, ◌-◌, ◌≤◌, ◌<◌, Bool, true, false, ◌≡◌, refl, sym, ap, subst, ◌∙◌, ◌⊎◌, inl, inr,
  ◌&&◌, not, ltb, List, [], ◌∷◌, Option, none, some, length, Text, arith, Bool-cases, if_cases,
  option_cases, outcome_cases, ok,
}
use kiro_fabric.Artifacts.{
  StoredArtifact, ArtifactStore, Call, Disk, find, delete, id_of, open_error, remove, sweep,
  sweep_expired, has_many,
}
use kiro_fabric.Artifacts.Entries.{IsDistinct, same_text→≡, same_text_comm, find-delete-none}
use kiro_fabric.Artifacts.Invariant.{IsValid, remove_cases, remove-IsValid, removal_cases}
use kiro_fabric.Artifacts.Sweeps.{sweep_expired-keeps, remove_oldest-keeps, sweep-keeps}

-- Looking up a key whose text is the same.
pub find_same :
    (a b : Text) (es : List StoredArtifact) → same_text a b ≡ true → find a es ≡ find b es
find_same a b es h = ap (λ k. find k es) (same_text→≡ a b h)

pub find_id :
    (id : Text) (es : List StoredArtifact) (e : StoredArtifact)
    → find id es ≡ some e
    → same_text id e.id ≡ true
unfolding find
find_id id [] e h = absurd (ground (arith, h))
find_id id (x ∷ es) e h = elim (Bool-cases (same_text id x.id)) [
  | inl hit ↦
      let at : x ≡ e = ground (arith, h, hit) in subst (λ y. same_text id y.id ≡ true) at hit
  | inr miss ↦ find_id id es e (ground (arith, h, miss))
]

pub find-delete_other :
    (id other : Text) (es : List StoredArtifact)
    → same_text other id ≡ false
    → find id (delete id_of other es) ≡ find id es
unfolding find delete
find-delete_other id other [] h = refl
find-delete_other id other (e ∷ es) h = elim (Bool-cases (same_text other e.id)) [
  | inl hit ↦
      let same : other ≡ e.id = same_text→≡ other e.id hit in
      let miss : same_text id e.id ≡ false =
        same_text_comm id e.id ∙ subst (λ k. same_text k id ≡ false) same h in
      ground (arith, hit, miss)
  | inr miss ↦ ground (arith, miss, find-delete_other id other es h)
]

pub find-delete_self :
    (id : Text) (es : List StoredArtifact) → IsDistinct es → find id (delete id_of id es) ≡ none
unfolding find delete
find-delete_self id [] h = refl
find-delete_self id (e ∷ es) h = elim (Bool-cases (same_text id e.id)) [
  | inl hit ↦ rw hit (find_same id e.id es hit ∙ h.0)
  | inr miss ↦ ground (arith, miss, find-delete_self id es h.1)
]

-- What is found is what was there, or it is gone.
abbrev pub Stays : Text → Option StoredArtifact → ArtifactStore → Type 0
Stays id was s = IsValid s × ((find id s.entries ≡ none) ⊎ (find id s.entries ≡ was))

remove-Stays :
    (id : Text) (was : Option StoredArtifact) (d : Disk) (key : Text) (s : ArtifactStore)
    → Stays id was s
    → Stays id was (remove d key s).0
remove-Stays id was d key s h = (
  remove-IsValid d key s h.0,
  remove_cases (λ v. (find id v.entries ≡ none) ⊎ (find id v.entries ≡ was)) d key s h.1 h.1
      (λ e at. elim (Bool-cases (same_text key id)) [
        | inl same ↦ inl (
            find_same id key _ (same_text_comm id key ∙ same)
            ∙ find-delete_self key s.entries h.0.distinct)
        | inr other ↦ elim h.1 [
          | inl gone ↦ inl (find-delete_other id key s.entries other ∙ gone)
          | inr there ↦ inr (find-delete_other id key s.entries other ∙ there)
        ]
      ]),
)

-- A removal that returns has removed the key.
pub remove-done :
    (d : Disk) (key : Text) (s : ArtifactStore)
    → IsValid s
    → (remove d key s).1 ≡ ok tt
    → find key (remove d key s).0.entries ≡ none
unfolding remove
remove-done d key s h =
    option_cases Gone (find key s.entries) (λ missing _. missing)
      (λ e at.
        if_cases Gone e.has_file
          (λ _.
            removal_cases Gone (d.removes key) (λ _ _. find-delete_self key s.entries h.distinct)
              (λ _ fails. absurd (ground (arith, fails)))
              (λ _ fails. absurd (ground (arith, fails))))
          (λ _ _. find-delete_self key s.entries h.distinct))
  where
    Gone : Call (Unit {0}) → Type 0
    Gone r = r.1 ≡ ok tt → find key r.0.entries ≡ none

remove-none :
    (id : Text) (d : Disk) (key : Text) (s : ArtifactStore)
    → find id s.entries ≡ none
    → find id (remove d key s).0.entries ≡ none
remove-none id d key s h =
    remove_cases (λ v. find id v.entries ≡ none) d key s h h
      (λ e at. find-delete-none id key s.entries h)

module _ (is_before : Text → Text → Bool) where
  sweep_expired-none :
      (id : Text) (d : Disk) (now max_age : ℕ) (es : List StoredArtifact) (s : ArtifactStore)
      → find id s.entries ≡ none
      → find id (sweep_expired is_before d now max_age es s).0.entries ≡ none
  sweep_expired-none id d now max_age es s h =
      sweep_expired-keeps (λ v. find id v.entries ≡ none) (remove-none id) is_before d now max_age
        es s h

  -- The loop over the entries removes an expired one of them.
  sweep_expired-removes :
      (d : Disk) (now max_age : ℕ) (id : Text) (e : StoredArtifact) (es : List StoredArtifact)
      (s : ArtifactStore)
      → IsValid s
      → find id es ≡ some e
      → max_age < now - e.last_read_at
      → (sweep_expired is_before d now max_age es s).1 ≡ ok tt
      → find id (sweep_expired is_before d now max_age es s).0.entries ≡ none
  unfolding sweep_expired find
  sweep_expired-removes d now max_age id e [] s h at old = absurd (ground (arith, at))
  sweep_expired-removes d now max_age id e (x ∷ es) s h at old =
      if_cases Gone (ltb max_age (now - x.last_read_at))
        (λ _.
          outcome_cases Gone (remove d x.id s).1 (λ y _ fails. absurd (ground (arith, fails)))
            (λ u done rest. elim (Bool-cases (same_text id x.id)) [
              | inl hit ↦
                  sweep_expired-none id d now max_age es (remove d x.id s).0
                    (find_same id x.id _ hit ∙ remove-done d x.id s h (ground (arith, done)))
              | inr miss ↦
                  sweep_expired-removes d now max_age id e es (remove d x.id s).0
                    (remove-IsValid d x.id s h) (ground (arith, at, miss)) old rest
            ]))
        (λ young rest. elim (Bool-cases (same_text id x.id)) [
          | inl hit ↦
              let same : x ≡ e = ground (arith, at, hit) in
              absurd (ground (arith, young, old, ap (λ (y : StoredArtifact). y.last_read_at) same))
          | inr miss ↦
              sweep_expired-removes d now max_age id e es s h (ground (arith, at, miss)) old rest
        ])
    where
      Gone : Call (Unit {0}) → Type 0
      Gone r = r.1 ≡ ok tt → find id r.0.entries ≡ none

  sweep_gone :
      (d : Disk) (now max_age max_entries : ℕ) (id : Text) (e : StoredArtifact) (s : ArtifactStore)
      → IsValid s
      → find id s.entries ≡ some e
      → max_age < now - e.last_read_at
      → (sweep is_before d now max_age max_entries s).1 ≡ ok tt
      → find id (sweep is_before d now max_age max_entries s).0.entries ≡ none
  unfolding sweep
  sweep_gone d now max_age max_entries id e s h was old =
      let expired = sweep_expired is_before d now max_age s.entries s in
      option_cases Gone (open_error d s)
        (λ _.
          if_cases Gone (s.has_root && not d.is_sweep_guarded)
            (λ _ fails. absurd (ground (arith, fails)))
            (λ _.
              outcome_cases Gone expired.1 (λ x _ fails. absurd (ground (arith, fails)))
                (λ u done _.
                  remove_oldest-keeps (λ v. find id v.entries ≡ none) (remove-none id) is_before
                    (length expired.0.entries) d [] (has_many is_before max_entries) expired.0
                    (sweep_expired-removes d now max_age id e s.entries s h was old
                      (ground (arith, done))))))
        (λ x _ fails. absurd (ground (arith, fails)))
    where
      Gone : Call (Unit {0}) → Type 0
      Gone r = r.1 ≡ ok tt → find id r.0.entries ≡ none

  -- What is found behind a sweep was there before and is not expired.
  pub sweep-unexpired :
      (d : Disk) (now max_age max_entries : ℕ) (id : Text) (e : StoredArtifact) (s : ArtifactStore)
      → IsValid s
      → (sweep is_before d now max_age max_entries s).1 ≡ ok tt
      → find id (sweep is_before d now max_age max_entries s).0.entries ≡ some e
      → (find id s.entries ≡ some e) × (now - e.last_read_at ≤ max_age)
  sweep-unexpired d now max_age max_entries id e s h done found =
      let stays =
        sweep-keeps (Stays id (find id s.entries)) (remove-Stays id (find id s.entries)) is_before d
          now max_age max_entries s (h, inr refl) in
      let was : find id s.entries ≡ some e = elim stays.1 [
        | inl gone ↦ absurd (ground (arith, gone, found))
        | inr there ↦ sym there ∙ found
      ] in
      (
        was,
        elim (Bool-cases (ltb max_age (now - e.last_read_at))) [
          | inl old ↦ absurd (ground (arith, found, gone was (ground (arith, old)) done))
          | inr young ↦ ground (arith, young)
        ],
      )
    where
      Gone : Call (Unit {0}) → Type 0
      Gone r = r.1 ≡ ok tt → find id r.0.entries ≡ none

      gone :
          find id s.entries ≡ some e
          → max_age < now - e.last_read_at
          → Gone (sweep is_before d now max_age max_entries s)
      gone was old = sweep_gone d now max_age max_entries id e s h was old
