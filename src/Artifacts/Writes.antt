-- ===== src/Artifacts/Writes.antt =====
-- What a write of src/kiro/artifacts.ts keeps, and when it succeeds.
use kiro_fabric.Prelude.{
  same_text, ℕ, zero, suc, ◌+◌, ◌-◌, ◌≤◌, ◌<◌, Bool, true, false, ◌≡◌, refl, sym, ap, ◌∙◌, inl, inr,
  ◌||◌, ltb, leb, if◌then◌else◌, List, [], ◌∷◌, ◌++◌, none, some, length, Text, arith, Bool-cases,
  Option-cases, if_cases, option_cases, outcome_cases, ok, err,
}
use kiro_fabric.Artifacts.{
  StoredArtifact, ArtifactStore, Call, Disk, removed, Creation, created, fails, creation_failed,
  has, find, delete, id_of, sum_chars, open_error, remove, oldest, is_older, remove_oldest, sweep,
  retained, is_crowded, store_entry, write,
}
use kiro_fabric.Artifacts.Entries.{same_text→≡, same_text_self, delete_counts}
use kiro_fabric.Artifacts.Invariant.{IsValid, remove_cases, remove-IsValid, removal_cases}
use kiro_fabric.Artifacts.Room.{
  apart_of, remove_other, remove_oldest-spares, sweep_expired-spares, sweep-quotas,
}

find-append_some :
    (id : Text) (es : List StoredArtifact) (e x : StoredArtifact)
    → find id es ≡ some e
    → find id (es ++ x ∷ []) ≡ some e
unfolding find
find-append_some id [] e x h = absurd (ground (arith, h))
find-append_some id (y ∷ es) e x h = ground (arith, h, find-append_some id es e x)

pub find-append_new :
    (id : Text) (es : List StoredArtifact) (x : StoredArtifact)
    → find id es ≡ none
    → same_text id x.id ≡ true
    → find id (es ++ x ∷ []) ≡ some x
unfolding find
find-append_new id [] x h k = ground (arith, k)
find-append_new id (y ∷ es) x h k = ground (arith, h, find-append_new id es x)

module _ (is_before : Text → Text → Bool) where
  store_entry-keeps :
      (d : Disk) (now : ℕ) (id content key : Text) (e : StoredArtifact) (s : ArtifactStore)
      → find key s.entries ≡ some e
      → find key (store_entry is_before d now id content s).0.entries ≡ some e
  unfolding store_entry
  store_entry-keeps d now id content key e s h =
      if_cases (λ (r : Call Text). find key r.0.entries ≡ some e) s.has_root
        (λ _. by_disk d.creates) (λ _. find-append_some key s.entries e _ h)
    where
      Kept : Call Text → Type 0
      Kept r = find key r.0.entries ≡ some e

      by_disk :
          (c : Creation)
          → Kept (elim c [
            | created ↦ (
              record s {
                entries =
                    s.entries
                    ++ (record {
                      id = id;
                      content = content;
                      last_read_at = now;
                      has_file = s.has_root;
                    })
                      ∷ [];
                total_chars = s.total_chars + length content;
              },
              ok id,
            )
            | fails residue n ↦ (
              record s {
                failed_writes = if residue then s.failed_writes ++ id ∷ [] else s.failed_writes;
                uncertain_closes = s.uncertain_closes + n;
              },
              err creation_failed,
            )
          ])
      by_disk created = find-append_some key s.entries e _ h
      by_disk (fails residue n) = h

  -- On a valid store, whatever the file system does, a write leaves each protected entry that is
  -- not expired in the store, unchanged.
  pub write-keeps_protected :
      (d : Disk) (swept_at now : ℕ) (id content key : Text) (kept : List Text) (e : StoredArtifact)
      (s : ArtifactStore)
      → IsValid s
      → find key s.entries ≡ some e
      → has key kept ≡ true
      → swept_at - e.last_read_at ≤ s.ttl_ms
      → find key (write is_before d swept_at now id content kept s).0.entries ≡ some e
  unfolding write
  write-keeps_protected d swept_at now id content key kept e s valid h held young =
      let swept = sweep is_before d swept_at s.ttl_ms s.max_artifacts s in
      let v = swept.0 in
      let spared : find key v.entries ≡ some e =
        sweep-quotas is_before There d swept_at s.ttl_ms s valid h (
          sweep_expired-spares is_before d swept_at s.ttl_ms key e s.entries s valid.distinct
            (inr h) young h) in
      let room =
        remove_oldest is_before (length v.entries) d kept (is_crowded is_before (length content))
          v in
      let stays : find key room.0.entries ≡ some e =
        remove_oldest-spares is_before There d kept
          (λ o t free there.
            remove_other d o.id key (some e) t (apart_of o.id key kept free held) there)
          (length v.entries) (is_crowded is_before (length content)) v spared in
      option_cases Kept (open_error d s)
        (λ _.
          if_cases Kept (ltb 0 (length s.failed_writes) || ltb 0 s.uncertain_closes) (λ _. h)
            (λ _.
              if_cases Kept (ltb s.max_artifact_chars (length content)) (λ _. h)
                (λ _.
                  if_cases Kept (ltb s.max_total_chars (length content)) (λ _. h)
                    (λ _.
                      outcome_cases Kept swept.1 (λ x _. spared)
                        (λ u _.
                          if_cases Kept
                            (leb v.max_artifacts (length (retained is_before kept v.entries))
                              || ltb v.max_total_chars
                                  (length content + sum_chars (retained is_before kept v.entries)))
                            (λ _. spared)
                            (λ _.
                              outcome_cases Kept room.1 (λ x _. stays)
                                (λ u _. store_entry-keeps d now id content key e room.0 stays)))))))
        (λ x _. h)
    where
      There : ArtifactStore → Type 0
      There t = find key t.entries ≡ some e

      Kept : Call Text → Type 0
      Kept r = find key r.0.entries ≡ some e

-- A file system that does what it is asked.
pub record Obeys (d : Disk) : Type 0 where
  pub guarded : d.is_guarded ≡ true
  pub sweep_guarded : d.is_sweep_guarded ≡ true
  pub removes : (id : Text) → d.removes id ≡ removed
  pub creates : d.creates ≡ created

-- The removal in such a file system.
pub record Removed (id : Text) (s : ArtifactStore) (r : Call (Unit {0})) : Type 0 where
  pub returns : r.1 ≡ ok tt
  pub less : r.0.entries ≡ delete id_of id s.entries

delete_missing :
    (id : Text) (es : List StoredArtifact) → find id es ≡ none → delete id_of id es ≡ es
unfolding find delete
delete_missing id [] h = refl
delete_missing id (e ∷ es) h = ground (arith, h, delete_missing id es)

pub remove-Removed :
    (d : Disk) (id : Text) (s : ArtifactStore) → Obeys d → Removed id s (remove d id s)
unfolding remove
remove-Removed d id s o =
    option_cases (Removed id s) (find id s.entries)
      (λ gone. record { returns = refl; less = sym (delete_missing id s.entries gone) })
      (λ e at.
        if_cases (Removed id s) e.has_file
          (λ _.
            removal_cases (Removed id s) (d.removes id)
              (λ _. record { returns = refl; less = refl })
              (λ bad. absurd (ground (arith, bad, o.removes id)))
              (λ bad. absurd (ground (arith, bad, o.removes id))))
          (λ _. record { returns = refl; less = refl }))

module _ (is_before : Text → Text → Bool) where
  -- The protected entries are as many and as large as before.
  retained-delete :
      (kept : List Text) (id : Text) (es : List StoredArtifact)
      → has id kept ≡ false
      → retained is_before kept (delete id_of id es) ≡ retained is_before kept es
  unfolding retained delete
  retained-delete kept id [] h = refl
  retained-delete kept id (e ∷ es) h = elim (Bool-cases (same_text id e.id)) [
    | inl same ↦
        let free : has e.id kept ≡ false =
          ap (λ k. has k kept) (sym (same_text→≡ id e.id same)) ∙ h in
        ground (arith, same, free)
    | inr other ↦ ground (arith, other, retained-delete kept id es h)
  ]

  retained-delete_le :
      (kept : List Text) (id : Text) (es : List StoredArtifact)
      → (length (retained is_before kept (delete id_of id es))
          ≤ length (retained is_before kept es))
        × (sum_chars (retained is_before kept (delete id_of id es))
            ≤ sum_chars (retained is_before kept es))
  unfolding retained delete sum_chars
  retained-delete_le kept id [] = (omega arith, omega arith)
  retained-delete_le kept id (e ∷ es) =
      let ih = retained-delete_le kept id es in (ground (arith, ih.0), ground (arith, ih.1))

  -- Where no entry is unprotected, all are protected.
  all_retained :
      (kept : List Text) (es : List StoredArtifact)
      → oldest is_before kept es ≡ none
      → retained is_before kept es ≡ es
  unfolding oldest retained
  all_retained kept [] h = refl
  all_retained kept (e ∷ es) h = elim (Bool-cases (has e.id kept)) [
    | inl held ↦ ground (arith, held, all_retained kept es (ground (arith, held, h)))
    | inr free ↦ elim (Option-cases (oldest is_before kept es)) [
      | inl only ↦ absurd (ground (arith, h, free, only))
      | inr (x, rest) ↦ absurd (ground (arith, h, free, rest))
    ]
  ]

  pub record Fits (kept : List Text) (chars : ℕ) (s : ArtifactStore) : Type 0 where
    pub valid : IsValid s
    pub few : length (retained is_before kept s.entries) < s.max_artifacts
    pub small : chars + sum_chars (retained is_before kept s.entries) ≤ s.max_total_chars

  pub remove-Fits :
      (kept : List Text) (chars : ℕ) (d : Disk) (id : Text) (s : ArtifactStore)
      → Fits kept chars s
      → Fits kept chars (remove d id s).0
  remove-Fits kept chars d id s h = record {
    valid = remove-IsValid d id s h.valid;
    few =
        remove_cases (λ v. length (retained is_before kept v.entries) < v.max_artifacts) d id s
          h.few h.few (λ e at. omega (arith, h.few, (retained-delete_le kept id s.entries).0));
    small =
        remove_cases
          (λ v. chars + sum_chars (retained is_before kept v.entries) ≤ v.max_total_chars) d id s
          h.small h.small
          (λ e at. omega (arith, h.small, (retained-delete_le kept id s.entries).1));
  }

  -- A store of protected entries only is not crowded.
  roomy :
      (kept : List Text) (chars : ℕ) (s : ArtifactStore)
      → Fits kept chars s
      → oldest is_before kept s.entries ≡ none
      → is_crowded is_before chars s ≡ false
  roomy kept chars s h none_left =
      let all = all_retained kept s.entries none_left in
      ground (arith, h.few, h.small, h.valid.counted, ap length all, ap sum_chars all)

  oldest_there :
      (kept : List Text) (es : List StoredArtifact) (o : StoredArtifact)
      → oldest is_before kept es ≡ some o
      → (e : StoredArtifact) × (find o.id es ≡ some e)
  unfolding oldest find
  oldest_there kept [] o h = absurd (ground (arith, h))
  oldest_there kept (x ∷ es) o h = elim (Bool-cases (same_text o.id x.id)) [
    | inl same ↦ (x, rw same refl)
    | inr other ↦ elim (Option-cases (oldest is_before kept es)) [
      | inl only ↦
          let at : x ≡ o = ground (arith, h, only) in
          absurd (
            ground (
              arith,
              other,
              same_text_self x.id,
              ap (λ (y : StoredArtifact). same_text y.id x.id) at,
            ))
      | inr (y, rest) ↦ elim (Bool-cases (has x.id kept || is_older is_before y x)) [
        | inl goes ↦
            let at : y ≡ o = ground (arith, h, rest, goes) in
            let below = oldest_there kept es o (rest ∙ ap some at) in (below.0, rw other below.1)
        | inr stops ↦
            let at : x ≡ o = ground (arith, h, rest, stops) in
            absurd (
              ground (
                arith,
                other,
                same_text_self x.id,
                ap (λ (y : StoredArtifact). same_text y.id x.id) at,
              ))
      ]
    ]
  ]

  pub loop_returns :
      (rounds : ℕ) (d : Disk) (kept : List Text) (chars : ℕ) (s : ArtifactStore)
      → Obeys d
      → Fits kept chars s
      → length s.entries ≤ rounds
      → (remove_oldest is_before rounds d kept (is_crowded is_before chars) s).1 ≡ ok tt
  unfolding remove_oldest oldest
  loop_returns zero d kept chars s o h le =
      let free = roomy kept chars s h (empty_oldest s.entries le) in rw free refl
    where
      empty_oldest : (es : List StoredArtifact) → length es ≤ 0 → oldest is_before kept es ≡ none
      empty_oldest [] le = refl
      empty_oldest (e ∷ es) le = absurd (omega (arith, le))
  loop_returns (suc rounds) d kept chars s o h le =
      if_cases Returns (is_crowded is_before chars s)
        (λ crowded.
          option_cases Returns (oldest is_before kept s.entries)
            (λ gone. absurd (ground (arith, crowded, roomy kept chars s h gone)))
            (λ x at.
              let r = remove-Removed d x.id s o in
              let fewer : length (remove d x.id s).0.entries ≤ rounds =
                omega (arith, ap length r.less, less x at, le) in
              outcome_cases Returns (remove d x.id s).1
                (λ y bad. absurd (ground (arith, bad, r.returns)))
                (λ u _.
                  loop_returns rounds d kept chars (remove d x.id s).0 o
                    (remove-Fits kept chars d x.id s h) fewer)))
        (λ _. refl)
    where
      Returns : Call (Unit {0}) → Type 0
      Returns r = r.1 ≡ ok tt

      less :
          (x : StoredArtifact)
          → oldest is_before kept s.entries ≡ some x
          → length s.entries ≡ suc (length (delete id_of x.id s.entries))
      less x at =
          let there = oldest_there kept s.entries x at in
          (delete_counts x.id s.entries there.0 there.1).0
