-- ===== src/Catalog/Store/Eviction.antt =====
-- The eviction loop of `reserve` in src/core/catalog-snapshot-store.ts.
use kiro_fabric.Prelude.{
  ℕ, zero, suc, ◌≤◌, ◌<◌, ◌&&◌, not, ltb, All, ap, Bool, true, false, ◌≡◌, refl, List, [], ◌∷◌,
  none, some, length, arith, ◌==◌, Bool-cases, Option-cases, inl, inr,
}
use kiro_fabric.Catalog.Store.{Snapshot, Policy, lookup, delete, is_published, oldest, fits, evict}

-- No id occurs twice.
abbrev pub Distinct : List Snapshot → Type 0
Distinct [] = Unit {0}
Distinct (s ∷ ss) = (lookup s.id ss ≡ none) × Distinct ss

pub lookup-delete_self :
    (id : ℕ) (ss : List Snapshot) → Distinct ss → lookup id (delete id ss) ≡ none
unfolding lookup delete
lookup-delete_self id [] d = refl
lookup-delete_self id (s ∷ ss) d = ground (arith, lookup-delete_self id ss d.1, d.0)

pub lookup-delete :
    (i j : ℕ) (ss : List Snapshot) → (i == j) ≡ false → lookup j (delete i ss) ≡ lookup j ss
unfolding lookup delete
lookup-delete i j [] h = refl
lookup-delete i j (s ∷ ss) h = ground (arith, lookup-delete i j ss h, h)

pub lookup-delete_absent :
    (i j : ℕ) (ss : List Snapshot) → lookup j ss ≡ none → lookup j (delete i ss) ≡ none
unfolding lookup delete
lookup-delete_absent i j [] h = refl
lookup-delete_absent i j (s ∷ ss) h = ground (arith, lookup-delete_absent i j ss, h)

pub delete-Distinct : (i : ℕ) (ss : List Snapshot) → Distinct ss → Distinct (delete i ss)
unfolding delete
delete-Distinct i [] d = tt
delete-Distinct i (s ∷ ss) d =
    ground (arith, d.0, d.1, delete-Distinct i ss d.1, lookup-delete_absent i s.id ss d.0)

pub length-delete :
    (i : ℕ) (ss : List Snapshot) (s : Snapshot)
    → lookup i ss ≡ some s
    → length ss ≡ suc (length (delete i ss))
unfolding lookup delete
length-delete i [] s h = ground (arith, h)
length-delete i (t ∷ ss) s h = ground (arith, length-delete i ss s, h)

pub length-delete-le : (i : ℕ) (ss : List Snapshot) → length (delete i ss) ≤ length ss
unfolding delete
length-delete-le i [] = omega arith
length-delete-le i (t ∷ ss) = ground (arith, length-delete-le i ss)

-- What `oldest` finds is published and held.
oldest-published : (ss : List Snapshot) (s : Snapshot) → oldest ss ≡ some s → is_published s ≡ true
unfolding oldest
oldest-published [] s h = ground (arith, h)
oldest-published (t ∷ ss) s h = elim (Option-cases (oldest ss)) [
  | inl n ↦ ground (arith, h, n)
  | inr (u, e) ↦ ground (arith, h, e, oldest-published ss u e)
]

oldest-held :
    (ss : List Snapshot) (s : Snapshot) → Distinct ss → oldest ss ≡ some s → lookup s.id ss ≡ some s
unfolding oldest lookup
oldest-held [] s d h = ground (arith, h)
oldest-held (t ∷ ss) s d h = elim (Option-cases (oldest ss)) [
  | inl n ↦ ground (arith, h, n)
  | inr (u, e) ↦ ground (arith, h, e, oldest-held ss u d.1 e, d.0)
]

-- No published snapshot of the list was touched before this time.
abbrev pub NoneBefore : ℕ → List Snapshot → Type 0
NoneBefore time = All (λ t. is_published t ≡ true → time ≤ t.touched)

NoneBefore-le : (a b : ℕ) (ss : List Snapshot) → a ≤ b → NoneBefore b ss → NoneBefore a ss
NoneBefore-le a b [] h k = tt
NoneBefore-le a b (t ∷ ss) h k = (λ e. omega (arith, h, k.0 e), NoneBefore-le a b ss h k.1)

-- No snapshot of the list is published.
abbrev pub NonePublished : List Snapshot → Type 0
NonePublished = All (λ t. is_published t ≡ false)

oldest-none : (ss : List Snapshot) → oldest ss ≡ none → NonePublished ss
unfolding oldest
oldest-none [] h = tt
oldest-none (t ∷ ss) h = elim (Option-cases (oldest ss)) [
  | inl n ↦ (ground (arith, h, n), oldest-none ss n)
  | inr (u, e) ↦ absurd (ground (arith, h, e))
]

NonePublished-NoneBefore : (a : ℕ) (ss : List Snapshot) → NonePublished ss → NoneBefore a ss
NonePublished-NoneBefore a [] h = tt
NonePublished-NoneBefore a (t ∷ ss) h =
    (λ e. absurd (ground (arith, e, h.0)), NonePublished-NoneBefore a ss h.1)

oldest-NoneBefore :
    (ss : List Snapshot) (s : Snapshot) → oldest ss ≡ some s → NoneBefore s.touched ss
unfolding oldest
oldest-NoneBefore [] s h = tt
oldest-NoneBefore (t ∷ ss) s h = elim (Option-cases (oldest ss)) [
  | inl n ↦
      let none_left = oldest-none ss n in
      let same : t ≡ s = ground (arith, h, n) in
      (
        λ _. omega (arith, ap (λ (x : Snapshot). x.touched) same),
        NonePublished-NoneBefore s.touched ss none_left,
      )
  | inr (u, e) ↦ elim (Bool-cases (is_published t && not (ltb u.touched t.touched))) [
    | inl first ↦
        let same : t ≡ s = ground (arith, h, e, first) in
        let times = ap (λ (x : Snapshot). x.touched) same in
        (
          λ _. omega (arith, times),
          NoneBefore-le s.touched u.touched ss (ground (arith, times, first))
              (oldest-NoneBefore ss u e),
        )
    | inr later ↦
        let same : u ≡ s = ground (arith, h, e, later) in
        let times = ap (λ (x : Snapshot). x.touched) same in
        (
          λ shown. ground (arith, times, later, shown),
          NoneBefore-le s.touched u.touched ss (omega (arith, times)) (oldest-NoneBefore ss u e),
        )
  ]
]

module _ (p : Policy) where
  -- The rounds of the loop: while a reservation does not fit, a published snapshot goes, such that
  -- no published one was touched before it.
  pub data Evicts : List Snapshot → List Snapshot → Type 0 where
    settled : {ss : List Snapshot} → Evicts ss ss
    evicting :
        {ss kept : List Snapshot} (s : Snapshot)
        → fits p ss ≡ false
        → lookup s.id ss ≡ some s
        → is_published s ≡ true
        → NoneBefore s.touched ss
        → Evicts (delete s.id ss) kept
        → Evicts ss kept

  -- What the loop leaves: room for a reservation, or nothing that it may evict.
  pub record Evicted (ss : List Snapshot) (has_room : Bool) (kept : List Snapshot) : Type 0 where
    pub rounds : Evicts ss kept
    pub room : fits p kept ≡ has_room
    pub stuck : has_room ≡ false → NonePublished kept

  pub evict-Evicted :
      (rounds : ℕ) (ss : List Snapshot)
      → Distinct ss
      → length ss < rounds
      → (has_room : Bool) × (kept : List Snapshot) × (evict p rounds ss ≡ some (has_room, kept))
        × Evicted ss has_room kept
  unfolding evict
  evict-Evicted zero ss d h = absurd (omega arith)
  evict-Evicted (suc rounds) ss d h = elim (Option-cases (oldest ss)) [
    | inl n ↦ (
      fits p ss,
      ss,
      ground (arith, n),
      record { rounds = settled; room = refl; stuck = λ _. oldest-none ss n },
    )
    | inr (s, e) ↦ elim (Bool-cases (fits p ss)) [
      | inl free ↦ (
        true,
        ss,
        ground (arith, e, free),
        record {
          rounds = settled;
          room = free;
          stuck = λ no_room. absurd (ground (arith, no_room));
        },
      )
      | inr full ↦
          let held = oldest-held ss s d e in
          let (has_room, kept, run, rest) =
            evict-Evicted rounds (delete s.id ss) (delete-Distinct s.id ss d)
              (omega (arith, length-delete s.id ss s held)) in
          (
            has_room,
            kept,
            ground (arith, e, full, run),
            record {
              rounds =
                  evicting s full held (oldest-published ss s e) (oldest-NoneBefore ss s e)
                    rest.rounds;
              room = rest.room;
              stuck = rest.stuck;
            },
          )
    ]
  ]

  -- A reservation in progress is not evicted.
  pub Evicts-pending :
      {ss kept : List Snapshot} (r : Snapshot)
      → Distinct ss
      → is_published r ≡ false
      → lookup r.id ss ≡ some r
      → Evicts ss kept
      → lookup r.id kept ≡ some r
  Evicts-pending r d h held settled = held
  Evicts-pending {ss} r d h held (evicting s full found shown first rest) =
      Evicts-pending r (delete-Distinct s.id ss d) h
        (ground (arith, other, held, lookup-delete s.id r.id ss)) rest
    where
      other : (s.id == r.id) ≡ false
      other = elim (Bool-cases (s.id == r.id)) [
        | inr no_match ↦ no_match
        | inl match ↦ absurd (ground (arith, match, held, h, found, shown))
      ]
