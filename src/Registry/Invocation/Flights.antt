-- ===== src/Registry/Invocation/Flights.antt =====
-- The calls in flight of src/core/action-registry.ts, keyed by id: lookups and tallies after a call
-- goes on or ends.
use kiro_fabric.Prelude.{
  ℕ, ◌+◌, ◌==◌, ◌≡◌, inl, inr, List, [], ◌∷◌, none, some, arith, if◌then◌else◌, Bool-cases,
}
use kiro_fabric.Registry.Invocation.{Flight, find, update, remove}

-- No id occurs twice.
abbrev pub IsDistinct : List Flight → Type 0
IsDistinct [] = Unit {0}
IsDistinct (f ∷ fs) = (find f.id fs ≡ none) × IsDistinct fs

pub find-id : (id : ℕ) (fs : List Flight) (f : Flight) → find id fs ≡ some f → f.id ≡ id
unfolding find
find-id id [] f h = absurd (ground (arith, h))
find-id id (g ∷ fs) f h = elim (Bool-cases (g.id == id)) [
  | inl e ↦ ground (arith, h, e)
  | inr e ↦ find-id id fs f (ground (arith, h, e))
]

pub find-update :
    (g : Flight) (fs : List Flight) (f : Flight) (id : ℕ)
    → find g.id fs ≡ some f
    → find id (update g fs) ≡ (if g.id == id then some g else find id fs)
unfolding find update
find-update g [] f id h = absurd (ground (arith, h))
find-update g (x ∷ fs) f id h = ground (arith, find-update g fs f id)

pub update-IsDistinct :
    (g : Flight) (fs : List Flight) (f : Flight)
    → find g.id fs ≡ some f
    → IsDistinct fs
    → IsDistinct (update g fs)
unfolding find update
update-IsDistinct g [] f h d = tt
update-IsDistinct g (x ∷ fs) f h d = elim (Bool-cases (x.id == g.id)) [
  | inl e ↦ rw e (ground (arith, d.0, e), d.1)
  | inr e ↦
      let later : find g.id fs ≡ some f = ground (arith, h, e) in
      rw e
        (ground (arith, d.0, e, find-update g fs f x.id later), update-IsDistinct g fs f later d.1)
]

pub find-remove :
    (j : ℕ) (fs : List Flight) (id : ℕ)
    → IsDistinct fs
    → find id (remove j fs) ≡ (if j == id then none else find id fs)
unfolding find remove
find-remove j [] id d = ground arith
find-remove j (x ∷ fs) id d = ground (arith, find-remove j fs id d.1, d.0)

pub remove-IsDistinct : (j : ℕ) (fs : List Flight) → IsDistinct fs → IsDistinct (remove j fs)
unfolding remove
remove-IsDistinct j [] d = tt
remove-IsDistinct j (x ∷ fs) d =
    ground (arith, remove-IsDistinct j fs d.1, find-remove j fs x.id d.1, d.0)

-- The sum of a measure of the calls.
unfoldable pub tally : (Flight → ℕ) → List Flight → ℕ
tally measure [] = 0
tally measure (f ∷ fs) = measure f + tally measure fs

pub tally-update :
    (measure : Flight → ℕ) (g : Flight) (fs : List Flight) (f : Flight)
    → find g.id fs ≡ some f
    → tally measure (update g fs) + measure f ≡ tally measure fs + measure g
unfolding tally find update
tally-update measure g [] f h = absurd (ground (arith, h))
tally-update measure g (x ∷ fs) f h = elim (Bool-cases (x.id == g.id)) [
  | inl e ↦ let same : x ≡ f = ground (arith, h, e) in rw (e, ← same) (omega arith)
  | inr e ↦ rw e (omega (arith, tally-update measure g fs f (ground (arith, h, e))))
]

pub tally-remove :
    (measure : Flight → ℕ) (j : ℕ) (fs : List Flight) (f : Flight)
    → find j fs ≡ some f
    → tally measure (remove j fs) + measure f ≡ tally measure fs
unfolding tally find remove
tally-remove measure j [] f h = absurd (ground (arith, h))
tally-remove measure j (x ∷ fs) f h = elim (Bool-cases (x.id == j)) [
  | inl e ↦ let same : x ≡ f = ground (arith, h, e) in rw (e, ← same) (omega arith)
  | inr e ↦ rw e (omega (arith, tally-remove measure j fs f (ground (arith, h, e))))
]
