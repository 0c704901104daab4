-- ===== src/Registry/Invocation/Writes.antt =====
-- The active writes of src/core/action-registry.ts: a table in which no two entries conflict.
use kiro_fabric.Prelude.{
  ℕ, ◌+◌, false, ◌==◌, ◌≡◌, ◌≢◌, refl, ◌∙◌, inl, inr, List, [], ◌∷◌, Option, none, some, arith,
  if◌then◌else◌, Bool-cases, length,
}
use kiro_fabric.Registry.Resources.{Resource, overlaps, overlaps_symm}
use kiro_fabric.Registry.Invocation.{ActiveWrite, is_conflicting, delete_write}

unfoldable pub find_write : ℕ → List ActiveWrite → Option ActiveWrite
find_write call_id [] = none
find_write call_id (a ∷ rest) = if a.call_id == call_id then some a else find_write call_id rest

-- No call id occurs twice, and no two entries conflict.
abbrev pub IsExclusive : List ActiveWrite → Type 0
IsExclusive [] = Unit {0}
IsExclusive (a ∷ rest) =
    (find_write a.call_id rest ≡ none)
    × (is_conflicting a.resources rest ≡ false)
    × IsExclusive rest

is_conflicting-delete :
    (rs : List Resource) (id : ℕ) (ws : List ActiveWrite)
    → is_conflicting rs ws ≡ false
    → is_conflicting rs (delete_write id ws) ≡ false
unfolding is_conflicting delete_write
is_conflicting-delete rs id [] h = h
is_conflicting-delete rs id (a ∷ ws) h = ground (arith, is_conflicting-delete rs id ws)

pub find_write-delete :
    (id : ℕ) (ws : List ActiveWrite) (j : ℕ)
    → IsExclusive ws
    → find_write j (delete_write id ws) ≡ (if id == j then none else find_write j ws)
unfolding find_write delete_write
find_write-delete id [] j d = ground arith
find_write-delete id (a ∷ ws) j d = ground (arith, find_write-delete id ws j d.2, d.0)

pub delete_write-IsExclusive :
    (id : ℕ) (ws : List ActiveWrite) → IsExclusive ws → IsExclusive (delete_write id ws)
unfolding delete_write
delete_write-IsExclusive id [] d = tt
delete_write-IsExclusive id (a ∷ ws) d = elim (Bool-cases (a.call_id == id)) [
  | inl e ↦ rw e d.2
  | inr e ↦ rw e (
    ground (arith, find_write-delete id ws a.call_id d.2, d.0, e),
    is_conflicting-delete a.resources id ws d.1,
    delete_write-IsExclusive id ws d.2,
  )
]

is_conflicting-find :
    (rs : List Resource) (ws : List ActiveWrite) (id : ℕ) (a : ActiveWrite)
    → is_conflicting rs ws ≡ false
    → find_write id ws ≡ some a
    → overlaps rs a.resources ≡ false
unfolding is_conflicting find_write
is_conflicting-find rs [] id a h f = absurd (ground (arith, f))
is_conflicting-find rs (b ∷ ws) id a h f = elim (Bool-cases (b.call_id == id)) [
  | inl e ↦ ground (arith, h, f, e)
  | inr e ↦ is_conflicting-find rs ws id a (ground (arith, h)) (ground (arith, f, e))
]

-- Two entries of such a table do not conflict.
pub IsExclusive-overlaps :
    (ws : List ActiveWrite) (i j : ℕ) (a b : ActiveWrite)
    → IsExclusive ws
    → find_write i ws ≡ some a
    → find_write j ws ≡ some b
    → i ≢ j
    → overlaps a.resources b.resources ≡ false
unfolding find_write
IsExclusive-overlaps [] i j a b d f g n = absurd (ground (arith, f))
IsExclusive-overlaps (x ∷ ws) i j a b d f g n = elim (Bool-cases (x.call_id == i)) [
  | inl e ↦
      let e' : x ≡ a = ground (arith, f, e) in
      rw (← e') (is_conflicting-find x.resources ws j b d.1 (ground (arith, g, e, n)))
  | inr e ↦ elim (Bool-cases (x.call_id == j)) [
    | inl k ↦
        let e' : x ≡ b = ground (arith, g, k) in
        rw (← e') (
          overlaps_symm a.resources x.resources
          ∙ is_conflicting-find x.resources ws i a d.1 (ground (arith, f, e)))
    | inr k ↦ IsExclusive-overlaps ws i j a b d.2 (ground (arith, f, e)) (ground (arith, g, k)) n
  ]
]

pub length-delete :
    (id : ℕ) (ws : List ActiveWrite) (a : ActiveWrite)
    → find_write id ws ≡ some a
    → length (delete_write id ws) + 1 ≡ length ws
unfolding find_write delete_write
length-delete id [] a h = absurd (ground (arith, h))
length-delete id (x ∷ ws) a h = ground (arith, length-delete id ws a)

pub delete_write_absent :
    (id : ℕ) (ws : List ActiveWrite) → find_write id ws ≡ none → delete_write id ws ≡ ws
unfolding find_write delete_write
delete_write_absent id [] h = refl
delete_write_absent id (x ∷ ws) h = ground (arith, delete_write_absent id ws)
