-- ===== src/Trace/Ring/Positions.antt =====
-- Positions in the circular buffer of src/trace/trace-writer.ts, and lines at positions of a queue.
use native.Mathlib.Nat.{mod-eq_of_lt, mod-eq-sub-mod}
use kiro_fabric.Prelude.{
  ℕ, zero, suc, ◌+◌, ◌-◌, ◌%◌, ◌≤◌, ◌<◌, false, ◌≡◌, refl, ◌∙◌, ltb, ◌==◌, if◌then◌else◌, List, [],
  ◌∷◌, ◌++◌, some, Text, length, get_elem?, drop, arith, Bool-cases, inl, inr,
}

wrap_low : (x c : ℕ) → x < c → x % c ≡ x
wrap_low x c h = mod-eq_of_lt h

wrap_high : (x c : ℕ) → c ≤ x → x < c + c → x % c ≡ x - c
wrap_high x c h k = mod-eq-sub-mod h ∙ mod-eq_of_lt (omega arith)

pub wrap_lem : (x c : ℕ) → x < c + c → x % c ≡ (if ltb x c then x else x - c)
wrap_lem x c k = elim (Bool-cases (ltb x c)) [
  | inl low ↦ rw low (wrap_low x c (ground (arith, low)))
  | inr high ↦ rw high (wrap_high x c (ground (arith, high)) k)
]

-- The positions of a ring: one step further is one index further, and different indices stand at
-- different positions.
module _ (c start : ℕ) (inside : start < c) where
  pub position_next : (i : ℕ) → i < c → ((start + 1) % c + i) % c ≡ (start + (i + 1)) % c
  position_next i h = ground (
    arith,
    wrap_lem (start + 1) c (omega arith),
    wrap_lem ((start + 1) % c + i) c (omega arith),
    wrap_lem (start + (i + 1)) c (omega arith),
  )

  pub position_first : (start + 0) % c ≡ start
  position_first = ground (arith, wrap_lem (start + 0) c (omega arith))

  pub position_apart : (i j : ℕ) → i < j → j < c → ((start + i) % c == (start + j) % c) ≡ false
  position_apart i j h k =
      ground (arith, wrap_lem (start + i) c (omega arith), wrap_lem (start + j) c (omega arith))

pub get_elem?-append_old :
    (q : List Text) (x : Text) (i : ℕ) → i < length q → get_elem? (q ++ x ∷ []) i ≡ get_elem? q i
get_elem?-append_old [] x i h = absurd (omega (arith, h))
get_elem?-append_old (y ∷ q) x zero h = refl
get_elem?-append_old (y ∷ q) x (suc i) h = get_elem?-append_old q x i (omega arith)

pub get_elem?-append_new :
    (q : List Text) (x : Text) (i : ℕ) → i ≡ length q → get_elem? (q ++ x ∷ []) i ≡ some x
get_elem?-append_new [] x zero h = refl
get_elem?-append_new [] x (suc i) h = absurd (omega (arith, h))
get_elem?-append_new (y ∷ q) x zero h = absurd (omega (arith, h))
get_elem?-append_new (y ∷ q) x (suc i) h = get_elem?-append_new q x i (omega arith)

pub drop_cons :
    (q : List Text) (i : ℕ) (x : Text) → get_elem? q i ≡ some x → drop i q ≡ x ∷ drop (suc i) q
drop_cons [] i x h = absurd (ground (arith, h))
drop_cons (y ∷ q) zero x h = ground (arith, h)
drop_cons (y ∷ q) (suc i) x h = drop_cons q i x h

pub elem_in : (q : List Text) (i : ℕ) → i < length q → (x : Text) × (get_elem? q i ≡ some x)
elem_in [] i h = absurd (omega (arith, h))
elem_in (y ∷ q) zero h = (y, refl)
elem_in (y ∷ q) (suc i) h = elem_in q i (omega arith)

pub drop-length : (q : List Text) (i : ℕ) → length q ≤ i → drop i q ≡ []
drop-length [] zero h = refl
drop-length [] (suc i) h = refl
drop-length (y ∷ q) zero h = absurd (omega (arith, h))
drop-length (y ∷ q) (suc i) h = drop-length q i (omega arith)
