-- ===== src/Registry/Resources.antt =====
-- `overlaps` of src/core/action-registry.ts: when two sets of written resources conflict.
use kiro_fabric.Prelude.{
  ℕ, Bool, true, false, ◌||◌, ◌==◌, ◌≡◌, refl, ◌⊎◌, inl, inr, List, [], ◌∷◌, arith, Bool-cases,
}

pub data Resource : Type 0 where
  wildcard : Resource
  named : ℕ → Resource

unfoldable pub is_same : Resource → Resource → Bool
is_same wildcard wildcard = true
is_same (named a) (named b) = a == b
is_same _ _ = false

unfoldable pub includes : List Resource → Resource → Bool
unfolding is_same
includes [] r = false
includes (x ∷ xs) r = is_same x r || includes xs r

-- `left.some((entry) => right.includes(entry))`.
unfoldable pub shares : List Resource → List Resource → Bool
unfolding includes
shares [] right = false
shares (x ∷ left) right = includes right x || shares left right

unfoldable pub overlaps : List Resource → List Resource → Bool
unfolding shares
overlaps left right = includes left wildcard || includes right wildcard || shares left right

-- A resource that both lists name, or a wildcard in either: what `overlaps` is to find.
abbrev pub Conflict : List Resource → List Resource → Type 0
Conflict left right =
    (includes left wildcard ≡ true)
    ⊎ (includes right wildcard ≡ true)
    ⊎ ((r : Resource) × (includes left r ≡ true) × (includes right r ≡ true))

is_same_refl : (r : Resource) → is_same r r ≡ true
unfolding is_same
is_same_refl wildcard = refl
is_same_refl (named a) = ground arith

is_same_eq : (a b : Resource) → is_same a b ≡ true → a ≡ b
unfolding is_same
is_same_eq wildcard wildcard h = refl
is_same_eq (named a) (named b) h = ground arith
is_same_eq wildcard (named b) h = ground arith
is_same_eq (named a) wildcard h = ground arith

shares_sound :
    (left right : List Resource)
    → shares left right ≡ true
    → (r : Resource) × (includes left r ≡ true) × (includes right r ≡ true)
unfolding shares includes
shares_sound [] right h = absurd (ground (arith, h))
shares_sound (x ∷ left) right h = elim (Bool-cases (includes right x)) [
  | inl here ↦ (x, ground (arith, is_same_refl x), here)
  | inr gone ↦
      let (r, in_left, in_right) = shares_sound left right (ground (arith, h, gone)) in
      (r, ground (arith, in_left), in_right)
]

shares_complete :
    (left right : List Resource) (r : Resource)
    → includes left r ≡ true
    → includes right r ≡ true
    → shares left right ≡ true
unfolding shares includes
shares_complete [] right r h k = absurd (ground (arith, h))
shares_complete (x ∷ left) right r h k = elim (Bool-cases (is_same x r)) [
  | inl e ↦ ground (arith, k, is_same_eq x r e)
  | inr other ↦ ground (arith, shares_complete left right r (ground (arith, h, other)) k)
]

pub overlaps→Conflict :
    (left right : List Resource) → overlaps left right ≡ true → Conflict left right
unfolding overlaps
overlaps→Conflict left right h = elim (Bool-cases (includes left wildcard)) [
  | inl a ↦ inl a
  | inr a ↦ elim (Bool-cases (includes right wildcard)) [
    | inl b ↦ inr (inl b)
    | inr b ↦ inr (inr (shares_sound left right (ground (arith, h, a, b))))
  ]
]

pub Conflict→overlaps :
    (left right : List Resource) → Conflict left right → overlaps left right ≡ true
unfolding overlaps
Conflict→overlaps left right (inl a) = ground (arith, a)
Conflict→overlaps left right (inr (inl b)) = ground (arith, b)
Conflict→overlaps left right (inr (inr (r, a, b))) =
    ground (arith, shares_complete left right r a b)

Conflict-symm : (left right : List Resource) → Conflict left right → Conflict right left
Conflict-symm left right (inl a) = inr (inl a)
Conflict-symm left right (inr (inl b)) = inl b
Conflict-symm left right (inr (inr (r, a, b))) = inr (inr (r, b, a))

-- The test does not depend on which write came first.
pub overlaps_symm : (left right : List Resource) → overlaps left right ≡ overlaps right left
overlaps_symm left right = elim (Bool-cases (overlaps left right)) [
  | inl h ↦ ground (
    arith,
    h,
    Conflict→overlaps right left (Conflict-symm left right (overlaps→Conflict left right h)),
  )
  | inr h ↦ elim (Bool-cases (overlaps right left)) [
    | inl k ↦ absurd (
        ground (
          arith,
          h,
          Conflict→overlaps left right (Conflict-symm right left (overlaps→Conflict right left k)),
        ))
    | inr k ↦ ground (arith, h, k)
  ]
]
