-- ===== src/Artifacts/Entries.antt =====
-- The map of entries of src/kiro/artifacts.ts: what deletion, touching and adding keep.
use kiro_fabric.Prelude.{
  same_text, ℕ, suc, ◌+◌, true, false, ◌≡◌, refl, List, [], ◌∷◌, ◌++◌, none, some, length, Text,
  arith, All, Bool-cases, inl, inr, if_cases,
}
use kiro_fabric.Artifacts.{StoredArtifact, find, delete, id_of, touch, sum_chars}

pub same_text_self : (a : Text) → same_text a a ≡ true
unfolding same_text
same_text_self [] = refl
same_text_self (x ∷ a) = ground (arith, same_text_self a)

pub same_text→≡ : (a b : Text) → same_text a b ≡ true → a ≡ b
unfolding same_text
same_text→≡ [] [] h = refl
same_text→≡ [] (y ∷ b) h = absurd (ground (arith, h))
same_text→≡ (x ∷ a) [] h = absurd (ground (arith, h))
same_text→≡ (x ∷ a) (y ∷ b) h = ground (arith, h, same_text→≡ a b)

pub same_text_comm : (a b : Text) → same_text a b ≡ same_text b a
unfolding same_text
same_text_comm [] [] = refl
same_text_comm [] (y ∷ b) = refl
same_text_comm (x ∷ a) [] = refl
same_text_comm (x ∷ a) (y ∷ b) = ground (arith, same_text_comm a b)

-- No two entries have one id.
abbrev pub IsDistinct : List StoredArtifact → Type 0
IsDistinct [] = Unit
IsDistinct (e ∷ es) = (find e.id es ≡ none) × IsDistinct es

pub find-delete-none :
    (id other : Text) (es : List StoredArtifact)
    → find id es ≡ none
    → find id (delete id_of other es) ≡ none
unfolding find delete
find-delete-none id other [] h = refl
find-delete-none id other (e ∷ es) h = ground (arith, h, find-delete-none id other es)

pub IsDistinct-delete :
    (id : Text) (es : List StoredArtifact) → IsDistinct es → IsDistinct (delete id_of id es)
unfolding delete
IsDistinct-delete id [] h = tt
IsDistinct-delete id (e ∷ es) h =
    if_cases IsDistinct (same_text id e.id) (λ _. h.1)
      (λ _. (find-delete-none e.id id es h.0, IsDistinct-delete id es h.1))

pub All-delete :
    (P : StoredArtifact → Type 0) (id : Text) (es : List StoredArtifact)
    → All P es
    → All P (delete id_of id es)
unfolding delete
All-delete P id [] h = tt
All-delete P id (e ∷ es) h =
    if_cases (All P) (same_text id e.id) (λ _. h.1) (λ _. (h.0, All-delete P id es h.1))

-- A deleted entry is one less, and its size.
pub delete_counts :
    (id : Text) (es : List StoredArtifact) (e : StoredArtifact)
    → find id es ≡ some e
    → (length es ≡ suc (length (delete id_of id es)))
      × (sum_chars es ≡ length e.content + sum_chars (delete id_of id es))
unfolding find delete sum_chars
delete_counts id [] e h = absurd (ground (arith, h))
delete_counts id (x ∷ es) e h = elim (Bool-cases (same_text id x.id)) [
  | inl hit ↦ let at : x ≡ e = ground (arith, h, hit) in ground (arith, hit, at)
  | inr miss ↦ ground (arith, miss, delete_counts id es e (ground (arith, h, miss)))
]

pub sum_chars-append :
    (es : List StoredArtifact) (e : StoredArtifact)
    → sum_chars (es ++ e ∷ []) ≡ sum_chars es + length e.content
unfolding sum_chars
sum_chars-append [] e = omega arith
sum_chars-append (x ∷ es) e = omega (arith, sum_chars-append es e)

find-append_none :
    (id : Text) (es : List StoredArtifact) (e : StoredArtifact)
    → find id es ≡ none
    → same_text id e.id ≡ false
    → find id (es ++ e ∷ []) ≡ none
unfolding find
find-append_none id [] e h k = ground (arith, k)
find-append_none id (x ∷ es) e h k = ground (arith, h, k, find-append_none id es e)

pub IsDistinct-append :
    (es : List StoredArtifact) (e : StoredArtifact)
    → IsDistinct es
    → find e.id es ≡ none
    → IsDistinct (es ++ e ∷ [])
unfolding find
IsDistinct-append [] e h k = (refl, tt)
IsDistinct-append (x ∷ es) e h k = (
  find-append_none x.id es e h.0 (ground (arith, k, same_text_comm e.id x.id)),
  IsDistinct-append es e h.1 (ground (arith, k)),
)

pub All-append :
    (P : StoredArtifact → Type 0) (es : List StoredArtifact) (e : StoredArtifact)
    → All P es
    → P e
    → All P (es ++ e ∷ [])
All-append P [] e h k = (k, tt)
All-append P (x ∷ es) e h k = (h.0, All-append P es e h.1 k)

module _ (id : Text) (now : ℕ) where
  pub length-touch : (es : List StoredArtifact) → length (touch id now es) ≡ length es
  unfolding touch
  length-touch [] = refl
  length-touch (e ∷ es) = ground (arith, length-touch es)

  pub sum_chars-touch : (es : List StoredArtifact) → sum_chars (touch id now es) ≡ sum_chars es
  unfolding touch sum_chars
  sum_chars-touch [] = refl
  sum_chars-touch (e ∷ es) = ground (arith, sum_chars-touch es)

  find-touch-none :
      (key : Text) (es : List StoredArtifact)
      → find key es ≡ none
      → find key (touch id now es) ≡ none
  unfolding touch find
  find-touch-none key [] h = refl
  find-touch-none key (e ∷ es) h = ground (arith, h, find-touch-none key es)

  pub IsDistinct-touch : (es : List StoredArtifact) → IsDistinct es → IsDistinct (touch id now es)
  unfolding touch
  IsDistinct-touch [] h = tt
  IsDistinct-touch (e ∷ es) h =
      if_cases IsDistinct (same_text id e.id) (λ _. h)
        (λ _. (find-touch-none e.id es h.0, IsDistinct-touch es h.1))

  pub All-touch :
      (P : StoredArtifact → Type 0) (es : List StoredArtifact)
      → ((e : StoredArtifact) → P e → P (record e { last_read_at = now }))
      → All P es
      → All P (touch id now es)
  unfolding touch
  All-touch P [] k h = tt
  All-touch P (e ∷ es) k h =
      if_cases (All P) (same_text id e.id) (λ _. (k e h.0, h.1)) (λ _. (h.0, All-touch P es k h.1))
