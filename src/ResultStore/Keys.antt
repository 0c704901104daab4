-- ===== src/ResultStore/Keys.antt =====
-- The Map of src/fovea/result-store.ts: keys that occur once, the total of its texts, and what a
-- walk that deletes leaves of both.
use kiro_fabric.Prelude.{
  ℕ, ◌+◌, ◌-◌, ◌≤◌, Bool, ◌≡◌, refl, List, [], ◌∷◌, ◌++◌, Option, none, some, length, arith,
  if◌then◌else◌, ◌==◌,
}
use kiro_fabric.ResultStore.{Stored, lookup, delete_where}

abbrev pub total : List (ℕ × Stored) → ℕ
total [] = 0
total ((id, e) ∷ rest) = length e.text + total rest

abbrev pub IsDistinct : List (ℕ × Stored) → Type 0
IsDistinct [] = Unit {0}
IsDistinct ((id, e) ∷ rest) = (lookup id rest ≡ none) × IsDistinct rest

-- The entries that a deleting walk keeps.
unfoldable pub survivors : (Stored → Bool) → List (ℕ × Stored) → List (ℕ × Stored)
survivors test [] = []
survivors test ((id, e) ∷ rest) =
    if test e then survivors test rest else (id, e) ∷ survivors test rest

pub delete_where-survivors :
    (test : Stored → Bool) (es : List (ℕ × Stored)) (chars : ℕ)
    → (delete_where test es chars).0 ≡ survivors test es
unfolding delete_where survivors
delete_where-survivors test [] chars = refl
delete_where-survivors test ((id, e) ∷ rest) chars = ground (
  arith,
  delete_where-survivors test rest chars,
  delete_where-survivors test rest (chars - length e.text),
)

pub delete_where-chars :
    (test : Stored → Bool) (es : List (ℕ × Stored)) (chars : ℕ)
    → total es ≤ chars
    → (delete_where test es chars).1 + total es ≡ chars + total (survivors test es)
unfolding delete_where survivors
delete_where-chars test [] chars h = refl
delete_where-chars test ((id, e) ∷ rest) chars h = ground (
  arith,
  delete_where-chars test rest chars,
  delete_where-chars test rest (chars - length e.text),
)

pub total-survivors-le :
    (test : Stored → Bool) (es : List (ℕ × Stored)) → total (survivors test es) ≤ total es
unfolding survivors
total-survivors-le test [] = omega arith
total-survivors-le test ((id, e) ∷ rest) = ground (arith, total-survivors-le test rest)

pub length-survivors-le :
    (test : Stored → Bool) (es : List (ℕ × Stored)) → length (survivors test es) ≤ length es
unfolding survivors
length-survivors-le test [] = omega arith
length-survivors-le test ((id, e) ∷ rest) = ground (arith, length-survivors-le test rest)

-- What a lookup finds after the walk: the same entry, unless the test picks it.
abbrev pub spared : (Stored → Bool) → Option Stored → Option Stored
spared test none = none
spared test (some e) = if test e then none else some e

pub lookup-survivors_absent :
    (test : Stored → Bool) (es : List (ℕ × Stored)) (id : ℕ)
    → lookup id es ≡ none
    → lookup id (survivors test es) ≡ none
unfolding survivors lookup
lookup-survivors_absent test [] id h = refl
lookup-survivors_absent test ((key, e) ∷ rest) id h =
    ground (arith, lookup-survivors_absent test rest id)

pub lookup-survivors :
    (test : Stored → Bool) (es : List (ℕ × Stored)) (id : ℕ)
    → IsDistinct es
    → lookup id (survivors test es) ≡ spared test (lookup id es)
unfolding survivors lookup
lookup-survivors test [] id d = refl
lookup-survivors test ((key, e) ∷ rest) id d =
    ground (arith, lookup-survivors test rest id d.1, lookup-survivors_absent test rest id, d.0)

pub survivors-IsDistinct :
    (test : Stored → Bool) (es : List (ℕ × Stored)) → IsDistinct es → IsDistinct (survivors test es)
unfolding survivors
survivors-IsDistinct test [] d = tt
survivors-IsDistinct test ((id, e) ∷ rest) d =
    ground (arith, survivors-IsDistinct test rest d.1, lookup-survivors_absent test rest id d.0)

pub total-append : (es rest : List (ℕ × Stored)) → total (es ++ rest) ≡ total es + total rest
total-append [] rest = omega arith
total-append ((id, e) ∷ es) rest = omega (arith, total-append es rest)

pub lookup-append_new :
    (es : List (ℕ × Stored)) (id key : ℕ) (e : Stored)
    → lookup id es ≡ none
    → lookup key (es ++ (id, e) ∷ []) ≡ (if id == key then some e else lookup key es)
unfolding lookup
lookup-append_new [] id key e h = refl
lookup-append_new ((k, x) ∷ es) id key e h = ground (arith, lookup-append_new es id key e)

pub append-IsDistinct :
    (es : List (ℕ × Stored)) (id : ℕ) (e : Stored)
    → lookup id es ≡ none
    → IsDistinct es
    → IsDistinct (es ++ (id, e) ∷ [])
unfolding lookup
append-IsDistinct [] id e h d = (refl, tt)
append-IsDistinct ((k, x) ∷ es) id e h d =
    ground (arith, lookup-append_new es id k e, append-IsDistinct es id e)
