-- ===== src/ResultStore/History.antt =====
-- Histories of calls of src/fovea/result-store.ts.
use kiro_fabric.Prelude.{
  ℕ, ◌==◌, ◌≡◌, refl, subst, ◌||◌, inl, inr, Option, none, some, length, arith, ltb, Bool-cases, ok,
  err, Text,
}
use kiro_fabric.ResultStore.{
  ResultStore, ResultOwner, Cursor, max_text, lookup, revoke, clear, put, page, search,
}
use kiro_fabric.ResultStore.Invariant.{
  IsValid, sweep-IsValid, delete_all-IsValid, put-Puts, Puts-IsValid, put_long,
}

-- The calls of the store, each with the clock's reading; `puts` has the id that the call draws.
pub data Call : Type 0 where
  puts : ResultOwner → Text → ℕ → ℕ → Call
  pages : ResultOwner → ℕ → Option Cursor → ℕ → ℕ → Call
  searches : ResultOwner → ℕ → Text → ℕ → ℕ → Call
  revokes : ℕ → ℕ → Call
  clears : Call

-- The store after a call. One that never returns leaves none.
unfoldable pub step : (ℕ → ℕ → ℕ) → ResultStore → Call → Option ResultStore
step mac s (puts owner text id now) = elim (put s owner text id now) [
  | none ↦ none
  | some (ok t) ↦ some t
  | some (err e) ↦ some s
]
step mac s (pages owner id from max_page now) = some (page mac s owner id from max_page now).0
step mac s (searches owner id query limit now) = some (search s owner id query limit now).0
step mac s (revokes root_id epoch) = some (revoke s root_id epoch)
step mac s clears = some (clear s)

-- The id that a call draws is not in use.
abbrev pub IsFresh : ResultStore → Call → Type 0
IsFresh s (puts owner text id now) = lookup id s.entries ≡ none
IsFresh s _ = Unit {0}

put-step :
    (mac : ℕ → ℕ → ℕ) (s : ResultStore) (owner : ResultOwner) (text : Text) (id now : ℕ)
    → IsValid s
    → lookup id s.entries ≡ none
    → (t : ResultStore) × (step mac s (puts owner text id now) ≡ some t) × IsValid t
unfolding step
put-step mac s owner text id now v new = elim (Bool-cases (ltb max_text (length text))) [
  | inl long ↦ (s, rw (put_long s owner text id now (ground (arith, long)), step) refl, v)
  | inr short ↦
      let (t, run, p) = put-Puts s owner text id now v (ground (arith, short)) in
      (t, rw (run, step), Puts-IsValid v new p)
]

page-IsValid :
    (mac : ℕ → ℕ → ℕ) (s : ResultStore) (owner : ResultOwner) (id : ℕ) (from : Option Cursor)
    (max_page now : ℕ)
    → IsValid s
    → IsValid (page mac s owner id from max_page now).0
unfolding page
page-IsValid mac s owner id from max_page now v =
    elim (Bool-cases (ltb max_page 256 || ltb 32_000 max_page)) [
      | inl bad ↦ rw (bad, page) v
      | inr fine ↦ rw (fine, page) (sweep-IsValid s now v)
    ]

search-IsValid :
    (s : ResultStore) (owner : ResultOwner) (id : ℕ) (query : Text) (limit now : ℕ)
    → IsValid s
    → IsValid (search s owner id query limit now).0
unfolding search
search-IsValid s owner id query limit now v =
    elim (Bool-cases (length query == 0 || ltb 256 (length query) || ltb limit 1 || ltb 32 limit)) [
      | inl bad ↦ rw (bad, search) v
      | inr fine ↦ rw (fine, search) (sweep-IsValid s now v)
    ]

-- Every call returns on a valid store, if the id that it draws is new, and leaves a valid store.
pub step-IsValid :
    (mac : ℕ → ℕ → ℕ) (s : ResultStore) (c : Call)
    → IsValid s
    → IsFresh s c
    → (t : ResultStore) × (step mac s c ≡ some t) × IsValid t
unfolding step
step-IsValid mac s (puts owner text id now) v f = put-step mac s owner text id now v f
step-IsValid mac s (pages owner id from max_page now) v f = (
  (page mac s owner id from max_page now).0,
  refl,
  page-IsValid mac s owner id from max_page now v,
)
step-IsValid mac s (searches owner id query limit now) v f =
    ((search s owner id query limit now).0, refl, search-IsValid s owner id query limit now v)
step-IsValid mac s (revokes root_id epoch) v f =
    (revoke s root_id epoch, refl, unfold revoke in delete_all-IsValid _ s v)
step-IsValid mac s clears v f = (
  clear s,
  refl,
  unfold clear in
      record { counted = refl; within = omega arith; bounded = omega arith; distinct = tt },
)

-- A history whose every `put` draws an id that is not in use.
pub data Reach (mac : ℕ → ℕ → ℕ) (s : ResultStore) : ResultStore → Type 0 where
  here : Reach mac s s
  next :
      {t u : ResultStore} (c : Call)
      → Reach mac s t
      → IsFresh t c
      → step mac t c ≡ some u
      → Reach mac s u

-- Every store reached from a valid one by calls whose puts draw unused ids holds at most 32
-- entries and 4,000,000 characters, counts exactly the characters of its texts, and has no id
-- twice.
pub Reach-IsValid : (mac : ℕ → ℕ → ℕ) {s t : ResultStore} → IsValid s → Reach mac s t → IsValid t
Reach-IsValid mac v here = v
Reach-IsValid mac v (next {t} {u} c r f e) =
    let (t', run, v') = step-IsValid mac t c (Reach-IsValid mac v r) f in
    let same_store : t' ≡ u = ground (arith, run, e) in subst IsValid same_store v'
