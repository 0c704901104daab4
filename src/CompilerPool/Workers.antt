-- ===== src/CompilerPool/Workers.antt =====
-- The workers of src/runtime/compiler-pool.ts, counted.
use kiro_fabric.Prelude.{
  ℕ, suc, ◌+◌, ◌≤◌, ◌<◌, ◌≡◌, ◌≢◌, refl, ap, subst, inl, inr, Option-cases, ◌==◌, List, [], ◌∷◌,
  ◌++◌, Option, none, some, length, arith, All, Bool-cases, if_cases,
}
use kiro_fabric.CompilerPool.{Worker, Pending, find, update, delete}

abbrev pub is_busy : Option Pending → ℕ
is_busy none = 0
is_busy (some p) = 1

-- How many workers have a pending request.
unfoldable pub busy : List Worker → ℕ
busy [] = 0
busy (w ∷ ws) = is_busy w.pending + busy ws

pub find_worker : (i : ℕ) (ws : List Worker) (w : Worker) → find i ws ≡ some w → w.worker ≡ i
unfolding find
find_worker i [] w h = absurd (ground (arith, h))
find_worker i (v ∷ ws) w h = elim (Bool-cases (i == v.worker)) [
  | inl hit ↦
      let at : v ≡ w = ground (arith, h, hit) in
      ground (arith, hit, ap (λ (x : Worker). x.worker) at)
  | inr miss ↦ find_worker i ws w (ground (arith, h, miss))
]

pub busy-append : (ws vs : List Worker) → busy (ws ++ vs) ≡ busy ws + busy vs
unfolding busy
busy-append [] vs = omega arith
busy-append (w ∷ ws) vs = omega (arith, busy-append ws vs)

-- A worker among others that is replaced or removed.
pub find_counts :
    (i : ℕ) (ws : List Worker) (w : Worker)
    → find i ws ≡ some w
    → (length ws ≡ suc (length (delete i ws))) × (busy ws ≡ is_busy w.pending + busy (delete i ws))
unfolding find delete busy
find_counts i [] w h = absurd (ground (arith, h))
find_counts i (v ∷ ws) w h = elim (Bool-cases (i == v.worker)) [
  | inl hit ↦ let at : v ≡ w = ground (arith, h, hit) in ground (arith, hit, at)
  | inr miss ↦ ground (arith, miss, find_counts i ws w (ground (arith, h, miss)))
]

pub length-update : (v : Worker) (ws : List Worker) → length (update v ws) ≡ length ws
unfolding update
length-update v [] = refl
length-update v (w ∷ ws) = ground (arith, length-update v ws)

pub busy-update :
    (v : Worker) (ws : List Worker) (w : Worker)
    → find v.worker ws ≡ some w
    → busy (update v ws) + is_busy w.pending ≡ busy ws + is_busy v.pending
unfolding find update busy
busy-update v [] w h = absurd (ground (arith, h))
busy-update v (x ∷ ws) w h = elim (Bool-cases (v.worker == x.worker)) [
  | inl hit ↦ let at : x ≡ w = ground (arith, h, hit) in ground (arith, hit, at)
  | inr miss ↦ ground (arith, miss, busy-update v ws w (ground (arith, h, miss)))
]

pub find-update_same :
    (v : Worker) (ws : List Worker) (w : Worker)
    → find v.worker ws ≡ some w
    → find v.worker (update v ws) ≡ some v
unfolding find update
find-update_same v [] w h = absurd (ground (arith, h))
find-update_same v (x ∷ ws) w h = elim (Bool-cases (v.worker == x.worker)) [
  | inl hit ↦ ground (arith, hit)
  | inr miss ↦ ground (arith, miss, find-update_same v ws w (ground (arith, h, miss)))
]

pub find-update_other :
    (j : ℕ) (v : Worker) (ws : List Worker) → v.worker ≢ j → find j (update v ws) ≡ find j ws
unfolding find update
find-update_other j v [] h = refl
find-update_other j v (x ∷ ws) h = ground (arith, h, find-update_other j v ws h)

pub find-delete_other : (j i : ℕ) (ws : List Worker) → i ≢ j → find j (delete i ws) ≡ find j ws
unfolding find delete
find-delete_other j i [] h = refl
find-delete_other j i (x ∷ ws) h = ground (arith, h, find-delete_other j i ws h)

pub find-append :
    (j : ℕ) (ws vs : List Worker) (w : Worker) → find j ws ≡ some w → find j (ws ++ vs) ≡ some w
unfolding find
find-append j [] vs w h = absurd (ground (arith, h))
find-append j (x ∷ ws) vs w h = ground (arith, h, find-append j ws vs w)

-- No two workers have one number, and none has the next one.
abbrev pub IsDistinct : List Worker → Type 0
IsDistinct [] = Unit
IsDistinct (w ∷ ws) = (find w.worker ws ≡ none) × IsDistinct ws

abbrev pub IsBelow : ℕ → Worker → Type 0
IsBelow n w = w.worker < n

find-update-none :
    (i : ℕ) (v : Worker) (ws : List Worker) → find i ws ≡ none → find i (update v ws) ≡ none
unfolding find update
find-update-none i v [] h = refl
find-update-none i v (w ∷ ws) h = ground (arith, h, find-update-none i v ws)

pub find-delete-none : (i j : ℕ) (ws : List Worker) → find i ws ≡ none → find i (delete j ws) ≡ none
unfolding find delete
find-delete-none i j [] h = refl
find-delete-none i j (w ∷ ws) h = ground (arith, h, find-delete-none i j ws)

pub IsDistinct-update : (v : Worker) (ws : List Worker) → IsDistinct ws → IsDistinct (update v ws)
unfolding update
IsDistinct-update v [] h = tt
IsDistinct-update v (w ∷ ws) h =
    if_cases IsDistinct (v.worker == w.worker) (λ same. (ground (arith, same, h.0), h.1))
      (λ _. (find-update-none w.worker v ws h.0, IsDistinct-update v ws h.1))

pub IsDistinct-delete : (i : ℕ) (ws : List Worker) → IsDistinct ws → IsDistinct (delete i ws)
unfolding delete
IsDistinct-delete i [] h = tt
IsDistinct-delete i (w ∷ ws) h =
    if_cases IsDistinct (i == w.worker) (λ _. h.1)
      (λ _. (find-delete-none w.worker i ws h.0, IsDistinct-delete i ws h.1))

pub find-delete_self : (i : ℕ) (ws : List Worker) → IsDistinct ws → find i (delete i ws) ≡ none
unfolding find delete
find-delete_self i [] h = refl
find-delete_self i (w ∷ ws) h = elim (Bool-cases (i == w.worker)) [
  | inl hit ↦ ground (arith, hit, h.0)
  | inr miss ↦ ground (arith, miss, find-delete_self i ws h.1)
]

pub delete_missing : (i : ℕ) (ws : List Worker) → find i ws ≡ none → delete i ws ≡ ws
unfolding find delete
delete_missing i [] h = refl
delete_missing i (w ∷ ws) h = ground (arith, h, delete_missing i ws)

find_above : (n : ℕ) (ws : List Worker) → All (IsBelow n) ws → find n ws ≡ none
unfolding find
find_above n [] h = refl
find_above n (w ∷ ws) h = ground (arith, h.0, find_above n ws h.1)

find-append_none :
    (i : ℕ) (ws : List Worker) (v : Worker)
    → find i ws ≡ none
    → v.worker ≢ i
    → find i (ws ++ v ∷ []) ≡ none
unfolding find
find-append_none i [] v h k = ground (arith, k)
find-append_none i (w ∷ ws) v h k = ground (arith, h, k, find-append_none i ws v)

pub IsDistinct-append :
    (v : Worker) (ws : List Worker)
    → All (IsBelow v.worker) ws
    → IsDistinct ws
    → IsDistinct (ws ++ v ∷ [])
unfolding find
IsDistinct-append v [] b h = (refl, tt)
IsDistinct-append v (w ∷ ws) b h = (
  find-append_none w.worker ws v h.0 (λ e. absurd (omega (arith, e, b.0))),
  IsDistinct-append v ws b.1 h.1,
)

pub All-update :
    (P : Worker → Type 0) (v : Worker) (ws : List Worker) → All P ws → P v → All P (update v ws)
unfolding update
All-update P v [] h k = tt
All-update P v (w ∷ ws) h k =
    if_cases (All P) (v.worker == w.worker) (λ _. (k, h.1)) (λ _. (h.0, All-update P v ws h.1 k))

pub All-delete : (P : Worker → Type 0) (i : ℕ) (ws : List Worker) → All P ws → All P (delete i ws)
unfolding delete
All-delete P i [] h = tt
All-delete P i (w ∷ ws) h =
    if_cases (All P) (i == w.worker) (λ _. h.1) (λ _. (h.0, All-delete P i ws h.1))

-- A worker that is added is below the next number.
pub IsBelow-append :
    (n : ℕ) (v : Worker) (ws : List Worker)
    → All (IsBelow n) ws
    → v.worker ≡ n
    → All (IsBelow (n + 1)) (ws ++ v ∷ [])
IsBelow-append n v [] h k = (omega (arith, k), tt)
IsBelow-append n v (w ∷ ws) h k = (omega (arith, h.0), IsBelow-append n v ws h.1 k)

pub found_below :
    (n i : ℕ) (ws : List Worker) (w : Worker)
    → All (IsBelow n) ws
    → find i ws ≡ some w
    → w.worker < n
unfolding find
found_below n i [] w h k = absurd (ground (arith, k))
found_below n i (v ∷ ws) w h k = elim (Bool-cases (i == v.worker)) [
  | inl hit ↦ let at : v ≡ w = ground (arith, k, hit) in subst (IsBelow n) at h.0
  | inr miss ↦ found_below n i ws w h.1 (ground (arith, k, miss))
]

pub busy_few : (ws : List Worker) → busy ws ≤ length ws
unfolding busy
busy_few [] = omega arith
busy_few (w ∷ ws) = elim (Option-cases w.pending) [
  | inl free ↦ omega (arith, busy_few ws, ap is_busy free)
  | inr (p, one) ↦ omega (arith, busy_few ws, ap is_busy one)
]

pub find-append_self :
    (v : Worker) (ws : List Worker)
    → All (IsBelow v.worker) ws
    → find v.worker (ws ++ v ∷ []) ≡ some v
unfolding find
find-append_self v [] h = ground arith
find-append_self v (w ∷ ws) h = ground (arith, h.0, find-append_self v ws h.1)
