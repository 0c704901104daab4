-- ===== src/CompilerPool/Invariant.antt =====
-- Every step of src/runtime/compiler-pool.ts keeps the accounts of its workers, answers and cache.
use kiro_fabric.Prelude.{
  ℕ, ◌+◌, ◌≤◌, ◌<◌, Bool, true, false, ◌≡◌, ◌≢◌, refl, sym, ap, subst, ◌∙◌, inl, inr, ◌&&◌, ◌||◌,
  not, ltb, ◌==◌, if◌then◌else◌, List, [], ◌∷◌, ◌++◌, Option, none, some, length, length-append,
  arith, All, Option-cases, if_cases, option_cases, Text, err, some-injective,
}
use kiro_fabric.CompilerPool.{
  Worker, Pending, Pool, TypeCheckResult, Failure, find, update, delete, detached, terminate,
  Retiring, Answer, attach, retire, settle, finish_failed, finish_result, remember, add_cached,
  length_of, max_cache_chars, worker_max_uses,
}
use kiro_fabric.CompilerPool.Cache.{Fits, add_cached-Fits}
use kiro_fabric.CompilerPool.Workers.{
  is_busy, busy, find_worker, find_counts, length-update, busy-update, find-update_same,
  find-update_other, find-delete_other, IsDistinct, IsBelow, IsDistinct-update, IsDistinct-delete,
  find-delete_self, All-update, All-delete, found_below,
}

abbrev pub idle_count : Option ℕ → ℕ
idle_count none = 0
idle_count (some i) = 1

-- The idle worker is one of the workers, waits, and may be used again.
abbrev pub IsIdle : Option ℕ → List Worker → Type 0
IsIdle none ws = Unit
IsIdle (some i) ws =
    (w : Worker) × (find i ws ≡ some w)
    × (w.pending ≡ none)
    × (w.is_poolable ≡ true)
    × (w.uses < worker_max_uses)

-- How many answers wait for the end of a termination.
unfoldable pub due_count : List Retiring → ℕ
due_count [] = 0
due_count (r ∷ rs) = length r.due + due_count rs

pub due_count-append : (rs ss : List Retiring) → due_count (rs ++ ss) ≡ due_count rs + due_count ss
unfolding due_count
due_count-append [] ss = omega arith
due_count-append (r ∷ rs) ss = omega (arith, due_count-append rs ss)

pub due_count-begin :
    (i : ℕ) (rs : List Retiring)
    → due_count (rs ++ (record { worker = i; due = [] }) ∷ []) ≡ due_count rs
unfolding due_count
due_count-begin i rs = omega (arith, due_count-append rs ((record { worker = i; due = [] }) ∷ []))

due_count-attach :
    (i : ℕ) (answer : Answer) (rs : List Retiring)
    → due_count (attach i answer (rs ++ (record { worker = i; due = [] }) ∷ [])) ≡ due_count rs + 1
unfolding due_count attach
due_count-attach i answer [] = ground arith
due_count-attach i answer (r ∷ rs) =
    if_cases (λ ss. due_count ss ≡ due_count (r ∷ rs) + 1) (i == r.worker)
      (λ _. omega (arith, length-append r.due (answer ∷ []), due_count-begin i rs))
      (λ _. omega (arith, due_count-attach i answer rs))

-- The accounts, with a number of workers that are neither busy nor idle, and whose request has no
-- answer yet.
pub record Accounts (loose : ℕ) (p : Pool) : Type 0 where
  pub few : length p.workers ≤ p.max_workers
  pub balanced : length p.workers ≡ busy p.workers + idle_count p.idle + loose
  pub settled : length p.answers + due_count p.retiring + busy p.workers + loose ≡ p.next_id
  pub waits : IsIdle p.idle p.workers
  pub distinct : IsDistinct p.workers
  pub below : All (IsBelow p.next_worker) p.workers
  pub cache : Fits p.cache p.cached_chars

abbrev pub IsValid : Pool → Type 0
IsValid = Accounts 0

-- A worker that is neither busy nor idle.
pub record Loose (i : ℕ) (w : Worker) (p : Pool) : Type 0 where
  pub accounts : Accounts 1 p
  pub here : find i p.workers ≡ some w
  pub free : w.pending ≡ none
  pub apart : detached i p.idle ≡ p.idle

IsIdle-other :
    (idle : Option ℕ) (ws vs : List Worker) (i : ℕ)
    → detached i idle ≡ idle
    → ((j : ℕ) → i ≢ j → find j vs ≡ find j ws)
    → IsIdle idle ws
    → IsIdle idle vs
IsIdle-other none ws vs i apart same h = tt
IsIdle-other (some j) ws vs i apart same (w, at, free, poolable, fresh) =
    (w, same j (λ e. absurd (ground (arith, apart, e))) ∙ at, free, poolable, fresh)

-- The busy worker is not the idle one.
pub busy_apart :
    (idle : Option ℕ) (ws : List Worker) (i : ℕ) (w : Worker) (pending : Pending)
    → IsIdle idle ws
    → find i ws ≡ some w
    → w.pending ≡ some pending
    → detached i idle ≡ idle
busy_apart none ws i w pending h at is_pending = refl
busy_apart (some j) ws i w pending (v, found, free, poolable, fresh) at is_pending =
    if_cases (λ o. o ≡ some j) (i == j)
      (λ same.
        let both : v ≡ w =
          some-injective (sym found ∙ ap (λ k. find k ws) (ground (arith, same)) ∙ at) in
        absurd (ground (arith, free, is_pending, ap (λ (x : Worker). x.pending) both)))
      (λ _. refl)

pub retire-valid :
    (i : ℕ) (w : Worker) (answer : Answer) (p : Pool) → Loose i w p → IsValid (retire i answer p)
unfolding retire terminate
retire-valid i w answer p h =
    option_cases (λ (q : Pool). IsValid (record q { retiring = attach i answer q.retiring }))
      (find i p.workers) (λ gone. absurd (ground (arith, gone, h.here)))
      (λ v at.
        let c = find_counts i p.workers v at in
        let same : w ≡ v = some-injective (sym h.here ∙ at) in
        let free : is_busy v.pending ≡ 0 =
          ground (arith, h.free, ap (λ (x : Worker). x.pending) same) in
        record {
          few = omega (arith, h.accounts.few, c.0);
          balanced = omega (arith, h.accounts.balanced, c.0, c.1, free, ap idle_count h.apart);
          settled =
              omega (arith, h.accounts.settled, c.1, free, due_count-attach i answer p.retiring);
          waits =
              subst (λ o. IsIdle o (delete i p.workers)) (sym h.apart)
                (IsIdle-other p.idle p.workers (delete i p.workers) i h.apart
                  (λ j e. find-delete_other j i p.workers e) h.accounts.waits);
          distinct = IsDistinct-delete i p.workers h.accounts.distinct;
          below = All-delete (IsBelow p.next_worker) i p.workers h.accounts.below;
          cache = h.accounts.cache;
        })

pub settle-Loose :
    (w : Worker) (pending : Pending) (uses : ℕ) (i : ℕ) (p : Pool)
    → IsValid p
    → find i p.workers ≡ some w
    → w.pending ≡ some pending
    → Loose w.worker
        (record w { uses = uses; pending = none })
        (settle (record w { uses = uses }) p)
settle-Loose w pending uses i p h at is_pending =
    let v : Worker = record w { uses = uses; pending = none } in
    let named : w.worker ≡ i = find_worker i p.workers w at in
    let there : find w.worker p.workers ≡ some w = ap (λ k. find k p.workers) named ∙ at in
    let one : is_busy w.pending ≡ 1 = ground (arith, is_pending) in
    let c = busy-update v p.workers w there in
    let apart = busy_apart p.idle p.workers w.worker w pending h.waits there is_pending in
    record {
      accounts = record {
        few = omega (arith, h.few, length-update v p.workers);
        balanced = omega (arith, h.balanced, length-update v p.workers, c, one);
        settled = omega (arith, h.settled, c, one);
        waits =
            IsIdle-other p.idle p.workers (update v p.workers) w.worker apart
              (λ j e. find-update_other j v p.workers e) h.waits;
        distinct = IsDistinct-update v p.workers h.distinct;
        below =
            All-update (IsBelow p.next_worker) v p.workers h.below
              (found_below p.next_worker w.worker p.workers w h.below there);
        cache = h.cache;
      };
      here = find-update_same v p.workers w there;
      free = refl;
      apart = apart;
    }

pub finish_failed-valid :
    (w : Worker) (pending : Pending) (failure : Failure) (i : ℕ) (p : Pool)
    → IsValid p
    → find i p.workers ≡ some w
    → w.pending ≡ some pending
    → IsValid (finish_failed w pending failure p)
unfolding finish_failed
finish_failed-valid w pending failure i p h at is_pending =
    retire-valid w.worker (record w { pending = none }) (pending.request, err failure) _
      (settle-Loose w pending w.uses i p h at is_pending)

remember-Loose :
    (i : ℕ) (w : Worker) (key : Option Text) (r : TypeCheckResult) (p : Pool)
    → Loose i w p
    → Loose i w (remember key r p)
unfolding remember add_cached
remember-Loose i w none r p h = h
remember-Loose i w (some key) r p h =
    let other = h.accounts in
    option_cases (Loose i w) r.javascript (λ _. h)
      (λ javascript at.
        if_cases (Loose i w)
          (ltb 0 (length r.errors)
            || ltb max_cache_chars (length key + length javascript + length_of r.source_map))
          (λ _. h)
          (λ _. record {
            accounts = record {
              few = other.few;
              balanced = other.balanced;
              settled = other.settled;
              waits = other.waits;
              distinct = other.distinct;
              below = other.below;
              cache = add_cached-Fits _ p other.cache;
            };
            here = h.here;
            free = h.free;
            apart = h.apart;
          }))

-- A worker that waits becomes the idle one, or is terminated.
returns-valid :
    (w : Worker) (answer : Answer) (p : Pool) (is_poolable : Bool) (uses : ℕ)
    → Loose w.worker w p
    → w.is_poolable ≡ is_poolable
    → w.uses ≡ uses
    → IsValid (
        if not p.is_closed
          && (elim p.idle [ none ↦ true | some j ↦ false ])
          && is_poolable
          && ltb uses worker_max_uses
        then record p { idle = some w.worker; answers = p.answers ++ answer ∷ [] }
        else retire w.worker answer p)
returns-valid w answer p is_poolable uses h poolable used =
    if_cases IsValid
      (not p.is_closed
        && (elim p.idle [ none ↦ true | some j ↦ false ])
        && is_poolable
        && ltb uses worker_max_uses)
      (λ idles. elim (Option-cases p.idle) [
        | inl empty ↦ record {
          few = h.accounts.few;
          balanced = omega (arith, h.accounts.balanced, ap idle_count empty);
          settled = omega (arith, h.accounts.settled, length-append p.answers (answer ∷ []));
          waits = (w, h.here, h.free, ground (arith, idles, poolable), ground (arith, idles, used));
          distinct = h.accounts.distinct;
          below = h.accounts.below;
          cache = h.accounts.cache;
        }
        | inr (j, taken) ↦ absurd (ground (arith, idles, taken))
      ])
      (λ _. retire-valid w.worker w answer p h)

pub finish_result-valid :
    (w : Worker) (pending : Pending) (result : TypeCheckResult) (i : ℕ) (p : Pool)
    → IsValid p
    → find i p.workers ≡ some w
    → w.pending ≡ some pending
    → IsValid (finish_result w pending result p)
unfolding finish_result
finish_result-valid w pending result i p h at is_pending =
    returns-valid (record w { uses = w.uses + 1; pending = none }) _ _ w.is_poolable (w.uses + 1)
      (remember-Loose w.worker _ pending.cache_key result _
        (settle-Loose w pending (w.uses + 1) i p h at is_pending))
      refl refl

-- What a failure of a pending request leaves is valid, and the worker is gone.
pub terminate-gone :
    (i : ℕ) (p : Pool) → IsDistinct p.workers → find i (terminate i p).workers ≡ none
unfolding terminate
terminate-gone i p h =
    option_cases (λ (q : Pool). find i q.workers ≡ none) (find i p.workers) (λ gone. gone)
      (λ w _. find-delete_self i p.workers h)

pub finish_failed-gone :
    (w : Worker) (pending : Pending) (failure : Failure) (p : Pool)
    → IsDistinct p.workers
    → find w.worker (finish_failed w pending failure p).workers ≡ none
unfolding finish_failed retire
finish_failed-gone w pending failure p h =
    terminate-gone w.worker _ (IsDistinct-update (record w { pending = none }) p.workers h)
