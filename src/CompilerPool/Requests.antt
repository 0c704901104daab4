-- ===== src/CompilerPool/Requests.antt =====
-- `check` of src/runtime/compiler-pool.ts keeps the accounts.
use kiro_fabric.Prelude.{
  same_text, ℕ, ◌+◌, ◌<◌, ◌≡◌, refl, sym, ap, subst, ◌∙◌, ◌&&◌, not, leb, if◌then◌else◌, List, [],
  ◌∷◌, ◌++◌, Option, none, some, length, length-append, arith, All, if_cases, option_cases, Text,
}
use kiro_fabric.CompilerPool.{
  Worker, Pending, Pool, WorkerUse, cold, warm, custom, not_posted, Request, Reply, dispatched,
  over_limit, not_started, find, update, finish_failed, cached, uncached, declarations_digest,
  key_of, post, dispatch, check, max_cache_chars,
}
use kiro_fabric.CompilerPool.Cache.{sum_chars, sum_chars-append, uncached_counts}
use kiro_fabric.CompilerPool.Workers.{
  is_busy, busy, busy-append, busy-update, length-update, find-append, find-append_self, IsBelow,
  IsDistinct-update, IsDistinct-append, IsBelow-append, All-update, found_below, find_worker,
  find-update_same,
}
use kiro_fabric.CompilerPool.Invariant.{idle_count, IsIdle, IsValid, finish_failed-valid}

abbrev Kept : Pool × Reply → Type 0
Kept x = IsValid x.0

-- A pool with another memory of declarations.
remembers :
    (memory : Option (Text × Text)) (p : Pool)
    → IsValid p
    → IsValid (record p { last_declarations = memory })
remembers memory p h = record {
  few = h.few;
  balanced = h.balanced;
  settled = h.settled;
  waits = h.waits;
  distinct = h.distinct;
  below = h.below;
  cache = h.cache;
}

IsIdle-append : (idle : Option ℕ) (ws vs : List Worker) → IsIdle idle ws → IsIdle idle (ws ++ vs)
IsIdle-append none ws vs h = tt
IsIdle-append (some i) ws vs (w, at, free, poolable, fresh) =
    (w, find-append i ws vs w at, free, poolable, fresh)

-- A request is given to a worker.
post-valid :
    (r : Request) (w : Worker) (pending : Pending) (p : Pool)
    → IsValid p
    → find w.worker p.workers ≡ some (record w { pending = some pending })
    → Kept (
        if r.is_posted then (p, dispatched pending.request) else (
          finish_failed (record w { pending = some pending }) pending not_posted p,
          dispatched pending.request,
        ))
post-valid r w pending p h at =
    if_cases Kept r.is_posted (λ _. h)
      (λ _.
        finish_failed-valid (record w { pending = some pending }) pending not_posted w.worker p h at
          refl)

add-valid :
    (w : Worker) (pending : Pending) (p : Pool)
    → IsValid p
    → w.worker ≡ p.next_worker
    → w.pending ≡ some pending
    → length p.workers < p.max_workers
    → IsValid (record p {
      next_id = p.next_id + 1;
      workers = p.workers ++ w ∷ [];
      next_worker = p.next_worker + 1;
    })
unfolding busy
add-valid w pending p h named is_pending room =
    let one : is_busy w.pending ≡ 1 = ground (arith, is_pending) in
    let count = busy-append p.workers (w ∷ []) in
    let size = length-append p.workers (w ∷ []) in
    record {
      few = omega (arith, room, size);
      balanced = omega (arith, h.balanced, size, count, one);
      settled = omega (arith, h.settled, count, one);
      waits = IsIdle-append p.idle p.workers (w ∷ []) h.waits;
      distinct =
          IsDistinct-append w p.workers (subst (λ n. All (IsBelow n) p.workers) (sym named) h.below)
            h.distinct;
      below = IsBelow-append p.next_worker w p.workers h.below named;
      cache = h.cache;
    }

reuse-valid :
    (w : Worker) (pending : Pending) (i : ℕ) (p : Pool)
    → IsValid p
    → p.idle ≡ some i
    → find i p.workers ≡ some w
    → w.pending ≡ none
    → IsValid (record p {
      next_id = p.next_id + 1;
      idle = none;
      workers = update (record w { pending = some pending }) p.workers;
    })
reuse-valid w pending i p h idle at free =
    let named = find_worker i p.workers w at in
    let there : find w.worker p.workers ≡ some w = ap (λ k. find k p.workers) named ∙ at in
    let v : Worker = record w { pending = some pending } in
    let count = busy-update v p.workers w there in
    record {
      few = omega (arith, h.few, length-update v p.workers);
      balanced = omega (
        arith,
        h.balanced,
        ap idle_count idle,
        length-update v p.workers,
        count,
        ap is_busy free,
      );
      settled = omega (arith, h.settled, count, ap is_busy free);
      waits = tt;
      distinct = IsDistinct-update v p.workers h.distinct;
      below =
          All-update (IsBelow p.next_worker) v p.workers h.below
            (found_below p.next_worker w.worker p.workers w h.below there);
      cache = h.cache;
    }

module _ (digest : Text → Text) where
  dispatch-valid :
      (r : Request) (key : Option Text) (p : Pool) → IsValid p → Kept (dispatch digest r key p)
  unfolding dispatch
  dispatch-valid r key p h =
      if_cases Kept r.is_custom (λ _. fresh custom)
        (λ _.
          option_cases Kept p.idle (λ _. fresh cold)
            (λ i idle.
              option_cases Kept (find i p.workers) (λ _. fresh cold)
                (λ w at.
                  let pending : Pending = record {
                    request = p.next_id + 1;
                    cache_key = key;
                    worker_use = warm;
                  } in
                  let (x, found, free, poolable, young) =
                    subst (λ o. IsIdle o p.workers) idle h.waits in
                  let waits : w.pending ≡ none = ground (arith, at, found, free) in
                  let named = find_worker i p.workers w at in
                  let there : find w.worker p.workers ≡ some w =
                    ap (λ k. find k p.workers) named ∙ at in
                  post-valid r w pending _ (reuse-valid w pending i p h idle at waits)
                    (find-update_same (record w { pending = some pending }) p.workers w there))))
    where
      fresh :
          (kind : WorkerUse)
          → Kept (
              if leb p.max_workers (length p.workers)
              then (p, over_limit)
              else if r.is_started
              then post digest r
                  (record {
                    worker = p.next_worker;
                    uses = 0;
                    is_poolable = not r.is_custom;
                    pending =
                        some
                          (record { request = p.next_id + 1; cache_key = key; worker_use = kind });
                  })
                  (record { request = p.next_id + 1; cache_key = key; worker_use = kind })
                  (record p {
                    next_id = p.next_id + 1;
                    workers =
                        p.workers
                        ++ (record {
                          worker = p.next_worker;
                          uses = 0;
                          is_poolable = not r.is_custom;
                          pending = some (record {
                            request = p.next_id + 1;
                            cache_key = key;
                            worker_use = kind;
                          });
                        })
                          ∷ [];
                    next_worker = p.next_worker + 1;
                  })
              else (p, not_started))
      fresh kind =
          let pending : Pending = record {
            request = p.next_id + 1;
            cache_key = key;
            worker_use = kind;
          } in
          let w : Worker = record {
            worker = p.next_worker;
            uses = 0;
            is_poolable = not r.is_custom;
            pending = some pending;
          } in
          if_cases Kept (leb p.max_workers (length p.workers)) (λ _. h)
            (λ room.
              if_cases Kept r.is_started
                (λ _.
                  post-valid r w pending _
                    (add-valid w pending p h refl refl (ground (arith, room)))
                    (find-append_self w p.workers h.below))
                (λ _. h))

  key_of-valid : (r : Request) (p : Pool) → IsValid p → IsValid (key_of digest r p).0
  unfolding key_of declarations_digest
  key_of-valid r p h =
      if_cases (λ (x : Pool × Option Text). IsValid x.0)
        (not r.is_custom && leb (length r.code + length r.declarations) max_cache_chars)
        (λ _. by_memory p.last_declarations) (λ _. h)
    where
      by_memory :
          (memory : Option (Text × Text))
          → (λ (x : Pool × Text). IsValid x.0)
              (elim memory [
                | none ↦ (
                  record p { last_declarations = some (r.declarations, digest r.declarations) },
                  digest r.declarations,
                )
                | some (text, known) ↦ if same_text text r.declarations then (p, known) else (
                  record p { last_declarations = some (r.declarations, digest r.declarations) },
                  digest r.declarations,
                )
              ])
      by_memory none = remembers (some (r.declarations, digest r.declarations)) p h
      by_memory (some (text, known)) =
          if_cases (λ (x : Pool × Text). IsValid x.0) (same_text text r.declarations) (λ _. h)
            (λ _. remembers (some (r.declarations, digest r.declarations)) p h)

  pub check-valid : (r : Request) (p : Pool) → IsValid p → IsValid (check digest r p).0
  unfolding check sum_chars
  check-valid r p h =
      let keyed = key_of digest r p in
      let q = keyed.0 in
      let valid = key_of-valid r p h in
      let fresh = dispatch-valid r keyed.1 q valid in
      if_cases Kept p.is_closed (λ _. h)
        (λ _.
          if_cases Kept r.is_aborted (λ _. h)
            (λ _.
              option_cases Kept keyed.1 (λ _. fresh)
                (λ key _.
                  option_cases Kept (cached key q.cache) (λ _. fresh)
                    (λ c at.
                      let count = uncached_counts key q.cache c at in
                      record {
                        few = valid.few;
                        balanced = valid.balanced;
                        settled = valid.settled;
                        waits = valid.waits;
                        distinct = valid.distinct;
                        below = valid.below;
                        cache = record {
                          few = omega (
                            arith,
                            valid.cache.few,
                            count.1,
                            length-append (uncached key q.cache) (c ∷ []),
                          );
                          counted = omega (
                            arith,
                            valid.cache.counted,
                            count.0,
                            sum_chars-append (uncached key q.cache) (c ∷ []),
                          );
                          within = valid.cache.within;
                        };
                      }))))
