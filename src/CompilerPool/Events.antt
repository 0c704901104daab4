-- ===== src/CompilerPool/Events.antt =====
-- What workers, timers and signals report to src/runtime/compiler-pool.ts keeps the accounts.
use kiro_fabric.Prelude.{
  ℕ, ◌≡◌, refl, sym, ap, subst, ◌∙◌, inl, inr, ◌==◌, List, [], ◌∷◌, ◌++◌, none, some, arith,
  Bool-cases, Option-cases, if_cases, option_cases, some-injective,
}
use kiro_fabric.CompilerPool.{
  Worker, Retiring, Pending, Pool, Failure, failed, exited, worker_failed, Response, result_of,
  error_of, find, delete, detached, terminate, finish_failed, finish_result, fail_pending,
  on_message, on_error, on_exit, on_stop, on_idle_timer,
}
use kiro_fabric.CompilerPool.Workers.{
  is_busy, find_worker, find_counts, find-delete_other, IsBelow, IsDistinct-delete, delete_missing,
  All-delete, busy_few,
}
use kiro_fabric.CompilerPool.Invariant.{
  due_count, due_count-begin, idle_count, IsIdle, IsValid, busy_apart, finish_failed-valid,
  finish_result-valid, finish_failed-gone,
}

-- A worker without a request is the idle one.
waiting-is_idle :
    (i : ℕ) (w : Worker) (p : Pool)
    → IsValid p
    → find i p.workers ≡ some w
    → w.pending ≡ none
    → p.idle ≡ some i
waiting-is_idle i w p h at free =
    let c = find_counts i p.workers w at in
    let none_busy = ap is_busy free in
    elim (Option-cases p.idle) [
      | inl empty ↦ absurd (
          omega (
            arith,
            h.balanced,
            ap idle_count empty,
            c.0,
            c.1,
            none_busy,
            busy_few (delete i p.workers),
          ))
      | inr (j, idle) ↦ elim (Bool-cases (i == j)) [
        | inl same ↦ ground (arith, idle, same)
        | inr other ↦
            let (v, found, waits, poolable, fresh) = subst (λ o. IsIdle o p.workers) idle h.waits in
            let d =
              find_counts j (delete i p.workers) v (
                find-delete_other j i p.workers (λ e. absurd (ground (arith, e, other))) ∙ found) in
            absurd (
              omega (
                arith,
                h.balanced,
                ap idle_count idle,
                c.0,
                c.1,
                none_busy,
                d.0,
                d.1,
                ap is_busy waits,
                busy_few (delete j (delete i p.workers)),
              ))
      ]
    ]

-- The idle worker leaves.
idle-leaves :
    (i : ℕ) (w : Worker) (retiring : List Retiring) (p : Pool)
    → due_count retiring ≡ due_count p.retiring
    → IsValid p
    → find i p.workers ≡ some w
    → w.pending ≡ none
    → IsValid
        (record p { idle = detached i p.idle; workers = delete i p.workers; retiring = retiring })
idle-leaves i w retiring p same_due h at free =
    let c = find_counts i p.workers w at in
    let idle = waiting-is_idle i w p h at free in
    let empty : detached i p.idle ≡ none = ground (arith, idle) in
    record {
      few = omega (arith, h.few, c.0);
      balanced =
          omega
            (arith, h.balanced, c.0, c.1, ap is_busy free, ap idle_count idle, ap idle_count empty);
      settled = omega (arith, h.settled, c.1, ap is_busy free, same_due);
      waits = subst (λ o. IsIdle o (delete i p.workers)) (sym empty) tt;
      distinct = IsDistinct-delete i p.workers h.distinct;
      below = All-delete (IsBelow p.next_worker) i p.workers h.below;
      cache = h.cache;
    }

gone-apart : (i : ℕ) (p : Pool) → IsValid p → find i p.workers ≡ none → detached i p.idle ≡ p.idle
gone-apart i p h gone = elim (Option-cases p.idle) [
  | inl empty ↦ ground (arith, empty)
  | inr (j, idle) ↦
      let (v, found, waits, poolable, fresh) = subst (λ o. IsIdle o p.workers) idle h.waits in
      elim (Bool-cases (i == j)) [
        | inl same ↦
            let at : i ≡ j = ground (arith, same) in
            absurd (ground (arith, found, gone, ap (λ k. find k p.workers) at))
        | inr other ↦ ground (arith, idle, other)
      ]
]

detach-valid :
    (i : ℕ) (p : Pool)
    → IsValid p
    → detached i p.idle ≡ p.idle
    → IsValid (record p { idle = detached i p.idle })
detach-valid i p h apart = record {
  few = h.few;
  balanced = omega (arith, h.balanced, ap idle_count apart);
  settled = h.settled;
  waits = subst (λ o. IsIdle o p.workers) (sym apart) h.waits;
  distinct = h.distinct;
  below = h.below;
  cache = h.cache;
}

-- To terminate a worker that is gone, or waits, is valid.
pub terminate-settled :
    (i : ℕ) (p : Pool)
    → IsValid p
    → ((w : Worker) → find i p.workers ≡ some w → w.pending ≡ none)
    → IsValid (terminate i p)
unfolding terminate
terminate-settled i p h free =
    option_cases IsValid (find i p.workers) (λ gone. detach-valid i p h (gone-apart i p h gone))
      (λ w at.
        idle-leaves i w (p.retiring ++ (record { worker = i; due = [] }) ∷ []) p
          (due_count-begin i p.retiring) h at (free w at))

-- A worker whose request, if any, is failed: it is gone or waits.
pub fail_pending-valid :
    (w : Worker) (failure : Failure) (i : ℕ) (p : Pool)
    → IsValid p
    → find i p.workers ≡ some w
    → IsValid (fail_pending w failure p)
      × ((v : Worker) → find i (fail_pending w failure p).workers ≡ some v → v.pending ≡ none)
fail_pending-valid w failure i p h at =
    let named = find_worker i p.workers w at in
    option_cases Settled w.pending
      (λ free. (
        h,
        λ v there.
            ground (arith, free, ap (λ (x : Worker). x.pending) (some-injective (sym at ∙ there))),
      ))
      (λ pending is_pending.
        let gone = finish_failed-gone w pending failure p h.distinct in
        (
          finish_failed-valid w pending failure i p h at is_pending,
          λ v there. absurd (
              ground (
                arith,
                there,
                gone,
                ap (λ k. find k (finish_failed w pending failure p).workers) named,
              )),
        ))
  where
    Settled : Pool → Type 0
    Settled q = IsValid q × ((v : Worker) → find i q.workers ≡ some v → v.pending ≡ none)

pub on_error-valid : (i : ℕ) (p : Pool) → IsValid p → IsValid (on_error i p)
unfolding on_error
on_error-valid i p h =
    option_cases IsValid (find i p.workers) (λ _. h)
      (λ w at.
        let f = fail_pending-valid w worker_failed i p h at in
        terminate-settled i (fail_pending w worker_failed p) f.0 f.1)

pub on_idle_timer-valid : (p : Pool) → IsValid p → IsValid (on_idle_timer p)
unfolding on_idle_timer
on_idle_timer-valid p h =
    option_cases IsValid p.idle (λ _. h)
      (λ i idle.
        let (w, at, free, poolable, fresh) = subst (λ o. IsIdle o p.workers) idle h.waits in
        terminate-settled i p h (λ v there.
          ground (arith, free, ap (λ (x : Worker). x.pending) (some-injective (sym at ∙ there)))))

pub on_exit-valid : (i : ℕ) (p : Pool) → IsValid p → IsValid (on_exit i p)
unfolding on_exit
on_exit-valid i p h =
    option_cases IsValid (find i p.workers) (λ _. h)
      (λ w at.
        option_cases Exited w.pending (λ free. idle-leaves i w p.retiring p refl h at free)
          (λ pending is_pending.
            let named = find_worker i p.workers w at in
            let apart = busy_apart p.idle p.workers i w pending h.waits at is_pending in
            let q : Pool = record p { idle = detached i p.idle } in
            let valid =
              finish_failed-valid w pending exited i q (detach-valid i p h apart) at is_pending in
            let gone : find i (finish_failed w pending exited q).workers ≡ none =
              ap (λ k. find k (finish_failed w pending exited q).workers) (sym named)
              ∙ finish_failed-gone w pending exited q h.distinct in
            let same = delete_missing i (finish_failed w pending exited q).workers gone in
            subst (λ ws. IsValid (record (finish_failed w pending exited q) { workers = ws }))
              (sym same) valid))
  where
    Exited : Pool → Type 0
    Exited r = IsValid (record r { workers = delete i r.workers })

pub on_message-valid :
    (i id : ℕ) (response : Response) (p : Pool) → IsValid p → IsValid (on_message i id response p)
unfolding on_message
on_message-valid i id response p h =
    option_cases IsValid (find i p.workers) (λ _. h)
      (λ w at.
        option_cases IsValid w.pending (λ _. h)
          (λ pending is_pending.
            if_cases IsValid (pending.request == id)
              (λ _. by_response w at pending is_pending response) (λ _. h)))
  where
    by_response :
        (w : Worker)
        → find i p.workers ≡ some w
        → (pending : Pending) → w.pending ≡ some pending
        → (r : Response)
        → IsValid (elim r [
          | result_of r ↦ finish_result w pending r p
          | error_of ↦ finish_failed w pending failed p
        ])
    by_response w at pending is_pending (result_of r) =
        finish_result-valid w pending r i p h at is_pending
    by_response w at pending is_pending error_of =
        finish_failed-valid w pending failed i p h at is_pending

pub on_stop-valid :
    (i id : ℕ) (failure : Failure) (p : Pool) → IsValid p → IsValid (on_stop i id failure p)
unfolding on_stop
on_stop-valid i id failure p h =
    option_cases IsValid (find i p.workers) (λ _. h)
      (λ w at.
        option_cases IsValid w.pending (λ _. h)
          (λ pending is_pending.
            if_cases IsValid (pending.request == id)
              (λ _. finish_failed-valid w pending failure i p h at is_pending) (λ _. h)))
