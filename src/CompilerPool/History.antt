-- ===== src/CompilerPool/History.antt =====
-- Histories of a pool of src/runtime/compiler-pool.ts.
use kiro_fabric.Prelude.{
  ℕ, false, ◌≡◌, refl, ◌||◌, ltb, Option, some, Text, arith, if_cases, subst, some-injective,
}
use kiro_fabric.CompilerPool.{
  Pool, Failure, Response, Request, make_pool, check, close, on_message, on_error, on_exit, on_stop,
  on_terminated, on_idle_timer,
}
use kiro_fabric.CompilerPool.Cache.{sum_chars}
use kiro_fabric.CompilerPool.Workers.{busy}
use kiro_fabric.CompilerPool.Invariant.{IsValid, due_count}
use kiro_fabric.CompilerPool.Events.{
  on_message-valid, on_error-valid, on_exit-valid, on_stop-valid, on_idle_timer-valid,
}
use kiro_fabric.CompilerPool.Requests.{check-valid}
use kiro_fabric.CompilerPool.Closing.{Closed, close-valid, close-Closed, on_terminated-valid}

module _ (digest : Text → Text) where
  -- The pools that calls and events lead to, in any order.
  pub data Reach (p : Pool) : Pool → Type 0 where
    here : Reach p p
    checks : {q : Pool} (r : Request) → Reach p q → Reach p (check digest r q).0
    closes : {q : Pool} → Reach p q → Reach p (close q)
    replies : {q : Pool} (i id : ℕ) (r : Response) → Reach p q → Reach p (on_message i id r q)
    errs : {q : Pool} (i : ℕ) → Reach p q → Reach p (on_error i q)
    exits : {q : Pool} (i : ℕ) → Reach p q → Reach p (on_exit i q)
    stops : {q : Pool} (i id : ℕ) (failure : Failure) → Reach p q → Reach p (on_stop i id failure q)
    terminates : {q : Pool} (i : ℕ) → Reach p q → Reach p (on_terminated i q)
    retires : {q : Pool} → Reach p q → Reach p (on_idle_timer q)

  Reach-valid : {p q : Pool} → IsValid p → Reach p q → IsValid q
  Reach-valid h here = h
  Reach-valid h (checks {q} r x) = check-valid digest r q (Reach-valid h x)
  Reach-valid h (closes {q} x) = close-valid q (Reach-valid h x)
  Reach-valid h (replies {q} i id r x) = on_message-valid i id r q (Reach-valid h x)
  Reach-valid h (errs {q} i x) = on_error-valid i q (Reach-valid h x)
  Reach-valid h (exits {q} i x) = on_exit-valid i q (Reach-valid h x)
  Reach-valid h (stops {q} i id failure x) = on_stop-valid i id failure q (Reach-valid h x)
  Reach-valid h (terminates {q} i x) = on_terminated-valid i q (Reach-valid h x)
  Reach-valid h (retires {q} x) = on_idle_timer-valid q (Reach-valid h x)

  new_pool-valid : (max_workers : ℕ) (p : Pool) → make_pool max_workers ≡ some p → IsValid p
  unfolding make_pool sum_chars busy due_count
  new_pool-valid max_workers =
      if_cases Right (ltb max_workers 1 || ltb 64 max_workers) (λ _ p h. absurd (ground (arith, h)))
        (λ _ p h. subst IsValid (some-injective h) (record {
          few = omega arith;
          balanced = omega arith;
          settled = omega arith;
          waits = tt;
          distinct = tt;
          below = tt;
          cache = record { few = omega arith; counted = refl; within = omega arith };
        }))
    where
      Right : Option Pool → Type 0
      Right m = (p : Pool) → m ≡ some p → IsValid p

  -- From a new pool, after any calls of check and close and any reports of workers, timers and
  -- signals, there are at most as many workers as the maximum; each of them has one pending
  -- request, but for the single idle one, which may be used again; every dispatched request is
  -- pending at a worker, waits for the end of the termination of its worker, or was answered, in
  -- number; and the cache counts its characters and keeps its limits.
  pub Reach-Accounts :
      (max_workers : ℕ) (p q : Pool) → make_pool max_workers ≡ some p → Reach p q → IsValid q
  Reach-Accounts max_workers p q h r = Reach-valid (new_pool-valid max_workers p h) r

  -- Closing a pool that is open, at any point of a history from a new pool, closes it, leaves no
  -- worker and no idle one, and answers nothing itself. The terminations that are under way then
  -- can all end, and when they have ended, in whatever order, as many answers have been given as
  -- requests were dispatched.
  pub Reach-close :
      (max_workers : ℕ) (p q : Pool)
      → make_pool max_workers ≡ some p
      → Reach p q
      → q.is_closed ≡ false
      → Closed q (close q)
  Reach-close max_workers p q h r opened =
      close-Closed q (Reach-Accounts max_workers p q h r) opened
