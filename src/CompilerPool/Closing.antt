-- ===== src/CompilerPool/Closing.antt =====
-- `close` of src/runtime/compiler-pool.ts, and the terminations that it waits for.
use kiro_fabric.Prelude.{
  Option-cases, inl, inr, ℕ, ◌+◌, true, false, ◌≡◌, refl, sym, ap, subst, ◌∙◌, List, [], ◌∷◌, none,
  some, length, length-append, arith, if_cases, option_cases,
}
use kiro_fabric.CompilerPool.{
  Worker, Retiring, Pool, pool_closed, find, update, delete, terminate, retire, fail_pending,
  finish_failed, close_workers, close, without, due_at, on_terminated,
}
use kiro_fabric.CompilerPool.Cache.{sum_chars}
use kiro_fabric.CompilerPool.Workers.{busy, delete_missing, IsDistinct}
use kiro_fabric.CompilerPool.Invariant.{idle_count, due_count, IsValid}
use kiro_fabric.CompilerPool.Events.{fail_pending-valid, terminate-settled}

-- A closed pool without its cache.
emptied :
    (p : Pool) → IsValid p → IsValid (record p { is_closed = true; cache = []; cached_chars = 0 })
unfolding sum_chars
emptied p h = record {
  few = h.few;
  balanced = h.balanced;
  settled = h.settled;
  waits = h.waits;
  distinct = h.distinct;
  below = h.below;
  cache = record { few = omega arith; counted = refl; within = omega arith };
}

workers-terminate : (i : ℕ) (p : Pool) → (terminate i p).workers ≡ delete i p.workers
unfolding terminate
workers-terminate i p =
    option_cases (λ (q : Pool). q.workers ≡ delete i p.workers) (find i p.workers)
      (λ gone. sym (delete_missing i p.workers gone)) (λ w at. refl)

delete_first : (w : Worker) (ws : List Worker) → delete w.worker (w ∷ ws) ≡ ws
unfolding delete
delete_first w ws = ground arith

update_first : (v w : Worker) (ws : List Worker) → v.worker ≡ w.worker → update v (w ∷ ws) ≡ v ∷ ws
unfolding update
update_first v w ws h = ground (arith, h)

-- The first of the workers leaves.
first-leaves :
    (w : Worker) (ws : List Worker) (p : Pool)
    → p.workers ≡ w ∷ ws
    → IsDistinct (w ∷ ws)
    → (terminate w.worker (fail_pending w pool_closed p)).workers ≡ ws
unfolding finish_failed retire
first-leaves w ws p at distinct =
    option_cases (λ (q : Pool). (terminate w.worker q).workers ≡ ws) w.pending
      (λ _. workers-terminate w.worker p ∙ ap (delete w.worker) at ∙ delete_first w ws)
      (λ pending _.
        let v : Worker = record w { pending = none } in
        workers-terminate w.worker _
        ∙ ap (delete w.worker) (
            workers-terminate w.worker _
            ∙ ap (λ us. delete w.worker (update v us)) at
            ∙ ap (delete w.worker) (update_first v w ws refl)
            ∙ delete_first v ws)
        ∙ delete_missing w.worker ws distinct.0)

close_workers-valid :
    (ws : List Worker) (p : Pool)
    → IsValid p
    → p.workers ≡ ws
    → IsValid (close_workers ws p) × ((close_workers ws p).workers ≡ [])
unfolding close_workers find
close_workers-valid [] p h at = (h, at)
close_workers-valid (w ∷ ws) p h at =
    let found : find w.worker p.workers ≡ some w = ap (find w.worker) at ∙ ground (arith) in
    let f = fail_pending-valid w pool_closed w.worker p h found in
    close_workers-valid ws _ (terminate-settled w.worker _ f.0 f.1)
      (first-leaves w ws p at (subst IsDistinct at h.distinct))

pub close-valid : (p : Pool) → IsValid p → IsValid (close p)
unfolding close
close-valid p h =
    if_cases IsValid p.is_closed (λ _. emptied p h)
      (λ _. (close_workers-valid p.workers _ (emptied p h) refl).0)

-- The same answers, requests and state of the pool.
record Same (p q : Pool) : Type 0 where
  answers : q.answers ≡ p.answers
  next_id : q.next_id ≡ p.next_id
  is_closed : q.is_closed ≡ p.is_closed

same : (p : Pool) → Same p p
same p = record { answers = refl; next_id = refl; is_closed = refl }

Same-trans : (p q r : Pool) → Same p q → Same q r → Same p r
Same-trans p q r h k = record {
  answers = k.answers ∙ h.answers;
  next_id = k.next_id ∙ h.next_id;
  is_closed = k.is_closed ∙ h.is_closed;
}

terminate-Same : (i : ℕ) (p : Pool) → Same p (terminate i p)
unfolding terminate
terminate-Same i p =
    option_cases (Same p) (find i p.workers)
      (λ _. record { answers = refl; next_id = refl; is_closed = refl })
      (λ w _. record { answers = refl; next_id = refl; is_closed = refl })

-- To fail a pending request gives no answer at once.
fail_pending-Same : (w : Worker) (p : Pool) → Same p (fail_pending w pool_closed p)
unfolding finish_failed retire
fail_pending-Same w p =
    option_cases (Same p) w.pending (λ _. same p)
      (λ pending _.
        let begun = terminate-Same w.worker _ in
        record { answers = begun.answers; next_id = begun.next_id; is_closed = begun.is_closed })

close_workers-Same : (ws : List Worker) (p : Pool) → Same p (close_workers ws p)
unfolding close_workers
close_workers-Same [] p = same p
close_workers-Same (w ∷ ws) p = Same-trans p _ _ (fail_pending-Same w p) (
    Same-trans _ _ _ (terminate-Same w.worker (fail_pending w pool_closed p))
      (close_workers-Same ws _))

due_taken :
    (i : ℕ) (rs : List Retiring) → length (due_at i rs) + due_count (without i rs) ≡ due_count rs
unfolding due_at without due_count
due_taken i [] = refl
due_taken i (r ∷ rs) = ground (arith, due_taken i rs)

pub on_terminated-valid : (i : ℕ) (p : Pool) → IsValid p → IsValid (on_terminated i p)
unfolding on_terminated
on_terminated-valid i p h = record {
  few = h.few;
  balanced = h.balanced;
  settled =
      omega
        (arith, h.settled, due_taken i p.retiring, length-append p.answers (due_at i p.retiring));
  waits = h.waits;
  distinct = h.distinct;
  below = h.below;
  cache = h.cache;
}

-- Terminations that end one after another.
unfoldable pub terminations : List ℕ → Pool → Pool
terminations [] p = p
terminations (i ∷ is) p = terminations is (on_terminated i p)

abbrev pub retiring_workers : List Retiring → List ℕ
retiring_workers [] = []
retiring_workers (r ∷ rs) = r.worker ∷ retiring_workers rs

terminations-valid :
    (order : List ℕ) (p : Pool)
    → IsValid p
    → p.workers ≡ []
    → IsValid (terminations order p)
      × ((terminations order p).workers ≡ [])
      × ((terminations order p).next_id ≡ p.next_id)
unfolding terminations on_terminated
terminations-valid [] p h empty = (h, empty, refl)
terminations-valid (i ∷ is) p h empty =
    terminations-valid is (on_terminated i p) (on_terminated-valid i p h) empty

terminations-end :
    (rs : List Retiring) (p : Pool)
    → p.retiring ≡ rs
    → (terminations (retiring_workers rs) p).retiring ≡ []
unfolding terminations on_terminated without
terminations-end [] p at = at
terminations-end (r ∷ rs) p at =
    terminations-end rs (on_terminated r.worker p) (ap (without r.worker) at ∙ ground (arith))

-- What `close` does: no worker is left, no answer is given at once, and when all the terminations
-- have ended, which they can, every request that was dispatched has its answer.
pub record Closed (p q : Pool) : Type 0 where
  pub shut : q.is_closed ≡ true
  pub no_worker : q.workers ≡ []
  pub no_idle : q.idle ≡ none
  pub unanswered : q.answers ≡ p.answers
  pub dispatched : q.next_id ≡ p.next_id
  pub ends : (terminations (retiring_workers q.retiring) q).retiring ≡ []
  pub answered :
      (order : List ℕ)
      → (terminations order q).retiring ≡ []
      → length (terminations order q).answers ≡ p.next_id

pub close-Closed : (p : Pool) → IsValid p → p.is_closed ≡ false → Closed p (close p)
unfolding close busy due_count
close-Closed p h opened =
    if_cases (Closed p) p.is_closed (λ shut. absurd (ground (arith, shut, opened)))
      (λ _.
        let start : Pool = record p { is_closed = true; cache = []; cached_chars = 0 } in
        let q = close_workers p.workers start in
        let (valid, empty) = close_workers-valid p.workers start (emptied p h) refl in
        let kept = close_workers-Same p.workers start in
        record {
          shut = kept.is_closed;
          no_worker = empty;
          no_idle = elim (Option-cases q.idle) [
            | inl none_left ↦ none_left
            | inr (i, idle) ↦
                absurd (omega (arith, valid.balanced, ap length empty, ap idle_count idle))
          ];
          unanswered = kept.answers;
          dispatched = kept.next_id;
          ends = terminations-end q.retiring q refl;
          answered = λ order ended.
              let (settled, gone, requests) = terminations-valid order q valid empty in
              omega
                (arith, settled.settled, ap due_count ended, ap busy gone, requests, kept.next_id);
        })
