-- ===== src/Trace/Ring/Refines.antt =====
-- LineRing of src/trace/trace-writer.ts is a queue of lines that is bounded in number and in bytes.
use kiro_fabric.Prelude.{ℕ, ◌≤◌, ◌≡◌, refl, ap, subst, ◌∙◌, List, [], ◌∷◌, Text, arith}
use kiro_fabric.Trace.Ring.{LineRing, new_ring, drain, push}
use kiro_fabric.Trace.Ring.Queue.{queue_bytes, enqueue}
use kiro_fabric.Trace.Ring.Represents.{Represents, push-Pushed, drain-Drained, push_same}

module _ (utf8_bytes : Text → ℕ) where
  -- The calls of the buffer, and what they return.
  pub data RingCall : Type 0 where
    pushes : Text → RingCall
    drains : RingCall

  pub data Output : Type 0 where
    dropped : ℕ → Output
    drained : List Text → Output

  pub ring_run : List RingCall → LineRing → List Output
  ring_run [] r = []
  ring_run (pushes line ∷ calls) r =
      dropped (push utf8_bytes r line).1 ∷ ring_run calls (push utf8_bytes r line).0
  ring_run (drains ∷ calls) r = drained (drain r).1 ∷ ring_run calls (drain r).0

  pub queue_run : ℕ → ℕ → List RingCall → List Text → List Output
  queue_run capacity max_bytes [] q = []
  queue_run capacity max_bytes (pushes line ∷ calls) q =
      dropped (enqueue utf8_bytes capacity max_bytes q line).1
      ∷ queue_run capacity max_bytes calls (enqueue utf8_bytes capacity max_bytes q line).0
  queue_run capacity max_bytes (drains ∷ calls) q =
      drained q ∷ queue_run capacity max_bytes calls []

  ring_run-queue_run :
      (capacity max_bytes : ℕ) (calls : List RingCall) (r : LineRing) (q : List Text)
      → r.capacity ≡ capacity
      → r.max_bytes ≡ max_bytes
      → Represents utf8_bytes r q
      → ring_run calls r ≡ queue_run capacity max_bytes calls q
  unfolding ring_run queue_run drain
  ring_run-queue_run capacity max_bytes [] r q c m h = refl
  ring_run-queue_run capacity max_bytes (pushes line ∷ calls) r q c m h =
      let step = push-Pushed utf8_bytes r q line h in
      let same = push_same utf8_bytes r line in
      let line_in : enqueue utf8_bytes r.capacity r.max_bytes q line
          ≡ enqueue utf8_bytes capacity max_bytes q line =
        ap (λ k. enqueue utf8_bytes k r.max_bytes q line) c
        ∙ ap (λ k. enqueue utf8_bytes capacity k q line) m in
      ground (
        arith,
        step.dropped,
        line_in,
        ring_run-queue_run capacity max_bytes calls (push utf8_bytes r line).0
            (enqueue utf8_bytes capacity max_bytes q line).0 (same.0 ∙ c) (same.1 ∙ m)
            (subst (Represents utf8_bytes (push utf8_bytes r line).0) (ap (λ x. x.0) line_in)
              step.queue),
      )
  ring_run-queue_run capacity max_bytes (drains ∷ calls) r q c m h =
      let step = drain-Drained utf8_bytes r q h in
      ground (
        arith,
        step.lines,
        ring_run-queue_run capacity max_bytes calls (drain r).0 [] c m step.emptied,
      )

  -- For a buffer with room for at least one line, any sequence of pushes and drains on the
  -- circular buffer returns the same drop counts and the same drained lines as on a queue that
  -- drops its oldest lines while it is full or has too many bytes.
  pub new_ring_run-queue_run :
      (capacity max_bytes : ℕ) (calls : List RingCall)
      → 1 ≤ capacity
      → ring_run calls (new_ring capacity max_bytes) ≡ queue_run capacity max_bytes calls []
  unfolding queue_bytes
  new_ring_run-queue_run capacity max_bytes calls some_room =
      ring_run-queue_run capacity max_bytes calls (new_ring capacity max_bytes) [] refl refl
        (record {
          counted = refl;
          inside = some_room;
          few = omega arith;
          summed = refl;
          within = omega arith;
          held = λ i lt. absurd (omega (arith, lt));
        })
