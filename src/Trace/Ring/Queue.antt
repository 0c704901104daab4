-- ===== src/Trace/Ring/Queue.antt =====
-- The queue that the circular buffer of src/trace/trace-writer.ts stands for.
use kiro_fabric.Prelude.{
  ℕ, ◌+◌, ◌≤◌, ◌<◌, ◌||◌, ◌≡◌, ltb, leb, if◌then◌else◌, List, [], ◌∷◌, ◌++◌, Text, length, arith,
  Bool-cases, inl, inr,
}

module _ (utf8_bytes : Text → ℕ) where
  unfoldable pub queue_bytes : List Text → ℕ
  queue_bytes [] = 0
  queue_bytes (x ∷ q) = utf8_bytes x + queue_bytes q

  pub queue_bytes-append :
      (q : List Text) (x : Text) → queue_bytes (q ++ x ∷ []) ≡ queue_bytes q + utf8_bytes x
  unfolding queue_bytes
  queue_bytes-append [] x = omega arith
  queue_bytes-append (y ∷ q) x = omega (arith, queue_bytes-append q x)

  -- A bounded queue: what has to go from the front before a line of `line_bytes` is added.
  unfoldable pub trim : ℕ → ℕ → List Text → ℕ → List Text × ℕ
  trim capacity max_bytes [] line_bytes = ([], 0)
  trim capacity max_bytes (x ∷ q) line_bytes =
      let rest = trim capacity max_bytes q line_bytes in
      if leb capacity (length (x ∷ q)) || ltb max_bytes (queue_bytes (x ∷ q) + line_bytes)
      then (rest.0, rest.1 + 1)
      else (x ∷ q, 0)

  -- Adding a line: one that alone is over the budget is dropped.
  unfoldable pub enqueue : ℕ → ℕ → List Text → Text → List Text × ℕ
  enqueue capacity max_bytes q line =
      let room = trim capacity max_bytes q (utf8_bytes line) in
      if ltb max_bytes (utf8_bytes line) then (q, 1) else (room.0 ++ line ∷ [], room.1)

  pub trim_fits :
      (capacity max_bytes : ℕ) (q : List Text) (line_bytes : ℕ)
      → 0 < capacity
      → line_bytes ≤ max_bytes
      → (length (trim capacity max_bytes q line_bytes).0 < capacity)
        × (queue_bytes (trim capacity max_bytes q line_bytes).0 + line_bytes ≤ max_bytes)
  unfolding trim queue_bytes
  trim_fits capacity max_bytes [] n p h = (p, omega arith)
  trim_fits capacity max_bytes (x ∷ q) n p h =
      elim (Bool-cases (leb capacity (length (x ∷ q)) || ltb max_bytes (queue_bytes (x ∷ q) + n))) [
        | inl full ↦ rw full (trim_fits capacity max_bytes q n p h)
        | inr free ↦ rw free (ground (arith, free), ground (arith, free))
      ]
