-- ===== src/Trace/Writer/Lines.antt =====
-- What src/trace/trace-writer.ts puts into its buffer: whole lines within the limit.
use kiro_fabric.Prelude.{
  ℕ, ◌+◌, ◌≤◌, ◌≡◌, refl, subst, ◌||◌, ltb, leb, List, [], ◌∷◌, ◌++◌, some, length, Text, arith,
  All, Bool-cases, inl, inr, length-append,
}
use kiro_fabric.Trace.Ring.Queue.{queue_bytes, trim, enqueue}
use kiro_fabric.Trace.Writer.{
  newline, first_fitting, truncated_line, bounded_line, line_truncated, short_marker, empty_object,
}

module _ (encode : Text → List ℕ) (marker_line : ℕ → Text) where
  -- A line that ends with a newline and keeps the limit of bytes.
  pub record IsLine (maximum : ℕ) (line : Text) : Type 0 where
    pub content : Text
    pub ended : line ≡ content ++ newline ∷ []
    pub short : length (encode line) ≤ maximum

  first_fitting-IsLine :
      (cs : List Text) (maximum : ℕ) (line : Text)
      → first_fitting encode marker_line cs maximum ≡ some line
      → IsLine maximum line
  unfolding first_fitting
  first_fitting-IsLine [] maximum line h = absurd (ground (arith, h))
  first_fitting-IsLine (c ∷ cs) maximum line h =
      elim (Bool-cases (leb (length (encode (c ++ newline ∷ []))) maximum)) [
        | inl fits ↦
            subst (IsLine maximum) (ground (arith, h, fits))
              (record { content = c; ended = refl; short = ground (arith, fits) })
        | inr no_room ↦ first_fitting-IsLine cs maximum line (ground (arith, h, no_room))
      ]

  pub bounded_line-IsLine :
      (line : Text) (maximum : ℕ) (bounded : Text)
      → bounded_line encode marker_line line maximum ≡ some bounded
      → IsLine maximum bounded
  unfolding bounded_line truncated_line
  bounded_line-IsLine line maximum bounded h =
      elim (Bool-cases (leb (length (encode (line ++ newline ∷ []))) maximum)) [
        | inl fits ↦
            subst (IsLine maximum) (ground (arith, h, fits))
              (record { content = line; ended = refl; short = ground (arith, fits) })
        | inr no_room ↦
            first_fitting-IsLine
              (marker_line (length (encode (line ++ newline ∷ [])))
                ∷ line_truncated
                ∷ short_marker
                ∷ empty_object
                ∷ [])
              maximum bounded (ground (arith, h, no_room))
      ]

-- What a queue loses and what it keeps.
module _ (bytes_of : Text → ℕ) (P : Text → Type 0) where
  All-trim :
      (capacity max_bytes : ℕ) (q : List Text) (n : ℕ)
      → All P q
      → All P (trim bytes_of capacity max_bytes q n).0
  unfolding trim
  All-trim capacity max_bytes [] n h = tt
  All-trim capacity max_bytes (x ∷ q) n h =
      elim (Bool-cases
        (leb capacity (length (x ∷ q)) || ltb max_bytes (queue_bytes bytes_of (x ∷ q) + n))) [
          | inl full ↦ rw full (All-trim capacity max_bytes q n h.1)
          | inr free ↦ rw free h
        ]

  All-snoc : (q : List Text) (x : Text) → All P q → P x → All P (q ++ x ∷ [])
  All-snoc [] x h k = (k, tt)
  All-snoc (y ∷ q) x h k = (h.0, All-snoc q x h.1 k)

  pub All-enqueue :
      (capacity max_bytes : ℕ) (q : List Text) (x : Text)
      → All P q
      → P x
      → All P (enqueue bytes_of capacity max_bytes q x).0
  unfolding enqueue
  All-enqueue capacity max_bytes q x h k = elim (Bool-cases (ltb max_bytes (bytes_of x))) [
    | inl long ↦ rw long h
    | inr short ↦ rw short (All-snoc _ x (All-trim capacity max_bytes q (bytes_of x) h) k)
  ]

module _ (bytes_of : Text → ℕ) where
  trim_counts :
      (capacity max_bytes : ℕ) (q : List Text) (n : ℕ)
      → length (trim bytes_of capacity max_bytes q n).0 + (trim bytes_of capacity max_bytes q n).1
        ≡ length q
  unfolding trim
  trim_counts capacity max_bytes [] n = refl
  trim_counts capacity max_bytes (x ∷ q) n = ground (arith, trim_counts capacity max_bytes q n)

  -- Every line that is added is in the queue or counted as dropped.
  pub enqueue_counts :
      (capacity max_bytes : ℕ) (q : List Text) (x : Text)
      → length (enqueue bytes_of capacity max_bytes q x).0
          + (enqueue bytes_of capacity max_bytes q x).1
        ≡ length q + 1
  unfolding enqueue
  enqueue_counts capacity max_bytes q x = ground (
    arith,
    trim_counts capacity max_bytes q (bytes_of x),
    length-append (trim bytes_of capacity max_bytes q (bytes_of x)).0 (x ∷ []),
  )
