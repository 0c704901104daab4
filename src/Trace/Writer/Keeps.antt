-- ===== src/Trace/Writer/Keeps.antt =====
-- The file of src/trace/trace-writer.ts keeps its limit, consists of whole lines, and no line is lost
-- without being counted.
use kiro_fabric.Prelude.{
  ℕ, ◌+◌, ◌≤◌, Bool, true, false, ◌≡◌, refl, sym, ap, ◌∙◌, ◌||◌, ltb, if◌then◌else◌, List, [], ◌∷◌,
  ◌++◌, none, some, length, length-append, length-take, take-append-drop, take, drop, Text, arith,
  All, Bool-cases, inl, inr, if_cases, option_cases,
}
use mathlib.Core.List.{append-nil, append_assoc}
use kiro_fabric.Trace.Ring.{push}
use kiro_fabric.Trace.Ring.Queue.{enqueue}
use kiro_fabric.Trace.Ring.Represents.{Represents, push-Pushed}
use kiro_fabric.Trace.Writer.{
  TraceWriter, WriteResult, throws, invalid_count, accepts, concat, write_buffer, bounded_line,
  write, utf8_bytes,
}
use kiro_fabric.Trace.Writer.Lines.{IsLine, bounded_line-IsLine, All-enqueue, enqueue_counts}

-- A write of bytes: a prefix of them is appended and counted, all of them if it succeeds.
pub record Appended (bytes : List ℕ) (w : TraceWriter) (x : TraceWriter × Bool) : Type 0 where
  pub added : List ℕ
  pub file :
      x.0 ≡ record w { file = w.file ++ added; written_bytes = w.written_bytes + length added }
  pub shorter : length added ≤ length bytes
  pub complete : x.1 ≡ true → added ≡ bytes

nothing : (bytes : List ℕ) (w : TraceWriter) → Appended bytes w (w, false)
nothing bytes w = record {
  added = [];
  file = ground (arith, append-nil w.file);
  shorter = omega arith;
  complete = λ h. absurd (ground (arith, h));
}

pub all_done : (w : TraceWriter) → Appended [] w (w, true)
all_done w = record {
  added = [];
  file = ground (arith, append-nil w.file);
  shorter = omega arith;
  complete = λ h. refl;
}

taken : (n : ℕ) (bytes : List ℕ) → n ≤ length bytes → length (take n bytes) ≡ n
taken n bytes h = omega (arith, length-take n bytes)

abbrev after : ℕ → List ℕ → TraceWriter → TraceWriter
after n bytes w = record w { file = w.file ++ take n bytes; written_bytes = w.written_bytes + n }

goes_on :
    (n : ℕ) (bytes : List ℕ) (w : TraceWriter) {x : TraceWriter × Bool}
    → length (take n bytes) ≡ n
    → Appended (drop n bytes) (after n bytes w) x
    → Appended bytes w x
goes_on n bytes w whole rest = record {
  added = take n bytes ++ rest.added;
  file = ground (
    arith,
    rest.file,
    append_assoc w.file (take n bytes) rest.added,
    length-append (take n bytes) rest.added,
    whole,
  );
  shorter = omega (
    arith,
    length-append (take n bytes) rest.added,
    whole,
    rest.shorter,
    ap length (take-append-drop n bytes),
    length-append (take n bytes) (drop n bytes),
  );
  complete = λ h. ap (λ r. take n bytes ++ r) (rest.complete h) ∙ take-append-drop n bytes;
}

pub write_buffer-Appended :
    (results : List WriteResult) (bytes : List ℕ) (w : TraceWriter)
    → Appended bytes w (write_buffer results bytes w)
unfolding write_buffer
write_buffer-Appended [] [] w = all_done w
write_buffer-Appended [] (b ∷ bytes) w = nothing (b ∷ bytes) w
write_buffer-Appended (r ∷ results) [] w = all_done w
write_buffer-Appended (throws ∷ results) (b ∷ bytes) w = nothing (b ∷ bytes) w
write_buffer-Appended (invalid_count ∷ results) (b ∷ bytes) w = nothing (b ∷ bytes) w
write_buffer-Appended (accepts n ∷ results) (b ∷ bytes) w =
    if_cases (Appended (b ∷ bytes) w) (ltb n 1 || ltb (length (b ∷ bytes)) n)
      (λ _. nothing (b ∷ bytes) w)
      λ valid.
        goes_on n (b ∷ bytes) w (taken n (b ∷ bytes) (ground (arith, valid)))
          (write_buffer-Appended results (drop n (b ∷ bytes)) (after n (b ∷ bytes) w))

abbrev pub line_count : List (List Text) → ℕ
line_count [] = 0
line_count (c ∷ cs) = length c + line_count cs

pub line_count-append :
    (cs : List (List Text)) (c : List Text) → line_count (cs ++ c ∷ []) ≡ line_count cs + length c
line_count-append [] c = omega arith
line_count-append (d ∷ cs) c = omega (arith, line_count-append cs c)

module _ (encode : Text → List ℕ) (marker_line : ℕ → Text) where
  abbrev pub chunk_bytes : List (List Text) → List ℕ
  chunk_bytes [] = []
  chunk_bytes (c ∷ cs) = encode (concat c) ++ chunk_bytes cs

  pub chunk_bytes-append :
      (cs : List (List Text)) (c : List Text)
      → chunk_bytes (cs ++ c ∷ []) ≡ chunk_bytes cs ++ encode (concat c)
  chunk_bytes-append [] c = append-nil (encode (concat c))
  chunk_bytes-append (d ∷ cs) c =
      ap (λ r. encode (concat d) ++ r) (chunk_bytes-append cs c)
      ∙ sym (append_assoc (encode (concat d)) (chunk_bytes cs) (encode (concat c)))

  -- A writer to which `n` lines have been written.
  pub record Keeps (n : ℕ) (w : TraceWriter) : Type 0 where
    pub queue : List Text
    pub buffered : Represents (utf8_bytes encode marker_line) w.ring queue
    pub whole : All (IsLine encode marker_line w.max_line_bytes) queue
    pub chunks : List (List Text)
    pub chunks_whole : All (All (IsLine encode marker_line w.max_line_bytes)) chunks
    pub counted : n ≡ w.dropped + length queue + line_count chunks
    pub measured : w.written_bytes ≡ length w.file
    pub bounded : w.written_bytes ≤ w.max_file_bytes
    pub tail : List ℕ
    pub file : w.file ≡ chunk_bytes chunks ++ tail
    pub exact : w.is_disabled ≡ false → tail ≡ []
    pub idle : w.is_disabled ≡ true → queue ≡ []

  -- The count goes on while the writer is enabled and open.
  abbrev pub count : TraceWriter → ℕ → ℕ
  count w n = if w.is_disabled || w.is_closed then n else n + 1

  pub write-Keeps :
      (n : ℕ) (w : TraceWriter) (line : Text)
      → Keeps n w
      → Keeps (count w n) (write encode marker_line w line)
  unfolding write
  write-Keeps n w line k = elim (Bool-cases (w.is_disabled || w.is_closed)) [
    | inl off ↦ rw off k
    | inr live ↦ rw live (kept live)
  ]
    where
      kept :
          (w.is_disabled || w.is_closed) ≡ false
          → Keeps (n + 1) (elim (bounded_line encode marker_line line w.max_line_bytes) [
            | none ↦ record w { dropped = w.dropped + 1 }
            | some bounded ↦ record w {
              ring = (push (utf8_bytes encode marker_line) w.ring bounded).0;
              dropped = w.dropped + (push (utf8_bytes encode marker_line) w.ring bounded).1;
            }
          ])
      kept live =
          option_cases (Keeps (n + 1)) (bounded_line encode marker_line line w.max_line_bytes)
            (λ _. record {
              queue = k.queue;
              buffered = k.buffered;
              whole = k.whole;
              chunks = k.chunks;
              chunks_whole = k.chunks_whole;
              counted = omega (arith, k.counted);
              measured = k.measured;
              bounded = k.bounded;
              tail = k.tail;
              file = k.file;
              exact = k.exact;
              idle = k.idle;
            })
            λ bounded fits.
              let p =
                push-Pushed (utf8_bytes encode marker_line) w.ring k.queue bounded k.buffered in
              record {
                queue =
                    (enqueue (utf8_bytes encode marker_line) w.ring.capacity w.ring.max_bytes
                      k.queue bounded).0;
                buffered = p.queue;
                whole =
                    All-enqueue (utf8_bytes encode marker_line)
                      (IsLine encode marker_line w.max_line_bytes) w.ring.capacity w.ring.max_bytes
                      k.queue bounded k.whole
                      (bounded_line-IsLine encode marker_line line w.max_line_bytes bounded fits);
                chunks = k.chunks;
                chunks_whole = k.chunks_whole;
                counted = omega (
                  arith,
                  k.counted,
                  p.dropped,
                  enqueue_counts (utf8_bytes encode marker_line) w.ring.capacity w.ring.max_bytes
                      k.queue bounded,
                );
                measured = k.measured;
                bounded = k.bounded;
                tail = k.tail;
                file = k.file;
                exact = k.exact;
                idle = λ off. absurd (ground (arith, off, live));
              }
