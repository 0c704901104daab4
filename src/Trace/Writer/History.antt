-- ===== src/Trace/Writer/History.antt =====
-- Histories of a writer of src/trace/trace-writer.ts.
use kiro_fabric.Prelude.{
  ℕ, ◌+◌, ◌≤◌, Bool, false, ◌≡◌, refl, ap, subst, ◌||◌, not, ltb, if◌then◌else◌, List, [], ◌∷◌,
  length, Text, arith, Outcome, ◌*◌, ok, err, bind_cases, throw_if, ok-injective,
}
use kiro_fabric.Trace.Ring.{new_ring}
use kiro_fabric.Trace.Ring.Queue.{queue_bytes}
use kiro_fabric.Trace.Writer.{
  OptionValue, absent, invalid, number, TraceError, not_absolute, marker_too_long, not_opened,
  bounded_option, TraceWriterOptions, TraceWriter, WriteResult, make_writer, write, flush, close,
}
use kiro_fabric.Trace.Writer.Keeps.{Keeps, count, write-Keeps}
use kiro_fabric.Trace.Writer.Flush.{flush-Keeps, close-Keeps}

pub data WriterCall : Type 0 where
  writes : Text → WriterCall
  flushes : List WriteResult → Bool → WriterCall
  closes : List WriteResult → Bool → WriterCall

module _ (encode : Text → List ℕ) (marker_line : ℕ → Text) where
  -- The calls in turn.
  unfoldable pub writer_run : List WriterCall → TraceWriter → TraceWriter
  writer_run [] w = w
  writer_run (writes line ∷ calls) w = writer_run calls (write encode marker_line w line)
  writer_run (flushes results is_synced ∷ calls) w =
      writer_run calls (flush encode marker_line w results is_synced)
  writer_run (closes results is_synced ∷ calls) w =
      writer_run calls (close encode marker_line w results is_synced)

  -- How many lines the calls write while the writer is enabled and open.
  unfoldable pub lines_written : List WriterCall → TraceWriter → ℕ
  lines_written [] w = 0
  lines_written (writes line ∷ calls) w =
      (if w.is_disabled || w.is_closed then 0 else 1)
      + lines_written calls (write encode marker_line w line)
  lines_written (flushes results is_synced ∷ calls) w =
      lines_written calls (flush encode marker_line w results is_synced)
  lines_written (closes results is_synced ∷ calls) w =
      lines_written calls (close encode marker_line w results is_synced)

  run-Keeps :
      (n : ℕ) (calls : List WriterCall) (w : TraceWriter)
      → Keeps encode marker_line n w
      → Keeps encode marker_line (n + lines_written calls w) (writer_run calls w)
  unfolding writer_run lines_written
  run-Keeps n [] w k = let e : n + 0 ≡ n = omega arith in rw e k
  run-Keeps n (writes line ∷ calls) w k =
      let e : count encode marker_line w n + lines_written calls (write encode marker_line w line)
          ≡ n
            + ((if w.is_disabled || w.is_closed then 0 else 1)
                + lines_written calls (write encode marker_line w line)) =
        ground arith in
      subst (λ m. Keeps encode marker_line m (writer_run calls (write encode marker_line w line))) e
        (run-Keeps (count encode marker_line w n) calls (write encode marker_line w line)
          (write-Keeps encode marker_line n w line k))
  run-Keeps n (flushes results is_synced ∷ calls) w k =
      run-Keeps n calls (flush encode marker_line w results is_synced)
        (flush-Keeps encode marker_line n w results is_synced k)
  run-Keeps n (closes results is_synced ∷ calls) w k =
      run-Keeps n calls (close encode marker_line w results is_synced)
        (close-Keeps encode marker_line n w results is_synced k)

bounded_option_least :
    (o : OptionValue) (fallback minimum maximum n : ℕ)
    → minimum ≤ fallback
    → bounded_option o fallback minimum maximum ≡ ok n
    → minimum ≤ n
unfolding bounded_option
bounded_option_least absent fallback minimum maximum n le h = ground (arith, h)
bounded_option_least invalid fallback minimum maximum n le h = absurd (ground (arith, h))
bounded_option_least (number k) fallback minimum maximum n le h = ground (arith, h)

-- A new writer.
pub record IsNew (marker : ℕ → List ℕ) (w : TraceWriter) : Type 0 where
  pub capacity : ℕ
  pub max_bytes : ℕ
  pub some_room : 1 ≤ capacity
  pub ring : w.ring ≡ new_ring capacity max_bytes
  pub file : w.file ≡ []
  pub written : w.written_bytes ≡ 0
  pub dropped : w.dropped ≡ 0
  pub enabled : w.is_disabled ≡ false

make_writer-IsNew :
    (marker : ℕ → List ℕ) (o : TraceWriterOptions) (is_absolute is_opened : Bool) (w : TraceWriter)
    → make_writer marker o is_absolute is_opened ≡ ok w
    → IsNew marker w
unfolding make_writer
make_writer-IsNew marker o is_absolute is_opened w h =
    (bind_cases Right (throw_if (not is_absolute) not_absolute) bad λ u p.
        bind_cases Right (bounded_option o.max_buffer_lines 4_096 1 1_048_576) bad λ lines at.
          bind_cases Right
            (bounded_option o.max_buffer_bytes (4 * 1024 * 1024) 1 (256 * 1024 * 1024)) bad
            λ bytes p.
              bind_cases Right
                (bounded_option o.max_file_bytes (64 * 1024 * 1024) 1 (1024 * 1024 * 1024)) bad
                λ file_bytes p.
                  bind_cases Right
                    (throw_if (ltb file_bytes (length (marker file_bytes))) marker_too_long) bad
                    λ u p.
                      bind_cases Right (bounded_option o.max_line_bytes (8 * 1024) 2 (1024 * 1024))
                        bad
                        λ line_bytes p.
                          bind_cases Right (bounded_option o.flush_interval_ms 250 1 60_000) bad
                            λ interval p.
                              bind_cases Right (throw_if (not is_opened) not_opened) bad λ u p v e.
                                subst (IsNew marker) (ok-injective e) (record {
                                  capacity = lines;
                                  max_bytes = bytes;
                                  some_room =
                                      bounded_option_least o.max_buffer_lines 4_096 1 1_048_576
                                        lines (omega arith) at;
                                  ring = refl;
                                  file = refl;
                                  written = refl;
                                  dropped = refl;
                                  enabled = refl;
                                }))
      w h
  where
    Right : Outcome TraceError TraceWriter → Type 0
    Right m = (w : TraceWriter) → m ≡ ok w → IsNew marker w

    bad : (e : TraceError) → Right (err e)
    bad e w h = absurd (ground (arith, h))

new_writer-Keeps :
    (encode : Text → List ℕ) (marker_line : ℕ → Text) (marker : ℕ → List ℕ) (w : TraceWriter)
    → IsNew marker w
    → Keeps encode marker_line 0 w
unfolding queue_bytes
new_writer-Keeps encode marker_line marker w h = record {
  queue = [];
  buffered = rw h.ring (record {
    counted = refl;
    inside = h.some_room;
    few = omega arith;
    summed = refl;
    within = omega arith;
    held = λ i lt. absurd (omega (arith, lt));
  });
  whole = tt;
  chunks = [];
  chunks_whole = tt;
  counted = ground (arith, h.dropped);
  measured = ground (arith, h.written, ap length h.file);
  bounded = omega (arith, h.written);
  tail = [];
  file = h.file;
  exact = λ e. refl;
  idle = λ e. refl;
}

-- After any calls of a writer whose options were accepted, each line written while it was enabled
-- and open is counted as dropped, waits in the buffer, or was flushed; the file begins with the
-- flushed lines and holds nothing else while tracing is enabled, its length is the count of bytes
-- written and at most its limit, every buffered or flushed line ends with a newline within the
-- limit of a line, and a disabled writer has an empty buffer.
pub make_writer_run-Keeps :
    (encode : Text → List ℕ) (marker_line : ℕ → Text) (marker : ℕ → List ℕ) (o : TraceWriterOptions)
    (is_absolute is_opened : Bool) (w : TraceWriter) (calls : List WriterCall)
    → make_writer marker o is_absolute is_opened ≡ ok w
    → Keeps encode marker_line
        (lines_written encode marker_line calls w)
        (writer_run encode marker_line calls w)
make_writer_run-Keeps encode marker_line marker o is_absolute is_opened w calls h =
    let e : 0 + lines_written encode marker_line calls w
        ≡ lines_written encode marker_line calls w =
      omega arith in
    rw e at (
      run-Keeps encode marker_line 0 calls w (
        new_writer-Keeps encode marker_line marker w
          (make_writer-IsNew marker o is_absolute is_opened w h)))
