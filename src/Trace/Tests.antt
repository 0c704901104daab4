-- ===== src/Trace/Tests.antt =====
-- A small trace of src/trace/trace-writer.ts.
use kiro_fabric.Prelude.{ℕ, true, false, ◌≡◌, refl, List, [], ◌∷◌, Text, arith, ok, length, ◌*◌}
use kiro_fabric.Trace.Ring.{new_ring}
use kiro_fabric.Trace.Ring.Refines.{
  RingCall, pushes, drains, ring_run, queue_run, new_ring_run-queue_run,
}
use kiro_fabric.Trace.Writer.{
  absent, number, TraceWriterOptions, TraceWriter, accepts, bounded_option, make_writer,
}
use kiro_fabric.Trace.Writer.Keeps.{Keeps}
use kiro_fabric.Trace.Writer.History.{
  WriterCall, writes, flushes, closes, writer_run, lines_written, make_writer_run-Keeps,
}

abbrev ring_calls : List (RingCall length)
ring_calls =
    pushes (1 ∷ 2 ∷ [])
    ∷ pushes (3 ∷ [])
    ∷ pushes (4 ∷ 5 ∷ [])
    ∷ drains
    ∷ pushes (6 ∷ [])
    ∷ drains
    ∷ []

new_ring_run-queue_run_example :
    ring_run length ring_calls (new_ring 2 4) ≡ queue_run length 2 4 ring_calls []
new_ring_run-queue_run_example = new_ring_run-queue_run length 2 4 ring_calls (omega arith)

abbrev trace_options : TraceWriterOptions
trace_options = record {
  max_buffer_lines = number 2;
  max_buffer_bytes = absent;
  flush_interval_ms = absent;
  max_file_bytes = number 10;
  max_line_bytes = number 8;
}

abbrev trace_marker : ℕ → List ℕ
trace_marker n = 33 ∷ 10 ∷ []

abbrev line_marker : ℕ → Text
line_marker n = 63 ∷ []

abbrev trace_writer : TraceWriter
trace_writer = record {
  ring = new_ring 2 (4 * 1024 * 1024);
  max_file_bytes = 10;
  max_line_bytes = 8;
  truncation_marker = 33 ∷ 10 ∷ [];
  file = [];
  written_bytes = 0;
  dropped = 0;
  is_disabled = false;
  is_closed = false;
}

made : make_writer trace_marker trace_options true true ≡ ok trace_writer
unfolding make_writer bounded_option
made = refl

abbrev trace_calls : List WriterCall
trace_calls =
    writes (97 ∷ [])
    ∷ writes (98 ∷ 99 ∷ [])
    ∷ flushes (accepts 2 ∷ accepts 3 ∷ []) true
    ∷ writes (97 ∷ 98 ∷ 99 ∷ 100 ∷ [])
    ∷ closes (accepts 2 ∷ []) true
    ∷ []

make_writer_run-Keeps_example :
    Keeps
      (λ t. t)
      line_marker
      (lines_written (λ t. t) line_marker trace_calls trace_writer)
      (writer_run (λ t. t) line_marker trace_calls trace_writer)
make_writer_run-Keeps_example =
    make_writer_run-Keeps (λ t. t) line_marker trace_marker trace_options true true trace_writer
      trace_calls made
