-- ===== src/Trace.antt =====
-- src/trace/trace-writer.ts: a bounded buffer of lines, and the trace file that it is flushed to.
pub mod Ring
pub mod Writer
mod Tests
