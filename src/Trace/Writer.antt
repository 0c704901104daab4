-- ===== src/Trace/Writer.antt =====
-- The trace writer of src/trace/trace-writer.ts. A line is text, the file is bytes: `encode` is the
-- UTF-8 of Node's Buffer.from. What fs.writeSync and fs.fsyncSync do at a flush is an argument.
pub mod Lines
pub mod Keeps
pub mod Flush
pub mod History
use kiro_fabric.Prelude.{
  ℕ, zero, suc, ◌+◌, ◌-◌, ◌*◌, Bool, true, false, ◌&&◌, ◌||◌, not, ltb, leb, ◌==◌, if◌then◌else◌,
  List, [], ◌∷◌, ◌++◌, Option, none, some, length, take, drop, Text, Outcome, ok, err, ◌>>=◌, ◌>>◌,
  throw_if,
}
use kiro_fabric.Trace.Ring.{LineRing, new_ring, push, drain}

-- An option: not given, not a safe natural number, or one.
pub data OptionValue : Type 0 where
  absent invalid : OptionValue
  number : ℕ → OptionValue

pub data TraceError : Type 0 where
  not_absolute out_of_range marker_too_long not_opened : TraceError

unfoldable pub bounded_option : OptionValue → (fallback minimum maximum : ℕ) → Outcome TraceError ℕ
bounded_option absent fallback minimum maximum = ok fallback
bounded_option invalid fallback minimum maximum = err out_of_range
bounded_option (number n) fallback minimum maximum =
    if ltb n minimum || ltb maximum n then err out_of_range else ok n

pub record TraceWriterOptions : Type 0 where
  pub max_buffer_lines : OptionValue
  pub max_buffer_bytes : OptionValue
  pub flush_interval_ms : OptionValue
  pub max_file_bytes : OptionValue
  pub max_line_bytes : OptionValue

pub record TraceWriter : Type 0 where
  pub ring : LineRing
  pub max_file_bytes : ℕ
  pub max_line_bytes : ℕ
  pub truncation_marker : List ℕ
  pub file : List ℕ
  pub written_bytes : ℕ
  pub dropped : ℕ
  pub is_disabled : Bool
  pub is_closed : Bool

-- What one call of fs.writeSync does.
pub data WriteResult : Type 0 where
  throws invalid_count : WriteResult
  accepts : ℕ → WriteResult

abbrev pub newline : ℕ
newline = 10

abbrev pub line_truncated : Text
line_truncated =
    123 ∷ 34 ∷ 108 ∷ 105 ∷ 110 ∷ 101 ∷ 46 ∷ 116 ∷ 114 ∷ 117 ∷ 110 ∷ 99 ∷ 97 ∷ 116 ∷ 101 ∷ 100 ∷ 34
    ∷ 58 ∷ 116 ∷ 114 ∷ 117 ∷ 101 ∷ 125 ∷ []

abbrev pub short_marker : Text
short_marker = 123 ∷ 34 ∷ 116 ∷ 34 ∷ 58 ∷ 49 ∷ 125 ∷ []

abbrev pub empty_object : Text
empty_object = 123 ∷ 125 ∷ []

abbrev pub concat : List Text → Text
concat [] = []
concat (line ∷ lines) = line ++ concat lines

abbrev pub default_max_buffer_lines : ℕ
default_max_buffer_lines = 4_096

abbrev pub default_max_buffer_bytes : ℕ
default_max_buffer_bytes = 4 * 1024 * 1024

abbrev pub default_flush_interval_ms : ℕ
default_flush_interval_ms = 250

abbrev pub default_max_file_bytes : ℕ
default_max_file_bytes = 64 * 1024 * 1024

abbrev pub default_max_line_bytes : ℕ
default_max_line_bytes = 8 * 1024

abbrev pub buffer_lines_maximum : ℕ
buffer_lines_maximum = 1_048_576

abbrev pub buffer_bytes_maximum : ℕ
buffer_bytes_maximum = 256 * 1024 * 1024

abbrev pub file_bytes_maximum : ℕ
file_bytes_maximum = 1024 * 1024 * 1024

abbrev pub line_bytes_maximum : ℕ
line_bytes_maximum = 1024 * 1024

abbrev pub flush_interval_ms_maximum : ℕ
flush_interval_ms_maximum = 60_000

abbrev pub line_bytes_minimum : ℕ
line_bytes_minimum = 2

-- `marker` is the JSON of the truncation marker for a file's limit, with its newline.
unfoldable pub make_writer :
    (marker : ℕ → List ℕ)
    → TraceWriterOptions
    → (is_absolute is_opened : Bool) → Outcome TraceError TraceWriter
make_writer marker o is_absolute is_opened = do
  throw_if (not is_absolute) not_absolute
  lines ← bounded_option o.max_buffer_lines default_max_buffer_lines 1 buffer_lines_maximum
  bytes ← bounded_option o.max_buffer_bytes default_max_buffer_bytes 1 buffer_bytes_maximum
  file_bytes ← bounded_option o.max_file_bytes default_max_file_bytes 1 file_bytes_maximum
  throw_if (ltb file_bytes (length (marker file_bytes))) marker_too_long
  line_bytes ←
      bounded_option o.max_line_bytes default_max_line_bytes line_bytes_minimum line_bytes_maximum
  interval ←
      bounded_option o.flush_interval_ms default_flush_interval_ms 1 flush_interval_ms_maximum
  throw_if (not is_opened) not_opened
  ok (record {
    ring = new_ring lines bytes;
    max_file_bytes = file_bytes;
    max_line_bytes = line_bytes;
    truncation_marker = marker file_bytes;
    file = [];
    written_bytes = 0;
    dropped = 0;
    is_disabled = false;
    is_closed = false;
  })

-- `#writeBuffer`, with the results of its calls; where they end before the bytes do, the next call
-- throws. It returns whether all bytes were written.
unfoldable pub write_buffer : List WriteResult → List ℕ → TraceWriter → TraceWriter × Bool
write_buffer [] [] w = (w, true)
write_buffer [] (b ∷ bytes) w = (w, false)
write_buffer (r ∷ results) [] w = (w, true)
write_buffer (throws ∷ results) (b ∷ bytes) w = (w, false)
write_buffer (invalid_count ∷ results) (b ∷ bytes) w = (w, false)
write_buffer (accepts n ∷ results) (b ∷ bytes) w =
    let rest =
      write_buffer results (drop n (b ∷ bytes))
        (record w { file = w.file ++ take n (b ∷ bytes); written_bytes = w.written_bytes + n }) in
    if ltb n 1 || ltb (length (b ∷ bytes)) n then (w, false) else rest

module _ (encode : Text → List ℕ) (marker_line : ℕ → Text) where
  abbrev pub utf8_bytes : Text → ℕ
  utf8_bytes line = length (encode line)

  -- The first candidate that fits, with its newline.
  unfoldable pub first_fitting : List Text → ℕ → Option Text
  first_fitting [] maximum = none
  first_fitting (c ∷ cs) maximum =
      if leb (utf8_bytes (c ++ newline ∷ [])) maximum
      then some (c ++ newline ∷ [])
      else first_fitting cs maximum

  unfoldable pub truncated_line : Text → ℕ → Option Text
  truncated_line raw maximum =
      first_fitting
        (marker_line (utf8_bytes raw) ∷ line_truncated ∷ short_marker ∷ empty_object ∷ []) maximum

  unfoldable pub bounded_line : Text → ℕ → Option Text
  bounded_line line maximum =
      let raw = line ++ newline ∷ [] in
      if leb (utf8_bytes raw) maximum then some raw else truncated_line raw maximum

  unfoldable pub write : TraceWriter → Text → TraceWriter
  write w line =
      if w.is_disabled || w.is_closed then w else elim (bounded_line line w.max_line_bytes) [
        | none ↦ record w { dropped = w.dropped + 1 }
        | some bounded ↦
            let pushed = push utf8_bytes w.ring bounded in
            record w { ring = pushed.0; dropped = w.dropped + pushed.1 }
      ]

  -- The `catch` of a flush of that many lines.
  unfoldable pub disable : TraceWriter → ℕ → TraceWriter
  disable w lines = record w {
    dropped = if w.is_disabled then w.dropped else w.dropped + lines;
    is_disabled = true;
  }

  abbrev pub settle : TraceWriter × Bool → Bool → ℕ → TraceWriter
  settle x is_synced lines = if x.1 && is_synced then x.0 else disable x.0 lines

  unfoldable pub flush : TraceWriter → List WriteResult → (is_synced : Bool) → TraceWriter
  flush w results is_synced =
      let lines = (drain w.ring).1 in
      let v : TraceWriter = record w { ring = (drain w.ring).0 } in
      let chunk = encode (concat lines) in
      let stopped : TraceWriter = record v {
        dropped = w.dropped + length lines;
        is_disabled = true;
      } in
      if w.is_closed || w.ring.size == 0
      then w
      else if ltb w.max_file_bytes (w.written_bytes + length chunk + length w.truncation_marker)
      then if leb (length w.truncation_marker) (w.max_file_bytes - w.written_bytes)
        then settle (write_buffer results w.truncation_marker stopped) is_synced (length lines)
        else settle (stopped, true) is_synced (length lines)
      else settle (write_buffer results chunk v) is_synced (length lines)

  unfoldable pub close : TraceWriter → List WriteResult → (is_synced : Bool) → TraceWriter
  close w results is_synced =
      if w.is_closed then w else record (flush w results is_synced) { is_closed = true }
