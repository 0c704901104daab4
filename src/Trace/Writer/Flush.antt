-- ===== src/Trace/Writer/Flush.antt =====
-- A flush of src/trace/trace-writer.ts keeps the accounts of the writer.
use kiro_fabric.Prelude.{
  ℕ, ◌+◌, ◌-◌, ◌≤◌, Bool, true, false, ◌≡◌, refl, sym, ap, subst, ◌∙◌, ◌&&◌, ◌||◌, ltb, leb, ◌==◌,
  List, [], ◌∷◌, ◌++◌, length, length-append, Text, arith, All, Bool-cases, inl, inr, if_cases,
}
use mathlib.Core.List.{append-nil, append_assoc}
use kiro_fabric.Trace.Ring.{drain}
use kiro_fabric.Trace.Ring.Represents.{drain-Drained}
use kiro_fabric.Trace.Writer.{
  TraceWriter, WriteResult, concat, disable, settle, flush, close, utf8_bytes,
}
use kiro_fabric.Trace.Writer.Lines.{IsLine}
use kiro_fabric.Trace.Writer.Keeps.{
  Appended, all_done, write_buffer-Appended, line_count, line_count-append, chunk_bytes,
  chunk_bytes-append, Keeps,
}

appended :
    (file front tail added : List ℕ)
    → file ≡ front ++ tail
    → file ++ added ≡ front ++ (tail ++ added)
appended file front tail added h = ap (λ f. f ++ added) h ∙ append_assoc front tail added

module _ (encode : Text → List ℕ) (marker_line : ℕ → Text) where
  abbrev Kept : ℕ → TraceWriter → Type 0
  Kept = Keeps encode marker_line

  -- The writer with an emptied buffer, and another file and counts.
  abbrev emptied : TraceWriter → List ℕ → ℕ → ℕ → Bool → TraceWriter
  emptied w file written dropped is_off = record w {
    ring = (drain w.ring).0;
    file = file;
    written_bytes = written;
    dropped = dropped;
    is_disabled = is_off;
  }

  emptied-Keeps :
      (n : ℕ) (w : TraceWriter) (k : Kept n w) (chunks : List (List Text)) (tail file : List ℕ)
      (written dropped : ℕ) (is_off : Bool)
      → All (All (IsLine encode marker_line w.max_line_bytes)) chunks
      → n ≡ dropped + line_count chunks
      → written ≡ length file
      → written ≤ w.max_file_bytes
      → file ≡ chunk_bytes encode marker_line chunks ++ tail
      → (is_off ≡ false → tail ≡ [])
      → Kept n (emptied w file written dropped is_off)
  emptied-Keeps n w k chunks tail file written dropped is_off c_whole counts m b f exact = record {
    queue = [];
    buffered = (drain-Drained (utf8_bytes encode marker_line) w.ring k.queue k.buffered).emptied;
    whole = tt;
    chunks = chunks;
    chunks_whole = c_whole;
    counted = omega (arith, counts);
    measured = m;
    bounded = b;
    tail = tail;
    file = f;
    exact = exact;
    idle = λ h. refl;
  }

  -- A write that stops tracing: the lines of the buffer are dropped.
  stopped-Keeps :
      (n : ℕ) (w : TraceWriter) (k : Kept n w) (bytes : List ℕ) (x : TraceWriter × Bool)
      (is_synced : Bool)
      → Appended bytes
          (emptied w w.file w.written_bytes (w.dropped + length (drain w.ring).1) true)
          x
      → w.written_bytes + length bytes ≤ w.max_file_bytes
      → Kept n (settle encode marker_line x is_synced (length (drain w.ring).1))
  unfolding disable
  stopped-Keeps n w k bytes x is_synced a room =
      let d = (drain-Drained (utf8_bytes encode marker_line) w.ring k.queue k.buffered).lines in
      let done : Kept n (
          emptied w (w.file ++ a.added) (w.written_bytes + length a.added)
            (w.dropped + length (drain w.ring).1) true) =
        emptied-Keeps n w k k.chunks (k.tail ++ a.added) (w.file ++ a.added)
          (w.written_bytes + length a.added) (w.dropped + length (drain w.ring).1) true
          k.chunks_whole (omega (arith, k.counted, ap length d))
          (omega (arith, length-append w.file a.added, k.measured)) (omega (arith, a.shorter, room))
          (appended w.file _ k.tail a.added k.file) (λ h. absurd (ground (arith, h))) in
      if_cases (Kept n) (x.1 && is_synced) (λ _. subst (Kept n) (sym a.file) done)
        (λ _. subst (Kept n) (ground (arith, a.file)) done)

  -- A write of the lines.
  written-Keeps :
      (n : ℕ) (w : TraceWriter) (k : Kept n w) (x : TraceWriter × Bool) (is_synced : Bool)
      → w.is_disabled ≡ false
      → Appended
          (encode (concat (drain w.ring).1))
          (emptied w w.file w.written_bytes w.dropped w.is_disabled)
          x
      → w.written_bytes + length (encode (concat (drain w.ring).1)) ≤ w.max_file_bytes
      → Kept n (settle encode marker_line x is_synced (length (drain w.ring).1))
  unfolding disable
  written-Keeps n w k x is_synced live a room =
      let d = (drain-Drained (utf8_bytes encode marker_line) w.ring k.queue k.buffered).lines in
      if_cases (Kept n) (x.1 && is_synced)
        (λ all_done.
          let whole : a.added ≡ encode (concat k.queue) =
            a.complete (ground (arith, all_done)) ∙ ap (λ q. encode (concat q)) d in
          subst (Kept n) (sym a.file) (
            emptied-Keeps n w k (k.chunks ++ k.queue ∷ []) [] (w.file ++ a.added)
              (w.written_bytes + length a.added) w.dropped w.is_disabled
              (All-snoc k.chunks k.queue k.chunks_whole k.whole)
              (omega (arith, k.counted, line_count-append k.chunks k.queue))
              (omega (arith, length-append w.file a.added, k.measured))
              (omega (arith, a.shorter, room))
              (ap (λ b. w.file ++ b) whole
                ∙ ap (λ f. f ++ encode (concat k.queue))
                    (k.file
                      ∙ ap (λ t. chunk_bytes encode marker_line k.chunks ++ t) (k.exact live)
                      ∙ append-nil (chunk_bytes encode marker_line k.chunks))
                ∙ sym (chunk_bytes-append encode marker_line k.chunks k.queue)
                ∙ sym (append-nil (chunk_bytes encode marker_line (k.chunks ++ k.queue ∷ []))))
              (λ h. refl)))
        (λ _. subst (Kept n) (ground (arith, a.file, live)) (
          emptied-Keeps n w k k.chunks (k.tail ++ a.added) (w.file ++ a.added)
            (w.written_bytes + length a.added) (w.dropped + length (drain w.ring).1) true
            k.chunks_whole (omega (arith, k.counted, ap length d))
            (omega (arith, length-append w.file a.added, k.measured))
            (omega (arith, a.shorter, room)) (appended w.file _ k.tail a.added k.file)
            (λ h. absurd (ground (arith, h)))))
    where
      All-snoc :
          (cs : List (List Text)) (c : List Text)
          → All (All (IsLine encode marker_line w.max_line_bytes)) cs
          → All (IsLine encode marker_line w.max_line_bytes) c
          → All (All (IsLine encode marker_line w.max_line_bytes)) (cs ++ c ∷ [])
      All-snoc [] c h g = (g, tt)
      All-snoc (b ∷ cs) c h g = (h.0, All-snoc cs c h.1 g)

  pub flush-Keeps :
      (n : ℕ) (w : TraceWriter) (results : List WriteResult) (is_synced : Bool)
      → Kept n w
      → Kept n (flush encode marker_line w results is_synced)
  unfolding flush
  flush-Keeps n w results is_synced k =
      if_cases (Kept n) (w.is_closed || w.ring.size == 0) (λ _. k)
        (λ waiting.
          if_cases (Kept n)
            (ltb w.max_file_bytes (
              w.written_bytes
              + length (encode (concat (drain w.ring).1))
              + length w.truncation_marker))
            (λ large.
              if_cases (Kept n)
                (leb (length w.truncation_marker) (w.max_file_bytes - w.written_bytes))
                (λ fits.
                  stopped-Keeps n w k w.truncation_marker _ is_synced
                    (write_buffer-Appended results w.truncation_marker _)
                    (ground (arith, fits, k.bounded)))
                (λ no_room.
                  stopped-Keeps n w k [] _ is_synced (all_done _) (omega (arith, k.bounded))))
            (λ small.
              written-Keeps n w k _ is_synced (live waiting)
                (write_buffer-Appended results (encode (concat (drain w.ring).1)) _)
                (ground (arith, small))))
    where
      live : (w.is_closed || w.ring.size == 0) ≡ false → w.is_disabled ≡ false
      live waiting = elim (Bool-cases w.is_disabled) [
        | inl off ↦ absurd (ground (arith, waiting, k.buffered.counted, ap length (k.idle off)))
        | inr on ↦ on
      ]

  pub close-Keeps :
      (n : ℕ) (w : TraceWriter) (results : List WriteResult) (is_synced : Bool)
      → Kept n w
      → Kept n (close encode marker_line w results is_synced)
  unfolding close
  close-Keeps n w results is_synced k =
      if_cases (Kept n) w.is_closed (λ _. k)
        (λ _.
          let f = flush-Keeps n w results is_synced k in
          record {
            queue = f.queue;
            buffered = f.buffered;
            whole = f.whole;
            chunks = f.chunks;
            chunks_whole = f.chunks_whole;
            counted = f.counted;
            measured = f.measured;
            bounded = f.bounded;
            tail = f.tail;
            file = f.file;
            exact = f.exact;
            idle = f.idle;
          })
