-- ===== src/Trace/Ring/Represents.antt =====
-- The circular buffer of src/trace/trace-writer.ts holds a queue, through `push` and `drain`.
use kiro_fabric.Prelude.{
  ℕ, zero, suc, ◌+◌, ◌%◌, ◌≤◌, ◌<◌, true, false, ◌||◌, ◌≡◌, refl, sym, ap, subst, ◌∙◌, ltb, leb,
  ◌==◌, List, [], ◌∷◌, ◌++◌, none, some, Text, length, length-append, get_elem?, drop, arith,
  Bool-cases, inl, inr,
}
use kiro_fabric.Trace.Ring.{
  LineRing, put, text_of, collect, drain, evict, is_crowded, make_room, push,
}
use kiro_fabric.Trace.Ring.Positions.{
  position_next, position_first, position_apart, get_elem?-append_old, get_elem?-append_new,
  drop_cons, elem_in, drop-length,
}
use kiro_fabric.Trace.Ring.Queue.{queue_bytes, queue_bytes-append, trim, enqueue, trim_fits}

module _ (utf8_bytes : Text → ℕ) where
  -- The ring holds the queue.
  pub record Represents (r : LineRing) (q : List Text) : Type 0 where
    pub counted : r.size ≡ length q
    pub inside : r.start < r.capacity
    pub few : r.size ≤ r.capacity
    pub summed : r.bytes ≡ queue_bytes utf8_bytes q
    pub within : r.bytes ≤ r.max_bytes
    pub held : (i : ℕ) → i < r.size → r.slots ((r.start + i) % r.capacity) ≡ get_elem? q i

  pub evict-Represents :
      (r : LineRing) (x : Text) (q : List Text)
      → Represents r (x ∷ q)
      → Represents (evict utf8_bytes r) q
  unfolding evict queue_bytes
  evict-Represents r x q h = record {
    counted = omega (arith, h.counted);
    inside = omega (arith, h.inside);
    few = omega (arith, h.few);
    summed = omega (arith, h.summed, ap (λ o. utf8_bytes (text_of o)) first);
    within = omega (arith, h.within);
    held = λ i lt. later i (omega (arith, lt, h.counted));
  }
    where
      later :
          (i : ℕ)
          → i + 1 < r.size
          → put r.start none r.slots (((r.start + 1) % r.capacity + i) % r.capacity) ≡ get_elem? q i
      later i lt =
          let e : i + 1 ≡ suc i = omega arith in
          let next = position_next r.capacity r.start h.inside i (omega (arith, lt, h.few)) in
          let apart =
            position_apart r.capacity r.start h.inside 0 (i + 1) (omega arith)
              (omega (arith, lt, h.few)) in
          let self = position_first r.capacity r.start h.inside in
          ground (
            arith,
            next,
            apart,
            self,
            subst (λ k. r.slots ((r.start + k) % r.capacity) ≡ get_elem? (x ∷ q) k) e
                (h.held (i + 1) lt),
          )

      first : r.slots r.start ≡ some x
      first =
          subst (λ k. r.slots k ≡ some x) (position_first r.capacity r.start h.inside)
            (h.held 0 (omega (arith, h.counted)))

  -- The loop takes from the front exactly what the bounded queue has to lose.
  pub make_room-Represents :
      (rounds : ℕ) (r : LineRing) (q : List Text) (line_bytes : ℕ)
      → Represents r q
      → r.size ≤ rounds
      → Represents
          (make_room utf8_bytes rounds r line_bytes).0
          (trim utf8_bytes r.capacity r.max_bytes q line_bytes).0
        × ((make_room utf8_bytes rounds r line_bytes).1
            ≡ (trim utf8_bytes r.capacity r.max_bytes q line_bytes).1)
  unfolding make_room trim evict
  make_room-Represents zero r [] n h k = (h, refl)
  make_room-Represents zero r (x ∷ q) n h k = absurd (omega (arith, h.counted))
  make_room-Represents (suc rounds) r [] n h k = elim (Bool-cases (is_crowded utf8_bytes r n)) [
    | inl full ↦ absurd (ground (arith, full, h.counted))
    | inr free ↦ rw free (h, refl)
  ]
  make_room-Represents (suc rounds) r (x ∷ q) n h k =
      elim (Bool-cases (is_crowded utf8_bytes r n)) [
        | inl full ↦
            let crowded : (leb r.capacity (length (x ∷ q))
                  || ltb r.max_bytes (queue_bytes utf8_bytes (x ∷ q) + n))
                ≡ true =
              ground (arith, full, h.counted, h.summed) in
            let rest =
              make_room-Represents rounds (evict utf8_bytes r) q n (evict-Represents r x q h)
                (omega (arith, h.counted, k)) in
            rw (full, crowded) (rest.0, ap (λ d. d + 1) rest.1)
        | inr free ↦
            let roomy : (leb r.capacity (length (x ∷ q))
                  || ltb r.max_bytes (queue_bytes utf8_bytes (x ∷ q) + n))
                ≡ false =
              ground (arith, free, h.counted, h.summed) in
            rw (free, roomy) (h, refl)
      ]

  pub make_room_same :
      (rounds : ℕ) (r : LineRing) (n : ℕ)
      → ((make_room utf8_bytes rounds r n).0.capacity ≡ r.capacity)
        × ((make_room utf8_bytes rounds r n).0.max_bytes ≡ r.max_bytes)
  unfolding make_room evict
  make_room_same zero r n = (refl, refl)
  make_room_same (suc rounds) r n = elim (Bool-cases (is_crowded utf8_bytes r n)) [
    | inl full ↦ rw full (make_room_same rounds (evict utf8_bytes r) n)
    | inr free ↦ rw free (refl, refl)
  ]

  pub add-Represents :
      (s : LineRing) (q : List Text) (line : Text)
      → Represents s q
      → s.size < s.capacity
      → s.bytes + utf8_bytes line ≤ s.max_bytes
      → Represents
          (record s {
            slots = put ((s.start + s.size) % s.capacity) (some line) s.slots;
            size = s.size + 1;
            bytes = s.bytes + utf8_bytes line;
          })
          (q ++ line ∷ [])
  add-Represents s q line h room fits = record {
    counted = omega (arith, h.counted, length-append q (line ∷ []));
    inside = h.inside;
    few = omega (arith, room);
    summed = omega (arith, h.summed, queue_bytes-append utf8_bytes q line);
    within = fits;
    held = λ i lt. elim (Bool-cases (i == s.size)) [
      | inl last ↦ newest i (ground (arith, last))
      | inr old ↦ older i (ground (arith, lt, old))
    ];
  }
    where
      newest :
          (i : ℕ)
          → i ≡ s.size
          → put ((s.start + s.size) % s.capacity) (some line) s.slots ((s.start + i) % s.capacity)
            ≡ get_elem? (q ++ line ∷ []) i
      newest i e = rw e (ground (arith, get_elem?-append_new q line s.size h.counted))

      older :
          (i : ℕ)
          → i < s.size
          → put ((s.start + s.size) % s.capacity) (some line) s.slots ((s.start + i) % s.capacity)
            ≡ get_elem? (q ++ line ∷ []) i
      older i lt = ground (
        arith,
        position_apart s.capacity s.start h.inside i s.size lt room,
        h.held i lt,
        get_elem?-append_old q line i (omega (arith, lt, h.counted)),
      )

  -- `push`, on the ring and on the queue.
  pub record Pushed (r : LineRing) (q : List Text) (line : Text) : Type 0 where
    pub queue :
        Represents (push utf8_bytes r line).0 (enqueue utf8_bytes r.capacity r.max_bytes q line).0
    pub dropped : (push utf8_bytes r line).1 ≡ (enqueue utf8_bytes r.capacity r.max_bytes q line).1

  pub push-Pushed : (r : LineRing) (q : List Text) (line : Text) → Represents r q → Pushed r q line
  unfolding push enqueue
  push-Pushed r q line h = elim (Bool-cases (ltb r.max_bytes (utf8_bytes line))) [
    | inl long ↦ record { queue = rw long h; dropped = rw long }
    | inr short ↦
        let (same_capacity, same_bytes) = make_room_same r.size r (utf8_bytes line) in
        let (less, lost) = make_room-Represents r.size r q (utf8_bytes line) h (omega arith) in
        let (fewer, fits) =
          trim_fits utf8_bytes r.capacity r.max_bytes q (utf8_bytes line) (omega (arith, h.inside))
            (ground (arith, short)) in
        record {
          queue = rw short (
              add-Represents _ _ line less (omega (arith, fewer, less.counted, same_capacity))
                (omega (arith, fits, less.summed, same_bytes)));
          dropped = rw short lost;
        }
  ]

  pub collect-drop :
      (r : LineRing) (q : List Text) (n i : ℕ)
      → Represents r q
      → i + n ≡ r.size
      → collect r i n ≡ drop i q
  unfolding collect
  collect-drop r q zero i h e = sym (drop-length q i (omega (arith, e, h.counted)))
  collect-drop r q (suc n) i h e =
      let (x, at) = elem_in q i (omega (arith, e, h.counted)) in
      let first : text_of (r.slots ((r.start + i) % r.capacity)) ≡ x =
        ap text_of (h.held i (omega (arith, e)) ∙ at) in
      let one : i + 1 ≡ suc i = omega arith in
      let rest : collect r (i + 1) n ≡ drop (suc i) q =
        collect-drop r q n (i + 1) h (omega (arith, e)) ∙ ap (λ k. drop k q) one in
      ground (arith, first, rest, drop_cons q i x at)

  -- `drain` gives the queue, and leaves an empty one.
  pub record Drained (r : LineRing) (q : List Text) : Type 0 where
    pub lines : (drain r).1 ≡ q
    pub emptied : Represents (drain r).0 []

  pub drain-Drained : (r : LineRing) (q : List Text) → Represents r q → Drained r q
  unfolding drain queue_bytes
  drain-Drained r q h = record {
    lines = collect-drop r q r.size 0 h (omega arith);
    emptied = record {
      counted = refl;
      inside = omega (arith, h.inside);
      few = omega arith;
      summed = refl;
      within = omega arith;
      held = λ i lt. absurd (omega (arith, lt));
    };
  }

  pub push_same :
      (r : LineRing) (line : Text)
      → ((push utf8_bytes r line).0.capacity ≡ r.capacity)
        × ((push utf8_bytes r line).0.max_bytes ≡ r.max_bytes)
  unfolding push
  push_same r line = elim (Bool-cases (ltb r.max_bytes (utf8_bytes line))) [
    | inl long ↦ rw long (refl, refl)
    | inr short ↦ rw short (make_room_same r.size r (utf8_bytes line))
  ]
