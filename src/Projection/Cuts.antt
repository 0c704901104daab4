-- ===== src/Projection/Cuts.antt =====
-- The cuts of src/kiro/projection.ts keep their limits.
use kiro_fabric.Prelude.{
  ℕ, ◌+◌, ◌-◌, ◌≤◌, ◌<◌, ◌≡◌, ◌&&◌, ltb, leb, ◌==◌, [], ◌++◌, length, take, length-take,
  length-drop, length-append, Text, arith, if_cases, is_high_surrogate, is_low_surrogate, get_or,
}
use kiro_fabric.Projection.{
  safe_prefix, safe_suffix, truncate_middle, truncate_with_hint, truncation_marker, half_up,
}

abbrev pub AtMost : ℕ → Text → Type 0
AtMost n text = length text ≤ n

pub safe_prefix_short : (value : Text) (n : ℕ) → AtMost n (safe_prefix value n)
unfolding safe_prefix
safe_prefix_short value n =
    let bounded = take n value in
    if_cases (AtMost n) (is_high_surrogate (get_or bounded (length bounded - 1) 0))
      (λ _. omega (arith, length-take (length bounded - 1) bounded, length-take n value))
      (λ _. omega (arith, length-take n value))

pub safe_suffix_short : (value : Text) (n : ℕ) → AtMost n (safe_suffix value n)
unfolding safe_suffix
safe_suffix_short value n =
    let start = length value - n in
    if_cases (AtMost n) (is_low_surrogate (get_or value start 0) && ltb 0 start)
      (λ _. omega (arith, length-drop (start + 1) value))
      (λ _. omega (arith, length-drop start value))

-- A head, a middle and a tail.
cut_short :
    (content middle : Text) (head tail n : ℕ)
    → head + (length middle + tail) ≤ n
    → AtMost n (safe_prefix content head ++ (middle ++ safe_suffix content tail))
cut_short content middle head tail n h = omega (
  arith,
  h,
  safe_prefix_short content head,
  safe_suffix_short content tail,
  length-append (safe_prefix content head) (middle ++ safe_suffix content tail),
  length-append middle (safe_suffix content tail),
)

pub truncate_middle_short : (content : Text) (n : ℕ) → AtMost n (truncate_middle content n)
unfolding truncate_middle
truncate_middle_short content n =
    let kept = n - length truncation_marker in
    if_cases (AtMost n) (leb (length content) n) (λ fits. ground (arith, fits))
      (λ _.
        if_cases (AtMost n) (leb n 0) (λ _. omega arith)
          (λ some_room.
            let room : 1 ≤ n = ground (arith, some_room) in
            if_cases (AtMost n) (leb n (length truncation_marker + 1))
              (λ _.
                if_cases (AtMost n) (n == 1)
                  (λ one.
                    let e : n ≡ 1 = ground (arith, one) in
                    omega (arith, e, safe_prefix_short content 1))
                  (λ _. cut_short content [] (half_up n) (n - half_up n) n (omega (arith, room))))
              (λ large.
                let much : length truncation_marker + 1 < n = ground (arith, large) in
                cut_short content truncation_marker (half_up kept) (kept - half_up kept) n
                  (omega (arith, much)))))

pub truncate_with_hint_short :
    (content hint : Text) (n : ℕ) → AtMost n (truncate_with_hint content n hint)
unfolding truncate_with_hint
truncate_with_hint_short content hint n =
    if_cases (AtMost n) (leb n (length hint)) (λ _. safe_prefix_short hint n)
      (λ room.
        let less : length hint < n = ground (arith, room) in
        omega (
          arith,
          less,
          truncate_middle_short content (n - length hint),
          length-append (truncate_middle content (n - length hint)) hint,
        ))
