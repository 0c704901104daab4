-- ===== src/JsonBudget/Prefix.antt =====
-- What `jsonStringPrefix` of src/runtime/json-budget.ts keeps of a string.
use kiro_fabric.Prelude.{
  ℕ, zero, suc, ◌+◌, ◌-◌, ◌≤◌, ◌<◌, Bool, true, false, ◌&&◌, ◌≡◌, ap, ◌∙◌, ◌⊎◌, inl, inr, ltb, leb,
  [], ◌∷◌, take, length, length-append, Text, get_or, is_high_surrogate, is_low_surrogate,
  Bool-cases, ok, arith,
}
use kiro_fabric.JsonBudget.{
  unit_cost, scan, json_string_prefix, Bounded, whole, truncated, bounded_result,
}
use kiro_fabric.JsonBudget.Escape.{escape, escape_unit}

length-escape_unit : (unit : ℕ) → length (escape_unit unit) ≡ unit_cost false unit
unfolding escape_unit unit_cost
length-escape_unit unit = ground arith

-- The length of the escaped text.
escaped : Text → ℕ
escaped text = length (escape text)

abbrev is_pair : ℕ → ℕ → Bool
is_pair unit next = is_high_surrogate unit && is_low_surrogate next

escaped_one : (u : ℕ) → escaped (u ∷ []) ≡ unit_cost false u
unfolding escaped escape
escaped_one u = length-escape_unit u

escaped_pair :
    (u v : ℕ) (rest : Text) → is_pair u v ≡ true → escaped (u ∷ v ∷ rest) ≡ 2 + escaped rest
unfolding escaped escape
escaped_pair u v rest h = ground arith

escaped_unit :
    (u v : ℕ) (rest : Text)
    → is_pair u v ≡ false
    → escaped (u ∷ v ∷ rest) ≡ unit_cost false u + escaped (v ∷ rest)
unfolding escaped escape
escaped_unit u v rest h = rw h (
    length-append (escape_unit u) (escape (v ∷ rest))
    ∙ ap (λ (k : ℕ). k + length (escape (v ∷ rest))) (length-escape_unit u))

pair_cost : (u v : ℕ) → is_pair u v ≡ true → (unit_cost true u ≡ 2) × (unit_cost false u ≡ 6)
unfolding unit_cost
pair_cost u v h = ground arith

-- `k` units are the longest prefix whose escaped form fits, and they do not end inside a pair.
record IsLongest (budget used : ℕ) (text : Text) (k : ℕ) : Type 0 where
  within : k ≤ length text
  fitting : used + escaped (take k text) ≤ budget
  longest : (j : ℕ) → k < j → j ≤ length text → budget < used + escaped (take j text)
  unsplit : 0 < k → is_pair (get_or text (k - 1) 0) (get_or text k 0) ≡ false

IsLongest-nil : (budget used : ℕ) → used ≤ budget → IsLongest budget used [] 0
unfolding escaped escape
IsLongest-nil budget used h = record {
  within = omega arith;
  fitting = omega arith;
  longest = λ j lt le. absurd (omega arith);
  unsplit = λ lt. absurd (omega arith);
}

IsLongest-stop_one :
    (budget used u : ℕ)
    → used ≤ budget
    → budget < used + unit_cost false u
    → IsLongest budget used (u ∷ []) 0
IsLongest-stop_one budget used u h full = record {
  within = omega arith;
  fitting = unfold escaped escape in omega arith;
  longest = over;
  unsplit = λ lt. absurd (omega arith);
}
  where
    over : (j : ℕ) → 0 < j → j ≤ 1 → budget < used + escaped (take j (u ∷ []))
    over zero lt le = absurd (omega arith)
    over (suc zero) lt le = omega (arith, escaped_one u, full)
    over (suc (suc j)) lt le = absurd (omega arith)

IsLongest-take_one :
    (budget used u : ℕ) → used + unit_cost false u ≤ budget → IsLongest budget used (u ∷ []) 1
IsLongest-take_one budget used u h = record {
  within = omega arith;
  fitting = omega (arith, escaped_one u);
  longest = λ j lt le. absurd (omega arith);
  unsplit = λ lt. ground arith;
}

IsLongest-stop :
    (budget used u v : ℕ) (rest : Text)
    → used ≤ budget
    → budget < used + unit_cost (is_pair u v) u
    → IsLongest budget used (u ∷ v ∷ rest) 0
IsLongest-stop budget used u v rest h full = record {
  within = omega arith;
  fitting = unfold escaped escape in omega arith;
  longest = over;
  unsplit = λ lt. absurd (omega arith);
}
  where
    least : budget < used + unit_cost false u
    least = ground (arith, full, pair_cost u v)

    over :
        (j : ℕ)
        → 0 < j
        → j ≤ length (u ∷ v ∷ rest)
        → budget < used + escaped (take j (u ∷ v ∷ rest))
    over zero lt le = absurd (omega arith)
    over (suc zero) lt le = omega (arith, escaped_one u, least)
    over (suc (suc j)) lt le = elim (Bool-cases (is_pair u v)) [
      | inl p ↦ ground (arith, full, p, pair_cost u v p, escaped_pair u v (take j rest) p)
      | inr p ↦ ground (arith, full, p, escaped_unit u v (take j rest) p)
    ]

IsLongest-pair :
    (budget used u v : ℕ) (rest : Text) (k : ℕ)
    → is_pair u v ≡ true
    → IsLongest budget (used + unit_cost true u) rest k
    → IsLongest budget used (u ∷ v ∷ rest) (suc (suc k))
IsLongest-pair budget used u v rest k p ih = record {
  within = omega (arith, ih.within);
  fitting = omega (arith, ih.fitting, cost, escaped_pair u v (take k rest) p);
  longest = over;
  unsplit = λ lt. unsplit k ih.unsplit;
}
  where
    cost : unit_cost true u ≡ 2
    cost = (pair_cost u v p).0

    over :
        (j : ℕ)
        → suc (suc k) < j
        → j ≤ length (u ∷ v ∷ rest)
        → budget < used + escaped (take j (u ∷ v ∷ rest))
    over zero lt le = absurd (omega arith)
    over (suc zero) lt le = absurd (omega arith)
    over (suc (suc j)) lt le =
        omega
          (arith, ih.longest j (omega arith) (omega arith), cost, escaped_pair u v (take j rest) p)

    unsplit :
        (k : ℕ)
        → (0 < k → is_pair (get_or rest (k - 1) 0) (get_or rest k 0) ≡ false)
        → is_pair
            (get_or (u ∷ v ∷ rest) (suc (suc k) - 1) 0)
            (get_or (u ∷ v ∷ rest) (suc (suc k)) 0)
          ≡ false
    unsplit zero h = ground (arith, p)
    unsplit (suc k) h =
        let e : suc (suc (suc k)) - 1 ≡ suc (suc k) = omega arith in
        let f : suc k - 1 ≡ k = omega arith in rw e (rw f at (h (omega arith)))

escaped_unit_take :
    (u v : ℕ) (rest : Text) (k : ℕ)
    → is_pair u v ≡ false
    → escaped (u ∷ take k (v ∷ rest)) ≡ unit_cost false u + escaped (take k (v ∷ rest))
escaped_unit_take u v rest zero p = unfold escaped escape in omega (arith, length-escape_unit u)
escaped_unit_take u v rest (suc k) p = escaped_unit u v (take k rest) p

IsLongest-unit :
    (budget used u v : ℕ) (rest : Text) (k : ℕ)
    → is_pair u v ≡ false
    → IsLongest budget (used + unit_cost false u) (v ∷ rest) k
    → IsLongest budget used (u ∷ v ∷ rest) (suc k)
IsLongest-unit budget used u v rest k p ih = record {
  within = omega (arith, ih.within);
  fitting = omega (arith, ih.fitting, escaped_unit_take u v rest k p);
  longest = over;
  unsplit = λ lt. unsplit k ih.unsplit;
}
  where
    over :
        (j : ℕ)
        → suc k < j
        → j ≤ length (u ∷ v ∷ rest)
        → budget < used + escaped (take j (u ∷ v ∷ rest))
    over zero lt le = absurd (omega arith)
    over (suc j) lt le =
        omega (arith, ih.longest j (omega arith) (omega arith), escaped_unit_take u v rest j p)

    unsplit :
        (k : ℕ)
        → (0 < k → is_pair (get_or (v ∷ rest) (k - 1) 0) (get_or (v ∷ rest) k 0) ≡ false)
        → is_pair (get_or (u ∷ v ∷ rest) (suc k - 1) 0) (get_or (u ∷ v ∷ rest) (suc k) 0) ≡ false
    unsplit zero h = p
    unsplit (suc k) h =
        let e : suc (suc k) - 1 ≡ suc k = omega arith in
        let f : suc k - 1 ≡ k = omega arith in rw e (rw f at (h (omega arith)))

-- Where the scan stops, counted from where it started.
scan-IsLongest :
    (budget : ℕ) (text : Text) (end used : ℕ)
    → used ≤ budget
    → (k : ℕ) × (scan budget text end used ≡ end + k) × IsLongest budget used text k
unfolding scan
scan-IsLongest budget [] end used h = (0, omega arith, IsLongest-nil budget used h)
scan-IsLongest budget (u ∷ []) end used h =
    elim (Bool-cases (ltb budget (used + unit_cost false u))) [
      | inl full ↦
          (0, rw full (omega arith), IsLongest-stop_one budget used u h (ground (arith, full)))
      | inr fine ↦ (1, rw fine, IsLongest-take_one budget used u (ground (arith, fine)))
    ]
scan-IsLongest budget (u ∷ v ∷ rest) end used h =
    elim (Bool-cases (ltb budget (used + unit_cost (is_pair u v) u))) [
      | inl full ↦
          (0, rw full (omega arith), IsLongest-stop budget used u v rest h (ground (arith, full)))
      | inr fine ↦ elim (Bool-cases (is_pair u v)) [
        | inl p ↦
            let (k, e, ih) =
              scan-IsLongest budget rest (end + 2) (used + unit_cost true u)
                (ground (arith, fine, p)) in
            (suc (suc k), ground (arith, fine, p, e), IsLongest-pair budget used u v rest k p ih)
        | inr p ↦
            let (k, e, ih) =
              scan-IsLongest budget (v ∷ rest) (end + 1) (used + unit_cost false u)
                (ground (arith, fine, p)) in
            (suc k, ground (arith, fine, p, e), IsLongest-unit budget used u v rest k p ih)
      ]
    ]

-- What `jsonStringPrefix` keeps: the longest prefix whose escaped form fits, not cut inside a pair.
pub record IsLongestPrefix (value : Text) (budget : ℕ) (kept : Text) : Type 0 where
  pub units : ℕ
  pub prefix : kept ≡ take units value
  pub within : units ≤ length value
  pub fitting : length (escape kept) ≤ budget
  pub longest : (j : ℕ) → units < j → j ≤ length value → budget < length (escape (take j value))
  pub unsplit :
      0 < units
      → (is_high_surrogate (get_or value (units - 1) 0) && is_low_surrogate (get_or value units 0))
        ≡ false

-- The prefix that is kept is the longest one whose JSON-escaped form fits the budget, and it does
-- not end between the halves of a surrogate pair.
pub json_string_prefix-IsLongestPrefix :
    (value : Text) (content_chars : ℕ)
    → IsLongestPrefix value content_chars (json_string_prefix value content_chars)
unfolding json_string_prefix escaped
json_string_prefix-IsLongestPrefix value content_chars =
    let (k, e, l) = scan-IsLongest content_chars value 0 0 (omega arith) in
    let f : scan content_chars value 0 0 ≡ k = omega (arith, e) in
    record {
      units = k;
      prefix = rw f;
      within = l.within;
      fitting = rw f (omega (arith, l.fitting));
      longest = λ j lt le. omega (arith, l.longest j lt le);
      unsplit = l.unsplit;
    }

-- What `boundedResult` delivers of a text within `maximum` characters: all of it if it fits, and
-- otherwise an envelope that fits around the longest preview for which it does.
abbrev pub IsBounded : (ℕ → ℕ) → Text → ℕ → Bounded → Type 0
IsBounded envelope_chars text maximum whole = length text ≤ maximum
IsBounded envelope_chars text maximum (truncated preview) =
    (maximum < length text)
    × (envelope_chars (length text) + length (escape preview) ≤ maximum)
    × IsLongestPrefix text (maximum - envelope_chars (length text)) preview

-- With a positive budget that holds the text or the empty envelope, a result is delivered whole if
-- it fits, and otherwise in an envelope that fits the budget around the longest preview for which
-- it does.
pub bounded_result-IsBounded :
    (envelope_chars : ℕ → ℕ) (text : Text) (maximum : ℕ)
    → 1 ≤ maximum
    → (length text ≤ maximum) ⊎ (envelope_chars (length text) ≤ maximum)
    → (r : Bounded) × (bounded_result envelope_chars text maximum ≡ ok r)
      × IsBounded envelope_chars text maximum r
unfolding bounded_result
bounded_result-IsBounded envelope_chars text maximum positive room =
    elim (Bool-cases (leb (length text) maximum)) [
      | inl fits ↦ (whole, ground (arith, positive, fits), ground (arith, fits))
      | inr long ↦
          let longest =
            json_string_prefix-IsLongestPrefix text (maximum - envelope_chars (length text)) in
          let enough : envelope_chars (length text) ≤ maximum = ground (arith, long, room) in
          (
            truncated (json_string_prefix text (maximum - envelope_chars (length text))),
            ground (arith, positive, long, enough),
            (ground (arith, long), omega (arith, longest.fitting, enough), longest),
          )
    ]
