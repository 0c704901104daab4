-- ===== src/LocalEdit/Collects.antt =====
-- The first half of src/providers/local-edit.ts: where the anchors stand.
use kiro_fabric.Prelude.{
  ℕ, zero, suc, ◌+◌, ◌-◌, ◌≤◌, ◌<◌, true, ◌≡◌, refl, sym, subst, inl, inr, List, [], ◌∷◌, ◌++◌,
  Option, none, some, length, length-drop, drop, arith, leb, ◌==◌, if◌then◌else◌, Bool-cases,
  if_cases, option_cases, outcome_cases, Outcome, ok, err, ok-injective, Text, All, occurs,
  starts_with, index_of, index_of_from, index_of-IsFirst, index_of_from-IsFirstFrom,
}
use kiro_fabric.LocalEdit.{
  TextEdit, Range, Collected, EditError, place, place_all, is_repeated, collect, insert, sort,
}

pub data In (e : TextEdit) : List TextEdit → Type 0 where
  first : {es : List TextEdit} → In e (e ∷ es)
  later : {d : TextEdit} {es : List TextEdit} → In e es → In e (d ∷ es)

-- A range that an anchor of the edits covers, with that edit's replacement.
pub record Anchored (original : Text) (edits : List TextEdit) (r : Range) : Type 0 where
  pub edit : TextEdit
  pub listed : In edit edits
  pub found : occurs edit.old_text original r.start ≡ true
  pub ended : r.end ≡ r.start + length edit.old_text
  pub replaced : r.text ≡ edit.new_text

starts_with-le : (query text : Text) → starts_with query text ≡ true → length query ≤ length text
unfolding starts_with
starts_with-le [] text h = omega arith
starts_with-le (q ∷ query) [] h = absurd (ground (arith, h))
starts_with-le (q ∷ query) (t ∷ text) h = ground (arith, h, starts_with-le query text)

occurs-le :
    (query text : Text) (i : ℕ)
    → 1 ≤ length query
    → occurs query text i ≡ true
    → i + length query ≤ length text
occurs-le query text i some_query h =
    omega (arith, starts_with-le query (drop i text) h, length-drop i text)

All-append :
    (P : Range → Type 0) (xs : List Range) (y : Range) → All P xs → P y → All P (xs ++ y ∷ [])
All-append P [] y h k = (k, tt)
All-append P (x ∷ xs) y h k = (h.0, All-append P xs y h.1 k)

All-insert :
    (P : Range → Type 0) (r : Range) (rs : List Range) → P r → All P rs → All P (insert r rs)
unfolding insert
All-insert P r [] h k = (h, tt)
All-insert P r (s ∷ rs) h k = elim (Bool-cases (leb r.start s.start)) [
  | inl le ↦ rw (le, insert) (h, k)
  | inr gt ↦ rw (gt, insert) (k.0, All-insert P r rs h k.1)
]

-- Sorting keeps what holds of every range.
pub All-sort : (P : Range → Type 0) (rs : List Range) → All P rs → All P (sort rs)
unfolding sort
All-sort P [] h = tt
All-sort P (r ∷ rs) h = All-insert P r (sort rs) h.0 (All-sort P rs h.1)

module _ (utf8_bytes : Text → ℕ) (original : Text) (edits : List TextEdit) where
  -- A call that returns: an error, or ranges that are all anchored.
  pub record Collects (x : Option (Outcome EditError Collected)) : Type 0 where
    pub result : Outcome EditError Collected
    pub returns : x ≡ some result
    pub anchored : (c : Collected) → result ≡ ok c → All (Anchored original edits) c.ranges

  fails : (e : EditError) → Collects (some (err e))
  fails e = record { result = err e; returns = refl; anchored = λ c h. absurd (ground (arith, h)) }

  succeeds : (c : Collected) → All (Anchored original edits) c.ranges → Collects (some (ok c))
  succeeds c a = record {
    result = ok c;
    returns = refl;
    anchored = λ d h. subst (λ x. All (Anchored original edits) x.ranges) (ok-injective h) a;
  }

  place-Anchored :
      (e : TextEdit) (start : ℕ) (c d : Collected)
      → In e edits
      → occurs e.old_text original start ≡ true
      → All (Anchored original edits) c.ranges
      → place utf8_bytes original e start c ≡ ok d
      → All (Anchored original edits) d.ranges
  unfolding place
  place-Anchored e start c d i o a h =
      subst (λ rs. All (Anchored original edits) rs) (ground (arith, h))
        (All-append (Anchored original edits) c.ranges
          (record { start = start; end = start + length e.old_text; text = e.new_text }) a
          (record { edit = e; listed = i; found = o; ended = refl; replaced = refl }))

  place_all-Collects :
      (rounds : ℕ) (e : TextEdit) (start : ℕ) (c : Collected)
      → In e edits
      → 1 ≤ length e.old_text
      → occurs e.old_text original start ≡ true
      → length original - start < rounds
      → All (Anchored original edits) c.ranges
      → Collects (place_all utf8_bytes original rounds e start c)
  unfolding place_all
  place_all-Collects zero e start c i n o f a = absurd (omega arith)
  place_all-Collects (suc rounds) e start c i n o f a =
      outcome_cases Collects (place utf8_bytes original e start c) (λ x _. fails x)
        λ d placed.
          let kept = place-Anchored e start c d i o a placed in
          option_cases Collects
            (if e.all then index_of_from e.old_text original (start + length e.old_text) else none)
            (λ _. succeeds d kept)
            λ next found.
              let from =
                index_of_from-IsFirstFrom e.old_text original (start + length e.old_text) next
                  (ground (arith, found)) in
              place_all-Collects rounds e next d i n from.here
                (omega (arith, from.behind, occurs-le e.old_text original start n o)) kept

  abbrev after :
      TextEdit
      → List TextEdit
      → Option (Outcome EditError Collected)
      → Option (Outcome EditError Collected)
  after e es x = elim x [
    | none ↦ none
    | some r ↦ elim r [ err y ↦ some (err y) | ok d ↦ collect utf8_bytes original es d ]
  ]

  pub collect-Collects :
      (es : List TextEdit) (c : Collected)
      → ((e : TextEdit) → In e es → In e edits)
      → All (Anchored original edits) c.ranges
      → Collects (collect utf8_bytes original es c)
  unfolding collect
  collect-Collects [] c sub a = succeeds c a
  collect-Collects (e ∷ es) c sub a =
      if_cases Collects (length e.old_text == 0) (λ _. fails _)
        λ nonempty.
          option_cases Collects (index_of e.old_text original) (λ _. fails _)
            λ first_at found.
              if_cases Collects (is_repeated utf8_bytes original e first_at) (λ _. fails _)
                λ _.
                  let some_anchor : 1 ≤ length e.old_text = ground (arith, nonempty) in
                  let got =
                    place_all-Collects (suc (length original)) e first_at c (sub e first)
                      some_anchor (index_of-IsFirst e.old_text original first_at found).here
                      (omega arith) a in
                  subst (λ x. Collects (after e es x)) (sym got.returns)
                    (outcome_cases Collects got.result (λ x _. fails x)
                      (λ d run.
                        collect-Collects es d (λ e' m. sub e' (later m)) (got.anchored d run)))
