-- ===== src/LocalEdit/Splices.antt =====
-- The second half of src/providers/local-edit.ts: the edited text and its regions.
use mathlib.Core.List.{append-nil, append_assoc}
use kiro_fabric.Prelude.{
  ℕ, ◌+◌, ◌≤◌, false, ◌≡◌, refl, sym, ap, ◌∙◌, subst, List, [], ◌∷◌, ◌++◌, Option, none, some,
  length, drop, arith, ltb, if_cases, outcome_cases, Outcome, ok, err, ok-injective, Text, slice,
  All,
}
use kiro_fabric.LocalEdit.{
  TextEdit, Region, Range, EditError, file_too_large, Collected, Edited, Written, max_file_bytes,
  append, splice, sort, collect, apply_local_edits,
}
use kiro_fabric.LocalEdit.Collects.{Anchored, Collects, collect-Collects, All-sort}

-- `text` is the original from `end` on, with the ranges replaced: they are ascending and disjoint,
-- all between them is kept, and each region has its range and where its replacement stands, for a
-- text that starts at `written`.
pub data Splices (original : Text)
    : (end written : ℕ) → List Range → Text → List Region → Type 0 where
  keeps : {end written : ℕ} → Splices original end written [] (drop end original) []
  replaces :
      {end written : ℕ} {rs : List Range} {text : Text} {regions : List Region} (r : Range)
      → end ≤ r.start
      → Splices original r.end
          (written + length (slice original end r.start) + length r.text)
          rs
          text
          regions
      → Splices original end written (r ∷ rs) (slice original end r.start ++ r.text ++ text) (
          record {
            before_start = r.start;
            before_end = r.end;
            after_start = written + length (slice original end r.start);
            after_end = written + length (slice original end r.start) + length r.text;
          }
          ∷ regions)

module _ (utf8_bytes : Text → ℕ) (original : Text) where
  record Appends (w : Written) (text : Text) (x : Outcome EditError Written) : Type 0 where
    pieces : (v : Written) → x ≡ ok v → v.pieces ≡ w.pieces ++ text

  append-Appends : (w : Written) (text : Text) → Appends w text (append utf8_bytes original w text)
  unfolding append
  append-Appends w [] = record { pieces = λ v h. ground (arith, h) ∙ sym (append-nil w.pieces) }
  append-Appends w (c ∷ text) = record { pieces = λ v h. ground (arith, h) }

  -- What the loop returns goes on from what is written.
  record Goes (end written : ℕ) (rs : List Range) (w : Written) (x : Outcome EditError Edited)
      : Type 0 where
    result :
        (e : Edited)
        → x ≡ ok e
        → (rest : Text) × (e.text ≡ w.pieces ++ rest)
          × Splices original end written rs rest e.regions

  stops :
      (end written : ℕ) (rs : List Range) (w : Written) (e : EditError)
      → Goes end written rs w (err e)
  stops end written rs w e = record { result = λ d h. absurd (ground (arith, h)) }

  splice-Goes :
      (rs : List Range) (end written : ℕ) (w : Written)
      → Goes end written rs w (splice utf8_bytes original rs end written w)
  unfolding splice
  splice-Goes [] end written w =
      outcome_cases (Goes end written [] w) (append utf8_bytes original w (drop end original))
        (λ x _. stops end written [] w x)
        λ v appended.
          if_cases (Goes end written [] w) (ltb max_file_bytes v.bytes)
            (λ _. stops end written [] w _)
            λ _. record {
              result = λ e h.
                  subst
                    (λ d.
                      (rest : Text) × (d.text ≡ w.pieces ++ rest)
                      × Splices original end written [] rest d.regions)
                    (ok-injective h)
                    (
                      drop end original,
                      (append-Appends w (drop end original)).pieces v appended,
                      keeps,
                    );
            }
  splice-Goes (r ∷ rs) end written w =
      if_cases (Goes end written (r ∷ rs) w) (ltb r.start end) (λ _. stops end written (r ∷ rs) w _)
        λ ascending.
          outcome_cases (Goes end written (r ∷ rs) w)
            (append utf8_bytes original w (slice original end r.start))
            (λ x _. stops end written (r ∷ rs) w x)
            λ v kept.
              outcome_cases (Goes end written (r ∷ rs) w) (append utf8_bytes original v r.text)
                (λ x _. stops end written (r ∷ rs) w x)
                λ u added.
                  outcome_cases (Goes end written (r ∷ rs) w)
                    (splice utf8_bytes original rs r.end
                      (written + length (slice original end r.start) + length r.text) u)
                    (λ x _. stops end written (r ∷ rs) w x)
                    λ e run. record {
                      result = λ d h.
                          let (rest, text, more) =
                            (splice-Goes rs r.end
                                (written + length (slice original end r.start) + length r.text)
                                u).result
                              e run in
                          subst
                            (λ y.
                              (rest : Text) × (y.text ≡ w.pieces ++ rest)
                              × Splices original end written (r ∷ rs) rest y.regions)
                            (ok-injective h)
                            (
                              slice original end r.start ++ r.text ++ rest,
                              text
                                  ∙ ap (λ y. y ++ rest) ((append-Appends v r.text).pieces u added)
                                  ∙ ap (λ y. (y ++ r.text) ++ rest)
                                      ((append-Appends w (slice original end r.start)).pieces v
                                        kept)
                                  ∙ joins w.pieces (slice original end r.start) r.text rest,
                              replaces r (ground (arith, ascending)) more,
                            );
                    }
    where
      joins : (a b c d : Text) → ((a ++ b) ++ c) ++ d ≡ a ++ ((b ++ c) ++ d)
      joins a b c d = ap (λ y. y ++ d) (append_assoc a b c) ∙ append_assoc a (b ++ c) d

  -- What the edits return: an error, or the text and the regions.
  pub record Edits (edits : List TextEdit) (x : Option (Outcome EditError Edited)) : Type 0 where
    pub result : Outcome EditError Edited
    pub returns : x ≡ some result
    pub spliced :
        (e : Edited)
        → result ≡ ok e
        → (ranges : List Range) × All (Anchored original edits) ranges
          × Splices original 0 0 ranges e.text e.regions

  -- The edits return. If they succeed, the text is the original in which disjoint ranges, in
  -- ascending order, are replaced and all else is kept; each range is an occurrence of the old
  -- text of an edit and is replaced by the new text of that edit, and its region says where it
  -- stood and stands.
  pub apply_local_edits-Edits :
      (edits : List TextEdit) → Edits edits (apply_local_edits utf8_bytes original edits)
  unfolding apply_local_edits
  apply_local_edits-Edits edits =
      if_cases (Edits edits) (ltb max_file_bytes (utf8_bytes original))
        (λ _. gives_up file_too_large)
        λ _.
          subst (λ x. Edits edits (finish x)) (sym got.returns)
            (outcome_cases (Edits edits) got.result (λ x _. gives_up x)
              λ c run. record {
                result = splice utf8_bytes original (sort c.ranges) 0 0 fresh;
                returns = refl;
                spliced = λ e h.
                    let (rest, text, all) = (splice-Goes (sort c.ranges) 0 0 fresh).result e h in
                    (
                      sort c.ranges,
                      All-sort (Anchored original edits) c.ranges (got.anchored c run),
                      subst (λ t. Splices original 0 0 (sort c.ranges) t e.regions) (sym text) all,
                    );
              })
    where
      start : Collected
      start = record { ranges = []; occupied = λ i. false; minimum = 0 }

      fresh : Written
      fresh = record { pieces = []; bytes = 0; last_code = 0 }

      got : Collects utf8_bytes original edits (collect utf8_bytes original edits start)
      got = collect-Collects utf8_bytes original edits edits start (λ e m. m) tt

      finish : Option (Outcome EditError Collected) → Option (Outcome EditError Edited)
      finish x = elim x [
        | none ↦ none
        | some r ↦ elim r [
          | err y ↦ some (err y)
          | ok c ↦ some (splice utf8_bytes original (sort c.ranges) 0 0 fresh)
        ]
      ]

      gives_up : (e : EditError) → Edits edits (some (err e))
      gives_up e = record {
        result = err e;
        returns = refl;
        spliced = λ d h. absurd (ground (arith, h));
      }
