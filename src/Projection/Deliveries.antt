-- ===== src/Projection/Deliveries.antt =====
-- What projectFabricExecutionText of src/kiro/projection.ts delivers.
use kiro_fabric.Prelude.{
  ℕ, ◌≤◌, Bool, true, false, ◌≡◌, refl, subst, ◌⊎◌, inl, inr, ◌&&◌, ◌||◌, not, leb, List, ◌++◌,
  Option, none, some, length, Text, arith, if_cases, Option-cases, Bool-cases,
}
use kiro_fabric.Projection.{Receipt, is_given}
use kiro_fabric.Projection.Project.{
  ProjectionResult, ProjectOptions, Retention, complete, canonical, Parts, parts, retained_artifact,
  deliver_inline, deliver_artifact, deliver_nothing, retain, project, is_gone, visible_maximum,
}
use kiro_fabric.Projection.Cuts.{truncate_with_hint_short}

module _ {S : Type 0} (write_artifact : S → Text → S × Option Text) (has_artifact : S → Text → Bool)
    (decimal : ℕ → Text) (json_texts : List Text → Text) (json_text : Text → Text)
    (json_receipt : Receipt → Text) where
  abbrev run : ProjectOptions → S → S × ProjectionResult
  run = project write_artifact has_artifact decimal json_texts json_text json_receipt

  abbrev parts_of :
      ProjectOptions
      → S
      → Parts write_artifact has_artifact decimal json_texts json_text json_receipt
  parts_of = parts write_artifact has_artifact decimal json_texts json_text json_receipt

  -- The text keeps the limit, and is counted.
  pub record Shows (o : ProjectOptions) (x : S × ProjectionResult) : Type 0 where
    pub short :
        length x.1.text
        ≤ visible_maximum write_artifact has_artifact decimal json_texts json_text json_receipt o
    pub counted : x.1.visible_chars ≡ length x.1.text

  -- The artifact of a result holds the output: it was there before, or the whole text or its JSON was
  -- written to it.
  pub data Holds (o : ProjectOptions) (s : S) (x : S × ProjectionResult) (id : Text) : Type 0 where
    held_before :
        (r : ProjectionResult)
        → o.retained ≡ some r
        → r.artifact_id ≡ some id
        → has_artifact x.0 id ≡ true
        → Holds o s x id
    wrote_whole :
        write_artifact (parts_of o s).state (parts_of o s).whole ≡ (x.0, some id)
        → x.1.retention ≡ complete
        → Holds o s x id
    wrote_json :
        (write_artifact (parts_of o s).state (parts_of o s).whole).1 ≡ none
        → write_artifact
            (write_artifact (parts_of o s).state (parts_of o s).whole).0
            (o.canonical_body (parts_of o s).checkpoint_ids)
          ≡ (x.0, some id)
        → x.1.retention ≡ canonical
        → Holds o s x id

  -- The status is that of the execution, a failure is an error, and what is no error shows the whole
  -- text or names an artifact that holds the output.
  pub record Keeps (o : ProjectOptions) (s : S) (x : S × ProjectionResult) : Type 0 where
    pub status : x.1.execution_status ≡ o.result.status
    pub fails : o.result.success ≡ false → x.1.is_error ≡ true
    pub kept :
        x.1.is_error ≡ false
        → (x.1.text ≡ (parts_of o s).whole ++ (parts_of o s).notice)
          ⊎ ((id : Text) × (x.1.artifact_id ≡ some id) × Holds o s x id)

  -- The former artifact is still there.
  still :
      (o : ProjectOptions) (s : S) (r : ProjectionResult) (id : Text) (x : S × ProjectionResult)
      → o.retained ≡ some r
      → r.artifact_id ≡ some id
      → (parts_of o s).loss.output ≡ false
      → x.0 ≡ (parts_of o s).state
      → has_artifact x.0 id ≡ true
  unfolding parts is_gone
  still o s r id x again named there at = ground (arith, again, named, there, at)

  -- The ways in which an output that is too long is delivered.
  retain_cases :
      (P : S × ProjectionResult → Type 0) (o : ProjectOptions) (s : S)
      → ((t : S)
          → P (
            t,
            deliver_nothing write_artifact has_artifact decimal json_texts json_text json_receipt o
                (parts_of o s),
          ))
      → ((t : S) (retention : Retention) (id : Text)
          → ((x : S × ProjectionResult) → x.0 ≡ t → x.1.retention ≡ retention → Holds o s x id)
          → P (
            t,
            deliver_artifact write_artifact has_artifact decimal json_texts json_text json_receipt o
                (parts_of o s)
                retention
                id,
          ))
      → P (
          retain write_artifact has_artifact decimal json_texts json_text json_receipt o
            (parts_of o s))
  unfolding retain
  retain_cases P o s nothing held = elim (Option-cases o.retained) [
    | inr (r, again) ↦ elim (Option-cases r.artifact_id) [
      | inl missing ↦ subst P (ground (arith, again, missing)) (nothing (parts_of o s).state)
      | inr (id, named) ↦ elim (Bool-cases (parts_of o s).loss.output) [
        | inl lost ↦ subst P (ground (arith, again, named, lost)) (nothing (parts_of o s).state)
        | inr there ↦ subst P (ground (arith, again, named, there)) (
            held (parts_of o s).state
              (elim r.retention [ canonical ↦ canonical | other ↦ complete ]) id
              (λ x at kind. held_before r again named (still o s r id x again named there at)))
      ]
    ]
    | inl fresh ↦
        let first = write_artifact (parts_of o s).state (parts_of o s).whole in
        let second = write_artifact first.0 (o.canonical_body (parts_of o s).checkpoint_ids) in
        elim (Option-cases first.1) [
          | inr (id, wrote) ↦
              subst P (ground (arith, fresh, wrote)) (
                held first.0 complete id
                  (λ x at kind. wrote_whole (ground (arith, wrote, at)) kind))
          | inl refused ↦ elim (Option-cases second.1) [
            | inr (id, wrote) ↦ subst P (ground (arith, fresh, refused, wrote)) (
                held second.0 canonical id
                  (λ x at kind. wrote_json refused (ground (arith, wrote, at)) kind))
            | inl refused_too ↦
                subst P (ground (arith, fresh, refused, refused_too)) (nothing second.0)
          ]
        ]
  ]

  -- The text of a projection has at most the visible maximum of units, on every way of delivery,
  -- and its length is reported.
  pub project-Shows : (o : ProjectOptions) (s : S) → Shows o (run o s)
  unfolding project deliver_inline deliver_artifact deliver_nothing
  project-Shows o s =
      let p = parts_of o s in
      let most =
        visible_maximum write_artifact has_artifact decimal json_texts json_text json_receipt o in
      if_cases (Shows o)
        (leb (length (p.whole ++ p.notice)) most
          && (not (is_given (retained_artifact o.retained)) || p.loss.output))
        (λ fits. record { short = ground (arith, fits); counted = refl })
        (λ _.
          retain_cases (Shows o) o s
            (λ t. record { short = truncate_with_hint_short p.whole _ most; counted = refl })
            (λ t retention id holds. record {
              short = truncate_with_hint_short p.whole _ most;
              counted = refl;
            }))

  -- A projection reports the status of its execution, and a failed execution as an error; where it
  -- reports no error, it shows the whole text, or names an artifact that is still held from
  -- before, or to which the whole text was written, or, that write having failed, its JSON.
  pub project-Keeps : (o : ProjectOptions) (s : S) → Keeps o s (run o s)
  unfolding project deliver_inline deliver_artifact deliver_nothing
  project-Keeps o s =
      let p = parts_of o s in
      if_cases (Keeps o s)
        (leb (length (p.whole ++ p.notice)) (
            visible_maximum write_artifact has_artifact decimal json_texts json_text json_receipt o)
          && (not (is_given (retained_artifact o.retained)) || p.loss.output))
        (λ fits. record {
          status = refl;
          fails = λ bad. ground (arith, bad);
          kept = λ fine. inl refl;
        })
        (λ _.
          retain_cases (Keeps o s) o s
            (λ t. record {
              status = refl;
              fails = λ bad. refl;
              kept = λ fine. absurd (ground (arith, fine));
            })
            (λ t retention id holds. record {
              status = refl;
              fails = λ bad. ground (arith, bad);
              kept = λ fine. inr (id, refl, holds _ refl refl);
            }))
