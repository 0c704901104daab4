-- ===== src/Projection/Project.antt =====
-- projectFabricExecutionText of src/kiro/projection.ts, and the notes of a failure.
use Prim.Native.String.{String}
use kiro_fabric.Prelude.{
  ℕ, ◌+◌, ◌-◌, ◌*◌, ◌/◌, min, Bool, true, false, ◌&&◌, ◌||◌, not, ltb, leb, ◌==◌, if◌then◌else◌,
  List, [], ◌∷◌, ◌++◌, Option, none, some, length, take, Text, same_text, units,
}
use kiro_fabric.Projection.{
  Status, succeeded, failed, aborted, timed_out, Call, Execution, Receipt, max_progress_entries,
  max_failure_chars, ellipsis, truncate_with_hint, may_have_effects, completed, short_ref,
  is_success, is_given, any_call, join, last_of, recovery_receipt, issued_checkpoints,
}

abbrev pub status_text : Status → String
status_text succeeded = "succeeded"
status_text failed = "failed"
status_text aborted = "aborted"
status_text timed_out = "timed_out"

pub data Delivery : Type 0 where
  inline artifact unavailable : Delivery

pub data Retention : Type 0 where
  kept_inline complete canonical lost_output : Retention

pub record RetentionLoss : Type 0 where
  pub checkpoints : ℕ
  pub receipt : Bool
  pub output : Bool

pub record ProjectionResult : Type 0 where
  pub text : Text
  pub is_error : Bool
  pub execution_status : Status
  pub delivery_status : Delivery
  pub receipt_id : Option Text
  pub artifact_id : Option Text
  pub visible_chars : ℕ
  pub is_overflowed : Bool
  pub is_artifact_retained : Bool
  pub retention : Retention
  pub checkpoint_ids : List Text
  pub retention_loss : RetentionLoss

unfoldable pub ref_label : Call → Text
unfolding units
ref_label a =
    short_ref a.ref
    ++ units (if is_success a.success then " succeeded" else " failed")
    ++ units (
        if a.is_committed
        then " (committed)"
        else if a.is_uncertain
        then " (effect uncertain)"
        else "")

abbrev pub is_lost : RetentionLoss → Bool
is_lost loss = ltb 0 loss.checkpoints || loss.receipt || loss.output

-- The options of a call. The bodies are the value as text or JSON; that of a failure names the
-- checkpoints that are still there.
pub record ProjectOptions : Type 0 where
  pub result : Execution
  pub max_output_chars : ℕ
  pub body : List Text → Text
  pub canonical_body : List Text → Text
  pub retained : Option ProjectionResult

abbrev pub retained_artifact : Option ProjectionResult → Option Text
retained_artifact none = none
retained_artifact (some r) = r.artifact_id

module _ {S : Type 0} (write_artifact : S → Text → S × Option Text) (has_artifact : S → Text → Bool)
    (decimal : ℕ → Text) (json_texts : List Text → Text) (json_text : Text → Text)
    (json_receipt : Receipt → Text) where
  -- The labels of calls, where equal ones that follow each other are counted.
  abbrev pub flush_label : Text → ℕ → List Text
  flush_label [] repeats = []
  flush_label (c ∷ cs) repeats =
      (if ltb 1 repeats then (c ∷ cs) ++ (32 ∷ 0xd7 ∷ decimal repeats) else c ∷ cs) ∷ []

  unfoldable pub encode_from : List Call → Text → ℕ → List Text
  unfolding ref_label
  encode_from [] previous repeats = flush_label previous repeats
  encode_from (a ∷ as_) previous repeats =
      let label = ref_label a in
      let same = encode_from as_ previous (repeats + 1) in
      let other = encode_from as_ label 1 in
      if same_text label previous then same else flush_label previous repeats ++ other

  unfoldable pub summaries : List Call → List Text
  unfolding units
  summaries calls =
      let edge = max_progress_entries / 2 in
      if leb (length calls) max_progress_entries
      then encode_from calls [] 0
      else encode_from (take edge calls) [] 0
        ++ ((ellipsis ∷ 32 ∷ decimal (length calls - 2 * edge)) ++ units " more …")
          ∷ encode_from (last_of edge calls) [] 0

  unfoldable pub failure_progress : Execution → Text
  unfolding units
  failure_progress e =
      let done = completed e.audits in
      let is_uncertain = any_call (λ a. a.is_uncertain) done in
      if e.success || not (may_have_effects e.audits) || length done == 0
      then []
      else units "\n\nNested calls: "
        ++ (join (summaries done)
            ++ (units ".\n"
                ++ (if any_call (λ a. a.is_committed) done
                    then units
                        "A mutation is known committed although acknowledgement failed; inspect the affected file or durable key before retrying."
                    else units
                        "Inspect current state before retrying fabric_exec; completed calls may already have taken effect"
                      ++ (units (if is_uncertain then " and shell effects are uncertain" else "")
                          ++ units "."))))

  unfoldable pub available : S → List Text → List Text
  available s [] = []
  available s (x ∷ xs) = if has_artifact s x then x ∷ available s xs else available s xs

  unfoldable pub is_gone : S → Option Text → Bool
  is_gone s none = false
  is_gone s (some id) = not (has_artifact s id)

  unfoldable pub loss_names : RetentionLoss → List Text
  unfolding units
  loss_names loss =
      (if ltb 0 loss.checkpoints
        then (decimal loss.checkpoints ++ units " checkpoint(s)") ∷ []
        else [])
      ++ ((if loss.receipt then units "recovery receipt" ∷ [] else [])
          ++ (if loss.output then units "full output" ∷ [] else []))

  unfoldable pub retention_notice : RetentionLoss → Text
  unfolding units
  retention_notice loss =
      if is_lost loss
      then units "\n\nEphemeral evidence unavailable: " ++ (join (loss_names loss) ++ units ".")
      else []

  unfoldable pub recovery_notice : Option Receipt → Option Text → Text → Text
  unfolding units
  recovery_notice none id progress = []
  recovery_notice (some r) id progress =
      units (
        if length progress == 0
        then "\n\nInspect current state before retrying fabric_exec; started calls may already have taken effect."
        else "")
      ++ elim id [
        | none ↦ units "\n\nRecovery receipt (unavailable)."
        | some i ↦ units "\n\nRecovery receipt: artifacts.read({id:" ++ (json_text i ++ units "}).")
      ]

  unfoldable pub recovery_hint : Option Receipt → Option Text → Text
  unfolding units
  recovery_hint none id = []
  recovery_hint (some r) id =
      units "\nRecovery receipt"
      ++ ((elim id [ none ↦ units " unavailable" | some i ↦ 32 ∷ i ++ units " (artifacts.read)" ])
          ++ units "; retryProgram: false.")

  abbrev pub visible_maximum : ProjectOptions → ℕ
  visible_maximum o =
      if o.result.success then o.max_output_chars else min o.max_output_chars max_failure_chars

  -- The receipt of a failure is kept once: a projection again takes the former one.
  unfoldable pub keep_receipt : ProjectOptions → S → S × Option Text
  keep_receipt o s = elim o.retained [
    | some r ↦ (s, r.receipt_id)
    | none ↦ elim (recovery_receipt o.result) [
      | none ↦ (s, none)
      | some r ↦ write_artifact s (json_receipt r)
    ]
  ]

  -- What is projected: the texts and the losses, in the state behind the receipt.
  pub record Parts : Type 0 where
    pub state : S
    pub checkpoint_ids : List Text
    pub receipt_id : Option Text
    pub loss : RetentionLoss
    pub whole : Text
    pub notice : Text
    pub hint : Text

  unfoldable pub parts : ProjectOptions → S → Parts
  unfolding units
  parts o s =
      let issued = issued_checkpoints o.result in
      let ids = available s issued in
      let kept = keep_receipt o s in
      let t = kept.0 in
      let loss : RetentionLoss = record {
        checkpoints = length issued - length ids;
        receipt = is_gone t kept.1;
        output = is_gone t (retained_artifact o.retained);
      } in
      let receipt_id : Option Text = if loss.receipt then none else kept.1 in
      let progress = failure_progress o.result in
      let logs : Text =
        if ltb 0 (length o.result.logs)
        then units "\n\nFabric logs: " ++ json_texts o.result.logs
        else [] in
      let checkpoints : Text =
        if ltb 0 (length ids)
        then units "\n\nEphemeral checkpoint handles (read with artifacts.read): " ++ json_texts ids
        else [] in
      let receipt = recovery_receipt o.result in
      record {
        state = t;
        checkpoint_ids = ids;
        receipt_id = receipt_id;
        loss = loss;
        whole =
            o.body ids
            ++ (logs ++ (progress ++ (recovery_notice receipt receipt_id progress ++ checkpoints)));
        notice = retention_notice loss;
        hint = recovery_hint receipt receipt_id;
      }

  unfoldable pub deliver_inline : ProjectOptions → Parts → ProjectionResult
  deliver_inline o p = record {
    text = p.whole ++ p.notice;
    is_error = not o.result.success;
    execution_status = o.result.status;
    delivery_status = inline;
    receipt_id = p.receipt_id;
    artifact_id = none;
    visible_chars = length (p.whole ++ p.notice);
    is_overflowed = false;
    is_artifact_retained = false;
    retention = kept_inline;
    checkpoint_ids = p.checkpoint_ids;
    retention_loss = p.loss;
  }

  unfoldable pub artifact_hint : ProjectOptions → Retention → Text → Text
  unfolding units
  artifact_hint o retention id =
      units "\n\nOutput exceeded "
      ++ (decimal (visible_maximum o)
          ++ (units " characters. "
              ++ (units (elim retention [
                | complete ↦ "Full result"
                | other ↦ "Canonical JSON result (formatting/logs/progress omitted)"
              ])
                  ++ (units " is artifact "
                      ++ (id
                          ++ (units "; read it with await artifacts.read({ id: "
                              ++ (json_text id ++ units " }).")))))))

  unfoldable pub deliver_artifact : ProjectOptions → Parts → Retention → Text → ProjectionResult
  deliver_artifact o p retention id =
      let text =
        truncate_with_hint p.whole (visible_maximum o)
          (artifact_hint o retention id ++ (p.hint ++ p.notice)) in
      record {
        text = text;
        is_error = not o.result.success;
        execution_status = o.result.status;
        delivery_status = artifact;
        receipt_id = p.receipt_id;
        artifact_id = some id;
        visible_chars = length text;
        is_overflowed = true;
        is_artifact_retained = true;
        retention = retention;
        checkpoint_ids = p.checkpoint_ids;
        retention_loss = p.loss;
      }

  unfoldable pub unavailable_hint : Status → Text
  unfolding units
  unavailable_hint status =
      units "\n\nOutput could not be retained; execution: "
      ++ (units (status_text status)
          ++ units
              "; delivery: unavailable; retryProgram: false. Effects may already be applied; inspect state.")

  unfoldable pub deliver_nothing : ProjectOptions → Parts → ProjectionResult
  deliver_nothing o p =
      let text =
        truncate_with_hint p.whole (visible_maximum o)
          (unavailable_hint o.result.status ++ (p.hint ++ p.notice)) in
      record {
        text = text;
        is_error = true;
        execution_status = o.result.status;
        delivery_status = unavailable;
        receipt_id = p.receipt_id;
        artifact_id = none;
        visible_chars = length text;
        is_overflowed = true;
        is_artifact_retained = false;
        retention = lost_output;
        checkpoint_ids = p.checkpoint_ids;
        retention_loss = p.loss;
      }

  -- An output that is too long: the former artifact, or a new one of the whole text or of its JSON.
  unfoldable pub retain : ProjectOptions → Parts → S × ProjectionResult
  retain o p = elim o.retained [
    | some r ↦ elim r.artifact_id [
      | none ↦ (p.state, deliver_nothing o p)
      | some id ↦ if p.loss.output then (p.state, deliver_nothing o p) else (
        p.state,
        deliver_artifact o p (elim r.retention [ canonical ↦ canonical | other ↦ complete ]) id,
      )
    ]
    | none ↦
        let first = write_artifact p.state p.whole in
        let second = write_artifact first.0 (o.canonical_body p.checkpoint_ids) in
        elim first.1 [
          | some id ↦ (first.0, deliver_artifact o p complete id)
          | none ↦ elim second.1 [
            | some id ↦ (second.0, deliver_artifact o p canonical id)
            | none ↦ (second.0, deliver_nothing o p)
          ]
        ]
  ]

  unfoldable pub project : ProjectOptions → S → S × ProjectionResult
  project o s =
      let p = parts o s in
      if leb (length (p.whole ++ p.notice)) (visible_maximum o)
        && (not (is_given (retained_artifact o.retained)) || p.loss.output)
      then (p.state, deliver_inline o p)
      else retain o p
