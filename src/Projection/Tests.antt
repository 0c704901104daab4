-- ===== src/Projection/Tests.antt =====
-- A small projection of src/kiro/projection.ts.
use kiro_fabric.Prelude.{
  ℕ, Bool, true, false, ◌≡◌, refl, List, [], ◌∷◌, Option, none, some, length, Text, replicate, ltb,
  if◌then◌else◌, units, starts_with, same_text,
}
use kiro_fabric.Projection.{
  failed, Call, Execution, Receipt, recovery_receipt, may_have_effects, is_read_only, is_one_of,
  totals, outcome, entry_of, safe_prefix, is_all_letters,
}
use kiro_fabric.Projection.Project.{ProjectOptions, project}
use kiro_fabric.Projection.Deliveries.{Shows, Keeps, project-Shows, project-Keeps}
use kiro_fabric.Projection.Receipts.{IsReceipt, recovery_receipt-IsReceipt}

-- A store of texts of at most 40 units, under the number of those before.
abbrev write_text : List Text → Text → List Text × Option Text
write_text s content =
    if ltb 40 (length content) then (s, none) else (content ∷ s, some (length s ∷ []))

abbrev holds_text : List Text → Text → Bool
holds_text s id = true

abbrev zero_text : ℕ → Text
zero_text n = 48 ∷ []

abbrev no_texts : List Text → Text
no_texts texts = []

abbrev same : Text → Text
same text = text

abbrev no_receipt : Receipt → Text
no_receipt r = []

abbrev failed_call : Call
failed_call = record {
  ref = 97 ∷ [];
  nested_tool_call_id = 98 ∷ [];
  started_at = 3;
  ended_at = some 5;
  success = some false;
  is_committed = false;
  is_uncertain = true;
  result_chars = none;
  result_truncated = none;
}

abbrev execution : Execution
execution = record {
  success = false;
  status = failed;
  audits = failed_call ∷ [];
  logs = [];
  checkpoints = [];
}

abbrev options : ProjectOptions
options = record {
  result = execution;
  max_output_chars = 30;
  body = λ ids. replicate 50 99;
  canonical_body = λ ids. replicate 35 99;
  retained = none;
}

project-Shows_example :
    Shows write_text holds_text zero_text no_texts same no_receipt options
      (project write_text holds_text zero_text no_texts same no_receipt options [])
project-Shows_example =
    project-Shows write_text holds_text zero_text no_texts same no_receipt options []

project-Keeps_example :
    Keeps write_text holds_text zero_text no_texts same no_receipt options []
      (project write_text holds_text zero_text no_texts same no_receipt options [])
project-Keeps_example =
    project-Keeps write_text holds_text zero_text no_texts same no_receipt options []

abbrev receipt : Receipt
receipt = record {
  execution_status = failed;
  recorded = 1;
  shown = 1;
  omitted = 0;
  counts = record {
    committed_count = 0;
    uncertain_count = 1;
    issued_count = 0;
    succeeded_count = 0;
    failed_count = 0;
  };
  entries = entry_of failed_call ∷ [];
}

received : recovery_receipt execution ≡ some receipt
unfolding recovery_receipt may_have_effects is_read_only is_one_of units same_text starts_with
    totals outcome entry_of safe_prefix is_all_letters
received = refl

recovery_receipt-IsReceipt_example : IsReceipt (failed_call ∷ []) receipt
recovery_receipt-IsReceipt_example = recovery_receipt-IsReceipt execution receipt received
