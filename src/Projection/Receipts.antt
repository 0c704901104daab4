-- ===== src/Projection/Receipts.antt =====
-- The recovery receipt of src/kiro/projection.ts counts every call and is bounded.
use kiro_fabric.Prelude.{
  ℕ, ◌+◌, ◌-◌, ◌/◌, ◌≤◌, ◌<◌, ◌≡◌, refl, subst, ◌||◌, not, leb, ◌==◌, if◌then◌else◌, List, [], ◌∷◌,
  ◌++◌, Option, some, length, take, length-take, length-drop, length-append, length-map, map, Text,
  arith, if_cases, All, some-injective,
}
use kiro_fabric.Projection.{
  Call, Execution, CallOutcome, committed, uncertain, issued, call_succeeded, call_failed, outcome,
  Totals, count_outcome, totals, ReceiptEntry, Receipt, entry_of, last_of, recovery_receipt,
  may_have_effects, max_receipt_entries, max_ref_chars, safe_prefix, ellipsis,
}
use kiro_fabric.Projection.Cuts.{safe_prefix_short}

abbrev pub sum_totals : Totals → ℕ
sum_totals t =
    t.committed_count + t.uncertain_count + t.issued_count + t.succeeded_count + t.failed_count

count_outcome_sum :
    (o : CallOutcome) (t : Totals) → sum_totals (count_outcome o t) ≡ sum_totals t + 1
count_outcome_sum committed t = omega arith
count_outcome_sum uncertain t = omega arith
count_outcome_sum issued t = omega arith
count_outcome_sum call_succeeded t = omega arith
count_outcome_sum call_failed t = omega arith

totals_sum :
    (calls : List Call) (t : Totals) → sum_totals (totals calls t) ≡ sum_totals t + length calls
unfolding totals
totals_sum [] t = omega arith
totals_sum (a ∷ calls) t =
    omega (arith, totals_sum calls (count_outcome (outcome a) t), count_outcome_sum (outcome a) t)

-- An entry of bounded size.
pub record IsShort (e : ReceiptEntry) : Type 0 where
  pub ref : length e.ref ≤ max_ref_chars
  pub nested : length e.nested_tool_call_id ≤ 64

entry_of-IsShort : (a : Call) → IsShort (entry_of a)
unfolding entry_of
entry_of-IsShort a = record {
  ref =
      if_cases (λ (t : Text). length t ≤ max_ref_chars) (leb (length a.ref) max_ref_chars)
        (λ fits. ground (arith, fits))
        (λ _. omega (
          arith,
          safe_prefix_short a.ref 511,
          length-append (safe_prefix a.ref 511) (ellipsis ∷ []),
        ));
  nested = safe_prefix_short a.nested_tool_call_id 64;
}

All-IsShort : (calls : List Call) → All IsShort (map entry_of calls)
All-IsShort [] = tt
All-IsShort (a ∷ calls) = (entry_of-IsShort a, All-IsShort calls)

-- The counts of a receipt of these calls.
pub record IsReceipt (calls : List Call) (r : Receipt) : Type 0 where
  pub recorded : r.recorded ≡ length calls
  pub counted : sum_totals r.counts ≡ length calls
  pub shown : r.shown ≡ length r.entries
  pub few : r.shown ≤ max_receipt_entries
  pub omitted : r.shown + r.omitted ≡ length calls
  pub short : All IsShort r.entries

-- A recovery receipt counts each recorded call in exactly one class, has at most 64 entries, says
-- how many calls they leave out, and its references and call ids keep their limits.
pub recovery_receipt-IsReceipt :
    (e : Execution) (r : Receipt) → recovery_receipt e ≡ some r → IsReceipt e.audits r
unfolding recovery_receipt
recovery_receipt-IsReceipt e =
    if_cases Right (e.success || length e.audits == 0 || not (may_have_effects e.audits))
      (λ _ r h. absurd (ground (arith, h)))
      (λ _ r h. subst (IsReceipt e.audits) (some-injective h) (record {
        recorded = refl;
        counted = omega (arith, totals_sum e.audits _);
        shown = refl;
        few = omega (arith, sizes.0);
        omitted = omega (arith, sizes.1);
        short = All-IsShort _;
      }))
  where
    Right : Option Receipt → Type 0
    Right m = (r : Receipt) → m ≡ some r → IsReceipt e.audits r

    sampled : List Call
    sampled =
        if leb (length e.audits) max_receipt_entries
        then e.audits
        else take (max_receipt_entries / 2) e.audits ++ last_of (max_receipt_entries / 2) e.audits

    Few : List Call → Type 0
    Few calls = (length (map entry_of calls) ≤ 64) × (length (map entry_of calls) ≤ length e.audits)

    sizes : Few sampled
    sizes =
        if_cases Few (leb (length e.audits) max_receipt_entries)
          (λ fits. ground (arith, fits, length-map e.audits entry_of))
          (λ large.
            let many : 64 < length e.audits = ground (arith, large) in
            let size =
              length-map
                (take (max_receipt_entries / 2) e.audits
                  ++ last_of (max_receipt_entries / 2) e.audits)
                entry_of in
            let parts =
              length-append (take (max_receipt_entries / 2) e.audits)
                (last_of (max_receipt_entries / 2) e.audits) in
            (
              omega (
                arith,
                size,
                parts,
                many,
                length-take 32 e.audits,
                length-drop (length e.audits - 32) e.audits,
              ),
              omega (
                arith,
                size,
                parts,
                many,
                length-take 32 e.audits,
                length-drop (length e.audits - 32) e.audits,
              ),
            ))
