-- ===== src/Projection.antt =====
-- src/kiro/projection.ts: the text that an execution shows, and what of it is kept as an artifact. The
-- artifact store is a state with two operations, and JSON and the decimals of numbers are functions:
-- parameters of a section.
pub mod Project
pub mod Cuts
pub mod Deliveries
pub mod Receipts
mod Tests
use Prim.Native.String.{String}
use kiro_fabric.Prelude.{
  ℕ, suc, ◌+◌, ◌-◌, ◌*◌, ◌/◌, min, Bool, true, false, ◌&&◌, ◌||◌, not, ltb, leb, ◌==◌,
  if◌then◌else◌, List, [], ◌∷◌, ◌++◌, Option, none, some, length, take, drop, get_or, map, Text,
  same_text, is_high_surrogate, is_low_surrogate, units, starts_with,
}
use kiro_fabric.Artifacts.{is_artifact_id}
use kiro_fabric.CompilerPool.{TypeError}

pub data Status : Type 0 where
  succeeded failed aborted timed_out : Status

pub record Call : Type 0 where
  pub ref : Text
  pub nested_tool_call_id : Text
  pub started_at : ℕ
  pub ended_at : Option ℕ
  pub success : Option Bool
  pub is_committed : Bool
  pub is_uncertain : Bool
  pub result_chars : Option ℕ
  pub result_truncated : Option Bool

-- An execution, with the ids of its checkpoints.
pub record Execution : Type 0 where
  pub success : Bool
  pub status : Status
  pub audits : List Call
  pub logs : List Text
  pub checkpoints : List Text

abbrev pub max_progress_entries : ℕ
max_progress_entries = 8

abbrev pub max_ref_chars : ℕ
max_ref_chars = 512

abbrev pub max_failure_chars : ℕ
max_failure_chars = 20_000

abbrev pub max_receipt_entries : ℕ
max_receipt_entries = 64

abbrev pub ellipsis : ℕ
ellipsis = 0x2026

unfoldable pub truncation_marker : Text
unfolding units
truncation_marker = units "\n\n… middle omitted …\n\n"

unfoldable pub safe_prefix : Text → ℕ → Text
safe_prefix value maximum =
    let bounded = take maximum value in
    if is_high_surrogate (get_or bounded (length bounded - 1) 0)
    then take (length bounded - 1) bounded
    else bounded

unfoldable pub safe_suffix : Text → ℕ → Text
safe_suffix value maximum =
    let start = length value - maximum in
    if is_low_surrogate (get_or value start 0) && ltb 0 start
    then drop (start + 1) value
    else drop start value

-- `Math.ceil(n / 2)`.
abbrev pub half_up : ℕ → ℕ
half_up n = (n + 1) / 2

unfoldable pub truncate_middle : Text → ℕ → Text
truncate_middle content maximum =
    let head = half_up maximum in
    let kept = maximum - length truncation_marker in
    if leb (length content) maximum
    then content
    else if leb maximum 0
    then []
    else if leb maximum (length truncation_marker + 1)
    then if maximum == 1
      then safe_prefix content 1
      else safe_prefix content head ++ safe_suffix content (maximum - head)
    else safe_prefix content (half_up kept)
      ++ (truncation_marker ++ safe_suffix content (kept - half_up kept))

unfoldable pub truncate_with_hint : Text → ℕ → Text → Text
truncate_with_hint content maximum hint =
    if leb maximum (length hint)
    then safe_prefix hint maximum
    else truncate_middle content (maximum - length hint) ++ hint

-- The regular expression of the read-only references.
abbrev pub read_only_refs : List String
read_only_refs =
    "local.read" ∷ "local.readMany" ∷ "local.readEvidence" ∷ "local.grep" ∷ "local.find"
    ∷ "local.list" ∷ "repo.status" ∷ "repo.sketch" ∷ "repo.focus" ∷ "repo.augment" ∷ "repo.grep"
    ∷ "repo.dwell" ∷ "repo.impact" ∷ "repo.result" ∷ "repo.searchResult" ∷ "repo.anchors"
    ∷ "repo.rules" ∷ "repo.settings" ∷ "state.get" ∷ "state.list" ∷ "state.search" ∷ "fabric.info"
    ∷ "fabric.help" ∷ "artifacts.read" ∷ "mcp.$servers" ∷ "mcp.$tools" ∷ "mcp.$describe" ∷ []

unfoldable pub is_one_of : Text → List String → Bool
unfolding units
is_one_of ref [] = false
is_one_of ref (r ∷ rs) = same_text ref (units r) || is_one_of ref rs

abbrev pub is_letter : ℕ → Bool
is_letter c = (leb 65 c && leb c 90) || (leb 97 c && leb c 122)

unfoldable pub is_all_letters : Text → Bool
is_all_letters [] = true
is_all_letters (c ∷ cs) = is_letter c && is_all_letters cs

unfoldable pub is_read_only : Text → Bool
unfolding units is_one_of starts_with
is_read_only ref =
    is_one_of ref read_only_refs
    || (starts_with (units "tools.") ref && (ltb 6 (length ref) && is_all_letters (drop 6 ref)))

unfoldable pub may_have_effects : List Call → Bool
may_have_effects [] = false
may_have_effects (a ∷ as_) =
    not (is_read_only a.ref) || a.is_uncertain || a.is_committed || may_have_effects as_

abbrev pub is_given {ℓ} : {A : Type ℓ} → Option A → Bool
is_given none = false
is_given (some a) = true

unfoldable pub completed : List Call → List Call
completed [] = []
completed (a ∷ as_) =
    if is_given a.ended_at && is_given a.success then a ∷ completed as_ else completed as_

abbrev pub short_ref : Text → Text
short_ref ref =
    if leb (length ref) max_ref_chars
    then ref
    else safe_prefix ref (max_ref_chars - 1) ++ ellipsis ∷ []

abbrev pub is_success : Option Bool → Bool
is_success (some true) = true
is_success (some false) = false
is_success none = false

unfoldable pub any_call : (Call → Bool) → List Call → Bool
any_call test [] = false
any_call test (a ∷ as_) = test a || any_call test as_

abbrev pub join : List Text → Text
join [] = []
join (x ∷ []) = x
join (x ∷ y ∷ xs) = x ++ (44 ∷ 32 ∷ join (y ∷ xs))

-- The recovery receipt: outcome classes, and their counts.
pub data CallOutcome : Type 0 where
  committed uncertain issued call_succeeded call_failed : CallOutcome

unfoldable pub outcome : Call → CallOutcome
outcome a =
    if a.is_committed
    then committed
    else if a.is_uncertain
    then uncertain
    else if not (is_given a.ended_at)
    then issued
    else if is_success a.success
    then call_succeeded
    else call_failed

pub record Totals : Type 0 where
  pub committed_count : ℕ
  pub uncertain_count : ℕ
  pub issued_count : ℕ
  pub succeeded_count : ℕ
  pub failed_count : ℕ

abbrev pub count_outcome : CallOutcome → Totals → Totals
count_outcome committed t = record t { committed_count = t.committed_count + 1 }
count_outcome uncertain t = record t { uncertain_count = t.uncertain_count + 1 }
count_outcome issued t = record t { issued_count = t.issued_count + 1 }
count_outcome call_succeeded t = record t { succeeded_count = t.succeeded_count + 1 }
count_outcome call_failed t = record t { failed_count = t.failed_count + 1 }

unfoldable pub totals : List Call → Totals → Totals
totals [] t = t
totals (a ∷ as_) t = totals as_ (count_outcome (outcome a) t)

-- A difference of two times.
pub data ℤ : Type 0 where
  pos negsuc : ℕ → ℤ

pub record ReceiptEntry : Type 0 where
  pub ref : Text
  pub is_ref_truncated : Bool
  pub nested_tool_call_id : Text
  pub outcome_of : CallOutcome
  pub started_at : ℕ
  pub ended_at : Option ℕ
  pub elapsed_ms : Option ℤ
  pub result_chars : Option ℕ
  pub result_truncated : Option Bool

pub record Receipt : Type 0 where
  pub execution_status : Status
  pub recorded : ℕ
  pub shown : ℕ
  pub omitted : ℕ
  pub counts : Totals
  pub entries : List ReceiptEntry

abbrev pub elapsed : ℕ → Option ℕ → Option ℤ
elapsed start none = none
elapsed start (some end) =
    if leb start end then some (pos (end - start)) else some (negsuc (start - end - 1))

unfoldable pub entry_of : Call → ReceiptEntry
entry_of a = record {
  ref = short_ref a.ref;
  is_ref_truncated = ltb max_ref_chars (length a.ref);
  nested_tool_call_id = safe_prefix a.nested_tool_call_id 64;
  outcome_of = outcome a;
  started_at = a.started_at;
  ended_at = a.ended_at;
  elapsed_ms = elapsed a.started_at a.ended_at;
  result_chars = a.result_chars;
  result_truncated = a.result_truncated;
}

-- `audits.slice(-n)`.
abbrev pub last_of : ℕ → List Call → List Call
last_of n as_ = drop (length as_ - n) as_

unfoldable pub recovery_receipt : Execution → Option Receipt
recovery_receipt e =
    let edge = max_receipt_entries / 2 in
    let sampled =
      if leb (length e.audits) max_receipt_entries
      then e.audits
      else take edge e.audits ++ last_of edge e.audits in
    let entries = map entry_of sampled in
    if e.success || length e.audits == 0 || not (may_have_effects e.audits)
    then none
    else some (record {
      execution_status = e.status;
      recorded = length e.audits;
      shown = length entries;
      omitted = length e.audits - length entries;
      counts = totals e.audits (record {
        committed_count = 0;
        uncertain_count = 0;
        issued_count = 0;
        succeeded_count = 0;
        failed_count = 0;
      });
      entries = entries;
    })

unfoldable pub is_member : Text → List Text → Bool
is_member x [] = false
is_member x (y ∷ ys) = same_text x y || is_member x ys

-- The first eight ids that are artifact ids, each once.
unfoldable pub artifact_ids : List Text → List Text
artifact_ids [] = []
artifact_ids (x ∷ xs) = if is_artifact_id x then x ∷ artifact_ids xs else artifact_ids xs

unfoldable pub unique : List Text → List Text → List Text
unique seen [] = []
unique seen (x ∷ xs) = if is_member x seen then unique seen xs else x ∷ unique (x ∷ seen) xs

abbrev pub issued_checkpoints : Execution → List Text
issued_checkpoints e = unique [] (artifact_ids (take 8 e.checkpoints))

-- `compactTypeErrors`: identical advice is shown once.
unfoldable pub compact_from : List Text → List TypeError → List TypeError
compact_from hints [] = []
compact_from hints (x ∷ xs) = elim x.hint [
  | none ↦ x ∷ compact_from hints xs
  | some hint ↦
      let again = compact_from hints xs in
      let fresh = compact_from (hint ∷ hints) xs in
      if is_member hint hints then (record x { hint = none }) ∷ again else x ∷ fresh
]

abbrev pub compact_type_errors : List TypeError → List TypeError
compact_type_errors errors = compact_from [] errors
