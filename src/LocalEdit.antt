-- ===== src/LocalEdit.antt =====
-- src/providers/local-edit.ts: every anchor is resolved against the original text, then all
-- replacements are made at once. The length in UTF-8, Node's Buffer.byteLength, is a parameter.
pub mod Collects
pub mod Splices
mod Tests
use kiro_fabric.Prelude.{
  ℕ, zero, suc, ◌+◌, ◌-◌, ◌*◌, Bool, true, false, ◌&&◌, ◌||◌, not, ltb, leb, ◌==◌, if◌then◌else◌,
  List, [], ◌∷◌, ◌++◌, Option, none, some, length, drop, get_or, Text, slice, is_high_surrogate,
  is_low_surrogate, index_of, index_of_from, Outcome, ok, err,
}

pub record TextEdit : Type 0 where
  pub old_text : Text
  pub new_text : Text
  pub all : Bool

pub record Region : Type 0 where
  pub before_start : ℕ
  pub before_end : ℕ
  pub after_start : ℕ
  pub after_end : ℕ

pub record Range : Type 0 where
  pub start : ℕ
  pub end : ℕ
  pub text : Text

pub data EditError : Type 0 where
  file_too_large empty_anchor not_found not_unique overlapping too_many proposed_too_large :
      EditError

abbrev pub max_file_bytes : ℕ
max_file_bytes = 2 * 1024 * 1024

-- `ranges` in the order of their pushes, the array `occupied` as a test of a position.
pub record Collected : Type 0 where
  pub ranges : List Range
  pub occupied : ℕ → Bool
  pub minimum : ℕ

unfoldable pub is_any_occupied : (ℕ → Bool) → ℕ → ℕ → Bool
is_any_occupied occupied start zero = false
is_any_occupied occupied start (suc n) = occupied start || is_any_occupied occupied (start + 1) n

-- `Array.prototype.sort` by `start`, which is stable.
unfoldable pub insert : Range → List Range → List Range
insert r [] = r ∷ []
insert r (s ∷ rs) = if leb r.start s.start then r ∷ s ∷ rs else s ∷ insert r rs

unfoldable pub sort : List Range → List Range
sort [] = []
sort (r ∷ rs) = insert r (sort rs)

pub record Edited : Type 0 where
  pub text : Text
  pub regions : List Region

-- What `append` writes to: the joined pieces, their bytes and their last code unit.
pub record Written : Type 0 where
  pub pieces : Text
  pub bytes : ℕ
  pub last_code : ℕ

module _ (utf8_bytes : Text → ℕ) (original : Text) where
  -- The body of the inner loop.
  unfoldable pub place : TextEdit → ℕ → Collected → Outcome EditError Collected
  place e start c =
      let end = start + length e.old_text in
      let minimum = c.minimum + (utf8_bytes e.new_text - 4) in
      if is_any_occupied c.occupied start (length e.old_text)
      then err overlapping
      else if leb 10_000 (length c.ranges)
      then err too_many
      else if ltb max_file_bytes minimum
      then err proposed_too_large
      else ok (record {
        ranges = c.ranges ++ record { start = start; end = end; text = e.new_text } ∷ [];
        occupied = λ i. (leb start i && ltb i end) || c.occupied i;
        minimum = minimum;
      })

  -- The inner loop, with the rounds left. `none`: no rounds are left.
  unfoldable pub place_all : ℕ → TextEdit → ℕ → Collected → Option (Outcome EditError Collected)
  place_all zero e start c = none
  place_all (suc rounds) e start c = elim (place e start c) [
    | err x ↦ some (err x)
    | ok d ↦
        elim (if e.all
          then index_of_from e.old_text original (start + length e.old_text)
          else none) [ none ↦ some (ok d) | some next ↦ place_all rounds e next d ]
  ]

  abbrev pub is_repeated : TextEdit → ℕ → Bool
  is_repeated e first = elim (index_of_from e.old_text original (first + 1)) [
    | none ↦ false
    | some _ ↦ not e.all
  ]

  unfoldable pub collect : List TextEdit → Collected → Option (Outcome EditError Collected)
  collect [] c = some (ok c)
  collect (e ∷ es) c =
      if length e.old_text == 0
      then some (err empty_anchor)
      else elim (index_of e.old_text original) [
        | none ↦ some (err not_found)
        | some first ↦
            if is_repeated e first
            then some (err not_unique)
            else elim (place_all (suc (length original)) e first c) [
              | none ↦ none
              | some r ↦ elim r [ err x ↦ some (err x) | ok d ↦ collect es d ]
            ]
      ]

  -- Two units of two pieces that form a pair take two bytes less than apart.
  unfoldable pub append : Written → Text → Outcome EditError Written
  append w text =
      let joined = is_high_surrogate w.last_code && is_low_surrogate (get_or text 0 0) in
      let bytes = w.bytes + utf8_bytes text - (if joined then 2 else 0) in
      let last = get_or text (length text - 1) 0 in
      if length text == 0
      then ok w
      else if ltb max_file_bytes (bytes - (if is_high_surrogate last then 2 else 0))
      then err proposed_too_large
      else ok (record { pieces = w.pieces ++ text; bytes = bytes; last_code = last })

  -- The loop over the sorted ranges, and the rest of the original behind them.
  unfoldable pub splice : List Range → (end written : ℕ) → Written → Outcome EditError Edited
  splice [] end written w = elim (append w (drop end original)) [
    | err x ↦ err x
    | ok v ↦
        if ltb max_file_bytes v.bytes
        then err proposed_too_large
        else ok (record { text = v.pieces; regions = [] })
  ]
  splice (r ∷ rs) end written w =
      let after_start = written + length (slice original end r.start) in
      let after_end = after_start + length r.text in
      if ltb r.start end then err overlapping else elim (append w (slice original end r.start)) [
        | err x ↦ err x
        | ok v ↦ elim (append v r.text) [
          | err x ↦ err x
          | ok u ↦ elim (splice rs r.end after_end u) [
            | err x ↦ err x
            | ok e ↦ ok (record e {
              regions =
                  record {
                    before_start = r.start;
                    before_end = r.end;
                    after_start = after_start;
                    after_end = after_end;
                  }
                  ∷ e.regions;
            })
          ]
        ]
      ]

  unfoldable pub apply_local_edits : List TextEdit → Option (Outcome EditError Edited)
  apply_local_edits edits =
      if ltb max_file_bytes (utf8_bytes original)
      then some (err file_too_large)
      else elim (collect edits (record { ranges = []; occupied = λ i. false; minimum = 0 })) [
        | none ↦ none
        | some r ↦ elim r [
          | err x ↦ some (err x)
          | ok c ↦
              some (splice (sort c.ranges) 0 0 (record { pieces = []; bytes = 0; last_code = 0 }))
        ]
      ]
