-- ===== src/LocalEdit/Tests.antt =====
-- Two replacements by one edit of src/providers/local-edit.ts, and edits that it refuses.
use kiro_fabric.Prelude.{
  true, false, ◌≡◌, refl, [], ◌∷◌, some, length, ok, err, Text, starts_with, index_of,
  index_of_from,
}
use kiro_fabric.LocalEdit.{
  TextEdit, overlapping, not_unique, is_any_occupied, insert, sort, place, place_all, collect,
  append, splice, apply_local_edits,
}
use kiro_fabric.LocalEdit.Splices.{Edits, apply_local_edits-Edits}

program : Unit {0}
unfolding starts_with index_of index_of_from is_any_occupied insert sort place place_all collect
    append splice apply_local_edits
program = tt

abbrev original : Text
original = 1 ∷ 2 ∷ 3 ∷ 2 ∷ 4 ∷ []

abbrev twos : TextEdit
twos = record { old_text = 2 ∷ []; new_text = 9 ∷ 9 ∷ []; all = true }

abbrev pair : TextEdit
pair = record { old_text = 3 ∷ 2 ∷ []; new_text = []; all = false }

both_replaced :
    apply_local_edits length original (twos ∷ [])
    ≡ some (
        ok (record {
          text = 1 ∷ 9 ∷ 9 ∷ 3 ∷ 9 ∷ 9 ∷ 4 ∷ [];
          regions =
              record { before_start = 1; before_end = 2; after_start = 1; after_end = 3 }
              ∷ record { before_start = 3; before_end = 4; after_start = 4; after_end = 6 }
              ∷ [];
        }))
unfolding program
both_replaced = refl

overlap_refused : apply_local_edits length original (pair ∷ twos ∷ []) ≡ some (err overlapping)
unfolding program
overlap_refused = refl

ambiguity_refused :
    apply_local_edits length original (record twos { all = false } ∷ []) ≡ some (err not_unique)
unfolding program
ambiguity_refused = refl

apply_local_edits-Edits_example :
    Edits length original (twos ∷ []) (apply_local_edits length original (twos ∷ []))
apply_local_edits-Edits_example = apply_local_edits-Edits length original (twos ∷ [])
