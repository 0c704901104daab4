-- ===== src/JsonBudget/Tests.antt =====
-- Prefixes and bounded results of src/runtime/json-budget.ts on small texts.
use kiro_fabric.JsonBudget.Preflight.{
  Value, null, boolean, string, array, object, nil, cons, index, name, nothing_visited, preflight,
}
use kiro_fabric.JsonBudget.Preflight.Walks.{walk, preflight-walk}
use kiro_fabric.Prelude.{ℕ, true, false, ◌>>=◌, ◌≡◌, refl, [], ◌∷◌, inr, ok, arith}
use kiro_fabric.JsonBudget.{Bounded, truncated, json_string_prefix, bounded_result}
use kiro_fabric.JsonBudget.Escape.{escape}
use kiro_fabric.JsonBudget.Prefix.{
  IsLongestPrefix, json_string_prefix-IsLongestPrefix, IsBounded, bounded_result-IsBounded,
}

-- A quote, a lone high surrogate and a pair.
quoted : json_string_prefix (97 ∷ 0x22 ∷ 98 ∷ []) 3 ≡ 97 ∷ 0x22 ∷ []
unfolding json_string_prefix
quoted = refl

pair_is_whole : json_string_prefix (0xd83d ∷ 0xde00 ∷ 97 ∷ []) 1 ≡ []
unfolding json_string_prefix
pair_is_whole = refl

lone : escape (0xd83d ∷ 97 ∷ []) ≡ 0x5c ∷ 117 ∷ 100 ∷ 56 ∷ 51 ∷ 100 ∷ 97 ∷ []
unfolding escape
lone = refl

abbrev envelope : ℕ → ℕ
envelope n = 2

cut : bounded_result envelope (97 ∷ 10 ∷ 98 ∷ 99 ∷ 100 ∷ 101 ∷ []) 5 ≡ ok (truncated (97 ∷ 10 ∷ []))
unfolding bounded_result json_string_prefix
cut = refl

bounded_result-IsBounded_example :
    (r : Bounded) × (bounded_result envelope (97 ∷ 10 ∷ 98 ∷ 99 ∷ 100 ∷ 101 ∷ []) 5 ≡ ok r)
    × IsBounded envelope (97 ∷ 10 ∷ 98 ∷ 99 ∷ 100 ∷ 101 ∷ []) 5 r
bounded_result-IsBounded_example =
    bounded_result-IsBounded envelope (97 ∷ 10 ∷ 98 ∷ 99 ∷ 100 ∷ 101 ∷ []) 5 (omega arith)
      (inr (omega arith))

json_string_prefix-IsLongestPrefix_example :
    IsLongestPrefix (97 ∷ 0x22 ∷ 98 ∷ []) 3 (json_string_prefix (97 ∷ 0x22 ∷ 98 ∷ []) 3)
json_string_prefix-IsLongestPrefix_example =
    json_string_prefix-IsLongestPrefix (97 ∷ 0x22 ∷ 98 ∷ []) 3

-- `{ "a": [true, "b"], "c": null }`.
abbrev small_graph : Value
small_graph = object 1 false true false (
    cons (name (97 ∷ [])) true true
      (array 2 false false ((48 ∷ []) ∷ (49 ∷ []) ∷ [])
        (cons (index 0) true true (boolean true) (cons (index 1) true true (string (98 ∷ [])) nil)))
      (cons (name (99 ∷ [])) true true null nil))

preflight-walk_example :
    preflight small_graph 100
    ≡ (walk 100 small_graph 0 false [] nothing_visited >>= λ v. ok v.snapshot)
preflight-walk_example = preflight-walk 100 small_graph
