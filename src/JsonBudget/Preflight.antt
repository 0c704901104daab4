-- ===== src/JsonBudget/Preflight.antt =====
-- `preflight` and `fabricJsonText` of src/runtime/json-budget.ts: a stack of values to visit. The
-- snapshot is the list of its assignments, each with the path of its parent and its key.
pub mod Walks
use kiro_fabric.Prelude.{
  ℕ, zero, suc, ◌+◌, ◌*◌, ◌-◌, min, Bool, true, false, ◌&&◌, ◌||◌, not, ltb, leb, ◌==◌,
  if◌then◌else◌, List, [], ◌∷◌, ◌++◌, Option, none, some, length, Text, Outcome, ok, err, ◌>>=◌,
  ◌>>◌, throw_if, same_text, units,
}

pub data Key : Type 0 where
  index : ℕ → Key
  name : Text → Key

-- A value as `preflight` sees it. A member says whether it is a data property and enumerable; a hole
-- of an array is no data property. An array has the names of its own properties but for its length.
mutual
  pub data Value : Type 0 where
    null undefined unsupported : Value
    boolean : Bool → Value
    string : Text → Value
    number : (is_finite : Bool) → ℕ → Value
    array :
        (identity : ℕ) (is_proxy has_symbols : Bool) (properties : List Text) (elements : Members)
        → Value
    object : (identity : ℕ) (is_proxy is_plain has_symbols : Bool) (members : Members) → Value

  pub data Members : Type 0 where
    nil : Members
    cons : (key : Key) (is_data is_enumerable : Bool) (value : Value) (rest : Members) → Members

pub data JsonError : Type 0 where
  invalid_limit raw_characters non_finite unsupported_value proxy depth_limit shared node_limit :
      JsonError
  non_index accessor non_plain symbols not_serializable serialized_characters unfinished : JsonError

pub data Leaf : Type 0 where
  null_leaf container : Leaf
  boolean_leaf : Bool → Leaf
  string_leaf : Text → Leaf
  number_leaf : ℕ → Leaf

-- `parent[key] = leaf`; the path begins with the key.
pub record Assignment : Type 0 where
  pub path : List Key
  pub leaf : Leaf

pub record Visited : Type 0 where
  pub nodes : ℕ
  pub raw_chars : ℕ
  pub seen : List ℕ
  pub snapshot : List Assignment

pub record Item : Type 0 where
  pub value : Value
  pub depth : ℕ
  pub is_nested : Bool
  pub path : List Key

abbrev pub max_json_chars : ℕ
max_json_chars = 8_000_000

abbrev pub max_json_depth : ℕ
max_json_depth = 64

abbrev pub max_json_nodes : ℕ
max_json_nodes = 100_000

abbrev pub max_array_index : ℕ
max_array_index = 4_294_967_294

unfoldable pub normalized_limit : Option ℕ → Outcome JsonError ℕ
normalized_limit none = err invalid_limit
normalized_limit (some n) = if ltb n 1 then err invalid_limit else ok (min n max_json_chars)

abbrev pub is_digit : ℕ → Bool
is_digit c = leb 48 c && leb c 57

abbrev pub are_digits : Text → Bool
are_digits [] = true
are_digits (c ∷ cs) = is_digit c && are_digits cs

abbrev pub number_of : ℕ → Text → ℕ
number_of n [] = n
number_of n (c ∷ cs) = number_of (n * 10 + (c - 48)) cs

unfoldable pub is_array_index : Text → Bool
is_array_index [] = false
is_array_index (c ∷ cs) =
    ((c == 48) && (length cs == 0))
    || (not (c == 48) && is_digit c && are_digits cs && leb (number_of 0 (c ∷ cs)) max_array_index)

unfoldable pub are_array_indices : List Text → Bool
are_array_indices [] = true
are_array_indices (k ∷ ks) = is_array_index k && are_array_indices ks

-- The elements of an array are visited all, the members of an object if they are enumerable.
abbrev pub is_visited : Key → Bool → Bool
is_visited (index i) is_enumerable = true
is_visited (name key) is_enumerable = is_enumerable

abbrev pub is_seen : ℕ → List ℕ → Bool
is_seen i [] = false
is_seen i (j ∷ js) = (i == j) || is_seen i js

abbrev pub count : Members → ℕ
count nil = 0
count (cons key is_data is_enumerable value rest) = suc (count rest)

abbrev pub assign : List Key → Leaf → Visited → Visited
assign path leaf v = record v {
  snapshot = v.snapshot ++ (record { path = path; leaf = leaf }) ∷ [];
}

-- The checks of every object.
unfoldable pub enter : ℕ → Bool → ℕ → Visited → Outcome JsonError Visited
enter identity is_proxy depth v = do
  throw_if is_proxy proxy
  throw_if (leb max_json_depth depth) depth_limit
  throw_if (is_seen identity v.seen) shared
  ok (record v { seen = identity ∷ v.seen })

module _ (max_chars : ℕ) where
  -- A round for a value, up to its members.
  unfoldable pub visit : Value → ℕ → Bool → List Key → Visited → Outcome JsonError Visited
  visit null depth nested path v = ok (assign path null_leaf v)
  visit (boolean b) depth nested path v = ok (assign path (boolean_leaf b) v)
  visit (string text) depth nested path v = do
    throw_if (ltb max_chars (v.raw_chars + length text)) raw_characters
    ok (assign path (string_leaf text) (record v { raw_chars = v.raw_chars + length text }))
  visit (number is_finite n) depth nested path v = do
    throw_if (not is_finite) non_finite
    ok (assign path (number_leaf n) v)
  visit undefined depth nested path v = if nested then err unsupported_value else ok v
  visit unsupported depth nested path v = err unsupported_value
  visit (array identity is_proxy has_symbols properties elements) depth nested path v = do
    w ← enter identity is_proxy depth v
    throw_if (ltb max_json_nodes (w.nodes + count elements)) node_limit
    throw_if (has_symbols || not (are_array_indices properties)) non_index
    ok (assign path container (record w { nodes = w.nodes + count elements }))
  visit (object identity is_proxy is_plain has_symbols members) depth nested path v = do
    w ← enter identity is_proxy depth v
    throw_if (not is_plain) non_plain
    throw_if has_symbols symbols
    throw_if (ltb max_json_nodes (count members + w.nodes)) node_limit
    ok (assign path container w)

  -- The charge of a member of an object.
  unfoldable pub charge : Key → Visited → Outcome JsonError Visited
  charge (index i) v = ok v
  charge (name key) v = do
    throw_if (ltb max_chars (v.raw_chars + length key)) raw_characters
    ok (record v { nodes = v.nodes + 1; raw_chars = v.raw_chars + length key })

  abbrev pub Stacked : Type 0
  Stacked = Visited × List Item

  -- The loop over the members, from the last to the first, which pushes their values.
  unfoldable pub push_members : Members → ℕ → List Key → Stacked → Outcome JsonError Stacked
  push_members nil depth path x = ok x
  push_members (cons key is_data is_enumerable value rest) depth path x =
      push_members rest depth path x >>= λ later. throw_if (not is_data) accessor >>= λ checked.
      if is_visited key is_enumerable
      then (charge key later.0 >>= λ v. ok (
        v,
        (record { value = value; depth = depth + 1; is_nested = true; path = key ∷ path })
            ∷ later.1,
      ))
      else ok later

  abbrev pub members_of : Value → Members
  members_of (array identity is_proxy has_symbols properties elements) = elements
  members_of (object identity is_proxy is_plain has_symbols members) = members
  members_of other = nil

  unfoldable pub preflight_loop : ℕ → List Item → Visited → Outcome JsonError Visited
  preflight_loop zero [] v = ok v
  preflight_loop (suc rounds) [] v = ok v
  preflight_loop zero (item ∷ stack) v = err unfinished
  preflight_loop (suc rounds) (item ∷ stack) v =
      visit item.value item.depth item.is_nested item.path v >>= λ w.
      push_members (members_of item.value) item.depth item.path (w, stack) >>= λ x.
      preflight_loop rounds x.1 x.0

-- The number of rounds that a value takes.
unfoldable mutual
  pub rounds_of : Value → ℕ
  rounds_of null = 1
  rounds_of undefined = 1
  rounds_of unsupported = 1
  rounds_of (boolean b) = 1
  rounds_of (string text) = 1
  rounds_of (number is_finite n) = 1
  rounds_of (array identity is_proxy has_symbols properties elements) = suc (rounds_all elements)
  rounds_of (object identity is_proxy is_plain has_symbols members) = suc (rounds_all members)

  pub rounds_all : Members → ℕ
  rounds_all nil = 0
  rounds_all (cons key is_data is_enumerable value rest) =
      if is_visited key is_enumerable then rounds_of value + rounds_all rest else rounds_all rest

abbrev pub nothing_visited : Visited
nothing_visited = record { nodes = 1; raw_chars = 0; seen = []; snapshot = [] }

unfoldable pub preflight : Value → ℕ → Outcome JsonError (List Assignment)
preflight root max_chars =
    preflight_loop max_chars (rounds_of root)
      ((record { value = root; depth = 0; is_nested = false; path = [] }) ∷ []) nothing_visited
    >>= λ v. ok v.snapshot

abbrev pub is_undefined : Value → Bool
is_undefined undefined = true
is_undefined other = false

-- `serialize` is JSON.stringify of the snapshot.
module _ (serialize : List Assignment → Option Text) where
  unfoldable pub fabric_json_text : Value → Option ℕ → Outcome JsonError Text
  unfolding units
  fabric_json_text value maximum = normalized_limit maximum >>= λ limit.
      preflight value limit >>= λ snapshot.
      if is_undefined value then ok (units "null") else elim (serialize snapshot) [
        | none ↦ err not_serializable
        | some text ↦ if ltb limit (length text) then err serialized_characters else ok text
      ]

  unfoldable pub assert_fabric_json_budget : Value → Option ℕ → Outcome JsonError (Unit {0})
  assert_fabric_json_budget value maximum = fabric_json_text value maximum >>= λ text. ok tt
