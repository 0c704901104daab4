-- ===== src/Catalog/Graph.antt =====
-- The `walk` of `publish` in src/core/catalog-snapshot-store.ts: the inventory as a JavaScript graph,
-- validated before it is serialised.
pub mod Measure
use kiro_fabric.Prelude.{
  ℕ, suc, ◌+◌, ◌*◌, Bool, true, false, ◌||◌, not, ltb, leb, ◌==◌, if◌then◌else◌, List, [], ◌∷◌,
  Option, none, some,
}

-- A value as `walk` sees it. An object has an identity; `is_plain` says that it is no proxy, has an
-- ordinary prototype and no symbol keys, and, for an array, as many elements as its length. A member
-- has its key's length, and `is_data` says that it is an enumerable data property, of an array an
-- element.
mutual
  pub data Node : Type 0 where
    string : ℕ → Node
    scalar unsupported : Node
    object : (identity : ℕ) (is_array is_plain : Bool) (members : Members) → Node

  pub data Members : Type 0 where
    nil : Members
    cons : (key_chars : ℕ) (is_data : Bool) (value : Node) (rest : Members) → Members

pub record Walked : Type 0 where
  pub nodes : ℕ
  pub raw : ℕ
  pub seen : List ℕ

abbrev pub key_count : Members → ℕ
key_count nil = 0
key_count (cons k d v ms) = suc (key_count ms)

abbrev pub occurs_in : ℕ → List ℕ → Bool
occurs_in i [] = false
occurs_in i (j ∷ js) = (i == j) || occurs_in i js

module _ (reservation_nodes reservation_bytes : ℕ) where
  unfoldable mutual
    -- `none` is the quota error. The depth of the inventory itself is 0, which is -1 in the source.
    pub walk : Node → ℕ → Walked → Option Walked
    walk (string chars) depth w =
        if ltb reservation_nodes (w.nodes + 1) || ltb reservation_bytes (w.raw + chars * 2)
        then none
        else some (record w { nodes = w.nodes + 1; raw = w.raw + chars * 2 })
    walk scalar depth w =
        if ltb reservation_nodes (w.nodes + 1)
        then none
        else some (record w { nodes = w.nodes + 1 })
    walk unsupported depth w = none
    walk (object identity is_array is_plain members) depth w =
        let keys = if is_array then key_count members + 1 else key_count members in
        let inner =
          walk_members members depth
            (record { nodes = w.nodes + 1; raw = w.raw; seen = identity ∷ w.seen }) in
        if ltb reservation_nodes (w.nodes + 1)
        then none
        else if leb 65 depth || occurs_in identity w.seen || not is_plain
        then none
        else if ltb (reservation_nodes + 1) (keys + (w.nodes + 1))
        then none
        else inner

    pub walk_members : Members → ℕ → Walked → Option Walked
    walk_members nil depth w = some w
    walk_members (cons key_chars is_data value rest) depth w =
        if not is_data || ltb reservation_bytes (w.raw + key_chars * 2)
        then none
        else elim (walk value (depth + 1) (record w { raw = w.raw + key_chars * 2 })) [
          | none ↦ none
          | some v ↦ walk_members rest depth v
        ]
