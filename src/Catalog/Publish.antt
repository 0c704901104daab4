-- ===== src/Catalog/Publish.antt =====
-- `publish` of a reservation in src/core/catalog-snapshot-store.ts: the inventory is validated and
-- charged, and its descriptors are kept as JSON.
pub mod Charges
use kiro_fabric.Prelude.{
  ℕ, ◌+◌, ◌*◌, min, Bool, true, false, ◌&&◌, ◌||◌, not, ltb, leb, ◌==◌, if◌then◌else◌, List, [],
  ◌∷◌, Option, none, some, length, Text, Outcome, ok, err,
}
use kiro_fabric.Catalog.Graph.{Node, object, Walked, walk}
use kiro_fabric.Catalog.Store.{
  Method, CatalogError, quota, unavailable, Policy, Entry, Published, Snapshot, Store, Reservation,
  lookup, delete, replace, prune,
}
use kiro_fabric.Catalog.Cursors.{Body, Cursor, is_describe, token}

-- A descriptor: its text by JSON.stringify, whether the checks before that accept it, its own digest
-- when it has a well-formed one, and the digest that is computed otherwise.
pub record Descriptor : Type 0 where
  pub json : Text
  pub is_json : Bool
  pub supplied_digest : Option ℕ
  pub computed_digest : ℕ

-- The inventory as the graph that `walk` validates, with its descriptors.
pub record Inventory : Type 0 where
  pub graph : Node
  pub descriptors : List Descriptor

abbrev pub is_array : Node → Bool
is_array (object identity b is_plain members) = b
is_array _ = false

module _ (utf8_bytes : Text → ℕ) (p : Policy) where
  abbrev pub entry_bytes : Text → ℕ
  entry_bytes text = length text * 2 + utf8_bytes text + 256

  abbrev pub entry_of : Descriptor → Entry
  entry_of d = record {
    text = d.json;
    digest = elim d.supplied_digest [ some digest ↦ digest | none ↦ d.computed_digest ];
  }

  -- The loop over the descriptors; `none` is an error.
  unfoldable pub make_entries : List Descriptor → ℕ → Option (List Entry × ℕ)
  make_entries [] bytes = some ([], bytes)
  make_entries (d ∷ ds) bytes =
      let rest = make_entries ds (bytes + entry_bytes d.json) in
      if not d.is_json || ltb (min 8_000_000 p.reservation_bytes) (length d.json)
      then none
      else if ltb p.reservation_bytes (bytes + entry_bytes d.json)
      then none
      else elim rest [ none ↦ none | some (es, total) ↦ some (entry_of d ∷ es, total) ]

  abbrev pub base_bytes : ℕ → ℕ → Option Text → ℕ
  base_bytes dependencies nodes query =
      512 + dependencies * 64 + nodes * 32 + elim query [ none ↦ 0 | some q ↦ length q ] * 4

  -- The `try` block: the entries, with the bytes and nodes that they are charged.
  unfoldable pub build : ℕ → Method → Inventory → Option Text → Option (List Entry × (ℕ × ℕ))
  build dependencies method inventory query =
      if not (is_array inventory.graph)
      then none
      else elim (walk p.reservation_nodes p.reservation_bytes inventory.graph 0
          (record { nodes = dependencies; raw = dependencies * 64; seen = [] })) [
            | none ↦ none
            | some w ↦
                if is_describe method && not (length inventory.descriptors == 1)
                then none
                else if ltb p.reservation_bytes (base_bytes dependencies w.nodes query)
                then none
                else elim (make_entries inventory.descriptors
                    (base_bytes dependencies w.nodes query)) [
                      | none ↦ none
                      | some (entries, bytes) ↦
                          if ltb p.reservation_bytes bytes
                          then none
                          else some (entries, (bytes, w.nodes))
                    ]
          ]

  module _ (mac : ℕ → Body → ℕ) where
    unfoldable pub publish :
        (ℕ → Bool)
        → Store
        → Reservation
        → Method
        → Inventory
        → Option Text
        → (now later : ℕ) → (Store × Reservation) × Outcome CatalogError Cursor
    publish is_current st r method inventory query now later =
        let pruned = prune p is_current now st.snapshots in
        let swept : Store = record st { snapshots = pruned } in
        let ended : Reservation = record r { is_active = false } in
        elim (lookup r.id pruned) [
          | none ↦ ((swept, r), err unavailable)
          | some s ↦
              if not r.is_active
              then ((swept, r), err unavailable)
              else elim (build (length s.dependencies) method inventory query) [
                | none ↦ ((record st { snapshots = delete r.id pruned }, ended), err quota)
                | some (entries, (bytes, nodes)) ↦ (
                  (
                    record st {
                      snapshots =
                          replace
                            (record s {
                              published = some (record { method = method; entries = entries });
                              bytes = bytes;
                              nodes = nodes;
                              touched = later;
                            })
                            pruned;
                    },
                    ended,
                  ),
                  ok (
                      token mac p st.key s.id s.expires method
                        (if is_describe method then some 0 else none) 0),
                )
              ]
        ]
