-- ===== src/Catalog/Publish/Charges.antt =====
-- What `publish` of src/core/catalog-snapshot-store.ts charges a snapshot stays within its
-- reservation.
use kiro_fabric.Prelude.{
  ℕ, ◌+◌, ◌*◌, ◌≤◌, ◌&&◌, not, true, ◌≡◌, refl, List, [], ◌∷◌, Option, none, some, length, arith,
  ltb, ◌==◌, Bool-cases, Option-cases, inl, inr, Text, option_cases, some-injective, if_cases,
  subst, sym, ap,
}
use kiro_fabric.Catalog.Graph.{Node, object, Walked, walk, string, scalar, unsupported}
use kiro_fabric.Catalog.Graph.Measure.{walk-Accepted, node_count}
use kiro_fabric.Catalog.Store.{Method, Policy, Entry}
use kiro_fabric.Catalog.Cursors.{is_describe}
use kiro_fabric.Catalog.Publish.{
  Inventory, Descriptor, build, make_entries, base_bytes, is_array, entry_bytes, entry_of,
}

module _ (utf8_bytes : Text → ℕ) (p : Policy) where
  -- The bytes that the entries of the descriptors take.
  pub entries_bytes : List Entry → ℕ
  entries_bytes [] = 0
  entries_bytes (e ∷ es) = entry_bytes utf8_bytes p e.text + entries_bytes es

  pub texts_of : List Descriptor → List Text
  texts_of [] = []
  texts_of (d ∷ ds) = d.json ∷ texts_of ds

  pub entry_texts : List Entry → List Text
  entry_texts [] = []
  entry_texts (e ∷ es) = e.text ∷ entry_texts es

  -- A snapshot's charge for an inventory: one entry for each descriptor, all bytes counted, and
  -- both quotas of the reservation kept.
  pub record ChargedFor (dependencies : ℕ) (inventory : Inventory) (query : Option Text)
      (entries : List Entry) (bytes nodes : ℕ) : Type 0 where
    pub texts : entry_texts entries ≡ texts_of inventory.descriptors
    pub counted : nodes ≡ dependencies + node_count inventory.graph
    pub charged : bytes ≡ base_bytes utf8_bytes p dependencies nodes query + entries_bytes entries
    pub within_bytes : bytes ≤ p.reservation_bytes
    pub within_nodes : nodes ≤ p.reservation_nodes

  pub record Returned (dependencies : ℕ) (inventory : Inventory) (query : Option Text)
      (x : Option (List Entry × (ℕ × ℕ))) : Type 0 where
    pub result :
        (entries : List Entry) (bytes nodes : ℕ)
        → x ≡ some (entries, (bytes, nodes))
        → ChargedFor dependencies inventory query entries bytes nodes

  goes_on :
      (d : Descriptor) (ds : List Descriptor) (bytes total : ℕ) (es rest : List Entry) (sum : ℕ)
      → make_entries utf8_bytes p ds (bytes + entry_bytes utf8_bytes p d.json) ≡ some (rest, sum)
      → make_entries utf8_bytes p (d ∷ ds) bytes ≡ some (es, total)
      → (es ≡ entry_of utf8_bytes p d ∷ rest) × (total ≡ sum)
  unfolding make_entries
  goes_on d ds bytes total es rest sum run h = (ground (arith, run, h), ground (arith, run, h))

  make_entries-bytes :
      (ds : List Descriptor) (bytes total : ℕ) (es : List Entry)
      → make_entries utf8_bytes p ds bytes ≡ some (es, total)
      → (entry_texts es ≡ texts_of ds) × (total ≡ bytes + entries_bytes es)
  unfolding make_entries entries_bytes texts_of entry_texts
  make_entries-bytes [] bytes total es h = (ground (arith, h), ground (arith, h))
  make_entries-bytes (d ∷ ds) bytes total es h =
      elim (Option-cases (make_entries utf8_bytes p ds (bytes + entry_bytes utf8_bytes p d.json))) [
        | inl stop ↦ absurd (ground (arith, h, stop))
        | inr ((rest, sum), run) ↦
            let (texts, bytes_in) =
              make_entries-bytes ds (bytes + entry_bytes utf8_bytes p d.json) sum rest run in
            let (one, all) = goes_on d ds bytes total es rest sum run h in
            (
              subst (λ xs. entry_texts xs ≡ d.json ∷ texts_of ds) (sym one) (ap (◌∷◌ d.json) texts),
              subst (λ xs. total ≡ bytes + entries_bytes xs) (sym one)
                  (omega (arith, all, bytes_in)),
            )
      ]

  start_within :
      (g : Node) (w w' : Walked)
      → is_array g ≡ true
      → walk p.reservation_nodes p.reservation_bytes g 0 w ≡ some w'
      → w.nodes ≤ p.reservation_nodes
  unfolding walk
  start_within (string n) w w' a h = absurd (ground (arith, a))
  start_within scalar w w' a h = absurd (ground (arith, a))
  start_within unsupported w w' a h = absurd (ground (arith, a))
  start_within (object i b q ms) w w' a h =
      elim (Bool-cases (ltb p.reservation_nodes (w.nodes + 1))) [
        | inl over ↦ absurd (ground (arith, over, h))
        | inr under ↦ ground (arith, under)
      ]

  -- For a snapshot whose dependencies fit its reservation, an inventory that is accepted has one
  -- entry with its JSON text for each descriptor, in order, is charged for exactly those texts and
  -- for all values of its graph, and the charges stay within the reservation.
  pub build-Returned :
      (dependencies : ℕ) (method : Method) (inventory : Inventory) (query : Option Text)
      → dependencies * 64 ≤ p.reservation_bytes
      → Returned dependencies inventory query
          (build utf8_bytes p dependencies method inventory query)
  unfolding build
  build-Returned dependencies method inventory query linked =
      if_cases (Returned dependencies inventory query) (not (is_array inventory.graph)) (λ _. fails)
        λ array.
          option_cases (Returned dependencies inventory query)
            (walk p.reservation_nodes p.reservation_bytes inventory.graph 0 start) (λ _. fails)
            λ w run.
              if_cases (Returned dependencies inventory query)
                (is_describe method && not (length inventory.descriptors == 1)) (λ _. fails)
                λ _.
                  if_cases (Returned dependencies inventory query)
                    (ltb p.reservation_bytes (base_bytes utf8_bytes p dependencies w.nodes query))
                    (λ _. fails)
                    λ _.
                      option_cases (Returned dependencies inventory query)
                        (make_entries utf8_bytes p inventory.descriptors
                          (base_bytes utf8_bytes p dependencies w.nodes query))
                        (λ _. fails)
                        λ (es, total) made.
                          if_cases (Returned dependencies inventory query)
                            (ltb p.reservation_bytes total) (λ _. fails)
                            λ small.
                              gives w es total (ground (arith, array)) run made
                                (ground (arith, small))
    where
      start : Walked
      start = record { nodes = dependencies; raw = dependencies * 64; seen = [] }

      fails : Returned dependencies inventory query none
      fails = record { result = λ entries bytes nodes h. absurd (ground (arith, h)) }

      gives :
          (w : Walked) (es : List Entry) (total : ℕ)
          → is_array inventory.graph ≡ true
          → walk p.reservation_nodes p.reservation_bytes inventory.graph 0 start ≡ some w
          → make_entries utf8_bytes p inventory.descriptors
              (base_bytes utf8_bytes p dependencies w.nodes query)
            ≡ some (es, total)
          → total ≤ p.reservation_bytes
          → Returned dependencies inventory query (some (es, (total, w.nodes)))
      gives w es total array run made small =
          let (texts, bytes) =
            make_entries-bytes inventory.descriptors
              (base_bytes utf8_bytes p dependencies w.nodes query) total es made in
          let accepted =
            walk-Accepted p.reservation_nodes p.reservation_bytes inventory.graph 0 start w
              (start_within inventory.graph start w array run) linked (omega arith) refl run in
          record {
            result = λ entries total' nodes h.
                subst (λ x. ChargedFor dependencies inventory query x.0 x.1.0 x.1.1)
                  (some-injective h)
                  (record {
                    texts = texts;
                    counted = accepted.counted;
                    charged = bytes;
                    within_bytes = small;
                    within_nodes = accepted.within_nodes;
                  });
          }
