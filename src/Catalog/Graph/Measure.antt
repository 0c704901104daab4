-- ===== src/Catalog/Graph/Measure.antt =====
-- What an accepted walk of src/core/catalog-snapshot-store.ts says of the graph.
use kiro_fabric.Prelude.{
  ℕ, suc, ◌+◌, ◌*◌, ◌≤◌, Bool, true, false, ◌≡◌, refl, Option, none, some, max, arith, ltb, leb,
  ◌||◌, ◌&&◌, not, if◌then◌else◌, Option-cases, inl, inr, ◌∙◌, ap, subst, List, ◌∷◌, [],
}
use kiro_fabric.Catalog.Graph.{
  Node, Members, string, scalar, unsupported, object, nil, cons, Walked, walk, walk_members,
  occurs_in,
}

-- How many values the graph has, how deep its objects nest, the UTF-16 bytes of its strings and
-- keys, and whether all of it is plain data.
unfoldable mutual
  pub node_count : Node → ℕ
  node_count (object i a p ms) = suc (member_count ms)
  node_count _ = 1

  pub member_count : Members → ℕ
  member_count nil = 0
  member_count (cons k d v ms) = node_count v + member_count ms

unfoldable mutual
  pub height : Node → ℕ
  height (object i a p ms) = suc (member_height ms)
  height _ = 0

  pub member_height : Members → ℕ
  member_height nil = 0
  member_height (cons k d v ms) = max (height v) (member_height ms)

unfoldable mutual
  pub string_bytes : Node → ℕ
  string_bytes (string n) = n * 2
  string_bytes (object i a p ms) = member_bytes ms
  string_bytes _ = 0

  pub member_bytes : Members → ℕ
  member_bytes nil = 0
  member_bytes (cons k d v ms) = k * 2 + string_bytes v + member_bytes ms

unfoldable mutual
  pub is_data_only : Node → Bool
  is_data_only unsupported = false
  is_data_only (object i a p ms) = p && are_data_only ms
  is_data_only _ = true

  pub are_data_only : Members → Bool
  are_data_only nil = true
  are_data_only (cons k d v ms) = d && is_data_only v && are_data_only ms

unfoldable mutual
  -- The identities of the objects, last visited first, in front of `seen`.
  pub visit : Node → List ℕ → List ℕ
  visit (object i a p ms) seen = visit_members ms (i ∷ seen)
  visit _ seen = seen

  pub visit_members : Members → List ℕ → List ℕ
  visit_members nil seen = seen
  visit_members (cons k d v ms) seen = visit_members ms (visit v seen)

abbrev pub has_no_repeats : List ℕ → Bool
has_no_repeats [] = true
has_no_repeats (i ∷ is) = not (occurs_in i is) && has_no_repeats is

-- A walk that went from `w` to `w'`, over a graph of these measures.
pub record Accepted (nodes bytes height count raw depth : ℕ) (is_data : Bool) (seen : List ℕ)
    (w w' : Walked) : Type 0 where
  pub counted : w'.nodes ≡ w.nodes + count
  pub measured : w'.raw ≡ w.raw + raw
  pub within_nodes : w'.nodes ≤ nodes
  pub within_bytes : w'.raw ≤ bytes
  pub shallow : depth + height ≤ 65
  pub data_only : is_data ≡ true
  pub visited : w'.seen ≡ seen
  pub unrepeated : has_no_repeats w'.seen ≡ true

passed :
    {a b c : Bool} {r : Option Walked} {w : Walked}
    → (if a then none else if b then none else if c then none else r) ≡ some w
    → (a ≡ false) × (b ≡ false) × (c ≡ false) × (r ≡ some w)
passed {a = true} run = ground (arith, run)
passed {a = false} {b = true} run = ground (arith, run)
passed {a = false} {b = false} {c = true} run = ground (arith, run)
passed {a = false} {b = false} {c = false} run = (refl, refl, refl, run)

went_on :
    (a b : Bool) {m : Option Walked} (f : Walked → Option Walked) {u w : Walked}
    → (if not a || b then none else elim m [ none ↦ none | some v ↦ f v ]) ≡ some w
    → m ≡ some u
    → (a ≡ true) × (b ≡ false) × (f u ≡ some w)
went_on false b f run more = ground (arith, run)
went_on true true f run more = ground (arith, run)
went_on true false f {u} {w} run more =
    (refl, refl, subst (λ m. (elim m [ none ↦ none | some v ↦ f v ]) ≡ some w) more run)

stopped :
    (a b : Bool) {m : Option Walked} (f : Walked → Option Walked) {w : Walked}
    → (if not a || b then none else elim m [ none ↦ none | some v ↦ f v ]) ≡ some w
    → m ≡ none
    → ⊥
stopped a b f run stop = ground (arith, run, stop)

or_false : {a b c : Bool} → (a || b || not c) ≡ false → (a ≡ false) × (b ≡ false) × (c ≡ true)
or_false h = ground (arith, h)

ltb-le : {m n : ℕ} → ltb m n ≡ false → n ≤ m
ltb-le h = ground (arith, h)

leb-le : {n : ℕ} → leb 65 n ≡ false → n ≤ 64
leb-le h = ground (arith, h)

module _ (nodes bytes : ℕ) where
  abbrev AcceptedNode : Node → ℕ → Walked → Walked → Type 0
  AcceptedNode v depth w w' =
      Accepted nodes bytes (height v) (node_count v) (string_bytes v) depth (is_data_only v)
        (visit v w.seen) w w'

  abbrev AcceptedMembers : Members → ℕ → Walked → Walked → Type 0
  AcceptedMembers ms depth w w' =
      Accepted nodes bytes (suc (member_height ms)) (member_count ms) (member_bytes ms) depth
        (are_data_only ms) (visit_members ms w.seen) w w'

  mutual
    unfolding walk walk_members node_count member_count height member_height string_bytes
        member_bytes is_data_only are_data_only visit visit_members

    walk-AcceptedNode :
        (v : Node) (depth : ℕ) (w w' : Walked)
        → w.nodes ≤ nodes
        → w.raw ≤ bytes
        → depth ≤ 65
        → has_no_repeats w.seen ≡ true
        → walk nodes bytes v depth w ≡ some w'
        → AcceptedNode v depth w w'
    walk-AcceptedNode (string chars) depth w w' hn hb hd hs run = record {
      counted = ground (arith, run);
      measured = ground (arith, run);
      within_nodes = ground (arith, run);
      within_bytes = ground (arith, run);
      shallow = ground (arith, run);
      data_only = ground (arith, run);
      visited = ground (arith, run);
      unrepeated = ground (arith, run);
    }
    walk-AcceptedNode scalar depth w w' hn hb hd hs run = record {
      counted = ground (arith, run);
      measured = ground (arith, run);
      within_nodes = ground (arith, run);
      within_bytes = ground (arith, run);
      shallow = ground (arith, run);
      data_only = ground (arith, run);
      visited = ground (arith, run);
      unrepeated = ground (arith, run);
    }
    walk-AcceptedNode unsupported depth w w' hn hb hd hs run = ground (arith, run)
    walk-AcceptedNode (object i is_array is_plain ms) depth w w' hn hb hd hs run =
        let start : Walked = record { nodes = w.nodes + 1; raw = w.raw; seen = i ∷ w.seen } in
        let (few, sound, keys, inner) = passed run in
        let (low, new, plain) = or_false sound in
        let rest =
          walk_members-AcceptedMembers ms depth start w' (ltb-le few) hb (leb-le low)
            (ground (arith, new, hs)) inner in
        record {
          counted = omega (arith, rest.counted);
          measured = rest.measured;
          within_nodes = rest.within_nodes;
          within_bytes = rest.within_bytes;
          shallow = omega (arith, rest.shallow);
          data_only = ground (arith, plain, rest.data_only);
          visited = rest.visited;
          unrepeated = rest.unrepeated;
        }

    walk_members-AcceptedMembers :
        (ms : Members) (depth : ℕ) (w w' : Walked)
        → w.nodes ≤ nodes
        → w.raw ≤ bytes
        → depth ≤ 64
        → has_no_repeats w.seen ≡ true
        → walk_members nodes bytes ms depth w ≡ some w'
        → AcceptedMembers ms depth w w'
    walk_members-AcceptedMembers nil depth w w' hn hb hd hs run = record {
      counted = ground (arith, run);
      measured = ground (arith, run);
      within_nodes = ground (arith, run);
      within_bytes = ground (arith, run);
      shallow = ground (arith, run);
      data_only = ground (arith, run);
      visited = ground (arith, run);
      unrepeated = ground (arith, run);
    }
    walk_members-AcceptedMembers (cons k d v ms) depth w w' hn hb hd hs run =
        elim (Option-cases (walk nodes bytes v (depth + 1) (record w { raw = w.raw + k * 2 }))) [
          | inl stop ↦
              absurd
                (stopped d (ltb bytes (w.raw + k * 2)) (walk_members nodes bytes ms depth) run stop)
          | inr (u, more) ↦
              let (plain, few, rest) =
                went_on d (ltb bytes (w.raw + k * 2)) (walk_members nodes bytes ms depth) run
                  more in
              let here =
                walk-AcceptedNode v (depth + 1) (record w { raw = w.raw + k * 2 }) u hn (ltb-le few)
                  (omega arith) hs more in
              let there =
                walk_members-AcceptedMembers ms depth u w' here.within_nodes here.within_bytes hd
                  here.unrepeated rest in
              record {
                counted = omega (arith, here.counted, there.counted);
                measured = omega (arith, here.measured, there.measured);
                within_nodes = there.within_nodes;
                within_bytes = there.within_bytes;
                shallow = omega (arith, here.shallow, there.shallow);
                data_only = ground (arith, plain, here.data_only, there.data_only);
                visited = there.visited ∙ ap (visit_members ms) here.visited;
                unrepeated = there.unrepeated;
              }
        ]

  -- Started within the quotas, at a depth of at most 65 and without repeated identities, a walk
  -- that accepts a graph has counted its values and the bytes of its strings and keys exactly and
  -- within the quotas; the graph is plain data of at most 65 nested objects, none of which occurs
  -- twice.
  pub walk-Accepted :
      (v : Node) (depth : ℕ) (w w' : Walked)
      → w.nodes ≤ nodes
      → w.raw ≤ bytes
      → depth ≤ 65
      → has_no_repeats w.seen ≡ true
      → walk nodes bytes v depth w ≡ some w'
      → AcceptedNode v depth w w'
  walk-Accepted = walk-AcceptedNode
